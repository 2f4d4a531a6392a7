-- ===== src/Service/Unqueried.antt =====
-- What `UnrelayedAcknowledgements` of core/naive-strategy.go finds where a setting forbids the query.
use yui_relayer.Base.{
  Bool, true, false, List, [], ◌≡◌, refl, if◌then◌else◌, Outcome, ok, err, panic, Action, Returns,
  Returns-next, Returns-then, Returns-always, both, both_ended, with_state, pure,
}
use yui_relayer.Packet.{PacketInfo, RelayPackets}
use yui_relayer.Chain.{ProvableChain}
use yui_relayer.Headers.{SyncHeaders}
use yui_relayer.Loop.{Retry}
use yui_relayer.Strategy.{NaiveStrategy, query_context}
use yui_relayer.Strategy.Unrelayed.{
  unrelayed_acknowledgements, acknowledgements_of, only_unreceived_acknowledgements,
  unreceived_acknowledgements, unless, with_headers,
}

abbrev pub Both : {A B : Type 0} → (A → Type 0) → (B → Type 0) → A × B → Type 0
Both P Q (a, b) = P a × Q b

pub both_ended-Returns :
    {W A B : Type 0} (P : A → Type 0) (Q : B → Type 0) (a : Outcome A) (v : W) (y : Outcome B × W)
    → Returns P (a, v)
    → Returns Q y
    → Returns (Both P Q) (both_ended a y)
both_ended-Returns P Q (ok a) v (ok b, w) h k = (h, k)
both_ended-Returns P Q (ok a) v (err e, w) h k = tt
both_ended-Returns P Q (ok a) v (panic, w) h k = tt
both_ended-Returns P Q (err e) v (ok b, w) h k = tt
both_ended-Returns P Q (err e) v (err e', w) h k = tt
both_ended-Returns P Q (err e) v (panic, w) h k = tt
both_ended-Returns P Q panic v (r, w) h k = tt

pub both-Returns :
    {W A B : Type 0} (P : A → Type 0) (Q : B → Type 0) (m : Action W A) (k : Action W B) (w : W)
    → ((w : W) → Returns P (m w))
    → ((w : W) → Returns Q (k w))
    → Returns (Both P Q) (both m k w)
both-Returns P Q m k w h h' = both_ended-Returns P Q (m w).0 (m w).1 (k (m w).1) (h w) (h' (m w).1)

-- A list that is empty where the setting is on.
abbrev pub EmptyIf : Bool → List PacketInfo → Type 0
EmptyIf b ps = b ≡ true → ps ≡ []

pub unless-EmptyIf :
    {S : Type 0} (b : Bool) (ps : List PacketInfo) (m : Action S (List PacketInfo)) (s : S)
    → EmptyIf b ps
    → Returns (EmptyIf b) (unless b ps m s)
unless-EmptyIf true ps m s h = h
unless-EmptyIf false ps m s h = Returns-always (EmptyIf false) (m s) (λ a e. cc)

abbrev pub Silenced : NaiveStrategy → RelayPackets → Type 0
Silenced st rp = EmptyIf st.dst_no_ack rp.src × EmptyIf st.src_no_ack rp.dst

module _ {W : Type 0} (retry : Retry) (src dst : ProvableChain W) (st : NaiveStrategy) where
  abbrev pub Lists : List PacketInfo × List PacketInfo → Type 0
  Lists = Both (EmptyIf st.dst_no_ack) (EmptyIf st.src_no_ack)

  pub only_unreceived-Lists :
      (sh : SyncHeaders) (ps : List PacketInfo × List PacketInfo) (w : W)
      → Lists ps
      → Returns Lists (only_unreceived_acknowledgements retry src dst st sh ps.0 ps.1 w)
  unfolding only_unreceived_acknowledgements
  only_unreceived-Lists sh ps w (h, k) =
      Returns-next Lists _ (query_context src sh false w) (λ src_ctx w1.
        Returns-next Lists _ (query_context dst sh false w1) (λ dst_ctx w2.
          both-Returns (EmptyIf st.dst_no_ack) (EmptyIf st.src_no_ack) _ _ w2
            (λ v.
              unless-EmptyIf st.dst_no_ack ps.0
                (unreceived_acknowledgements retry src dst dst dst_ctx ps.0) v h)
            (λ v.
              unless-EmptyIf st.src_no_ack ps.1
                (unreceived_acknowledgements retry src dst src src_ctx ps.1) v k)))

  pub filtered-Lists :
      (b : Bool) (ps : List PacketInfo × List PacketInfo) (s : W × SyncHeaders)
      → Lists ps
      → Returns Lists (
          (if b
              then pure ps
              else with_headers
                  (λ sh. only_unreceived_acknowledgements retry src dst st sh ps.0 ps.1))
            s)
  filtered-Lists true ps s h = h
  filtered-Lists false ps (w, sh) h =
      kept (only_unreceived_acknowledgements retry src dst st sh ps.0 ps.1 w)
        (only_unreceived-Lists sh ps w h)
    where
      kept :
          (x : Outcome (List PacketInfo × List PacketInfo) × W)
          → Returns Lists x
          → Returns Lists (with_state sh x)
      kept (ok a, v) h = h
      kept (err e, v) h = tt
      kept (panic, v) h = tt

  pub unrelayed_acknowledgements-Silenced :
      (include : Bool) (s : W × SyncHeaders)
      → Returns (Silenced st) (unrelayed_acknowledgements retry src dst st include s)
  unfolding unrelayed_acknowledgements
  unrelayed_acknowledgements-Silenced include s =
      let P = Silenced st in
      Returns-next P _ (with_headers (λ sh. query_context src sh true) s) (λ src_ctx s1.
        Returns-next P _ (with_headers (λ sh. query_context dst sh true) s1) (λ dst_ctx s2.
          let first =
            both
              (unless st.dst_no_ack [] (acknowledgements_of retry src dst src src_ctx dst.chain_id))
              (unless st.src_no_ack []
                (acknowledgements_of retry src dst dst dst_ctx src.chain_id)) in
          Returns-then P Lists _ (first s2)
            (both-Returns (EmptyIf st.dst_no_ack) (EmptyIf st.src_no_ack) _ _ s2
              (λ v.
                unless-EmptyIf st.dst_no_ack []
                  (acknowledgements_of retry src dst src src_ctx dst.chain_id) v (λ e. refl))
              (λ v.
                unless-EmptyIf st.src_no_ack []
                  (acknowledgements_of retry src dst dst dst_ctx src.chain_id) v (λ e. refl)))
            (λ ps s3 h.
              Returns-then P Lists _
                ((if include
                    then pure ps
                    else with_headers
                        (λ sh. only_unreceived_acknowledgements retry src dst st sh ps.0 ps.1))
                  s3)
                (filtered-Lists include ps s3 h) (λ qs s4 k. k))))
