-- ===== src/Service/Silent.antt =====
-- The settings `srcNoAck` and `dstNoAck` of core/naive-strategy.go in a round of core/service.go.
use yui_relayer.Base.{
  Returns-mono, Bool, true, false, not, ◌&&◌, List, [], ◌∷◌, ◌++◌, ◌≡◌, refl, subst, All,
  All-append, ◌⊎◌, inl, inr, Outcome, ok, err, panic, Returns, Returns-next, Returns-then, both,
  with_state, is_empty, length,
}
use yui_relayer.PathEnd.{PathEnd}
use yui_relayer.Msg.{Msg, acknowledgement}
use yui_relayer.Packet.{PacketInfo, RelayPackets}
use yui_relayer.Headers.{SyncHeaders}
use yui_relayer.RelayMsgs.{RelayMsgs, send, send_side, start as batch_start, new_relay_msgs}
use yui_relayer.Handshake.Updates.{IsUpdateOf}
use yui_relayer.Strategy.Timeouts.{process_timeout_packets}
use yui_relayer.Strategy.Unrelayed.{unrelayed_packets, unrelayed_acknowledgements, with_headers}
use yui_relayer.Strategy.Relay.{no_ack, to_chain, send_all}
use yui_relayer.Service.{RelayService, Decision, direction_msgs, round_msgs, refresh, serve}
use yui_relayer.Service.Decide.{should_execute_relay}
use yui_relayer.Service.Directed.{direction_msgs-Directed}
use yui_relayer.Service.Collected.{none_left, one_more}
use yui_relayer.Service.Collected.{Directed, Each, IsRecv, IsAck, chosen_if}
use yui_relayer.Service.Unqueried.{
  Both, both-Returns, EmptyIf, Silenced, unrelayed_acknowledgements-Silenced,
}

-- A message that is not MsgAcknowledgement.
abbrev pub is_ack : Msg → Bool
is_ack (acknowledgement _ _ _ _ _) = true
is_ack _ = false

abbrev pub NoAck : List Msg → Type 0
NoAck = All (λ m. is_ack m ≡ false)

Each-NoAck :
    (R : PacketInfo → Msg → Type 0) (ps : List PacketInfo) (ms : List Msg)
    → ((p : PacketInfo) (m : Msg) → R p m → is_ack m ≡ false)
    → Each R ps ms
    → NoAck ms
Each-NoAck R ps ms f none_left = tt
Each-NoAck R ps ms f (one_more {p = p} {m = m} {ps = qs} {ms = ns} r h) =
    (f p m r, Each-NoAck R qs ns f h)

updates-NoAck : (pe : PathEnd) (ms : List Msg) → All (IsUpdateOf pe) ms → NoAck ms
updates-NoAck pe [] h = tt
updates-NoAck pe (m ∷ ms) ((header, signer, e, valid), h) = (rw e refl, updates-NoAck pe ms h)

none-NoAck : (ms : List Msg) → Each IsAck [] ms → NoAck ms
none-NoAck ms none_left = tt

Directed-NoAck :
    (to : PathEnd) (packets timeouts : List PacketInfo) (ms : List Msg)
    → Directed to packets [] timeouts ms
    → NoAck ms
Directed-NoAck to packets timeouts ms d =
    let N : Msg → Type 0 = (λ m. is_ack m ≡ false) in
    rw d.whole (
      All-append N (d.update_msgs ++ d.packet_msgs ++ d.ack_msgs) d.timeout_msgs
        (All-append N (d.update_msgs ++ d.packet_msgs) d.ack_msgs
          (All-append N d.update_msgs d.packet_msgs (updates-NoAck to d.update_msgs d.updates) (
            Each-NoAck IsRecv packets d.packet_msgs (λ p m (proof, height, signer, e). rw e refl)
              d.recvs))
          (none-NoAck d.ack_msgs d.acknowledgements))
        (Each-NoAck _ timeouts d.timeout_msgs (λ p m (proof, height, signer, e). rw e refl)
          d.timed_out))

chosen_if-nil : (b : Bool) (ps : List PacketInfo) → ps ≡ [] → chosen_if b ps ≡ []
chosen_if-nil true ps e = e
chosen_if-nil false ps e = refl

-- Where one of the settings is on, neither direction has acknowledgements to send.
chosen-nil :
    (src_off dst_off : Bool) (ps : List PacketInfo) (do_ack : Bool)
    → (src_off ≡ true) ⊎ (dst_off ≡ true)
    → EmptyIf dst_off ps
    → chosen_if (not src_off && do_ack) ps ≡ []
chosen-nil true dst_off ps do_ack h e = refl
chosen-nil false true ps do_ack h e = chosen_if-nil do_ack ps (e refl)
chosen-nil false false ps do_ack (inl h) e = cc
chosen-nil false false ps do_ack (inr h) e = cc

abbrev pub SilentRound : RelayMsgs → Type 0
SilentRound r = NoAck r.src × NoAck r.dst

module _ {W : Type 0} (srv : RelayService W)
    (off : (srv.st.src_no_ack ≡ true) ⊎ (srv.st.dst_no_ack ≡ true)) where
  direction_msgs-NoAck :
      (sh : SyncHeaders) (b : Bool) (packets acks timeouts : List PacketInfo) (d : Decision) (w : W)
      → chosen_if (not (no_ack srv.st b) && d.ack) acks ≡ []
      → Returns NoAck (direction_msgs srv sh b packets acks timeouts d w)
  direction_msgs-NoAck sh b packets acks timeouts d w e =
      let to = (to_chain b srv.src srv.dst).path in
      let P : List PacketInfo → List Msg → Type 0 =
        (λ as'. Directed to (chosen_if d.relay packets) as' (chosen_if d.timeout timeouts)) in
      Returns-mono (P []) NoAck (direction_msgs srv sh b packets acks timeouts d w)
        (λ ms h. Directed-NoAck to (chosen_if d.relay packets) (chosen_if d.timeout timeouts) ms h)
        (subst (λ as'. Returns (P as') (direction_msgs srv sh b packets acks timeouts d w)) e
          (direction_msgs-Directed srv sh b packets acks timeouts d w))

  round_msgs-NoAck :
      (sh : SyncHeaders) (pseqs aseqs : RelayPackets) (w : W)
      → Silenced srv.st aseqs
      → Returns SilentRound (round_msgs srv sh pseqs aseqs w)
  unfolding round_msgs no_ack new_relay_msgs
  round_msgs-NoAck sh pseqs aseqs w (h, k) =
      let P = SilentRound in
      Returns-next P _ (should_execute_relay srv.clock srv.src srv.dst srv.optimize_relay pseqs w)
        (λ (rs, rd) w1.
          Returns-next P _
            (should_execute_relay srv.clock srv.src srv.dst srv.optimize_relay aseqs w1)
            (λ (as', ad) w2.
              let to_dst : Decision = record {
                relay = rd;
                ack = ad;
                timeout = not (is_empty pseqs.dst_timeout);
              } in
              let to_src : Decision = record {
                relay = rs;
                ack = as';
                timeout = not (is_empty pseqs.src_timeout);
              } in
              Returns-then P (Both NoAck NoAck) _
                (both (direction_msgs srv sh true pseqs.src aseqs.src pseqs.dst_timeout to_dst)
                  (direction_msgs srv sh false pseqs.dst aseqs.dst pseqs.src_timeout to_src) w2)
                (both-Returns NoAck NoAck _ _ w2
                  (λ v.
                    direction_msgs-NoAck sh true pseqs.src aseqs.src pseqs.dst_timeout to_dst v
                      (chosen-nil srv.st.src_no_ack srv.st.dst_no_ack aseqs.src ad off h))
                  (λ v.
                    direction_msgs-NoAck sh false pseqs.dst aseqs.dst pseqs.src_timeout to_src v
                      (chosen-nil srv.st.dst_no_ack srv.st.src_no_ack aseqs.dst as' (flip off) k)))
                (λ (ds, ss) w3 (hd, hs). (hs, hd))))
    where
      flip :
          (srv.st.src_no_ack ≡ true) ⊎ (srv.st.dst_no_ack ≡ true)
          → (srv.st.dst_no_ack ≡ true) ⊎ (srv.st.src_no_ack ≡ true)
      flip (inl h) = inr h
      flip (inr h) = inl h

  sent-SilentRound :
      (r : RelayMsgs) (w : W)
      → SilentRound r
      → Returns SilentRound (send_all srv.marshal srv.st srv.src srv.dst r w)
  unfolding send_all send
  sent-SilentRound r w h =
      let r' : RelayMsgs = record r {
        max_tx_size = srv.st.max_tx_size;
        max_msg_length = srv.st.max_msg_length;
      } in
      Returns-next SilentRound _
        (send_side srv.marshal srv.src r' r.src (batch_start true (length r.src)) w)
        (λ b w1.
          Returns-next SilentRound _
            (send_side srv.marshal srv.dst r' r.dst (batch_start b.is_success (length r.dst)) w1)
            (λ b' w2. h))

  beside-Returns :
      {A S : Type 0} (P : A → Type 0) (s : S) (x : Outcome A × W)
      → Returns P x
      → Returns P (with_state s x)
  beside-Returns P s (ok a, w) h = h
  beside-Returns P s (err e, w) h = tt
  beside-Returns P s (panic, w) h = tt

  -- If `srcNoAck` or `dstNoAck` is set, then a round of the service that returns has sent no
  -- MsgAcknowledgement to either chain, whatever the chains answer and whatever headers the service
  -- has.
  pub serve-SilentRound : (s : W × SyncHeaders) → Returns SilentRound (serve srv s)
  unfolding serve
  serve-SilentRound s =
      let P = SilentRound in
      Returns-next P _ (refresh srv s) (λ u s1.
        Returns-next P _
          (with_headers (λ sh. unrelayed_packets srv.retry srv.src srv.dst sh false) s1)
          (λ found s2.
            Returns-next P _
              (with_headers (λ sh. process_timeout_packets srv.ibc srv.src srv.dst sh found) s2)
              (λ pseqs s3.
                Returns-then P (Silenced srv.st) _
                  (unrelayed_acknowledgements srv.retry srv.src srv.dst srv.st false s3)
                  (unrelayed_acknowledgements-Silenced srv.retry srv.src srv.dst srv.st false s3)
                  (λ aseqs s4 h.
                    Returns-then P P _ (with_headers (λ sh. round_msgs srv sh pseqs aseqs) s4)
                      (beside-Returns P s4.1 (round_msgs srv s4.1 pseqs aseqs s4.0)
                        (round_msgs-NoAck s4.1 pseqs aseqs s4.0 h))
                      (λ r s5 k.
                        beside-Returns P s5.1 (send_all srv.marshal srv.st srv.src srv.dst r s5.0)
                          (sent-SilentRound r s5.0 k))))))
