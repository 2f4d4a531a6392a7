-- ===== src/Upgrade/Blocks.antt =====
-- What a step of the channel upgrade gives to send (upgradeChannelStep of core/channel-upgrade.go),
-- the messages that failed attempts have left behind included.
use yui_relayer.Base.{
  String, true, false, List, [], ◌∷◌, ◌++◌, ◌≡◌, refl, All, Bool-cases, inl, inr, Action, Outcome,
  ok, err, panic, next, with_state, must, Returns, Returns-next,
}
use yui_relayer.Ibc.{Functions, Channel, Upgrade, ErrorReceipt, Response}
use yui_relayer.PathEnd.{PathEnd}
use yui_relayer.PathEnd.Messages.{
  chan_upgrade_try, chan_upgrade_ack, chan_upgrade_confirm, chan_upgrade_open, chan_upgrade_cancel,
  chan_upgrade_timeout,
}
use yui_relayer.Msg.{Msg}
use yui_relayer.Headers.{SyncHeaders, setup_headers_for_update}
use yui_relayer.RelayMsgs.{RelayMsgs}
use yui_relayer.Handshake.{Side, src_side, dst_side, client_updates}
use yui_relayer.Handshake.Updates.{IsUpdateOf, client_updates-IsUpdateOf}
use yui_relayer.Upgrade.States.{
  UpgradeAction, no_action, try_action, ack, confirm, open_action, cancel, cancel_flushcomplete,
  timeout,
}
use yui_relayer.Upgrade.Actions.{End, sequence, query_proposed_connection_id}
use yui_relayer.Upgrade.Messages.{
  build_action_msg, prove_both, prove_end_channel, receipt_or_empty, matching_receipt,
}
use yui_relayer.Upgrade.Step.{acts, append, act_on, act_if}

-- A message of ibc-go for the port and channel of `pe` that carries the action.
pub data ActionMsg (pe : PathEnd) : UpgradeAction → Msg → Type 0 where
  tries :
      (id : String) (chan : Response Channel) (upg : Response Upgrade) (signer : String)
      → ActionMsg pe try_action (chan_upgrade_try pe id chan upg signer)
  acks :
      (chan : Response Channel) (upg : Response Upgrade) (signer : String)
      → ActionMsg pe ack (chan_upgrade_ack pe chan upg signer)
  confirms :
      (chan : Response Channel) (upg : Response Upgrade) (signer : String)
      → ActionMsg pe confirm (chan_upgrade_confirm pe chan upg signer)
  opens :
      (chan : Response Channel) (signer : String)
      → ActionMsg pe open_action (chan_upgrade_open pe chan signer)
  cancels :
      (receipt : Response ErrorReceipt) (signer : String)
      → ActionMsg pe cancel (chan_upgrade_cancel pe receipt signer)
  cancels_last :
      (receipt : Response ErrorReceipt) (signer : String)
      → ActionMsg pe cancel_flushcomplete (chan_upgrade_cancel pe receipt signer)
  times_out :
      (chan : Response Channel) (signer : String)
      → ActionMsg pe timeout (chan_upgrade_timeout pe chan signer)

-- What attempts that failed have appended for a chain: an attempt whose message could not be built
-- leaves its client updates, one that failed for the other chain its client updates and its message.
pub data Left (pe : PathEnd) (a : UpgradeAction) : List Msg → Type 0 where
  none_left : Left pe a []
  left_updates :
      {msgs : List Msg} (updates : List Msg)
      → acts a ≡ true
      → Left pe a msgs
      → All (IsUpdateOf pe) updates
      → Left pe a (msgs ++ updates)
  left_all :
      {msgs : List Msg} (updates : List Msg) (msg : Msg)
      → acts a ≡ true
      → Left pe a msgs
      → All (IsUpdateOf pe) updates
      → ActionMsg pe a msg
      → Left pe a ((msgs ++ updates) ++ msg ∷ [])

-- The messages for a chain: none without an action; otherwise what failed attempts have left, client
-- updates, and the message of the action.
pub data Acted (pe : PathEnd) (a : UpgradeAction) : List Msg → Type 0 where
  idle : acts a ≡ false → Acted pe a []
  acted :
      {msgs : List Msg} (updates : List Msg) (msg : Msg)
      → acts a ≡ true
      → Left pe a msgs
      → All (IsUpdateOf pe) updates
      → ActionMsg pe a msg
      → Acted pe a ((msgs ++ updates) ++ msg ∷ [])

pub Acted-Left :
    {pe : PathEnd} {a : UpgradeAction} {msgs : List Msg} → Acted pe a msgs → Left pe a msgs
Acted-Left (idle e) = none_left
Acted-Left (acted updates msg e l u m) = left_all updates msg e l u m

pub idle-Acted :
    {pe : PathEnd} {a : UpgradeAction} {msgs : List Msg}
    → acts a ≡ false
    → Left pe a msgs
    → Acted pe a msgs
idle-Acted e none_left = idle e
idle-Acted e (left_updates updates y l u) = cc
idle-Acted e (left_all updates msg y l u m) = cc

abbrev pub other : Side → Side
other src_side = dst_side
other dst_side = src_side

abbrev pub msgs_of : Side → RelayMsgs → List Msg
msgs_of src_side r = r.src
msgs_of dst_side r = r.dst

msgs_of-append :
    (side : Side) (msgs : List Msg) (r : RelayMsgs)
    → msgs_of side (append side msgs r) ≡ msgs_of side r ++ msgs
unfolding append
msgs_of-append src_side msgs r = refl
msgs_of-append dst_side msgs r = refl

msgs_of-other :
    (side : Side) (msgs : List Msg) (r : RelayMsgs)
    → msgs_of (other side) (append side msgs r) ≡ msgs_of (other side) r
unfolding append
msgs_of-other src_side msgs r = refl
msgs_of-other dst_side msgs r = refl

last-append : (side : Side) (msgs : List Msg) (r : RelayMsgs) → (append side msgs r).last ≡ r.last
unfolding append
last-append src_side msgs r = refl
last-append dst_side msgs r = refl

-- How a call that acts on `out` ends: `P` holds of `out` if it succeeds, `Q` if it fails.
abbrev pub Leaves :
    {A W : Type 0}
    → (RelayMsgs → Type 0)
    → (RelayMsgs → Type 0)
    → Outcome A × (W × RelayMsgs)
    → Type 0
Leaves P Q (ok a, (w, r)) = P r
Leaves P Q (err e, (w, r)) = Q r
Leaves P Q (panic, (w, r)) = Unit

module _ {W A B : Type 0} (P Q : RelayMsgs → Type 0) where
  -- A call on the world does not touch `out`.
  Leaves-beside :
      (R : A → Type 0) (f : A → Action (W × RelayMsgs) B) (x : Outcome A × W) (r : RelayMsgs)
      → Returns R x
      → Q r
      → ((a : A) (w : W) → R a → Leaves P Q (f a (w, r)))
      → Leaves P Q (next f (with_state r x))
  Leaves-beside R f (ok a, w) r h q k = k a w h
  Leaves-beside R f (err e, w) r h q k = q
  Leaves-beside R f (panic, w) r h q k = tt

Leaves-mono :
    {A W : Type 0} (P Q P' Q' : RelayMsgs → Type 0) (x : Outcome A × (W × RelayMsgs))
    → ((r : RelayMsgs) → P r → P' r)
    → ((r : RelayMsgs) → Q r → Q' r)
    → Leaves P Q x
    → Leaves P' Q' x
Leaves-mono P Q P' Q' (ok a, (w, r)) f g h = f r h
Leaves-mono P Q P' Q' (err e, (w, r)) f g h = g r h
Leaves-mono P Q P' Q' (panic, (w, r)) f g h = tt

Returns-anything : {W A : Type 0} (x : Outcome A × W) → Returns (λ a. Unit {0}) x
Returns-anything (ok a, w) = tt
Returns-anything (err e, w) = tt
Returns-anything (panic, w) = tt

-- The messages of the acting chain are in the given form, the rest of `out` is as before.
abbrev pub OnSide : Side → (List Msg → Type 0) → RelayMsgs → RelayMsgs → Type 0
OnSide side P r r' =
    P (msgs_of side r') × msgs_of (other side) r' ≡ msgs_of (other side) r × r'.last ≡ r.last

OnSide-append :
    (side : Side) (P : List Msg → Type 0) (msgs : List Msg) (r r' : RelayMsgs)
    → P (msgs_of side r' ++ msgs)
    → msgs_of (other side) r' ≡ msgs_of (other side) r
    → r'.last ≡ r.last
    → OnSide side P r (append side msgs r')
OnSide-append side P msgs r r' p o l = (
  rw (msgs_of-append side msgs r') p,
  rw (msgs_of-other side msgs r') o,
  rw (last-append side msgs r') l,
)

abbrev pub ActLeaves :
    {W : Type 0}
    → Side
    → PathEnd
    → UpgradeAction
    → RelayMsgs
    → Outcome (Unit {0}) × (W × RelayMsgs)
    → Type 0
ActLeaves side pe a r = Leaves (OnSide side (Acted pe a) r) (OnSide side (Left pe a) r)

module _ {W : Type 0} (ibc : Functions) where
  pub build_action_msg-ActionMsg :
      (self cp : End W) (a : UpgradeAction) (addr : String) (w : W)
      → Returns (ActionMsg self.chain.path a) (build_action_msg ibc self a addr cp w)
  unfolding build_action_msg
  build_action_msg-ActionMsg self cp no_action addr w = tt
  build_action_msg-ActionMsg self cp try_action addr w =
      Returns-next (ActionMsg self.chain.path try_action) _ (prove_both ibc cp w) (λ p w1.
        Returns-next (ActionMsg self.chain.path try_action) _
          (query_proposed_connection_id ibc cp w1) (λ id w2. tries id p.0 p.1 addr))
  build_action_msg-ActionMsg self cp ack addr w =
      Returns-next (ActionMsg self.chain.path ack) _ (prove_both ibc cp w)
        (λ p w1. acks p.0 p.1 addr)
  build_action_msg-ActionMsg self cp confirm addr w =
      Returns-next (ActionMsg self.chain.path confirm) _ (prove_both ibc cp w)
        (λ p w1. confirms p.0 p.1 addr)
  build_action_msg-ActionMsg self cp open_action addr w =
      Returns-next (ActionMsg self.chain.path open_action) _ (prove_end_channel ibc cp w)
        (λ chan w1. opens chan addr)
  build_action_msg-ActionMsg self cp cancel addr w =
      Returns-next (ActionMsg self.chain.path cancel) _
        (cp.chain.query_channel_upgrade_error cp.ctx w)
        (λ found w1.
          Returns-next (ActionMsg self.chain.path cancel) _
            (receipt_or_empty ibc cp.ctx cp.chain found w1) (λ receipt w2. cancels receipt addr))
  build_action_msg-ActionMsg self cp cancel_flushcomplete addr w =
      Returns-next (ActionMsg self.chain.path cancel_flushcomplete) _
        (cp.chain.query_channel_upgrade_error cp.ctx w)
        (λ found w1.
          Returns-next (ActionMsg self.chain.path cancel_flushcomplete) _
            (matching_receipt ibc (sequence self) cp.ctx cp.chain found w1)
            (λ receipt w2. cancels_last receipt addr))
  build_action_msg-ActionMsg self cp timeout addr w =
      Returns-next (ActionMsg self.chain.path timeout) _ (prove_end_channel ibc cp w)
        (λ chan w1. times_out chan addr)

  act_on-Leaves :
      (sh : SyncHeaders) (side : Side) (a : UpgradeAction) (self cp : End W) (w : W) (r : RelayMsgs)
      → acts a ≡ true
      → Left self.chain.path a (msgs_of side r)
      → ActLeaves side self.chain.path a r (act_on ibc sh side a self cp (w, r))
  unfolding act_on
  act_on-Leaves sh side a self cp w r e l =
      Leaves-beside P Q (λ _. Unit) _ (must self.chain.get_address_string w) r (Returns-anything _)
        (l, refl, refl)
        (λ addr w1 _.
          Leaves-beside P Q (λ _. Unit) _ (setup_headers_for_update cp.chain self.chain sh w1) r
            (Returns-anything _) (l, refl, refl)
            (λ headers w2 _.
              Leaves-beside P Q (All (IsUpdateOf self.chain.path)) _
                (client_updates self.chain headers addr w2) r
                (client_updates-IsUpdateOf self.chain headers addr w2) (l, refl, refl)
                (λ updates w3 u.
                  Leaves-beside P Q (ActionMsg self.chain.path a) _
                    (build_action_msg ibc self a addr cp w3) (append side updates r)
                    (build_action_msg-ActionMsg self cp a addr w3)
                    (OnSide-append side (Left self.chain.path a) updates r r
                      (left_updates updates e l u) refl refl)
                    (λ msg w4 m.
                      OnSide-append side (Acted self.chain.path a) (msg ∷ []) r
                        (append side updates r)
                        (rw (msgs_of-append side updates r) (acted updates msg e l u m))
                        (msgs_of-other side updates r) (last-append side updates r)))))
    where
      P : RelayMsgs → Type 0
      P = OnSide side (Acted self.chain.path a) r

      Q : RelayMsgs → Type 0
      Q = OnSide side (Left self.chain.path a) r

  pub act_if-Leaves :
      (sh : SyncHeaders) (side : Side) (a : UpgradeAction) (self cp : End W) (w : W) (r : RelayMsgs)
      → Left self.chain.path a (msgs_of side r)
      → ActLeaves side self.chain.path a r (act_if ibc sh side a self cp (w, r))
  unfolding act_if
  act_if-Leaves sh side a self cp w r l = elim (Bool-cases (acts a)) [
    | inl yes' ↦ rw yes' (act_on-Leaves sh side a self cp w r yes' l)
    | inr no' ↦ rw no' (idle-Acted no' l, refl, refl)
  ]
