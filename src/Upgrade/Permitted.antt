-- ===== src/Upgrade/Permitted.antt =====
-- When the channel upgrade protocol admits an action, and that no other action is decided.
use yui_relayer.Base.{
  ◌||◌, leb, ◌==◌, pure, ◌≡◌, refl, ◌⊎◌, inl, inr, Bool, true, false, Returns, Returns-next,
  Returns-then, if◌then◌else◌,
}
use yui_relayer.Ibc.{Functions}
use yui_relayer.Upgrade.States.{
  UpgradeState, uninit, init, flushing, flushcomplete, UpgradeAction, no_action, try_action, ack,
  confirm, open_action, cancel, cancel_flushcomplete, timeout,
}
use yui_relayer.Upgrade.Actions.{
  End, sequence, next_actions, finish_flushcomplete, both_flushing, one_flushing, timeout_or_cancel,
  both_confirm, confirm_if_flushed, self_confirms, upgrade_already_complete,
  upgrade_already_timed_out, query_can_transition_to_flush_complete,
}

-- The protocol's conditions on the state of the chain that acts and of its counterparty: TRY answers
-- an initialised counterparty, ACK a flushing one; CONFIRM and TIMEOUT want an upgrade under way on
-- both sides or past it; OPEN and the cancellation of FLUSHCOMPLETE want FLUSHCOMPLETE; the plain
-- cancellation wants an upgrade in INIT or FLUSHING.
pub data Permitted : UpgradeAction → UpgradeState → UpgradeState → Type 0 where
  idle : {s c : UpgradeState} → Permitted no_action s c
  try_first : Permitted try_action uninit init
  try_crossing : Permitted try_action init init
  ack_flushing : Permitted ack init flushing
  confirm_flushing : Permitted confirm flushing flushing
  confirm_last : Permitted confirm flushing flushcomplete
  open_both : Permitted open_action flushcomplete flushcomplete
  open_after :
      {c : UpgradeState} → (c ≡ uninit) ⊎ (c ≡ init) → Permitted open_action flushcomplete c
  timeout_flushing : Permitted timeout flushing flushing
  timeout_flushcomplete : {c : UpgradeState} → Permitted timeout flushcomplete c
  cancel_init : {c : UpgradeState} → Permitted cancel init c
  cancel_flushing : {c : UpgradeState} → Permitted cancel flushing c
  cancel_last : {c : UpgradeState} → Permitted cancel_flushcomplete flushcomplete c

-- Both actions are permitted.
abbrev pub BothPermitted : UpgradeState → UpgradeState → UpgradeAction × UpgradeAction → Type 0
BothPermitted s d (a, b) = Permitted a s d × Permitted b d s

abbrev IsConfirm : UpgradeAction → Type 0
IsConfirm a = (a ≡ confirm) ⊎ (a ≡ no_action)

-- In FLUSHING against FLUSHING or FLUSHCOMPLETE both answers are permitted.
IsConfirm-Permitted :
    (a : UpgradeAction) (c : UpgradeState)
    → (c ≡ flushing) ⊎ (c ≡ flushcomplete)
    → IsConfirm a
    → Permitted a flushing c
IsConfirm-Permitted a c (inl e) (inl h) = rw (e, h) confirm_flushing
IsConfirm-Permitted a c (inr e) (inl h) = rw (e, h) confirm_last
IsConfirm-Permitted a c e (inr h) = rw h idle

module _ {W : Type 0} (ibc : Functions) where
  timeout_or_cancel-Permitted :
      (s : UpgradeState) (self cp : End W) (w : W)
      → Returns (λ b. Permitted b flushcomplete s) (timeout_or_cancel ibc self cp w)
  unfolding timeout_or_cancel
  timeout_or_cancel-Permitted s self cp w =
      Returns-next (λ b. Permitted b flushcomplete s) _ (upgrade_already_timed_out ibc self cp w)
        (λ timedout w'. chosen timedout)
    where
      chosen : (t : Bool) → Permitted (if t then timeout else cancel_flushcomplete) flushcomplete s
      chosen true = timeout_flushcomplete
      chosen false = cancel_last

  finish_flushcomplete-Permitted :
      (s : UpgradeState) (self cp : End W) (w : W)
      → (s ≡ uninit) ⊎ (s ≡ init)
      → Returns (λ b. Permitted b flushcomplete s) (finish_flushcomplete ibc self cp w)
  unfolding finish_flushcomplete
  finish_flushcomplete-Permitted s self cp w early =
      Returns-next (λ b. Permitted b flushcomplete s) _ (upgrade_already_complete ibc self cp w)
        chosen
    where
      chosen :
          (c : Bool) (w : W)
          → Returns
              (λ b. Permitted b flushcomplete s)
              ((if c then pure open_action else timeout_or_cancel ibc self cp) w)
      chosen true w = open_after early
      chosen false w = timeout_or_cancel-Permitted s self cp w

  confirm_if_flushed-IsConfirm :
      (self : End W) (w : W) → Returns IsConfirm (confirm_if_flushed ibc self w)
  unfolding confirm_if_flushed
  confirm_if_flushed-IsConfirm self w =
      Returns-next IsConfirm _ (query_can_transition_to_flush_complete ibc self w)
        (λ c w'. chosen c)
    where
      chosen : (c : Bool) → IsConfirm (if c then confirm else no_action)
      chosen true = inl refl
      chosen false = inr refl

  both_confirm-Permitted :
      (src dst : End W) (w : W)
      → Returns (BothPermitted flushing flushing) (both_confirm ibc src dst w)
  unfolding both_confirm
  both_confirm-Permitted src dst w =
      Returns-then (BothPermitted flushing flushing) IsConfirm _ (confirm_if_flushed ibc src w)
        (confirm_if_flushed-IsConfirm src w)
        (λ a w' p.
          Returns-then (BothPermitted flushing flushing) IsConfirm _ (confirm_if_flushed ibc dst w')
            (confirm_if_flushed-IsConfirm dst w')
            (λ b w'' q. (
              IsConfirm-Permitted a flushing (inl refl) p,
              IsConfirm-Permitted b flushing (inl refl) q,
            )))

  both_flushing-Permitted :
      (src dst : End W) (w : W)
      → Returns (BothPermitted flushing flushing) (both_flushing ibc src dst w)
  unfolding both_flushing
  both_flushing-Permitted src dst w =
      Returns-next (BothPermitted flushing flushing) _ (upgrade_already_timed_out ibc src dst w)
        (λ s w'.
          Returns-next (BothPermitted flushing flushing) _
            (upgrade_already_timed_out ibc dst src w') (chosen s))
    where
      chosen :
          (s d : Bool) (w : W)
          → Returns (BothPermitted flushing flushing) (
              (if s || d
                  then pure (if d then timeout else no_action, if s then timeout else no_action)
                  else both_confirm ibc src dst)
                w)
      chosen true true w = (timeout_flushing, timeout_flushing)
      chosen true false w = (idle, timeout_flushing)
      chosen false true w = (timeout_flushing, idle)
      chosen false false w = both_confirm-Permitted src dst w

  one_flushing-Permitted :
      (self cp : End W) (w : W)
      → Returns (BothPermitted flushing flushcomplete) (one_flushing ibc self cp w)
  unfolding one_flushing self_confirms
  one_flushing-Permitted self cp w =
      Returns-next (BothPermitted flushing flushcomplete) _
        (upgrade_already_timed_out ibc self cp w) chosen
    where
      chosen :
          (t : Bool) (w : W)
          → Returns
              (BothPermitted flushing flushcomplete)
              ((if t then pure (no_action, timeout) else self_confirms ibc self) w)
      chosen true w = (idle, timeout_flushcomplete)
      chosen false w =
          Returns-then (BothPermitted flushing flushcomplete) IsConfirm _
            (confirm_if_flushed ibc self w) (confirm_if_flushed-IsConfirm self w)
            (λ a w' p. (IsConfirm-Permitted a flushcomplete (inr refl) p, idle))

  -- For every pair of upgrade states, every pair of ends and every world: when the `switch` decides
  -- on actions, the action of each chain is one that the protocol permits in the states of the two
  -- chains.
  pub next_actions-Permitted :
      (s d : UpgradeState) (src dst : End W) (w : W)
      → Returns (BothPermitted s d) (next_actions ibc s d src dst w)
  unfolding next_actions
  next_actions-Permitted uninit uninit src dst w = tt
  next_actions-Permitted init uninit src dst w = chosen (leb (sequence src) (sequence dst))
    where
      chosen :
          (b : Bool)
          → BothPermitted init uninit (if b then (cancel, no_action) else (no_action, try_action))
      chosen true = (cancel_init, idle)
      chosen false = (idle, try_first)
  next_actions-Permitted uninit init src dst w = chosen (leb (sequence dst) (sequence src))
    where
      chosen :
          (b : Bool)
          → BothPermitted uninit init (if b then (no_action, cancel) else (try_action, no_action))
      chosen true = (idle, cancel_init)
      chosen false = (try_first, idle)
  next_actions-Permitted uninit flushing src dst w = (idle, cancel_flushing)
  next_actions-Permitted flushing uninit src dst w = (cancel_flushing, idle)
  next_actions-Permitted uninit flushcomplete src dst w =
      Returns-then (BothPermitted uninit flushcomplete) (λ b. Permitted b flushcomplete uninit) _
        (finish_flushcomplete ibc src dst w)
        (finish_flushcomplete-Permitted uninit src dst w (inl refl)) (λ b w' p. (idle, p))
  next_actions-Permitted flushcomplete uninit src dst w =
      Returns-then (BothPermitted flushcomplete uninit) (λ b. Permitted b flushcomplete uninit) _
        (finish_flushcomplete ibc dst src w)
        (finish_flushcomplete-Permitted uninit dst src w (inl refl)) (λ a w' p. (p, idle))
  next_actions-Permitted init init src dst w =
      (chosen (leb (sequence src) (sequence dst)), chosen (leb (sequence dst) (sequence src)))
    where
      chosen : (b : Bool) → Permitted (if b then try_action else no_action) init init
      chosen true = try_crossing
      chosen false = idle
  next_actions-Permitted init flushing src dst w = chosen (sequence src == sequence dst)
    where
      chosen :
          (b : Bool)
          → BothPermitted init flushing (if b then (ack, no_action) else (no_action, cancel))
      chosen true = (ack_flushing, idle)
      chosen false = (idle, cancel_flushing)
  next_actions-Permitted flushing init src dst w = chosen (sequence src == sequence dst)
    where
      chosen :
          (b : Bool)
          → BothPermitted flushing init (if b then (no_action, ack) else (cancel, no_action))
      chosen true = (idle, ack_flushing)
      chosen false = (cancel_flushing, idle)
  next_actions-Permitted init flushcomplete src dst w =
      Returns-then (BothPermitted init flushcomplete) (λ b. Permitted b flushcomplete init) _
        (finish_flushcomplete ibc src dst w)
        (finish_flushcomplete-Permitted init src dst w (inr refl)) (λ b w' p. (idle, p))
  next_actions-Permitted flushcomplete init src dst w =
      Returns-then (BothPermitted flushcomplete init) (λ b. Permitted b flushcomplete init) _
        (finish_flushcomplete ibc dst src w)
        (finish_flushcomplete-Permitted init dst src w (inr refl)) (λ a w' p. (p, idle))
  next_actions-Permitted flushing flushing src dst w = both_flushing-Permitted src dst w
  next_actions-Permitted flushing flushcomplete src dst w = one_flushing-Permitted src dst w
  next_actions-Permitted flushcomplete flushing src dst w =
      Returns-then (BothPermitted flushcomplete flushing) (BothPermitted flushing flushcomplete) _
        (one_flushing ibc dst src w) (one_flushing-Permitted dst src w) (λ p w' h. (h.1, h.0))
  next_actions-Permitted flushcomplete flushcomplete src dst w = (open_both, open_both)
