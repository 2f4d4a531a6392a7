-- ===== src/Upgrade/Calm.antt =====
-- The decisions when the chains answer: a query returns a value and changes nothing.
use yui_relayer.Base.{
  ◌||◌, pure, ◌≡◌, refl, Bool, true, false, Option, none, some, arith, Outcome, ok, err, panic,
  Action, next, if◌then◌else◌, or_crash,
}
use yui_relayer.Ibc.{Height, Functions}
use yui_relayer.Upgrade.States.{
  UpgradeState, uninit, init, flushing, flushcomplete, UpgradeAction, no_action, timeout,
}
use yui_relayer.Upgrade.Actions.{
  End, next_actions, finish_flushcomplete, both_flushing, one_flushing, both_confirm,
  confirm_if_flushed, upgrade_already_timed_out, query_can_transition_to_flush_complete,
}

-- A call that returns a value and leaves the world as it was.
abbrev pub Reads : {W A : Type 0} → Action W A → Type 0
Reads {W} {A} m = (w : W) → (a : A) × (m w ≡ (ok a, w))

abbrev pub IsSome : {A : Type 0} → Option A → Type 0
IsSome none = ⊥
IsSome (some a) = Unit

-- The queries of one end that the deadlines and the flushing need, and an upgrade that is there.
pub record Calm {W : Type 0} (e : End W) : Type 0 where
  pub reads_timestamp : Reads (e.chain.timestamp e.ctx)
  pub reads_height : Reads e.chain.latest_height
  pub reads_flush : (h : Height) → Reads (e.chain.query_can_transition_to_flush_complete h)
  pub upgraded : IsSome e.upgrade

or_crash-Reads : {W A : Type 0} (o : Option A) → IsSome o → Reads {W = W} (or_crash o)
or_crash-Reads none h w = absurd h
or_crash-Reads (some a) h w = (a, refl)

next-Reads :
    {W A B : Type 0} (m : Action W A) (f : A → Action W B)
    → Reads m
    → ((a : A) → Reads (f a))
    → Reads (λ w. next f (m w))
next-Reads m f r h w = let (a, e) = r w in rw e (h a w)

-- The answers for the two chains the other way round.
abbrev pub swapped :
    {W : Type 0}
    → Outcome (UpgradeAction × UpgradeAction) × W
    → Outcome (UpgradeAction × UpgradeAction) × W
swapped (ok (a, b), w) = (ok (b, a), w)
swapped (err e, w) = (err e, w)
swapped (panic, w) = (panic, w)

module _ {W : Type 0} (ibc : Functions) where
  timed_out-Reads :
      (self cp : End W) → Calm self → Calm cp → Reads (upgrade_already_timed_out ibc self cp)
  unfolding upgrade_already_timed_out
  timed_out-Reads self cp s c =
      next-Reads _ _ s.reads_timestamp
        λ t. next-Reads _ _ (or_crash-Reads cp.upgrade c.upgraded) λ upg w. (_, refl)

  confirm-Reads : (self : End W) → Calm self → Reads (confirm_if_flushed ibc self)
  unfolding confirm_if_flushed query_can_transition_to_flush_complete
  confirm-Reads self s =
      next-Reads _ _ (λ w. next-Reads _ _ s.reads_height s.reads_flush w) λ c w. (_, refl)

  both_confirm-swap :
      (src dst : End W) (w : W)
      → Calm src
      → Calm dst
      → both_confirm ibc dst src w ≡ swapped (both_confirm ibc src dst w)
  unfolding both_confirm
  both_confirm-swap src dst w s d =
      let (a, ea) = confirm-Reads src s w in let (b, eb) = confirm-Reads dst d w in simp (ea, eb)

  both_flushing-swap :
      (src dst : End W) (w : W)
      → Calm src
      → Calm dst
      → both_flushing ibc dst src w ≡ swapped (both_flushing ibc src dst w)
  unfolding both_flushing
  both_flushing-swap src dst w s d =
      let (a, ea) = timed_out-Reads src dst s d w in
      let (b, eb) = timed_out-Reads dst src d s w in simp (ea, eb) (chosen a b)
    where
      chosen :
          (a b : Bool)
          → (if b || a
                then pure (if a then timeout else no_action, if b then timeout else no_action)
                else both_confirm ibc dst src)
              w
            ≡ swapped (
                (if a || b
                    then pure (if b then timeout else no_action, if a then timeout else no_action)
                    else both_confirm ibc src dst)
                  w)
      chosen true true = refl
      chosen true false = refl
      chosen false true = refl
      chosen false false = both_confirm-swap src dst w s d

  swap-next :
      (x : Outcome UpgradeAction × W)
      → next (λ a. pure (a, no_action)) x ≡ swapped (next (λ b. pure (no_action, b)) x)
  swap-next (ok a, w) = refl
  swap-next (err e, w) = refl
  swap-next (panic, w) = refl

  next-swap :
      (x : Outcome UpgradeAction × W)
      → next (λ b. pure (no_action, b)) x ≡ swapped (next (λ a. pure (a, no_action)) x)
  next-swap (ok a, w) = refl
  next-swap (err e, w) = refl
  next-swap (panic, w) = refl

  abbrev turn :
      Outcome (UpgradeAction × UpgradeAction) × W → Outcome (UpgradeAction × UpgradeAction) × W
  turn x = next (λ (p : UpgradeAction × UpgradeAction). pure (p.1, p.0)) x

  turned : (x : Outcome (UpgradeAction × UpgradeAction) × W) → turn x ≡ swapped x
  turned (ok p, w) = refl
  turned (err e, w) = refl
  turned (panic, w) = refl

  turned_back : (x : Outcome (UpgradeAction × UpgradeAction) × W) → x ≡ swapped (turn x)
  turned_back (ok p, w) = refl
  turned_back (err e, w) = refl
  turned_back (panic, w) = refl

  -- The decision does not depend on which chain is called src: in every pair of upgrade states the
  -- decision for the two ends the other way round is the decision with the actions the other way
  -- round. If both ends are in FLUSHING, this is for ends whose queries answer and change nothing.
  pub next_actions-swap :
      (s d : UpgradeState) (src dst : End W) (w : W)
      → (s ≡ flushing → d ≡ flushing → Calm src × Calm dst)
      → next_actions ibc d s dst src w ≡ swapped (next_actions ibc s d src dst w)
  unfolding next_actions
  next_actions-swap uninit uninit src dst w calm = refl
  next_actions-swap init uninit src dst w calm = ground arith
  next_actions-swap uninit init src dst w calm = ground arith
  next_actions-swap uninit flushing src dst w calm = refl
  next_actions-swap flushing uninit src dst w calm = refl
  next_actions-swap uninit flushcomplete src dst w calm =
      swap-next (finish_flushcomplete ibc src dst w)
  next_actions-swap flushcomplete uninit src dst w calm =
      next-swap (finish_flushcomplete ibc dst src w)
  next_actions-swap init init src dst w calm = refl
  next_actions-swap init flushing src dst w calm = ground arith
  next_actions-swap flushing init src dst w calm = ground arith
  next_actions-swap init flushcomplete src dst w calm =
      swap-next (finish_flushcomplete ibc src dst w)
  next_actions-swap flushcomplete init src dst w calm =
      next-swap (finish_flushcomplete ibc dst src w)
  next_actions-swap flushing flushing src dst w calm =
      both_flushing-swap src dst w (calm refl refl).0 (calm refl refl).1
  next_actions-swap flushing flushcomplete src dst w calm = turned (one_flushing ibc src dst w)
  next_actions-swap flushcomplete flushing src dst w calm = turned_back (one_flushing ibc dst src w)
  next_actions-swap flushcomplete flushcomplete src dst w calm = refl
