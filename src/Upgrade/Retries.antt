-- ===== src/Upgrade/Retries.antt =====
-- The retries of a step of the channel upgrade (upgradeChannelStep of core/channel-upgrade.go).
use yui_relayer.Base.{false, ◌≡◌, subst, Outcome, ok, err, panic, with_state, both_ended}
use yui_relayer.Ibc.{Functions}
use yui_relayer.Headers.{SyncHeaders}
use yui_relayer.RelayMsgs.{RelayMsgs}
use yui_relayer.Loop.{Attempted, once, again, gave_up}
use yui_relayer.Handshake.{src_side, dst_side}
use yui_relayer.Upgrade.States.{UpgradeAction}
use yui_relayer.Upgrade.Actions.{End}
use yui_relayer.Upgrade.Step.{act_if, act_both}
use yui_relayer.Upgrade.Blocks.{Left, Acted, Acted-Left, Leaves, ActLeaves, act_if-Leaves}

module _ {W : Type 0} where
  -- What the retried closure keeps: what is there was left by failed attempts.
  abbrev pub BothLeft : UpgradeAction → UpgradeAction → End W → End W → RelayMsgs → Type 0
  BothLeft a b src dst r =
      Left src.chain.path a r.src × Left dst.chain.path b r.dst × r.last ≡ false

  abbrev pub BothActed : UpgradeAction → UpgradeAction → End W → End W → RelayMsgs → Type 0
  BothActed a b src dst r =
      Acted src.chain.path a r.src × Acted dst.chain.path b r.dst × r.last ≡ false

module _ {W : Type 0} (ibc : Functions) where
  -- The second goroutine runs to its end whether or not the first has failed.
  both_ended-Leaves :
      (a b : UpgradeAction) (src dst : End W) (r : RelayMsgs) (x : Outcome (Unit {0}))
      (y : Outcome (Unit {0}) × (W × RelayMsgs))
      → Leaves
          (λ r. Acted src.chain.path a r.src)
          (λ r. Left src.chain.path a r.src)
          (with_state r (x, tt))
      → r.last ≡ false
      → ActLeaves dst_side dst.chain.path b r y
      → Leaves (BothActed a b src dst) (BothLeft a b src dst) (both_ended x y)
  both_ended-Leaves a b src dst r (ok u) (ok v, (w, r')) h e (p, o, l) = (rw o h, p, rw l e)
  both_ended-Leaves a b src dst r (ok u) (err e', (w, r')) h e (p, o, l) =
      (rw o (Acted-Left h), p, rw l e)
  both_ended-Leaves a b src dst r (ok u) (panic, (w, r')) h e k = tt
  both_ended-Leaves a b src dst r (err e') (ok v, (w, r')) h e (p, o, l) =
      (rw o h, Acted-Left p, rw l e)
  both_ended-Leaves a b src dst r (err e') (err e'', (w, r')) h e (p, o, l) = (rw o h, p, rw l e)
  both_ended-Leaves a b src dst r (err e') (panic, (w, r')) h e k = tt
  both_ended-Leaves a b src dst r panic (y, (w, r')) h e k = tt

  act_both-Leaves :
      (sh : SyncHeaders) (a b : UpgradeAction) (src dst : End W) (s : W × RelayMsgs)
      → BothLeft a b src dst s.1
      → Leaves (BothActed a b src dst) (BothLeft a b src dst) (act_both ibc sh a b src dst s)
  unfolding act_both
  act_both-Leaves sh a b src dst (w, r) (l, l', e) =
      joined (act_if ibc sh src_side a src dst (w, r))
        (act_if-Leaves ibc sh src_side a src dst w r l)
    where
      joined :
          (x : Outcome (Unit {0}) × (W × RelayMsgs))
          → ActLeaves src_side src.chain.path a r x
          → Leaves
              (BothActed a b src dst)
              (BothLeft a b src dst)
              (both_ended (x.0) (act_if ibc sh dst_side b dst src (x.1)))
      joined (ok u, (w', r')) (p, o, k) =
          both_ended-Leaves a b src dst r' (ok u) (act_if ibc sh dst_side b dst src (w', r')) p
            (rw k e) (act_if-Leaves ibc sh dst_side b dst src w' r' (rw o l'))
      joined (err e', (w', r')) (p, o, k) =
          both_ended-Leaves a b src dst r' (err e') (act_if ibc sh dst_side b dst src (w', r')) p
            (rw k e) (act_if-Leaves ibc sh dst_side b dst src w' r' (rw o l'))
      joined (panic, (w', r')) h = tt

  pub retried-Leaves :
      (sh : SyncHeaders) (a b : UpgradeAction) (src dst : End W) {s : W × RelayMsgs}
      {x : Outcome (Unit {0} × Unit {0}) × (W × RelayMsgs)}
      → Attempted (act_both ibc sh a b src dst) s x
      → BothLeft a b src dst s.1
      → Leaves (BothActed a b src dst) (BothLeft a b src dst) x
  retried-Leaves sh a b src dst {s = s} (once e) h = rw e (act_both-Leaves sh a b src dst s h)
  retried-Leaves sh a b src dst {s = s} (again {s' = s'} {e = e'} e t) h =
      retried-Leaves sh a b src dst t (
        subst (Leaves (BothActed a b src dst) (BothLeft a b src dst)) e
          (act_both-Leaves sh a b src dst s h))
  retried-Leaves sh a b src dst (gave_up e) h = h
