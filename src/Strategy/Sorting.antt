-- ===== src/Strategy/Sorting.antt =====
-- What the loop of `ProcessTimeoutPackets` of core/naive-strategy.go selects.
use yui_relayer.Base.{
  ℕ, ◌+◌, Bool, true, false, List, [], ◌∷◌, ◌==◌, ◌≡◌, refl, ap, arith, inl, inr, Bool-cases,
  Outcome, ok, err, panic, Action, Returns, Returns-then,
}
use yui_relayer.Ibc.{Height, Functions}
use yui_relayer.Packet.{PacketInfo}
use yui_relayer.Chain.{ProvableChain}
use yui_relayer.Strategy.Timeouts.{
  Clock, Fate, expired, expiring, live, fate, Split, keep, time_out, select_first, classify_one,
  classify,
}

-- `Sorted f relay timeout skipped ps`: each of `ps` stands in exactly one of the three lists, in its
-- old order and by its fate.
pub data Sorted (f : PacketInfo → Fate)
    : List PacketInfo → List PacketInfo → List PacketInfo → List PacketInfo → Type 0 where
  done : Sorted f [] [] [] []
  relayed :
      (p : PacketInfo) {xs ys zs ps : List PacketInfo}
      → f p ≡ live
      → Sorted f xs ys zs ps
      → Sorted f (p ∷ xs) ys zs (p ∷ ps)
  timed_out :
      (p : PacketInfo) {xs ys zs ps : List PacketInfo}
      → f p ≡ expired
      → Sorted f xs ys zs ps
      → Sorted f xs (p ∷ ys) zs (p ∷ ps)
  skipped :
      (p : PacketInfo) {xs ys zs ps : List PacketInfo}
      → f p ≡ expiring
      → Sorted f xs ys zs ps
      → Sorted f xs ys (p ∷ zs) (p ∷ ps)

abbrev pub is_live : Fate → Bool
is_live live = true
is_live _ = false

-- `Kept f relay ps`: `relay` is the longest prefix of `ps` that is live throughout.
pub data Kept (f : PacketInfo → Fate) : List PacketInfo → List PacketInfo → Type 0 where
  all_kept : Kept f [] []
  kept :
      (p : PacketInfo) {xs ps : List PacketInfo}
      → f p ≡ live
      → Kept f xs ps
      → Kept f (p ∷ xs) (p ∷ ps)
  cut : (p : PacketInfo) (ps : List PacketInfo) → is_live (f p) ≡ false → Kept f [] (p ∷ ps)

-- The counterparty has answered, at the height, that it waits for this very packet.
abbrev pub IsAwaited : {W : Type 0} → ProvableChain W → Height → PacketInfo → Type 0
IsAwaited {W = W} other height p =
    (next : ℕ) × (w : W) × (w' : W) × other.query_next_sequence_receive height w ≡ (ok next, w')
    × (next == p.packet.sequence) ≡ true

module _ {W : Type 0} (ibc : Functions) (other : ProvableChain W) (clock : Clock) where
  -- How the packets are divided. On an ordered channel at most one packet times out, and then none
  -- is relayed.
  pub data Classified : Bool → List PacketInfo → Split → Type 0 where
    on_unordered :
        {ps relay timeout skipped : List PacketInfo}
        → Sorted (fate ibc clock) relay timeout skipped ps
        → Classified false ps (relay, timeout)
    on_ordered :
        {ps relay : List PacketInfo}
        → Kept (fate ibc clock) relay ps
        → Classified true ps (relay, [])
    closes_ordered :
        (p : PacketInfo) (ps : List PacketInfo)
        → fate ibc clock p ≡ expired
        → IsAwaited other clock.finalized_height p
        → Classified true (p ∷ ps) ([], p ∷ [])

  abbrev pub IsSorted : List PacketInfo → Split → Type 0
  IsSorted ps s = (skipped : List PacketInfo) × Sorted (fate ibc clock) s.0 s.1 skipped ps

  pub classify_one-IsSorted :
      (i : ℕ) (p : PacketInfo) (ps : List PacketInfo) (rest : Action W Split) (s : Split) (w : W)
      (x : Fate)
      → rest w ≡ (ok s, w)
      → IsSorted ps s
      → fate ibc clock p ≡ x
      → (s' : Split) × classify_one ibc other false clock i p rest x w ≡ (ok s', w)
        × IsSorted (p ∷ ps) s'
  unfolding classify_one
  classify_one-IsSorted i p ps rest s w expired e (skip, h) f =
      (time_out p s, rw e refl, (skip, timed_out p f h))
  classify_one-IsSorted i p ps rest s w expiring e (skip, h) f = (s, e, (p ∷ skip, skipped p f h))
  classify_one-IsSorted i p ps rest s w live e (skip, h) f =
      (keep p s, rw e refl, (skip, relayed p f h))

  pub classify-IsSorted :
      (i : ℕ) (ps : List PacketInfo) (w : W)
      → (s : Split) × classify ibc other false clock i ps w ≡ (ok s, w) × IsSorted ps s
  unfolding classify
  classify-IsSorted i [] w = (([], []), refl, ([], done))
  classify-IsSorted i (p ∷ ps) w =
      let (s, e, h) = classify-IsSorted (i + 1) ps w in
      classify_one-IsSorted i p ps (classify ibc other false clock (i + 1) ps) s w
        (fate ibc clock p) e h refl

  -- For every list of packets of a channel that is not ordered: the loop of ProcessTimeoutPackets
  -- returns, asks the counterparty nothing, and sorts each packet by its fate, in the old order: those
  -- that have not timed out are relayed, those that have at the finalized height are timed out, and
  -- those that have at the latest height only are left for later.
  pub classify-Sorted :
      (i : ℕ) (ps : List PacketInfo) (w : W)
      → (relay : List PacketInfo) × (timeout : List PacketInfo) × (skipped : List PacketInfo)
        × classify ibc other false clock i ps w ≡ (ok (relay, timeout), w)
        × Sorted (fate ibc clock) relay timeout skipped ps
  classify-Sorted i ps w =
      let ((relay, timeout), e, (skip, h)) = classify-IsSorted i ps w in
      (relay, timeout, skip, e, h)

  abbrev pub IsKept : List PacketInfo → Split → Type 0
  IsKept ps s = Kept (fate ibc clock) s.0 ps × s.1 ≡ []

  pub suc-not-zero : (i : ℕ) → (i + 1 == 0) ≡ false
  suc-not-zero i = ground arith

  pub classify_one-IsKept :
      (i : ℕ) (p : PacketInfo) (ps : List PacketInfo) (rest : Action W Split) (w : W) (x : Fate)
      → (i == 0) ≡ false
      → Returns (IsKept ps) (rest w)
      → fate ibc clock p ≡ x
      → Returns (IsKept (p ∷ ps)) (classify_one ibc other true clock i p rest x w)
  unfolding classify_one
  classify_one-IsKept i p ps rest w expired n h f = rw n (cut p ps (ap is_live f), refl)
  classify_one-IsKept i p ps rest w expiring n h f = (cut p ps (ap is_live f), refl)
  classify_one-IsKept i p ps rest w live n h f =
      Returns-then (IsKept (p ∷ ps)) (IsKept ps) _ (rest w) h (λ s w' (k, e). (kept p f k, e))

  pub classify-IsKept :
      (i : ℕ) (ps : List PacketInfo) (w : W)
      → (i == 0) ≡ false
      → Returns (IsKept ps) (classify ibc other true clock i ps w)
  unfolding classify
  classify-IsKept i [] w n = (all_kept, refl)
  classify-IsKept i (p ∷ ps) w n =
      classify_one-IsKept i p ps (classify ibc other true clock (i + 1) ps) w (fate ibc clock p) n
        (classify-IsKept (i + 1) ps w (suc-not-zero i)) refl

  pub select_first-Classified :
      (p : PacketInfo) (ps : List PacketInfo) (w : W) (x : Outcome ℕ × W)
      → fate ibc clock p ≡ expired
      → other.query_next_sequence_receive clock.finalized_height w ≡ x
      → Returns (Classified true (p ∷ ps)) (select_first p x)
  unfolding select_first
  select_first-Classified p ps w (ok next, w') f e = elim (Bool-cases (next == p.packet.sequence)) [
    | inl yes' ↦ rw yes' (closes_ordered p ps f (next, w, w', e, yes'))
    | inr no' ↦ rw no' (on_ordered (cut p ps (ap is_live f)))
  ]
  select_first-Classified p ps w (err e', w') f e = on_ordered (cut p ps (ap is_live f))
  select_first-Classified p ps w (panic, w') f e = tt

  pub classify_first-Classified :
      (p : PacketInfo) (ps : List PacketInfo) (w : W) (x : Fate)
      → fate ibc clock p ≡ x
      → Returns
          (Classified true (p ∷ ps))
          (classify_one ibc other true clock 0 p (classify ibc other true clock 1 ps) x w)
  unfolding classify_one
  classify_first-Classified p ps w expired f =
      select_first-Classified p ps w (other.query_next_sequence_receive clock.finalized_height w) f
        refl
  classify_first-Classified p ps w expiring f = on_ordered (cut p ps (ap is_live f))
  classify_first-Classified p ps w live f =
      Returns-then (Classified true (p ∷ ps)) (IsKept ps) _ (classify ibc other true clock 1 ps w)
        (classify-IsKept 1 ps w refl) (λ (relay, timeout) w' (k, e). rw e (on_ordered (kept p f k)))

  pub from-IsSorted :
      (ps : List PacketInfo) (w : W) (x : Outcome Split × W)
      → ((s : Split) × x ≡ (ok s, w) × IsSorted ps s)
      → Returns (Classified false ps) x
  from-IsSorted ps w x (s, e, (skip, h)) = rw e (on_unordered h)

  pub classify-Classified :
      (order : Bool) (ps : List PacketInfo) (w : W)
      → Returns (Classified order ps) (classify ibc other order clock 0 ps w)
  unfolding classify
  classify-Classified false ps w =
      from-IsSorted ps w (classify ibc other false clock 0 ps w) (classify-IsSorted 0 ps w)
  classify-Classified true [] w = on_ordered all_kept
  classify-Classified true (p ∷ ps) w = classify_first-Classified p ps w (fate ibc clock p) refl
