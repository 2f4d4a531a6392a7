-- ===== src/Loop.antt =====
-- `runUntilComplete` of core/utils.go, and the third-party `retry.Do` as a parameter. The loop is
-- run against a list of what the `select` meets, the cancelled context or the ticker; a list that
-- is used up means that the loop is still waiting.
use yui_relayer.Base.{
  Option, none, some, Bool, true, false, List, [], ◌∷◌, ◌≡◌, Outcome, ok, err, panic, Error, Action,
}

pub data Tick : Type 0 where
  cancelled : Error → Tick
  tick : Tick

pub data Progress : Type 0 where
  waiting : Progress
  ended : Outcome (Unit {0}) → Progress

-- What the loop does after a call of `fn`, `wait` being its `select`.
unfoldable pub after_call : {W : Type 0} → Outcome Bool × W → (W → Progress × W) → Progress × W
after_call (ok true, w) wait = (ended (ok tt), w)
after_call (ok false, w) wait = wait w
after_call (err e, w) wait = (ended (err e), w)
after_call (panic, w) wait = (ended panic, w)

unfoldable pub select : {W : Type 0} → Action W Bool → List Tick → W → Progress × W
unfolding after_call
select fn [] w = (waiting, w)
select fn (cancelled e ∷ ticks) w = (ended (err e), w)
select fn (tick ∷ ticks) w = after_call (fn w) (select fn ticks)

-- runUntilComplete
unfoldable pub run_until_complete : {W : Type 0} → Action W Bool → List Tick → W → Progress × W
unfolding select
run_until_complete fn ticks w = after_call (fn w) (select fn ticks)

-- `wait(ctx, d)`: the timer, or the cancelled context.
abbrev pub wait : {W : Type 0} → Option Error → Action W (Unit {0})
wait none w = (ok tt, w)
wait (some e) w = (err e, w)

-- How a call of `retry.Do` on `m` from a state may end: attempts run until one returns no error, the
-- attempts are used up, or the context is cancelled between two of them. What an attempt changed
-- before it failed stays changed.
pub data Attempted {S A : Type 0} (m : Action S A) : S → Outcome A × S → Type 0 where
  once : {s : S} {x : Outcome A × S} → x ≡ m s → Attempted m s x
  again :
      {s s' : S} {e : Error} {x : Outcome A × S}
      → m s ≡ (err e, s')
      → Attempted m s' x
      → Attempted m s x
  gave_up : {s : S} (e : Error) → Attempted m s (err e, s)

-- The retry library, for any state that the attempts act on.
pub record Retry : Type 1 where
  pub run : (S A : Type 0) → Action S A → Action S A
  pub run_attempts : (S A : Type 0) (m : Action S A) (s : S) → Attempted m s (run S A m s)
