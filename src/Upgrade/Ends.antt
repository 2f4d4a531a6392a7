-- ===== src/Upgrade/Ends.antt =====
-- How the loop of ExecuteChannelUpgrade (core/channel-upgrade.go) ends: its rounds as a step relation
-- on the world, the failures in a row, and whether the first call is still to come.
use yui_relayer.Base.{
  ℕ, suc, ◌+◌, Bool, true, false, List, ◌∷◌, ◌++◌, replicate, ltb, ◌≡◌, refl, ◌∙◌, ◌<◌, arith,
  if◌then◌else◌, String, message, Action, pure, beside, ◌>>=◌, Outcome, ok, err, Error, Option,
}
use yui_relayer.Ibc.{Bytes}
use yui_relayer.Msg.{Msg}
use yui_relayer.Chain.{ProvableChain}
use yui_relayer.RelayMsgs.{RelayMsgs, ready, send}
use yui_relayer.Sync.{Config, sync_chain_configs_from_events}
use yui_relayer.Loop.{Tick, tick, ended, after_call, select, run_until_complete}
use yui_relayer.Upgrade.Run.{
  Counters, no_failures, add_failure, after_sent, execute_steps, execute_round, execute_loop,
}

module _ {W : Type 0} (marshal : Msg → Option Bytes) (config : Config W) (path_name : String)
    (src dst : ProvableChain W) (step : Bool → Action W RelayMsgs) where
  -- A step that gives messages, and what `Send` makes of them.
  pub record StepSends (w w' : W) (first : Bool) (r : RelayMsgs) : Type 0 where
    pub msgs : RelayMsgs
    pub between : W
    pub stepped : step first w ≡ (ok msgs, between)
    pub not_last : msgs.last ≡ false
    pub is_ready : ready msgs ≡ true
    pub sent : send marshal src dst msgs between ≡ (ok r, w')

  -- `ExecuteEnds w n f k o v`: from the world `w` with `n` failures in a row, the loop ends after `k`
  -- more ticks with `o`, in the world `v`; `f` says that the next call is the first.
  pub data ExecuteEnds : W → ℕ → Bool → ℕ → Outcome (Unit {0}) → W → Type 0 where
    -- Both chains have reached their target states.
    at_target :
        {w v : W} {n : ℕ} {f : Bool} (r : RelayMsgs)
        → step f w ≡ (ok r, v)
        → r.last ≡ true
        → ExecuteEnds w n f 0 (ok tt) v
    step_failed :
        {w v : W} {n : ℕ} {f : Bool} (e : Error)
        → step f w ≡ (err e, v)
        → ExecuteEnds w n f 0 (err e) v
    -- The third failure in a row.
    upgrade_failed :
        {w v : W} {f : Bool} (r : RelayMsgs)
        → StepSends w v f r
        → r.succeeded ≡ false
        → ExecuteEnds w 2 f 0 (err (message "channel upgrade failed")) v
    -- The messages are accepted and the configuration is written: the failures are forgotten.
    step_accepted :
        {w u w' v : W} {n k : ℕ} {f : Bool} {o : Outcome (Unit {0})} (r : RelayMsgs)
        → StepSends w u f r
        → r.succeeded ≡ true
        → sync_chain_configs_from_events config path_name r.src_msg_ids r.dst_msg_ids src dst u
          ≡ (ok tt, w')
        → ExecuteEnds w' 0 false k o v
        → ExecuteEnds w n f (suc k) o v
    step_rejected :
        {w w' v : W} {n k : ℕ} {f : Bool} {o : Outcome (Unit {0})} (r : RelayMsgs)
        → n < 2
        → StepSends w w' f r
        → r.succeeded ≡ false
        → ExecuteEnds w' (n + 1) false k o v
        → ExecuteEnds w n f (suc k) o v
    -- The pairs are not settled, or there is nothing to do.
    nothing_to_do :
        {w w' v : W} {n k : ℕ} {f : Bool} {o : Outcome (Unit {0})} (r : RelayMsgs)
        → step f w ≡ (ok r, w')
        → r.last ≡ false
        → ready r ≡ false
        → ExecuteEnds w' n false k o v
        → ExecuteEnds w n f (suc k) o v

  abbrev counters : ℕ → Bool → Counters
  counters n f = record { failures = n; first_call = f }

  abbrev round : Action (W × Counters) Bool
  round = execute_round marshal config path_name src dst step

  abbrev after : RelayMsgs → Action (W × Counters) Bool
  after = after_sent marshal config path_name src dst

  picks_send :
      (last is_ready : Bool) (sent : Action (W × Counters) Bool) (s : W × Counters)
      → last ≡ false
      → is_ready ≡ true
      → (if last then pure true else if is_ready then sent else pure false) s ≡ sent s
  picks_send last is_ready sent s l e = rw (l, e) refl

  sends_steps :
      (w w' : W) (c : Counters) (msgs r : RelayMsgs)
      → send marshal src dst msgs w ≡ (ok r, w')
      → (beside (send marshal src dst msgs) >>= after) (w, c) ≡ after r (w', c)
  sends_steps w w' c msgs r e = rw e refl

  steps-StepSends :
      (w w' : W) (c : Counters) (msgs r : RelayMsgs)
      → msgs.last ≡ false
      → ready msgs ≡ true
      → send marshal src dst msgs w ≡ (ok r, w')
      → execute_steps marshal config path_name src dst msgs (w, c) ≡ after r (w', c)
  unfolding execute_steps
  steps-StepSends w w' c msgs r l d e =
      picks_send msgs.last (ready msgs) (beside (send marshal src dst msgs) >>= after) (w, c) l d
      ∙ sends_steps w w' c msgs r e

  round-StepSends :
      (w w' : W) (n : ℕ) (f : Bool) (r : RelayMsgs)
      → StepSends w w' f r
      → round (w, counters n f) ≡ after r (w', counters n false)
  unfolding execute_round
  round-StepSends w w' n f r s =
      rw s.stepped
        (steps-StepSends s.between w' (counters n false) s.msgs r s.not_last s.is_ready s.sent)

  after-rejected :
      (w : W) (n : ℕ) (r : RelayMsgs)
      → n < 2
      → r.succeeded ≡ false
      → after r (w, counters n false) ≡ (ok false, (w, counters (n + 1) false))
  unfolding after_sent add_failure
  after-rejected w n r small e = let t : ltb 2 (n + 1) ≡ false = ground arith in rw (e, t) refl

  after-accepted :
      (w w' : W) (n : ℕ) (r : RelayMsgs)
      → r.succeeded ≡ true
      → sync_chain_configs_from_events config path_name r.src_msg_ids r.dst_msg_ids src dst w
        ≡ (ok tt, w')
      → after r (w, counters n false) ≡ (ok false, (w', counters 0 false))
  unfolding after_sent no_failures
  after-accepted w w' n r e s = rw (e, s) refl

  after-failed :
      (w : W) (r : RelayMsgs)
      → r.succeeded ≡ false
      → after r (w, counters 2 false)
        ≡ (err (message "channel upgrade failed"), (w, counters 3 false))
  unfolding after_sent add_failure
  after-failed w r e = rw e refl

  round-nothing :
      (w w' : W) (n : ℕ) (f : Bool) (r : RelayMsgs)
      → step f w ≡ (ok r, w')
      → r.last ≡ false
      → ready r ≡ false
      → round (w, counters n f) ≡ (ok false, (w', counters n false))
  unfolding execute_round execute_steps
  round-nothing w w' n f r e l d = rw (e, l, d) refl

  abbrev Runs : W → ℕ → Bool → List Tick → Outcome (Unit {0}) → W → Type 0
  Runs w n f ticks o v =
      (c : Counters) × run_until_complete round ticks (w, counters n f) ≡ (ended o, (v, c))

  go_on :
      (w w' v : W) (n n' : ℕ) (f : Bool) (ticks : List Tick) (o : Outcome (Unit {0}))
      → round (w, counters n f) ≡ (ok false, (w', counters n' false))
      → Runs w' n' false ticks o v
      → Runs w n f (tick ∷ ticks) o v
  unfolding run_until_complete select after_call
  go_on w w' v n n' f ticks o e (c, h) = (c, rw e h)

  ExecuteEnds-Runs :
      {w v : W} {n k : ℕ} {f : Bool} {o : Outcome (Unit {0})}
      → ExecuteEnds w n f k o v
      → (ticks : List Tick) → Runs w n f (replicate k tick ++ ticks) o v
  unfolding run_until_complete after_call execute_round execute_steps
  ExecuteEnds-Runs {n = n} (at_target r e l) ticks = (counters n false, rw (e, l) refl)
  ExecuteEnds-Runs {n = n} {f = f} (step_failed e h) ticks = (counters n f, rw h refl)
  ExecuteEnds-Runs {w = w} {v = v} {f = f} (upgrade_failed r s e) ticks =
      (counters 3 false, rw (round-StepSends w v 2 f r s ∙ after-failed v r e) refl)
  ExecuteEnds-Runs {w = w} {v = v} {n = n} {f = f} {o = o}
        (step_accepted {u = u} {w' = w'} {k = k} r s e y h) ticks =
      go_on w w' v n 0 f (replicate k tick ++ ticks) o
        (round-StepSends w u n f r s ∙ after-accepted u w' n r e y) (ExecuteEnds-Runs h ticks)
  ExecuteEnds-Runs {w = w} {v = v} {n = n} {f = f} {o = o}
        (step_rejected {w' = w'} {k = k} r small s e h) ticks =
      go_on w w' v n (n + 1) f (replicate k tick ++ ticks) o
        (round-StepSends w w' n f r s ∙ after-rejected w' n r small e) (ExecuteEnds-Runs h ticks)
  ExecuteEnds-Runs {w = w} {v = v} {n = n} {f = f} {o = o}
        (nothing_to_do {w' = w'} {k = k} r e l d h) ticks =
      go_on w w' v n n f (replicate k tick ++ ticks) o (round-nothing w w' n f r e l d)
        (ExecuteEnds-Runs h ticks)

  -- For every step function: if the rounds from no failure and the first call end after `k` ticks,
  -- then the loop of ExecuteChannelUpgrade returns after `k` ticks with that outcome. It succeeds when
  -- a step finds both chains in their target states, which the first call and the later ones are told
  -- apart for; it fails with the error of a step, or when the messages of three rounds were not
  -- accepted, with none accepted between them; a round with nothing to do keeps the count.
  pub execute_loop-ExecuteEnds :
      (k : ℕ) (ticks : List Tick) (o : Outcome (Unit {0})) (w v : W)
      → ExecuteEnds w 0 true k o v
      → execute_loop marshal config path_name src dst step (replicate k tick ++ ticks) w
        ≡ (ended o, v)
  unfolding execute_loop
  execute_loop-ExecuteEnds k ticks o w v h = let (c, e) = ExecuteEnds-Runs h ticks in rw e refl
