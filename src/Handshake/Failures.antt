-- ===== src/Handshake/Failures.antt =====
-- How the loop of CreateConnection and CreateChannel ends (core/connection.go, core/channel.go): the
-- rounds as a step relation on the world and the counter of failures.
use yui_relayer.Base.{
  ℕ, suc, ◌+◌, Bool, true, false, List, ◌∷◌, ◌++◌, replicate, ltb, ◌≡◌, refl, ◌∙◌, ◌<◌, arith,
  Option, none, String, message, Action, Outcome, ok, err,
}
use yui_relayer.Ibc.{Bytes}
use yui_relayer.Msg.{Msg}
use yui_relayer.Chain.{ProvableChain}
use yui_relayer.RelayMsgs.{RelayMsgs, ready, send}
use yui_relayer.Sync.{Config, sync_chain_configs_from_events}
use yui_relayer.Loop.{Tick, tick, ended, after_call, select, run_until_complete}
use yui_relayer.Handshake.Create.{
  count_failure, reset_count, after_send, send_round, create_round, create,
}

module _ {W : Type 0} (marshal : Msg → Option Bytes) (config : Config W) (path_name : String)
    (src dst : ProvableChain W) (step : Action W RelayMsgs) where
  -- A step that gives messages, and what `Send` makes of them.
  pub record Sends (w w' : W) (r : RelayMsgs) : Type 0 where
    pub msgs : RelayMsgs
    pub between : W
    pub stepped : step w ≡ (ok msgs, between)
    pub is_ready : ready msgs ≡ true
    pub sent : send marshal src dst msgs between ≡ (ok r, w')

  -- The identifiers that the accepted messages generated have been written to the configuration.
  abbrev pub Synced : RelayMsgs → W → W → Type 0
  Synced r w w' =
      sync_chain_configs_from_events config path_name r.src_msg_ids r.dst_msg_ids src dst w
      ≡ (ok tt, w')

  -- `Ends w n k o v`: from the world `w` with `n` failures in a row, the loop ends after `k` more
  -- ticks with `o`, in the world `v`.
  pub data Ends : W → ℕ → ℕ → Outcome (Unit {0}) → W → Type 0 where
    -- The messages of the last step are accepted.
    finished :
        {w u v : W} {n : ℕ} (r : RelayMsgs)
        → Sends w u r
        → r.succeeded ≡ true
        → Synced r u v
        → r.last ≡ true
        → Ends w n 0 (ok tt) v
    -- The third failure in a row.
    given_up :
        {w v : W} (r : RelayMsgs)
        → Sends w v r
        → r.succeeded ≡ false
        → Ends w 2 0 (err (message "handshake failed")) v
    -- The messages of another step are accepted: the failures are forgotten.
    accepted :
        {w u w' v : W} {n k : ℕ} {o : Outcome (Unit {0})} (r : RelayMsgs)
        → Sends w u r
        → r.succeeded ≡ true
        → Synced r u w'
        → r.last ≡ false
        → Ends w' 0 k o v
        → Ends w n (suc k) o v
    rejected :
        {w w' v : W} {n k : ℕ} {o : Outcome (Unit {0})} (r : RelayMsgs)
        → n < 2
        → Sends w w' r
        → r.succeeded ≡ false
        → Ends w' (n + 1) k o v
        → Ends w n (suc k) o v
    -- There is nothing to send yet.
    nothing_yet :
        {w w' v : W} {n k : ℕ} {o : Outcome (Unit {0})} (r : RelayMsgs)
        → step w ≡ (ok r, w')
        → ready r ≡ false
        → Ends w' n k o v
        → Ends w n (suc k) o v

  abbrev round : Action (W × ℕ) Bool
  round = create_round marshal config path_name none src dst step

  round-Sends :
      (w w' : W) (n : ℕ) (r : RelayMsgs)
      → Sends w w' r
      → round (w, n) ≡ after_send marshal config path_name none src dst r (w', n)
  unfolding create_round send_round
  round-Sends w w' n r s = rw (s.stepped, s.is_ready, s.sent) refl

  round-rejected :
      (w : W) (n : ℕ) (r : RelayMsgs)
      → n < 2
      → r.succeeded ≡ false
      → after_send marshal config path_name none src dst r (w, n) ≡ (ok false, (w, n + 1))
  unfolding after_send count_failure
  round-rejected w n r small f = let e : ltb 2 (n + 1) ≡ false = ground arith in rw (f, e) refl

  round-given_up :
      (w : W) (r : RelayMsgs)
      → r.succeeded ≡ false
      → after_send marshal config path_name none src dst r (w, 2)
        ≡ (err (message "handshake failed"), (w, 3))
  unfolding after_send count_failure
  round-given_up w r f = rw f refl

  round-accepted :
      (w w' : W) (n : ℕ) (r : RelayMsgs)
      → r.succeeded ≡ true
      → Synced r w w'
      → r.last ≡ false
      → after_send marshal config path_name none src dst r (w, n) ≡ (ok false, (w', 0))
  unfolding after_send reset_count
  round-accepted w w' n r f s l = rw (f, s, l) refl

  round-finished :
      (w w' : W) (n : ℕ) (r : RelayMsgs)
      → r.succeeded ≡ true
      → Synced r w w'
      → r.last ≡ true
      → after_send marshal config path_name none src dst r (w, n) ≡ (ok true, (w', n))
  unfolding after_send
  round-finished w w' n r f s l = rw (f, s, l) refl

  abbrev Loops : W → ℕ → List Tick → Outcome (Unit {0}) → W → Type 0
  Loops w n ticks o v = (m : ℕ) × run_until_complete round ticks (w, n) ≡ (ended o, (v, m))

  -- A round that goes on hands over to the loop after the next tick.
  go_on :
      (w w' v : W) (n n' : ℕ) (ticks : List Tick) (o : Outcome (Unit {0}))
      → round (w, n) ≡ (ok false, (w', n'))
      → Loops w' n' ticks o v
      → Loops w n (tick ∷ ticks) o v
  unfolding run_until_complete select after_call
  go_on w w' v n n' ticks o e (m, h) = (m, rw e h)

  round-nothing_yet :
      (w w' : W) (n : ℕ) (r : RelayMsgs)
      → step w ≡ (ok r, w')
      → ready r ≡ false
      → round (w, n) ≡ (ok false, (w', n))
  unfolding create_round send_round
  round-nothing_yet w w' n r e f = rw (e, f) refl

  Ends-Loops :
      {w v : W} {n k : ℕ} {o : Outcome (Unit {0})}
      → Ends w n k o v
      → (ticks : List Tick) → Loops w n (replicate k tick ++ ticks) o v
  unfolding run_until_complete after_call
  Ends-Loops {w = w} {v = v} {n = n} (finished {u = u} r s f y l) ticks =
      (n, rw (round-Sends w u n r s ∙ round-finished u v n r f y l) refl)
  Ends-Loops {w = w} {v = v} (given_up r s f) ticks =
      (3, rw (round-Sends w v 2 r s ∙ round-given_up v r f) refl)
  Ends-Loops {w = w} {v = v} {n = n} (accepted {u = u} {w' = w'} {k = k} {o = o} r s f y l e)
        ticks =
      go_on w w' v n 0 (replicate k tick ++ ticks) o
        (round-Sends w u n r s ∙ round-accepted u w' n r f y l) (Ends-Loops e ticks)
  Ends-Loops {w = w} {v = v} {n = n} (rejected {w' = w'} {k = k} {o = o} r small s f e) ticks =
      go_on w w' v n (n + 1) (replicate k tick ++ ticks) o
        (round-Sends w w' n r s ∙ round-rejected w' n r small f) (Ends-Loops e ticks)
  Ends-Loops {w = w} {v = v} {n = n} (nothing_yet {w' = w'} {k = k} {o = o} r e f h) ticks =
      go_on w w' v n n (replicate k tick ++ ticks) o (round-nothing_yet w w' n r e f)
        (Ends-Loops h ticks)

  -- For every readiness check, every step, and every run of the rounds in which the waiting is not
  -- cancelled: if the check lets the handshake begin, and the rounds from there end after `k` ticks,
  -- then CreateConnection (and CreateChannel) returns after `k` ticks with that outcome. It succeeds
  -- when the messages of a step marked `Last` are accepted and their identifiers are written to the
  -- configuration; it fails when three rounds that sent messages were not accepted, with none accepted
  -- between them; a round with nothing to send changes neither.
  pub create-Ends :
      (check : Action W Bool) (k : ℕ) (ticks : List Tick) (o : Outcome (Unit {0})) (w w0 v : W)
      → check w ≡ (ok true, w0)
      → Ends w0 0 k o v
      → create marshal config path_name none src dst check step (replicate k tick ++ ticks) w
        ≡ (ended o, v)
  unfolding create
  create-Ends check k ticks o w w0 v e h = let (m, l) = Ends-Loops h ticks in rw (e, l) refl
