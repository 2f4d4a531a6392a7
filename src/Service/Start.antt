-- ===== src/Service/Start.antt =====
-- core/service.go: StartService and the endless loop of Start, run against what the waits between its
-- rounds meet, a timer (`none`) or the cancelled context. A list that is used up means that the service
-- is still waiting.
use yui_relayer.Base.{
  ℕ, suc, Option, none, some, List, [], ◌∷◌, Outcome, ok, err, panic, Error, Action, ◌≡◌, refl,
}
use yui_relayer.Headers.{SyncHeaders, new_sync_headers}
use yui_relayer.RelayMsgs.{RelayMsgs}
use yui_relayer.Loop.{Progress, waiting, ended}
use yui_relayer.Service.{RelayService, serve}

module _ {W : Type 0} (srv : RelayService W) where
  abbrev pub State : Type 0
  State = W × SyncHeaders

  -- One round with its retries.
  unfoldable pub serve_retried : Action (W × SyncHeaders) RelayMsgs
  unfolding serve
  serve_retried = srv.retry.run (W × SyncHeaders) RelayMsgs (serve srv)

  abbrev pub after_serve :
      Outcome RelayMsgs × (W × SyncHeaders)
      → (W × SyncHeaders → Progress × (W × SyncHeaders))
      → Progress × (W × SyncHeaders)
  after_serve (ok r, s) go_on = go_on s
  after_serve (err e, s) go_on = (ended (err e), s)
  after_serve (panic, s) go_on = (ended panic, s)

  unfoldable pub wait_and_serve :
      List (Option Error) → W × SyncHeaders → Progress × (W × SyncHeaders)
  unfolding serve_retried
  wait_and_serve [] s = (waiting, s)
  wait_and_serve (some e ∷ waits) s = (ended (err e), s)
  wait_and_serve (none ∷ waits) s = after_serve (serve_retried s) (wait_and_serve waits)

  -- RelayService.Start
  unfoldable pub start : List (Option Error) → W × SyncHeaders → Progress × (W × SyncHeaders)
  unfolding serve_retried wait_and_serve
  start waits s = after_serve (serve_retried s) (wait_and_serve waits)

  abbrev pub started_with :
      List (Option Error) → Outcome SyncHeaders × W → Progress × (W × SyncHeaders)
  started_with waits (ok sh, w) = start waits (w, sh)
  started_with waits (err e, w) = (ended (err e), (w, λ id. none))
  started_with waits (panic, w) = (ended panic, (w, λ id. none))

  -- StartService
  unfoldable pub start_service : List (Option Error) → W → Progress × (W × SyncHeaders)
  unfolding new_sync_headers start
  start_service waits w = started_with waits (new_sync_headers srv.src srv.dst w)

  -- Rounds that returned no error, one after the other.
  pub data Served : ℕ → W × SyncHeaders → W × SyncHeaders → Type 0 where
    no_round : {s : W × SyncHeaders} → Served 0 s s
    round_more :
        {n : ℕ} {s s' s'' : W × SyncHeaders} (r : RelayMsgs)
        → serve_retried s ≡ (ok r, s')
        → Served n s' s''
        → Served (suc n) s s''

  -- The waits begin with `n` timers, after which there are the others.
  pub data Timers : ℕ → List (Option Error) → List (Option Error) → Type 0 where
    no_timer : {waits : List (Option Error)} → Timers 0 waits waits
    timer_more :
        {n : ℕ} {waits others : List (Option Error)}
        → Timers n waits others
        → Timers (suc n) (none ∷ waits) others

  -- How the service stands, by the waits that come before its rounds: every wait was a timer, each has
  -- been followed by a round, and it is waiting; or the round after a timer has failed after its retries,
  -- or has panicked, where all rounds before it were served; or the wait after the rounds was cancelled,
  -- and no round came after it.
  pub data Stands (s : W × SyncHeaders) (waits : List (Option Error))
      : Progress × (W × SyncHeaders) → Type 0 where
    still_waiting :
        {s' : W × SyncHeaders} (n : ℕ)
        → Timers n waits []
        → Served n s s'
        → Stands s waits (waiting, s')
    round_failed :
        {s' s'' : W × SyncHeaders} {others : List (Option Error)} (n : ℕ) (e : Error)
        → Timers (suc n) waits others
        → Served n s s'
        → serve_retried s' ≡ (err e, s'')
        → Stands s waits (ended (err e), s'')
    round_panicked :
        {s' s'' : W × SyncHeaders} {others : List (Option Error)} (n : ℕ)
        → Timers (suc n) waits others
        → Served n s s'
        → serve_retried s' ≡ (panic, s'')
        → Stands s waits (ended panic, s'')
    was_cancelled :
        {s' : W × SyncHeaders} {others : List (Option Error)} (n : ℕ) (e : Error)
        → Timers n waits (some e ∷ others)
        → Served n s s'
        → Stands s waits (ended (err e), s')

  one_more :
      {s s' : W × SyncHeaders} {waits : List (Option Error)} {x : Progress × (W × SyncHeaders)}
      (r : RelayMsgs)
      → serve_retried s ≡ (ok r, s')
      → Stands s' waits x
      → Stands s (none ∷ waits) x
  one_more r e (still_waiting n t h) = still_waiting (suc n) (timer_more t) (round_more r e h)
  one_more r e (round_failed n e' t h f) =
      round_failed (suc n) e' (timer_more t) (round_more r e h) f
  one_more r e (round_panicked n t h f) = round_panicked (suc n) (timer_more t) (round_more r e h) f
  one_more r e (was_cancelled n e' t h) = was_cancelled (suc n) e' (timer_more t) (round_more r e h)

  after_serve-Stands :
      (s : W × SyncHeaders) (waits : List (Option Error))
      → ((s' : W × SyncHeaders) → Stands s' waits (wait_and_serve waits s'))
      → Stands s (none ∷ waits) (after_serve (serve_retried s) (wait_and_serve waits))
  after_serve-Stands s waits h = served (serve_retried s) refl
    where
      served :
          (x : Outcome RelayMsgs × (W × SyncHeaders))
          → serve_retried s ≡ x
          → Stands s (none ∷ waits) (after_serve x (wait_and_serve waits))
      served (ok r, s') e = one_more r e (h s')
      served (err e', s') e = round_failed 0 e' (timer_more no_timer) no_round e
      served (panic, s') e = round_panicked 0 (timer_more no_timer) no_round e

  wait_and_serve-Stands :
      (waits : List (Option Error)) (s : W × SyncHeaders) → Stands s waits (wait_and_serve waits s)
  unfolding wait_and_serve
  wait_and_serve-Stands [] s = still_waiting 0 no_timer no_round
  wait_and_serve-Stands (some e ∷ waits) s = was_cancelled 0 e no_timer no_round
  wait_and_serve-Stands (none ∷ waits) s = after_serve-Stands s waits (wait_and_serve-Stands waits)

  -- For every service, every sequence of waits and every state, where the first round counts as one
  -- after a timer: the loop of Start is waiting if all waits were timers and each was followed by a round
  -- that returned no error; or it has ended with the error, or the panic, of the first round that failed
  -- after its retries, which came after a timer; or with the error of the first wait that was cancelled,
  -- after one round for each timer before it and no round more. It never returns without an error.
  pub start-Stands :
      (waits : List (Option Error)) (s : W × SyncHeaders) → Stands s (none ∷ waits) (start waits s)
  unfolding start
  start-Stands waits s = after_serve-Stands s waits (wait_and_serve-Stands waits)
