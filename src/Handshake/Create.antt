-- ===== src/Handshake/Create.antt =====
-- The loop of CreateConnection (core/connection.go) and of CreateChannel (core/channel.go): the two
-- differ in the readiness check and in the step, which are the first two parameters here. What the
-- closure keeps between its calls, the counter of failures, stands beside the world.
use yui_relayer.Base.{
  ℕ, ◌+◌, Bool, true, false, List, Option, ltb, if◌then◌else◌, String, Error, message, Action,
  beside, Outcome, ok, err, panic, pure, ◌>>=◌,
}
use yui_relayer.Ibc.{Bytes}
use yui_relayer.Msg.{Msg}
use yui_relayer.Chain.{ProvableChain}
use yui_relayer.RelayMsgs.{RelayMsgs, ready, send}
use yui_relayer.Sync.{Config, sync_chain_configs_from_events}
use yui_relayer.Loop.{Tick, Progress, ended, run_until_complete, wait}

module _ {W : Type 0} (marshal : Msg → Option Bytes) (config : Config W) (path_name : String)
    (cancelled? : Option Error) (src dst : ProvableChain W) where
  -- After a round that was not accepted: the third in a row ends the handshake.
  unfoldable pub count_failure : Action (W × ℕ) Bool
  count_failure (w, n) =
      if ltb 2 (n + 1)
      then (err (message "handshake failed"), (w, n + 1))
      else beside (wait cancelled? >>= λ _. pure false) (w, n + 1)

  unfoldable pub reset_count : Action (W × ℕ) Bool
  reset_count (w, n) = (ok false, (w, 0))

  abbrev pub ended_by : Bool → Action (W × ℕ) Bool
  ended_by true = pure true
  ended_by false = reset_count

  -- After `Send`.
  unfoldable pub after_send : RelayMsgs → Action (W × ℕ) Bool
  unfolding count_failure reset_count sync_chain_configs_from_events
  after_send r =
      let sync =
        sync_chain_configs_from_events config path_name r.src_msg_ids r.dst_msg_ids src dst in
      if r.succeeded then beside sync >>= (λ _. ended_by r.last) else count_failure

  unfoldable pub send_round : RelayMsgs → Action (W × ℕ) Bool
  unfolding ready send after_send
  send_round r = if ready r then beside (send marshal src dst r) >>= after_send else pure false

  -- The closure that the loop calls.
  unfoldable pub create_round : Action W RelayMsgs → Action (W × ℕ) Bool
  unfolding send_round
  create_round step = do r ← beside step; send_round r

  abbrev pub dropped : Progress × (W × ℕ) → Progress × W
  dropped (p, (w, n)) = (p, w)

  -- CreateConnection and CreateChannel, without their tracing
  unfoldable pub create : Action W Bool → Action W RelayMsgs → List Tick → W → Progress × W
  unfolding create_round run_until_complete
  create check step ticks w = checked (check w)
    where
      checked : Outcome Bool × W → Progress × W
      checked (err e, w) = (ended (err e), w)
      checked (panic, w) = (ended panic, w)
      checked (ok false, w) = (ended (ok tt), w)
      checked (ok true, w) = dropped (run_until_complete (create_round step) ticks (w, 0))
