-- ===== src/Upgrade/Run.antt =====
-- The commands of core/channel-upgrade.go: InitChannelUpgrade, the loop of ExecuteChannelUpgrade and
-- the loop of CancelChannelUpgrade. What the closure of ExecuteChannelUpgrade keeps between its
-- calls, the failures and `firstCall`, stands beside the world.
use yui_relayer.Base.{
  ℕ, ◌+◌, String, Bool, true, false, List, [], ◌∷◌, ◌++◌, Option, ◌&&◌, ◌||◌, ltb, if◌then◌else◌,
  Action, ok, err, message, pure, fail, beside, ◌>>=◌, ◌>>◌,
}
use yui_relayer.Ibc.{Bytes, Height, UpgradeFields, Channel, ErrorReceipt, Response, Functions}
use yui_relayer.Ibc.ChannelStates.{is_opened, is_flushcomplete}
use yui_relayer.Msg.{Msg}
use yui_relayer.PathEnd.Messages.{chan_upgrade_init, chan_upgrade_cancel, update_clients}
use yui_relayer.Chain.{ProvableChain}
use yui_relayer.Query.{query_channel_pair}
use yui_relayer.Query.Settled.{query_settled_channel_pair, query_settled_channel_upgrade_pair}
use yui_relayer.Headers.{SyncHeaders, new_sync_headers, get_query_context}
use yui_relayer.RelayMsgs.{RelayMsgs, ready, send}
use yui_relayer.Sync.{Config, sync_chain_configs_from_events}
use yui_relayer.Loop.{Tick, Progress, Retry, run_until_complete}
use yui_relayer.Upgrade.States.{UpgradeState}
use yui_relayer.Upgrade.Messages.{receipt_or_empty, matching_receipt}
use yui_relayer.Upgrade.Step.{upgrade_channel_step}

module _ {W : Type 0} where
  unfoldable pub send_init : ProvableChain W → UpgradeFields → Action W (Unit {0})
  unfolding chan_upgrade_init
  send_init chain fields = do
    addr ← chain.get_address_string
    ids ← chain.send_msgs (chan_upgrade_init chain.path fields addr ∷ [])
    pure tt

  -- InitChannelUpgrade
  unfoldable pub init_channel_upgrade :
      ProvableChain W → ProvableChain W → UpgradeFields → Bool → Action W (Unit {0})
  unfolding query_channel_pair send_init
  init_channel_upgrade chain cp fields permit_unsafe = do
    h ← chain.latest_height
    cp_h ← cp.latest_height
    (chann, cp_chann) ← query_channel_pair h cp_h chain cp
    let safe = is_opened chann.value.state && is_opened cp_chann.value.state
    if safe || permit_unsafe
        then send_init chain fields
        else fail (message "unsafe channel upgrade initialization")

  module _ (ibc : Functions) where
    -- The receipt for the cancellation by a chain in the given channel state.
    unfoldable pub receipt_for :
        Response Channel
        → Height
        → ProvableChain W
        → Option (Response ErrorReceipt)
        → Action W (Response ErrorReceipt)
    unfolding matching_receipt receipt_or_empty
    receipt_for chann ctx cp found =
        if is_flushcomplete chann.value.state
        then matching_receipt ibc chann.value.upgrade_sequence ctx cp found
        else receipt_or_empty ibc ctx cp found

    -- One call of SendMsgs for each message.
    unfoldable pub send_each : ProvableChain W → List Msg → Action W (Unit {0})
    send_each chain [] = pure tt
    send_each chain (msg ∷ msgs) = do ids ← chain.send_msgs (msg ∷ []); send_each chain msgs

    unfoldable pub cancel_settled :
        ProvableChain W → ProvableChain W → SyncHeaders → Height → Response Channel → Action W Bool
    unfolding receipt_for send_each update_clients chan_upgrade_cancel
    cancel_settled chain cp sh cp_ctx chann = do
      headers ← cp.setup_headers_for_update chain.chain_id (sh cp.chain_id)
      found ← cp.query_channel_upgrade_error cp_ctx
      receipt ← receipt_for chann cp_ctx cp found
      addr ← chain.get_address_string
      updates ← update_clients chain.path headers addr
      send_each chain (updates ++ chan_upgrade_cancel chain.path receipt addr ∷ [])
      pure true

    unfoldable pub cancel_channels :
        ProvableChain W
        → ProvableChain W
        → SyncHeaders
        → Height
        → Height
        → Response Channel
        → Action W Bool
    unfolding query_settled_channel_upgrade_pair cancel_settled
    cancel_channels chain cp sh ctx cp_ctx chann = do
      (upg, cp_upg, settled) ← query_settled_channel_upgrade_pair ibc ctx cp_ctx chain cp
      if settled then cancel_settled chain cp sh cp_ctx chann else pure false

    -- The closure of CancelChannelUpgrade.
    unfoldable pub cancel_round : ProvableChain W → ProvableChain W → Action W Bool
    unfolding new_sync_headers get_query_context query_settled_channel_pair cancel_channels
    cancel_round chain cp = do
      sh ← new_sync_headers chain cp
      ctx ← get_query_context sh chain.chain_id
      cp_ctx ← get_query_context sh cp.chain_id
      (chann, cp_chann, settled) ← query_settled_channel_pair ibc ctx cp_ctx chain cp
      if settled then cancel_channels chain cp sh ctx cp_ctx chann else pure false

    -- CancelChannelUpgrade
    unfoldable pub cancel_channel_upgrade :
        ProvableChain W → ProvableChain W → List Tick → W → Progress × W
    unfolding cancel_round run_until_complete
    cancel_channel_upgrade chain cp ticks w = run_until_complete (cancel_round chain cp) ticks w

-- `failures` and `firstCall`
pub record Counters : Type 0 where
  pub failures : ℕ
  pub first_call : Bool

module _ {W : Type 0} (marshal : Msg → Option Bytes) (config : Config W) (path_name : String)
    (src dst : ProvableChain W) where
  abbrev pub called : Action (W × Counters) (Unit {0})
  called (w, c) = (ok tt, (w, record c { first_call = false }))

  unfoldable pub no_failures : Action (W × Counters) Bool
  no_failures (w, c) = (ok false, (w, record c { failures = 0 }))

  -- The third failure in a row ends the upgrade.
  unfoldable pub add_failure : Action (W × Counters) Bool
  add_failure (w, c) =
      let n = c.failures + 1 in
      (
        if ltb 2 n then err (message "channel upgrade failed") else ok false,
        (w, record c { failures = n }),
      )

  unfoldable pub after_sent : RelayMsgs → Action (W × Counters) Bool
  unfolding sync_chain_configs_from_events no_failures add_failure
  after_sent r =
      let sync =
        sync_chain_configs_from_events config path_name r.src_msg_ids r.dst_msg_ids src dst in
      if r.succeeded then beside sync >>= (λ _. no_failures) else add_failure

  unfoldable pub execute_steps : RelayMsgs → Action (W × Counters) Bool
  unfolding ready send after_sent
  execute_steps r =
      let sent : Action (W × Counters) Bool = beside (send marshal src dst r) >>= after_sent in
      if r.last then pure true else if ready r then sent else pure false

  -- The closure of ExecuteChannelUpgrade.
  unfoldable pub execute_round : (Bool → Action W RelayMsgs) → Action (W × Counters) Bool
  unfolding execute_steps
  execute_round step (w, c) =
      (beside (step c.first_call) >>= λ r. called >>= λ _. execute_steps r) (w, c)

  abbrev pub forgotten : Progress × (W × Counters) → Progress × W
  forgotten (p, (w, c)) = (p, w)

  abbrev pub no_counters : Counters
  no_counters = record { failures = 0; first_call = true }

  unfoldable pub execute_loop : (Bool → Action W RelayMsgs) → List Tick → W → Progress × W
  unfolding execute_round run_until_complete
  execute_loop step ticks w =
      forgotten (run_until_complete (execute_round step) ticks (w, no_counters))

  -- ExecuteChannelUpgrade
  unfoldable pub execute_channel_upgrade :
      Functions → Retry → UpgradeState → UpgradeState → List Tick → W → Progress × W
  unfolding execute_loop upgrade_channel_step
  execute_channel_upgrade ibc retry target_src target_dst =
      execute_loop (upgrade_channel_step ibc retry target_src target_dst src dst)
