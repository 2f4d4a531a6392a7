-- ===== src/Sync.antt =====
-- `SyncChainConfigsFromEvents` of core/config.go: identifiers that executed messages have generated
-- are written into the path configuration. `Config` is the interface `ConfigI`.
use yui_relayer.Base.{
  ℕ, String, List, [], ◌∷◌, Option, none, some, ◌==◌, not, if◌then◌else◌, Action, message, pure,
  fail, ◌>>=◌, ◌>>◌,
}
use yui_relayer.Ibc.{Height, Order, none_order, unordered, ordered, Channel}
use yui_relayer.Msg.{
  MsgId, MsgResult, MsgEventLog, generate_client_identifier, generate_connection_identifier,
  generate_channel_identifier, upgrade_channel,
}
use yui_relayer.Chain.{ProvableChain}

-- PathConfigKey
pub data PathConfigKey : Type 0 where
  path_config_client_id path_config_connection_id path_config_channel_id path_config_order
        path_config_version :
      PathConfigKey

abbrev pub KeyValues : Type 0
KeyValues = List (PathConfigKey × String)

-- ConfigI: UpdatePathConfig for a path name and a chain id.
abbrev pub Config : Type 0 → Type 0
Config W = String → String → KeyValues → Action W (Unit {0})

-- The order as the configuration spells it; any other is an error.
unfoldable pub order_name : {W : Type 0} → Order → Action W String
order_name ordered = pure "ordered"
order_name unordered = pure "unordered"
order_name none_order = fail (message "unexpected channel ordering")

-- `len(chann.Channel.ConnectionHops) != 1` is an error.
unfoldable pub only_hop : {W : Type 0} → List String → Action W String
only_hop (hop ∷ []) = pure hop
only_hop _ = fail (message "unexpected length of connectionHops")

-- The key-values for an EventUpgradeChannel, from the channel as it then was.
unfoldable pub upgraded_channel : {W : Type 0} → Channel → ℕ → Action W KeyValues
unfolding order_name only_hop
upgraded_channel chann upgrade_sequence =
    if not (chann.upgrade_sequence == upgrade_sequence)
    then fail (message "unexpected mismatch of upgrade sequence")
    else only_hop chann.connection_hops >>= λ hop. order_name chann.ordering >>= λ order. pure (
        (path_config_connection_id, hop)
        ∷ (path_config_order, order)
        ∷ (path_config_version, chann.version)
        ∷ [])

module _ {W : Type 0} (config : Config W) (path_name : String) (chain : ProvableChain W) where
  -- The key-values of an event; `none` is the `continue` of the events that the configuration does
  -- not follow.
  unfoldable pub event_key_values : Height → MsgEventLog → Action W (Option KeyValues)
  unfolding upgraded_channel
  event_key_values height (generate_client_identifier id) =
      pure (some ((path_config_client_id, id) ∷ []))
  event_key_values height (generate_connection_identifier id) =
      pure (some ((path_config_connection_id, id) ∷ []))
  event_key_values height (generate_channel_identifier id) =
      pure (some ((path_config_channel_id, id) ∷ []))
  event_key_values height (upgrade_channel port channel upgrade_sequence) = do
    chann ← chain.query_channel height
    kv ← upgraded_channel chann.value upgrade_sequence
    pure (some kv)
  event_key_values height _ = pure none

  abbrev pub write_key_values : Option KeyValues → Action W (Unit {0})
  write_key_values none = pure tt
  write_key_values (some kv) = config path_name chain.chain_id kv

  unfoldable pub sync_events : Height → List MsgEventLog → Action W (Unit {0})
  unfolding event_key_values
  sync_events height [] = pure tt
  sync_events height (event ∷ events) = do
    kv ← event_key_values height event
    write_key_values kv
    sync_events height events

  unfoldable pub sync_result : MsgResult → Action W (Unit {0})
  unfolding sync_events
  sync_result res =
      if res.is_success
      then sync_events res.block_height res.events
      else fail (message "msg execution failed")

  -- SyncChainConfigFromEvents
  unfoldable pub sync_chain_config_from_events : List (Option MsgId) → Action W (Unit {0})
  unfolding sync_result
  sync_chain_config_from_events [] = pure tt
  sync_chain_config_from_events (none ∷ ids) = sync_chain_config_from_events ids
  sync_chain_config_from_events (some id ∷ ids) = do
    res ← chain.get_msg_result id
    sync_result res
    sync_chain_config_from_events ids

-- SyncChainConfigsFromEvents
unfoldable pub sync_chain_configs_from_events :
    {W : Type 0}
    → Config W
    → String
    → List (Option MsgId)
    → List (Option MsgId)
    → ProvableChain W
    → ProvableChain W
    → Action W (Unit {0})
unfolding sync_chain_config_from_events
sync_chain_configs_from_events config path_name src_ids dst_ids src dst = do
  sync_chain_config_from_events config path_name src src_ids
  sync_chain_config_from_events config path_name dst dst_ids
