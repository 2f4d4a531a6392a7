-- ===== src/Query.antt =====
-- core/query.go: queries of both chains at once, and proofs of what was queried. A `Prove…` function
-- writes the proof into the response that it is given; here it returns the response. The two
-- settlement checks are those of core/connection.go, core/channel.go and core/channel-upgrade.go.
pub mod Settled
pub mod Asked
use yui_relayer.Base.{
  ℕ, String, Bool, true, false, List, [], Option, none, some, not, str_eq, if◌then◌else◌, Action,
  Outcome, ok, err, panic, Error, message, pure, fail, next, or_fail, both, ◌>>=◌, ◌>>◌,
}
use yui_relayer.Ibc.{
  Bytes, Height, zero_height, none_order, ConnectionEnd, Channel, Upgrade, ErrorReceipt, Response,
  Functions,
}
use yui_relayer.Ibc.ConnectionStates
use yui_relayer.Ibc.ChannelStates
use yui_relayer.Chain.{ProvableChain}

abbrev pub uninitialized_connection : Response ConnectionEnd
uninitialized_connection = record {
  value = record {
    state = ConnectionStates.uninitialized;
    client_id = "";
    counterparty_connection_id = "";
  };
  proof = [];
  proof_height = zero_height;
}

abbrev pub uninitialized_channel : Response Channel
uninitialized_channel = record {
  value = record {
    state = ChannelStates.uninitialized;
    ordering = none_order;
    connection_hops = [];
    version = "";
    upgrade_sequence = 0;
  };
  proof = [];
  proof_height = zero_height;
}

module _ {W : Type 0} where
  -- One goroutine of QueryConnectionPair: a path with no connection id has no connection yet.
  unfoldable pub query_connection_end : Height → ProvableChain W → Action W (Response ConnectionEnd)
  query_connection_end ctx chain =
      if str_eq chain.path.connection_id ""
      then pure uninitialized_connection
      else chain.query_connection ctx chain.path.connection_id

  -- QueryConnectionPair
  unfoldable pub query_connection_pair :
      Height
      → Height
      → ProvableChain W
      → ProvableChain W
      → Action W (Response ConnectionEnd × Response ConnectionEnd)
  unfolding query_connection_end
  query_connection_pair src_ctx dst_ctx src dst =
      both (query_connection_end src_ctx src) (query_connection_end dst_ctx dst)

  -- One goroutine of QueryChannelPair.
  unfoldable pub query_channel_end : Height → ProvableChain W → Action W (Response Channel)
  query_channel_end ctx chain =
      if str_eq chain.path.channel_id ""
      then pure uninitialized_channel
      else chain.query_channel ctx

  -- QueryChannelPair
  unfoldable pub query_channel_pair :
      Height
      → Height
      → ProvableChain W
      → ProvableChain W
      → Action W (Response Channel × Response Channel)
  unfolding query_channel_end
  query_channel_pair src_ctx dst_ctx src dst =
      both (query_channel_end src_ctx src) (query_channel_end dst_ctx dst)

  -- QueryChannelUpgradePair
  unfoldable pub query_channel_upgrade_pair :
      Height
      → Height
      → ProvableChain W
      → ProvableChain W
      → Action W (Option (Response Upgrade) × Option (Response Upgrade))
  query_channel_upgrade_pair src_ctx dst_ctx src dst =
      both (src.query_channel_upgrade src_ctx) (dst.query_channel_upgrade dst_ctx)

  -- QueryClientStatePair
  unfoldable pub query_client_state_pair :
      Height
      → Height
      → ProvableChain W
      → ProvableChain W
      → Action W (Response Bytes × Response Bytes)
  query_client_state_pair src_ctx dst_ctx src dst =
      both (src.query_client_state src_ctx) (dst.query_client_state dst_ctx)

  -- QueryClientConsensusStatePair
  unfoldable pub query_client_consensus_state_pair :
      Height
      → Height
      → ProvableChain W
      → ProvableChain W
      → Height
      → Height
      → Action W (Response Bytes × Response Bytes)
  query_client_consensus_state_pair src_ctx dst_ctx src dst src_cons_h dst_cons_h =
      both (src.query_client_consensus_state src_ctx src_cons_h)
        (dst.query_client_consensus_state dst_ctx dst_cons_h)

  -- The end of each `Prove…`: the proof of `bytes` at `path`, written into the response.
  abbrev pub prove_into :
      {A : Type 0} → Height → ProvableChain W → String → Bytes → Response A → Action W (Response A)
  prove_into ctx chain path bytes res = do
    (proof, height) ← chain.prove_state ctx path bytes
    pure (record res { proof = proof; proof_height = height })

  module _ (ibc : Functions) where
    -- ProveClientState
    unfoldable pub prove_client_state :
        Height → ProvableChain W → Response Bytes → Action W (Response Bytes)
    prove_client_state ctx chain res = do
      bytes ← or_fail (ibc.marshal_client_state res.value) "marshal"
      prove_into ctx chain (ibc.full_client_state_path chain.path.client_id) bytes res

    -- ProveClientConsensusState
    unfoldable pub prove_client_consensus_state :
        Height → ProvableChain W → Height → Response Bytes → Action W (Response Bytes)
    prove_client_consensus_state ctx chain cons_h res = do
      bytes ← or_fail (ibc.marshal_consensus_state res.value) "marshal"
      prove_into ctx chain (ibc.full_consensus_state_path chain.path.client_id cons_h) bytes res

    -- ProveConnection
    unfoldable pub prove_connection :
        Height → ProvableChain W → Response ConnectionEnd → Action W (Response ConnectionEnd)
    prove_connection ctx chain res =
        if ConnectionStates.is_uninitialized res.value.state
        then fail (message "connection state must not be UNINITIALIZED")
        else or_fail (ibc.marshal_connection res.value) "marshal" >>= λ bytes.
            prove_into ctx chain (ibc.connection_path chain.path.connection_id) bytes res

    -- ProveChannel
    unfoldable pub prove_channel :
        Height → ProvableChain W → Response Channel → Action W (Response Channel)
    prove_channel ctx chain res =
        if ChannelStates.is_uninitialized res.value.state
        then fail (message "channel state must not be UNINITIALIZED")
        else or_fail (ibc.marshal_channel res.value) "marshal" >>= λ bytes.
            prove_into ctx chain (ibc.channel_path chain.path.port_id chain.path.channel_id) bytes
              res

    -- ProveChannelUpgrade
    unfoldable pub prove_channel_upgrade :
        Height → ProvableChain W → Response Upgrade → Action W (Response Upgrade)
    prove_channel_upgrade ctx chain res = do
      bytes ← or_fail (ibc.marshal_upgrade res.value) "marshal"
      prove_into ctx chain (ibc.channel_upgrade_path chain.path.port_id chain.path.channel_id) bytes
          res

    -- ProveChannelUpgradeError
    unfoldable pub prove_channel_upgrade_error :
        Height → ProvableChain W → Response ErrorReceipt → Action W (Response ErrorReceipt)
    prove_channel_upgrade_error ctx chain res = do
      bytes ← or_fail (ibc.marshal_error_receipt res.value) "marshal"
      prove_into ctx chain (ibc.channel_upgrade_error_path chain.path.port_id chain.path.channel_id)
          bytes res
