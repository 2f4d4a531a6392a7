-- ===== src/Chain.antt =====
-- The interfaces that a chain module and a prover module implement (core/chain.go,
-- core/provers.go), joined as in `ProvableChain` of core/provable-chain.go. `W` is all that the
-- calls act on. A query context is its height. Where an interface takes the counterparty chain,
-- the model passes its chain id.
use yui_relayer.Base.{ℕ, String, Bool, Option, List, Action}
use yui_relayer.Ibc.{
  Bytes, Height, Header, ClientState, ConsensusState, ConnectionEnd, Channel, Upgrade, ErrorReceipt,
  Response,
}
use yui_relayer.PathEnd.{PathEnd}
use yui_relayer.Msg.{Msg, MsgId, MsgResult}
use yui_relayer.Packet.{PacketInfo}

pub record ProvableChain (W : Type 0) : Type 0 where
  pub chain_id : String
  pub path : PathEnd
  pub get_address_string : Action W String
  pub latest_height : Action W Height
  -- the block's time in nanoseconds
  pub timestamp : Height → Action W ℕ
  pub setup_for_relay : Action W (Unit {0})
  pub send_msgs : List Msg → Action W (List MsgId)
  pub get_msg_result : MsgId → Action W MsgResult
  -- ICS-02, ICS-03
  pub query_client_state : Height → Action W (Response Bytes)
  pub query_client_consensus_state : Height → Height → Action W (Response Bytes)
  pub query_connection : Height → String → Action W (Response ConnectionEnd)
  -- ICS-04; a query that may find nothing returns `none`
  pub query_channel : Height → Action W (Response Channel)
  pub query_next_sequence_receive : Height → Action W ℕ
  pub query_unreceived_packets : Height → List ℕ → Action W (List ℕ)
  pub query_unfinalized_relay_packets : Height → String → Action W (List PacketInfo)
  pub query_unreceived_acknowledgements : Height → List ℕ → Action W (List ℕ)
  pub query_unfinalized_relay_acknowledgements : Height → String → Action W (List PacketInfo)
  pub query_channel_upgrade : Height → Action W (Option (Response Upgrade))
  pub query_channel_upgrade_error : Height → Action W (Option (Response ErrorReceipt))
  pub query_can_transition_to_flush_complete : Height → Action W Bool
  -- StateProver and LightClient
  pub prove_state : Height → String → Bytes → Action W (Bytes × Height)
  pub prove_host_consensus_state : Height → Height → ConsensusState → Action W Bytes
  pub create_initial_light_client_state : Option Height → Action W (ClientState × ConsensusState)
  -- the whole header stream, as SetupHeadersForUpdateSync collects it
  pub setup_headers_for_update : String → Option Header → Action W (List Header)
  pub check_refresh_required : String → Action W Bool
  pub get_latest_finalized_header : Action W Header
