-- ===== src/Msg.antt =====
-- The messages of ibc-go that the relayer sends (`sdk.Msg`), one constructor for each `NewMsg…`
-- that core/ calls, with its arguments in order. `default_chain_prefix`, the version lists and the
-- zero delay period are constants of the calls and are left out.
use yui_relayer.Base.{ℕ, String, Bool, List}
use yui_relayer.Durations.{ℤ}
use yui_relayer.Ibc.{
  Bytes, Height, Order, Packet, Header, ClientState, ConsensusState, Channel, Upgrade,
  UpgradeFields, ErrorReceipt, Coin,
}
use yui_relayer.Ibc.ChannelStates.{ChannelState}

pub data Msg : Type 0 where
  -- clienttypes
  create_client : ClientState → ConsensusState → String → Msg
  update_client : String → Header → String → Msg
  -- conntypes
  connection_open_init : String → String → String → Msg
  -- ids, client state, the three proofs, proof height, consensus height, signer, host proof
  connection_open_try :
      String
      → String
      → String
      → ClientState
      → Bytes
      → Bytes
      → Bytes
      → Height
      → Height
      → String
      → Bytes
      → Msg
  connection_open_ack :
      String → String → ClientState → Bytes → Bytes → Bytes → Height → Height → String → Bytes → Msg
  connection_open_confirm : String → Bytes → Height → String → Msg
  -- chantypes: port, version, order, connection, counterparty port, signer
  channel_open_init : String → String → Order → List String → String → String → Msg
  channel_open_try :
      String
      → String
      → Order
      → List String
      → String
      → String
      → String
      → Bytes
      → Height
      → String
      → Msg
  channel_open_ack : String → String → String → String → Bytes → Height → String → Msg
  channel_open_confirm : String → String → Bytes → Height → String → Msg
  channel_upgrade_init : String → String → UpgradeFields → String → Msg
  channel_upgrade_try :
      String → String → List String → UpgradeFields → ℕ → Bytes → Bytes → Height → String → Msg
  channel_upgrade_ack : String → String → Upgrade → Bytes → Bytes → Height → String → Msg
  channel_upgrade_confirm :
      String → String → ChannelState → Upgrade → Bytes → Bytes → Height → String → Msg
  channel_upgrade_open : String → String → ChannelState → ℕ → Bytes → Height → String → Msg
  channel_upgrade_cancel : String → String → ErrorReceipt → Bytes → Height → String → Msg
  channel_upgrade_timeout : String → String → Channel → Bytes → Height → String → Msg
  channel_close_init : String → String → String → Msg
  channel_close_confirm : String → String → Bytes → Height → String → Msg
  -- transfertypes: port, channel, token, sender, receiver, timeout height and timestamp, memo
  transfer : String → String → Coin → String → String → Height → ℕ → String → Msg
  -- packet, proof, proof height, signer
  recv_packet : Packet → Bytes → Height → String → Msg
  -- packet, next sequence to receive, proof, proof height, signer
  timeout : Packet → ℕ → Bytes → Height → String → Msg
  -- packet, acknowledgement, proof, proof height, signer
  acknowledgement : Packet → Bytes → Bytes → Height → String → Msg

-- `MsgID` of core/msg.go: tendermint's and fabric's implementations.
pub data MsgId : Type 0 where
  tendermint : String → ℕ → MsgId
  fabric : String → MsgId

-- `MsgEventLog` of core/msg.go, with the fields that the relayer reads.
pub data MsgEventLog : Type 0 where
  generate_client_identifier : String → MsgEventLog
  generate_connection_identifier : String → MsgEventLog
  generate_channel_identifier : String → MsgEventLog
  -- sequence, source port and channel, timeout height, timeout time in nanoseconds since 1970, data
  send_packet : ℕ → String → String → Height → ℤ → Bytes → MsgEventLog
  -- the same, with the destination port and channel
  event_recv_packet : ℕ → String → String → Height → ℤ → Bytes → MsgEventLog
  write_acknowledgement : ℕ → String → String → Bytes → MsgEventLog
  acknowledge_packet : ℕ → String → String → MsgEventLog
  -- port, channel, upgrade sequence
  upgrade_channel : String → String → ℕ → MsgEventLog
  unknown : MsgEventLog

-- `MsgResult` of core/msg.go: what its methods return.
pub record MsgResult : Type 0 where
  pub block_height : Height
  pub is_success : Bool
  pub failure_reason : String
  pub events : List MsgEventLog
