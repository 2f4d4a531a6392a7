-- ===== src/Ibc.antt =====
-- The IBC data that the relayer reads and sends. The types are those of ibc-go that core/ names
-- (heights, packets, connection and channel ends, upgrades, the query responses), with the fields
-- that the relayer touches; `Ibc.Functions` collects the functions of ibc-go and of the codec that
-- core/ calls, which are not in the repository.
pub mod ConnectionStates
pub mod ChannelStates
use yui_relayer.Base.{ℕ, String, Bool, Option, List}
use ConnectionStates.{ConnectionState}
use ChannelStates.{ChannelState}

abbrev pub Bytes : Type 0
Bytes = List ℕ

-- clienttypes.Height
pub record Height : Type 0 where
  pub revision_number : ℕ
  pub revision_height : ℕ

abbrev pub zero_height : Height
zero_height = record { revision_number = 0; revision_height = 0 }

-- chantypes.Order
pub data Order : Type 0 where
  none_order unordered ordered : Order

-- chantypes.Packet
pub record Packet : Type 0 where
  pub sequence : ℕ
  pub source_port : String
  pub source_channel : String
  pub destination_port : String
  pub destination_channel : String
  pub payload : Bytes
  pub timeout_height : Height
  pub timeout_timestamp : ℕ

-- `Header` of core/headers.go is an interface: the model keeps what its methods return.
pub record Header : Type 0 where
  pub height : Height
  pub is_valid_basic : Bool

-- exported.ClientState and exported.ConsensusState
pub record ClientState : Type 0 where
  pub latest_height : Height

pub record ConsensusState : Type 0 where
  pub timestamp : ℕ

-- conntypes.ConnectionEnd
pub record ConnectionEnd : Type 0 where
  pub state : ConnectionState
  pub client_id : String
  pub counterparty_connection_id : String

-- chantypes.Channel
pub record Channel : Type 0 where
  pub state : ChannelState
  pub ordering : Order
  pub connection_hops : List String
  pub version : String
  pub upgrade_sequence : ℕ

-- chantypes.Timeout, chantypes.UpgradeFields and chantypes.Upgrade
pub record Timeout : Type 0 where
  pub timeout_height : Height
  pub timeout_timestamp : ℕ

pub record UpgradeFields : Type 0 where
  pub ordering : Order
  pub connection_hops : List String
  pub version : String

pub record Upgrade : Type 0 where
  pub fields : UpgradeFields
  pub timeout : Timeout

-- chantypes.ErrorReceipt
pub record ErrorReceipt : Type 0 where
  pub sequence : ℕ
  pub text : String

-- sdk.Coin
pub record Coin : Type 0 where
  pub denom : String
  pub amount : ℕ

-- A query response: a value with its proof and the height of the proof.
pub record Response (A : Type 0) : Type 0 where
  pub value : A
  pub proof : Bytes
  pub proof_height : Height

-- The functions of ibc-go and of the codec.
pub record Functions : Type 0 where
  -- Height.IsZero, Height.LTE, Height.GT
  pub is_zero : Height → Bool
  pub lte : Height → Height → Bool
  pub gt : Height → Height → Bool
  -- chantypes.CommitPacket, chantypes.CommitAcknowledgement
  pub commit_packet : Packet → Bytes
  pub commit_acknowledgement : Bytes → Bytes
  -- host.PacketCommitmentPath, host.PacketReceiptPath, host.PacketAcknowledgementPath,
  -- host.NextSequenceRecvPath
  pub packet_commitment_path : String → String → ℕ → String
  pub packet_receipt_path : String → String → ℕ → String
  pub packet_acknowledgement_path : String → String → ℕ → String
  pub next_sequence_recv_path : String → String → String
  -- host.ConnectionPath, host.ChannelPath, host.ChannelUpgradePath, host.ChannelUpgradeErrorPath,
  -- host.FullClientStatePath, host.FullConsensusStatePath
  pub connection_path : String → String
  pub channel_path : String → String → String
  pub channel_upgrade_path : String → String → String
  pub channel_upgrade_error_path : String → String → String
  pub full_client_state_path : String → String
  pub full_consensus_state_path : String → Height → String
  -- host.ClientIdentifierValidator, host.ConnectionIdentifierValidator,
  -- host.ChannelIdentifierValidator, host.PortIdentifierValidator
  pub is_client_identifier : String → Bool
  pub is_connection_identifier : String → Bool
  pub is_channel_identifier : String → Bool
  pub is_port_identifier : String → Bool
  -- the `String` methods that the settlement checks compare
  pub connection_string : ConnectionEnd → String
  pub channel_string : Channel → String
  pub upgrade_string : Upgrade → String
  -- chantypes.Timeout.Elapsed
  pub elapsed : Timeout → Height → ℕ → Bool
  -- Codec().Marshal; `none` is its error
  pub marshal_connection : ConnectionEnd → Option Bytes
  pub marshal_channel : Channel → Option Bytes
  pub marshal_upgrade : Upgrade → Option Bytes
  pub marshal_error_receipt : ErrorReceipt → Option Bytes
  pub marshal_client_state : Bytes → Option Bytes
  pub marshal_consensus_state : Bytes → Option Bytes
  -- Codec().UnpackAny of a client state and of a consensus state; `none` is its error
  pub unpack_client_state : Bytes → Option ClientState
  pub unpack_consensus_state : Bytes → Option ConsensusState
