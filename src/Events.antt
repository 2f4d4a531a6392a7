-- ===== src/Events.antt =====
-- core/utils.go: packets and acknowledgements from the events of a transaction. An attribute has the
-- constant of ibc-go that its key is, and a value; texts are read as code points (`Numbers`), and are
-- UTF-8 when they are taken as bytes. `Reports` and `Bounds` are about what is read.
pub mod Numbers
pub mod Reports
pub mod Bounds
use yui_relayer.Base.{
  ℕ, String, Bool, List, [], ◌∷◌, ◌++◌, Option, none, some, str_eq, ◌==◌, if◌then◌else◌, Action,
  Error, pure, fail, or_fail, or_crash, ◌>>=◌, ◌>>◌,
}
use yui_relayer.Ibc.{Bytes, Height, zero_height, Packet}
use yui_relayer.PathEnd.{codes}
use Numbers.{parse_uint, hex_decode, split_dash, utf8}

-- The `AttributeKey…` constants of ibc-go that the code reads, here and in chains/tendermint, and the
-- key of the message index; `other_key` is any other text.
pub data AttributeKey : Type 0 where
  data_key data_hex_key timeout_height_key timeout_timestamp_key sequence_key src_port_key
        src_channel_key dst_port_key dst_channel_key ack_key ack_hex_key client_id_key
        connection_id_key channel_id_key port_id_key upgrade_sequence_key msg_index_key other_key :
      AttributeKey

-- The keys, as numbers.
abbrev pub rank : AttributeKey → ℕ
rank data_key = 0
rank data_hex_key = 1
rank timeout_height_key = 2
rank timeout_timestamp_key = 3
rank sequence_key = 4
rank src_port_key = 5
rank src_channel_key = 6
rank dst_port_key = 7
rank dst_channel_key = 8
rank ack_key = 9
rank ack_hex_key = 10
rank client_id_key = 11
rank connection_id_key = 12
rank channel_id_key = 13
rank port_id_key = 14
rank upgrade_sequence_key = 15
rank msg_index_key = 16
rank other_key = 17

-- abci.EventAttribute and abci.Event
pub record Attribute : Type 0 where
  pub key : AttributeKey
  pub value : String

pub record Event : Type 0 where
  pub type : String
  pub attributes : List Attribute

-- A packet while it is read: `Data` may still be nil.
pub record Reading : Type 0 where
  pub packet : Packet
  pub bytes : Option Bytes

abbrev pub no_packet : Reading
no_packet = record {
  packet = record {
    sequence = 0;
    source_port = "";
    source_channel = "";
    destination_port = "";
    destination_channel = "";
    payload = [];
    timeout_height = zero_height;
    timeout_timestamp = 0;
  };
  bytes = none;
}

abbrev pub or_empty : Option Bytes → Bytes
or_empty none = []
or_empty (some bz) = bz

abbrev pub read_packet : Reading → Packet
read_packet r = record r.packet { payload = or_empty r.bytes }

-- `if x == nil { x = []byte(value) }`
abbrev pub keep_or : Option Bytes → String → Option Bytes
keep_or none value = some (utf8 (codes value))
keep_or (some bz) value = some bz

-- `parts[1]`
abbrev pub head? : List (List ℕ) → Option (List ℕ)
head? [] = none
head? (part ∷ parts) = some part

-- packetAcknowledgement
pub record PacketAcknowledgement : Type 0 where
  pub src_port_id : String
  pub src_channel_id : String
  pub dst_port_id : String
  pub dst_channel_id : String
  pub sequence : ℕ
  pub bytes : Option Bytes

abbrev pub no_ack : PacketAcknowledgement
no_ack = record {
  src_port_id = "";
  src_channel_id = "";
  dst_port_id = "";
  dst_channel_id = "";
  sequence = 0;
  bytes = none;
}

-- The loops of the two `Find…` functions.
abbrev pub first_packet : ℕ → List Packet → Option Packet
first_packet seq [] = none
first_packet seq (p ∷ packets) = if p.sequence == seq then some p else first_packet seq packets

abbrev pub first_ack : ℕ → List PacketAcknowledgement → Option PacketAcknowledgement
first_ack seq [] = none
first_ack seq (a ∷ acks) = if a.sequence == seq then some a else first_ack seq acks

module _ {W : Type 0} where
  -- strToUint64: a text that is no uint64 is a panic.
  unfoldable pub str_to_uint64 : List ℕ → Action W ℕ
  unfolding parse_uint
  str_to_uint64 s = or_crash (parse_uint s)

  -- The timeout height; a text without '-' has no second part, which is a panic.
  unfoldable pub read_height : String → Action W Height
  unfolding str_to_uint64 split_dash
  read_height value = do
    let (part, parts) = split_dash (codes value)
    number ← str_to_uint64 part
    rest ← or_crash (head? parts)
    height ← str_to_uint64 rest
    pure (record { revision_number = number; revision_height = height })

  -- One turn of the loop over the attributes in GetPacketsFromEvents.
  unfoldable pub read_attribute : AttributeKey → String → Reading → Action W Reading
  unfolding read_height str_to_uint64 hex_decode utf8
  read_attribute data_key v r = pure (record r { bytes = keep_or r.bytes v })
  read_attribute data_hex_key v r = do
    bz ← or_fail (hex_decode (codes v)) "hex"
    pure (record r { bytes = some bz })
  read_attribute timeout_height_key v r = do
    height ← read_height v
    pure (record r { packet = record r.packet { timeout_height = height } })
  read_attribute timeout_timestamp_key v r = do
    n ← str_to_uint64 (codes v)
    pure (record r { packet = record r.packet { timeout_timestamp = n } })
  read_attribute sequence_key v r = do
    n ← str_to_uint64 (codes v)
    pure (record r { packet = record r.packet { sequence = n } })
  read_attribute src_port_key v r = pure (record r { packet = record r.packet { source_port = v } })
  read_attribute src_channel_key v r =
      pure (record r { packet = record r.packet { source_channel = v } })
  read_attribute dst_port_key v r =
      pure (record r { packet = record r.packet { destination_port = v } })
  read_attribute dst_channel_key v r =
      pure (record r { packet = record r.packet { destination_channel = v } })
  read_attribute _ v r = pure r

  unfoldable pub read_attributes : List Attribute → Reading → Action W Reading
  unfolding read_attribute
  read_attributes [] r = pure r
  read_attributes (a ∷ attributes) r = do
    r' ← read_attribute a.key a.value r
    read_attributes attributes r'

  -- `packet.ValidateBasic()`: `none` is no error.
  abbrev pub checked : Packet → Option Error → Action W Packet
  checked packet none = pure packet
  checked packet (some e) = fail e

  module _ (validate_basic : Packet → Option Error) where
    unfoldable pub read_event : Event → Action W Packet
    unfolding read_attributes
    read_event ev = do
      r ← read_attributes ev.attributes no_packet
      checked (read_packet r) (validate_basic (read_packet r))

    unfoldable pub add_packet : Event → Action W (List Packet) → Action W (List Packet)
    unfolding read_event
    add_packet ev rest = do packet ← read_event ev; packets ← rest; pure (packet ∷ packets)

    -- GetPacketsFromEvents
    unfoldable pub get_packets_from_events : List Event → String → Action W (List Packet)
    unfolding add_packet
    get_packets_from_events [] event_type = pure []
    get_packets_from_events (ev ∷ events) event_type =
        let rest = get_packets_from_events events event_type in
        if str_eq ev.type event_type then add_packet ev rest else rest

    -- FindPacketFromEventsBySequence
    unfoldable pub find_packet_from_events_by_sequence :
        List Event → String → ℕ → Action W (Option Packet)
    unfolding get_packets_from_events
    find_packet_from_events_by_sequence events event_type seq = do
      packets ← get_packets_from_events events event_type
      pure (first_packet seq packets)

  -- One turn of the loop over the attributes in GetPacketAcknowledgementsFromEvents.
  unfoldable pub read_ack_attribute :
      AttributeKey → String → PacketAcknowledgement → Action W PacketAcknowledgement
  unfolding str_to_uint64 hex_decode utf8
  read_ack_attribute sequence_key v a = do
    n ← str_to_uint64 (codes v)
    pure (record a { sequence = n })
  read_ack_attribute src_port_key v a = pure (record a { src_port_id = v })
  read_ack_attribute src_channel_key v a = pure (record a { src_channel_id = v })
  read_ack_attribute dst_port_key v a = pure (record a { dst_port_id = v })
  read_ack_attribute dst_channel_key v a = pure (record a { dst_channel_id = v })
  read_ack_attribute ack_key v a = pure (record a { bytes = keep_or a.bytes v })
  read_ack_attribute ack_hex_key v a = do
    bz ← or_fail (hex_decode (codes v)) "hex"
    pure (record a { bytes = some bz })
  read_ack_attribute _ v a = pure a

  unfoldable pub read_ack_attributes :
      List Attribute → PacketAcknowledgement → Action W PacketAcknowledgement
  unfolding read_ack_attribute
  read_ack_attributes [] a = pure a
  read_ack_attributes (attr ∷ attributes) a = do
    a' ← read_ack_attribute attr.key attr.value a
    read_ack_attributes attributes a'

  unfoldable pub add_ack :
      Event → Action W (List PacketAcknowledgement) → Action W (List PacketAcknowledgement)
  unfolding read_ack_attributes
  add_ack ev rest = do
    ack ← read_ack_attributes ev.attributes no_ack
    acks ← rest
    pure (ack ∷ acks)

  -- GetPacketAcknowledgementsFromEvents; `write_ack` is chantypes.EventTypeWriteAck
  unfoldable pub get_packet_acknowledgements_from_events :
      String → List Event → Action W (List PacketAcknowledgement)
  unfolding add_ack
  get_packet_acknowledgements_from_events write_ack [] = pure []
  get_packet_acknowledgements_from_events write_ack (ev ∷ events) =
      let rest = get_packet_acknowledgements_from_events write_ack events in
      if str_eq ev.type write_ack then add_ack ev rest else rest

  -- FindPacketAcknowledgementFromEventsBySequence
  unfoldable pub find_packet_acknowledgement_from_events_by_sequence :
      String → List Event → ℕ → Action W (Option PacketAcknowledgement)
  unfolding get_packet_acknowledgements_from_events
  find_packet_acknowledgement_from_events_by_sequence write_ack events seq = do
    acks ← get_packet_acknowledgements_from_events write_ack events
    pure (first_ack seq acks)
