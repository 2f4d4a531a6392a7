-- ===== src/Tendermint.antt =====
-- chains/tendermint/msg.go, and GetMsgResult of chains/tendermint/chain.go: the result of a message,
-- with the events of its transaction that are its own. `Own` and `Agree` are about the events.
pub mod Refresh
pub mod Unfinalized
pub mod Own
pub mod Agree
use yui_relayer.Base.{
  ℕ, ◌^◌, String, Bool, true, false, List, [], ◌∷◌, Option, none, some, ◌||◌, ltb, ◌==◌, str_eq,
  if◌then◌else◌, Action, Outcome, message, external, pure, fail, or_fail, ◌>>=◌, ◌>>◌,
}
use yui_relayer.Durations.{ℤ, int64}
use yui_relayer.Ibc.{Bytes, Height, zero_height, Packet}
use yui_relayer.PathEnd.{codes}
use yui_relayer.Msg.{
  MsgId, tendermint, fabric, MsgResult, MsgEventLog, generate_client_identifier,
  generate_connection_identifier, generate_channel_identifier, send_packet, event_recv_packet,
  write_acknowledgement, acknowledge_packet, upgrade_channel, unknown,
}
use yui_relayer.Events.{
  AttributeKey, data_key, data_hex_key, timeout_height_key, timeout_timestamp_key, sequence_key,
  src_port_key, src_channel_key, dst_port_key, dst_channel_key, ack_key, ack_hex_key, client_id_key,
  connection_id_key, channel_id_key, port_id_key, upgrade_sequence_key, msg_index_key, other_key,
  Attribute, Event, rank,
}
use yui_relayer.Events.Numbers.{parse_uint, hex_decode}

-- The `EventType…` constants of ibc-go, and ParseHeight, with `none` for its error.
pub record Types : Type 0 where
  pub create_client : String
  pub connection_open_init : String
  pub connection_open_try : String
  pub channel_open_init : String
  pub channel_open_try : String
  pub send_packet : String
  pub recv_packet : String
  pub write_ack : String
  pub acknowledge_packet : String
  pub channel_upgrade_open : String
  pub parse_height : String → Option Height

-- The value of the first attribute with the key.
unfoldable pub find_attribute : List Attribute → AttributeKey → Option String
find_attribute [] key = none
find_attribute (a ∷ attributes) key =
    if rank a.key == rank key then some a.value else find_attribute attributes key

-- strconv.ParseUint(s, 10, 32)
unfoldable pub parse_uint32 : List ℕ → Option ℕ
unfolding parse_uint
parse_uint32 s = below (parse_uint s)
  where
    below : Option ℕ → Option ℕ
    below none = none
    below (some n) = if ltb n (2 ^ 32) then some n else none

-- `found && index == msgIndex`
abbrev pub is_own : ℕ → Option ℕ → Bool
is_own msg_index none = false
is_own msg_index (some n) = n == msg_index

module _ {W : Type 0} where
  -- getAttributeString
  unfoldable pub get_attribute_string : Event → AttributeKey → Action W String
  unfolding find_attribute
  get_attribute_string ev key = or_fail (find_attribute ev.attributes key) "attribute"

  -- getAttributeBytes
  unfoldable pub get_attribute_bytes : Event → AttributeKey → Action W Bytes
  unfolding get_attribute_string hex_decode
  get_attribute_bytes ev key = do
    v ← get_attribute_string ev key
    or_fail (hex_decode (codes v)) "hex"

  -- getAttributeUint64
  unfoldable pub get_attribute_uint64 : Event → AttributeKey → Action W ℕ
  unfolding get_attribute_string parse_uint
  get_attribute_uint64 ev key = do
    v ← get_attribute_string ev key
    or_fail (parse_uint (codes v)) "uint"

  -- getAttributeTimestamp: time.Unix(0, int64(d)), in nanoseconds since 1970
  unfoldable pub get_attribute_timestamp : Event → AttributeKey → Action W ℤ
  unfolding get_attribute_uint64
  get_attribute_timestamp ev key = get_attribute_uint64 ev key >>= λ d. pure (int64 d)

  abbrev pub parsed_index : Option String → Action W (Option ℕ)
  parsed_index none = pure none
  parsed_index (some v) = or_fail (parse_uint32 (codes v)) "msg_index" >>= λ n. pure (some n)

  -- msgIndexOf
  unfoldable pub msg_index_of : Event → Action W (Option ℕ)
  unfolding find_attribute parse_uint32
  msg_index_of ev = parsed_index (find_attribute ev.attributes msg_index_key)

  module _ (types : Types) where
    -- getAttributeHeight
    unfoldable pub get_attribute_height : Event → AttributeKey → Action W Height
    unfolding get_attribute_string
    get_attribute_height ev key = do
      v ← get_attribute_string ev key
      or_fail (types.parse_height v) "height"

    unfoldable pub parse_send_packet : Event → Action W MsgEventLog
    unfolding get_attribute_timestamp get_attribute_string get_attribute_uint64 get_attribute_bytes
        get_attribute_height
    parse_send_packet ev = do
      sequence ← get_attribute_uint64 ev sequence_key
      port ← get_attribute_string ev src_port_key
      channel ← get_attribute_string ev src_channel_key
      height ← get_attribute_height ev timeout_height_key
      timestamp ← get_attribute_timestamp ev timeout_timestamp_key
      payload ← get_attribute_bytes ev data_hex_key
      pure (send_packet sequence port channel height timestamp payload)

    unfoldable pub parse_recv_packet : Event → Action W MsgEventLog
    unfolding get_attribute_timestamp get_attribute_string get_attribute_uint64 get_attribute_bytes
        get_attribute_height
    parse_recv_packet ev = do
      sequence ← get_attribute_uint64 ev sequence_key
      port ← get_attribute_string ev dst_port_key
      channel ← get_attribute_string ev dst_channel_key
      height ← get_attribute_height ev timeout_height_key
      timestamp ← get_attribute_timestamp ev timeout_timestamp_key
      payload ← get_attribute_bytes ev data_hex_key
      pure (event_recv_packet sequence port channel height timestamp payload)

    unfoldable pub parse_write_ack : Event → Action W MsgEventLog
    unfolding get_attribute_string get_attribute_uint64 get_attribute_bytes
    parse_write_ack ev = do
      sequence ← get_attribute_uint64 ev sequence_key
      port ← get_attribute_string ev dst_port_key
      channel ← get_attribute_string ev dst_channel_key
      bytes ← get_attribute_bytes ev ack_hex_key
      pure (write_acknowledgement sequence port channel bytes)

    -- The timeouts of an acknowledged packet are read, and nothing reads them further on.
    unfoldable pub parse_acknowledge_packet : Event → Action W MsgEventLog
    unfolding get_attribute_timestamp get_attribute_string get_attribute_uint64 get_attribute_height
    parse_acknowledge_packet ev = do
      sequence ← get_attribute_uint64 ev sequence_key
      port ← get_attribute_string ev src_port_key
      channel ← get_attribute_string ev src_channel_key
      height ← get_attribute_height ev timeout_height_key
      timestamp ← get_attribute_timestamp ev timeout_timestamp_key
      pure (acknowledge_packet sequence port channel)

    unfoldable pub parse_upgrade_channel : Event → Action W MsgEventLog
    unfolding get_attribute_string get_attribute_uint64
    parse_upgrade_channel ev = do
      port ← get_attribute_string ev port_id_key
      channel ← get_attribute_string ev channel_id_key
      sequence ← get_attribute_uint64 ev upgrade_sequence_key
      pure (upgrade_channel port channel sequence)

    abbrev pub identifier : (String → MsgEventLog) → AttributeKey → Event → Action W MsgEventLog
    identifier make key ev = get_attribute_string ev key >>= λ id. pure (make id)

    -- parseMsgEventLog; the errors of several attributes are joined, here it is the first.
    unfoldable pub parse_msg_event_log : Event → Action W MsgEventLog
    unfolding get_attribute_string parse_send_packet parse_recv_packet parse_write_ack
        parse_acknowledge_packet parse_upgrade_channel
    parse_msg_event_log ev =
        let is : String → Bool = str_eq ev.type in
        if is types.create_client
        then identifier generate_client_identifier client_id_key ev
        else if is types.connection_open_init || is types.connection_open_try
        then identifier generate_connection_identifier connection_id_key ev
        else if is types.channel_open_init || is types.channel_open_try
        then identifier generate_channel_identifier channel_id_key ev
        else if is types.send_packet
        then parse_send_packet ev
        else if is types.recv_packet
        then parse_recv_packet ev
        else if is types.write_ack
        then parse_write_ack ev
        else if is types.acknowledge_packet
        then parse_acknowledge_packet ev
        else if is types.channel_upgrade_open
        then parse_upgrade_channel ev
        else pure unknown

    -- parseMsgEventLogs
    unfoldable pub parse_msg_event_logs : List Event → ℕ → Action W (List MsgEventLog)
    unfolding msg_index_of parse_msg_event_log
    parse_msg_event_logs [] msg_index = pure []
    parse_msg_event_logs (ev ∷ events) msg_index =
        let rest = parse_msg_event_logs events msg_index in
        let own : Action W (List MsgEventLog) =
          parse_msg_event_log ev >>= λ log. rest >>= λ logs. pure (log ∷ logs) in
        msg_index_of ev >>= λ index. if is_own msg_index index then own else rest

-- A transaction that has been committed: `failure` is the text of its error, if it has one.
pub record Committed : Type 0 where
  pub height : ℕ
  pub failure : Option String
  pub events : List Event

-- `resTx.TxResult.IsErr()`; an accepted result has the events of the message.
abbrev pub result_of :
    {W : Type 0} → Height → Option String → Action W (List MsgEventLog) → Action W MsgResult
result_of height (some text) parse =
    pure (record { block_height = height; is_success = false; failure_reason = text; events = [] })
result_of height none parse = parse >>= λ events.
    pure (record { block_height = height; is_success = true; failure_reason = ""; events = events })

module _ {W : Type 0} (types : Types) (parse_chain_id : String → ℕ)
    (wait_for_commit : String → Action W Committed) where
  -- Chain.GetMsgResult; `wait_for_commit` is waitForCommit, which asks the node
  unfoldable pub get_msg_result : String → MsgId → Action W MsgResult
  unfolding parse_msg_event_logs
  get_msg_result chain_id (tendermint tx_hash msg_index) = do
    tx ← wait_for_commit tx_hash
    let height : Height = record {
      revision_number = parse_chain_id chain_id;
      revision_height = tx.height;
    }
    result_of height tx.failure (parse_msg_event_logs types tx.events msg_index)
  get_msg_result chain_id (fabric id) = fail (message "unexpected message id type")
