-- ===== src/Tendermint/Agree.antt =====
-- The two readers of a packet's event, core/utils.go and chains/tendermint/msg.go, agree.
use text.Mathlib.TextPositions.{eq_refl}
use yui_relayer.Base.{
  ℕ, ◌^◌, ◌<◌, ◌%◌, ◌-◌, ltb, if◌then◌else◌, sym, arith, String, true, false, List, [], ◌∷◌, Option,
  none, some, str_eq, ◌||◌, ◌≡◌, refl, ok, Error,
}
use yui_relayer.Durations.{ℤ, pos, negsuc, int64, bits, bits-int64}
use yui_relayer.Ibc.{Packet}
use yui_relayer.PathEnd.{codes}
use yui_relayer.Msg.{MsgEventLog, send_packet}
use yui_relayer.Events.{Event, get_packets_from_events}
use yui_relayer.Events.Numbers.{parse_uint, parse_uint-decimal, hex_decode, hex_decode-hex_encode}
use yui_relayer.Events.Reports.{
  IsPacket, Texts, packet_attributes, packet_event, no_event, get_packets_from_events-Reports,
}
use yui_relayer.Tendermint.{
  get_attribute_timestamp, Types, find_attribute, parse_msg_event_log, parse_send_packet,
  get_attribute_string, get_attribute_uint64, get_attribute_bytes, get_attribute_height,
}

-- The event type is that of SendPacket, and of none of the cases before it.
pub record IsSend (types : Types) (type : String) : Type 0 where
  pub not_client : str_eq type types.create_client ≡ false
  pub not_connection :
      str_eq type types.connection_open_init || str_eq type types.connection_open_try ≡ false
  pub not_channel :
      str_eq type types.channel_open_init || str_eq type types.channel_open_try ≡ false
  pub is_send : str_eq type types.send_packet ≡ true

-- The time, in nanoseconds since 1970, that a log has for a timeout timestamp.
abbrev pub logged_time : ℕ → ℤ
logged_time t = if ltb t (2 ^ 63) then pos t else negsuc (2 ^ 64 - 1 - t)

-- The log that a sent packet should give.
abbrev pub logged : Packet → MsgEventLog
logged p =
    send_packet p.sequence p.source_port p.source_channel p.timeout_height
      (logged_time p.timeout_timestamp) p.payload

int64-logged : (t : ℕ) → t < 2 ^ 64 → int64 t ≡ logged_time t
unfolding int64
int64-logged t h = let e : t % 2 ^ 64 ≡ t = omega arith in rw e refl

module _ {W : Type 0} (w : W) (types : Types) where
  read_numbers :
      (p : Packet) (t : Texts p)
      → IsPacket p
      → parse_uint (codes t.sequence_text) ≡ some p.sequence
        × parse_uint (codes t.timestamp_text) ≡ some p.timeout_timestamp
        × hex_decode (codes t.payload_text) ≡ some p.payload
  read_numbers p t h = (
    rw t.sequence_codes (parse_uint-decimal p.sequence h.sequence_fits),
    rw t.timestamp_codes (parse_uint-decimal p.timeout_timestamp h.timestamp_fits),
    rw t.payload_codes (hex_decode-hex_encode p.payload h.payload_fits),
  )

  parse_send_packet-Texts :
      (type : String) (p : Packet) (t : Texts p) (old : Option String) (others : List String)
      → IsPacket p
      → types.parse_height t.height_text ≡ some p.timeout_height
      → parse_send_packet types
          (record { type = type; attributes = packet_attributes p t old others })
          w
        ≡ (ok (logged p), w)
  unfolding parse_send_packet get_attribute_string get_attribute_uint64 get_attribute_bytes
      get_attribute_height get_attribute_timestamp find_attribute
  parse_send_packet-Texts type p t none others h k =
      let (s, n, b) = read_numbers p t h in
      rw (s, k, n, b, int64-logged p.timeout_timestamp h.timestamp_fits) refl
  parse_send_packet-Texts type p t (some text) others h k =
      let (s, n, b) = read_numbers p t h in
      rw (s, k, n, b, int64-logged p.timeout_timestamp h.timestamp_fits) refl

  -- For every packet whose numbers fit their types and that ValidateBasic accepts, and its event, with
  -- the attributes in ibc-go's order and a height that ParseHeight of ibc-go reads back:
  -- GetPacketsFromEvents reads the packet from the event, and the chain module of tendermint reads a log
  -- with the packet's sequence, source, timeout height and data. The time of the log is the packet's
  -- timeout timestamp where this is below 2^63, and a time before 1970, 2^64 nanoseconds earlier, where
  -- it is not; the 64 bits of that time are the timestamp in both cases.
  pub send_packet-agree :
      (validate_basic : Packet → Option Error) (type : String) (p : Packet) (t : Texts p)
      (old : Option String) (others : List String)
      → IsSend types type
      → IsPacket p
      → validate_basic p ≡ none
      → types.parse_height t.height_text ≡ some p.timeout_height
      → let ev : Event = record { type = type; attributes = packet_attributes p t old others } in
        parse_msg_event_log types ev w ≡ (ok (logged p), w)
        × get_packets_from_events validate_basic (ev ∷ []) type w ≡ (ok (p ∷ []), w)
        × bits (logged_time p.timeout_timestamp) ≡ p.timeout_timestamp
  unfolding parse_msg_event_log
  send_packet-agree validate_basic type p t old others s h v k = (
    rw (s.not_client, s.not_connection, s.not_channel, s.is_send)
        (parse_send_packet-Texts type p t old others h k),
    (get_packets_from_events-Reports w validate_basic type 0
        (packet_event _ p t old others (eq_refl type) refl h v no_event)).0,
    rw (sym (int64-logged p.timeout_timestamp h.timestamp_fits))
        (bits-int64 p.timeout_timestamp h.timestamp_fits),
  )
