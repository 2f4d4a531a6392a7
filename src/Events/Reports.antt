-- ===== src/Events/Reports.antt =====
-- Packets are read back from the events that report them (core/utils.go).
use Prim.Native.Nat.{◌/◌}
use yui_relayer.Base.{
  ℕ, zero, suc, ◌+◌, ◌%◌, ◌^◌, ◌<◌, String, true, false, List, [], ◌∷◌, ◌++◌, Option, none, some,
  str_eq, ◌==◌, ltb, ◌≡◌, refl, All, Bool-cases, inl, inr, Error, ok, arith,
}
use yui_relayer.Ibc.{Packet}
use yui_relayer.PathEnd.{codes}
use yui_relayer.Events.{
  AttributeKey, data_key, data_hex_key, timeout_height_key, timeout_timestamp_key, sequence_key,
  src_port_key, src_channel_key, dst_port_key, dst_channel_key, other_key, Attribute, Event,
  Reading, no_packet, str_to_uint64, read_height, read_attribute, read_attributes, read_event,
  add_packet, get_packets_from_events, find_packet_from_events_by_sequence, first_packet,
}
use yui_relayer.Events.Numbers.{
  parse_uint-decimal, split_dash, decimal, decimal_digits, hex_encode, hex_decode,
  hex_decode-hex_encode,
}

abbrev NoDash : List ℕ → Type 0
NoDash = All (λ c. (c == b'-') ≡ false)

decimal_digits-NoDash : (k n : ℕ) (out : List ℕ) → NoDash out → NoDash (decimal_digits k n out)
unfolding decimal_digits
decimal_digits-NoDash zero n out h = h
decimal_digits-NoDash (suc k) n out h = elim (Bool-cases (ltb n 10)) [
  | inl yes' ↦ rw yes' (ground arith, h)
  | inr no' ↦ rw no' (decimal_digits-NoDash k (n / 10) ((b'0' + n % 10) ∷ out) (ground arith, h))
]

decimal-NoDash : (n : ℕ) → NoDash (decimal n)
unfolding decimal
decimal-NoDash n = decimal_digits-NoDash 20 n [] tt

split_dash-NoDash : (s : List ℕ) → NoDash s → split_dash s ≡ (s, [])
unfolding split_dash
split_dash-NoDash [] h = refl
split_dash-NoDash (c ∷ s) (h, hs) = rw (h, split_dash-NoDash s hs) refl

-- Two texts with no '-' are read back from their joining.
split_dash-append : (s t : List ℕ) → NoDash s → NoDash t → split_dash (s ++ b'-' ∷ t) ≡ (s, t ∷ [])
unfolding split_dash
split_dash-append [] t h k = rw (split_dash-NoDash t k) refl
split_dash-append (c ∷ s) t (h, hs) k = rw (h, split_dash-append s t hs k) refl

-- The fields of a Go packet are uint64's and bytes.
pub record IsPacket (p : Packet) : Type 0 where
  pub sequence_fits : p.sequence < 2 ^ 64
  pub number_fits : p.timeout_height.revision_number < 2 ^ 64
  pub height_fits : p.timeout_height.revision_height < 2 ^ 64
  pub timestamp_fits : p.timeout_timestamp < 2 ^ 64
  pub payload_fits : All (λ b. b < 256) p.payload

-- Texts for the fields: numbers in decimal, the height with a '-', the payload in hexadecimal.
pub record Texts (p : Packet) : Type 0 where
  pub payload_text : String
  pub height_text : String
  pub timestamp_text : String
  pub sequence_text : String
  pub payload_codes : codes payload_text ≡ hex_encode p.payload
  pub height_codes :
      codes height_text
      ≡ decimal p.timeout_height.revision_number ++ b'-' ∷ decimal p.timeout_height.revision_height
  pub timestamp_codes : codes timestamp_text ≡ decimal p.timeout_timestamp
  pub sequence_codes : codes sequence_text ≡ decimal p.sequence

abbrev pub attribute : AttributeKey → String → Attribute
attribute key value = record { key = key; value = value }

-- The deprecated attribute with the payload as a text, where there is one.
abbrev pub old_data : Option String → List Attribute
old_data none = []
old_data (some text) = attribute data_key text ∷ []

abbrev pub other_attributes : List String → List Attribute
other_attributes [] = []
other_attributes (text ∷ texts) = attribute other_key text ∷ other_attributes texts

-- The attributes of the event of a packet, in ibc-go's order.
abbrev pub packet_attributes : (p : Packet) → Texts p → Option String → List String → List Attribute
packet_attributes p t old others =
    old_data old
    ++ attribute data_hex_key t.payload_text
      ∷ attribute timeout_height_key t.height_text
      ∷ attribute timeout_timestamp_key t.timestamp_text
      ∷ attribute sequence_key t.sequence_text
      ∷ attribute src_port_key p.source_port
      ∷ attribute src_channel_key p.source_channel
      ∷ attribute dst_port_key p.destination_port
      ∷ attribute dst_channel_key p.destination_channel
      ∷ other_attributes others

-- The events report the packets of one type, among events of other types.
pub data Reports (validate_basic : Packet → Option Error) (event_type : String)
    : List Event → List Packet → Type 0 where
  no_event : Reports validate_basic event_type [] []
  other_event :
      (ev : Event) {events : List Event} {packets : List Packet}
      → str_eq ev.type event_type ≡ false
      → Reports validate_basic event_type events packets
      → Reports validate_basic event_type (ev ∷ events) packets
  packet_event :
      (ev : Event) (p : Packet) (t : Texts p) (old : Option String) (others : List String)
      {events : List Event} {packets : List Packet}
      → str_eq ev.type event_type ≡ true
      → ev.attributes ≡ packet_attributes p t old others
      → IsPacket p
      → validate_basic p ≡ none
      → Reports validate_basic event_type events packets
      → Reports validate_basic event_type (ev ∷ events) (p ∷ packets)

module _ {W : Type 0} (w : W) where
  read_height-Texts :
      (p : Packet) (t : Texts p)
      → IsPacket p
      → read_height t.height_text w ≡ (ok p.timeout_height, w)
  unfolding read_height str_to_uint64
  read_height-Texts p t h =
      let n = p.timeout_height.revision_number in
      let m = p.timeout_height.revision_height in
      rw
        (
          t.height_codes,
          split_dash-append (decimal n) (decimal m) (decimal-NoDash n) (decimal-NoDash m),
          parse_uint-decimal n h.number_fits,
          parse_uint-decimal m h.height_fits,
        )
        refl

  str_to_uint64-decimal :
      (s : List ℕ) (n : ℕ) → s ≡ decimal n → n < 2 ^ 64 → str_to_uint64 s w ≡ (ok n, w)
  unfolding str_to_uint64
  str_to_uint64-decimal s n e h = rw (e, parse_uint-decimal n h) refl

  others-kept :
      (texts : List String) (r : Reading) → read_attributes (other_attributes texts) r w ≡ (ok r, w)
  unfolding read_attributes read_attribute
  others-kept [] r = refl
  others-kept (text ∷ texts) r = others-kept texts r

  read_payload :
      (p : Packet) (t : Texts p) → IsPacket p → hex_decode (codes t.payload_text) ≡ some p.payload
  read_payload p t h = rw t.payload_codes (hex_decode-hex_encode p.payload h.payload_fits)

  read_attributes-Texts :
      (p : Packet) (t : Texts p) (old : Option String) (others : List String)
      → IsPacket p
      → read_attributes (packet_attributes p t old others) no_packet w
        ≡ (ok (record { packet = record p { payload = [] }; bytes = some p.payload }), w)
  unfolding read_attributes read_attribute
  read_attributes-Texts p t none others h =
      rw
        (
          read_payload p t h,
          read_height-Texts p t h,
          str_to_uint64-decimal (codes t.timestamp_text) p.timeout_timestamp t.timestamp_codes
              h.timestamp_fits,
          str_to_uint64-decimal (codes t.sequence_text) p.sequence t.sequence_codes h.sequence_fits,
        )
        (others-kept others _)
  read_attributes-Texts p t (some text) others h =
      rw
        (
          read_payload p t h,
          read_height-Texts p t h,
          str_to_uint64-decimal (codes t.timestamp_text) p.timeout_timestamp t.timestamp_codes
              h.timestamp_fits,
          str_to_uint64-decimal (codes t.sequence_text) p.sequence t.sequence_codes h.sequence_fits,
        )
        (others-kept others _)

  read_event-Texts :
      (validate_basic : Packet → Option Error) (ev : Event) (p : Packet) (t : Texts p)
      (old : Option String) (others : List String)
      → ev.attributes ≡ packet_attributes p t old others
      → IsPacket p
      → validate_basic p ≡ none
      → read_event validate_basic ev w ≡ (ok p, w)
  unfolding read_event
  read_event-Texts validate_basic ev p t old others e h v =
      rw (e, read_attributes-Texts p t old others h, v) refl

  Reports-reads :
      (validate_basic : Packet → Option Error) (event_type : String) {events : List Event}
      {packets : List Packet}
      → Reports validate_basic event_type events packets
      → get_packets_from_events validate_basic events event_type w ≡ (ok packets, w)
  unfolding get_packets_from_events add_packet
  Reports-reads validate_basic event_type no_event = refl
  Reports-reads validate_basic event_type (other_event ev no' r) =
      rw (no', Reports-reads validate_basic event_type r) refl
  Reports-reads validate_basic event_type (packet_event ev p t old others yes' e h v r) =
      rw
        (
          yes',
          read_event-Texts validate_basic ev p t old others e h v,
          Reports-reads validate_basic event_type r,
        )
        refl

  -- For every list of events that reports packets, each with numbers that fit their types and accepted
  -- by ValidateBasic, in attributes that give the numbers in decimal, the timeout height with a '-'
  -- between its numbers, and the payload in hexadecimal (whatever the deprecated attribute says, where
  -- there is one): GetPacketsFromEvents returns these packets, in order, and
  -- FindPacketFromEventsBySequence the first with the sequence, or none.
  pub get_packets_from_events-Reports :
      (validate_basic : Packet → Option Error) (event_type : String) (seq : ℕ) {events : List Event}
      {packets : List Packet}
      → Reports validate_basic event_type events packets
      → get_packets_from_events validate_basic events event_type w ≡ (ok packets, w)
        × find_packet_from_events_by_sequence validate_basic events event_type seq w
          ≡ (ok (first_packet seq packets), w)
  unfolding find_packet_from_events_by_sequence
  get_packets_from_events-Reports validate_basic event_type seq r =
      let e = Reports-reads validate_basic event_type r in (e, rw e refl)
