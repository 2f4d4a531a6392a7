-- ===== src/Events/Bounds.antt =====
-- The numbers of the packets that core/utils.go reads from events are those that the events state.
use yui_relayer.Base.{
  ℕ, ◌==◌, ◌≡◌, refl, pure, ◌>>=◌, true, false, String, List, [], ◌∷◌, Option, none, some, str_eq,
  Bool-cases, Option-cases, inl, inr, Error, or_crash, or_fail, Returns, Returns-next, Returns-then,
  Returns-mono,
}
use yui_relayer.Ibc.{Height, Packet}
use yui_relayer.PathEnd.{codes}
use yui_relayer.Events.{
  AttributeKey, data_key, data_hex_key, timeout_height_key, timeout_timestamp_key, sequence_key,
  src_port_key, src_channel_key, dst_port_key, dst_channel_key, ack_key, ack_hex_key, client_id_key,
  connection_id_key, channel_id_key, port_id_key, upgrade_sequence_key, msg_index_key, other_key,
  Attribute, Event, rank, Reading, no_packet, read_packet, checked, head?, str_to_uint64,
  read_height, read_attribute, read_attributes, read_event, add_packet, get_packets_from_events,
}
use yui_relayer.Events.Numbers.{parse_uint, IsDecimal, parse_uint-IsDecimal, split_dash, hex_decode}

-- What the attributes leave of a value that begins as `x`: the last attribute with the key has the text
-- for it, as `D` says; without such an attribute it stays as it is.
pub data Stated {X : Type 0} (key : AttributeKey) (D : String → X → Type 0)
    : X → List Attribute → X → Type 0 where
  no_attribute : {x : X} → Stated key D x [] x
  this_attribute :
      {x y z : X} {text : String} {attributes : List Attribute}
      → D text y
      → Stated key D y attributes z
      → Stated key D x (record { key = key; value = text } ∷ attributes) z
  other_attribute :
      {x z : X} {a : Attribute} {attributes : List Attribute}
      → (rank a.key == rank key) ≡ false
      → Stated key D x attributes z
      → Stated key D x (a ∷ attributes) z

abbrev pub IsNumber : String → ℕ → Type 0
IsNumber text n = IsDecimal (codes text) n

-- Two numbers with a '-' between them; what comes after a second '-' is not read.
abbrev pub IsHeight : String → Height → Type 0
IsHeight text h =
    let parts = split_dash (codes text) in
    (rest : List ℕ) × (head? (parts.1) ≡ some rest)
    × IsDecimal (parts.0) h.revision_number
    × IsDecimal rest h.revision_height

-- The numbers of a packet are what the attributes state, from the numbers of another packet on.
abbrev pub Numbers : Packet → List Attribute → Packet → Type 0
Numbers p attributes p' =
    Stated sequence_key IsNumber p.sequence attributes p'.sequence
    × Stated timeout_timestamp_key IsNumber p.timeout_timestamp attributes p'.timeout_timestamp
    × Stated timeout_height_key IsHeight p.timeout_height attributes p'.timeout_height

-- The packets of the events of one type, in order, with the numbers that their events state.
pub data StatedBy (event_type : String) : List Event → List Packet → Type 0 where
  no_event : StatedBy event_type [] []
  other_event :
      {ev : Event} {events : List Event} {packets : List Packet}
      → str_eq ev.type event_type ≡ false
      → StatedBy event_type events packets
      → StatedBy event_type (ev ∷ events) packets
  packet_event :
      {ev : Event} {p : Packet} {events : List Event} {packets : List Packet}
      → str_eq ev.type event_type ≡ true
      → Numbers no_packet.packet ev.attributes p
      → StatedBy event_type events packets
      → StatedBy event_type (ev ∷ events) (p ∷ packets)

-- What a turn of the loop does, in front of what the other turns do.
abbrev pub Turn : AttributeKey → String → Reading → Reading → Type 0
Turn key v r r' =
    (attributes : List Attribute) (p : Packet)
    → Numbers r'.packet attributes p
    → Numbers r.packet (record { key = key; value = v } ∷ attributes) p

module _ {W : Type 0} where
  str_to_uint64-IsDecimal : (s : List ℕ) (w : W) → Returns (IsDecimal s) (str_to_uint64 s w)
  unfolding str_to_uint64
  str_to_uint64-IsDecimal s w = elim (Option-cases (parse_uint s)) [
    | inl e ↦ rw e tt
    | inr (n, e) ↦ rw e (parse_uint-IsDecimal s n e)
  ]

  read_height-IsHeight : (v : String) (w : W) → Returns (IsHeight v) (read_height v w)
  unfolding read_height
  read_height-IsHeight v w =
      let parts = split_dash (codes v) in
      Returns-then (IsHeight v) (IsDecimal (parts.0)) _ (str_to_uint64 (parts.0) w)
        (str_to_uint64-IsDecimal (parts.0) w) (λ n w1 h. after n w1 h (head? (parts.1)) refl)
    where
      after :
          (n : ℕ) (w : W)
          → IsDecimal ((split_dash (codes v)).0) n
          → (x : Option (List ℕ)) → head? ((split_dash (codes v)).1) ≡ x
          → Returns (IsHeight v) (
              (or_crash x >>= λ rest. str_to_uint64 rest >>= λ m.
              pure (record { revision_number = n; revision_height = m }))
                w)
      after n w h none e = tt
      after n w h (some rest) e =
          Returns-then (IsHeight v) (IsDecimal rest) _ (str_to_uint64 rest w)
            (str_to_uint64-IsDecimal rest w) (λ m w1 k. (rest, e, h, k))

  read_attribute-Turn :
      (key : AttributeKey) (v : String) (r : Reading) (w : W)
      → Returns (Turn key v r) (read_attribute key v r w)
  unfolding read_attribute
  read_attribute-Turn data_hex_key v r w =
      Returns-next (Turn data_hex_key v r) _ (or_fail (hex_decode (codes v)) "hex" w)
        (λ bz w1 attributes p (a, b, c).
          (other_attribute refl a, other_attribute refl b, other_attribute refl c))
  read_attribute-Turn timeout_height_key v r w =
      Returns-then (Turn timeout_height_key v r) (IsHeight v) _ (read_height v w)
        (read_height-IsHeight v w)
        (λ height w1 k attributes p (a, b, c).
          (other_attribute refl a, other_attribute refl b, this_attribute k c))
  read_attribute-Turn timeout_timestamp_key v r w =
      Returns-then (Turn timeout_timestamp_key v r) (IsNumber v) _ (str_to_uint64 (codes v) w)
        (str_to_uint64-IsDecimal (codes v) w)
        (λ n w1 k attributes p (a, b, c).
          (other_attribute refl a, this_attribute k b, other_attribute refl c))
  read_attribute-Turn sequence_key v r w =
      Returns-then (Turn sequence_key v r) (IsNumber v) _ (str_to_uint64 (codes v) w)
        (str_to_uint64-IsDecimal (codes v) w)
        (λ n w1 k attributes p (a, b, c).
          (this_attribute k a, other_attribute refl b, other_attribute refl c))
  read_attribute-Turn data_key v r w = λ attributes p (a, b, c).
      (other_attribute refl a, other_attribute refl b, other_attribute refl c)
  read_attribute-Turn src_port_key v r w = λ attributes p (a, b, c).
      (other_attribute refl a, other_attribute refl b, other_attribute refl c)
  read_attribute-Turn src_channel_key v r w = λ attributes p (a, b, c).
      (other_attribute refl a, other_attribute refl b, other_attribute refl c)
  read_attribute-Turn dst_port_key v r w = λ attributes p (a, b, c).
      (other_attribute refl a, other_attribute refl b, other_attribute refl c)
  read_attribute-Turn dst_channel_key v r w = λ attributes p (a, b, c).
      (other_attribute refl a, other_attribute refl b, other_attribute refl c)
  read_attribute-Turn ack_key v r w = λ attributes p (a, b, c).
      (other_attribute refl a, other_attribute refl b, other_attribute refl c)
  read_attribute-Turn ack_hex_key v r w = λ attributes p (a, b, c).
      (other_attribute refl a, other_attribute refl b, other_attribute refl c)
  read_attribute-Turn client_id_key v r w = λ attributes p (a, b, c).
      (other_attribute refl a, other_attribute refl b, other_attribute refl c)
  read_attribute-Turn connection_id_key v r w = λ attributes p (a, b, c).
      (other_attribute refl a, other_attribute refl b, other_attribute refl c)
  read_attribute-Turn channel_id_key v r w = λ attributes p (a, b, c).
      (other_attribute refl a, other_attribute refl b, other_attribute refl c)
  read_attribute-Turn port_id_key v r w = λ attributes p (a, b, c).
      (other_attribute refl a, other_attribute refl b, other_attribute refl c)
  read_attribute-Turn upgrade_sequence_key v r w = λ attributes p (a, b, c).
      (other_attribute refl a, other_attribute refl b, other_attribute refl c)
  read_attribute-Turn msg_index_key v r w = λ attributes p (a, b, c).
      (other_attribute refl a, other_attribute refl b, other_attribute refl c)
  read_attribute-Turn other_key v r w = λ attributes p (a, b, c).
      (other_attribute refl a, other_attribute refl b, other_attribute refl c)

  read_attributes-Numbers :
      (attributes : List Attribute) (r : Reading) (w : W)
      → Returns (λ r'. Numbers r.packet attributes r'.packet) (read_attributes attributes r w)
  unfolding read_attributes
  read_attributes-Numbers [] r w = (no_attribute, no_attribute, no_attribute)
  read_attributes-Numbers (a ∷ attributes) r w =
      Returns-then P (Turn a.key a.value r) _ (read_attribute a.key a.value r w)
        (read_attribute-Turn a.key a.value r w)
        (λ r1 w1 turn.
          Returns-mono (λ r'. Numbers r1.packet attributes r'.packet) P
            (read_attributes attributes r1 w1) (λ r' h. turn attributes r'.packet h)
            (read_attributes-Numbers attributes r1 w1))
    where
      P : Reading → Type 0
      P r' = Numbers r.packet (a ∷ attributes) r'.packet

  read_event-Numbers :
      (validate_basic : Packet → Option Error) (ev : Event) (w : W)
      → Returns (Numbers no_packet.packet ev.attributes) (read_event validate_basic ev w)
  unfolding read_event
  read_event-Numbers validate_basic ev w =
      Returns-then P (λ r. Numbers no_packet.packet ev.attributes r.packet) _
        (read_attributes ev.attributes no_packet w)
        (read_attributes-Numbers ev.attributes no_packet w)
        (λ r w1 h. chosen r w1 h (validate_basic (read_packet r)))
    where
      P : Packet → Type 0
      P = Numbers no_packet.packet ev.attributes

      chosen :
          (r : Reading) (w : W)
          → Numbers no_packet.packet ev.attributes r.packet
          → (e : Option Error) → Returns P (checked (read_packet r) e w)
      chosen r w h none = h
      chosen r w h (some e) = tt

  -- For all events, whatever their attributes: when GetPacketsFromEvents returns, it has one packet for
  -- each event of the type, in order, and the sequence, the timeout timestamp and the timeout height of
  -- the packet are the numbers that the last attribute for them has in decimal, none of which wraps
  -- around 2^64, or zero where the event has no such attribute.
  pub get_packets_from_events-StatedBy :
      (validate_basic : Packet → Option Error) (events : List Event) (event_type : String) (w : W)
      → Returns
          (StatedBy event_type events)
          (get_packets_from_events validate_basic events event_type w)
  unfolding get_packets_from_events add_packet
  get_packets_from_events-StatedBy validate_basic [] event_type w = no_event
  get_packets_from_events-StatedBy validate_basic (ev ∷ events) event_type w =
      elim (Bool-cases (str_eq ev.type event_type)) [
        | inl yes' ↦ rw yes' (
            Returns-then P (Numbers no_packet.packet ev.attributes) _
              (read_event validate_basic ev w) (read_event-Numbers validate_basic ev w)
              (λ p w1 h.
                Returns-then P (StatedBy event_type events) _
                  (get_packets_from_events validate_basic events event_type w1)
                  (get_packets_from_events-StatedBy validate_basic events event_type w1)
                  (λ ps w2 hs. packet_event yes' h hs)))
        | inr no' ↦ rw no' (
            Returns-mono (StatedBy event_type events) P
              (get_packets_from_events validate_basic events event_type w)
              (λ ps h. other_event no' h)
              (get_packets_from_events-StatedBy validate_basic events event_type w))
      ]
    where
      P : List Packet → Type 0
      P = StatedBy event_type (ev ∷ events)
