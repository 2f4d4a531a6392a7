-- ===== src/Tests/Reading.antt =====
-- Runs of the reading of events, and its theorems at those inputs.
use yui_relayer.Base.{
  ◌≡◌, refl, List, [], ◌∷◌, Option, none, some, ok, panic, Error, arith, Returns,
}
use yui_relayer.Ibc.{Packet}
use yui_relayer.Scenario.{at_height}
use yui_relayer.Events.{
  Event, first_packet, get_packets_from_events, find_packet_from_events_by_sequence, sequence_key,
  timeout_height_key, ack_hex_key, src_port_key, no_ack, get_packet_acknowledgements_from_events,
}
use yui_relayer.Events.Numbers.{hex_encode, decimal}
use yui_relayer.Events.Reports.{
  Reports, no_event, other_event, packet_event, IsPacket, Texts, packet_attributes, attribute,
  get_packets_from_events-Reports,
}
use yui_relayer.Events.Bounds.{StatedBy, get_packets_from_events-StatedBy}

abbrev pub hello : Packet
hello = record {
  sequence = 17;
  source_port = "transfer";
  source_channel = "channel-2";
  destination_port = "transfer";
  destination_channel = "channel-1";
  payload = 104 ∷ 105 ∷ 250 ∷ [];
  timeout_height = at_height 1200;
  timeout_timestamp = 0;
}

pub hello-IsPacket : IsPacket hello
hello-IsPacket = record {
  sequence_fits = omega arith;
  number_fits = omega arith;
  height_fits = omega arith;
  timestamp_fits = omega arith;
  payload_fits = (omega arith, (omega arith, (omega arith, tt)));
}

pub hello-Texts : Texts hello
unfolding hex_encode decimal
hello-Texts = record {
  payload_text = "6869fa";
  height_text = "0-1200";
  timestamp_text = "0";
  sequence_text = "17";
  payload_codes = refl;
  height_codes = refl;
  timestamp_codes = refl;
  sequence_codes = refl;
}

abbrev pub accepts : Packet → Option Error
accepts p = none

abbrev hello_events : List Event
hello_events =
    record { type = "transfer"; attributes = [] }
    ∷ record {
      type = "send_packet";
      attributes = packet_attributes hello hello-Texts (some "hi") ("ORDER_UNORDERED" ∷ []);
    }
    ∷ []

hello-Reports : Reports accepts "send_packet" hello_events (hello ∷ [])
hello-Reports = other_event _ refl (
    packet_event _ hello hello-Texts (some "hi") ("ORDER_UNORDERED" ∷ []) refl refl hello-IsPacket
      refl no_event)

get_packets_from_events-Reports_example :
    get_packets_from_events accepts hello_events "send_packet" tt ≡ (ok (hello ∷ []), tt {0})
    × find_packet_from_events_by_sequence accepts hello_events "send_packet" 17 tt
      ≡ (ok (first_packet 17 (hello ∷ [])), tt {0})
get_packets_from_events-Reports_example =
    get_packets_from_events-Reports tt accepts "send_packet" 17 hello-Reports

get_packets_from_events-StatedBy_example :
    Returns
      (StatedBy "send_packet" hello_events)
      (get_packets_from_events accepts hello_events "send_packet" (tt {0}))
get_packets_from_events-StatedBy_example =
    get_packets_from_events-StatedBy accepts hello_events "send_packet" tt

-- The acknowledgement of the repository's test.
reads_ack :
    get_packet_acknowledgements_from_events "write_acknowledgement"
      (record {
        type = "write_acknowledgement";
        attributes =
            attribute sequence_key "1"
            ∷ attribute src_port_key "transfer"
            ∷ attribute ack_hex_key "7b7d"
            ∷ [];
      }
        ∷ [])
      (tt {0})
    ≡ (
      ok (
          record no_ack { src_port_id = "transfer"; sequence = 1; bytes = some (123 ∷ 125 ∷ []) }
          ∷ []),
      tt,
    )
unfolding get_packet_acknowledgements_from_events
reads_ack = refl

-- A timeout height with no '-' is an index out of range.
height_without_dash :
    get_packets_from_events accepts
      (record { type = "send_packet"; attributes = attribute timeout_height_key "12" ∷ [] } ∷ [])
      "send_packet"
      (tt {0})
    ≡ (panic, tt)
unfolding get_packets_from_events
height_without_dash = refl
