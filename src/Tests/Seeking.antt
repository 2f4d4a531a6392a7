-- ===== src/Tests/Seeking.antt =====
-- A run of the queries for unfinalized packets, and their theorem at this input.
use yui_relayer.Base.{[], ◌∷◌, none, ok, ◌≡◌, refl, pure, Returns}
use yui_relayer.Packet.{filter, extract_sequence_list}
use yui_relayer.RelayMsgs.Batches.{Log}
use yui_relayer.Events.{no_packet, sequence_key}
use yui_relayer.Events.Reports.{attribute}
use yui_relayer.Tendermint.{Committed}
use yui_relayer.Tendermint.Unfinalized.{
  Node, unfinalized_relay_packets, unfinalized_relay_acknowledgements,
}
use yui_relayer.Tendermint.Unfinalized.Sequences.{Unrelayed, unfinalized_relay-Unrelayed}
use yui_relayer.Tests.Reading.{accepts}
use yui_relayer.Scenario.{dst_chain, at_height}

-- The node of a chain that has sent one packet, in block 12.
abbrev sent_seventh : Committed
sent_seventh = record {
  height = 12;
  failure = none;
  events = record { type = "send_packet"; attributes = attribute sequence_key "7" ∷ [] } ∷ [];
}

abbrev sample_node : Node Log
sample_node = record {
  channel_id = "channel-0";
  revision = 0;
  packet_commitments = λ ctx. pure (7 ∷ []);
  packet_acknowledgements = λ ctx. pure [];
  tx_search = λ query. pure (sent_seventh ∷ []);
  send_packet = "send_packet";
  recv_packet = "recv_packet";
  write_ack = "write_acknowledgement";
  validate_basic = accepts;
}

unfinalized_relay-Unrelayed_example :
    Returns
      (Unrelayed
        (sample_node.packet_commitments (at_height 12))
        dst_chain.get_latest_finalized_header
        dst_chain.query_unreceived_packets)
      (unfinalized_relay_packets sample_node dst_chain (at_height 12) [])
    × Returns
        (Unrelayed
          (sample_node.packet_acknowledgements (at_height 12))
          dst_chain.get_latest_finalized_header
          dst_chain.query_unreceived_acknowledgements)
        (unfinalized_relay_acknowledgements sample_node dst_chain (at_height 12) [])
unfinalized_relay-Unrelayed_example =
    unfinalized_relay-Unrelayed sample_node dst_chain (at_height 12) []

-- The packet is found in the transaction, and the other chain has not received it.
unfinalized_run : unfinalized_relay_packets sample_node dst_chain (at_height 12) [] ≡ (
  ok (
      record {
        packet = record no_packet.packet { sequence = 7 };
        acknowledgement = none;
        event_height = at_height 12;
      }
      ∷ []),
  [],
)
unfolding unfinalized_relay_packets filter extract_sequence_list
unfinalized_run = refl
