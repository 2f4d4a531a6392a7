-- ===== src/Tendermint/Unfinalized.antt =====
-- chains/tendermint/query.go: the packets and acknowledgements of the channel that are not yet relayed,
-- found in the transactions of the chain. `Sequences` is about which ones they are.
pub mod Sequences
use yui_relayer.Base.{
  ℕ, String, Bool, List, [], ◌∷◌, Option, none, some, Error, message, Action, Outcome, pure, fail,
  ◌>>=◌,
}
use yui_relayer.Ibc.{Bytes, Height, Packet}
use yui_relayer.Packet.{PacketInfo, extract_sequence_list, filter}
use yui_relayer.Chain.{ProvableChain}
use yui_relayer.Events.{
  PacketAcknowledgement, find_packet_from_events_by_sequence,
  find_packet_acknowledgement_from_events_by_sequence,
}
use yui_relayer.Tendermint.{Committed}

-- sendPacketQuery, recvPacketQuery, writeAckQuery: which events of a packet are searched for
pub data Sought : Type 0 where
  sent : Sought
  received : Sought
  acknowledged : Sought

-- What QueryTxs searches for, without the text that it is written in.
pub record TxQuery : Type 0 where
  pub sought : Sought
  pub channel_id : String
  pub sequence : ℕ
  pub max_height : ℕ

-- The calls of the node: the commitments and the acknowledgements of the channel, at most 1000 of them,
-- and the search for transactions; and the functions and constants of ibc-go.
pub record Node (W : Type 0) : Type 0 where
  pub channel_id : String
  -- `clienttypes.ParseChainID(c.ChainID())`
  pub revision : ℕ
  pub packet_commitments : Height → Action W (List ℕ)
  pub packet_acknowledgements : Height → Action W (List ℕ)
  pub tx_search : TxQuery → Action W (List Committed)
  pub send_packet : String
  pub recv_packet : String
  pub write_ack : String
  pub validate_basic : Packet → Option Error

module _ {W : Type 0} where
  -- `len(txs)` is 1
  unfoldable pub only_tx : List Committed → Action W Committed
  only_tx [] = fail (message "no transactions returned with query")
  only_tx (tx ∷ []) = pure tx
  only_tx (tx ∷ tx' ∷ txs) = fail (message "more than one transaction returned with query")

  abbrev pub or_missing : {A : Type 0} → Option A → Action W A
  or_missing none = fail (message "can't find the packet from events")
  or_missing (some a) = pure a

  module _ (node : Node W) where
    -- Chain.QueryTxs, with the condition on the height
    unfoldable pub query_tx : Sought → Height → ℕ → Action W Committed
    unfolding only_tx
    query_tx sought ctx seq = do
      txs ← node.tx_search (record {
        sought = sought;
        channel_id = node.channel_id;
        sequence = seq;
        max_height = ctx.revision_height;
      })
      only_tx txs

    -- What querySentPacket and queryReceivedPacket have in common.
    unfoldable pub query_packet : Sought → String → Height → ℕ → Action W (Packet × Height)
    unfolding query_tx find_packet_from_events_by_sequence
    query_packet sought event_type ctx seq = do
      tx ← query_tx sought ctx seq
      found ← find_packet_from_events_by_sequence node.validate_basic tx.events event_type seq
      packet ← or_missing found
      pure (packet, record { revision_number = node.revision; revision_height = tx.height })

    unfoldable pub query_sent_packet : Height → ℕ → Action W (Packet × Height)
    unfolding query_packet
    query_sent_packet = query_packet sent node.send_packet

    unfoldable pub query_received_packet : Height → ℕ → Action W (Packet × Height)
    unfolding query_packet
    query_received_packet = query_packet received node.recv_packet

    unfoldable pub query_written_acknowledgement : Height → ℕ → Action W (Option Bytes)
    unfolding query_tx find_packet_acknowledgement_from_events_by_sequence
    query_written_acknowledgement ctx seq = do
      tx ← query_tx acknowledged ctx seq
      found ← find_packet_acknowledgement_from_events_by_sequence node.write_ack tx.events seq
      ack ← or_missing found
      pure ack.bytes

    -- The loops of QueryUnfinalizedRelayPackets and QueryUnfinalizedRelayAcknowledgements.
    unfoldable pub collect : (ℕ → Action W PacketInfo) → List ℕ → Action W (List PacketInfo)
    collect query [] = pure []
    collect query (seq ∷ seqs) = do
      info ← query seq
      infos ← collect query seqs
      pure (info ∷ infos)

    unfoldable pub sent_packet : Height → ℕ → Action W PacketInfo
    unfolding query_sent_packet
    sent_packet ctx seq = do
      found ← query_sent_packet ctx seq
      pure (record { packet = found.0; acknowledgement = none; event_height = found.1 })

    unfoldable pub acknowledged_packet : Height → ℕ → Action W PacketInfo
    unfolding query_received_packet query_written_acknowledgement
    acknowledged_packet ctx seq = do
      found ← query_received_packet ctx seq
      ack ← query_written_acknowledgement ctx seq
      pure (record { packet = found.0; acknowledgement = ack; event_height = found.1 })

    module _ (counterparty : ProvableChain W) where
      -- Chain.QueryUnfinalizedRelayPackets
      unfoldable pub unfinalized_relay_packets : Height → Action W (List PacketInfo)
      unfolding collect sent_packet
      unfinalized_relay_packets ctx = do
        commitments ← node.packet_commitments ctx
        packets ← collect (sent_packet ctx) commitments
        header ← counterparty.get_latest_finalized_header
        seqs ← counterparty.query_unreceived_packets header.height (extract_sequence_list packets)
        pure (filter packets seqs)

      -- Chain.QueryUnfinalizedRelayAcknowledgements
      unfoldable pub unfinalized_relay_acknowledgements : Height → Action W (List PacketInfo)
      unfolding collect acknowledged_packet
      unfinalized_relay_acknowledgements ctx = do
        commitments ← node.packet_acknowledgements ctx
        packets ← collect (acknowledged_packet ctx) commitments
        header ← counterparty.get_latest_finalized_header
        seqs ←
            counterparty.query_unreceived_acknowledgements header.height
              (extract_sequence_list packets)
        pure (filter packets seqs)
