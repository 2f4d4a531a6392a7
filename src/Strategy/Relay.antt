-- ===== src/Strategy/Relay.antt =====
-- The messages that core/naive-strategy.go builds: packets, acknowledgements, timeouts and client
-- updates, and its `Send`. The texts that `fmt.Errorf` puts around an error are left out.
use Prim.Native.Nat.{◌/◌}
use yui_relayer.Base.{
  ℕ, ◌%◌, ◌^◌, String, Bool, not, ◌&&◌, ◌||◌, List, [], ◌∷◌, Option, none, some, is_empty,
  if◌then◌else◌, Action, pure, ◌>>=◌,
}
use yui_relayer.Ibc.{Bytes, Height, Functions}
use yui_relayer.PathEnd.{get_order, is_ordered}
use yui_relayer.Msg.{Msg}
use yui_relayer.Packet.{PacketInfo}
use yui_relayer.Chain.{ProvableChain}
use yui_relayer.Headers.{SyncHeaders, get_query_context, setup_headers_for_update}
use yui_relayer.RelayMsgs.{RelayMsgs, send}
use yui_relayer.Handshake.{client_updates}
use yui_relayer.Strategy.{NaiveStrategy}

-- The eight bytes of `binary.BigEndian.PutUint64`.
abbrev pub big_endian : ℕ → Bytes
big_endian n =
    n / 2 ^ 56 % 256
    ∷ n / 2 ^ 48 % 256
    ∷ n / 2 ^ 40 % 256
    ∷ n / 2 ^ 32 % 256
    ∷ n / 2 ^ 24 % 256
    ∷ n / 2 ^ 16 % 256
    ∷ n / 2 ^ 8 % 256
    ∷ n % 256
    ∷ []

-- A nil slice of bytes is empty.
abbrev pub bytes : Option Bytes → Bytes
bytes none = []
bytes (some bz) = bz

-- What collectTimeoutPackets proves of a packet: the path, the value and the next sequence. On an
-- ordered channel it is the next sequence to receive, else the absence of a receipt.
unfoldable pub timeout_claim : Functions → Bool → PacketInfo → String × Bytes × ℕ
timeout_claim ibc order p =
    if order
    then (
      ibc.next_sequence_recv_path p.packet.destination_port p.packet.destination_channel,
      big_endian p.packet.sequence,
      p.packet.sequence,
    )
    else (
      ibc.packet_receipt_path p.packet.destination_port p.packet.destination_channel
          p.packet.sequence,
      [],
      1,
    )

module _ {W : Type 0} (ibc : Functions) where
  -- collectPackets
  unfoldable pub collect_packets :
      Height → ProvableChain W → List PacketInfo → String → Action W (List Msg)
  collect_packets ctx chain [] signer = pure []
  collect_packets ctx chain (p ∷ ps) signer = do
    (proof, height) ←
        chain.prove_state ctx
          (ibc.packet_commitment_path p.packet.source_port p.packet.source_channel
            p.packet.sequence)
          (ibc.commit_packet p.packet)
    msgs ← collect_packets ctx chain ps signer
    pure (Msg.recv_packet p.packet proof height signer ∷ msgs)

  -- collectAcks
  unfoldable pub collect_acks :
      Height → ProvableChain W → List PacketInfo → String → Action W (List Msg)
  collect_acks ctx chain [] signer = pure []
  collect_acks ctx chain (p ∷ ps) signer = do
    (proof, height) ←
        chain.prove_state ctx
          (ibc.packet_acknowledgement_path p.packet.destination_port p.packet.destination_channel
            p.packet.sequence)
          (ibc.commit_acknowledgement (bytes p.acknowledgement))
    msgs ← collect_acks ctx chain ps signer
    pure (Msg.acknowledgement p.packet (bytes p.acknowledgement) proof height signer ∷ msgs)

  -- collectTimeoutPackets
  unfoldable pub collect_timeout_packets :
      Height → ProvableChain W → ProvableChain W → List PacketInfo → String → Action W (List Msg)
  unfolding timeout_claim get_order
  collect_timeout_packets ctx chain counterparty [] signer = pure []
  collect_timeout_packets ctx chain counterparty (p ∷ ps) signer = do
    let (path, commitment, next) = timeout_claim ibc (is_ordered (get_order chain.path)) p
    (proof, height) ← counterparty.prove_state ctx path commitment
    msgs ← collect_timeout_packets ctx chain counterparty ps signer
    pure (Msg.timeout p.packet next proof height signer ∷ msgs)

  module _ (sh : SyncHeaders) where
    -- NaiveStrategy.RelayPackets; `from` and `to` are the chains that `isSrcToDst` selects.
    unfoldable pub relay_packets :
        ProvableChain W → ProvableChain W → List PacketInfo → Bool → Action W (List Msg)
    unfolding get_query_context collect_packets
    relay_packets from to packets do_execute_relay = do
      ctx ← get_query_context sh from.chain_id
      addr ← to.get_address_string
      if do_execute_relay then collect_packets ctx from packets addr else pure []

    unfoldable pub collect_timeouts :
        ProvableChain W → ProvableChain W → List PacketInfo → Action W (List Msg)
    unfolding get_query_context collect_timeout_packets
    collect_timeouts chain counterparty packets = do
      ctx ← get_query_context sh counterparty.chain_id
      addr ← chain.get_address_string
      collect_timeout_packets ctx chain counterparty packets addr

    -- NaiveStrategy.RelayTimeoutPackets
    unfoldable pub relay_timeout_packets :
        ProvableChain W → ProvableChain W → List PacketInfo → Bool → Action W (List Msg)
    unfolding collect_timeouts
    relay_timeout_packets chain counterparty packets do_execute_timeout =
        if is_empty packets || not do_execute_timeout
        then pure []
        else collect_timeouts chain counterparty packets

    -- NaiveStrategy.RelayAcknowledgements; `no_ack` is the setting that `isSrcToDst` selects.
    unfoldable pub relay_acknowledgements :
        Bool → ProvableChain W → ProvableChain W → List PacketInfo → Bool → Action W (List Msg)
    unfolding get_query_context collect_acks
    relay_acknowledgements no_ack from to packets do_execute_ack = do
      ctx ← get_query_context sh from.chain_id
      addr ← to.get_address_string
      if not no_ack && do_execute_ack then collect_acks ctx from packets addr else pure []

-- The selections by `isSrcToDst`, of the chains and of the setting.
abbrev pub from_chain : {W : Type 0} → Bool → ProvableChain W → ProvableChain W → ProvableChain W
from_chain is_src_to_dst src dst = if is_src_to_dst then src else dst

abbrev pub to_chain : {W : Type 0} → Bool → ProvableChain W → ProvableChain W → ProvableChain W
to_chain is_src_to_dst src dst = if is_src_to_dst then dst else src

unfoldable pub no_ack : NaiveStrategy → Bool → Bool
no_ack st is_src_to_dst = if is_src_to_dst then st.src_no_ack else st.dst_no_ack

module _ {W : Type 0} where
  unfoldable pub update_messages :
      SyncHeaders → ProvableChain W → ProvableChain W → Action W (List Msg)
  unfolding setup_headers_for_update client_updates
  update_messages sh from to = do
    addr ← to.get_address_string
    hs ← setup_headers_for_update from to sh
    client_updates to hs addr

  -- NaiveStrategy.UpdateClients; `no_ack` is the setting that `isSrcToDst` selects.
  unfoldable pub update_clients_if_needed :
      SyncHeaders
      → Bool
      → ProvableChain W
      → ProvableChain W
      → Bool
      → Bool
      → Bool
      → Bool
      → Action W (List Msg)
  unfolding update_messages
  update_clients_if_needed sh no_ack from to do_execute_relay do_execute_ack do_execute_timeout
        do_refresh =
      do
        let needed = do_execute_relay || (do_execute_ack && not no_ack) || do_execute_timeout
        update ←
            if not needed && do_refresh
            then from.check_refresh_required to.chain_id
            else pure needed
        if update then update_messages sh from to else pure []

  -- NaiveStrategy.Send
  unfoldable pub send_all :
      (Msg → Option Bytes)
      → NaiveStrategy
      → ProvableChain W
      → ProvableChain W
      → RelayMsgs
      → Action W RelayMsgs
  unfolding send
  send_all marshal st src dst r =
      send marshal src dst
        (record r { max_tx_size = st.max_tx_size; max_msg_length = st.max_msg_length })
