-- ===== src/PathEnd/Messages.antt =====
-- The message builders of core/pathEnd.go. `signer` is the relayer's address on the chain of `pe`.
-- The packing errors of ibc-go's NewMsgUpdateClient are not modelled.
use yui_relayer.Base.{ℕ, String, List, [], ◌∷◌, if◌then◌else◌, Action, pure, crash, or_crash, ◌>>=◌}
use yui_relayer.Ibc.{
  Bytes, Height, Header, Packet, Coin, Channel, Upgrade, UpgradeFields, ErrorReceipt, ConnectionEnd,
  Response, Functions,
}
use yui_relayer.PathEnd.{PathEnd, get_order}
use yui_relayer.Msg.{Msg}

-- PathEnd.UpdateClient: an invalid header is a panic.
unfoldable pub update_client : {W : Type 0} → PathEnd → Header → String → Action W Msg
update_client pe header signer =
    if header.is_valid_basic then pure (Msg.update_client pe.client_id header signer) else crash

-- PathEnd.UpdateClients
unfoldable pub update_clients : {W : Type 0} → PathEnd → List Header → String → Action W (List Msg)
unfolding update_client
update_clients pe [] signer = pure []
update_clients pe (header ∷ headers) signer = do
  msg ← update_client pe header signer
  msgs ← update_clients pe headers signer
  pure (msg ∷ msgs)

-- PathEnd.ConnInit
unfoldable pub conn_init : PathEnd → PathEnd → String → Msg
conn_init pe dst signer = Msg.connection_open_init pe.client_id dst.client_id signer

-- PathEnd.ConnTry: a client state that cannot be unpacked is a panic.
unfoldable pub conn_try :
    {W : Type 0}
    → Functions
    → PathEnd
    → PathEnd
    → Response Bytes
    → Response ConnectionEnd
    → Response Bytes
    → Bytes
    → String
    → Action W Msg
conn_try ibc pe dst client_res conn_res cons_res host_proof signer = do
  cs ← or_crash (ibc.unpack_client_state client_res.value)
  pure (
      Msg.connection_open_try pe.client_id dst.connection_id dst.client_id cs conn_res.proof
        client_res.proof cons_res.proof conn_res.proof_height cs.latest_height signer host_proof)

-- PathEnd.ConnAck: the proof height is that of the consensus state's proof.
unfoldable pub conn_ack :
    {W : Type 0}
    → Functions
    → PathEnd
    → PathEnd
    → Response Bytes
    → Response ConnectionEnd
    → Response Bytes
    → Bytes
    → String
    → Action W Msg
conn_ack ibc pe dst client_res conn_res cons_res host_proof signer = do
  cs ← or_crash (ibc.unpack_client_state client_res.value)
  pure (
      Msg.connection_open_ack pe.connection_id dst.connection_id cs conn_res.proof client_res.proof
        cons_res.proof cons_res.proof_height cs.latest_height signer host_proof)

-- PathEnd.ConnConfirm
unfoldable pub conn_confirm : PathEnd → Response ConnectionEnd → String → Msg
conn_confirm pe conn_res signer =
    Msg.connection_open_confirm pe.connection_id conn_res.proof conn_res.proof_height signer

-- PathEnd.ChanInit
unfoldable pub chan_init : PathEnd → PathEnd → String → Msg
chan_init pe dst signer =
    Msg.channel_open_init pe.port_id pe.version (get_order pe) (pe.connection_id ∷ []) dst.port_id
      signer

-- PathEnd.ChanTry
unfoldable pub chan_try : PathEnd → PathEnd → Response Channel → String → Msg
chan_try pe dst res signer =
    Msg.channel_open_try pe.port_id pe.version res.value.ordering (pe.connection_id ∷ [])
      dst.port_id dst.channel_id res.value.version res.proof res.proof_height signer

-- PathEnd.ChanAck
unfoldable pub chan_ack : PathEnd → PathEnd → Response Channel → String → Msg
chan_ack pe dst res signer =
    Msg.channel_open_ack pe.port_id pe.channel_id dst.channel_id res.value.version res.proof
      res.proof_height signer

-- PathEnd.ChanConfirm
unfoldable pub chan_confirm : PathEnd → Response Channel → String → Msg
chan_confirm pe res signer =
    Msg.channel_open_confirm pe.port_id pe.channel_id res.proof res.proof_height signer

-- PathEnd.ChanUpgradeInit
unfoldable pub chan_upgrade_init : PathEnd → UpgradeFields → String → Msg
chan_upgrade_init pe fields signer = Msg.channel_upgrade_init pe.port_id pe.channel_id fields signer

-- PathEnd.ChanUpgradeTry
unfoldable pub chan_upgrade_try :
    PathEnd → String → Response Channel → Response Upgrade → String → Msg
chan_upgrade_try pe connection_id cp_chan cp_upg signer =
    Msg.channel_upgrade_try pe.port_id pe.channel_id (connection_id ∷ []) cp_upg.value.fields
      cp_chan.value.upgrade_sequence cp_chan.proof cp_upg.proof cp_chan.proof_height signer

-- PathEnd.ChanUpgradeAck
unfoldable pub chan_upgrade_ack : PathEnd → Response Channel → Response Upgrade → String → Msg
chan_upgrade_ack pe cp_chan cp_upg signer =
    Msg.channel_upgrade_ack pe.port_id pe.channel_id cp_upg.value cp_chan.proof cp_upg.proof
      cp_chan.proof_height signer

-- PathEnd.ChanUpgradeConfirm
unfoldable pub chan_upgrade_confirm : PathEnd → Response Channel → Response Upgrade → String → Msg
chan_upgrade_confirm pe cp_chan cp_upg signer =
    Msg.channel_upgrade_confirm pe.port_id pe.channel_id cp_chan.value.state cp_upg.value
      cp_chan.proof cp_upg.proof cp_chan.proof_height signer

-- PathEnd.ChanUpgradeOpen
unfoldable pub chan_upgrade_open : PathEnd → Response Channel → String → Msg
chan_upgrade_open pe cp_chan signer =
    Msg.channel_upgrade_open pe.port_id pe.channel_id cp_chan.value.state
      cp_chan.value.upgrade_sequence cp_chan.proof cp_chan.proof_height signer

-- PathEnd.ChanUpgradeCancel
unfoldable pub chan_upgrade_cancel : PathEnd → Response ErrorReceipt → String → Msg
chan_upgrade_cancel pe upg_err signer =
    Msg.channel_upgrade_cancel pe.port_id pe.channel_id upg_err.value upg_err.proof
      upg_err.proof_height signer

-- PathEnd.ChanUpgradeTimeout
unfoldable pub chan_upgrade_timeout : PathEnd → Response Channel → String → Msg
chan_upgrade_timeout pe cp_chan signer =
    Msg.channel_upgrade_timeout pe.port_id pe.channel_id cp_chan.value cp_chan.proof
      cp_chan.proof_height signer

-- PathEnd.ChanCloseInit
unfoldable pub chan_close_init : PathEnd → String → Msg
chan_close_init pe signer = Msg.channel_close_init pe.port_id pe.channel_id signer

-- PathEnd.ChanCloseConfirm
unfoldable pub chan_close_confirm : PathEnd → Response Channel → String → Msg
chan_close_confirm pe res signer =
    Msg.channel_close_confirm pe.port_id pe.channel_id res.proof res.proof_height signer

-- A height with the revision that `ParseChainID` of ibc-go, the first parameter, reads from a chain id.
abbrev pub height_on : (String → ℕ) → String → ℕ → Height
height_on parse_chain_id chain_id n = record {
  revision_number = parse_chain_id chain_id;
  revision_height = n;
}

-- PathEnd.MsgTransfer
unfoldable pub msg_transfer :
    (String → ℕ) → PathEnd → PathEnd → Coin → String → String → ℕ → ℕ → String → Msg
msg_transfer parse_chain_id pe dst amount dst_addr signer timeout_height timeout_timestamp memo =
    Msg.transfer pe.port_id pe.channel_id amount signer dst_addr
      (height_on parse_chain_id dst.chain_id timeout_height) timeout_timestamp memo

-- PathEnd.NewPacket
unfoldable pub new_packet : (String → ℕ) → PathEnd → PathEnd → ℕ → Bytes → ℕ → ℕ → Packet
new_packet parse_chain_id pe dst sequence packet_data timeout_height timeout_stamp = record {
  sequence = sequence;
  source_port = pe.port_id;
  source_channel = pe.channel_id;
  destination_port = dst.port_id;
  destination_channel = dst.channel_id;
  payload = packet_data;
  timeout_height = height_on parse_chain_id dst.chain_id timeout_height;
  timeout_timestamp = timeout_stamp;
}
