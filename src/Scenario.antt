-- ===== src/Scenario.antt =====
-- Two chains and the functions around them, for the tests. The chains answer every query, and log
-- the batches that they are sent.
use yui_relayer.Base.{
  err, external, ℕ, ◌+◌, String, true, false, not, [], ◌∷◌, ◌++◌, Option, none, some, leb, ◌==◌,
  map, ok, pure, refl,
}
use yui_relayer.Ibc.{
  Bytes, Height, zero_height, unordered, Header, Channel, Upgrade, Response, Functions,
}
use yui_relayer.Ibc.ConnectionStates
use yui_relayer.Ibc.ConnectionStates.{ConnectionState}
use yui_relayer.Ibc.ChannelStates
use yui_relayer.Ibc.ChannelStates.{ChannelState}
use yui_relayer.PathEnd.{PathEnd}
use yui_relayer.Msg.{Msg, MsgId, connection_open_confirm}
use yui_relayer.Packet.{PacketInfo}
use yui_relayer.Chain.{ProvableChain}
use yui_relayer.RelayMsgs.{RelayMsgs}
use yui_relayer.RelayMsgs.Batches.{Log}
use yui_relayer.Sync.{Config}
use yui_relayer.Loop.{Retry, once}
use yui_relayer.Headers.{SyncHeaders}
use yui_relayer.Service.{RelayService, Decision}

abbrev pub at_height : ℕ → Height
at_height n = record { revision_number = 0; revision_height = n }

abbrev pub sample_ibc : Functions
sample_ibc = record {
  is_zero = λ h. h.revision_height == 0;
  lte = λ a b. leb a.revision_height b.revision_height;
  gt = λ a b. not (leb a.revision_height b.revision_height);
  commit_packet = λ p. p.payload;
  commit_acknowledgement = λ bz. bz;
  packet_commitment_path = λ port channel n. port;
  packet_receipt_path = λ port channel n. port;
  packet_acknowledgement_path = λ port channel n. port;
  next_sequence_recv_path = λ port channel. port;
  connection_path = λ id. id;
  channel_path = λ port channel. channel;
  channel_upgrade_path = λ port channel. channel;
  channel_upgrade_error_path = λ port channel. channel;
  full_client_state_path = λ id. id;
  full_consensus_state_path = λ id h. id;
  is_client_identifier = λ id. true;
  is_connection_identifier = λ id. true;
  is_channel_identifier = λ id. true;
  is_port_identifier = λ id. true;
  connection_string = λ c. c.client_id;
  channel_string = λ c. c.version;
  upgrade_string = λ u. u.fields.version;
  elapsed = λ t h n. false;
  marshal_connection = λ c. some [];
  marshal_channel = λ c. some [];
  marshal_upgrade = λ u. some [];
  marshal_error_receipt = λ e. some [];
  marshal_client_state = λ bz. some bz;
  marshal_consensus_state = λ bz. some bz;
  unpack_client_state = λ bz. some (record { latest_height = at_height 5 });
  unpack_consensus_state = λ bz. some (record { timestamp = 50 });
}

abbrev pub sample_packet : ℕ → ℕ → PacketInfo
sample_packet sequence timeout = record {
  packet = record {
    sequence = sequence;
    source_port = "transfer";
    source_channel = "channel-0";
    destination_port = "transfer";
    destination_channel = "channel-1";
    payload = 1 ∷ [];
    timeout_height = at_height timeout;
    timeout_timestamp = 0;
  };
  acknowledgement = none;
  event_height = at_height 1;
}

abbrev pub sample_path : String → String → PathEnd
sample_path chain_id order = record {
  chain_id = chain_id;
  client_id = "client-0";
  connection_id = "connection-0";
  channel_id = "channel-0";
  port_id = "transfer";
  order = order;
  version = "ics20-1";
}

abbrev pub answer : {A : Type 0} → A → Response A
answer a = record { value = a; proof = 7 ∷ []; proof_height = at_height 9 }

abbrev pub sample_channel : ChannelState → Channel
sample_channel state = record {
  state = state;
  ordering = unordered;
  connection_hops = "connection-0" ∷ [];
  version = "ics20-1";
  upgrade_sequence = 1;
}

abbrev pub sample_upgrade : Upgrade
sample_upgrade = record {
  fields = record {
    ordering = unordered;
    connection_hops = "connection-0" ∷ [];
    version = "ics20-2";
  };
  timeout = record { timeout_height = zero_height; timeout_timestamp = 0 };
}

abbrev pub sample_header : Header
sample_header = record { height = at_height 10; is_valid_basic = true }

-- A chain at height 12, with 10 finalized.
abbrev pub sample_chain : String → String → ConnectionState → ChannelState → ProvableChain Log
sample_chain chain_id order conn chan = record {
  chain_id = chain_id;
  path = sample_path chain_id order;
  get_address_string = pure "relayer";
  latest_height = pure (at_height 12);
  timestamp = λ h. pure (h.revision_height + 100);
  setup_for_relay = pure tt;
  send_msgs = λ ms log. (ok (map (λ m. MsgId.fabric "tx") ms), log ++ ms ∷ []);
  get_msg_result = λ id.
      pure (record {
        block_height = at_height 12;
        is_success = true;
        failure_reason = "";
        events = [];
      });
  query_client_state = λ h. pure (answer (3 ∷ []));
  query_client_consensus_state = λ h h'. pure (answer (4 ∷ []));
  query_connection = λ h id.
      pure
        (answer (record { state = conn; client_id = "client-0"; counterparty_connection_id = "" }));
  query_channel = λ h. pure (answer (sample_channel chan));
  query_next_sequence_receive = λ h. pure 1;
  query_unreceived_packets = λ h seqs. pure seqs;
  query_unfinalized_relay_packets = λ h id. pure (sample_packet 1 5 ∷ sample_packet 2 20 ∷ []);
  query_unreceived_acknowledgements = λ h seqs. pure seqs;
  query_unfinalized_relay_acknowledgements = λ h id. pure (sample_packet 3 0 ∷ []);
  query_channel_upgrade = λ h. pure (some (answer sample_upgrade));
  query_channel_upgrade_error = λ h. pure none;
  query_can_transition_to_flush_complete = λ h. pure true;
  prove_state = λ h path value. pure (8 ∷ [], h);
  prove_host_consensus_state = λ h h' c. pure (9 ∷ []);
  create_initial_light_client_state =
      λ h. pure (record { latest_height = at_height 10 }, record { timestamp = 1 });
  setup_headers_for_update = λ id h. pure (sample_header ∷ []);
  check_refresh_required = λ id. pure false;
  get_latest_finalized_header = pure sample_header;
}

abbrev pub src_chain : ProvableChain Log
src_chain = sample_chain "src" "ordered" ConnectionStates.init ChannelStates.init

abbrev pub dst_chain : ProvableChain Log
dst_chain = sample_chain "dst" "unordered" ConnectionStates.tryopen ChannelStates.tryopen

abbrev pub sample_headers : SyncHeaders
sample_headers = λ id. some sample_header

-- A retry that gives up after the first attempt.
abbrev pub no_retry : Retry
no_retry = record { run = λ S A m. m; run_attempts = λ S A m s. once refl }

abbrev pub sample_marshal : Msg → Option Bytes
sample_marshal m = some (1 ∷ 2 ∷ 3 ∷ [])

abbrev pub sample_msg : String → Msg
sample_msg id = connection_open_confirm id [] zero_height "relayer"

-- At most two messages and five bytes in a batch, so each message is a batch of its own.
abbrev pub sample_msgs : RelayMsgs
sample_msgs = record {
  src = sample_msg "a" ∷ sample_msg "b" ∷ sample_msg "c" ∷ [];
  dst = sample_msg "d" ∷ [];
  max_tx_size = 5;
  max_msg_length = 2;
  last = false;
  succeeded = false;
  src_msg_ids = [];
  dst_msg_ids = [];
}

abbrev pub sample_service : RelayService Log
sample_service = record {
  ibc = sample_ibc;
  retry = no_retry;
  marshal = sample_marshal;
  clock = pure 1000;
  src = src_chain;
  dst = dst_chain;
  st = record {
    is_ordered = false;
    max_tx_size = 0;
    max_msg_length = 0;
    src_no_ack = false;
    dst_no_ack = false;
  };
  optimize_relay = record {
    src_optimize_interval = 0;
    src_optimize_count = 1;
    dst_optimize_interval = 0;
    dst_optimize_count = 1;
  };
}

abbrev pub all_decided : Decision
all_decided = record { relay = true; ack = true; timeout = true }

-- The service with acknowledgements forbidden on src only.
abbrev pub silent_service : RelayService Log
silent_service = record sample_service {
  st = record {
    is_ordered = false;
    max_tx_size = 0;
    max_msg_length = 0;
    src_no_ack = true;
    dst_no_ack = false;
  };
}

-- A chain that accepts no message.
abbrev pub broken_chain : ProvableChain Log
broken_chain = record src_chain { send_msgs = λ ms log. (err (external "unavailable"), log) }

abbrev pub one_msg : RelayMsgs
one_msg = record sample_msgs { src = sample_msg "a" ∷ []; dst = [] }

abbrev pub no_config : Config Log
no_config = λ path chain kv. pure tt
