-- ===== src/Tests.antt =====
-- Runs of the definitions on the chains of `Scenario`, and the theorems at those inputs.
pub mod Upgrades
pub mod Reading
pub mod Tables
pub mod Sending
pub mod Proving
pub mod Seeking
pub mod Refreshing
use yui_relayer.Base.{
  inl, ℕ, ◌≡◌, refl, true, false, List, [], ◌∷◌, All, contains, ok, Returns, arith, length, map, ap,
  suc, ◌≤◌, ◌⊎◌, some, none, pure, err, message,
}
use yui_relayer.Ibc.{Height}
use yui_relayer.Ibc.ConnectionStates
use yui_relayer.Ibc.ChannelStates
use yui_relayer.Msg.{Msg, fabric}
use yui_relayer.Packet.{PacketInfo, RelayPackets, filter, subtract}
use yui_relayer.Packet.Filter.{Merged, filter-subtract}
use yui_relayer.Headers.{SyncHeaders, put, updates, get_query_context}
use yui_relayer.Headers.Laws.{Updated, updates-Updated}
use yui_relayer.RelayMsgs.{RelayMsgs, ready, send_side, send, start as batch_start}
use yui_relayer.RelayMsgs.Batches.{Sent, send_side-Sent, Log}
use yui_relayer.RelayMsgs.Ids.{SendRecorded, send-SendRecorded}
use yui_relayer.RelayMsgs.Slots.{Answers}
use yui_relayer.Upgrade.States.{init, uninit, flushing}
use yui_relayer.Upgrade.Actions.{End, next_actions}
use yui_relayer.Upgrade.Permitted.{BothPermitted, next_actions-Permitted}
use yui_relayer.Upgrade.Calm.{Calm, swapped, next_actions-swap}
use yui_relayer.Handshake.Progress.{
  ConnectionCompletes, connection_move-Completes, ChannelCompletes, channel_move-Completes, start,
  moved, on_src, init_accepted,
}
use yui_relayer.Handshake.Connection.{create_connection_step}
use yui_relayer.Handshake.Channel.{create_channel_step}
use yui_relayer.Handshake.Shape.{create_connection_step-Round, create_channel_step-Round}
use yui_relayer.Handshake.Updates.{Round, is_connection_msg, is_channel_msg}
use yui_relayer.Strategy.Timeouts.{process_timeout_packets, classify, fate, Clock}
use yui_relayer.Strategy.Classified.{Judged, process_timeout_packets-Judged}
use yui_relayer.Strategy.Sorting.{Sorted, classify-Sorted}
use yui_relayer.Service.{direction_msgs, serve}
use yui_relayer.Service.Directed.{direction_msgs-Directed}
use yui_relayer.Service.Collected.{Directed}
use yui_relayer.Service.Silent.{SilentRound, serve-SilentRound}
use yui_relayer.Handshake.Create.{create}
use yui_relayer.Handshake.Failures.{Sends, Ends, given_up, rejected, create-Ends}
use yui_relayer.Loop.{tick, ended}
use yui_relayer.Scenario.{
  broken_chain, one_msg, no_config, silent_service, sample_ibc, sample_packet, sample_headers,
  src_chain, dst_chain, sample_marshal, sample_msgs, sample_service, all_decided, no_retry,
  at_height, sample_header, sample_channel, sample_upgrade, answer,
}

length-map_tx : (ms : List Msg) → length (map (λ (m : Msg). fabric "tx") ms) ≡ length ms
length-map_tx [] = refl
length-map_tx (m ∷ ms) = ap suc (length-map_tx ms)

src_slots : Answers src_chain
src_slots ms log = length-map_tx ms

dst_slots : Answers dst_chain
dst_slots ms log = length-map_tx ms

abbrev sample_found : RelayPackets
sample_found = record {
  src = sample_packet 1 5 ∷ sample_packet 2 20 ∷ [];
  dst = sample_packet 4 11 ∷ sample_packet 5 0 ∷ sample_packet 6 3 ∷ [];
  src_timeout = [];
  dst_timeout = [];
}

abbrev sample_clock : Clock
sample_clock = record {
  latest_height = at_height 12;
  latest_timestamp = 112;
  finalized_height = at_height 10;
  finalized_timestamp = 110;
}

abbrev src_end : End Log
src_end = record {
  chain = src_chain;
  ctx = at_height 10;
  chan = answer (sample_channel ChannelStates.flushing);
  upgrade = some (answer sample_upgrade);
}

abbrev dst_end : End Log
dst_end = record {
  chain = dst_chain;
  ctx = at_height 10;
  chan = answer (sample_channel ChannelStates.flushing);
  upgrade = some (answer sample_upgrade);
}

src-Calm : Calm src_end
src-Calm = record {
  reads_timestamp = λ w. (110, refl);
  reads_height = λ w. (at_height 12, refl);
  reads_flush = λ h w. (true, refl);
  upgraded = tt;
}

dst-Calm : Calm dst_end
dst-Calm = record {
  reads_timestamp = λ w. (110, refl);
  reads_height = λ w. (at_height 12, refl);
  reads_flush = λ h w. (true, refl);
  upgraded = tt;
}

send_side-Sent_example :
    Sent sample_marshal sample_msgs sample_msgs.src
      (send_side sample_marshal src_chain sample_msgs sample_msgs.src (batch_start true 3) [])
send_side-Sent_example =
    send_side-Sent sample_marshal src_chain sample_msgs (λ ms log. refl) sample_msgs.src true 3
      (omega arith) (omega arith)

send-SendRecorded_example :
    SendRecorded sample_msgs (send sample_marshal src_chain dst_chain sample_msgs [])
send-SendRecorded_example =
    send-SendRecorded sample_marshal src_chain dst_chain sample_msgs [] src_slots dst_slots
      (tt, (tt, (tt, tt))) (tt, tt)

process_timeout_packets-Judged_example :
    Returns
      (λ out.
        Judged sample_headers sample_ibc src_chain dst_chain sample_found.src
          (out.src, out.src_timeout)
        × Judged sample_headers sample_ibc dst_chain src_chain sample_found.dst
            (out.dst, out.dst_timeout))
      (process_timeout_packets sample_ibc src_chain dst_chain sample_headers sample_found [])
process_timeout_packets-Judged_example =
    process_timeout_packets-Judged sample_headers sample_ibc src_chain dst_chain sample_found []

classify-Sorted_example :
    (relay : List PacketInfo) × (timeout : List PacketInfo) × (skipped : List PacketInfo) × classify
        sample_ibc src_chain false sample_clock 0 sample_found.src []
      ≡ (ok (relay, timeout), [])
    × Sorted (fate sample_ibc sample_clock) relay timeout skipped sample_found.src
classify-Sorted_example = classify-Sorted sample_ibc src_chain sample_clock 0 sample_found.src []

direction_msgs-Directed_example :
    Returns
      (Directed dst_chain.path
        (sample_packet 2 20 ∷ [])
        (sample_packet 3 0 ∷ [])
        (sample_packet 1 5 ∷ []))
      (direction_msgs sample_service sample_headers true
        (sample_packet 2 20 ∷ [])
        (sample_packet 3 0 ∷ [])
        (sample_packet 1 5 ∷ [])
        all_decided
        [])
unfolding yui_relayer.Strategy.Relay.no_ack
direction_msgs-Directed_example =
    direction_msgs-Directed sample_service sample_headers true (sample_packet 2 20 ∷ [])
      (sample_packet 3 0 ∷ []) (sample_packet 1 5 ∷ []) all_decided []

next_actions-Permitted_example :
    Returns (BothPermitted init uninit) (next_actions sample_ibc init uninit src_end dst_end [])
next_actions-Permitted_example = next_actions-Permitted sample_ibc init uninit src_end dst_end []

next_actions-swap_example :
    next_actions sample_ibc flushing flushing dst_end src_end []
    ≡ swapped (next_actions sample_ibc flushing flushing src_end dst_end [])
next_actions-swap_example =
    next_actions-swap sample_ibc flushing flushing src_end dst_end [] (λ a b. (src-Calm, dst-Calm))

connection_move-Completes_example :
    (ConnectionStates.init ≡ ConnectionStates.opened)
      × (ConnectionStates.uninitialized ≡ ConnectionStates.opened)
    ⊎ ((n : ℕ) × ConnectionCompletes ConnectionStates.init ConnectionStates.uninitialized n × n ≤ 4)
connection_move-Completes_example = connection_move-Completes (moved start (on_src init_accepted))

channel_move-Completes_example :
    (ChannelStates.init ≡ ChannelStates.opened)
      × (ChannelStates.uninitialized ≡ ChannelStates.opened)
    ⊎ ((n : ℕ) × ChannelCompletes ChannelStates.init ChannelStates.uninitialized n × n ≤ 4)
channel_move-Completes_example = channel_move-Completes (moved start (on_src init_accepted))

create_connection_step-Round_example :
    Returns
      (Round is_connection_msg src_chain dst_chain)
      (create_connection_step sample_ibc no_retry src_chain dst_chain [])
create_connection_step-Round_example =
    create_connection_step-Round sample_ibc no_retry src_chain dst_chain []

create_channel_step-Round_example :
    Returns
      (Round is_channel_msg src_chain dst_chain)
      (create_channel_step sample_ibc no_retry src_chain dst_chain [])
create_channel_step-Round_example =
    create_channel_step-Round sample_ibc no_retry src_chain dst_chain []

updates-Updated_example :
    Returns
      (Updated src_chain dst_chain sample_headers)
      (updates src_chain dst_chain sample_headers [])
    × (src_chain.chain_id ≡ dst_chain.chain_id
        → updates src_chain dst_chain sample_headers []
          ≡ (err (message "the two chains are probably the same"), []))
updates-Updated_example = updates-Updated src_chain dst_chain sample_headers []

filter-subtract_example :
    Merged (filter sample_found.src (2 ∷ [])) (subtract sample_found.src (2 ∷ [])) sample_found.src
    × All (λ p. contains (2 ∷ []) p.packet.sequence ≡ true) (filter sample_found.src (2 ∷ []))
    × All (λ p. contains (2 ∷ []) p.packet.sequence ≡ false) (subtract sample_found.src (2 ∷ []))
filter-subtract_example = filter-subtract sample_found.src (2 ∷ [])

serve-SilentRound_example : Returns SilentRound (serve silent_service ([], sample_headers))
serve-SilentRound_example = serve-SilentRound silent_service (inl refl) ([], sample_headers)

abbrev refused : RelayMsgs
refused = record one_msg { succeeded = false; src_msg_ids = none ∷ []; dst_msg_ids = [] }

refused-Sends :
    Sends sample_marshal no_config "path" broken_chain dst_chain (pure one_msg) [] [] refused
unfolding ready send
refused-Sends = record {
  msgs = one_msg;
  between = [];
  stepped = refl;
  is_ready = refl;
  sent = refl;
}

refused-Ends :
    Ends sample_marshal no_config "path" broken_chain dst_chain
      (pure one_msg)
      []
      0
      2
      (err (message "handshake failed"))
      []
refused-Ends =
    rejected refused (omega arith) refused-Sends refl
      (rejected refused (omega arith) refused-Sends refl (given_up refused refused-Sends refl))

create-Ends_example :
    create sample_marshal no_config "path" none broken_chain dst_chain
      (pure true)
      (pure one_msg)
      (tick ∷ tick ∷ [])
      []
    ≡ (ended (err (message "handshake failed")), [])
create-Ends_example =
    create-Ends sample_marshal no_config "path" broken_chain dst_chain (pure one_msg) (pure true) 2
      [] (err (message "handshake failed")) [] [] [] refl refused-Ends
