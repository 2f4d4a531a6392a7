-- ===== src/Runs.antt =====
-- Runs of the definitions on the chains of `Scenario`, by computation.
use yui_relayer.Base.{ℕ, List, [], ◌∷◌, ◌≡◌, refl, length, Outcome, ok, err, panic}
use yui_relayer.Packet.{RelayPackets}
use yui_relayer.RelayMsgs.{RelayMsgs, send}
use yui_relayer.Strategy.Timeouts.{process_timeout_packets}
use yui_relayer.Handshake.Connection.{create_connection_step}
use yui_relayer.Handshake.Channel.{create_channel_step}
use yui_relayer.Service.{serve}
use yui_relayer.PathEnd.{get_order}
use yui_relayer.Scenario.{
  sample_ibc, sample_packet, sample_headers, src_chain, dst_chain, sample_marshal, sample_msgs,
  sample_msg, sample_service, silent_service, no_retry,
}

abbrev found : RelayPackets
found = record {
  src = sample_packet 1 5 ∷ sample_packet 2 20 ∷ [];
  dst = sample_packet 4 11 ∷ sample_packet 5 0 ∷ sample_packet 6 3 ∷ [];
  src_timeout = [];
  dst_timeout = [];
}

-- The path of src is ordered, that of dst is not.
process_timeout_packets_run :
    process_timeout_packets sample_ibc src_chain dst_chain sample_headers found [] ≡ (
      ok (record {
        src = [];
        dst = sample_packet 5 0 ∷ [];
        src_timeout = sample_packet 1 5 ∷ [];
        dst_timeout = sample_packet 6 3 ∷ [];
      }),
      [],
    )
unfolding process_timeout_packets
process_timeout_packets_run = refl

abbrev counts : {W : Type 0} → Outcome RelayMsgs × W → List ℕ
counts (ok r, w) = length r.src ∷ length r.dst ∷ []
counts (err e, w) = []
counts (panic, w) = []

-- An update of the client, and the acknowledgement of the handshake, to src.
create_connection_step_run :
    counts (create_connection_step sample_ibc no_retry src_chain dst_chain []) ≡ 2 ∷ 0 ∷ []
unfolding create_connection_step yui_relayer.PathEnd.Messages.update_clients
create_connection_step_run = refl

create_channel_step_run :
    counts (create_channel_step sample_ibc no_retry src_chain dst_chain []) ≡ 2 ∷ 0 ∷ []
unfolding create_channel_step yui_relayer.PathEnd.Messages.update_clients
create_channel_step_run = refl

-- No batch of two fits into five bytes, so each message is sent alone.
send_run :
    (send sample_marshal src_chain dst_chain sample_msgs []).1
    ≡ (sample_msg "a" ∷ [])
      ∷ (sample_msg "b" ∷ [])
      ∷ (sample_msg "c" ∷ [])
      ∷ (sample_msg "d" ∷ [])
      ∷ []
unfolding send
send_run = refl

-- To src an update, a packet, an acknowledgement and a timeout; to dst an update, an acknowledgement
-- and a timeout.
serve_run : counts (serve sample_service ([], sample_headers)) ≡ 4 ∷ 3 ∷ []
unfolding serve yui_relayer.PathEnd.Messages.update_clients
serve_run = refl

-- With `srcNoAck` alone, the acknowledgement is missing on both sides.
silent_serve_run : counts (serve silent_service ([], sample_headers)) ≡ 3 ∷ 2 ∷ []
unfolding serve yui_relayer.PathEnd.Messages.update_clients
silent_serve_run = refl
