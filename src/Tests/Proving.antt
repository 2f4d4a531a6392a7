-- ===== src/Tests/Proving.antt =====
-- Runs of the results of the tendermint module and of the mock prover, and their theorems at those
-- inputs.
use yui_relayer.Base.{
  ◌-◌, ◌<◌, ◌≡◌, refl, true, List, [], ◌∷◌, Option, none, some, ok, pure, arith, ◌==◌,
  if◌then◌else◌, Returns, Answered, All,
}
use yui_relayer.Ibc.{Height}
use yui_relayer.Durations.{bits}
use yui_relayer.Msg.{tendermint, generate_client_identifier}
use yui_relayer.Events.{Event, get_packets_from_events, client_id_key, msg_index_key}
use yui_relayer.Events.Reports.{packet_attributes, attribute}
use yui_relayer.Tendermint.{Types, Committed, parse_msg_event_log, get_msg_result}
use yui_relayer.Tendermint.Own.{ResultOf, get_msg_result-ResultOf}
use yui_relayer.Tendermint.Agree.{IsSend, logged, logged_time, send_packet-agree}
use yui_relayer.Mock.{
  MockProver, put_uint64, get_delayed_latest_finalized_height, create_initial_state,
}
use yui_relayer.Mock.Delay.{at, big_endian, get_delayed-minus}
use yui_relayer.Mock.Initial.{InitialState, create_initial_state-InitialState}
use yui_relayer.Tests.Reading.{hello, hello-Texts, hello-IsPacket, accepts}
use yui_relayer.Scenario.{sample_ibc, src_chain, at_height}

abbrev ibc_types : Types
ibc_types = record {
  create_client = "create_client";
  connection_open_init = "connection_open_init";
  connection_open_try = "connection_open_try";
  channel_open_init = "channel_open_init";
  channel_open_try = "channel_open_try";
  send_packet = "send_packet";
  recv_packet = "recv_packet";
  write_ack = "write_acknowledgement";
  acknowledge_packet = "acknowledge_packet";
  channel_upgrade_open = "channel_upgrade_open";
  parse_height = λ text. some (at_height 1200);
}

ibc_types-IsSend : IsSend ibc_types "send_packet"
ibc_types-IsSend = record {
  not_client = refl;
  not_connection = refl;
  not_channel = refl;
  is_send = refl;
}

send_packet-agree_example :
    let ev : Event = record {
      type = "send_packet";
      attributes = packet_attributes hello hello-Texts none ("1" ∷ []);
    } in
    parse_msg_event_log ibc_types ev tt ≡ (ok (logged hello), tt {0})
    × get_packets_from_events accepts (ev ∷ []) "send_packet" tt ≡ (ok (hello ∷ []), tt {0})
    × bits (logged_time hello.timeout_timestamp) ≡ hello.timeout_timestamp
send_packet-agree_example =
    send_packet-agree tt ibc_types accepts "send_packet" hello hello-Texts none ("1" ∷ [])
      ibc_types-IsSend hello-IsPacket refl refl

abbrev created_events : List Event
created_events =
    record {
      type = "create_client";
      attributes = attribute client_id_key "client-7" ∷ attribute msg_index_key "1" ∷ [];
    }
    ∷ record { type = "transfer"; attributes = attribute msg_index_key "0" ∷ [] }
    ∷ []

abbrev created : Committed
created = record { height = 12; failure = none; events = created_events }

get_msg_result-ResultOf_example :
    Returns
      (λ res.
        (tx : Committed) × Answered {W = Unit {0}} (pure created) tx
        × ResultOf (Unit {0}) ibc_types 0 1 tx res)
      (get_msg_result ibc_types (λ id. 0) (λ hash. pure created) "src" (tendermint "AB" 1) tt)
get_msg_result-ResultOf_example =
    get_msg_result-ResultOf ibc_types (λ id. 0) (λ hash. pure created) "src" "AB" 1 tt

-- Only the event with the index of the message is in its result.
own_event_run :
    get_msg_result {W = Unit {0}} ibc_types
      (λ id. 0)
      (λ hash. pure created)
      "src"
      (tendermint "AB" 1)
      tt
    ≡ (
      ok (record {
        block_height = at_height 12;
        is_success = true;
        failure_reason = "";
        events = generate_client_identifier "client-7" ∷ [];
      }),
      tt,
    )
unfolding get_msg_result
own_event_run = refl

abbrev one_down : Height → Option Height
one_down h = if h.revision_height == 0 then none else some (at h (h.revision_height - 1))

abbrev mock_prover : MockProver
mock_prover = record {
  finality_delay = 3;
  ibc = sample_ibc;
  decrement = one_down;
  sha256 = λ bz. bz;
  marshal = λ cons. none;
  is_valid = λ height timestamp. true;
  default_chain_prefix = 105 ∷ 98 ∷ 99 ∷ [];
}

get_delayed-minus_example :
    get_delayed_latest_finalized_height mock_prover src_chain [] ≡ (ok (at_height 9), [])
    × big_endian (put_uint64 9) 0 ≡ 9
    × All (λ b. b < 256) (put_uint64 9)
get_delayed-minus_example =
    get_delayed-minus mock_prover src_chain (at_height 12) [] [] (λ h. refl) refl (omega arith)

create_initial_state-InitialState_example :
    Returns
      (InitialState mock_prover src_chain (some (at_height 8)))
      (create_initial_state mock_prover src_chain (some (at_height 8)) [])
create_initial_state-InitialState_example =
    create_initial_state-InitialState mock_prover src_chain (some (at_height 8)) []
