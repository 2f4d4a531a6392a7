-- ===== src/Service.antt =====
-- core/service.go: one round of the relay service, with the strategy of core/naive-strategy.go. Its
-- headers are part of the state, since a retry of a query updates them. `Decide` decides whether
-- there is enough to relay; `Collected` and `Directed` are about the messages of a round,
-- `Unqueried` and `Silent` about a round without acknowledgements, and `Start` is the endless loop.
pub mod Decide
pub mod Directed
pub mod Collected
pub mod Silent
pub mod Unqueried
pub mod Start
use yui_relayer.Base.{
  ℕ, Bool, true, false, not, List, [], ◌∷◌, ◌++◌, Option, is_empty, if◌then◌else◌, Action, Outcome,
  ok, err, panic, next, pure, both, beside, ◌>>=◌, ◌>>◌,
}
use yui_relayer.Ibc.{Bytes, Functions}
use yui_relayer.Msg.{Msg}
use yui_relayer.Packet.{PacketInfo, RelayPackets}
use yui_relayer.Chain.{ProvableChain}
use yui_relayer.Headers.{SyncHeaders, updates}
use yui_relayer.RelayMsgs.{RelayMsgs, new_relay_msgs}
use yui_relayer.Loop.{Retry}
use yui_relayer.Strategy.{NaiveStrategy}
use yui_relayer.Strategy.Timeouts.{process_timeout_packets}
use yui_relayer.Strategy.Unrelayed.{unrelayed_packets, unrelayed_acknowledgements, with_headers}
use yui_relayer.Strategy.Relay.{
  from_chain, to_chain, no_ack, update_clients_if_needed, relay_packets, relay_acknowledgements,
  relay_timeout_packets, send_all,
}
use Decide.{OptimizeRelay, should_execute_relay}

-- What a service is made of: the strategy, and the code outside the model.
pub record RelayService (W : Type 0) : Type 1 where
  pub ibc : Functions
  pub retry : Retry
  pub marshal : Msg → Option Bytes
  pub clock : Action W ℕ
  pub src : ProvableChain W
  pub dst : ProvableChain W
  pub st : NaiveStrategy
  pub optimize_relay : OptimizeRelay

-- The decisions of one round for one direction.
pub record Decision : Type 0 where
  pub relay : Bool
  pub ack : Bool
  pub timeout : Bool

module _ {W : Type 0} (srv : RelayService W) (sh : SyncHeaders) where
  -- RelayService.relayMsgs, with `doRefresh` set as the only caller sets it
  unfoldable pub relay_msgs :
      Bool → List PacketInfo → List PacketInfo → Decision → Action W (List Msg)
  unfolding update_clients_if_needed relay_packets relay_acknowledgements no_ack
  relay_msgs is_src_to_dst packets acks d = do
    let from = from_chain is_src_to_dst srv.src srv.dst
    let to = to_chain is_src_to_dst srv.src srv.dst
    let none_acked = no_ack srv.st is_src_to_dst
    client_msgs ← update_clients_if_needed sh none_acked from to d.relay d.ack d.timeout true
    packet_msgs ← relay_packets srv.ibc sh from to packets d.relay
    ack_msgs ← relay_acknowledgements srv.ibc sh none_acked from to acks d.ack
    pure (client_msgs ++ packet_msgs ++ ack_msgs)

  -- One goroutine of Serve: the messages for the chain that receives, and `timeouts`, the packets of
  -- that chain which the other has not received in time.
  unfoldable pub direction_msgs :
      Bool → List PacketInfo → List PacketInfo → List PacketInfo → Decision → Action W (List Msg)
  unfolding relay_msgs relay_timeout_packets
  direction_msgs is_src_to_dst packets acks timeouts d = do
    msgs ← relay_msgs is_src_to_dst packets acks d
    let from = from_chain is_src_to_dst srv.src srv.dst
    let to = to_chain is_src_to_dst srv.src srv.dst
    timeout_msgs ←
        if d.timeout then relay_timeout_packets srv.ibc sh to from timeouts true else pure []
    pure (msgs ++ timeout_msgs)

  -- Serve, from the packets and the acknowledgements on: the decisions and the messages.
  unfoldable pub round_msgs : RelayPackets → RelayPackets → Action W RelayMsgs
  unfolding should_execute_relay direction_msgs new_relay_msgs
  round_msgs pseqs aseqs = do
    (relay_src, relay_dst) ← should_execute_relay srv.clock srv.src srv.dst srv.optimize_relay pseqs
    (ack_src, ack_dst) ← should_execute_relay srv.clock srv.src srv.dst srv.optimize_relay aseqs
    let to_dst : Decision = record {
      relay = relay_dst;
      ack = ack_dst;
      timeout = not (is_empty pseqs.dst_timeout);
    }
    let to_src : Decision = record {
      relay = relay_src;
      ack = ack_src;
      timeout = not (is_empty pseqs.src_timeout);
    }
    (dst_msgs, src_msgs) ←
        both (direction_msgs true pseqs.src aseqs.src pseqs.dst_timeout to_dst)
          (direction_msgs false pseqs.dst aseqs.dst pseqs.src_timeout to_src)
    pure (record new_relay_msgs { src = src_msgs; dst = dst_msgs })

module _ {W : Type 0} (srv : RelayService W) where
  abbrev pub replaced :
      SyncHeaders → Outcome SyncHeaders × W → Outcome (Unit {0}) × (W × SyncHeaders)
  replaced sh (ok sh', w) = (ok tt, (w, sh'))
  replaced sh (err e, w) = (err e, (w, sh))
  replaced sh (panic, w) = (panic, (w, sh))

  unfoldable pub refresh : Action (W × SyncHeaders) (Unit {0})
  unfolding updates
  refresh (w, sh) = replaced sh (updates srv.src srv.dst sh w)

  -- RelayService.Serve; the result of Send is what the batches became.
  unfoldable pub serve : Action (W × SyncHeaders) RelayMsgs
  unfolding refresh unrelayed_packets process_timeout_packets unrelayed_acknowledgements round_msgs
      send_all
  serve = do
    refresh
    found ← with_headers (λ sh. unrelayed_packets srv.retry srv.src srv.dst sh false)
    pseqs ← with_headers (λ sh. process_timeout_packets srv.ibc srv.src srv.dst sh found)
    aseqs ← unrelayed_acknowledgements srv.retry srv.src srv.dst srv.st false
    msgs ← with_headers (λ sh. round_msgs srv sh pseqs aseqs)
    beside (send_all srv.marshal srv.st srv.src srv.dst msgs)
