-- ===== src/Service/Directed.antt =====
-- The messages that one round of core/service.go sends in one direction.
use yui_relayer.Base.{
  Bool, true, false, not, ◌&&◌, ◌||◌, List, [], ◌++◌, ◌≡◌, refl, sym, ap, ◌∙◌, All, if◌then◌else◌,
  Returns, Returns-next, Returns-then, pure, append-nil,
}
use yui_relayer.PathEnd.{PathEnd, get_order, is_ordered}
use yui_relayer.Msg.{Msg}
use yui_relayer.Packet.{PacketInfo}
use yui_relayer.Chain.{ProvableChain}
use yui_relayer.Headers.{SyncHeaders, setup_headers_for_update}
use yui_relayer.Handshake.Updates.{IsUpdateOf, client_updates-IsUpdateOf}
use yui_relayer.Strategy.Relay.{
  from_chain, to_chain, no_ack, update_messages, update_clients_if_needed, relay_packets,
  relay_acknowledgements, relay_timeout_packets,
}
use yui_relayer.Service.{RelayService, Decision, relay_msgs, direction_msgs}
use yui_relayer.Service.Collected.{
  none_left, Each, IsRecv, IsAck, IsTimeout, chosen_if, Directed, relay_packets-Each,
  relay_acknowledgements-Each, relay_timeout_packets-Each,
}

module _ {W : Type 0} (sh : SyncHeaders) where
  update_messages-IsUpdateOf :
      (from to : ProvableChain W) (w : W)
      → Returns (All (IsUpdateOf to.path)) (update_messages sh from to w)
  unfolding update_messages
  update_messages-IsUpdateOf from to w =
      Returns-next (All (IsUpdateOf to.path)) _ (to.get_address_string w) (λ addr w1.
        Returns-next (All (IsUpdateOf to.path)) _ (setup_headers_for_update from to sh w1)
          (λ hs w2. client_updates-IsUpdateOf to hs addr w2))

  chosen-IsUpdateOf :
      (b : Bool) (from to : ProvableChain W) (w : W)
      → Returns (All (IsUpdateOf to.path)) ((if b then update_messages sh from to else pure []) w)
  chosen-IsUpdateOf true from to w = update_messages-IsUpdateOf from to w
  chosen-IsUpdateOf false from to w = tt

  update_clients_if_needed-IsUpdateOf :
      (none_acked : Bool) (from to : ProvableChain W) (d : Decision) (w : W)
      → Returns
          (All (IsUpdateOf to.path))
          (update_clients_if_needed sh none_acked from to d.relay d.ack d.timeout true w)
  unfolding update_clients_if_needed
  update_clients_if_needed-IsUpdateOf none_acked from to d w =
      let needed = d.relay || (d.ack && not none_acked) || d.timeout in
      Returns-next (All (IsUpdateOf to.path)) _
        ((if not needed && true then from.check_refresh_required to.chain_id else pure needed) w)
        (λ update w1. chosen-IsUpdateOf update from to w1)

module _ {W : Type 0} (srv : RelayService W) (sh : SyncHeaders) where
  relay_msgs-Directed :
      (b : Bool) (packets acks : List PacketInfo) (d : Decision) (w : W)
      → Returns
          (Directed
            (to_chain b srv.src srv.dst).path
            (chosen_if d.relay packets)
            (chosen_if (not (no_ack srv.st b) && d.ack) acks)
            [])
          (relay_msgs srv sh b packets acks d w)
  unfolding relay_msgs
  relay_msgs-Directed b packets acks d w =
      let from = from_chain b srv.src srv.dst in
      let to = to_chain b srv.src srv.dst in
      let none_acked = no_ack srv.st b in
      let P =
        Directed to.path (chosen_if d.relay packets) (chosen_if (not none_acked && d.ack) acks)
          [] in
      Returns-then P (All (IsUpdateOf to.path)) _
        (update_clients_if_needed sh none_acked from to d.relay d.ack d.timeout true w)
        (update_clients_if_needed-IsUpdateOf sh none_acked from to d w)
        (λ us w1 hu.
          Returns-then P (Each IsRecv (chosen_if d.relay packets)) _
            (relay_packets srv.ibc sh from to packets d.relay w1)
            (relay_packets-Each srv.ibc sh from to packets d.relay w1)
            (λ ps w2 hp.
              Returns-then P (Each IsAck (chosen_if (not none_acked && d.ack) acks)) _
                (relay_acknowledgements srv.ibc sh none_acked from to acks d.ack w2)
                (relay_acknowledgements-Each srv.ibc sh none_acked from to acks d.ack w2)
                (λ as' w3 ha. record {
                  update_msgs = us;
                  packet_msgs = ps;
                  ack_msgs = as';
                  timeout_msgs = [];
                  whole = sym (append-nil _);
                  updates = hu;
                  recvs = hp;
                  acknowledgements = ha;
                  timed_out = none_left;
                })))

  Each-nil : (R : PacketInfo → Msg → Type 0) (ms : List Msg) → Each R [] ms → ms ≡ []
  Each-nil R ms none_left = refl

  add_timeouts :
      (to : PathEnd) (packets acks timeouts : List PacketInfo) (ms ts : List Msg)
      → Directed to packets acks [] ms
      → Each (IsTimeout (is_ordered (get_order to))) timeouts ts
      → Directed to packets acks timeouts (ms ++ ts)
  add_timeouts to packets acks timeouts ms ts d h = record {
    update_msgs = d.update_msgs;
    packet_msgs = d.packet_msgs;
    ack_msgs = d.ack_msgs;
    timeout_msgs = ts;
    whole =
        ap (λ xs. xs ++ ts)
          (d.whole
            ∙ ap (λ xs. (d.update_msgs ++ d.packet_msgs ++ d.ack_msgs) ++ xs)
                (Each-nil _ d.timeout_msgs d.timed_out)
            ∙ append-nil _);
    updates = d.updates;
    recvs = d.recvs;
    acknowledgements = d.acknowledgements;
    timed_out = h;
  }

  timeouts-Each :
      (from to : ProvableChain W) (timeouts : List PacketInfo) (b : Bool) (w : W)
      → Returns
          (Each (IsTimeout (is_ordered (get_order to.path))) (chosen_if b timeouts))
          ((if b then relay_timeout_packets srv.ibc sh to from timeouts true else pure []) w)
  timeouts-Each from to timeouts true w = relay_timeout_packets-Each srv.ibc sh to from timeouts w
  timeouts-Each from to timeouts false w = none_left

  -- For either direction of a round, whatever the chains answer: if the goroutine of Serve returns,
  -- then its messages are valid updates of the receiving chain's client, then one MsgRecvPacket for
  -- each packet, then one MsgAcknowledgement for each acknowledgement, then one MsgTimeout for each
  -- timed out packet, each group in the order of its packets. A group is empty where the decision for
  -- it is no, and the acknowledgements also where the strategy's setting for the direction forbids
  -- them: `srcNoAck` for src to dst, `dstNoAck` for dst to src.
  pub direction_msgs-Directed :
      (is_src_to_dst : Bool) (packets acks timeouts : List PacketInfo) (d : Decision) (w : W)
      → Returns
          (Directed
            (to_chain is_src_to_dst srv.src srv.dst).path
            (chosen_if d.relay packets)
            (chosen_if (not (no_ack srv.st is_src_to_dst) && d.ack) acks)
            (chosen_if d.timeout timeouts))
          (direction_msgs srv sh is_src_to_dst packets acks timeouts d w)
  unfolding direction_msgs
  direction_msgs-Directed b packets acks timeouts d w =
      let from = from_chain b srv.src srv.dst in
      let to = to_chain b srv.src srv.dst in
      let ps = chosen_if d.relay packets in
      let as' = chosen_if (not (no_ack srv.st b) && d.ack) acks in
      let P = Directed to.path ps as' (chosen_if d.timeout timeouts) in
      Returns-then P (Directed to.path ps as' []) _ (relay_msgs srv sh b packets acks d w)
        (relay_msgs-Directed b packets acks d w)
        (λ ms w1 dir.
          Returns-then P
            (Each (IsTimeout (is_ordered (get_order to.path))) (chosen_if d.timeout timeouts)) _
            ((if d.timeout then relay_timeout_packets srv.ibc sh to from timeouts true else pure [])
              w1)
            (timeouts-Each from to timeouts d.timeout w1)
            (λ ts w2 h. add_timeouts to.path ps as' (chosen_if d.timeout timeouts) ms ts dir h))
