-- ===== src/Service/Collected.antt =====
-- The messages that core/naive-strategy.go builds for packets, acknowledgements and timeouts.
use yui_relayer.Base.{
  String, Bool, true, false, not, ◌&&◌, List, [], ◌∷◌, ◌++◌, ◌≡◌, refl, ap, All, if◌then◌else◌,
  Returns, Returns-next, Returns-then, pure, Action,
}
use yui_relayer.Ibc.{Bytes, Height, Functions}
use yui_relayer.PathEnd.{PathEnd, get_order, is_ordered}
use yui_relayer.Msg.{Msg}
use yui_relayer.Packet.{PacketInfo}
use yui_relayer.Chain.{ProvableChain}
use yui_relayer.Headers.{SyncHeaders, get_query_context}
use yui_relayer.Handshake.Updates.{IsUpdateOf}
use yui_relayer.Strategy.Relay.{
  bytes, collect_packets, collect_acks, collect_timeout_packets, timeout_claim, collect_timeouts,
  relay_packets, relay_acknowledgements, relay_timeout_packets,
}

-- One message for each packet, in order.
pub data Each (R : PacketInfo → Msg → Type 0) : List PacketInfo → List Msg → Type 0 where
  none_left : Each R [] []
  one_more :
      {p : PacketInfo} {m : Msg} {ps : List PacketInfo} {ms : List Msg}
      → R p m
      → Each R ps ms
      → Each R (p ∷ ps) (m ∷ ms)

abbrev pub IsRecv : PacketInfo → Msg → Type 0
IsRecv p m =
    (proof : Bytes) × (height : Height) × (signer : String) × m
      ≡ Msg.recv_packet p.packet proof height signer

abbrev pub IsAck : PacketInfo → Msg → Type 0
IsAck p m =
    (proof : Bytes) × (height : Height) × (signer : String) × m
      ≡ Msg.acknowledgement p.packet (bytes p.acknowledgement) proof height signer

-- On an ordered channel the next sequence to receive is the packet's own.
abbrev pub IsTimeout : Bool → PacketInfo → Msg → Type 0
IsTimeout order p m =
    (proof : Bytes) × (height : Height) × (signer : String) × m
      ≡ Msg.timeout p.packet (if order then p.packet.sequence else 1) proof height signer

abbrev pub chosen_if : Bool → List PacketInfo → List PacketInfo
chosen_if b ps = if b then ps else []

-- The messages for the chain `to`: client updates, then the packets, then the acknowledgements, then
-- the timeouts.
pub record Directed (to : PathEnd) (packets acks timeouts : List PacketInfo) (ms : List Msg)
    : Type 0 where
  pub update_msgs : List Msg
  pub packet_msgs : List Msg
  pub ack_msgs : List Msg
  pub timeout_msgs : List Msg
  pub whole : ms ≡ (update_msgs ++ packet_msgs ++ ack_msgs) ++ timeout_msgs
  pub updates : All (IsUpdateOf to) update_msgs
  pub recvs : Each IsRecv packets packet_msgs
  pub acknowledgements : Each IsAck acks ack_msgs
  pub timed_out : Each (IsTimeout (is_ordered (get_order to))) timeouts timeout_msgs

pub timeout_claim-next :
    (ibc : Functions) (order : Bool) (p : PacketInfo)
    → (timeout_claim ibc order p).2 ≡ (if order then p.packet.sequence else 1)
unfolding timeout_claim
timeout_claim-next ibc true p = refl
timeout_claim-next ibc false p = refl

module _ {W : Type 0} (ibc : Functions) where
  pub collect_packets-Each :
      (ctx : Height) (chain : ProvableChain W) (ps : List PacketInfo) (signer : String) (w : W)
      → Returns (Each IsRecv ps) (collect_packets ibc ctx chain ps signer w)
  unfolding collect_packets
  collect_packets-Each ctx chain [] signer w = none_left
  collect_packets-Each ctx chain (p ∷ ps) signer w =
      Returns-next (Each IsRecv (p ∷ ps)) _
        (chain.prove_state ctx
          (ibc.packet_commitment_path p.packet.source_port p.packet.source_channel
            p.packet.sequence)
          (ibc.commit_packet p.packet) w)
        (λ (proof, height) w1.
          Returns-then (Each IsRecv (p ∷ ps)) (Each IsRecv ps) _
            (collect_packets ibc ctx chain ps signer w1)
            (collect_packets-Each ctx chain ps signer w1)
            (λ msgs w2 h. one_more (proof, height, signer, refl) h))

  pub collect_acks-Each :
      (ctx : Height) (chain : ProvableChain W) (ps : List PacketInfo) (signer : String) (w : W)
      → Returns (Each IsAck ps) (collect_acks ibc ctx chain ps signer w)
  unfolding collect_acks
  collect_acks-Each ctx chain [] signer w = none_left
  collect_acks-Each ctx chain (p ∷ ps) signer w =
      Returns-next (Each IsAck (p ∷ ps)) _
        (chain.prove_state ctx
          (ibc.packet_acknowledgement_path p.packet.destination_port p.packet.destination_channel
            p.packet.sequence)
          (ibc.commit_acknowledgement (bytes p.acknowledgement)) w)
        (λ (proof, height) w1.
          Returns-then (Each IsAck (p ∷ ps)) (Each IsAck ps) _
            (collect_acks ibc ctx chain ps signer w1) (collect_acks-Each ctx chain ps signer w1)
            (λ msgs w2 h. one_more (proof, height, signer, refl) h))

  pub collect_timeout_packets-Each :
      (ctx : Height) (chain other : ProvableChain W) (ps : List PacketInfo) (signer : String)
      (w : W)
      → Returns
          (Each (IsTimeout (is_ordered (get_order chain.path))) ps)
          (collect_timeout_packets ibc ctx chain other ps signer w)
  unfolding collect_timeout_packets
  collect_timeout_packets-Each ctx chain other [] signer w = none_left
  collect_timeout_packets-Each ctx chain other (p ∷ ps) signer w =
      let order = is_ordered (get_order chain.path) in
      let claim = timeout_claim ibc order p in
      Returns-next (Each (IsTimeout order) (p ∷ ps)) _ (other.prove_state ctx claim.0 claim.1 w)
        (λ (proof, height) w1.
          Returns-then (Each (IsTimeout order) (p ∷ ps)) (Each (IsTimeout order) ps) _
            (collect_timeout_packets ibc ctx chain other ps signer w1)
            (collect_timeout_packets-Each ctx chain other ps signer w1)
            (λ msgs w2 h.
              one_more
                (
                  proof,
                  height,
                  signer,
                  ap (λ n. Msg.timeout p.packet n proof height signer)
                      (timeout_claim-next ibc order p),
                )
                h))

  module _ (sh : SyncHeaders) where
    pub chosen-Each :
        (R : PacketInfo → Msg → Type 0) (b : Bool) (ps : List PacketInfo) (m : Action W (List Msg))
        (w : W)
        → Returns (Each R ps) (m w)
        → Returns (Each R (chosen_if b ps)) ((if b then m else pure []) w)
    chosen-Each R true ps m w h = h
    chosen-Each R false ps m w h = none_left

    pub relay_packets-Each :
        (from to : ProvableChain W) (ps : List PacketInfo) (b : Bool) (w : W)
        → Returns (Each IsRecv (chosen_if b ps)) (relay_packets ibc sh from to ps b w)
    unfolding relay_packets
    relay_packets-Each from to ps b w =
        Returns-next (Each IsRecv (chosen_if b ps)) _ (get_query_context sh from.chain_id w)
          (λ ctx w1.
            Returns-next (Each IsRecv (chosen_if b ps)) _ (to.get_address_string w1) (λ addr w2.
              chosen-Each IsRecv b ps (collect_packets ibc ctx from ps addr) w2
                (collect_packets-Each ctx from ps addr w2)))

    pub relay_acknowledgements-Each :
        (none_acked : Bool) (from to : ProvableChain W) (ps : List PacketInfo) (b : Bool) (w : W)
        → Returns
            (Each IsAck (chosen_if (not none_acked && b) ps))
            (relay_acknowledgements ibc sh none_acked from to ps b w)
    unfolding relay_acknowledgements
    relay_acknowledgements-Each none_acked from to ps b w =
        let P = Each IsAck (chosen_if (not none_acked && b) ps) in
        Returns-next P _ (get_query_context sh from.chain_id w) (λ ctx w1.
          Returns-next P _ (to.get_address_string w1) (λ addr w2.
            chosen-Each IsAck (not none_acked && b) ps (collect_acks ibc ctx from ps addr) w2
              (collect_acks-Each ctx from ps addr w2)))

    pub relay_timeout_packets-Each :
        (chain other : ProvableChain W) (ps : List PacketInfo) (w : W)
        → Returns
            (Each (IsTimeout (is_ordered (get_order chain.path))) ps)
            (relay_timeout_packets ibc sh chain other ps true w)
    unfolding relay_timeout_packets collect_timeouts
    relay_timeout_packets-Each chain other [] w = none_left
    relay_timeout_packets-Each chain other (p ∷ ps) w =
        let P = Each (IsTimeout (is_ordered (get_order chain.path))) (p ∷ ps) in
        Returns-next P _ (get_query_context sh other.chain_id w) (λ ctx w1.
          Returns-next P _ (chain.get_address_string w1)
            (λ addr w2. collect_timeout_packets-Each ctx chain other (p ∷ ps) addr w2))
