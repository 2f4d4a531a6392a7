-- ===== src/Strategy/Classified.antt =====
-- What `ProcessTimeoutPackets` of core/naive-strategy.go selects.
use yui_relayer.Base.{
  List, [], ◌∷◌, ◌≡◌, refl, Option, none, some, Action, Returns, Returns-then, Returns-asked,
  Answered, or_crash, ◌>>=◌,
}
use yui_relayer.Ibc.{Functions}
use yui_relayer.PathEnd.{get_order, is_ordered}
use yui_relayer.Packet.{PacketInfo, RelayPackets}
use yui_relayer.Chain.{ProvableChain}
use yui_relayer.Headers.{SyncHeaders, height?, get_query_context}
use yui_relayer.Strategy.Timeouts.{
  Clock, Split, classify, read_clock, clock_for, no_clock, process_timeout_packets,
}
use yui_relayer.Strategy.Sorting.{Classified, classify-Classified}

-- The four values are what the chain answered, at the finalized height of the headers.
pub data ClockOf {W : Type 0} (sh : SyncHeaders) (chain : ProvableChain W)
    : List PacketInfo → Clock → Type 0 where
  not_read : ClockOf sh chain [] no_clock
  read :
      {ps : List PacketInfo} {clock : Clock}
      → Answered chain.latest_height clock.latest_height
      → Answered (chain.timestamp clock.latest_height) clock.latest_timestamp
      → height? (sh chain.chain_id) ≡ some clock.finalized_height
      → Answered (chain.timestamp clock.finalized_height) clock.finalized_timestamp
      → ClockOf sh chain ps clock

Returns-present :
    {W A B : Type 0} (Q : B → Type 0) (f : A → Action W B) (o : Option A) (w : W)
    → ((a : A) → o ≡ some a → Returns Q (f a w))
    → Returns Q ((or_crash o >>= f) w)
Returns-present Q f none w h = tt
Returns-present Q f (some a) w h = h a refl

module _ {W : Type 0} (sh : SyncHeaders) where
  read_clock-ClockOf :
      (chain : ProvableChain W) (ps : List PacketInfo) (w : W)
      → Returns (ClockOf sh chain ps) (read_clock sh chain w)
  unfolding read_clock get_query_context
  read_clock-ClockOf chain ps w =
      Returns-asked (ClockOf sh chain ps) _ (chain.latest_height w) (λ h w1 e1.
        Returns-asked (ClockOf sh chain ps) _ (chain.timestamp h w1) (λ t w2 e2.
          Returns-present (ClockOf sh chain ps) _ (height? (sh chain.chain_id)) w2 (λ fh e3.
            Returns-asked (ClockOf sh chain ps) _ (chain.timestamp fh w2)
              (λ ft w4 e4. read (w, w1, e1) (w1, w2, e2) e3 (w2, w4, e4)))))

  clock_for-ClockOf :
      (chain : ProvableChain W) (ps : List PacketInfo) (w : W)
      → Returns (ClockOf sh chain ps) (clock_for sh chain ps w)
  unfolding clock_for
  clock_for-ClockOf chain [] w = not_read
  clock_for-ClockOf chain (p ∷ ps) w = read_clock-ClockOf chain (p ∷ ps) w

  -- The packets of one chain have been divided by the clock of the other.
  abbrev pub Judged :
      Functions → ProvableChain W → ProvableChain W → List PacketInfo → Split → Type 0
  Judged ibc own other ps s =
      (clock : Clock) × ClockOf sh other ps clock
      × Classified ibc other clock (is_ordered (get_order own.path)) ps s

  -- For every pair of chains in every state: if ProcessTimeoutPackets returns, then the packets of
  -- either chain are divided by what the other chain answered for its latest height and for the
  -- height of its finalized header. If the chain's path is not ordered, each packet is relayed, timed
  -- out or left for later by its fate, in the old order. If it is ordered, the longest prefix of
  -- packets that have not timed out is relayed and nothing times out; or the first packet alone times
  -- out, nothing is relayed, the packet has expired at the finalized height, and the other chain has
  -- answered that it waits for that packet's sequence.
  pub process_timeout_packets-Judged :
      (ibc : Functions) (src dst : ProvableChain W) (rp : RelayPackets) (w : W)
      → Returns
          (λ out.
            Judged ibc src dst rp.src (out.src, out.src_timeout)
            × Judged ibc dst src rp.dst (out.dst, out.dst_timeout))
          (process_timeout_packets ibc src dst sh rp w)
  unfolding process_timeout_packets
  process_timeout_packets-Judged ibc src dst rp w =
      let P : RelayPackets → Type 0 = (λ out.
        Judged ibc src dst rp.src (out.src, out.src_timeout)
        × Judged ibc dst src rp.dst (out.dst, out.dst_timeout)) in
      let src_order = is_ordered (get_order src.path) in
      let dst_order = is_ordered (get_order dst.path) in
      Returns-then P (ClockOf sh dst rp.src) _ (clock_for sh dst rp.src w)
        (clock_for-ClockOf dst rp.src w)
        (λ dst_clock w1 c1.
          Returns-then P (ClockOf sh src rp.dst) _ (clock_for sh src rp.dst w1)
            (clock_for-ClockOf src rp.dst w1)
            (λ src_clock w2 c2.
              Returns-then P (Classified ibc dst dst_clock src_order rp.src) _
                (classify ibc dst src_order dst_clock 0 rp.src w2)
                (classify-Classified ibc dst dst_clock src_order rp.src w2)
                (λ s w3 d1.
                  Returns-then P (Classified ibc src src_clock dst_order rp.dst) _
                    (classify ibc src dst_order src_clock 0 rp.dst w3)
                    (classify-Classified ibc src src_clock dst_order rp.dst w3)
                    (λ d w4 d2. ((dst_clock, c1, d1), (src_clock, c2, d2))))))
