-- ===== src/Strategy/Timeouts.antt =====
-- `ProcessTimeoutPackets` of core/naive-strategy.go. The two loops, for the packets of src and for
-- those of dst, are the same with the chains exchanged: `classify` is that loop.
use yui_relayer.Base.{
  ℕ, ◌+◌, Bool, not, ◌&&◌, ◌||◌, List, [], ◌∷◌, ◌==◌, leb, is_empty, if◌then◌else◌, Outcome, ok,
  err, panic, Action, pure, ◌>>=◌,
}
use yui_relayer.Ibc.{Height, zero_height, Functions}
use yui_relayer.PathEnd.{get_order, is_ordered}
use yui_relayer.Packet.{PacketInfo, RelayPackets}
use yui_relayer.Chain.{ProvableChain}
use yui_relayer.Headers.{SyncHeaders, get_query_context}

-- The heights and times of one chain.
pub record Clock : Type 0 where
  pub latest_height : Height
  pub latest_timestamp : ℕ
  pub finalized_height : Height
  pub finalized_timestamp : ℕ

abbrev pub no_clock : Clock
no_clock = record {
  latest_height = zero_height;
  latest_timestamp = 0;
  finalized_height = zero_height;
  finalized_timestamp = 0;
}

-- The closure `isTimeout`.
unfoldable pub is_timeout : Functions → PacketInfo → Height → ℕ → Bool
is_timeout ibc p height timestamp =
    (not (ibc.is_zero p.packet.timeout_height) && ibc.lte p.packet.timeout_height height)
    || (not (p.packet.timeout_timestamp == 0) && leb p.packet.timeout_timestamp timestamp)

-- How a packet stands: timed out at the finalized height, or only at the latest one, or not at all.
pub data Fate : Type 0 where
  expired expiring live : Fate

unfoldable pub fate : Functions → Clock → PacketInfo → Fate
unfolding is_timeout
fate ibc clock p =
    if is_timeout ibc p clock.finalized_height clock.finalized_timestamp
    then expired
    else if is_timeout ibc p clock.latest_height clock.latest_timestamp
    then expiring
    else live

abbrev pub Split : Type 0
Split = List PacketInfo × List PacketInfo

abbrev pub keep : PacketInfo → Split → Split
keep p (relay, timeout) = (p ∷ relay, timeout)

abbrev pub time_out : PacketInfo → Split → Split
time_out p (relay, timeout) = (relay, p ∷ timeout)

-- The first packet of an ordered channel has timed out: it is selected if the counterparty waits
-- for it. An error of the query is logged and selects nothing.
unfoldable pub select_first : {W : Type 0} → PacketInfo → Outcome ℕ × W → Outcome Split × W
select_first p (ok next, w) = (ok ([], if next == p.packet.sequence then p ∷ [] else []), w)
select_first p (err e, w) = (ok ([], []), w)
select_first p (panic, w) = (panic, w)

module _ {W : Type 0} (ibc : Functions) (other : ProvableChain W) (order : Bool)
    (clock : Clock) where
  -- One pass of the loop's body; `rest` is the loop from the next packet on, and a result without it
  -- is a `break`. `order` tells whether the channel is ordered.
  unfoldable pub classify_one : ℕ → PacketInfo → Action W Split → Fate → Action W Split
  unfolding select_first
  classify_one i p rest expired w =
      if order
      then if i == 0
        then select_first p (other.query_next_sequence_receive clock.finalized_height w)
        else pure ([], []) w
      else (rest >>= λ s. pure (time_out p s)) w
  classify_one i p rest expiring w = if order then pure ([], []) w else rest w
  classify_one i p rest live w = (rest >>= λ s. pure (keep p s)) w

  unfoldable pub classify : ℕ → List PacketInfo → Action W Split
  unfolding classify_one fate
  classify i [] w = (ok ([], []), w)
  classify i (p ∷ ps) w = classify_one i p (classify (i + 1) ps) (fate ibc clock p) w

module _ {W : Type 0} where
  -- The heights and times of the chain that would receive `packets`; they are not read when there
  -- are none.
  unfoldable pub read_clock : SyncHeaders → ProvableChain W → Action W Clock
  unfolding get_query_context
  read_clock sh chain = do
    latest ← chain.latest_height
    latest_time ← chain.timestamp latest
    finalized ← get_query_context sh chain.chain_id
    finalized_time ← chain.timestamp finalized
    pure (record {
      latest_height = latest;
      latest_timestamp = latest_time;
      finalized_height = finalized;
      finalized_timestamp = finalized_time;
    })

  unfoldable pub clock_for : SyncHeaders → ProvableChain W → List PacketInfo → Action W Clock
  unfolding read_clock
  clock_for sh chain packets = if is_empty packets then pure no_clock else read_clock sh chain

  -- NaiveStrategy.ProcessTimeoutPackets, which here returns the updated packets
  unfoldable pub process_timeout_packets :
      Functions
      → ProvableChain W
      → ProvableChain W
      → SyncHeaders
      → RelayPackets
      → Action W RelayPackets
  unfolding clock_for classify get_order
  process_timeout_packets ibc src dst sh rp = do
    dst_clock ← clock_for sh dst rp.src
    src_clock ← clock_for sh src rp.dst
    (src_relay, src_timeout) ← classify ibc dst (is_ordered (get_order src.path)) dst_clock 0 rp.src
    (dst_relay, dst_timeout) ← classify ibc src (is_ordered (get_order dst.path)) src_clock 0 rp.dst
    pure (record {
      src = src_relay;
      dst = dst_relay;
      src_timeout = src_timeout;
      dst_timeout = dst_timeout;
    })
