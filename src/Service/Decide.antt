-- ===== src/Service/Decide.antt =====
-- `shouldExecuteRelay` of core/service.go: whether the packets found are worth a round of messages.
-- Times and intervals are in nanoseconds; `clock` is the wall clock that `time.Since` reads.
use yui_relayer.Base.{
  ℕ, ◌+◌, Bool, false, ◌||◌, List, [], ◌∷◌, leb, length, Outcome, ok, err, panic, Action, pure,
  ◌>>=◌,
}
use yui_relayer.Packet.{PacketInfo, RelayPackets}
use yui_relayer.Chain.{ProvableChain}

-- OptimizeRelay
pub record OptimizeRelay : Type 0 where
  pub src_optimize_interval : ℕ
  pub src_optimize_count : ℕ
  pub dst_optimize_interval : ℕ
  pub dst_optimize_count : ℕ

module _ {W : Type 0} (clock : Action W ℕ) where
  -- `time.Since(timestamp) >= interval`, for the timestamp of the oldest packet's block
  unfoldable pub is_old : ProvableChain W → List PacketInfo → ℕ → Action W Bool
  is_old chain [] interval = pure false
  is_old chain (p ∷ ps) interval = do
    timestamp ← chain.timestamp p.event_height
    now ← clock
    pure (leb (timestamp + interval) now)

  -- An error of a timestamp query gives `false` for both chains.
  abbrev pub none_on_error : Outcome (Bool × Bool) × W → Outcome (Bool × Bool) × W
  none_on_error (ok d, w) = (ok d, w)
  none_on_error (err e, w) = (ok (false, false), w)
  none_on_error (panic, w) = (panic, w)

  unfoldable pub decisions :
      ProvableChain W → ProvableChain W → OptimizeRelay → RelayPackets → Action W (Bool × Bool)
  unfolding is_old
  decisions src dst o seqs = do
    dst_old ← is_old src seqs.src o.dst_optimize_interval
    src_old ← is_old dst seqs.dst o.src_optimize_interval
    pure (
      src_old || leb o.src_optimize_count (length seqs.dst),
      dst_old || leb o.dst_optimize_count (length seqs.src),
    )

  -- shouldExecuteRelay
  unfoldable pub should_execute_relay :
      ProvableChain W → ProvableChain W → OptimizeRelay → RelayPackets → Action W (Bool × Bool)
  unfolding decisions
  should_execute_relay src dst o seqs w = none_on_error (decisions src dst o seqs w)
