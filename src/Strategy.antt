-- ===== src/Strategy.antt =====
-- core/naive-strategy.go, the relay strategy: `Unrelayed` finds the packets and acknowledgements to
-- relay, `Timeouts` takes out those that have timed out, `Relay` builds the messages. Metrics,
-- traces and logs are left out.
pub mod Timeouts
pub mod Classified
pub mod Sorting
pub mod Unrelayed
pub mod Relay
use yui_relayer.Base.{ℕ, Bool, if◌then◌else◌, Action, ◌>>=◌, ◌>>◌}
use yui_relayer.Ibc.{Height}
use yui_relayer.Chain.{ProvableChain}
use yui_relayer.Headers.{SyncHeaders, get_query_context}

-- NaiveStrategy, without its metrics; nothing reads `Ordered`
pub record NaiveStrategy : Type 0 where
  pub is_ordered : Bool
  pub max_tx_size : ℕ
  pub max_msg_length : ℕ
  pub src_no_ack : Bool
  pub dst_no_ack : Bool

module _ {W : Type 0} where
  -- NaiveStrategy.SetupRelay
  unfoldable pub setup_relay : ProvableChain W → ProvableChain W → Action W (Unit {0})
  setup_relay src dst = do src.setup_for_relay; dst.setup_for_relay

  -- getQueryContext
  unfoldable pub query_context : ProvableChain W → SyncHeaders → Bool → Action W Height
  unfolding get_query_context
  query_context chain sh use_finalized_header =
      if use_finalized_header then get_query_context sh chain.chain_id else chain.latest_height
