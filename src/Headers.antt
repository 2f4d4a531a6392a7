-- ===== src/Headers.antt =====
-- core/headers.go: the latest finalized headers of both chains. `sh` is the map from a chain id to
-- its header; a missing or nil header is `none`. The block metrics are not modelled.
pub mod Laws
use yui_relayer.Base.{
  String, List, Option, none, some, str_eq, if◌then◌else◌, Action, Outcome, ok, err, message, pure,
  fail, or_crash, ◌>>=◌, ◌>>◌,
}
use yui_relayer.Ibc.{Height, Header}
use yui_relayer.Chain.{ProvableChain}

abbrev pub SyncHeaders : Type 0
SyncHeaders = String → Option Header

-- `sh.latestFinalizedHeaders[chainID] = header`
unfoldable pub put : SyncHeaders → String → Header → SyncHeaders
put sh chain_id header = λ id. if str_eq id chain_id then some header else sh id

abbrev pub height? : Option Header → Option Height
height? none = none
height? (some h) = some h.height

-- syncHeaders.GetQueryContext: a nil header has no height, and the call panics.
unfoldable pub get_query_context : {W : Type 0} → SyncHeaders → String → Action W Height
get_query_context sh chain_id = or_crash (height? (sh chain_id))

module _ {W : Type 0} where
  -- ensureDifferentChains
  unfoldable pub ensure_different_chains : ProvableChain W → ProvableChain W → Action W (Unit {0})
  ensure_different_chains src dst =
      if str_eq src.chain_id dst.chain_id
      then fail (message "the two chains are probably the same")
      else pure tt

  -- syncHeaders.Updates: the headers are written only when both chains have answered.
  unfoldable pub updates : ProvableChain W → ProvableChain W → SyncHeaders → Action W SyncHeaders
  unfolding ensure_different_chains put
  updates src dst sh = do
    ensure_different_chains src dst
    src_header ← src.get_latest_finalized_header
    dst_header ← dst.get_latest_finalized_header
    pure (put (put sh src.chain_id src_header) dst.chain_id dst_header)

  -- NewSyncHeaders
  unfoldable pub new_sync_headers : ProvableChain W → ProvableChain W → Action W SyncHeaders
  unfolding ensure_different_chains updates
  new_sync_headers src dst = do ensure_different_chains src dst; updates src dst (λ id. none)

  -- syncHeaders.SetupHeadersForUpdate: the headers of `src` that update its client on `dst`
  unfoldable pub setup_headers_for_update :
      ProvableChain W → ProvableChain W → SyncHeaders → Action W (List Header)
  unfolding ensure_different_chains
  setup_headers_for_update src dst sh = do
    ensure_different_chains src dst
    src.setup_headers_for_update dst.chain_id (sh src.chain_id)

  -- syncHeaders.SetupBothHeadersForUpdate
  unfoldable pub setup_both_headers_for_update :
      ProvableChain W → ProvableChain W → SyncHeaders → Action W (List Header × List Header)
  unfolding setup_headers_for_update
  setup_both_headers_for_update src dst sh = do
    src_hs ← setup_headers_for_update src dst sh
    dst_hs ← setup_headers_for_update dst src sh
    pure (src_hs, dst_hs)
