-- ===== src/Query/Settled.antt =====
-- The settlement checks: a pair of ends is settled if both chains answer the same at the latest
-- finalized height and at the latest height. The two heights are queried one after the other.
use yui_relayer.Base.{
  Bool, true, false, Option, none, some, str_eq, if◌then◌else◌, Action, pure, ◌>>=◌,
}
use yui_relayer.Ibc.{Height, ConnectionEnd, Channel, Upgrade, Response, Functions}
use yui_relayer.Chain.{ProvableChain}
use yui_relayer.Query.{query_connection_pair, query_channel_pair, query_channel_upgrade_pair}

-- compareUpgrades
unfoldable pub compare_upgrades :
    Functions → Option (Response Upgrade) → Option (Response Upgrade) → Bool
compare_upgrades ibc none none = true
compare_upgrades ibc none (some b) = false
compare_upgrades ibc (some a) none = false
compare_upgrades ibc (some a) (some b) =
    str_eq (ibc.upgrade_string a.value) (ibc.upgrade_string b.value)

module _ {W : Type 0} (ibc : Functions) (src_ctx dst_ctx : Height) (src dst : ProvableChain W) where
  -- querySettledConnectionPair
  unfoldable pub query_settled_connection_pair :
      Action W (Response ConnectionEnd × Response ConnectionEnd × Bool)
  unfolding query_connection_pair
  query_settled_connection_pair = do
    (src_conn, dst_conn) ← query_connection_pair src_ctx dst_ctx src dst
    src_latest ← src.latest_height
    dst_latest ← dst.latest_height
    (src_now, dst_now) ← query_connection_pair src_latest dst_latest src dst
    pure (
      src_conn,
      dst_conn,
      if str_eq (ibc.connection_string src_conn.value) (ibc.connection_string src_now.value)
          then str_eq (ibc.connection_string dst_conn.value) (ibc.connection_string dst_now.value)
          else false,
    )

  -- querySettledChannelPair
  unfoldable pub query_settled_channel_pair : Action W (Response Channel × Response Channel × Bool)
  unfolding query_channel_pair
  query_settled_channel_pair = do
    (src_chan, dst_chan) ← query_channel_pair src_ctx dst_ctx src dst
    src_latest ← src.latest_height
    dst_latest ← dst.latest_height
    (src_now, dst_now) ← query_channel_pair src_latest dst_latest src dst
    pure (
      src_chan,
      dst_chan,
      if str_eq (ibc.channel_string src_chan.value) (ibc.channel_string src_now.value)
          then str_eq (ibc.channel_string dst_chan.value) (ibc.channel_string dst_now.value)
          else false,
    )

  -- querySettledChannelUpgradePair
  unfoldable pub query_settled_channel_upgrade_pair :
      Action W (Option (Response Upgrade) × Option (Response Upgrade) × Bool)
  unfolding query_channel_upgrade_pair compare_upgrades
  query_settled_channel_upgrade_pair = do
    (src_upg, dst_upg) ← query_channel_upgrade_pair src_ctx dst_ctx src dst
    src_latest ← src.latest_height
    dst_latest ← dst.latest_height
    (src_now, dst_now) ← query_channel_upgrade_pair src_latest dst_latest src dst
    pure (
      src_upg,
      dst_upg,
      if compare_upgrades ibc src_upg src_now then compare_upgrades ibc dst_upg dst_now else false,
    )
