-- ===== src/Upgrade/Observed.antt =====
-- What a step of the channel upgrade has seen of the two chains, and what it gives to send for that
-- (upgradeChannelStep of core/channel-upgrade.go).
use yui_relayer.Base.{Bool, true, false, Option, ◌≡◌, ok, Answered}
use yui_relayer.Ibc.{Height, Functions, Channel, Upgrade, Response}
use yui_relayer.Chain.{ProvableChain}
use yui_relayer.Query.{query_channel_end}
use yui_relayer.Query.Settled.{query_settled_channel_pair, query_settled_channel_upgrade_pair}
use yui_relayer.Headers.{SyncHeaders, new_sync_headers, get_query_context}
use yui_relayer.RelayMsgs.{RelayMsgs, ready}
use yui_relayer.Upgrade.States.{UpgradeState, UpgradeAction, new_upgrade_state}
use yui_relayer.Upgrade.Actions.{End, next_actions}
use yui_relayer.Upgrade.Permitted.{BothPermitted}
use yui_relayer.Upgrade.Step.{reached, exists}
use yui_relayer.Upgrade.Blocks.{Acted}

-- The heights that the chains are asked at: those of the headers that they have given.
pub record AtHeights {W : Type 0} (src dst : ProvableChain W) (src_ctx dst_ctx : Height)
    : Type 0 where
  pub sh : SyncHeaders
  pub headers_given : Answered (new_sync_headers src dst) sh
  pub src_height : Answered {W = W} (get_query_context sh src.chain_id) src_ctx
  pub dst_height : Answered {W = W} (get_query_context sh dst.chain_id) dst_ctx

-- The channels that the chains have answered, settled or not.
pub record Channels {W : Type 0} (ibc : Functions) (src dst : ProvableChain W)
    (src_ctx dst_ctx : Height) (src_chan dst_chan : Response Channel) (settled : Bool)
    : Type 0 where
  pub at_heights : AtHeights src dst src_ctx dst_ctx
  pub pair_answered :
      Answered
        (query_settled_channel_pair ibc src_ctx dst_ctx src dst)
        (src_chan, dst_chan, settled)
  pub src_answered : Answered (query_channel_end src_ctx src) src_chan
  pub dst_answered : Answered (query_channel_end dst_ctx dst) dst_chan

-- The same for their upgrades.
pub record Upgrades {W : Type 0} (ibc : Functions) (src dst : ProvableChain W)
    (src_ctx dst_ctx : Height) (src_upg dst_upg : Option (Response Upgrade)) (settled : Bool)
    : Type 0 where
  pub pair_answered :
      Answered
        (query_settled_channel_upgrade_pair ibc src_ctx dst_ctx src dst)
        (src_upg, dst_upg, settled)
  pub src_answered : Answered (src.query_channel_upgrade src_ctx) src_upg
  pub dst_answered : Answered (dst.query_channel_upgrade dst_ctx) dst_upg

-- The upgrade state of an end: that of its channel's state and of whether it has an upgrade.
abbrev pub InState : {W : Type 0} → End W → UpgradeState → Type 0
InState e s = new_upgrade_state e.chan.value.state (exists e.upgrade) ≡ ok s

-- From two settled ends on, in the states that they are in: both have reached the targets, and there is
-- nothing more to send; or it gives each chain the messages of the action that is decided for these
-- states and that is permitted in them.
pub data Decided {W : Type 0} (ibc : Functions) (target_src target_dst : UpgradeState)
    (first_call : Bool) (src dst : End W) : RelayMsgs → Type 0 where
  has_reached :
      {r : RelayMsgs} (s d : UpgradeState)
      → InState src s
      → InState dst d
      → reached first_call target_src target_dst s d ≡ true
      → ready r ≡ false
      → r.last ≡ true
      → Decided ibc target_src target_dst first_call src dst r
  acts_by :
      {r : RelayMsgs} (s d : UpgradeState) (a b : UpgradeAction)
      → InState src s
      → InState dst d
      → reached first_call target_src target_dst s d ≡ false
      → Answered (next_actions ibc s d src dst) (a, b)
      → BothPermitted s d (a, b)
      → Acted src.chain.path a r.src
      → Acted dst.chain.path b r.dst
      → r.last ≡ false
      → Decided ibc target_src target_dst first_call src dst r

-- A step has nothing to send yet, where the channels or the upgrades are not settled; or it is decided
-- from what the chains have answered.
pub data UpgradeRound {W : Type 0} (ibc : Functions) (target_src target_dst : UpgradeState)
    (first_call : Bool) (src dst : ProvableChain W) : RelayMsgs → Type 0 where
  channels_open :
      {r : RelayMsgs} {src_ctx dst_ctx : Height} {src_chan dst_chan : Response Channel}
      → Channels ibc src dst src_ctx dst_ctx src_chan dst_chan false
      → ready r ≡ false
      → r.last ≡ false
      → UpgradeRound ibc target_src target_dst first_call src dst r
  upgrades_open :
      {r : RelayMsgs} {src_ctx dst_ctx : Height} {src_chan dst_chan : Response Channel}
      {src_upg dst_upg : Option (Response Upgrade)}
      → Channels ibc src dst src_ctx dst_ctx src_chan dst_chan true
      → Upgrades ibc src dst src_ctx dst_ctx src_upg dst_upg false
      → ready r ≡ false
      → r.last ≡ false
      → UpgradeRound ibc target_src target_dst first_call src dst r
  is_decided :
      {r : RelayMsgs} {src_ctx dst_ctx : Height} {src_chan dst_chan : Response Channel}
      {src_upg dst_upg : Option (Response Upgrade)}
      → Channels ibc src dst src_ctx dst_ctx src_chan dst_chan true
      → Upgrades ibc src dst src_ctx dst_ctx src_upg dst_upg true
      → Decided ibc target_src target_dst first_call
          (record { chain = src; ctx = src_ctx; chan = src_chan; upgrade = src_upg })
          (record { chain = dst; ctx = dst_ctx; chan = dst_chan; upgrade = dst_upg })
          r
      → UpgradeRound ibc target_src target_dst first_call src dst r
