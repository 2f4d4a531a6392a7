-- ===== src/Upgrade/Step.antt =====
-- `upgradeChannelStep` of core/channel-upgrade.go around the decision of `Actions`: the checks before
-- it, and the messages after it. The closure that is retried appends to `out`, which stands beside
-- the world: what an attempt appended before it failed stays.
use yui_relayer.Base.{
  Bool, true, false, List, [], ◌∷◌, ◌++◌, Option, none, some, not, ◌&&◌, ◌||◌, if◌then◌else◌,
  Action, Outcome, ok, err, panic, pure, lift, must, beside, both, ◌>>=◌, ◌>>◌,
}
use yui_relayer.Ibc.{Height, Channel, Upgrade, Response, Functions}
use yui_relayer.Msg.{Msg}
use yui_relayer.Chain.{ProvableChain}
use yui_relayer.Query.Settled.{query_settled_channel_pair, query_settled_channel_upgrade_pair}
use yui_relayer.Headers.{SyncHeaders, new_sync_headers, get_query_context, setup_headers_for_update}
use yui_relayer.RelayMsgs.{RelayMsgs, new_relay_msgs}
use yui_relayer.Loop.{Retry}
use yui_relayer.Handshake.{Side, src_side, dst_side, validate_paths, client_updates}
use yui_relayer.Upgrade.States.{
  UpgradeState, uninit, init, flushing, flushcomplete, UpgradeAction, no_action, new_upgrade_state,
}
use yui_relayer.Upgrade.Actions.{End, next_actions}
use yui_relayer.Upgrade.Messages.{build_action_msg}

abbrev pub is_uninit : UpgradeState → Bool
is_uninit uninit = true
is_uninit _ = false

abbrev pub state_eq : UpgradeState → UpgradeState → Bool
state_eq uninit uninit = true
state_eq init init = true
state_eq flushing flushing = true
state_eq flushcomplete flushcomplete = true
state_eq _ _ = false

abbrev pub acts : UpgradeAction → Bool
acts no_action = false
acts _ = true

-- Both chains have reached the target states, or UNINIT after the first call.
unfoldable pub reached : Bool → UpgradeState → UpgradeState → UpgradeState → UpgradeState → Bool
reached first_call target_src target_dst src dst =
    (not first_call && is_uninit src && is_uninit dst)
    || (not (is_uninit src)
        && not (is_uninit dst)
        && state_eq src target_src
        && state_eq dst target_dst)

-- `upg != nil`
abbrev pub exists : Option (Response Upgrade) → Bool
exists none = false
exists (some upg) = true

-- `out.Src = append(out.Src, msgs...)`, and the same for dst
unfoldable pub append : Side → List Msg → RelayMsgs → RelayMsgs
append src_side msgs r = record r { src = r.src ++ msgs }
append dst_side msgs r = record r { dst = r.dst ++ msgs }

abbrev pub append_out : {W : Type 0} → Side → List Msg → Action (W × RelayMsgs) (Unit {0})
append_out side msgs (w, r) = (ok tt, (w, append side msgs r))

-- `out` after the retries.
abbrev pub kept :
    {W : Type 0} → Outcome (Unit {0} × Unit {0}) × (W × RelayMsgs) → Outcome RelayMsgs × W
kept (ok a, (w, r)) = (ok r, w)
kept (err e, (w, r)) = (err e, w)
kept (panic, (w, r)) = (panic, w)

module _ {W : Type 0} (ibc : Functions) where
  -- One goroutine: the chain `self` acts, with proofs of `cp`.
  unfoldable pub act_on :
      SyncHeaders → Side → UpgradeAction → End W → End W → Action (W × RelayMsgs) (Unit {0})
  unfolding setup_headers_for_update client_updates build_action_msg append
  act_on sh side action self cp = do
    addr ← beside (must self.chain.get_address_string)
    headers ← beside (setup_headers_for_update cp.chain self.chain sh)
    updates ← beside (client_updates self.chain headers addr)
    append_out side updates
    msg ← beside (build_action_msg ibc self action addr cp)
    append_out side (msg ∷ [])

  unfoldable pub act_if :
      SyncHeaders → Side → UpgradeAction → End W → End W → Action (W × RelayMsgs) (Unit {0})
  unfolding act_on
  act_if sh side action self cp = if acts action then act_on sh side action self cp else pure tt

  -- The closure that is retried.
  unfoldable pub act_both :
      SyncHeaders
      → UpgradeAction
      → UpgradeAction
      → End W
      → End W
      → Action (W × RelayMsgs) (Unit {0} × Unit {0})
  unfolding act_if
  act_both sh src_action dst_action src dst =
      both (act_if sh src_side src_action src dst) (act_if sh dst_side dst_action dst src)

  module _ (retry : Retry) where
    unfoldable pub upgrade_msgs :
        SyncHeaders → End W → End W → UpgradeAction × UpgradeAction → Action W RelayMsgs
    unfolding act_both new_relay_msgs
    upgrade_msgs sh src dst (a, b) w =
        kept (retry.run (W × RelayMsgs) (Unit × Unit) (act_both sh a b src dst) (w, new_relay_msgs))

    -- The decision, and the messages for it.
    unfoldable pub upgrade_act :
        SyncHeaders → UpgradeState → UpgradeState → End W → End W → Action W RelayMsgs
    unfolding next_actions upgrade_msgs
    upgrade_act sh src_state dst_state src dst = do
      actions ← next_actions ibc src_state dst_state src dst
      upgrade_msgs sh src dst actions

    -- From the two settled ends on.
    unfoldable pub upgrade_ends :
        SyncHeaders → UpgradeState → UpgradeState → Bool → End W → End W → Action W RelayMsgs
    unfolding new_upgrade_state reached new_relay_msgs upgrade_act
    upgrade_ends sh target_src target_dst first_call src dst = do
      src_state ← lift (new_upgrade_state src.chan.value.state (exists src.upgrade))
      dst_state ← lift (new_upgrade_state dst.chan.value.state (exists dst.upgrade))
      let done = reached first_call target_src target_dst src_state dst_state
      let finished = record new_relay_msgs { last = true }
      if done then pure finished else upgrade_act sh src_state dst_state src dst

    unfoldable pub upgrade_channels :
        SyncHeaders
        → UpgradeState
        → UpgradeState
        → Bool
        → Height
        → Height
        → ProvableChain W
        → ProvableChain W
        → Response Channel
        → Response Channel
        → Action W RelayMsgs
    unfolding query_settled_channel_upgrade_pair upgrade_ends new_relay_msgs
    upgrade_channels sh target_src target_dst first_call src_ctx dst_ctx src dst src_chan dst_chan =
        do
          (src_upg, dst_upg, settled) ←
              query_settled_channel_upgrade_pair ibc src_ctx dst_ctx src dst
          let s : End W = record { chain = src; ctx = src_ctx; chan = src_chan; upgrade = src_upg }
          let d : End W = record { chain = dst; ctx = dst_ctx; chan = dst_chan; upgrade = dst_upg }
          if settled
              then upgrade_ends sh target_src target_dst first_call s d
              else pure new_relay_msgs

    -- upgradeChannelStep: nothing is sent while either pair is not settled.
    unfoldable pub upgrade_channel_step :
        UpgradeState → UpgradeState → ProvableChain W → ProvableChain W → Bool → Action W RelayMsgs
    unfolding validate_paths new_sync_headers get_query_context query_settled_channel_pair
        upgrade_channels new_relay_msgs
    upgrade_channel_step target_src target_dst src dst first_call = do
      validate_paths ibc src dst
      sh ← new_sync_headers src dst
      src_ctx ← get_query_context sh src.chain_id
      dst_ctx ← get_query_context sh dst.chain_id
      (src_chan, dst_chan, settled) ← query_settled_channel_pair ibc src_ctx dst_ctx src dst
      if settled
          then upgrade_channels sh target_src target_dst first_call src_ctx dst_ctx src dst src_chan
              dst_chan
          else pure new_relay_msgs
