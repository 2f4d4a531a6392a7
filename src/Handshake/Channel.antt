-- ===== src/Handshake/Channel.antt =====
-- core/channel.go: one step of the channel handshake. The two goroutines of the proofs are run for
-- one side only, since a step acts on one chain.
use yui_relayer.Base.{
  String, Bool, true, List, [], ◌∷◌, ◌++◌, Option, none, some, ◌&&◌, not, str_eq, if◌then◌else◌,
  Action, Outcome, message, pure, or_crash, must, ◌>>=◌, ◌>>◌,
}
use yui_relayer.Ibc.{Height, Header, Channel, Response, Functions}
use yui_relayer.Ibc.ChannelStates.{
  ChannelState, uninitialized, init, tryopen, opened, is_uninitialized, is_opened,
}
use yui_relayer.PathEnd.Messages.{chan_init, chan_try, chan_ack, chan_confirm}
use yui_relayer.Msg.{Msg}
use yui_relayer.Chain.{ProvableChain}
use yui_relayer.Query.{prove_channel}
use yui_relayer.Query.Settled.{query_settled_channel_pair}
use yui_relayer.Headers.{SyncHeaders, new_sync_headers, get_query_context, setup_headers_for_update}
use yui_relayer.RelayMsgs.{RelayMsgs, new_relay_msgs}
use yui_relayer.Loop.{Retry}
use yui_relayer.Handshake.{
  Side, src_side, dst_side, Step, open_init, open_try, open_ack, open_confirm, is_confirm,
  validate_paths, client_updates,
}

-- The `getState` of checkChannelCreateReady.
unfoldable pub channel_state : {W : Type 0} → ProvableChain W → Action W ChannelState
channel_state chain =
    if str_eq chain.path.channel_id ""
    then pure uninitialized
    else chain.latest_height >>= λ height.
        chain.query_channel height >>= λ res. pure res.value.state

-- The end of checkChannelCreateReady, for the states that were found.
unfoldable pub channel_ready : String → String → ChannelState → ChannelState → Outcome Bool
channel_ready src_id dst_id src dst =
    if not (str_eq src_id "") && is_uninitialized src
    then Outcome.err (message "src channel id is given but that channel does not exist")
    else if not (str_eq dst_id "") && is_uninitialized dst
    then Outcome.err (message "dst channel id is given but that channel does not exist")
    else Outcome.ok (not (is_opened src && is_opened dst))

-- checkChannelCreateReady
unfoldable pub check_channel_create_ready :
    {W : Type 0} → ProvableChain W → ProvableChain W → Action W Bool
unfolding channel_state channel_ready
check_channel_create_ready src dst =
    let src_id = src.path.channel_id in
    let dst_id = dst.path.channel_id in
    if str_eq src_id "" && str_eq dst_id ""
    then pure true
    else channel_state src >>= λ s.
        channel_state dst >>= λ d. λ w. (channel_ready src_id dst_id s d, w)

-- The `switch` of createChannelStep; `none` is its panic.
unfoldable pub channel_move : ChannelState → ChannelState → Option (Side × Step)
channel_move uninitialized uninitialized = some (src_side, open_init)
channel_move uninitialized init = some (src_side, open_try)
channel_move init uninitialized = some (dst_side, open_try)
channel_move tryopen init = some (dst_side, open_ack)
channel_move init tryopen = some (src_side, open_ack)
channel_move tryopen opened = some (src_side, open_confirm)
channel_move opened tryopen = some (dst_side, open_confirm)
channel_move _ _ = none

-- createChannelFutureProofs
pub record FutureProofs : Type 0 where
  pub update_headers : List Header
  pub chan_res : Response Channel

module _ {W : Type 0} (ibc : Functions) where
  abbrev pub resolve_channel :
      Height → ProvableChain W → Response Channel → Action W (Response Channel)
  resolve_channel ctx from res =
      if is_uninitialized res.value.state then pure res else prove_channel ibc ctx from res

  -- resolveCreateChannelFutureProofs
  unfoldable pub resolve_create_channel_future_proofs :
      SyncHeaders → ProvableChain W → ProvableChain W → Response Channel → Action W FutureProofs
  unfolding get_query_context setup_headers_for_update prove_channel
  resolve_create_channel_future_proofs sh from to res = do
    ctx ← get_query_context sh from.chain_id
    headers ← setup_headers_for_update from to sh
    chan_res ← resolve_channel ctx from res
    pure (record { update_headers = headers; chan_res = chan_res })

  -- The messages of a step for the chain `to`, with the proofs of `from`. ChanOpenInit needs no
  -- client update.
  unfoldable pub channel_step_msgs :
      Step → ProvableChain W → ProvableChain W → FutureProofs → String → Action W (List Msg)
  unfolding client_updates chan_init chan_try chan_ack chan_confirm
  channel_step_msgs open_init from to proofs addr = pure (chan_init to.path from.path addr ∷ [])
  channel_step_msgs open_try from to proofs addr = do
    updates ← client_updates to proofs.update_headers addr
    pure (updates ++ chan_try to.path from.path proofs.chan_res addr ∷ [])
  channel_step_msgs open_ack from to proofs addr = do
    updates ← client_updates to proofs.update_headers addr
    pure (updates ++ chan_ack to.path from.path proofs.chan_res addr ∷ [])
  channel_step_msgs open_confirm from to proofs addr = do
    updates ← client_updates to proofs.update_headers addr
    pure (updates ++ chan_confirm to.path proofs.chan_res addr ∷ [])

  module _ (retry : Retry) where
    unfoldable pub channel_msgs :
        SyncHeaders
        → ProvableChain W
        → ProvableChain W
        → Response Channel
        → Step
        → Action W (List Msg)
    unfolding resolve_create_channel_future_proofs channel_step_msgs
    channel_msgs sh from to res step = do
      proofs ← retry.run W FutureProofs (resolve_create_channel_future_proofs sh from to res)
      addr ← must to.get_address_string
      channel_step_msgs step from to proofs addr

    unfoldable pub channel_side :
        SyncHeaders
        → ProvableChain W
        → ProvableChain W
        → Response Channel
        → Response Channel
        → Side × Step
        → Action W RelayMsgs
    unfolding channel_msgs new_relay_msgs
    channel_side sh src dst src_chan dst_chan (src_side, step) = do
      msgs ← channel_msgs sh dst src dst_chan step
      pure (record new_relay_msgs { src = msgs; last = is_confirm step })
    channel_side sh src dst src_chan dst_chan (dst_side, step) = do
      msgs ← channel_msgs sh src dst src_chan step
      pure (record new_relay_msgs { dst = msgs; last = is_confirm step })

    unfoldable pub channel_round :
        SyncHeaders
        → ProvableChain W
        → ProvableChain W
        → Response Channel
        → Response Channel
        → Action W RelayMsgs
    unfolding channel_move channel_side
    channel_round sh src dst src_chan dst_chan = do
      move ← or_crash (channel_move src_chan.value.state dst_chan.value.state)
      channel_side sh src dst src_chan dst_chan move

    -- createChannelStep: nothing is sent while the pair of ends is not settled.
    unfoldable pub create_channel_step : ProvableChain W → ProvableChain W → Action W RelayMsgs
    unfolding validate_paths new_sync_headers get_query_context query_settled_channel_pair
        channel_round new_relay_msgs
    create_channel_step src dst = do
      validate_paths ibc src dst
      sh ← new_sync_headers src dst
      src_ctx ← get_query_context sh src.chain_id
      dst_ctx ← get_query_context sh dst.chain_id
      (src_chan, dst_chan, settled) ← query_settled_channel_pair ibc src_ctx dst_ctx src dst
      if settled then channel_round sh src dst src_chan dst_chan else pure new_relay_msgs
