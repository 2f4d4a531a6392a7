-- ===== src/Handshake/Shape.antt =====
-- The messages that one step of a handshake sends (core/connection.go, core/channel.go).
use yui_relayer.Base.{
  String, Bool, true, false, List, [], ◌∷◌, ◌++◌, ◌≡◌, refl, All, if◌then◌else◌, ◌&&◌, Action,
  Returns, Returns-next, Returns-then, pure, or_crash, must, ◌>>=◌,
}
use yui_relayer.Ibc.{Bytes, Height, Header, ConnectionEnd, Channel, Response, Functions}
use yui_relayer.Ibc.ConnectionStates
use yui_relayer.PathEnd.{PathEnd}
use yui_relayer.PathEnd.Messages.{
  conn_init, conn_try, conn_ack, conn_confirm, chan_init, chan_try, chan_ack, chan_confirm,
}
use yui_relayer.Msg.{Msg}
use yui_relayer.Chain.{ProvableChain}
use yui_relayer.Query.Settled.{query_settled_connection_pair, query_settled_channel_pair}
use yui_relayer.Headers.{SyncHeaders, new_sync_headers, get_query_context}
use yui_relayer.RelayMsgs.{RelayMsgs, new_relay_msgs, ready}
use yui_relayer.Loop.{Retry}
use yui_relayer.Handshake.{
  Side, src_side, dst_side, Step, open_init, open_try, open_ack, open_confirm, validate_paths,
  client_updates,
}
use yui_relayer.Handshake.Connection
use yui_relayer.Handshake.Connection.{
  connection_msg, connection_msgs, connection_side, connection_round, connection_move,
  create_connection_step, query_clients, only_connections, resolve_create_connection_future_proofs,
}
use yui_relayer.Handshake.Channel
use yui_relayer.Handshake.Channel.{
  channel_step_msgs, channel_msgs, channel_side, channel_round, channel_move, create_channel_step,
  resolve_create_channel_future_proofs,
}
use yui_relayer.Handshake.Updates.{
  step_msgs, nothing_yet, to_src, to_dst, is_connection_msg, is_channel_msg, IsUpdateOf, StepMsgs,
  Round, client_updates-IsUpdateOf,
}

module _ {W : Type 0} where
  module _ (ibc : Functions) where
    connection_msg-is_connection_msg :
        (step : Step) (me other : PathEnd) (proofs : Connection.FutureProofs) (host : Bytes)
        (addr : String) (w : W)
        → Returns
            (λ msg. is_connection_msg step msg ≡ true)
            (connection_msg ibc step me other proofs host addr w)
    unfolding connection_msg conn_init conn_try conn_ack conn_confirm
    connection_msg-is_connection_msg open_init me other proofs host addr w = refl
    connection_msg-is_connection_msg open_try me other proofs host addr w =
        Returns-next _ _ (or_crash proofs.cs_res w) (λ cs_res w'.
          Returns-next _ _ (or_crash proofs.cons_res w') (λ cons_res w''.
            Returns-next _ _ (or_crash (ibc.unpack_client_state cs_res.value) w'') (λ cs w3. refl)))
    connection_msg-is_connection_msg open_ack me other proofs host addr w =
        Returns-next _ _ (or_crash proofs.cs_res w) (λ cs_res w'.
          Returns-next _ _ (or_crash proofs.cons_res w') (λ cons_res w''.
            Returns-next _ _ (or_crash (ibc.unpack_client_state cs_res.value) w'') (λ cs w3. refl)))
    connection_msg-is_connection_msg open_confirm me other proofs host addr w = refl

    updates-StepMsgs :
        (carries : Step → Msg → Bool) (step : Step) (to : ProvableChain W) (headers : List Header)
        (addr : String) (msg : Msg) (w : W)
        → carries step msg ≡ true
        → Returns
            (StepMsgs carries to.path step)
            ((client_updates to headers addr >>= λ us. pure (us ++ msg ∷ [])) w)
    updates-StepMsgs carries step to headers addr msg w h =
        Returns-then (StepMsgs carries to.path step) (All (IsUpdateOf to.path)) _
          (client_updates to headers addr w) (client_updates-IsUpdateOf to headers addr w)
          (λ us w' hs. step_msgs us msg hs h)

    channel_step_msgs-StepMsgs :
        (step : Step) (from to : ProvableChain W) (proofs : Channel.FutureProofs) (addr : String)
        (w : W)
        → Returns
            (StepMsgs is_channel_msg to.path step)
            (channel_step_msgs ibc step from to proofs addr w)
    unfolding channel_step_msgs chan_init chan_try chan_ack chan_confirm
    channel_step_msgs-StepMsgs open_init from to proofs addr w =
        step_msgs [] (chan_init to.path from.path addr) tt refl
    channel_step_msgs-StepMsgs open_try from to proofs addr w =
        updates-StepMsgs is_channel_msg open_try to proofs.update_headers addr
          (chan_try to.path from.path proofs.chan_res addr) w refl
    channel_step_msgs-StepMsgs open_ack from to proofs addr w =
        updates-StepMsgs is_channel_msg open_ack to proofs.update_headers addr
          (chan_ack to.path from.path proofs.chan_res addr) w refl
    channel_step_msgs-StepMsgs open_confirm from to proofs addr w =
        updates-StepMsgs is_channel_msg open_confirm to proofs.update_headers addr
          (chan_confirm to.path proofs.chan_res addr) w refl

    module _ (retry : Retry) where
      connection_msgs-StepMsgs :
          (sh : SyncHeaders) (from to : ProvableChain W) (proofs : Connection.FutureProofs)
          (host : Bytes) (step : Step) (w : W)
          → Returns
              (StepMsgs is_connection_msg to.path step)
              (connection_msgs ibc retry sh from to proofs host step w)
      unfolding connection_msgs
      connection_msgs-StepMsgs sh from to proofs host step w =
          Returns-next (StepMsgs is_connection_msg to.path step) _
            (retry.run W Connection.FutureProofs
              (resolve_create_connection_future_proofs ibc sh from to proofs) w)
            (λ p w1.
              Returns-next (StepMsgs is_connection_msg to.path step) _
                (must to.get_address_string w1)
                (λ addr w2.
                  Returns-then (StepMsgs is_connection_msg to.path step) (All (IsUpdateOf to.path))
                    _ (client_updates to p.update_headers addr w2)
                    (client_updates-IsUpdateOf to p.update_headers addr w2)
                    (λ us w3 hs.
                      Returns-then (StepMsgs is_connection_msg to.path step)
                        (λ msg. is_connection_msg step msg ≡ true) _
                        (connection_msg ibc step to.path from.path p host addr w3)
                        (connection_msg-is_connection_msg step to.path from.path p host addr w3)
                        (λ msg w4 h. step_msgs us msg hs h))))

      channel_msgs-StepMsgs :
          (sh : SyncHeaders) (from to : ProvableChain W) (res : Response Channel) (step : Step)
          (w : W)
          → Returns
              (StepMsgs is_channel_msg to.path step)
              (channel_msgs ibc retry sh from to res step w)
      unfolding channel_msgs
      channel_msgs-StepMsgs sh from to res step w =
          Returns-next (StepMsgs is_channel_msg to.path step) _
            (retry.run W Channel.FutureProofs
              (resolve_create_channel_future_proofs ibc sh from to res) w)
            (λ p w1.
              Returns-next (StepMsgs is_channel_msg to.path step) _ (must to.get_address_string w1)
                (λ addr w2. channel_step_msgs-StepMsgs step from to p addr w2))

      connection_side-Round :
          (sh : SyncHeaders) (src dst : ProvableChain W)
          (proofs : Connection.FutureProofs × Connection.FutureProofs × Bytes × Bytes)
          (move : Side × Step) (w : W)
          → Returns
              (Round is_connection_msg src dst)
              (connection_side ibc retry sh src dst proofs move w)
      unfolding connection_side new_relay_msgs
      connection_side-Round sh src dst (src_proofs, dst_proofs, src_host, dst_host) (src_side, step)
            w =
          Returns-then (Round is_connection_msg src dst) (StepMsgs is_connection_msg src.path step)
            _ (connection_msgs ibc retry sh dst src dst_proofs src_host step w)
            (connection_msgs-StepMsgs sh dst src dst_proofs src_host step w)
            (λ msgs w' h. to_src step h refl refl)
      connection_side-Round sh src dst (src_proofs, dst_proofs, src_host, dst_host) (dst_side, step)
            w =
          Returns-then (Round is_connection_msg src dst) (StepMsgs is_connection_msg dst.path step)
            _ (connection_msgs ibc retry sh src dst src_proofs dst_host step w)
            (connection_msgs-StepMsgs sh src dst src_proofs dst_host step w)
            (λ msgs w' h. to_dst step h refl refl)

      channel_side-Round :
          (sh : SyncHeaders) (src dst : ProvableChain W) (src_chan dst_chan : Response Channel)
          (move : Side × Step) (w : W)
          → Returns
              (Round is_channel_msg src dst)
              (channel_side ibc retry sh src dst src_chan dst_chan move w)
      unfolding channel_side new_relay_msgs
      channel_side-Round sh src dst src_chan dst_chan (src_side, step) w =
          Returns-then (Round is_channel_msg src dst) (StepMsgs is_channel_msg src.path step) _
            (channel_msgs ibc retry sh dst src dst_chan step w)
            (channel_msgs-StepMsgs sh dst src dst_chan step w)
            (λ msgs w' h. to_src step h refl refl)
      channel_side-Round sh src dst src_chan dst_chan (dst_side, step) w =
          Returns-then (Round is_channel_msg src dst) (StepMsgs is_channel_msg dst.path step) _
            (channel_msgs ibc retry sh src dst src_chan step w)
            (channel_msgs-StepMsgs sh src dst src_chan step w)
            (λ msgs w' h. to_dst step h refl refl)

      connection_round-Round :
          (sh : SyncHeaders) (src_ctx dst_ctx : Height) (src dst : ProvableChain W)
          (src_conn dst_conn : Response ConnectionEnd) (w : W)
          → Returns
              (Round is_connection_msg src dst)
              (connection_round ibc retry sh src_ctx dst_ctx src dst src_conn dst_conn w)
      unfolding connection_round
      connection_round-Round sh src_ctx dst_ctx src dst src_conn dst_conn w =
          let both =
            ConnectionStates.is_uninitialized src_conn.value.state
            && ConnectionStates.is_uninitialized dst_conn.value.state in
          Returns-next (Round is_connection_msg src dst) _
            ((if both
                then pure (only_connections src_conn dst_conn)
                else query_clients ibc src_ctx dst_ctx src dst src_conn dst_conn)
              w)
            (λ proofs w1.
              Returns-next (Round is_connection_msg src dst) _
                (or_crash (connection_move src_conn.value.state dst_conn.value.state) w1)
                (λ move w2. connection_side-Round sh src dst proofs move w2))

      channel_round-Round :
          (sh : SyncHeaders) (src dst : ProvableChain W) (src_chan dst_chan : Response Channel)
          (w : W)
          → Returns
              (Round is_channel_msg src dst)
              (channel_round ibc retry sh src dst src_chan dst_chan w)
      unfolding channel_round
      channel_round-Round sh src dst src_chan dst_chan w =
          Returns-next (Round is_channel_msg src dst) _
            (or_crash (channel_move src_chan.value.state dst_chan.value.state) w)
            (λ move w1. channel_side-Round sh src dst src_chan dst_chan move w1)

      settled-Round :
          (carries : Step → Msg → Bool) (src dst : ProvableChain W) (round : Action W RelayMsgs)
          (settled : Bool) (w : W)
          → ((w : W) → Returns (Round carries src dst) (round w))
          → Returns (Round carries src dst) ((if settled then round else pure new_relay_msgs) w)
      unfolding new_relay_msgs ready
      settled-Round carries src dst round true w h = h w
      settled-Round carries src dst round false w h = nothing_yet refl refl

      -- For every pair of chains in every state: if the step of the connection handshake returns,
      -- then it has nothing to send and is not the last, or it sends to exactly one chain valid
      -- updates of that chain's client followed by the one message of a step, and it is the last
      -- if and only if that message is the confirmation.
      pub create_connection_step-Round :
          (src dst : ProvableChain W) (w : W)
          → Returns (Round is_connection_msg src dst) (create_connection_step ibc retry src dst w)
      unfolding create_connection_step
      create_connection_step-Round src dst w =
          let P = Round is_connection_msg src dst in
          Returns-next P _ (validate_paths ibc src dst w) (λ u w1.
            Returns-next P _ (new_sync_headers src dst w1) (λ sh w2.
              Returns-next P _ (get_query_context sh src.chain_id w2) (λ src_ctx w3.
                Returns-next P _ (get_query_context sh dst.chain_id w3) (λ dst_ctx w4.
                  Returns-next P _ (query_settled_connection_pair ibc src_ctx dst_ctx src dst w4)
                    (λ (src_conn, dst_conn, settled) w5.
                      settled-Round is_connection_msg src dst _ settled w5
                        (connection_round-Round sh src_ctx dst_ctx src dst src_conn dst_conn))))))

      -- For every pair of chains in every state: if the step of the channel handshake returns, then
      -- it has nothing to send and is not the last, or it sends to exactly one chain valid updates
      -- of that chain's client followed by the one message of a step, and it is the last if and only
      -- if that message is the confirmation.
      pub create_channel_step-Round :
          (src dst : ProvableChain W) (w : W)
          → Returns (Round is_channel_msg src dst) (create_channel_step ibc retry src dst w)
      unfolding create_channel_step
      create_channel_step-Round src dst w =
          let P = Round is_channel_msg src dst in
          Returns-next P _ (validate_paths ibc src dst w) (λ u w1.
            Returns-next P _ (new_sync_headers src dst w1) (λ sh w2.
              Returns-next P _ (get_query_context sh src.chain_id w2) (λ src_ctx w3.
                Returns-next P _ (get_query_context sh dst.chain_id w3) (λ dst_ctx w4.
                  Returns-next P _ (query_settled_channel_pair ibc src_ctx dst_ctx src dst w4)
                    (λ (src_chan, dst_chan, settled) w5.
                      settled-Round is_channel_msg src dst _ settled w5
                        (channel_round-Round sh src dst src_chan dst_chan))))))
