-- ===== src/Handshake/Connection.antt =====
-- core/connection.go: one step of the connection handshake. The two goroutines of the proofs are
-- run for one side only, since a step acts on one chain.
use yui_relayer.Base.{
  String, Bool, true, List, [], ◌∷◌, ◌++◌, Option, none, some, ◌&&◌, not, str_eq, if◌then◌else◌,
  Action, Outcome, message, pure, fail, or_fail, or_crash, must, ◌>>=◌, ◌>>◌,
}
use yui_relayer.Ibc.{Bytes, Height, Header, ConnectionEnd, Response, Functions}
use yui_relayer.Ibc.ConnectionStates.{
  ConnectionState, uninitialized, init, tryopen, opened, is_uninitialized, is_opened,
}
use yui_relayer.PathEnd.Messages.{conn_init, conn_try, conn_ack, conn_confirm}
use yui_relayer.Msg.{Msg}
use yui_relayer.PathEnd.{PathEnd}
use yui_relayer.Chain.{ProvableChain}
use yui_relayer.Query.{
  prove_connection, prove_client_state, prove_client_consensus_state, query_client_state_pair,
  query_client_consensus_state_pair,
}
use yui_relayer.Query.Settled.{query_settled_connection_pair}
use yui_relayer.Headers.{SyncHeaders, new_sync_headers, get_query_context, setup_headers_for_update}
use yui_relayer.RelayMsgs.{RelayMsgs, new_relay_msgs}
use yui_relayer.Loop.{Retry}
use yui_relayer.Handshake.{
  Side, src_side, dst_side, Step, open_init, open_try, open_ack, open_confirm, is_confirm,
  validate_paths, client_updates,
}

-- The `getState` of checkConnectionCreateReady.
unfoldable pub connection_state : {W : Type 0} → ProvableChain W → Action W ConnectionState
connection_state chain =
    if str_eq chain.path.connection_id ""
    then pure uninitialized
    else chain.latest_height >>= λ height.
        chain.query_connection height chain.path.connection_id >>= λ res. pure res.value.state

-- The end of checkConnectionCreateReady, for the states that were found.
unfoldable pub connection_ready : String → String → ConnectionState → ConnectionState → Outcome Bool
connection_ready src_id dst_id src dst =
    if not (str_eq src_id "") && is_uninitialized src
    then Outcome.err (message "src connection id is given but that connection does not exist")
    else if not (str_eq dst_id "") && is_uninitialized dst
    then Outcome.err (message "dst connection id is given but that connection does not exist")
    else Outcome.ok (not (is_opened src && is_opened dst))

-- checkConnectionCreateReady
unfoldable pub check_connection_create_ready :
    {W : Type 0} → ProvableChain W → ProvableChain W → Action W Bool
unfolding connection_state connection_ready
check_connection_create_ready src dst =
    let src_id = src.path.connection_id in
    let dst_id = dst.path.connection_id in
    if str_eq src_id "" && str_eq dst_id ""
    then pure true
    else connection_state src >>= λ s.
        connection_state dst >>= λ d. λ w. (connection_ready src_id dst_id s d, w)

-- The `switch` of createConnectionStep; `none` is its panic.
unfoldable pub connection_move : ConnectionState → ConnectionState → Option (Side × Step)
connection_move uninitialized uninitialized = some (src_side, open_init)
connection_move uninitialized init = some (src_side, open_try)
connection_move init uninitialized = some (dst_side, open_try)
connection_move tryopen init = some (dst_side, open_ack)
connection_move init tryopen = some (src_side, open_ack)
connection_move tryopen opened = some (src_side, open_confirm)
connection_move opened tryopen = some (dst_side, open_confirm)
connection_move _ _ = none

-- createConnectionFutureProofs
pub record FutureProofs : Type 0 where
  pub update_headers : List Header
  pub conn_res : Response ConnectionEnd
  pub cs_res : Option (Response Bytes)
  pub cons_res : Option (Response Bytes)

-- createConnectionStep, before the handshake has begun on either chain: nothing more is queried.
abbrev pub only_connections :
    Response ConnectionEnd → Response ConnectionEnd → FutureProofs × FutureProofs × Bytes × Bytes
only_connections src_conn dst_conn = (
  record { update_headers = []; conn_res = src_conn; cs_res = none; cons_res = none },
  record { update_headers = []; conn_res = dst_conn; cs_res = none; cons_res = none },
  [],
  [],
)

module _ {W : Type 0} (ibc : Functions) where
  unfoldable pub resolve_connection :
      Height → ProvableChain W → Response ConnectionEnd → Action W (Response ConnectionEnd)
  unfolding prove_connection
  resolve_connection ctx from res =
      if is_uninitialized res.value.state then pure res else prove_connection ibc ctx from res

  unfoldable pub resolve_client_state :
      Height → ProvableChain W → Option (Response Bytes) → Action W (Option (Response Bytes))
  unfolding prove_client_state
  resolve_client_state ctx from none = pure none
  resolve_client_state ctx from (some res) = do
    res' ← prove_client_state ibc ctx from res
    pure (some res')

  unfoldable pub resolve_consensus_state :
      Height
      → ProvableChain W
      → Option (Response Bytes)
      → Option (Response Bytes)
      → Action W (Option (Response Bytes))
  unfolding prove_client_consensus_state
  resolve_consensus_state ctx from cs_res none = pure none
  resolve_consensus_state ctx from none (some res) =
      fail (message "ProveClientConseneusState needs ClientState height")
  resolve_consensus_state ctx from (some cs_res) (some res) = do
    cs ← or_fail (ibc.unpack_client_state cs_res.value) "unpack"
    res' ← prove_client_consensus_state ibc ctx from cs.latest_height res
    pure (some res')

  -- resolveCreateConnectionFutureProofs
  unfoldable pub resolve_create_connection_future_proofs :
      SyncHeaders → ProvableChain W → ProvableChain W → FutureProofs → Action W FutureProofs
  unfolding get_query_context setup_headers_for_update resolve_connection resolve_client_state
      resolve_consensus_state
  resolve_create_connection_future_proofs sh from to proofs = do
    ctx ← get_query_context sh from.chain_id
    headers ← setup_headers_for_update from to sh
    conn_res ← resolve_connection ctx from proofs.conn_res
    cs_res ← resolve_client_state ctx from proofs.cs_res
    cons_res ← resolve_consensus_state ctx from cs_res proofs.cons_res
    pure (record {
      update_headers = headers;
      conn_res = conn_res;
      cs_res = cs_res;
      cons_res = cons_res;
    })

  -- createConnectionStep, later: the client states, the consensus states and the host proofs.
  unfoldable pub query_clients :
      Height
      → Height
      → ProvableChain W
      → ProvableChain W
      → Response ConnectionEnd
      → Response ConnectionEnd
      → Action W (FutureProofs × FutureProofs × Bytes × Bytes)
  unfolding query_client_state_pair query_client_consensus_state_pair
  query_clients src_ctx dst_ctx src dst src_conn dst_conn = do
    (src_cs_res, dst_cs_res) ← query_client_state_pair src_ctx dst_ctx src dst
    src_cs ← or_fail (ibc.unpack_client_state src_cs_res.value) "unpack"
    dst_cs ← or_fail (ibc.unpack_client_state dst_cs_res.value) "unpack"
    (src_cons_res, dst_cons_res) ←
        query_client_consensus_state_pair src_ctx dst_ctx src dst src_cs.latest_height
          dst_cs.latest_height
    src_cons ← or_fail (ibc.unpack_consensus_state src_cons_res.value) "unpack"
    dst_cons ← or_fail (ibc.unpack_consensus_state dst_cons_res.value) "unpack"
    src_host ← src.prove_host_consensus_state src_ctx dst_cs.latest_height dst_cons
    dst_host ← dst.prove_host_consensus_state dst_ctx src_cs.latest_height src_cons
    pure (
      record {
        update_headers = [];
        conn_res = src_conn;
        cs_res = some src_cs_res;
        cons_res = some src_cons_res;
      },
      record {
        update_headers = [];
        conn_res = dst_conn;
        cs_res = some dst_cs_res;
        cons_res = some dst_cons_res;
      },
      src_host,
      dst_host,
    )

  -- The message of a step, sent to the chain of `me`; `proofs` are the other chain's.
  unfoldable pub connection_msg :
      Step → PathEnd → PathEnd → FutureProofs → Bytes → String → Action W Msg
  unfolding conn_init conn_try conn_ack conn_confirm
  connection_msg open_init me other proofs host_proof addr = pure (conn_init me other addr)
  connection_msg open_try me other proofs host_proof addr = do
    cs_res ← or_crash proofs.cs_res
    cons_res ← or_crash proofs.cons_res
    conn_try ibc me other cs_res proofs.conn_res cons_res host_proof addr
  connection_msg open_ack me other proofs host_proof addr = do
    cs_res ← or_crash proofs.cs_res
    cons_res ← or_crash proofs.cons_res
    conn_ack ibc me other cs_res proofs.conn_res cons_res host_proof addr
  connection_msg open_confirm me other proofs host_proof addr =
      pure (conn_confirm me proofs.conn_res addr)

  module _ (retry : Retry) where
    -- All messages of a step for the chain `to`, with the proofs of `from`.
    unfoldable pub connection_msgs :
        SyncHeaders
        → ProvableChain W
        → ProvableChain W
        → FutureProofs
        → Bytes
        → Step
        → Action W (List Msg)
    unfolding resolve_create_connection_future_proofs client_updates connection_msg
    connection_msgs sh from to proofs host_proof step = do
      proofs' ← retry.run W FutureProofs (resolve_create_connection_future_proofs sh from to proofs)
      addr ← must to.get_address_string
      updates ← client_updates to proofs'.update_headers addr
      msg ← connection_msg step to.path from.path proofs' host_proof addr
      pure (updates ++ msg ∷ [])

    unfoldable pub connection_side :
        SyncHeaders
        → ProvableChain W
        → ProvableChain W
        → FutureProofs × FutureProofs × Bytes × Bytes
        → Side × Step
        → Action W RelayMsgs
    unfolding connection_msgs new_relay_msgs
    connection_side sh src dst (src_proofs, dst_proofs, src_host, dst_host) (src_side, step) = do
      msgs ← connection_msgs sh dst src dst_proofs src_host step
      pure (record new_relay_msgs { src = msgs; last = is_confirm step })
    connection_side sh src dst (src_proofs, dst_proofs, src_host, dst_host) (dst_side, step) = do
      msgs ← connection_msgs sh src dst src_proofs dst_host step
      pure (record new_relay_msgs { dst = msgs; last = is_confirm step })

    -- createConnectionStep, for a settled pair of ends
    unfoldable pub connection_round :
        SyncHeaders
        → Height
        → Height
        → ProvableChain W
        → ProvableChain W
        → Response ConnectionEnd
        → Response ConnectionEnd
        → Action W RelayMsgs
    unfolding query_clients connection_move connection_side
    connection_round sh src_ctx dst_ctx src dst src_conn dst_conn = do
      proofs ←
          if is_uninitialized src_conn.value.state && is_uninitialized dst_conn.value.state
          then pure (only_connections src_conn dst_conn)
          else query_clients src_ctx dst_ctx src dst src_conn dst_conn
      move ← or_crash (connection_move src_conn.value.state dst_conn.value.state)
      connection_side sh src dst proofs move

    -- createConnectionStep: nothing is sent while the pair of ends is not settled.
    unfoldable pub create_connection_step : ProvableChain W → ProvableChain W → Action W RelayMsgs
    unfolding validate_paths new_sync_headers get_query_context query_settled_connection_pair
        connection_round new_relay_msgs
    create_connection_step src dst = do
      validate_paths ibc src dst
      sh ← new_sync_headers src dst
      src_ctx ← get_query_context sh src.chain_id
      dst_ctx ← get_query_context sh dst.chain_id
      (src_conn, dst_conn, settled) ← query_settled_connection_pair ibc src_ctx dst_ctx src dst
      if settled
          then connection_round sh src_ctx dst_ctx src dst src_conn dst_conn
          else pure new_relay_msgs
