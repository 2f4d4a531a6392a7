-- ===== src/Clients.antt =====
-- core/client.go: the creation of the clients of two chains, and their update. The test for a nil
-- client state is left out: a chain answers a query with a response or an error. The packing errors of
-- ibc-go's NewMsgCreateClient are not modelled. `Missing` is about what is sent.
pub mod Missing
use yui_relayer.Base.{
  String, Bool, true, false, not, List, [], ◌∷◌, Option, ◌&&◌, str_eq, is_empty, if◌then◌else◌,
  Action, Outcome, message, pure, fail, must, ◌>>=◌, ◌>>◌,
}
use yui_relayer.Ibc.{Bytes, Height, Header}
use yui_relayer.Msg.{Msg, create_client}
use yui_relayer.Chain.{ProvableChain}
use yui_relayer.PathEnd.Messages.{update_clients}
use yui_relayer.Headers.{new_sync_headers, setup_both_headers_for_update}
use yui_relayer.RelayMsgs.{RelayMsgs, new_relay_msgs, ready, send}
use yui_relayer.Sync.{Config, sync_chain_configs_from_events}

module _ {W : Type 0} where
  -- One chain of checkCreateClientsReady: whether it has a client.
  unfoldable pub client_exists : ProvableChain W → Action W Bool
  client_exists chain =
      if str_eq chain.path.client_id ""
      then pure false
      else chain.latest_height >>= λ height. chain.query_client_state height >>= λ res. pure true

  -- checkCreateClientsReady
  unfoldable pub check_create_clients_ready : ProvableChain W → ProvableChain W → Action W Bool
  unfolding client_exists
  check_create_clients_ready src dst =
      if str_eq src.path.client_id "" && str_eq dst.path.client_id ""
      then pure true
      else client_exists src >>= λ s. client_exists dst >>= λ d. pure (not (s && d))

  -- The message that creates the client of `counterparty` on `chain`.
  abbrev pub create_msg : ProvableChain W → ProvableChain W → Option Height → Action W (List Msg)
  create_msg chain counterparty height = do
    addr ← chain.get_address_string
    (cs, cons) ← counterparty.create_initial_light_client_state height
    pure (create_client cs cons addr ∷ [])

  -- Only for a chain that has no client yet.
  unfoldable pub create_msgs :
      ProvableChain W → ProvableChain W → Option Height → Action W (List Msg)
  create_msgs chain counterparty height =
      if str_eq chain.path.client_id "" then create_msg chain counterparty height else pure []

  -- CreateClients, up to `Send`
  unfoldable pub clients_to_create :
      ProvableChain W → ProvableChain W → Option Height → Option Height → Action W RelayMsgs
  unfolding create_msgs new_relay_msgs
  clients_to_create src dst src_height dst_height = do
    src_msgs ← create_msgs src dst dst_height
    dst_msgs ← create_msgs dst src src_height
    pure (record new_relay_msgs { src = src_msgs; dst = dst_msgs })

  -- The messages that update the client of the counterparty on `chain`.
  unfoldable pub update_msgs : ProvableChain W → List Header → Action W (List Msg)
  unfolding update_clients
  update_msgs chain headers =
      if is_empty headers
      then pure []
      else must chain.get_address_string >>= λ addr. update_clients chain.path headers addr

  -- UpdateClients, up to `Send`
  unfoldable pub clients_to_update : ProvableChain W → ProvableChain W → Action W RelayMsgs
  unfolding new_sync_headers setup_both_headers_for_update update_msgs new_relay_msgs
  clients_to_update src dst = do
    sh ← new_sync_headers src dst
    (src_headers, dst_headers) ← setup_both_headers_for_update src dst sh
    src_msgs ← update_msgs src dst_headers
    dst_msgs ← update_msgs dst src_headers
    pure (record new_relay_msgs { src = src_msgs; dst = dst_msgs })

  module _ (marshal : Msg → Option Bytes) where
    -- `if clients.Ready() { … }` of both functions: `k` is what follows a successful `Send`.
    unfoldable pub send_clients :
        ProvableChain W
        → ProvableChain W
        → String
        → (RelayMsgs → Action W (Unit {0}))
        → RelayMsgs
        → Action W (Unit {0})
    unfolding ready send
    send_clients src dst text k r =
        let after : RelayMsgs → Action W (Unit {0}) =
          λ sent. if sent.succeeded then k sent else fail (message text) in
        if ready r then send marshal src dst r >>= after else pure tt

    -- CreateClients
    unfoldable pub create_clients :
        Config W
        → String
        → ProvableChain W
        → ProvableChain W
        → Option Height
        → Option Height
        → Action W (Unit {0})
    unfolding check_create_clients_ready clients_to_create send_clients
        sync_chain_configs_from_events
    create_clients config path_name src dst src_height dst_height =
        let sync : RelayMsgs → Action W (Unit {0}) = λ sent.
          sync_chain_configs_from_events config path_name sent.src_msg_ids sent.dst_msg_ids src
            dst in
        let create : Action W (Unit {0}) =
          clients_to_create src dst src_height dst_height
          >>= send_clients src dst "failed to send messages to create clients" sync in
        check_create_clients_ready src dst >>= λ go. if go then create else pure tt

    -- UpdateClients
    unfoldable pub update_both_clients : ProvableChain W → ProvableChain W → Action W (Unit {0})
    unfolding clients_to_update send_clients
    update_both_clients src dst = do
      r ← clients_to_update src dst
      send_clients src dst "failed to send messages to update clients" (λ sent. pure tt) r
