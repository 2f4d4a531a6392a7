-- ===== src/Tests/Sending.antt =====
-- Runs of the creation of clients, of a transfer, of the wait for finality and of the service, and
-- their theorems at those inputs.
use yui_relayer.Base.{
  ℕ, ◌≡◌, ◌⊎◌, refl, true, false, [], ◌∷◌, none, some, pure, Outcome, ok, external, Returns, All,
  Answered,
}
use yui_relayer.Chain.{ProvableChain}
use yui_relayer.Msg.{fabric}
use yui_relayer.RelayMsgs.{RelayMsgs}
use yui_relayer.RelayMsgs.Batches.{Log}
use yui_relayer.Handshake.Updates.{IsUpdateOf}
use yui_relayer.Clients.{
  clients_to_create, clients_to_update, check_create_clients_ready, create_clients,
  update_both_clients,
}
use yui_relayer.Clients.Missing.{Creates, Accepted, clients-Creates, clients-Accepted}
use yui_relayer.Ibc.{Coin}
use yui_relayer.Durations.{pos, negsuc, greater}
use yui_relayer.Transfer.{transfer_timeout, send_transfer_msg}
use yui_relayer.Transfer.Accepted.{Transferred, send_transfer_msg-Transferred}
use yui_relayer.Finalized.{get_finalized_msg_result, wait_time}
use yui_relayer.Finalized.Final.{IsFinal, get_finalized_msg_result-IsFinal}
use yui_relayer.Service.Start.{start, Stands, start-Stands}
use yui_relayer.Scenario.{
  sample_ibc, sample_marshal, sample_path, sample_headers, sample_service, src_chain, dst_chain,
  no_config, no_retry, at_height,
}

-- A chain that has no client yet.
abbrev new_chain : ProvableChain Log
new_chain = record src_chain { path = record (sample_path "src" "ordered") { client_id = "" } }

clients-Creates_example :
    Returns
      (λ r. Creates new_chain dst_chain none r.src × Creates dst_chain new_chain none r.dst)
      (clients_to_create new_chain dst_chain none none [])
    × Returns
        (λ r. All (IsUpdateOf new_chain.path) r.src × All (IsUpdateOf dst_chain.path) r.dst)
        (clients_to_update new_chain dst_chain [])
clients-Creates_example = clients-Creates new_chain dst_chain none none []

clients-Accepted_example :
    Returns
      (λ u.
        (r : RelayMsgs) × Answered (clients_to_update new_chain dst_chain) r
        × Accepted sample_marshal new_chain dst_chain r)
      (update_both_clients sample_marshal new_chain dst_chain [])
    × Returns
        (λ u.
          Answered (check_create_clients_ready new_chain dst_chain) false
          ⊎ ((r : RelayMsgs) × Answered (clients_to_create new_chain dst_chain none none) r
              × Accepted sample_marshal new_chain dst_chain r))
        (create_clients sample_marshal no_config "ibc01" new_chain dst_chain none none [])
clients-Accepted_example =
    clients-Accepted sample_marshal new_chain dst_chain no_config "ibc01" none none []

abbrev sample_coin : Coin
sample_coin = record { denom = "uatom"; amount = 5 }

send_transfer_msg-Transferred_example :
    Returns
      (λ u.
        Transferred {W = Log}
          (λ id. 0)
          (pure 5000)
          sample_marshal
          src_chain
          dst_chain
          sample_coin
          "receiver"
          0
          (pos 300))
      (send_transfer_msg
        (λ id. 0)
        (pure 5000)
        sample_marshal
        src_chain
        dst_chain
        sample_coin
        "receiver"
        0
        (pos 300)
        [])
send_transfer_msg-Transferred_example =
    send_transfer_msg-Transferred (λ id. 0) (pure 5000) sample_marshal src_chain dst_chain
      sample_coin "receiver" 0 (pos 300) []

-- A negative time offset, and no height offset: the transfer has no timeout.
negative_offset_run : transfer_timeout {W = Log} (pure 5000) 12 0 (negsuc 299) [] ≡ (ok (0, 0), [])
unfolding transfer_timeout greater
negative_offset_run = refl

abbrev no_wait : ℕ → Log → (Outcome (Unit {0})) × Log
no_wait n log = (ok tt, log)

-- The finalized header of this chain is at height 12, that of its results.
abbrev final_chain : ProvableChain Log
final_chain = record src_chain {
  get_latest_finalized_header = pure (record { height = at_height 12; is_valid_basic = true });
}

get_finalized_msg_result-IsFinal_example :
    Returns
      (IsFinal sample_ibc final_chain (fabric "tx"))
      (get_finalized_msg_result sample_ibc 5 no_wait final_chain (fabric "tx") no_retry [])
get_finalized_msg_result-IsFinal_example =
    get_finalized_msg_result-IsFinal sample_ibc 5 no_wait final_chain (fabric "tx") no_retry []

start-Stands_example :
    Stands sample_service
      ([], sample_headers)
      (none ∷ none ∷ some (external "cancelled") ∷ [])
      (start sample_service (none ∷ some (external "cancelled") ∷ []) ([], sample_headers))
start-Stands_example =
    start-Stands sample_service (none ∷ some (external "cancelled") ∷ []) ([], sample_headers)

waits_for_blocks : wait_time 5 (at_height 14) (at_height 12) ≡ 10
unfolding wait_time
waits_for_blocks = refl
