-- ===== src/Clients/Missing.antt =====
-- What the creation and the update of clients send (core/client.go).
use yui_relayer.Base.{
  String, Bool, true, false, List, [], ◌∷◌, Option, str_eq, Bool-cases, inl, inr, ◌≡◌, ◌⊎◌, refl,
  All, pure, fail, message, Action, ok, must, Answered, Returns, Returns-next, Returns-then,
  Returns-asked, Returns-always, Returns-mono, if◌then◌else◌, ◌>>=◌,
}
use yui_relayer.Ibc.{Bytes, Height, Header, ClientState, ConsensusState}
use yui_relayer.Msg.{Msg, create_client}
use yui_relayer.Chain.{ProvableChain}
use yui_relayer.Handshake.Updates.{IsUpdateOf, update_clients-IsUpdateOf}
use yui_relayer.Headers.{new_sync_headers, setup_both_headers_for_update}
use yui_relayer.RelayMsgs.{RelayMsgs, ready, send}
use yui_relayer.Sync.{Config, sync_chain_configs_from_events}
use yui_relayer.Clients.{
  check_create_clients_ready, create_msgs, clients_to_create, update_msgs, clients_to_update,
  send_clients, create_clients, update_both_clients,
}

-- What CreateClients has for a chain: nothing if the chain has a client; otherwise the creation of a
-- client from the initial state that its counterparty's prover gives, signed by the chain's relayer.
pub data Creates {W : Type 0} (chain counterparty : ProvableChain W) (height : Option Height)
    : List Msg → Type 0 where
  has_client : str_eq chain.path.client_id "" ≡ false → Creates chain counterparty height []
  lacks_client :
      (addr : String) (cs : ClientState) (cons : ConsensusState)
      → str_eq chain.path.client_id "" ≡ true
      → Answered chain.get_address_string addr
      → Answered (counterparty.create_initial_light_client_state height) (cs, cons)
      → Creates chain counterparty height (create_client cs cons addr ∷ [])

module _ {W : Type 0} where
  create_msgs-Creates :
      (chain counterparty : ProvableChain W) (height : Option Height) (w : W)
      → Returns (Creates chain counterparty height) (create_msgs chain counterparty height w)
  unfolding create_msgs
  create_msgs-Creates chain counterparty height w =
      elim (Bool-cases (str_eq chain.path.client_id "")) [
        | inl yes' ↦ rw yes' (
            Returns-asked (Creates chain counterparty height) _ (chain.get_address_string w)
              (λ addr w1 a.
                Returns-asked (Creates chain counterparty height) _
                  (counterparty.create_initial_light_client_state height w1)
                  (λ state w2 b.
                    lacks_client addr (state.0) (state.1) yes' (w, w1, a) (w1, w2, b))))
        | inr no' ↦ rw no' (has_client no')
      ]

  update_msgs-IsUpdateOf :
      (chain : ProvableChain W) (headers : List Header) (w : W)
      → Returns (All (IsUpdateOf chain.path)) (update_msgs chain headers w)
  unfolding update_msgs
  update_msgs-IsUpdateOf chain [] w = tt
  update_msgs-IsUpdateOf chain (h ∷ hs) w =
      Returns-next (All (IsUpdateOf chain.path)) _ (must chain.get_address_string w)
        (λ addr w1. update_clients-IsUpdateOf chain.path (h ∷ hs) addr w1)

  -- For every two chains: the messages that CreateClients has to send are, for each chain, none if the
  -- chain has a client id, and otherwise the creation of one client, from the state that the prover of
  -- the other chain gives for the other chain's height; and those that UpdateClients has to send are,
  -- for each chain, updates of its client with valid headers.
  pub clients-Creates :
      (src dst : ProvableChain W) (src_height dst_height : Option Height) (w : W)
      → Returns
          (λ r. Creates src dst dst_height r.src × Creates dst src src_height r.dst)
          (clients_to_create src dst src_height dst_height w)
        × Returns
            (λ r. All (IsUpdateOf src.path) r.src × All (IsUpdateOf dst.path) r.dst)
            (clients_to_update src dst w)
  unfolding clients_to_create clients_to_update
  clients-Creates src dst src_height dst_height w = (
    Returns-then (λ r. Creates src dst dst_height r.src × Creates dst src src_height r.dst)
        (Creates src dst dst_height) _ (create_msgs src dst dst_height w)
        (create_msgs-Creates src dst dst_height w)
        (λ s w1 h.
          Returns-then (λ r. Creates src dst dst_height r.src × Creates dst src src_height r.dst)
            (Creates dst src src_height) _ (create_msgs dst src src_height w1)
            (create_msgs-Creates dst src src_height w1) (λ d w2 k. (h, k))),
    Returns-next Updates _ (new_sync_headers src dst w) (λ sh w1.
        Returns-next Updates _ (setup_both_headers_for_update src dst sh w1) (λ headers w2.
          Returns-then Updates (All (IsUpdateOf src.path)) _ (update_msgs src (headers.1) w2)
            (update_msgs-IsUpdateOf src (headers.1) w2)
            (λ s w3 h.
              Returns-then Updates (All (IsUpdateOf dst.path)) _ (update_msgs dst (headers.0) w3)
                (update_msgs-IsUpdateOf dst (headers.0) w3) (λ d w4 k. (h, k))))),
  )
    where
      Updates : RelayMsgs → Type 0
      Updates r = All (IsUpdateOf src.path) r.src × All (IsUpdateOf dst.path) r.dst

-- The messages have been accepted, or there were none.
abbrev pub Accepted :
    {W : Type 0} → (Msg → Option Bytes) → ProvableChain W → ProvableChain W → RelayMsgs → Type 0
Accepted marshal src dst r =
    (ready r ≡ false)
    ⊎ ((sent : RelayMsgs) × Answered (send marshal src dst r) sent × sent.succeeded ≡ true)

module _ {W : Type 0} (marshal : Msg → Option Bytes) (src dst : ProvableChain W) where
  send_clients-Accepted :
      (text : String) (k : RelayMsgs → Action W (Unit {0})) (r : RelayMsgs) (w : W)
      → Returns (λ u. Accepted marshal src dst r) (send_clients marshal src dst text k r w)
  unfolding send_clients
  send_clients-Accepted text k r w = chosen (ready r) refl
    where
      after :
          (sent : RelayMsgs) (w : W) (b : Bool)
          → Answered (send marshal src dst r) sent
          → sent.succeeded ≡ b
          → Returns
              (λ u. Accepted marshal src dst r)
              ((if b then k sent else fail (message text)) w)
      after sent w true a e =
          Returns-always (λ u. Accepted marshal src dst r) (k sent w) (λ u. inr (sent, a, e))
      after sent w false a e = tt

      chosen :
          (b : Bool)
          → ready r ≡ b
          → Returns
              (λ u. Accepted marshal src dst r)
              ((if b
                  then send marshal src dst r
                    >>= (λ sent. if sent.succeeded then k sent else fail (message text))
                  else pure tt)
                w)
      chosen true e =
          Returns-asked (λ u. Accepted marshal src dst r) _ (send marshal src dst r w)
            (λ sent w1 a. after sent w1 sent.succeeded (w, w1, a) refl)
      chosen false e = inl e

  -- For every two chains: when UpdateClients returns without an error, `Send` has accepted the messages
  -- that it had, or there were none; and when CreateClients does, so it is, unless both chains had a
  -- client at the start.
  pub clients-Accepted :
      (config : Config W) (path_name : String) (src_height dst_height : Option Height) (w : W)
      → Returns
          (λ u.
            (r : RelayMsgs) × Answered (clients_to_update src dst) r × Accepted marshal src dst r)
          (update_both_clients marshal src dst w)
        × Returns
            (λ u.
              Answered (check_create_clients_ready src dst) false
              ⊎ ((r : RelayMsgs) × Answered (clients_to_create src dst src_height dst_height) r
                  × Accepted marshal src dst r))
            (create_clients marshal config path_name src dst src_height dst_height w)
  unfolding update_both_clients create_clients
  clients-Accepted config path_name src_height dst_height w = (
    Returns-asked Updated _ (clients_to_update src dst w) (λ r w1 a.
        Returns-mono (λ u. Accepted marshal src dst r) Updated
          (send_clients marshal src dst update_failed (λ sent. pure tt) r w1)
          (λ u h. (r, (w, w1, a), h)) (send_clients-Accepted update_failed (λ sent. pure tt) r w1)),
    Returns-asked Created _ (check_create_clients_ready src dst w) goes,
  )
    where
      update_failed : String
      update_failed = "failed to send messages to update clients"

      create_failed : String
      create_failed = "failed to send messages to create clients"

      Updated : Unit {0} → Type 0
      Updated u =
          (r : RelayMsgs) × Answered (clients_to_update src dst) r × Accepted marshal src dst r

      Created : Unit {0} → Type 0
      Created u =
          Answered (check_create_clients_ready src dst) false
          ⊎ ((r : RelayMsgs) × Answered (clients_to_create src dst src_height dst_height) r
              × Accepted marshal src dst r)

      sync : RelayMsgs → Action W (Unit {0})
      sync sent =
          sync_chain_configs_from_events config path_name sent.src_msg_ids sent.dst_msg_ids src dst

      goes :
          (go : Bool) (w1 : W)
          → check_create_clients_ready src dst w ≡ (ok go, w1)
          → Returns Created (
              (if go
                  then clients_to_create src dst src_height dst_height
                    >>= send_clients marshal src dst create_failed sync
                  else pure tt)
                w1)
      goes true w1 a =
          Returns-asked Created _ (clients_to_create src dst src_height dst_height w1) (λ r w2 b.
            Returns-mono (λ u. Accepted marshal src dst r) Created
              (send_clients marshal src dst create_failed sync r w2)
              (λ u h. inr (r, (w1, w2, b), h)) (send_clients-Accepted create_failed sync r w2))
      goes false w1 a = inl (w, w1, a)
