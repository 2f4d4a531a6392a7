-- ===== src/Handshake/Updates.antt =====
-- What the messages of a step of a handshake are, and the client updates among them
-- (core/connection.go, core/channel.go).
use yui_relayer.Base.{
  String, Bool, true, false, List, [], ◌∷◌, ◌++◌, ◌≡◌, refl, All, Bool-cases, inl, inr, Returns,
  Returns-then,
}
use yui_relayer.Ibc.{Header}
use yui_relayer.PathEnd.{PathEnd}
use yui_relayer.PathEnd.Messages.{update_client, update_clients}
use yui_relayer.Msg.{Msg}
use yui_relayer.Chain.{ProvableChain}
use yui_relayer.RelayMsgs.{RelayMsgs, ready}
use yui_relayer.Handshake.{
  Step, open_init, open_try, open_ack, open_confirm, is_confirm, client_updates,
}

-- Which message of ibc-go carries a step.
abbrev pub is_connection_msg : Step → Msg → Bool
is_connection_msg open_init (Msg.connection_open_init _ _ _) = true
is_connection_msg open_try (Msg.connection_open_try _ _ _ _ _ _ _ _ _ _ _) = true
is_connection_msg open_ack (Msg.connection_open_ack _ _ _ _ _ _ _ _ _ _) = true
is_connection_msg open_confirm (Msg.connection_open_confirm _ _ _ _) = true
is_connection_msg _ _ = false

abbrev pub is_channel_msg : Step → Msg → Bool
is_channel_msg open_init (Msg.channel_open_init _ _ _ _ _ _) = true
is_channel_msg open_try (Msg.channel_open_try _ _ _ _ _ _ _ _ _ _) = true
is_channel_msg open_ack (Msg.channel_open_ack _ _ _ _ _ _ _) = true
is_channel_msg open_confirm (Msg.channel_open_confirm _ _ _ _ _) = true
is_channel_msg _ _ = false

-- An update of the client of `pe` with a valid header.
abbrev pub IsUpdateOf : PathEnd → Msg → Type 0
IsUpdateOf pe msg =
    (header : Header) × (signer : String) × msg ≡ Msg.update_client pe.client_id header signer
    × header.is_valid_basic ≡ true

-- Updates of the client of `pe`, and then the message of the step.
pub data StepMsgs (carries : Step → Msg → Bool) (pe : PathEnd) (step : Step)
    : List Msg → Type 0 where
  step_msgs :
      (updates : List Msg) (msg : Msg)
      → All (IsUpdateOf pe) updates
      → carries step msg ≡ true
      → StepMsgs carries pe step (updates ++ msg ∷ [])

-- What a step of a handshake gives: nothing to send, or the messages of one step for one chain,
-- with `last` set for a confirmation only.
pub data Round {W : Type 0} (carries : Step → Msg → Bool) (src dst : ProvableChain W)
    : RelayMsgs → Type 0 where
  nothing_yet : {r : RelayMsgs} → ready r ≡ false → r.last ≡ false → Round carries src dst r
  to_src :
      {r : RelayMsgs} (step : Step)
      → StepMsgs carries src.path step r.src
      → r.dst ≡ []
      → r.last ≡ is_confirm step
      → Round carries src dst r
  to_dst :
      {r : RelayMsgs} (step : Step)
      → StepMsgs carries dst.path step r.dst
      → r.src ≡ []
      → r.last ≡ is_confirm step
      → Round carries src dst r

module _ {W : Type 0} where
  pub update_client-IsUpdateOf :
      (pe : PathEnd) (header : Header) (signer : String) (w : W)
      → Returns (IsUpdateOf pe) (update_client pe header signer w)
  unfolding update_client
  update_client-IsUpdateOf pe header signer w = elim (Bool-cases header.is_valid_basic) [
    | inl yes' ↦ simp (yes') (header, signer, refl, yes')
    | inr no' ↦ simp (no') tt
  ]

  pub update_clients-IsUpdateOf :
      (pe : PathEnd) (headers : List Header) (signer : String) (w : W)
      → Returns (All (IsUpdateOf pe)) (update_clients pe headers signer w)
  unfolding update_clients
  update_clients-IsUpdateOf pe [] signer w = tt
  update_clients-IsUpdateOf pe (header ∷ headers) signer w =
      Returns-then (All (IsUpdateOf pe)) (IsUpdateOf pe) _ (update_client pe header signer w)
        (update_client-IsUpdateOf pe header signer w)
        (λ msg w' h.
          Returns-then (All (IsUpdateOf pe)) (All (IsUpdateOf pe)) _
            (update_clients pe headers signer w') (update_clients-IsUpdateOf pe headers signer w')
            (λ msgs w'' hs. (h, hs)))

  pub client_updates-IsUpdateOf :
      (chain : ProvableChain W) (headers : List Header) (signer : String) (w : W)
      → Returns (All (IsUpdateOf chain.path)) (client_updates chain headers signer w)
  unfolding client_updates
  client_updates-IsUpdateOf chain [] signer w = tt
  client_updates-IsUpdateOf chain (h ∷ hs) signer w =
      update_clients-IsUpdateOf chain.path (h ∷ hs) signer w
