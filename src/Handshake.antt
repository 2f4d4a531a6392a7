-- ===== src/Handshake.antt =====
-- The creation of a connection and of a channel between the two chains: `Connection` and `Channel`
-- build the messages of one step (core/connection.go, core/channel.go), `Create` is the loop that
-- both files run around it. `Progress` is about the steps that are chosen, `Updates` and `Shape`
-- about the messages, `Failures` about the end of the loop.
pub mod Connection
pub mod Channel
pub mod Create
pub mod Progress
pub mod Shape
pub mod Updates
pub mod Failures
use yui_relayer.Base.{
  Bool, true, false, Action, ◌>>◌, String, is_empty, List, [], pure, if◌then◌else◌,
}
use yui_relayer.Ibc.{Functions, Header}
use yui_relayer.Msg.{Msg}
use yui_relayer.Chain.{ProvableChain}
use yui_relayer.PathEnd.Validate.{validate}
use yui_relayer.PathEnd.Messages.{update_clients}

pub data Side : Type 0 where
  src_side dst_side : Side

-- The four messages of either handshake.
pub data Step : Type 0 where
  open_init open_try open_ack open_confirm : Step

abbrev pub is_confirm : Step → Bool
is_confirm open_confirm = true
is_confirm _ = false

-- validatePaths of core/connection.go
unfoldable pub validate_paths :
    {W : Type 0} → Functions → ProvableChain W → ProvableChain W → Action W (Unit {0})
unfolding validate
validate_paths ibc src dst = do validate ibc src.path; validate ibc dst.path

-- `if len(headers) > 0 { msgs = append(msgs, Path().UpdateClients(headers, addr)...) }`
unfoldable pub client_updates :
    {W : Type 0} → ProvableChain W → List Header → String → Action W (List Msg)
client_updates chain headers addr =
    if is_empty headers then pure [] else update_clients chain.path headers addr
