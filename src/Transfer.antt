-- ===== src/Transfer.antt =====
-- core/packet-tx.go: SendTransferMsg. `parse_chain_id` is ibc-go's ParseChainID; `now` is time.Now()
-- in nanoseconds. The height offset is a uint64, the time offset an int64. `Accepted` is about a transfer
-- that succeeds.
pub mod Accepted
use yui_relayer.Base.{
  ℕ, ◌+◌, String, Bool, List, [], ◌∷◌, Option, ltb, ◌&&◌, ◌==◌, if◌then◌else◌, Action, Outcome, ok,
  err, message, pure, fail, lift, ◌>>=◌, ◌>>◌,
}
use yui_relayer.Durations.{ℤ, pos, greater, magnitude}
use yui_relayer.Ibc.{Bytes, Coin}
use yui_relayer.Msg.{Msg}
use yui_relayer.Chain.{ProvableChain}
use yui_relayer.PathEnd.Messages.{msg_transfer}
use yui_relayer.RelayMsgs.{RelayMsgs, new_relay_msgs, send, u64}

-- The `switch`: the timeout height and the timeout timestamp of the transfer. Where no case fits, which a
-- negative time offset can bring about, both stay 0.
unfoldable pub transfer_timeout : {W : Type 0} → Action W ℕ → ℕ → ℕ → ℤ → Action W (ℕ × ℕ)
unfolding greater
transfer_timeout now height to_height_offset to_time_offset =
    if ltb 0 to_height_offset && greater to_time_offset (pos 0)
    then fail (message "cant set both timeout height and time offset")
    else if ltb 0 to_height_offset
    then pure (u64 (height + to_height_offset), 0)
    else if greater to_time_offset (pos 0)
    then (now >>= λ n. pure (0, u64 (n + magnitude to_time_offset)))
    else if to_height_offset == 0 && magnitude to_time_offset == 0
    then pure (u64 (height + 1000), 0)
    else pure (0, 0)

module _ {W : Type 0} (parse_chain_id : String → ℕ) (now : Action W ℕ)
    (marshal : Msg → Option Bytes) where
  unfoldable pub send_transfer : ProvableChain W → ProvableChain W → Msg → Action W (Unit {0})
  unfolding send new_relay_msgs
  send_transfer src dst msg = do
    r ← send marshal src dst (record new_relay_msgs { src = msg ∷ [] })
    if r.succeeded then pure tt else fail (message "failed to send transfer message")

  -- SendTransferMsg
  unfoldable pub send_transfer_msg :
      ProvableChain W → ProvableChain W → Coin → String → ℕ → ℤ → Action W (Unit {0})
  unfolding transfer_timeout msg_transfer send_transfer
  send_transfer_msg src dst amount dst_addr to_height_offset to_time_offset = do
    h ← dst.latest_height
    (height, timestamp) ← transfer_timeout now h.revision_height to_height_offset to_time_offset
    src_addr ← src.get_address_string
    send_transfer src dst
        (msg_transfer parse_chain_id src.path dst.path amount dst_addr src_addr height timestamp "")
