-- ===== src/Finalized.antt =====
-- core/send.go: GetFinalizedMsgResult. The result that the retried closure writes stands beside the
-- world; `wait_for` is `wait` for a time, and `average_block_time` what the chain says. The retry
-- library is told which errors end the retries, which the model does not tell apart: it may end them
-- after any error. `Final` is about the result.
pub mod Final
use yui_relayer.Base.{
  ℕ, ◌+◌, ◌-◌, ◌*◌, ◌%◌, ◌^◌, Bool, Option, none, some, ◌==◌, if◌then◌else◌, Action, Outcome, ok,
  err, panic, message, pure, fail, beside, ◌>>=◌, ◌>>◌,
}
use yui_relayer.Ibc.{Height, Header, Functions}
use yui_relayer.Msg.{MsgId, MsgResult}
use yui_relayer.Chain.{ProvableChain}
use yui_relayer.RelayMsgs.{u64}
use yui_relayer.Loop.{Retry}

-- How long to wait for the block of the message: the difference of the heights is of uint64, and the
-- product of int64, given here by its 64 bits.
unfoldable pub wait_time : ℕ → Height → Height → ℕ
wait_time average_block_time msg_height lf_height =
    if msg_height.revision_number == lf_height.revision_number
    then u64
        (average_block_time * u64 (msg_height.revision_height + 2 ^ 64 - lf_height.revision_height))
    else average_block_time

abbrev pub remember : {W : Type 0} → MsgResult → Action (W × Option MsgResult) (Unit {0})
remember res (w, old) = (ok tt, (w, some res))

-- `msgRes`, after the retries.
abbrev pub remembered :
    {W : Type 0} → Outcome (Unit {0}) × (W × Option MsgResult) → Outcome MsgResult × W
remembered (ok u, (w, some res)) = (ok res, w)
remembered (ok u, (w, none)) = (panic, w)
remembered (err e, (w, res)) = (err e, w)
remembered (panic, (w, res)) = (panic, w)

module _ {W : Type 0} (ibc : Functions) (average_block_time : ℕ)
    (wait_for : ℕ → Action W (Unit {0})) (chain : ProvableChain W) (id : MsgId) where
  abbrev pub not_finalized : Height → Height → Action (W × Option MsgResult) (Unit {0})
  not_finalized msg_height lf_height =
      beside (wait_for (wait_time average_block_time msg_height lf_height)) >>= λ u.
      fail (message "msg not finalized")

  -- From the two answers on.
  unfoldable pub check_result : Header → MsgResult → Action (W × Option MsgResult) (Unit {0})
  unfolding wait_time
  check_result header res =
      if res.is_success
      then (if ibc.gt res.block_height header.height
          then not_finalized res.block_height header.height
          else pure tt)
      else fail (message "msg execution failed")

  -- The closure that is retried.
  unfoldable pub finalized_attempt : Action (W × Option MsgResult) (Unit {0})
  unfolding check_result
  finalized_attempt = do
    header ← beside chain.get_latest_finalized_header
    res ← beside (chain.get_msg_result id)
    remember res
    check_result header res

  -- GetFinalizedMsgResult
  unfoldable pub get_finalized_msg_result : Retry → Action W MsgResult
  unfolding finalized_attempt
  get_finalized_msg_result retry w =
      remembered (retry.run (W × Option MsgResult) Unit finalized_attempt (w, none))
