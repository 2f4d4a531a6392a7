-- ===== src/Finalized/Final.antt =====
-- The result that GetFinalizedMsgResult (core/send.go) returns is final.
use yui_relayer.Base.{
  ℕ, Bool, true, false, Option, none, some, ◌≡◌, refl, Action, Outcome, ok, err, panic, message,
  fail, pure, with_state, next, if◌then◌else◌, Answered, Returns,
}
use yui_relayer.Ibc.{Header, Functions}
use yui_relayer.Msg.{MsgId, MsgResult}
use yui_relayer.Chain.{ProvableChain}
use yui_relayer.Loop.{Retry, Attempted, once, again, gave_up}
use yui_relayer.Finalized.{
  check_result, finalized_attempt, get_finalized_msg_result, remembered, not_finalized,
}

-- The chain gave this result for the message, which is a success, and its block is not above a header
-- that the prover gave as the latest finalized one.
pub record IsFinal {W : Type 0} (ibc : Functions) (chain : ProvableChain W) (id : MsgId)
    (res : MsgResult) : Type 0 where
  pub header : Header
  pub finalized : Answered chain.get_latest_finalized_header header
  pub given : Answered (chain.get_msg_result id) res
  pub success : res.is_success ≡ true
  pub not_above : ibc.gt res.block_height header.height ≡ false

-- What holds of the remembered result after a call that succeeds.
abbrev Remembers :
    {W : Type 0} → (MsgResult → Type 0) → Outcome (Unit {0}) × (W × Option MsgResult) → Type 0
Remembers P (ok u, (w, none)) = ⊥
Remembers P (ok u, (w, some res)) = P res
Remembers P (err e, (w, res)) = Unit
Remembers P (panic, (w, res)) = Unit

Remembers-asked :
    {W A : Type 0} (P : MsgResult → Type 0) (f : A → Action (W × Option MsgResult) (Unit {0}))
    (x : Outcome A × W) (s : Option MsgResult)
    → ((a : A) (w : W) → x ≡ (ok a, w) → Remembers P (f a (w, s)))
    → Remembers P (next f (with_state s x))
Remembers-asked P f (ok a, w) s h = h a w refl
Remembers-asked P f (err e, w) s h = tt
Remembers-asked P f (panic, w) s h = tt

module _ {W : Type 0} (ibc : Functions) (average_block_time : ℕ)
    (wait_for : ℕ → Action W (Unit {0})) (chain : ProvableChain W) (id : MsgId) where
  abbrev attempt : Action (W × Option MsgResult) (Unit {0})
  attempt = finalized_attempt ibc average_block_time wait_for chain id

  not_finalized-Remembers :
      (P : MsgResult → Type 0) (x : Outcome (Unit {0}) × W) (s : Option MsgResult)
      → Remembers P (next (λ u. fail (message "msg not finalized")) (with_state s x))
  not_finalized-Remembers P x s = Remembers-asked P _ x s (λ a w e. tt)

  attempt-Remembers : (s : W × Option MsgResult) → Remembers (IsFinal ibc chain id) (attempt s)
  unfolding finalized_attempt check_result
  attempt-Remembers (w, s) =
      Remembers-asked (IsFinal ibc chain id) _ (chain.get_latest_finalized_header w) s
        (λ header w1 a.
          Remembers-asked (IsFinal ibc chain id) _ (chain.get_msg_result id w1) s (λ res w2 b.
            checked header res w2 (w, w1, a) (w1, w2, b) res.is_success
              (ibc.gt res.block_height header.height) refl refl))
    where
      checked :
          (header : Header) (res : MsgResult) (w : W)
          → Answered chain.get_latest_finalized_header header
          → Answered (chain.get_msg_result id) res
          → (success above : Bool) → res.is_success ≡ success
          → ibc.gt res.block_height header.height ≡ above
          → Remembers (IsFinal ibc chain id) (
              (if success
                  then (if above
                      then not_finalized ibc average_block_time wait_for chain id res.block_height
                          header.height
                      else pure tt)
                  else fail (message "msg execution failed"))
                (w, some res))
      checked header res w a b true true e h =
          not_finalized-Remembers (IsFinal ibc chain id) (wait_for _ w) (some res)
      checked header res w a b true false e h = record {
        header = header;
        finalized = a;
        given = b;
        success = e;
        not_above = h;
      }
      checked header res w a b false above e h = tt

  retried-Remembers :
      {s : W × Option MsgResult} {x : Outcome (Unit {0}) × (W × Option MsgResult)}
      → Attempted attempt s x
      → Remembers (IsFinal ibc chain id) x
  retried-Remembers {s = s} (once e) = rw e (attempt-Remembers s)
  retried-Remembers (again e t) = retried-Remembers t
  retried-Remembers (gave_up e) = tt

  -- For every chain, message id, retry policy and way to wait: when GetFinalizedMsgResult returns a
  -- result, the chain gave it for the message, it is a success, and the block of the message is not
  -- above a header that the prover gave as the latest finalized one.
  pub get_finalized_msg_result-IsFinal :
      (retry : Retry) (w : W)
      → Returns
          (IsFinal ibc chain id)
          (get_finalized_msg_result ibc average_block_time wait_for chain id retry w)
  unfolding get_finalized_msg_result
  get_finalized_msg_result-IsFinal retry w =
      returned (retry.run (W × Option MsgResult) Unit attempt (w, none))
        (retried-Remembers (retry.run_attempts (W × Option MsgResult) Unit attempt (w, none)))
    where
      returned :
          (x : Outcome (Unit {0}) × (W × Option MsgResult))
          → Remembers (IsFinal ibc chain id) x
          → Returns (IsFinal ibc chain id) (remembered x)
      returned (ok u, (w, some res)) h = h
      returned (ok u, (w, none)) h = tt
      returned (err e, (w, res)) h = tt
      returned (panic, (w, res)) h = tt
