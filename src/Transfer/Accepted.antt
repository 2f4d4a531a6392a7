-- ===== src/Transfer/Accepted.antt =====
-- What SendTransferMsg has done when it returns without an error (core/packet-tx.go).
use yui_relayer.Base.{
  ℕ, ◌<◌, String, Bool, true, false, [], ◌∷◌, Option, ◌≡◌, refl, ◌⊎◌, inl, inr, ltb, ◌==◌,
  Bool-cases, Action, fail, pure, message, if◌then◌else◌, Answered, Returns, Returns-then,
  Returns-asked, Returns-mono, ◌+◌, ◌%◌, ◌^◌, arith,
}
use yui_relayer.Durations.{ℤ, pos, greater, magnitude}
use yui_relayer.Ibc.{Bytes, Height, Coin}
use yui_relayer.Msg.{Msg}
use yui_relayer.Chain.{ProvableChain}
use yui_relayer.PathEnd.Messages.{msg_transfer}
use yui_relayer.RelayMsgs.{RelayMsgs, new_relay_msgs, send}
use yui_relayer.Transfer.{transfer_timeout, send_transfer, send_transfer_msg}

-- The timeouts of a transfer by the offsets: a height and no timestamp, or a timestamp and no height, and
-- neither where the time offset is negative and there is no height offset. Both offsets are in no case.
pub data Timeouts {W : Type 0} (now : Action W ℕ) (latest a : ℕ) (d : ℤ) : ℕ × ℕ → Type 0 where
  until_height :
      0 < a → greater d (pos 0) ≡ false → Timeouts now latest a d ((latest + a) % 2 ^ 64, 0)
  until_time :
      (n : ℕ)
      → a ≡ 0
      → greater d (pos 0) ≡ true
      → Answered now n
      → Timeouts now latest a d (0, (n + magnitude d) % 2 ^ 64)
  default_height : a ≡ 0 → magnitude d ≡ 0 → Timeouts now latest a d ((latest + 1000) % 2 ^ 64, 0)
  no_timeout : a ≡ 0 → greater d (pos 0) ≡ false → 0 < magnitude d → Timeouts now latest a d (0, 0)

transfer_timeout-Timeouts :
    {W : Type 0} (now : Action W ℕ) (latest a : ℕ) (d : ℤ) (w : W)
    → Returns (Timeouts now latest a d) (transfer_timeout now latest a d w)
unfolding transfer_timeout
transfer_timeout-Timeouts now latest a d w =
    chosen (Bool-cases (ltb 0 a)) (Bool-cases (greater d (pos 0))) (Bool-cases (magnitude d == 0))
  where
    chosen :
        (ltb 0 a ≡ true) ⊎ (ltb 0 a ≡ false)
        → (greater d (pos 0) ≡ true) ⊎ (greater d (pos 0) ≡ false)
        → ((magnitude d == 0) ≡ true) ⊎ ((magnitude d == 0) ≡ false)
        → Returns (Timeouts now latest a d) (transfer_timeout now latest a d w)
    chosen (inl x) (inl y) z = rw (x, y) tt
    chosen (inl x) (inr y) z = rw (x, y) (until_height (ground arith) y)
    chosen (inr x) (inl y) z =
        rw (x, y)
          (Returns-asked (Timeouts now latest a d) _ (now w)
            (λ n w1 e. until_time n (ground arith) y (w, w1, e)))
    chosen (inr x) (inr y) (inl z) =
        let e : (a == 0) ≡ true = ground arith in
        rw (x, y, e, z) (default_height (ground arith) (ground arith))
    chosen (inr x) (inr y) (inr z) =
        let e : (a == 0) ≡ true = ground arith in
        rw (x, y, e, z) (no_timeout (ground arith) y (ground arith))

-- A transfer that was accepted: one message to the source chain, for the height of the other chain and
-- the address of this one.
pub record Transferred {W : Type 0} (parse_chain_id : String → ℕ) (now : Action W ℕ)
    (marshal : Msg → Option Bytes) (src dst : ProvableChain W) (amount : Coin) (dst_addr : String)
    (a : ℕ) (d : ℤ) : Type 0 where
  pub latest : Height
  pub src_addr : String
  pub timeouts : ℕ × ℕ
  pub sent : RelayMsgs
  pub latest_answered : Answered dst.latest_height latest
  pub addr_answered : Answered src.get_address_string src_addr
  pub has_timeouts : Timeouts now latest.revision_height a d timeouts
  pub was_sent :
      Answered
        (send marshal src dst (record new_relay_msgs {
          src =
              msg_transfer parse_chain_id src.path dst.path amount dst_addr src_addr
                (timeouts.0)
                (timeouts.1)
                ""
              ∷ [];
        }))
        sent
  pub was_accepted : sent.succeeded ≡ true

module _ {W : Type 0} (parse_chain_id : String → ℕ) (now : Action W ℕ)
    (marshal : Msg → Option Bytes) where
  send_transfer-accepted :
      (src dst : ProvableChain W) (msg : Msg) (w : W)
      → Returns
          (λ u.
            (sent : RelayMsgs) × Answered
              (send marshal src dst (record new_relay_msgs { src = msg ∷ [] }))
              sent
            × sent.succeeded ≡ true)
          (send_transfer parse_chain_id now marshal src dst msg w)
  unfolding send_transfer
  send_transfer-accepted src dst msg w =
      Returns-asked P _ (send marshal src dst (record new_relay_msgs { src = msg ∷ [] }) w)
        (λ sent w1 e. after sent w1 (w, w1, e) sent.succeeded refl)
    where
      P : Unit {0} → Type 0
      P u =
          (sent : RelayMsgs) × Answered
            (send marshal src dst (record new_relay_msgs { src = msg ∷ [] })) sent
          × sent.succeeded ≡ true

      after :
          (sent : RelayMsgs) (w : W)
          → Answered (send marshal src dst (record new_relay_msgs { src = msg ∷ [] })) sent
          → (b : Bool) → sent.succeeded ≡ b
          → Returns P ((if b then pure tt else fail (message "failed to send transfer message")) w)
      after sent w h true e = (sent, h, e)
      after sent w h false e = tt

  -- For every two chains, amount, address and offsets: when SendTransferMsg returns without an error,
  -- `Send` has succeeded with one message, the transfer, to the source chain and none to the other. Its
  -- timeout is a height, the other chain's latest one plus the offset, or plus 1000 where both offsets
  -- are 0; or it is a timestamp, the time plus a positive time offset (sums are of uint64); or there is
  -- no timeout, where there is no height offset and the time offset is negative. If both offsets are
  -- positive, it does not return without an error.
  pub send_transfer_msg-Transferred :
      (src dst : ProvableChain W) (amount : Coin) (dst_addr : String) (to_height_offset : ℕ)
      (to_time_offset : ℤ) (w : W)
      → Returns
          (λ u.
            Transferred parse_chain_id now marshal src dst amount dst_addr to_height_offset
              to_time_offset)
          (send_transfer_msg parse_chain_id now marshal src dst amount dst_addr to_height_offset
            to_time_offset w)
  unfolding send_transfer_msg
  send_transfer_msg-Transferred src dst amount dst_addr a d w =
      Returns-asked P _ (dst.latest_height w) (λ latest w1 l.
        Returns-then P (Timeouts now latest.revision_height a d) _
          (transfer_timeout now latest.revision_height a d w1)
          (transfer_timeout-Timeouts now latest.revision_height a d w1)
          (λ timeouts w2 t. Returns-asked P _ (src.get_address_string w2) (λ src_addr w3 b.
            let msg =
              msg_transfer parse_chain_id src.path dst.path amount dst_addr src_addr (timeouts.0)
                (timeouts.1) "" in
            Returns-mono
              (λ u.
                (sent : RelayMsgs) × Answered
                  (send marshal src dst (record new_relay_msgs { src = msg ∷ [] })) sent
                × sent.succeeded ≡ true)
              P (send_transfer parse_chain_id now marshal src dst msg w3)
              (λ u (sent, h, e). record {
                latest = latest;
                src_addr = src_addr;
                timeouts = timeouts;
                sent = sent;
                latest_answered = (w, w1, l);
                addr_answered = (w2, w3, b);
                has_timeouts = t;
                was_sent = h;
                was_accepted = e;
              })
              (send_transfer-accepted src dst msg w3))))
    where
      P : Unit {0} → Type 0
      P u = Transferred parse_chain_id now marshal src dst amount dst_addr a d
