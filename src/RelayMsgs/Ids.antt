-- ===== src/RelayMsgs/Ids.antt =====
-- What `Send` records: the id slots and the success flag.
use yui_relayer.Base.{
  ℕ, ◌≡◌, refl, ap, ◌∙◌, Bool, true, List, [], ◌∷◌, Option, arith, length, append-nil, All, Outcome,
  ok, err, panic, Action, next, pure, is_empty, if◌then◌else◌,
}
use yui_relayer.Ibc.{Bytes}
use yui_relayer.Msg.{Msg}
use yui_relayer.Chain.{ProvableChain}
use yui_relayer.RelayMsgs.{RelayMsgs, Batch, submit, send_loop, send_side, start, send}
use yui_relayer.RelayMsgs.Slots.{
  IsFilled, Answers, IsMarshalled, Slots, StoredOutcome, SlotsOutcome, submit-Stored,
  send_loop-Slots,
}

-- One side of `Send` ended with a slot for each of `n` messages, all filled on success.
abbrev pub Recorded : {W : Type 0} → Bool → ℕ → Outcome Batch × W → Type 0
Recorded s0 n (ok b, w) =
    (length b.ids ≡ n) × (b.is_success ≡ true → (s0 ≡ true) × All IsFilled b.ids)
Recorded s0 n (err e, w) = ⊥
Recorded s0 n (panic, w) = ⊥

module _ {W : Type 0} (marshal : Msg → Option Bytes) (c : ProvableChain W) (r : RelayMsgs)
    (answers : Answers c) where
  leave : Batch → Action W Batch
  leave b = if is_empty b.msgs then pure b else submit marshal c r b

  stored-Recorded :
      (s0 : Bool) (b : Batch) (n : ℕ) (x : Outcome Batch × W)
      → StoredOutcome s0 b 0 n x
      → Recorded s0 n x
  stored-Recorded s0 b n (ok b', w) s = (
    rw (s.laid_out ∙ append-nil s.upto) (omega (arith, s.total)),
    λ h. ((s.filled h).0, rw (s.laid_out ∙ append-nil s.upto) (s.filled h).1),
  )
  stored-Recorded s0 b n (err e, w) s = s
  stored-Recorded s0 b n (panic, w) s = s

  left :
      (s0 : Bool) (b : Batch) (n : ℕ) (w : W) (ms : List Msg)
      → ms ≡ b.msgs
      → Slots s0 b 0 n
      → Recorded s0 n ((if is_empty ms then pure b else submit marshal c r b) w)
  left s0 b n w [] e s =
      let q : b.ids ≡ s.before = s.laid_out ∙ rw (← e) (append-nil s.before) in
      let t : length s.before ≡ n = omega (arith, s.total, ap length e) in
      (rw q t, λ h. ((s.filled h).0, rw q (s.filled h).1))
  left s0 b n w (m ∷ ms) e s =
      stored-Recorded s0 b n (submit marshal c r b w)
        (submit-Stored marshal c r answers s0 n b 0 w s)

  leave-Recorded :
      (s0 : Bool) (n : ℕ) (x : Outcome Batch × W)
      → SlotsOutcome s0 0 n x
      → Recorded s0 n (next leave x)
  unfolding leave
  leave-Recorded s0 n (ok b, w) s = left s0 b n w b.msgs refl s
  leave-Recorded s0 n (err e, w) s = s
  leave-Recorded s0 n (panic, w) s = s

  -- One side of `Send`, from its initial state, for messages that can all be marshalled and a
  -- chain that for each submission fails or returns one id a message: the call neither panics nor
  -- returns an error, it leaves one id slot for each message, and if the success flag is true then
  -- it was true before and every slot is filled.
  send_side-Recorded :
      (is_success : Bool) (ms : List Msg) (w : W)
      → All (λ m. IsMarshalled (marshal m)) ms
      → Recorded is_success (length ms) (send_side marshal c r ms (start is_success (length ms)) w)
  unfolding send_side leave start
  send_side-Recorded is_success ms w h =
      leave-Recorded is_success (length ms)
        (send_loop marshal c r ms (start is_success (length ms)) w)
        (send_loop-Slots marshal c r answers is_success (length ms) ms
          (start is_success (length ms)) w h
          record {
            before = [];
            laid_out = refl;
            at_count = refl;
            filled = λ e. (e, tt);
            total = omega arith;
          })

-- How `Send` ended: a slot for each message, all filled on success.
abbrev pub SendRecorded : {W : Type 0} → RelayMsgs → Outcome RelayMsgs × W → Type 0
SendRecorded r (ok r', w) =
    (r'.src ≡ r.src)
    × (r'.dst ≡ r.dst)
    × (length r'.src_msg_ids ≡ length r.src)
    × (length r'.dst_msg_ids ≡ length r.dst)
    × (r'.succeeded ≡ true → All IsFilled r'.src_msg_ids × All IsFilled r'.dst_msg_ids)
SendRecorded r (err e, w) = ⊥
SendRecorded r (panic, w) = ⊥

module _ {W : Type 0} (marshal : Msg → Option Bytes) (src dst : ProvableChain W)
    (r : RelayMsgs) where
  close : Batch → Batch → Action W RelayMsgs
  close b b' =
      pure (record r { succeeded = b'.is_success; src_msg_ids = b.ids; dst_msg_ids = b'.ids })

  dst_side : Batch → Action W RelayMsgs
  dst_side b w =
      next (close b) (send_side marshal dst r r.dst (start b.is_success (length r.dst)) w)

  close-SendRecorded :
      (b : Batch) (x : Outcome Batch × W)
      → length b.ids ≡ length r.src
      → (b.is_success ≡ true → All IsFilled b.ids)
      → Recorded b.is_success (length r.dst) x
      → SendRecorded r (next (close b) x)
  unfolding close
  close-SendRecorded b (ok b', w) n f h = (refl, refl, n, h.0, λ e. (f (h.1 e).0, (h.1 e).1))
  close-SendRecorded b (err e, w) n f h = h
  close-SendRecorded b (panic, w) n f h = h

  module _ (answers' : Answers dst) (marshals' : All (λ m. IsMarshalled (marshal m)) r.dst) where
    src-SendRecorded :
        (x : Outcome Batch × W) → Recorded true (length r.src) x → SendRecorded r (next dst_side x)
    unfolding dst_side
    src-SendRecorded (ok b, w) h =
        close-SendRecorded b (send_side marshal dst r r.dst (start b.is_success (length r.dst)) w)
          h.0 (λ e. (h.1 e).1)
          (send_side-Recorded marshal dst r answers' b.is_success r.dst w marshals')
    src-SendRecorded (err e, w) h = h
    src-SendRecorded (panic, w) h = h

-- `Send` to two chains that for each submission fail or return one id a message, for messages that
-- can all be marshalled: it neither panics nor returns an error, it keeps the messages, it leaves
-- one id slot for each message of each side, and if it reports success then every slot of both
-- sides is filled.
pub send-SendRecorded :
    {W : Type 0} (marshal : Msg → Option Bytes) (src dst : ProvableChain W) (r : RelayMsgs) (w : W)
    → Answers src
    → Answers dst
    → All (λ m. IsMarshalled (marshal m)) r.src
    → All (λ m. IsMarshalled (marshal m)) r.dst
    → SendRecorded r (send marshal src dst r w)
unfolding send close dst_side
send-SendRecorded marshal src dst r w answers answers' marshals marshals' =
    src-SendRecorded marshal src dst r answers' marshals'
      (send_side marshal src r r.src (start true (length r.src)) w)
      (send_side-Recorded marshal src r answers true r.src w marshals)
