-- ===== src/RelayMsgs/Slots.antt =====
-- The id slots while the loop of `Send` runs (core/relayMsgs.go).
use yui_relayer.Base.{
  ℕ, suc, ◌+◌, ◌≡◌, refl, sym, ap, ◌∙◌, inl, inr, Bool, true, List, [], ◌∷◌, ◌++◌, Option, none,
  some, arith, ltb, length, length-append, length-replicate, replicate, append_assoc, All,
  All-append, Outcome, ok, err, panic, Action, next, pure, set, Bool-cases, Option-cases, map,
}
use yui_relayer.Ibc.{Bytes}
use yui_relayer.Msg.{Msg, MsgId}
use yui_relayer.Chain.{ProvableChain}
use yui_relayer.RelayMsgs.{
  RelayMsgs, Batch, is_max_tx, u64, store_ids, submitted, submit, add_msg, send_loop, marshalled,
}

abbrev pub IsFilled : Option MsgId → Type 0
IsFilled none = ⊥
IsFilled (some n) = Unit

-- `SendMsgs` fails, or returns one id for each message.
abbrev pub Answered : List Msg → Outcome (List MsgId) → Type 0
Answered ms (ok new) = length new ≡ length ms
Answered ms (err e) = Unit
Answered ms panic = ⊥

abbrev pub Answers : {W : Type 0} → ProvableChain W → Type 0
Answers {W} c = (ms : List Msg) (w : W) → Answered ms (c.send_msgs ms w).0

abbrev pub IsMarshalled : Option Bytes → Type 0
IsMarshalled none = ⊥
IsMarshalled (some bz) = Unit

pub set-append :
    (xs : List (Option MsgId)) (y v : Option MsgId) (ys : List (Option MsgId))
    → set (xs ++ y ∷ ys) (length xs) v ≡ xs ++ v ∷ ys
set-append [] y v ys = refl
set-append (x ∷ xs) y v ys = ap (λ l. x ∷ l) (set-append xs y v ys)

pub lt-length-append :
    (xs : List (Option MsgId)) (y : Option MsgId) (ys : List (Option MsgId))
    → ltb (length xs) (length (xs ++ y ∷ ys)) ≡ true
lt-length-append xs y ys = ground (arith, length-append xs (y ∷ ys))

pub shift :
    (xs : List (Option MsgId)) (y : Option MsgId) (ys : List (Option MsgId))
    → (xs ++ y ∷ []) ++ ys ≡ xs ++ y ∷ ys
shift xs y ys = simp append_assoc

pub length-snoc :
    (xs : List (Option MsgId)) (y : Option MsgId) → length (xs ++ y ∷ []) ≡ length xs + 1
length-snoc xs y = omega (arith, length-append xs (y ∷ []))

-- The ids of one batch go into the slots behind those of the batches before it.
pub store_ids_lem :
    (before : List (Option MsgId)) (k : ℕ) (ms : List Msg) (new : List MsgId)
    → length new ≡ length ms
    → store_ids (before ++ (replicate (length ms) none ++ replicate k none)) (length before) ms new
      ≡ ok (before ++ (map some new ++ replicate k none))
unfolding store_ids
store_ids_lem before k [] [] e = refl
store_ids_lem before k [] (n ∷ new) e = absurd (omega arith)
store_ids_lem before k (m ∷ ms) [] e = absurd (omega arith)
store_ids_lem before k (m ∷ ms) (n ∷ new) e =
    let slots : List (Option MsgId) = replicate (length ms) none ++ replicate k none in
    let ih = store_ids_lem (before ++ some n ∷ []) k ms new (omega arith) in
    rw (lt-length-append before none slots, set-append before none (some n) slots)
      (rw
        (
          shift before (some n) slots,
          shift before (some n) (map some new ++ replicate k none),
          length-snoc before (some n),
        )
        at ih)

-- The slots of the batches that are done are `before`; the current batch and the `k` messages to
-- come have none. While no submission has failed, the slots that are done are filled.
pub record Slots (s0 : Bool) (b : Batch) (k : ℕ) (n : ℕ) : Type 0 where
  pub before : List (Option MsgId)
  pub laid_out : b.ids ≡ before ++ (replicate (length b.msgs) none ++ replicate k none)
  pub at_count : b.max_tx_count ≡ length before
  pub filled : b.is_success ≡ true → (s0 ≡ true) × All IsFilled before
  pub total : length before + (length b.msgs + k) ≡ n

pub All-map-some : (new : List MsgId) → All IsFilled (map some new)
All-map-some [] = tt
All-map-some (n ∷ new) = (tt, All-map-some new)

pub length-map-some : (new : List MsgId) → length (map {B = Option MsgId} some new) ≡ length new
length-map-some [] = refl
length-map-some (n ∷ new) = ap suc (length-map-some new)

-- After a submission: the batch's slots are laid out, and filled if no submission has failed.
pub record Stored (s0 : Bool) (b b' : Batch) (k n : ℕ) : Type 0 where
  pub same : b' ≡ record b { is_success = b'.is_success; ids = b'.ids }
  pub upto : List (Option MsgId)
  pub laid_out : b'.ids ≡ upto ++ replicate k none
  pub count : length upto ≡ b.max_tx_count + length b.msgs
  pub filled : b'.is_success ≡ true → (s0 ≡ true) × All IsFilled upto
  pub total : length upto + k ≡ n

abbrev pub StoredOutcome : {W : Type 0} → Bool → Batch → ℕ → ℕ → Outcome Batch × W → Type 0
StoredOutcome s0 b k n (ok b', w) = Stored s0 b b' k n
StoredOutcome s0 b k n (err e, w) = ⊥
StoredOutcome s0 b k n (panic, w) = ⊥

pub submitted-Stored :
    {W : Type 0} (s0 : Bool) (b : Batch) (k n : ℕ) (x : Outcome (List MsgId)) (w : W)
    → Slots s0 b k n
    → Answered b.msgs x
    → StoredOutcome s0 b k n (submitted b (x, w))
unfolding submitted
submitted-Stored s0 b k n (ok new) w s a =
    rw (s.laid_out, s.at_count, store_ids_lem s.before k b.msgs new a)
      record {
        same = refl;
        upto = s.before ++ map some new;
        laid_out = sym (append_assoc s.before (map some new) (replicate k none));
        count = omega (arith, length-append s.before (map some new), length-map-some new);
        filled = λ h. (
          (s.filled h).0,
          All-append IsFilled s.before (map some new) (s.filled h).1 (All-map-some new),
        );
        total = omega (arith, length-append s.before (map some new), length-map-some new, s.total);
      }
submitted-Stored s0 b k n (err e) w s a = record {
  same = refl;
  upto = s.before ++ replicate (length b.msgs) none;
  laid_out =
      s.laid_out ∙ sym (append_assoc s.before (replicate (length b.msgs) none) (replicate k none));
  count = omega (
    arith,
    length-append s.before (replicate (length b.msgs) none),
    length-replicate {A = Option MsgId} (length b.msgs) none,
    s.at_count,
  );
  filled = λ h. cc;
  total = omega (
    arith,
    length-append s.before (replicate (length b.msgs) none),
    length-replicate {A = Option MsgId} (length b.msgs) none,
    s.total,
  );
}
submitted-Stored s0 b k n panic w s a = a

pub replicate-snoc :
    (ms : List Msg) (m : Msg) (k : ℕ)
    → replicate {A = Option MsgId} (length ms) none ++ replicate (suc k) none
      ≡ replicate (length (ms ++ m ∷ [])) none ++ replicate k none
replicate-snoc [] m k = refl
replicate-snoc (x ∷ ms) m k = ap (λ l. none ∷ l) (replicate-snoc ms m k)

abbrev pub SlotsOutcome : {W : Type 0} → Bool → ℕ → ℕ → Outcome Batch × W → Type 0
SlotsOutcome s0 k n (ok b, w) = Slots s0 b k n
SlotsOutcome s0 k n (err e, w) = ⊥
SlotsOutcome s0 k n (panic, w) = ⊥

module _ {W : Type 0} (marshal : Msg → Option Bytes) (c : ProvableChain W) (r : RelayMsgs)
    (answers : Answers c) (s0 : Bool) (n : ℕ) where
  pub begun : Msg → ℕ → Batch → Action W Batch
  begun msg size b = pure (record b {
    max_tx_count = b.max_tx_count + length b.msgs;
    msg_len = 1;
    tx_size = u64 size;
    msgs = msg ∷ [];
  })

  pub begun-Slots :
      (msg : Msg) (size k : ℕ) (b : Batch) (x : Outcome Batch × W)
      → StoredOutcome s0 b (suc k) n x
      → SlotsOutcome s0 k n (next (begun msg size) x)
  unfolding begun
  begun-Slots msg size k b (ok b', w) s = record {
    before = s.upto;
    laid_out = s.laid_out;
    at_count = rw s.same (sym s.count);
    filled = s.filled;
    total = omega (arith, s.total);
  }
  begun-Slots msg size k b (err e, w) s = s
  begun-Slots msg size k b (panic, w) s = s

  pub submit-Stored :
      (b : Batch) (k : ℕ) (w : W) → Slots s0 b k n → StoredOutcome s0 b k n (submit marshal c r b w)
  unfolding submit
  submit-Stored b k w s =
      submitted-Stored s0 b k n (c.send_msgs b.msgs w).0 (c.send_msgs b.msgs w).1 s
        (answers b.msgs w)

  pub add_msg-Slots :
      (msg : Msg) (size k : ℕ) (b : Batch) (w : W)
      → Slots s0 b (suc k) n
      → SlotsOutcome s0 k n (add_msg marshal c r msg size b w)
  unfolding add_msg begun
  add_msg-Slots msg size k b w s =
      elim (Bool-cases (is_max_tx r (u64 (b.msg_len + 1)) (u64 (b.tx_size + size)))) [
        | inl over ↦
            rw over
              (begun-Slots msg size k b (submit marshal c r b w) (submit-Stored b (suc k) w s))
        | inr fit ↦ rw fit record {
          before = s.before;
          laid_out = s.laid_out ∙ ap (λ l. s.before ++ l) (replicate-snoc b.msgs msg k);
          at_count = s.at_count;
          filled = s.filled;
          total = omega (arith, s.total, length-append b.msgs (msg ∷ []));
        }
      ]

  -- The rest of the loop, after a step that ended in the first argument.
  pub loop_next :
      (x : Outcome Batch × W) (rest : List Msg)
      → SlotsOutcome s0 (length rest) n x
      → ((b : Batch) (w : W)
          → Slots s0 b (length rest) n
          → SlotsOutcome s0 0 n (send_loop marshal c r rest b w))
      → SlotsOutcome s0 0 n (next (send_loop marshal c r rest) x)
  loop_next (ok b, w) rest h ih = ih b w h
  loop_next (err e, w) rest h ih = h
  loop_next (panic, w) rest h ih = h

  pub send_loop-Slots :
      (rest : List Msg) (b : Batch) (w : W)
      → All (λ m. IsMarshalled (marshal m)) rest
      → Slots s0 b (length rest) n
      → SlotsOutcome s0 0 n (send_loop marshal c r rest b w)
  unfolding send_loop
  send_loop-Slots [] b w m s = s
  send_loop-Slots (msg ∷ rest) b w m s = elim (Option-cases (marshal msg)) [
    | inl lost ↦ absurd (rw lost at m.0)
    | inr (bz, e) ↦
        rw (e, marshalled)
          (loop_next (add_msg marshal c r msg (length bz) b w) rest
            (add_msg-Slots msg (length bz) (length rest) b w s)
            (λ b' w'. send_loop-Slots rest b' w' m.1))
  ]
