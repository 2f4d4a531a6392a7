-- ===== src/RelayMsgs/Batches.antt =====
-- What `Send` submits: the batches hold the messages in order, and keep to the limits.
use yui_relayer.Base.{
  ℕ, ◌+◌, ◌^◌, ◌≤◌, ◌<◌, ◌≡◌, refl, ◌∙◌, ◌⊎◌, inl, inr, Bool, false, List, [], ◌∷◌, ◌++◌, Option,
  none, some, arith, length, length-append, concat, concat-append, append-nil, append_assoc, All,
  All-append, Outcome, Action, Error, ok, err, panic, set, Bool-cases, Option-cases, next, pure,
  is_empty, if◌then◌else◌,
}
use yui_relayer.Ibc.{Bytes}
use yui_relayer.Msg.{Msg, MsgId}
use yui_relayer.Chain.{ProvableChain}
use yui_relayer.RelayMsgs.{
  RelayMsgs, Batch, marshalled, is_max_tx, u64, store_ids, with_ids, submitted, submit, add_msg,
  send_loop, send_side, start,
}

-- The batches that a chain has been sent, in order.
abbrev pub Log : Type 0
Log = List (List Msg)

-- The chain's world is the log of what it was sent, whatever it answers.
abbrev pub Records : ProvableChain Log → Type 0
Records c = (ms : List Msg) (log : Log) → (c.send_msgs ms log).1 ≡ log ++ ms ∷ []

abbrev pub marshalled_size : Option Bytes → ℕ
marshalled_size none = 0
marshalled_size (some bz) = length bz

abbrev pub total_size : (Msg → Option Bytes) → List Msg → ℕ
total_size marshal [] = 0
total_size marshal (m ∷ ms) = marshalled_size (marshal m) + total_size marshal ms

pub total_size-append :
    (marshal : Msg → Option Bytes) (xs ys : List Msg)
    → total_size marshal (xs ++ ys) ≡ total_size marshal xs + total_size marshal ys
total_size-append marshal [] ys = omega arith
total_size-append marshal (x ∷ xs) ys = omega (arith, total_size-append marshal xs ys)

-- A batch keeps to the limits, a limit of 0 being none; a single message may be of any size.
pub record Fits (marshal : Msg → Option Bytes) (r : RelayMsgs) (ms : List Msg) : Type 0 where
  pub few : (r.max_msg_length ≡ 0) ⊎ (length ms ≤ r.max_msg_length)
  pub small : (r.max_tx_size ≡ 0) ⊎ (total_size marshal ms ≤ r.max_tx_size) ⊎ (length ms ≤ 1)

-- A submission keeps the loop's counters; it never ends in an error.
abbrev Keeps : {W : Type 0} → Batch → Outcome Batch × W → Type 0
Keeps b (ok b', w) = b' ≡ record b { is_success = b'.is_success; ids = b'.ids }
Keeps b (err e, w) = ⊥
Keeps b (panic, w) = Unit

store_ids-ne-err :
    (ids : List (Option MsgId)) (i : ℕ) (ms : List Msg) (new : List MsgId) (e : Error)
    → store_ids ids i ms new ≡ err e
    → ⊥
unfolding store_ids
store_ids-ne-err ids i [] new e h = cc
store_ids-ne-err ids i (m ∷ ms) [] e h = cc
store_ids-ne-err ids i (m ∷ ms) (n ∷ new) e h =
    ground (arith, store_ids-ne-err (set ids i (some n)) (i + 1) ms new e)

with_ids-Keeps :
    {W : Type 0} (b : Batch) (o : Outcome (List (Option MsgId))) (w : W)
    → ((e : Error) → o ≡ err e → ⊥)
    → Keeps b (with_ids b o, w)
with_ids-Keeps b (ok ids) w h = refl
with_ids-Keeps b (err e) w h = h e refl
with_ids-Keeps b panic w h = tt

submitted-Keeps :
    {W : Type 0} (b : Batch) (x : Outcome (List MsgId) × W)
    → Keeps b (submitted b x) × ((submitted b x).1 ≡ x.1)
unfolding submitted
submitted-Keeps b (ok new, w) = (
  with_ids-Keeps b (store_ids b.ids b.max_tx_count b.msgs new) w
      (store_ids-ne-err b.ids b.max_tx_count b.msgs new),
  refl,
)
submitted-Keeps b (err e, w) = (refl, refl)
submitted-Keeps b (panic, w) = (tt, refl)

module _ (marshal : Msg → Option Bytes) (r : RelayMsgs) (all : List Msg) where
  -- The current batch `msgs` with its counters after the submissions `log`, `rest` still to come.
  record Inv (msg_len tx_size : ℕ) (msgs : List Msg) (log : Log) (rest : List Msg) : Type 0 where
    whole : concat log ++ (msgs ++ rest) ≡ all
    counted : msg_len ≡ length msgs
    sized : tx_size ≡ total_size marshal msgs
    fits : Fits marshal r msgs
    logged : All (Fits marshal r) log
    room : length msgs + length rest < 2 ^ 64
    size_room : total_size marshal msgs + total_size marshal rest < 2 ^ 64

  abbrev Holds : List Msg → Outcome Batch × Log → Type 0
  Holds rest (ok b, log) = Inv b.msg_len b.tx_size b.msgs log rest
  Holds rest (err e, log) = ⊥
  Holds rest (panic, log) = Unit

  whole_flush :
      (log : Log) (msgs rest : List Msg) (msg : Msg)
      → concat (log ++ msgs ∷ []) ++ (msg ∷ [] ++ rest) ≡ concat log ++ (msgs ++ msg ∷ rest)
  whole_flush log msgs rest msg = simp (concat-append, append_assoc, append-nil)

  add-whole :
      (log : Log) (msgs rest : List Msg) (msg : Msg)
      → concat log ++ ((msgs ++ msg ∷ []) ++ rest) ≡ concat log ++ (msgs ++ msg ∷ rest)
  add-whole log msgs rest msg = simp append_assoc

  module _ (n size : ℕ) (msgs : List Msg) (log : Log) (msg : Msg) (bz : Bytes) (rest : List Msg)
      (e : marshal msg ≡ some bz) (h : Inv n size msgs log (msg ∷ rest)) where
    flushed-Inv : Inv 1 (u64 (length bz)) (msg ∷ []) (log ++ msgs ∷ []) rest
    flushed-Inv = record {
      whole = whole_flush log msgs rest msg ∙ h.whole;
      counted = refl;
      sized = ground arith;
      fits = record { few = grind arith; small = inr (inr (omega arith)) };
      logged = All-append (Fits marshal r) log (msgs ∷ []) h.logged (h.fits, tt);
      room = omega (arith, h.room);
      size_room = ground arith;
    }

    added-Inv :
        is_max_tx r (u64 (n + 1)) (u64 (size + length bz)) ≡ false
        → Inv (u64 (n + 1)) (u64 (size + length bz)) (msgs ++ msg ∷ []) log rest
    unfolding is_max_tx
    added-Inv small = record {
      whole = add-whole log msgs rest msg ∙ h.whole;
      counted = ground (arith, length-append msgs (msg ∷ []));
      sized = ground (arith, total_size-append marshal msgs (msg ∷ []));
      fits = record {
        few = ground (arith, length-append msgs (msg ∷ []));
        small = ground (arith, total_size-append marshal msgs (msg ∷ []));
      };
      logged = h.logged;
      room = omega (arith, h.room, length-append msgs (msg ∷ []));
      size_room = ground (arith, total_size-append marshal msgs (msg ∷ []));
    }

  begun : Msg → ℕ → Batch → Action Log Batch
  begun msg size b = pure (record b {
    max_tx_count = b.max_tx_count + length b.msgs;
    msg_len = 1;
    tx_size = u64 size;
    msgs = msg ∷ [];
  })

  -- The submission ended in `o`.
  begun-Inv :
      (msg : Msg) (bz : Bytes) (b : Batch) (log log' : Log) (rest : List Msg) (o : Outcome Batch)
      → marshal msg ≡ some bz
      → Inv b.msg_len b.tx_size b.msgs log (msg ∷ rest)
      → Keeps b (o, log')
      → log' ≡ log ++ b.msgs ∷ []
      → Holds rest (next (begun msg (length bz)) (o, log'))
  unfolding begun
  begun-Inv msg bz b log log' rest (ok b') e h k w =
      rw w (flushed-Inv b.msg_len b.tx_size b.msgs log msg bz rest e h)
  begun-Inv msg bz b log log' rest (err e') e h k w = k
  begun-Inv msg bz b log log' rest panic e h k w = tt

  module _ (c : ProvableChain Log) (records : Records c) where
    add_msg-Inv :
        (msg : Msg) (bz : Bytes) (b : Batch) (log : Log) (rest : List Msg)
        → marshal msg ≡ some bz
        → Inv b.msg_len b.tx_size b.msgs log (msg ∷ rest)
        → Holds rest (add_msg marshal c r msg (length bz) b log)
    unfolding add_msg begun
    add_msg-Inv msg bz b log rest e h =
        elim (Bool-cases (is_max_tx r (u64 (b.msg_len + 1)) (u64 (b.tx_size + length bz)))) [
          | inl over ↦ rw over (
              begun-Inv msg bz b log (submit marshal c r b log).1 rest (submit marshal c r b log).0
                e h sent.0 (sent.1 ∙ records b.msgs log))
          | inr fit ↦ rw fit (added-Inv b.msg_len b.tx_size b.msgs log msg bz rest e h fit)
        ]
      where
        sent :
            Keeps b (submit marshal c r b log)
            × ((submit marshal c r b log).1 ≡ (c.send_msgs b.msgs log).1)
        sent = submitted-Keeps b (c.send_msgs b.msgs log)

    -- The rest of the loop, after a step that ended in the first argument.
    next-Holds :
        (x : Outcome Batch × Log) (rest : List Msg)
        → Holds rest x
        → ((b : Batch) (log : Log)
            → Inv b.msg_len b.tx_size b.msgs log rest
            → Holds [] (send_loop marshal c r rest b log))
        → Holds [] (next (send_loop marshal c r rest) x)
    next-Holds (ok b, log) rest h ih = ih b log h
    next-Holds (err e, log) rest h ih = h
    next-Holds (panic, log) rest h ih = tt

    send_loop-Inv :
        (rest : List Msg) (b : Batch) (log : Log)
        → Inv b.msg_len b.tx_size b.msgs log rest
        → Holds [] (send_loop marshal c r rest b log)
    unfolding send_loop
    send_loop-Inv [] b log h = h
    send_loop-Inv (msg ∷ rest) b log h = elim (Option-cases (marshal msg)) [
      | inl lost ↦ rw (lost, marshalled) tt
      | inr (bz, e) ↦
          rw (e, marshalled)
            (next-Holds (add_msg marshal c r msg (length bz) b log) rest
              (add_msg-Inv msg bz b log rest e h) (send_loop-Inv rest))
    ]

-- How one side of `Send` ended: the batches hold exactly `ms`, in order, and each fits.
abbrev pub Sent : (Msg → Option Bytes) → RelayMsgs → List Msg → Outcome Batch × Log → Type 0
Sent marshal r ms (ok b, log) = (concat log ≡ ms) × All (Fits marshal r) log
Sent marshal r ms (err e, log) = ⊥
Sent marshal r ms (panic, log) = Unit

module _ (marshal : Msg → Option Bytes) (c : ProvableChain Log) (r : RelayMsgs)
    (records : Records c) (all : List Msg) where
  left_over :
      (b : Batch) (log : Log) (x : Outcome Batch × Log)
      → Inv marshal r all b.msg_len b.tx_size b.msgs log []
      → Keeps b x
      → x.1 ≡ log ++ b.msgs ∷ []
      → Sent marshal r all x
  left_over b log (ok b', log') h k w = rw w (
    simp (concat-append, append-nil) (rw append-nil at h.whole),
    All-append (Fits marshal r) log (b.msgs ∷ []) h.logged (h.fits, tt),
  )
  left_over b log (err e, log') h k w = k
  left_over b log (panic, log') h k w = tt

  leave : Batch → Action Log Batch
  leave b = if is_empty b.msgs then pure b else submit marshal c r b

  left :
      (b : Batch) (log : Log) (ms : List Msg)
      → ms ≡ b.msgs
      → Inv marshal r all b.msg_len b.tx_size b.msgs log []
      → Sent marshal r all ((if is_empty ms then pure b else submit marshal c r b) log)
  left b log [] e h = (rw append-nil at (rw (← e) at h.whole), h.logged)
  left b log (m ∷ ms) e h =
      let (k, w) = submitted-Keeps b (c.send_msgs b.msgs log) in
      unfold submit in left_over b log (submit marshal c r b log) h k (w ∙ records b.msgs log)

  ended : (x : Outcome Batch × Log) → Holds marshal r all [] x → Sent marshal r all (next leave x)
  unfolding leave
  ended (ok b, log) h = left b log b.msgs refl h
  ended (err e, log) h = h
  ended (panic, log) h = tt

  -- One side of `Send` to a chain that logs what it is sent, from an empty log, for messages
  -- whose number and whose total size stay below 2^64: unless it panics, the batches that were
  -- submitted hold the messages, each once and in order; each batch keeps to the message limit, and
  -- to the size limit if it holds more than one message; and the call returns no error.
  pub send_side-Sent :
      (is_success : Bool) (n : ℕ)
      → length all < 2 ^ 64
      → total_size marshal all < 2 ^ 64
      → Sent marshal r all (send_side marshal c r all (start is_success n) [])
  unfolding send_side start leave
  send_side-Sent is_success n room size_room =
      ended (send_loop marshal c r all (start is_success n) []) (
        send_loop-Inv marshal r all c records all (start is_success n) [] (record {
          whole = refl;
          counted = refl;
          sized = refl;
          fits = record { few = grind arith; small = inr (inr (omega arith)) };
          logged = tt;
          room = omega (arith, room);
          size_room = omega (arith, size_room);
        }))
