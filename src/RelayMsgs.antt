-- ===== src/RelayMsgs.antt =====
-- core/relayMsgs.go: the messages of one relay round, and `Send`, which submits them in batches.
-- `Send` has the same loop twice, for src and for dst; `send_side` is that loop. Go's `uint64`
-- counters wrap at 2^64.
pub mod Batches
pub mod Ids
pub mod Slots
use yui_relayer.Base.{
  ℕ, ◌+◌, ◌%◌, ◌^◌, Bool, true, false, not, ◌&&◌, ◌||◌, List, [], ◌∷◌, ◌++◌, Option, none, some,
  ltb, ◌==◌, if◌then◌else◌, length, is_empty, replicate, set, Outcome, ok, err, panic, Action, pure,
  crash, ◌>>=◌,
}
use yui_relayer.Ibc.{Bytes}
use yui_relayer.Msg.{Msg, MsgId}
use yui_relayer.Chain.{ProvableChain}

-- RelayMsgs; a slot of the id lists is nil until its batch is accepted.
pub record RelayMsgs : Type 0 where
  pub src : List Msg
  pub dst : List Msg
  pub max_tx_size : ℕ
  pub max_msg_length : ℕ
  pub last : Bool
  pub succeeded : Bool
  pub src_msg_ids : List (Option MsgId)
  pub dst_msg_ids : List (Option MsgId)

-- NewRelayMsgs
unfoldable pub new_relay_msgs : RelayMsgs
new_relay_msgs = record {
  src = [];
  dst = [];
  max_tx_size = 0;
  max_msg_length = 0;
  last = false;
  succeeded = false;
  src_msg_ids = [];
  dst_msg_ids = [];
}

-- RelayMsgs.Ready
unfoldable pub ready : RelayMsgs → Bool
ready r = not (is_empty r.src) || not (is_empty r.dst)

-- RelayMsgs.IsMaxTx
unfoldable pub is_max_tx : RelayMsgs → ℕ → ℕ → Bool
is_max_tx r msg_len tx_size =
    (not (r.max_msg_length == 0) && ltb r.max_msg_length msg_len)
    || (not (r.max_tx_size == 0) && ltb r.max_tx_size tx_size)

-- RelayMsgs.Merge
unfoldable pub merge : RelayMsgs → RelayMsgs → RelayMsgs
merge r other = record r { src = r.src ++ other.src; dst = r.dst ++ other.dst }

abbrev pub u64 : ℕ → ℕ
u64 n = n % 2 ^ 64

-- The variables of the loop.
pub record Batch : Type 0 where
  pub msg_len : ℕ
  pub tx_size : ℕ
  pub msgs : List Msg
  pub max_tx_count : ℕ
  pub is_success : Bool
  pub ids : List (Option MsgId)

unfoldable pub start : Bool → ℕ → Batch
start is_success n = record {
  msg_len = 0;
  tx_size = 0;
  msgs = [];
  max_tx_count = 0;
  is_success = is_success;
  ids = replicate n none;
}

-- `for i := range msgs { ids[i+maxTxCount] = msgIDs[i] }`, with Go's index checks.
unfoldable pub store_ids :
    List (Option MsgId) → ℕ → List Msg → List MsgId → Outcome (List (Option MsgId))
store_ids ids i [] new = ok ids
store_ids ids i (m ∷ msgs) [] = panic
store_ids ids i (m ∷ msgs) (n ∷ new) =
    let rest = store_ids (set ids i (some n)) (i + 1) msgs new in
    if ltb i (length ids) then rest else panic

abbrev pub with_ids : Batch → Outcome (List (Option MsgId)) → Outcome Batch
with_ids b (ok ids) = ok (record b { ids = ids })
with_ids b (err e) = err e
with_ids b panic = panic

-- A failed submission is recorded, and the loop goes on.
unfoldable pub submitted : {W : Type 0} → Batch → Outcome (List MsgId) × W → Outcome Batch × W
unfolding store_ids
submitted b (ok new, w) = (with_ids b (store_ids b.ids b.max_tx_count b.msgs new), w)
submitted b (err e, w) = (ok (record b { is_success = false }), w)
submitted b (panic, w) = (panic, w)

module _ {W : Type 0} (marshal : Msg → Option Bytes) (chain : ProvableChain W) (r : RelayMsgs) where
  unfoldable pub submit : Batch → Action W Batch
  unfolding submitted
  submit b w = submitted b (chain.send_msgs b.msgs w)

  -- The current batch is submitted, and the message begins the next one.
  unfoldable pub flush : Msg → ℕ → Batch → Action W Batch
  unfolding submit
  flush msg size b = do
    b' ← submit b
    pure (record b' {
      max_tx_count = b'.max_tx_count + length b'.msgs;
      msg_len = 1;
      tx_size = u64 size;
      msgs = msg ∷ [];
    })

  -- A message joins the batch, or begins the next one if it would make this one too large.
  unfoldable pub add_msg : Msg → ℕ → Batch → Action W Batch
  unfolding flush is_max_tx
  add_msg msg size b =
      let msg_len = u64 (b.msg_len + 1) in
      let tx_size = u64 (b.tx_size + size) in
      if is_max_tx r msg_len tx_size
      then flush msg size b
      else pure (record b { msg_len = msg_len; tx_size = tx_size; msgs = b.msgs ++ msg ∷ [] })

  -- A message that cannot be marshalled ends the program.
  abbrev pub marshalled : Option Bytes → (ℕ → Action W Batch) → Action W Batch
  marshalled none k = crash
  marshalled (some bz) k = k (length bz)

  unfoldable pub send_loop : List Msg → Batch → Action W Batch
  unfolding add_msg
  send_loop [] b = pure b
  send_loop (msg ∷ msgs) b = do
    b' ← marshalled (marshal msg) (λ size. add_msg msg size b)
    send_loop msgs b'

  -- One side of `Send`, the submission of what is left over included.
  unfoldable pub send_side : List Msg → Batch → Action W Batch
  unfolding send_loop submit
  send_side msgs b = do b' ← send_loop msgs b; if is_empty b'.msgs then pure b' else submit b'

-- RelayMsgs.Send
unfoldable pub send :
    {W : Type 0}
    → (Msg → Option Bytes)
    → ProvableChain W
    → ProvableChain W
    → RelayMsgs
    → Action W RelayMsgs
unfolding send_side start
send marshal src dst r = do
  b ← send_side marshal src r r.src (start true (length r.src))
  b' ← send_side marshal dst r r.dst (start b.is_success (length r.dst))
  pure (record r { succeeded = b'.is_success; src_msg_ids = b.ids; dst_msg_ids = b'.ids })
