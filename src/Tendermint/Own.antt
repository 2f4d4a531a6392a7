-- ===== src/Tendermint/Own.antt =====
-- The event logs of a message's result are those of its own events (chains/tendermint).
use yui_relayer.Base.{
  ℕ, String, Bool, true, false, List, [], ◌∷◌, Option, none, some, ◌≡◌, refl, Action, pure, ◌>>=◌,
  if◌then◌else◌, Answered, Returns, Returns-then, Returns-asked, Returns-mono,
}
use yui_relayer.Msg.{tendermint, MsgResult, MsgEventLog}
use yui_relayer.Events.{Event}
use yui_relayer.Tendermint.{
  Types, Committed, is_own, msg_index_of, parse_msg_event_log, parse_msg_event_logs, result_of,
  get_msg_result,
}

-- The logs of the events of one message, in the order of the events: an event with another index, or
-- with none, gives no log, and an event with the index gives the log that it is parsed to.
pub data Own (W : Type 0) (types : Types) (msg_index : ℕ)
    : List Event → List MsgEventLog → Type 0 where
  no_event : Own W types msg_index [] []
  other_event :
      {ev : Event} {events : List Event} {logs : List MsgEventLog} (index : Option ℕ)
      → Answered {W = W} (msg_index_of ev) index
      → is_own msg_index index ≡ false
      → Own W types msg_index events logs
      → Own W types msg_index (ev ∷ events) logs
  own_event :
      {ev : Event} {events : List Event} {log : MsgEventLog} {logs : List MsgEventLog}
      (index : Option ℕ)
      → Answered {W = W} (msg_index_of ev) index
      → is_own msg_index index ≡ true
      → Answered {W = W} (parse_msg_event_log types ev) log
      → Own W types msg_index events logs
      → Own W types msg_index (ev ∷ events) (log ∷ logs)

module _ {W : Type 0} (types : Types) where
  parse_msg_event_logs-Own :
      (msg_index : ℕ) (events : List Event) (w : W)
      → Returns (Own W types msg_index events) (parse_msg_event_logs types events msg_index w)
  unfolding parse_msg_event_logs
  parse_msg_event_logs-Own msg_index [] w = no_event
  parse_msg_event_logs-Own msg_index (ev ∷ events) w =
      Returns-asked P _ (msg_index_of ev w) (λ index w1 a.
        chosen (parse_msg_event_logs-Own msg_index events) index w1 (w, w1, a)
          (is_own msg_index index) refl)
    where
      P : List MsgEventLog → Type 0
      P = Own W types msg_index (ev ∷ events)

      rest : Action W (List MsgEventLog)
      rest = parse_msg_event_logs types events msg_index

      chosen :
          ((w : W) → Returns (Own W types msg_index events) (rest w))
          → (index : Option ℕ) (w : W) → Answered {W = W} (msg_index_of ev) index
          → (b : Bool) → is_own msg_index index ≡ b
          → Returns P (
              (if b
                  then (parse_msg_event_log types ev >>= λ log. rest >>= λ logs. pure (log ∷ logs))
                  else rest)
                w)
      chosen ih index w a true e = Returns-asked P _ (parse_msg_event_log types ev w) (λ log w1 b.
          Returns-then P (Own W types msg_index events) _ (rest w1) (ih w1)
            (λ logs w2 h. own_event index a e (w, w1, b) h))
      chosen ih index w a false e =
          Returns-mono (Own W types msg_index events) P (rest w) (λ logs h. other_event index a e h)
            (ih w)

-- What GetMsgResult returns for a transaction that has been committed: the failure of the transaction,
-- with no event; or a success with the logs of the message's own events.
pub data ResultOf (W : Type 0) (types : Types) (number msg_index : ℕ) (tx : Committed)
    : MsgResult → Type 0 where
  has_failed :
      (text : String)
      → tx.failure ≡ some text
      → ResultOf W types number msg_index tx (record {
        block_height = record { revision_number = number; revision_height = tx.height };
        is_success = false;
        failure_reason = text;
        events = [];
      })
  has_succeeded :
      (logs : List MsgEventLog)
      → tx.failure ≡ none
      → Own W types msg_index tx.events logs
      → ResultOf W types number msg_index tx (record {
        block_height = record { revision_number = number; revision_height = tx.height };
        is_success = true;
        failure_reason = "";
        events = logs;
      })

module _ {W : Type 0} (types : Types) (parse_chain_id : String → ℕ)
    (wait_for_commit : String → Action W Committed) where
  -- For every message id of the tendermint module: when GetMsgResult returns a result, the node has
  -- given the transaction, and the result is at its height, on the revision of the chain; it is the
  -- failure of the transaction, or a success with one log for each event of the transaction that has
  -- the index of the message, in order, which the event has been parsed to.
  pub get_msg_result-ResultOf :
      (chain_id tx_hash : String) (msg_index : ℕ) (w : W)
      → Returns
          (λ res.
            (tx : Committed) × Answered (wait_for_commit tx_hash) tx
            × ResultOf W types (parse_chain_id chain_id) msg_index tx res)
          (get_msg_result types parse_chain_id wait_for_commit chain_id
            (tendermint tx_hash msg_index)
            w)
  unfolding get_msg_result
  get_msg_result-ResultOf chain_id tx_hash msg_index w =
      Returns-asked P _ (wait_for_commit tx_hash w)
        (λ tx w1 a. resulted tx w1 (w, w1, a) tx.failure refl)
    where
      P : MsgResult → Type 0
      P res =
          (tx : Committed) × Answered (wait_for_commit tx_hash) tx
          × ResultOf W types (parse_chain_id chain_id) msg_index tx res

      resulted :
          (tx : Committed) (w : W)
          → Answered (wait_for_commit tx_hash) tx
          → (failure : Option String) → tx.failure ≡ failure
          → Returns P (
              result_of
                (record { revision_number = parse_chain_id chain_id; revision_height = tx.height })
                failure
                (parse_msg_event_logs types tx.events msg_index)
                w)
      resulted tx w a none e =
          Returns-then P (Own W types msg_index tx.events) _
            (parse_msg_event_logs types tx.events msg_index w)
            (parse_msg_event_logs-Own types msg_index tx.events w)
            (λ logs w1 h. (tx, a, has_succeeded logs e h))
      resulted tx w a (some text) e = (tx, a, has_failed text e)
