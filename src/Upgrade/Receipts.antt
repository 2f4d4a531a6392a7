-- ===== src/Upgrade/Receipts.antt =====
-- The error receipt that a cancellation carries (core/channel-upgrade.go), in buildActionMsg and in
-- CancelChannelUpgrade.
use yui_relayer.Base.{
  ℕ, String, Bool, true, false, List, [], ◌∷◌, ◌++◌, Option, none, some, ◌==◌, ◌≡◌, refl,
  Bool-cases, inl, inr, Answered, Returns, Returns-then, Returns-asked, Returns-mono,
  Returns-Answered, arith,
}
use yui_relayer.Ibc.{Height, Header, Channel, ErrorReceipt, Response, Functions}
use yui_relayer.Ibc.ChannelStates.{is_flushcomplete}
use yui_relayer.Msg.{Msg}
use yui_relayer.PathEnd.Messages.{chan_upgrade_cancel, update_clients}
use yui_relayer.Chain.{ProvableChain}
use yui_relayer.Query.{prove_channel_upgrade_error}
use yui_relayer.Headers.{SyncHeaders}
use yui_relayer.Upgrade.States.{cancel, cancel_flushcomplete}
use yui_relayer.Upgrade.Actions.{End, sequence}
use yui_relayer.Upgrade.Messages.{no_receipt, matching_receipt, receipt_or_empty, build_action_msg}
use yui_relayer.Upgrade.Run.{receipt_for, send_each, cancel_settled}

-- The receipt that justifies the cancellation of the upgrade `n`, with its proof. A chain in FLUSHCOMPLETE
-- (`true`) needs a receipt of its counterparty for this upgrade; another carries the receipt that there
-- is, or an empty one.
pub data Justified {W : Type 0} (ibc : Functions) (n : ℕ) (ctx : Height) (cp : ProvableChain W)
    : Bool → Response ErrorReceipt → Type 0 where
  matching :
      {proved : Response ErrorReceipt} (receipt : Response ErrorReceipt)
      → Answered (cp.query_channel_upgrade_error ctx) (some receipt)
      → receipt.value.sequence ≡ n
      → Answered (prove_channel_upgrade_error ibc ctx cp receipt) proved
      → Justified ibc n ctx cp true proved
  any_receipt :
      {proved : Response ErrorReceipt} (receipt : Response ErrorReceipt)
      → Answered (cp.query_channel_upgrade_error ctx) (some receipt)
      → Answered (prove_channel_upgrade_error ibc ctx cp receipt) proved
      → Justified ibc n ctx cp false proved
  without_receipt :
      Answered (cp.query_channel_upgrade_error ctx) none → Justified ibc n ctx cp false no_receipt

-- What CancelChannelUpgrade has sent: updates of the client with the counterparty's headers, and the
-- cancellation with a receipt that justifies it.
pub record Cancelled {W : Type 0} (ibc : Functions) (chain cp : ProvableChain W) (sh : SyncHeaders)
    (ctx : Height) (chann : Response Channel) : Type 0 where
  pub headers : List Header
  pub receipt : Response ErrorReceipt
  pub addr : String
  pub updates : List Msg
  pub headers_answered :
      Answered (cp.setup_headers_for_update chain.chain_id (sh cp.chain_id)) headers
  pub is_justified :
      Justified ibc chann.value.upgrade_sequence ctx cp (is_flushcomplete chann.value.state) receipt
  pub addr_answered : Answered chain.get_address_string addr
  pub updates_made : Answered {W = W} (update_clients chain.path headers addr) updates
  pub were_sent :
      Answered
        (send_each ibc chain (updates ++ chan_upgrade_cancel chain.path receipt addr ∷ []))
        tt

module _ {W : Type 0} (ibc : Functions) where
  matching_receipt-Justified :
      (n : ℕ) (ctx : Height) (cp : ProvableChain W) (found : Option (Response ErrorReceipt)) (w : W)
      → Answered (cp.query_channel_upgrade_error ctx) found
      → Returns (Justified ibc n ctx cp true) (matching_receipt ibc n ctx cp found w)
  unfolding matching_receipt
  matching_receipt-Justified n ctx cp none w a = tt
  matching_receipt-Justified n ctx cp (some receipt) w a =
      elim (Bool-cases (receipt.value.sequence == n)) [
        | inl y ↦ rw y (
            Returns-mono (Answered (prove_channel_upgrade_error ibc ctx cp receipt))
              (Justified ibc n ctx cp true) (prove_channel_upgrade_error ibc ctx cp receipt w)
              (λ proved p. matching receipt a (ground arith) p)
              (Returns-Answered (prove_channel_upgrade_error ibc ctx cp receipt) w))
        | inr y ↦ rw y tt
      ]

  receipt_or_empty-Justified :
      (n : ℕ) (ctx : Height) (cp : ProvableChain W) (found : Option (Response ErrorReceipt)) (w : W)
      → Answered (cp.query_channel_upgrade_error ctx) found
      → Returns (Justified ibc n ctx cp false) (receipt_or_empty ibc ctx cp found w)
  unfolding receipt_or_empty
  receipt_or_empty-Justified n ctx cp none w a = without_receipt a
  receipt_or_empty-Justified n ctx cp (some receipt) w a =
      Returns-mono (Answered (prove_channel_upgrade_error ibc ctx cp receipt))
        (Justified ibc n ctx cp false) (prove_channel_upgrade_error ibc ctx cp receipt w)
        (λ proved p. any_receipt receipt a p)
        (Returns-Answered (prove_channel_upgrade_error ibc ctx cp receipt) w)

  receipt_for-Justified :
      (chann : Response Channel) (ctx : Height) (cp : ProvableChain W)
      (found : Option (Response ErrorReceipt)) (w : W)
      → Answered (cp.query_channel_upgrade_error ctx) found
      → Returns
          (Justified ibc chann.value.upgrade_sequence ctx cp (is_flushcomplete chann.value.state))
          (receipt_for ibc chann ctx cp found w)
  unfolding receipt_for
  receipt_for-Justified chann ctx cp found w a =
      elim (Bool-cases (is_flushcomplete chann.value.state)) [
        | inl y ↦ rw y (matching_receipt-Justified chann.value.upgrade_sequence ctx cp found w a)
        | inr y ↦ rw y (receipt_or_empty-Justified chann.value.upgrade_sequence ctx cp found w a)
      ]

  cancel_settled-Cancelled :
      (chain cp : ProvableChain W) (sh : SyncHeaders) (ctx : Height) (chann : Response Channel)
      (w : W)
      → Returns
          (λ u. Cancelled ibc chain cp sh ctx chann)
          (cancel_settled ibc chain cp sh ctx chann w)
  unfolding cancel_settled
  cancel_settled-Cancelled chain cp sh ctx chann w =
      Returns-asked P _ (cp.setup_headers_for_update chain.chain_id (sh cp.chain_id) w)
        (λ headers w1 a. Returns-asked P _ (cp.query_channel_upgrade_error ctx w1) (λ found w2 b.
          Returns-then P J _ (receipt_for ibc chann ctx cp found w2)
            (receipt_for-Justified chann ctx cp found w2 (w1, w2, b))
            (λ receipt w3 j. Returns-asked P _ (chain.get_address_string w3) (λ addr w4 c.
              Returns-asked P _ (update_clients chain.path headers addr w4) (λ updates w5 d.
                Returns-asked P _
                  (send_each ibc chain (updates ++ chan_upgrade_cancel chain.path receipt addr ∷ [])
                    w5)
                  (λ u w6 e. record {
                    headers = headers;
                    receipt = receipt;
                    addr = addr;
                    updates = updates;
                    headers_answered = (w, w1, a);
                    is_justified = j;
                    addr_answered = (w3, w4, c);
                    updates_made = (w4, w5, d);
                    were_sent = (w5, w6, e);
                  }))))))
    where
      P : Bool → Type 0
      P u = Cancelled ibc chain cp sh ctx chann

      J : Response ErrorReceipt → Type 0
      J = Justified ibc chann.value.upgrade_sequence ctx cp (is_flushcomplete chann.value.state)

  -- For every chain and its counterparty: when buildActionMsg returns for CANCEL_FLUSHCOMPLETE, its
  -- message is the cancellation with a receipt that the counterparty has answered for the chain's upgrade
  -- sequence, and that has been proved; for CANCEL, with the receipt that the counterparty has answered,
  -- proved, or an empty one where it has none. When the settled part of CancelChannelUpgrade returns, it
  -- has sent the client updates and then the cancellation, and the receipt is chosen in the same way, by
  -- whether the chain is in FLUSHCOMPLETE.
  pub cancel-Justified :
      (self cp : End W) (addr : String) (sh : SyncHeaders) (w : W)
      → Returns
          (λ msg.
            (receipt : Response ErrorReceipt) × Justified ibc
              (sequence self)
              cp.ctx
              cp.chain
              true
              receipt
            × msg ≡ chan_upgrade_cancel self.chain.path receipt addr)
          (build_action_msg ibc self cancel_flushcomplete addr cp w)
        × Returns
            (λ msg.
              (receipt : Response ErrorReceipt) × Justified ibc
                (sequence self)
                cp.ctx
                cp.chain
                false
                receipt
              × msg ≡ chan_upgrade_cancel self.chain.path receipt addr)
            (build_action_msg ibc self cancel addr cp w)
        × Returns
            (λ u. Cancelled ibc self.chain cp.chain sh cp.ctx self.chan)
            (cancel_settled ibc self.chain cp.chain sh cp.ctx self.chan w)
  unfolding build_action_msg
  cancel-Justified self cp addr sh w = (
    Returns-asked (Made true) _ (cp.chain.query_channel_upgrade_error cp.ctx w) (λ found w1 a.
        Returns-then (Made true) (Justified ibc (sequence self) cp.ctx cp.chain true) _
          (matching_receipt ibc (sequence self) cp.ctx cp.chain found w1)
          (matching_receipt-Justified (sequence self) cp.ctx cp.chain found w1 (w, w1, a))
          (λ receipt w2 j. (receipt, j, refl))),
    Returns-asked (Made false) _ (cp.chain.query_channel_upgrade_error cp.ctx w) (λ found w1 a.
        Returns-then (Made false) (Justified ibc (sequence self) cp.ctx cp.chain false) _
          (receipt_or_empty ibc cp.ctx cp.chain found w1)
          (receipt_or_empty-Justified (sequence self) cp.ctx cp.chain found w1 (w, w1, a))
          (λ receipt w2 j. (receipt, j, refl))),
    cancel_settled-Cancelled self.chain cp.chain sh cp.ctx self.chan w,
  )
    where
      Made : Bool → Msg → Type 0
      Made b msg =
          (receipt : Response ErrorReceipt) × Justified ibc (sequence self) cp.ctx cp.chain b
            receipt
          × msg ≡ chan_upgrade_cancel self.chain.path receipt addr
