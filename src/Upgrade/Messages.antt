-- ===== src/Upgrade/Messages.antt =====
-- `buildActionMsg` of core/channel-upgrade.go: the message of an action, with the proofs of the
-- counterparty that it carries. `self` is the chain that acts, `cp` its counterparty.
use yui_relayer.Base.{
  ℕ, String, [], Option, none, some, not, ◌==◌, if◌then◌else◌, Action, message, pure, fail, crash,
  or_crash, ◌>>=◌,
}
use yui_relayer.Ibc.{Height, zero_height, Channel, Upgrade, ErrorReceipt, Response, Functions}
use yui_relayer.PathEnd.Messages.{
  chan_upgrade_try, chan_upgrade_ack, chan_upgrade_confirm, chan_upgrade_open, chan_upgrade_cancel,
  chan_upgrade_timeout,
}
use yui_relayer.Msg.{Msg}
use yui_relayer.Chain.{ProvableChain}
use yui_relayer.Query.{prove_channel, prove_channel_upgrade, prove_channel_upgrade_error}
use yui_relayer.Upgrade.States.{
  UpgradeAction, no_action, try_action, ack, confirm, open_action, cancel, cancel_flushcomplete,
  timeout,
}
use yui_relayer.Upgrade.Actions.{End, sequence, query_proposed_connection_id}

-- `&chantypes.QueryUpgradeErrorResponse{}`
abbrev pub no_receipt : Response ErrorReceipt
no_receipt = record {
  value = record { sequence = 0; text = "" };
  proof = [];
  proof_height = zero_height;
}

module _ {W : Type 0} (ibc : Functions) where
  unfoldable pub prove_end_channel : End W → Action W (Response Channel)
  unfolding prove_channel
  prove_end_channel cp = prove_channel ibc cp.ctx cp.chain cp.chan

  -- ProveChannel and then ProveChannelUpgrade; a nil upgrade is a panic.
  unfoldable pub prove_both : End W → Action W (Response Channel × Response Upgrade)
  unfolding prove_end_channel prove_channel_upgrade
  prove_both cp = do
    chan ← prove_end_channel cp
    found ← or_crash cp.upgrade
    upg ← prove_channel_upgrade ibc cp.ctx cp.chain found
    pure (chan, upg)

  -- CANCEL: the receipt with its proof, or an empty one where the counterparty has none.
  unfoldable pub receipt_or_empty :
      Height → ProvableChain W → Option (Response ErrorReceipt) → Action W (Response ErrorReceipt)
  unfolding prove_channel_upgrade_error
  receipt_or_empty ctx cp none = pure no_receipt
  receipt_or_empty ctx cp (some receipt) = prove_channel_upgrade_error ibc ctx cp receipt

  -- CANCEL_FLUSHCOMPLETE: the receipt must be there and be for the upgrade of this channel.
  unfoldable pub matching_receipt :
      ℕ
      → Height
      → ProvableChain W
      → Option (Response ErrorReceipt)
      → Action W (Response ErrorReceipt)
  unfolding prove_channel_upgrade_error
  matching_receipt n ctx cp none = fail (message "upgrade error receipt not found")
  matching_receipt n ctx cp (some receipt) =
      if not (receipt.value.sequence == n)
      then fail (message "upgrade sequences don't match")
      else prove_channel_upgrade_error ibc ctx cp receipt

  -- buildActionMsg
  unfoldable pub build_action_msg : End W → UpgradeAction → String → End W → Action W Msg
  unfolding prove_end_channel prove_both query_proposed_connection_id receipt_or_empty
      matching_receipt chan_upgrade_try chan_upgrade_ack chan_upgrade_confirm chan_upgrade_open
      chan_upgrade_cancel chan_upgrade_timeout
  build_action_msg self try_action addr cp = do
    (chan, upg) ← prove_both cp
    proposed ← query_proposed_connection_id ibc cp
    pure (chan_upgrade_try self.chain.path proposed chan upg addr)
  build_action_msg self ack addr cp = do
    (chan, upg) ← prove_both cp
    pure (chan_upgrade_ack self.chain.path chan upg addr)
  build_action_msg self confirm addr cp = do
    (chan, upg) ← prove_both cp
    pure (chan_upgrade_confirm self.chain.path chan upg addr)
  build_action_msg self open_action addr cp = do
    chan ← prove_end_channel cp
    pure (chan_upgrade_open self.chain.path chan addr)
  build_action_msg self cancel addr cp = do
    found ← cp.chain.query_channel_upgrade_error cp.ctx
    receipt ← receipt_or_empty cp.ctx cp.chain found
    pure (chan_upgrade_cancel self.chain.path receipt addr)
  build_action_msg self cancel_flushcomplete addr cp = do
    found ← cp.chain.query_channel_upgrade_error cp.ctx
    receipt ← matching_receipt (sequence self) cp.ctx cp.chain found
    pure (chan_upgrade_cancel self.chain.path receipt addr)
  build_action_msg self timeout addr cp = do
    chan ← prove_end_channel cp
    pure (chan_upgrade_timeout self.chain.path chan addr)
  build_action_msg self no_action addr cp = crash
