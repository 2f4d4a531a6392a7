-- ===== src/Tests/Upgrades.antt =====
-- Runs of the channel upgrade on the chains of `Scenario`, and its theorems at those inputs.
use yui_relayer.Base.{
  ◌≡◌, refl, Bool, true, false, [], ◌∷◌, none, some, pure, err, message, arith, Returns, Action,
}
use yui_relayer.Ibc.{UpgradeFields, ErrorReceipt, Response, unordered}
use yui_relayer.Ibc.ConnectionStates
use yui_relayer.Ibc.ChannelStates
use yui_relayer.Chain.{ProvableChain}
use yui_relayer.RelayMsgs.{RelayMsgs, ready, send}
use yui_relayer.RelayMsgs.Batches.{Log}
use yui_relayer.Loop.{tick, ended}
use yui_relayer.Upgrade.States.{init, cancel, cancel_flushcomplete}
use yui_relayer.Upgrade.Actions.{End}
use yui_relayer.Upgrade.Messages.{build_action_msg}
use yui_relayer.Upgrade.Step.{upgrade_channel_step}
use yui_relayer.Upgrade.Run.{execute_loop, cancel_settled, init_channel_upgrade}
use yui_relayer.Upgrade.Observed.{UpgradeRound}
use yui_relayer.Upgrade.Round.{upgrade_channel_step-UpgradeRound}
use yui_relayer.Upgrade.Ends.{
  StepSends, ExecuteEnds, step_rejected, upgrade_failed, execute_loop-ExecuteEnds,
}
use yui_relayer.PathEnd.Messages.{chan_upgrade_cancel}
use yui_relayer.Upgrade.Receipts.{Justified, Cancelled, cancel-Justified}
use yui_relayer.Upgrade.Initiated.{Initiated, init_channel_upgrade-Initiated}
use yui_relayer.Scenario.{
  sample_chain, sample_ibc, sample_headers, sample_marshal, sample_channel, no_config, no_retry,
  broken_chain, dst_chain, one_msg, at_height, answer,
}

abbrev flushing_src : ProvableChain Log
flushing_src = sample_chain "src" "ordered" ConnectionStates.opened ChannelStates.flushing

abbrev flushing_dst : ProvableChain Log
flushing_dst = sample_chain "dst" "ordered" ConnectionStates.opened ChannelStates.flushing

upgrade_channel_step-UpgradeRound_example :
    Returns
      (UpgradeRound sample_ibc init init true flushing_src flushing_dst)
      (upgrade_channel_step sample_ibc no_retry init init flushing_src flushing_dst true [])
upgrade_channel_step-UpgradeRound_example =
    upgrade_channel_step-UpgradeRound sample_ibc no_retry init init flushing_src flushing_dst true
      []

abbrev rejected_msgs : RelayMsgs
rejected_msgs = record one_msg { succeeded = false; src_msg_ids = none ∷ []; dst_msg_ids = [] }

abbrev same_step : Bool → Action Log RelayMsgs
same_step first = pure one_msg

rejected-StepSends :
    (first : Bool)
    → StepSends sample_marshal no_config "path" broken_chain dst_chain same_step [] [] first
        rejected_msgs
unfolding ready send
rejected-StepSends first = record {
  msgs = one_msg;
  between = [];
  stepped = refl;
  not_last = refl;
  is_ready = refl;
  sent = refl;
}

rejected-ExecuteEnds :
    ExecuteEnds sample_marshal no_config "path" broken_chain dst_chain same_step [] 0 true 2
      (err (message "channel upgrade failed"))
      []
rejected-ExecuteEnds = step_rejected rejected_msgs (omega arith) (rejected-StepSends true) refl (
    step_rejected rejected_msgs (omega arith) (rejected-StepSends false) refl
      (upgrade_failed rejected_msgs (rejected-StepSends false) refl))

execute_loop-ExecuteEnds_example :
    execute_loop sample_marshal no_config "path" broken_chain dst_chain same_step
      (tick ∷ tick ∷ [])
      []
    ≡ (ended (err (message "channel upgrade failed")), [])
execute_loop-ExecuteEnds_example =
    execute_loop-ExecuteEnds sample_marshal no_config "path" broken_chain dst_chain same_step 2 []
      (err (message "channel upgrade failed")) [] [] rejected-ExecuteEnds

abbrev complete_end : End Log
complete_end = record {
  chain = flushing_src;
  ctx = at_height 10;
  chan = answer (sample_channel ChannelStates.flushcomplete);
  upgrade = none;
}

abbrev flushing_end : End Log
flushing_end = record {
  chain = flushing_dst;
  ctx = at_height 10;
  chan = answer (sample_channel ChannelStates.flushing);
  upgrade = none;
}

-- The other chain, with an error receipt for the first upgrade.
abbrev receipt_end : End Log
receipt_end = record flushing_end {
  chain = record flushing_dst {
    query_channel_upgrade_error =
        λ h. pure (some (answer (record { sequence = 1; text = "timed out" })));
  };
}

cancel-Justified_example :
    Returns
      (λ msg.
        (receipt : Response ErrorReceipt) × Justified sample_ibc 1
          (at_height 10)
          receipt_end.chain
          true
          receipt
        × msg ≡ chan_upgrade_cancel flushing_src.path receipt "relayer")
      (build_action_msg sample_ibc complete_end cancel_flushcomplete "relayer" receipt_end [])
    × Returns
        (λ msg.
          (receipt : Response ErrorReceipt) × Justified sample_ibc 1
            (at_height 10)
            receipt_end.chain
            false
            receipt
          × msg ≡ chan_upgrade_cancel flushing_src.path receipt "relayer")
        (build_action_msg sample_ibc complete_end cancel "relayer" receipt_end [])
    × Returns
        (λ u.
          Cancelled sample_ibc flushing_src receipt_end.chain sample_headers
            (at_height 10)
            complete_end.chan)
        (cancel_settled sample_ibc flushing_src receipt_end.chain sample_headers
          (at_height 10)
          complete_end.chan
          [])
cancel-Justified_example =
    cancel-Justified sample_ibc complete_end receipt_end "relayer" sample_headers []

-- Without a receipt the cancellation is an error, and nothing is sent.
no_receipt_run :
    cancel_settled sample_ibc flushing_src flushing_dst sample_headers
      (at_height 10)
      complete_end.chan
      []
    ≡ (err (message "upgrade error receipt not found"), [])
unfolding cancel_settled
no_receipt_run = refl

abbrev new_fields : UpgradeFields
new_fields = record {
  ordering = unordered;
  connection_hops = "connection-0" ∷ [];
  version = "ics20-2";
}

abbrev opened_src : ProvableChain Log
opened_src = sample_chain "src" "ordered" ConnectionStates.opened ChannelStates.opened

abbrev opened_dst : ProvableChain Log
opened_dst = sample_chain "dst" "ordered" ConnectionStates.opened ChannelStates.opened

init_channel_upgrade-Initiated_example :
    Returns
      (λ u. Initiated opened_src opened_dst new_fields false)
      (init_channel_upgrade opened_src opened_dst new_fields false [])
init_channel_upgrade-Initiated_example =
    init_channel_upgrade-Initiated opened_src opened_dst new_fields false []

-- An upgrade of channels that are not OPEN is refused, and nothing is sent.
refused_run :
    init_channel_upgrade flushing_src flushing_dst new_fields false []
    ≡ (err (message "unsafe channel upgrade initialization"), [])
unfolding init_channel_upgrade
refused_run = refl
