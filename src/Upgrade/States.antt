-- ===== src/Upgrade/States.antt =====
-- The states of an upgrade, the actions, and the state of one end.
use yui_relayer.Base.{Bool, if◌then◌else◌, Outcome, ok, err, message}
use yui_relayer.Ibc.ChannelStates.{ChannelState, opened}

-- UpgradeState
pub data UpgradeState : Type 0 where
  uninit init flushing flushcomplete : UpgradeState

-- UpgradeAction
pub data UpgradeAction : Type 0 where
  no_action try_action ack confirm open_action cancel cancel_flushcomplete timeout : UpgradeAction

-- NewUpgradeState
unfoldable pub new_upgrade_state : ChannelState → Bool → Outcome UpgradeState
new_upgrade_state opened upgrade_exists = ok (if upgrade_exists then init else uninit)
new_upgrade_state ChannelState.flushing upgrade_exists = ok UpgradeState.flushing
new_upgrade_state ChannelState.flushcomplete upgrade_exists = ok UpgradeState.flushcomplete
new_upgrade_state _ upgrade_exists = err (message "channel not opened yet")
