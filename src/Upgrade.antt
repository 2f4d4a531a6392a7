-- ===== src/Upgrade.antt =====
-- core/channel-upgrade.go: the relayer's part in the channel upgrade handshake. `Actions` decides
-- what to do next, `Messages` builds the message of an action, `Step` is one step, `Run` the commands.
-- `Permitted` and `Calm` are about the decisions, `Blocks` and `Round` about the messages of a step,
-- `Ends` about the end of the loop, `Receipts` about error receipts.
pub mod States
pub mod Actions
pub mod Messages
pub mod Step
pub mod Run
pub mod Blocks
pub mod Retries
pub mod Observed
pub mod Round
pub mod Ends
pub mod Receipts
pub mod Initiated
pub mod Permitted
pub mod Calm
