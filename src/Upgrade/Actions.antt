-- ===== src/Upgrade/Actions.antt =====
-- The `switch` of `upgradeChannelStep` that decides the next action of each chain, with the checks
-- that it makes. A nil upgrade that the code dereferences is a panic.
use yui_relayer.Base.{
  ℕ, String, Bool, true, false, List, [], ◌∷◌, Option, none, some, ◌&&◌, ◌||◌, str_eq, leb, ◌==◌,
  if◌then◌else◌, Action, message, pure, fail, or_crash, ◌>>=◌,
}
use yui_relayer.Ibc.{
  Height, Order, none_order, unordered, ordered, Channel, Upgrade, Response, Functions,
}
use yui_relayer.Chain.{ProvableChain}
use yui_relayer.Upgrade.States.{
  UpgradeState, uninit, init, flushing, flushcomplete, UpgradeAction, no_action, try_action, ack,
  confirm, open_action, cancel, cancel_flushcomplete, timeout,
}

-- `hops[0]`
abbrev pub first : List String → Option String
first [] = none
first (hop ∷ hops) = some hop

abbrev pub order_eq : Order → Order → Bool
order_eq none_order none_order = true
order_eq unordered unordered = true
order_eq ordered ordered = true
order_eq _ _ = false

-- One end as a step sees it: the chain, the height it was queried at, its channel and its upgrade.
pub record End (W : Type 0) : Type 0 where
  pub chain : ProvableChain W
  pub ctx : Height
  pub chan : Response Channel
  pub upgrade : Option (Response Upgrade)

abbrev pub sequence : {W : Type 0} → End W → ℕ
sequence e = e.chan.value.upgrade_sequence

module _ {W : Type 0} (ibc : Functions) where
  -- queryProposedConnectionID
  unfoldable pub query_proposed_connection_id : End W → Action W String
  query_proposed_connection_id cp = do
    upg ← or_crash cp.upgrade
    hop ← or_crash (first upg.value.fields.connection_hops)
    conn ← cp.chain.query_connection cp.ctx hop
    pure conn.value.counterparty_connection_id

  -- `channel.Channel.ConnectionHops[0] == proposedConnectionID`
  unfoldable pub uses_connection : Channel → String → Action W Bool
  uses_connection chan proposed = do
    hop ← or_crash (first chan.connection_hops)
    pure (str_eq hop proposed)

  -- upgradeAlreadyComplete
  unfoldable pub upgrade_already_complete : End W → End W → Action W Bool
  unfolding query_proposed_connection_id uses_connection
  upgrade_already_complete self cp = do
    proposed ← query_proposed_connection_id cp
    upg ← or_crash cp.upgrade
    let chan = self.chan.value
    let fields = upg.value.fields
    let same = str_eq chan.version fields.version && order_eq chan.ordering fields.ordering
    if same then uses_connection chan proposed else pure false

  -- upgradeAlreadyTimedOut
  unfoldable pub upgrade_already_timed_out : End W → End W → Action W Bool
  upgrade_already_timed_out self cp = do
    timestamp ← self.chain.timestamp self.ctx
    upg ← or_crash cp.upgrade
    pure (ibc.elapsed upg.value.timeout self.ctx timestamp)

  -- queryCanTransitionToFlushComplete
  unfoldable pub query_can_transition_to_flush_complete : End W → Action W Bool
  query_can_transition_to_flush_complete self = do
    height ← self.chain.latest_height
    self.chain.query_can_transition_to_flush_complete height

  unfoldable pub timeout_or_cancel : End W → End W → Action W UpgradeAction
  unfolding upgrade_already_timed_out
  timeout_or_cancel self cp = do
    timedout ← upgrade_already_timed_out self cp
    pure (if timedout then timeout else cancel_flushcomplete)

  -- The action of `cp` when it is in FLUSHCOMPLETE and `self` is in UNINIT or INIT.
  unfoldable pub finish_flushcomplete : End W → End W → Action W UpgradeAction
  unfolding upgrade_already_complete timeout_or_cancel
  finish_flushcomplete self cp = do
    complete ← upgrade_already_complete self cp
    if complete then pure open_action else timeout_or_cancel self cp

  -- CONFIRM if the chain has no packet in flight.
  unfoldable pub confirm_if_flushed : End W → Action W UpgradeAction
  unfolding query_can_transition_to_flush_complete
  confirm_if_flushed self = do
    completable ← query_can_transition_to_flush_complete self
    pure (if completable then confirm else no_action)

  unfoldable pub both_confirm : End W → End W → Action W (UpgradeAction × UpgradeAction)
  unfolding confirm_if_flushed
  both_confirm src dst = do a ← confirm_if_flushed src; b ← confirm_if_flushed dst; pure (a, b)

  -- Both ends are in FLUSHING: TIMEOUT for a chain whose counterparty has passed the chain's
  -- deadline, otherwise CONFIRM where the packets are flushed.
  unfoldable pub both_flushing : End W → End W → Action W (UpgradeAction × UpgradeAction)
  unfolding upgrade_already_timed_out both_confirm
  both_flushing src dst = do
    src_timedout ← upgrade_already_timed_out src dst
    dst_timedout ← upgrade_already_timed_out dst src
    let dst_action : UpgradeAction = if src_timedout then timeout else no_action
    let src_action : UpgradeAction = if dst_timedout then timeout else no_action
    if src_timedout || dst_timedout then pure (src_action, dst_action) else both_confirm src dst

  unfoldable pub self_confirms : End W → Action W (UpgradeAction × UpgradeAction)
  unfolding confirm_if_flushed
  self_confirms self = do a ← confirm_if_flushed self; pure (a, no_action)

  -- `self` is in FLUSHING and `cp` in FLUSHCOMPLETE: the actions of `self` and of `cp`.
  unfoldable pub one_flushing : End W → End W → Action W (UpgradeAction × UpgradeAction)
  unfolding upgrade_already_timed_out self_confirms
  one_flushing self cp = do
    timedout ← upgrade_already_timed_out self cp
    if timedout then pure (no_action, timeout) else self_confirms self

  -- The actions of src and of dst.
  unfoldable pub next_actions :
      UpgradeState → UpgradeState → End W → End W → Action W (UpgradeAction × UpgradeAction)
  unfolding finish_flushcomplete both_flushing one_flushing
  next_actions uninit uninit src dst = fail (message "channel upgrade is not initialized")
  next_actions init uninit src dst =
      pure
        (if leb (sequence src) (sequence dst) then (cancel, no_action) else (no_action, try_action))
  next_actions uninit init src dst =
      pure
        (if leb (sequence dst) (sequence src) then (no_action, cancel) else (try_action, no_action))
  next_actions uninit flushing src dst = pure (no_action, cancel)
  next_actions flushing uninit src dst = pure (cancel, no_action)
  next_actions uninit flushcomplete src dst = do
    b ← finish_flushcomplete src dst
    pure (no_action, b)
  next_actions flushcomplete uninit src dst = do
    a ← finish_flushcomplete dst src
    pure (a, no_action)
  next_actions init init src dst = pure (
    if leb (sequence src) (sequence dst) then try_action else no_action,
    if leb (sequence dst) (sequence src) then try_action else no_action,
  )
  next_actions init flushing src dst =
      pure (if sequence src == sequence dst then (ack, no_action) else (no_action, cancel))
  next_actions flushing init src dst =
      pure (if sequence src == sequence dst then (no_action, ack) else (cancel, no_action))
  next_actions init flushcomplete src dst = do b ← finish_flushcomplete src dst; pure (no_action, b)
  next_actions flushcomplete init src dst = do a ← finish_flushcomplete dst src; pure (a, no_action)
  next_actions flushing flushing src dst = both_flushing src dst
  next_actions flushing flushcomplete src dst = one_flushing src dst
  next_actions flushcomplete flushing src dst = do (b, a) ← one_flushing dst src; pure (a, b)
  next_actions flushcomplete flushcomplete src dst = pure (open_action, open_action)
