-- ===== src/Upgrade/Round.antt =====
-- The whole step of the channel upgrade (upgradeChannelStep of core/channel-upgrade.go): what it gives to
-- send for what the chains answer.
use yui_relayer.Base.{
  Bool, true, false, ◌≡◌, refl, ap, Outcome, ok, err, panic, pure, lift, if◌then◌else◌, Returns,
  Returns-next, Returns-asked, Returns-mono, Returns-known, Option,
}
use yui_relayer.Ibc.{Height, Functions, Channel, Upgrade, Response}
use yui_relayer.Chain.{ProvableChain}
use yui_relayer.Query.Settled.{query_settled_channel_pair, query_settled_channel_upgrade_pair}
use yui_relayer.Query.Asked.{settled_channels-Answered, settled_upgrades-Answered}
use yui_relayer.Headers.{SyncHeaders, new_sync_headers, get_query_context}
use yui_relayer.RelayMsgs.{RelayMsgs, new_relay_msgs, ready}
use yui_relayer.Loop.{Retry}
use yui_relayer.Handshake.{validate_paths}
use yui_relayer.Upgrade.States.{UpgradeState, UpgradeAction, new_upgrade_state}
use yui_relayer.Upgrade.Actions.{End, next_actions}
use yui_relayer.Upgrade.Permitted.{BothPermitted, next_actions-Permitted}
use yui_relayer.Upgrade.Step.{
  act_both, kept, upgrade_msgs, upgrade_act, upgrade_ends, upgrade_channels, upgrade_channel_step,
  reached, exists,
}
use yui_relayer.Upgrade.Blocks.{none_left, Leaves}
use yui_relayer.Upgrade.Retries.{BothLeft, BothActed, retried-Leaves}
use yui_relayer.Upgrade.Observed.{
  Channels, Upgrades, InState, Decided, has_reached, acts_by, UpgradeRound, channels_open,
  upgrades_open, is_decided,
}

-- A computation without a world has the outcome that it answers with.
lift_ok : {W A : Type 0} (x : Outcome A) (a : A) (w w1 : W) → lift x w ≡ (ok a, w1) → x ≡ ok a
lift_ok x a w w1 e = ap (λ y. y.0) e

module _ {W : Type 0} (ibc : Functions) (retry : Retry) where
  upgrade_msgs-BothActed :
      (sh : SyncHeaders) (a b : UpgradeAction) (src dst : End W) (w : W)
      → Returns (BothActed a b src dst) (upgrade_msgs ibc retry sh src dst (a, b) w)
  unfolding upgrade_msgs new_relay_msgs
  upgrade_msgs-BothActed sh a b src dst w =
      keeps
        (retry.run (W × RelayMsgs) (Unit × Unit) (act_both ibc sh a b src dst) (w, new_relay_msgs))
        (retried-Leaves ibc sh a b src dst
          (retry.run_attempts (W × RelayMsgs) (Unit × Unit) (act_both ibc sh a b src dst)
            (w, new_relay_msgs))
          (none_left, none_left, refl))
    where
      keeps :
          (x : Outcome (Unit {0} × Unit {0}) × (W × RelayMsgs))
          → Leaves (BothActed a b src dst) (BothLeft a b src dst) x
          → Returns (BothActed a b src dst) (kept x)
      keeps (ok u, (w', r)) h = h
      keeps (err e, (w', r)) h = tt
      keeps (panic, (w', r)) h = tt

  module _ (target_src target_dst : UpgradeState) (first_call : Bool) where
    upgrade_ends-Decided :
        (sh : SyncHeaders) (src dst : End W) (w : W)
        → Returns
            (Decided ibc target_src target_dst first_call src dst)
            (upgrade_ends ibc retry sh target_src target_dst first_call src dst w)
    unfolding upgrade_ends upgrade_act new_relay_msgs ready
    upgrade_ends-Decided sh src dst w =
        Returns-asked P _ (lift (new_upgrade_state src.chan.value.state (exists src.upgrade)) w)
          (λ s w1 e.
            Returns-asked P _
              (lift (new_upgrade_state dst.chan.value.state (exists dst.upgrade)) w1)
              (λ d w2 f.
                chosen s d w2 (lift_ok _ s w w1 e) (lift_ok _ d w1 w2 f)
                  (reached first_call target_src target_dst s d) refl))
      where
        P : RelayMsgs → Type 0
        P = Decided ibc target_src target_dst first_call src dst

        chosen :
            (s d : UpgradeState) (w : W)
            → InState src s
            → InState dst d
            → (b : Bool) → reached first_call target_src target_dst s d ≡ b
            → Returns P (
                (if b
                    then pure (record new_relay_msgs { last = true })
                    else upgrade_act ibc retry sh s d src dst)
                  w)
        chosen s d w e f true t = has_reached s d e f t refl refl
        chosen s d w e f false t =
            Returns-asked P _ (next_actions ibc s d src dst w) (λ actions w1 n.
              Returns-mono (BothActed (actions.0) (actions.1) src dst) P
                (upgrade_msgs ibc retry sh src dst actions w1)
                (λ r (h, k, l).
                  acts_by s d (actions.0) (actions.1) e f t (w, w1, n)
                    (Returns-known (BothPermitted s d) _ actions w1
                      (next_actions-Permitted ibc s d src dst w) n)
                    h k l)
                (upgrade_msgs-BothActed sh (actions.0) (actions.1) src dst w1))

    module _ (src dst : ProvableChain W) where
      upgrade_channels-UpgradeRound :
          (sh : SyncHeaders) (src_ctx dst_ctx : Height) (src_chan dst_chan : Response Channel)
          (w : W)
          → Channels ibc src dst src_ctx dst_ctx src_chan dst_chan true
          → Returns (UpgradeRound ibc target_src target_dst first_call src dst) (
              upgrade_channels ibc retry sh target_src target_dst first_call src_ctx dst_ctx src dst
                src_chan dst_chan w)
      unfolding upgrade_channels new_relay_msgs ready
      upgrade_channels-UpgradeRound sh src_ctx dst_ctx src_chan dst_chan w c =
          Returns-asked P _ (query_settled_channel_upgrade_pair ibc src_ctx dst_ctx src dst w)
            (λ q w1 e. chosen (q.0) (q.1) (q.2) w1 (
              let (s, d) =
                Returns-known _ _ q w1 (settled_upgrades-Answered ibc src_ctx dst_ctx src dst w)
                  e in
              record { pair_answered = (w, w1, e); src_answered = s; dst_answered = d }))
        where
          P : RelayMsgs → Type 0
          P = UpgradeRound ibc target_src target_dst first_call src dst

          chosen :
              (s d : Option (Response Upgrade)) (b : Bool) (w : W)
              → Upgrades ibc src dst src_ctx dst_ctx s d b
              → Returns P (
                  (if b
                      then upgrade_ends ibc retry sh target_src target_dst first_call
                          (record { chain = src; ctx = src_ctx; chan = src_chan; upgrade = s })
                          (record { chain = dst; ctx = dst_ctx; chan = dst_chan; upgrade = d })
                      else pure new_relay_msgs)
                    w)
          chosen s d true w u =
              Returns-mono _ P _ (λ r h. is_decided c u h)
                (upgrade_ends-Decided sh
                  (record { chain = src; ctx = src_ctx; chan = src_chan; upgrade = s })
                  (record { chain = dst; ctx = dst_ctx; chan = dst_chan; upgrade = d }) w)
          chosen s d false w u = upgrades_open c u refl refl

  -- For every two chains, every two target states and every retry policy: when a step of the channel
  -- upgrade returns, it has asked the chains for their channels at the heights of the headers that they
  -- have given. If these, or then the upgrades, are not settled, it has nothing to send. Otherwise there
  -- are the upgrade states of the two chains that these channels and upgrades give. If they have reached
  -- the targets, the step is marked `Last` and has nothing to send. If not, the actions decided for these
  -- states are permitted in them, a chain with no action gets no message, and a chain with an action gets
  -- what failed attempts have left, then updates of its client with valid headers, and last the message
  -- of the action for its own port and channel; such a step is not marked `Last`. An attempt leaves the
  -- client updates, and its message as well if that could be built.
  pub upgrade_channel_step-UpgradeRound :
      (target_src target_dst : UpgradeState) (src dst : ProvableChain W) (first_call : Bool) (w : W)
      → Returns
          (UpgradeRound ibc target_src target_dst first_call src dst)
          (upgrade_channel_step ibc retry target_src target_dst src dst first_call w)
  unfolding upgrade_channel_step new_relay_msgs ready
  upgrade_channel_step-UpgradeRound target_src target_dst src dst first_call w =
      Returns-next P _ (validate_paths ibc src dst w) (λ _ w1.
        Returns-asked P _ (new_sync_headers src dst w1) (λ sh w2 a.
          Returns-asked P _ (get_query_context sh src.chain_id w2) (λ src_ctx w3 b.
            Returns-asked P _ (get_query_context sh dst.chain_id w3) (λ dst_ctx w4 c.
              Returns-asked P _ (query_settled_channel_pair ibc src_ctx dst_ctx src dst w4)
                (λ q w5 e. chosen sh src_ctx dst_ctx (q.0) (q.1) (q.2) w5 (
                  let (s, d) =
                    Returns-known _ _ q w5
                      (settled_channels-Answered ibc src_ctx dst_ctx src dst w4) e in
                  record {
                    at_heights = record {
                      sh = sh;
                      headers_given = (w1, w2, a);
                      src_height = (w2, w3, b);
                      dst_height = (w3, w4, c);
                    };
                    pair_answered = (w4, w5, e);
                    src_answered = s;
                    dst_answered = d;
                  }))))))
    where
      P : RelayMsgs → Type 0
      P = UpgradeRound ibc target_src target_dst first_call src dst

      chosen :
          (sh : SyncHeaders) (src_ctx dst_ctx : Height) (s d : Response Channel) (b : Bool) (w : W)
          → Channels ibc src dst src_ctx dst_ctx s d b
          → Returns P (
              (if b
                  then upgrade_channels ibc retry sh target_src target_dst first_call src_ctx
                      dst_ctx src dst s d
                  else pure new_relay_msgs)
                w)
      chosen sh src_ctx dst_ctx s d true w c =
          upgrade_channels-UpgradeRound target_src target_dst first_call src dst sh src_ctx dst_ctx
            s d w c
      chosen sh src_ctx dst_ctx s d false w c = channels_open c refl refl
