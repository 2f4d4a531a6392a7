-- ===== src/Upgrade/Initiated.antt =====
-- What InitChannelUpgrade has done when it returns without an error (core/channel-upgrade.go).
use yui_relayer.Base.{
  Bool, true, false, List, [], ◌∷◌, String, ◌&&◌, ◌||◌, ◌≡◌, refl, ◌⊎◌, inl, inr, fail, message,
  if◌then◌else◌, Answered, Returns, Returns-then, Returns-asked, Returns-mono, Returns-both,
}
use yui_relayer.Ibc.{Height, UpgradeFields, Channel, Response}
use yui_relayer.Ibc.ChannelStates.{is_opened}
use yui_relayer.Msg.{MsgId}
use yui_relayer.PathEnd.Messages.{chan_upgrade_init}
use yui_relayer.Chain.{ProvableChain}
use yui_relayer.Query.{query_channel_end, query_channel_pair}
use yui_relayer.Upgrade.Run.{send_init, init_channel_upgrade}

-- The upgrade was begun on the chain: both channels were OPEN at the chains' latest heights, unless this
-- was permitted not to be so, and the chain has accepted the message.
pub record Initiated {W : Type 0} (chain cp : ProvableChain W) (fields : UpgradeFields)
    (permit_unsafe : Bool) : Type 0 where
  pub height : Height
  pub cp_height : Height
  pub chann : Response Channel
  pub cp_chann : Response Channel
  pub addr : String
  pub ids : List MsgId
  pub at_height : Answered chain.latest_height height
  pub cp_at_height : Answered cp.latest_height cp_height
  pub is_channel : Answered (query_channel_end height chain) chann
  pub cp_is_channel : Answered (query_channel_end cp_height cp) cp_chann
  pub allowed :
      ((is_opened chann.value.state ≡ true) × is_opened cp_chann.value.state ≡ true)
      ⊎ (permit_unsafe ≡ true)
  pub addr_answered : Answered chain.get_address_string addr
  pub was_sent : Answered (chain.send_msgs (chan_upgrade_init chain.path fields addr ∷ [])) ids

-- What `send_init` has done.
abbrev pub Sent : {W : Type 0} → ProvableChain W → UpgradeFields → Type 0
Sent chain fields =
    (addr : String) × (ids : List MsgId) × Answered chain.get_address_string addr
    × Answered (chain.send_msgs (chan_upgrade_init chain.path fields addr ∷ [])) ids

send_init-Sent :
    {W : Type 0} (chain : ProvableChain W) (fields : UpgradeFields) (w : W)
    → Returns (λ u. Sent chain fields) (send_init chain fields w)
unfolding send_init
send_init-Sent chain fields w = Returns-asked P _ (chain.get_address_string w) (λ addr w1 a.
    Returns-asked P _ (chain.send_msgs (chan_upgrade_init chain.path fields addr ∷ []) w1)
      (λ ids w2 b. (addr, ids, (w, w1, a), (w1, w2, b))))
  where
    P : Unit {0} → Type 0
    P u = Sent chain fields

both_or : (a b p : Bool) → (a && b || p) ≡ true → ((a ≡ true) × b ≡ true) ⊎ (p ≡ true)
both_or true true p e = inl (refl, refl)
both_or true false p e = inr e
both_or false b p e = inr e

module _ {W : Type 0} (chain cp : ProvableChain W) (fields : UpgradeFields)
    (permit_unsafe : Bool) where
  -- For every two chains: when InitChannelUpgrade returns without an error, both channels were OPEN, at
  -- the heights that the chains gave as their latest, or unsafe initialization was permitted; and the
  -- chain has accepted the one message that begins the upgrade, for its port and channel and the given
  -- fields, signed with the chain's address.
  pub init_channel_upgrade-Initiated :
      (w : W)
      → Returns
          (λ u. Initiated chain cp fields permit_unsafe)
          (init_channel_upgrade chain cp fields permit_unsafe w)
  unfolding init_channel_upgrade query_channel_pair
  init_channel_upgrade-Initiated w = Returns-asked P _ (chain.latest_height w) (λ h w1 a.
      Returns-asked P _ (cp.latest_height w1) (λ cp_h w2 b.
        Returns-then P
          (λ q.
            Answered (query_channel_end h chain) (q.0) × Answered (query_channel_end cp_h cp) (q.1))
          _ (query_channel_pair h cp_h chain cp w2)
          (Returns-both (query_channel_end h chain) (query_channel_end cp_h cp) w2)
          (λ q w3 (c, d).
            chosen h cp_h (q.0) (q.1) w3 (w, w1, a) (w1, w2, b) c d
              (is_opened (q.0).value.state && is_opened (q.1).value.state || permit_unsafe) refl)))
    where
      P : Unit {0} → Type 0
      P u = Initiated chain cp fields permit_unsafe

      chosen :
          (h cp_h : Height) (chann cp_chann : Response Channel) (w : W)
          → Answered chain.latest_height h
          → Answered cp.latest_height cp_h
          → Answered (query_channel_end h chain) chann
          → Answered (query_channel_end cp_h cp) cp_chann
          → (b : Bool)
          → (is_opened chann.value.state && is_opened cp_chann.value.state || permit_unsafe) ≡ b
          → Returns P (
              (if b
                  then send_init chain fields
                  else fail (message "unsafe channel upgrade initialization"))
                w)
      chosen h cp_h chann cp_chann w a b c d true e =
          Returns-mono (λ u. Sent chain fields) P (send_init chain fields w)
            (λ u (addr, ids, s, t). record {
              height = h;
              cp_height = cp_h;
              chann = chann;
              cp_chann = cp_chann;
              addr = addr;
              ids = ids;
              at_height = a;
              cp_at_height = b;
              is_channel = c;
              cp_is_channel = d;
              allowed =
                  both_or (is_opened chann.value.state) (is_opened cp_chann.value.state)
                    permit_unsafe e;
              addr_answered = s;
              was_sent = t;
            })
            (send_init-Sent chain fields w)
      chosen h cp_h chann cp_chann w a b c d false e = tt
