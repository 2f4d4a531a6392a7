-- ===== src/Mock/Initial.antt =====
-- The initial state that the mock prover gives for a client (provers/mock/prover.go).
use yui_relayer.Base.{
  Bool, true, false, Option, none, some, ◌≡◌, refl, message, fail, if◌then◌else◌, Answered, Returns,
  Returns-next, Returns-asked, Returns-then,
}
use yui_relayer.Ibc.{Height, Header, ClientState, ConsensusState}
use yui_relayer.Chain.{ProvableChain}
use yui_relayer.Mock.{
  MockProver, get_delayed_latest_finalized_height, create_mock_header, latest_finalized_header,
  initial_state, initial_state_at, create_initial_state,
}

-- The state of a client at a height that is finalized: the given one, or the latest finalized one.
pub data InitialState {W : Type 0} (pr : MockProver) (chain : ProvableChain W)
    : Option Height → ClientState × ConsensusState → Type 0 where
  at_latest :
      {cs : ClientState} {cons : ConsensusState} (head : Height)
      → Answered (get_delayed_latest_finalized_height pr chain) head
      → cs.latest_height ≡ head
      → Answered (chain.timestamp head) cons.timestamp
      → InitialState pr chain none (cs, cons)
  at_given :
      {cs : ClientState} {cons : ConsensusState} (height head : Height)
      → Answered (get_delayed_latest_finalized_height pr chain) head
      → pr.ibc.gt height head ≡ false
      → cs.latest_height ≡ height
      → Answered (chain.timestamp height) cons.timestamp
      → InitialState pr chain (some height) (cs, cons)

module _ {W : Type 0} (pr : MockProver) (chain : ProvableChain W) where
  initial_state_at-InitialState :
      (head : Height) (height : Option Height) (w : W)
      → Answered (get_delayed_latest_finalized_height pr chain) head
      → Returns (InitialState pr chain height) (initial_state_at pr chain head height w)
  unfolding initial_state_at initial_state
  initial_state_at-InitialState head none w a =
      Returns-asked (InitialState pr chain none) _ (chain.timestamp head w)
        (λ timestamp w1 t. at_latest head a refl (w, w1, t))
  initial_state_at-InitialState head (some height) w a = chosen (pr.ibc.gt height head) refl
    where
      chosen :
          (b : Bool)
          → pr.ibc.gt height head ≡ b
          → Returns (InitialState pr chain (some height)) (
              (if b
                  then fail (message "the given height is greater than the latest finalized height")
                  else initial_state pr chain height)
                w)
      chosen true e = tt
      chosen false e =
          Returns-asked (InitialState pr chain (some height)) _ (chain.timestamp height w)
            (λ timestamp w1 t. at_given height head a e refl (w, w1, t))

  header-at_delayed :
      (w : W)
      → Returns
          (λ header. Answered (get_delayed_latest_finalized_height pr chain) header.height)
          (latest_finalized_header pr chain w)
  unfolding latest_finalized_header create_mock_header
  header-at_delayed w =
      Returns-asked P _ (get_delayed_latest_finalized_height pr chain w)
        (λ height w1 a. Returns-next P _ (chain.timestamp height w1) (λ timestamp w2. (w, w1, a)))
    where
      P : Header → Type 0
      P header = Answered (get_delayed_latest_finalized_height pr chain) header.height

  -- For every chain with the mock prover: when CreateInitialLightClientState returns a client state and
  -- a consensus state, the client is at the given height, which is not above the latest finalized one, or
  -- at the latest finalized one where none is given; and the consensus state has the chain's timestamp of
  -- that height.
  pub create_initial_state-InitialState :
      (height : Option Height) (w : W)
      → Returns (InitialState pr chain height) (create_initial_state pr chain height w)
  unfolding create_initial_state
  create_initial_state-InitialState height w =
      Returns-then (InitialState pr chain height)
        (λ header. Answered (get_delayed_latest_finalized_height pr chain) header.height) _
        (latest_finalized_header pr chain w) (header-at_delayed w)
        (λ header w1 a. initial_state_at-InitialState header.height height w1 a)
