-- ===== src/Mock.antt =====
-- provers/mock/prover.go: a prover for chains that are trusted, as an implementation of the prover's
-- half of `ProvableChain`. `decrement` is Height.Decrement of ibc-go, `sha256` the hash, `marshal` the
-- marshalling of a consensus state, and `is_valid` ValidateBasic of the mock client's header. `Delay`
-- is about the finalized height, `Initial` about the initial state of a client.
pub mod Delay
pub mod Initial
use Prim.Native.Nat.{◌/◌}
use yui_relayer.Base.{
  ℕ, zero, suc, ◌%◌, ◌^◌, String, Bool, false, List, [], ◌∷◌, ◌++◌, Option, none, some,
  if◌then◌else◌, Action, Outcome, message, pure, fail, or_fail, or_crash, ◌>>=◌, ◌>>◌,
}
use yui_relayer.Ibc.{Bytes, Height, Header, ClientState, ConsensusState, Functions}
use yui_relayer.PathEnd.{codes}
use yui_relayer.Chain.{ProvableChain}
use yui_relayer.Events.Numbers.{utf8}

-- What the prover has: `finality_delay` of its configuration, and the code outside the model.
pub record MockProver : Type 0 where
  pub finality_delay : ℕ
  pub ibc : Functions
  pub decrement : Height → Option Height
  pub sha256 : Bytes → Bytes
  pub marshal : ConsensusState → Option Bytes
  pub is_valid : Height → ℕ → Bool
  -- `core.DefaultChainPrefix.Bytes()`
  pub default_chain_prefix : Bytes

-- `if h, ok := height.Decrement(); ok { height = h } else { break }`
abbrev pub stepped : Height → Option Height → (Height → Height) → Height
stepped height none go_on = height
stepped height (some h) go_on = go_on h

-- The loop of getDelayedLatestFinalizedHeight.
unfoldable pub delayed : (Height → Option Height) → ℕ → Height → Height
delayed decrement zero height = height
delayed decrement (suc n) height = stepped height (decrement height) (delayed decrement n)

-- binary.BigEndian.PutUint64
unfoldable pub put_uint64 : ℕ → Bytes
put_uint64 n =
    n / 2 ^ 56 % 256
    ∷ n / 2 ^ 48 % 256
    ∷ n / 2 ^ 40 % 256
    ∷ n / 2 ^ 32 % 256
    ∷ n / 2 ^ 24 % 256
    ∷ n / 2 ^ 16 % 256
    ∷ n / 2 ^ 8 % 256
    ∷ n % 256
    ∷ []

module _ (pr : MockProver) where
  -- makeProof
  unfoldable pub make_proof : Height → String → Bytes → Bytes
  unfolding put_uint64 utf8
  make_proof height path bz = pr.sha256 (
      put_uint64 height.revision_number
      ++ put_uint64 height.revision_height
      ++ pr.sha256 pr.default_chain_prefix
      ++ pr.sha256 (utf8 (codes path))
      ++ pr.sha256 bz)

  module _ {W : Type 0} (chain : ProvableChain W) where
    -- Prover.getDelayedLatestFinalizedHeight
    unfoldable pub get_delayed_latest_finalized_height : Action W Height
    unfolding delayed
    get_delayed_latest_finalized_height = do
      height ← chain.latest_height
      pure (delayed pr.decrement pr.finality_delay height)

    -- Prover.createMockHeader
    unfoldable pub create_mock_header : Height → Action W Header
    create_mock_header height = do
      timestamp ← chain.timestamp height
      pure (record { height = height; is_valid_basic = pr.is_valid height timestamp })

    -- Prover.GetLatestFinalizedHeader
    unfoldable pub latest_finalized_header : Action W Header
    unfolding get_delayed_latest_finalized_height create_mock_header
    latest_finalized_header = do
      height ← get_delayed_latest_finalized_height
      create_mock_header height

    unfoldable pub initial_state : Height → Action W (ClientState × ConsensusState)
    initial_state height = do
      timestamp ← chain.timestamp height
      pure (record { latest_height = height }, record { timestamp = timestamp })

    unfoldable pub initial_state_at :
        Height → Option Height → Action W (ClientState × ConsensusState)
    unfolding initial_state
    initial_state_at head none = initial_state head
    initial_state_at head (some height) =
        if pr.ibc.gt height head
        then fail (message "the given height is greater than the latest finalized height")
        else initial_state height

    -- Prover.CreateInitialLightClientState
    unfoldable pub create_initial_state : Option Height → Action W (ClientState × ConsensusState)
    unfolding latest_finalized_header initial_state_at
    create_initial_state height = do
      head ← latest_finalized_header
      initial_state_at head.height height

    -- Prover.SetupHeadersForUpdate: a header that is nil is a panic.
    unfoldable pub setup_headers : String → Option Header → Action W (List Header)
    setup_headers counterparty header = do h ← or_crash header; pure (h ∷ [])

    -- The chain with this prover: SetupForRelay, CheckRefreshRequired, ProveState and
    -- ProveHostConsensusState are here.
    unfoldable pub with_mock_prover : ProvableChain W
    unfolding create_initial_state setup_headers latest_finalized_header make_proof
    with_mock_prover = record chain {
      prove_state = λ height path value. pure (make_proof height path value, height);
      prove_host_consensus_state = λ ctx height cons. or_fail (pr.marshal cons) "marshal";
      create_initial_light_client_state = create_initial_state;
      setup_headers_for_update = setup_headers;
      check_refresh_required = λ counterparty. pure false;
      get_latest_finalized_header = latest_finalized_header;
    }
