-- ===== src/Config/Chains.antt =====
-- The chains of the configuration (config/config.go, config/chain.go). `C` is the configuration of a
-- chain and its prover, `build` is ChainProverConfig.Build, and `set_relay_info` is SetRelayInfo of a
-- chain with its prover, which are interfaces.
use yui_relayer.Base.{
  String, not, List, [], ◌∷◌, ◌++◌, Option, none, some, str_eq, if◌then◌else◌, Action, Outcome, ok,
  err, panic, message, pure, lift, ◌>>=◌, ◌>>◌,
}
use yui_relayer.Ibc.{Functions}
use yui_relayer.PathEnd.{PathEnd}
use yui_relayer.Chain.{ProvableChain}
use yui_relayer.Paths.{RelayPath, Paths, add, get}

-- Config, without the global settings
pub record Configuration (W C : Type 0) : Type 0 where
  pub chain_configs : List C
  pub chains : List (ProvableChain W)
  pub paths : Paths

module _ {W : Type 0} where
  unfoldable pub find : List (ProvableChain W) → String → Option (ProvableChain W)
  find [] chain_id = none
  find (chain ∷ chains) chain_id =
      if str_eq chain_id chain.chain_id then some chain else find chains chain_id

  abbrev pub configured : Option (ProvableChain W) → Outcome (ProvableChain W)
  configured none = err (message "chain is not configured")
  configured (some chain) = ok chain

  -- Chains.Get and Config.GetChain
  unfoldable pub get_chain : List (ProvableChain W) → String → Outcome (ProvableChain W)
  unfolding find
  get_chain chains chain_id = configured (find chains chain_id)

  abbrev pub joined :
      String
      → Outcome (ProvableChain W)
      → Outcome (List (String × ProvableChain W))
      → Outcome (List (String × ProvableChain W))
  joined id (ok chain) (ok rest) = ok ((id, chain) ∷ rest)
  joined id (ok chain) (err e) = err e
  joined id (ok chain) panic = panic
  joined id (err e) rest = err e
  joined id panic rest = panic

  -- Chains.Gets and Config.GetChains: the entries of the map that is returned
  unfoldable pub get_chains :
      List (ProvableChain W) → List String → Outcome (List (String × ProvableChain W))
  unfolding get_chain
  get_chains chains [] = ok []
  get_chains chains (id ∷ ids) = joined id (get_chain chains id) (get_chains chains ids)

  -- Config.ChainsFromPath: the chains of the path, each given its end and its counterparty.
  unfoldable pub chains_from_path :
      {C : Type 0}
      → (ProvableChain W → PathEnd → ProvableChain W → PathEnd → Action W (Unit {0}))
      → Configuration W C
      → String
      → Action W (ProvableChain W × ProvableChain W)
  unfolding get get_chain
  chains_from_path set_relay_info c name = do
    p ← lift (get c.paths name)
    src ← lift (get_chain c.chains p.src.chain_id)
    dst ← lift (get_chain c.chains p.dst.chain_id)
    set_relay_info src p.src dst p.dst
    set_relay_info dst p.dst src p.src
    pure (src, dst)

  module _ {C : Type 0} where
    abbrev pub append_chain :
        C → ProvableChain W → Option (ProvableChain W) → Action (Configuration W C) (Unit {0})
    append_chain config chain (some other) c =
        (err (message "chain with ID already exists in config"), c)
    append_chain config chain none c = (
      ok tt,
      record c { chain_configs = c.chain_configs ++ config ∷ []; chains = c.chains ++ chain ∷ [] },
    )

    abbrev pub add_built : C → Outcome (ProvableChain W) → Action (Configuration W C) (Unit {0})
    add_built config (ok chain) c = append_chain config chain (find c.chains chain.chain_id) c
    add_built config (err e) c = (err e, c)
    add_built config panic c = (panic, c)

    -- Config.AddChain
    unfoldable pub add_chain :
        (C → Outcome (ProvableChain W)) → C → Action (Configuration W C) (Unit {0})
    unfolding find
    add_chain build config c = add_built config (build config) c

    -- Config.AddPath
    unfoldable pub add_path : Functions → String → RelayPath → Action (Configuration W C) (Unit {0})
    unfolding add
    add_path ibc name path c =
        let (out, paths) = add ibc name path c.paths in (out, record c { paths = paths })

    abbrev pub kept_pair :
        C
        → ProvableChain W
        → Outcome (List (ProvableChain W) × List C)
        → Outcome (List (ProvableChain W) × List C)
    kept_pair config chain (ok (chains, configs)) = ok (chain ∷ chains, config ∷ configs)
    kept_pair config chain (err e) = err e
    kept_pair config chain panic = panic

    -- The loop of DeleteChain; the index of a chain that is kept may be out of range in the list of the
    -- configurations.
    unfoldable pub delete_loop :
        String → List (ProvableChain W) → List C → Outcome (List (ProvableChain W) × List C)
    delete_loop id [] configs = ok ([], [])
    delete_loop id (chain ∷ chains) [] =
        let rest = delete_loop id chains [] in
        if not (str_eq chain.chain_id id) then panic else rest
    delete_loop id (chain ∷ chains) (config ∷ configs) =
        let rest = delete_loop id chains configs in
        if not (str_eq chain.chain_id id) then kept_pair config chain rest else rest

    abbrev pub with_lists :
        Configuration W C → Outcome (List (ProvableChain W) × List C) → Outcome (Configuration W C)
    with_lists c (ok (chains, configs)) = ok (record c { chains = chains; chain_configs = configs })
    with_lists c (err e) = err e
    with_lists c panic = panic

    -- Config.DeleteChain
    unfoldable pub delete_chain : Configuration W C → String → Outcome (Configuration W C)
    unfolding delete_loop
    delete_chain c chain = with_lists c (delete_loop chain c.chains c.chain_configs)
