-- ===== src/Config/Listed.antt =====
-- The two lists of chains of the configuration (config/config.go) stay in step.
use yui_relayer.Base.{
  String, false, List, [], ◌∷◌, ◌++◌, Option, none, some, str_eq, str_eq_iff, Bool-cases, inl, inr,
  ◌≡◌, refl, ◌∙◌, Outcome, ok, err, panic, arith,
}
use yui_relayer.Chain.{ProvableChain}
use yui_relayer.Config.Chains.{
  Configuration, find, append_chain, add_built, add_chain, delete_loop, delete_chain,
}

module _ {W C : Type 0} (build : C → Outcome (ProvableChain W)) where
  -- The chains are those that the configurations build, in the same order, and no two have one id.
  pub data Listed : List C → List (ProvableChain W) → Type 0 where
    none_listed : Listed [] []
    one_listed :
        {config : C} {chain : ProvableChain W} {configs : List C} {chains : List (ProvableChain W)}
        → build config ≡ ok chain
        → find chains chain.chain_id ≡ none
        → Listed configs chains
        → Listed (config ∷ configs) (chain ∷ chains)

  abbrev pub IsListed : Configuration W C → Type 0
  IsListed c = Listed c.chain_configs c.chains

find-append :
    {W : Type 0} (chains : List (ProvableChain W)) (chain : ProvableChain W) (id : String)
    → find chains id ≡ none
    → str_eq id chain.chain_id ≡ false
    → find (chains ++ chain ∷ []) id ≡ none
unfolding find
find-append [] chain id h k = rw k refl
find-append (first ∷ chains) chain id h k = ground (arith, find-append chains chain id)

module _ {W C : Type 0} (build : C → Outcome (ProvableChain W)) where
  Listed-append :
      {config : C} {chain : ProvableChain W} {configs : List C} {chains : List (ProvableChain W)}
      → build config ≡ ok chain
      → Listed build configs chains
      → find chains chain.chain_id ≡ none
      → Listed build (configs ++ config ∷ []) (chains ++ chain ∷ [])
  unfolding find
  Listed-append {chain = chain} b none_listed h = one_listed b refl none_listed
  Listed-append {chain = chain} b (one_listed {chain = first} {chains = chains} b' h' l) h =
      one_listed b'
        (find-append chains chain first.chain_id h' (
          ground (
            arith,
            str_eq_iff first.chain_id chain.chain_id,
            str_eq_iff chain.chain_id first.chain_id,
          )))
        (Listed-append b l (ground arith))

  -- What `DeleteChain` leaves: no chain with the id, and the chains with another id as before.
  record Deleted (id : String) (chains chains' : List (ProvableChain W)) (configs' : List C)
      : Type 0 where
    pub still_listed : Listed build configs' chains'
    pub gone : find chains' id ≡ none
    pub others_kept :
        (other : String) → str_eq other id ≡ false → find chains' other ≡ find chains other

  delete_loop-Deleted :
      (id : String) {configs : List C} {chains : List (ProvableChain W)}
      → Listed build configs chains
      → (chains' : List (ProvableChain W)) × (configs' : List C) × delete_loop id chains configs
          ≡ ok (chains', configs')
        × Deleted id chains chains' configs'
  unfolding delete_loop find
  delete_loop-Deleted id none_listed = (
    [],
    [],
    refl,
    record { still_listed = none_listed; gone = refl; others_kept = λ other h. refl },
  )
  delete_loop-Deleted id
        (one_listed {config = config} {chain = chain} {configs = configs} {chains = chains} b h l) =
      let (chains', configs', e, d) = delete_loop-Deleted id l in
      elim (Bool-cases (str_eq chain.chain_id id)) [
        | inl yes' ↦ (
          chains',
          configs',
          rw (yes', e) refl,
          record {
            still_listed = d.still_listed;
            gone = d.gone;
            others_kept = λ other k. ground (
              arith,
              str_eq_iff chain.chain_id id,
              str_eq_iff other chain.chain_id,
              str_eq_iff other id,
              d.others_kept other k,
            );
          },
        )
        | inr no' ↦ (
          chain ∷ chains',
          config ∷ configs',
          rw (no', e) refl,
          record {
            still_listed = one_listed b (d.others_kept chain.chain_id no' ∙ h) d.still_listed;
            gone =
                ground (arith, str_eq_iff chain.chain_id id, str_eq_iff id chain.chain_id, d.gone);
            others_kept = λ other k. rw (d.others_kept other k) refl;
          },
        )
      ]

  -- For every configuration whose two lists of chains are in step, and every two ids: AddChain keeps them in step, whatever
  -- it returns; and DeleteChain returns, without an index out of range, a configuration in which they are
  -- in step, in which no chain has the id, and in which the other id is found as before.
  pub add_delete-IsListed :
      (config : C) (id other : String) (c : Configuration W C)
      → IsListed build c
      → str_eq other id ≡ false
      → IsListed build ((add_chain build config c).1)
        × (c' : Configuration W C) × delete_chain c id ≡ ok c'
        × IsListed build c'
        × find c'.chains id ≡ none
        × find c'.chains other ≡ find c.chains other
  unfolding delete_chain add_chain
  add_delete-IsListed config id other c l differs =
      let (chains', configs', e, d) = delete_loop-Deleted id l in
      (
        added (build config) refl,
        record c { chains = chains'; chain_configs = configs' },
        rw e refl,
        d.still_listed,
        d.gone,
        d.others_kept other differs,
      )
    where
      appended :
          (chain : ProvableChain W) (o : Option (ProvableChain W))
          → build config ≡ ok chain
          → find c.chains chain.chain_id ≡ o
          → IsListed build ((append_chain config chain o c).1)
      appended chain none b h = Listed-append b l h
      appended chain (some other) b h = l

      added :
          (o : Outcome (ProvableChain W))
          → build config ≡ o
          → IsListed build ((add_built config o c).1)
      added (ok chain) b = appended chain (find c.chains chain.chain_id) b refl
      added (err e) b = l
      added panic b = l
