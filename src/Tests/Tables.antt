-- ===== src/Tests/Tables.antt =====
-- Runs of the path table and of the configuration, and their theorems at those inputs.
use yui_relayer.Base.{
  ◌≡◌, refl, true, false, [], ◌∷◌, none, some, ok, err, Outcome, Action, external, Bool,
}
use yui_relayer.Chain.{ProvableChain}
use yui_relayer.RelayMsgs.Batches.{Log}
use yui_relayer.Paths.{RelayPath, Paths, get, found_or, lookup, store, validate_path}
use yui_relayer.Paths.Table.{
  op_add, op_add_force, run_ops, spec_ops, view, viewed, run_ops-spec_ops,
}
use yui_relayer.Sync.{
  PathConfigKey, KeyValues, path_config_client_id, path_config_connection_id, path_config_version,
  path_config_order, path_config_channel_id,
}
use yui_relayer.Config.Update.{update_path_config}
use yui_relayer.Config.Keys.{
  value_of, with_values, dst_changed, update_path_config-Changed, update_path_config-order,
}
use yui_relayer.Config.Chains.{Configuration, find, add_chain, delete_chain}
use yui_relayer.Config.Listed.{none_listed, one_listed, IsListed, add_delete-IsListed}
use yui_relayer.Scenario.{sample_ibc, sample_path, src_chain, dst_chain}

abbrev src_dst : RelayPath
src_dst = record {
  src = sample_path "src" "ordered";
  dst = sample_path "dst" "ordered";
  strategy = record { type = "naive"; src_noack = false; dst_noack = false };
}

abbrev unknown_strategy : RelayPath
unknown_strategy = record src_dst {
  strategy = record { type = "clever"; src_noack = false; dst_noack = false };
}

abbrev one_path : Paths
one_path = ("ibc01", src_dst) ∷ []

run_ops-spec_ops_example :
    viewed (run_ops sample_ibc (op_add "ibc01" src_dst ∷ op_add "ibc02" src_dst ∷ []) one_path)
      ≡ spec_ops sample_ibc (op_add "ibc01" src_dst ∷ op_add "ibc02" src_dst ∷ []) (view one_path)
    × get
        ((run_ops sample_ibc (op_add "ibc01" src_dst ∷ op_add "ibc02" src_dst ∷ []) one_path).1)
        "ibc02"
      ≡ found_or (
          (spec_ops sample_ibc
              (op_add "ibc01" src_dst ∷ op_add "ibc02" src_dst ∷ [])
              (view one_path)).1
            "ibc02")
run_ops-spec_ops_example =
    run_ops-spec_ops sample_ibc (op_add "ibc01" src_dst ∷ op_add "ibc02" src_dst ∷ []) one_path
      "ibc02"

-- A file that cannot be written.
abbrev read_only : Paths → Action Log (Unit {0})
read_only paths log = (err (external "read-only file system"), log)

abbrev found_client : KeyValues
found_client = (path_config_client_id, "client-7") ∷ (path_config_version, "ics20-2") ∷ []

abbrev found_version : KeyValues
found_version = (path_config_version, "ics20-2") ∷ (path_config_client_id, "client-7") ∷ []

update_path_config-Changed_example :
    let after = update_path_config read_only "ibc01" "dst" found_client ([], one_path) in
    lookup (after.1.1) "ibc01"
      ≡ some (record src_dst { dst = with_values (value_of found_client) src_dst.dst })
    × lookup (after.1.1) "ibc02" ≡ lookup one_path "ibc02"
    × after.0 ≡ err (external "read-only file system")
unfolding lookup
update_path_config-Changed_example =
    update_path_config-Changed read_only "ibc01" "ibc02" "dst" found_client [] one_path src_dst
      (record src_dst { dst = with_values (value_of found_client) src_dst.dst }) (refl, (refl, tt))
      refl (dst_changed refl refl) refl

same_values : (key : PathConfigKey) → value_of found_client key ≡ value_of found_version key
same_values path_config_client_id = refl
same_values path_config_connection_id = refl
same_values path_config_channel_id = refl
same_values path_config_order = refl
same_values path_config_version = refl

update_path_config-order_example :
    update_path_config read_only "ibc01" "dst" found_client ([], one_path)
    ≡ update_path_config read_only "ibc01" "dst" found_version ([], one_path)
update_path_config-order_example =
    update_path_config-order read_only "ibc01" "dst" found_client found_version ([], one_path)
      (refl, (refl, tt)) (refl, (refl, tt)) same_values

-- The configuration of a chain is which of the two chains it is.
abbrev build_sample : Bool → Outcome (ProvableChain Log)
build_sample true = ok src_chain
build_sample false = ok dst_chain

abbrev two_chains : Configuration Log Bool
two_chains = record {
  chain_configs = true ∷ false ∷ [];
  chains = src_chain ∷ dst_chain ∷ [];
  paths = one_path;
}

two_chains-IsListed : IsListed build_sample two_chains
unfolding find
two_chains-IsListed = one_listed refl refl (one_listed refl refl none_listed)

add_delete-IsListed_example :
    IsListed build_sample ((add_chain build_sample true two_chains).1)
    × (c' : Configuration Log Bool) × delete_chain two_chains "src" ≡ ok c'
    × IsListed build_sample c'
    × find c'.chains "src" ≡ none
    × find c'.chains "dst" ≡ find two_chains.chains "dst"
add_delete-IsListed_example =
    add_delete-IsListed build_sample true "src" "dst" two_chains two_chains-IsListed refl

-- A path with an unknown strategy is refused.
refuses_strategy :
    (run_ops sample_ibc (op_add_force "ibc03" unknown_strategy ∷ []) one_path).1 ≡ one_path
unfolding yui_relayer.Paths.add_force
refuses_strategy = refl
