-- ===== src/Config/Update.antt =====
-- UpdatePathConfig of config/core.go: identifiers are written into one end of a path. The state is
-- the table of paths in memory, beside the world; `over_write` is OverWriteConfig, which writes the
-- configuration file, and what is in memory stays written when it fails.
use yui_relayer.Base.{
  String, [], ◌∷◌, Option, none, some, str_eq, if◌then◌else◌, Action, err, message, with_state,
}
use yui_relayer.PathEnd.{PathEnd}
use yui_relayer.Paths.{RelayPath, Paths, lookup, store}
use yui_relayer.Sync.{
  PathConfigKey, path_config_client_id, path_config_connection_id, path_config_channel_id,
  path_config_order, path_config_version, KeyValues, Config,
}

-- One case of the `switch` over the keys.
unfoldable pub set_key : PathConfigKey → String → PathEnd → PathEnd
set_key path_config_client_id v pe = record pe { client_id = v }
set_key path_config_connection_id v pe = record pe { connection_id = v }
set_key path_config_channel_id v pe = record pe { channel_id = v }
set_key path_config_order v pe = record pe { order = v }
set_key path_config_version v pe = record pe { version = v }

-- The loop over the map, in the order of the list.
unfoldable pub set_keys : KeyValues → PathEnd → PathEnd
unfolding set_key
set_keys [] pe = pe
set_keys ((k, v) ∷ kv) pe = set_keys kv (set_key k v pe)

-- The path with the end of a chain written, src before dst; `none` if no end is of the chain.
unfoldable pub set_end : String → KeyValues → RelayPath → Option RelayPath
unfolding set_keys
set_end chain_id kv p =
    if str_eq chain_id p.src.chain_id
    then some (record p { src = set_keys kv p.src })
    else if str_eq chain_id p.dst.chain_id
    then some (record p { dst = set_keys kv p.dst })
    else none

module _ {W : Type 0} (over_write : Paths → Action W (Unit {0})) where
  abbrev pub keep : Paths → Action (W × Paths) (Unit {0})
  keep paths (w, old) = with_state paths (over_write paths w)

  abbrev pub replace : String → Option RelayPath → Action (W × Paths) (Unit {0})
  replace name none (w, paths) = (err (message "pathEnd is nil"), (w, paths))
  replace name (some p) (w, paths) = keep (store paths name p) (w, paths)

  abbrev pub of_path :
      String → String → KeyValues → Option RelayPath → Action (W × Paths) (Unit {0})
  of_path name chain_id kv none (w, paths) =
      (err (message "path with name does not exist"), (w, paths))
  of_path name chain_id kv (some p) (w, paths) = replace name (set_end chain_id kv p) (w, paths)

  -- CoreConfig.UpdatePathConfig
  unfoldable pub update_path_config : Config (W × Paths)
  unfolding lookup store set_end
  update_path_config path_name chain_id kv (w, paths) =
      of_path path_name chain_id kv (lookup paths path_name) (w, paths)
