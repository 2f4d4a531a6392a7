-- ===== src/Config/Keys.antt =====
-- What UpdatePathConfig (config/core.go) writes does not depend on the order in which Go walks the map.
use text.Mathlib.TextPositions.{eq_refl}
use yui_relayer.Base.{
  ℕ, ◌==◌, ==_iff, String, Bool, true, false, [], ◌∷◌, Option, none, some, str_eq, if◌then◌else◌,
  Bool-cases, inl, inr, ◌≡◌, refl, sym, ap, ◌∙◌, Action,
}
use yui_relayer.PathEnd.{PathEnd}
use yui_relayer.Paths.{RelayPath, Paths, lookup, store}
use yui_relayer.Paths.Table.{lookup-store}
use yui_relayer.Sync.{
  PathConfigKey, path_config_client_id, path_config_connection_id, path_config_channel_id,
  path_config_order, path_config_version, KeyValues,
}
use yui_relayer.Config.Update.{set_key, set_keys, set_end, of_path, replace, update_path_config}

abbrev rank : PathConfigKey → ℕ
rank path_config_client_id = 0
rank path_config_connection_id = 1
rank path_config_channel_id = 2
rank path_config_order = 3
rank path_config_version = 4

abbrev of_rank : ℕ → PathConfigKey
of_rank n =
    if n == 0
    then path_config_client_id
    else if n == 1
    then path_config_connection_id
    else if n == 2
    then path_config_channel_id
    else if n == 3
    then path_config_order
    else path_config_version

abbrev pub key_eq : PathConfigKey → PathConfigKey → Bool
key_eq j k = rank j == rank k

-- The value that a map with these entries has for a key.
abbrev pub value_of : KeyValues → PathConfigKey → Option String
value_of [] key = none
value_of ((k, v) ∷ kv) key = if key_eq k key then some v else value_of kv key

-- No key is there twice, as in a Go map.
abbrev pub Distinct : KeyValues → Type 0
Distinct [] = Unit
Distinct ((k, v) ∷ kv) = value_of kv k ≡ none × Distinct kv

abbrev pub or_old : Option String → String → String
or_old none old = old
or_old (some v) old = v

-- The end with the values of a map for its fields.
abbrev pub with_values : (PathConfigKey → Option String) → PathEnd → PathEnd
with_values value pe = record {
  chain_id = pe.chain_id;
  client_id = or_old (value path_config_client_id) pe.client_id;
  connection_id = or_old (value path_config_connection_id) pe.connection_id;
  channel_id = or_old (value path_config_channel_id) pe.channel_id;
  port_id = pe.port_id;
  order = or_old (value path_config_order) pe.order;
  version = or_old (value path_config_version) pe.version;
}

set_key-with_values :
    (key : PathConfigKey) (v : String) (pe : PathEnd)
    → set_key key v pe ≡ with_values (λ k. if key_eq key k then some v else none) pe
unfolding set_key
set_key-with_values path_config_client_id v pe = refl
set_key-with_values path_config_connection_id v pe = refl
set_key-with_values path_config_channel_id v pe = refl
set_key-with_values path_config_order v pe = refl
set_key-with_values path_config_version v pe = refl

of_rank-rank : (k : PathConfigKey) → of_rank (rank k) ≡ k
of_rank-rank path_config_client_id = refl
of_rank-rank path_config_connection_id = refl
of_rank-rank path_config_channel_id = refl
of_rank-rank path_config_order = refl
of_rank-rank path_config_version = refl

key_eq→≡ : (j k : PathConfigKey) → key_eq j k ≡ true → j ≡ k
key_eq→≡ j k h = sym (of_rank-rank j) ∙ ap of_rank ((==_iff (rank j) (rank k)).0 h) ∙ of_rank-rank k

-- The value of a new entry before a map that does not have its key.
or_old-value_of :
    (kv : KeyValues) (key k : PathConfigKey) (v old : String)
    → value_of kv key ≡ none
    → or_old (value_of kv k) (or_old (if key_eq key k then some v else none) old)
      ≡ or_old (if key_eq key k then some v else value_of kv k) old
or_old-value_of kv key k v old h = elim (Bool-cases (key_eq key k)) [
  | inl yes' ↦ rw (yes', ap (value_of kv) (sym (key_eq→≡ key k yes')), h) refl
  | inr no' ↦ rw no' refl
]

set_keys-with_values :
    (kv : KeyValues) (pe : PathEnd) → Distinct kv → set_keys kv pe ≡ with_values (value_of kv) pe
unfolding set_keys
set_keys-with_values [] pe h = refl
set_keys-with_values ((key, v) ∷ kv) pe (h, hs) =
    ap (set_keys kv) (set_key-with_values key v pe)
    ∙ set_keys-with_values kv (with_values (λ k. if key_eq key k then some v else none) pe) hs
    ∙ λ i. record pe {
      client_id = or_old-value_of kv key path_config_client_id v pe.client_id h i;
      connection_id = or_old-value_of kv key path_config_connection_id v pe.connection_id h i;
      channel_id = or_old-value_of kv key path_config_channel_id v pe.channel_id h i;
      order = or_old-value_of kv key path_config_order v pe.order h i;
      version = or_old-value_of kv key path_config_version v pe.version h i;
    }

-- The path `p'` is `p` with one end changed: the end that is of the chain, src before dst.
pub data EndChanged (chain_id : String) (f : PathEnd → PathEnd) (p : RelayPath)
    : RelayPath → Type 0 where
  src_changed :
      str_eq chain_id p.src.chain_id ≡ true → EndChanged chain_id f p (record p { src = f p.src })
  dst_changed :
      str_eq chain_id p.src.chain_id ≡ false
      → str_eq chain_id p.dst.chain_id ≡ true
      → EndChanged chain_id f p (record p { dst = f p.dst })

set_end-EndChanged :
    (chain_id : String) (kv : KeyValues) (p p' : RelayPath)
    → Distinct kv
    → EndChanged chain_id (with_values (value_of kv)) p p'
    → set_end chain_id kv p ≡ some p'
unfolding set_end
set_end-EndChanged chain_id kv p p' d (src_changed h) = rw (h, set_keys-with_values kv p.src d) refl
set_end-EndChanged chain_id kv p p' d (dst_changed h k) =
    rw (h, k, set_keys-with_values kv p.dst d) refl

set_end-order :
    (chain_id : String) (kv kv' : KeyValues) (p : RelayPath)
    → ((pe : PathEnd) → set_keys kv pe ≡ set_keys kv' pe)
    → set_end chain_id kv p ≡ set_end chain_id kv' p
unfolding set_end
set_end-order chain_id kv kv' p h = rw (h p.src, h p.dst) refl

lookup-store_same :
    (paths : Paths) (name : String) (p : RelayPath) → lookup (store paths name p) name ≡ some p
lookup-store_same paths name p = simp (lookup-store, eq_refl)

module _ {W : Type 0} (over_write : Paths → Action W (Unit {0})) where
  -- For every table of paths with a path of this name, one of whose ends is of the chain, and every map
  -- of keys to values: after UpdatePathConfig, whether or not the file could be written, the fields of
  -- that end which the map has a value for have that value, the other fields of the path and the paths
  -- of all other names are as before; and the outcome is that of writing the file with the new table.
  pub update_path_config-Changed :
      (name other chain_id : String) (kv : KeyValues) (w : W) (paths : Paths) (p p' : RelayPath)
      → Distinct kv
      → lookup paths name ≡ some p
      → EndChanged chain_id (with_values (value_of kv)) p p'
      → str_eq name other ≡ false
      → let after = update_path_config over_write name chain_id kv (w, paths) in
        lookup (after.1.1) name ≡ some p'
        × lookup (after.1.1) other ≡ lookup paths other
        × after.0 ≡ (over_write (store paths name p') w).0
  unfolding update_path_config
  update_path_config-Changed name other chain_id kv w paths p p' d found changed differs =
      rw (found, set_end-EndChanged chain_id kv p p' d changed)
        (lookup-store_same paths name p', lookup-store paths name other p' ∙ rw differs refl, refl)

  -- For every two lists of entries that are the same map, each without a key twice: UpdatePathConfig
  -- does the same with both, so that the order in which Go walks the map does not matter.
  pub update_path_config-order :
      (name chain_id : String) (kv kv' : KeyValues) (s : W × Paths)
      → Distinct kv
      → Distinct kv'
      → ((key : PathConfigKey) → value_of kv key ≡ value_of kv' key)
      → update_path_config over_write name chain_id kv s
        ≡ update_path_config over_write name chain_id kv' s
  unfolding update_path_config
  update_path_config-order name chain_id kv kv' (w, paths) d d' same =
      of_path-order (lookup paths name)
    where
      keys_order : (pe : PathEnd) → set_keys kv pe ≡ set_keys kv' pe
      keys_order pe =
          set_keys-with_values kv pe d
          ∙ ap (λ value. with_values value pe) (λ i key. same key i)
          ∙ sym (set_keys-with_values kv' pe d')

      of_path-order :
          (o : Option RelayPath)
          → of_path over_write name chain_id kv o (w, paths)
            ≡ of_path over_write name chain_id kv' o (w, paths)
      of_path-order none = refl
      of_path-order (some p) =
          ap (λ o. replace over_write name o (w, paths))
            (set_end-order chain_id kv kv' p keys_order)
