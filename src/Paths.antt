-- ===== src/Paths.antt =====
-- core/path.go, and the strategy configuration of core/strategies.go: the table of the paths between
-- chains, from names to paths. The pointers of a path are taken as not nil. `Table` is about the
-- table as a map.
pub mod Table
use yui_relayer.Base.{
  String, Bool, true, false, not, ◌&&◌, ◌||◌, List, [], ◌∷◌, Option, none, some, is_empty, str_eq,
  if◌then◌else◌, Action, Outcome, ok, err, panic, message, pure, fail, lift, ◌>>=◌, ◌>>◌,
}
use yui_relayer.Ibc.{Functions}
use yui_relayer.PathEnd.{PathEnd, get_order, is_ordered}
use yui_relayer.PathEnd.Validate.{validate}
use yui_relayer.Strategy.{NaiveStrategy}

-- StrategyCfg
pub record StrategyCfg : Type 0 where
  pub type : String
  pub src_noack : Bool
  pub dst_noack : Bool

-- Path
pub record RelayPath : Type 0 where
  pub src : PathEnd
  pub dst : PathEnd
  pub strategy : StrategyCfg

-- Paths: a Go map, here with one entry for each name
abbrev pub Paths : Type 0
Paths = List (String × RelayPath)

-- NewNaiveStrategy
unfoldable pub new_naive_strategy : Bool → Bool → NaiveStrategy
new_naive_strategy src_no_ack dst_no_ack = record {
  is_ordered = false;
  max_tx_size = 0;
  max_msg_length = 0;
  src_no_ack = src_no_ack;
  dst_no_ack = dst_no_ack;
}

-- NaiveStrategy.GetType
abbrev pub naive : String
naive = "naive"

-- GetStrategy
unfoldable pub get_strategy : StrategyCfg → Outcome NaiveStrategy
unfolding new_naive_strategy
get_strategy cfg =
    if str_eq cfg.type naive
    then ok (new_naive_strategy cfg.src_noack cfg.dst_noack)
    else err (message "unknown strategy type")

-- A check reads no state and changes none: its world has one state.
abbrev pub Check : Type 0
Check = Action (Unit {0}) (Unit {0})

abbrev pub answer_of : Check → Outcome (Unit {0})
answer_of check = (check tt).0

-- Path.ValidateStrategy
unfoldable pub validate_strategy : RelayPath → Check
validate_strategy p =
    if str_eq p.strategy.type naive then pure tt else fail (message "invalid strategy")

unfoldable pub check_version : PathEnd → Check
check_version pe =
    if str_eq pe.version "" then fail (message "source must specify a version") else pure tt

unfoldable pub check_orders : RelayPath → Check
check_orders p =
    if str_eq p.src.order p.dst.order
    then pure tt
    else fail (message "both sides must have same order ('ORDERED' or 'UNORDERED')")

-- Path.Validate
unfoldable pub validate_path : Functions → RelayPath → Check
unfolding validate check_version validate_strategy check_orders
validate_path ibc p = do
  validate ibc p.src
  check_version p.src
  validate ibc p.dst
  validate_strategy p
  check_orders p

-- Path.Ordered
unfoldable pub path_ordered : RelayPath → Bool
unfolding get_order
path_ordered p = is_ordered (get_order p.src)

abbrev pub no_end : PathEnd
no_end = record {
  chain_id = "";
  client_id = "";
  connection_id = "";
  channel_id = "";
  port_id = "";
  order = "";
  version = "";
}

-- Path.End
unfoldable pub path_end : RelayPath → String → PathEnd
path_end p chain_id =
    if str_eq p.dst.chain_id chain_id
    then p.dst
    else if str_eq p.src.chain_id chain_id
    then p.src
    else no_end

-- `p[name]`
unfoldable pub lookup : Paths → String → Option RelayPath
lookup [] name = none
lookup ((n, p) ∷ paths) name = if str_eq n name then some p else lookup paths name

-- `p[name] = path`
unfoldable pub store : Paths → String → RelayPath → Paths
store [] name path = (name, path) ∷ []
store ((n, p) ∷ paths) name path =
    if str_eq n name then (n, path) ∷ paths else (n, p) ∷ store paths name path

abbrev pub found_or : Option RelayPath → Outcome RelayPath
found_or none = err (message "path with name does not exist")
found_or (some p) = ok p

-- Paths.Get
unfoldable pub get : Paths → String → Outcome RelayPath
unfolding lookup
get paths name = found_or (lookup paths name)

abbrev pub must_found : Outcome RelayPath → Outcome RelayPath
must_found (ok p) = ok p
must_found (err e) = panic
must_found panic = panic

-- Paths.MustGet
unfoldable pub must_get : Paths → String → Outcome RelayPath
unfolding get
must_get paths name = must_found (get paths name)

abbrev pub write : String → RelayPath → Action Paths (Unit {0})
write name path paths = (ok tt, store paths name path)

abbrev pub if_missing : Option RelayPath → String → RelayPath → Action Paths (Unit {0})
if_missing none name path = write name path
if_missing (some p) name path = fail (message "path with name already exists")

abbrev pub write_new : String → RelayPath → Action Paths (Unit {0})
write_new name path paths = if_missing (lookup paths name) name path paths

-- Paths.Add
unfoldable pub add : Functions → String → RelayPath → Action Paths (Unit {0})
unfolding validate_path lookup store
add ibc name path = do lift (answer_of (validate_path ibc path)); write_new name path

-- Paths.AddForce
unfoldable pub add_force : Functions → String → RelayPath → Action Paths (Unit {0})
unfolding validate_path store
add_force ibc name path = do lift (answer_of (validate_path ibc path)); write name path

abbrev pub touches : RelayPath → String → Bool
touches p chain_id = str_eq p.dst.chain_id chain_id || str_eq p.src.chain_id chain_id

unfoldable pub between : String → String → Paths → Paths
between src dst [] = []
between src dst ((n, p) ∷ paths) =
    let rest = between src dst paths in
    if touches p src && touches p dst then (n, p) ∷ rest else rest

-- Paths.PathsFromChains
unfoldable pub paths_from_chains : Paths → String → String → Outcome Paths
unfolding between
paths_from_chains paths src dst =
    let out = between src dst paths in
    if is_empty out then err (message "failed to find path in config between chains") else ok out
