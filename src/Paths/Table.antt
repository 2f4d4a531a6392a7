-- ===== src/Paths/Table.antt =====
-- The table of paths (core/path.go) as a map from names to paths: what its operations do does not
-- depend on how the table is kept.
use yui_relayer.Base.{
  String, List, [], ◌∷◌, Option, none, some, str_eq, str_eq_iff, if◌then◌else◌, ◌≡◌, refl, ap, ◌∙◌,
  Action, Outcome, ok, err, panic, message, arith, next,
}
use yui_relayer.Ibc.{Functions}
use yui_relayer.Paths.{
  RelayPath, Paths, lookup, store, found_or, get, add, add_force, validate_path, write, write_new,
  if_missing, answer_of,
}

-- A table as a map.
abbrev pub Table : Type 0
Table = String → Option RelayPath

abbrev pub view : Paths → Table
view paths = λ name. lookup paths name

abbrev pub update : Table → String → RelayPath → Table
update t name path = λ other. if str_eq name other then some path else t other

pub data Op : Type 0 where
  op_add op_add_force : String → RelayPath → Op

-- The code.
abbrev pub run_op : Functions → Op → Action Paths (Unit {0})
run_op ibc (op_add name path) = add ibc name path
run_op ibc (op_add_force name path) = add_force ibc name path

-- The specification: a path that is valid is written, by `Add` only under a name that is free.
abbrev pub write_table : String → RelayPath → Table → Outcome (Unit {0}) × Table
write_table name path t = (ok tt, update t name path)

abbrev pub write_free : Option RelayPath → String → RelayPath → Table → Outcome (Unit {0}) × Table
write_free none name path t = write_table name path t
write_free (some p) name path t = (err (message "path with name already exists"), t)

abbrev pub after_validation :
    Outcome (Unit {0}) → Outcome (Unit {0}) × Table → Table → Outcome (Unit {0}) × Table
after_validation (ok u) written t = written
after_validation (err e) written t = (err e, t)
after_validation panic written t = (panic, t)

abbrev pub spec_op : Functions → Op → Table → Outcome (Unit {0}) × Table
spec_op ibc (op_add name path) t =
    after_validation (answer_of (validate_path ibc path)) (write_free (t name) name path t) t
spec_op ibc (op_add_force name path) t =
    after_validation (answer_of (validate_path ibc path)) (write_table name path t) t

-- A sequence of operations, each with its outcome; an error does not end the sequence.
abbrev pub run_ops : Functions → List Op → Paths → List (Outcome (Unit {0})) × Paths
run_ops ibc [] paths = ([], paths)
run_ops ibc (o ∷ ops) paths =
    let (out, paths') = run_op ibc o paths in
    let (outs, last) = run_ops ibc ops paths' in (out ∷ outs, last)

abbrev pub spec_ops : Functions → List Op → Table → List (Outcome (Unit {0})) × Table
spec_ops ibc [] t = ([], t)
spec_ops ibc (o ∷ ops) t =
    let (out, t') = spec_op ibc o t in let (outs, last) = spec_ops ibc ops t' in (out ∷ outs, last)

abbrev pub viewed : {A : Type 0} → A × Paths → A × Table
viewed (a, paths) = (a, view paths)

pub lookup-store :
    (paths : Paths) (name other : String) (path : RelayPath)
    → lookup (store paths name path) other
      ≡ (if str_eq name other then some path else lookup paths other)
unfolding lookup store
lookup-store [] name other path = refl
lookup-store ((n, p) ∷ paths) name other path = ground (
  arith,
  str_eq_iff n name,
  str_eq_iff n other,
  str_eq_iff name other,
  lookup-store paths name other path,
)

view-store :
    (paths : Paths) (name : String) (path : RelayPath)
    → view (store paths name path) ≡ update (view paths) name path
view-store paths name path = λ i other. lookup-store paths name other path i

written-view :
    (o : Option RelayPath) (name : String) (path : RelayPath) (paths : Paths)
    → viewed (if_missing o name path paths) ≡ write_free o name path (view paths)
written-view none name path paths = ap (λ t. (ok tt, t)) (view-store paths name path)
written-view (some p) name path paths = refl

next-view :
    (x : Outcome (Unit {0})) (m : Action Paths (Unit {0})) (written : Outcome (Unit {0}) × Table)
    (paths : Paths)
    → viewed (m paths) ≡ written
    → viewed (next (λ u. m) (x, paths)) ≡ after_validation x written (view paths)
next-view (ok u) m written paths h = h
next-view (err e) m written paths h = refl
next-view panic m written paths h = refl

run_op-spec_op :
    (ibc : Functions) (o : Op) (paths : Paths)
    → viewed (run_op ibc o paths) ≡ spec_op ibc o (view paths)
unfolding add add_force
run_op-spec_op ibc (op_add name path) paths =
    next-view (answer_of (validate_path ibc path)) (write_new name path) _ paths
      (written-view (lookup paths name) name path paths)
run_op-spec_op ibc (op_add_force name path) paths =
    next-view (answer_of (validate_path ibc path)) (write name path) _ paths
      (ap (λ t. (ok tt, t)) (view-store paths name path))

-- For every sequence of calls of `Add` and `AddForce` on every table: the outcomes of the calls and
-- the map from names to paths after them are those of the specification, in which a call with a path
-- that is not valid ends as its validation does and changes nothing, and a valid path is written under
-- its name and no other, by `Add` only if the name is free; and `Get` finds a name after them if and
-- only if the map has it.
pub run_ops-spec_ops :
    (ibc : Functions) (ops : List Op) (paths : Paths) (name : String)
    → viewed (run_ops ibc ops paths) ≡ spec_ops ibc ops (view paths)
      × get ((run_ops ibc ops paths).1) name ≡ found_or ((spec_ops ibc ops (view paths)).1 name)
unfolding get
run_ops-spec_ops ibc ops paths name =
    let e = refines ops paths in (e, ap (λ x. found_or (x.1 name)) e)
  where
    refines :
        (ops : List Op) (paths : Paths)
        → viewed (run_ops ibc ops paths) ≡ spec_ops ibc ops (view paths)
    refines [] paths = refl
    refines (o ∷ ops) paths =
        ap (λ y. ((run_op ibc o paths).0 ∷ y.0, y.1)) (refines ops ((run_op ibc o paths).1))
        ∙ ap (λ x. (x.0 ∷ (spec_ops ibc ops (x.1)).0, (spec_ops ibc ops (x.1)).1))
            (run_op-spec_op ibc o paths)
