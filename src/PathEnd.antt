-- ===== src/PathEnd.antt =====
-- core/pathEnd.go and core/ics24.go: one end of a relay path, the messages that it builds, and the
-- validation of its identifiers.
pub mod Messages
pub mod Validate
use Prim.Native.Char.{code}
use yui_relayer.Base.{
  ℕ, String, Bool, true, false, List, [], ◌∷◌, map, ◌&&◌, ◌-◌, leb, ◌==◌, if◌then◌else◌,
}
use yui_relayer.Ibc.{Order, none_order, unordered, ordered}

pub record PathEnd : Type 0 where
  pub chain_id : String
  pub client_id : String
  pub connection_id : String
  pub channel_id : String
  pub port_id : String
  pub order : String
  pub version : String

-- The code points of a text.
abbrev pub codes : String → List ℕ
codes String.[] = []
codes (String.◌∷◌ c s) = code c ∷ codes s

-- `strings.ToUpper` on code points. No letter outside ASCII has one of the letters of "ORDERED" or
-- "UNORDERED" as its upper case, so the ASCII letters decide the comparisons below.
abbrev pub upper : ℕ → ℕ
upper c = if leb b'a' c && leb c b'z' then c - 32 else c

abbrev pub to_upper : String → List ℕ
to_upper s = map upper (codes s)

abbrev pub codes_eq : List ℕ → List ℕ → Bool
codes_eq [] [] = true
codes_eq [] (b ∷ bs) = false
codes_eq (a ∷ as') [] = false
codes_eq (a ∷ as') (b ∷ bs) = a == b && codes_eq as' bs

-- OrderFromString
unfoldable pub order_from_string : List ℕ → Order
order_from_string order =
    if codes_eq order (codes "UNORDERED")
    then unordered
    else if codes_eq order (codes "ORDERED")
    then ordered
    else none_order

-- PathEnd.GetOrder
unfoldable pub get_order : PathEnd → Order
unfolding order_from_string
get_order pe = order_from_string (to_upper pe.order)

abbrev pub is_ordered : Order → Bool
is_ordered ordered = true
is_ordered _ = false
