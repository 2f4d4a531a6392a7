-- ===== src/Events/Numbers.antt =====
-- The functions of Go's standard library that core/utils.go reads numbers and bytes with, on code
-- points: `strconv.ParseUint(s, 10, 64)`, `hex.DecodeString`, `strings.Split(v, "-")` and `[]byte(s)`.
use Prim.Native.Nat.{◌/◌}
use yui_relayer.Base.{
  ℕ, zero, suc, ◌+◌, ◌-◌, ◌*◌, ◌%◌, ◌^◌, ◌<◌, Bool, true, false, not, ◌&&◌, List, [], ◌∷◌, ◌++◌,
  Option, none, some, ltb, leb, ◌==◌, if◌then◌else◌, ◌≡◌, refl, ◌∙◌, All, is_empty, Bool-cases, inl,
  inr, arith,
}
use yui_relayer.Ibc.{Bytes}

abbrev pub is_digit : ℕ → Bool
is_digit c = leb b'0' c && leb c b'9'

-- `maxUint64/10 + 1`
abbrev pub cutoff : ℕ
cutoff = 1844674407370955162

-- The loop of ParseUint: `n` is what has been read. The product and the sum are of uint64.
unfoldable pub scan_uint : List ℕ → ℕ → Option ℕ
scan_uint [] n = some n
scan_uint (c ∷ cs) n =
    let m = (n * 10) % 2 ^ 64 in
    let n1 = (m + (c - b'0')) % 2 ^ 64 in
    let rest = scan_uint cs n1 in
    if not (is_digit c)
    then none
    else if leb cutoff n
    then none
    else if ltb n1 m
    then none
    else rest

-- strconv.ParseUint(s, 10, 64); `none` is its error
unfoldable pub parse_uint : List ℕ → Option ℕ
unfolding scan_uint
parse_uint [] = none
parse_uint (c ∷ cs) = scan_uint (c ∷ cs) 0

-- The value of a hexadecimal digit.
unfoldable pub from_hex : ℕ → Option ℕ
from_hex c =
    if is_digit c
    then some (c - b'0')
    else if leb b'a' c && leb c b'f'
    then some (c - b'a' + 10)
    else if leb b'A' c && leb c b'F'
    then some (c - b'A' + 10)
    else none

abbrev pub hex_pair : Option ℕ → Option ℕ → Option Bytes → Option Bytes
hex_pair (some a) (some b) (some rest) = some ((a * 16 + b) ∷ rest)
hex_pair _ _ _ = none

-- hex.DecodeString; `none` is its error
unfoldable pub hex_decode : List ℕ → Option Bytes
unfolding from_hex
hex_decode [] = some []
hex_decode (a ∷ []) = none
hex_decode (a ∷ b ∷ cs) = hex_pair (from_hex a) (from_hex b) (hex_decode cs)

-- The part before the first '-', and the parts after it.
abbrev pub joined : Bool → ℕ → List ℕ × List (List ℕ) → List ℕ × List (List ℕ)
joined true c (part, parts) = ([], part ∷ parts)
joined false c (part, parts) = (c ∷ part, parts)

-- strings.Split(v, "-"), which has at least one part
unfoldable pub split_dash : List ℕ → List ℕ × List (List ℕ)
split_dash [] = ([], [])
split_dash (c ∷ cs) = joined (c == b'-') c (split_dash cs)

-- The UTF-8 encoding of a code point.
abbrev pub utf8_code : ℕ → Bytes
utf8_code c =
    if ltb c 128
    then c ∷ []
    else if ltb c 2048
    then (192 + c / 64) ∷ (128 + c % 64) ∷ []
    else if ltb c 65536
    then (224 + c / 4096) ∷ (128 + c / 64 % 64) ∷ (128 + c % 64) ∷ []
    else (240 + c / 262144) ∷ (128 + c / 4096 % 64) ∷ (128 + c / 64 % 64) ∷ (128 + c % 64) ∷ []

-- `[]byte(s)`
unfoldable pub utf8 : List ℕ → Bytes
utf8 [] = []
utf8 (c ∷ cs) = utf8_code c ++ utf8 cs

-- The decimal print of a number of at most as many digits as the fuel.
unfoldable pub decimal_digits : ℕ → ℕ → List ℕ → List ℕ
decimal_digits zero n out = out
decimal_digits (suc k) n out =
    let more = decimal_digits k (n / 10) ((b'0' + n % 10) ∷ out) in
    if ltb n 10 then (b'0' + n) ∷ out else more

-- A uint64 has at most twenty digits.
unfoldable pub decimal : ℕ → List ℕ
unfolding decimal_digits
decimal n = decimal_digits 20 n []

abbrev pow10 : ℕ → ℕ
pow10 zero = 1
pow10 (suc k) = 10 * pow10 k

scan_step :
    (d n m : ℕ) (cs : List ℕ)
    → d < 10
    → n * 10 + d ≡ m
    → m < 2 ^ 64
    → scan_uint ((b'0' + d) ∷ cs) n ≡ scan_uint cs m
unfolding scan_uint
scan_step d n m cs h e fits = ground arith

scan-decimal_digits :
    (k n : ℕ) (out : List ℕ)
    → n < pow10 (suc k)
    → n < 2 ^ 64
    → scan_uint (decimal_digits (suc k) n out) 0 ≡ scan_uint out n
unfolding decimal_digits
scan-decimal_digits zero n out h fits =
    let e : ltb n 10 ≡ true = ground arith in
    rw e (scan_step n 0 n out (omega arith) (omega arith) fits)
scan-decimal_digits (suc k) n out h fits = elim (Bool-cases (ltb n 10)) [
  | inl yes' ↦ rw yes' (scan_step n 0 n out (ground arith) (omega arith) fits)
  | inr no' ↦ rw no' (
      scan-decimal_digits k (n / 10) ((b'0' + n % 10) ∷ out) (omega arith) (omega arith)
      ∙ scan_step (n % 10) (n / 10) n out (omega arith) (omega arith) fits)
]

decimal_digits-is_empty :
    (k n c : ℕ) (out : List ℕ) → is_empty (decimal_digits k n (c ∷ out)) ≡ false
unfolding decimal_digits
decimal_digits-is_empty zero n c out = refl
decimal_digits-is_empty (suc k) n c out = elim (Bool-cases (ltb n 10)) [
  | inl yes' ↦ rw yes' refl
  | inr no' ↦ rw no' (decimal_digits-is_empty k (n / 10) (b'0' + n % 10) (c ∷ out))
]

decimal-is_empty : (n : ℕ) → is_empty (decimal n) ≡ false
unfolding decimal
decimal-is_empty n = elim (Bool-cases (ltb n 10)) [
  | inl yes' ↦ rw yes' refl
  | inr no' ↦ rw no' (decimal_digits-is_empty 19 (n / 10) (b'0' + n % 10) [])
]

parse_uint-scan : (s : List ℕ) → is_empty s ≡ false → parse_uint s ≡ scan_uint s 0
unfolding parse_uint
parse_uint-scan [] h = cc
parse_uint-scan (c ∷ s) h = refl

-- A uint64 is read back from its decimal print.
pub parse_uint-decimal : (n : ℕ) → n < 2 ^ 64 → parse_uint (decimal n) ≡ some n
unfolding decimal scan_uint
parse_uint-decimal n fits =
    parse_uint-scan (decimal n) (decimal-is_empty n)
    ∙ scan-decimal_digits 19 n [] (omega arith) fits

-- The number that digits stand for after what has been read, with no bound.
abbrev pub decimal_value : List ℕ → ℕ → ℕ
decimal_value [] n = n
decimal_value (c ∷ cs) n = decimal_value cs (n * 10 + (c - b'0'))

-- The text is a decimal number, which fits into a uint64.
pub record IsDecimal (s : List ℕ) (n : ℕ) : Type 0 where
  pub not_empty : is_empty s ≡ false
  pub digits : All (λ c. is_digit c ≡ true) s
  pub is_value : decimal_value s 0 ≡ n
  pub fits : n < 2 ^ 64

-- Where the checks of ParseUint go on, the product and the sum are exact.
exact_sum :
    (d n : ℕ)
    → d < 10
    → leb cutoff n ≡ false
    → ltb ((n * 10 % 2 ^ 64 + d) % 2 ^ 64) (n * 10 % 2 ^ 64) ≡ false
    → (n * 10 + d < 2 ^ 64) × (n * 10 % 2 ^ 64 + d) % 2 ^ 64 ≡ n * 10 + d
exact_sum d n h b l =
    let e : n * 10 % 2 ^ 64 ≡ n * 10 = ground arith in
    let l' : ltb ((n * 10 + d) % 2 ^ 64) (n * 10) ≡ false = rw e at l in
    let k : n * 10 + d < 2 ^ 64 = ground arith in (k, rw e (omega arith))

-- Nothing wraps around where the loop of ParseUint goes on.
scan_uint-next :
    (c n x : ℕ) (cs : List ℕ)
    → scan_uint (c ∷ cs) n ≡ some x
    → is_digit c ≡ true
      × (n * 10 + (c - b'0') < 2 ^ 64)
      × scan_uint cs (n * 10 + (c - b'0')) ≡ some x
unfolding scan_uint
scan_uint-next c n x cs e =
    checked (is_digit c) (leb cutoff n)
      (ltb ((n * 10 % 2 ^ 64 + (c - b'0')) % 2 ^ 64) (n * 10 % 2 ^ 64)) refl refl refl e
  where
    m : ℕ
    m = n * 10 % 2 ^ 64

    checked :
        (d b l : Bool)
        → is_digit c ≡ d
        → leb cutoff n ≡ b
        → ltb ((m + (c - b'0')) % 2 ^ 64) m ≡ l
        → (if not d
            then none
            else if b
            then none
            else if l
            then none
            else scan_uint cs ((m + (c - b'0')) % 2 ^ 64))
          ≡ some x
        → is_digit c ≡ true
          × (n * 10 + (c - b'0') < 2 ^ 64)
          × scan_uint cs (n * 10 + (c - b'0')) ≡ some x
    checked false b l p q r e = cc
    checked true true l p q r e = cc
    checked true false true p q r e = cc
    checked true false false p q r e =
        let d : c - b'0' < 10 = ground arith in
        let (k, s) = exact_sum (c - b'0') n d q r in (p, k, rw s at e)

scan_uint-exact :
    (s : List ℕ) (m n : ℕ)
    → m < 2 ^ 64
    → scan_uint s m ≡ some n
    → All (λ c. is_digit c ≡ true) s × decimal_value s m ≡ n × (n < 2 ^ 64)
unfolding scan_uint
scan_uint-exact [] m n fits h = (tt, ground arith, ground arith)
scan_uint-exact (c ∷ s) m n fits h =
    let (d, k, e) = scan_uint-next c m n s h in
    let (ds, v, b) = scan_uint-exact s (m * 10 + (c - b'0')) n k e in ((d, ds), v, b)

-- What is read is the number that the text stands for.
pub parse_uint-IsDecimal : (s : List ℕ) (n : ℕ) → parse_uint s ≡ some n → IsDecimal s n
unfolding parse_uint
parse_uint-IsDecimal [] n h = cc
parse_uint-IsDecimal (c ∷ s) n h =
    let (ds, v, b) = scan_uint-exact (c ∷ s) 0 n (omega arith) h in
    record { not_empty = refl; digits = ds; is_value = v; fits = b }

abbrev pub hex_digit : ℕ → ℕ
hex_digit d = if ltb d 10 then b'0' + d else b'a' + (d - 10)

unfoldable pub hex_encode : Bytes → List ℕ
hex_encode [] = []
hex_encode (b ∷ bz) = hex_digit (b / 16) ∷ hex_digit (b % 16) ∷ hex_encode bz

from_hex-hex_digit : (d : ℕ) → d < 16 → from_hex (hex_digit d) ≡ some d
unfolding from_hex
from_hex-hex_digit d h = ground arith

-- Bytes are read back from their hexadecimal print.
pub hex_decode-hex_encode :
    (bz : Bytes) → All (λ b. b < 256) bz → hex_decode (hex_encode bz) ≡ some bz
unfolding hex_decode hex_encode
hex_decode-hex_encode [] h = refl
hex_decode-hex_encode (b ∷ bz) (h, hs) =
    let high = from_hex-hex_digit (b / 16) (omega arith) in
    let low = from_hex-hex_digit (b % 16) (omega arith) in
    let byte : b / 16 * 16 + b % 16 ≡ b = omega arith in
    rw (high, low, hex_decode-hex_encode bz hs, byte) refl
