-- ===== src/Durations.antt =====
-- Go's int64 and time.Duration, as core/packet-tx.go and the prover and the event logs of
-- chains/tendermint compute with them: 64 bits, of which the integers that they stand for are written
-- out.
use Prim.Native.Nat.{◌/◌}
use yui_relayer.Base.{
  ℕ, zero, suc, ◌+◌, ◌-◌, ◌*◌, ◌%◌, ◌^◌, ◌<◌, ◌≡◌, arith, Bool-cases, inl, inr, Bool, true, false,
  Option, none, some, ltb, leb, if◌then◌else◌,
}

-- `negsuc n` is -(n + 1).
pub data ℤ : Type 0 where
  pos : ℕ → ℤ
  negsuc : ℕ → ℤ

-- int64(n) for the low 64 bits of a number
unfoldable pub int64 : ℕ → ℤ
int64 n = let m = n % 2 ^ 64 in if ltb m (2 ^ 63) then pos m else negsuc (2 ^ 64 - 1 - m)

-- The 64 bits of an integer, in two's complement.
unfoldable pub bits : ℤ → ℕ
bits (pos n) = n % 2 ^ 64
bits (negsuc n) = 2 ^ 64 - 1 - n % 2 ^ 64

-- `a * b` wraps around.
unfoldable pub mul64 : ℤ → ℤ → ℤ
unfolding int64 bits
mul64 a b = int64 (bits a * bits b)

abbrev pub minus : ℕ → ℤ
minus zero = pos 0
minus (suc n) = negsuc n

-- `a / b` rounds towards zero, and panics where b is zero.
unfoldable pub div64 : ℤ → ℤ → Option ℤ
unfolding int64
div64 a (pos zero) = none
div64 (pos a) (pos (suc b)) = some (pos (a / suc b))
div64 (negsuc a) (pos (suc b)) = some (minus (suc a / suc b))
div64 (pos a) (negsuc b) = some (minus (a / suc b))
div64 (negsuc a) (negsuc b) = some (int64 (suc a / suc b))

-- `a > b`
unfoldable pub greater : ℤ → ℤ → Bool
greater (pos a) (pos b) = ltb b a
greater (pos a) (negsuc b) = true
greater (negsuc a) (pos b) = false
greater (negsuc a) (negsuc b) = ltb a b

-- The absolute value.
abbrev pub magnitude : ℤ → ℕ
magnitude (pos n) = n
magnitude (negsuc n) = suc n

abbrev pub at_most : ℕ → ℕ
at_most n = if ltb n (2 ^ 63) then n else 2 ^ 63 - 1

abbrev pub saturated : ℤ → ℤ
saturated (pos n) = pos (at_most n)
saturated (negsuc n) = negsuc (at_most n)

abbrev pub difference : ℕ → ℤ → ℤ
difference a (pos b) = if leb b a then pos (a - b) else negsuc (b - a - 1)
difference a (negsuc b) = pos (a + suc b)

-- Time.Sub, of times in nanoseconds: it stops at the ends of a Duration.
unfoldable pub sub : ℕ → ℤ → ℤ
sub now last = saturated (difference now last)

-- An int64 has the bits that it is made from.
pub bits-int64 : (n : ℕ) → n < 2 ^ 64 → bits (int64 n) ≡ n
unfolding bits int64
bits-int64 n h =
    let e : n % 2 ^ 64 ≡ n = omega arith in
    elim (Bool-cases (ltb n (2 ^ 63))) [
      | inl y ↦ rw (e, y) (omega arith)
      | inr y ↦
          let m : (2 ^ 64 - 1 - n) % 2 ^ 64 ≡ 2 ^ 64 - 1 - n = omega arith in
          rw (e, y) (omega arith)
    ]
