-- ===== src/Base/Lists.antt =====
-- Lists measured by native numbers, and the predicates on lists that the components share.
use Prim.Native.Nat.{ℕ, zero, suc, ◌+◌, ◌≤◌}
use mathlib.Core.Path.{◌≡◌, refl}
use mathlib.Core.Bool.{Bool, true, false}
use mathlib.Core.List.{List, [], ◌∷◌, ◌++◌, append_assoc}
use native.Mathlib.Omega.{arith}
use yui_relayer.Base.Tests.{◌==◌, if◌then◌else◌}

module _ {ℓ} {A : Type ℓ} where
  abbrev pub length : List A → ℕ
  length [] = 0
  length (x ∷ xs) = suc (length xs)

  abbrev pub is_empty : List A → Bool
  is_empty [] = true
  is_empty (x ∷ xs) = false

  abbrev pub replicate : ℕ → A → List A
  replicate zero a = []
  replicate (suc n) a = a ∷ replicate n a

  -- A write out of bounds changes nothing.
  abbrev pub set : List A → ℕ → A → List A
  set [] i v = []
  set (x ∷ xs) zero v = v ∷ xs
  set (x ∷ xs) (suc i) v = x ∷ set xs i v

  abbrev pub concat : List (List A) → List A
  concat [] = []
  concat (xs ∷ xss) = xs ++ concat xss

  -- Every element satisfies the predicate.
  abbrev pub All {κ} : (A → Type κ) → List A → Type κ
  All P [] = Unit
  All P (x ∷ xs) = P x × All P xs

  pub length-append : (xs ys : List A) → length (xs ++ ys) ≡ length xs + length ys
  length-append [] ys = omega arith
  length-append (x ∷ xs) ys = omega (arith, length-append xs ys)

  pub length-replicate : (n : ℕ) (a : A) → length (replicate n a) ≡ n
  length-replicate zero a = refl
  length-replicate (suc n) a = omega (arith, length-replicate n a)

  pub concat-append : (xss yss : List (List A)) → concat (xss ++ yss) ≡ concat xss ++ concat yss
  concat-append [] yss = refl
  concat-append (xs ∷ xss) yss = simp (concat-append xss yss, append_assoc)

  pub All-append {κ} : (P : A → Type κ) (xs ys : List A) → All P xs → All P ys → All P (xs ++ ys)
  All-append P [] ys hx hy = hy
  All-append P (x ∷ xs) ys hx hy = (hx.0, All-append P xs ys hx.1 hy)

  pub All_mono {κ μ} :
      (P : A → Type κ) (Q : A → Type μ) (xs : List A) → ((x : A) → P x → Q x) → All P xs → All Q xs
  All_mono P Q [] f h = tt
  All_mono P Q (x ∷ xs) f h = (f x h.0, All_mono P Q xs f h.1)

-- `xs` is what remains of `ys` when some elements are left out; order and multiplicity are kept.
pub data Sub {ℓ} {A : Type ℓ} : List A → List A → Type ℓ where
  stop : Sub [] []
  keep : (x : A) {xs ys : List A} → Sub xs ys → Sub (x ∷ xs) (x ∷ ys)
  skip : (y : A) {xs ys : List A} → Sub xs ys → Sub xs (y ∷ ys)

module _ {ℓ} {A : Type ℓ} where
  pub Sub-nil : (ys : List A) → Sub [] ys
  Sub-nil [] = stop
  Sub-nil (y ∷ ys) = skip y (Sub-nil ys)

  pub Sub-refl : (ys : List A) → Sub ys ys
  Sub-refl [] = stop
  Sub-refl (y ∷ ys) = keep y (Sub-refl ys)

  pub Sub-length : {xs ys : List A} → Sub xs ys → length xs ≤ length ys
  Sub-length stop = omega arith
  Sub-length (keep x s) = omega (arith, Sub-length s)
  Sub-length (skip y s) = omega (arith, Sub-length s)

-- `for _, seq := range seqs { if seq == n … }`
abbrev pub contains : List ℕ → ℕ → Bool
contains [] n = false
contains (s ∷ seqs) n = if n == s then true else contains seqs n
