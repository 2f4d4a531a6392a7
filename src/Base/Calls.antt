-- ===== src/Base/Calls.antt =====
-- Go's ways to end a call: a result, a returned error, or a panic; and calls that act on a world.
use Prim.Native.String.{String}
use mathlib.Core.Option.{Option, none, some}
use mathlib.Core.Path.{◌≡◌, refl, subst}

-- The texts that `fmt.Errorf("…: %w", err)` puts around an error are left out.
pub data Error : Type 0 where
  -- `errors.New` and `fmt.Errorf` with no cause
  message : String → Error
  -- an error that code outside the model returns
  external : String → Error

pub data Outcome (A : Type 0) : Type 0 where
  ok : A → Outcome A
  err : Error → Outcome A
  panic : Outcome A

-- A call reads and changes the world `W`: the chains, the clock, the logs.
abbrev pub Action : Type 0 → Type 0 → Type 0
Action W A = W → Outcome A × W

-- What runs after a call, by how the call ended.
abbrev pub next : {W A B : Type 0} → (A → Action W B) → Outcome A × W → Outcome B × W
next f (ok a, w) = f a w
next f (err e, w) = (err e, w)
next f (panic, w) = (panic, w)

infixl 5 ◌>>=◌ ◌>>◌
abbrev pub ◌>>=◌ : {W A B : Type 0} → Action W A → (A → Action W B) → Action W B
◌>>=◌ m f w = next f (m w)

abbrev pub ◌>>◌ : {W A B : Type 0} → Action W A → Action W B → Action W B
m >> k = m >>= λ _. k

abbrev pub pure : {W A : Type 0} → A → Action W A
pure a w = (ok a, w)

abbrev pub fail : {W A : Type 0} → Error → Action W A
fail e w = (err e, w)

abbrev pub crash : {W A : Type 0} → Action W A
crash w = (panic, w)

-- A library call that fails with `none`.
abbrev pub or_fail : {W A : Type 0} → Option A → String → Action W A
or_fail none text w = (err (external text), w)
or_fail (some a) text w = (ok a, w)

-- A nil pointer or an index out of range.
abbrev pub or_crash : {W A : Type 0} → Option A → Action W A
or_crash none w = (panic, w)
or_crash (some a) w = (ok a, w)

-- A call whose error the caller turns into a panic.
abbrev pub or_panic : {W A : Type 0} → Outcome A × W → Outcome A × W
or_panic (ok a, w) = (ok a, w)
or_panic (err e, w) = (panic, w)
or_panic (panic, w) = (panic, w)

abbrev pub must : {W A : Type 0} → Action W A → Action W A
must m w = or_panic (m w)

-- A step that does not touch the world.
abbrev pub lift : {W A : Type 0} → Outcome A → Action W A
lift r w = (r, w)

-- A call on the world, where the caller keeps a state of its own beside it.
abbrev pub with_state : {W S A : Type 0} → S → Outcome A × W → Outcome A × (W × S)
with_state s (r, w) = (r, (w, s))

abbrev pub beside : {W S A : Type 0} → Action W A → Action (W × S) A
beside m (w, s) = with_state s (m w)

-- `errgroup`: both goroutines run to their end, here the first before the second; the group
-- returns an error of one that failed, here the first's before the second's.
abbrev pub both_ended : {W A B : Type 0} → Outcome A → Outcome B × W → Outcome (A × B) × W
both_ended (ok a) (ok b, w) = (ok (a, b), w)
both_ended (ok a) (err e, w) = (err e, w)
both_ended (ok a) (panic, w) = (panic, w)
both_ended (err e) (ok b, w) = (err e, w)
both_ended (err e) (err e', w) = (err e, w)
both_ended (err e) (panic, w) = (panic, w)
both_ended panic (r, w) = (panic, w)

abbrev pub both : {W A B : Type 0} → Action W A → Action W B → Action W (A × B)
both m k w = let (a, w') = m w in both_ended a (k w')

-- What holds of the value of a call that returns one.
abbrev pub Returns : {W A : Type 0} → (A → Type 0) → Outcome A × W → Type 0
Returns P (ok a, w) = P a
Returns P (err e, w) = Unit
Returns P (panic, w) = Unit

module _ {W A B : Type 0} (Q : B → Type 0) where
  pub Returns-next :
      (f : A → Action W B) (x : Outcome A × W)
      → ((a : A) (w : W) → Returns Q (f a w))
      → Returns Q (next f x)
  Returns-next f (ok a, w) h = h a w
  Returns-next f (err e, w) h = tt
  Returns-next f (panic, w) h = tt

  pub Returns-then :
      (P : A → Type 0) (f : A → Action W B) (x : Outcome A × W)
      → Returns P x
      → ((a : A) (w : W) → P a → Returns Q (f a w))
      → Returns Q (next f x)
  Returns-then P f (ok a, w) p h = h a w p
  Returns-then P f (err e, w) p h = tt
  Returns-then P f (panic, w) p h = tt

  pub Returns-asked :
      (f : A → Action W B) (x : Outcome A × W)
      → ((a : A) (w : W) → x ≡ (ok a, w) → Returns Q (f a w))
      → Returns Q (next f x)
  Returns-asked f (ok a, w) h = h a w refl
  Returns-asked f (err e, w) h = tt
  Returns-asked f (panic, w) h = tt

module _ {W A : Type 0} where
  pub Returns-always : (P : A → Type 0) (x : Outcome A × W) → ((a : A) → P a) → Returns P x
  Returns-always P (ok a, w) h = h a
  Returns-always P (err e, w) h = tt
  Returns-always P (panic, w) h = tt

  pub Returns-mono :
      (P Q : A → Type 0) (x : Outcome A × W) → ((a : A) → P a → Q a) → Returns P x → Returns Q x
  Returns-mono P Q (ok a, w) f h = f a h
  Returns-mono P Q (err e, w) f h = tt
  Returns-mono P Q (panic, w) f h = tt

-- A call has answered with the value in some state.
abbrev pub Answered : {W A : Type 0} → Action W A → A → Type 0
Answered {W = W} m a = (w : W) × (w' : W) × m w ≡ (ok a, w')

module _ {W A : Type 0} where
  -- What is known of a call that has answered.
  pub Returns-known :
      (P : A → Type 0) (x : Outcome A × W) (a : A) (w : W) → Returns P x → x ≡ (ok a, w) → P a
  Returns-known P x a w h e = subst (Returns P) e h

module _ {W A B : Type 0} where
  -- Both values of a pair have been answered.
  pub Returns-both :
      (m : Action W A) (k : Action W B) (w : W)
      → Returns (λ q. Answered m (q.0) × Answered k (q.1)) (both m k w)
  Returns-both m k w = first (m w) refl
    where
      P : A × B → Type 0
      P q = Answered m (q.0) × Answered k (q.1)

      second :
          (x : Outcome A) (w1 : W)
          → m w ≡ (x, w1)
          → (y : Outcome B × W) → k w1 ≡ y
          → Returns P (both_ended x y)
      second (ok a) w1 e (ok b, w2) f = ((w, w1, e), (w1, w2, f))
      second (ok a) w1 e (err e', w2) f = tt
      second (ok a) w1 e (panic, w2) f = tt
      second (err e') w1 e (ok b, w2) f = tt
      second (err e') w1 e (err e'', w2) f = tt
      second (err e') w1 e (panic, w2) f = tt
      second panic w1 e y f = tt

      first : (x : Outcome A × W) → m w ≡ x → Returns P (both_ended (x.0) (k (x.1)))
      first (x, w1) e = second x w1 e (k w1) refl

module _ {W A : Type 0} where
  -- The value that a call returns is one that it has answered.
  pub Returns-Answered : (m : Action W A) (w : W) → Returns (Answered m) (m w)
  Returns-Answered m w = ended (m w) refl
    where
      ended : (x : Outcome A × W) → m w ≡ x → Returns (Answered m) x
      ended (ok a, w1) e = (w, w1, e)
      ended (err e', w1) e = tt
      ended (panic, w1) e = tt
