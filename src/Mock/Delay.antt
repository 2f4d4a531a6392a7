-- ===== src/Mock/Delay.antt =====
-- The finalized height and the bytes of a proof of the mock prover (provers/mock/prover.go).
use yui_relayer.Base.{
  ℕ, zero, suc, ◌+◌, ◌-◌, ◌*◌, ◌^◌, ◌<◌, [], ◌∷◌, Option, none, some, ◌==◌, ◌≡◌, refl, ◌∙◌, ap,
  if◌then◌else◌, Bool-cases, inl, inr, All, ok, arith,
}
use yui_relayer.Ibc.{Bytes, Height}
use yui_relayer.Chain.{ProvableChain}
use yui_relayer.Mock.{MockProver, delayed, put_uint64, get_delayed_latest_finalized_height}

abbrev pub at : Height → ℕ → Height
at h n = record h { revision_height = n }

-- Height.Decrement as ibc-go documents it: one block down, and nothing below zero.
abbrev pub Decrements : (Height → Option Height) → Type 0
Decrements decrement =
    (h : Height)
    → decrement h ≡ (if h.revision_height == 0 then none else some (at h (h.revision_height - 1)))

delayed-minus :
    (decrement : Height → Option Height) (n : ℕ) (h : Height)
    → Decrements decrement
    → delayed decrement n h ≡ at h (h.revision_height - n)
unfolding delayed
delayed-minus decrement zero h d = ap (at h) (omega arith)
delayed-minus decrement (suc n) h d = elim (Bool-cases (h.revision_height == 0)) [
  | inl yes' ↦
      let e : decrement h ≡ none = d h ∙ rw yes' refl in
      let z : h.revision_height - suc n ≡ h.revision_height = ground arith in rw (e, z) refl
  | inr no' ↦
      let e : decrement h ≡ some (at h (h.revision_height - 1)) = d h ∙ rw no' refl in
      rw e (delayed-minus decrement n (at h (h.revision_height - 1)) d ∙ ap (at h) (omega arith))
]

-- The bytes of a number are bytes.
put_uint64-bytes : (n : ℕ) → All (λ b. b < 256) (put_uint64 n)
unfolding put_uint64
put_uint64-bytes n = (
  omega arith,
  (
    omega arith,
    (omega arith, (omega arith, (omega arith, (omega arith, (omega arith, (omega arith, tt)))))),
  ),
)

-- The number that bytes are in big endian.
abbrev pub big_endian : Bytes → ℕ → ℕ
big_endian [] n = n
big_endian (b ∷ bz) n = big_endian bz (n * 256 + b)

put_uint64-big_endian : (n : ℕ) → n < 2 ^ 64 → big_endian (put_uint64 n) 0 ≡ n
unfolding put_uint64
put_uint64-big_endian n h = omega arith

module _ {W : Type 0} (pr : MockProver) (chain : ProvableChain W) where
  -- With a Height.Decrement that goes one block down and not below zero: the latest finalized height of
  -- the mock prover lies the finality delay below the chain's latest height, on the same revision, or is
  -- zero where the chain is not that high; and the 8 bytes that a proof has for a height of 64 bits are
  -- bytes that read back as the height.
  pub get_delayed-minus :
      (h : Height) (w w1 : W)
      → Decrements pr.decrement
      → chain.latest_height w ≡ (ok h, w1)
      → h.revision_height < 2 ^ 64
      → let n = h.revision_height - pr.finality_delay in
        get_delayed_latest_finalized_height pr chain w ≡ (ok (at h n), w1)
        × big_endian (put_uint64 n) 0 ≡ n
        × All (λ b. b < 256) (put_uint64 n)
  unfolding get_delayed_latest_finalized_height
  get_delayed-minus h w w1 d e fits =
      let n = h.revision_height - pr.finality_delay in
      (
        rw (e, delayed-minus pr.decrement pr.finality_delay h d) refl,
        put_uint64-big_endian n (omega arith),
        put_uint64-bytes n,
      )
