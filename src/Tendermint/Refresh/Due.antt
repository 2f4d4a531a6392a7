-- ===== src/Tendermint/Refresh/Due.antt =====
-- The decision of CheckRefreshRequired (chains/tendermint/prover.go), in exact arithmetic.
use Prim.Native.Nat.{◌/◌}
use native.Mathlib.Nat.{div-lt_iff_lt-mul, add-mul, mul-le-mul_left, mul_comm}
use yui_relayer.Base.{
  ℕ, zero, suc, ◌+◌, ◌-◌, ◌*◌, ◌%◌, ◌^◌, ◌<◌, ◌≤◌, String, true, false, Option, none, some, ltb,
  leb, ◌≡◌, refl, ◌∙◌, ap, subst, inl, inr, Bool-cases, ok, arith,
}
use yui_relayer.Ibc.{Bytes, Height, ClientState, ConsensusState, Response, Functions}
use yui_relayer.Chain.{ProvableChain}
use yui_relayer.Durations.{ℤ, pos, int64, bits, mul64, div64, greater, sub}
use yui_relayer.Tendermint.Refresh.{
  Fraction, ProverConfig, duration_mul_by_fraction, validate_rate, validate_prover,
  check_refresh_required,
}

int64-fits : (n : ℕ) → n < 2 ^ 63 → int64 n ≡ pos n
unfolding int64
int64-fits n h =
    let e : n % 2 ^ 64 ≡ n = omega arith in
    let l : ltb n (2 ^ 63) ≡ true = ground arith in rw (e, l) refl

mul64-fits :
    (a b : ℕ) → a < 2 ^ 63 → b < 2 ^ 63 → a * b < 2 ^ 63 → mul64 (pos a) (pos b) ≡ pos (a * b)
unfolding mul64 bits
mul64-fits a b ha hb h =
    let ea : a % 2 ^ 64 ≡ a = omega arith in
    let eb : b % 2 ^ 64 ≡ b = omega arith in rw (ea, eb) (int64-fits (a * b) h)

div64-pos : (a b : ℕ) → 0 < b → div64 (pos a) (pos b) ≡ some (pos (a / b))
unfolding div64
div64-pos a zero h = absurd (omega arith)
div64-pos a (suc b) h = refl

quotient-fits :
    (p n d : ℕ)
    → p < 2 ^ 63
    → n < 2 ^ 63
    → d < 2 ^ 63
    → 0 < d
    → p * n < 2 ^ 63
    → div64 (mul64 (pos p) (int64 n)) (int64 d) ≡ some (pos (p * n / d))
quotient-fits p n d hp hn hd h fits =
    rw (int64-fits n hn, int64-fits d hd, mul64-fits p n hp hn fits) (div64-pos (p * n) d h)

threshold-fits :
    (p : ℕ) (f : Fraction)
    → p < 2 ^ 63
    → f.numerator < 2 ^ 63
    → f.denominator < 2 ^ 63
    → 0 < f.denominator
    → p * f.numerator < 2 ^ 63
    → duration_mul_by_fraction (pos p) f ≡ some (pos (p * f.numerator / f.denominator))
unfolding duration_mul_by_fraction
threshold-fits p f hp hn hd h fits = quotient-fits p f.numerator f.denominator hp hn hd h fits

ltb_iff : (a b c d : ℕ) → (a < b → c < d) → (c < d → a < b) → ltb a b ≡ ltb c d
ltb_iff a b c d f g = elim (Bool-cases (ltb a b)) [
  | inl x ↦
      let h : c < d = f (ground arith) in let y : ltb c d ≡ true = ground arith in rw (x, y) refl
  | inr x ↦ elim (Bool-cases (ltb c d)) [
    | inl y ↦ let h : a < b = g (ground arith) in absurd (ground arith)
    | inr y ↦ rw (x, y) refl
  ]
]

elapsed_exact :
    (x last now den : ℕ)
    → 0 < den
    → last ≤ now
    → ltb (x / den) (now - last) ≡ ltb (x + last * den) (now * den)
elapsed_exact x last now den h l =
    let e : now * den ≡ (now - last) * den + last * den =
      ap (λ n. n * den) (omega arith) ∙ add-mul (now - last) last den in
    ltb_iff (x / den) (now - last) (x + last * den) (now * den)
      (λ y. let z : x < (now - last) * den = (div-lt_iff_lt-mul h).0 y in omega arith)
      (λ y. (div-lt_iff_lt-mul h).1 (omega arith))

sub-later :
    (x last now den : ℕ)
    → 0 < den
    → now < 2 ^ 63
    → last ≤ now
    → greater (sub now (pos last)) (pos (x / den)) ≡ ltb (x + last * den) (now * den)
unfolding greater sub
sub-later x last now den h fits l =
    let e : leb last now ≡ true = ground arith in
    let t : ltb (now - last) (2 ^ 63) ≡ true = ground arith in
    rw (e, t) (elapsed_exact x last now den h l)

sub-earlier :
    (x last now den : ℕ)
    → now < last
    → greater (sub now (pos last)) (pos (x / den)) ≡ ltb (x + last * den) (now * den)
unfolding greater sub
sub-earlier x last now den l =
    let e : leb last now ≡ false = ground arith in
    let m : now * den ≤ last * den =
      rw (mul_comm now den, mul_comm last den) (mul-le-mul_left den (omega arith)) in
    let f : ltb (x + last * den) (now * den) ≡ false = ground arith in rw (e, f) refl

sub-exact :
    (x last now den : ℕ)
    → 0 < den
    → now < 2 ^ 63
    → greater (sub now (pos last)) (pos (x / den)) ≡ ltb (x + last * den) (now * den)
sub-exact x last now den h fits = elim (Bool-cases (leb last now)) [
  | inl y ↦ sub-later x last now den h fits (ground arith)
  | inr y ↦ sub-earlier x last now den (ground arith)
]

-- The answers to the calls of CheckRefreshRequired, one after the other: `last` is the time of the
-- consensus state that the counterparty's client has last, and `now` the time of the own latest block.
pub record Answers {W : Type 0} (ibc : Functions) (self counterparty : ProvableChain W)
    (last now : ℕ) (w w' : W) : Type 0 where
  pub w1 : W
  pub w2 : W
  pub w3 : W
  pub w4 : W
  pub cp_height : Height
  pub res_cs : Response Bytes
  pub cs : ClientState
  pub res_cons : Response Bytes
  pub cons : ConsensusState
  pub self_height : Height
  pub cp_answered : counterparty.latest_height w ≡ (ok cp_height, w1)
  pub state_answered : counterparty.query_client_state cp_height w1 ≡ (ok res_cs, w2)
  pub state_unpacked : ibc.unpack_client_state res_cs.value ≡ some cs
  pub cons_answered :
      counterparty.query_client_consensus_state cp_height cs.latest_height w2 ≡ (ok res_cons, w3)
  pub cons_unpacked : ibc.unpack_consensus_state res_cons.value ≡ some cons
  pub self_answered : self.latest_height w3 ≡ (ok self_height, w4)
  pub time_answered : self.timestamp self_height w4 ≡ (ok now, w')
  pub is_last : cons.timestamp ≡ last

rate-valid :
    (parse_duration : String → Option ℤ) (c : ProverConfig) (p : ℤ)
    → parse_duration c.trusting_period ≡ some p
    → validate_prover parse_duration c ≡ none
    → 0 < c.refresh_threshold_rate.denominator
      × c.refresh_threshold_rate.numerator ≤ c.refresh_threshold_rate.denominator
unfolding validate_prover
rate-valid parse_duration c p e v = judged v'
  where
    d : ℕ
    d = c.refresh_threshold_rate.denominator

    n : ℕ
    n = c.refresh_threshold_rate.numerator

    v' : validate_rate parse_duration c.refresh_threshold_rate (some p) ≡ none
    v' = subst (λ o. validate_rate parse_duration c.refresh_threshold_rate o ≡ none) e v

    judged : validate_rate parse_duration c.refresh_threshold_rate (some p) ≡ none → 0 < d × n ≤ d
    judged h = ground arith

module _ {W : Type 0} (parse_duration : String → Option ℤ) (ibc : Functions) (config : ProverConfig)
    (self counterparty : ProvableChain W) where
  -- For every configuration that Validate accepts, whose trusting period is p nanoseconds, and where p,
  -- the denominator and p times the numerator of the threshold rate are below 2^63: when the calls
  -- answer with times below 2^63, CheckRefreshRequired returns, and with true exactly if the time since
  -- the client's last consensus state is more than that fraction of the trusting period, without
  -- rounding; it returns false if that time lies in the future.
  pub check_refresh_required-exact :
      (p last now : ℕ) (w w' : W)
      → parse_duration config.trusting_period ≡ some (pos p)
      → validate_prover parse_duration config ≡ none
      → p < 2 ^ 63
      → config.refresh_threshold_rate.denominator < 2 ^ 63
      → p * config.refresh_threshold_rate.numerator < 2 ^ 63
      → last < 2 ^ 63
      → now < 2 ^ 63
      → Answers ibc self counterparty last now w w'
      → check_refresh_required parse_duration ibc config self counterparty w ≡ (
        ok (
            ltb
              (p * config.refresh_threshold_rate.numerator
                + last * config.refresh_threshold_rate.denominator)
              (now * config.refresh_threshold_rate.denominator)),
        w',
      )
  unfolding check_refresh_required
  check_refresh_required-exact p last now w w' e v hp hd fits hl hn a =
      let (positive, below) = rate-valid parse_duration config (pos p) e v in
      let f = config.refresh_threshold_rate in
      let t : duration_mul_by_fraction (pos p) f ≡ some (pos (p * f.numerator / f.denominator)) =
        threshold-fits p f hp (omega arith) hd positive fits in
      rw
        (
          a.cp_answered,
          a.state_answered,
          a.state_unpacked,
          a.cons_answered,
          a.cons_unpacked,
          a.self_answered,
          a.time_answered,
          e,
          t,
          a.is_last,
          int64-fits last hl,
        )
        (ap (λ b. (ok b, w')) (sub-exact (p * f.numerator) last now f.denominator positive hn))
