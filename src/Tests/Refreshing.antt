-- ===== src/Tests/Refreshing.antt =====
-- Runs of the refresh check of chains/tendermint, and its theorem at these inputs.
use yui_relayer.Base.{
  ℕ, String, true, [], ◌∷◌, Option, none, some, ok, ◌≡◌, refl, arith, str_eq, if◌then◌else◌,
}
use yui_relayer.Durations.{ℤ, pos, negsuc, int64, bits, mul64, div64, greater, sub}
use yui_relayer.Tendermint.Refresh.{
  ProverConfig, duration_mul_by_fraction, validate_prover, check_refresh_required,
}
use yui_relayer.Tendermint.Refresh.Due.{Answers, check_refresh_required-exact}
use yui_relayer.Scenario.{sample_ibc, src_chain, dst_chain, answer, at_height}

-- Two texts that ParseDuration reads.
abbrev sample_duration : String → Option ℤ
sample_duration text =
    if str_eq text "90ns"
    then some (pos 90)
    else if str_eq text "336h"
    then some (pos 1209600000000000)
    else none

abbrev prover_config : String → ℕ → ℕ → ProverConfig
prover_config period n d = record {
  trusting_period = period;
  refresh_threshold_rate = record { numerator = n; denominator = d };
}

scenario-Answers : Answers sample_ibc src_chain dst_chain 50 112 [] []
scenario-Answers = record {
  w1 = [];
  w2 = [];
  w3 = [];
  w4 = [];
  cp_height = at_height 12;
  res_cs = answer (3 ∷ []);
  cs = record { latest_height = at_height 5 };
  res_cons = answer (4 ∷ []);
  cons = record { timestamp = 50 };
  self_height = at_height 12;
  cp_answered = refl;
  state_answered = refl;
  state_unpacked = refl;
  cons_answered = refl;
  cons_unpacked = refl;
  self_answered = refl;
  time_answered = refl;
  is_last = refl;
}

accepted_config : validate_prover sample_duration (prover_config "90ns" 2 3) ≡ none
unfolding validate_prover
accepted_config = refl

check_refresh_required-exact_example :
    check_refresh_required sample_duration sample_ibc
      (prover_config "90ns" 2 3)
      src_chain
      dst_chain
      []
    ≡ (ok true, [])
check_refresh_required-exact_example =
    check_refresh_required-exact sample_duration sample_ibc (prover_config "90ns" 2 3) src_chain
      dst_chain 90 50 112 [] [] refl accepted_config (omega arith) (omega arith) (omega arith)
      (omega arith) (omega arith) scenario-Answers

-- A rate that Validate accepts, whose product with the trusting period does not fit into an int64: the
-- product is negative, and a refresh is required 62 nanoseconds after the last one.
overflow_run :
    validate_prover sample_duration (prover_config "336h" 10000 10001) ≡ none
    × check_refresh_required sample_duration sample_ibc
        (prover_config "336h" 10000 10001)
        src_chain
        dst_chain
        []
      ≡ (ok true, [])
unfolding validate_prover check_refresh_required duration_mul_by_fraction int64 bits mul64 div64
    greater sub
overflow_run = (refl, refl)

-- A zero denominator is a panic, and a product that rounds goes towards zero.
fraction_runs :
    duration_mul_by_fraction (pos 90) (record { numerator = 3; denominator = 0 }) ≡ none
    × duration_mul_by_fraction (negsuc 9) (record { numerator = 1; denominator = 3 })
      ≡ some (negsuc 2)
unfolding duration_mul_by_fraction int64 bits mul64 div64
fraction_runs = (refl, refl)
