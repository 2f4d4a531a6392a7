-- ===== src/Tendermint/Refresh.antt =====
-- chains/tendermint/prover.go and config.go: when the client of this chain on the counterparty has to be
-- refreshed. `Due` is about the decision.
pub mod Due
use yui_relayer.Base.{
  ℕ, String, Bool, Option, none, some, ltb, ◌==◌, if◌then◌else◌, Error, message, Action, Outcome,
  pure, or_fail, or_crash, ◌>>=◌,
}
use yui_relayer.Ibc.{Functions}
use yui_relayer.Chain.{ProvableChain}
use yui_relayer.Durations.{ℤ, int64, mul64, div64, greater, sub}

pub record Fraction : Type 0 where
  pub numerator : ℕ
  pub denominator : ℕ

pub record ProverConfig : Type 0 where
  pub trusting_period : String
  pub refresh_threshold_rate : Fraction

-- durationMulByFraction
unfoldable pub duration_mul_by_fraction : ℤ → Fraction → Option ℤ
duration_mul_by_fraction d f = div64 (mul64 d (int64 f.numerator)) (int64 f.denominator)

-- `parse_duration` is time.ParseDuration, with `none` for its error.
module _ (parse_duration : String → Option ℤ) where
  abbrev pub validate_rate : Fraction → Option ℤ → Option Error
  validate_rate f none = some (message "config attribute \"trusting_period\" is invalid")
  validate_rate f (some d) =
      if f.denominator == 0
      then some (message "config attribute \"refresh_threshold_rate.denominator\" must not be zero")
      else if f.numerator == 0
      then some (message "config attribute \"refresh_threshold_rate.numerator\" must not be zero")
      else if ltb f.denominator f.numerator
      then some
          (message "config attribute \"refresh_threshold_rate\" must be less than or equal to 1.0")
      else none

  -- ProverConfig.Validate
  unfoldable pub validate_prover : ProverConfig → Option Error
  validate_prover c = validate_rate c.refresh_threshold_rate (parse_duration c.trusting_period)

  module _ {W : Type 0} (ibc : Functions) (config : ProverConfig) (self : ProvableChain W) where
    -- Prover.CheckRefreshRequired
    unfoldable pub check_refresh_required : ProvableChain W → Action W Bool
    check_refresh_required counterparty = do
      cp_query_height ← counterparty.latest_height
      res_cs ← counterparty.query_client_state cp_query_height
      cs ← or_fail (ibc.unpack_client_state res_cs.value) "unpack"
      res_cons ← counterparty.query_client_consensus_state cp_query_height cs.latest_height
      cons ← or_fail (ibc.unpack_consensus_state res_cons.value) "unpack"
      self_query_height ← self.latest_height
      self_timestamp ← self.timestamp self_query_height
      period ← or_crash (parse_duration config.trusting_period)
      threshold ← or_crash (duration_mul_by_fraction period config.refresh_threshold_rate)
      pure (greater (sub self_timestamp (int64 cons.timestamp)) threshold)
