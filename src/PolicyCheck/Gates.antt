-- ===== src/PolicyCheck/Gates.antt =====
-- core/policy.py: `_check_gates`, and `_check_diversification` over the measure of
-- core/diversify.py, which is `Diversity`.
use open_allocator.Base.{
  ℕ, Bool, true, false, ◌&&◌, ◌||◌, Option, none, some, String, List, [], ◌∷◌, ◌++◌, map,
  if◌then◌else◌, is_some, filter, seq_eq,
}
use open_allocator.Base.Int.{ℤ, pos}
use open_allocator.Base.Text.{codes, casefold}
use open_allocator.Base.Equality.{string_equality, number_equality}
use open_allocator.Base.Dict.{lookup, insert}
use open_allocator.Policy.{Floats, Vault, PolicyGates, Scalar, text, flag, number, single}
use open_allocator.PolicyCheck.Types.{
  AllocationLeg, Allocation, Json, json_bool, json_text, PolicyViolation, violation, exceeds,
  falls_short, violated_if,
}

-- `diversify.effective_positions` with `co_movement_matrix`, of weights in basis points and of
-- the histories by day
pub record Diversity (N : Type 0) : Type 0 where
  pub effective_positions : List (String × ℤ) → List (String × List (ℕ × N)) → N

-- `_autonomous_mode`
abbrev is_set : Option Json → Bool
is_set (some (json_bool b)) = b
is_set _ = false

abbrev is_unattended : String → Bool
is_unattended mode =
    seq_eq (casefold (codes mode)) (codes "autonomous")
    || seq_eq (casefold (codes mode)) (codes "unattended")

module _ {N : Type 0} where
  abbrev mode_of : Option Json → Option (Scalar N)
  mode_of (some (json_text mode)) = if is_unattended mode then some (text mode) else none
  mode_of _ = none

  abbrev or_mode : Option (Scalar N) → Option (Scalar N) → Option (Scalar N)
  or_mode none other = other
  or_mode (some mode) other = some mode

  unfoldable pub autonomous_mode : List (String × Json) → Option (Scalar N)
  autonomous_mode metadata =
      if is_set (lookup "autonomous" metadata) || is_set (lookup "unattended" metadata)
      then some (flag true)
      else or_mode (mode_of (lookup "execution_mode" metadata)) (mode_of (lookup "mode" metadata))

  abbrev pub mode_violations : Bool → Option (Scalar N) → List (PolicyViolation N)
  mode_violations allowed none = []
  mode_violations allowed (some mode) =
      if allowed
      then []
      else violation "autonomous_rebalance" (codes "allocation") (single (flag allowed))
          (single mode)
        ∷ []

module _ {N : Type 0} ⦃F : Floats N⦄ where
  -- `_check_gates`
  unfoldable pub check_gates : PolicyGates N → Allocation N → List (PolicyViolation N)
  unfolding autonomous_mode
  check_gates gates allocation =
      violated_if (exceeds (some gates.max_deploy_per_cycle_usd) allocation.total_usd)
        "max_deploy_per_cycle_usd" (codes "allocation") (some gates.max_deploy_per_cycle_usd)
        (single (number allocation.total_usd))
      ++ mode_violations gates.autonomous_rebalance (autonomous_mode allocation.metadata)

  -- `weights_bps`
  unfoldable pub weights_bps_from : List (AllocationLeg N) → List (String × ℤ) → List (String × ℤ)
  weights_bps_from [] weights = weights
  weights_bps_from (leg ∷ legs) weights = weights_bps_from legs (
      if F.lt F.nil leg.weight
      then insert leg.instrument_id (F.round_whole (F.mul leg.weight (F.of_int (pos 10000))))
          weights
      else weights)

  abbrev dict_from : List (ℕ × N) → List (ℕ × N) → List (ℕ × N)
  dict_from [] d = d
  dict_from ((day, apy) ∷ xs) d = dict_from xs (insert day apy d)

  -- `series_by_id`
  abbrev has_history : List (String × ℤ) → String × Vault N → Bool
  has_history weights (id, v) = is_some (lookup id weights) && has_days v.apy_daily
    where
      has_days : List (ℕ × N) → Bool
      has_days [] = false
      has_days (x ∷ xs) = true

  abbrev pub series_of : List (String × ℤ) → List (String × Vault N) → List (String × List (ℕ × N))
  series_of weights vaults =
      map (λ (x : String × Vault N). (x.0, dict_from x.1.apy_daily []))
        (filter (has_history weights) vaults)

  abbrev pub measured_violations :
      Diversity N → N → List (String × ℤ) → List (String × List (ℕ × N)) → List (PolicyViolation N)
  measured_violations measure floor [] series = []
  measured_violations measure floor (w ∷ ws) [] =
      violation "min_effective_positions:unmeasurable" (codes "allocation") (single (number floor))
        (single (text "no instrument carries dated history"))
      ∷ []
  measured_violations measure floor (w ∷ ws) (s ∷ ss) =
      let actual = measure.effective_positions (w ∷ ws) (s ∷ ss) in
      violated_if (falls_short (some floor) actual) "min_effective_positions" (codes "allocation")
        (some floor) (single (number actual))

  -- `_check_diversification`
  unfoldable pub check_diversification :
      Diversity N
      → Option N
      → List (String × Vault N)
      → List (AllocationLeg N)
      → List (PolicyViolation N)
  unfolding weights_bps_from
  check_diversification measure none vaults legs = []
  check_diversification measure (some floor) vaults legs =
      measured_violations measure floor (weights_bps_from legs [])
        (series_of (weights_bps_from legs []) vaults)
