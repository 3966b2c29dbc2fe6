-- ===== src/PolicyCheck.antt =====
-- core/policy.py: the check of an allocation against a policy.
use open_allocator.Base.{
  ℕ, Bool, true, false, not, ◌&&◌, ◌||◌, Option, none, some, String, List, [], ◌∷◌, ◌++◌, map,
  if◌then◌else◌, is_some, filter, str_eq, seq_eq, flat_map,
}
use open_allocator.Base.Int.{ℤ, pos}
use open_allocator.Base.Text.{codes, casefold}
use open_allocator.Base.Decimal.{decimal}
use open_allocator.Base.Sorting.{sort_by}
use open_allocator.Base.Outcome.{Outcome, ok, ◌>>=◌}
use open_allocator.Base.Equality.{contains, string_equality, number_equality}
use open_allocator.Base.Dict.{lookup, insert}
use open_allocator.Policy.{
  Floats, Finding, Vault, Policy, PolicyAllowed, PolicyCaps, PolicyGates, Scalar, text, flag,
  number, single,
}
use open_allocator.Eligibility.{allowlist_findings, quality_findings}
use open_allocator.PolicyCheck.Types.{
  AllocationLeg, Allocation, Json, json_bool, json_text, json_other, PolicyViolation, PolicyResult,
  violation, exceeds, falls_short, violated_if,
}
use open_allocator.PolicyCheck.Weights.{curator_bucket, sector_bucket, weights_of, check_weight_cap}
use open_allocator.PolicyCheck.Leverage.{LeveredError, check_leverage}
use open_allocator.PolicyCheck.Gates.{Diversity, check_gates, check_diversification}
pub mod Types
pub mod Weights
pub mod Leverage
pub mod Gates
pub mod Books
pub mod Exposure
pub mod Findings
pub mod Compliance
pub mod Scopes
pub mod Filters
pub mod Increments
mod Tests

module _ {N : Type 0} where
  unfoldable pub vaults_from : List (Vault N) → List (String × Vault N) → List (String × Vault N)
  vaults_from [] vaults = vaults
  vaults_from (v ∷ vs) vaults = vaults_from vs (insert v.instrument_id v vaults)

  -- `_vault_by_id`
  abbrev pub vault_by_id : List (Vault N) → List (String × Vault N)
  vault_by_id instruments = vaults_from instruments []

  abbrev pub with_known :
      String → Option (Vault N) → List (String × Vault N) → List (String × Vault N)
  with_known id none vaults = vaults
  with_known id (some v) vaults = insert id v vaults

  unfoldable pub allocated_from :
      List (String × Vault N)
      → List (AllocationLeg N)
      → List (String × Vault N)
      → List (String × Vault N)
  allocated_from known [] vaults = vaults
  allocated_from known (leg ∷ legs) vaults =
      allocated_from known legs
        (with_known leg.instrument_id (lookup leg.instrument_id known) vaults)

  -- `allocated_vaults`
  abbrev pub allocated_vaults : List (Vault N) → List (AllocationLeg N) → List (String × Vault N)
  allocated_vaults instruments legs = allocated_from (vault_by_id instruments) legs []

  abbrev pub is_known : List (String × Vault N) → AllocationLeg N → Bool
  is_known known leg = is_some (lookup leg.instrument_id known)

  unfoldable pub missing_instruments :
      List (String × Vault N) → List (AllocationLeg N) → List String
  missing_instruments known legs = sort_by codes (
      map (λ (leg : AllocationLeg N). leg.instrument_id)
        (filter (λ leg. not (is_known known leg)) legs))

  abbrev pub unseen : String → PolicyViolation N
  unseen id =
      violation "new_instrument_needs_approval" (codes id) (single (text "approved instrument"))
        (single (text "unseen instrument"))

  unfoldable pub check_known :
      PolicyGates N → List (String × Vault N) → List (AllocationLeg N) → List (PolicyViolation N)
  unfolding missing_instruments
  check_known gates known legs =
      if gates.new_instrument_needs_approval
      then map unseen (missing_instruments known legs)
      else []

  abbrev pub reported : String → List (Finding N) → List (PolicyViolation N)
  reported id findings =
      map (λ (f : Finding N). violation f.rule (codes id) f.limit f.actual) findings

  abbrev pub allowlist_violations :
      PolicyAllowed → AllocationLeg N → Option (Vault N) → List (PolicyViolation N)
  allowlist_violations allowed leg none = []
  allowlist_violations allowed leg (some v) =
      reported leg.instrument_id (allowlist_findings v allowed)

  -- `_check_allowlists`
  unfoldable pub check_allowlists :
      PolicyAllowed → List (String × Vault N) → List (AllocationLeg N) → List (PolicyViolation N)
  check_allowlists allowed vaults legs =
      flat_map (λ leg. allowlist_violations allowed leg (lookup leg.instrument_id vaults)) legs

  abbrev of_vault {κ} : {K : Type κ} → (Vault N → K) → Option (Vault N) → Option K
  of_vault f none = none
  of_vault f (some v) = some (f v)

  -- The bucket of a leg whose vault is known.
  abbrev pub bucket_by :
      {K : Type 0} → (Vault N → K) → List (String × Vault N) → AllocationLeg N → Option K
  bucket_by f vaults leg = of_vault f (lookup leg.instrument_id vaults)

  abbrev pub by_instrument : AllocationLeg N → Option String
  by_instrument leg = some leg.instrument_id

  abbrev pub by_curator : Vault N → String
  by_curator v = curator_bucket v.instrument_id v.curator

  abbrev pub by_sector : Vault N → String
  by_sector v = sector_bucket v.sector

  abbrev is_empty : List (PolicyViolation N) → Bool
  is_empty [] = true
  is_empty (x ∷ xs) = false

  abbrev pub result_of : List (PolicyViolation N) → PolicyResult N
  result_of violations = record { is_ok = is_empty violations; violations = violations }

module _ {N : Type 0} ⦃F : Floats N⦄ where
  abbrev pub sector_violations :
      Option N → List (String × Vault N) → List (AllocationLeg N) → List (PolicyViolation N)
  sector_violations none vaults legs = []
  sector_violations (some limit) vaults legs =
      check_weight_cap codes "max_weight_per_sector" limit
        (weights_of (bucket_by by_sector vaults) legs [])

  -- `_check_caps`; its one loop over the legs is one for each kind of bucket here.
  unfoldable pub check_caps :
      PolicyCaps N → List (String × Vault N) → List (AllocationLeg N) → List (PolicyViolation N)
  check_caps caps vaults legs =
      check_weight_cap codes "max_weight_per_instrument" caps.max_weight_per_instrument
        (weights_of by_instrument legs [])
      ++ (check_weight_cap codes "max_weight_per_protocol" caps.max_weight_per_protocol
            (weights_of (bucket_by (λ (v : Vault N). v.protocol) vaults) legs [])
          ++ (check_weight_cap codes "max_weight_per_curator" caps.max_weight_per_curator
                (weights_of (bucket_by by_curator vaults) legs [])
              ++ (check_weight_cap decimal "max_weight_per_chain" caps.max_weight_per_chain
                    (weights_of (bucket_by (λ (v : Vault N). v.chain_id) vaults) legs [])
                  ++ sector_violations caps.max_weight_per_sector vaults legs)))

  -- `_check_quality_caps`
  unfoldable pub check_quality_caps :
      PolicyCaps N → List (String × Vault N) → List (PolicyViolation N)
  check_quality_caps caps vaults =
      flat_map (λ (x : String × Vault N). reported x.0 (quality_findings x.1 caps))
        (sort_by (λ (x : String × Vault N). codes x.0) vaults)

  unfoldable pub check :
      Diversity N → Allocation N → Policy N → List (Vault N) → Outcome LeveredError (PolicyResult N)
  unfolding check_known check_allowlists check_caps check_diversification check_quality_caps
      check_gates
  check measure allocation policy instruments =
      let known = vault_by_id instruments in
      let legs = allocation.legs in
      let vaults = allocated_vaults instruments legs in
      do
        leverage ← check_leverage policy.caps vaults legs
        ok (
            result_of (
              check_known policy.gates known legs
              ++ (check_allowlists policy.allowed vaults legs
                  ++ (check_caps policy.caps vaults legs
                      ++ (leverage
                          ++ (check_diversification measure policy.caps.min_effective_positions
                                vaults legs
                              ++ (check_quality_caps policy.caps vaults
                                  ++ check_gates policy.gates allocation)))))))
