-- ===== src/PolicyCheck/Tests.antt =====
-- Checks of two legs, of one with too much weight, and of a buy on top of a book, with weights in
-- hundredths.
use open_allocator.Base.{
  ℕ, ◌≡◌, ◌↔◌, refl, true, none, some, String, List, [], ◌∷◌, ◌+◌, ◌/◌, ◌*◌, map, ltb,
}
use open_allocator.Base.Outcome.{Outcome, ok}
use open_allocator.Base.Equality.{string_equality, number_equality, contains}
use open_allocator.Base.Dict.{lookup, insert}
use open_allocator.Policy.{Vault}
use open_allocator.Policy.Samples.{vault, baseline, hundredths}
use open_allocator.PolicyCheck.Types.{AllocationLeg, Allocation, PolicyViolation, PolicyResult}
use open_allocator.PolicyCheck.Leverage.{LeveredError, check_leverage}
use open_allocator.PolicyCheck.Gates.{Diversity}
use open_allocator.PolicyCheck.Books.{Decimals, resulting_book, check_incremental}
use open_allocator.PolicyCheck.Compliance.{Complies, IsWithinCycle, passed, check-Complies}
use open_allocator.PolicyCheck.Increments.{check_incremental_iff}
use open_allocator.PolicyCheck.{vault_by_id, vaults_from, allocated_from, allocated_vaults, check}
use open_allocator.Base.Sorting.{sort_by}
use open_allocator.Base.Decimal.{decimal}
use open_allocator.Base.{filter}
use open_allocator.Eligibility.{allowlist, allowlist_findings, quality_findings}
use open_allocator.PolicyCheck.Weights.{check_weight_cap, weights_of, curator_bucket}

abbrev instruments : List (Vault ℕ)
instruments =
    vault
    ∷ record vault { instrument_id = "morpho:10:usdc"; protocol = "morpho"; chain_id = 10 }
    ∷ record vault { instrument_id = "aave:8453:usdc"; chain_id = 8453 }
    ∷ record vault {
      instrument_id = "morpho:10:loop";
      protocol = "morpho";
      chain_id = 10;
      is_levered = true;
      max_leverage = some 500;
    }
    ∷ []

abbrev leg : String → ℕ → AllocationLeg ℕ
leg id weight = record { instrument_id = id; weight = weight; usd = weight * 10; leverage = none }

abbrev balanced : Allocation ℕ
balanced = record {
  legs = leg "aave:1:usdc" 40 ∷ leg "morpho:10:usdc" 35 ∷ [];
  total_usd = 750;
  metadata = [];
}

abbrev lopsided : Allocation ℕ
lopsided = record balanced { legs = leg "aave:1:usdc" 70 ∷ [] }

-- Leverage of five, which the row declares, is above the policy's three.
abbrev levered : Allocation ℕ
levered = record balanced { legs = leg "morpho:10:loop" 10 ∷ [] }

abbrev count : Diversity ℕ
count = record { effective_positions = λ weights series. 200 }

abbrev cents : Decimals ℕ ℕ
cents = record {
  of_float = λ x. x;
  to_float = λ x. x;
  add = ◌+◌;
  div = λ a b. a * 100 / b;
  is_positive = λ x. ltb 0 x;
  nil = 0;
}

abbrev rules : Outcome LeveredError (PolicyResult ℕ) → List String
rules (ok r) = map (λ (v : PolicyViolation ℕ). v.rule) r.violations
rules _ = []

balanced_passes : check count balanced baseline instruments ≡ ok passed
unfolding check check_leverage lookup allocated_from vaults_from insert sort_by filter
    allowlist_findings allowlist contains check_weight_cap weights_of curator_bucket decimal
    quality_findings
balanced_passes = refl

lopsided_fails :
    rules (check count lopsided baseline instruments)
    ≡ "max_weight_per_instrument" ∷ "max_weight_per_protocol" ∷ "max_weight_per_curator" ∷ []
unfolding check check_leverage lookup allocated_from vaults_from insert sort_by filter
    allowlist_findings allowlist contains check_weight_cap weights_of curator_bucket decimal
    quality_findings
lopsided_fails = refl

levered_fails :
    rules (check count levered baseline instruments)
    ≡ "max_gross_leverage" ∷ "min_health_factor" ∷ []
unfolding check check_leverage lookup allocated_from vaults_from insert sort_by filter
    allowlist_findings allowlist contains check_weight_cap weights_of curator_bucket decimal
    quality_findings
levered_fails = refl

abbrev bought : Allocation ℕ
bought = record lopsided {
  legs = record (leg "aave:1:usdc" 100) { usd = 300 } ∷ [];
  total_usd = 300;
}

abbrev held : List (String × ℕ)
held = ("morpho:10:usdc", 400) ∷ ("aave:8453:usdc", 300) ∷ []

-- Alone, the buy is all of one instrument; with the book it is less than a third.
top_up : check_incremental cents count bought baseline instruments held ≡ ok passed
unfolding check check_leverage lookup allocated_from vaults_from insert sort_by filter
    allowlist_findings allowlist contains check_weight_cap weights_of curator_bucket decimal
    quality_findings check_incremental resulting_book
top_up = refl

check-Complies_example : (check count balanced baseline instruments ≡ ok passed) ↔ (
    Complies count balanced baseline
      (vault_by_id instruments)
      (allocated_vaults instruments balanced.legs)
    × IsWithinCycle balanced baseline)
check-Complies_example = check-Complies count balanced baseline instruments

check_incremental_iff_example :
    (check_incremental cents count bought baseline instruments held ≡ ok passed) ↔ (
      Complies count
        (resulting_book cents bought held)
        baseline
        (vault_by_id instruments)
        (allocated_vaults instruments (resulting_book cents bought held).legs)
      × (IsWithinCycle bought baseline
          × ((xs : List (PolicyViolation ℕ)) × (check_leverage baseline.caps
                  (allocated_vaults instruments bought.legs)
                  bought.legs
                ≡ ok xs))))
check_incremental_iff_example = check_incremental_iff cents count bought baseline instruments held
