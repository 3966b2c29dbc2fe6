-- ===== src/Eligibility/Tests.antt =====
-- The findings of a stablecoin vault under a policy.
use open_allocator.Base.{◌≡◌, ◌↔◌, refl, none, some}
use open_allocator.Base.Equality.{contains, string_equality, number_equality}
use open_allocator.Policy.Samples.{vault, derived, hundredths}
use open_allocator.Eligibility.{candidate_exclusion, allowlist}
use open_allocator.Eligibility.Admission.{IsAllowed, IsSound, candidate_exclusion_iff}

thin : candidate_exclusion (record vault { tvl_usd = 700 }) derived ≡ some "min_instrument_tvl_usd"
unfolding candidate_exclusion allowlist contains
thin = refl

candidate_exclusion_iff_example :
    (candidate_exclusion vault derived ≡ none)
    ↔ (IsAllowed vault derived.allowed × IsSound vault derived.caps)
candidate_exclusion_iff_example = candidate_exclusion_iff vault derived
