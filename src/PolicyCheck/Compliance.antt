-- ===== src/PolicyCheck/Compliance.antt =====
-- core/policy.py: what a passed check of an allocation means, alone and on top of a book.
use open_allocator.Base.{
  ◌≡◌, ◌↔◌, refl, String, true, false, none, some, List, [], ◌∷◌, All, ◌∙◌, ap,
}
use open_allocator.Base.Alls.{append-nil_iff}
use open_allocator.Base.Outcome.{Outcome, ok, >>=-iff, ok-injective}
use open_allocator.Base.Equality.{string_equality}
use open_allocator.Base.Dict.{lookup}
use open_allocator.Policy.{Floats, Vault, Policy}
use open_allocator.Eligibility.Admission.{IsSound}
use open_allocator.PolicyCheck.Types.{
  AllocationLeg, Allocation, PolicyViolation, PolicyResult, exceeds,
}
use open_allocator.PolicyCheck.Leverage.{
  LeveredError, levered_weight, gross_exposure, check_leverage,
}
use open_allocator.PolicyCheck.Gates.{Diversity, autonomous_mode, weights_bps_from, series_of}
use open_allocator.PolicyCheck.Exposure.{IsLegWell, check_leverage_iff}
use open_allocator.PolicyCheck.Findings.{
  IsLegAllowed, IsWithinCaps, IsDiversified, check_known_iff, check_allowlists_iff,
  check_quality_caps_iff, allocated_from-IsDistinct, check_caps_iff, check_diversification_iff,
  check_gates_iff,
}
use open_allocator.PolicyCheck.{vault_by_id, allocated_vaults, is_known, check, result_of}

module _ {N : Type 0} ⦃F : Floats N⦄ where
  -- What a policy asks of a book of instruments that are known.
  pub record Complies (measure : Diversity N) (book : Allocation N) (policy : Policy N)
      (known vaults : List (String × Vault N)) : Type 0 where
    pub approved :
        policy.gates.new_instrument_needs_approval ≡ true
        → All (λ leg. is_known known leg ≡ true) book.legs
    pub allowed :
        All
          (λ (leg : AllocationLeg N). IsLegAllowed policy.allowed (lookup leg.instrument_id vaults))
          book.legs
    pub caps : IsWithinCaps policy.caps vaults book.legs
    pub leverage :
        All
          (λ (leg : AllocationLeg N). IsLegWell policy.caps leg (lookup leg.instrument_id vaults))
          book.legs
    pub levered :
        exceeds policy.caps.max_weight_levered (levered_weight vaults book.legs F.nil) ≡ false
    pub exposure :
        exceeds policy.caps.max_book_gross_exposure (gross_exposure vaults book.legs F.nil) ≡ false
    pub diversified :
        IsDiversified measure policy.caps.min_effective_positions
          (weights_bps_from book.legs [])
          (series_of (weights_bps_from book.legs []) vaults)
    pub quality : (id : String) (v : Vault N) → lookup id vaults ≡ some v → IsSound v policy.caps
    pub attended :
        policy.gates.autonomous_rebalance ≡ false → autonomous_mode {N = N} book.metadata ≡ none

  -- The amount bought in one cycle is within its limit.
  abbrev pub IsWithinCycle : Allocation N → Policy N → Type 0
  IsWithinCycle allocation policy =
      exceeds (some policy.gates.max_deploy_per_cycle_usd) allocation.total_usd ≡ false

module _ {N : Type 0} ⦃F : Floats N⦄ (measure : Diversity N) (book : Allocation N)
    (policy : Policy N) (known vaults : List (String × Vault N)) where
  -- Compliance from the parts that the check looks at.
  pub check_leverage-Complies :
      check_leverage policy.caps vaults book.legs ≡ ok []
      → (policy.gates.new_instrument_needs_approval ≡ true
          → All (λ leg. is_known known leg ≡ true) book.legs)
      → All
          (λ (leg : AllocationLeg N). IsLegAllowed policy.allowed (lookup leg.instrument_id vaults))
          book.legs
      → IsWithinCaps policy.caps vaults book.legs
      → IsDiversified measure policy.caps.min_effective_positions
          (weights_bps_from book.legs [])
          (series_of (weights_bps_from book.legs []) vaults)
      → ((id : String) (v : Vault N) → lookup id vaults ≡ some v → IsSound v policy.caps)
      → (policy.gates.autonomous_rebalance ≡ false → autonomous_mode {N = N} book.metadata ≡ none)
      → Complies measure book policy known vaults
  check_leverage-Complies e a b c d q m =
      let (legs_well, (weight, gross)) = (check_leverage_iff policy.caps vaults book.legs).0 e in
      record {
        approved = a;
        allowed = b;
        caps = c;
        leverage = legs_well;
        levered = weight;
        exposure = gross;
        diversified = d;
        quality = q;
        attended = m;
      }

  pub Complies-check_leverage :
      Complies measure book policy known vaults
      → check_leverage policy.caps vaults book.legs ≡ ok []
  Complies-check_leverage k =
      (check_leverage_iff policy.caps vaults book.legs).1 (k.leverage, (k.levered, k.exposure))

abbrev pub passed : {N : Type 0} → PolicyResult N
passed = record { is_ok = true; violations = [] }

module _ {N : Type 0} where
  pub result_of-passed :
      (xs : List (PolicyViolation N))
      → (◌≡◌ {A = Outcome LeveredError (PolicyResult N)} (ok (result_of xs)) (ok passed))
        ↔ (xs ≡ [])
  result_of-passed [] = (λ h. refl, λ h. refl)
  result_of-passed (x ∷ xs) = (
    λ h. absurd (let p = ap (λ (r : PolicyResult N). r.is_ok) (ok-injective h) in cc),
    λ h. absurd (let p = h in cc),
  )

module _ {N : Type 0} ⦃F : Floats N⦄ (measure : Diversity N) (allocation : Allocation N)
    (policy : Policy N) (instruments : List (Vault N)) where
  -- An allocation passes the check exactly when it complies with the policy - approval, allowlists,
  -- the weight caps by bucket, leverage, diversification, quality and the execution mode - and the
  -- amount that it buys is within the limit of a cycle.
  pub check-Complies : (check measure allocation policy instruments ≡ ok passed) ↔ (
      Complies measure allocation policy
        (vault_by_id instruments)
        (allocated_vaults instruments allocation.legs)
      × IsWithinCycle allocation policy)
  unfolding check
  check-Complies =
      let legs = allocation.legs in
      let known = vault_by_id instruments in
      let vaults = allocated_vaults instruments legs in
      let leverage = check_leverage policy.caps vaults legs in
      let parts = λ (xs : List (PolicyViolation N)).
        append-nil_iff _ _ (check_known_iff policy.gates known legs) (
          append-nil_iff _ _ (check_allowlists_iff policy.allowed vaults legs) (
            append-nil_iff _ _ (check_caps_iff policy.caps vaults legs) (
              append-nil_iff xs _ (λ (h : xs ≡ []). h, λ h. h)
                (append-nil_iff _ _
                  (check_diversification_iff measure policy.caps.min_effective_positions vaults
                    legs)
                  (append-nil_iff _ _
                    (check_quality_caps_iff policy.caps vaults
                      (allocated_from-IsDistinct known legs [] tt))
                    (check_gates_iff policy.gates allocation)))))) in
      (
        λ h.
            let (xs, e, rest) = (>>=-iff leverage _ passed).0 h in
            let (a, (b, (c, (d, (f, (g, i)))))) = (parts xs).0 ((result_of-passed _).0 rest) in
            (
              check_leverage-Complies measure allocation policy known vaults (e ∙ ap ok d) a b c f g
                  i.1,
              i.0,
            ),
        λ h.
            let k = h.0 in
            (>>=-iff leverage _ passed).1 (
              [],
              Complies-check_leverage measure allocation policy known vaults k,
              (result_of-passed _).1 (
                  (parts []).1 (
                    k.approved,
                    (k.allowed, (k.caps, (refl, (k.diversified, (k.quality, (h.1, k.attended)))))),
                  )),
            ),
      )
