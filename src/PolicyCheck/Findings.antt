-- ===== src/PolicyCheck/Findings.antt =====
-- core/policy.py: when the checks of a policy other than that of leverage find nothing.
use open_allocator.Base.{
  ℕ, ◌≡◌, ◌≢◌, ◌↔◌, refl, inl, inr, Bool-cases, String, Bool, true, false, not, Option, none, some,
  List, [], ◌∷◌, map, filter, All, some-inj, subst,
}
use open_allocator.Base.Alls.{append-nil_iff, All-iff, flat_map-nil, map-nil}
use open_allocator.Base.Int.{ℤ}
use open_allocator.Base.Text.{codes}
use open_allocator.Base.Decimal.{decimal}
use open_allocator.Base.Sorting.{sort_by, All-sort_by, sort_by-nil}
use open_allocator.Base.Equality.{string_equality, number_equality}
use open_allocator.Base.Dict.{lookup, IsDistinct, insert-IsDistinct, All-lookup}
use open_allocator.Policy.{
  Floats, Vault, PolicyAllowed, PolicyCaps, PolicyGates, Scalar, single, number,
}
use open_allocator.Eligibility.{allowlist_findings, quality_findings}
use open_allocator.Eligibility.Admission.{
  IsAllowed, IsSound, allowlist_findings_iff, quality_findings_iff,
}
use open_allocator.PolicyCheck.Types.{
  AllocationLeg, Allocation, exceeds, falls_short, violated_if-nil,
}
use open_allocator.PolicyCheck.Weights.{WithinCap, check_weight_cap_iff}
use open_allocator.PolicyCheck.Gates.{
  Diversity, autonomous_mode, mode_violations, check_gates, weights_bps_from, series_of,
  measured_violations, check_diversification,
}
use open_allocator.PolicyCheck.{
  with_known, allocated_from, is_known, missing_instruments, check_known, allowlist_violations,
  check_allowlists, bucket_by, by_instrument, by_curator, by_sector, sector_violations, check_caps,
  check_quality_caps, reported,
}

module _ {ℓ} {A : Type ℓ} where
  filter-not_nil :
      (p : A → Bool) (xs : List A) → (filter (λ x. not (p x)) xs ≡ []) ↔ All (λ x. p x ≡ true) xs
  unfolding filter
  filter-not_nil p [] = (λ h. tt, λ h. refl)
  filter-not_nil p (x ∷ xs) = elim (Bool-cases (p x)) [
    | inl e ↦ rw e (λ h. (refl, (filter-not_nil p xs).0 h), λ h. (filter-not_nil p xs).1 h.1)
    | inr e ↦ rw e (λ h. absurd (let q = h in cc), λ h. absurd (let q = h.0 in cc))
  ]

module _ {N : Type 0} where
  -- Nothing is new, where new instruments need approval.
  pub check_known_iff :
      (gates : PolicyGates N) (known : List (String × Vault N)) (legs : List (AllocationLeg N))
      → (check_known gates known legs ≡ [])
        ↔ (gates.new_instrument_needs_approval ≡ true → All (λ leg. is_known known leg ≡ true) legs)
  unfolding check_known missing_instruments
  check_known_iff gates known legs = elim (Bool-cases gates.new_instrument_needs_approval) [
    | inl p ↦
        let ids =
          map (λ (leg : AllocationLeg N). leg.instrument_id)
            (filter (λ leg. not (is_known known leg)) legs) in
        rw p (
          λ h _.
              (filter-not_nil (is_known known) legs).0
                ((map-nil _ _).0 ((sort_by-nil codes ids).0 ((map-nil _ (sort_by codes ids)).0 h))),
          λ h. (map-nil _ (sort_by codes ids)).1 (
              (sort_by-nil codes ids).1
                ((map-nil _ _).1 ((filter-not_nil (is_known known) legs).1 (h refl)))),
        )
    | inr p ↦ rw p (λ h q. absurd (let r = q in cc), λ h. refl)
  ]

  abbrev pub IsLegAllowed : PolicyAllowed → Option (Vault N) → Type 0
  IsLegAllowed allowed found = (v : Vault N) → found ≡ some v → IsAllowed v allowed

  allowlist_violations_iff :
      (allowed : PolicyAllowed) (leg : AllocationLeg N) (found : Option (Vault N))
      → (allowlist_violations allowed leg found ≡ []) ↔ IsLegAllowed allowed found
  allowlist_violations_iff allowed leg none = (λ h v q. absurd (let p = q in cc), λ h. refl)
  allowlist_violations_iff allowed leg (some w) =
      let nothing = map-nil _ (allowlist_findings w allowed) in
      let admitted = allowlist_findings_iff w allowed in
      (
        λ h v q. subst (λ z. IsAllowed z allowed) (some-inj q) (admitted.0 (nothing.0 h)),
        λ h. nothing.1 (admitted.1 (h w refl)),
      )

  pub check_allowlists_iff :
      (allowed : PolicyAllowed) (vaults : List (String × Vault N)) (legs : List (AllocationLeg N))
      → (check_allowlists allowed vaults legs ≡ [])
        ↔ All (λ leg. IsLegAllowed allowed (lookup leg.instrument_id vaults)) legs
  unfolding check_allowlists
  check_allowlists_iff allowed vaults legs =
      let flat =
        flat_map-nil
          (λ (leg : AllocationLeg N).
            allowlist_violations allowed leg (lookup leg.instrument_id vaults))
          legs in
      let each =
        All-iff
          (λ (leg : AllocationLeg N).
            allowlist_violations_iff allowed leg (lookup leg.instrument_id vaults))
          legs in
      (λ h. each.0 (flat.0 h), λ h. flat.1 (each.1 h))

  pub allocated_from-IsDistinct :
      (known : List (String × Vault N)) (legs : List (AllocationLeg N))
      (vaults : List (String × Vault N))
      → IsDistinct vaults
      → IsDistinct (allocated_from known legs vaults)
  unfolding allocated_from
  allocated_from-IsDistinct known [] vaults h = h
  allocated_from-IsDistinct known (leg ∷ legs) vaults h =
      allocated_from-IsDistinct known legs _
        (with_known-IsDistinct (lookup leg.instrument_id known))
    where
      with_known-IsDistinct :
          (found : Option (Vault N)) → IsDistinct (with_known leg.instrument_id found vaults)
      with_known-IsDistinct none = h
      with_known-IsDistinct (some v) = insert-IsDistinct leg.instrument_id v vaults h

module _ {N : Type 0} ⦃F : Floats N⦄ where
  -- The instruments of the allocation meet the quality caps.
  pub check_quality_caps_iff :
      (caps : PolicyCaps N) (vaults : List (String × Vault N))
      → IsDistinct vaults
      → (check_quality_caps caps vaults ≡ [])
        ↔ ((id : String) (v : Vault N) → lookup id vaults ≡ some v → IsSound v caps)
  unfolding check_quality_caps
  check_quality_caps_iff caps vaults distinct =
      let key = λ (x : String × Vault N). codes x.0 in
      let found = λ (x : String × Vault N). reported x.0 (quality_findings x.1 caps) in
      let flat = flat_map-nil found (sort_by key vaults) in
      let sorted = All-sort_by key (λ (x : String × Vault N). found x ≡ []) vaults in
      let each = All-iff (λ (x : String × Vault N). found_iff x.0 x.1) vaults in
      let looked = All-lookup (λ (id : String) (v : Vault N). IsSound v caps) vaults distinct in
      (λ h. looked.0 (each.0 (sorted.0 (flat.0 h))), λ h. flat.1 (sorted.1 (each.1 (looked.1 h))))
    where
      found_iff :
          (id : String) (v : Vault N)
          → (reported id (quality_findings v caps) ≡ []) ↔ IsSound v caps
      found_iff id v =
          let nothing = map-nil _ (quality_findings v caps) in
          let sound = quality_findings_iff v caps in
          (λ h. sound.0 (nothing.0 h), λ h. nothing.1 (sound.1 h))

  -- No bucket of any kind is over its cap; sectors count where there is a cap on them.
  pub record IsWithinCaps (caps : PolicyCaps N) (vaults : List (String × Vault N))
      (legs : List (AllocationLeg N)) : Type 0 where
    pub instrument : WithinCap by_instrument caps.max_weight_per_instrument legs
    pub protocol :
        WithinCap (bucket_by (λ (v : Vault N). v.protocol) vaults) caps.max_weight_per_protocol legs
    pub curator : WithinCap (bucket_by by_curator vaults) caps.max_weight_per_curator legs
    pub chain :
        WithinCap (bucket_by (λ (v : Vault N). v.chain_id) vaults) caps.max_weight_per_chain legs
    pub sector :
        (limit : N)
        → caps.max_weight_per_sector ≡ some limit
        → WithinCap (bucket_by by_sector vaults) limit legs

  sector_violations_iff :
      (cap : Option N) (vaults : List (String × Vault N)) (legs : List (AllocationLeg N))
      → (sector_violations cap vaults legs ≡ [])
        ↔ ((limit : N) → cap ≡ some limit → WithinCap (bucket_by by_sector vaults) limit legs)
  sector_violations_iff none vaults legs = (λ h x q. absurd (let p = q in cc), λ h. refl)
  sector_violations_iff (some limit) vaults legs =
      let within =
        check_weight_cap_iff codes "max_weight_per_sector" limit (bucket_by by_sector vaults)
          legs in
      (
        λ h x q.
            subst (λ z. WithinCap (bucket_by by_sector vaults) z legs) (some-inj q) (within.0 h),
        λ h. within.1 (h limit refl),
      )

  pub check_caps_iff :
      (caps : PolicyCaps N) (vaults : List (String × Vault N)) (legs : List (AllocationLeg N))
      → (check_caps caps vaults legs ≡ []) ↔ IsWithinCaps caps vaults legs
  unfolding check_caps
  check_caps_iff caps vaults legs =
      let parts =
        append-nil_iff _ _
          (check_weight_cap_iff codes "max_weight_per_instrument" caps.max_weight_per_instrument
            by_instrument legs)
          (append-nil_iff _ _
            (check_weight_cap_iff codes "max_weight_per_protocol" caps.max_weight_per_protocol
              (bucket_by (λ (v : Vault N). v.protocol) vaults) legs)
            (append-nil_iff _ _
              (check_weight_cap_iff codes "max_weight_per_curator" caps.max_weight_per_curator
                (bucket_by by_curator vaults) legs)
              (append-nil_iff _ _
                (check_weight_cap_iff decimal "max_weight_per_chain" caps.max_weight_per_chain
                  (bucket_by (λ (v : Vault N). v.chain_id) vaults) legs)
                (sector_violations_iff caps.max_weight_per_sector vaults legs)))) in
      (
        λ h.
            let (a, (b, (c, (d, e)))) = parts.0 h in
            record { instrument = a; protocol = b; curator = c; chain = d; sector = e },
        λ h. parts.1 (h.instrument, (h.protocol, (h.curator, (h.chain, h.sector)))),
      )

  -- Where there is a floor and a leg has weight, some history is known and the measure reaches it.
  abbrev pub IsDiversified :
      Diversity N → Option N → List (String × ℤ) → List (String × List (ℕ × N)) → Type 0
  IsDiversified measure cap weights series =
      (floor : N)
      → cap ≡ some floor
      → weights ≢ []
      → (series ≢ [])
        × (falls_short (some floor) (measure.effective_positions weights series) ≡ false)

  measured_violations_iff :
      (measure : Diversity N) (floor : N) (weights : List (String × ℤ))
      (series : List (String × List (ℕ × N)))
      → (measured_violations measure floor weights series ≡ []) ↔ (
          weights ≢ []
          → (series ≢ [])
            × (falls_short (some floor) (measure.effective_positions weights series) ≡ false))
  measured_violations_iff measure floor [] series = (λ h n. absurd (n refl), λ h. refl)
  measured_violations_iff measure floor (w ∷ ws) [] =
      (λ h. absurd (let p = h in cc), λ h. absurd ((h (λ e. let p = e in cc)).0 refl))
  measured_violations_iff measure floor (w ∷ ws) (s ∷ ss) =
      let actual = measure.effective_positions (w ∷ ws) (s ∷ ss) in
      let one =
        violated_if-nil (falls_short (some floor) actual) "min_effective_positions"
          (codes "allocation") (some floor) (single (number actual)) in
      (λ h n. ((λ e. let p = e in cc), one.0 h), λ h. one.1 (h (λ e. let p = e in cc)).1)

  pub check_diversification_iff :
      (measure : Diversity N) (cap : Option N) (vaults : List (String × Vault N))
      (legs : List (AllocationLeg N))
      → (check_diversification measure cap vaults legs ≡ [])
        ↔ IsDiversified measure cap
            (weights_bps_from legs [])
            (series_of (weights_bps_from legs []) vaults)
  unfolding check_diversification
  check_diversification_iff measure none vaults legs =
      (λ h x q. absurd (let p = q in cc), λ h. refl)
  check_diversification_iff measure (some floor) vaults legs =
      let weights = weights_bps_from legs [] in
      let one = measured_violations_iff measure floor weights (series_of weights vaults) in
      (
        λ h x q.
            subst
              (λ z.
                weights ≢ []
                → (series_of weights vaults ≢ [])
                  × (falls_short (some z)
                        (measure.effective_positions weights (series_of weights vaults))
                      ≡ false))
              (some-inj q) (one.0 h),
        λ h. one.1 (h floor refl),
      )

  mode_violations_iff :
      (allowed : Bool) (mode : Option (Scalar N))
      → (mode_violations allowed mode ≡ []) ↔ (allowed ≡ false → mode ≡ none)
  mode_violations_iff allowed none = (λ h q. refl, λ h. refl)
  mode_violations_iff true (some mode) = (λ h q. absurd (let p = q in cc), λ h. refl)
  mode_violations_iff false (some mode) =
      (λ h. absurd (let p = h in cc), λ h. absurd (let p = h refl in cc))

  pub check_gates_iff :
      (gates : PolicyGates N) (allocation : Allocation N)
      → (check_gates gates allocation ≡ []) ↔ (
          (exceeds (some gates.max_deploy_per_cycle_usd) allocation.total_usd ≡ false)
          × (gates.autonomous_rebalance ≡ false
              → autonomous_mode {N = N} allocation.metadata ≡ none))
  unfolding check_gates
  check_gates_iff gates allocation =
      append-nil_iff _ _
        (violated_if-nil _ "max_deploy_per_cycle_usd" (codes "allocation")
          (some gates.max_deploy_per_cycle_usd) (single (number allocation.total_usd)))
        (mode_violations_iff gates.autonomous_rebalance (autonomous_mode allocation.metadata))
