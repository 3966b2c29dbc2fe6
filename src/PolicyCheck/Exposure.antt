-- ===== src/PolicyCheck/Exposure.antt =====
-- core/policy.py: when `_check_leverage` finds nothing.
use open_allocator.Base.{
  ◌≡◌, ◌↔◌, refl, inl, inr, Bool-cases, String, Bool, true, false, ◌&&◌, Option, none, some, List,
  [], ◌∷◌, ◌++◌, All, sym, ◌∙◌, some-inj, subst, ap,
}
use open_allocator.Base.Alls.{append-nil_iff}
use open_allocator.Base.Text.{codes}
use open_allocator.Base.Outcome.{Outcome, ok, >>=-iff, ok-nil_iff, ok-injective}
use open_allocator.Base.Equality.{string_equality}
use open_allocator.Base.Dict.{lookup}
use open_allocator.Policy.{Floats, Vault, PolicyCaps, single, number, integer}
use open_allocator.PolicyCheck.Types.{
  AllocationLeg, PolicyViolation, exceeds, falls_short, violated_if, violated_if-nil,
}
use open_allocator.PolicyCheck.Leverage.{
  LeveredError, cross_asset, depeg_buffer_bps, leg_health_factor, ceiling_of, leg_leverage,
  health_violations, levered_violations, leg_violations, levered_weight, gross_exposure,
  row_violations, legs_violations, check_leverage, unlevered_violations,
}

module _ {N : Type 0} ⦃F : Floats N⦄ (caps : PolicyCaps N) where
  -- A health factor, if there is debt, is at the floor, and on a loop over two assets so is the
  -- price move that it survives.
  abbrev pub IsHealthy : Vault N → Option N → Type 0
  IsHealthy v health =
      (x : N)
      → health ≡ some x
      → (falls_short caps.min_health_factor x ≡ false)
        × (cross_asset v ≡ true
            → falls_short caps.min_depeg_buffer_bps (F.of_int (depeg_buffer_bps x)) ≡ false)

  -- A leg on a levered row at a leverage: within the row's own ceiling and the policy's, and with a
  -- health factor that can be computed and is healthy.
  pub record IsLeveredWell (v : Vault N) (leverage : N) : Type 0 where
    pub declared : exceeds (some (ceiling_of v)) leverage ≡ false
    pub gross : exceeds caps.max_gross_leverage leverage ≡ false
    pub health : (h : Option N) × (leg_health_factor v leverage ≡ ok h) × IsHealthy v h

  -- A leg with weight on a known row: without leverage, or levered well.
  abbrev IsRowWell : AllocationLeg N → Vault N → Type 0
  IsRowWell leg v =
      (v.is_levered ≡ false
        → (leverage : N) → leg.leverage ≡ some leverage
        → exceeds (some F.unit) leverage ≡ false)
      × (v.is_levered ≡ true → IsLeveredWell v (leg_leverage leg (some v)))

  -- What leverage a policy admits of one leg, where it has weight and its row is known.
  abbrev pub IsLegWell : AllocationLeg N → Option (Vault N) → Type 0
  IsLegWell leg found =
      (v : Vault N) → found ≡ some v → F.le leg.weight F.nil ≡ false → IsRowWell leg v

  and_false : (a b : Bool) → ((a && b) ≡ false) ↔ (a ≡ true → b ≡ false)
  and_false true b = (λ h k. h, λ h. h refl)
  and_false false b = (λ h k. absurd (let p = k in cc), λ h. refl)

  health_violations_iff :
      (leg : AllocationLeg N) (v : Vault N) (health : Option N)
      → (health_violations caps leg v health ≡ []) ↔ IsHealthy v health
  health_violations_iff leg v none = (λ h x q. absurd (let p = q in cc), λ h. refl)
  health_violations_iff leg v (some x) =
      let move = falls_short caps.min_depeg_buffer_bps (F.of_int (depeg_buffer_bps x)) in
      let parts =
        append-nil_iff _ _
          (violated_if-nil (falls_short caps.min_health_factor x) "min_health_factor"
            (codes leg.instrument_id) caps.min_health_factor (single (number (F.rounded 6 x))))
          (violated_if-nil (cross_asset v && move) "min_depeg_buffer_bps" (codes leg.instrument_id)
            caps.min_depeg_buffer_bps (single (integer (depeg_buffer_bps x)))) in
      (
        λ h y q.
            let (a, b) = parts.0 h in
            subst
              (λ z.
                (falls_short caps.min_health_factor z ≡ false)
                × (cross_asset v ≡ true
                    → falls_short caps.min_depeg_buffer_bps (F.of_int (depeg_buffer_bps z))
                      ≡ false))
              (some-inj q) (a, (and_false (cross_asset v) move).0 b),
        λ h. let (a, b) = h x refl in parts.1 (a, (and_false (cross_asset v) move).1 b),
      )

  levered_violations_iff :
      (leg : AllocationLeg N) (v : Vault N) (leverage : N)
      → (levered_violations caps leg v leverage ≡ ok []) ↔ IsLeveredWell v leverage
  unfolding levered_violations
  levered_violations_iff leg v leverage =
      elim (Bool-cases (exceeds (some (ceiling_of v)) leverage)) [
        | inl p ↦ rw p (
          λ h. absurd (let q = ok-injective h in cc),
          λ h. absurd (let q = sym p ∙ h.declared in cc),
        )
        | inr p ↦ rw p (
          λ h.
              let (health, e, rest) = (>>=-iff (leg_health_factor v leverage) _ []).0 h in
              let (a, b) = (found health).0 rest in
              record { declared = p; gross = a; health = (health, e, b) },
          λ h.
              let (health, e, b) = h.health in
              (>>=-iff (leg_health_factor v leverage) _ []).1
                (health, e, (found health).1 (h.gross, b)),
        )
      ]
    where
      found :
          (health : Option N)
          → (◌≡◌ {A = Outcome LeveredError (List (PolicyViolation N))}
              (ok (
                violated_if
                  (exceeds caps.max_gross_leverage leverage)
                  "max_gross_leverage"
                  (codes leg.instrument_id)
                  caps.max_gross_leverage
                  (single (number leverage))
                ++ health_violations caps leg v health))
              (ok []))
            ↔ ((exceeds caps.max_gross_leverage leverage ≡ false) × IsHealthy v health)
      found health = ok-nil_iff _ (
          append-nil_iff _ _
            (violated_if-nil _ "max_gross_leverage" (codes leg.instrument_id)
              caps.max_gross_leverage (single (number leverage)))
            (health_violations_iff leg v health))

  unlevered_violations_iff :
      (leg : AllocationLeg N) (chosen : Option N)
      → (unlevered_violations leg chosen ≡ [])
        ↔ ((leverage : N) → chosen ≡ some leverage → exceeds (some F.unit) leverage ≡ false)
  unlevered_violations_iff leg none = (λ h x q. absurd (let p = q in cc), λ h. refl)
  unlevered_violations_iff leg (some x) =
      let one =
        violated_if-nil (exceeds (some F.unit) x) "leverage_on_unlevered_instrument"
          (codes leg.instrument_id) (some F.unit) (single (number x)) in
      (
        λ h y q. subst (λ z. exceeds (some F.unit) z ≡ false) (some-inj q) (one.0 h),
        λ h. one.1 (h x refl),
      )

  row_violations_iff :
      (leg : AllocationLeg N) (v : Vault N) (b : Bool)
      → v.is_levered ≡ b
      → (row_violations caps leg v b ≡ ok []) ↔ IsRowWell leg v
  row_violations_iff leg v false e = (
    λ h. (
      λ _. (unlevered_violations_iff leg leg.leverage).0 (ok-injective h),
      λ n. absurd (let r = sym e ∙ n in cc),
    ),
    λ h. ap ok ((unlevered_violations_iff leg leg.leverage).1 (h.0 e)),
  )
  row_violations_iff leg v true e =
      let levered = levered_violations_iff leg v (leg_leverage leg (some v)) in
      (λ h. (λ n. absurd (let r = sym e ∙ n in cc), λ _. levered.0 h), λ h. levered.1 (h.1 e))

  leg_violations_iff :
      (leg : AllocationLeg N) (found : Option (Vault N))
      → (leg_violations caps leg found ≡ ok []) ↔ IsLegWell leg found
  unfolding leg_violations
  leg_violations_iff leg none = (λ h v q. absurd (let p = q in cc), λ h. refl)
  leg_violations_iff leg (some w) = elim (Bool-cases (F.le leg.weight F.nil)) [
    | inl p ↦ rw p (λ h v q k. absurd (let r = k in cc), λ h. refl)
    | inr p ↦
        let row = row_violations_iff leg w w.is_levered refl in
        rw p (λ h v q k. subst (IsRowWell leg) (some-inj q) (row.0 h), λ h. row.1 (h w refl refl))
  ]

  legs_violations_iff :
      (vaults : List (String × Vault N)) (legs : List (AllocationLeg N))
      → (legs_violations caps vaults legs ≡ ok [])
        ↔ All (λ leg. IsLegWell leg (lookup leg.instrument_id vaults)) legs
  unfolding legs_violations
  legs_violations_iff vaults [] = (λ h. tt, λ h. refl)
  legs_violations_iff vaults (leg ∷ legs) =
      let first = leg_violations_iff leg (lookup leg.instrument_id vaults) in
      let rest = legs_violations_iff vaults legs in
      (
        λ h.
            let (found, e, inner) = (>>=-iff (leg_violations caps leg _) _ []).0 h in
            let (others, f, g) = (>>=-iff (legs_violations caps vaults legs) _ []).0 inner in
            let (a, b) =
              (append-nil_iff found others (λ x. x, λ x. x) (λ x. x, λ x. x)).0 (ok-injective g) in
            (first.0 (e ∙ ap ok a), rest.0 (f ∙ ap ok b)),
        λ h. (>>=-iff (leg_violations caps leg _) _ []).1 (
          [],
          first.1 h.0,
          (>>=-iff (legs_violations caps vaults legs) _ []).1 ([], rest.1 h.1, refl),
        ),
      )

  -- `_check_leverage` finds nothing exactly when the leverage of every leg is well, and the levered
  -- weight and the gross exposure are within their caps.
  pub check_leverage_iff :
      (vaults : List (String × Vault N)) (legs : List (AllocationLeg N))
      → (check_leverage caps vaults legs ≡ ok []) ↔ (
          All (λ leg. IsLegWell leg (lookup leg.instrument_id vaults)) legs
          × ((exceeds caps.max_weight_levered (levered_weight vaults legs F.nil) ≡ false)
              × (exceeds caps.max_book_gross_exposure (gross_exposure vaults legs F.nil) ≡ false)))
  unfolding check_leverage
  check_leverage_iff vaults legs =
      let legs_iff = legs_violations_iff vaults legs in
      let sums =
        append-nil_iff _ _
          (violated_if-nil (exceeds caps.max_weight_levered (levered_weight vaults legs F.nil))
            "max_weight_levered" (codes "allocation") caps.max_weight_levered
            (single (number (levered_weight vaults legs F.nil))))
          (violated_if-nil (exceeds caps.max_book_gross_exposure (gross_exposure vaults legs F.nil))
            "max_book_gross_exposure" (codes "allocation") caps.max_book_gross_exposure
            (single (number (F.rounded 9 (gross_exposure vaults legs F.nil))))) in
      (
        λ h.
            let (found, e, rest) = (>>=-iff (legs_violations caps vaults legs) _ []).0 h in
            let (a, b) = (append-nil_iff found _ (λ x. x, λ x. x) sums).0 (ok-injective rest) in
            (legs_iff.0 (e ∙ ap ok a), b),
        λ h.
            (>>=-iff (legs_violations caps vaults legs) _ []).1
              ([], legs_iff.1 h.0, ap ok (sums.1 h.1)),
      )
