-- ===== src/PolicyCheck/Leverage.antt =====
-- core/policy.py: `_check_leverage`; core/levered.py: the health factor of a levered position.
use open_allocator.Base.{
  String, Bool, true, false, not, ◌&&◌, Option, none, some, List, [], ◌∷◌, ◌++◌, if◌then◌else◌,
  seq_eq,
}
use open_allocator.Base.Int.{ℤ, pos}
use open_allocator.Base.Text.{codes, casefold}
use open_allocator.Base.Outcome.{Outcome, ok, guard, ◌>>=◌, ◌>>◌}
use open_allocator.Base.Equality.{string_equality}
use open_allocator.Base.Dict.{lookup}
use open_allocator.Policy.{Floats, Vault, PolicyCaps, single, number, integer}
use open_allocator.PolicyCheck.Types.{
  AllocationLeg, PolicyViolation, or_else, exceeds, falls_short, violated_if,
}

-- The `ValueError`s of core/levered.py that `health_factor` raises.
pub data LeveredError : Type 0 where
  bad_leverage bad_liquidation_threshold : LeveredError

module _ {N : Type 0} where
  -- `Vault.cross_asset`; an unknown debt asset counts as another one.
  unfoldable pub cross_asset : Vault N → Bool
  cross_asset v = if not v.is_levered then false else elim v.debt_asset [
    | none ↦ true
    | some debt ↦ not (seq_eq (casefold (codes debt)) (casefold (codes v.asset)))
  ]

module _ {N : Type 0} ⦃F : Floats N⦄ where
  -- `levered.health_factor`, with the default price ratio of one
  unfoldable pub health_factor : N → N → Outcome LeveredError (Option N)
  health_factor leverage threshold = do
    guard (F.is_finite leverage && not (F.lt leverage F.unit)) bad_leverage
    guard (F.lt F.nil threshold && F.le threshold F.unit) bad_liquidation_threshold
    let debt = F.sub leverage F.unit
    ok (
        if F.le debt F.nil
        then none
        else some (F.div (F.mul leverage threshold) (F.mul debt F.unit)))

  -- `levered.depeg_buffer_bps`, of a health factor
  unfoldable pub depeg_buffer_bps : N → ℤ
  depeg_buffer_bps health = F.round_whole (F.mul (F.sub health F.unit) (F.of_int (pos 10000)))

  unfoldable pub levered_ltv_floor : Vault N → Option N
  levered_ltv_floor v = if not v.is_levered then none else elim v.max_leverage [
    | none ↦ none
    | some ceiling ↦
        if F.le ceiling F.unit then none else some (F.sub F.unit (F.div F.unit ceiling))
  ]

  -- `x or y` of two values that may be missing
  abbrev or_other : Option N → Option N → Option N
  or_other none other = other
  or_other (some x) other = if F.is_zero x then other else some x

  abbrev health_if : N → Option N → Outcome LeveredError (Option N)
  health_if leverage none = ok none
  health_if leverage (some threshold) = health_factor leverage threshold

  unfoldable pub leg_health_factor : Vault N → N → Outcome LeveredError (Option N)
  unfolding health_factor levered_ltv_floor
  leg_health_factor v leverage =
      if F.le leverage (F.add F.unit F.epsilon)
      then ok none
      else health_if leverage (or_other v.liquidation_threshold (levered_ltv_floor v))

  -- `vault.max_leverage or 1.0`
  abbrev pub ceiling_of : Vault N → N
  ceiling_of v = or_else v.max_leverage F.unit

  -- The leverage of a leg whose row is levered.
  abbrev chosen : Option N → N → N
  chosen none ceiling = ceiling
  chosen (some leverage) ceiling = leverage

  -- `_leg_leverage`
  unfoldable pub leg_leverage : AllocationLeg N → Option (Vault N) → N
  leg_leverage leg none = F.unit
  leg_leverage leg (some v) =
      if not v.is_levered then F.unit else chosen leg.leverage (ceiling_of v)

  -- The checks that need a health factor.
  abbrev pub health_violations :
      PolicyCaps N → AllocationLeg N → Vault N → Option N → List (PolicyViolation N)
  health_violations caps leg v none = []
  health_violations caps leg v (some health) =
      violated_if (falls_short caps.min_health_factor health) "min_health_factor"
        (codes leg.instrument_id) caps.min_health_factor (single (number (F.rounded 6 health)))
      ++ violated_if
          (cross_asset v
            && falls_short caps.min_depeg_buffer_bps (F.of_int (depeg_buffer_bps health)))
          "min_depeg_buffer_bps" (codes leg.instrument_id) caps.min_depeg_buffer_bps
          (single (integer (depeg_buffer_bps health)))

  -- What is found within the row's own ceiling.
  abbrev pub levered_found :
      PolicyCaps N → AllocationLeg N → Vault N → N → Option N → List (PolicyViolation N)
  levered_found caps leg v leverage health =
      violated_if (exceeds caps.max_gross_leverage leverage) "max_gross_leverage"
        (codes leg.instrument_id) caps.max_gross_leverage (single (number leverage))
      ++ health_violations caps leg v health

  -- The checks of a leg with weight on a levered row.
  unfoldable pub levered_violations :
      PolicyCaps N → AllocationLeg N → Vault N → N → Outcome LeveredError (List (PolicyViolation N))
  unfolding leg_health_factor depeg_buffer_bps cross_asset
  levered_violations caps leg v leverage =
      if exceeds (some (ceiling_of v)) leverage
      then ok (
          violated_if true "max_leverage_declared" (codes leg.instrument_id) (some (ceiling_of v))
            (single (number leverage)))
      else (do health ← leg_health_factor v leverage; ok (levered_found caps leg v leverage health))

  abbrev pub unlevered_violations : AllocationLeg N → Option N → List (PolicyViolation N)
  unlevered_violations leg none = []
  unlevered_violations leg (some leverage) =
      violated_if (exceeds (some F.unit) leverage) "leverage_on_unlevered_instrument"
        (codes leg.instrument_id) (some F.unit) (single (number leverage))

  -- The checks of a leg with weight, whose row is levered or not.
  abbrev pub row_violations :
      PolicyCaps N
      → AllocationLeg N
      → Vault N
      → Bool
      → Outcome LeveredError (List (PolicyViolation N))
  row_violations caps leg v false = ok (unlevered_violations leg leg.leverage)
  row_violations caps leg v true = levered_violations caps leg v (leg_leverage leg (some v))

  -- One leg in the loop of `_check_leverage`
  unfoldable pub leg_violations :
      PolicyCaps N
      → AllocationLeg N
      → Option (Vault N)
      → Outcome LeveredError (List (PolicyViolation N))
  unfolding levered_violations leg_leverage
  leg_violations caps leg none = ok []
  leg_violations caps leg (some v) =
      if F.le leg.weight F.nil then ok [] else row_violations caps leg v v.is_levered

  -- Whether a leg's weight counts as levered.
  unfoldable pub is_levered_leg : AllocationLeg N → Option (Vault N) → Bool
  is_levered_leg leg none = false
  is_levered_leg leg (some v) = not (F.le leg.weight F.nil) && v.is_levered

  -- `levered_weight` and `gross_exposure`, from what they were before the legs
  unfoldable pub levered_weight : List (String × Vault N) → List (AllocationLeg N) → N → N
  unfolding is_levered_leg
  levered_weight vaults [] total = total
  levered_weight vaults (leg ∷ legs) total = levered_weight vaults legs (
      if is_levered_leg leg (lookup leg.instrument_id vaults)
      then F.add total leg.weight
      else total)

  unfoldable pub gross_exposure : List (String × Vault N) → List (AllocationLeg N) → N → N
  unfolding leg_leverage
  gross_exposure vaults [] total = total
  gross_exposure vaults (leg ∷ legs) total =
      gross_exposure vaults legs
        (F.add total (F.mul leg.weight (leg_leverage leg (lookup leg.instrument_id vaults))))

  unfoldable pub legs_violations :
      PolicyCaps N
      → List (String × Vault N)
      → List (AllocationLeg N)
      → Outcome LeveredError (List (PolicyViolation N))
  unfolding leg_violations
  legs_violations caps vaults [] = ok []
  legs_violations caps vaults (leg ∷ legs) = do
    found ← leg_violations caps leg (lookup leg.instrument_id vaults)
    others ← legs_violations caps vaults legs
    ok (found ++ others)

  -- `_check_leverage`; its one loop is three here.
  unfoldable pub check_leverage :
      PolicyCaps N
      → List (String × Vault N)
      → List (AllocationLeg N)
      → Outcome LeveredError (List (PolicyViolation N))
  unfolding legs_violations levered_weight gross_exposure
  check_leverage caps vaults legs = do
    found ← legs_violations caps vaults legs
    let levered = levered_weight vaults legs F.nil
    let gross = gross_exposure vaults legs F.nil
    ok (
        found
        ++ (violated_if (exceeds caps.max_weight_levered levered) "max_weight_levered"
              (codes "allocation") caps.max_weight_levered (single (number levered))
            ++ violated_if (exceeds caps.max_book_gross_exposure gross) "max_book_gross_exposure"
                (codes "allocation") caps.max_book_gross_exposure
                (single (number (F.rounded 9 gross)))))
