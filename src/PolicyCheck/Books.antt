-- ===== src/PolicyCheck/Books.antt =====
-- core/policy.py: `resulting_book` and `check_incremental`, over Python's decimals.
use open_allocator.Base.{
  Bool, false, not, Option, none, some, String, List, [], ◌∷◌, ◌++◌, map, if◌then◌else◌, filter,
}
use open_allocator.Base.Text.{codes}
use open_allocator.Base.Sorting.{sort_by}
use open_allocator.Base.Outcome.{Outcome, ok, ◌>>=◌}
use open_allocator.Base.Equality.{contains, string_equality}
use open_allocator.Base.Dict.{lookup, insert}
use open_allocator.Policy.{Floats, Vault, Policy}
use open_allocator.PolicyCheck.Types.{AllocationLeg, Allocation, PolicyViolation, PolicyResult}
use open_allocator.PolicyCheck.Gates.{Diversity}
use open_allocator.PolicyCheck.Leverage.{LeveredError}
use open_allocator.PolicyCheck.{check, result_of}

-- `of_float` is `Decimal(str(x))`
pub record Decimals (N D : Type 0) : Type 0 where
  pub of_float : N → D
  pub to_float : D → N
  pub add : D → D → D
  pub div : D → D → D
  pub is_positive : D → Bool
  pub nil : D

-- `rule in _CYCLE_SCOPED_RULES`
abbrev pub is_cycle_scoped : {N : Type 0} → PolicyViolation N → Bool
is_cycle_scoped v = contains ("max_deploy_per_cycle_usd" ∷ []) v.rule

module _ {N D : Type 0} ⦃F : Floats N⦄ (d : Decimals N D) where
  abbrev or_nothing : Option D → D
  or_nothing none = d.nil
  or_nothing (some x) = x

  -- `usd[instrument_id] += Decimal(str(amount))`, for each amount
  unfoldable pub usd_from : List (String × N) → List (String × D) → List (String × D)
  usd_from [] usd = usd
  usd_from ((id, amount) ∷ amounts) usd =
      usd_from amounts (insert id (d.add (or_nothing (lookup id usd)) (d.of_float amount)) usd)

  abbrev is_held : Option N → Bool
  is_held none = false
  is_held (some amount) = not (F.is_zero amount)

  -- The leverage of the legs that are not held already.
  unfoldable pub leverage_from :
      List (String × N)
      → List (AllocationLeg N)
      → List (String × Option N)
      → List (String × Option N)
  leverage_from held [] leverage = leverage
  leverage_from held (leg ∷ legs) leverage = leverage_from held legs (
      if is_held (lookup leg.instrument_id held)
      then leverage
      else insert leg.instrument_id leg.leverage leverage)

  abbrev flattened : Option (Option N) → Option N
  flattened none = none
  flattened (some x) = x

  abbrev sum_from : List (String × D) → D → D
  sum_from [] total = total
  sum_from ((id, amount) ∷ usd) total = sum_from usd (d.add total amount)

  unfoldable pub resulting_book : Allocation N → List (String × N) → Allocation N
  unfolding usd_from leverage_from
  resulting_book allocation held =
      let bought = map (λ (leg : AllocationLeg N). (leg.instrument_id, leg.usd)) allocation.legs in
      let usd = usd_from bought (usd_from held []) in
      let total = sum_from usd d.nil in
      record {
        legs =
            map
              (λ (x : String × D). record {
                instrument_id = x.0;
                weight = if d.is_positive total then d.to_float (d.div x.1 total) else F.nil;
                usd = d.to_float x.1;
                leverage = flattened (lookup x.0 (leverage_from held allocation.legs []));
              })
              (sort_by (λ (x : String × D). codes x.0) usd);
        total_usd = d.to_float total;
        metadata = allocation.metadata;
      }

  unfoldable pub check_incremental :
      Diversity N
      → Allocation N
      → Policy N
      → List (Vault N)
      → List (String × N)
      → Outcome LeveredError (PolicyResult N)
  unfolding check resulting_book
  check_incremental measure allocation policy instruments held = do
    book ← check measure (resulting_book allocation held) policy instruments
    cycle ← check measure allocation policy instruments
    ok (
        result_of (
          filter (λ v. not (is_cycle_scoped v)) book.violations
          ++ filter is_cycle_scoped cycle.violations))
