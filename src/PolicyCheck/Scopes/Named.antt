-- ===== src/PolicyCheck/Scopes/Named.antt =====
-- core/policy.py: the findings of eligibility.py that the check reports are of the book.
use open_allocator.Base.{
  refl, String, Bool, true, false, Option, none, some, List, [], ◌∷◌, if◌then◌else◌, All,
}
use open_allocator.Base.Text.{codes}
use open_allocator.Base.Sorting.{sort_by}
use open_allocator.Base.Equality.{Equality, contains, string_equality, number_equality}
use open_allocator.Base.Dict.{lookup}
use open_allocator.Policy.{
  Floats, NumericRisk, unknown, missing, measured, Scalar, Finding, Vault, PolicyAllowed,
  PolicyCaps,
}
use open_allocator.Eligibility.{
  present, allowlist, holds_one, allowlist_findings, quality_findings, numeric_max, levered_limit,
  liquidity_limit, liquidity_floor, pays_no_reward, allowlist_axes, quality_axes,
}
use open_allocator.PolicyCheck.Types.{AllocationLeg}
use open_allocator.PolicyCheck.{
  reported, allowlist_violations, check_allowlists, check_quality_caps,
}
use open_allocator.PolicyCheck.Scopes.{
  IsBookRule, AreOfBook, nil-AreOfBook, cons-AreOfBook, flat_map-AreOfBook,
}

module _ {N : Type 0} where
  abbrev HasBookRule : Option (Finding N) → Type 0
  HasBookRule none = Unit
  HasBookRule (some f) = IsBookRule f.rule

  -- A finding, if there is one, has such a rule.
  record IsNamed (found : Option (Finding N)) : Type 0 where
    pub rule : HasBookRule found

  none-IsNamed : IsNamed none
  none-IsNamed = record { rule = tt }

  some-IsNamed : (f : Finding N) → IsBookRule f.rule → IsNamed (some f)
  some-IsNamed f h = record { rule = h }

  if-IsNamed :
      (b : Bool) (x y : Option (Finding N)) → IsNamed x → IsNamed y → IsNamed (if b then x else y)
  if-IsNamed true x y h k = h
  if-IsNamed false x y h k = k

  present-IsNamed :
      (xs : List (Option (Finding N))) → All IsNamed xs → All (λ f. IsBookRule f.rule) (present xs)
  unfolding present
  present-IsNamed [] h = tt
  present-IsNamed (none ∷ xs) h = present-IsNamed xs h.1
  present-IsNamed (some f ∷ xs) h = (h.0.rule, present-IsNamed xs h.1)

  allowlist-IsNamed :
      {A : Type 0} ⦃e : Equality A⦄ (inject : A → Scalar N) (rule : String)
      (allowed : Option (List A)) (actual : Option A)
      → IsBookRule rule
      → IsNamed (allowlist inject rule allowed actual)
  unfolding allowlist
  allowlist-IsNamed inject rule none actual h = none-IsNamed
  allowlist-IsNamed inject rule (some xs) actual h =
      if-IsNamed (holds_one xs actual) none _ none-IsNamed (some-IsNamed _ h)

  allowlist_findings-IsNamed :
      (v : Vault N) (p : PolicyAllowed) → All (λ f. IsBookRule f.rule) (allowlist_findings v p)
  unfolding allowlist_findings contains
  allowlist_findings-IsNamed v p = present-IsNamed (allowlist_axes v p) (
    allowlist-IsNamed _ "allowed_protocols" p.protocols (some v.protocol) refl,
    (
      allowlist-IsNamed _ "allowed_chains" p.chains (some v.chain_id) refl,
      (
        allowlist-IsNamed _ "allowed_assets" p.assets (some v.asset) refl,
        (
          allowlist-IsNamed _ "allowed_asset_categories" p.asset_categories v.asset_category refl,
          (
            if-IsNamed _ _ none (some-IsNamed _ refl) none-IsNamed,
            (allowlist-IsNamed _ "allowed_curators" p.curators v.curator refl, tt),
          ),
        ),
      ),
    ),
  )

  reported-AreOfBook :
      (id : String) (fs : List (Finding N))
      → All (λ f. IsBookRule f.rule) fs
      → AreOfBook (reported id fs)
  reported-AreOfBook id [] h = nil-AreOfBook
  reported-AreOfBook id (f ∷ fs) h = cons-AreOfBook h.0 (reported-AreOfBook id fs h.1)

  pub check_allowlists-AreOfBook :
      (allowed : PolicyAllowed) (vaults : List (String × Vault N)) (legs : List (AllocationLeg N))
      → AreOfBook (check_allowlists allowed vaults legs)
  unfolding check_allowlists
  check_allowlists-AreOfBook allowed vaults legs =
      flat_map-AreOfBook _ (λ leg. of_leg leg (lookup leg.instrument_id vaults)) legs
    where
      of_leg :
          (leg : AllocationLeg N) (found : Option (Vault N))
          → AreOfBook (allowlist_violations allowed leg found)
      of_leg leg none = nil-AreOfBook
      of_leg leg (some v) =
          reported-AreOfBook leg.instrument_id (allowlist_findings v allowed)
            (allowlist_findings-IsNamed v allowed)

module _ {N : Type 0} ⦃F : Floats N⦄ where
  numeric_max-IsNamed :
      (rule : String) (limit : N) (risk : NumericRisk N)
      → IsBookRule rule
      → IsNamed (numeric_max rule limit risk)
  numeric_max-IsNamed rule limit unknown h = some-IsNamed _ h
  numeric_max-IsNamed rule limit missing h = some-IsNamed _ h
  numeric_max-IsNamed rule limit (measured x) h =
      if-IsNamed _ _ none (some-IsNamed _ h) none-IsNamed

  levered_limit-IsNamed : (b : Bool) (limit : Option N) → IsNamed (levered_limit b limit)
  unfolding contains
  levered_limit-IsNamed false limit = none-IsNamed
  levered_limit-IsNamed true none = none-IsNamed
  levered_limit-IsNamed true (some limit) = if-IsNamed _ _ none (some-IsNamed _ refl) none-IsNamed

  liquidity_floor-IsNamed : (floor : N) (volume : Option N) → IsNamed (liquidity_floor floor volume)
  unfolding contains
  liquidity_floor-IsNamed floor none = some-IsNamed _ refl
  liquidity_floor-IsNamed floor (some volume) =
      if-IsNamed _ _ none (some-IsNamed _ refl) none-IsNamed

  liquidity_limit-IsNamed :
      (b : Bool) (floor : Option N) (unrewarded : Bool) (volume : Option N)
      → IsNamed (liquidity_limit b floor unrewarded volume)
  liquidity_limit-IsNamed false floor unrewarded volume = none-IsNamed
  liquidity_limit-IsNamed true none unrewarded volume = none-IsNamed
  liquidity_limit-IsNamed true (some floor) true volume = none-IsNamed
  liquidity_limit-IsNamed true (some floor) false volume = liquidity_floor-IsNamed floor volume

  quality_findings-IsNamed :
      (v : Vault N) (c : PolicyCaps N) → All (λ f. IsBookRule f.rule) (quality_findings v c)
  unfolding quality_findings contains
  quality_findings-IsNamed v c = present-IsNamed (quality_axes v c) (
    if-IsNamed _ _ none (some-IsNamed _ refl) none-IsNamed,
    (
      if-IsNamed v.is_levered none _ none-IsNamed (
          numeric_max-IsNamed "max_reward_dependence" c.max_reward_dependence v.reward_dependence
            refl),
      (
        levered_limit-IsNamed v.is_levered c.max_weight_levered,
        (
          liquidity_limit-IsNamed v.is_levered c.min_reward_liquidity_usd (pays_no_reward v)
              v.reward_liquidity_usd,
          tt,
        ),
      ),
    ),
  )

  pub check_quality_caps-AreOfBook :
      (caps : PolicyCaps N) (vaults : List (String × Vault N))
      → AreOfBook (check_quality_caps caps vaults)
  unfolding check_quality_caps
  check_quality_caps-AreOfBook caps vaults =
      flat_map-AreOfBook _
        (λ x.
          reported-AreOfBook x.0 (quality_findings x.1 caps) (quality_findings-IsNamed x.1 caps))
        (sort_by (λ (x : String × Vault N). codes x.0) vaults)
