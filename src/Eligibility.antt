-- ===== src/Eligibility.antt =====
-- core/eligibility.py: the test of one instrument along each axis of a policy, and the lists of
-- findings for the three scopes.
use open_allocator.Base.{
  ℕ, Bool, true, false, not, ◌&&◌, ◌||◌, Option, none, some, String, List, [], ◌∷◌, ◌++◌, map,
  if◌then◌else◌,
}
use open_allocator.Base.Equality.{Equality, contains, string_equality, number_equality}
use open_allocator.Policy.{
  Floats, NumericRisk, unknown, missing, measured, Basis, no_reward, Scalar, text, whole, number,
  flag, null, PolicyValue, single, several, Finding, Vault, PolicyAllowed, PolicyCaps, Policy,
}
pub mod Axes
pub mod Admission
mod Tests

abbrev pub holds_one {ℓ} : {A : Type ℓ} ⦃e : Equality A⦄ → List A → Option A → Bool
holds_one xs none = false
holds_one xs (some a) = contains xs a

-- `x is True`
abbrev pub is_true : Option Bool → Bool
is_true none = false
is_true (some b) = b

abbrev is_unrewarded : Option Basis → Bool
is_unrewarded (some no_reward) = true
is_unrewarded _ = false

module _ {N : Type 0} where
  -- `policy_value`, of a numeric risk value
  abbrev pub policy_value : NumericRisk N → Scalar N
  policy_value unknown = text "Unknown"
  policy_value missing = null
  policy_value (measured x) = number x

  -- `policy_number`
  abbrev pub policy_number : NumericRisk N → Option N
  policy_number unknown = none
  policy_number missing = none
  policy_number (measured x) = some x

  abbrev or_null {ℓ} : {A : Type ℓ} → (A → Scalar N) → Option A → Scalar N
  or_null inject none = null
  or_null inject (some a) = inject a

  -- `_allowlist`, whose actual value may be missing
  unfoldable pub allowlist :
      {A : Type 0} ⦃e : Equality A⦄
      → (A → Scalar N)
      → String
      → Option (List A)
      → Option A
      → Option (Finding N)
  allowlist inject rule none actual = none
  allowlist inject rule (some xs) actual =
      if holds_one xs actual
      then none
      else some (record {
        rule = rule;
        limit = several (map inject xs);
        actual = single (or_null inject actual);
      })

  abbrev pub protocol_axis : Vault N → PolicyAllowed → Option (Finding N)
  protocol_axis v p = allowlist text "allowed_protocols" p.protocols (some v.protocol)

  abbrev pub chain_axis : Vault N → PolicyAllowed → Option (Finding N)
  chain_axis v p = allowlist whole "allowed_chains" p.chains (some v.chain_id)

  abbrev pub asset_axis : Vault N → PolicyAllowed → Option (Finding N)
  asset_axis v p = allowlist text "allowed_assets" p.assets (some v.asset)

  abbrev pub asset_category_axis : Vault N → PolicyAllowed → Option (Finding N)
  asset_category_axis v p =
      allowlist text "allowed_asset_categories" p.asset_categories v.asset_category

  abbrev pub curator_axis : Vault N → PolicyAllowed → Option (Finding N)
  curator_axis v p = allowlist text "allowed_curators" p.curators v.curator

  abbrev pub stablecoin_axis : Vault N → PolicyAllowed → Option (Finding N)
  stablecoin_axis v p =
      if is_true p.stablecoin_only && not (is_true v.is_stablecoin)
      then some (record {
        rule = "allowed_stablecoin_only";
        limit = single (flag true);
        actual = single (or_null flag v.is_stablecoin);
      })
      else none

module _ {N : Type 0} ⦃F : Floats N⦄ where
  abbrev bounded_by : String → N → Scalar N → Finding N
  bounded_by rule limit actual = record {
    rule = rule;
    limit = single (number limit);
    actual = single actual;
  }

  abbrev pub tvl_axis : Vault N → PolicyCaps N → Option (Finding N)
  tvl_axis v c =
      if F.lt v.tvl_usd c.min_instrument_tvl_usd
      then some (bounded_by "min_instrument_tvl_usd" c.min_instrument_tvl_usd (number v.tvl_usd))
      else none

  -- `_numeric_max`
  abbrev pub numeric_max : String → N → NumericRisk N → Option (Finding N)
  numeric_max rule limit unknown = some (bounded_by rule limit (text "Unknown"))
  numeric_max rule limit missing = some (bounded_by rule limit null)
  numeric_max rule limit (measured x) =
      if F.lt (F.add limit F.epsilon) x then some (bounded_by rule limit (number x)) else none

  abbrev pub reward_dependence_axis : Vault N → PolicyCaps N → Option (Finding N)
  reward_dependence_axis v c =
      if v.is_levered
      then none
      else numeric_max "max_reward_dependence" c.max_reward_dependence v.reward_dependence

  abbrev pub levered_limit : Bool → Option N → Option (Finding N)
  levered_limit false limit = none
  levered_limit true none = none
  levered_limit true (some limit) =
      if F.le limit F.epsilon
      then some (bounded_by "max_weight_levered" limit (text "levered"))
      else none

  abbrev pub levered_axis : Vault N → PolicyCaps N → Option (Finding N)
  levered_axis v c = levered_limit v.is_levered c.max_weight_levered

  abbrev not_positive : Option N → Bool
  not_positive none = false
  not_positive (some apy) = F.le apy F.nil

  -- `_pays_no_reward`
  unfoldable pub pays_no_reward : Vault N → Bool
  pays_no_reward v = is_unrewarded v.reward_price_basis || not_positive v.apy_reward

  abbrev pub liquidity_floor : N → Option N → Option (Finding N)
  liquidity_floor floor none = some (bounded_by "min_reward_liquidity_usd" floor (text "Unknown"))
  liquidity_floor floor (some volume) =
      if F.lt volume (F.sub floor F.epsilon)
      then some (bounded_by "min_reward_liquidity_usd" floor (number volume))
      else none

  abbrev pub liquidity_limit : Bool → Option N → Bool → Option N → Option (Finding N)
  liquidity_limit false floor unrewarded volume = none
  liquidity_limit true none unrewarded volume = none
  liquidity_limit true (some floor) true volume = none
  liquidity_limit true (some floor) false volume = liquidity_floor floor volume

  -- `_min_reward_liquidity`
  abbrev pub liquidity_axis : Vault N → PolicyCaps N → Option (Finding N)
  liquidity_axis v c =
      liquidity_limit v.is_levered c.min_reward_liquidity_usd (pays_no_reward v)
        v.reward_liquidity_usd

module _ {ℓ} {A : Type ℓ} where
  -- `[x for x in xs if x is not None]`
  unfoldable pub present : List (Option A) → List A
  present [] = []
  present (none ∷ xs) = present xs
  present (some a ∷ xs) = a ∷ present xs

module _ {N : Type 0} where
  -- The discovery axes leave out the curator.
  abbrev pub discovery_allowlist_axes : Vault N → PolicyAllowed → List (Option (Finding N))
  discovery_allowlist_axes v p =
      protocol_axis v p
      ∷ chain_axis v p
      ∷ asset_axis v p
      ∷ asset_category_axis v p
      ∷ stablecoin_axis v p
      ∷ []

  abbrev pub allowlist_axes : Vault N → PolicyAllowed → List (Option (Finding N))
  allowlist_axes v p =
      protocol_axis v p
      ∷ chain_axis v p
      ∷ asset_axis v p
      ∷ asset_category_axis v p
      ∷ stablecoin_axis v p
      ∷ curator_axis v p
      ∷ []

  unfoldable pub allowlist_findings : Vault N → PolicyAllowed → List (Finding N)
  unfolding present
  allowlist_findings v p = present (allowlist_axes v p)

abbrev is_empty {ℓ} : {A : Type ℓ} → List A → Bool
is_empty [] = true
is_empty (x ∷ xs) = false

module _ {N : Type 0} ⦃F : Floats N⦄ where
  abbrev pub quality_axes : Vault N → PolicyCaps N → List (Option (Finding N))
  quality_axes v c =
      tvl_axis v c ∷ reward_dependence_axis v c ∷ levered_axis v c ∷ liquidity_axis v c ∷ []

  unfoldable pub quality_findings : Vault N → PolicyCaps N → List (Finding N)
  unfolding present
  quality_findings v c = present (quality_axes v c)

  unfoldable pub candidate_findings : Vault N → Policy N → List (Finding N)
  unfolding allowlist_findings quality_findings
  candidate_findings v p = allowlist_findings v p.allowed ++ quality_findings v p.caps

  abbrev first_rule : List (Finding N) → Option String
  first_rule [] = none
  first_rule (f ∷ fs) = some f.rule

  unfoldable pub candidate_exclusion : Vault N → Policy N → Option String
  unfolding candidate_findings
  candidate_exclusion v p = first_rule (candidate_findings v p)

  unfoldable pub discovery_findings : Vault N → Policy N → List (Finding N)
  unfolding present
  discovery_findings v p =
      present (discovery_allowlist_axes v p.allowed) ++ present (tvl_axis v p.caps ∷ [])

  unfoldable pub discovery_eligible : Vault N → Policy N → Bool
  unfolding discovery_findings
  discovery_eligible v p = is_empty (discovery_findings v p)
