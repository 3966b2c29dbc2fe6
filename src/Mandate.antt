-- ===== src/Mandate.antt =====
-- core/mandate.py: the checks of a mandate, the policy it derived, and the baseline it narrows.
use open_allocator.Base.{
  ℕ, Bool, true, false, not, ◌&&◌, ◌||◌, Option, none, some, String, List, [], ◌∷◌, ◌++◌, all, any,
  is_some, filter, map, str_eq, if◌then◌else◌,
}
use open_allocator.Base.Equality.{Equality, is_subset, same_list, string_equality, number_equality}
use open_allocator.Base.Outcome.{Outcome, ok, err, ◌>>=◌}
use open_allocator.Policy.{Floats, Policy}
use open_allocator.Eligibility.{present}
pub mod Comparisons
pub mod Tighten
pub mod Checks
pub mod Validation
mod Tests

-- A knob that moved; the texts of the two values are left out.
pub data Movement : Type 0 where
  tightened loosened : String → Movement

-- A row of `CEILINGS` or `FLOORS`: the knob, how it is read, and what its absence stands for.
pub record Bound (N : Type 0) : Type 0 where
  pub knob : String
  pub read : Policy N → Option N
  pub when_absent : N

module _ {N : Type 0} ⦃F : Floats N⦄ where
  abbrev pub ceilings : List (Bound N)
  ceilings =
      record {
        knob = "caps.max_weight_per_instrument";
        read = λ p. some p.caps.max_weight_per_instrument;
        when_absent = F.unit;
      }
      ∷ record {
        knob = "caps.max_weight_per_protocol";
        read = λ p. some p.caps.max_weight_per_protocol;
        when_absent = F.unit;
      }
      ∷ record {
        knob = "caps.max_weight_per_curator";
        read = λ p. some p.caps.max_weight_per_curator;
        when_absent = F.unit;
      }
      ∷ record {
        knob = "caps.max_weight_per_chain";
        read = λ p. some p.caps.max_weight_per_chain;
        when_absent = F.unit;
      }
      ∷ record {
        knob = "caps.max_weight_per_sector";
        read = λ p. p.caps.max_weight_per_sector;
        when_absent = F.unit;
      }
      ∷ record {
        knob = "caps.max_reward_dependence";
        read = λ p. some p.caps.max_reward_dependence;
        when_absent = F.unit;
      }
      ∷ record {
        knob = "caps.max_gross_leverage";
        read = λ p. p.caps.max_gross_leverage;
        when_absent = F.infinity;
      }
      ∷ record {
        knob = "caps.max_book_gross_exposure";
        read = λ p. p.caps.max_book_gross_exposure;
        when_absent = F.infinity;
      }
      ∷ record {
        knob = "caps.max_weight_levered";
        read = λ p. p.caps.max_weight_levered;
        when_absent = F.unit;
      }
      ∷ record {
        knob = "gates.max_deploy_per_cycle_usd";
        read = λ p. some p.gates.max_deploy_per_cycle_usd;
        when_absent = F.infinity;
      }
      ∷ []

  abbrev pub floors : List (Bound N)
  floors =
      record {
        knob = "caps.min_effective_positions";
        read = λ p. p.caps.min_effective_positions;
        when_absent = F.nil;
      }
      ∷ record {
        knob = "caps.min_instrument_tvl_usd";
        read = λ p. some p.caps.min_instrument_tvl_usd;
        when_absent = F.nil;
      }
      ∷ record {
        knob = "caps.min_health_factor";
        read = λ p. p.caps.min_health_factor;
        when_absent = F.unit;
      }
      ∷ record {
        knob = "caps.min_depeg_buffer_bps";
        read = λ p. p.caps.min_depeg_buffer_bps;
        when_absent = F.nil;
      }
      ∷ record {
        knob = "caps.min_reward_liquidity_usd";
        read = λ p. p.caps.min_reward_liquidity_usd;
        when_absent = F.nil;
      }
      ∷ []

  -- `_absent_is_permissive`
  abbrev pub or_absent : Option N → N → N
  or_absent none when_absent = when_absent
  or_absent (some x) when_absent = x

  abbrev pub bound_of : Bound N → Policy N → N
  bound_of k p = or_absent (k.read p) k.when_absent

  abbrev pub is_stricter : Bool → N → N → Bool
  is_stricter true derived baseline = F.lt baseline derived
  is_stricter false derived baseline = F.lt derived baseline

  -- `_compare_bound`
  unfoldable pub compare_bound : Bool → Policy N → Policy N → Bound N → Option Movement
  compare_bound floor derived baseline k =
      if F.is_close (bound_of k derived) (bound_of k baseline)
      then none
      else if is_stricter floor (bound_of k derived) (bound_of k baseline)
      then some (tightened k.knob)
      else some (loosened k.knob)

-- `_compare_allowlist`
unfoldable pub compare_allowlist :
    {A : Type 0} ⦃e : Equality A⦄ → String → Option (List A) → Option (List A) → Option Movement
compare_allowlist knob none none = none
compare_allowlist knob none (some ys) = some (loosened knob)
compare_allowlist knob (some xs) none = some (tightened knob)
compare_allowlist knob (some xs) (some ys) =
    if same_list xs ys
    then none
    else if is_subset xs ys
    then some (tightened knob)
    else some (loosened knob)

abbrev is_flag : Bool → Option Bool → Bool
is_flag restricting none = false
is_flag true (some b) = b
is_flag false (some b) = not b

-- `_compare_flag`
unfoldable pub compare_flag : String → Bool → Option Bool → Option Bool → Option Movement
compare_flag knob restricting derived baseline = elim (is_flag restricting derived) [
  | true ↦ if is_flag restricting baseline then none else some (tightened knob)
  | false ↦ if is_flag restricting baseline then some (loosened knob) else none
]

-- `_compare_fixed`
unfoldable pub compare_fixed : {A : Type 0} ⦃e : Equality A⦄ → String → A → A → Option Movement
compare_fixed ⦃e⦄ knob derived baseline =
    if e.same derived baseline then none else some (loosened knob)

abbrev pub is_loosened : Movement → Bool
is_loosened (loosened k) = true
is_loosened (tightened k) = false

module _ {N : Type 0} ⦃F : Floats N⦄ where
  abbrev pub allowlist_movements : Policy N → Policy N → List (Option Movement)
  allowlist_movements d b =
      compare_allowlist "allowed.protocols" d.allowed.protocols b.allowed.protocols
      ∷ compare_allowlist "allowed.chains" d.allowed.chains b.allowed.chains
      ∷ compare_allowlist "allowed.asset_categories" d.allowed.asset_categories
          b.allowed.asset_categories
      ∷ compare_allowlist "allowed.assets" d.allowed.assets b.allowed.assets
      ∷ compare_allowlist "allowed.curators" d.allowed.curators b.allowed.curators
      ∷ []

  abbrev pub flag_movements : Policy N → Policy N → List (Option Movement)
  flag_movements d b =
      compare_flag "allowed.stablecoin_only" true d.allowed.stablecoin_only
        b.allowed.stablecoin_only
      ∷ compare_flag "gates.new_instrument_needs_approval" true
          (some d.gates.new_instrument_needs_approval) (some b.gates.new_instrument_needs_approval)
      ∷ compare_flag "gates.autonomous_rebalance" false (some d.gates.autonomous_rebalance)
          (some b.gates.autonomous_rebalance)
      ∷ []

  abbrev pub fixed_movements : Policy N → Policy N → List (Option Movement)
  fixed_movements d b =
      compare_fixed "version" d.version b.version
      ∷ compare_fixed "wallet.mode" d.wallet.mode b.wallet.mode
      ∷ compare_fixed "wallet.signer" d.wallet.signer b.wallet.signer
      ∷ []

  -- What `_check_can_only_tighten` gathers, in its order.
  unfoldable pub movements : Policy N → Policy N → List (Option Movement)
  movements d b =
      map (compare_bound false d b) ceilings
      ++ (map (compare_bound true d b) floors
          ++ (allowlist_movements d b ++ (flag_movements d b ++ fixed_movements d b)))
