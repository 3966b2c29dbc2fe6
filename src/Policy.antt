-- ===== src/Policy.antt =====
-- core/types.py: the instruments, the policy and its knobs; core/eligibility.py: the findings.
use open_allocator.Base.{ℕ, String, Bool, Option, List}
use open_allocator.Base.Int.{ℤ}
pub mod Samples

-- Python's floats, with the operations and constants that the code uses of them. `is_close` is
-- `math.isclose` with `rel_tol=1e-9, abs_tol=1e-12`, `rounded` is Python's with its number of digits,
-- `round_whole` is `int(round(x))`, and `of_int` the float that an int is compared with.
pub record Floats (N : Type 0) : Type 0 where
  pub lt : N → N → Bool
  pub le : N → N → Bool
  pub add : N → N → N
  pub sub : N → N → N
  pub mul : N → N → N
  pub div : N → N → N
  pub rounded : ℕ → N → N
  pub round_whole : N → ℤ
  pub of_int : ℤ → N
  pub is_finite : N → Bool
  pub is_zero : N → Bool
  pub is_close : N → N → Bool
  pub nil : N
  pub unit : N
  pub infinity : N
  pub epsilon : N

-- `NumericRiskValue`
pub data NumericRisk (N : Type 0) : Type 0 where
  unknown : NumericRisk N
  missing : NumericRisk N
  measured : N → NumericRisk N

-- `RewardPriceBasis`
pub data Basis : Type 0 where
  traded emission no_reward unknown_basis : Basis

-- `PolicyScalar`
pub data Scalar (N : Type 0) : Type 0 where
  text : String → Scalar N
  whole : ℕ → Scalar N
  integer : ℤ → Scalar N
  number : N → Scalar N
  flag : Bool → Scalar N
  null : Scalar N

-- `PolicyValue`
pub data PolicyValue (N : Type 0) : Type 0 where
  single : Scalar N → PolicyValue N
  several : List (Scalar N) → PolicyValue N

pub record Finding (N : Type 0) : Type 0 where
  pub rule : String
  pub limit : PolicyValue N
  pub actual : PolicyValue N

-- The fields of `Vault` that a policy reads. An undisclosed curator is the text "Unknown", and a
-- date is its day number.
pub record Vault (N : Type 0) : Type 0 where
  pub instrument_id : String
  pub protocol : String
  pub chain_id : ℕ
  pub asset : String
  pub asset_category : Option String
  pub sector : Option String
  pub is_stablecoin : Option Bool
  pub tvl_usd : N
  pub apy_reward : Option N
  pub reward_price_basis : Option Basis
  pub curator : Option String
  pub reward_dependence : NumericRisk N
  pub is_levered : Bool
  pub max_leverage : Option N
  pub liquidation_threshold : Option N
  pub debt_asset : Option String
  pub reward_liquidity_usd : Option N
  pub apy_daily : List (ℕ × N)

pub record PolicyWallet : Type 0 where
  pub mode : String
  pub signer : String

pub record PolicyAllowed : Type 0 where
  pub protocols : Option (List String)
  pub chains : Option (List ℕ)
  pub asset_categories : Option (List String)
  pub stablecoin_only : Option Bool
  pub assets : Option (List String)
  pub curators : Option (List String)

pub record PolicyCaps (N : Type 0) : Type 0 where
  pub max_weight_per_instrument : N
  pub max_weight_per_protocol : N
  pub max_weight_per_curator : N
  pub max_weight_per_chain : N
  pub max_weight_per_sector : Option N
  pub min_effective_positions : Option N
  pub min_instrument_tvl_usd : N
  pub max_reward_dependence : N
  pub max_gross_leverage : Option N
  pub max_book_gross_exposure : Option N
  pub max_weight_levered : Option N
  pub min_health_factor : Option N
  pub min_depeg_buffer_bps : Option N
  pub min_reward_liquidity_usd : Option N

pub record PolicyGates (N : Type 0) : Type 0 where
  pub new_instrument_needs_approval : Bool
  pub autonomous_rebalance : Bool
  pub max_deploy_per_cycle_usd : N

pub record Policy (N : Type 0) : Type 0 where
  pub version : ℕ
  pub wallet : PolicyWallet
  pub allowed : PolicyAllowed
  pub caps : PolicyCaps N
  pub gates : PolicyGates N
