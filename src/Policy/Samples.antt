-- ===== src/Policy/Samples.antt =====
-- A policy, a narrower one, and an instrument, with numbers in hundredths.
use open_allocator.Base.{ℕ, ◌+◌, ◌-◌, ◌*◌, ◌/◌, true, false, none, some, [], ◌∷◌, ltb, leb, ◌==◌}
use open_allocator.Base.Int.{pos, pos_part}
use open_allocator.Policy.{Floats, measured, traded, Vault, PolicyAllowed, PolicyCaps, Policy}

instance abbrev pub hundredths : Floats ℕ
hundredths = record {
  lt = ltb;
  le = leb;
  add = ◌+◌;
  sub = ◌-◌;
  mul = λ a b. a * b / 100;
  div = λ a b. a * 100 / b;
  rounded = λ digits a. a;
  round_whole = λ a. pos (a / 100);
  of_int = λ i. pos_part i * 100;
  is_finite = λ a. true;
  is_zero = λ a. a == 0;
  is_close = ◌==◌;
  nil = 0;
  unit = 100;
  infinity = 1000000000;
  epsilon = 0;
}

abbrev pub vault : Vault ℕ
vault = record {
  instrument_id = "aave:1:usdc";
  protocol = "aave";
  chain_id = 1;
  asset = "USDC";
  asset_category = some "stablecoin";
  sector = some "lending";
  is_stablecoin = some true;
  tvl_usd = 900;
  apy_reward = none;
  reward_price_basis = some traded;
  curator = some "Unknown";
  reward_dependence = measured 20;
  is_levered = false;
  max_leverage = none;
  liquidation_threshold = none;
  debt_asset = none;
  reward_liquidity_usd = none;
  apy_daily = [];
}

abbrev caps : PolicyCaps ℕ
caps = record {
  max_weight_per_instrument = 40;
  max_weight_per_protocol = 60;
  max_weight_per_curator = 60;
  max_weight_per_chain = 70;
  max_weight_per_sector = none;
  min_effective_positions = none;
  min_instrument_tvl_usd = 500;
  max_reward_dependence = 50;
  max_gross_leverage = some 300;
  max_book_gross_exposure = none;
  max_weight_levered = some 10;
  min_health_factor = some 120;
  min_depeg_buffer_bps = none;
  min_reward_liquidity_usd = none;
}

abbrev allowed : PolicyAllowed
allowed = record {
  protocols = some ("aave" ∷ "morpho" ∷ []);
  chains = none;
  asset_categories = none;
  stablecoin_only = some true;
  assets = none;
  curators = none;
}

abbrev pub baseline : Policy ℕ
baseline = record {
  version = 1;
  wallet = record { mode = "eoa"; signer = "safe" };
  allowed = allowed;
  caps = caps;
  gates = record {
    new_instrument_needs_approval = true;
    autonomous_rebalance = false;
    max_deploy_per_cycle_usd = 100000;
  };
}

-- Fewer protocols, one chain, a lower weight and a higher floor.
abbrev pub derived : Policy ℕ
derived = record baseline {
  allowed = record allowed { protocols = some ("aave" ∷ []); chains = some (1 ∷ 10 ∷ []) };
  caps = record caps { max_weight_per_chain = 50; min_instrument_tvl_usd = 800 };
}
