-- ===== src/Sizing/Tests.antt =====
-- The sizing at a concrete input: two deposits on a chain that sells one position.
use open_allocator.Base.{ℕ, ◌≡◌, refl, false, some, none, List, [], ◌∷◌, All, map}
use open_allocator.Base.Int.{pos, pos_part}
use open_allocator.Base.Outcome.{ok, err}
use open_allocator.Base.Text.{codes}
use open_allocator.Base.Equality.{number_equality}
use open_allocator.Base.Dict.{lookup}
use open_allocator.Funding.{conservative_output}
use open_allocator.Execution.{PlannedBundle, paymaster, assemble_plan}
use open_allocator.Sizing.Standings.{
  DepositRequest, ByChain, Market, is_short, standing, or_none, buys_from, wanted_sum, chain_order,
}
use open_allocator.Sizing.Sizes.{sized_on, budget_of, at_most}
use open_allocator.Sizing.{FittedPlan, fit}
use open_allocator.Sizing.Layouts.{IsWithinChains}
use open_allocator.Sizing.Attempts.{IsBuilt, fit-IsBuilt}
use open_allocator.Sizing.Fits.{IsAtMostWanted, spent_by, sized_on-spends}

abbrev first : DepositRequest
first = record { index = 0; chain_id = 1; token = codes "0xusdc"; wanted_raw = 70 }

abbrev second : DepositRequest
second = record { index = 1; chain_id = 1; token = codes "0xusdc"; wanted_raw = 50 }

abbrev withdrawal : PlannedBundle
withdrawal = record {
  bundle = record {
    bundle_id = "leg:2:vault:withdraw";
    action = "withdraw";
    digest = codes "d";
    leg_index = 2;
    instrument_id = "vault";
    account = codes "0xsafe";
    chain_id = 1;
    step_indexes = [];
    source = "1tx-calldata";
    endpoint = "GET /instruments/:instrumentId/calldata";
    token_in = record { address = codes "0xshare"; symbol = none; decimals = 18 };
    token_out = record { address = codes "0xUSDC"; symbol = none; decimals = 6 };
    amount = 40;
    quote_block = 100;
    expires_at = none;
    requires = [];
    leftovers = [];
    expected_out = some 40;
    min_out = some 39;
    protocol_gas = some 90000;
    simulated_out = none;
    simulation_scope = some "protocol_bundle";
    simulation_engine = some "wallet_neutral_atomic";
    bridge = none;
    is_loop = false;
  };
  steps = [];
}

-- 80 units are held, and the sell is planned as 40.
abbrev market : Market
market = record {
  idle = λ c. some 80;
  usdc_address = λ c. some (codes "0xusdc");
  sell_raw = λ b. 40;
  slippage = pos 50;
  request = λ r n. err paymaster;
  prepare_plan = λ p. err paymaster;
}

abbrev sells : ByChain (List PlannedBundle)
sells = (1, withdrawal ∷ []) ∷ []

abbrev buys : ByChain (List DepositRequest)
buys = (1, first ∷ second ∷ []) ∷ []

collected : buys_from [] (first ∷ second ∷ []) ≡ buys
unfolding buys_from
collected = refl

-- The minimum output is one unit less, and five are reserved for gas.
sizes :
    map (λ (e : DepositRequest × ℕ). e.1) (sized_on market sells buys ((1, 5) ∷ []) 1)
    ≡ 70 ∷ 44 ∷ []
unfolding sized_on conservative_output
sizes = refl

not_short : is_short (standing market sells buys 1) ≡ false
unfolding standing
not_short = refl

sized_on-spends_example :
    All IsAtMostWanted (sized_on market sells buys ((1, 5) ∷ []) 1)
    × (spent_by (sized_on market sells buys ((1, 5) ∷ []) 1)
        ≡ at_most
            (wanted_sum (or_none (lookup 1 buys)))
            (pos_part (budget_of market sells ((1, 5) ∷ []) 1 80)))
sized_on-spends_example = sized_on-spends market sells buys ((1, 5) ∷ []) 1 80 refl not_short

-- A market where every deposit is a copy of the withdrawal's bundle, and every plan prepares.
abbrev open_market : Market
open_market = record market {
  request = λ r n. ok withdrawal;
  prepare_plan = λ p. ok (record { preparations = []; funding = []; blockers = [] });
}

abbrev fitted : FittedPlan
fitted = record {
  plan = assemble_plan (withdrawal ∷ withdrawal ∷ withdrawal ∷ []);
  preparation = record { preparations = []; funding = []; blockers = [] };
  reserve = [];
}

fits : fit open_market sells (first ∷ second ∷ []) ≡ ok fitted
unfolding fit conservative_output
fits = refl

fit-IsBuilt_example :
    IsWithinChains open_market sells
      (buys_from [] (first ∷ second ∷ []))
      (map (λ (e : ℕ × Unit {0}). e.0) (chain_order sells (first ∷ second ∷ [])))
    × IsBuilt open_market sells
        (buys_from [] (first ∷ second ∷ []))
        (map (λ (e : ℕ × Unit {0}). e.0) (chain_order sells (first ∷ second ∷ [])))
        fitted
fit-IsBuilt_example = fit-IsBuilt open_market sells (first ∷ second ∷ []) fitted fits
