-- ===== src/Funding/Tests.antt =====
-- A withdrawal whose proceeds a deposit of the same operation spends.
use open_allocator.Base.{◌≡◌, ◌↔◌, refl, true, false, none, some, [], ◌∷◌, All, ℕ, Option, seq_eq}
use open_allocator.Base.Int.{pos, ◌+ℤ◌, ◌-ℤ◌, max_ℤ}
use open_allocator.Base.Text.{codes, casefold}
use open_allocator.Bundle.{BundleToken, TxBundle}
use open_allocator.Funding.{BalanceKey, LedgerOperation, check, movements, walk, key_equality}
use open_allocator.Funding.Reading.{check_operations, is_funded}
use open_allocator.Funding.Solvency.{IsOk, check_iff}
use open_allocator.Funding.Balances.{Runs, from_read}

abbrev usdc : BundleToken
usdc = record { address = codes "0xUSDC"; symbol = none; decimals = 6 }

abbrev share : BundleToken
share = record { address = codes "0xSHARE"; symbol = none; decimals = 18 }

abbrev withdrawal : TxBundle
withdrawal = record {
  bundle_id = "leg:0:vault:withdraw";
  action = "withdraw";
  digest = codes "d0";
  leg_index = 0;
  instrument_id = "vault";
  account = codes "0xSafe";
  chain_id = 1;
  step_indexes = 0 ∷ [];
  source = "1tx-calldata";
  endpoint = "GET /instruments/:instrumentId/calldata";
  token_in = share;
  token_out = usdc;
  amount = 10;
  quote_block = 100;
  expires_at = none;
  requires = record { token = codes "0xSHARE"; amount = 10 } ∷ [];
  leftovers = [];
  expected_out = some 100;
  min_out = none;
  protocol_gas = some 90000;
  simulated_out = none;
  simulation_scope = some "protocol_bundle";
  simulation_engine = some "wallet_neutral_atomic";
  bridge = none;
  is_loop = false;
}

abbrev deposit : TxBundle
deposit = record withdrawal {
  bundle_id = "leg:1:other:deposit";
  action = "deposit";
  token_in = usdc;
  token_out = share;
  requires = record { token = codes "0xusdc"; amount = 120 } ∷ [];
  expected_out = none;
}

abbrev operation : LedgerOperation
operation = record {
  chain_id = 1;
  bundles = withdrawal ∷ deposit ∷ [];
  gas_token = some (codes "0xUSDC");
  gas_charge_raw = some 5;
}

-- The account holds the shares and 26 units of USDC, one more than is needed at 0% slippage.
abbrev reader : BalanceKey → Option ℕ
reader key =
    elim (key_equality.same key
      (record { chain_id = 1; account = codes "0xsafe"; token = codes "0xshare" })) [
        | true ↦ some 10
        | false ↦ some 26
      ]

enough : is_funded (check_operations (operation ∷ []) reader (pos 0) []) ≡ true
unfolding is_funded check_operations walk ◌+ℤ◌ ◌-ℤ◌ max_ℤ key_equality casefold seq_eq
enough = refl

-- At a slippage of 2% the proceeds are credited as 98.
not_enough : is_funded (check_operations (operation ∷ []) reader (pos 200) []) ≡ false
unfolding is_funded check_operations walk ◌+ℤ◌ ◌-ℤ◌ max_ℤ key_equality casefold seq_eq
not_enough = refl

check_iff_example :
    All IsOk (check (operation ∷ []) reader (pos 0))
    ↔ Runs (from_read reader) (movements (operation ∷ []) (pos 0))
check_iff_example = check_iff (operation ∷ []) reader (pos 0)
