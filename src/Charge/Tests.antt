-- ===== src/Charge/Tests.antt =====
-- The paymaster's charge at concrete inputs: a configuration with a prefund and a constant fee.
use open_allocator.Base.{ℕ, ◌≡◌, ◌≤◌, ◌<◌, refl, some, [], ◌∷◌, ◌++◌, replicate, All, arith}
use open_allocator.Base.Text.{to_hex}
use open_allocator.Base.Slices.{from_bytes}
use open_allocator.Charge.{UserOperationGas, max_token_charge, parse_erc20_paymaster_data}
use open_allocator.Charge.Bound.{Usage, IsWithin, charged, max_token_charge_bounds}
use open_allocator.Charge.Config.{Fields, IsLaid, laid, parse_erc20_paymaster_data-laid}

abbrev fields : Fields
fields = record {
  mode = 2;
  flags = 5;
  validity = 0 ∷ 0 ∷ 0 ∷ 0 ∷ 0 ∷ 1 ∷ 0 ∷ 0 ∷ 0 ∷ 0 ∷ 0 ∷ 2 ∷ [];
  token =
      170 ∷ 1 ∷ 2 ∷ 3 ∷ 4 ∷ 5 ∷ 6 ∷ 7 ∷ 8 ∷ 9 ∷ 10 ∷ 11 ∷ 12 ∷ 13 ∷ 14 ∷ 15 ∷ 16 ∷ 17 ∷ 18 ∷ 19
      ∷ [];
  post_op_gas = 0 ∷ 0 ∷ 0 ∷ 0 ∷ 0 ∷ 0 ∷ 0 ∷ 0 ∷ 0 ∷ 0 ∷ 0 ∷ 0 ∷ 0 ∷ 0 ∷ 117 ∷ 48 ∷ [];
  exchange_rate = replicate 30 0 ++ 1 ∷ 2 ∷ [];
  treasury = replicate 36 7;
  prefund = replicate 16 1;
  constant_fee = replicate 15 0 ++ 9 ∷ [];
  signature = 27 ∷ 28 ∷ [];
}

fields-IsLaid : IsLaid fields
unfolding replicate
fields-IsLaid = record {
  mode_erc20 = refl;
  validity_length = refl;
  token_length = refl;
  post_op_gas_length = refl;
  exchange_rate_length = refl;
  treasury_length = refl;
  prefund_length = refl;
  constant_fee_length = refl;
}

fields_bytes : All (λ b. b < 256) (laid fields)
unfolding replicate
fields_bytes = omega arith

parse_erc20_paymaster_data-laid_example :
    parse_erc20_paymaster_data (b'0' ∷ b'x' ∷ to_hex (laid fields))
    ≡ some (record {
      token = b'0' ∷ b'x' ∷ to_hex fields.token;
      post_op_gas = from_bytes fields.post_op_gas;
      exchange_rate = from_bytes fields.exchange_rate;
      constant_fee = from_bytes fields.constant_fee;
    })
parse_erc20_paymaster_data-laid_example =
    parse_erc20_paymaster_data-laid fields fields-IsLaid fields_bytes

abbrev gas : UserOperationGas
gas = record {
  call_gas_limit = 200000;
  verification_gas_limit = 100000;
  pre_verification_gas = 50000;
  paymaster_verification_gas_limit = some 40000;
  paymaster_post_op_gas_limit = some 30000;
  max_fee_per_gas = 1000000000;
}

abbrev usage : Usage
usage = record {
  verification = 80000;
  call = 150000;
  pre_verification = 50000;
  paymaster_verification = 40000;
  paymaster_post_op = 20000;
  unused = 60000;
  fee_per_gas = 900000000;
}

usage-IsWithin : IsWithin usage gas 40000 30000
usage-IsWithin = record {
  verification_le = omega arith;
  call_le = omega arith;
  pre_verification_le = omega arith;
  paymaster_verification_le = omega arith;
  paymaster_post_op_le = omega arith;
  unused_le = omega arith;
  fee_le = omega arith;
}

max_token_charge_bounds_example :
    (bound : ℕ) × (max_token_charge gas 30000 2500000000 0 ≡ some bound)
    × (charged usage 30000 2500000000 0 ≤ bound)
max_token_charge_bounds_example =
    max_token_charge_bounds usage gas 40000 30000 30000 2500000000 0 refl refl usage-IsWithin
