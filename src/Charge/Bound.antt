-- ===== src/Charge/Bound.antt =====
-- What an operation is charged for the gas that it used, against the bound at its limits.
use open_allocator.Base.{ℕ, ◌+◌, ◌*◌, ◌/◌, ◌≤◌, ◌≡◌, refl, some, arith}
use native.Mathlib.Nat.{mul-le-mul, mul-le-mul_right}
use open_allocator.Charge.{UserOperationGas, rate_scale, units_of, charge_of, max_token_charge}

-- The gas that an operation used, the execution gas that the contract counts as unused, and the price
-- of gas when it was included.
pub record Usage : Type 0 where
  pub verification : ℕ
  pub call : ℕ
  pub pre_verification : ℕ
  pub paymaster_verification : ℕ
  pub paymaster_post_op : ℕ
  pub unused : ℕ
  pub fee_per_gas : ℕ

-- Nothing was used or is counted beyond its limit, and gas was no dearer than the operation allows.
pub record IsWithin (u : Usage) (gas : UserOperationGas) (verification post : ℕ) : Type 0 where
  pub verification_le : u.verification ≤ gas.verification_gas_limit
  pub call_le : u.call ≤ gas.call_gas_limit
  pub pre_verification_le : u.pre_verification ≤ gas.pre_verification_gas
  pub paymaster_verification_le : u.paymaster_verification ≤ verification
  pub paymaster_post_op_le : u.paymaster_post_op ≤ post
  pub unused_le : u.unused ≤ gas.call_gas_limit + post
  pub fee_le : u.fee_per_gas ≤ gas.max_fee_per_gas

-- What `postOp` charges for, as docs/gasless-execution.md reads the contract: the gas that was used in
-- each of the five stages, a tenth of the unused execution gas, and the paymaster's own gas.
abbrev pub used_units : Usage → ℕ → ℕ
used_units u post_op_gas =
    u.verification
    + u.call
    + u.pre_verification
    + u.paymaster_verification
    + u.paymaster_post_op
    + u.unused * 10 / 100
    + post_op_gas

-- The charge in units of the gas token: the gas at its price, at the rate for a whole unit of the native
-- token, and the constant fee.
abbrev pub charged : Usage → ℕ → ℕ → ℕ → ℕ
charged u post_op_gas exchange_rate constant_fee =
    used_units u post_op_gas * u.fee_per_gas * exchange_rate / 1000000000000000000 + constant_fee

used_units_le :
    (u : Usage) (gas : UserOperationGas) (verification post post_op_gas : ℕ)
    → IsWithin u gas verification post
    → used_units u post_op_gas
      ≤ units_of gas.verification_gas_limit gas.call_gas_limit gas.pre_verification_gas verification
          post post_op_gas
used_units_le u gas verification post post_op_gas h = omega (
  arith, h.verification_le, h.call_le, h.pre_verification_le, h.paymaster_verification_le,
  h.unused_le, h.paymaster_post_op_le,
)

product_le : (a b c d e : ℕ) → a ≤ b → c ≤ d → a * c * e ≤ b * d * e
product_le a b c d e h k = mul-le-mul_right e (mul-le-mul h k)

scaled_le : (a b : ℕ) → a ≤ b → a / rate_scale ≤ b / rate_scale
scaled_le a b h = omega arith

charge_of_le :
    (a b c d rate fee : ℕ) → a ≤ b → c ≤ d → charge_of a c rate fee ≤ charge_of b d rate fee
charge_of_le a b c d rate fee h k =
    omega (arith, scaled_le (a * c * rate) (b * d * rate) (product_le a b c d rate h k))

-- Where the estimate has a limit for both paymaster stages, the bound exists, and what `postOp` charges an
-- operation, the penalty on any unused execution gas and the constant fee included, is at most the bound
-- where the operation stays within its limits and its highest fee, at the same rate and constant fee.
pub max_token_charge_bounds :
    (u : Usage) (gas : UserOperationGas) (verification post post_op_gas rate fee : ℕ)
    → gas.paymaster_verification_gas_limit ≡ some verification
    → gas.paymaster_post_op_gas_limit ≡ some post
    → IsWithin u gas verification post
    → (bound : ℕ) × (max_token_charge gas post_op_gas rate fee ≡ some bound)
      × (charged u post_op_gas rate fee ≤ bound)
unfolding max_token_charge
max_token_charge_bounds u gas verification post post_op_gas rate fee e f h = (
  charge_of
      (units_of gas.verification_gas_limit gas.call_gas_limit gas.pre_verification_gas verification
        post post_op_gas)
      gas.max_fee_per_gas rate fee,
  rw (e, f) refl,
  charge_of_le _ _ u.fee_per_gas gas.max_fee_per_gas rate fee
      (used_units_le u gas verification post post_op_gas h) h.fee_le,
)
