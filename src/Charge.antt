-- ===== src/Charge.antt =====
-- exec/paymaster_charge.py: the most gas token that Pimlico's ERC-20 paymaster can charge an operation.
use open_allocator.Base.{
  ℕ, ◌+◌, ◌*◌, ◌/◌, ◌%◌, Bool, true, false, ◌&&◌, Option, none, some, List, [], ◌∷◌, ◌++◌, length,
  drop, ltb, ◌==◌, if◌then◌else◌,
}
use open_allocator.Base.Text.{Text, Bytes, to_hex, from_hex}
use open_allocator.Base.Slices.{slice, from_bytes}
pub mod Bound
pub mod Config
mod Tests

-- `Erc20PaymasterConfig`
pub record Erc20PaymasterConfig : Type 0 where
  pub token : Text
  pub post_op_gas : ℕ
  pub exchange_rate : ℕ
  pub constant_fee : ℕ

-- The fields of `UserOperationGas` that the bound reads.
pub record UserOperationGas : Type 0 where
  pub call_gas_limit : ℕ
  pub verification_gas_limit : ℕ
  pub pre_verification_gas : ℕ
  pub paymaster_verification_gas_limit : Option ℕ
  pub paymaster_post_op_gas_limit : Option ℕ
  pub max_fee_per_gas : ℕ

-- `_MODE_BYTES + _FIXED_CONFIG_BYTES`, and the second alone
abbrev pub config_end : ℕ
config_end = 118

abbrev pub fixed_config_bytes : ℕ
fixed_config_bytes = 117

abbrev pub erc20_mode : ℕ
erc20_mode = 1

abbrev pub penalty_percent : ℕ
penalty_percent = 10

-- `10**18`
abbrev pub rate_scale : ℕ
rate_scale = 1000000000000000000

-- `flags & _PREFUND_PRESENT` and `flags & _CONSTANT_FEE_PRESENT`
abbrev pub has_prefund : ℕ → Bool
has_prefund flags = flags / 4 % 2 == 1

abbrev pub has_constant_fee : ℕ → Bool
has_constant_fee flags = flags % 2 == 1

abbrev pub fee_start : ℕ → ℕ
fee_start flags = if has_prefund flags then fixed_config_bytes + 16 else fixed_config_bytes

-- The fee, or none where the bytes are too short for it.
unfoldable pub read_fee : ℕ → Bytes → Option ℕ
unfolding slice from_bytes
read_fee flags config =
    if has_constant_fee flags
    then if ltb (length config) (fee_start flags + 16)
      then none
      else some (from_bytes (slice (fee_start flags) (fee_start flags + 16) config))
    else some 0

abbrev pub with_fee : Bytes → Option ℕ → Option Erc20PaymasterConfig
with_fee config none = none
with_fee config (some fee) = some (record {
  token = b'0' ∷ b'x' ∷ to_hex (slice 13 33 config);
  post_op_gas = from_bytes (slice 33 49 config);
  exchange_rate = from_bytes (slice 49 81 config);
  constant_fee = fee;
})

abbrev pub first_byte : Bytes → ℕ
first_byte [] = 0
first_byte (b ∷ bs) = b

-- The bytes of `paymasterData`, after the mode.
unfoldable pub parse_data : Bytes → Option Erc20PaymasterConfig
unfolding read_fee slice from_bytes to_hex drop
parse_data raw =
    if ltb (length raw) config_end
    then none
    else if first_byte raw / 2 == erc20_mode
    then with_fee (drop 1 raw) (read_fee (first_byte (drop 1 raw)) (drop 1 raw))
    else none

abbrev parse_bytes : Option Bytes → Option Erc20PaymasterConfig
parse_bytes none = none
parse_bytes (some raw) = parse_data raw

abbrev is_hex_prefix : ℕ → ℕ → Bool
is_hex_prefix a b = a == b'0' && b == b'x'

-- `parse_erc20_paymaster_data` on a text
unfoldable pub parse_erc20_paymaster_data : Text → Option Erc20PaymasterConfig
unfolding parse_data from_hex
parse_erc20_paymaster_data [] = none
parse_erc20_paymaster_data (a ∷ []) = none
parse_erc20_paymaster_data (a ∷ b ∷ t) =
    if is_hex_prefix a b then parse_bytes (from_hex t) else none

abbrev pub units_of : ℕ → ℕ → ℕ → ℕ → ℕ → ℕ → ℕ
units_of verification call pre paymaster_verification paymaster_post post_op_gas =
    verification
    + call
    + pre
    + paymaster_verification
    + paymaster_post
    + (call + paymaster_post) * penalty_percent / 100
    + post_op_gas

abbrev pub charge_of : ℕ → ℕ → ℕ → ℕ → ℕ
charge_of units fee_per_gas exchange_rate constant_fee =
    units * fee_per_gas * exchange_rate / rate_scale + constant_fee

-- `max_token_charge`
unfoldable pub max_token_charge : UserOperationGas → ℕ → ℕ → ℕ → Option ℕ
max_token_charge gas post_op_gas exchange_rate constant_fee =
    elim gas.paymaster_verification_gas_limit [
      | none ↦ none
      | some verification ↦ elim gas.paymaster_post_op_gas_limit [
        | none ↦ none
        | some post ↦ some (
            charge_of
              (units_of gas.verification_gas_limit gas.call_gas_limit gas.pre_verification_gas
                verification post post_op_gas)
              gas.max_fee_per_gas exchange_rate constant_fee)
      ]
    ]
