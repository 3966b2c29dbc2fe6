-- ===== src/Calldata/Types.antt =====
-- exec/client.py: the queries and responses of the calldata API, and exec/calldata.py: the errors.
-- Amounts are numbers here, and `max_amount` is the text `max`.
use open_allocator.Base.{ℕ, Bool, Option, String, List}
use open_allocator.Base.Text.{Text}
use open_allocator.Base.Outcome.{Outcome}
use open_allocator.Bundle.{BundleToken, BundleRequirement, BundleLeftover}
use open_allocator.Cctp.{Error, Invalid}

-- `CalldataValidationError`, with `CalldataExpiredError` as its last two; `CalldataAmountError`,
-- `CalldataUnsupportedError`, the `ValueError` of a model that does not validate, and what the
-- client or the decoding raises besides.
pub data CalldataError : Type 0 where
  mismatch : String → CalldataError
  undecodable_burn : Invalid → CalldataError
  wrong_receive_step not_rebuilt_here : String → CalldataError
  expired expiring : CalldataError
  unknown_usdc unknown_decimals : ℕ → CalldataError
  different_decimals : List ℕ → CalldataError
  nothing_minted : CalldataError
  referral_unsupported : CalldataError
  bad_query bad_response : String → CalldataError
  from_client : String → CalldataError
  from_cctp : Error → CalldataError

pub record InstrumentCalldataQuery : Type 0 where
  pub action : String
  pub account : Text
  pub amount : ℕ
  pub slippage_bps : Option ℕ

pub record BridgeCalldataQuery : Type 0 where
  pub from_chain_id : ℕ
  pub to_chain_id : ℕ
  pub amount : ℕ
  pub account : Text
  pub fast : Bool

pub record CalldataCall : Type 0 where
  pub to : Text
  pub payload : Text
  pub value : ℕ
  pub chain_id : ℕ
  pub type_name : String

pub record BundleSimulation : Type 0 where
  pub scope : String
  pub engine : String
  pub gas_used : ℕ
  pub quote_block : ℕ
  pub token_out_delta : ℕ

pub record InstrumentCalldataResponse : Type 0 where
  pub instrument_id : String
  pub chain_id : ℕ
  pub account : Text
  pub action : String
  pub token_in : BundleToken
  pub token_out : BundleToken
  pub amount_in : ℕ
  pub expected_out : Option ℕ
  pub min_out : Option ℕ
  pub expires_at : Option ℕ
  pub quote_block : ℕ
  pub requires : List BundleRequirement
  pub leftovers : List BundleLeftover
  pub calls : List CalldataCall
  pub simulation : BundleSimulation

pub record BridgeCalldataResponse : Type 0 where
  pub from_chain_id : ℕ
  pub to_chain_id : ℕ
  pub source_domain : ℕ
  pub destination_domain : ℕ
  pub account : Text
  pub amount : ℕ
  pub token : Text
  pub fast : Bool
  pub max_fee : ℕ
  pub min_finality_threshold : ℕ
  pub quote_block : ℕ
  pub requires : List BundleRequirement
  pub calls : List CalldataCall
  pub simulation : BundleSimulation

-- The attributes of the configuration that are read; none where an attribute is not set.
pub record CalldataConfig : Type 0 where
  pub slippage_bps : Option ℕ
  pub min_calldata_ttl_seconds : Option ℕ
  pub fast_transfer : Bool
  pub referral_fee_bps : Option ℕ
  pub referral_wallet : Option Text

-- The answers of the API, as JSON that has the fields of the response.
pub record Client : Type 0 where
  pub instrument_calldata :
      String → InstrumentCalldataQuery → Outcome CalldataError InstrumentCalldataResponse
  pub bridge_calldata : BridgeCalldataQuery → Outcome CalldataError BridgeCalldataResponse

pub record DepositToken : Type 0 where
  pub chain_id : ℕ
  pub address : Text
  pub decimals : ℕ

-- The fields of `Vault` that tell the decimals of a token.
pub record VaultToken : Type 0 where
  pub chain_id : ℕ
  pub token_address : Option Text
  pub token_decimals : Option ℕ
