-- ===== src/Cctp/Types.antt =====
-- exec/cctp.py: its records and errors, Circle's message (exec/circle.py), and what the code takes
-- from the packages web3, eth_utils and eth_abi.
use open_allocator.Base.{ℕ, ◌≡◌, Bool, List, Option, String}
use open_allocator.Base.Text.{Text, Bytes, casefold}

-- `CctpValidationError`, by the check that raises it.
pub data Invalid : Type 0 where
  not_hex undecodable_log undecodable_calldata native_value : Invalid
  approval_not_on_token approval_not_to_messenger approval_too_small : Invalid
  wrong_event_nonce : Invalid
  too_short : ℕ → Invalid
  not_evm_address wrong_selector : String → Invalid
  wrong_steps : List String → Invalid
  wrong_burn_count : ℕ → ℕ → Invalid
  burn_mismatch : Bool → List String → Invalid
  wrong_cctp_version : ℕ → Invalid
  config_mismatch : List String → Invalid
  unreadable_receipt : String → Invalid

-- What a step of a bridged leg can raise. Only `invalid` is a `CctpValidationError`.
pub data Error : Type 0 where
  invalid : Invalid → Error
  -- `own[burn_index]` past the end
  index_error : Error
  -- a failed `assert`
  assertion_error : Error
  -- `TransactionPlanError`, and every other exception, by its text
  plan_error other : String → Error

pub record BurnMessage : Type 0 where
  pub version : ℕ
  pub burn_token : Text
  pub mint_recipient : Text
  pub amount : ℕ
  pub message_sender : Text
  pub max_fee : ℕ
  pub fee_executed : ℕ
  pub expiration_block : ℕ
  pub hook_data : Bytes

pub record CctpMessage : Type 0 where
  pub raw : Bytes
  pub version : ℕ
  pub source_domain : ℕ
  pub destination_domain : ℕ
  pub nonce : Text
  pub sender : Text
  pub recipient : Text
  pub destination_caller : Text
  pub min_finality_threshold : ℕ
  pub finality_threshold_executed : ℕ
  pub body : BurnMessage

-- `amount_raw` and `max_fee_raw` are digit strings in the program, which it reads by `int`.
pub record BurnExpectation : Type 0 where
  pub source_domain : ℕ
  pub destination_domain : ℕ
  pub source_token_messenger : Text
  pub destination_token_messenger : Text
  pub account : Text
  pub burn_token : Text
  pub amount_raw : ℕ
  pub max_fee_raw : ℕ
  pub min_finality_threshold : ℕ

pub record BurnCall : Type 0 where
  pub token_messenger : Text
  pub amount_raw : ℕ
  pub destination_domain : ℕ
  pub mint_recipient : Text
  pub burn_token : Text
  pub destination_caller : Text
  pub max_fee_raw : ℕ
  pub min_finality_threshold : ℕ

pub record SourceLog : Type 0 where
  pub log_index : ℕ
  pub emitter : Text
  pub message : Text

-- A receipt's log, as the chain reader returns it.
pub record RawLog : Type 0 where
  pub address : Text
  pub topics : List Text
  pub payload : Text
  pub log_index : ℕ

-- `TxStep`, without the chain it is for.
pub record TxStep : Type 0 where
  pub to : Text
  pub payload : Text
  pub value : ℕ
  pub chain_id : ℕ
  pub kind : String

-- `CircleMessage`
pub record CircleMessage : Type 0 where
  pub message : Text
  pub attestation : Option Text
  pub event_nonce : Option Text
  pub cctp_version : Option ℕ
  pub status : String
  pub delay_reason : Option String

pub record Attestation : Type 0 where
  pub message : CctpMessage
  pub attestation : Text

-- The arguments of `depositForBurn`, as `eth_abi.decode` gives them.
pub record BurnArguments : Type 0 where
  pub amount : ℕ
  pub domain : ℕ
  pub recipient : Bytes
  pub token : Text
  pub caller : Bytes
  pub max_fee : ℕ
  pub threshold : ℕ

-- The packages: `Web3.to_checksum_address`, `keccak`, and the three decodings of `eth_abi`, where
-- `none` is an exception.
pub record Evm : Type 0 where
  pub checksum : Text → Text
  pub keccak : Bytes → Bytes
  pub decode_bytes : Bytes → Option Bytes
  pub decode_burn : Bytes → Option BurnArguments
  pub decode_approve : Bytes → Option (Text × ℕ)

-- Checksumming an address changes the case of its letters and nothing else.
pub record EvmLaws (evm : Evm) : Type 0 where
  pub casefold-checksum : (t : Text) → casefold (evm.checksum t) ≡ casefold t
