-- ===== src/Execution/Signers.antt =====
-- What exec/bundle_execution.py uses of a signer and reads outside while it prepares a plan.
use open_allocator.Base.{ℕ, Bool, Option, String, List}
use open_allocator.Base.Int.{ℤ}
use open_allocator.Base.Text.{Text}
use open_allocator.Base.Equality.{string_equality, number_equality}
use open_allocator.Cctp.{TxStep}
use open_allocator.Funding.{BalanceKey}
use open_allocator.Execution.{Failure, store_key_equality}

-- The fields of `PreparedUserOperation` that are compared or charged.
pub record Prepared : Type 0 where
  pub chain_id : ℕ
  pub sender : Text
  pub paymaster_token : Option Text
  pub max_gas_token_charge_raw : Option ℕ
  pub assumed_balances : List (Text × ℕ)

-- What `prepare_batch` does.
pub data Answer : Type 0 where
  estimated : Prepared → Answer
  reverts unavailable : Answer
  raises : Failure → Answer

-- The signer's attributes; a method is none where the signer does not have it.
pub record Signer : Type 0 where
  pub has_send_batch : Bool
  pub proposes_asynchronously : Bool
  pub is_deployed : Option (ℕ → String → Bool)
  pub prepare_batch : Option (List TxStep → Option String → Option (List (Text × ℕ)) → Answer)

-- `supports_batching`
abbrev pub supports_batching : Signer → Bool
supports_batching signer = signer.has_send_batch

-- What the preparation reads outside: the RPC of a chain, the balances, and the slippage.
pub record Reads : Type 0 where
  pub rpc_url : ℕ → Option String
  pub balance : BalanceKey → Option ℕ
  pub slippage : ℤ
