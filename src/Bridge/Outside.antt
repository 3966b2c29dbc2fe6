-- ===== src/Bridge/Outside.antt =====
-- What a step of a bridged leg meets outside exec/bridge.py: 1Tx's CCTP configuration, the signer,
-- the two chains, Circle, and the planner and executor of the destination operation.
use open_allocator.Base.{ℕ, Bool, Option, String, List}
use open_allocator.Base.Outcome.{Outcome}
use open_allocator.Base.Int.{ℤ}
use open_allocator.Base.Text.{Text}
use open_allocator.Cctp.{Error, Evm, RawLog, CircleMessage}

-- `CctpChainConfig`
pub record ChainConfig : Type 0 where
  pub cctp_domain : ℕ
  pub token_messenger : Text
  pub message_transmitter : Text

-- The fields of `Receipt` that a bridged leg reads.
pub record Receipt : Type 0 where
  pub transaction_hash : Text
  pub safe_tx_hash : Option Text
  pub pending : Bool

-- `signer.operation_receipt`: the operation reverted, the lookup raised, or it answered.
pub data Lookup : Type 0 where
  reverted : String → Lookup
  raised : Error → Lookup
  answered : Option Receipt → Lookup

-- A call of the hook `on_submitted`, with the bundle's action, digest and amount.
pub record Submission : Type 0 where
  pub action : String
  pub digest : Text
  pub amount : ℕ
  pub receipt : Option Receipt

-- `execute_plan`: the bundles that it submitted, in order, and whether it raised after them.
pub record Executed : Type 0 where
  pub submissions : List Submission
  pub error : Option Error

-- A prepared destination plan: its actions, the preparations' maximum charges, and its blockers.
pub record Fitted : Type 0 where
  pub actions : List String
  pub charges : List (Option ℕ)
  pub blockers : List String

pub record World : Type 0 where
  pub evm : Evm
  -- `routes.chain(chain_id)`
  pub chain : ℕ → Option ChainConfig
  pub operation_receipt : ℕ → Text → Lookup
  pub transaction_logs : ℕ → Text → Outcome Error (Option (List RawLog))
  pub nonce_used : ℕ → Text → Text → Outcome Error Bool
  pub block_number : ℕ → Outcome Error ℕ
  pub circle_messages : ℕ → Text → Outcome Error (List CircleMessage)
  pub reattest : Text → Outcome Error (Unit {0})
  pub supports_cross_chain : Bool
  -- the address of the chain's deposit token, and the account's balance of it
  pub token_for : ℕ → Outcome Error Text
  pub balance : ℕ → Text → Text → Option ℕ
  -- `deposit_sizing.fit` for a deposit of that size, and `prepare_plan` for a redemption alone
  pub fit_deposit : ℤ → Outcome Error Fitted
  pub prepare_redeem : Outcome Error Fitted
  -- `execute_plan` on the plan so prepared
  pub execute : Fitted → Executed
