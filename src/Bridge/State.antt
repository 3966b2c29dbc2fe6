-- ===== src/Bridge/State.antt =====
-- exec/bridge_state.py: the record of one bridged leg. Digit strings are numbers here, `last_error`
-- is the error and not its text, and the creation and update times are left out.
use open_allocator.Base.{ℕ, ◌≡◌, refl, ◌∙◌, Bool, true, false, Option, List, String, is_some, ◌==◌}
use open_allocator.Base.Text.{Text}
use open_allocator.Base.Int.{ℤ}
use open_allocator.Cctp.{Error}

-- `BridgeStatus`
pub data Status : Type 0 where
  bridge_planned source_submitted awaiting_attestation destination_ready : Status
  destination_submitted completed failed : Status

-- The position in `_ORDER`; `failed` has none, and stands past its end.
unfoldable pub order : Status → ℕ
order bridge_planned = 0
order source_submitted = 1
order awaiting_attestation = 2
order destination_ready = 3
order destination_submitted = 4
order completed = 5
order failed = 6

pub record BridgeState : Type 0 where
  pub leg_id : String
  pub leg_index : ℕ
  pub instrument_id : String
  pub status : Status
  pub account : Text
  pub source_chain_id : ℕ
  pub destination_chain_id : ℕ
  pub source_domain : ℕ
  pub destination_domain : ℕ
  pub source_token : Text
  pub source_token_messenger : Text
  pub burn_amount_raw : ℕ
  pub max_fee_raw : ℕ
  pub min_finality_threshold : ℕ
  pub fast : Bool
  pub wanted_deposit_raw : ℕ
  pub deposit : Bool
  pub source_bundle_id : String
  pub source_bundle_digest : Text
  pub burn_index : ℕ
  pub burns_in_operation : ℕ
  pub source_operation_hash : Option Text
  pub source_transaction_hash : Option Text
  pub source_message_transmitter : Option Text
  pub source_log_index : Option ℕ
  pub source_message : Option Text
  pub message_ordinal : ℕ
  -- these two are texts joined by commas, given here by their parts
  pub attestation_status : Option (List String)
  pub delay_reason : Option (List String)
  pub message_hash : Option Text
  pub nonce : Option Text
  pub message : Option Text
  pub attestation : Option Text
  pub fee_executed_raw : Option ℕ
  pub net_mint_raw : Option ℤ
  pub expiration_block : Option ℕ
  pub destination_bundle_digest : Option Text
  pub deposit_amount_raw : Option ℕ
  pub destination_operation_hash : Option Text
  pub destination_transaction_hash : Option Text
  pub last_error : Option Error

-- `BridgeState.active`
unfoldable pub active : BridgeState → Bool
active s = elim s.status [
  | bridge_planned ↦ false
  | failed ↦ is_some s.source_transaction_hash
  | _ ↦ true
]

-- `state.state in ("completed", "failed")`
unfoldable pub is_terminal : Status → Bool
is_terminal completed = true
is_terminal failed = true
is_terminal bridge_planned = false
is_terminal source_submitted = false
is_terminal awaiting_attestation = false
is_terminal destination_ready = false
is_terminal destination_submitted = false

unfoldable pub same_status : Status → Status → Bool
unfolding order
same_status a b = order a == order b

-- What a leg commits to before its burn goes out: the fields that no later step may change.
pub record SameLeg (s t : BridgeState) : Type 0 where
  pub leg_id : s.leg_id ≡ t.leg_id
  pub account : s.account ≡ t.account
  pub source_chain_id : s.source_chain_id ≡ t.source_chain_id
  pub destination_chain_id : s.destination_chain_id ≡ t.destination_chain_id
  pub source_token : s.source_token ≡ t.source_token
  pub burn_amount_raw : s.burn_amount_raw ≡ t.burn_amount_raw
  pub max_fee_raw : s.max_fee_raw ≡ t.max_fee_raw
  pub wanted_deposit_raw : s.wanted_deposit_raw ≡ t.wanted_deposit_raw
  pub deposit : s.deposit ≡ t.deposit
  pub burn_index : s.burn_index ≡ t.burn_index
  pub burns_in_operation : s.burns_in_operation ≡ t.burns_in_operation

pub SameLeg-refl : (s : BridgeState) → SameLeg s s
SameLeg-refl s = record {
  leg_id = refl;
  account = refl;
  source_chain_id = refl;
  destination_chain_id = refl;
  source_token = refl;
  burn_amount_raw = refl;
  max_fee_raw = refl;
  wanted_deposit_raw = refl;
  deposit = refl;
  burn_index = refl;
  burns_in_operation = refl;
}

pub SameLeg-trans : {s t u : BridgeState} → SameLeg s t → SameLeg t u → SameLeg s u
SameLeg-trans h k = record {
  leg_id = h.leg_id ∙ k.leg_id;
  account = h.account ∙ k.account;
  source_chain_id = h.source_chain_id ∙ k.source_chain_id;
  destination_chain_id = h.destination_chain_id ∙ k.destination_chain_id;
  source_token = h.source_token ∙ k.source_token;
  burn_amount_raw = h.burn_amount_raw ∙ k.burn_amount_raw;
  max_fee_raw = h.max_fee_raw ∙ k.max_fee_raw;
  wanted_deposit_raw = h.wanted_deposit_raw ∙ k.wanted_deposit_raw;
  deposit = h.deposit ∙ k.deposit;
  burn_index = h.burn_index ∙ k.burn_index;
  burns_in_operation = h.burns_in_operation ∙ k.burns_in_operation;
}
