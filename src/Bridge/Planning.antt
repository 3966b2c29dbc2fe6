-- ===== src/Bridge/Planning.antt =====
-- exec/bridge.py: `check_route`, `planned_state` and `submitted_state`, which make a leg's record.
use open_allocator.Base.{
  ℕ, suc, Bool, true, false, Option, none, some, String, List, [], ◌∷◌, ◌++◌, filter, length,
  str_eq, ◌==◌, if◌then◌else◌,
}
use open_allocator.Base.Outcome.{Outcome, ok, err, ◌>>=◌, guard}
use open_allocator.Base.Text.{Text}
use open_allocator.Cctp.{Error, index_error, plan_error, other, TxStep, same_text, failures}
use open_allocator.Bridge.{
  BridgeState, bridge_planned, source_submitted, ChainConfig, Receipt, assert_some,
}
use open_allocator.Bundle.{BundleBridge, TxBundle}
use open_allocator.Bridge.Settle.{operation_hash, transaction_hash}

-- `steps[-1]`
abbrev pub last_step : List TxStep → Outcome Error TxStep
last_step [] = err index_error
last_step (x ∷ []) = ok x
last_step (x ∷ y ∷ ys) = last_step (y ∷ ys)

unfoldable pub source_problems :
    Option ChainConfig → BundleBridge → List TxStep → Outcome Error (List String)
source_problems none bridge steps = ok ("not a CCTP route" ∷ [])
source_problems (some c) bridge steps = do
  step ← last_step steps
  ok (
      failures (
        ("source domain", c.cctp_domain == bridge.source_domain)
        ∷ ("source TokenMessenger", same_text c.token_messenger step.to)
        ∷ []))

unfoldable pub destination_problems : Option ChainConfig → BundleBridge → List String
destination_problems none bridge = "not a CCTP route" ∷ []
destination_problems (some c) bridge =
    failures (("destination domain", c.cctp_domain == bridge.destination_domain) ∷ [])

abbrev pub is_empty : List String → Bool
is_empty [] = true
is_empty (x ∷ xs) = false

-- The two routes are looked up before the source's problems are; their order in the message is left
-- out.
unfoldable pub check_route :
    (ℕ → Option ChainConfig) → TxBundle → List TxStep → Outcome Error (Unit {0})
unfolding source_problems destination_problems
check_route chain bundle steps = do
  bridge ← assert_some bundle.bridge
  problems ← source_problems (chain bundle.chain_id) bridge steps
  guard (is_empty (problems ++ destination_problems (chain bridge.to_chain_id) bridge))
      (plan_error "the bundle does not match 1Tx's CCTP configuration")

abbrev pub is_bridge : TxBundle → Bool
is_bridge b = str_eq b.action "bridge"

module _ (leg_id : ℕ → String → String) (bundle : TxBundle) (messenger : Text) (wanted : ℕ) where
  abbrev pub planned_record : BundleBridge → BridgeState
  planned_record bridge = record {
    leg_id = leg_id bundle.leg_index bundle.instrument_id;
    leg_index = bundle.leg_index;
    instrument_id = bundle.instrument_id;
    status = bridge_planned;
    account = bundle.account;
    source_chain_id = bundle.chain_id;
    destination_chain_id = bridge.to_chain_id;
    source_domain = bridge.source_domain;
    destination_domain = bridge.destination_domain;
    source_token = bundle.token_in.address;
    source_token_messenger = messenger;
    burn_amount_raw = bundle.amount;
    max_fee_raw = bridge.max_fee;
    min_finality_threshold = bridge.min_finality_threshold;
    fast = bridge.fast;
    wanted_deposit_raw = wanted;
    deposit = true;
    source_bundle_id = bundle.bundle_id;
    source_bundle_digest = bundle.digest;
    burn_index = 0;
    burns_in_operation = 1;
    source_operation_hash = none;
    source_transaction_hash = none;
    source_message_transmitter = none;
    source_log_index = none;
    source_message = none;
    message_ordinal = 0;
    attestation_status = none;
    delay_reason = none;
    message_hash = none;
    nonce = none;
    message = none;
    attestation = none;
    fee_executed_raw = none;
    net_mint_raw = none;
    expiration_block = none;
    destination_bundle_digest = none;
    deposit_amount_raw = none;
    destination_operation_hash = none;
    destination_transaction_hash = none;
    last_error = none;
  }

  abbrev pub planned_if : Bool → Option BundleBridge → Outcome Error BridgeState
  planned_if false bridge = err (plan_error "the bundle is not a bridge burn")
  planned_if true none = err (plan_error "the bundle is not a bridge burn")
  planned_if true (some bridge) = ok (planned_record bridge)

  -- `planned_state`, over the text `leg:<index>:<instrument>`.
  unfoldable pub planned_state : Outcome Error BridgeState
  planned_state = planned_if (is_bridge bundle) bundle.bridge

-- The position of the first burn with the bundle's id; `next` raises where there is none.
unfoldable pub position_of : String → List TxBundle → Outcome Error ℕ
position_of id [] = err (other "StopIteration")
position_of id (b ∷ bs) =
    let rest = position_of id bs in
    if str_eq b.bundle_id id then ok 0 else (do i ← rest; ok (suc i))

-- The record once the burn went out as burn `position` of `burns`.
abbrev pub burned : BridgeState → TxBundle → ℕ → ℕ → Option Receipt → BridgeState
burned s item position burns receipt = record s {
  status = source_submitted;
  source_bundle_digest = item.digest;
  burn_index = position;
  burns_in_operation = burns;
  source_operation_hash = operation_hash receipt;
  source_transaction_hash = transaction_hash receipt;
}

-- `submitted_state`
unfoldable pub submitted_state :
    BridgeState → TxBundle → List TxBundle → Option Receipt → Outcome Error BridgeState
submitted_state s item bundles receipt = do
  let burns = filter is_bridge bundles
  position ← position_of item.bundle_id burns
  ok (burned s item position (length burns) receipt)
