-- ===== src/Bridge/Tests.antt =====
-- Runs of exec/bridge.py: legs in each state, and the worlds that they meet.
use open_allocator.Base.{length, ◌≡◌, ◌⊎◌, refl, true, false, none, some, [], ◌∷◌, seq_eq, filter}
use open_allocator.Base.Int.{pos}
use open_allocator.Base.Outcome.{ok, err}
use open_allocator.Base.Text.{codes, casefold, to_hex}
use open_allocator.Cctp.{TxStep, wrong_burn_count, other, hex_text}
use open_allocator.Cctp.Samples.{plain_evm, address_text}
use open_allocator.Cctp.Select.{message_sent_logs, select_source_log}
use open_allocator.Bridge.{
  Status, bridge_planned, source_submitted, destination_ready, destination_submitted, completed,
  BridgeState, World, ChainConfig, Receipt, answered, Submission, active, locate_burn, expectation,
}
use open_allocator.Bridge.Settle.{submitted_deposit, settle_destination, reconcile_destination}
use open_allocator.Bundle.{TxBundle}
use open_allocator.Bridge.Planning.{
  check_route, source_problems, destination_problems, is_bridge, submitted_state,
}
use open_allocator.Bridge.Sources.{IsRoute, StandsAt, check_route-IsRoute, submitted_state-StandsAt}
use open_allocator.Bridge.Steps.{Ensures, Follows, IsSubmission, transition-Ensures}
use open_allocator.Bridge.Advance.{transition, Store, start, round, advance_leg, failed_state}
use open_allocator.Bridge.Runs.{IsKept, advance_leg-IsKept}
use open_allocator.Bridge.Evidence.{IsIncluded, NonceRead, by_receipt, burn_forgotten}
use open_allocator.Bridge.Gates.{
  IsOpen, submission-IsOpen, completion_evidence, submission_recorded,
}

abbrev config : ChainConfig
config = record {
  cctp_domain = 0;
  token_messenger = address_text 17;
  message_transmitter = address_text 30;
}

abbrev receipt : Receipt
receipt = record { transaction_hash = codes "0x1234"; safe_tx_hash = none; pending = false }

abbrev deposit_submission : Submission
deposit_submission = record {
  action = "deposit";
  digest = codes "d1";
  amount = 190;
  receipt = some record { transaction_hash = codes "0x99"; safe_tx_hash = none; pending = true };
}

-- Chains on which nothing is redeemed yet; the executor submits the deposit and then raises.
abbrev world : World
world = record {
  evm = plain_evm;
  chain = λ id. some config;
  operation_receipt = λ id hash. answered (some receipt);
  transaction_logs = λ id hash. ok (some []);
  nonce_used = λ id transmitter nonce. ok false;
  block_number = λ id. ok 10;
  circle_messages = λ id hash. ok [];
  reattest = λ nonce. ok tt;
  supports_cross_chain = true;
  token_for = λ id. ok (address_text 20);
  balance = λ id account token. some 3;
  fit_deposit = λ wanted.
      ok (record {
        actions = "cctp_receive" ∷ "deposit" ∷ [];
        charges = some 2 ∷ [];
        blockers = [];
      });
  prepare_redeem = err (other "not used");
  execute = λ fitted. record {
    submissions = deposit_submission ∷ [];
    error = some (other "the log could not be written");
  };
}

-- The same leg, in the given state.
abbrev leg : Status → BridgeState
leg status = record {
  leg_id = "leg:0:vault";
  leg_index = 0;
  instrument_id = "vault";
  status = status;
  account = address_text 19;
  source_chain_id = 1;
  destination_chain_id = 8453;
  source_domain = 0;
  destination_domain = 0;
  source_token = address_text 20;
  source_token_messenger = address_text 17;
  burn_amount_raw = 200;
  max_fee_raw = 5;
  min_finality_threshold = 1000;
  fast = true;
  wanted_deposit_raw = 200;
  deposit = true;
  source_bundle_id = "bundle";
  source_bundle_digest = codes "d0";
  burn_index = 0;
  burns_in_operation = 1;
  source_operation_hash = some (codes "0xaa");
  source_transaction_hash = none;
  source_message_transmitter = none;
  source_log_index = none;
  source_message = none;
  message_ordinal = 0;
  attestation_status = none;
  delay_reason = none;
  message_hash = none;
  nonce = some (codes "0x07");
  message = some (codes "0x00");
  attestation = some (codes "0xab");
  fee_executed_raw = some 3;
  net_mint_raw = some (pos 197);
  expiration_block = some 50;
  destination_bundle_digest = none;
  deposit_amount_raw = none;
  destination_operation_hash = some (codes "0xbb");
  destination_transaction_hash = none;
  last_error = none;
}

abbrev stored : BridgeState → Store
stored s = record { persistent = true; record_of = some s }

transition-Ensures_example :
    Ensures
      (Follows (leg destination_ready))
      (IsSubmission (leg destination_ready))
      (transition world (leg destination_ready))
transition-Ensures_example = transition-Ensures world (leg destination_ready)

advance_leg-IsKept_example :
    IsKept
      (leg destination_ready)
      (advance_leg (λ i. world) (leg destination_ready) (stored (leg destination_ready)))
advance_leg-IsKept_example =
    advance_leg-IsKept (λ i. world) (leg destination_ready) (stored (leg destination_ready)) refl
      refl

-- The burn's transaction holds no CCTP message, where the operation submitted one burn.
burn_forgotten_example :
    ((advance_leg (λ i. world) (leg source_submitted) (stored (leg source_submitted))).state
      ≡ failed_state (leg source_submitted) (wrong_burn_count 0 1))
    × ((leg source_submitted).source_transaction_hash ≡ none
        → active
            (advance_leg (λ i. world) (leg source_submitted) (stored (leg source_submitted))).state
          ≡ false)
unfolding locate_burn expectation message_sent_logs select_source_log seq_eq casefold hex_text
    to_hex filter
burn_forgotten_example =
    burn_forgotten world (leg source_submitted) receipt.transaction_hash (wrong_burn_count 0 1)
      (λ i. world) (stored (leg source_submitted)) refl refl
      (by_receipt (codes "0xaa") receipt refl refl refl refl refl) refl

submission-IsOpen_example :
    IsOpen world (leg destination_ready) × ((leg destination_ready).status ≡ destination_ready)
unfolding transition settle_destination filter
submission-IsOpen_example =
    submission-IsOpen world (leg destination_ready)
      (submitted_deposit (leg destination_ready) deposit_submission) refl

abbrev submitted_leg : BridgeState
submitted_leg =
    unfold submitted_deposit in submitted_deposit (leg destination_ready) deposit_submission

submission_recorded_example :
    let after = round world (start (leg destination_ready) (stored (leg destination_ready))) in
    let kept = record submitted_leg { last_error = some (other "the log could not be written") } in
    (after.state ≡ kept)
    × (after.store.record_of ≡ some kept)
    × (after.errors ≡ true)
    × (submitted_leg.status ≡ destination_submitted)
unfolding transition settle_destination filter
submission_recorded_example =
    submission_recorded world (start (leg destination_ready) (stored (leg destination_ready)))
      submitted_leg (other "the log could not be written") refl refl refl refl refl

completion_evidence_example :
    IsIncluded world (leg destination_submitted) ⊎ NonceRead world (leg destination_submitted) true
unfolding transition reconcile_destination
completion_evidence_example =
    completion_evidence world (leg destination_submitted)
      (record (leg destination_submitted) {
        status = completed;
        destination_transaction_hash = some (codes "0x1234");
      })
      refl refl

-- The bundle of one burn from domain 0 to domain 0, and its last step.
abbrev burn_bundle : TxBundle
burn_bundle = record {
  bundle_id = "bundle";
  action = "bridge";
  digest = codes "d0";
  leg_index = 0;
  instrument_id = "vault";
  account = address_text 19;
  chain_id = 1;
  step_indexes = 0 ∷ [];
  source = "1tx-calldata";
  endpoint = "GET /instruments/:instrumentId/calldata";
  token_in = record { address = address_text 20; symbol = none; decimals = 6 };
  token_out = record { address = address_text 20; symbol = none; decimals = 6 };
  amount = 200;
  quote_block = 100;
  expires_at = none;
  requires = record { token = address_text 20; amount = 200 } ∷ [];
  leftovers = [];
  expected_out = none;
  min_out = none;
  protocol_gas = some 90000;
  simulated_out = none;
  simulation_scope = some "protocol_bundle";
  simulation_engine = some "wallet_neutral_atomic";
  bridge = some record {
    to_chain_id = 8453;
    source_domain = 0;
    destination_domain = 0;
    max_fee = 5;
    min_finality_threshold = 1000;
    fast = true;
  };
  is_loop = false;
}

abbrev burn_step : TxStep
burn_step = record {
  to = address_text 17;
  payload = codes "0x";
  value = 0;
  chain_id = 1;
  kind = "bridge_burn";
}

check_route-IsRoute_example : IsRoute (λ id. some config) burn_bundle (burn_step ∷ [])
unfolding check_route source_problems destination_problems seq_eq casefold hex_text to_hex
check_route-IsRoute_example =
    check_route-IsRoute (λ id. some config) burn_bundle (burn_step ∷ []) refl

submitted_state-StandsAt_example :
    (t : BridgeState) × (submitted_state
        (leg bridge_planned)
        burn_bundle
        (burn_bundle ∷ [])
        (some receipt)
      ≡ ok t)
    × (t.status ≡ source_submitted)
    × StandsAt "bundle" (filter is_bridge (burn_bundle ∷ [])) t.burn_index
    × (t.burns_in_operation ≡ length (filter is_bridge (burn_bundle ∷ [])))
unfolding filter
submitted_state-StandsAt_example =
    submitted_state-StandsAt (leg bridge_planned) burn_bundle (burn_bundle ∷ []) (some receipt) 0
      refl
