-- ===== src/Execution/Sends.antt =====
-- exec/bundle_execution.py: the sending of one operation.
use open_allocator.Base.{
  ℕ, suc, ◌+◌, Bool, true, false, Option, none, some, String, List, [], ◌∷◌, ◌++◌, length,
  if◌then◌else◌,
}
use open_allocator.Base.Outcome.{ok, err}
use open_allocator.Base.Equality.{number_equality}
use open_allocator.Cctp.{TxStep}
use open_allocator.Execution.{PlannedBundle, Operation, steps_of, StoreKey, key_of, call_key_of}
use open_allocator.Execution.Preparing.{store_completed}
use open_allocator.Execution.Session.{
  Receipt, SendAnswer, received, unsent, lost, sent, skipped, Event, sent_call, sent_batch,
  lost_call, lost_batch, Run, returns, ◌>>=◌, ◌>>◌, store_mark_completed, World, record_bundle,
  report_step,
}

abbrev pub send_outcome : SendAnswer → (Receipt → Event) → Event → Run Receipt
send_outcome (unsent failure) event gone s = (s, err failure)
send_outcome (lost failure) event gone s = (record s { trace = gone ∷ s.trace }, err failure)
send_outcome (received receipt) event gone s = (
  record s { trace = event receipt ∷ s.trace; receipts = s.receipts ++ receipt ∷ [] },
  ok receipt,
)

abbrev pub add_key : StoreKey → Run (Unit {0})
add_key key s = (record s { completed = s.completed ++ key ∷ [] }, ok tt)

unfoldable pub send_call : World → PlannedBundle → ℕ → ℕ → TxStep → String → Run (Option Receipt)
unfolding store_mark_completed
send_call w item offset index step url = do
  receipt ← (λ s.
      send_outcome (w.send s.trace step url) (sent_call (call_key_of item index))
        (lost_call (call_key_of item index)) s)
  store_mark_completed w.mark (call_key_of item index)
  add_key (call_key_of item index)
  report_step item (offset + index) step sent (some receipt) (call_key_of item index)
  returns (some receipt)

abbrev pub skip_call : PlannedBundle → ℕ → ℕ → TxStep → Option Receipt → Run (Option Receipt)
skip_call item offset index step last = do
  report_step item (offset + index) step skipped none (call_key_of item index)
  returns last

unfoldable pub call_step :
    World → PlannedBundle → ℕ → ℕ → TxStep → String → Option Receipt → Run (Option Receipt)
unfolding store_completed send_call
call_step w item offset index step url last s =
    if store_completed s.store (call_key_of item index)
    then skip_call item offset index step last s
    else send_call w item offset index step url s

unfoldable pub send_calls :
    World → PlannedBundle → ℕ → ℕ → List TxStep → String → Option Receipt → Run (Option Receipt)
unfolding call_step
send_calls w item offset index [] url last = returns last
send_calls w item offset index (step ∷ steps) url last = do
  receipt ← call_step w item offset index step url last
  send_calls w item offset (suc index) steps url receipt

-- The operation of a signer that sends one call at a time.
unfoldable pub send_each : World → Operation → ℕ → List PlannedBundle → String → Run (Unit {0})
unfolding send_calls record_bundle
send_each w op offset [] url = returns tt
send_each w op offset (item ∷ items) url = do
  last ← send_calls w item offset 0 item.steps url none
  record_bundle w op item last
  send_each w op (offset + length item.steps) items url

unfoldable pub report_batch : PlannedBundle → ℕ → List TxStep → Receipt → Run (Unit {0})
report_batch item step_index [] receipt = returns tt
report_batch item step_index (step ∷ steps) receipt = do
  report_step item step_index step sent (some receipt) (key_of item)
  report_batch item (suc step_index) steps receipt

unfoldable pub record_batch : World → Operation → ℕ → List PlannedBundle → Receipt → Run (Unit {0})
unfolding report_batch record_bundle
record_batch w op offset [] receipt = returns tt
record_batch w op offset (item ∷ items) receipt = do
  report_batch item offset item.steps receipt
  record_bundle w op item (some receipt)
  record_batch w op (offset + length item.steps) items receipt

-- The operation of a signer that can batch.
unfoldable pub send_together : World → Operation → ℕ → String → Run (Unit {0})
unfolding record_batch
send_together w op offset url = do
  receipt ← (λ s.
      send_outcome (w.send_batch s.trace (steps_of op.bundles) url)
        (sent_batch (steps_of op.bundles)) (lost_batch (steps_of op.bundles)) s)
  record_batch w op offset op.bundles receipt

unfoldable pub send_operation : Bool → World → Operation → ℕ → String → Run (Unit {0})
unfolding send_together send_each
send_operation true w op offset url = send_together w op offset url
send_operation false w op offset url = send_each w op offset op.bundles url
