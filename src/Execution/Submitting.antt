-- ===== src/Execution/Submitting.antt =====
-- exec/bundle_execution.py: `execute_plan`.
use open_allocator.Base.{
  ℕ, Bool, true, false, not, ◌||◌, Option, none, some, String, List, [], ◌∷◌, ◌++◌, length, any,
  drop, if◌then◌else◌,
}
use open_allocator.Base.Outcome.{Outcome, ok, err}
use open_allocator.Base.Equality.{number_equality}
use open_allocator.Base.Dict.{lookup}
use open_allocator.Funding.{LedgerOperation}
use open_allocator.Funding.Reading.{check_operations, is_funded}
use open_allocator.Execution.{
  Failure, plan_error, paymaster, broadcast, bundle_record, submission_mode, underfunded,
  simulation_reverted, key_error, PlannedBundle, TxPlan, Operation, steps_of, StoreKey, operations,
  bundles_of, assemble_plan, planned_bundles,
}
use open_allocator.Execution.Signers.{Signer, supports_batching}
use open_allocator.Execution.Estimates.{WalletPreparation, is_nonempty}
use open_allocator.Execution.Preparing.{PlanPreparation, funded, ledger_operations, prepared_plan}
use open_allocator.Execution.Session.{
  Receipt, StepReport, saved, Run, returns, raises, catching, happen, ◌>>=◌, ◌>>◌, World,
  read_clock, needs_refresh,
}
use open_allocator.Execution.Preflight.{preflight}
use open_allocator.Execution.Sends.{send_operation}

-- `BundleExecution`, without its messages, its gas checks and what the preparation gave
pub record BundleExecution : Type 0 where
  pub plan : TxPlan
  pub steps : List StepReport
  pub receipts : List Receipt
  pub in_progress : Bool
  pub completed_keys : List StoreKey

-- `write_partial`
abbrev pub write_partial : World → List PlannedBundle → Run (Unit {0})
write_partial w items s = happen (w.checkpoint s.trace items s.completed) saved s

-- `PaymasterError | BundleRecordError`, with the subclasses of the first
abbrev pub is_passed_on : Failure → Bool
is_passed_on paymaster = true
is_passed_on simulation_reverted = true
is_passed_on bundle_record = true
is_passed_on failure = false

abbrev pub as_broadcast : Failure → Failure
as_broadcast failure = if is_passed_on failure then failure else broadcast

-- A failure, after a checkpoint of what was done
abbrev pub raises_after {ℓ} : {A : Type ℓ} → World → List PlannedBundle → Failure → Run A
raises_after w items failure = do write_partial w items; raises failure

abbrev pub rebuilt_if : World → PlannedBundle → Bool → Run (PlannedBundle × Bool)
rebuilt_if w item false = returns (item, false)
rebuilt_if w item true = do
  now ← read_clock w
  rebuilt ← (λ s. (s, w.refresh s.trace item.bundle now))
  returns (rebuilt, true)

unfoldable pub refresh_item : World → PlannedBundle → Run (PlannedBundle × Bool)
unfolding needs_refresh
refresh_item w item = do
  now ← read_clock w
  rebuilt_if w item (needs_refresh item.bundle w.min_ttl now)

unfoldable pub refresh_items : World → List PlannedBundle → Run (List PlannedBundle × Bool)
unfolding refresh_item
refresh_items w [] = returns ([], false)
refresh_items w (item ∷ items) = do
  first ← refresh_item w item
  rest ← refresh_items w items
  returns (first.0 ∷ rest.0, first.1 || rest.1)

-- `_refreshed`
unfoldable pub refreshed : World → Operation → Run (Operation × Bool)
unfolding refresh_items
refreshed w op = do
  items ← refresh_items w op.bundles
  returns (record op { bundles = items.0 }, items.1)

-- The balances are checked again after anything was sent or rebuilt.
unfoldable pub recheck :
    Bool
    → World
    → List WalletPreparation
    → List LedgerOperation
    → List Operation
    → List PlannedBundle
    → Run (Unit {0})
unfolding ledger_operations check_operations is_funded
recheck false w preparations unsettled ops items s = (s, ok tt)
recheck true w preparations unsettled ops items s =
    let reads = w.reads s.trace in
    let funding =
      check_operations (ledger_operations ops preparations s.store) reads.balance reads.slippage
        unsettled in
    if is_funded funding then (s, ok tt) else raises_after w items underfunded s

abbrev pub url_for : Option String → Run String
url_for none = raises key_error
url_for (some url) = returns url

abbrev pub is_in_progress : List Receipt → Bool
is_in_progress receipts = any (λ (r : Receipt). r.pending) receipts

abbrev pub unsettled_if :
    Bool → List LedgerOperation → Operation → List WalletPreparation → List LedgerOperation
unsettled_if pending unsettled op preparations =
    if pending then unsettled ++ ledger_operations (op ∷ []) preparations none else unsettled

-- The operation as it is sent, or the checkpoint where a rebuild fails.
unfoldable pub next_operation :
    World → List PlannedBundle → Operation → List Operation → Run (Operation × Bool)
unfolding refreshed
next_operation w settled first ops =
    catching (refreshed w first)
      (λ failure. raises_after w (settled ++ (first.bundles ++ bundles_of ops)) failure)

-- Whether a receipt since the first `before` ones is pending.
unfoldable pub pending_since : ℕ → Run Bool
unfolding drop
pending_since before s = (s, ok (is_in_progress (drop before s.receipts)))

unfoldable pub send_checked :
    Bool → World → List PlannedBundle → Operation → List Operation → String → Run Bool
unfolding send_operation pending_since
send_checked batching w settled op ops url s =
    (catching (send_operation batching w op (length (steps_of settled)) url) (λ failure.
          raises_after w (settled ++ (op.bundles ++ bundles_of ops)) (as_broadcast failure))
        >> pending_since (length s.receipts))
      s

unfoldable pub carry :
    Bool
    → World
    → List WalletPreparation
    → List (ℕ × String)
    → List PlannedBundle
    → List LedgerOperation
    → Operation × Bool
    → List Operation
    → Run Bool
unfolding recheck lookup send_checked
carry batching w preparations urls settled unsettled (op, is_rebuilt) ops =
    recheck (is_nonempty settled || is_rebuilt) w preparations unsettled (op ∷ ops)
      (settled ++ (op.bundles ++ bundles_of ops))
    >> (url_for (lookup op.chain_id urls) >>= send_checked batching w settled op ops)

-- The loop over the pending operations, with what it settled and what is not included yet.
unfoldable pub run_pending :
    Bool
    → World
    → List WalletPreparation
    → List (ℕ × String)
    → List PlannedBundle
    → List LedgerOperation
    → List Operation
    → Run (List PlannedBundle)
unfolding next_operation carry ledger_operations
run_pending batching w preparations urls settled unsettled [] = returns settled
run_pending batching w preparations urls settled unsettled (first ∷ ops) = do
  next ← next_operation w settled first ops
  pending ← carry batching w preparations urls settled unsettled next ops
  run_pending batching w preparations urls (settled ++ next.0.bundles)
      (unsettled_if pending unsettled next.0 preparations) ops

abbrev pub nothing_executed : TxPlan → BundleExecution
nothing_executed plan = record {
  plan = plan;
  steps = [];
  receipts = [];
  in_progress = false;
  completed_keys = [];
}

abbrev pub lift {ℓ} : {A : Type ℓ} → Outcome Failure A → Run A
lift outcome s = (s, outcome)

-- A run's own lists start empty.
abbrev pub started : Run (Unit {0})
started s = (record s { steps = []; receipts = []; completed = [] }, ok tt)

abbrev pub executed : List PlannedBundle → Run BundleExecution
executed settled s = (
  s,
  ok (record {
    plan = assemble_plan settled;
    steps = s.steps;
    receipts = s.receipts;
    in_progress = is_in_progress s.receipts;
    completed_keys = s.completed;
  }),
)

-- `execute_plan` after its refusals
unfoldable pub execute_prepared :
    Bool → World → List PlannedBundle → PlanPreparation → Run BundleExecution
unfolding preflight operations run_pending assemble_plan
execute_prepared batching w items preparation = do
  urls ← (λ s. preflight w s.store items s)
  started
  settled ← run_pending batching w preparation.preparations urls [] [] (operations items batching)
  executed settled

-- Why `execute_plan` refuses, in its order
unfoldable pub refusal : PlanPreparation → Option Failure
unfolding is_funded
refusal p =
    if is_nonempty p.blockers
    then some submission_mode
    else if not (funded p)
    then some underfunded
    else if any (λ (q : WalletPreparation). q.simulation_revert) p.preparations
    then some plan_error
    else none

abbrev pub unless_refused : Option Failure → Run BundleExecution → Run BundleExecution
unless_refused none run s = run s
unless_refused (some failure) run s = (s, err failure)

-- `execute_plan`, for the bundles of the plan
unfoldable pub execute_bundles : Signer → World → List PlannedBundle → Run BundleExecution
unfolding prepared_plan refusal execute_prepared
execute_bundles signer w items = do
  preparation ← (λ s. (s, prepared_plan signer (w.reads s.trace) s.store items))
  unless_refused (refusal preparation)
      (execute_prepared (supports_batching signer) w items preparation)

abbrev pub execute_items : Signer → World → TxPlan → List PlannedBundle → Run BundleExecution
execute_items signer w plan [] = returns (nothing_executed plan)
execute_items signer w plan (item ∷ items) = execute_bundles signer w (item ∷ items)

-- `execute_plan`
unfoldable pub execute_plan : Signer → World → TxPlan → Run BundleExecution
unfolding planned_bundles execute_bundles
execute_plan signer w plan = do
  items ← lift (planned_bundles plan)
  execute_items signer w plan items
