-- ===== src/Execution/Passes.antt =====
-- What every step keeps is kept by a whole run of a plan, however it ends.
use open_allocator.Base.{
  ℕ, suc, ◌+◌, String, Bool, true, false, inl, inr, Option, none, some, List, [], ◌∷◌, ◌++◌,
  Bool-cases, Option-cases, length, ◌||◌,
}
use open_allocator.Base.Dict.{lookup}
use open_allocator.Base.Equality.{number_equality}
use open_allocator.Base.Outcome.{Outcome, ok, err}
use open_allocator.Cctp.{TxStep}
use open_allocator.Funding.{LedgerOperation}
use open_allocator.Funding.Reading.{check_operations, is_funded}
use open_allocator.Execution.{
  Failure, underfunded, PlannedBundle, TxPlan, Operation, steps_of, bundles_of, operations,
  planned_bundles,
}
use open_allocator.Execution.Signers.{Signer, supports_batching}
use open_allocator.Execution.Estimates.{WalletPreparation, is_nonempty}
use open_allocator.Execution.Preparing.{PlanPreparation, ledger_operations, prepared_plan}
use open_allocator.Execution.Session.{
  Receipt, SendAnswer, received, unsent, lost, Event, sent_batch, lost_batch, saved, Run, returns,
  catching, ◌>>=◌, ◌>>◌, World, happen, needs_refresh, read_clock, record_bundle,
}
use open_allocator.Execution.Preflight.{preflight}
use open_allocator.Execution.Sends.{
  send_calls, send_each, report_batch, record_batch, send_together, send_operation, send_outcome,
}
use open_allocator.Execution.Submitting.{
  write_partial, raises_after, rebuilt_if, refresh_item, refresh_items, refreshed, recheck,
  run_pending, execute_bundles, execute_items, execute_plan, BundleExecution, url_for, lift,
  next_operation, send_checked, pending_since, carry, executed, execute_prepared, unless_refused,
  refusal, as_broadcast, started, unsettled_if,
}
use open_allocator.Execution.Steps.{Store, Closed, Keeps, >>=-Keeps, catching-Keeps}
use open_allocator.Execution.Marking.{J, record_bundle-Keeps, send_calls-Keeps}

module _ (w : World) (I : Store → List Event → Type 0) (c : Closed w I) where
  abbrev K {ℓ} : {A : Type ℓ} → Run A → Type 0
  K m = Keeps (J w I c) m

  send_each-Keeps :
      (op : Operation) (offset : ℕ) (items : List PlannedBundle) (url : String)
      → K (send_each w op offset items url)
  unfolding send_each
  send_each-Keeps op offset [] url = λ s h. h
  send_each-Keeps op offset (item ∷ items) url =
      >>=-Keeps (J w I c) (send_calls w item offset 0 item.steps url none) _
        (send_calls-Keeps w I c item offset 0 item.steps url none)
        (λ last.
          >>=-Keeps (J w I c) (record_bundle w op item last) _
            (record_bundle-Keeps w I c op item last)
            (λ _. send_each-Keeps op (offset + length item.steps) items url))

  report_batch-Keeps :
      (item : PlannedBundle) (index : ℕ) (steps : List TxStep) (receipt : Receipt)
      → K (report_batch item index steps receipt)
  unfolding report_batch
  report_batch-Keeps item index [] receipt = λ s h. h
  report_batch-Keeps item index (step ∷ steps) receipt =
      λ s h. report_batch-Keeps item (suc index) steps receipt _ h

  record_batch-Keeps :
      (op : Operation) (offset : ℕ) (items : List PlannedBundle) (receipt : Receipt)
      → K (record_batch w op offset items receipt)
  unfolding record_batch
  record_batch-Keeps op offset [] receipt = λ s h. h
  record_batch-Keeps op offset (item ∷ items) receipt =
      >>=-Keeps (J w I c) (report_batch item offset item.steps receipt) _
        (report_batch-Keeps item offset item.steps receipt)
        (λ _.
          >>=-Keeps (J w I c) (record_bundle w op item (some receipt)) _
            (record_bundle-Keeps w I c op item (some receipt))
            (λ _. record_batch-Keeps op (offset + length item.steps) items receipt))

  batch_sent-Keeps :
      (steps : List TxStep) (answer : SendAnswer)
      → K (send_outcome answer (sent_batch steps) (lost_batch steps))
  batch_sent-Keeps steps (unsent f) = λ s h. h
  batch_sent-Keeps steps (lost f) = λ s h. c.on_lost_batch s.store s.trace steps h
  batch_sent-Keeps steps (received r) = λ s h. c.on_batch s.store s.trace steps r h

  send_operation-Keeps :
      (batching : Bool) (op : Operation) (offset : ℕ) (url : String)
      → K (send_operation batching w op offset url)
  unfolding send_operation send_together
  send_operation-Keeps true op offset url =
      let steps = steps_of op.bundles in
      >>=-Keeps (J w I c)
        (λ s. send_outcome (w.send_batch s.trace steps url) (sent_batch steps) (lost_batch steps) s)
        _ (λ s. batch_sent-Keeps steps (w.send_batch s.trace steps url) s)
        (λ receipt. record_batch-Keeps op offset op.bundles receipt)
  send_operation-Keeps false op offset url = send_each-Keeps op offset op.bundles url

  saved-Keeps : (answer : Outcome Failure (Unit {0})) → K (happen answer saved)
  saved-Keeps (err f) = λ s h. h
  saved-Keeps (ok u) = λ s h. c.on_saved s.store s.trace h

  raises_after-Keeps {ℓ} :
      (A : Type ℓ) (items : List PlannedBundle) (f : Failure) → K {A = A} (raises_after w items f)
  raises_after-Keeps A items f =
      >>=-Keeps (J w I c) (write_partial w items) _
        (λ s. saved-Keeps (w.checkpoint s.trace items s.completed) s) (λ _ s h. h)

  read_clock-Keeps : K (read_clock w)
  read_clock-Keeps s h = c.on_timed s.store s.trace (w.clock s.trace) h

  rebuilt_if-Keeps : (item : PlannedBundle) (b : Bool) → K (rebuilt_if w item b)
  rebuilt_if-Keeps item false = λ s h. h
  rebuilt_if-Keeps item true =
      >>=-Keeps (J w I c) (read_clock w)
        (λ now.
          (λ s. (s, w.refresh s.trace item.bundle now)) >>= (λ rebuilt. returns (rebuilt, true)))
        read_clock-Keeps
        (λ now.
          >>=-Keeps (J w I c) (λ s. (s, w.refresh s.trace item.bundle now))
            (λ rebuilt. returns (rebuilt, true)) (λ s h. h) (λ rebuilt s h. h))

  refresh_item-Keeps : (item : PlannedBundle) → K (refresh_item w item)
  unfolding refresh_item
  refresh_item-Keeps item s h =
      rebuilt_if-Keeps item (needs_refresh item.bundle w.min_ttl (w.clock s.trace)) _
        (read_clock-Keeps s h)

  refresh_items-Keeps : (items : List PlannedBundle) → K (refresh_items w items)
  unfolding refresh_items
  refresh_items-Keeps [] = λ s h. h
  refresh_items-Keeps (item ∷ items) =
      >>=-Keeps (J w I c) (refresh_item w item) _ (refresh_item-Keeps item) (λ first.
        >>=-Keeps (J w I c) (refresh_items w items) _ (refresh_items-Keeps items) (λ rest s h. h))

  refreshed-Keeps : (op : Operation) → K (refreshed w op)
  unfolding refreshed
  refreshed-Keeps op =
      >>=-Keeps (J w I c) (refresh_items w op.bundles) _ (refresh_items-Keeps op.bundles)
        (λ items s h. h)

  recheck-Keeps :
      (moved : Bool) (preparations : List WalletPreparation) (unsettled : List LedgerOperation)
      (ops : List Operation) (items : List PlannedBundle)
      → K (recheck moved w preparations unsettled ops items)
  unfolding recheck
  recheck-Keeps false preparations unsettled ops items s h = h
  recheck-Keeps true preparations unsettled ops items s h =
      elim (Bool-cases (
        is_funded (
          check_operations (ledger_operations ops preparations s.store) (w.reads s.trace).balance
            (w.reads s.trace).slippage unsettled))) [
              | inl p ↦ rw p h
              | inr p ↦ rw p (raises_after-Keeps _ items underfunded s h)
            ]

  url_for-Keeps : (found : Option String) → K (url_for found)
  url_for-Keeps none = λ s h. h
  url_for-Keeps (some url) = λ s h. h

  next_operation-Keeps :
      (settled : List PlannedBundle) (first : Operation) (ops : List Operation)
      → K (next_operation w settled first ops)
  unfolding next_operation
  next_operation-Keeps settled first ops =
      catching-Keeps (J w I c) (refreshed w first) _ (refreshed-Keeps first)
        (λ f. raises_after-Keeps _ _ f)

  send_checked-Keeps :
      (batching : Bool) (settled : List PlannedBundle) (op : Operation) (ops : List Operation)
      (url : String)
      → K (send_checked batching w settled op ops url)
  unfolding send_checked pending_since
  send_checked-Keeps batching settled op ops url s h =
      >>=-Keeps (J w I c)
        (catching (send_operation batching w op (length (steps_of settled)) url)
          (λ f. raises_after w (settled ++ (op.bundles ++ bundles_of ops)) (as_broadcast f)))
        (λ _. pending_since (length s.receipts))
        (catching-Keeps (J w I c) (send_operation batching w op (length (steps_of settled)) url) _
          (send_operation-Keeps batching op (length (steps_of settled)) url)
          (λ f. raises_after-Keeps _ _ _))
        (λ _ t i. i) s h

  carry-Keeps :
      (batching : Bool) (preparations : List WalletPreparation) (urls : List (ℕ × String))
      (settled : List PlannedBundle) (unsettled : List LedgerOperation) (next : Operation × Bool)
      (ops : List Operation)
      → K (carry batching w preparations urls settled unsettled next ops)
  unfolding carry
  carry-Keeps batching preparations urls settled unsettled (op, is_rebuilt) ops =
      >>=-Keeps (J w I c)
        (recheck (is_nonempty settled || is_rebuilt) w preparations unsettled (op ∷ ops)
          (settled ++ (op.bundles ++ bundles_of ops)))
        (λ _. url_for (lookup op.chain_id urls) >>= send_checked batching w settled op ops)
        (recheck-Keeps (is_nonempty settled || is_rebuilt) preparations unsettled (op ∷ ops)
          (settled ++ (op.bundles ++ bundles_of ops)))
        (λ _.
          >>=-Keeps (J w I c) (url_for (lookup op.chain_id urls))
            (send_checked batching w settled op ops) (url_for-Keeps (lookup op.chain_id urls))
            (send_checked-Keeps batching settled op ops))

  run_pending-Keeps :
      (batching : Bool) (preparations : List WalletPreparation) (urls : List (ℕ × String))
      (settled : List PlannedBundle) (unsettled : List LedgerOperation) (ops : List Operation)
      → K (run_pending batching w preparations urls settled unsettled ops)
  unfolding run_pending
  run_pending-Keeps batching preparations urls settled unsettled [] = λ s h. h
  run_pending-Keeps batching preparations urls settled unsettled (first ∷ ops) =
      let rest : Operation × Bool → Bool → Run (List PlannedBundle) = λ next pending.
        run_pending batching w preparations urls (settled ++ next.0.bundles)
          (unsettled_if pending unsettled next.0 preparations) ops in
      >>=-Keeps (J w I c) (next_operation w settled first ops)
        (λ next. carry batching w preparations urls settled unsettled next ops >>= rest next)
        (next_operation-Keeps settled first ops)
        (λ next.
          >>=-Keeps (J w I c) (carry batching w preparations urls settled unsettled next ops)
            (rest next) (carry-Keeps batching preparations urls settled unsettled next ops)
            (λ pending.
              run_pending-Keeps batching preparations urls (settled ++ next.0.bundles)
                (unsettled_if pending unsettled next.0 preparations) ops))

  preflight-Keeps : (store : Store) (items : List PlannedBundle) → K (preflight w store items)
  unfolding preflight
  preflight-Keeps store items s h = elim (Option-cases w.paymaster_preflight) [
    | inl e ↦ rw e h
    | inr (validate, e) ↦ rw e h
  ]

  execute_prepared-Keeps :
      (batching : Bool) (items : List PlannedBundle) (p : PlanPreparation)
      → K (execute_prepared batching w items p)
  unfolding execute_prepared
  execute_prepared-Keeps batching items p =
      let run : List (ℕ × String) → Run (List PlannedBundle) =
        λ urls. run_pending batching w p.preparations urls [] [] (operations items batching) in
      >>=-Keeps (J w I c) (λ s. preflight w s.store items s)
        (λ urls. started >> (run urls >>= executed)) (λ s. preflight-Keeps s.store items s)
        (λ urls s h.
          >>=-Keeps (J w I c) (run urls) executed
            (run_pending-Keeps batching p.preparations urls [] [] (operations items batching))
            (λ settled t i. i) (record s { steps = []; receipts = []; completed = [] }) h)

  unless_refused-Keeps :
      (reason : Option Failure) (run : Run BundleExecution) → K run → K (unless_refused reason run)
  unless_refused-Keeps none run k s h = k s h
  unless_refused-Keeps (some f) run k s h = h

  execute_bundles-Keeps :
      (signer : Signer) (items : List PlannedBundle) → K (execute_bundles signer w items)
  unfolding execute_bundles
  execute_bundles-Keeps signer items =
      >>=-Keeps (J w I c) (λ s. (s, prepared_plan signer (w.reads s.trace) s.store items))
        (λ p. unless_refused (refusal p) (execute_prepared (supports_batching signer) w items p))
        (λ s h. h)
        (λ p.
          unless_refused-Keeps (refusal p) _
            (execute_prepared-Keeps (supports_batching signer) items p))

  execute_items-Keeps :
      (signer : Signer) (plan : TxPlan) (items : List PlannedBundle)
      → K (execute_items signer w plan items)
  execute_items-Keeps signer plan [] = λ s h. h
  execute_items-Keeps signer plan (item ∷ items) = execute_bundles-Keeps signer (item ∷ items)

  pub execute_plan-Keeps : (signer : Signer) (plan : TxPlan) → K (execute_plan signer w plan)
  unfolding execute_plan
  execute_plan-Keeps signer plan =
      >>=-Keeps (J w I c) (lift (planned_bundles plan)) _ (λ s h. h)
        (execute_items-Keeps signer plan)
