-- ===== src/Execution/Session.antt =====
-- exec/bundle_execution.py: the state of `execute_plan` and the steps that change it. Whatever is
-- outside sees all that happened before, in `Session.trace`, the latest first.
use open_allocator.Base.{
  ℕ, ◌-◌, Bool, true, false, Option, none, some, String, List, [], ◌∷◌, ◌++◌, ltb, leb,
  if◌then◌else◌,
}
use open_allocator.Base.Outcome.{Outcome, ok, err}
use open_allocator.Bundle.{TxBundle}
use open_allocator.Cctp.{TxStep}
use open_allocator.Execution.Signers.{Reads}
use open_allocator.Execution.{
  Failure, bundle_record, PlannedBundle, Operation, StoreKey, key_of, leg_key,
}

pub data ExecutionStatus : Type 0 where
  mined safe_proposed safe_executed user_operation_submitted : ExecutionStatus

-- The fields of `Receipt` that the execution reads.
pub record Receipt : Type 0 where
  pub transaction_hash : String
  pub pending : Bool
  pub execution_status : ExecutionStatus

pub data StepStatus : Type 0 where
  sent skipped : StepStatus

-- `ExecutionStepReport`
pub record StepReport : Type 0 where
  pub leg_index : ℕ
  pub step_index : ℕ
  pub instrument_id : String
  pub status : StepStatus
  pub step : TxStep
  pub receipt : Option Receipt
  pub idempotency_key : StoreKey

-- What a signer's send does: it returns a receipt, or it raises. It may raise although the
-- transaction went out, as LocalEoaSigner.send of exec/signer.py does where the receipt does not come
-- in time or reports a revert; then the transaction is `lost`.
pub data SendAnswer : Type 0 where
  received : Receipt → SendAnswer
  unsent lost : Failure → SendAnswer

-- What happened outside: a reading of the clock, a call that went out on its own and a batch, each
-- with its receipt or lost, the hook's return, a mark in the store, a log entry, and a checkpoint.
pub data Event : Type 0 where
  timed : ℕ → Event
  sent_call : StoreKey → Receipt → Event
  lost_call : StoreKey → Event
  sent_batch : List TxStep → Receipt → Event
  lost_batch : List TxStep → Event
  hooked marked logged : StoreKey → Event
  saved : Event

pub record Session : Type 0 where
  pub store : Option (List StoreKey)
  pub trace : List Event
  pub steps : List StepReport
  pub receipts : List Receipt
  pub completed : List StoreKey

abbrev pub Run {ℓ} : Type ℓ → Type ℓ
Run A = Session → Session × Outcome Failure A

abbrev pub returns {ℓ} : {A : Type ℓ} → A → Run A
returns a s = (s, ok a)

abbrev pub raises {ℓ} : {A : Type ℓ} → Failure → Run A
raises failure s = (s, err failure)

abbrev pub continue {ℓ κ} :
    {A : Type ℓ} {B : Type κ}
    → Session × Outcome Failure A
    → (A → Run B)
    → Session × Outcome Failure B
continue (s, err failure) rest = (s, err failure)
continue (s, ok a) rest = rest a s

infixl 5 ◌>>=◌ ◌>>◌
abbrev pub ◌>>=◌ {ℓ κ} : {A : Type ℓ} {B : Type κ} → Run A → (A → Run B) → Run B
(call >>= rest) s = continue (call s) rest

abbrev pub ◌>>◌ {κ} : {B : Type κ} → Run (Unit {0}) → Run B → Run B
call >> rest = call >>= λ _. rest

-- What `try` ... `except` does with a failure.
abbrev pub handled {ℓ} :
    {A : Type ℓ} → Session × Outcome Failure A → (Failure → Run A) → Session × Outcome Failure A
handled (s, err failure) handler = handler failure s
handled (s, ok a) handler = (s, ok a)

abbrev pub catching {ℓ} : {A : Type ℓ} → Run A → (Failure → Run A) → Run A
catching call handler s = handled (call s) handler

-- An event that happens if the outside lets it.
abbrev pub happen : Outcome Failure (Unit {0}) → Event → Run (Unit {0})
happen (err failure) event s = (s, err failure)
happen (ok u) event s = (record s { trace = event ∷ s.trace }, ok tt)

-- `_store_mark_completed`; without a store nothing is marked.
abbrev marked_in : Option (List StoreKey) → StoreKey → Outcome Failure (Unit {0}) → Run (Unit {0})
marked_in none key answer s = (s, ok tt)
marked_in (some keys) key (err failure) s = (s, err failure)
marked_in (some keys) key (ok u) s =
    (record s { store = some (key ∷ keys); trace = marked key ∷ s.trace }, ok tt)

unfoldable pub store_mark_completed :
    (List Event → StoreKey → Outcome Failure (Unit {0})) → StoreKey → Run (Unit {0})
store_mark_completed mark key s = marked_in s.store key (mark s.trace key) s

-- What a run is given besides the plan: the signer's sends, the clock, the balances and RPCs, the
-- shortest lifetime of a quote, the paymaster's preflight where one is used, the chains without a
-- transaction service, the native gas check, `refresh_bundle`, `completion_key`, the hook, the
-- store's writing, `log` together with the allocation log, and the checkpoint.
pub record World : Type 0 where
  pub send : List Event → TxStep → String → SendAnswer
  pub send_batch : List Event → List TxStep → String → SendAnswer
  pub clock : List Event → ℕ
  pub reads : List Event → Reads
  pub min_ttl : ℕ
  pub paymaster_preflight : Option (List ℕ → Outcome Failure (List (ℕ × String)))
  pub without_service : List ℕ → List ℕ
  pub gas_ok : ℕ → String → Bool
  pub refresh : List Event → TxBundle → ℕ → Outcome Failure PlannedBundle
  pub completion_key : TxBundle → String
  pub on_submitted :
      Option (List Event → PlannedBundle → Operation → Option Receipt → Outcome Failure (Unit {0}))
  pub mark : List Event → StoreKey → Outcome Failure (Unit {0})
  pub log : List Event → PlannedBundle → Receipt → Outcome Failure Bool
  pub checkpoint : List Event → List PlannedBundle → List StoreKey → Outcome Failure (Unit {0})

abbrev pub read_clock : World → Run ℕ
read_clock w s = (record s { trace = timed (w.clock s.trace) ∷ s.trace }, ok (w.clock s.trace))

-- `calldata.needs_refresh`
unfoldable pub needs_refresh : TxBundle → ℕ → ℕ → Bool
needs_refresh bundle min_ttl now = elim bundle.expires_at [
  | none ↦ false
  | some expiry ↦ if leb expiry now then true else ltb (expiry - now) min_ttl
]

abbrev pub hook_if :
    Option (List Event → PlannedBundle → Operation → Option Receipt → Outcome Failure (Unit {0}))
    → PlannedBundle
    → Operation
    → Option Receipt
    → Run (Unit {0})
hook_if none item op receipt s = (s, ok tt)
hook_if (some hook) item op receipt s =
    happen (hook s.trace item op receipt) (hooked (key_of item)) s

-- `log` gives no entry for a bundle that is not logged.
abbrev pub logged_if : StoreKey → Outcome Failure Bool → Run (Unit {0})
logged_if key (err failure) s = (s, err failure)
logged_if key (ok false) s = (s, ok tt)
logged_if key (ok true) s = (record s { trace = logged key ∷ s.trace }, ok tt)

abbrev pub log_if : World → PlannedBundle → Option Receipt → Run (Unit {0})
log_if w item none s = (s, ok tt)
log_if w item (some receipt) s = logged_if (key_of item) (w.log s.trace item receipt) s

-- `_complete` after the hook
unfoldable pub mark_bundle : World → PlannedBundle → Option Receipt → Run (List StoreKey)
unfolding store_mark_completed
mark_bundle w item receipt = do
  store_mark_completed w.mark (key_of item)
  store_mark_completed w.mark (leg_key (w.completion_key item.bundle))
  log_if w item receipt
  returns (key_of item ∷ leg_key (w.completion_key item.bundle) ∷ [])

-- `_complete`
unfoldable pub complete : World → Operation → PlannedBundle → Option Receipt → Run (List StoreKey)
unfolding mark_bundle
complete w op item receipt = do hook_if w.on_submitted item op receipt; mark_bundle w item receipt

abbrev pub add_completed : List StoreKey → Run (Unit {0})
add_completed keys s = (record s { completed = s.completed ++ keys }, ok tt)

-- `completed.extend(_record(...))`
unfoldable pub record_bundle : World → Operation → PlannedBundle → Option Receipt → Run (Unit {0})
unfolding complete
record_bundle w op item receipt = do
  keys ← catching (complete w op item receipt) (λ _. raises bundle_record)
  add_completed keys

-- `_step_report`, added to the report
abbrev pub report_step :
    PlannedBundle → ℕ → TxStep → StepStatus → Option Receipt → StoreKey → Run (Unit {0})
report_step item step_index step status receipt key s = (
  record s {
    steps =
        s.steps
        ++ record {
          leg_index = item.bundle.leg_index;
          step_index = step_index;
          instrument_id = item.bundle.instrument_id;
          status = status;
          step = step;
          receipt = receipt;
          idempotency_key = key;
        }
          ∷ [];
  },
  ok tt,
)
