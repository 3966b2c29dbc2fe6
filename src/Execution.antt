-- ===== src/Execution.antt =====
-- exec/bundle_execution.py: a plan's bundles, and the wallet operations that carry them.
use open_allocator.Base.{
  ℕ, zero, suc, ◌+◌, Bool, true, false, ◌&&◌, ◌||◌, not, Option, none, some, String, List, [], ◌∷◌,
  ◌++◌, map, length, get_elem?, leb, ◌==◌, is_some, if◌then◌else◌,
}
use open_allocator.Base.Outcome.{Outcome, ok, err, ◌>>=◌, ◌>>◌, guard}
use open_allocator.Base.Text.{Text}
use open_allocator.Base.Equality.{same_list, number_equality}
use open_allocator.Bundle.{TxBundle}
use open_allocator.Cctp.{TxStep}
use open_allocator.Eligibility.{present}
mod Keys
pub mod Grouping
pub mod Signers
pub mod Blockers
pub mod Estimates
pub mod Preparing
pub mod Session
pub mod Preflight
pub mod Sends
pub mod Submitting
pub mod Steps
pub mod Marking
pub mod Passes
pub mod Layout
pub mod Reruns
pub mod Records
pub mod Refusals
mod Tests
unfoldable pub use Keys.{store_key_equality}
pub use Keys.*

-- What is raised. `key_error` is Python's, for a chain that the gas preflight left out.
pub data Failure : Type 0 where
  plan_error paymaster broadcast bundle_record submission_mode underfunded : Failure
  simulation_reverted gas_preflight key_error : Failure
  other : String → Failure

-- `PlannedBundle`
pub record PlannedBundle : Type 0 where
  pub bundle : TxBundle
  pub steps : List TxStep

-- `TxPlan`, without its summary
pub record TxPlan : Type 0 where
  pub steps : List TxStep
  pub bundles : List TxBundle

-- `Operation`
pub record Operation : Type 0 where
  pub chain_id : ℕ
  pub bundles : List PlannedBundle

-- `Operation.steps`
abbrev pub steps_of : List PlannedBundle → List TxStep
steps_of [] = []
steps_of (item ∷ items) = item.steps ++ steps_of items

-- `Operation.bundle_ids`
abbrev pub bundle_ids : Operation → List String
bundle_ids op = map (λ (item : PlannedBundle). item.bundle.bundle_id) op.bundles

-- `PlannedBundle.key` and `PlannedBundle.call_key`
abbrev pub key_of : PlannedBundle → StoreKey
key_of item = bundle_key item.bundle.bundle_id item.bundle.digest

abbrev pub call_key_of : PlannedBundle → ℕ → StoreKey
call_key_of item index = call_key item.bundle.bundle_id item.bundle.digest index

abbrev pub single : PlannedBundle → Operation
single item = record { chain_id = item.bundle.chain_id; bundles = item ∷ [] }

abbrev pub joined : Operation → PlannedBundle → Operation
joined op item = record op { bundles = op.bundles ++ item ∷ [] }

-- The operations from a last one that may still grow.
unfoldable pub operations_from : Bool → Operation → List PlannedBundle → List Operation
operations_from batching last [] = last ∷ []
operations_from batching last (item ∷ items) =
    let merges = batching && last.chain_id == item.bundle.chain_id in
    let rest = operations_from batching (if merges then joined last item else single item) items in
    if merges then rest else last ∷ rest

-- `operations`
unfoldable pub operations : List PlannedBundle → Bool → List Operation
unfolding operations_from
operations [] batching = []
operations (item ∷ items) batching = operations_from batching (single item) items

abbrev pub bundles_of : List Operation → List PlannedBundle
bundles_of [] = []
bundles_of (op ∷ ops) = op.bundles ++ bundles_of ops

-- `range(first, first + count)`
unfoldable pub range_from : ℕ → ℕ → List ℕ
range_from first zero = []
range_from first (suc n) = first ∷ range_from (suc first) n

abbrev pub placed_at : ℕ → PlannedBundle → TxBundle
placed_at first item = record item.bundle { step_indexes = range_from first (length item.steps) }

unfoldable pub place_from : ℕ → List PlannedBundle → List TxBundle
unfolding range_from
place_from first [] = []
place_from first (item ∷ items) =
    placed_at first item ∷ place_from (first + length item.steps) items

-- `assemble_plan`, before the validator of the plan that it constructs
unfoldable pub assemble_plan : List PlannedBundle → TxPlan
unfolding place_from
assemble_plan items = record { steps = steps_of items; bundles = place_from 0 items }

-- `sorted` on numbers
unfoldable pub insert_index : ℕ → List ℕ → List ℕ
insert_index n [] = n ∷ []
insert_index n (m ∷ ms) = if leb n m then n ∷ m ∷ ms else m ∷ insert_index n ms

unfoldable pub sort_indexes : List ℕ → List ℕ
unfolding insert_index
sort_indexes [] = []
sort_indexes (n ∷ ns) = insert_index n (sort_indexes ns)

abbrev pub indexes_of : List TxBundle → List ℕ
indexes_of [] = []
indexes_of (b ∷ bs) = b.step_indexes ++ indexes_of bs

-- `bundle.step_indexes[0]`; a bundle has at least one step.
abbrev pub first_index : List ℕ → ℕ
first_index [] = 0
first_index (n ∷ ns) = n

-- `sorted(plan.bundles, key=...)`, which keeps the order of equal keys
unfoldable pub insert_bundle : TxBundle → List TxBundle → List TxBundle
insert_bundle b [] = b ∷ []
insert_bundle b (c ∷ cs) =
    if leb (first_index b.step_indexes) (first_index c.step_indexes)
    then b ∷ c ∷ cs
    else c ∷ insert_bundle b cs

unfoldable pub sort_bundles : List TxBundle → List TxBundle
unfolding insert_bundle
sort_bundles [] = []
sort_bundles (b ∷ bs) = insert_bundle b (sort_bundles bs)

abbrev pub planned : List TxStep → TxBundle → PlannedBundle
planned steps b = record { bundle = b; steps = present (map (get_elem? steps) b.step_indexes) }

-- `planned_bundles`
unfoldable pub planned_bundles : TxPlan → Outcome Failure (List PlannedBundle)
unfolding sort_indexes sort_bundles range_from same_list present
planned_bundles plan = do
  guard (same_list (sort_indexes (indexes_of plan.bundles)) (range_from 0 (length plan.steps)))
      plan_error
  ok (map (planned plan.steps) (sort_bundles plan.bundles))
