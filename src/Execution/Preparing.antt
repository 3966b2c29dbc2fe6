-- ===== src/Execution/Preparing.antt =====
-- exec/bundle_execution.py: the preparation of a plan, what is checked and estimated before
-- anything is sent.
use open_allocator.Base.{
  ℕ, Bool, false, Option, none, some, String, List, [], ◌∷◌, map, length, any, if◌then◌else◌,
}
use open_allocator.Base.Outcome.{Outcome, ok, ◌>>=◌}
use open_allocator.Base.Text.{Text}
use open_allocator.Base.Equality.{contains, same_list, string_equality, number_equality}
use open_allocator.Bundle.{TxBundle}
use open_allocator.Funding.{LedgerOperation, FundingRequirement}
use open_allocator.Funding.Reading.{check_operations, is_funded}
use open_allocator.Execution.{
  Failure, PlannedBundle, TxPlan, Operation, bundle_ids, StoreKey, store_key_equality, call_key_of,
  range_from, operations, planned_bundles,
}
use open_allocator.Execution.Signers.{Signer, supports_batching, Reads}
use open_allocator.Execution.Blockers.{Blocker, mode_blockers}
use open_allocator.Execution.Estimates.{WalletPreparation, is_nonempty, estimates}

-- `PlanPreparation`
pub record PlanPreparation : Type 0 where
  pub preparations : List WalletPreparation
  pub funding : List FundingRequirement
  pub blockers : List Blocker

-- `_store_completed` on one of the stores that the commands hand over, or on none
unfoldable pub store_completed : Option (List StoreKey) → StoreKey → Bool
unfolding contains
store_completed none key = false
store_completed (some keys) key = contains keys key

abbrev pub is_partly_sent : Option (List StoreKey) → PlannedBundle → Bool
is_partly_sent store item =
    any (λ index. store_completed store (call_key_of item index)) (range_from 0 (length item.steps))

unfoldable pub unsent_bundles : Option (List StoreKey) → List PlannedBundle → List TxBundle
unfolding store_completed range_from
unsent_bundles store [] = []
unsent_bundles store (item ∷ items) =
    if is_partly_sent store item
    then unsent_bundles store items
    else item.bundle ∷ unsent_bundles store items

-- `{item.bundle_ids: item for item in preparations}.get(ids)`, where the last entry counts
unfoldable pub charge_for : List WalletPreparation → List String → Option WalletPreparation
unfolding same_list
charge_for [] ids = none
charge_for (w ∷ ws) ids = elim (charge_for ws ids) [
  | none ↦ if same_list w.bundle_ids ids then some w else none
  | some later ↦ some later
]

abbrev gas_of : Option WalletPreparation → Option Text × Option ℕ
gas_of none = (none, none)
gas_of (some w) = elim w.paymaster_token [
  | none ↦ (none, none)
  | some token ↦ elim w.max_gas_token_charge_raw [
    | none ↦ (none, none)
    | some charge ↦ (some token, some charge)
  ]
]

unfoldable pub ledger_operation :
    List WalletPreparation → Option (List StoreKey) → Operation → LedgerOperation
unfolding unsent_bundles charge_for
ledger_operation preparations store op =
    let gas = gas_of (charge_for preparations (bundle_ids op)) in
    record {
      chain_id = op.chain_id;
      bundles = unsent_bundles store op.bundles;
      gas_token = gas.0;
      gas_charge_raw = gas.1;
    }

-- `_ledger_operations`
unfoldable pub ledger_operations :
    List Operation → List WalletPreparation → Option (List StoreKey) → List LedgerOperation
unfolding ledger_operation
ledger_operations grouped preparations store = map (ledger_operation preparations store) grouped

abbrev pub estimates_of : Signer → Reads → List Operation → Outcome Failure (List WalletPreparation)
estimates_of signer reads grouped = elim signer.prepare_batch [
  | none ↦ ok []
  | some prepare ↦ estimates prepare reads.rpc_url grouped
]

-- `_prepare` after the bundles were read
unfoldable pub prepared_plan :
    Signer → Reads → Option (List StoreKey) → List PlannedBundle → Outcome Failure PlanPreparation
unfolding operations mode_blockers estimates ledger_operations check_operations
prepared_plan signer reads store items =
    let grouped = operations items (supports_batching signer) in
    do
      preparations ← estimates_of signer reads grouped
      ok (record {
        preparations = preparations;
        funding =
            check_operations (ledger_operations grouped preparations store) reads.balance
              reads.slippage [];
        blockers = mode_blockers signer reads items;
      })

abbrev nothing_prepared : PlanPreparation
nothing_prepared = record { preparations = []; funding = []; blockers = [] }

-- `_prepare`
unfoldable pub prepare :
    Signer → Reads → Option (List StoreKey) → TxPlan → Outcome Failure PlanPreparation
unfolding planned_bundles prepared_plan
prepare signer reads store plan = do
  items ← planned_bundles plan
  if is_nonempty items then prepared_plan signer reads store items else ok nothing_prepared

-- `PlanPreparation.funded`
abbrev pub funded : PlanPreparation → Bool
funded p = is_funded p.funding
