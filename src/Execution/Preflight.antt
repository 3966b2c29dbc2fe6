-- ===== src/Execution/Preflight.antt =====
-- exec/execute.py: the check of RPCs and gas on the chains of a plan.
use open_allocator.Base.{
  ℕ, suc, Bool, false, not, ◌||◌, Option, none, some, String, List, [], ◌∷◌, ◌++◌, all,
  if◌then◌else◌,
}
use open_allocator.Base.Outcome.{Outcome, ok, err}
use open_allocator.Base.Equality.{contains, number_equality}
use open_allocator.Cctp.{TxStep}
use open_allocator.Execution.{
  Failure, gas_preflight, PlannedBundle, StoreKey, call_key_of, sort_indexes,
}
use open_allocator.Execution.Signers.{Reads}
use open_allocator.Execution.Preparing.{store_completed}
use open_allocator.Execution.Estimates.{is_nonempty}
use open_allocator.Execution.Session.{Run, World}

-- The chains of the calls that are not completed, which `_preflight` checks.
unfoldable pub open_chains_of : Option (List StoreKey) → PlannedBundle → ℕ → List TxStep → List ℕ
unfolding store_completed
open_chains_of store item index [] = []
open_chains_of store item index (step ∷ steps) =
    if store_completed store (call_key_of item index)
    then open_chains_of store item (suc index) steps
    else step.chain_id ∷ open_chains_of store item (suc index) steps

unfoldable pub open_chains : Option (List StoreKey) → List PlannedBundle → List ℕ
unfolding open_chains_of
open_chains store [] = []
open_chains store (item ∷ items) = open_chains_of store item 0 item.steps ++ open_chains store items

-- `sorted(set(...))`
unfoldable pub distinct : List ℕ → List ℕ
unfolding contains
distinct [] = []
distinct (n ∷ ns) = if contains ns n then distinct ns else n ∷ distinct ns

abbrev checks_on : World → ℕ → Option String → Bool
checks_on w chain_id none = false
checks_on w chain_id (some url) = w.gas_ok chain_id url

abbrev url_entry : ℕ → Option String → List (ℕ × String)
url_entry chain_id none = []
url_entry chain_id (some url) = (chain_id, url) ∷ []

unfoldable pub rpc_urls : (ℕ → Option String) → List ℕ → List (ℕ × String)
rpc_urls rpc_url [] = []
rpc_urls rpc_url (chain_id ∷ chain_ids) =
    url_entry chain_id (rpc_url chain_id) ++ rpc_urls rpc_url chain_ids

abbrev pub checked_urls : World → Reads → List ℕ → Outcome Failure (List (ℕ × String))
checked_urls w reads chain_ids =
    if is_nonempty (w.without_service chain_ids)
      || not (all (λ chain_id. checks_on w chain_id (reads.rpc_url chain_id)) chain_ids)
    then err gas_preflight
    else ok (rpc_urls reads.rpc_url chain_ids)

-- `_preflight`
unfoldable pub preflight :
    World → Option (List StoreKey) → List PlannedBundle → Run (List (ℕ × String))
unfolding open_chains distinct sort_indexes rpc_urls
preflight w store items s =
    let chain_ids = sort_indexes (distinct (open_chains store items)) in
    elim w.paymaster_preflight [
      | some validate ↦ (s, validate chain_ids)
      | none ↦ (s, checked_urls w (w.reads s.trace) chain_ids)
    ]
