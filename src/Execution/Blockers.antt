-- ===== src/Execution/Blockers.antt =====
-- exec/bundle_execution.py: what about a signer or a chain stands in the way of a plan. The
-- texts of the messages are left out; a blocker keeps what it is about.
use open_allocator.Base.{
  ℕ, Bool, Option, none, some, String, List, [], ◌∷◌, ◌++◌, is_some, if◌then◌else◌,
}
use open_allocator.Base.Equality.{contains, string_equality, number_equality}
use open_allocator.Bundle.{TxBundle}
use open_allocator.Execution.{PlannedBundle, store_key_equality}
use open_allocator.Execution.Signers.{Signer, supports_batching, Reads}

pub data Blocker : Type 0 where
  loops_need_batching expiring_quotes : List String → Blocker
  no_rpc not_deployed : ℕ → Blocker

abbrev pub ids_where : (TxBundle → Bool) → List PlannedBundle → List String
ids_where p [] = []
ids_where p (item ∷ items) =
    if p item.bundle then item.bundle.bundle_id ∷ ids_where p items else ids_where p items

abbrev pub blocker_if : (List String → Blocker) → List String → List Blocker
blocker_if f [] = []
blocker_if f (i ∷ ids) = f (i ∷ ids) ∷ []

-- `_loop_blockers`
unfoldable pub loop_blockers : Signer → List PlannedBundle → List Blocker
loop_blockers signer items =
    if supports_batching signer
    then []
    else blocker_if loops_need_batching (ids_where (λ (b : TxBundle). b.is_loop) items)

-- `_submission_mode_blockers`
unfoldable pub submission_mode_blockers : Signer → List PlannedBundle → List Blocker
submission_mode_blockers signer items =
    if signer.proposes_asynchronously
    then blocker_if expiring_quotes (ids_where (λ (b : TxBundle). is_some b.expires_at) items)
    else []

-- `dict.fromkeys`, after the ones that were seen
unfoldable pub chains_after : List ℕ → List PlannedBundle → List ℕ
unfolding contains
chains_after seen [] = []
chains_after seen (item ∷ items) =
    if contains seen item.bundle.chain_id
    then chains_after seen items
    else item.bundle.chain_id ∷ chains_after (item.bundle.chain_id ∷ seen) items

abbrev deployment_blocker : (ℕ → String → Bool) → ℕ → Option String → List Blocker
deployment_blocker deployed chain_id none = no_rpc chain_id ∷ []
deployment_blocker deployed chain_id (some url) =
    if deployed chain_id url then [] else not_deployed chain_id ∷ []

unfoldable pub deployment_blockers_on :
    (ℕ → String → Bool) → (ℕ → Option String) → List ℕ → List Blocker
deployment_blockers_on deployed rpc_url [] = []
deployment_blockers_on deployed rpc_url (chain_id ∷ chain_ids) =
    deployment_blocker deployed chain_id (rpc_url chain_id)
    ++ deployment_blockers_on deployed rpc_url chain_ids

-- `_deployment_blockers`
unfoldable pub deployment_blockers :
    Signer → (ℕ → Option String) → List PlannedBundle → List Blocker
unfolding deployment_blockers_on chains_after
deployment_blockers signer rpc_url items = elim signer.is_deployed [
  | none ↦ []
  | some deployed ↦ deployment_blockers_on deployed rpc_url (chains_after [] items)
]

unfoldable pub mode_blockers : Signer → Reads → List PlannedBundle → List Blocker
unfolding loop_blockers submission_mode_blockers deployment_blockers
mode_blockers signer reads items =
    loop_blockers signer items
    ++ (submission_mode_blockers signer items ++ deployment_blockers signer reads.rpc_url items)
