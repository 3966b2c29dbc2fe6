-- ===== src/Execution/Estimates.antt =====
-- exec/bundle_execution.py: the estimates of a plan's operations, before anything is sent.
use open_allocator.Base.{
  ℕ, ◌+◌, Bool, true, false, Option, none, some, String, List, [], ◌∷◌, ◌++◌, all, seq_eq,
  if◌then◌else◌,
}
use open_allocator.Base.Outcome.{Outcome, ok, err, ◌>>=◌, ◌>>◌, guard}
use open_allocator.Base.Text.{Text, casefold}
use open_allocator.Base.Equality.{string_equality, number_equality}
use open_allocator.Bundle.{BundleRequirement}
use open_allocator.Cctp.{TxStep}
use open_allocator.Execution.{
  Failure, plan_error, simulation_reverted, PlannedBundle, Operation, steps_of, bundle_ids,
  store_key_equality,
}
use open_allocator.Execution.Signers.{Prepared, Answer, estimated, reverts, unavailable, raises}

-- The fields of `WalletPreparation` that the funding check and the execution read.
pub record WalletPreparation : Type 0 where
  pub bundle_ids : List String
  pub chain_id : ℕ
  pub sender : Text
  pub paymaster_token : Option Text
  pub max_gas_token_charge_raw : Option ℕ
  pub assumed_balances : List (Text × ℕ)
  pub simulation_revert : Bool

-- One more requirement, under the first spelling of its token.
unfoldable pub add_required : BundleRequirement → List (Text × ℕ) → List (Text × ℕ)
unfolding casefold seq_eq
add_required r [] = (r.token, r.amount) ∷ []
add_required r ((name, total) ∷ totals) =
    if seq_eq (casefold name) (casefold r.token)
    then (name, total + r.amount) ∷ totals
    else (name, total) ∷ add_required r totals

unfoldable pub required_from : List BundleRequirement → List (Text × ℕ) → List (Text × ℕ)
unfolding add_required
required_from [] totals = totals
required_from (r ∷ rs) totals = required_from rs (add_required r totals)

abbrev requirements_of : List PlannedBundle → List BundleRequirement
requirements_of [] = []
requirements_of (item ∷ items) = item.bundle.requires ++ requirements_of items

-- `_required_balances`
unfoldable pub required_balances : Operation → List (Text × ℕ)
unfolding required_from
required_balances op = required_from (requirements_of op.bundles) []

abbrev pub is_sent_by : Text → PlannedBundle → Bool
is_sent_by sender item = seq_eq (casefold item.bundle.account) (casefold sender)

-- `_wallet_preparation`
unfoldable pub wallet_preparation : Operation → Prepared → Outcome Failure WalletPreparation
unfolding seq_eq casefold
wallet_preparation op prepared = do
  guard (number_equality.same prepared.chain_id op.chain_id) plan_error
  guard (all (is_sent_by prepared.sender) op.bundles) plan_error
  ok (record {
    bundle_ids = bundle_ids op;
    chain_id = prepared.chain_id;
    sender = prepared.sender;
    paymaster_token = prepared.paymaster_token;
    max_gas_token_charge_raw = prepared.max_gas_token_charge_raw;
    assumed_balances = prepared.assumed_balances;
    simulation_revert = false;
  })

abbrev pub is_nonempty {ℓ} : {A : Type ℓ} → List A → Bool
is_nonempty [] = false
is_nonempty (x ∷ xs) = true

-- The estimate of one operation; none where the paymaster cannot prepare before submission.
abbrev first_answer : Operation → Answer → Outcome Failure (Option WalletPreparation)
first_answer op (estimated prepared) = do w ← wallet_preparation op prepared; ok (some w)
first_answer op unavailable = ok none
first_answer op reverts = err simulation_reverted
first_answer op (raises failure) = err failure

-- The second estimate, with the operation's requirements assumed.
abbrev second_answer : Operation → Answer → Outcome Failure (Option WalletPreparation)
second_answer op (estimated prepared) = do
  w ← wallet_preparation op prepared
  ok (some (record w { simulation_revert = is_nonempty prepared.assumed_balances }))
second_answer op unavailable = ok none
second_answer op reverts = err simulation_reverted
second_answer op (raises failure) = err failure

abbrev answer_of :
    (Option (List (Text × ℕ)) → Answer)
    → Operation
    → Answer
    → Outcome Failure (Option WalletPreparation)
answer_of prepare op reverts = second_answer op (prepare (some (required_balances op)))
answer_of prepare op (estimated prepared) = first_answer op (estimated prepared)
answer_of prepare op unavailable = first_answer op unavailable
answer_of prepare op (raises failure) = first_answer op (raises failure)

unfoldable pub estimate :
    (List TxStep → Option String → Option (List (Text × ℕ)) → Answer)
    → (ℕ → Option String)
    → Operation
    → Outcome Failure (Option WalletPreparation)
unfolding wallet_preparation required_balances
estimate prepare rpc_url op =
    let call = prepare (steps_of op.bundles) (rpc_url op.chain_id) in answer_of call op (call none)

abbrev and_rest :
    Outcome Failure (Option WalletPreparation)
    → Outcome Failure (List WalletPreparation)
    → Outcome Failure (List WalletPreparation)
and_rest (err failure) rest = err failure
and_rest (ok none) rest = ok []
and_rest (ok (some w)) rest = do ws ← rest; ok (w ∷ ws)

-- The loop over the operations, which an estimate that is unavailable ends.
unfoldable pub estimates :
    (List TxStep → Option String → Option (List (Text × ℕ)) → Answer)
    → (ℕ → Option String)
    → List Operation
    → Outcome Failure (List WalletPreparation)
unfolding estimate
estimates prepare rpc_url [] = ok []
estimates prepare rpc_url (op ∷ ops) =
    and_rest (estimate prepare rpc_url op) (estimates prepare rpc_url ops)
