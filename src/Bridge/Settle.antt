-- ===== src/Bridge/Settle.antt =====
-- exec/bridge.py: `_settle_destination`, `_redeem` and `_reconcile_destination`.
use open_allocator.Base.{
  ℕ, Bool, true, false, ◌&&◌, Option, none, some, List, [], ◌∷◌, String, str_eq, leb, if◌then◌else◌,
  all, is_some, filter,
}
use open_allocator.Base.Outcome.{Outcome, ok, err, ◌>>=◌, ◌>>◌, guard}
use open_allocator.Base.Int.{ℤ, pos, ◌+ℤ◌, min_ℤ}
use open_allocator.Base.Text.{Text}
use open_allocator.Cctp.{Error, plan_error, other}
use open_allocator.Bridge.{
  BridgeState, awaiting_attestation, destination_ready, destination_submitted, completed, World,
  Receipt, Lookup, reverted, raised, answered, Submission, Executed, Fitted, assert_some,
  assert_text, chain_config,
}

-- A step's result, and what its submission hook saved in the store before it returned or raised.
pub record StepResult : Type 0 where
  pub result : Outcome Error BridgeState
  pub saved : Option BridgeState

abbrev pub pure_step : Outcome Error BridgeState → StepResult
pure_step r = record { result = r; saved = none }

abbrev or_text : Option Text → Text → Text
or_text none t = t
or_text (some []) t = t
or_text (some (c ∷ cs)) t = c ∷ cs

-- `_hashes`
unfoldable pub operation_hash : Option Receipt → Option Text
operation_hash none = none
operation_hash (some r) = some (or_text r.safe_tx_hash r.transaction_hash)

unfoldable pub transaction_hash : Option Receipt → Option Text
transaction_hash none = none
transaction_hash (some r) = if r.pending then none else some r.transaction_hash

-- The record that `on_submitted` saves, for a deposit and for a redemption alone.
unfoldable pub submitted : BridgeState → Submission → BridgeState
unfolding operation_hash transaction_hash
submitted s x = record s {
  status = destination_submitted;
  destination_bundle_digest = some x.digest;
  destination_operation_hash = operation_hash x.receipt;
  destination_transaction_hash = transaction_hash x.receipt;
  last_error = none;
}

unfoldable pub submitted_deposit : BridgeState → Submission → BridgeState
unfolding submitted
submitted_deposit s x = record (submitted s x) { deposit_amount_raw = some x.amount }

-- The last record that the hook saved, over the submissions in order.
abbrev pub last_saved :
    (Submission → BridgeState) → Option BridgeState → List Submission → Option BridgeState
last_saved after latest [] = latest
last_saved after latest (x ∷ xs) = last_saved after (some (after x)) xs

abbrev pub or_not_submitted : Option BridgeState → Outcome Error BridgeState
or_not_submitted none = err (plan_error "the destination operation was not submitted")
or_not_submitted (some s) = ok s

abbrev pub raised_or : Option Error → Outcome Error BridgeState → Outcome Error BridgeState
raised_or none r = r
raised_or (some e) r = err e

unfoldable pub run_plan : (Submission → BridgeState) → Executed → StepResult
run_plan after x =
    let saved = last_saved after none x.submissions in
    record { result = raised_or x.error (or_not_submitted saved); saved = saved }

abbrev bounded : List (Option ℕ) → Bool
bounded [] = false
bounded (c ∷ cs) = is_some c && all is_some cs

abbrev is_empty : List String → Bool
is_empty [] = true
is_empty (t ∷ ts) = false

-- The checks of a prepared plan that both paths make, before anything is sent.
unfoldable pub check_prepared : Fitted → Outcome Error (Unit {0})
check_prepared f = do
  guard (bounded f.charges) (plan_error "the paymaster charge could not be bounded")
  guard (is_empty f.blockers) (plan_error "blocked")

abbrev is_receive_then_deposit : List String → Bool
is_receive_then_deposit (a ∷ b ∷ []) = str_eq a "cctp_receive" && str_eq b "deposit"
is_receive_then_deposit _ = false

unfoldable pub check_fitted : Fitted → Outcome Error (Unit {0})
unfolding check_prepared
check_fitted f = do
  guard (is_receive_then_deposit f.actions) (plan_error "the mint does not cover a deposit")
  check_prepared f

abbrev is_deposit : Submission → Bool
is_deposit x = str_eq x.action "deposit"

-- The hook of the deposit path passes over every other bundle.
abbrev pub deposits_of : Executed → Executed
deposits_of x = record x { submissions = filter is_deposit x.submissions }

-- The rest of a step, if what comes before it does not raise.
unfoldable pub stop : {A : Type 0} → Outcome Error A → (A → StepResult) → StepResult
stop (ok a) k = k a
stop (err e) k = pure_step (err e)

unfoldable pub deposit_plan : World → ℤ → Outcome Error Fitted
unfolding check_fitted
deposit_plan w wanted = do fitted ← w.fit_deposit wanted; check_fitted fitted; ok fitted

unfoldable pub redeem_plan : World → Outcome Error Fitted
unfolding check_prepared
redeem_plan w = do fitted ← w.prepare_redeem; check_prepared fitted; ok fitted

-- The deposit path after the mint and the balance are known. The hook reads deposits only.
unfoldable pub deposit_mint : World → BridgeState → ℤ → StepResult
unfolding deposit_plan run_plan submitted_deposit stop
deposit_mint w s wanted =
    stop (deposit_plan w wanted)
      λ fitted. run_plan (submitted_deposit s) (deposits_of (w.execute fitted))

-- `_redeem`
unfoldable pub redeem : World → BridgeState → StepResult
unfolding redeem_plan run_plan submitted stop
redeem w s = stop (redeem_plan w) λ fitted. run_plan (submitted s) (w.execute fitted)

abbrev is_expired : Option ℕ → ℕ → Bool
is_expired none block = false
is_expired (some expiration) block = leb expiration block

-- The chain's block number is read only if the attestation expires.
abbrev pub read_expired : World → BridgeState → Outcome Error Bool
read_expired w s = elim s.expiration_block [
  | none ↦ ok false
  | some expiration ↦ do block ← w.block_number s.destination_chain_id; ok (leb expiration block)
]

unfoldable pub reattesting : BridgeState → BridgeState
reattesting s = record s {
  status = awaiting_attestation;
  attestation = none;
  message = none;
  attestation_status = some ("reattestation_requested" ∷ []);
}

-- `_already_redeemed`; the balance that its message shows is left out.
unfoldable pub already_redeemed : World → BridgeState → Outcome Error BridgeState
already_redeemed w s = do
  token ← w.token_for s.destination_chain_id
  ok (record s { status = completed; last_error = none })

abbrev read_balance : World → BridgeState → Text → Outcome Error ℕ
read_balance w s token = elim (w.balance s.destination_chain_id s.account token) [
  | none ↦ err (plan_error "the balance cannot be read")
  | some held ↦ ok held
]

-- What is needed before a submission: the signer, the token and the balance, which it returns.
unfoldable pub submit_inputs : World → BridgeState → Outcome Error ℕ
submit_inputs w s = do
  guard w.supports_cross_chain (other "this signer cannot carry a bridged leg")
  token ← w.token_for s.destination_chain_id
  read_balance w s token

-- The submission, once the nonce is unused and the attestation is in date.
unfoldable pub submit_destination : World → BridgeState → ℤ → StepResult
unfolding submit_inputs deposit_mint redeem
submit_destination w s mint = stop (submit_inputs w s) λ held.
    if s.deposit
    then deposit_mint w s (min_ℤ (pos s.wanted_deposit_raw) (pos held +ℤ mint))
    else redeem w s

-- What `_settle_destination` reads first: the nonce, the net mint, and whether the nonce is used.
unfoldable pub settle_inputs : World → BridgeState → Outcome Error (Text × ℤ × Bool)
settle_inputs w s = do
  nonce ← assert_text s.nonce
  message ← assert_text s.message
  attestation ← assert_text s.attestation
  mint ← assert_some s.net_mint_raw
  destination ← chain_config w s.destination_chain_id
  used ← w.nonce_used s.destination_chain_id destination.message_transmitter nonce
  ok (nonce, mint, used)

-- `_settle_destination`
unfoldable pub settle_destination : World → BridgeState → StepResult
unfolding settle_inputs already_redeemed reattesting submit_destination stop
settle_destination w s = stop (settle_inputs w s) λ found.
    if found.2
    then pure_step (already_redeemed w s)
    else stop (read_expired w s) λ expired.
      if expired
      then pure_step (do w.reattest found.0; ok (reattesting s))
      else submit_destination w s found.1

unfoldable pub rebuilt : BridgeState → String → BridgeState
rebuilt s text = record s {
  status = destination_ready;
  destination_operation_hash = none;
  destination_bundle_digest = none;
  deposit_amount_raw = none;
  last_error = some (other text);
}

abbrev pub check_nonce : World → BridgeState → Text → Text → Outcome Error BridgeState
check_nonce w s transmitter nonce = do
  used ← w.nonce_used s.destination_chain_id transmitter nonce
  ok (if used then record s { status = completed; last_error = none } else s)

unfoldable pub observe_destination :
    World → BridgeState → Text → Text → Lookup → Outcome Error BridgeState
unfolding rebuilt
observe_destination w s transmitter nonce (reverted text) = ok (rebuilt s text)
observe_destination w s transmitter nonce (raised e) = err e
observe_destination w s transmitter nonce (answered none) = check_nonce w s transmitter nonce
observe_destination w s transmitter nonce (answered (some r)) =
    if r.pending
    then check_nonce w s transmitter nonce
    else ok (record s {
      status = completed;
      destination_transaction_hash = some r.transaction_hash;
      last_error = none;
    })

-- The rest of `_reconcile_destination`, by the operation's hash.
unfoldable pub reconcile_operation :
    World → BridgeState → Text → Text → Option Text → Outcome Error BridgeState
unfolding observe_destination
reconcile_operation w s transmitter nonce none = check_nonce w s transmitter nonce
reconcile_operation w s transmitter nonce (some operation) =
    observe_destination w s transmitter nonce (w.operation_receipt s.destination_chain_id operation)

-- The same, by the transaction's hash first.
unfoldable pub reconcile_leg : World → BridgeState → Option Text → Outcome Error BridgeState
unfolding reconcile_operation
reconcile_leg w s (some hash) = ok (record s { status = completed; last_error = none })
reconcile_leg w s none = do
  nonce ← assert_some s.nonce
  destination ← chain_config w s.destination_chain_id
  reconcile_operation w s destination.message_transmitter nonce s.destination_operation_hash

-- `_reconcile_destination`
unfoldable pub reconcile_destination : World → BridgeState → Outcome Error BridgeState
unfolding reconcile_leg
reconcile_destination w s = reconcile_leg w s s.destination_transaction_hash
