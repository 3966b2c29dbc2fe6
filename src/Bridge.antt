-- ===== src/Bridge.antt =====
-- exec/bridge.py: the steps of `BridgeRunner`, from a burn that was sent to a settled deposit. The
-- texts of messages are left out.
mod State
mod Outside
pub mod Settle
pub mod Planning
pub mod Sources
pub mod Advance
pub mod Steps
pub mod Runs
pub mod Evidence
pub mod Gates
mod Tests
pub use State.{
  Status, bridge_planned, source_submitted, awaiting_attestation, destination_ready,
  destination_submitted, completed, failed, BridgeState, SameLeg, SameLeg-refl, SameLeg-trans,
}
unfoldable pub use State.{order, active, is_terminal, same_status}
pub use Outside.{
  ChainConfig, Receipt, Lookup, reverted, raised, answered, Submission, Executed, Fitted, World,
}
use Prim.Native.Nat.{Ordering}
use Prim.Native.String.{compare}
use open_allocator.Base.{
  ℕ, ◌+◌, Bool, true, false, not, ◌&&◌, ◌||◌, Option, none, some, List, [], ◌∷◌, ◌++◌, String,
  str_eq, leb, ltb, ◌==◌, if◌then◌else◌, length, filter, all, is_some, seq_eq,
}
use open_allocator.Base.Outcome.{Outcome, ok, err, ◌>>=◌, ◌>>◌, guard}
use open_allocator.Base.Int.{ℤ, pos, ◌+ℤ◌, min_ℤ}
use open_allocator.Base.Text.{Text, Bytes, casefold}
use open_allocator.Cctp.{
  Invalid, config_mismatch, Error, invalid, assertion_error, plan_error, other, BurnExpectation,
  SourceLog, RawLog, CircleMessage, CctpMessage, Attestation, Evm, fail, to_bytes, hex_text,
  unattested, same_text, failures,
}
use open_allocator.Cctp.Select.{message_sent_logs, select_source_log, select_attestation}
use open_allocator.Cctp.Selection.{net_mint}

-- `assert x is not None`, and `assert x` of an optional text
abbrev pub assert_some : {A : Type 0} → Option A → Outcome Error A
assert_some none = err assertion_error
assert_some (some a) = ok a

abbrev pub assert_text : Option Text → Outcome Error Text
assert_text none = err assertion_error
assert_text (some []) = err assertion_error
assert_text (some (c ∷ t)) = ok (c ∷ t)

-- `BridgeRunner._chain`
abbrev pub chain_config : World → ℕ → Outcome Error ChainConfig
chain_config w chain_id = elim (w.chain chain_id) [
  | none ↦ err (plan_error "no CCTP configuration")
  | some found ↦ ok found
]

refuse_config : List String → Outcome Error (Unit {0})
refuse_config [] = ok tt
refuse_config (name ∷ names) = fail (config_mismatch (name ∷ names))

-- `BridgeRunner._expectation`
unfoldable pub expectation : World → BridgeState → Outcome Error BurnExpectation
unfolding refuse_config
expectation w s = do
  source ← chain_config w s.source_chain_id
  destination ← chain_config w s.destination_chain_id
  refuse_config (
      failures (
        ("source domain", source.cctp_domain == s.source_domain)
        ∷ ("destination domain", destination.cctp_domain == s.destination_domain)
        ∷ ("source TokenMessenger", same_text source.token_messenger s.source_token_messenger)
        ∷ []))
  ok (record {
    source_domain = s.source_domain;
    destination_domain = s.destination_domain;
    source_token_messenger = s.source_token_messenger;
    destination_token_messenger = destination.token_messenger;
    account = s.account;
    burn_token = s.source_token;
    amount_raw = s.burn_amount_raw;
    max_fee_raw = s.max_fee_raw;
    min_finality_threshold = s.min_finality_threshold;
  })

-- `message_ordinal`: the transmitter's earlier logs with the same unattested message.
abbrev same_copy : Bytes → Outcome Error Bytes → Bool
same_copy wanted (ok copy) = seq_eq copy wanted
same_copy wanted (err _) = false

is_earlier_copy : Text → SourceLog → Bytes → SourceLog → Bool
is_earlier_copy transmitter selected wanted log =
    same_text log.emitter transmitter
    && ltb log.log_index selected.log_index
    && same_copy wanted (do raw ← to_bytes log.message; unattested raw)

-- The second half of `_observe_source`, once the transaction's hash is known: `hash` is the
-- record's `source_transaction_hash`.
unfoldable pub locate_burn : World → BridgeState → Text → Outcome Error BridgeState
unfolding is_earlier_copy
locate_burn w s hash = do
  logs ← w.transaction_logs s.source_chain_id hash
  elim logs [
    | none ↦ ok s
    | some receipt_logs ↦ do
      source ← chain_config w s.source_chain_id
      found ← message_sent_logs w.evm receipt_logs
      expected ← expectation w s
      selected ←
          select_source_log w.evm found expected source.message_transmitter s.burn_index
            s.burns_in_operation
      raw ← to_bytes selected.message
      wanted ← unattested raw
      ok (record s {
        status = awaiting_attestation;
        source_message_transmitter = some selected.emitter;
        source_log_index = some selected.log_index;
        source_message = some selected.message;
        message_ordinal =
            length (filter (is_earlier_copy source.message_transmitter selected wanted) found);
      })
  ]

abbrev noted_hash : BridgeState → Text → BridgeState
noted_hash s hash = record s { source_transaction_hash = some hash }

abbrev included : Option Receipt → Option Receipt
included none = none
included (some r) = if r.pending then none else some r

-- A source operation's receipt: reverted, not included yet, or included.
unfoldable pub observe_receipt : World → BridgeState → Lookup → Outcome Error BridgeState
observe_receipt w s (reverted text) =
    ok (record s { status = failed; last_error = some (other text) })
observe_receipt w s (raised e) = err e
observe_receipt w s (answered r) = elim (included r) [
  | none ↦ ok s
  | some receipt ↦ locate_burn w (noted_hash s receipt.transaction_hash) receipt.transaction_hash
]

-- `_observe_source`
unfoldable pub observe_source : World → BridgeState → Outcome Error BridgeState
unfolding observe_receipt
observe_source w s = elim s.source_transaction_hash [
  | some hash ↦ locate_burn w s hash
  | none ↦ elim s.source_operation_hash [
    | none ↦ err (plan_error "submitted without an operation hash")
    | some operation ↦ observe_receipt w s (w.operation_receipt s.source_chain_id operation)
  ]
]

abbrev nonzero : ℕ → Option ℕ
nonzero n = if n == 0 then none else some n

abbrev same_block : Option ℕ → Option ℕ → Bool
same_block (some a) (some b) = a == b
same_block none none = true
same_block _ _ = false

-- `", ".join(parts) == t`, for a text `t` without a comma
abbrev says : Option (List String) → String → Bool
says (some (s ∷ [])) t = str_eq s t
says _ t = false

-- Circle still serves the attestation that expired.
unfoldable pub is_replaced : BridgeState → Attestation → Bool
is_replaced s a =
    says s.attestation_status "reattestation_requested"
    && same_block (some a.message.body.expiration_block) s.expiration_block

-- `sorted({...})`: a text is put before the first greater one, and once.
abbrev insert_text : String → List String → List String
insert_text t [] = t ∷ []
insert_text t (u ∷ us) =
    let rest = insert_text t us in
    elim (compare t u) [ Ordering.lt ↦ t ∷ u ∷ us | Ordering.eq ↦ u ∷ us | Ordering.gt ↦ u ∷ rest ]

statuses : List CircleMessage → List String
statuses [] = []
statuses (m ∷ ms) = insert_text m.status (statuses ms)

-- `delay_reasons`: `dict.fromkeys` keeps the first of equal reasons.
abbrev with_reason : Option String → List String → List String
with_reason none rs = rs
with_reason (some r) rs = r ∷ filter (λ other_reason. not (str_eq r other_reason)) rs

unfoldable pub delay_reasons : List CircleMessage → List String
delay_reasons [] = []
delay_reasons (m ∷ ms) = with_reason m.delay_reason (delay_reasons ms)

abbrev or_not_found : List String → List String
or_not_found [] = "not_found" ∷ []
or_not_found (t ∷ ts) = t ∷ ts

abbrev or_none : List String → Option (List String)
or_none [] = none
or_none (t ∷ ts) = some (t ∷ ts)

unfoldable pub unready : BridgeState → List CircleMessage → BridgeState
unfolding statuses delay_reasons
unready s messages = record s {
  attestation_status = some (or_not_found (statuses messages));
  delay_reason = or_none (delay_reasons messages);
  last_error = none;
}

unfoldable pub ready : World → BridgeState → Attestation → BridgeState
ready w s a = record s {
  status = destination_ready;
  attestation_status = some ("complete" ∷ []);
  delay_reason = none;
  message_hash = some (hex_text (w.evm.keccak a.message.raw));
  nonce = some a.message.nonce;
  message = some (hex_text a.message.raw);
  attestation = some a.attestation;
  fee_executed_raw = some a.message.body.fee_executed;
  net_mint_raw = some (net_mint a);
  expiration_block = nonzero a.message.body.expiration_block;
  last_error = none;
}

unfoldable pub take_up : World → BridgeState → List CircleMessage → Option Attestation → BridgeState
unfolding unready ready is_replaced
take_up w s messages none = unready s messages
take_up w s messages (some a) =
    if is_replaced s a then record s { last_error = none } else ready w s a

-- `_await_attestation`
unfoldable pub await_attestation : World → BridgeState → Outcome Error BridgeState
unfolding take_up
await_attestation w s = do
  hash ← assert_some s.source_transaction_hash
  source_message ← assert_some s.source_message
  messages ← w.circle_messages s.source_domain hash
  expected ← expectation w s
  attested ← select_attestation w.evm messages source_message expected s.message_ordinal
  ok (take_up w s messages attested)
