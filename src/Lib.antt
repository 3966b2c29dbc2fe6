-- ===== src/Lib.antt =====
-- A model of the parts of open-allocator that decide whether money moves: the CCTP messages of a
-- bridged leg (exec/cctp.py, exec/circle.py), the resumable bridge runner (exec/bridge.py,
-- exec/bridge_state.py), and the rules of a policy: which instruments it admits
-- (core/eligibility.py), which allocations and buys it lets through (core/policy.py), and which
-- policy a mandate may derive from it (core/mandate.py); the discovery of instruments
-- (core/universe.py); the requests of calldata bundles (exec/calldata.py); and the execution of a
-- plan of them (exec/bundle_execution.py) with its funding check (exec/funding.py). The paths are
-- those under src/open_allocator/ of the repository.
--
-- Base     shared names, lists over the native numbers, byte slices, text, integers, and
--          `Outcome`, the result of code that raises.
-- Cctp     MessageV2 and BurnMessageV2 as bytes and as records: `decode_message`, `unattested`,
--          `check_burn`; Cctp/Select the choice of the source log (Cctp/OwnBurns) and of Circle's copy, and the
--          decoding of a burn's calldata. Bytes are lists of numbers below 256; a Python exception
--          is a value of `Error`, where `invalid` is CctpValidationError.
-- Bridge   the leg's record and its active test (Bridge/State), what a step meets outside
--          (Bridge/Outside), the steps (`observe_source` and `await_attestation` in Bridge,
--          `settle_destination` and `reconcile_destination` in Bridge/Settle), the loop of
--          `_advance_leg` with the store (Bridge/Advance), and the checks and records that
--          come before it: `check_route`, `planned_state`, `submitted_state` (Bridge/Planning).
--
-- Bundle   core/types.py: a bundle of calldata as it was quoted, and its digest, which the next
--          three share.
-- Calldata exec/calldata.py: the checks of a response (Calldata/Checks), the request, plan and
--          rebuild of a bundle (`request_bundle`, `plan_bundle`, `refresh_bundle`), the bundles of a
--          burn and of its redemption (Calldata/Bridging); the queries and responses of
--          exec/client.py with their validators. Requests and Rebuilding are about what a bundle
--          commits to, Burns about a burn and the record that the bridge runner keeps of it.
-- Funding  the movements of a plan, the ledger walk `check`, the reading of balances with what is not
--          yet included (Funding/Reading), what a passed check means (Funding/Solvency,
--          Funding/Sufficient) in terms of the balances as a plan runs (Funding/Balances). Signed
--          amounts are integers over the native numbers (Base/Int).
-- Execution  plans, operations and keys; `_prepare` (Execution/Preparing) with its blockers and
--          estimates (Execution/Blockers, Execution/Estimates) of a signer (Execution/Signers); the
--          session that `execute_plan` changes, as a monad with exceptions that keep the state, and
--          `_complete` (Execution/Session); `_preflight` (Execution/Preflight), the sending of an
--          operation (Execution/Sends), and the checkpoint, the refusals and the loop over the
--          pending operations (Execution/Submitting). Execution/Steps names the steps that a
--          run is made of; Marking and Passes carry an invariant of the steps through the code,
--          for Reruns and Records. Layout and Grouping are about plans and operations, Refusals
--          about what is not sent.
-- State    core/state.py: the idempotency store of the filesystem backend, by scope (State/Marks).
-- Charge   exec/paymaster_charge.py: the bound on the paymaster's charge (Charge/Bound) and the
--          decoding of `paymasterData` (Charge/Config).
-- Sizing   exec/deposit_sizing.py: how a chain stands (Sizing/Standings), the sizes of its deposits
--          (Sizing/Sizes), and `fit` in Sizing; Fits is about the sizes, Layouts about the plan of
--          an attempt, and Attempts about the three preparations.
--
-- Policy   core/types.py: the policy, the instrument, and `Floats`, the interface to Python's floats.
-- PolicyCheck  core/policy.py: `check` and its parts, in PolicyCheck the allowlists, the caps and the
--          composition, in PolicyCheck/Weights the buckets, in Leverage the levered legs with the
--          health factor of core/levered.py, in Gates the gates and the diversification, and in
--          Books the resulting book and `check_incremental`. Compliance and Increments are about
--          what a passed check means, over Exposure, Findings, Filters and
--          Scopes.
-- Discovery  core/universe.py: the loop over the pages of instruments, what is skipped, and the
--          filter by policy (Discovery/Pages is about the loop).
-- Eligibility  each `_axis` is the predicate of that name of core/eligibility.py; the lists of
--          findings for the scopes.
-- Mandate  the comparison of a derived policy with its baseline (`movements`), and in
--          Mandate/Checks `validate_mandate`, which stops at the first check that fails. Files,
--          digests and paths are fields of `Files`.
--
-- The chains, Circle, the signer and the planner and executor of an operation are fields of
-- `World`, and each round of the loop meets a world of its own, so that an answer may change
-- between two calls. keccak, ABI decoding and the address checksum are fields of `Evm`.
-- In the execution a send may raise although its transaction went out (`lost`). Whatever is
-- outside sees all that has happened, so that balances, the clock and the answers to a send may
-- change with it; an idempotency key is modelled by the parts of its text, and the store as the
-- list of its keys. The calldata API is `Client`, floats are `Floats`, and the measure of
-- core/diversify.py is `Diversity`.
-- The loop of `_advance_leg` is bounded in the source by `range(2 * len(_ORDER))`, which is
-- `max_transitions`, and that of `fit` by `max_preparations`; the other loops are over lists.
--
-- Not modelled: the validator of a plan (`TxPlan`), what `load` and `save` of the bridge's record
-- raise, the mark of a completed leg after the loop of `_advance_leg`, time stamps, progress
-- messages, HTTP retries, signing, the building of a plan from an allocation, and the floating-
-- point parts of the allocator.
pub mod Base
pub mod Cctp
pub mod Bundle
pub mod Bridge
pub mod Calldata
pub mod Funding
pub mod State
pub mod Charge
pub mod Sizing
pub mod Execution
pub mod Policy
pub mod PolicyCheck
pub mod Eligibility
pub mod Discovery
pub mod Mandate
