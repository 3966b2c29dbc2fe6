-- ===== src/Bridge/Advance.antt =====
-- exec/bridge.py: `_transition` and the loop of `_advance_leg`. The mark of a completed leg after the
-- loop, which is under another key than the record, is left out.
use open_allocator.Base.{
  ℕ, zero, suc, ◌+◌, ◌*◌, Bool, true, false, ◌||◌, Option, none, some, List, [], ◌∷◌, ltb,
  if◌then◌else◌,
}
use open_allocator.Base.Outcome.{Outcome, ok, err}
use open_allocator.Cctp.{Error, Invalid, invalid, index_error, assertion_error, plan_error, other}
use open_allocator.Bridge.{
  Status, bridge_planned, source_submitted, awaiting_attestation, destination_ready,
  destination_submitted, completed, failed, BridgeState, order, is_terminal, same_status, World,
  observe_source, await_attestation,
}
use open_allocator.Bridge.Settle.{StepResult, pure_step, settle_destination, reconcile_destination}

unfoldable pub dispatch : Status → World → BridgeState → StepResult
dispatch source_submitted w s = pure_step (observe_source w s)
dispatch awaiting_attestation w s = pure_step (await_attestation w s)
dispatch destination_ready w s = settle_destination w s
dispatch destination_submitted w s = pure_step (reconcile_destination w s)
dispatch bridge_planned w s = pure_step (err (plan_error "a rerun cannot advance it"))
dispatch completed w s = pure_step (err (plan_error "a rerun cannot advance it"))
dispatch failed w s = pure_step (err (plan_error "a rerun cannot advance it"))

-- `_transition`
unfoldable pub transition : World → BridgeState → StepResult
unfolding dispatch
transition w s = dispatch s.status w s

-- The leg's record in the store; without a store nothing is saved and nothing is loaded. The store can
-- be written and holds valid records: what `save` and `load` raise otherwise is left out.
pub record Store : Type 0 where
  pub persistent : Bool
  pub record_of : Option BridgeState

unfoldable pub save : Store → BridgeState → Store
save st s = record st { record_of = if st.persistent then some s else none }

abbrev pub save_hook : Store → Option BridgeState → Store
save_hook st none = st
save_hook st (some s) = record st { record_of = if st.persistent then some s else none }

abbrev pub load : Store → Option BridgeState
load st = if st.persistent then st.record_of else none

abbrev is_failed : Status → Bool
is_failed failed = true
is_failed _ = false

-- `_furthest`
unfoldable pub furthest : BridgeState → Option BridgeState → BridgeState
furthest s none = s
furthest s (some stored) =
    if is_failed stored.status || is_failed s.status
    then s
    else if ltb (order s.status) (order stored.status)
    then stored
    else s

-- A leg while it is advanced: its record, the store, whether an exception was recorded, and whether
-- the loop has ended.
pub record Run : Type 0 where
  pub state : BridgeState
  pub store : Store
  pub errors : Bool
  pub stopped : Bool

-- The body of the loop after the transition, by how it ended.
unfoldable pub after_ok : Run → Store → BridgeState → Run
unfolding save
after_ok r st s = record {
  state = s;
  store = save st s;
  errors = r.errors;
  stopped = same_status s.status r.state.status;
}

unfoldable pub failed_state : BridgeState → Invalid → BridgeState
failed_state s e = record s { status = failed; last_error = some (invalid e) }

unfoldable pub after_exception : Run → Store → Error → Run
unfolding save furthest
after_exception r st e =
    let s = record (furthest r.state (load st)) { last_error = some e } in
    record { state = s; store = save st s; errors = true; stopped = true }

unfoldable pub after_error : Run → Store → Error → Run
unfolding after_ok after_exception failed_state
after_error r st (invalid e) = after_ok r st (failed_state r.state e)
after_error r st index_error = after_exception r st index_error
after_error r st assertion_error = after_exception r st assertion_error
after_error r st (plan_error t) = after_exception r st (plan_error t)
after_error r st (other t) = after_exception r st (other t)

unfoldable pub after_result : Run → Store → Outcome Error BridgeState → Run
unfolding after_ok after_error
after_result r st (ok s) = after_ok r st s
after_result r st (err e) = after_error r st e

-- One round of the loop of `_advance_leg`.
unfoldable pub round : World → Run → Run
unfolding after_result transition
round w r =
    if r.stopped || is_terminal r.state.status
    then record r { stopped = true }
    else (let step = transition w r.state in
        after_result r (save_hook r.store step.saved) step.result)

-- The loop: the worlds are those that its rounds meet, one after another.
unfoldable pub rounds : List World → Run → Run
unfolding round
rounds [] r = r
rounds (w ∷ ws) r = rounds ws (round w r)

-- `range(2 * len(_ORDER))`
abbrev pub max_transitions : ℕ
max_transitions = 2 * 6

abbrev pub start : BridgeState → Store → Run
start s st = record { state = s; store = st; errors = false; stopped = false }

-- The loop of `_advance_leg`, whose rounds meet the worlds `at 0`, `at 1` and so on.
abbrev pub worlds_from : ℕ → ℕ → (ℕ → World) → List World
worlds_from zero i at = []
worlds_from (suc n) i at = at i ∷ worlds_from n (i + 1) at

unfoldable pub advance_leg : (ℕ → World) → BridgeState → Store → Run
unfolding rounds
advance_leg at s st = rounds (worlds_from max_transitions 0 at) (start s st)
