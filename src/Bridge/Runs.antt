-- ===== src/Bridge/Runs.antt =====
-- What a whole invocation does to a leg: the record in the store, the leg's identity, a recorded
-- submission, and the leg that ends without being redeemed.
use open_allocator.Base.{
  ℕ, ◌≡◌, refl, sym, ◌∙◌, subst, true, ◌||◌, Option, none, some, List, [], ◌∷◌, arith, some-inj,
  Bool-cases, inl, inr,
}
use open_allocator.Base.Outcome.{Outcome, ok, err}
use open_allocator.Cctp.{Error, Invalid, invalid, index_error, assertion_error, plan_error, other}
use open_allocator.Bridge.{BridgeState, SameLeg, SameLeg-refl, SameLeg-trans, World, is_terminal}
use open_allocator.Bridge.Advance.{
  transition, Store, save_hook, load, furthest, Run, after_ok, after_exception, after_result,
  failed_state, round, rounds, start, worlds_from, max_transitions, advance_leg,
}
use open_allocator.Bridge.Steps.{transition-Ensures}

-- The store holds the leg's record, and the leg is still the one that was started.
pub record IsKept (s : BridgeState) (r : Run) : Type 0 where
  pub persistent : r.store.persistent ≡ true
  pub stored : r.store.record_of ≡ some r.state
  pub same : SameLeg s r.state

abbrev IsLegStore : BridgeState → Store → Type 0
IsLegStore s st =
    (st.persistent ≡ true) × ((t : BridgeState) × (st.record_of ≡ some t) × SameLeg s t)

save_hook-IsLegStore :
    (s : BridgeState) (st : Store) (saved : Option BridgeState)
    → IsLegStore s st
    → ((t : BridgeState) → saved ≡ some t → SameLeg s t)
    → IsLegStore s (save_hook st saved)
save_hook-IsLegStore s st none h k = h
save_hook-IsLegStore s st (some t) h k = (h.0, (t, rw h.0, k t refl))

after_ok-IsKept :
    (s : BridgeState) (r : Run) (st : Store) (t : BridgeState)
    → IsLegStore s st
    → SameLeg s t
    → IsKept s (after_ok r st t)
unfolding after_ok
after_ok-IsKept s r st t h k = record { persistent = h.0; stored = rw h.0; same = k }

furthest-SameLeg :
    (s a : BridgeState) (b : Option BridgeState)
    → SameLeg s a
    → ((t : BridgeState) → b ≡ some t → SameLeg s t)
    → SameLeg s (furthest a b)
furthest-SameLeg s a none h k = unfold furthest in h
furthest-SameLeg s a (some b) h k = unfold furthest in ground (arith, k b refl)

load-SameLeg :
    (s : BridgeState) (st : Store)
    → IsLegStore s st
    → (t : BridgeState) → load st ≡ some t
    → SameLeg s t
load-SameLeg s st (p, (u, e, same)) t h = subst (SameLeg s) (some-inj (sym e ∙ (rw p at h))) same

noted-SameLeg :
    (s t : BridgeState) (e : Error) → SameLeg s t → SameLeg s (record t { last_error = some e })
noted-SameLeg s t e h = ground arith

after_exception-IsKept :
    (s : BridgeState) (r : Run) (st : Store) (e : Error)
    → IsLegStore s st
    → SameLeg s r.state
    → IsKept s (after_exception r st e)
after_exception-IsKept s r st e h k =
    unfold after_exception in
    record {
      persistent = h.0;
      stored = rw h.0;
      same =
          noted-SameLeg s (furthest r.state (load st)) e
            (furthest-SameLeg s r.state (load st) k (load-SameLeg s st h));
    }

failed_state-SameLeg :
    (s t : BridgeState) (e : Invalid) → SameLeg s t → SameLeg s (failed_state t e)
unfolding failed_state
failed_state-SameLeg s t e h = ground arith

after_result-IsKept :
    (s : BridgeState) (r : Run) (st : Store) (o : Outcome Error BridgeState)
    → IsLegStore s st
    → SameLeg s r.state
    → ((t : BridgeState) → o ≡ ok t → SameLeg s t)
    → IsKept s (after_result r st o)
unfolding after_result
after_result-IsKept s r st (ok t) h k p = after_ok-IsKept s r st t h (p t refl)
after_result-IsKept s r st (err (invalid e)) h k p =
    after_ok-IsKept s r st (failed_state r.state e) h (failed_state-SameLeg s r.state e k)
after_result-IsKept s r st (err index_error) h k p = after_exception-IsKept s r st index_error h k
after_result-IsKept s r st (err assertion_error) h k p =
    after_exception-IsKept s r st assertion_error h k
after_result-IsKept s r st (err (plan_error t)) h k p =
    after_exception-IsKept s r st (plan_error t) h k
after_result-IsKept s r st (err (other t)) h k p = after_exception-IsKept s r st (other t) h k

round-IsKept : (s : BridgeState) (w : World) (r : Run) → IsKept s r → IsKept s (round w r)
round-IsKept s w r h = elim (Bool-cases (r.stopped || is_terminal r.state.status)) [
  | inl ended ↦
      unfold round in
      rw ended (record { persistent = h.persistent; stored = h.stored; same = h.same })
  | inr goes_on ↦
      unfold round in
      rw goes_on (
        after_result-IsKept s r (save_hook r.store (transition w r.state).saved)
          (transition w r.state).result
          (save_hook-IsLegStore s r.store (transition w r.state).saved
            (h.persistent, (r.state, h.stored, h.same))
            (λ t e. SameLeg-trans h.same ((transition-Ensures w r.state).on_save t e).0))
          h.same (λ t e. SameLeg-trans h.same ((transition-Ensures w r.state).on_ok t e).0))
]

rounds-IsKept : (s : BridgeState) (ws : List World) (r : Run) → IsKept s r → IsKept s (rounds ws r)
unfolding rounds
rounds-IsKept s [] r h = h
rounds-IsKept s (w ∷ ws) r h = rounds-IsKept s ws (round w r) (round-IsKept s w r h)

-- Where the store holds a leg's record to begin with, it holds exactly the record that an
-- invocation returns, whatever the outside answers and whatever is raised, and that record commits
-- to the same leg, account, chains, token, amounts and burn.
pub advance_leg-IsKept :
    (at : ℕ → World) (s : BridgeState) (st : Store)
    → st.persistent ≡ true
    → st.record_of ≡ some s
    → IsKept s (advance_leg at s st)
unfolding advance_leg
advance_leg-IsKept at s st p e =
    rounds-IsKept s (worlds_from max_transitions 0 at) (start s st)
      (record { persistent = p; stored = e; same = SameLeg-refl s })
