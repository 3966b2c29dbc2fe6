-- ===== src/Execution/Marking.antt =====
-- What every step keeps is kept by the recording of a bundle and by the sending of a call.
use open_allocator.Base.{
  ℕ, suc, ◌+◌, ◌≡◌, refl, subst, String, Bool, true, false, ◌⊎◌, inl, inr, Option, none, some, List,
  [], ◌∷◌, ◌++◌, Bool-cases,
}
use open_allocator.Base.Outcome.{Outcome, ok, err}
use open_allocator.Cctp.{TxStep}
use open_allocator.Execution.{
  Failure, PlannedBundle, Operation, StoreKey, store_key_equality, key_of, leg_key, call_key_of,
}
use open_allocator.Execution.Preparing.{store_completed}
use open_allocator.Execution.Session.{
  Receipt, SendAnswer, received, unsent, lost, Event, sent_call, hooked, marked, sent, Session, Run,
  returns, ◌>>◌, World, store_mark_completed, mark_bundle, complete, record_bundle, log_if,
  logged_if, hook_if, add_completed, report_step,
}
use open_allocator.Execution.Sends.{send_call, call_step, send_calls, add_key}
use open_allocator.Execution.Steps.{Store, Occurs, Closed, Keeps, >>=-Keeps, catching-Keeps}

answer-cases : (o : Outcome Failure (Unit {0})) → (o ≡ ok tt) ⊎ ((f : Failure) × (o ≡ err f))
answer-cases (ok u) = inl refl
answer-cases (err f) = inr (f, refl)

SendAnswer-cases :
    (a : SendAnswer)
    → ((r : Receipt) × (a ≡ received r))
      ⊎ (((f : Failure) × (a ≡ unsent f)) ⊎ ((f : Failure) × (a ≡ lost f)))
SendAnswer-cases (received r) = inl (r, refl)
SendAnswer-cases (unsent f) = inr (inl (f, refl))
SendAnswer-cases (lost f) = inr (inr (f, refl))

module _ (w : World) (I : Store → List Event → Type 0) (c : Closed w I) where
  abbrev pub J : Session → Type 0
  J s = I s.store s.trace

  -- A mark and what follows it, by what the store does.
  store_mark_completed-cases {ℓ} :
      {A : Type ℓ} (key : StoreKey) (rest : Run A) (st : Store) (s : Session)
      → (st ≡ none → J (rest (record s { store = none })).0)
      → ((keys : List StoreKey) (f : Failure)
          → st ≡ some keys
          → w.mark s.trace key ≡ err f
          → I (some keys) s.trace)
      → ((keys : List StoreKey)
          → st ≡ some keys
          → J (rest (record s { store = some (key ∷ keys); trace = marked key ∷ s.trace })).0)
      → J ((store_mark_completed w.mark key >> rest) (record s { store = st })).0
  unfolding store_mark_completed
  store_mark_completed-cases key rest none s a b d = a refl
  store_mark_completed-cases key rest (some keys) s a b d =
      elim (answer-cases (w.mark s.trace key)) [
        | inl e ↦ rw e (d keys refl)
        | inr (f, e) ↦ rw e (b keys f refl e)
      ]

  logged-J :
      (item : PlannedBundle) (keys : List StoreKey) (answer : Outcome Failure Bool) (s : Session)
      → (s.store ≡ none) ⊎ Occurs (marked (key_of item)) s.trace
      → J s
      → J ((logged_if (key_of item) answer >> returns keys) s).0
  logged-J item keys (err f) s m h = h
  logged-J item keys (ok false) s m h = h
  logged-J item keys (ok true) s m h = c.on_log s.store s.trace item m h

  log-J :
      (item : PlannedBundle) (receipt : Option Receipt) (keys : List StoreKey) (s : Session)
      → (s.store ≡ none) ⊎ Occurs (marked (key_of item)) s.trace
      → J s
      → J ((log_if w item receipt >> returns keys) s).0
  log-J item none keys s m h = h
  log-J item (some r) keys s m h = logged-J item keys (w.log s.trace item r) s m h

  mark_bundle-J :
      (item : PlannedBundle) (receipt : Option Receipt) (s : Session)
      → (w.on_submitted ≡ none) ⊎ Occurs (hooked (key_of item)) s.trace
      → J s
      → J (mark_bundle w item receipt s).0
  unfolding mark_bundle
  mark_bundle-J item receipt s hk h =
      let leg = w.completion_key item.bundle in
      let written = key_of item ∷ leg_key leg ∷ [] in
      let tail = log_if w item receipt >> returns written in
      store_mark_completed-cases (key_of item) (store_mark_completed w.mark (leg_key leg) >> tail)
        s.store s
        (λ e.
          store_mark_completed-cases (leg_key leg) tail none s
            (λ _.
              log-J item receipt written (record s { store = none }) (inl refl)
                (subst (λ st. I st s.trace) e h))
            (λ keys f d q. absurd cc) (λ keys d. absurd cc))
        (λ keys f e q. subst (λ st. I st s.trace) e h)
        (λ keys e.
          let marked_one = c.on_mark keys s.trace item hk (subst (λ st. I st s.trace) e h) in
          let t = record s {
            store = some (key_of item ∷ keys);
            trace = marked (key_of item) ∷ s.trace;
          } in
          store_mark_completed-cases (leg_key leg) tail t.store t (λ d. absurd cc)
            (λ ks f d q. subst (λ st. I st t.trace) d marked_one)
            (λ ks d.
              log-J item receipt written
                (record t {
                  store = some (leg_key leg ∷ ks);
                  trace = marked (leg_key leg) ∷ t.trace;
                })
                (inr (inr (inl refl)))
                (c.on_mark_leg ks t.trace leg (subst (λ st. I st t.trace) d marked_one))))

  hook-J :
      (item : PlannedBundle) (op : Operation) (receipt : Option Receipt)
      (hook : Option
        (List Event → PlannedBundle → Operation → Option Receipt → Outcome Failure (Unit {0})))
      (s : Session)
      → w.on_submitted ≡ hook
      → J s
      → J ((hook_if hook item op receipt >> mark_bundle w item receipt) s).0
  hook-J item op receipt none s e h = mark_bundle-J item receipt s (inl e) h
  hook-J item op receipt (some hook) s e h = elim (answer-cases (hook s.trace item op receipt)) [
    | inl q ↦ rw q (
        mark_bundle-J item receipt (record s { trace = hooked (key_of item) ∷ s.trace })
          (inr (inl refl)) (c.on_hook s.store s.trace item h))
    | inr (f, q) ↦ rw q h
  ]

  pub record_bundle-Keeps :
      (op : Operation) (item : PlannedBundle) (receipt : Option Receipt)
      → Keeps J (record_bundle w op item receipt)
  unfolding record_bundle complete
  record_bundle-Keeps op item receipt =
      >>=-Keeps J _ add_completed
        (catching-Keeps J (complete w op item receipt) _
          (λ s h. hook-J item op receipt w.on_submitted s refl h) (λ f s h. h))
        (λ keys s h. h)

  send_call-J :
      (item : PlannedBundle) (offset index : ℕ) (step : TxStep) (url : String) (s : Session)
      → store_completed s.store (call_key_of item index) ≡ false
      → J s
      → J (send_call w item offset index step url s).0
  unfolding send_call store_completed
  send_call-J item offset index step url s p h =
      let key = call_key_of item index in
      elim (SendAnswer-cases (w.send s.trace step url)) [
        | inr (inl (f, q)) ↦ rw q h
        | inr (inr (f, q)) ↦ rw q (c.on_lost_call s.store s.trace key p h)
        | inl (r, q) ↦
            let t = record s {
              trace = sent_call key r ∷ s.trace;
              receipts = s.receipts ++ r ∷ [];
            } in
            rw q (
              store_mark_completed-cases key
                (add_key key
                  >> report_step item (offset + index) step sent (some r) key
                  >> returns (some r))
                s.store t (λ e. c.on_call_unstored s.trace key r (subst (λ st. I st s.trace) e h))
                (λ keys f e m.
                  c.on_call_unmarked keys s.trace key r f
                    (subst (λ st. store_completed st key ≡ false) e p) m
                    (subst (λ st. I st s.trace) e h))
                (λ keys e.
                  c.on_call keys s.trace item index r
                    (subst (λ st. store_completed st key ≡ false) e p)
                    (subst (λ st. I st s.trace) e h)))
      ]

  call_step-Keeps :
      (item : PlannedBundle) (offset index : ℕ) (step : TxStep) (url : String)
      (last : Option Receipt)
      → Keeps J (call_step w item offset index step url last)
  unfolding call_step
  call_step-Keeps item offset index step url last s h =
      elim (Bool-cases (store_completed s.store (call_key_of item index))) [
        | inl p ↦ rw p h
        | inr p ↦ rw p (send_call-J item offset index step url s p h)
      ]

  pub send_calls-Keeps :
      (item : PlannedBundle) (offset index : ℕ) (steps : List TxStep) (url : String)
      (last : Option Receipt)
      → Keeps J (send_calls w item offset index steps url last)
  unfolding send_calls
  send_calls-Keeps item offset index [] url last = λ s h. h
  send_calls-Keeps item offset index (step ∷ steps) url last =
      >>=-Keeps J (call_step w item offset index step url last) _
        (call_step-Keeps item offset index step url last)
        (λ r. send_calls-Keeps item offset (suc index) steps url r)
