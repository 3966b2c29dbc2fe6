-- ===== src/Bridge/Gates.antt =====
-- When a destination operation is submitted, what stays on record of it, and what a completed leg
-- rests on.
use open_allocator.Base.{◌≡◌, ◌⊎◌, refl, ap, ◌∙◌, subst, Bool, true, false, some, arith, inr}
use open_allocator.Base.Outcome.{Outcome, ok, err, ◌>>◌, guard, >>=-eq-ok, guard-eq-ok}
use open_allocator.Base.Int.{ℤ, pos, ◌+ℤ◌, min_ℤ}
use open_allocator.Cctp.{Error, invalid, index_error, assertion_error, plan_error, other}
use open_allocator.Bridge.{
  Status, bridge_planned, source_submitted, awaiting_attestation, destination_ready,
  destination_submitted, completed, failed, BridgeState, World, is_terminal, order,
}
use open_allocator.Bridge.Settle.{
  deposits_of, deposit_mint, deposit_plan, redeem, redeem_plan, submitted, submitted_deposit,
  submit_inputs, submit_destination, settle_inputs, read_expired, reattesting, settle_destination,
}
use open_allocator.Bridge.Advance.{
  transition, dispatch, save, save_hook, furthest, Run, after_result, after_exception, round,
}
use open_allocator.Bridge.Steps.{
  Ensures, Ensures-pure, Ensures-stop, Ensures-if, Ensures-run_plan, IsSubmission,
  submitted-IsSubmission, submitted_deposit-IsSubmission, transition-Ensures, observe-Follows,
  await-Follows, can_follow,
}
use open_allocator.Bridge.Evidence.{
  NonceRead, IsIncluded, settle_inputs-NonceRead, reconcile_evidence, round_goes_on,
}

-- A completed record rests on a used nonce.
abbrev IfCompleted : World → BridgeState → BridgeState → Type 0
IfCompleted w s t = t.status ≡ completed → NonceRead w s true

-- What is read before a submission: the nonce is not used, the attestation is in date, and the
-- signer can carry the leg.
pub record IsOpen (w : World) (s : BridgeState) : Type 0 where
  pub unused : NonceRead w s false
  pub in_date : read_expired w s ≡ ok false
  pub carried : w.supports_cross_chain ≡ true

abbrev Submits : World → BridgeState → BridgeState → Type 0
Submits w s t = IsOpen w s × IsSubmission s t

module _ (w : World) (s : BridgeState) where
  Submits-IfCompleted : (t : BridgeState) → Submits w s t → IfCompleted w s t
  Submits-IfCompleted t h k = absurd (not_completed (h.1.1) k)
    where
      not_completed : t.status ≡ destination_submitted → t.status ≡ completed → ⊥
      not_completed a b = cc

  submit_inputs-carried : {held : _} → submit_inputs w s ≡ ok held → w.supports_cross_chain ≡ true
  unfolding submit_inputs
  submit_inputs-carried h =
      let (_, g, _) =
        >>=-eq-ok (guard w.supports_cross_chain (other "this signer cannot carry a bridged leg")) _
          h in
      guard-eq-ok w.supports_cross_chain _ g

  deposit-Submits :
      IsOpen w s → (wanted : ℤ) → Ensures (IfCompleted w s) (Submits w s) (deposit_mint w s wanted)
  deposit-Submits open_s wanted =
      unfold deposit_mint in
      Ensures-stop (deposit_plan w wanted) _ (λ fitted _.
        Ensures-run_plan (submitted_deposit s) (deposits_of (w.execute fitted))
          (λ x. (open_s, submitted_deposit-IsSubmission w s x)) Submits-IfCompleted)

  redeem-Submits : IsOpen w s → Ensures (IfCompleted w s) (Submits w s) (redeem w s)
  redeem-Submits open_s =
      unfold redeem in
      Ensures-stop (redeem_plan w) _ (λ fitted _.
        Ensures-run_plan (submitted s) (w.execute fitted)
          (λ x. (open_s, submitted-IsSubmission w s x)) Submits-IfCompleted)

  submit-Submits :
      NonceRead w s false
      → read_expired w s ≡ ok false
      → (mint : ℤ) → Ensures (IfCompleted w s) (Submits w s) (submit_destination w s mint)
  submit-Submits n d mint =
      unfold submit_destination in
      Ensures-stop (submit_inputs w s) _ (λ held e.
        let open_s : IsOpen w s = record {
          unused = n;
          in_date = d;
          carried = submit_inputs-carried e;
        } in
        Ensures-if s.deposit _ _
          (λ _. deposit-Submits open_s (min_ℤ (pos s.wanted_deposit_raw) (pos held +ℤ mint)))
          (λ _. redeem-Submits open_s))

  reattesting-IfCompleted :
      (m : Outcome Error (Unit {0})) (t : BridgeState)
      → (m >> ok (reattesting s)) ≡ ok t
      → IfCompleted w s t
  unfolding reattesting
  reattesting-IfCompleted m t h k = absurd (ground arith)

  settle-Submits : Ensures (IfCompleted w s) (Submits w s) (settle_destination w s)
  settle-Submits =
      unfold settle_destination in
      Ensures-stop (settle_inputs w s) _ (λ found e.
        Ensures-if (found.2) _ _
          (λ used.
            Ensures-pure _ (λ t _ _. subst (NonceRead w s) used (settle_inputs-NonceRead w s e)))
          (λ unused. Ensures-stop (read_expired w s) _ (λ expired x.
            Ensures-if expired _ _
              (λ _. Ensures-pure _ (reattesting-IfCompleted (w.reattest found.0)))
              (λ fresh.
                submit-Submits (subst (NonceRead w s) unused (settle_inputs-NonceRead w s e))
                  (x ∙ ap ok fresh) found.1))))

  Submits-by :
      (k : Status) (t : BridgeState)
      → (dispatch k w s).saved ≡ some t
      → Submits w s t × (k ≡ destination_ready)
  unfolding dispatch
  Submits-by destination_ready t h = (settle-Submits.on_save t h, refl)
  Submits-by bridge_planned t h = cc
  Submits-by source_submitted t h = cc
  Submits-by awaiting_attestation t h = cc
  Submits-by destination_submitted t h = cc
  Submits-by completed t h = cc
  Submits-by failed t h = cc

  -- A step records a submission only where the destination chain has just reported the leg's nonce
  -- as unused, the attestation has not expired, and the signer can carry a bridged leg.
  pub submission-IsOpen :
      (t : BridgeState)
      → (transition w s).saved ≡ some t
      → IsOpen w s × (s.status ≡ destination_ready)
  unfolding transition
  submission-IsOpen t h = let (x, k) = Submits-by s.status t h in (x.0, k)

  -- A leg completes only on evidence: its destination operation is included, or the destination
  -- chain reports its nonce as used.
  pub completion_evidence :
      (t : BridgeState)
      → (transition w s).result ≡ ok t
      → t.status ≡ completed
      → IsIncluded w s ⊎ NonceRead w s true
  unfolding transition
  completion_evidence t h c = by_status s.status refl h
    where
      by_status :
          (k : Status)
          → s.status ≡ k
          → (dispatch k w s).result ≡ ok t
          → IsIncluded w s ⊎ NonceRead w s true
      by_status bridge_planned e x = cc
      by_status completed e x = cc
      by_status failed e x = cc
      by_status destination_ready e x = inr (settle-Submits.on_ok t x c)
      by_status destination_submitted e x = reconcile_evidence w s t x c e
      by_status source_submitted e x =
          absurd (unfold can_follow in ground (arith, (observe-Follows w s e t x).1, c, e))
      by_status awaiting_attestation e x =
          absurd (unfold can_follow in ground (arith, (await-Follows w s e t x).1, c, e))

abbrev is_validation : Error → Bool
is_validation (invalid e) = true
is_validation index_error = false
is_validation assertion_error = false
is_validation (plan_error t) = false
is_validation (other t) = false

furthest_submitted :
    (s t : BridgeState)
    → s.status ≡ destination_ready
    → t.status ≡ destination_submitted
    → furthest s (some t) ≡ t
furthest_submitted s t a b = unfold furthest order in ground arith

after_exception-submitted :
    (r : Run) (t : BridgeState) (e : Error)
    → r.store.persistent ≡ true
    → r.state.status ≡ destination_ready
    → t.status ≡ destination_submitted
    → let out = after_exception r (save_hook r.store (some t)) e in
      (out.state ≡ record t { last_error = some e })
      × (out.store.record_of ≡ some (record t { last_error = some e }))
      × (out.errors ≡ true)
after_exception-submitted r t e p k q =
    let f = furthest_submitted r.state t k q in
    unfold after_exception save in rw (p, f) (refl, refl, refl)

after_result-submitted :
    (r : Run) (t : BridgeState) (e : Error)
    → is_validation e ≡ false
    → after_result r (save_hook r.store (some t)) (err e)
      ≡ after_exception r (save_hook r.store (some t)) e
unfolding after_result
after_result-submitted r t (invalid e) v = cc
after_result-submitted r t index_error v = refl
after_result-submitted r t assertion_error v = refl
after_result-submitted r t (plan_error x) v = refl
after_result-submitted r t (other x) v = refl

-- A submission that the hook recorded is not lost to an exception after it: if the step then raises
-- anything but a failed check of CCTP, the round ends with the submitted record, in the store too,
-- and an error is reported.
pub submission_recorded :
    (w : World) (r : Run) (t : BridgeState) (e : Error)
    → r.stopped ≡ false
    → r.store.persistent ≡ true
    → (transition w r.state).saved ≡ some t
    → (transition w r.state).result ≡ err e
    → is_validation e ≡ false
    → ((round w r).state ≡ record t { last_error = some e })
      × ((round w r).store.record_of ≡ some (record t { last_error = some e }))
      × ((round w r).errors ≡ true)
      × (t.status ≡ destination_submitted)
submission_recorded w r t e z p saves raises v =
    let ready = (submission-IsOpen w r.state t saves).1 in
    let is_submitted = ((transition-Ensures w r.state).on_save t saves).1 in
    let same : round w r ≡ after_exception r (save_hook r.store (some t)) e =
      round_goes_on w r z (ap is_terminal ready ∙ unfold is_terminal in refl)
      ∙ ap (λ x. after_result r (save_hook r.store x) (transition w r.state).result) saves
      ∙ ap (after_result r (save_hook r.store (some t))) raises
      ∙ after_result-submitted r t e v in
    let (a, b, c) = after_exception-submitted r t e p ready is_submitted in
    (
      ap (λ (x : Run). x.state) same ∙ a,
      ap (λ (x : Run). x.store.record_of) same ∙ b,
      ap (λ (x : Run). x.errors) same ∙ c,
      is_submitted,
    )
