-- ===== src/Bridge/Steps.antt =====
-- Which state each step of a bridged leg can lead to, and what it leaves alone.
use open_allocator.Base.Int.{ℤ, pos, ◌+ℤ◌, min_ℤ}
use open_allocator.Base.{
  ◌≡◌, refl, ap, subst, some-inj, Bool, true, false, Option, none, some, List, [], ◌∷◌, arith,
  if◌then◌else◌,
}
use open_allocator.Base.Outcome.{Outcome, ok, err, ◌>>=◌, ok-injective}
use open_allocator.Cctp.{Error}
use open_allocator.Bridge.{
  Status, bridge_planned, source_submitted, awaiting_attestation, destination_ready,
  destination_submitted, completed, failed, BridgeState, SameLeg, World, Submission, Executed,
  locate_burn, observe_source, await_attestation,
}
use open_allocator.Bridge.Settle.{
  StepResult, pure_step, stop, run_plan, deposits_of, deposit_mint, deposit_plan, redeem,
  redeem_plan, submit_inputs, last_saved, raised_or, or_not_submitted, submitted, submitted_deposit,
  submit_destination, settle_inputs, read_expired, already_redeemed, reattesting,
  settle_destination, reconcile_destination,
}
use open_allocator.Bridge.Advance.{transition, dispatch}

-- The steps of the protocol: forward one at a time, back from `destination_ready` when the
-- attestation has expired and from `destination_submitted` when the operation reverted.
unfoldable pub can_follow : Status → Status → Bool
can_follow bridge_planned _ = false
can_follow source_submitted source_submitted = true
can_follow source_submitted awaiting_attestation = true
can_follow source_submitted failed = true
can_follow source_submitted _ = false
can_follow awaiting_attestation awaiting_attestation = true
can_follow awaiting_attestation destination_ready = true
can_follow awaiting_attestation _ = false
can_follow destination_ready awaiting_attestation = true
can_follow destination_ready destination_submitted = true
can_follow destination_ready completed = true
can_follow destination_ready _ = false
can_follow destination_submitted destination_submitted = true
can_follow destination_submitted destination_ready = true
can_follow destination_submitted completed = true
can_follow destination_submitted _ = false
can_follow completed _ = false
can_follow failed _ = false

-- A step returns only records with `P`, and its hook saves only records with `Q`.
pub record Ensures (P Q : BridgeState → Type 0) (r : StepResult) : Type 0 where
  pub on_ok : (t : BridgeState) → r.result ≡ ok t → P t
  pub on_save : (t : BridgeState) → r.saved ≡ some t → Q t

last_saved-All :
    (Q : BridgeState → Type 0) (after : Submission → BridgeState) (latest : Option BridgeState)
    (xs : List Submission)
    → ((x : Submission) → Q (after x))
    → ((t : BridgeState) → latest ≡ some t → Q t)
    → (t : BridgeState) → last_saved after latest xs ≡ some t
    → Q t
last_saved-All Q after latest [] h k t e = k t e
last_saved-All Q after latest (x ∷ xs) h k t e =
    last_saved-All Q after (some (after x)) xs h (λ u p. subst Q (some-inj p) (h x)) t e

raised_or-saved :
    (error : Option Error) (saved : Option BridgeState) (t : BridgeState)
    → raised_or error (or_not_submitted saved) ≡ ok t
    → saved ≡ some t
raised_or-saved none none t h = cc
raised_or-saved none (some s) t h = ap some (ok-injective h)
raised_or-saved (some e) saved t h = cc

module _ {P Q : BridgeState → Type 0} where
  pub Ensures-pure :
      (m : Outcome Error BridgeState)
      → ((t : BridgeState) → m ≡ ok t → P t)
      → Ensures P Q (pure_step m)
  Ensures-pure m h = record { on_ok = h; on_save = λ t e. cc }

  pub Ensures-stop :
      {A : Type 0} (m : Outcome Error A) (k : A → StepResult)
      → ((a : A) → m ≡ ok a → Ensures P Q (k a))
      → Ensures P Q (stop m k)
  unfolding stop
  Ensures-stop (ok a) k h = h a refl
  Ensures-stop (err e) k h = Ensures-pure (err e) (λ t e'. cc)

  pub Ensures-if :
      (b : Bool) (x y : StepResult)
      → (b ≡ true → Ensures P Q x)
      → (b ≡ false → Ensures P Q y)
      → Ensures P Q (if b then x else y)
  Ensures-if true x y hx hy = hx refl
  Ensures-if false x y hx hy = hy refl

  pub Ensures-run_plan :
      (after : Submission → BridgeState) (x : Executed)
      → ((y : Submission) → Q (after y))
      → ((t : BridgeState) → Q t → P t)
      → Ensures P Q (run_plan after x)
  unfolding run_plan
  Ensures-run_plan after x h weaken =
      let saves : (t : BridgeState) → last_saved after none x.submissions ≡ some t → Q t =
        last_saved-All Q after none x.submissions h (λ t e. cc) in
      record {
        on_ok = λ t e.
            weaken t (saves t (raised_or-saved x.error (last_saved after none x.submissions) t e));
        on_save = saves;
      }

-- What a step may do to a leg's record, and what its hook may save.
abbrev pub Follows : BridgeState → BridgeState → Type 0
Follows s t = SameLeg s t × (can_follow s.status t.status ≡ true)

abbrev pub IsSubmission : BridgeState → BridgeState → Type 0
IsSubmission s t = SameLeg s t × (t.status ≡ destination_submitted)

module _ (w : World) (s : BridgeState) where
  pub observe-Follows :
      s.status ≡ source_submitted → (t : BridgeState) → observe_source w s ≡ ok t → Follows s t
  unfolding observe_source locate_burn can_follow
  observe-Follows k t h = ground arith

  pub await-Follows :
      s.status ≡ awaiting_attestation
      → (t : BridgeState) → await_attestation w s ≡ ok t
      → Follows s t
  unfolding await_attestation can_follow
  await-Follows k t h = ground arith

  reconcile-Follows :
      s.status ≡ destination_submitted
      → (t : BridgeState) → reconcile_destination w s ≡ ok t
      → Follows s t
  unfolding reconcile_destination can_follow
  reconcile-Follows k t h = ground arith

  already_redeemed-Follows :
      s.status ≡ destination_ready → (t : BridgeState) → already_redeemed w s ≡ ok t → Follows s t
  unfolding already_redeemed can_follow
  already_redeemed-Follows k t h = ground arith

  reattesting-Follows :
      s.status ≡ destination_ready
      → (m : Outcome Error (Unit {0})) (t : BridgeState) → (m >>= λ _. ok (reattesting s)) ≡ ok t
      → Follows s t
  unfolding reattesting can_follow
  reattesting-Follows k m t h = ground arith

  IsSubmission-Follows :
      s.status ≡ destination_ready → (t : BridgeState) → IsSubmission s t → Follows s t
  unfolding can_follow
  IsSubmission-Follows k t h = (h.0, rw (k, h.1))

  pub submitted-IsSubmission : (x : Submission) → IsSubmission s (submitted s x)
  unfolding submitted
  submitted-IsSubmission x = ground arith

  pub submitted_deposit-IsSubmission : (x : Submission) → IsSubmission s (submitted_deposit s x)
  unfolding submitted_deposit
  submitted_deposit-IsSubmission x = ground arith

  deposit-Ensures :
      s.status ≡ destination_ready
      → (wanted : ℤ) → Ensures (Follows s) (IsSubmission s) (deposit_mint w s wanted)
  deposit-Ensures k wanted =
      unfold deposit_mint in
      Ensures-stop (deposit_plan w wanted) _ (λ fitted _.
        Ensures-run_plan (submitted_deposit s) (deposits_of (w.execute fitted))
          submitted_deposit-IsSubmission (IsSubmission-Follows k))

  redeem-Ensures : s.status ≡ destination_ready → Ensures (Follows s) (IsSubmission s) (redeem w s)
  redeem-Ensures k =
      unfold redeem in
      Ensures-stop (redeem_plan w) _ (λ fitted _.
        Ensures-run_plan (submitted s) (w.execute fitted) submitted-IsSubmission
          (IsSubmission-Follows k))

  submit-Ensures :
      s.status ≡ destination_ready
      → (mint : ℤ) → Ensures (Follows s) (IsSubmission s) (submit_destination w s mint)
  submit-Ensures k mint =
      unfold submit_destination in
      Ensures-stop (submit_inputs w s) _ (λ held _.
        Ensures-if s.deposit _ _
          (λ _. deposit-Ensures k (min_ℤ (pos s.wanted_deposit_raw) (pos held +ℤ mint)))
          (λ _. redeem-Ensures k))

  settle-Ensures :
      s.status ≡ destination_ready → Ensures (Follows s) (IsSubmission s) (settle_destination w s)
  settle-Ensures k =
      unfold settle_destination in
      Ensures-stop (settle_inputs w s) _ λ found _.
        Ensures-if (found.2) _ _ (λ _. Ensures-pure _ (already_redeemed-Follows k))
          (λ _. Ensures-stop (read_expired w s) _ λ expired _.
            Ensures-if expired _ _
              (λ _. Ensures-pure _ (reattesting-Follows k (w.reattest found.0)))
              (λ _. submit-Ensures k found.1))

  -- A step that returns leads to a state that may follow the leg's own, and changes none of the
  -- fields that the leg committed to; what its hook saves is a submitted leg of the same kind.
  pub transition-Ensures : Ensures (Follows s) (IsSubmission s) (transition w s)
  unfolding transition
  transition-Ensures = by_status s.status refl
    where
      by_status :
          (k : Status) → s.status ≡ k → Ensures (Follows s) (IsSubmission s) (dispatch k w s)
      by_status source_submitted e = Ensures-pure _ (observe-Follows e)
      by_status awaiting_attestation e = Ensures-pure _ (await-Follows e)
      by_status destination_ready e = settle-Ensures e
      by_status destination_submitted e = Ensures-pure _ (reconcile-Follows e)
      by_status bridge_planned e = Ensures-pure _ (λ t h. cc)
      by_status completed e = Ensures-pure _ (λ t h. cc)
      by_status failed e = Ensures-pure _ (λ t h. cc)
