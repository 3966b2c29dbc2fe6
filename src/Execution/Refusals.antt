-- ===== src/Execution/Refusals.antt =====
-- When a plan is not sent at all: what the signer cannot carry, and what the account cannot pay for.
use open_allocator.Base.{
  ◌≡◌, refl, sym, ◌∙◌, ap, subst, Bool, true, false, not, ◌&&◌, ◌||◌, ◌⊎◌, inl, inr, none, some,
  String, List, [], ◌∷◌, ◌++◌, any, is_some, arith, Bool-cases, Option-cases, &&-left, &&-right,
}
use open_allocator.Base.Outcome.{Outcome, ok, err, >>=-eq-ok, ok-injective}
use open_allocator.Bundle.{TxBundle}
use open_allocator.Funding.{movements}
use open_allocator.Funding.Reading.{check_operations, is_funded}
use open_allocator.Funding.Balances.{from_read, Runs}
use open_allocator.Funding.Sufficient.{check_operations-Runs}
use open_allocator.Execution.{
  Failure, submission_mode, PlannedBundle, TxPlan, operations, planned_bundles,
}
use open_allocator.Execution.Signers.{Signer, Reads, supports_batching}
use open_allocator.Execution.Blockers.{
  Blocker, loops_need_batching, expiring_quotes, ids_where, blocker_if, loop_blockers,
  submission_mode_blockers, mode_blockers, deployment_blockers,
}
use open_allocator.Execution.Estimates.{WalletPreparation, is_nonempty}
use open_allocator.Execution.Preparing.{
  PlanPreparation, funded, prepared_plan, estimates_of, ledger_operations,
}
use open_allocator.Execution.Session.{Session, World}
use open_allocator.Execution.Submitting.{execute_bundles, execute_items, execute_plan, refusal}

module _ (signer : Signer) (w : World) where
  -- The ledger of a plan, as it stands before anything is sent, can be run from the balances.
  abbrev pub CanPay : List PlannedBundle → Session → List WalletPreparation → Type 0
  CanPay items s preparations = Runs (from_read (w.reads s.trace).balance) (
      movements
        (ledger_operations (operations items (supports_batching signer)) preparations s.store)
        (w.reads s.trace).slippage)

  -- What a plan's preparation says of blockers and of the account.
  abbrev IsPreparation : List PlannedBundle → Session → PlanPreparation → Type 0
  IsPreparation items s p =
      (p.blockers ≡ mode_blockers signer (w.reads s.trace) items)
      × (p.funding
          ≡ check_operations
              (ledger_operations (operations items (supports_batching signer)) p.preparations
                s.store)
              (w.reads s.trace).balance (w.reads s.trace).slippage [])

  prepared_plan-IsPreparation :
      (items : List PlannedBundle) (s : Session) (p : PlanPreparation)
      → prepared_plan signer (w.reads s.trace) s.store items ≡ ok p
      → IsPreparation items s p
  unfolding prepared_plan
  prepared_plan-IsPreparation items s p h =
      let (ws, e, q) =
        >>=-eq-ok
          (estimates_of signer (w.reads s.trace) (operations items (supports_batching signer))) _
          h in
      subst (IsPreparation items s) (ok-injective q) (refl, refl)

refusal-none :
    (p : PlanPreparation) → refusal p ≡ none → (is_nonempty p.blockers ≡ false) × (funded p ≡ true)
unfolding refusal
refusal-none p h = ground arith

plan-cases {ℓ} :
    {A : Type ℓ} (o : Outcome Failure A) → ((a : A) × (o ≡ ok a)) ⊎ ((f : Failure) × (o ≡ err f))
plan-cases (ok a) = inl (a, refl)
plan-cases (err f) = inr (f, refl)

module _ (signer : Signer) (w : World) where
  -- The plan was prepared, nothing stood in the way, and the account can pay.
  abbrev pub IsCleared : List PlannedBundle → Session → Type 0
  IsCleared items s =
      (p : PlanPreparation) × (prepared_plan signer (w.reads s.trace) s.store items ≡ ok p)
      × (is_nonempty (mode_blockers signer (w.reads s.trace) items) ≡ false)
      × CanPay signer w items s p.preparations

  cleared :
      (items : List PlannedBundle) (s : Session) (p : PlanPreparation)
      → prepared_plan signer (w.reads s.trace) s.store items ≡ ok p
      → refusal p ≡ none
      → IsCleared items s
  cleared items s p e r =
      let (b, f) = prepared_plan-IsPreparation signer w items s p e in
      let (x, y) = refusal-none p r in
      (
        p,
        e,
        subst (λ bs. is_nonempty bs ≡ false) b x,
        check_operations-Runs
            (ledger_operations (operations items (supports_batching signer)) p.preparations s.store)
            (w.reads s.trace).balance (w.reads s.trace).slippage
            (subst (λ rs. is_funded rs ≡ true) f y),
      )

  execute_bundles-IsCleared :
      (items : List PlannedBundle) (s : Session)
      → ((execute_bundles signer w items s).0 ≡ s) ⊎ IsCleared items s
  unfolding execute_bundles
  execute_bundles-IsCleared items s =
      elim (plan-cases (prepared_plan signer (w.reads s.trace) s.store items)) [
        | inr (f, e) ↦ rw e (inl refl)
        | inl (p, e) ↦ elim (Option-cases (refusal p)) [
          | inl r ↦ inr (cleared items s p e r)
          | inr (f, r) ↦ inl (rw (e, r) refl)
        ]
      ]

  execute_items-IsCleared :
      (plan : TxPlan) (items : List PlannedBundle) (s : Session)
      → ((execute_items signer w plan items s).0 ≡ s) ⊎ IsCleared items s
  execute_items-IsCleared plan [] s = inl refl
  execute_items-IsCleared plan (item ∷ items) s = execute_bundles-IsCleared (item ∷ items) s

  -- A run of a plan leaves all as it was, or the plan was read and prepared, nothing about the signer
  -- stood in the way, and the ledger of the plan can be run from the account's balances
  -- as they were read before anything was sent: before each spend its balance is known and holds the
  -- amount.
  pub execute_plan-IsCleared :
      (plan : TxPlan) (s : Session)
      → ((execute_plan signer w plan s).0 ≡ s)
        ⊎ ((items : List PlannedBundle) × (planned_bundles plan ≡ ok items) × IsCleared items s)
  unfolding execute_plan
  execute_plan-IsCleared plan s = elim (plan-cases (planned_bundles plan)) [
    | inr (f, e) ↦ rw e (inl refl)
    | inl (items, e) ↦ elim (execute_items-IsCleared plan items s) [
      | inl q ↦ inl (rw e q)
      | inr c ↦ inr (items, e, c)
    ]
  ]

-- The signer cannot carry the plan: a loop would go out call by call, or a quote that
-- expires would wait for co-signers.
abbrev pub is_unfit : Signer → List PlannedBundle → Bool
is_unfit signer items =
    (not (supports_batching signer) && any (λ (i : PlannedBundle). i.bundle.is_loop) items)
    || (signer.proposes_asynchronously
        && any (λ (i : PlannedBundle). is_some i.bundle.expires_at) items)

any_bundle :
    (p : TxBundle → Bool) (items : List PlannedBundle)
    → is_nonempty (ids_where p items) ≡ any (λ (i : PlannedBundle). p i.bundle) items
any_bundle p [] = refl
any_bundle p (item ∷ items) = ground (arith, any_bundle p items)

is_nonempty-blocker_if :
    (f : List String → Blocker) (ids : List String)
    → is_nonempty (blocker_if f ids) ≡ is_nonempty ids
is_nonempty-blocker_if f [] = refl
is_nonempty-blocker_if f (i ∷ ids) = refl

is_nonempty-append : (a b : List Blocker) → is_nonempty (a ++ b) ≡ (is_nonempty a || is_nonempty b)
is_nonempty-append [] b = refl
is_nonempty-append (x ∷ a) b = refl

refusal-blocked :
    (p : PlanPreparation) → is_nonempty p.blockers ≡ true → refusal p ≡ some submission_mode
unfolding refusal
refusal-blocked p h = rw h refl

either : (a b : Bool) → (a || b) ≡ true → (a ≡ true) ⊎ (b ≡ true)
either true b h = inl refl
either false b h = inr h

or_true : (a : Bool) → (a || true) ≡ true
or_true true = refl
or_true false = refl

module _ (signer : Signer) (w : World) where
  loop_blockers-any :
      (items : List PlannedBundle)
      → (not (supports_batching signer) && any (λ (i : PlannedBundle). i.bundle.is_loop) items)
        ≡ true
      → is_nonempty (loop_blockers signer items) ≡ true
  unfolding loop_blockers
  loop_blockers-any items h = elim (Bool-cases signer.has_send_batch) [
    | inl p ↦ absurd (ground arith)
    | inr p ↦ rw p (
        is_nonempty-blocker_if loops_need_batching (ids_where (λ (b : TxBundle). b.is_loop) items)
        ∙ any_bundle (λ (b : TxBundle). b.is_loop) items
        ∙ &&-right (not signer.has_send_batch) _ h)
  ]

  submission_mode_blockers-any :
      (items : List PlannedBundle)
      → (signer.proposes_asynchronously
          && any (λ (i : PlannedBundle). is_some i.bundle.expires_at) items)
        ≡ true
      → is_nonempty (submission_mode_blockers signer items) ≡ true
  unfolding submission_mode_blockers
  submission_mode_blockers-any items h = rw (&&-left signer.proposes_asynchronously _ h) (
      is_nonempty-blocker_if expiring_quotes
        (ids_where (λ (b : TxBundle). is_some b.expires_at) items)
      ∙ any_bundle (λ (b : TxBundle). is_some b.expires_at) items
      ∙ &&-right signer.proposes_asynchronously _ h)

  mode_blockers-is_unfit :
      (reads : Reads) (items : List PlannedBundle)
      → is_unfit signer items ≡ true
      → is_nonempty (mode_blockers signer reads items) ≡ true
  unfolding mode_blockers
  mode_blockers-is_unfit reads items h =
      let a = loop_blockers signer items in
      let b = submission_mode_blockers signer items in
      let d = deployment_blockers signer reads.rpc_url items in
      is_nonempty-append a (b ++ d) ∙ (elim (either _ _ h) [
        | inl p ↦ rw (loop_blockers-any items p) refl
        | inr p ↦
            ap (λ r. is_nonempty a || r)
              (is_nonempty-append b d ∙ rw (submission_mode_blockers-any items p) refl)
            ∙ or_true (is_nonempty a)
      ])

  execute_bundles-is_unfit :
      (items : List PlannedBundle) (s : Session)
      → is_unfit signer items ≡ true
      → (f : Failure) × (execute_bundles signer w items s ≡ (s, err f))
  unfolding execute_bundles
  execute_bundles-is_unfit items s h =
      elim (plan-cases (prepared_plan signer (w.reads s.trace) s.store items)) [
        | inr (f, e) ↦ (f, rw e refl)
        | inl (p, e) ↦
            let (b, f) = prepared_plan-IsPreparation signer w items s p e in
            let r = refusal-blocked p (
              subst (λ bs. is_nonempty bs ≡ true) (sym b)
                (mode_blockers-is_unfit (w.reads s.trace) items h)) in
            (submission_mode, rw (e, r) refl)
      ]

  execute_items-is_unfit :
      (plan : TxPlan) (items : List PlannedBundle) (s : Session)
      → is_unfit signer items ≡ true
      → (f : Failure) × (execute_items signer w plan items s ≡ (s, err f))
  execute_items-is_unfit plan [] s h = absurd (ground arith)
  execute_items-is_unfit plan (item ∷ items) s h = execute_bundles-is_unfit (item ∷ items) s h

  -- For a plan that can be read, with a loop and a signer that sends calls one at a time, or with a quote that
  -- expires and a signer that only proposes: the run raises, and nothing was sent or recorded.
  pub execute_plan-is_unfit :
      (plan : TxPlan) (items : List PlannedBundle) (s : Session)
      → planned_bundles plan ≡ ok items
      → is_unfit signer items ≡ true
      → (f : Failure) × (execute_plan signer w plan s ≡ (s, err f))
  unfolding execute_plan
  execute_plan-is_unfit plan items s e h =
      let (f, q) = execute_items-is_unfit plan items s h in (f, rw e q)
