-- ===== src/PolicyCheck/Filters.antt =====
-- core/policy.py: the violations of the book and of one cycle, told apart by their rule.
use open_allocator.Base.{
  ◌≡◌, ◌↔◌, refl, Bool, true, false, not, Option, none, some, List, [], ◌∷◌, ◌++◌, filter, All, sym,
  subst,
}
use open_allocator.Base.Alls.{append-nil_iff}
use open_allocator.Base.Equality.{contains, string_equality}
use open_allocator.Base.Text.{codes}
use open_allocator.Policy.{Floats, Policy, PolicyGates, Scalar, single, number}
use open_allocator.PolicyCheck.Types.{Allocation, PolicyViolation, exceeds, violated_if}
use open_allocator.PolicyCheck.Gates.{autonomous_mode, mode_violations, check_gates}
use open_allocator.PolicyCheck.Books.{is_cycle_scoped}
use open_allocator.PolicyCheck.Scopes.{AreOfBook}
use open_allocator.PolicyCheck.Compliance.{IsWithinCycle}

module _ {ℓ} {A : Type ℓ} (p : A → Bool) where
  -- A filter keeps, or drops, a first part of which every element fails the test.
  filter-kept :
      (xs ys : List A)
      → All (λ x. p x ≡ false) xs
      → filter (λ x. not (p x)) (xs ++ ys) ≡ xs ++ filter (λ x. not (p x)) ys
  unfolding filter
  filter-kept [] ys h = refl
  filter-kept (x ∷ xs) ys h = rw (h.0, filter-kept xs ys h.1) refl

  filter-dropped : (xs ys : List A) → All (λ x. p x ≡ false) xs → filter p (xs ++ ys) ≡ filter p ys
  unfolding filter
  filter-dropped [] ys h = refl
  filter-dropped (x ∷ xs) ys h = rw (h.0, filter-dropped xs ys h.1) refl

module _ {N : Type 0} where
  abbrev pub of_book : List (PolicyViolation N) → List (PolicyViolation N)
  of_book vs = filter (λ v. not (is_cycle_scoped v)) vs

  abbrev pub of_cycle : List (PolicyViolation N) → List (PolicyViolation N)
  of_cycle vs = filter is_cycle_scoped vs

  pub of_book-nil_iff {κ μ} :
      {P : Type κ} {Q : Type μ} (xs ys : List (PolicyViolation N))
      → AreOfBook xs
      → (xs ≡ []) ↔ P
      → (of_book ys ≡ []) ↔ Q
      → (of_book (xs ++ ys) ≡ []) ↔ (P × Q)
  of_book-nil_iff {P = P} {Q = Q} xs ys h f g =
      subst (λ zs. (zs ≡ []) ↔ (P × Q)) (sym (filter-kept is_cycle_scoped xs ys h.each))
        (append-nil_iff xs (of_book ys) f g)

  pub of_cycle-nil_iff {μ} :
      {Q : Type μ} (xs ys : List (PolicyViolation N))
      → AreOfBook xs
      → (of_cycle ys ≡ []) ↔ Q
      → (of_cycle (xs ++ ys) ≡ []) ↔ Q
  of_cycle-nil_iff {Q = Q} xs ys h g =
      subst (λ zs. (zs ≡ []) ↔ Q) (sym (filter-dropped is_cycle_scoped xs ys h.each)) g

  mode-of_book :
      (allowed : Bool) (mode : Option (Scalar N))
      → (of_book (mode_violations allowed mode) ≡ []) ↔ (allowed ≡ false → mode ≡ none)
  unfolding filter contains
  mode-of_book allowed none = (λ h q. refl, λ h. refl)
  mode-of_book true (some mode) = (λ h q. absurd (let p = q in cc), λ h. refl)
  mode-of_book false (some mode) =
      (λ h. absurd (let p = h in cc), λ h. absurd (let p = h refl in cc))

  mode-of_cycle :
      (allowed : Bool) (mode : Option (Scalar N)) → of_cycle (mode_violations allowed mode) ≡ []
  unfolding filter contains
  mode-of_cycle allowed none = refl
  mode-of_cycle true (some mode) = refl
  mode-of_cycle false (some mode) = refl

module _ {N : Type 0} ⦃F : Floats N⦄ where
  pub check_gates-of_book :
      (gates : PolicyGates N) (allocation : Allocation N)
      → (of_book (check_gates gates allocation) ≡ [])
        ↔ (gates.autonomous_rebalance ≡ false → autonomous_mode {N = N} allocation.metadata ≡ none)
  unfolding check_gates contains filter
  check_gates-of_book gates allocation =
      by_limit (exceeds (some gates.max_deploy_per_cycle_usd) allocation.total_usd)
    where
      by_limit :
          (b : Bool)
          → (of_book (
                violated_if b "max_deploy_per_cycle_usd"
                  (codes "allocation")
                  (some gates.max_deploy_per_cycle_usd)
                  (single (number allocation.total_usd))
                ++ mode_violations gates.autonomous_rebalance (autonomous_mode allocation.metadata))
              ≡ [])
            ↔ (gates.autonomous_rebalance ≡ false
                → autonomous_mode {N = N} allocation.metadata ≡ none)
      by_limit true =
          mode-of_book gates.autonomous_rebalance (autonomous_mode {N = N} allocation.metadata)
      by_limit false =
          mode-of_book gates.autonomous_rebalance (autonomous_mode {N = N} allocation.metadata)

  pub check_gates-of_cycle :
      (policy : Policy N) (allocation : Allocation N)
      → (of_cycle (check_gates policy.gates allocation) ≡ []) ↔ IsWithinCycle allocation policy
  unfolding check_gates contains filter
  check_gates-of_cycle policy allocation =
      by_limit (exceeds (some policy.gates.max_deploy_per_cycle_usd) allocation.total_usd)
    where
      by_limit :
          (b : Bool)
          → (of_cycle (
                violated_if b "max_deploy_per_cycle_usd"
                  (codes "allocation")
                  (some policy.gates.max_deploy_per_cycle_usd)
                  (single (number allocation.total_usd))
                ++ mode_violations policy.gates.autonomous_rebalance
                    (autonomous_mode allocation.metadata))
              ≡ [])
            ↔ (b ≡ false)
      by_limit true = (λ h. absurd (let p = h in cc), λ h. absurd (let p = h in cc))
      by_limit false = (
        λ h. refl,
        λ h.
            mode-of_cycle policy.gates.autonomous_rebalance
              (autonomous_mode {N = N} allocation.metadata),
      )
