-- ===== src/PolicyCheck/Increments.antt =====
-- core/policy.py: what a passed check of a buy on top of a book means.
use open_allocator.Base.{◌≡◌, ◌↔◌, refl, String, List, [], ◌++◌, ◌∙◌, ap}
use open_allocator.Base.Alls.{append-nil_iff}
use open_allocator.Base.Outcome.{Outcome, ok, >>=-iff, ok-injective}
use open_allocator.Base.Equality.{string_equality}
use open_allocator.Policy.{Floats, Vault, Policy}
use open_allocator.PolicyCheck.Types.{Allocation, PolicyViolation, PolicyResult}
use open_allocator.PolicyCheck.Leverage.{LeveredError, check_leverage}
use open_allocator.PolicyCheck.Gates.{Diversity, check_gates, check_diversification}
use open_allocator.PolicyCheck.Books.{Decimals, resulting_book, check_incremental}
use open_allocator.PolicyCheck.Findings.{
  check_known_iff, check_allowlists_iff, check_quality_caps_iff, allocated_from-IsDistinct,
  check_caps_iff, check_diversification_iff,
}
use open_allocator.PolicyCheck.Scopes.{
  AreOfBook, check_known-AreOfBook, check_caps-AreOfBook, check_diversification-AreOfBook,
}
use open_allocator.PolicyCheck.Scopes.Named.{
  check_allowlists-AreOfBook, check_quality_caps-AreOfBook,
}
use open_allocator.PolicyCheck.Scopes.Leveraged.{check_leverage-ReturnsOfBook}
use open_allocator.PolicyCheck.Compliance.{
  Complies, IsWithinCycle, passed, check_leverage-Complies, Complies-check_leverage,
  result_of-passed,
}
use open_allocator.PolicyCheck.{
  vault_by_id, allocated_vaults, check_known, check_allowlists, check_caps, check_quality_caps,
  check, result_of,
}
use open_allocator.PolicyCheck.Filters.{
  of_book, of_cycle, of_book-nil_iff, of_cycle-nil_iff, check_gates-of_book, check_gates-of_cycle,
}

module _ {N : Type 0} ⦃F : Floats N⦄ where
  module _ (measure : Diversity N) (allocation : Allocation N) (policy : Policy N)
      (instruments : List (Vault N)) where
    -- All that is found, with what the leverage check found.
    abbrev found_with : List (PolicyViolation N) → List (PolicyViolation N)
    found_with xs =
        let legs = allocation.legs in
        let known = vault_by_id instruments in
        let vaults = allocated_vaults instruments legs in
        check_known policy.gates known legs
        ++ (check_allowlists policy.allowed vaults legs
            ++ (check_caps policy.caps vaults legs
                ++ (xs
                    ++ (check_diversification measure policy.caps.min_effective_positions vaults
                          legs
                        ++ (check_quality_caps policy.caps vaults
                            ++ check_gates policy.gates allocation)))))

    abbrev leverage_found : Outcome LeveredError (List (PolicyViolation N))
    leverage_found =
        check_leverage policy.caps (allocated_vaults instruments allocation.legs) allocation.legs

    -- The book's rules are met exactly when the book complies.
    of_book_iff :
        ((xs : List (PolicyViolation N)) × (leverage_found ≡ ok xs)
          × (of_book (found_with xs) ≡ []))
        ↔ Complies measure allocation policy
            (vault_by_id instruments)
            (allocated_vaults instruments allocation.legs)
    of_book_iff =
        let legs = allocation.legs in
        let known = vault_by_id instruments in
        let vaults = allocated_vaults instruments legs in
        let parts = λ (xs : List (PolicyViolation N)) (p : AreOfBook xs).
          of_book-nil_iff _ _ (check_known-AreOfBook policy.gates known legs)
            (check_known_iff policy.gates known legs)
            (of_book-nil_iff _ _ (check_allowlists-AreOfBook policy.allowed vaults legs)
              (check_allowlists_iff policy.allowed vaults legs)
              (of_book-nil_iff _ _ (check_caps-AreOfBook policy.caps vaults legs)
                (check_caps_iff policy.caps vaults legs)
                (of_book-nil_iff xs _ p (λ (h : xs ≡ []). h, λ h. h)
                  (of_book-nil_iff _ _
                    (check_diversification-AreOfBook measure policy.caps.min_effective_positions
                      vaults legs)
                    (check_diversification_iff measure policy.caps.min_effective_positions vaults
                      legs)
                    (of_book-nil_iff _ _ (check_quality_caps-AreOfBook policy.caps vaults)
                      (check_quality_caps_iff policy.caps vaults
                        (allocated_from-IsDistinct known legs [] tt))
                      (check_gates-of_book policy.gates allocation)))))) in
        (
          λ h.
              let (xs, e, rest) = h in
              let book = check_leverage-ReturnsOfBook policy.caps vaults legs xs e in
              let (a, (b, (c, (d, (f, (g, i)))))) = (parts xs book).0 rest in
              check_leverage-Complies measure allocation policy known vaults (e ∙ ap ok d) a b c f g
                i,
          λ k.
              let e = Complies-check_leverage measure allocation policy known vaults k in
              (
                [],
                e,
                (parts [] (check_leverage-ReturnsOfBook policy.caps vaults legs [] e)).1 (
                  k.approved,
                  (k.allowed, (k.caps, (refl, (k.diversified, (k.quality, k.attended))))),
                ),
              ),
        )

    -- The cycle's rule is met exactly when the amount is within the limit.
    of_cycle_iff :
        (xs : List (PolicyViolation N))
        → leverage_found ≡ ok xs
        → (of_cycle (found_with xs) ≡ []) ↔ IsWithinCycle allocation policy
    of_cycle_iff xs e =
        let legs = allocation.legs in
        let vaults = allocated_vaults instruments legs in
        of_cycle-nil_iff _ _ (check_known-AreOfBook policy.gates (vault_by_id instruments) legs) (
          of_cycle-nil_iff _ _ (check_allowlists-AreOfBook policy.allowed vaults legs) (
            of_cycle-nil_iff _ _ (check_caps-AreOfBook policy.caps vaults legs) (
              of_cycle-nil_iff xs _ (check_leverage-ReturnsOfBook policy.caps vaults legs xs e) (
                of_cycle-nil_iff _ _
                  (check_diversification-AreOfBook measure policy.caps.min_effective_positions
                    vaults legs)
                  (of_cycle-nil_iff _ _ (check_quality_caps-AreOfBook policy.caps vaults)
                    (check_gates-of_cycle policy allocation))))))

    -- What a check that returns has found.
    check-found :
        (r : PolicyResult N)
        → (check measure allocation policy instruments ≡ ok r) ↔ (
            (xs : List (PolicyViolation N)) × (leverage_found ≡ ok xs)
            × (found_with xs ≡ r.violations)
            × (result_of (found_with xs) ≡ r))
    unfolding check
    check-found r = (
      λ h.
          let (xs, e, rest) = (>>=-iff leverage_found _ r).0 h in
          let same = ok-injective rest in
          (xs, e, ap (λ (z : PolicyResult N). z.violations) same, same),
      λ h. let (xs, e, _, same) = h in (>>=-iff leverage_found _ r).1 (xs, e, ap ok same),
    )

  module _ {D : Type 0} (d : Decimals N D) (measure : Diversity N) (allocation : Allocation N)
      (policy : Policy N) (instruments : List (Vault N)) (held : List (String × N)) where
    -- A buy on top of a book passes exactly when the book that results complies with the policy, the
    -- amount that is bought is within the limit of a cycle, and no check of the buy's leverage raises.
    pub check_incremental_iff :
        (check_incremental d measure allocation policy instruments held ≡ ok passed) ↔ (
          Complies measure
            (resulting_book d allocation held)
            policy
            (vault_by_id instruments)
            (allocated_vaults instruments (resulting_book d allocation held).legs)
          × (IsWithinCycle allocation policy
              × ((xs : List (PolicyViolation N)) × (check_leverage policy.caps
                      (allocated_vaults instruments allocation.legs)
                      allocation.legs
                    ≡ ok xs))))
    unfolding check_incremental
    check_incremental_iff =
        let book = resulting_book d allocation held in
        let whole = check measure book policy instruments in
        let buy = check measure allocation policy instruments in
        let book_iff = of_book_iff measure book policy instruments in
        let cycle_iff = of_cycle_iff measure allocation policy instruments in
        (
          λ h.
              let (b, e, inner) = (>>=-iff whole _ passed).0 h in
              let (c, f, last) = (>>=-iff buy _ passed).0 inner in
              let (xs, p, same_b, _) = (check-found measure book policy instruments b).0 e in
              let (ys, q, same_c, _) = (check-found measure allocation policy instruments c).0 f in
              let (none_b, none_c) =
                (append-nil_iff (of_book b.violations) (of_cycle c.violations) (λ z. z, λ z. z)
                    (λ z. z, λ z. z)).0
                  ((result_of-passed _).0 last) in
              (
                book_iff.0 (xs, p, ap of_book same_b ∙ none_b),
                ((cycle_iff ys q).0 (ap of_cycle same_c ∙ none_c), (ys, q)),
              ),
          λ h.
              let (xs, p, none_b) = book_iff.1 h.0 in
              let (ys, q) = h.1.1 in
              let b = result_of (found_with measure book policy instruments xs) in
              let c = result_of (found_with measure allocation policy instruments ys) in
              (>>=-iff whole _ passed).1 (
                b,
                (check-found measure book policy instruments b).1 (xs, p, refl, refl),
                (>>=-iff buy _ passed).1 (
                  c,
                  (check-found measure allocation policy instruments c).1 (ys, q, refl, refl),
                  (result_of-passed _).1 (
                      (append-nil_iff (of_book b.violations) (of_cycle c.violations)
                          (λ z. z, λ z. z) (λ z. z, λ z. z)).1
                        (none_b, (cycle_iff ys q).1 h.1.0)),
                ),
              ),
        )
