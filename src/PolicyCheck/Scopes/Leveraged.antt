-- ===== src/PolicyCheck/Scopes/Leveraged.antt =====
-- core/policy.py: what the check of leverage reports is of the book.
use open_allocator.Base.{
  ◌≡◌, refl, String, Bool, true, false, Option, none, some, List, [], ◌∷◌, if◌then◌else◌, subst,
}
use open_allocator.Base.Text.{codes}
use open_allocator.Base.Outcome.{Outcome, ok, ◌>>=◌, >>=-eq-ok, ok-injective}
use open_allocator.Base.Equality.{contains, string_equality, number_equality}
use open_allocator.Base.Dict.{lookup}
use open_allocator.Policy.{Floats, Vault, PolicyCaps, single, number}
use open_allocator.PolicyCheck.Types.{AllocationLeg, PolicyViolation, exceeds, violated_if}
use open_allocator.PolicyCheck.Leverage.{
  LeveredError, leg_health_factor, health_violations, unlevered_violations, levered_violations,
  row_violations, leg_violations, legs_violations, check_leverage, ceiling_of, leg_leverage,
  levered_found,
}
use open_allocator.PolicyCheck.Scopes.{
  AreOfBook, nil-AreOfBook, cons-AreOfBook, append-AreOfBook, if-AreOfBook,
}

module _ {N : Type 0} ⦃F : Floats N⦄ (caps : PolicyCaps N) where
  health_violations-AreOfBook :
      (leg : AllocationLeg N) (v : Vault N) (health : Option N)
      → AreOfBook (health_violations caps leg v health)
  unfolding contains
  health_violations-AreOfBook leg v none = nil-AreOfBook
  health_violations-AreOfBook leg v (some x) =
      append-AreOfBook (if-AreOfBook _ _ refl) (if-AreOfBook _ _ refl)

  unlevered_violations-AreOfBook :
      (leg : AllocationLeg N) (chosen : Option N) → AreOfBook (unlevered_violations leg chosen)
  unfolding contains
  unlevered_violations-AreOfBook leg none = nil-AreOfBook
  unlevered_violations-AreOfBook leg (some x) = if-AreOfBook _ _ refl

  -- What a call returns is of the book, if it returns.
  abbrev ReturnsOfBook : Outcome LeveredError (List (PolicyViolation N)) → Type 0
  ReturnsOfBook call = (xs : List (PolicyViolation N)) → call ≡ ok xs → AreOfBook xs

  returned-ReturnsOfBook : (ys : List (PolicyViolation N)) → AreOfBook ys → ReturnsOfBook (ok ys)
  returned-ReturnsOfBook ys h xs e = subst AreOfBook (ok-injective e) h

  if-ReturnsOfBook :
      (b : Bool) (x y : Outcome LeveredError (List (PolicyViolation N)))
      → ReturnsOfBook x
      → ReturnsOfBook y
      → ReturnsOfBook (if b then x else y)
  if-ReturnsOfBook true x y h k = h
  if-ReturnsOfBook false x y h k = k

  levered_violations-ReturnsOfBook :
      (leg : AllocationLeg N) (v : Vault N) (leverage : N)
      → ReturnsOfBook (levered_violations caps leg v leverage)
  unfolding levered_violations contains
  levered_violations-ReturnsOfBook leg v leverage =
      if-ReturnsOfBook (exceeds (some (ceiling_of v)) leverage)
        (ok (
          violated_if true "max_leverage_declared" (codes leg.instrument_id) (some (ceiling_of v))
            (single (number leverage))))
        (do health ← leg_health_factor v leverage; ok (levered_found caps leg v leverage health))
        (returned-ReturnsOfBook _ (cons-AreOfBook refl nil-AreOfBook))
        (λ xs e.
          let (health, _, rest) =
            >>=-eq-ok (leg_health_factor v leverage)
              (λ health. ok (levered_found caps leg v leverage health)) e in
          returned-ReturnsOfBook (levered_found caps leg v leverage health)
            (append-AreOfBook (if-AreOfBook _ _ refl) (health_violations-AreOfBook leg v health)) xs
            rest)

  row_violations-ReturnsOfBook :
      (leg : AllocationLeg N) (v : Vault N) (b : Bool) → ReturnsOfBook (row_violations caps leg v b)
  row_violations-ReturnsOfBook leg v false =
      returned-ReturnsOfBook _ (unlevered_violations-AreOfBook leg leg.leverage)
  row_violations-ReturnsOfBook leg v true =
      levered_violations-ReturnsOfBook leg v (leg_leverage leg (some v))

  leg_violations-ReturnsOfBook :
      (leg : AllocationLeg N) (found : Option (Vault N))
      → ReturnsOfBook (leg_violations caps leg found)
  unfolding leg_violations
  leg_violations-ReturnsOfBook leg none = returned-ReturnsOfBook [] nil-AreOfBook
  leg_violations-ReturnsOfBook leg (some v) =
      if-ReturnsOfBook (F.le leg.weight F.nil) (ok []) _ (returned-ReturnsOfBook [] nil-AreOfBook)
        (row_violations-ReturnsOfBook leg v v.is_levered)

  legs_violations-ReturnsOfBook :
      (vaults : List (String × Vault N)) (legs : List (AllocationLeg N))
      → ReturnsOfBook (legs_violations caps vaults legs)
  unfolding legs_violations
  legs_violations-ReturnsOfBook vaults [] xs e = returned-ReturnsOfBook [] nil-AreOfBook xs e
  legs_violations-ReturnsOfBook vaults (leg ∷ legs) xs e =
      let row = lookup leg.instrument_id vaults in
      let (found, p, inner) = >>=-eq-ok (leg_violations caps leg row) _ e in
      let (others, q, rest) = >>=-eq-ok (legs_violations caps vaults legs) _ inner in
      returned-ReturnsOfBook _
        (append-AreOfBook (leg_violations-ReturnsOfBook leg row found p)
          (legs_violations-ReturnsOfBook vaults legs others q))
        xs rest

  pub check_leverage-ReturnsOfBook :
      (vaults : List (String × Vault N)) (legs : List (AllocationLeg N))
      (xs : List (PolicyViolation N))
      → check_leverage caps vaults legs ≡ ok xs
      → AreOfBook xs
  unfolding check_leverage contains
  check_leverage-ReturnsOfBook vaults legs xs e =
      let (found, p, rest) = >>=-eq-ok (legs_violations caps vaults legs) _ e in
      returned-ReturnsOfBook _
        (append-AreOfBook (legs_violations-ReturnsOfBook vaults legs found p)
          (append-AreOfBook (if-AreOfBook _ _ refl) (if-AreOfBook _ _ refl)))
        xs rest
