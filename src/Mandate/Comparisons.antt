-- ===== src/Mandate/Comparisons.antt =====
-- What each comparison of core/mandate.py finds in a pair of values.
use open_allocator.Base.{
  String, ◌≡◌, ◌⊎◌, ◌↔◌, inl, inr, refl, sym, subst, Bool, true, false, Option, none, some, List,
  [], ◌∷◌, filter, arith, some-inj, Bool-cases,
}
use open_allocator.Base.Equality.{
  Equality, contains, is_subset, same_list, same_list→eq, contains-is_subset, is_subset_all,
  string_equality, number_equality,
}
use open_allocator.Policy.{Floats, Policy}
use open_allocator.Eligibility.{present}
use open_allocator.Mandate.{
  Movement, Bound, bound_of, is_stricter, compare_bound, compare_allowlist, is_flag, compare_flag,
  compare_fixed, is_loosened,
}

abbrev pub Keeps : Option Movement → Type 0
Keeps x = filter is_loosened (present (x ∷ [])) ≡ []

module _ {N : Type 0} ⦃F : Floats N⦄ where
  -- The derived bound is the baseline's up to rounding, or strictly on the tighter side of it.
  abbrev pub IsWithin : Bool → Policy N → Policy N → Bound N → Type 0
  IsWithin floor d b k =
      (F.is_close (bound_of k d) (bound_of k b) ≡ true)
      ⊎ (is_stricter floor (bound_of k d) (bound_of k b) ≡ true)

-- Where the baseline has a list, the derived policy has one too, and it admits nothing more.
abbrev pub Narrower : {A : Type 0} ⦃e : Equality A⦄ → Option (List A) → Option (List A) → Type 0
Narrower {A} derived baseline =
    (ys : List A)
    → baseline ≡ some ys
    → (xs : List A) × (derived ≡ some xs) × ((a : A) → contains xs a ≡ true → contains ys a ≡ true)

module _ {N : Type 0} ⦃F : Floats N⦄ (floor : Bool) (d b : Policy N) where
  pub compare_bound_iff : (k : Bound N) → Keeps (compare_bound floor d b k) ↔ IsWithin floor d b k
  unfolding compare_bound filter present
  compare_bound_iff k = elim (Bool-cases (F.is_close (bound_of k d) (bound_of k b))) [
    | inl p ↦ (λ h. inl p, λ h. rw p refl)
    | inr p ↦ elim (Bool-cases (is_stricter floor (bound_of k d) (bound_of k b))) [
      | inl q ↦ (λ h. inr q, λ h. rw (p, q) refl)
      | inr q ↦ (λ h. absurd (ground arith), λ h. absurd (ground arith))
    ]
  ]

module _ {A : Type 0} ⦃e : Equality A⦄ (knob : String) where
  compare_allowlist-Narrower :
      (derived baseline : Option (List A))
      → Keeps (compare_allowlist knob derived baseline)
      → Narrower derived baseline
  unfolding compare_allowlist filter present
  compare_allowlist-Narrower derived none h ys p = absurd (let z = p in cc)
  compare_allowlist-Narrower none (some zs) h ys p = absurd (let z = h in cc)
  compare_allowlist-Narrower (some xs) (some zs) h ys p =
      let same : zs ≡ ys = some-inj p in
      (
        xs,
        refl,
        subst (λ us. (a : A) → contains xs a ≡ true → contains us a ≡ true) same
            (elim (Bool-cases (same_list xs zs)) [
              | inl q ↦ λ a k. subst (λ us. contains us a ≡ true) (same_list→eq xs zs q) k
              | inr q ↦ λ a k. contains-is_subset xs zs a (ground arith) k
            ]),
      )

  Narrower-compare_allowlist :
      (derived baseline : Option (List A))
      → Narrower derived baseline
      → Keeps (compare_allowlist knob derived baseline)
  unfolding compare_allowlist filter present
  Narrower-compare_allowlist none none h = refl
  Narrower-compare_allowlist (some xs) none h = refl
  Narrower-compare_allowlist none (some ys) h =
      let (xs, p, _) = h ys refl in absurd (let z = p in cc)
  Narrower-compare_allowlist (some xs) (some ys) h =
      let (zs, p, k) = h ys refl in
      let sub : is_subset xs ys ≡ true = is_subset_all xs ys (
        subst (λ us. (a : A) → contains us a ≡ true → contains ys a ≡ true) (sym (some-inj p)) k) in
      ground arith

  pub compare_fixed_iff : (a b : A) → Keeps (compare_fixed knob a b) ↔ (a ≡ b)
  unfolding compare_fixed filter present
  compare_fixed_iff a b =
      (λ h. (e.same_iff a b).0 (ground arith), λ h. let q = (e.same_iff a b).1 h in rw q refl)

  pub compare_allowlist_iff :
      (derived baseline : Option (List A))
      → Keeps (compare_allowlist knob derived baseline) ↔ Narrower derived baseline
  compare_allowlist_iff derived baseline =
      (compare_allowlist-Narrower derived baseline, Narrower-compare_allowlist derived baseline)

pub compare_flag_iff :
    (knob : String) (restricting : Bool) (d b : Option Bool)
    → Keeps (compare_flag knob restricting d b)
      ↔ (is_flag restricting b ≡ true → is_flag restricting d ≡ true)
unfolding compare_flag filter present
compare_flag_iff knob restricting d b =
    by_tests (is_flag restricting d) (is_flag restricting b) refl refl
  where
    by_tests :
        (x y : Bool)
        → is_flag restricting d ≡ x
        → is_flag restricting b ≡ y
        → Keeps (compare_flag knob restricting d b)
          ↔ (is_flag restricting b ≡ true → is_flag restricting d ≡ true)
    by_tests true y p q = (λ h k. p, λ h. ground arith)
    by_tests false true p q =
        (λ h. absurd (ground arith), λ h. absurd (let z = h q in ground arith))
    by_tests false false p q = (λ h k. absurd (ground arith), λ h. ground arith)

pub is_flag-true : (o : Option Bool) → (is_flag true o ≡ true) ↔ (o ≡ some true)
is_flag-true none = (λ h. absurd (let z = h in cc), λ h. absurd (let z = h in cc))
is_flag-true (some true) = (λ h. refl, λ h. refl)
is_flag-true (some false) = (λ h. absurd (let z = h in cc), λ h. absurd (let z = h in cc))

pub is_flag-false : (b : Bool) → (is_flag false (some b) ≡ true) ↔ (b ≡ false)
is_flag-false true = (λ h. absurd (let z = h in cc), λ h. absurd (let z = h in cc))
is_flag-false false = (λ h. refl, λ h. refl)
