-- ===== src/Base/Equality.antt =====
-- Python's `==` and `in`, for the types whose values the code compares.
use Prim.Native.Nat.{ℕ}
use Prim.Native.String.{String}
use mathlib.Core.Path.{◌≡◌, refl, subst, sym, ap, ◌∙◌}
use mathlib.Core.Logic.{◌↔◌, inl, inr}
use mathlib.Core.Bool.{Bool, true, false, ◌&&◌, ◌||◌}
use mathlib.Core.List.{List, [], ◌∷◌}
use text.Mathlib.Text.{◌==◌ as str_eq}
use text.Mathlib.TextEquality.{eq_iff}
use native.Mathlib.Omega.{arith}
use open_allocator.Base.Tests.{◌==◌, ==-refl, ==→eq, Bool-cases, &&-left, &&-right}

-- A type with a Boolean test of equality.
pub record Equality {ℓ} (A : Type ℓ) : Type ℓ where
  pub same : A → A → Bool
  pub same_iff : (a b : A) → (same a b ≡ true) ↔ (a ≡ b)

instance abbrev pub number_equality : Equality ℕ
number_equality = record {
  same = ◌==◌;
  same_iff = λ a b. (==→eq a b, λ p. subst (λ c. (a == c) ≡ true) p (==-refl a));
}

instance abbrev pub string_equality : Equality String
string_equality = record { same = str_eq; same_iff = eq_iff }

module _ {ℓ} {A : Type ℓ} ⦃e : Equality A⦄ where
  -- `a in xs`
  unfoldable pub contains : List A → A → Bool
  contains [] a = false
  contains (x ∷ xs) a = e.same a x || contains xs a

  -- `set(xs) <= set(ys)`
  unfoldable pub is_subset : List A → List A → Bool
  unfolding contains
  is_subset [] ys = true
  is_subset (x ∷ xs) ys = contains ys x && is_subset xs ys

  -- `xs == ys`
  unfoldable pub same_list : List A → List A → Bool
  same_list [] [] = true
  same_list [] (y ∷ ys) = false
  same_list (x ∷ xs) [] = false
  same_list (x ∷ xs) (y ∷ ys) = e.same x y && same_list xs ys

  -- What a subset contains, the whole contains.
  pub contains-is_subset :
      (xs ys : List A) (a : A)
      → is_subset xs ys ≡ true
      → contains xs a ≡ true
      → contains ys a ≡ true
  unfolding contains is_subset
  contains-is_subset [] ys a h k = ground arith
  contains-is_subset (x ∷ xs) ys a h k = elim (Bool-cases (e.same a x)) [
    | inl p ↦
        subst (λ z. contains ys z ≡ true) (sym ((e.same_iff a x).0 p))
          (&&-left (contains ys x) (is_subset xs ys) h)
    | inr p ↦
        contains-is_subset xs ys a (&&-right (contains ys x) (is_subset xs ys) h) (ground arith)
  ]

  same_self : (a : A) → e.same a a ≡ true
  same_self a = (e.same_iff a a).1 refl

  -- A list whose every value the whole contains is a subset.
  pub is_subset_all :
      (xs ys : List A)
      → ((a : A) → contains xs a ≡ true → contains ys a ≡ true)
      → is_subset xs ys ≡ true
  unfolding contains is_subset
  is_subset_all [] ys h = refl
  is_subset_all (x ∷ xs) ys h =
      let first : contains ys x ≡ true = h x (let s = same_self x in ground arith) in
      let rest = is_subset_all xs ys (λ a k. h a (ground arith)) in ground arith

  pub same_list→eq : (xs ys : List A) → same_list xs ys ≡ true → xs ≡ ys
  unfolding same_list
  same_list→eq [] [] h = refl
  same_list→eq [] (y ∷ ys) h = ground arith
  same_list→eq (x ∷ xs) [] h = ground arith
  same_list→eq (x ∷ xs) (y ∷ ys) h =
      let p = (e.same_iff x y).0 (&&-left (e.same x y) (same_list xs ys) h) in
      let q = same_list→eq xs ys (&&-right (e.same x y) (same_list xs ys) h) in
      ap (λ z. z ∷ xs) p ∙ ap (λ zs. y ∷ zs) q
