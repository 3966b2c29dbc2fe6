-- ===== src/Base/Sorting.antt =====
-- `sorted(xs, key=...)` with texts as keys, which Python compares by code points.
use mathlib.Core.Bool.{Bool, true, false, ◌&&◌, ◌||◌}
use mathlib.Core.Path.{◌≡◌, refl, subst}
use mathlib.Core.Logic.{◌↔◌, ◌≢◌, inl, inr}
use mathlib.Core.List.{List, [], ◌∷◌}
use open_allocator.Base.Tests.{ltb, ◌==◌, if◌then◌else◌, Bool-cases}
use open_allocator.Base.Lists.{All}
use open_allocator.Base.Text.{Text}

-- `a <= b`
abbrev pub text_leb : Text → Text → Bool
text_leb [] b = true
text_leb (x ∷ a) [] = false
text_leb (x ∷ a) (y ∷ b) = ltb x y || x == y && text_leb a b

module _ {ℓ} {A : Type ℓ} (key : A → Text) where
  -- In front of those that are not smaller, so that the sort is stable.
  unfoldable pub place : A → List A → List A
  place x [] = x ∷ []
  place x (y ∷ ys) = if text_leb (key x) (key y) then x ∷ y ∷ ys else y ∷ place x ys

  unfoldable pub sort_by : List A → List A
  unfolding place
  sort_by [] = []
  sort_by (x ∷ xs) = place x (sort_by xs)

  place-not_nil : (x : A) (ys : List A) → place x ys ≢ []
  unfolding place
  place-not_nil x [] h = cc
  place-not_nil x (y ∷ ys) h = elim (Bool-cases (text_leb (key x) (key y))) [
    | inl p ↦ let q = subst (λ b. (if b then x ∷ y ∷ ys else y ∷ place x ys) ≡ []) p h in cc
    | inr p ↦ let q = subst (λ b. (if b then x ∷ y ∷ ys else y ∷ place x ys) ≡ []) p h in cc
  ]

  -- A sorted list is empty exactly when the list is.
  pub sort_by-nil : (xs : List A) → (sort_by xs ≡ []) ↔ (xs ≡ [])
  unfolding sort_by
  sort_by-nil [] = (λ h. refl, λ h. refl)
  sort_by-nil (x ∷ xs) =
      (λ h. absurd (place-not_nil x (sort_by xs) h), λ h. absurd (let p = h in cc))

  module _ {κ} (P : A → Type κ) where
    All-place : (x : A) (ys : List A) → All P (place x ys) ↔ (P x × All P ys)
    unfolding place
    All-place x [] = (λ h. h, λ h. h)
    All-place x (y ∷ ys) = elim (Bool-cases (text_leb (key x) (key y))) [
      | inl p ↦ rw p (λ h. h, λ h. h)
      | inr p ↦ rw p (
        λ h. let (a, b) = (All-place x ys).0 h.1 in (a, (h.0, b)),
        λ h. (h.1.0, (All-place x ys).1 (h.0, h.1.1)),
      )
    ]

    -- A sorted list has the elements of the list.
    pub All-sort_by : (xs : List A) → All P (sort_by xs) ↔ All P xs
    unfolding sort_by
    All-sort_by [] = (λ h. h, λ h. h)
    All-sort_by (x ∷ xs) = (
      λ h. let (a, b) = (All-place x (sort_by xs)).0 h in (a, (All-sort_by xs).0 b),
      λ h. (All-place x (sort_by xs)).1 (h.0, (All-sort_by xs).1 h.1),
    )
