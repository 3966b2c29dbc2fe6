-- ===== src/Base/Alls.antt =====
-- A predicate on every element of a list that is put together from others.
use mathlib.Core.Path.{◌≡◌, refl}
use mathlib.Core.Logic.{◌↔◌}
use mathlib.Core.List.{List, [], ◌∷◌, ◌++◌, map}
use open_allocator.Base.Lists.{All, flat_map}

module _ {ℓ κ} {A : Type ℓ} (P : A → Type κ) where
  pub All-append : (xs ys : List A) → All P (xs ++ ys) ↔ (All P xs × All P ys)
  All-append [] ys = (λ h. (tt, h), λ h. h.1)
  All-append (x ∷ xs) ys = (
    λ h. let (a, b) = (All-append xs ys).0 h.1 in ((h.0, a), b),
    λ h. (h.0.0, (All-append xs ys).1 (h.0.1, h.1)),
  )

  pub All-five :
      (a b c d e : List A)
      → All P (a ++ (b ++ (c ++ (d ++ e))))
        ↔ (All P a × (All P b × (All P c × (All P d × All P e))))
  All-five a b c d e = (
    λ h.
        let (x, r) = (All-append a (b ++ (c ++ (d ++ e)))).0 h in
        let (y, s) = (All-append b (c ++ (d ++ e))).0 r in
        let (z, t) = (All-append c (d ++ e)).0 s in (x, (y, (z, (All-append d e).0 t))),
    λ h. (All-append a (b ++ (c ++ (d ++ e)))).1 (
      h.0,
      (All-append b (c ++ (d ++ e))).1
          (h.1.0, (All-append c (d ++ e)).1 (h.1.1.0, (All-append d e).1 h.1.1.1)),
    ),
  )

pub All-map :
    {A B : Type 0} (P : B → Type 0) (Q : A → Type 0) (f : A → B)
    → ((a : A) → P (f a) ↔ Q a)
    → (xs : List A) → All P (map f xs) ↔ All Q xs
All-map P Q f h [] = (λ k. tt, λ k. tt)
All-map P Q f h (x ∷ xs) =
    (λ k. ((h x).0 k.0, (All-map P Q f h xs).0 k.1), λ k. ((h x).1 k.0, (All-map P Q f h xs).1 k.1))

-- A list put together is empty exactly when its parts are.
pub append-nil_iff {ℓ κ μ} :
    {A : Type ℓ} {P : Type κ} {Q : Type μ} (xs ys : List A)
    → (xs ≡ []) ↔ P
    → (ys ≡ []) ↔ Q
    → (xs ++ ys ≡ []) ↔ (P × Q)
append-nil_iff [] ys f g = (λ h. (f.0 refl, g.0 h), λ h. g.1 h.1)
append-nil_iff (x ∷ xs) ys f g =
    (λ h. absurd (let p = h in cc), λ h. absurd (let p = f.1 h.0 in cc))

pub All-iff {ℓ κ μ} :
    {A : Type ℓ} {P : A → Type κ} {Q : A → Type μ}
    → ((a : A) → P a ↔ Q a)
    → (xs : List A) → All P xs ↔ All Q xs
All-iff h [] = (λ k. tt, λ k. tt)
All-iff h (x ∷ xs) =
    (λ k. ((h x).0 k.0, (All-iff h xs).0 k.1), λ k. ((h x).1 k.0, (All-iff h xs).1 k.1))

pub flat_map-nil {ℓ κ} :
    {A : Type ℓ} {B : Type κ} (f : A → List B) (xs : List A)
    → (flat_map f xs ≡ []) ↔ All (λ x. f x ≡ []) xs
flat_map-nil f [] = (λ h. tt, λ h. refl)
flat_map-nil f (x ∷ xs) = append-nil_iff (f x) (flat_map f xs) (λ h. h, λ h. h) (flat_map-nil f xs)

pub map-nil {ℓ κ} :
    {A : Type ℓ} {B : Type κ} (f : A → B) (xs : List A) → (map f xs ≡ []) ↔ (xs ≡ [])
map-nil f [] = (λ h. refl, λ h. refl)
map-nil f (x ∷ xs) = (λ h. absurd (let p = h in cc), λ h. absurd (let p = h in cc))
