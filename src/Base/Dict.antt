-- ===== src/Base/Dict.antt =====
-- Python's `dict`: the entries in the order in which their keys were first set.
use mathlib.Core.Path.{◌≡◌, refl, subst, sym, ◌∙◌}
use mathlib.Core.Logic.{◌↔◌, inl, inr}
use mathlib.Core.Bool.{false}
use mathlib.Core.Option.{Option, none, some}
use mathlib.Core.List.{List, [], ◌∷◌}
use native.Mathlib.Omega.{arith}
use open_allocator.Base.Tests.{Bool-cases, if◌then◌else◌}
use open_allocator.Base.Lists.{All}
use open_allocator.Base.Equality.{Equality}

module _ {ℓ κ} {K : Type ℓ} {V : Type κ} ⦃e : Equality K⦄ where
  -- `d.get(k)`
  unfoldable pub lookup : K → List (K × V) → Option V
  lookup k [] = none
  lookup k ((j, v) ∷ d) = if e.same j k then some v else lookup k d

  -- `d[k] = v`
  unfoldable pub insert : K → V → List (K × V) → List (K × V)
  insert k v [] = (k, v) ∷ []
  insert k v ((j, w) ∷ d) = if e.same j k then (j, v) ∷ d else (j, w) ∷ insert k v d

  pub lookup-insert_self : (k : K) (v : V) (d : List (K × V)) → lookup k (insert k v d) ≡ some v
  unfolding lookup insert
  lookup-insert_self k v [] = rw ((e.same_iff k k).1 refl) refl
  lookup-insert_self k v ((j, w) ∷ d) = elim (Bool-cases (e.same j k)) [
    | inl p ↦ rw (p, p) refl
    | inr p ↦ rw (p, p) (lookup-insert_self k v d)
  ]

  pub lookup-insert_other :
      (k j : K) (v : V) (d : List (K × V))
      → e.same k j ≡ false
      → lookup j (insert k v d) ≡ lookup j d
  unfolding lookup insert
  lookup-insert_other k j v [] h = rw h refl
  lookup-insert_other k j v ((i, w) ∷ d) h = elim (Bool-cases (e.same i k)) [
    | inl p ↦
        let q : e.same i j ≡ false =
          subst (λ z. e.same z j ≡ false) (sym ((e.same_iff i k).0 p)) h in
        rw (p, q) refl
    | inr p ↦ elim (Bool-cases (e.same i j)) [
      | inl q ↦ rw (p, q) refl
      | inr q ↦ rw (p, q) (lookup-insert_other k j v d h)
    ]
  ]

  -- No key stands twice.
  abbrev pub IsDistinct : List (K × V) → Type κ
  IsDistinct [] = Unit
  IsDistinct ((k, v) ∷ d) = (lookup k d ≡ none) × IsDistinct d

  pub insert-IsDistinct :
      (k : K) (v : V) (d : List (K × V)) → IsDistinct d → IsDistinct (insert k v d)
  unfolding lookup insert
  insert-IsDistinct k v [] h = (refl, tt)
  insert-IsDistinct k v ((j, w) ∷ d) h = elim (Bool-cases (e.same j k)) [
    | inl p ↦ rw p h
    | inr p ↦
        let other : e.same k j ≡ false = elim (Bool-cases (e.same k j)) [
          | inl q ↦ absurd (let s = (e.same_iff j k).1 (sym ((e.same_iff k j).0 q)) in cc)
          | inr q ↦ q
        ] in
        rw p (lookup-insert_other k j v d other ∙ h.0, insert-IsDistinct k v d h.1)
  ]

  -- Every entry has a property exactly when every value that is looked up has it.
  pub All-lookup {μ} :
      (P : K → V → Type μ) (d : List (K × V))
      → IsDistinct d
      → All (λ (x : K × V). P x.0 x.1) d ↔ ((k : K) (v : V) → lookup k d ≡ some v → P k v)
  unfolding lookup
  All-lookup P [] h = (λ x k v q. absurd (let z = q in cc), λ x. tt)
  All-lookup P ((j, w) ∷ d) h = (
    λ x k v q. elim (Bool-cases (e.same j k)) [
      | inl p ↦
          let found : w ≡ v = ground arith in
          subst (λ z. P z v) ((e.same_iff j k).0 p) (subst (P j) found x.0)
      | inr p ↦ (All-lookup P d h.1).0 x.1 k v (ground arith)
    ],
    λ x. (
      x j w (rw ((e.same_iff j j).1 refl) refl),
      (All-lookup P d h.1).1 (λ k v q. x k v (elim (Bool-cases (e.same j k)) [
        | inl p ↦ absurd (let z = subst (λ y. lookup y d ≡ none) ((e.same_iff j k).0 p) h.0 in cc)
        | inr p ↦ rw p q
      ])),
    ),
  )
