-- ===== src/PolicyCheck/Weights.antt =====
-- core/policy.py: `_check_caps`, the weights of an allocation by bucket; core/types.py: the buckets
-- of the curators and sectors.
use Prim.Native.String.{◌++◌ as append}
use open_allocator.Base.{
  ◌≡◌, ◌↔◌, refl, inl, inr, Bool-cases, String, false, Option, none, some, List, [], ◌∷◌, ◌++◌,
  if◌then◌else◌, str_eq, All, sym, subst, ◌∙◌, ap, ◌||◌,
}
use open_allocator.Base.Text.{Text}
use open_allocator.Base.Alls.{append-nil_iff}
use open_allocator.Base.Sorting.{sort_by, All-sort_by}
use open_allocator.Base.Equality.{Equality, string_equality, number_equality}
use open_allocator.Base.Dict.{
  lookup, insert, lookup-insert_self, lookup-insert_other, IsDistinct, insert-IsDistinct,
  All-lookup,
}
use open_allocator.Policy.{Floats, single, number}
use open_allocator.PolicyCheck.Types.{
  AllocationLeg, PolicyViolation, or_nil, exceeds, violated_if, violated_if-nil,
}

unfoldable pub curator_bucket : String → Option String → String
curator_bucket instrument_id none = append "__unknown_curator__:" instrument_id
curator_bucket instrument_id (some curator) =
    if str_eq curator "Unknown" then append "__unknown_curator__:" instrument_id else curator

unfoldable pub sector_bucket : Option String → String
sector_bucket none = "__unknown_sector__"
sector_bucket (some sector) =
    if str_eq sector "Unknown" || str_eq sector "" then "__unknown_sector__" else sector

module _ {N : Type 0} ⦃F : Floats N⦄ {K : Type 0} ⦃e : Equality K⦄ where
  -- `weights[key] += leg.weight`, for a leg in a bucket
  abbrev pub add_weight : Option K → N → List (K × N) → List (K × N)
  add_weight none w weights = weights
  add_weight (some k) w weights = insert k (F.add (or_nil (lookup k weights)) w) weights

  unfoldable pub weights_of :
      (AllocationLeg N → Option K) → List (AllocationLeg N) → List (K × N) → List (K × N)
  weights_of bucket [] weights = weights
  weights_of bucket (leg ∷ legs) weights =
      weights_of bucket legs (add_weight (bucket leg) leg.weight weights)

  -- `_check_weight_cap`
  unfoldable pub excesses : (K → Text) → String → N → List (K × N) → List (PolicyViolation N)
  excesses str rule limit [] = []
  excesses str rule limit ((k, w) ∷ weights) =
      violated_if (exceeds (some limit) w) rule (str k) (some limit) (single (number w))
      ++ excesses str rule limit weights

  unfoldable pub check_weight_cap :
      (K → Text) → String → N → List (K × N) → List (PolicyViolation N)
  unfolding excesses
  check_weight_cap str rule limit weights =
      excesses str rule limit (sort_by (λ (x : K × N). str x.0) weights)

  -- What the legs of one bucket add to the weight it had, in their order; none without any.
  abbrev added : K → Option K → N → Option N → Option N
  added k none w total = total
  added k (some j) w total = if e.same j k then some (F.add (or_nil total) w) else total

  unfoldable pub weight_from :
      (AllocationLeg N → Option K) → K → List (AllocationLeg N) → Option N → Option N
  weight_from bucket k [] total = total
  weight_from bucket k (leg ∷ legs) total =
      weight_from bucket k legs (added k (bucket leg) leg.weight total)

  -- No bucket of the legs holds more than the limit.
  abbrev pub WithinCap : (AllocationLeg N → Option K) → N → List (AllocationLeg N) → Type 0
  WithinCap bucket limit legs =
      (k : K) (w : N) → weight_from bucket k legs none ≡ some w → exceeds (some limit) w ≡ false

  lookup-add_weight :
      (j : Option K) (w : N) (weights : List (K × N)) (k : K)
      → lookup k (add_weight j w weights) ≡ added k j w (lookup k weights)
  lookup-add_weight none w weights k = refl
  lookup-add_weight (some j) w weights k = elim (Bool-cases (e.same j k)) [
    | inl p ↦ rw p (
        subst
          (λ i.
            lookup i (add_weight (some j) w weights) ≡ some (F.add (or_nil (lookup i weights)) w))
          ((e.same_iff j k).0 p) (lookup-insert_self j _ weights))
    | inr p ↦ rw p (lookup-insert_other j k _ weights p)
  ]

  lookup-weights_of :
      (bucket : AllocationLeg N → Option K) (legs : List (AllocationLeg N)) (weights : List (K × N))
      (k : K)
      → lookup k (weights_of bucket legs weights) ≡ weight_from bucket k legs (lookup k weights)
  unfolding weights_of weight_from
  lookup-weights_of bucket [] weights k = refl
  lookup-weights_of bucket (leg ∷ legs) weights k =
      lookup-weights_of bucket legs (add_weight (bucket leg) leg.weight weights) k
      ∙ ap (weight_from bucket k legs) (lookup-add_weight (bucket leg) leg.weight weights k)

  add_weight-IsDistinct :
      (j : Option K) (w : N) (weights : List (K × N))
      → IsDistinct weights
      → IsDistinct (add_weight j w weights)
  add_weight-IsDistinct none w weights h = h
  add_weight-IsDistinct (some j) w weights h = insert-IsDistinct j _ weights h

  weights_of-IsDistinct :
      (bucket : AllocationLeg N → Option K) (legs : List (AllocationLeg N)) (weights : List (K × N))
      → IsDistinct weights
      → IsDistinct (weights_of bucket legs weights)
  unfolding weights_of
  weights_of-IsDistinct bucket [] weights h = h
  weights_of-IsDistinct bucket (leg ∷ legs) weights h =
      weights_of-IsDistinct bucket legs _ (add_weight-IsDistinct (bucket leg) leg.weight weights h)

  excesses-nil :
      (str : K → Text) (rule : String) (limit : N) (weights : List (K × N))
      → (excesses str rule limit weights ≡ [])
        ↔ All (λ (x : K × N). exceeds (some limit) x.1 ≡ false) weights
  unfolding excesses
  excesses-nil str rule limit [] = (λ h. tt, λ h. refl)
  excesses-nil str rule limit ((k, w) ∷ weights) =
      append-nil_iff _ _ (violated_if-nil _ rule (str k) (some limit) _)
        (excesses-nil str rule limit weights)

  -- A cap is violated by no bucket exactly when none holds more than the limit.
  pub check_weight_cap_iff :
      (str : K → Text) (rule : String) (limit : N) (bucket : AllocationLeg N → Option K)
      (legs : List (AllocationLeg N))
      → (check_weight_cap str rule limit (weights_of bucket legs []) ≡ [])
        ↔ WithinCap bucket limit legs
  unfolding check_weight_cap lookup
  check_weight_cap_iff str rule limit bucket legs =
      let entries = weights_of bucket legs [] in
      let Small : K × N → Type 0 = λ x. exceeds (some limit) x.1 ≡ false in
      let sorted = All-sort_by (λ (x : K × N). str x.0) Small entries in
      let none_over = excesses-nil str rule limit (sort_by (λ (x : K × N). str x.0) entries) in
      let looked =
        All-lookup (λ (k : K) (w : N). exceeds (some limit) w ≡ false) entries
          (weights_of-IsDistinct bucket legs [] tt) in
      (
        λ h k w q. looked.0 (sorted.0 (none_over.0 h)) k w (lookup-weights_of bucket legs [] k ∙ q),
        λ h.
            none_over.1
              (sorted.1 (looked.1 (λ k w q. h k w (sym (lookup-weights_of bucket legs [] k) ∙ q)))),
      )
