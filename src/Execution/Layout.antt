-- ===== src/Execution/Layout.antt =====
-- A plan that is put together from bundles is taken apart into the same bundles.
use open_allocator.Base.{
  ℕ, zero, suc, ◌+◌, ◌≤◌, ◌≡◌, refl, sym, ap, ◌∙◌, subst, true, some, List, [], ◌∷◌, ◌++◌, map, All,
  length, get_elem?, length-append, drop, arith,
}
use open_allocator.Base.Outcome.{ok}
use open_allocator.Base.Equality.{same_list, number_equality}
use open_allocator.Bundle.{TxBundle}
use open_allocator.Cctp.{TxStep}
use open_allocator.Eligibility.{present}
use open_allocator.Execution.{
  PlannedBundle, steps_of, range_from, placed_at, place_from, assemble_plan, insert_index,
  sort_indexes, indexes_of, first_index, insert_bundle, sort_bundles, planned, planned_bundles,
}

-- The bundles of a plan, with the step indexes that they have in it.
abbrev pub relaid : ℕ → List PlannedBundle → List PlannedBundle
relaid first [] = []
relaid first (item ∷ items) =
    record { bundle = placed_at first item; steps = item.steps }
    ∷ relaid (first + length item.steps) items

-- A bundle has at least one step.
abbrev pub HasSteps : PlannedBundle → Type 0
HasSteps item = (x : TxStep) × (xs : List TxStep) × (item.steps ≡ x ∷ xs)

insert_index-range : (n k : ℕ) → insert_index n (range_from (suc n) k) ≡ n ∷ range_from (suc n) k
unfolding insert_index range_from
insert_index-range n zero = refl
insert_index-range n (suc k) = ground arith

sort_indexes-range : (n k : ℕ) → sort_indexes (range_from n k) ≡ range_from n k
unfolding sort_indexes range_from
sort_indexes-range n zero = refl
sort_indexes-range n (suc k) =
    ap (insert_index n) (sort_indexes-range (suc n) k) ∙ insert_index-range n k

range_append : (n a b : ℕ) → range_from n (a + b) ≡ range_from n a ++ range_from (n + a) b
unfolding range_from
range_append n zero b =
    let x : 0 + b ≡ b = omega arith in
    let y : n ≡ n + 0 = omega arith in ap (range_from n) x ∙ ap (λ m. range_from m b) y
range_append n (suc a) b =
    let x : suc a + b ≡ suc (a + b) = omega arith in
    ap (range_from n) x
    ∙ ap (λ r. n ∷ r)
        (range_append (suc n) a b ∙ ap (λ m. range_from (suc n) a ++ range_from m b) (omega arith))

indexes_of-place_from :
    (n : ℕ) (items : List PlannedBundle)
    → indexes_of (place_from n items) ≡ range_from n (length (steps_of items))
unfolding place_from range_from
indexes_of-place_from n [] = refl
indexes_of-place_from n (item ∷ items) =
    ap (λ r. range_from n (length item.steps) ++ r)
      (indexes_of-place_from (n + length item.steps) items)
    ∙ sym (range_append n (length item.steps) (length (steps_of items)))
    ∙ ap (range_from n) (sym (length-append item.steps (steps_of items)))

same_list_refl : (ns : List ℕ) → same_list ns ns ≡ true
unfolding same_list
same_list_refl [] = refl
same_list_refl (n ∷ ns) = ground (arith, (number_equality.same_iff n n).1 refl, same_list_refl ns)

first_index-range :
    (n : ℕ) (steps : List TxStep) (x : TxStep) (xs : List TxStep)
    → steps ≡ x ∷ xs
    → first_index (range_from n (length steps)) ≡ n
unfolding range_from
first_index-range n steps x xs h = rw h refl

insert_bundle-place_from :
    (n m : ℕ) (b : TxBundle) (items : List PlannedBundle)
    → n ≤ m
    → first_index b.step_indexes ≡ n
    → All HasSteps items
    → insert_bundle b (place_from m items) ≡ b ∷ place_from m items
unfolding insert_bundle place_from
insert_bundle-place_from n m b [] l e h = refl
insert_bundle-place_from n m b (item ∷ items) l e ((x, xs, q), h) =
    let f = first_index-range m item.steps x xs q in rw (e, f) (ground arith)

sort_bundles-place_from :
    (n : ℕ) (items : List PlannedBundle)
    → All HasSteps items
    → sort_bundles (place_from n items) ≡ place_from n items
unfolding sort_bundles place_from
sort_bundles-place_from n [] h = refl
sort_bundles-place_from n (item ∷ items) ((x, xs, q), h) =
    ap (insert_bundle (placed_at n item)) (sort_bundles-place_from (n + length item.steps) items h)
    ∙ insert_bundle-place_from n (n + length item.steps) (placed_at n item) items (omega arith)
        (first_index-range n item.steps x xs q) h

module _ {A : Type 0} where
  get_elem?-drop :
      (n : ℕ) (l : List A) (x : A) (r : List A)
      → drop n l ≡ x ∷ r
      → (get_elem? l n ≡ some x) × (drop (suc n) l ≡ r)
  unfolding drop
  get_elem?-drop zero [] x r h = absurd cc
  get_elem?-drop zero (y ∷ l) x r h = (cc, cc)
  get_elem?-drop (suc n) [] x r h = absurd cc
  get_elem?-drop (suc n) (y ∷ l) x r h = get_elem?-drop n l x r h

  -- The elements at consecutive indexes.
  present-range :
      (l : List A) (n : ℕ) (xs post : List A)
      → drop n l ≡ xs ++ post
      → (present (map (get_elem? l) (range_from n (length xs))) ≡ xs)
        × (drop (n + length xs) l ≡ post)
  unfolding present range_from
  present-range l n [] post h = (refl, subst (λ m. drop m l ≡ post) (omega arith) h)
  present-range l n (x ∷ xs) post h =
      let (e, t) = get_elem?-drop n l x (xs ++ post) h in
      let (i, d) = present-range l (suc n) xs post t in
      (rw e (ap (λ r. x ∷ r) i), subst (λ m. drop m l ≡ post) (omega arith) d)

planned-place_from :
    (l : List TxStep) (n : ℕ) (items : List PlannedBundle)
    → drop n l ≡ steps_of items
    → map (planned l) (place_from n items) ≡ relaid n items
unfolding place_from
planned-place_from l n [] h = refl
planned-place_from l n (item ∷ items) h =
    let (e, d) = present-range l n item.steps (steps_of items) h in
    rw e (
      ap (λ r. record { bundle = placed_at n item; steps = item.steps } ∷ r)
        (planned-place_from l (n + length item.steps) items d))

-- A plan that is assembled from bundles with at least one step each is read back as these
-- bundles in their order, each with its own steps, and with step indexes that are laid out anew.
pub planned_bundles-assemble_plan :
    (items : List PlannedBundle)
    → All HasSteps items
    → planned_bundles (assemble_plan items) ≡ ok (relaid 0 items)
unfolding planned_bundles assemble_plan drop
planned_bundles-assemble_plan items h =
    let indexes =
      ap sort_indexes (indexes_of-place_from 0 items)
      ∙ sort_indexes-range 0 (length (steps_of items)) in
    rw (indexes, same_list_refl (range_from 0 (length (steps_of items))))
      (ap ok (
        ap (map (planned (steps_of items))) (sort_bundles-place_from 0 items h)
        ∙ planned-place_from (steps_of items) 0 items refl))
