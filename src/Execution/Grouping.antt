-- ===== src/Execution/Grouping.antt =====
-- The operations that carry a plan: nothing is lost or reordered, and each stays on one chain.
use open_allocator.Base.{
  ◌≡◌, ◌≢◌, refl, sym, ap, ◌∙◌, subst, Bool, true, ◌&&◌, List, [], ◌∷◌, ◌++◌, All, arith,
  Bool-cases, inl, inr, ◌==◌, ==→eq, ==-refl,
}
use open_allocator.Base.Alls.{All-append}
use open_allocator.Execution.{
  PlannedBundle, Operation, single, joined, operations_from, operations, bundles_of,
}

append_assoc {ℓ} : {A : Type ℓ} (xs ys zs : List A) → (xs ++ ys) ++ zs ≡ xs ++ (ys ++ zs)
append_assoc [] ys zs = refl
append_assoc (x ∷ xs) ys zs = ap (λ r. x ∷ r) (append_assoc xs ys zs)

-- All bundles of an operation are on its chain.
abbrev pub IsOnChain : Operation → Type 0
IsOnChain op = All (λ (item : PlannedBundle). item.bundle.chain_id ≡ op.chain_id) op.bundles

-- Neighbours that could have been merged are.
abbrev pub IsMerged : List Operation → Type 0
IsMerged [] = Unit
IsMerged (a ∷ []) = Unit
IsMerged (a ∷ b ∷ ops) = (a.chain_id ≢ b.chain_id) × IsMerged (b ∷ ops)

bundles_of-operations_from :
    (batching : Bool) (last : Operation) (items : List PlannedBundle)
    → bundles_of (operations_from batching last items) ≡ last.bundles ++ items
unfolding operations_from
bundles_of-operations_from batching last [] = refl
bundles_of-operations_from batching last (item ∷ items) =
    elim (Bool-cases (batching && last.chain_id == item.bundle.chain_id)) [
      | inl p ↦ rw p (
          bundles_of-operations_from batching (joined last item) items
          ∙ append_assoc last.bundles (item ∷ []) items)
      | inr p ↦
          rw p
            (ap (λ r. last.bundles ++ r) (bundles_of-operations_from batching (single item) items))
    ]

operations_from-IsOnChain :
    (batching : Bool) (last : Operation) (items : List PlannedBundle)
    → IsOnChain last
    → All IsOnChain (operations_from batching last items)
unfolding operations_from
operations_from-IsOnChain batching last [] h = (h, tt)
operations_from-IsOnChain batching last (item ∷ items) h =
    elim (Bool-cases (batching && last.chain_id == item.bundle.chain_id)) [
      | inl p ↦
          let e : item.bundle.chain_id ≡ last.chain_id =
            sym (==→eq last.chain_id item.bundle.chain_id (ground arith)) in
          rw p (
            operations_from-IsOnChain batching (joined last item) items
              ((All-append _ last.bundles (item ∷ [])).1 (h, (e, tt))))
      | inr p ↦ rw p (h, operations_from-IsOnChain batching (single item) items (refl, tt))
    ]

-- The chain of the first operation is that of the last one that was open.
head_chain :
    (last : Operation) (items : List PlannedBundle)
    → (op : Operation) × (ops : List Operation) × (operations_from true last items ≡ op ∷ ops)
      × (op.chain_id ≡ last.chain_id)
unfolding operations_from
head_chain last [] = (last, [], refl, refl)
head_chain last (item ∷ items) = elim (Bool-cases (last.chain_id == item.bundle.chain_id)) [
  | inl p ↦ let (op, ops, q, e) = head_chain (joined last item) items in (op, ops, rw p q, e)
  | inr p ↦ (last, operations_from true (single item) items, rw p refl, refl)
]

operations_from-IsMerged :
    (last : Operation) (items : List PlannedBundle) → IsMerged (operations_from true last items)
unfolding operations_from
operations_from-IsMerged last [] = tt
operations_from-IsMerged last (item ∷ items) =
    elim (Bool-cases (last.chain_id == item.bundle.chain_id)) [
      | inl p ↦ rw p (operations_from-IsMerged (joined last item) items)
      | inr p ↦
          let (op, ops, q, e) = head_chain (single item) items in
          let rest = operations_from-IsMerged (single item) items in
          let differ : last.chain_id ≢ op.chain_id = λ same.
            let z : (last.chain_id == item.bundle.chain_id) ≡ true =
              ap (λ c. last.chain_id == c) (sym (same ∙ e)) ∙ ==-refl last.chain_id in
            cc in
          rw p (subst (λ r. IsMerged (last ∷ r)) (sym q) (differ, subst IsMerged q rest))
    ]

-- The operations of a plan carry its bundles in the plan's order, each operation on one chain;
-- and for a signer that batches, neighbouring operations are on different chains.
pub operations_lem :
    (items : List PlannedBundle) (batching : Bool)
    → (bundles_of (operations items batching) ≡ items)
      × All IsOnChain (operations items batching)
      × IsMerged (operations items true)
unfolding operations
operations_lem [] batching = (refl, tt, tt)
operations_lem (item ∷ items) batching = (
  bundles_of-operations_from batching (single item) items,
  operations_from-IsOnChain batching (single item) items (refl, tt),
  operations_from-IsMerged (single item) items,
)
