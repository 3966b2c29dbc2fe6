-- ===== src/Sizing/Attempts.antt =====
-- What the attempts of `fit` end in.
use open_allocator.Base.{
  ℕ, zero, suc, ◌≡◌, refl, subst, Bool, true, false, not, List, [], map, Bool-cases, inl, inr,
  if◌then◌else◌,
}
use open_allocator.Base.Outcome.{ok, guard, >>=-eq-ok, ok-injective, guard-eq-ok}
use open_allocator.Execution.{other, PlannedBundle, assemble_plan}
use open_allocator.Sizing.Standings.{
  DepositRequest, ByChain, Market, buys_from, chain_order, is_cross_chain,
}
use open_allocator.Sizing.Layouts.{
  IsLaidOut, IsWithinChains, ordered_from-IsLaidOut, is_cross_chain-IsWithinChains,
}
use open_allocator.Sizing.{FittedPlan, ordered_from, attempt, same_reserve, fit_from, fit}

is_false : (b : Bool) → not b ≡ true → b ≡ false
is_false true h = cc
is_false false h = refl

branch {ℓ} :
    {A : Type ℓ} (b c : Bool) (x y : A) {z : A}
    → b ≡ c
    → (if b then x else y) ≡ z
    → (if c then x else y) ≡ z
branch b c x y {z = z} p h = subst (λ d. (if d then x else y) ≡ z) p h

module _ (k : Market) (sells : ByChain (List PlannedBundle)) (buys : ByChain (List DepositRequest))
    (chains : List ℕ) where
  -- The plan is laid out with the reserve that the fit ends with, and is the one that was prepared.
  pub record IsBuilt (f : FittedPlan) : Type 0 where
    pub items : List PlannedBundle
    pub layout : IsLaidOut k sells buys f.reserve chains items
    pub plan : f.plan ≡ assemble_plan items
    pub preparation : k.prepare_plan (assemble_plan items) ≡ ok f.preparation

  attempt-IsBuilt :
      (reserve : ByChain ℕ) (r : FittedPlan × ByChain ℕ)
      → attempt k sells buys chains reserve ≡ ok r
      → IsBuilt r.0
  unfolding attempt
  attempt-IsBuilt reserve r h =
      let (items, e, t) = >>=-eq-ok (ordered_from k sells buys reserve chains) _ h in
      let (p, f, u) = >>=-eq-ok (k.prepare_plan (assemble_plan items)) _ t in
      subst (λ (z : FittedPlan × ByChain ℕ). IsBuilt z.0) (ok-injective u)
        (record {
          items = items;
          layout = ordered_from-IsLaidOut k sells buys reserve chains items e;
          plan = refl;
          preparation = f;
        })

  fit_from-IsBuilt :
      (n : ℕ) (r : FittedPlan × ByChain ℕ) (f : FittedPlan)
      → IsBuilt r.0
      → fit_from k sells buys chains n r ≡ ok f
      → IsBuilt f
  unfolding fit_from
  fit_from-IsBuilt zero (fitted, grown) f b h = subst IsBuilt (ok-injective h) b
  fit_from-IsBuilt (suc n) (fitted, grown) f b h =
      elim (Bool-cases (same_reserve grown fitted.reserve)) [
        | inl p ↦
            subst IsBuilt
              (ok-injective (branch (same_reserve grown fitted.reserve) true (ok fitted) _ p h)) b
        | inr p ↦
            let (r, e, t) =
              >>=-eq-ok (attempt k sells buys chains grown) _
                (branch (same_reserve grown fitted.reserve) false (ok fitted) _ p h) in
            fit_from-IsBuilt n r f (attempt-IsBuilt grown r e) t
      ]

-- In a fitted plan no chain is short of USDC where another has more left than its number of sells and
-- deposits. With the reserve that the fit ends with, the plan is assembled from, chain after chain,
-- the chain's sells and then one bundle for each of its deposits that is sized above zero, built with that
-- size; and the preparation is that of this plan.
pub fit-IsBuilt :
    (k : Market) (sells : ByChain (List PlannedBundle)) (deposits : List DepositRequest)
    (f : FittedPlan)
    → fit k sells deposits ≡ ok f
    → IsWithinChains k sells
        (buys_from [] deposits)
        (map (λ (e : ℕ × Unit {0}). e.0) (chain_order sells deposits))
      × IsBuilt k sells
          (buys_from [] deposits)
          (map (λ (e : ℕ × Unit {0}). e.0) (chain_order sells deposits))
          f
unfolding fit
fit-IsBuilt k sells deposits f h =
    let buys = buys_from [] deposits in
    let chains = map (λ (e : ℕ × Unit {0}). e.0) (chain_order sells deposits) in
    let bad = is_cross_chain k sells buys chains in
    let (u, g, t) = >>=-eq-ok (guard (not bad) (other "cross-chain rebalance")) _ h in
    let (r, e, q) = >>=-eq-ok (attempt k sells buys chains []) _ t in
    (
      is_cross_chain-IsWithinChains k sells buys chains
          (is_false bad (guard-eq-ok (not bad) (other "cross-chain rebalance") g)),
      fit_from-IsBuilt k sells buys chains 2 r f (attempt-IsBuilt k sells buys chains [] r e) q,
    )
