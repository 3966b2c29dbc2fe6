-- ===== src/Sizing/Layouts.antt =====
-- exec/deposit_sizing.py: what a fitted plan is laid out as, and which plans are not fitted.
use open_allocator.Base.{
  ℕ, zero, suc, ◌+◌, ◌≡◌, ◌≢◌, sym, Bool, false, not, ◌&&◌, List, [], ◌∷◌, ◌++◌, All, any, length,
  ◌==◌, ==→eq, arith, Bool-cases, inl, inr, subst,
}
use open_allocator.Base.Int.{ℤ, pos, negsuc, ◌≤ℤ◌}
use open_allocator.Base.Outcome.{ok, >>=-eq-ok, ok-injective}
use open_allocator.Base.Equality.{number_equality}
use open_allocator.Base.Dict.{lookup}
use open_allocator.Execution.{PlannedBundle}
use open_allocator.Sizing.Standings.{
  DepositRequest, ByChain, Market, Standing, short, surplus, unknown, or_none, gt_nat, standing,
  is_short, has_surplus, slack, is_cross_chain,
}
use open_allocator.Sizing.Sizes.{sized_on}
use open_allocator.Sizing.{deposits_of, ordered_from}

-- One bundle for each deposit whose size is above zero, built with that size, in their order.
pub data AreDeposits (k : Market) : List (DepositRequest × ℕ) → List PlannedBundle → Type 0 where
  no_deposits : AreDeposits k [] []
  left_out :
      {r : DepositRequest} {sizes : List (DepositRequest × ℕ)} {items : List PlannedBundle}
      → AreDeposits k sizes items
      → AreDeposits k ((r, zero) ∷ sizes) items
  built :
      {r : DepositRequest} {n : ℕ} {item : PlannedBundle} {sizes : List (DepositRequest × ℕ)}
      {items : List PlannedBundle}
      → k.request r (suc n) ≡ ok item
      → AreDeposits k sizes items
      → AreDeposits k ((r, suc n) ∷ sizes) (item ∷ items)

-- Chain after chain, the chain's sells and then its deposits as sized with the reserve.
pub data IsLaidOut (k : Market) (sells : ByChain (List PlannedBundle))
    (buys : ByChain (List DepositRequest)) (reserve : ByChain ℕ)
    : List ℕ → List PlannedBundle → Type 0 where
  no_chains : IsLaidOut k sells buys reserve [] []
  chain :
      {c : ℕ} {cs : List ℕ} {all : List PlannedBundle} (deposits rest : List PlannedBundle)
      → AreDeposits k (sized_on k sells buys reserve c) deposits
      → all ≡ or_none (lookup c sells) ++ (deposits ++ rest)
      → IsLaidOut k sells buys reserve cs rest
      → IsLaidOut k sells buys reserve (c ∷ cs) all

-- Where one chain is short, what another has left is at most its number of sells and deposits.
abbrev pub IsFedBy :
    ByChain (List PlannedBundle) → ByChain (List DepositRequest) → ℕ → Standing → Standing → Type 0
IsFedBy sells buys d (short gap) (surplus amount) =
    amount ≤ℤ pos (length (or_none (lookup d sells)) + length (or_none (lookup d buys)))
IsFedBy sells buys d (short gap) (short other) = Unit
IsFedBy sells buys d (short gap) unknown = Unit
IsFedBy sells buys d (surplus amount) s = Unit
IsFedBy sells buys d unknown s = Unit

-- No chain that is short could be fed by bridging from another.
abbrev pub IsWithinChains :
    Market → ByChain (List PlannedBundle) → ByChain (List DepositRequest) → List ℕ → Type 0
IsWithinChains k sells buys chains =
    All
      (λ c.
        All (λ d. d ≢ c → IsFedBy sells buys d (standing k sells buys c) (standing k sells buys d))
          chains)
      chains

deposits_of-AreDeposits :
    (k : Market) (sizes : List (DepositRequest × ℕ)) (items : List PlannedBundle)
    → deposits_of k sizes ≡ ok items
    → AreDeposits k sizes items
unfolding deposits_of
deposits_of-AreDeposits k [] items h = subst (AreDeposits k []) (ok-injective h) no_deposits
deposits_of-AreDeposits k ((r, zero) ∷ sizes) items h =
    left_out (deposits_of-AreDeposits k sizes items h)
deposits_of-AreDeposits k ((r, suc n) ∷ sizes) items h =
    let (item, e, h1) = >>=-eq-ok (k.request r (suc n)) _ h in
    let (rest, f, h2) = >>=-eq-ok (deposits_of k sizes) _ h1 in
    subst (AreDeposits k ((r, suc n) ∷ sizes)) (ok-injective h2)
      (built e (deposits_of-AreDeposits k sizes rest f))

any-false : {A : Type 0} (p : A → Bool) (xs : List A) → any p xs ≡ false → All (λ x. p x ≡ false) xs
any-false p [] h = tt
any-false p (x ∷ xs) h = (ground arith, any-false p xs (ground arith))

All-map_to :
    {A : Type 0} (P Q : A → Type 0) (xs : List A) → ((a : A) → P a → Q a) → All P xs → All Q xs
All-map_to P Q [] f h = tt
All-map_to P Q (x ∷ xs) f h = (f x h.0, All-map_to P Q xs f h.1)

All-all : {A : Type 0} (P : A → Type 0) → ((a : A) → P a) → (xs : List A) → All P xs
All-all P f [] = tt
All-all P f (x ∷ xs) = (f x, All-all P f xs)

module _ (k : Market) (sells : ByChain (List PlannedBundle))
    (buys : ByChain (List DepositRequest)) where
  pub ordered_from-IsLaidOut :
      (reserve : ByChain ℕ) (chains : List ℕ) (items : List PlannedBundle)
      → ordered_from k sells buys reserve chains ≡ ok items
      → IsLaidOut k sells buys reserve chains items
  unfolding ordered_from
  ordered_from-IsLaidOut reserve [] items h =
      subst (IsLaidOut k sells buys reserve []) (ok-injective h) no_chains
  ordered_from-IsLaidOut reserve (c ∷ cs) items h =
      let (deposits, e, h1) = >>=-eq-ok (deposits_of k (sized_on k sells buys reserve c)) _ h in
      let (rest, f, h2) = >>=-eq-ok (ordered_from k sells buys reserve cs) _ h1 in
      chain deposits rest (deposits_of-AreDeposits k _ deposits e) (sym (ok-injective h2))
        (ordered_from-IsLaidOut reserve cs rest f)

  gt_nat-le : (amount : ℤ) (n : ℕ) → gt_nat amount n ≡ false → amount ≤ℤ pos n
  gt_nat-le (pos m) n h = ground arith
  gt_nat-le (negsuc m) n h = omega arith

  fed_by :
      (c d : ℕ) (gap : ℤ) (other : Standing)
      → (not (d == c) && has_surplus (slack sells buys d) other) ≡ false
      → d ≢ c
      → IsFedBy sells buys d (short gap) other
  fed_by c d gap (short g) q n = tt
  fed_by c d gap unknown q n = tt
  fed_by c d gap (surplus amount) q n = elim (Bool-cases (d == c)) [
    | inl p ↦ absurd (n (==→eq d c p))
    | inr p ↦ gt_nat-le amount (slack sells buys d) (ground arith)
  ]

  one_chain :
      (chains : List ℕ) (c : ℕ) (own : Standing)
      → (is_short own
          && any
              (λ d. not (d == c) && has_surplus (slack sells buys d) (standing k sells buys d))
              chains)
        ≡ false
      → All (λ d. d ≢ c → IsFedBy sells buys d own (standing k sells buys d)) chains
  one_chain chains c (short gap) q =
      All-map_to _ _ chains (λ d. fed_by c d gap (standing k sells buys d)) (any-false _ chains q)
  one_chain chains c (surplus amount) q = All-all _ (λ d n. tt) chains
  one_chain chains c unknown q = All-all _ (λ d n. tt) chains

  pub is_cross_chain-IsWithinChains :
      (chains : List ℕ)
      → is_cross_chain k sells buys chains ≡ false
      → IsWithinChains k sells buys chains
  unfolding is_cross_chain
  is_cross_chain-IsWithinChains chains h =
      All-map_to _ _ chains (λ c. one_chain chains c (standing k sells buys c))
        (any-false _ chains h)
