-- ===== src/Sizing/Sizes.antt =====
-- exec/deposit_sizing.py: the sizes of the deposits of a chain.
use open_allocator.Base.{
  ℕ, ◌+◌, Bool, true, false, Option, none, some, List, [], ◌∷◌, ltb, if◌then◌else◌,
}
use open_allocator.Base.Int.{ℤ, pos, pos_part, ◌-ℤ◌}
use open_allocator.Base.Equality.{number_equality}
use open_allocator.Base.Dict.{lookup}
use open_allocator.Execution.{PlannedBundle}
use open_allocator.Sizing.Standings.{
  DepositRequest, ByChain, or_none, or_zero, Market, proceeds_of, safe_proceeds, standing, is_short,
}

abbrev pub at_most : ℕ → ℕ → ℕ
at_most a b = if ltb b a then b else a

-- The sizes of a chain's deposits, each as large as what is left of the budget.
unfoldable pub sizes_within : ℤ → List DepositRequest → List (DepositRequest × ℕ)
unfolding ◌-ℤ◌
sizes_within budget [] = []
sizes_within budget (r ∷ rs) =
    let size = at_most r.wanted_raw (pos_part budget) in
    (r, size) ∷ sizes_within (budget -ℤ pos size) rs

abbrev pub full_size : List DepositRequest → List (DepositRequest × ℕ)
full_size [] = []
full_size (r ∷ rs) = (r, r.wanted_raw) ∷ full_size rs

abbrev pub budget_of : Market → ByChain (List PlannedBundle) → ByChain ℕ → ℕ → ℕ → ℤ
budget_of k sells reserve chain_id held =
    pos (held + safe_proceeds k sells chain_id) -ℤ pos (or_zero (lookup chain_id reserve))

abbrev pub sized_with :
    Market
    → ByChain (List PlannedBundle)
    → ByChain ℕ
    → ℕ
    → List DepositRequest
    → Bool
    → Option ℕ
    → List (DepositRequest × ℕ)
sized_with k sells reserve chain_id buys is_left none = full_size buys
sized_with k sells reserve chain_id buys true (some held) = full_size buys
sized_with k sells reserve chain_id buys false (some held) =
    sizes_within (budget_of k sells reserve chain_id held) buys

-- `sized`, on one chain
unfoldable pub sized_on :
    Market
    → ByChain (List PlannedBundle)
    → ByChain (List DepositRequest)
    → ByChain ℕ
    → ℕ
    → List (DepositRequest × ℕ)
unfolding lookup standing sizes_within proceeds_of
sized_on k sells buys reserve chain_id =
    sized_with k sells reserve chain_id (or_none (lookup chain_id buys))
      (is_short (standing k sells buys chain_id)) (k.idle chain_id)
