-- ===== src/Sizing/Fits.antt =====
-- What deposits are sized to.
use open_allocator.Base.{ℕ, ◌+◌, ◌-◌, ◌≤◌, ◌≡◌, ap, ◌∙◌, false, some, List, [], ◌∷◌, All, arith}
use open_allocator.Base.Int.{ℤ, pos, negsuc, pos_part, ◌-ℤ◌}
use open_allocator.Base.Dict.{lookup}
use open_allocator.Base.Equality.{number_equality}
use open_allocator.Execution.{PlannedBundle}
use open_allocator.Sizing.Standings.{
  DepositRequest, wanted_sum, Market, ByChain, is_short, standing, or_none,
}
use open_allocator.Sizing.Sizes.{at_most, sizes_within, sized_on, budget_of}

abbrev pub spent_by : List (DepositRequest × ℕ) → ℕ
spent_by [] = 0
spent_by ((r, size) ∷ sizes) = size + spent_by sizes

abbrev pub IsAtMostWanted : DepositRequest × ℕ → Type 0
IsAtMostWanted (r, size) = size ≤ r.wanted_raw

pos_part_sub : (b : ℤ) (n : ℕ) → n ≤ pos_part b → pos_part (b -ℤ pos n) ≡ pos_part b - n
unfolding ◌-ℤ◌
pos_part_sub (pos m) n h = ground arith
pos_part_sub (negsuc m) n h = ground arith

at_most_le : (a b : ℕ) → (at_most a b ≤ a) × (at_most a b ≤ b)
at_most_le a b = (ground arith, ground arith)

at_most_rest : (w r p : ℕ) → at_most w p + at_most r (p - at_most w p) ≡ at_most (w + r) p
at_most_rest w r p = ground arith

spent_by-sizes_within :
    (budget : ℤ) (buys : List DepositRequest)
    → spent_by (sizes_within budget buys) ≡ at_most (wanted_sum buys) (pos_part budget)
unfolding sizes_within
spent_by-sizes_within budget [] = ground arith
spent_by-sizes_within budget (r ∷ rs) =
    let size = at_most r.wanted_raw (pos_part budget) in
    let left = pos_part_sub budget size (at_most_le r.wanted_raw (pos_part budget)).1 in
    ap (λ n. size + n)
      (spent_by-sizes_within (budget -ℤ pos size) rs ∙ ap (at_most (wanted_sum rs)) left)
    ∙ at_most_rest r.wanted_raw (wanted_sum rs) (pos_part budget)

sizes_within-IsAtMostWanted :
    (budget : ℤ) (buys : List DepositRequest) → All IsAtMostWanted (sizes_within budget buys)
unfolding sizes_within
sizes_within-IsAtMostWanted budget [] = tt
sizes_within-IsAtMostWanted budget (r ∷ rs) = (
  (at_most_le r.wanted_raw (pos_part budget)).0,
  sizes_within-IsAtMostWanted (budget -ℤ pos (at_most r.wanted_raw (pos_part budget))) rs,
)

-- On a chain that is not short and whose balance is known, no deposit is larger than it was wanted, and
-- together the deposits spend all that is wanted or else all that the chain will hold: its balance
-- and the conservative proceeds of its sells, less the reserve, and nothing where that is negative.
pub sized_on-spends :
    (k : Market) (sells : ByChain (List PlannedBundle)) (buys : ByChain (List DepositRequest))
    (reserve : ByChain ℕ) (chain_id held : ℕ)
    → k.idle chain_id ≡ some held
    → is_short (standing k sells buys chain_id) ≡ false
    → All IsAtMostWanted (sized_on k sells buys reserve chain_id)
      × (spent_by (sized_on k sells buys reserve chain_id)
          ≡ at_most
              (wanted_sum (or_none (lookup chain_id buys)))
              (pos_part (budget_of k sells reserve chain_id held)))
unfolding sized_on
sized_on-spends k sells buys reserve chain_id held e h =
    let b = budget_of k sells reserve chain_id held in
    let rs = or_none (lookup chain_id buys) in
    rw (e, h) (sizes_within-IsAtMostWanted b rs, spent_by-sizes_within b rs)
