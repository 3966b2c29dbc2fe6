-- ===== src/Sizing.antt =====
-- exec/deposit_sizing.py: deposits sized to the USDC that their chain will hold. The notes and the dollar
-- values of the deposits are left out.
use open_allocator.Base.{
  ℕ, zero, suc, ◌+◌, ◌-◌, Bool, true, false, not, ◌&&◌, Option, none, some, List, [], ◌∷◌, ◌++◌,
  map, any, is_some, ltb, ◌==◌, seq_eq, if◌then◌else◌,
}
use open_allocator.Base.Outcome.{Outcome, ok, ◌>>=◌, ◌>>◌, guard}
use open_allocator.Base.Text.{Text, casefold}
use open_allocator.Base.Equality.{number_equality}
use open_allocator.Base.Dict.{lookup, insert}
use open_allocator.Funding.{FundingRequirement}
use open_allocator.Execution.{Failure, other, PlannedBundle, TxPlan, assemble_plan}
use open_allocator.Execution.Preparing.{PlanPreparation}
use open_allocator.Sizing.Standings.{
  DepositRequest, ByChain, or_none, or_zero, buys_from, add_chains, chain_order, Market, sells_on,
  standing, is_short, is_cross_chain,
}
use open_allocator.Sizing.Sizes.{sized_on}
pub mod Standings
pub mod Sizes
pub mod Fits
pub mod Layouts
pub mod Attempts
mod Tests

-- What the deposits of a plan with these sizes are built as; a size of zero is left out.
unfoldable pub deposits_of :
    Market → List (DepositRequest × ℕ) → Outcome Failure (List PlannedBundle)
deposits_of k [] = ok []
deposits_of k ((r, zero) ∷ sizes) = deposits_of k sizes
deposits_of k ((r, suc n) ∷ sizes) = do
  item ← k.request r (suc n)
  items ← deposits_of k sizes
  ok (item ∷ items)

-- The plan's bundles: on each chain the sells before the deposits.
unfoldable pub ordered_from :
    Market
    → ByChain (List PlannedBundle)
    → ByChain (List DepositRequest)
    → ByChain ℕ
    → List ℕ
    → Outcome Failure (List PlannedBundle)
unfolding sized_on deposits_of lookup
ordered_from k sells buys reserve [] = ok []
ordered_from k sells buys reserve (c ∷ cs) = do
  items ← deposits_of k (sized_on k sells buys reserve c)
  rest ← ordered_from k sells buys reserve cs
  ok (sells_on sells c ++ (items ++ rest))

abbrev is_positive : DepositRequest × ℕ → Bool
is_positive (r, size) = ltb 0 size

abbrev first_token : List DepositRequest → Option Text
first_token [] = none
first_token (r ∷ rs) = some r.token

abbrev is_token : Option Text → Text → Bool
is_token none token = false
is_token (some t) token = seq_eq (casefold token) (casefold t)

-- A shortfall that includes the gas charge, of the USDC that the chain's deposits spend.
unfoldable pub reserves :
    Market
    → ByChain (List PlannedBundle)
    → ByChain (List DepositRequest)
    → ByChain ℕ
    → FundingRequirement
    → Bool
unfolding lookup standing sized_on casefold seq_eq
reserves k sells buys reserve item =
    not item.is_ok
    && (item.includes_gas_charge
        && (is_some item.available_raw
            && (not (is_short (standing k sells buys item.chain_id))
                && (is_some (k.idle item.chain_id)
                    && (is_token (first_token (or_none (lookup item.chain_id buys))) item.token
                        && any is_positive (sized_on k sells buys reserve item.chain_id))))))

unfoldable pub grown_from :
    Market
    → ByChain (List PlannedBundle)
    → ByChain (List DepositRequest)
    → ByChain ℕ
    → ByChain ℕ
    → List FundingRequirement
    → ByChain ℕ
unfolding reserves insert lookup
grown_from k sells buys reserve grown [] = grown
grown_from k sells buys reserve grown (item ∷ items) =
    grown_from k sells buys reserve
      (if reserves k sells buys reserve item
        then insert item.chain_id (or_zero (lookup item.chain_id grown) + item.shortfall_raw) grown
        else grown)
      items

unfoldable pub same_reserve : ByChain ℕ → ByChain ℕ → Bool
same_reserve [] [] = true
same_reserve [] (e ∷ b) = false
same_reserve (e ∷ a) [] = false
same_reserve ((c, n) ∷ a) ((d, m) ∷ b) = c == d && (n == m && same_reserve a b)

-- `FittedPlan`, with the reserve that its deposits were sized with
pub record FittedPlan : Type 0 where
  pub plan : TxPlan
  pub preparation : PlanPreparation
  pub reserve : ByChain ℕ

abbrev pub max_preparations : ℕ
max_preparations = 3

-- One attempt, with the reserve that the next one would have.
unfoldable pub attempt :
    Market
    → ByChain (List PlannedBundle)
    → ByChain (List DepositRequest)
    → List ℕ
    → ByChain ℕ
    → Outcome Failure (FittedPlan × ByChain ℕ)
unfolding ordered_from assemble_plan grown_from
attempt k sells buys chains reserve = do
  items ← ordered_from k sells buys reserve chains
  preparation ← k.prepare_plan (assemble_plan items)
  ok (
    record { plan = assemble_plan items; preparation = preparation; reserve = reserve },
    grown_from k sells buys reserve reserve preparation.funding,
  )

-- The attempts after a first one.
unfoldable pub fit_from :
    Market
    → ByChain (List PlannedBundle)
    → ByChain (List DepositRequest)
    → List ℕ
    → ℕ
    → FittedPlan × ByChain ℕ
    → Outcome Failure FittedPlan
unfolding attempt same_reserve
fit_from k sells buys chains zero (fitted, grown) = ok fitted
fit_from k sells buys chains (suc n) (fitted, grown) =
    let rest = attempt k sells buys chains grown >>= fit_from k sells buys chains n in
    if same_reserve grown fitted.reserve then ok fitted else rest

-- `fit`; the sells are given by chain.
unfoldable pub fit :
    Market → ByChain (List PlannedBundle) → List DepositRequest → Outcome Failure FittedPlan
unfolding buys_from add_chains is_cross_chain attempt fit_from
fit k sells deposits =
    let buys = buys_from [] deposits in
    let chains = map (λ (e : ℕ × Unit {0}). e.0) (chain_order sells deposits) in
    do
      guard (not (is_cross_chain k sells buys chains)) (other "cross-chain rebalance")
      first ← attempt k sells buys chains []
      fit_from k sells buys chains (max_preparations - 1) first
