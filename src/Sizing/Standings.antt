-- ===== src/Sizing/Standings.antt =====
-- exec/deposit_sizing.py: how a chain stands, short of USDC or with a surplus.
use open_allocator.Base.{
  ℕ, ◌+◌, Bool, true, false, not, ◌&&◌, Option, none, some, List, [], ◌∷◌, ◌++◌, map, length, any,
  ltb, ◌==◌, seq_eq, if◌then◌else◌,
}
use open_allocator.Base.Int.{ℤ, pos, negsuc, min_ℤ, ◌+ℤ◌, ◌-ℤ◌}
use open_allocator.Base.Outcome.{Outcome}
use open_allocator.Base.Text.{Text, casefold}
use open_allocator.Base.Equality.{number_equality}
use open_allocator.Base.Dict.{lookup, insert}
use open_allocator.Bundle.{TxBundle}
use open_allocator.Funding.{conservative_output}
use open_allocator.Execution.{Failure, PlannedBundle, TxPlan}
use open_allocator.Execution.Preparing.{PlanPreparation}

-- `DepositRequest`, with what the bundle of the request is built from
pub record DepositRequest : Type 0 where
  pub index : ℕ
  pub chain_id : ℕ
  pub token : Text
  pub wanted_raw : ℕ

abbrev pub ByChain : Type 0 → Type 0
ByChain A = List (ℕ × A)

abbrev pub or_none {ℓ} : {A : Type ℓ} → Option (List A) → List A
or_none none = []
or_none (some xs) = xs

abbrev pub or_zero : Option ℕ → ℕ
or_zero none = 0
or_zero (some n) = n

-- `buys.setdefault(request.chain_id, []).append(request)`
unfoldable pub buys_from :
    ByChain (List DepositRequest) → List DepositRequest → ByChain (List DepositRequest)
unfolding lookup insert
buys_from buys [] = buys
buys_from buys (r ∷ rs) =
    buys_from (insert r.chain_id (or_none (lookup r.chain_id buys) ++ r ∷ []) buys) rs

unfoldable pub add_chains : ByChain (Unit {0}) → List ℕ → ByChain (Unit {0})
unfolding insert
add_chains order [] = order
add_chains order (c ∷ cs) = add_chains (insert c tt order) cs

-- The chains of the sells, then those of the deposits.
abbrev pub chain_order : ByChain (List PlannedBundle) → List DepositRequest → ByChain (Unit {0})
chain_order sells deposits =
    add_chains (add_chains [] (map (λ (e : ℕ × List PlannedBundle). e.0) sells))
      (map (λ (r : DepositRequest). r.chain_id) deposits)

-- What sizing reads outside: a balance of USDC by chain, none where it cannot be read, the USDC of a chain,
-- the dollar value of a sell in raw units, the slippage, and the building and preparing of bundles.
pub record Market : Type 0 where
  pub idle : ℕ → Option ℕ
  pub usdc_address : ℕ → Option Text
  pub sell_raw : TxBundle → ℕ
  pub slippage : ℤ
  pub request : DepositRequest → ℕ → Outcome Failure PlannedBundle
  pub prepare_plan : TxPlan → Outcome Failure PlanPreparation

abbrev pays_usdc : Option Text → TxBundle → Bool
pays_usdc none bundle = false
pays_usdc (some usdc) bundle = seq_eq (casefold bundle.token_out.address) (casefold usdc)

-- The sum over a chain's sells that pay out in USDC.
unfoldable pub proceeds_of : Market → (TxBundle → ℕ) → ℕ → List PlannedBundle → ℕ
unfolding casefold seq_eq
proceeds_of k value chain_id [] = 0
proceeds_of k value chain_id (item ∷ items) =
    if pays_usdc (k.usdc_address chain_id) item.bundle
    then value item.bundle + proceeds_of k value chain_id items
    else proceeds_of k value chain_id items

abbrev pub sells_on : ByChain (List PlannedBundle) → ℕ → List PlannedBundle
sells_on sells chain_id = or_none (lookup chain_id sells)

abbrev pub planned_proceeds : Market → ByChain (List PlannedBundle) → ℕ → ℕ
planned_proceeds k sells chain_id = proceeds_of k k.sell_raw chain_id (sells_on sells chain_id)

abbrev pub safe_proceeds : Market → ByChain (List PlannedBundle) → ℕ → ℕ
safe_proceeds k sells chain_id =
    proceeds_of k (λ b. conservative_output b k.slippage) chain_id (sells_on sells chain_id)

abbrev pub wanted_sum : List DepositRequest → ℕ
wanted_sum [] = 0
wanted_sum (r ∷ rs) = r.wanted_raw + wanted_sum rs

-- `slack`
abbrev pub slack : ByChain (List PlannedBundle) → ByChain (List DepositRequest) → ℕ → ℕ
slack sells buys chain_id =
    length (or_none (lookup chain_id sells)) + length (or_none (lookup chain_id buys))

abbrev pub gt_nat : ℤ → ℕ → Bool
gt_nat (pos n) m = ltb m n
gt_nat (negsuc n) m = false

-- How a chain stands: it is short of a gap, it has a surplus, or its balance is not known.
pub data Standing : Type 0 where
  short surplus : ℤ → Standing
  unknown : Standing

abbrev standing_at : ℕ → ℕ → ℤ → Standing
standing_at slack proceeds gap =
    if gt_nat gap slack then short gap else surplus (min_ℤ (pos proceeds) (pos proceeds -ℤ gap))

abbrev standing_with : ℕ → ℕ → List DepositRequest → Option ℕ → Standing
standing_with slack proceeds buys none = unknown
standing_with slack proceeds buys (some held) =
    standing_at slack proceeds (pos (wanted_sum buys) -ℤ pos held -ℤ pos proceeds)

abbrev standing_of :
    Market
    → ByChain (List PlannedBundle)
    → ByChain (List DepositRequest)
    → ℕ
    → Option (List DepositRequest)
    → Standing
standing_of k sells buys chain_id none = surplus (pos (planned_proceeds k sells chain_id))
standing_of k sells buys chain_id (some chain_buys) =
    standing_with (slack sells buys chain_id) (planned_proceeds k sells chain_id) chain_buys
      (k.idle chain_id)

unfoldable pub standing :
    Market → ByChain (List PlannedBundle) → ByChain (List DepositRequest) → ℕ → Standing
unfolding lookup proceeds_of ◌+ℤ◌ ◌-ℤ◌
standing k sells buys chain_id = standing_of k sells buys chain_id (lookup chain_id buys)

abbrev pub is_short : Standing → Bool
is_short (short gap) = true
is_short (surplus amount) = false
is_short unknown = false

abbrev pub has_surplus : ℕ → Standing → Bool
has_surplus slack (short gap) = false
has_surplus slack (surplus amount) = gt_nat amount slack
has_surplus slack unknown = false

-- A chain that is short, and another whose surplus could only be bridged.
unfoldable pub is_cross_chain :
    Market → ByChain (List PlannedBundle) → ByChain (List DepositRequest) → List ℕ → Bool
unfolding standing
is_cross_chain k sells buys chains =
    any
      (λ c.
        is_short (standing k sells buys c)
        && any (λ d. not (d == c) && has_surplus (slack sells buys d) (standing k sells buys d))
            chains)
      chains
