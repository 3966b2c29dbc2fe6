-- ===== src/Funding/Reading.antt =====
-- exec/funding.py: the balances that a check reads, and what operations that are not yet included
-- leave of them.
use open_allocator.Base.{ℕ, Bool, Option, none, some, List, [], ◌∷◌, all}
use open_allocator.Base.Int.{ℤ, pos, pos_part, ◌+ℤ◌, ◌-ℤ◌}
use open_allocator.Base.Dict.{lookup, insert}
use open_allocator.Funding.{
  BalanceKey, key_equality, LedgerOperation, Movement, need, debit, credit, movements, or_nil,
  FundingRequirement, check,
}

unfoldable pub project_step : List (BalanceKey × ℤ) → Movement → List (BalanceKey × ℤ)
unfolding lookup insert
project_step balances m = elim m.kind [
  | need ↦ balances
  | debit ↦ insert m.key (or_nil (lookup m.key balances) -ℤ pos m.amount) balances
  | credit ↦ insert m.key (or_nil (lookup m.key balances) +ℤ pos m.amount) balances
]

unfoldable pub project_all : List (BalanceKey × ℤ) → List Movement → List (BalanceKey × ℤ)
unfolding project_step
project_all balances [] = balances
project_all balances (m ∷ ms) = project_all (project_step balances m) ms

-- `project`
unfoldable pub project : List LedgerOperation → List (BalanceKey × ℤ) → ℤ → List (BalanceKey × ℤ)
unfolding project_all movements
project ops balances slippage = project_all balances (movements ops slippage)

abbrev pub key_if_need : Movement → List (BalanceKey × Unit {0}) → List (BalanceKey × Unit {0})
key_if_need m keys = elim m.kind [ need ↦ insert m.key tt keys | debit ↦ keys | credit ↦ keys ]

unfoldable pub keys_from :
    List (BalanceKey × Unit {0}) → List Movement → List (BalanceKey × Unit {0})
unfolding insert
keys_from keys [] = keys
keys_from keys (m ∷ ms) = keys_from (key_if_need m keys) ms

-- `balance_keys`
unfoldable pub balance_keys : List LedgerOperation → List (BalanceKey × Unit {0})
unfolding keys_from movements
balance_keys ops = keys_from [] (movements ops (pos 0))

-- `read_balances`: a balance is none where its chain has no RPC or the reader raises.
unfoldable pub read_balances :
    List (BalanceKey × Unit {0}) → (BalanceKey → Option ℕ) → List (BalanceKey × Option ℕ)
read_balances [] reader = []
read_balances ((key, u) ∷ keys) reader = (key, reader key) ∷ read_balances keys reader

unfoldable pub known : List (BalanceKey × Option ℕ) → List (BalanceKey × ℤ)
known [] = []
known ((key, none) ∷ d) = known d
known ((key, some held) ∷ d) = (key, pos held) ∷ known d

abbrev pub get : List (BalanceKey × Option ℕ) → BalanceKey → Option ℕ
get d key = elim (lookup key d) [ none ↦ none | some read ↦ read ]

-- `{key: None if value is None else max(after[key], 0)}`
unfoldable pub settle :
    List (BalanceKey × ℤ) → List (BalanceKey × Option ℕ) → List (BalanceKey × Option ℕ)
unfolding lookup
settle after [] = []
settle after ((key, none) ∷ d) = (key, none) ∷ settle after d
settle after ((key, some held) ∷ d) =
    (key, some (pos_part (or_nil (lookup key after)))) ∷ settle after d

abbrev apply_unsettled :
    List LedgerOperation → ℤ → List (BalanceKey × Option ℕ) → List (BalanceKey × Option ℕ)
apply_unsettled [] slippage d = d
apply_unsettled (op ∷ ops) slippage d = settle (project (op ∷ ops) (known d) slippage) d

-- `check_operations`; the messages about balances that could not be read are left out.
unfoldable pub check_operations :
    List LedgerOperation
    → (BalanceKey → Option ℕ)
    → ℤ
    → List LedgerOperation
    → List FundingRequirement
unfolding balance_keys read_balances project known settle check lookup
check_operations ops reader slippage unsettled =
    check ops (get (apply_unsettled unsettled slippage (read_balances (balance_keys ops) reader)))
      slippage

-- `FundingCheck.ok`
unfoldable pub is_funded : List FundingRequirement → Bool
is_funded requirements = all (λ (r : FundingRequirement). r.is_ok) requirements
