-- ===== src/Funding/Balances.antt =====
-- The balances of a plan as its movements run, the meaning of a funding check.
use open_allocator.Base.{ℕ, ◌≡◌, ap, subst, Option, none, some, List, [], ◌∷◌, if◌then◌else◌}
use open_allocator.Base.Int.{ℤ, pos, ◌+ℤ◌, ◌-ℤ◌, ◌≤ℤ◌}
use open_allocator.Funding.{BalanceKey, key_equality, Movement, need, debit, credit}

-- The balances as a plan runs; a balance that could not be read stays unknown.
abbrev pub Balances : Type 0
Balances = BalanceKey → Option ℤ

abbrev pub as_held : Option ℕ → Option ℤ
as_held none = none
as_held (some held) = some (pos held)

abbrev pub from_read : (BalanceKey → Option ℕ) → Balances
from_read read key = as_held (read key)

abbrev pub change : Movement → Option ℤ → Option ℤ
change m none = none
change m (some held) = elim m.kind [
  | need ↦ some held
  | debit ↦ some (held -ℤ pos m.amount)
  | credit ↦ some (held +ℤ pos m.amount)
]

unfoldable pub move : Movement → Balances → Balances
move m bal key = if key_equality.same m.key key then change m (bal key) else bal key

-- A movement finds what it needs.
abbrev pub Covered : Movement → Option ℤ → Type 0
Covered m held = elim m.kind [
  | need ↦ (b : ℤ) × (held ≡ some b) × (pos m.amount ≤ℤ b)
  | debit ↦ Unit {0}
  | credit ↦ Unit {0}
]

-- Every requirement is met at the point of the plan where it is spent.
abbrev pub Runs : Balances → List Movement → Type 0
Runs bal [] = Unit
Runs bal (m ∷ ms) = Covered m (bal m.key) × Runs (move m bal) ms

pub Runs-ext :
    (a b : Balances) (ms : List Movement) → ((k : BalanceKey) → a k ≡ b k) → Runs a ms → Runs b ms
unfolding move
Runs-ext a b [] h r = tt
Runs-ext a b (m ∷ ms) h r = (
  subst (Covered m) (h m.key) r.0,
  Runs-ext (move m a) (move m b) ms
      (λ k. ap (λ x. if key_equality.same m.key k then change m x else x) (h k)) r.1,
)

-- A starting balance is known and at least the amount.
abbrev pub Holds : Option ℕ → ℤ → Type 0
Holds read amount = (b : ℕ) × (read ≡ some b) × (amount ≤ℤ pos b)

-- What is left of a balance that was read.
abbrev pub left_of : Option ℕ → ℤ → Option ℤ
left_of none s = none
left_of (some held) s = some (pos held -ℤ s)
