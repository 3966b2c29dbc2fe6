-- ===== src/Funding/Sufficient.antt =====
-- What the check of a plan's operations promises of the balances that the reader gives.
use open_allocator.Base.{
  ℕ, ◌≡◌, refl, sym, ap, subst, true, inl, inr, Option, none, some, List, [], ◌∷◌, All, all,
  Bool-cases, &&-left, &&-right,
}
use open_allocator.Base.Int.{ℤ}
use open_allocator.Base.Dict.{lookup}
use open_allocator.Funding.{
  BalanceKey, key_equality, LedgerOperation, Movement, Kind, need, debit, credit, movements, check,
  FundingRequirement,
}
use open_allocator.Funding.Reading.{check_operations, is_funded, read_balances, balance_keys, get}
use open_allocator.Funding.Solvency.{IsOk, check_iff}
use open_allocator.Funding.Balances.{Balances, from_read, as_held, change, move, Covered, Runs}

-- What is known of a balance is so in the other.
abbrev Extends {ℓ} : {A : Type ℓ} → Option A → Option A → Type ℓ
Extends none y = Unit
Extends (some v) y = y ≡ some v

Extends-refl {ℓ} : {A : Type ℓ} (x : Option A) → Extends x x
Extends-refl none = tt
Extends-refl (some v) = refl

change-Extends : (m : Movement) (x y : Option ℤ) → Extends x y → Extends (change m x) (change m y)
change-Extends m none y h = tt
change-Extends m (some v) y h = rw h (Extends-refl (change m (some v)))

Covered-Extends :
    (kind : Kind) (m : Movement) (x y : Option ℤ)
    → Extends x y
    → Covered (record m { kind = kind }) x
    → Covered (record m { kind = kind }) y
Covered-Extends need m none y h c = absurd (let q = c.1 in cc)
Covered-Extends debit m none y h c = tt
Covered-Extends credit m none y h c = tt
Covered-Extends kind m (some v) y h c = subst (Covered (record m { kind = kind })) (sym h) c

move-Extends :
    (m : Movement) (a b : Balances)
    → ((k : BalanceKey) → Extends (a k) (b k))
    → (k : BalanceKey) → Extends (move m a k) (move m b k)
unfolding move
move-Extends m a b h k = elim (Bool-cases (key_equality.same m.key k)) [
  | inl p ↦ rw p (change-Extends m (a k) (b k) (h k))
  | inr p ↦ rw p (h k)
]

-- What some balances carry, balances of which more is known carry too.
Runs-Extends :
    (a b : Balances) (ms : List Movement)
    → ((k : BalanceKey) → Extends (a k) (b k))
    → Runs a ms
    → Runs b ms
Runs-Extends a b [] h r = tt
Runs-Extends a b (m ∷ ms) h r = (
  Covered-Extends m.kind m (a m.key) (b m.key) (h m.key) r.0,
  Runs-Extends (move m a) (move m b) ms (move-Extends m a b h) r.1,
)

get-Extends :
    (keys : List (BalanceKey × Unit {0})) (reader : BalanceKey → Option ℕ) (k : BalanceKey)
    → Extends (get (read_balances keys reader) k) (reader k)
unfolding lookup read_balances
get-Extends [] reader k = tt
get-Extends ((j, u) ∷ keys) reader k = elim (Bool-cases (key_equality.same j k)) [
  | inl p ↦
      rw (p, Extends)
        (subst (λ i. Extends (reader j) (reader i)) ((key_equality.same_iff j k).0 p)
          (Extends-refl (reader j)))
  | inr p ↦ rw (p, Extends) (get-Extends keys reader k)
]

from_read-Extends : (x y : Option ℕ) → Extends x y → Extends (as_held x) (as_held y)
from_read-Extends none y h = tt
from_read-Extends (some v) y h = ap as_held h

all-All :
    (rs : List FundingRequirement)
    → all (λ (r : FundingRequirement). r.is_ok) rs ≡ true
    → All IsOk rs
all-All [] h = tt
all-All (r ∷ rs) h = (
  &&-left r.is_ok (all (λ (q : FundingRequirement). q.is_ok) rs) h,
  all-All rs (&&-right r.is_ok (all (λ (q : FundingRequirement). q.is_ok) rs) h),
)

-- Where the check of a plan's operations passes, with nothing sent before it, the plan runs from the
-- balances that the reader gives: before each spend its balance is known and holds the amount.
pub check_operations-Runs :
    (ops : List LedgerOperation) (reader : BalanceKey → Option ℕ) (slippage : ℤ)
    → is_funded (check_operations ops reader slippage []) ≡ true
    → Runs (from_read reader) (movements ops slippage)
unfolding check_operations is_funded
check_operations-Runs ops reader slippage h =
    let read = get (read_balances (balance_keys ops) reader) in
    Runs-Extends (from_read read) (from_read reader) (movements ops slippage)
      (λ k. from_read-Extends (read k) (reader k) (get-Extends (balance_keys ops) reader k))
      ((check_iff ops read slippage).0 (all-All (check ops read slippage) h))
