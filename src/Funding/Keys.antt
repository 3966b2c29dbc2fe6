-- ===== src/Funding/Keys.antt =====
-- exec/funding.py: the key of a balance.
use open_allocator.Base.{
  ℕ, ◌≡◌, Bool, true, ◌&&◌, ◌==◌, ==-refl, ==→eq, seq_eq, seq_eq_refl, seq_eq→eq, arith,
}
use open_allocator.Base.Text.{Text}
use open_allocator.Base.Equality.{Equality}

-- `BalanceKey`, with both texts in lower case
pub record BalanceKey : Type 0 where
  pub chain_id : ℕ
  pub account : Text
  pub token : Text

abbrev same_key : BalanceKey → BalanceKey → Bool
same_key a b = a.chain_id == b.chain_id && (seq_eq a.account b.account && seq_eq a.token b.token)

pub same_key→eq : (a b : BalanceKey) → same_key a b ≡ true → a ≡ b
same_key→eq a b h =
    let x = ==→eq a.chain_id b.chain_id (ground arith) in
    let y = seq_eq→eq a.account b.account (ground arith) in
    let z = seq_eq→eq a.token b.token (ground arith) in cc

pub eq→same_key : (a b : BalanceKey) → a ≡ b → same_key a b ≡ true
eq→same_key a b h =
    rw h (ground (arith, ==-refl b.chain_id, seq_eq_refl b.account, seq_eq_refl b.token))

instance unfoldable pub key_equality : Equality BalanceKey
key_equality = record { same = same_key; same_iff = λ a b. (same_key→eq a b, eq→same_key a b) }
