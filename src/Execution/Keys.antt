-- ===== src/Execution/Keys.antt =====
-- exec/bundle_execution.py: when two idempotency keys are the same.
use open_allocator.Base.{
  ℕ, ◌≡◌, Bool, true, false, ◌&&◌, ◌==◌, ==-refl, ==→eq, seq_eq, seq_eq_refl, seq_eq→eq, str_eq,
  eq_iff, refl, arith, String,
}
use open_allocator.Base.Equality.{Equality, string_equality}
use open_allocator.Base.Text.{Text}

-- An idempotency key, by the parts of its text: `<bundle>:digest:<digest>`, the same with
-- `:call:<index>`, and the leg's own key.
pub data StoreKey : Type 0 where
  bundle_key : String → Text → StoreKey
  call_key : String → Text → ℕ → StoreKey
  leg_key : String → StoreKey

abbrev same_store_key : StoreKey → StoreKey → Bool
same_store_key (bundle_key i d) (bundle_key j e) = str_eq i j && seq_eq d e
same_store_key (call_key i d m) (call_key j e n) = str_eq i j && (seq_eq d e && m == n)
same_store_key (leg_key i) (leg_key j) = str_eq i j
same_store_key _ _ = false

pub same_store_key→eq : (a b : StoreKey) → same_store_key a b ≡ true → a ≡ b
same_store_key→eq (bundle_key i d) (bundle_key j e) h =
    let x = (eq_iff i j).0 (ground arith) in let y = seq_eq→eq d e (ground arith) in cc
same_store_key→eq (call_key i d m) (call_key j e n) h =
    let x = (eq_iff i j).0 (ground arith) in
    let y = seq_eq→eq d e (ground arith) in let z = ==→eq m n (ground arith) in cc
same_store_key→eq (leg_key i) (leg_key j) h = let x = (eq_iff i j).0 h in cc
same_store_key→eq (bundle_key i d) (call_key j e n) h = absurd (ground arith)
same_store_key→eq (bundle_key i d) (leg_key j) h = absurd (ground arith)
same_store_key→eq (call_key i d m) (bundle_key j e) h = absurd (ground arith)
same_store_key→eq (call_key i d m) (leg_key j) h = absurd (ground arith)
same_store_key→eq (leg_key i) (bundle_key j e) h = absurd (ground arith)
same_store_key→eq (leg_key i) (call_key j e n) h = absurd (ground arith)

same_store_key_refl : (a : StoreKey) → same_store_key a a ≡ true
same_store_key_refl (bundle_key i d) = ground (arith, (eq_iff i i).1 refl, seq_eq_refl d)
same_store_key_refl (call_key i d m) = ground (arith, (eq_iff i i).1 refl, seq_eq_refl d, ==-refl m)
same_store_key_refl (leg_key i) = (eq_iff i i).1 refl

pub eq→same_store_key : (a b : StoreKey) → a ≡ b → same_store_key a b ≡ true
eq→same_store_key a b h = rw h (same_store_key_refl b)

instance unfoldable pub store_key_equality : Equality StoreKey
store_key_equality = record {
  same = same_store_key;
  same_iff = λ a b. (same_store_key→eq a b, eq→same_store_key a b);
}
