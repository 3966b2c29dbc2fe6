-- ===== src/Base/Slices.antt =====
-- Byte ranges: `raw[a:b]`, `raw[s:e] = bytes(e - s)` and `int.from_bytes`, with their laws.
use Prim.Native.Nat.{ℕ, zero, suc, ◌+◌, ◌-◌, ◌*◌, ◌≤◌}
use mathlib.Core.Path.{◌≡◌, refl, sym, ap, ◌∙◌}
use mathlib.Core.Logic.{◌⊎◌, inl, inr}
use mathlib.Core.List.{[], ◌∷◌, ◌++◌, foldl}
use native.Mathlib.Omega.{arith}
use open_allocator.Base.Lists.{
  length, take, drop, replicate, length-append, length-replicate, length-take, length-drop,
}
use open_allocator.Base.Text.{Bytes}

-- `raw[start:stop]`
unfoldable pub slice : ℕ → ℕ → Bytes → Bytes
slice start stop raw = take (stop - start) (drop start raw)

-- `raw[start:stop] = bytes(stop - start)` on a bytearray, for `start` up to `stop`
unfoldable pub zero_slice : ℕ → ℕ → Bytes → Bytes
zero_slice start stop raw = take start raw ++ (replicate (stop - start) 0 ++ drop stop raw)

-- `int.from_bytes(raw, "big")`
abbrev add_byte : ℕ → ℕ → ℕ
add_byte acc b = acc * 256 + b

unfoldable pub from_bytes : Bytes → ℕ
from_bytes = foldl add_byte 0

take-append_le : (n : ℕ) (xs ys : Bytes) → n ≤ length xs → take n (xs ++ ys) ≡ take n xs
unfolding take
take-append_le zero xs ys h = refl
take-append_le (suc n) [] ys h = absurd (omega arith)
take-append_le (suc n) (x ∷ xs) ys h = ap (λ t. x ∷ t) (take-append_le n xs ys (omega arith))

drop-append_le : (n : ℕ) (xs ys : Bytes) → n ≤ length xs → drop n (xs ++ ys) ≡ drop n xs ++ ys
unfolding drop
drop-append_le zero xs ys h = refl
drop-append_le (suc n) [] ys h = absurd (omega arith)
drop-append_le (suc n) (x ∷ xs) ys h = drop-append_le n xs ys (omega arith)

pub drop-append_ge : (n k : ℕ) (xs ys : Bytes) → n ≡ length xs + k → drop n (xs ++ ys) ≡ drop k ys
unfolding drop
drop-append_ge n k [] ys e = let e' : n ≡ k = omega arith in rw e'
drop-append_ge zero k (x ∷ xs) ys e = absurd (omega arith)
drop-append_ge (suc n) k (x ∷ xs) ys e = drop-append_ge n k xs ys (omega arith)

pub drop-drop : (n m k : ℕ) (xs : Bytes) → k ≡ m + n → drop n (drop m xs) ≡ drop k xs
unfolding drop
drop-drop n zero k xs e = let e' : k ≡ n = omega arith in rw e'
drop-drop n (suc m) zero xs e = absurd (omega arith)
drop-drop zero (suc m) (suc k) [] e = refl
drop-drop (suc n) (suc m) (suc k) [] e = refl
drop-drop n (suc m) (suc k) (x ∷ xs) e = drop-drop n m k xs (omega arith)

take-append-drop : (n : ℕ) (xs : Bytes) → take n xs ++ drop n xs ≡ xs
unfolding take drop
take-append-drop zero xs = refl
take-append-drop (suc n) [] = refl
take-append-drop (suc n) (x ∷ xs) = ap (λ t. x ∷ t) (take-append-drop n xs)

pub take_all : (xs ys : Bytes) (n : ℕ) → n ≡ length xs → take n (xs ++ ys) ≡ xs
unfolding take
take_all [] ys zero e = refl
take_all [] ys (suc n) e = absurd (omega arith)
take_all (x ∷ xs) ys zero e = absurd (omega arith)
take_all (x ∷ xs) ys (suc n) e = ap (λ t. x ∷ t) (take_all xs ys n (omega arith))

-- A range inside the first part of a concatenation does not see the second.
slice-append_left :
    (a b : ℕ) (xs ys : Bytes) → a ≤ b → b ≤ length xs → slice a b (xs ++ ys) ≡ slice a b xs
unfolding slice
slice-append_left a b xs ys h k =
    rw (drop-append_le a xs ys (omega arith))
      (take-append_le (b - a) (drop a xs) ys (omega (arith, length-drop a xs)))

-- The facts about a zeroed range, at offsets `s ≤ e` inside the bytes.
module _ (s e : ℕ) (raw : Bytes) (ordered : s ≤ e) (inside : e ≤ length raw) where
  -- What follows the zeroed range is as it was.
  pub drop-zero_slice : (a : ℕ) → e ≤ a → drop a (zero_slice s e raw) ≡ drop a raw
  unfolding zero_slice
  drop-zero_slice a h =
      drop-append_ge a (a - s) (take s raw) (replicate (e - s) 0 ++ drop e raw)
        (omega (arith, length-take s raw))
      ∙ drop-append_ge (a - s) (a - e) (replicate (e - s) 0) (drop e raw)
          (omega (arith, length-replicate {A = ℕ} (e - s) 0))
      ∙ drop-drop (a - e) e a raw (omega arith)

  pub slice-zero_slice_after : (a b : ℕ) → e ≤ a → slice a b (zero_slice s e raw) ≡ slice a b raw
  unfolding slice
  slice-zero_slice_after a b h = ap (take (b - a)) (drop-zero_slice a h)

  -- So is what precedes it.
  pub slice-zero_slice_before :
      (a b : ℕ) → a ≤ b → b ≤ s → slice a b (zero_slice s e raw) ≡ slice a b raw
  unfolding zero_slice
  slice-zero_slice_before a b h k =
      slice-append_left a b (take s raw) (replicate (e - s) 0 ++ drop e raw) h
        (omega (arith, length-take s raw))
      ∙ sym (slice-append_left a b (take s raw) (drop s raw) h (omega (arith, length-take s raw)))
      ∙ ap (slice a b) (take-append-drop s raw)

  pub slice-zero_slice_self : slice s e (zero_slice s e raw) ≡ replicate (e - s) 0
  unfolding slice zero_slice
  slice-zero_slice_self =
      ap (take (e - s)) (
        drop-append_ge s 0 (take s raw) (replicate (e - s) 0 ++ drop e raw)
          (omega (arith, length-take s raw)))
      ∙ unfold drop in
        take_all (replicate (e - s) 0) (drop e raw) (e - s)
          (omega (arith, length-replicate {A = ℕ} (e - s) 0))

  pub length-zero_slice : length (zero_slice s e raw) ≡ length raw
  unfolding zero_slice
  length-zero_slice = omega (
    arith,
    length-append (take s raw) (replicate (e - s) 0 ++ drop e raw),
    length-append (replicate (e - s) 0) (drop e raw),
    length-take s raw,
    length-drop e raw,
    length-replicate {A = ℕ} (e - s) 0,
  )

-- A range that avoids a zeroed one is as it was.
pub slice-zero_slice :
    (s e : ℕ) (raw : Bytes)
    → s ≤ e
    → e ≤ length raw
    → (a b : ℕ) → a ≤ b
    → (b ≤ s) ⊎ (e ≤ a)
    → slice a b (zero_slice s e raw) ≡ slice a b raw
slice-zero_slice s e raw h k a b ab (inl before) = slice-zero_slice_before s e raw h k a b ab before
slice-zero_slice s e raw h k a b ab (inr after) = slice-zero_slice_after s e raw h k a b after

-- A range of a tail is a range of the whole.
pub slice-drop :
    (n a b i j : ℕ) (raw : Bytes) → i ≡ n + a → j ≡ n + b → slice a b (drop n raw) ≡ slice i j raw
unfolding slice
slice-drop n a b i j raw ei ej =
    rw (drop-drop a n i raw ei) (ap (λ k. take k (drop i raw)) (omega arith))

take-take-drop : (s e : ℕ) (raw : Bytes) → s ≤ e → take s raw ++ (slice s e raw ++ drop e raw) ≡ raw
unfolding slice
take-take-drop s e raw h =
    rw (← drop-drop (e - s) s e raw (omega arith))
      (ap (λ t. take s raw ++ t) (take-append-drop (e - s) (drop s raw)) ∙ take-append-drop s raw)

-- Zeroing a range that is zero already changes nothing.
pub zero_slice_id :
    (s e : ℕ) (raw : Bytes) → s ≤ e → slice s e raw ≡ replicate (e - s) 0 → zero_slice s e raw ≡ raw
unfolding zero_slice
zero_slice_id s e raw h z =
    ap (λ t. take s raw ++ (t ++ drop e raw)) (sym z) ∙ take-take-drop s e raw h

-- A range of a concatenation that starts in the second part.
pub slice-append_right :
    (a b i j : ℕ) (xs ys : Bytes)
    → i ≡ length xs + a
    → j ≡ length xs + b
    → slice i j (xs ++ ys) ≡ slice a b ys
unfolding slice
slice-append_right a b i j xs ys ei ej =
    rw (drop-append_ge i a xs ys ei) (ap (λ k. take k (drop a ys)) (omega arith))

-- The range that is the first part of a concatenation.
pub slice-append_first : (n : ℕ) (xs ys : Bytes) → n ≡ length xs → slice 0 n (xs ++ ys) ≡ xs
unfolding slice drop
slice-append_first n xs ys e = take_all xs ys (n - 0) (omega arith)
