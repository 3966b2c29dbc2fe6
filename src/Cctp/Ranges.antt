-- ===== src/Cctp/Ranges.antt =====
-- The byte ranges of a CCTP message under `zeroed`: those that it clears, and those that it keeps.
use open_allocator.Base.{ℕ, ◌+◌, ◌≤◌, ◌≡◌, refl, sym, ◌∙◌, ◌⊎◌, arith, length, drop, replicate}
use open_allocator.Base.Text.{Bytes}
use open_allocator.Base.Slices.{
  slice, zero_slice, slice-zero_slice, slice-drop, length-zero_slice, drop-drop, drop-zero_slice,
  slice-zero_slice_self,
}
use open_allocator.Cctp.{zeroed}

-- The offsets `a` and `b` bound a range that the zeroed ones do not meet.
abbrev pub Avoids : ℕ → ℕ → Type 0
Avoids a b =
    (a ≤ b)
    × ((b ≤ 12) ⊎ (44 ≤ a))
    × ((b ≤ 144) ⊎ (148 ≤ a))
    × ((b ≤ 312) ⊎ (344 ≤ a))
    × ((b ≤ 344) ⊎ (376 ≤ a))

module _ (raw : Bytes) (long : 376 ≤ length raw) where
  length_1 : length (zero_slice 12 44 raw) ≡ length raw
  length_1 = length-zero_slice 12 44 raw (omega arith) (omega arith)

  length_2 : length (zero_slice 144 148 (zero_slice 12 44 raw)) ≡ length raw
  length_2 =
      length-zero_slice 144 148 (zero_slice 12 44 raw) (omega arith) (omega (arith, length_1))
      ∙ length_1

  length_3 : length (zero_slice 312 344 (zero_slice 144 148 (zero_slice 12 44 raw))) ≡ length raw
  length_3 =
      length-zero_slice 312 344 (zero_slice 144 148 (zero_slice 12 44 raw)) (omega arith)
        (omega (arith, length_2))
      ∙ length_2

  pub length-zeroed : length (zeroed raw) ≡ length raw
  unfolding zeroed
  length-zeroed =
      length-zero_slice 344 376 (zero_slice 312 344 (zero_slice 144 148 (zero_slice 12 44 raw)))
        (omega arith) (omega (arith, length_3))
      ∙ length_3

  pub slice-zeroed : (a b : ℕ) → Avoids a b → slice a b (zeroed raw) ≡ slice a b raw
  unfolding zeroed
  slice-zeroed a b h =
      slice-zero_slice 344 376 (zero_slice 312 344 (zero_slice 144 148 (zero_slice 12 44 raw)))
        (omega arith) (omega (arith, length_3)) a b h.0 h.4
      ∙ slice-zero_slice 312 344 (zero_slice 144 148 (zero_slice 12 44 raw)) (omega arith)
          (omega (arith, length_2)) a b h.0 h.3
      ∙ slice-zero_slice 144 148 (zero_slice 12 44 raw) (omega arith) (omega (arith, length_1)) a b
          h.0 h.2
      ∙ slice-zero_slice 12 44 raw (omega arith) (omega arith) a b h.0 h.1

  drop-zeroed : (a : ℕ) → 376 ≤ a → drop a (zeroed raw) ≡ drop a raw
  unfolding zeroed
  drop-zeroed a h =
      drop-zero_slice 344 376 (zero_slice 312 344 (zero_slice 144 148 (zero_slice 12 44 raw)))
        (omega arith) (omega (arith, length_3)) a h
      ∙ drop-zero_slice 312 344 (zero_slice 144 148 (zero_slice 12 44 raw)) (omega arith)
          (omega (arith, length_2)) a (omega arith)
      ∙ drop-zero_slice 144 148 (zero_slice 12 44 raw) (omega arith) (omega (arith, length_1)) a
          (omega arith)
      ∙ drop-zero_slice 12 44 raw (omega arith) (omega arith) a (omega arith)

  -- The body begins at 148, so its offsets are those of the message less 148.
  pub body-zeroed :
      (a b : ℕ)
      → Avoids (148 + a) (148 + b)
      → slice a b (drop 148 (zeroed raw)) ≡ slice a b (drop 148 raw)
  body-zeroed a b h =
      slice-drop 148 a b (148 + a) (148 + b) (zeroed raw) refl refl
      ∙ slice-zeroed (148 + a) (148 + b) h
      ∙ sym (slice-drop 148 a b (148 + a) (148 + b) raw refl refl)

  pub hook-zeroed : drop 228 (drop 148 (zeroed raw)) ≡ drop 228 (drop 148 raw)
  hook-zeroed =
      drop-drop 228 148 376 (zeroed raw) refl
      ∙ drop-zeroed 376 (omega arith)
      ∙ sym (drop-drop 228 148 376 raw refl)

  pub nonce-zeroed : slice 12 44 (zeroed raw) ≡ replicate 32 0
  unfolding zeroed
  nonce-zeroed =
      slice-zero_slice 344 376 (zero_slice 312 344 (zero_slice 144 148 (zero_slice 12 44 raw)))
        (omega arith) (omega (arith, length_3)) 12 44 (omega arith) (omega arith)
      ∙ slice-zero_slice 312 344 (zero_slice 144 148 (zero_slice 12 44 raw)) (omega arith)
          (omega (arith, length_2)) 12 44 (omega arith) (omega arith)
      ∙ slice-zero_slice 144 148 (zero_slice 12 44 raw) (omega arith) (omega (arith, length_1)) 12
          44 (omega arith) (omega arith)
      ∙ slice-zero_slice_self 12 44 raw (omega arith) (omega arith)

  pub finality-zeroed : slice 144 148 (zeroed raw) ≡ replicate 4 0
  unfolding zeroed
  finality-zeroed =
      slice-zero_slice 344 376 (zero_slice 312 344 (zero_slice 144 148 (zero_slice 12 44 raw)))
        (omega arith) (omega (arith, length_3)) 144 148 (omega arith) (omega arith)
      ∙ slice-zero_slice 312 344 (zero_slice 144 148 (zero_slice 12 44 raw)) (omega arith)
          (omega (arith, length_2)) 144 148 (omega arith) (omega arith)
      ∙ slice-zero_slice_self 144 148 (zero_slice 12 44 raw) (omega arith) (omega (arith, length_1))

  pub fee-zeroed : slice 312 344 (zeroed raw) ≡ replicate 32 0
  unfolding zeroed
  fee-zeroed =
      slice-zero_slice 344 376 (zero_slice 312 344 (zero_slice 144 148 (zero_slice 12 44 raw)))
        (omega arith) (omega (arith, length_3)) 312 344 (omega arith) (omega arith)
      ∙ slice-zero_slice_self 312 344 (zero_slice 144 148 (zero_slice 12 44 raw)) (omega arith)
          (omega (arith, length_2))

  pub expiration-zeroed : slice 344 376 (zeroed raw) ≡ replicate 32 0
  unfolding zeroed
  expiration-zeroed =
      slice-zero_slice_self 344 376 (zero_slice 312 344 (zero_slice 144 148 (zero_slice 12 44 raw)))
        (omega arith) (omega (arith, length_3))
