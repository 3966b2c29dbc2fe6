-- ===== src/Base/Hex.antt =====
-- Hex text of bytes, read back.
use Prim.Native.Nat.{ℕ, ◌+◌, ◌*◌, ◌/◌, ◌%◌, ◌<◌}
use mathlib.Core.Path.{◌≡◌, refl, ap}
use mathlib.Core.Bool.{false}
use mathlib.Core.List.{[], ◌∷◌}
use mathlib.Core.Option.{some}
use native.Mathlib.Omega.{arith}
use open_allocator.Base.Lists.{All}
use open_allocator.Base.Text.{Bytes, hex_digit, to_hex, hex_value, is_space, from_hex}

hex_value-hex_digit : (n : ℕ) → n < 16 → hex_value (hex_digit n) ≡ some n
unfolding hex_value hex_digit
hex_value-hex_digit n h = ground arith

is_space-hex_digit : (n : ℕ) → n < 16 → is_space (hex_digit n) ≡ false
unfolding is_space hex_digit
is_space-hex_digit n h = ground arith

-- Bytes that are written in hex are read back.
pub from_hex-to_hex : (bs : Bytes) → All (λ b. b < 256) bs → from_hex (to_hex bs) ≡ some bs
unfolding from_hex to_hex
from_hex-to_hex [] h = refl
from_hex-to_hex (b ∷ bs) (l, h) =
    let q : b / 16 < 16 = omega arith in
    let r : b % 16 < 16 = omega arith in
    let d : b / 16 * 16 + b % 16 ≡ b = omega arith in
    rw
      (
        is_space-hex_digit (b / 16) q,
        hex_value-hex_digit (b / 16) q,
        hex_value-hex_digit (b % 16) r,
        from_hex-to_hex bs h,
      )
      (ap (λ x. some (x ∷ bs)) d)
