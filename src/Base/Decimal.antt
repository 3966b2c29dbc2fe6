-- ===== src/Base/Decimal.antt =====
-- `str(n)` of a number that is not negative, and `int(text)` of a text of digits.
use Prim.Native.Nat.{ℕ, zero, suc, ◌+◌, ◌-◌, ◌*◌, ◌/◌, ◌%◌, ◌<◌, ◌≤◌}
use Prim.Native.String.{String, ◌++◌ as append}
use mathlib.Core.Path.{◌≡◌, refl, ◌∙◌, ap}
use mathlib.Core.Logic.{inl, inr}
use mathlib.Core.Bool.{Bool, true, ◌&&◌}
use mathlib.Core.Option.{none, some}
use mathlib.Core.List.{List, [], ◌∷◌}
use native.Mathlib.Omega.{arith}
use open_allocator.Base.Tests.{ltb, leb, if◌then◌else◌, Bool-cases}
use open_allocator.Base.Lists.{all, get_elem?}
use open_allocator.Base.Text.{Text}

-- The digits of `n` in front of those that are there already; `n` halvings by ten are enough.
unfoldable pub digits : ℕ → ℕ → Text → Text
digits zero n done = done
digits (suc fuel) n done =
    let rest = digits fuel (n / 10) ((n % 10 + b'0') ∷ done) in
    if ltb n 10 then (n + b'0') ∷ done else rest

unfoldable pub decimal : ℕ → Text
unfolding digits
decimal n = digits (suc n) n []

unfoldable pub is_digit : ℕ → Bool
is_digit c = leb b'0' c && leb c b'9'

-- The value of a text of digits behind a number.
unfoldable pub read_digits : ℕ → Text → ℕ
read_digits n [] = n
read_digits n (c ∷ t) = read_digits (n * 10 + (c - b'0')) t

read_digits-digits :
    (fuel n : ℕ) (done : Text) → n < fuel → read_digits 0 (digits fuel n done) ≡ read_digits n done
unfolding digits read_digits
read_digits-digits zero n done h = absurd (omega arith)
read_digits-digits (suc fuel) n done h = elim (Bool-cases (ltb n 10)) [
  | inl p ↦
      rw p (ap (λ m. read_digits m done) (let q : 0 + ((n + b'0') - b'0') ≡ n = omega arith in q))
  | inr p ↦
      let big : 10 ≤ n = ground arith in
      let less : n / 10 < fuel = omega arith in
      let same : n / 10 * 10 + (n % 10 + b'0' - b'0') ≡ n = omega arith in
      rw p (
        read_digits-digits fuel (n / 10) ((n % 10 + b'0') ∷ done) less
        ∙ ap (λ m. read_digits m done) same)
]

all-digits :
    (fuel n : ℕ) (done : Text) → all is_digit done ≡ true → all is_digit (digits fuel n done) ≡ true
unfolding digits is_digit
all-digits zero n done h = h
all-digits (suc fuel) n done h = elim (Bool-cases (ltb n 10)) [
  | inl p ↦ rw p (ground arith)
  | inr p ↦ rw p (all-digits fuel (n / 10) ((n % 10 + b'0') ∷ done) (ground arith))
]

-- Reading what was written gives the number back.
pub read_digits-decimal : (n : ℕ) → read_digits 0 (decimal n) ≡ n
unfolding decimal read_digits
read_digits-decimal n = read_digits-digits (suc n) n [] (omega arith)

pub all-decimal : (n : ℕ) → all is_digit (decimal n) ≡ true
unfolding decimal
all-decimal n = all-digits (suc n) n [] refl

-- `str(n)` as a string.
abbrev digit_texts : List String
digit_texts = "0" ∷ "1" ∷ "2" ∷ "3" ∷ "4" ∷ "5" ∷ "6" ∷ "7" ∷ "8" ∷ "9" ∷ []

abbrev digit_text : ℕ → String
digit_text n = elim (get_elem? digit_texts n) [ none ↦ "" | some digit ↦ digit ]

unfoldable pub str_from : ℕ → ℕ → String
str_from zero n = ""
str_from (suc fuel) n =
    let rest = str_from fuel (n / 10) in
    if ltb n 10 then digit_text n else append rest (digit_text (n % 10))

unfoldable pub str : ℕ → String
unfolding str_from
str n = str_from (suc n) n
