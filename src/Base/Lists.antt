-- ===== src/Base/Lists.antt =====
-- Python's sequences: lengths, slices, Boolean tests over the elements, and their laws.
use Prim.Native.Nat.{ℕ, zero, suc, ◌+◌, ◌-◌, ◌≤◌}
use mathlib.Core.Path.{◌≡◌, refl, ap}
use mathlib.Core.Bool.{Bool, true, false, ◌&&◌, ◌||◌}
use mathlib.Core.List.{List, [], ◌∷◌, ◌++◌}
use mathlib.Core.Option.{Option, none, some}
use native.Mathlib.Omega.{arith}
use open_allocator.Base.Tests.{◌==◌, if◌then◌else◌, ==-refl, ==→eq}

module _ {ℓ} {A : Type ℓ} where
  abbrev pub length : List A → ℕ
  length [] = 0
  length (x ∷ xs) = suc (length xs)

  abbrev pub get_elem? : List A → ℕ → Option A
  get_elem? [] i = none
  get_elem? (x ∷ xs) zero = some x
  get_elem? (x ∷ xs) (suc i) = get_elem? xs i

  -- `xs[:n]` and `xs[n:]`
  unfoldable pub take : ℕ → List A → List A
  take zero xs = []
  take (suc n) [] = []
  take (suc n) (x ∷ xs) = x ∷ take n xs

  unfoldable pub drop : ℕ → List A → List A
  drop zero xs = xs
  drop (suc n) [] = []
  drop (suc n) (x ∷ xs) = drop n xs

  unfoldable pub replicate : ℕ → A → List A
  replicate zero a = []
  replicate (suc n) a = a ∷ replicate n a

  -- `[x for x in xs if p(x)]`
  unfoldable pub filter : (A → Bool) → List A → List A
  filter p [] = []
  filter p (x ∷ xs) = if p x then x ∷ filter p xs else filter p xs

  -- `all(p(x) for x in xs)` and `any(p(x) for x in xs)`
  abbrev pub all : (A → Bool) → List A → Bool
  all p [] = true
  all p (x ∷ xs) = p x && all p xs

  abbrev pub any : (A → Bool) → List A → Bool
  any p [] = false
  any p (x ∷ xs) = p x || any p xs

  -- `[y for x in xs for y in f(x)]`
  abbrev pub flat_map {κ} : {B : Type κ} → (A → List B) → List A → List B
  flat_map f [] = []
  flat_map f (x ∷ xs) = f x ++ flat_map f xs

  -- Every element satisfies the predicate.
  abbrev pub All {κ} : (A → Type κ) → List A → Type κ
  All P [] = Unit
  All P (x ∷ xs) = P x × All P xs

  pub length-append : (xs ys : List A) → length (xs ++ ys) ≡ length xs + length ys
  length-append [] ys = omega arith
  length-append (x ∷ xs) ys = omega (arith, length-append xs ys)

  pub length-replicate : (n : ℕ) (a : A) → length (replicate n a) ≡ n
  unfolding replicate
  length-replicate zero a = refl
  length-replicate (suc n) a = ap suc (length-replicate n a)

  pub length-take : (n : ℕ) (xs : List A) → n ≤ length xs → length (take n xs) ≡ n
  unfolding take
  length-take zero xs h = refl
  length-take (suc n) [] h = absurd (omega arith)
  length-take (suc n) (x ∷ xs) h = ap suc (length-take n xs (omega arith))

  pub length-drop : (n : ℕ) (xs : List A) → length (drop n xs) ≡ length xs - n
  unfolding drop
  length-drop zero xs = omega arith
  length-drop (suc n) [] = omega arith
  length-drop (suc n) (x ∷ xs) = omega (arith, length-drop n xs)

  -- What a filter keeps passes its test.
  pub get_elem?-filter :
      (p : A → Bool) (xs : List A) (i : ℕ) (x : A) → get_elem? (filter p xs) i ≡ some x → p x ≡ true
  unfolding filter
  get_elem?-filter p [] i x h = ground arith
  get_elem?-filter p (y ∷ ys) zero x h = ground (arith, get_elem?-filter p ys zero x)
  get_elem?-filter p (y ∷ ys) (suc i) x h =
      ground (arith, get_elem?-filter p ys i x, get_elem?-filter p ys (suc i) x)

-- Equality of byte strings, and of texts as lists of code points.
unfoldable pub seq_eq : List ℕ → List ℕ → Bool
seq_eq [] [] = true
seq_eq [] (y ∷ ys) = false
seq_eq (x ∷ xs) [] = false
seq_eq (x ∷ xs) (y ∷ ys) = x == y && seq_eq xs ys

pub seq_eq_refl : (xs : List ℕ) → seq_eq xs xs ≡ true
unfolding seq_eq
seq_eq_refl [] = refl
seq_eq_refl (x ∷ xs) = ground (arith, ==-refl x, seq_eq_refl xs)

pub seq_eq→eq : (xs ys : List ℕ) → seq_eq xs ys ≡ true → xs ≡ ys
unfolding seq_eq
seq_eq→eq [] [] h = refl
seq_eq→eq [] (y ∷ ys) h = ground arith
seq_eq→eq (x ∷ xs) [] h = ground arith
seq_eq→eq (x ∷ xs) (y ∷ ys) h = ground (arith, seq_eq→eq xs ys, ==→eq x y)

pub eq→seq_eq : (xs ys : List ℕ) → xs ≡ ys → seq_eq xs ys ≡ true
eq→seq_eq xs ys e = rw e (seq_eq_refl ys)
