-- ===== src/Base/Outcome.antt =====
-- A call that returns or raises, over the exceptions `E` of its component.
use mathlib.Core.Path.{◌≡◌, refl, subst, sym, ap}
use mathlib.Core.Logic.{◌↔◌}
use mathlib.Core.List.{List, []}
use mathlib.Core.Bool.{Bool, true, false}

pub data Outcome {ℓ} (E : Type 0) (A : Type ℓ) : Type ℓ where
  err : E → Outcome E A
  ok : A → Outcome E A

-- `if not b: raise x`
abbrev pub guard : {E : Type 0} → Bool → E → Outcome E (Unit {0})
guard false x = err x
guard true x = ok tt

infixl 5 ◌>>=◌ ◌>>◌
-- The rest of a block runs on what the call returns; what it raises ends the block.
abbrev pub ◌>>=◌ {ℓ κ} :
    {E : Type 0} {A : Type ℓ} {B : Type κ} → Outcome E A → (A → Outcome E B) → Outcome E B
err x >>= rest = err x
ok a >>= rest = rest a

abbrev pub ◌>>◌ {κ} : {E : Type 0} {B : Type κ} → Outcome E (Unit {0}) → Outcome E B → Outcome E B
check >> rest = check >>= λ _. rest

pub ok-injective {ℓ} :
    {E : Type 0} {A : Type ℓ} {a b : A} → ◌≡◌ {A = Outcome E A} (ok a) (ok b) → a ≡ b
ok-injective e = cc

pub guard-eq-ok : {E : Type 0} (b : Bool) (x : E) → guard b x ≡ ok tt → b ≡ true
guard-eq-ok false x h = cc
guard-eq-ok true x h = refl

-- A block that returns has a first call that returns.
pub >>=-eq-ok {ℓ κ} :
    {E : Type 0} {A : Type ℓ} {B : Type κ} (call : Outcome E A) (rest : A → Outcome E B) {r : B}
    → call >>= rest ≡ ok r
    → (a : A) × (call ≡ ok a) × (rest a ≡ ok r)
>>=-eq-ok (err x) rest h = cc
>>=-eq-ok (ok a) rest h = (a, refl, h)

-- A block returns exactly when its first call does and the rest of it.
pub >>=-iff {ℓ κ} :
    {E : Type 0} {A : Type ℓ} {B : Type κ} (call : Outcome E A) (rest : A → Outcome E B) (r : B)
    → (call >>= rest ≡ ok r) ↔ ((a : A) × (call ≡ ok a) × (rest a ≡ ok r))
>>=-iff call rest r =
    (>>=-eq-ok call rest, λ h. let (a, e, f) = h in subst (λ c. c >>= rest ≡ ok r) (sym e) f)

-- What returns an empty list returns a list that is empty.
pub ok-nil_iff {ℓ κ} :
    {E : Type 0} {A : Type ℓ} {P : Type κ} (xs : List A)
    → (xs ≡ []) ↔ P
    → (◌≡◌ {A = Outcome E (List A)} (ok xs) (ok [])) ↔ P
ok-nil_iff xs f = (λ h. f.0 (ok-injective h), λ h. ap ok (f.1 h))

-- A check before the rest of a block passes, where the block returns.
pub >>-eq-ok {κ} :
    {E : Type 0} {B : Type κ} (check : Outcome E (Unit {0})) (rest : Outcome E B) {r : B}
    → check >> rest ≡ ok r
    → (check ≡ ok tt) × (rest ≡ ok r)
>>-eq-ok (err x) rest h = cc
>>-eq-ok (ok u) rest h = (refl, h)

-- A condition that a block starts with holds, where the block returns.
pub guard>>-eq-ok {κ} :
    {E : Type 0} {B : Type κ} (b : Bool) (x : E) (rest : Outcome E B) {r : B}
    → guard b x >> rest ≡ ok r
    → (b ≡ true) × (rest ≡ ok r)
guard>>-eq-ok false x rest h = cc
guard>>-eq-ok true x rest h = (refl, h)
