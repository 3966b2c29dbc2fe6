-- ===== src/PolicyCheck/Types.antt =====
-- core/types.py: an allocation, and core/policy.py: a violation and the comparisons of a number
-- with a cap or a floor.
use open_allocator.Base.{
  ◌≡◌, ◌↔◌, refl, String, Bool, true, false, Option, none, some, List, [], ◌∷◌, if◌then◌else◌,
}
use open_allocator.Base.Text.{Text}
use open_allocator.Policy.{Floats, PolicyValue, single, number, null}

pub record AllocationLeg (N : Type 0) : Type 0 where
  pub instrument_id : String
  pub weight : N
  pub usd : N
  pub leverage : Option N

-- A JSON value, as far as a policy looks at it.
pub data Json : Type 0 where
  json_bool : Bool → Json
  json_text : String → Json
  json_other : Json

pub record Allocation (N : Type 0) : Type 0 where
  pub legs : List (AllocationLeg N)
  pub total_usd : N
  pub metadata : List (String × Json)

pub record PolicyViolation (N : Type 0) : Type 0 where
  pub rule : String
  pub entity : Text
  pub limit : PolicyValue N
  pub actual : PolicyValue N

-- `_violation`
abbrev pub violation :
    {N : Type 0} → String → Text → PolicyValue N → PolicyValue N → PolicyViolation N
violation rule entity limit actual = record {
  rule = rule;
  entity = entity;
  limit = limit;
  actual = actual;
}

module _ {N : Type 0} ⦃F : Floats N⦄ where
  -- `x or default`
  abbrev pub or_else : Option N → N → N
  or_else none default = default
  or_else (some x) default = if F.is_zero x then default else x

  abbrev pub or_nil : Option N → N
  or_nil none = F.nil
  or_nil (some w) = w

  -- `actual > limit + _EPSILON`, where there is a limit
  abbrev pub exceeds : Option N → N → Bool
  exceeds none actual = false
  exceeds (some limit) actual = F.lt (F.add limit F.epsilon) actual

  -- `actual < limit - _EPSILON`, where there is a limit
  abbrev pub falls_short : Option N → N → Bool
  falls_short none actual = false
  falls_short (some limit) actual = F.lt actual (F.sub limit F.epsilon)

  abbrev value_of : Option N → PolicyValue N
  value_of none = single null
  value_of (some x) = single (number x)

  -- The violation of a cap or a floor, if there is one.
  abbrev pub violated_if :
      Bool → String → Text → Option N → PolicyValue N → List (PolicyViolation N)
  violated_if b rule entity limit actual =
      if b then violation rule entity (value_of limit) actual ∷ [] else []

  pub violated_if-nil :
      (b : Bool) (rule : String) (entity : Text) (limit : Option N) (actual : PolicyValue N)
      → (violated_if b rule entity limit actual ≡ []) ↔ (b ≡ false)
  violated_if-nil true rule entity limit actual =
      (λ h. absurd (let p = h in cc), λ h. absurd (let p = h in cc))
  violated_if-nil false rule entity limit actual = (λ h. refl, λ h. refl)

pub record PolicyResult (N : Type 0) : Type 0 where
  pub is_ok : Bool
  pub violations : List (PolicyViolation N)
