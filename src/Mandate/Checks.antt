-- ===== src/Mandate/Checks.antt =====
-- core/mandate.py: `validate_mandate` and its checks. The files are read through `Files`; the
-- details that a check prints are left out.
use open_allocator.Base.{
  Bool, true, false, Option, none, some, String, List, [], ◌∷◌, all, any, filter, str_eq,
  if◌then◌else◌,
}
use open_allocator.Base.Outcome.{Outcome, ok, err, ◌>>=◌}
use open_allocator.Policy.{Floats, Policy}
use open_allocator.Eligibility.{present}
use open_allocator.Mandate.{Movement, is_loosened, movements}

-- The value that a rationale entry argues for: null, a number, or anything else.
pub data Claim (N : Type 0) : Type 0 where
  null_claim other_claim : Claim N
  number_claim : N → Claim N

pub record RationaleEntry (N : Type 0) : Type 0 where
  pub knob : String
  pub value : Claim N

-- The fields of `Mandate` that the checks read.
pub record Mandate (N : Type 0) : Type 0 where
  pub policy_path : String
  pub policy_hash : String
  pub rationale : List (RationaleEntry N)

pub record MandateCheck : Type 0 where
  pub name : String
  pub ok : Bool

pub record MandateResult : Type 0 where
  pub ok : Bool
  pub checks : List MandateCheck

-- A file that is parsed and checked against its schema.
pub data Parsed (A : Type 0) : Type 0 where
  parsed : A → Parsed A
  not_found not_yaml invalid_schema : Parsed A

-- `MandateError`, and the YAML error of a policy file, which nothing catches.
pub data MandateError : Type 0 where
  mandate_not_found mandate_not_yaml mandate_invalid policy_not_found baseline_not_found
        baseline_invalid yaml_error :
      MandateError

-- The files: loaded mandates and policies, digests, and the path of a mandate's policy.
pub record Files (N : Type 0) : Type 0 where
  pub load_mandate : String → Parsed (Mandate N)
  pub load_policy : String → Parsed (Policy N)
  pub policy_digest : String → String
  pub resolve_policy_path : String → String → String

abbrev pub check_of : String → Bool → MandateCheck
check_of name b = record { name = name; ok = b }

abbrev pub no_strings : List Movement → Bool
no_strings [] = true
no_strings (m ∷ ms) = false

-- `_result`
unfoldable pub result : List MandateCheck → MandateResult
result checks = record { ok = all (λ (c : MandateCheck). c.ok) checks; checks = checks }

abbrev pub levered_sleeve_knob : String
levered_sleeve_knob = "caps.max_weight_levered"

abbrev pub schema_passed : MandateCheck
schema_passed = check_of "mandate_schema" true

abbrev pub policy_passed : MandateCheck
policy_passed = check_of "policy_schema" true

abbrev pub hash_check : Bool → MandateCheck
hash_check b = check_of "policy_hash" b

abbrev pub tighten_check : Bool → MandateCheck
tighten_check b = check_of "can_only_tighten" b

abbrev pub sleeve_check : Bool → MandateCheck
sleeve_check b = check_of "levered_sleeve_rationale" b

module _ {N : Type 0} where
  abbrev checked_mandate_of : Parsed (Mandate N) → Outcome MandateError (Mandate N)
  checked_mandate_of (parsed m) = ok m
  checked_mandate_of not_found = err mandate_not_found
  checked_mandate_of not_yaml = err mandate_not_yaml
  checked_mandate_of invalid_schema = err mandate_invalid

  -- `_checked_mandate`
  abbrev pub checked_mandate : Files N → String → Outcome MandateError (Mandate N)
  checked_mandate fs path = checked_mandate_of (fs.load_mandate path)

  -- `_checked_policy`: none where the schema refuses it
  abbrev pub checked_policy_of : Parsed (Policy N) → Outcome MandateError (Option (Policy N))
  checked_policy_of (parsed p) = ok (some p)
  checked_policy_of not_found = err policy_not_found
  checked_policy_of not_yaml = err yaml_error
  checked_policy_of invalid_schema = ok none

  -- `_loaded_baseline`
  abbrev pub loaded_baseline_of : Parsed (Policy N) → Outcome MandateError (Policy N)
  loaded_baseline_of (parsed p) = ok p
  loaded_baseline_of not_found = err baseline_not_found
  loaded_baseline_of not_yaml = err yaml_error
  loaded_baseline_of invalid_schema = err baseline_invalid

module _ {N : Type 0} ⦃F : Floats N⦄ where
  -- `_check_can_only_tighten`
  unfoldable pub can_only_tighten : Policy N → Policy N → Bool
  unfolding filter present
  can_only_tighten derived baseline =
      no_strings (filter is_loosened (present (movements derived baseline)))

  -- `_same_value`
  abbrev pub same_value : Option N → Claim N → Bool
  same_value none null_claim = true
  same_value none (number_claim x) = false
  same_value none other_claim = false
  same_value (some actual) null_claim = false
  same_value (some actual) other_claim = false
  same_value (some actual) (number_claim x) = F.is_close x actual

  -- `ceiling is not None and ceiling <= 0`
  abbrev pub admits_none : Option N → Bool
  admits_none none = false
  admits_none (some ceiling) = F.le ceiling F.nil

  abbrev pub is_levered_entry : RationaleEntry N → Bool
  is_levered_entry e = str_eq e.knob levered_sleeve_knob

  abbrev pub argues_for : Option N → RationaleEntry N → Bool
  argues_for ceiling e = same_value ceiling e.value

  -- `_check_levered_sleeve`; without an entry for the knob, no entry states its value.
  unfoldable pub levered_sleeve : Mandate N → Policy N → Bool
  unfolding filter
  levered_sleeve m derived =
      if admits_none derived.caps.max_weight_levered
      then true
      else any (argues_for derived.caps.max_weight_levered) (filter is_levered_entry m.rationale)

  -- The checks after the hash.
  unfoldable pub check_baseline : Mandate N → Policy N → Policy N → MandateResult
  unfolding can_only_tighten levered_sleeve result
  check_baseline m derived baseline =
      if can_only_tighten derived baseline
      then result (
          schema_passed
          ∷ policy_passed
          ∷ hash_check true
          ∷ tighten_check true
          ∷ sleeve_check (levered_sleeve m derived)
          ∷ [])
      else result (schema_passed ∷ policy_passed ∷ hash_check true ∷ tighten_check false ∷ [])

  -- The checks after the policy's schema; the baseline is loaded only if the hash matches.
  unfoldable pub check_policy :
      Files N → Mandate N → String → String → Option (Policy N) → Outcome MandateError MandateResult
  unfolding check_baseline result
  check_policy fs m path baseline none =
      ok (result (schema_passed ∷ check_of "policy_schema" false ∷ []))
  check_policy fs m path baseline (some derived) =
      if str_eq (fs.policy_digest path) m.policy_hash
      then (do
        base ← loaded_baseline_of (fs.load_policy baseline)
        ok (check_baseline m derived base))
      else ok (result (schema_passed ∷ policy_passed ∷ hash_check false ∷ []))

  unfoldable pub validate_mandate : Files N → String → String → Outcome MandateError MandateResult
  unfolding check_policy
  validate_mandate fs mandate_path baseline_path = do
    mandate ← checked_mandate fs mandate_path
    let path = fs.resolve_policy_path mandate_path mandate.policy_path
    derived ← checked_policy_of (fs.load_policy path)
    check_policy fs mandate path baseline_path derived
