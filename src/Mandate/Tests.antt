-- ===== src/Mandate/Tests.antt =====
-- A mandate whose policy narrows the baseline, and the files that it is read from.
use open_allocator.Base.{ℕ, str_eq, if◌then◌else◌, ◌≡◌, refl, true, false, [], ◌∷◌, filter}
use open_allocator.Base.Equality.{contains, is_subset, same_list, string_equality, number_equality}
use open_allocator.Policy.Samples.{vault, baseline, derived, hundredths}
use open_allocator.Eligibility.{allowlist, allowlist_findings, present}
use open_allocator.Mandate.{
  movements, compare_bound, compare_allowlist, compare_flag, compare_fixed,
}
use open_allocator.Mandate.Tighten.{tighter_admits}
use open_allocator.Mandate.Checks.{
  Mandate, Files, parsed, number_claim, MandateResult, check_of, validate_mandate,
}
use open_allocator.Mandate.Validation.{
  IsAccepted, Stops, validate_mandate_sound, validate_mandate-Stops,
}

abbrev mandate : Mandate ℕ
mandate = record {
  policy_path = "policy.yaml";
  policy_hash = "sha256:aa";
  rationale = record { knob = "caps.max_weight_levered"; value = number_claim 10 } ∷ [];
}

abbrev files : Files ℕ
files = record {
  load_mandate = λ path. parsed mandate;
  load_policy = λ path. if str_eq path "policy.yaml" then parsed derived else parsed baseline;
  policy_digest = λ path. "sha256:aa";
  resolve_policy_path = λ path policy_path. policy_path;
}

-- The policy file has changed since the mandate was derived.
abbrev changed_files : Files ℕ
changed_files = record files { policy_digest = λ path. "sha256:bb" }

abbrev accepted : MandateResult
accepted = record {
  ok = true;
  checks =
      check_of "mandate_schema" true
      ∷ check_of "policy_schema" true
      ∷ check_of "policy_hash" true
      ∷ check_of "can_only_tighten" true
      ∷ check_of "levered_sleeve_rationale" true
      ∷ [];
}

abbrev refused : MandateResult
refused = record {
  ok = false;
  checks =
      check_of "mandate_schema" true
      ∷ check_of "policy_schema" true
      ∷ check_of "policy_hash" false
      ∷ [];
}

tighter_admits_example : allowlist_findings vault baseline.allowed ≡ []
unfolding filter present movements compare_bound compare_allowlist compare_flag compare_fixed
    is_subset contains same_list allowlist_findings allowlist
tighter_admits_example = tighter_admits derived baseline vault refl refl

validate_mandate_sound_example : IsAccepted files "mandate.yaml" "base.yaml"
unfolding validate_mandate movements compare_bound compare_allowlist compare_flag compare_fixed
    is_subset contains same_list
validate_mandate_sound_example =
    validate_mandate_sound files "mandate.yaml" "base.yaml" accepted refl refl

validate_mandate-Stops_example : Stops refused
unfolding validate_mandate
validate_mandate-Stops_example =
    validate_mandate-Stops changed_files "mandate.yaml" "base.yaml" refused refl
