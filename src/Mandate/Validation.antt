-- ===== src/Mandate/Validation.antt =====
-- What a mandate that passes all of core/mandate.py's checks is, and where a failed one stops.
use open_allocator.Base.{
  ℕ, suc, ◌≡◌, ◌⊎◌, inl, inr, refl, ap, subst, ◌∙◌, true, false, Option, none, some, String, List,
  [], ◌∷◌, ◌++◌, All, any, filter, get_elem?, arith, Bool-cases, eq_iff, str_eq,
}
use open_allocator.Base.Outcome.{ok, >>=-eq-ok, ok-injective}
use open_allocator.Policy.{Floats, Policy}
use open_allocator.Mandate.Tighten.{IsTighter, loosened_none_iff}
use open_allocator.Mandate.Checks.{
  Mandate, RationaleEntry, MandateCheck, MandateResult, Parsed, parsed, Files, can_only_tighten,
  same_value, admits_none, levered_sleeve, levered_sleeve_knob, is_levered_entry, argues_for,
  checked_mandate, checked_policy_of, loaded_baseline_of, schema_passed, policy_passed, hash_check,
  tighten_check, sleeve_check, check_of, check_baseline, check_policy, result, validate_mandate,
}

module _ {N : Type 0} ⦃F : Floats N⦄ where
  -- No levered weight is admitted, or an entry of the rationale argues for the value held.
  abbrev pub IsJustified : Mandate N → Policy N → Type 0
  IsJustified m d =
      (admits_none d.caps.max_weight_levered ≡ true)
      ⊎ ((i : ℕ) × (e : RationaleEntry N) × (get_elem? m.rationale i ≡ some e)
          × (e.knob ≡ levered_sleeve_knob)
          × (same_value d.caps.max_weight_levered e.value ≡ true))

pub record IsAccepted {N : Type 0} ⦃F : Floats N⦄ (fs : Files N) (path base : String) : Type 0 where
  pub mandate : Mandate N
  pub derived : Policy N
  pub baseline : Policy N
  pub loads_mandate : fs.load_mandate path ≡ parsed mandate
  pub loads_policy :
      fs.load_policy (fs.resolve_policy_path path mandate.policy_path) ≡ parsed derived
  pub same_digest :
      fs.policy_digest (fs.resolve_policy_path path mandate.policy_path) ≡ mandate.policy_hash
  pub loads_baseline : fs.load_policy base ≡ parsed baseline
  pub tighter : IsTighter derived baseline
  pub justified : IsJustified mandate derived

module _ {N : Type 0} ⦃F : Floats N⦄ where
  any-argues :
      (ceiling : Option N) (es : List (RationaleEntry N))
      → any (argues_for ceiling) (filter is_levered_entry es) ≡ true
      → (i : ℕ) × (e : RationaleEntry N) × (get_elem? es i ≡ some e)
        × (e.knob ≡ levered_sleeve_knob)
        × (same_value ceiling e.value ≡ true)
  unfolding filter
  any-argues ceiling [] h = absurd (let z = h in cc)
  any-argues ceiling (e ∷ es) h = elim (Bool-cases (is_levered_entry e)) [
    | inl p ↦ elim (Bool-cases (argues_for ceiling e)) [
      | inl q ↦ (0, e, refl, (eq_iff _ _).0 p, q)
      | inr q ↦ let (i, a, b, c, d) = any-argues ceiling es (ground arith) in (suc i, a, b, c, d)
    ]
    | inr p ↦ let (i, a, b, c, d) = any-argues ceiling es (ground arith) in (suc i, a, b, c, d)
  ]

  levered_sleeve-IsJustified :
      (m : Mandate N) (d : Policy N) → levered_sleeve m d ≡ true → IsJustified m d
  unfolding levered_sleeve
  levered_sleeve-IsJustified m d h = elim (Bool-cases (admits_none d.caps.max_weight_levered)) [
    | inl p ↦ inl p
    | inr p ↦ inr (any-argues d.caps.max_weight_levered m.rationale (ground arith))
  ]

  can_only_tighten-IsTighter : (d b : Policy N) → can_only_tighten d b ≡ true → IsTighter d b
  unfolding can_only_tighten
  can_only_tighten-IsTighter d b h = (loosened_none_iff d b).0 (ground arith)

  check_baseline-ok :
      (m : Mandate N) (d b : Policy N)
      → (check_baseline m d b).ok ≡ true
      → IsTighter d b × IsJustified m d
  unfolding check_baseline result
  check_baseline-ok m d b h = elim (Bool-cases (can_only_tighten d b)) [
    | inl p ↦ (can_only_tighten-IsTighter d b p, levered_sleeve-IsJustified m d (ground arith))
    | inr p ↦ absurd (ground arith)
  ]

  mandate_parsed :
      (fs : Files N) (path : String) {m : Mandate N}
      → checked_mandate fs path ≡ ok m
      → fs.load_mandate path ≡ parsed m
  mandate_parsed fs path h = ground arith

  policy_parsed :
      (x : Parsed (Policy N)) {p : Policy N} → checked_policy_of x ≡ ok (some p) → x ≡ parsed p
  policy_parsed x h = ground arith

  baseline_parsed :
      (x : Parsed (Policy N)) {p : Policy N} → loaded_baseline_of x ≡ ok p → x ≡ parsed p
  baseline_parsed x h = ground arith

  check_policy-IsAccepted :
      (fs : Files N) (path base : String) (m : Mandate N) (d : Option (Policy N))
      (r : MandateResult)
      → fs.load_mandate path ≡ parsed m
      → checked_policy_of (fs.load_policy (fs.resolve_policy_path path m.policy_path)) ≡ ok d
      → check_policy fs m (fs.resolve_policy_path path m.policy_path) base d ≡ ok r
      → r.ok ≡ true
      → IsAccepted fs path base
  unfolding check_policy result
  check_policy-IsAccepted fs path base m none r l p h k = absurd (ground arith)
  check_policy-IsAccepted fs path base m (some d) r l p h k =
      elim (Bool-cases
        (str_eq (fs.policy_digest (fs.resolve_policy_path path m.policy_path)) m.policy_hash)) [
          | inr q ↦ absurd (ground arith)
          | inl q ↦
              let (b, e, x) =
                >>=-eq-ok (loaded_baseline_of (fs.load_policy base))
                  (λ base_policy. ok (check_baseline m d base_policy)) {r = r} (rw q at h) in
              let passed : (check_baseline m d b).ok ≡ true =
                ap (λ (z : MandateResult). z.ok) (ok-injective x) ∙ k in
              let (t, j) = check_baseline-ok m d b passed in
              record {
                mandate = m;
                derived = d;
                baseline = b;
                loads_mandate = l;
                loads_policy = policy_parsed _ p;
                same_digest = (eq_iff _ _).0 q;
                loads_baseline = baseline_parsed _ e;
                tighter = t;
                justified = j;
              }
        ]

  -- A mandate that passes validation loads, and its policy and the baseline do; the policy is the
  -- file whose digest the mandate claims; no knob of it is looser than the baseline's; and levered
  -- weight, where it admits any, is argued for at the value that the policy holds.
  pub validate_mandate_sound :
      (fs : Files N) (path base : String) (r : MandateResult)
      → validate_mandate fs path base ≡ ok r
      → r.ok ≡ true
      → IsAccepted fs path base
  unfolding validate_mandate
  validate_mandate_sound fs path base r h k =
      let (m, l, x) = >>=-eq-ok (checked_mandate fs path) _ h in
      let (d, p, y) =
        >>=-eq-ok (checked_policy_of (fs.load_policy (fs.resolve_policy_path path m.policy_path))) _
          x in
      check_policy-IsAccepted fs path base m d r (mandate_parsed fs path l) p y k

-- Every check but the last passed, and the result is what the last one says.
abbrev pub Stops : MandateResult → Type 0
Stops r =
    (cs : List MandateCheck) × (c : MandateCheck) × (r.checks ≡ cs ++ (c ∷ []))
    × All (λ (x : MandateCheck). x.ok ≡ true) cs
    × (r.ok ≡ c.ok)

module _ {N : Type 0} ⦃F : Floats N⦄ where
  check_baseline-Stops : (m : Mandate N) (d b : Policy N) → Stops (check_baseline m d b)
  unfolding check_baseline result
  check_baseline-Stops m d b = elim (Bool-cases (can_only_tighten d b)) [
    | inl p ↦ rw p (
      schema_passed ∷ policy_passed ∷ hash_check true ∷ tighten_check true ∷ [],
      sleeve_check (levered_sleeve m d),
      refl,
      (refl, (refl, (refl, (refl, tt)))),
      ground arith,
    )
    | inr p ↦ rw p (
      schema_passed ∷ policy_passed ∷ hash_check true ∷ [],
      tighten_check false,
      refl,
      (refl, (refl, (refl, tt))),
      refl,
    )
  ]

  check_policy-Stops :
      (fs : Files N) (m : Mandate N) (path base : String) (d : Option (Policy N))
      (r : MandateResult)
      → check_policy fs m path base d ≡ ok r
      → Stops r
  unfolding check_policy result
  check_policy-Stops fs m path base none r h =
      subst Stops (ok-injective h)
        (schema_passed ∷ [], check_of "policy_schema" false, refl, (refl, tt), refl)
  check_policy-Stops fs m path base (some d) r h =
      elim (Bool-cases (str_eq (fs.policy_digest path) m.policy_hash)) [
        | inl q ↦
            let (b, e, x) =
              >>=-eq-ok (loaded_baseline_of (fs.load_policy base))
                (λ base_policy. ok (check_baseline m d base_policy)) {r = r} (rw q at h) in
            subst Stops (ok-injective x) (check_baseline-Stops m d b)
        | inr q ↦
            let same : result (schema_passed ∷ policy_passed ∷ hash_check false ∷ []) ≡ r =
              ok-injective (rw q at h) in
            subst Stops same
              (schema_passed ∷ policy_passed ∷ [], hash_check false, refl, (refl, (refl, tt)), refl)
      ]

  -- Validation that returns has stopped at the first check that failed: all before the last one
  -- passed, and the mandate is accepted exactly if the last one did.
  pub validate_mandate-Stops :
      (fs : Files N) (path base : String) (r : MandateResult)
      → validate_mandate fs path base ≡ ok r
      → Stops r
  unfolding validate_mandate
  validate_mandate-Stops fs path base r h =
      let (m, l, x) = >>=-eq-ok (checked_mandate fs path) _ h in
      let (d, p, y) =
        >>=-eq-ok (checked_policy_of (fs.load_policy (fs.resolve_policy_path path m.policy_path))) _
          x in
      check_policy-Stops fs m (fs.resolve_policy_path path m.policy_path) base d r y
