-- ===== src/PolicyCheck/Scopes.antt =====
-- core/policy.py: which rules are of the book and which of one cycle, the split of
-- `check_incremental`.
use open_allocator.Base.{
  ℕ, ◌≡◌, refl, String, Bool, true, false, Option, none, some, List, [], ◌∷◌, ◌++◌, map,
  if◌then◌else◌, flat_map, All,
}
use open_allocator.Base.Alls.{All-append}
use open_allocator.Base.Int.{ℤ}
use open_allocator.Base.Text.{Text}
use open_allocator.Base.Equality.{Equality, contains, string_equality, number_equality}
use open_allocator.Policy.{Floats, Scalar, Vault, PolicyCaps, PolicyGates}
use open_allocator.PolicyCheck.Types.{AllocationLeg, PolicyViolation}
use open_allocator.PolicyCheck.Weights.{excesses, check_weight_cap}
use open_allocator.PolicyCheck.Gates.{
  Diversity, mode_violations, measured_violations, check_diversification, weights_bps_from,
  series_of,
}
use open_allocator.PolicyCheck.Books.{is_cycle_scoped}
use open_allocator.PolicyCheck.{
  unseen, missing_instruments, check_known, sector_violations, check_caps,
}
pub mod Named
pub mod Leveraged

-- A rule that is not of one cycle.
abbrev pub IsBookRule : String → Type 0
IsBookRule rule = contains ("max_deploy_per_cycle_usd" ∷ []) rule ≡ false

-- Violations of the book, none of one cycle.
pub record AreOfBook {N : Type 0} (vs : List (PolicyViolation N)) : Type 0 where
  pub each : All (λ v. is_cycle_scoped v ≡ false) vs

module _ {N : Type 0} where
  pub nil-AreOfBook : AreOfBook {N = N} []
  nil-AreOfBook = record { each = tt }

  pub cons-AreOfBook :
      {v : PolicyViolation N} {vs : List (PolicyViolation N)}
      → is_cycle_scoped v ≡ false
      → AreOfBook vs
      → AreOfBook (v ∷ vs)
  cons-AreOfBook h k = record { each = (h, k.each) }

  pub append-AreOfBook :
      {xs ys : List (PolicyViolation N)} → AreOfBook xs → AreOfBook ys → AreOfBook (xs ++ ys)
  append-AreOfBook {xs} {ys} h k = record { each = (All-append _ xs ys).1 (h.each, k.each) }

  pub flat_map-AreOfBook :
      {A : Type 0} (f : A → List (PolicyViolation N))
      → ((a : A) → AreOfBook (f a))
      → (xs : List A) → AreOfBook (flat_map f xs)
  flat_map-AreOfBook f h [] = nil-AreOfBook
  flat_map-AreOfBook f h (x ∷ xs) = append-AreOfBook (h x) (flat_map-AreOfBook f h xs)

  pub if-AreOfBook :
      (b : Bool) (v : PolicyViolation N)
      → is_cycle_scoped v ≡ false
      → AreOfBook (if b then v ∷ [] else [])
  if-AreOfBook true v h = cons-AreOfBook h nil-AreOfBook
  if-AreOfBook false v h = nil-AreOfBook

  pub check_known-AreOfBook :
      (gates : PolicyGates N) (known : List (String × Vault N)) (legs : List (AllocationLeg N))
      → AreOfBook (check_known gates known legs)
  unfolding check_known contains
  check_known-AreOfBook gates known legs = by_gate gates.new_instrument_needs_approval
    where
      all_unseen : (ids : List String) → AreOfBook {N = N} (map unseen ids)
      all_unseen [] = nil-AreOfBook
      all_unseen (id ∷ ids) = cons-AreOfBook refl (all_unseen ids)

      by_gate :
          (b : Bool)
          → AreOfBook {N = N} (if b then map unseen (missing_instruments known legs) else [])
      by_gate true = all_unseen (missing_instruments known legs)
      by_gate false = nil-AreOfBook

module _ {N : Type 0} ⦃F : Floats N⦄ where
  module _ {K : Type 0} ⦃e : Equality K⦄ where
    excesses-AreOfBook :
        (str : K → Text) (rule : String) (limit : N) (weights : List (K × N))
        → IsBookRule rule
        → AreOfBook (excesses str rule limit weights)
    unfolding excesses
    excesses-AreOfBook str rule limit [] h = nil-AreOfBook
    excesses-AreOfBook str rule limit ((k, w) ∷ weights) h =
        append-AreOfBook (if-AreOfBook _ _ h) (excesses-AreOfBook str rule limit weights h)

    check_weight_cap-AreOfBook :
        (str : K → Text) (rule : String) (limit : N) (weights : List (K × N))
        → IsBookRule rule
        → AreOfBook (check_weight_cap str rule limit weights)
    unfolding check_weight_cap
    check_weight_cap-AreOfBook str rule limit weights h = excesses-AreOfBook str rule limit _ h

  pub check_caps-AreOfBook :
      (caps : PolicyCaps N) (vaults : List (String × Vault N)) (legs : List (AllocationLeg N))
      → AreOfBook (check_caps caps vaults legs)
  unfolding check_caps contains
  check_caps-AreOfBook caps vaults legs =
      append-AreOfBook (check_weight_cap-AreOfBook _ _ _ _ refl) (
        append-AreOfBook (check_weight_cap-AreOfBook _ _ _ _ refl) (
          append-AreOfBook (check_weight_cap-AreOfBook _ _ _ _ refl) (
            append-AreOfBook (check_weight_cap-AreOfBook _ _ _ _ refl)
              (of_sectors caps.max_weight_per_sector))))
    where
      of_sectors : (cap : Option N) → AreOfBook (sector_violations cap vaults legs)
      of_sectors none = nil-AreOfBook
      of_sectors (some limit) = check_weight_cap-AreOfBook _ _ _ _ refl

  pub check_diversification-AreOfBook :
      (measure : Diversity N) (cap : Option N) (vaults : List (String × Vault N))
      (legs : List (AllocationLeg N))
      → AreOfBook (check_diversification measure cap vaults legs)
  unfolding check_diversification contains
  check_diversification-AreOfBook measure none vaults legs = nil-AreOfBook
  check_diversification-AreOfBook measure (some floor) vaults legs =
      of_measure (weights_bps_from legs []) (series_of (weights_bps_from legs []) vaults)
    where
      of_measure :
          (weights : List (String × ℤ)) (series : List (String × List (ℕ × N)))
          → AreOfBook (measured_violations measure floor weights series)
      of_measure [] series = nil-AreOfBook
      of_measure (w ∷ ws) [] = cons-AreOfBook refl nil-AreOfBook
      of_measure (w ∷ ws) (s ∷ ss) = if-AreOfBook _ _ refl

pub mode_violations-AreOfBook :
    {N : Type 0} (allowed : Bool) (mode : Option (Scalar N))
    → AreOfBook (mode_violations allowed mode)
unfolding contains
mode_violations-AreOfBook allowed none = nil-AreOfBook
mode_violations-AreOfBook true (some mode) = nil-AreOfBook
mode_violations-AreOfBook false (some mode) = cons-AreOfBook refl nil-AreOfBook
