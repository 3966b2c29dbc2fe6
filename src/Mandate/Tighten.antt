-- ===== src/Mandate/Tighten.antt =====
-- What a derived policy may change: no knob is looser than the baseline's.
use open_allocator.Base.{
  ◌≡◌, ◌↔◌, refl, true, false, Option, none, some, List, [], ◌∷◌, map, filter, All,
}
use open_allocator.Base.Equality.{Equality, string_equality, number_equality}
use open_allocator.Policy.{Floats, Vault, Policy}
use open_allocator.Eligibility.{present, allowlist_findings}
use open_allocator.Eligibility.Axes.{Fits}
use open_allocator.Eligibility.Admission.{IsAllowed, allowlist_findings_iff}
use open_allocator.Mandate.{
  Movement, tightened, loosened, ceilings, floors, compare_bound, is_loosened, allowlist_movements,
  flag_movements, fixed_movements, movements,
}
use open_allocator.Mandate.Comparisons.{
  Keeps, IsWithin, Narrower, compare_bound_iff, compare_fixed_iff, compare_allowlist_iff,
  compare_flag_iff, is_flag-true, is_flag-false,
}
use open_allocator.Base.Alls.{All-five, All-map}

pub record IsTighter {N : Type 0} ⦃F : Floats N⦄ (d b : Policy N) : Type 0 where
  pub ceiling : All (IsWithin false d b) ceilings
  pub floor : All (IsWithin true d b) floors
  pub protocols : Narrower d.allowed.protocols b.allowed.protocols
  pub chains : Narrower d.allowed.chains b.allowed.chains
  pub asset_categories : Narrower d.allowed.asset_categories b.allowed.asset_categories
  pub assets : Narrower d.allowed.assets b.allowed.assets
  pub curators : Narrower d.allowed.curators b.allowed.curators
  pub stablecoin : b.allowed.stablecoin_only ≡ some true → d.allowed.stablecoin_only ≡ some true
  pub approval :
      b.gates.new_instrument_needs_approval ≡ true → d.gates.new_instrument_needs_approval ≡ true
  pub autonomous : b.gates.autonomous_rebalance ≡ false → d.gates.autonomous_rebalance ≡ false
  pub version : d.version ≡ b.version
  pub mode : d.wallet.mode ≡ b.wallet.mode
  pub signer : d.wallet.signer ≡ b.wallet.signer

loosened-All : (xs : List (Option Movement)) → (filter is_loosened (present xs) ≡ []) ↔ All Keeps xs
unfolding filter present
loosened-All [] = (λ h. tt, λ h. refl)
loosened-All (none ∷ xs) = (λ h. (refl, (loosened-All xs).0 h), λ h. (loosened-All xs).1 h.1)
loosened-All (some (tightened k) ∷ xs) =
    (λ h. (refl, (loosened-All xs).0 h), λ h. (loosened-All xs).1 h.1)
loosened-All (some (loosened k) ∷ xs) =
    (λ h. absurd (let z = h in cc), λ h. absurd (let z = h.0 in cc))

module _ {N : Type 0} ⦃F : Floats N⦄ (d b : Policy N) where
  movements_split : (filter is_loosened (present (movements d b)) ≡ []) ↔ (
      All (IsWithin false d b) ceilings
      × (All (IsWithin true d b) floors
          × (All Keeps (allowlist_movements d b)
              × (All Keeps (flag_movements d b) × All Keeps (fixed_movements d b)))))
  unfolding movements
  movements_split =
      let five =
        All-five Keeps (map (compare_bound false d b) ceilings)
          (map (compare_bound true d b) floors) (allowlist_movements d b) (flag_movements d b)
          (fixed_movements d b) in
      let up = All-map Keeps (IsWithin false d b) _ (compare_bound_iff false d b) ceilings in
      let down = All-map Keeps (IsWithin true d b) _ (compare_bound_iff true d b) floors in
      (
        λ h.
            let (x, (y, r)) = five.0 ((loosened-All (movements d b)).0 h) in
            (up.0 x, (down.0 y, r)),
        λ h. (loosened-All (movements d b)).1 (five.1 (up.1 h.0, (down.1 h.1.0, h.1.1))),
      )

  pub loosened_none_iff : (filter is_loosened (present (movements d b)) ≡ []) ↔ IsTighter d b
  loosened_none_iff = (
    λ h.
        let (x, (y, (z, (f, g)))) = movements_split.0 h in
        let (z1, (z2, (z3, (z4, (z5, _))))) = z in
        let (f1, (f2, (f3, _))) = f in
        let (g1, (g2, (g3, _))) = g in
        record {
          ceiling = x;
          floor = y;
          protocols = (compare_allowlist_iff _ _ _).0 z1;
          chains = (compare_allowlist_iff _ _ _).0 z2;
          asset_categories = (compare_allowlist_iff _ _ _).0 z3;
          assets = (compare_allowlist_iff _ _ _).0 z4;
          curators = (compare_allowlist_iff _ _ _).0 z5;
          stablecoin =
              λ k. (is_flag-true _).0 ((compare_flag_iff _ _ _ _).0 f1 ((is_flag-true _).1 k));
          approval = (compare_flag_iff _ _ _ _).0 f2;
          autonomous =
              λ k. (is_flag-false _).0 ((compare_flag_iff _ _ _ _).0 f3 ((is_flag-false _).1 k));
          version = (compare_fixed_iff _ _ _).0 g1;
          mode = (compare_fixed_iff _ _ _).0 g2;
          signer = (compare_fixed_iff _ _ _).0 g3;
        },
    λ h. movements_split.1 (
      h.ceiling,
      (
        h.floor,
        (
          (
            (compare_allowlist_iff _ _ _).1 h.protocols,
            (
              (compare_allowlist_iff _ _ _).1 h.chains,
              (
                (compare_allowlist_iff _ _ _).1 h.asset_categories,
                (
                  (compare_allowlist_iff _ _ _).1 h.assets,
                  ((compare_allowlist_iff _ _ _).1 h.curators, tt),
                ),
              ),
            ),
          ),
          (
            (
              (compare_flag_iff _ _ _ _).1
                  (λ k. (is_flag-true _).1 (h.stablecoin ((is_flag-true _).0 k))),
              (
                (compare_flag_iff _ _ _ _).1 h.approval,
                (
                  (compare_flag_iff _ _ _ _).1
                      (λ k. (is_flag-false _).1 (h.autonomous ((is_flag-false _).0 k))),
                  tt,
                ),
              ),
            ),
            (
              (compare_fixed_iff _ _ _).1 h.version,
              ((compare_fixed_iff _ _ _).1 h.mode, ((compare_fixed_iff _ _ _).1 h.signer, tt)),
            ),
          ),
        ),
      ),
    ),
  )

Narrower-Fits :
    {A : Type 0} ⦃e : Equality A⦄ (derived baseline : Option (List A)) (actual : Option A)
    → Narrower derived baseline
    → Fits derived actual
    → Fits baseline actual
Narrower-Fits derived baseline actual n f ys p =
    let (xs, q, k) = n ys p in let (a, r, c) = f xs q in (a, r, k a c)

module _ {N : Type 0} ⦃F : Floats N⦄ (d b : Policy N) (v : Vault N) where
  IsTighter-IsAllowed : IsTighter d b → IsAllowed v d.allowed → IsAllowed v b.allowed
  IsTighter-IsAllowed t a = record {
    protocol = Narrower-Fits _ _ _ t.protocols a.protocol;
    chain = Narrower-Fits _ _ _ t.chains a.chain;
    asset = Narrower-Fits _ _ _ t.assets a.asset;
    asset_category = Narrower-Fits _ _ _ t.asset_categories a.asset_category;
    stablecoin = λ k. a.stablecoin (t.stablecoin k);
    curator = Narrower-Fits _ _ _ t.curators a.curator;
  }

  -- Where no knob counts as loosened, an instrument that the derived policy's allowlists let
  -- through, the baseline's let through too.
  pub tighter_admits :
      filter is_loosened (present (movements d b)) ≡ []
      → allowlist_findings v d.allowed ≡ []
      → allowlist_findings v b.allowed ≡ []
  tighter_admits h a =
      (allowlist_findings_iff v b.allowed).1 (
        IsTighter-IsAllowed ((loosened_none_iff d b).0 h)
          ((allowlist_findings_iff v d.allowed).0 a))
