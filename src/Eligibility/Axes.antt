-- ===== src/Eligibility/Axes.antt =====
-- When an axis of core/eligibility.py finds nothing.
use open_allocator.Base.{
  ◌≡◌, ◌↔◌, refl, Bool, true, false, Option, none, some, String, List, [], ◌∷◌, ◌++◌, All, arith,
  sym, ◌∙◌, subst, some-inj,
}
use open_allocator.Base.Equality.{Equality, contains, string_equality, number_equality}
use open_allocator.Policy.{
  Floats, NumericRisk, unknown, missing, measured, Scalar, Vault, PolicyAllowed, PolicyCaps,
}
use open_allocator.Eligibility.{
  allowlist, stablecoin_axis, reward_dependence_axis, levered_axis, liquidity_axis, pays_no_reward,
  present,
}

-- A value that an allowlist lets through: there is no list, or the value is known and in it.
abbrev pub Fits : {A : Type 0} ⦃e : Equality A⦄ → Option (List A) → Option A → Type 0
Fits {A} allowed actual =
    (xs : List A) → allowed ≡ some xs → (a : A) × (actual ≡ some a) × (contains xs a ≡ true)

module _ {N : Type 0} {A : Type 0} ⦃e : Equality A⦄ (inject : A → Scalar N) (rule : String) where
  pub allowlist-Fits :
      (allowed : Option (List A)) (actual : Option A)
      → allowlist inject rule allowed actual ≡ none
      → Fits allowed actual
  unfolding allowlist
  allowlist-Fits none actual h xs q = cc
  allowlist-Fits (some ys) none h xs q = cc
  allowlist-Fits (some ys) (some a) h xs q = (a, refl, ground arith)

  pub Fits-allowlist :
      (allowed : Option (List A)) (actual : Option A)
      → Fits allowed actual
      → allowlist inject rule allowed actual ≡ none
  unfolding allowlist
  Fits-allowlist none actual h = refl
  Fits-allowlist (some ys) none h = let (a, p, q) = h ys refl in cc
  Fits-allowlist (some ys) (some a) h = let (b, p, q) = h ys refl in ground arith

module _ {ℓ} {A : Type ℓ} where
  pub present-nil : (xs : List (Option A)) → present xs ≡ [] → All (λ x. x ≡ none) xs
  unfolding present
  present-nil [] h = tt
  present-nil (none ∷ xs) h = (refl, present-nil xs h)
  present-nil (some a ∷ xs) h = cc

  pub nil-present : (xs : List (Option A)) → All (λ x. x ≡ none) xs → present xs ≡ []
  unfolding present
  nil-present [] h = refl
  nil-present (none ∷ xs) h = nil-present xs h.1
  nil-present (some a ∷ xs) h = absurd (let p = h.0 in cc)

  pub append-nil : (xs ys : List A) → xs ++ ys ≡ [] → (xs ≡ []) × (ys ≡ [])
  append-nil [] ys h = (refl, h)
  append-nil (x ∷ xs) ys h = cc

module _ {N : Type 0} (v : Vault N) (p : PolicyAllowed) where
  pub stablecoin_iff :
      (stablecoin_axis v p ≡ none) ↔ (p.stablecoin_only ≡ some true → v.is_stablecoin ≡ some true)
  stablecoin_iff = by_flags p.stablecoin_only v.is_stablecoin refl refl
    where
      by_flags :
          (a b : Option Bool)
          → p.stablecoin_only ≡ a
          → v.is_stablecoin ≡ b
          → (stablecoin_axis v p ≡ none)
            ↔ (p.stablecoin_only ≡ some true → v.is_stablecoin ≡ some true)
      by_flags none b x y = (λ h k. absurd (let z = k in cc), λ h. ground arith)
      by_flags (some false) b x y = (λ h k. absurd (let z = k in cc), λ h. ground arith)
      by_flags (some true) none x y = (λ h. ground arith, λ h. absurd (let z = h x in cc))
      by_flags (some true) (some false) x y = (λ h. ground arith, λ h. absurd (let z = h x in cc))
      by_flags (some true) (some true) x y = (λ h k. y, λ h. ground arith)

module _ {N : Type 0} ⦃F : Floats N⦄ (v : Vault N) (c : PolicyCaps N) where
  pub reward_iff : (reward_dependence_axis v c ≡ none) ↔ (
      v.is_levered ≡ false
      → (x : N) × (v.reward_dependence ≡ measured x)
        × (F.lt (F.add c.max_reward_dependence F.epsilon) x ≡ false))
  reward_iff = by_risk v.is_levered v.reward_dependence refl refl
    where
      by_risk :
          (b : Bool) (r : NumericRisk N)
          → v.is_levered ≡ b
          → v.reward_dependence ≡ r
          → (reward_dependence_axis v c ≡ none) ↔ (
              v.is_levered ≡ false
              → (x : N) × (v.reward_dependence ≡ measured x)
                × (F.lt (F.add c.max_reward_dependence F.epsilon) x ≡ false))
      by_risk true r x y = (λ h k. absurd (let z = k in cc), λ h. ground arith)
      by_risk false unknown x y =
          (λ h. absurd (ground arith), λ h. let (z, q, _) = h x in absurd (let u = q in cc))
      by_risk false missing x y =
          (λ h. absurd (ground arith), λ h. let (z, q, _) = h x in absurd (let u = q in cc))
      by_risk false (measured z) x y =
          (λ h k. (z, y, ground arith), λ h. let (u, q, l) = h x in ground arith)

  pub levered_iff : (levered_axis v c ≡ none) ↔ (
      v.is_levered ≡ true
      → (limit : N) → c.max_weight_levered ≡ some limit
      → F.le limit F.epsilon ≡ false)
  levered_iff = by_limit v.is_levered c.max_weight_levered refl refl
    where
      by_limit :
          (b : Bool) (o : Option N)
          → v.is_levered ≡ b
          → c.max_weight_levered ≡ o
          → (levered_axis v c ≡ none) ↔ (
              v.is_levered ≡ true
              → (limit : N) → c.max_weight_levered ≡ some limit
              → F.le limit F.epsilon ≡ false)
      by_limit false o x y = (λ h k. absurd (let z = k in cc), λ h. ground arith)
      by_limit true none x y = (λ h k l q. absurd (let z = q in cc), λ h. ground arith)
      by_limit true (some z) x y = (
        λ h k l q.
            let same : z ≡ l = some-inj (sym y ∙ q) in
            subst (λ u. F.le u F.epsilon ≡ false) same (ground arith),
        λ h. let u = h x z y in ground arith,
      )

  pub liquidity_iff : (liquidity_axis v c ≡ none) ↔ (
      v.is_levered ≡ true
      → pays_no_reward v ≡ false
      → (floor : N) → c.min_reward_liquidity_usd ≡ some floor
      → (x : N) × (v.reward_liquidity_usd ≡ some x) × (F.lt x (F.sub floor F.epsilon) ≡ false))
  liquidity_iff =
      by_volume v.is_levered c.min_reward_liquidity_usd (pays_no_reward v) v.reward_liquidity_usd
        refl refl refl refl
    where
      by_volume :
          (b : Bool) (o : Option N) (r : Bool) (volume : Option N)
          → v.is_levered ≡ b
          → c.min_reward_liquidity_usd ≡ o
          → pays_no_reward v ≡ r
          → v.reward_liquidity_usd ≡ volume
          → (liquidity_axis v c ≡ none) ↔ (
              v.is_levered ≡ true
              → pays_no_reward v ≡ false
              → (floor : N) → c.min_reward_liquidity_usd ≡ some floor
              → (x : N) × (v.reward_liquidity_usd ≡ some x)
                × (F.lt x (F.sub floor F.epsilon) ≡ false))
      by_volume false o r w x y z u = (λ h k. absurd (let t = k in cc), λ h. ground arith)
      by_volume true none r w x y z u = (λ h k l f q. absurd (let t = q in cc), λ h. ground arith)
      by_volume true (some f) true w x y z u =
          (λ h k l. absurd (let t = l in cc), λ h. ground arith)
      by_volume true (some f) false none x y z u =
          (λ h. absurd (ground arith), λ h. let (t, q, _) = h x z f y in absurd (let s = q in cc))
      by_volume true (some f) false (some w) x y z u = (
        λ h k l g q.
            let same : f ≡ g = some-inj (sym y ∙ q) in
            (w, u, subst (λ t. F.lt w (F.sub t F.epsilon) ≡ false) same (ground arith)),
        λ h. let (t, q, s) = h x z f y in ground arith,
      )
