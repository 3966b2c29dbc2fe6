-- ===== src/Eligibility/Admission.antt =====
-- Which instruments a policy admits, and the findings of the scopes.
use open_allocator.Base.{◌≡◌, ◌↔◌, refl, true, false, none, some, [], ◌∷◌, arith}
use open_allocator.Base.Equality.{string_equality, number_equality}
use open_allocator.Policy.{Floats, measured, Vault, PolicyAllowed, PolicyCaps, Policy}
use open_allocator.Eligibility.{
  tvl_axis, pays_no_reward, allowlist_findings, allowlist_axes, discovery_allowlist_axes,
  quality_axes, quality_findings, candidate_findings, candidate_exclusion, discovery_findings,
  discovery_eligible,
}
use open_allocator.Eligibility.Axes.{
  Fits, allowlist-Fits, Fits-allowlist, present-nil, nil-present, append-nil, stablecoin_iff,
  reward_iff, levered_iff, liquidity_iff,
}

pub record IsAllowed {N : Type 0} (v : Vault N) (p : PolicyAllowed) : Type 0 where
  pub protocol : Fits p.protocols (some v.protocol)
  pub chain : Fits p.chains (some v.chain_id)
  pub asset : Fits p.assets (some v.asset)
  pub asset_category : Fits p.asset_categories v.asset_category
  pub stablecoin : p.stablecoin_only ≡ some true → v.is_stablecoin ≡ some true
  pub curator : Fits p.curators v.curator

-- The quality caps. The reward share binds on unlevered instruments only; a levered one needs a
-- ceiling above zero and a reward token that trades enough, where it pays a reward.
pub record IsSound {N : Type 0} ⦃F : Floats N⦄ (v : Vault N) (c : PolicyCaps N) : Type 0 where
  pub tvl : F.lt v.tvl_usd c.min_instrument_tvl_usd ≡ false
  pub reward_dependence :
      v.is_levered ≡ false
      → (x : N) × (v.reward_dependence ≡ measured x)
        × (F.lt (F.add c.max_reward_dependence F.epsilon) x ≡ false)
  pub levered :
      v.is_levered ≡ true
      → (limit : N) → c.max_weight_levered ≡ some limit
      → F.le limit F.epsilon ≡ false
  pub liquidity :
      v.is_levered ≡ true
      → pays_no_reward v ≡ false
      → (floor : N) → c.min_reward_liquidity_usd ≡ some floor
      → (x : N) × (v.reward_liquidity_usd ≡ some x) × (F.lt x (F.sub floor F.epsilon) ≡ false)

module _ {N : Type 0} (v : Vault N) (p : PolicyAllowed) where
  allowlist_findings-IsAllowed : allowlist_findings v p ≡ [] → IsAllowed v p
  unfolding allowlist_findings
  allowlist_findings-IsAllowed h =
      let (a, (b, (c, (d, (e, (f, _)))))) = present-nil (allowlist_axes v p) h in
      record {
        protocol = allowlist-Fits _ _ _ _ a;
        chain = allowlist-Fits _ _ _ _ b;
        asset = allowlist-Fits _ _ _ _ c;
        asset_category = allowlist-Fits _ _ _ _ d;
        stablecoin = (stablecoin_iff v p).0 e;
        curator = allowlist-Fits _ _ _ _ f;
      }

  IsAllowed-allowlist_findings : IsAllowed v p → allowlist_findings v p ≡ []
  unfolding allowlist_findings
  IsAllowed-allowlist_findings h = nil-present (allowlist_axes v p) (
    Fits-allowlist _ _ _ _ h.protocol,
    (
      Fits-allowlist _ _ _ _ h.chain,
      (
        Fits-allowlist _ _ _ _ h.asset,
        (
          Fits-allowlist _ _ _ _ h.asset_category,
          ((stablecoin_iff v p).1 h.stablecoin, (Fits-allowlist _ _ _ _ h.curator, tt)),
        ),
      ),
    ),
  )

  -- There is no finding on the allowlists exactly when each of them lets the instrument through.
  pub allowlist_findings_iff : (allowlist_findings v p ≡ []) ↔ IsAllowed v p
  allowlist_findings_iff = (allowlist_findings-IsAllowed, IsAllowed-allowlist_findings)

module _ {N : Type 0} ⦃F : Floats N⦄ (v : Vault N) (c : PolicyCaps N) where
  quality_findings-IsSound : quality_findings v c ≡ [] → IsSound v c
  unfolding quality_findings
  quality_findings-IsSound h =
      let (a, (b, (d, (e, _)))) = present-nil (quality_axes v c) h in
      record {
        tvl = ground arith;
        reward_dependence = (reward_iff v c).0 b;
        levered = (levered_iff v c).0 d;
        liquidity = (liquidity_iff v c).0 e;
      }

  IsSound-quality_findings : IsSound v c → quality_findings v c ≡ []
  unfolding quality_findings
  IsSound-quality_findings h = nil-present (quality_axes v c) (
    (let t = h.tvl in ground arith),
    (
      (reward_iff v c).1 h.reward_dependence,
      ((levered_iff v c).1 h.levered, ((liquidity_iff v c).1 h.liquidity, tt)),
    ),
  )

  -- There is no finding on the quality caps exactly when each that applies is met.
  pub quality_findings_iff : (quality_findings v c ≡ []) ↔ IsSound v c
  quality_findings_iff = (quality_findings-IsSound, IsSound-quality_findings)

module _ {N : Type 0} ⦃F : Floats N⦄ (v : Vault N) (p : Policy N) where
  candidate_findings-nil :
      candidate_findings v p ≡ []
      → (allowlist_findings v p.allowed ≡ []) × (quality_findings v p.caps ≡ [])
  unfolding candidate_findings
  candidate_findings-nil h =
      append-nil (allowlist_findings v p.allowed) (quality_findings v p.caps) h

  candidate_exclusion-nil : candidate_exclusion v p ≡ none → candidate_findings v p ≡ []
  unfolding candidate_exclusion
  candidate_exclusion-nil h = ground arith

  -- A policy does not exclude an instrument exactly when every allowlist lets it through and every
  -- quality cap that applies to it is met; a value that a cap needs and is not known is not enough.
  pub candidate_exclusion_iff :
      (candidate_exclusion v p ≡ none) ↔ (IsAllowed v p.allowed × IsSound v p.caps)
  candidate_exclusion_iff = (
    λ h.
        let (a, q) = candidate_findings-nil (candidate_exclusion-nil h) in
        (allowlist_findings-IsAllowed v p.allowed a, quality_findings-IsSound v p.caps q),
    λ h.
        unfold candidate_exclusion candidate_findings in
        rw (IsAllowed-allowlist_findings v p.allowed h.0, IsSound-quality_findings v p.caps h.1)
          refl,
  )

  -- An instrument that the policy does not exclude is eligible in discovery.
  pub candidate_discovery : candidate_exclusion v p ≡ none → discovery_eligible v p ≡ true
  unfolding discovery_eligible discovery_findings allowlist_findings quality_findings
  candidate_discovery h =
      let (a, q) = candidate_findings-nil (candidate_exclusion-nil h) in
      let (x, (y, (z, (s, (t, _))))) = present-nil (allowlist_axes v p.allowed) a in
      let (u, _) = present-nil (quality_axes v p.caps) q in
      rw
        (
          nil-present (discovery_allowlist_axes v p.allowed) (x, (y, (z, (s, (t, tt))))),
          nil-present (tvl_axis v p.caps ∷ []) (u, tt),
        )
        refl
