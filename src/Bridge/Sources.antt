-- ===== src/Bridge/Sources.antt =====
-- The route that a burn is checked against, and the record of a burn that went out.
use open_allocator.Base.{
  ℕ, zero, suc, ◌<◌, ◌≡◌, refl, ap, ◌∙◌, true, Option, none, some, String, List, [], ◌∷◌, ◌++◌,
  filter, length, get_elem?, arith, Bool-cases, inl, inr, str_eq, eq_iff, ◌==◌, ==→eq, some-inj,
}
use open_allocator.Base.Outcome.{ok, >>=-eq-ok, guard-eq-ok, ok-injective}
use open_allocator.Cctp.{TxStep, same_text, failures}
use open_allocator.Bridge.{BridgeState, source_submitted, ChainConfig, Receipt, assert_some}
use open_allocator.Bundle.{BundleBridge, TxBundle}
use open_allocator.Bridge.Planning.{
  last_step, source_problems, destination_problems, is_empty, check_route, is_bridge, position_of,
  burned, submitted_state,
}

-- What a bundle's route is: both chains are routes of 1Tx's with the bundle's domains, and the last
-- step of the burn goes to the source chain's TokenMessenger.
pub record IsRoute (chain : ℕ → Option ChainConfig) (bundle : TxBundle) (steps : List TxStep)
    : Type 0 where
  pub bridge : BundleBridge
  pub source : ChainConfig
  pub destination : ChainConfig
  pub step : TxStep
  pub bridges : bundle.bridge ≡ some bridge
  pub source_route : chain bundle.chain_id ≡ some source
  pub destination_route : chain bridge.to_chain_id ≡ some destination
  pub burns_last : last_step steps ≡ ok step
  pub source_domain : source.cctp_domain ≡ bridge.source_domain
  pub messenger : same_text source.token_messenger step.to ≡ true
  pub destination_domain : destination.cctp_domain ≡ bridge.destination_domain

is_empty-append :
    (xs ys : List String) → is_empty (xs ++ ys) ≡ true → (is_empty xs ≡ true) × (is_empty ys ≡ true)
is_empty-append [] ys h = (refl, h)
is_empty-append (x ∷ xs) ys h = absurd (let z = h in cc)

source_problems-none :
    (o : Option ChainConfig) (bridge : BundleBridge) (steps : List TxStep) (ps : List String)
    → source_problems o bridge steps ≡ ok ps
    → is_empty ps ≡ true
    → (c : ChainConfig) × (step : TxStep) × (o ≡ some c)
      × (last_step steps ≡ ok step)
      × (c.cctp_domain ≡ bridge.source_domain)
      × (same_text c.token_messenger step.to ≡ true)
unfolding source_problems
source_problems-none none bridge steps ps h k = absurd (ground arith)
source_problems-none (some c) bridge steps ps h k =
    let (step, l, x) = >>=-eq-ok (last_step steps) _ h in
    let same : is_empty (
          failures (
            ("source domain", c.cctp_domain == bridge.source_domain)
            ∷ ("source TokenMessenger", same_text c.token_messenger step.to)
            ∷ []))
        ≡ true =
      ap is_empty (ok-injective x) ∙ k in
    (c, step, refl, l, ==→eq _ _ (ground arith), ground arith)

destination_problems-none :
    (o : Option ChainConfig) (bridge : BundleBridge)
    → is_empty (destination_problems o bridge) ≡ true
    → (c : ChainConfig) × (o ≡ some c) × (c.cctp_domain ≡ bridge.destination_domain)
unfolding destination_problems
destination_problems-none none bridge h = absurd (let z = h in cc)
destination_problems-none (some c) bridge h = (c, refl, ==→eq _ _ (ground arith))

-- A burn that passes the route check goes through 1Tx's CCTP route: both chains are routed, with
-- the domains that the bundle names, and its last step calls the source chain's TokenMessenger.
pub check_route-IsRoute :
    (chain : ℕ → Option ChainConfig) (bundle : TxBundle) (steps : List TxStep)
    → check_route chain bundle steps ≡ ok tt
    → IsRoute chain bundle steps
unfolding check_route
check_route-IsRoute chain bundle steps h =
    let (b, e, x) = >>=-eq-ok (assert_some bundle.bridge) _ h in
    let (ps, p, y) = >>=-eq-ok (source_problems (chain bundle.chain_id) b steps) _ x in
    let (f, g) =
      is_empty-append ps (destination_problems (chain b.to_chain_id) b) (guard-eq-ok _ _ y) in
    let (c, step, s1, s2, s3, s4) = source_problems-none (chain bundle.chain_id) b steps ps p f in
    let (d, d1, d2) = destination_problems-none (chain b.to_chain_id) b g in
    record {
      bridge = b;
      source = c;
      destination = d;
      step = step;
      bridges = ground arith;
      source_route = s1;
      destination_route = d1;
      burns_last = s2;
      source_domain = s3;
      messenger = s4;
      destination_domain = d2;
    }

-- The burn that an id stands at.
abbrev pub StandsAt : String → List TxBundle → ℕ → Type 0
StandsAt id bs i = (b : TxBundle) × (get_elem? bs i ≡ some b) × (b.bundle_id ≡ id) × (i < length bs)

position_of-StandsAt :
    (id : String) (bs : List TxBundle) (j : ℕ) (item : TxBundle)
    → get_elem? bs j ≡ some item
    → item.bundle_id ≡ id
    → (i : ℕ) × (position_of id bs ≡ ok i) × StandsAt id bs i
unfolding position_of
position_of-StandsAt id [] j item h e = absurd (let z = h in cc)
position_of-StandsAt id (b ∷ bs) zero item h e =
    let p = (eq_iff b.bundle_id id).1 (ap (λ (x : TxBundle). x.bundle_id) (some-inj h) ∙ e) in
    (0, rw p refl, (b, refl, (eq_iff _ _).0 p, omega arith))
position_of-StandsAt id (b ∷ bs) (suc k) item h e = elim (Bool-cases (str_eq b.bundle_id id)) [
  | inl p ↦ (0, rw p refl, (b, refl, (eq_iff _ _).0 p, omega arith))
  | inr p ↦
      let (i, q, (c, g, s, l)) = position_of-StandsAt id bs k item h e in
      (suc i, rw (p, q) refl, (c, g, s, omega arith))
]

-- A burn that is among an operation's bundles has a record once the operation went out, and the
-- record's position in it is that of a burn of the same bundle, below the number of its burns.
pub submitted_state-StandsAt :
    (s : BridgeState) (item : TxBundle) (bundles : List TxBundle) (receipt : Option Receipt) (j : ℕ)
    → get_elem? (filter is_bridge bundles) j ≡ some item
    → (t : BridgeState) × (submitted_state s item bundles receipt ≡ ok t)
      × (t.status ≡ source_submitted)
      × StandsAt item.bundle_id (filter is_bridge bundles) t.burn_index
      × (t.burns_in_operation ≡ length (filter is_bridge bundles))
unfolding submitted_state
submitted_state-StandsAt s item bundles receipt j h =
    let (i, q, at) = position_of-StandsAt item.bundle_id (filter is_bridge bundles) j item h refl in
    (burned s item i (length (filter is_bridge bundles)) receipt, rw q refl, refl, at, refl)
