-- ===== src/Calldata/Requests.antt =====
-- exec/calldata.py: what a requested bundle and a rebuilt one are.
use open_allocator.Base.{
  ℕ, ◌≡◌, refl, ◌∙◌, ap, subst, Bool, true, false, Option, none, some, List, [], ◌∷◌, map, length,
  All, all, seq_eq→eq, ==→eq, ◌==◌, eq_iff, some-inj, &&-left, &&-right, ltb, leb, ◌-◌,
  if◌then◌else◌,
}
use open_allocator.Base.Text.{Text, codes, casefold}
use open_allocator.Base.Outcome.{
  ok, err, >>=-eq-ok, >>-eq-ok, guard>>-eq-ok, guard-eq-ok, ok-injective,
}
use open_allocator.Bundle.{TxBundle, DigestPayload, bundle_digest}
use open_allocator.Cctp.{TxStep, same_text}
use open_allocator.Execution.{PlannedBundle, range_from}
use open_allocator.Execution.Session.{needs_refresh}
use open_allocator.Calldata.Checks.{
  Checked, is_nonempty, check_bundle_chain, consistent_response, valid_query,
  ensure_calldata_lifetime, validate_instrument_calldata, ensure_deposit_token, min_ttl_seconds,
}
use open_allocator.Calldata.{
  mismatch, bad_response, expired, expiring, InstrumentCalldataQuery, CalldataCall,
  BundleSimulation, InstrumentCalldataResponse, CalldataConfig, Client, DepositToken, step_of,
  bundle_steps, bundle_id, plan_bundle, check_token, BundleRequest, request_bundle,
}

-- The same text up to the case of its letters.
abbrev pub SameText : Text → Text → Type 0
SameText a b = casefold a ≡ casefold b

pub same_text-SameText : (a b : Text) → same_text a b ≡ true → SameText a b
same_text-SameText a b h = seq_eq→eq (casefold a) (casefold b) h

-- A bundle outlives the minimum exactly as the execution asks before it signs.
pub lifetime-needs_refresh :
    (bundle : TxBundle) (min_ttl now : ℕ)
    → ensure_calldata_lifetime bundle.expires_at min_ttl now ≡ ok tt
    → needs_refresh bundle min_ttl now ≡ false
unfolding ensure_calldata_lifetime needs_refresh
lifetime-needs_refresh bundle min_ttl now h = by_expiry bundle.expires_at h
  where
    by_tests :
        (late soon : Bool)
        → ◌≡◌ {A = Checked}
            (if late then err expired else if soon then err expiring else ok tt)
            (ok tt)
        → (if late then true else soon) ≡ false
    by_tests true soon k = absurd (let p = k in cc)
    by_tests false true k = absurd (let p = k in cc)
    by_tests false false k = refl

    by_expiry :
        (expiry : Option ℕ)
        → ensure_calldata_lifetime expiry min_ttl now ≡ ok tt
        → ◌≡◌ {A = Bool}
            (elim expiry [
              | none ↦ false
              | some t ↦ if leb t now then true else ltb (t - now) min_ttl
            ])
            false
    by_expiry none k = refl
    by_expiry (some t) k = by_tests (leb t now) (ltb (t - now) min_ttl) k

pub all_on_chain :
    (chain_id : ℕ) (calls : List CalldataCall)
    → all (λ (call : CalldataCall). call.chain_id == chain_id) calls ≡ true
    → All (λ (step : TxStep). step.chain_id ≡ chain_id) (map step_of calls)
all_on_chain chain_id [] h = tt
all_on_chain chain_id (call ∷ calls) h = (
  ==→eq call.chain_id chain_id (&&-left (call.chain_id == chain_id) _ h),
  all_on_chain chain_id calls (&&-right (call.chain_id == chain_id) _ h),
)

pub check_bundle_chain-OnChain :
    (calls : List CalldataCall) (chain_id : ℕ) (simulation : BundleSimulation) (quote_block : ℕ)
    → check_bundle_chain calls chain_id simulation quote_block ≡ ok tt
    → All (λ (step : TxStep). step.chain_id ≡ chain_id) (map step_of calls)
unfolding check_bundle_chain
check_bundle_chain-OnChain calls chain_id simulation quote_block h =
    all_on_chain chain_id calls (guard>>-eq-ok _ (bad_response "chain") _ h).0

-- What a checked answer has: calls, all of them on its chain.
consistent_response-IsConsistent :
    (answer response : InstrumentCalldataResponse)
    → consistent_response answer ≡ ok response
    → (answer ≡ response)
      × (is_nonempty response.calls ≡ true)
      × All (λ (step : TxStep). step.chain_id ≡ response.chain_id) (map step_of response.calls)
unfolding consistent_response
consistent_response-IsConsistent answer response h =
    let (calls, h1) = guard>>-eq-ok _ (bad_response "calls") _ h in
    let (chain, h2) =
      >>-eq-ok
        (check_bundle_chain answer.calls answer.chain_id answer.simulation answer.quote_block) _
        h1 in
    let (_, h3) = guard>>-eq-ok _ (bad_response "amountIn=max") _ h2 in
    let same = ok-injective h3 in
    subst
      (λ (r : InstrumentCalldataResponse).
        (answer ≡ r)
        × (is_nonempty r.calls ≡ true)
        × All (λ (step : TxStep). step.chain_id ≡ r.chain_id) (map step_of r.calls))
      same
      (
        refl,
        calls,
        check_bundle_chain-OnChain answer.calls answer.chain_id answer.simulation answer.quote_block
            chain,
      )

module _ (client : Client) (sha256 : DigestPayload → Text) (config : CalldataConfig) where
  abbrev pub query_of : BundleRequest → InstrumentCalldataQuery
  query_of request = record {
    action = request.action;
    account = request.account;
    amount = request.amount;
    slippage_bps = config.slippage_bps;
  }

  -- A planned bundle is the one that was requested: the instrument and the account up to case, the
  -- action, the chain, the amount and the leg; its steps are the calls of the answer in their order,
  -- at least one, all of them on the chain and in their place in the plan; the digest covers them;
  -- it lives long enough to be signed; and it spends the token that the amount was computed in.
  pub record IsRequested (request : BundleRequest) (now : ℕ) (item : PlannedBundle) : Type 0 where
    pub instrument : SameText (codes item.bundle.instrument_id) (codes request.instrument_id)
    pub account : SameText item.bundle.account request.account
    pub action : item.bundle.action ≡ request.action
    pub chain_id : item.bundle.chain_id ≡ request.chain_id
    pub amount : item.bundle.amount ≡ request.amount
    pub leg_index : item.bundle.leg_index ≡ request.leg_index
    pub no_loop : item.bundle.is_loop ≡ false
    pub bundle_id :
        item.bundle.bundle_id ≡ bundle_id request.leg_index item.bundle.instrument_id request.action
    pub answer :
        (response : InstrumentCalldataResponse) × (client.instrument_calldata request.instrument_id
            (query_of request)
          ≡ ok response)
        × (item.steps ≡ map step_of response.calls)
    pub steps : is_nonempty item.steps ≡ true
    pub on_chain : All (λ (step : TxStep). step.chain_id ≡ request.chain_id) item.steps
    pub places : item.bundle.step_indexes ≡ range_from request.first_step_index (length item.steps)
    pub digest :
        item.bundle.digest
        ≡ bundle_digest sha256 item.bundle.instrument_id item.bundle.action item.bundle.account
            item.bundle.chain_id item.bundle.amount item.steps item.bundle.quote_block
            item.bundle.expires_at none
    pub lifetime : needs_refresh item.bundle (min_ttl_seconds config) now ≡ false
    pub token :
        (token : DepositToken)
        → request.token ≡ some token
        → SameText item.bundle.token_in.address token.address
          × (item.bundle.token_in.decimals ≡ token.decimals)

  is_nonempty-map :
      (calls : List CalldataCall)
      → is_nonempty calls ≡ true
      → is_nonempty (map step_of calls) ≡ true
  is_nonempty-map [] h = absurd (let p = h in cc)
  is_nonempty-map (call ∷ calls) h = refl

  check_token-SameText :
      (asked : Option DepositToken) (response : InstrumentCalldataResponse)
      → check_token asked response ≡ ok tt
      → (token : DepositToken) → asked ≡ some token
      → SameText response.token_in.address token.address
        × (response.token_in.decimals ≡ token.decimals)
  unfolding ensure_deposit_token
  check_token-SameText none response h token q = absurd (let p = q in cc)
  check_token-SameText (some t) response h token q =
      let (a, h1) = guard>>-eq-ok _ (mismatch "tokenIn.address") _ h in
      let b = guard-eq-ok _ (mismatch "tokenIn.decimals") h1 in
      subst
        (λ (z : DepositToken).
          SameText response.token_in.address z.address × (response.token_in.decimals ≡ z.decimals))
        (some-inj q)
        (
          same_text-SameText response.token_in.address t.address a,
          ==→eq response.token_in.decimals t.decimals b,
        )

  -- A bundle that a request gives is the one that was requested: the instrument and the account up
  -- to case, the action, the chain, the amount and the leg. Its steps are the calls of the answer in
  -- their order, at least one, all on the chain and in their place in the plan; the digest covers
  -- them; it lives long enough to be signed; and it spends the token that the amount was computed
  -- in.
  pub request_bundle-IsRequested :
      (request : BundleRequest) (now : ℕ) (item : PlannedBundle)
      → request_bundle client sha256 config request now ≡ ok item
      → IsRequested request now item
  unfolding request_bundle validate_instrument_calldata plan_bundle bundle_steps
  request_bundle-IsRequested request now item h =
      let (_, h1) = >>-eq-ok (valid_query (query_of request)) _ h in
      let (answer, e, h2) =
        >>=-eq-ok (client.instrument_calldata request.instrument_id (query_of request)) _ h1 in
      let (response, f, h3) = >>=-eq-ok (consistent_response answer) _ h2 in
      let (same, calls, chain) = consistent_response-IsConsistent answer response f in
      let (valid, h4) =
        >>-eq-ok
          (validate_instrument_calldata response request.instrument_id request.account
            request.action request.chain_id request.amount (min_ttl_seconds config) now)
          _ h3 in
      let (token, h5) = >>-eq-ok (check_token request.token response) _ h4 in
      let (a, v1) = guard>>-eq-ok _ (mismatch "instrumentId") _ valid in
      let (b, v2) = guard>>-eq-ok _ (mismatch "account") _ v1 in
      let (c, v3) = guard>>-eq-ok _ (mismatch "action") _ v2 in
      let (d, v4) = guard>>-eq-ok _ (mismatch "chainId") _ v3 in
      let (g, lifetime) = guard>>-eq-ok _ (mismatch "amountIn") _ v4 in
      let chain_id = ==→eq response.chain_id request.chain_id d in
      let action = (eq_iff response.action request.action).0 c in
      let plan = plan_bundle sha256 response request.leg_index request.first_step_index in
      subst (IsRequested request now) (ok-injective h5) (record {
        instrument =
            same_text-SameText (codes response.instrument_id) (codes request.instrument_id) a;
        account = same_text-SameText response.account request.account b;
        action = action;
        chain_id = chain_id;
        amount = ==→eq response.amount_in request.amount g;
        leg_index = refl;
        no_loop = refl;
        bundle_id = ap (bundle_id request.leg_index response.instrument_id) action;
        answer = (response, e ∙ ap ok same, refl);
        steps = is_nonempty-map response.calls calls;
        on_chain =
            subst (λ n. All (λ (step : TxStep). step.chain_id ≡ n) (map step_of response.calls))
              chain_id chain;
        places = refl;
        digest = refl;
        lifetime = lifetime-needs_refresh plan.bundle (min_ttl_seconds config) now lifetime;
        token = check_token-SameText request.token response token;
      })
