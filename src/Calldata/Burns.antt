-- ===== src/Calldata/Burns.antt =====
-- exec/calldata.py, `request_bridge_bundle`: what the calls of a requested burn do, and
-- exec/bridge.py: that the record of its leg says the same.
use open_allocator.Base.{
  ℕ, ◌≡◌, refl, sym, ◌∙◌, ap, subst, Bool, true, false, Option, none, some, String, List, map, All,
  ==→eq, some-inj,
}
use open_allocator.Base.Text.{Text, casefold}
use open_allocator.Base.Outcome.{
  Outcome, ok, err, >>=-eq-ok, >>-eq-ok, guard>>-eq-ok, guard-eq-ok, ok-injective,
}
use open_allocator.Bundle.{TxBundle, BundleBridge, DigestPayload}
use open_allocator.Cctp.{
  Error, invalid, index_error, assertion_error, plan_error, other, TxStep, BurnCall, Evm,
}
use open_allocator.Cctp.Select.{decode_burn_steps}
use open_allocator.Execution.{PlannedBundle}
use open_allocator.Bridge.{BridgeState}
use open_allocator.Bridge.Planning.{is_bridge, planned_record, planned_if, planned_state}
use open_allocator.Calldata.Checks.{
  check_bundle_chain, consistent_bridge_response, valid_bridge_query, validate_bridge_calldata,
}
use open_allocator.Calldata.Requests.{SameText, same_text-SameText, check_bundle_chain-OnChain}
use open_allocator.Calldata.Bridging.{
  decoded_burn, check_burn_call, bridge_of, plan_bridge_bundle, BridgeRequest,
  request_bridge_bundle,
}
use open_allocator.Calldata.{
  mismatch, bad_response, BridgeCalldataQuery, BridgeCalldataResponse, CalldataConfig, Client,
  step_of,
}

-- The burn that the steps of a bundle make: of the requested amount of the requested token, to the
-- requesting account, which alone may redeem it, on the requested chain; within the fee and at the
-- finality that the bundle names.
pub record IsBurnOf (evm : Evm) (request : BridgeRequest) (item : PlannedBundle) (burn : BurnCall)
    : Type 0 where
  pub decodes : decode_burn_steps evm item.steps ≡ ok burn
  pub amount : burn.amount_raw ≡ request.amount
  pub token : SameText burn.burn_token request.token.address
  pub recipient : SameText burn.mint_recipient request.account
  pub caller : SameText burn.destination_caller request.account
  pub on_chain : All (λ (step : TxStep). step.chain_id ≡ request.from_chain_id) item.steps
  pub chain_id : item.bundle.chain_id ≡ request.from_chain_id
  pub bundle_amount : item.bundle.amount ≡ request.amount
  pub account : SameText item.bundle.account request.account
  pub bridge :
      (b : BundleBridge) × (item.bundle.bridge ≡ some b)
      × (b.to_chain_id ≡ request.to_chain_id)
      × (burn.destination_domain ≡ b.destination_domain)
      × (burn.max_fee_raw ≡ b.max_fee)
      × (burn.min_finality_threshold ≡ b.min_finality_threshold)

decoded_burn-eq-ok :
    (call : Outcome Error BurnCall) (burn : BurnCall) → decoded_burn call ≡ ok burn → call ≡ ok burn
decoded_burn-eq-ok (ok b) burn h = ap ok (ok-injective h)
decoded_burn-eq-ok (err (invalid reason)) burn h = absurd (let p = h in cc)
decoded_burn-eq-ok (err index_error) burn h = absurd (let p = h in cc)
decoded_burn-eq-ok (err assertion_error) burn h = absurd (let p = h in cc)
decoded_burn-eq-ok (err (plan_error text)) burn h = absurd (let p = h in cc)
decoded_burn-eq-ok (err (other text)) burn h = absurd (let p = h in cc)

consistent_bridge_response-OnChain :
    (answer response : BridgeCalldataResponse)
    → consistent_bridge_response answer ≡ ok response
    → (answer ≡ response)
      × All (λ (step : TxStep). step.chain_id ≡ response.from_chain_id) (map step_of response.calls)
unfolding consistent_bridge_response
consistent_bridge_response-OnChain answer response h =
    let (_, h1) = guard>>-eq-ok _ (bad_response "amount") _ h in
    let (_, h2) = guard>>-eq-ok _ (bad_response "threshold") _ h1 in
    let (_, h3) = guard>>-eq-ok _ (bad_response "calls") _ h2 in
    let (chain, h4) =
      >>-eq-ok
        (check_bundle_chain answer.calls answer.from_chain_id answer.simulation answer.quote_block)
        _ h3 in
    let (_, h5) = guard>>-eq-ok _ (bad_response "chains") _ h4 in
    let (_, h6) = guard>>-eq-ok _ (bad_response "fast") _ h5 in
    subst
      (λ (r : BridgeCalldataResponse).
        (answer ≡ r)
        × All (λ (step : TxStep). step.chain_id ≡ r.from_chain_id) (map step_of r.calls))
      (ok-injective h6)
      (
        refl,
        check_bundle_chain-OnChain answer.calls answer.from_chain_id answer.simulation
            answer.quote_block chain,
      )

module _ (evm : Evm) (client : Client) (sha256 : DigestPayload → Text) (config : CalldataConfig)
    (request : BridgeRequest) where
  query : BridgeCalldataQuery
  query = record {
    from_chain_id = request.from_chain_id;
    to_chain_id = request.to_chain_id;
    amount = request.amount;
    account = request.account;
    fast = config.fast_transfer;
  }

  -- The steps of a bundle that is planned for a bridged leg decode to a burn of the requested amount
  -- of the requested token, to the requesting account, which alone may redeem it. They are on the
  -- source chain, and the domain, the fee and the finality of the burn are those that the bundle
  -- names.
  pub request_bridge_bundle-IsBurnOf :
      (item : PlannedBundle)
      → request_bridge_bundle evm client sha256 config request ≡ ok item
      → (burn : BurnCall) × IsBurnOf evm request item burn
  unfolding request_bridge_bundle validate_bridge_calldata check_burn_call plan_bridge_bundle query
  request_bridge_bundle-IsBurnOf item h =
      let (_, h1) = >>-eq-ok (valid_bridge_query query) _ h in
      let (answer, e, h2) = >>=-eq-ok (client.bridge_calldata query) _ h1 in
      let (response, f, h3) = >>=-eq-ok (consistent_bridge_response answer) _ h2 in
      let (_, on_chain) = consistent_bridge_response-OnChain answer response f in
      let (valid, h4) =
        >>-eq-ok
          (validate_bridge_calldata response request.from_chain_id request.to_chain_id
            request.account request.amount config.fast_transfer)
          _ h3 in
      let (token, h5) = guard>>-eq-ok _ (mismatch "token") _ h4 in
      let (burn, g, h6) =
        >>=-eq-ok (decoded_burn (decode_burn_steps evm (map step_of response.calls))) _ h5 in
      let (checked, h7) = >>-eq-ok (check_burn_call burn response request.account) _ h6 in
      let (a, v1) = guard>>-eq-ok _ (mismatch "fromChainId") _ valid in
      let (b, v2) = guard>>-eq-ok _ (mismatch "toChainId") _ v1 in
      let (c, v3) = guard>>-eq-ok _ (mismatch "account") _ v2 in
      let (d, v4) = guard>>-eq-ok _ (mismatch "amount") _ v3 in
      let (i, c1) = guard>>-eq-ok _ (mismatch "burn amount") _ checked in
      let (j, c2) = guard>>-eq-ok _ (mismatch "burn token") _ c1 in
      let (k, c3) = guard>>-eq-ok _ (mismatch "mintRecipient") _ c2 in
      let (l, c4) = guard>>-eq-ok _ (mismatch "destinationCaller") _ c3 in
      let (m, c5) = guard>>-eq-ok _ (mismatch "destinationDomain") _ c4 in
      let (n, c6) = guard>>-eq-ok _ (mismatch "maxFee") _ c5 in
      let o = guard-eq-ok _ (mismatch "minFinalityThreshold") c6 in
      let from = ==→eq response.from_chain_id request.from_chain_id a in
      let amount = ==→eq response.amount request.amount d in
      (
        burn,
        subst (λ z. IsBurnOf evm request z burn) (ok-injective h7)
            (record {
              decodes =
                  decoded_burn-eq-ok (decode_burn_steps evm (map step_of response.calls)) burn g;
              amount = ==→eq burn.amount_raw response.amount i ∙ amount;
              token =
                  same_text-SameText burn.burn_token response.token j
                  ∙ same_text-SameText response.token request.token.address token;
              recipient = same_text-SameText burn.mint_recipient request.account k;
              caller = same_text-SameText burn.destination_caller request.account l;
              on_chain =
                  subst
                    (λ z. All (λ (step : TxStep). step.chain_id ≡ z) (map step_of response.calls))
                    from on_chain;
              chain_id = from;
              bundle_amount = amount;
              account = same_text-SameText response.account request.account c;
              bridge = (
                bridge_of response,
                refl,
                ==→eq response.to_chain_id request.to_chain_id b,
                ==→eq burn.destination_domain response.destination_domain m,
                ==→eq burn.max_fee_raw response.max_fee n,
                ==→eq burn.min_finality_threshold response.min_finality_threshold o,
              );
            }),
      )

-- The record of a leg names the burn: its amount, fee, finality, domain, chains and account.
pub record IsRecordOf (s : BridgeState) (request : BridgeRequest) (burn : BurnCall) : Type 0 where
  pub burn_amount_raw : s.burn_amount_raw ≡ burn.amount_raw
  pub max_fee_raw : s.max_fee_raw ≡ burn.max_fee_raw
  pub min_finality_threshold : s.min_finality_threshold ≡ burn.min_finality_threshold
  pub destination_domain : s.destination_domain ≡ burn.destination_domain
  pub account : SameText s.account burn.mint_recipient
  pub source_chain_id : s.source_chain_id ≡ request.from_chain_id
  pub destination_chain_id : s.destination_chain_id ≡ request.to_chain_id

abbrev pub IsPlanned : TxBundle → BundleBridge → BridgeState → Type 0
IsPlanned bundle b s =
    (s.burn_amount_raw ≡ bundle.amount)
    × (s.max_fee_raw ≡ b.max_fee)
    × (s.min_finality_threshold ≡ b.min_finality_threshold)
    × (s.destination_domain ≡ b.destination_domain)
    × (s.account ≡ bundle.account)
    × (s.source_chain_id ≡ bundle.chain_id)
    × (s.destination_chain_id ≡ b.to_chain_id)

module _ (leg_id : ℕ → String → String) (bundle : TxBundle) (messenger : Text) (wanted : ℕ) where
  planned_state-IsPlanned :
      (s : BridgeState) (b : BundleBridge)
      → bundle.bridge ≡ some b
      → planned_state leg_id bundle messenger wanted ≡ ok s
      → IsPlanned bundle b s
  unfolding planned_state
  planned_state-IsPlanned s b e h = by_parts (is_bridge bundle) bundle.bridge e h
    where
      by_parts :
          (is_burn : Bool) (o : Option BundleBridge)
          → o ≡ some b
          → planned_if leg_id bundle messenger wanted is_burn o ≡ ok s
          → IsPlanned bundle b s
      by_parts false o q k = absurd (let p = k in cc)
      by_parts true none q k = absurd (let p = q in cc)
      by_parts true (some c) q k =
          let same = ok-injective k in
          subst (IsPlanned bundle b) same (
            subst (λ z. IsPlanned bundle z (planned_record leg_id bundle messenger wanted c))
              (some-inj q) (refl, refl, refl, refl, refl, refl, refl))

  -- Where a bundle was planned for a bridged leg and a record is made for it, the steps decode to a
  -- burn of which the record has the amount, the maximum fee, the finality and the destination
  -- domain, and the account up to case, between the chains that were requested.
  pub planned_state-IsRecordOf :
      (evm : Evm) (client : Client) (sha256 : DigestPayload → Text) (config : CalldataConfig)
      (request : BridgeRequest) (steps : List TxStep) (s : BridgeState)
      → request_bridge_bundle evm client sha256 config request
        ≡ ok (record { bundle = bundle; steps = steps })
      → planned_state leg_id bundle messenger wanted ≡ ok s
      → (burn : BurnCall) × (decode_burn_steps evm steps ≡ ok burn) × IsRecordOf s request burn
  planned_state-IsRecordOf evm client sha256 config request steps s h k =
      let (burn, r) = request_bridge_bundle-IsBurnOf evm client sha256 config request _ h in
      let (b, e, to, domain, fee, threshold) = r.bridge in
      let (amount, max_fee, finality, destination, account, source, target) =
        planned_state-IsPlanned s b e k in
      (
        burn,
        r.decodes,
        record {
          burn_amount_raw = amount ∙ r.bundle_amount ∙ sym r.amount;
          max_fee_raw = max_fee ∙ sym fee;
          min_finality_threshold = finality ∙ sym threshold;
          destination_domain = destination ∙ sym domain;
          account = ap casefold account ∙ r.account ∙ sym r.recipient;
          source_chain_id = source ∙ r.chain_id;
          destination_chain_id = target ∙ to;
        },
      )
