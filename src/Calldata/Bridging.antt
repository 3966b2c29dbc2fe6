-- ===== src/Calldata/Bridging.antt =====
-- exec/calldata.py: the bundle of a CCTP burn, which must do what the response says, and the bundle
-- that redeems it.
use open_allocator.Base.{ℕ, false, none, some, String, [], ◌∷◌, map, str_eq, length, ltb}
use open_allocator.Base.Text.{Text}
use open_allocator.Base.Outcome.{Outcome, ok, err, guard, ◌>>=◌, ◌>>◌}
use open_allocator.Bundle.{BundleToken, BundleBridge, TxBundle, DigestPayload, bundle_digest}
use open_allocator.Cctp.{Error, invalid, TxStep, BurnCall, Evm}
use open_allocator.Cctp.Select.{decode_burn_steps}
use open_allocator.Execution.{PlannedBundle, range_from}
use open_allocator.Calldata.Checks.{
  Checked, require_same, require_equal, consistent_bridge_response, valid_bridge_query,
  validate_bridge_calldata,
}
use open_allocator.Calldata.{
  CalldataError, undecodable_burn, wrong_receive_step, nothing_minted, from_cctp,
  BridgeCalldataQuery, BridgeCalldataResponse, CalldataConfig, Client, DepositToken, step_of,
  bundle_id,
}

-- `except cctp.CctpValidationError`; what else the decoding raises goes on.
abbrev pub decoded_burn : Outcome Error BurnCall → Outcome CalldataError BurnCall
decoded_burn (ok burn) = ok burn
decoded_burn (err (invalid reason)) = err (undecodable_burn reason)
decoded_burn (err error) = err (from_cctp error)

-- The calls do what the response says they do, to this account.
unfoldable pub check_burn_call : BurnCall → BridgeCalldataResponse → Text → Checked
check_burn_call burn response account = do
  require_equal "burn amount" burn.amount_raw response.amount
  require_same "burn token" burn.burn_token response.token
  require_same "mintRecipient" burn.mint_recipient account
  require_same "destinationCaller" burn.destination_caller account
  require_equal "destinationDomain" burn.destination_domain response.destination_domain
  require_equal "maxFee" burn.max_fee_raw response.max_fee
  require_equal "minFinalityThreshold" burn.min_finality_threshold response.min_finality_threshold

abbrev pub usdc_of : Text → DepositToken → BundleToken
usdc_of address token = record { address = address; symbol = none; decimals = token.decimals }

abbrev pub bridge_of : BridgeCalldataResponse → BundleBridge
bridge_of response = record {
  to_chain_id = response.to_chain_id;
  source_domain = response.source_domain;
  destination_domain = response.destination_domain;
  max_fee = response.max_fee;
  min_finality_threshold = response.min_finality_threshold;
  fast = response.fast;
}

-- The end of `request_bridge_bundle`
unfoldable pub plan_bridge_bundle :
    (DigestPayload → Text) → BridgeCalldataResponse → String → ℕ → DepositToken → PlannedBundle
plan_bridge_bundle sha256 response instrument_id leg_index token =
    let steps = map step_of response.calls in
    let usdc = usdc_of response.token token in
    record {
      steps = steps;
      bundle = record {
        bundle_id = bundle_id leg_index instrument_id "bridge";
        digest =
            bundle_digest sha256 instrument_id "bridge" response.account response.from_chain_id
              response.amount steps response.quote_block none (some (bridge_of response));
        leg_index = leg_index;
        instrument_id = instrument_id;
        action = "bridge";
        account = response.account;
        chain_id = response.from_chain_id;
        step_indexes = range_from 0 (length steps);
        source = "1tx-calldata";
        endpoint = "GET /bridge/calldata";
        amount = response.amount;
        token_in = usdc;
        token_out = usdc;
        quote_block = response.quote_block;
        expires_at = none;
        requires = response.requires;
        leftovers = [];
        expected_out = none;
        min_out = none;
        protocol_gas = some response.simulation.gas_used;
        simulated_out = some response.simulation.token_out_delta;
        simulation_scope = some response.simulation.scope;
        simulation_engine = some response.simulation.engine;
        bridge = some (bridge_of response);
        is_loop = false;
      };
    }

-- What a bridged leg asks for.
pub record BridgeRequest : Type 0 where
  pub instrument_id : String
  pub from_chain_id : ℕ
  pub to_chain_id : ℕ
  pub account : Text
  pub amount : ℕ
  pub leg_index : ℕ
  pub token : DepositToken

unfoldable pub request_bridge_bundle :
    Evm
    → Client
    → (DigestPayload → Text)
    → CalldataConfig
    → BridgeRequest
    → Outcome CalldataError PlannedBundle
unfolding valid_bridge_query consistent_bridge_response validate_bridge_calldata check_burn_call
    plan_bridge_bundle
request_bridge_bundle evm client sha256 config request = do
  let query : BridgeCalldataQuery = record {
    from_chain_id = request.from_chain_id;
    to_chain_id = request.to_chain_id;
    amount = request.amount;
    account = request.account;
    fast = config.fast_transfer;
  }
  valid_bridge_query query
  answer ← client.bridge_calldata query
  response ← consistent_bridge_response answer
  validate_bridge_calldata response request.from_chain_id request.to_chain_id request.account
      request.amount config.fast_transfer
  require_same "token" response.token request.token.address
  burn ← decoded_burn (decode_burn_steps evm (map step_of response.calls))
  check_burn_call burn response request.account
  ok (plan_bridge_bundle sha256 response request.instrument_id request.leg_index request.token)

unfoldable pub receive_bundle :
    (DigestPayload → Text)
    → TxStep
    → ℕ
    → String
    → Text
    → DepositToken
    → ℕ
    → Outcome CalldataError TxBundle
receive_bundle sha256 step leg_index instrument_id account token net_mint_raw = do
  guard (str_eq step.kind "cctp_receive") (wrong_receive_step step.kind)
  guard (ltb 0 net_mint_raw) nothing_minted
  let usdc = usdc_of token.address token
  ok (record {
    bundle_id = bundle_id leg_index instrument_id "cctp_receive";
    digest =
        bundle_digest sha256 instrument_id "cctp_receive" account step.chain_id net_mint_raw
          (step ∷ []) 0 none none;
    leg_index = leg_index;
    instrument_id = instrument_id;
    action = "cctp_receive";
    account = account;
    chain_id = step.chain_id;
    step_indexes = 0 ∷ [];
    source = "open-allocator";
    endpoint = "MessageTransmitterV2.receiveMessage";
    amount = net_mint_raw;
    token_in = usdc;
    token_out = usdc;
    quote_block = 0;
    expires_at = none;
    requires = [];
    leftovers = [];
    expected_out = some net_mint_raw;
    min_out = some net_mint_raw;
    protocol_gas = none;
    simulated_out = none;
    simulation_scope = none;
    simulation_engine = none;
    bridge = none;
    is_loop = false;
  })
