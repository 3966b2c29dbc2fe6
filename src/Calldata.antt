-- ===== src/Calldata.antt =====
-- exec/calldata.py: the plan of one bundle, from its request to its steps. `sha256` is the digest of
-- core/types.py's payload.
use open_allocator.Base.{
  ℕ, Bool, true, false, ◌||◌, Option, none, some, String, List, map, if◌then◌else◌, str_eq, length,
}
use Prim.Native.String.{◌++◌ as append}
use open_allocator.Base.Decimal.{str}
use open_allocator.Base.Text.{Text}
use open_allocator.Base.Outcome.{Outcome, ok, err, ◌>>=◌, ◌>>◌}
use open_allocator.Bundle.{TxBundle, DigestPayload, bundle_digest}
use open_allocator.Cctp.{TxStep}
use open_allocator.Execution.{PlannedBundle, range_from}
pub mod Types
pub mod Checks
pub mod Bridging
pub mod Requests
pub mod Rebuilding
pub mod Burns
mod Tests
pub use Types.*
use open_allocator.Calldata.Checks.{
  Checked, consistent_response, valid_query, validate_instrument_calldata, ensure_deposit_token,
  min_ttl_seconds,
}

-- A call as a step of the plan.
abbrev pub step_of : CalldataCall → TxStep
step_of call = record {
  to = call.to;
  payload = call.payload;
  value = call.value;
  chain_id = call.chain_id;
  kind = call.type_name;
}

unfoldable pub bundle_steps : InstrumentCalldataResponse → List TxStep
bundle_steps response = map step_of response.calls

-- `leg:<index>:<instrument>:<action>`
unfoldable pub bundle_id : ℕ → String → String → String
bundle_id leg_index instrument_id action =
    append (append (append (append (append "leg:" (str leg_index)) ":") instrument_id) ":") action

unfoldable pub plan_bundle :
    (DigestPayload → Text) → InstrumentCalldataResponse → ℕ → ℕ → PlannedBundle
unfolding bundle_steps bundle_id
plan_bundle sha256 response leg_index first_step_index =
    let steps = bundle_steps response in
    record {
      steps = steps;
      bundle = record {
        bundle_id = bundle_id leg_index response.instrument_id response.action;
        digest =
            bundle_digest sha256 response.instrument_id response.action response.account
              response.chain_id response.amount_in steps response.quote_block response.expires_at
              none;
        leg_index = leg_index;
        instrument_id = response.instrument_id;
        action = response.action;
        account = response.account;
        chain_id = response.chain_id;
        step_indexes = range_from first_step_index (length steps);
        source = "1tx-calldata";
        endpoint = "GET /instruments/:instrumentId/calldata";
        amount = response.amount_in;
        token_in = response.token_in;
        token_out = response.token_out;
        quote_block = response.quote_block;
        expires_at = response.expires_at;
        requires = response.requires;
        leftovers = response.leftovers;
        expected_out = response.expected_out;
        min_out = response.min_out;
        protocol_gas = some response.simulation.gas_used;
        simulated_out = some response.simulation.token_out_delta;
        simulation_scope = some response.simulation.scope;
        simulation_engine = some response.simulation.engine;
        bridge = none;
        is_loop = false;
      };
    }

abbrev check_token : Option DepositToken → InstrumentCalldataResponse → Checked
check_token none response = ok tt
check_token (some token) response = ensure_deposit_token response.token_in token

-- What a request names.
pub record BundleRequest : Type 0 where
  pub instrument_id : String
  pub action : String
  pub account : Text
  pub chain_id : ℕ
  pub amount : ℕ
  pub leg_index : ℕ
  pub first_step_index : ℕ
  pub token : Option DepositToken

module _ (client : Client) (sha256 : DigestPayload → Text) (config : CalldataConfig) where
  unfoldable pub request_bundle : BundleRequest → ℕ → Outcome CalldataError PlannedBundle
  unfolding valid_query consistent_response validate_instrument_calldata
  request_bundle request now = do
    let query : InstrumentCalldataQuery = record {
      action = request.action;
      account = request.account;
      amount = request.amount;
      slippage_bps = config.slippage_bps;
    }
    valid_query query
    answer ← client.instrument_calldata request.instrument_id query
    response ← consistent_response answer
    validate_instrument_calldata response request.instrument_id request.account request.action
        request.chain_id request.amount (min_ttl_seconds config) now
    check_token request.token response
    ok (plan_bundle sha256 response request.leg_index request.first_step_index)

  -- The token that a rebuilt deposit must spend.
  abbrev pub rebuilt_token : TxBundle → Option DepositToken
  rebuilt_token bundle =
      if str_eq bundle.action "deposit"
      then some (record {
        chain_id = bundle.chain_id;
        address = bundle.token_in.address;
        decimals = bundle.token_in.decimals;
      })
      else none

  -- `refresh_bundle`, over `loops.refresh_loop_bundle`
  unfoldable pub refresh_bundle :
      (TxBundle → ℕ → Outcome CalldataError PlannedBundle)
      → TxBundle
      → ℕ
      → Outcome CalldataError PlannedBundle
  unfolding request_bundle
  refresh_bundle refresh_loop bundle now =
      if bundle.is_loop
      then refresh_loop bundle now
      else if str_eq bundle.action "deposit" || str_eq bundle.action "withdraw"
      then request_bundle
          (record {
            instrument_id = bundle.instrument_id;
            action = bundle.action;
            account = bundle.account;
            chain_id = bundle.chain_id;
            amount = bundle.amount;
            leg_index = bundle.leg_index;
            first_step_index = 0;
            token = rebuilt_token bundle;
          })
          now
      else err (not_rebuilt_here bundle.action)
