-- ===== src/Calldata/Tests.antt =====
-- A deposit that is requested and rebuilt, and a burn that is requested and recorded.
use open_allocator.Base.{
  ℕ, ◌≡◌, refl, true, none, some, String, [], ◌∷◌, ◌++◌, replicate, take, drop, seq_eq,
}
use open_allocator.Base.Text.{
  Text, Bytes, codes, casefold, to_hex, hex_digit, from_hex, hex_value, is_space,
}
use open_allocator.Base.Outcome.{Outcome, ok, err}
use open_allocator.Bundle.{DigestPayload, TxBundle}
use open_allocator.Cctp.{BurnCall, Evm, to_bytes, hex_text, evm_address}
use open_allocator.Cctp.Select.{decode_burn_steps}
use open_allocator.Execution.{PlannedBundle}
use open_allocator.Bridge.{BridgeState}
use open_allocator.Bridge.Planning.{planned_record, planned_state}
use open_allocator.Base.Equality.{contains}
use open_allocator.Calldata.Checks.{min_ttl_seconds, ensure_deposit_token}
use open_allocator.Calldata.Bridging.{
  BridgeRequest, request_bridge_bundle, bridge_of, plan_bridge_bundle,
}
use open_allocator.Calldata.Requests.{IsRequested, request_bundle-IsRequested}
use open_allocator.Calldata.Rebuilding.{IsRebuilt, refresh_bundle-IsRebuilt}
use open_allocator.Calldata.Burns.{
  IsBurnOf, IsRecordOf, request_bridge_bundle-IsBurnOf, planned_state-IsRecordOf,
}
use open_allocator.Calldata.{
  CalldataError, expiring, from_client, CalldataConfig, Client, InstrumentCalldataResponse,
  BridgeCalldataResponse, BundleRequest, plan_bundle, request_bundle, refresh_bundle,
}

abbrev hash : DigestPayload → Text
hash payload = codes "d"

abbrev config : CalldataConfig
config = record {
  slippage_bps = some 50;
  min_calldata_ttl_seconds = none;
  fast_transfer = true;
  referral_fee_bps = none;
  referral_wallet = none;
}

abbrev response : InstrumentCalldataResponse
response = record {
  instrument_id = "vault";
  chain_id = 1;
  account = codes "0xSafe";
  action = "deposit";
  token_in = record { address = codes "0xUSDC"; symbol = some "USDC"; decimals = 6 };
  token_out = record { address = codes "0xshare"; symbol = none; decimals = 18 };
  amount_in = 100;
  expected_out = some 99;
  min_out = some 98;
  expires_at = some 1030;
  quote_block = 7;
  requires = [];
  leftovers = [];
  calls =
      record {
        to = codes "0xpool";
        payload = codes "0x01";
        value = 0;
        chain_id = 1;
        type_name = "deposit";
      }
      ∷ [];
  simulation = record {
    scope = "protocol_bundle";
    engine = "wallet_neutral_atomic";
    gas_used = 90000;
    quote_block = 7;
    token_out_delta = 99;
  };
}

-- The burn's arguments: 200 units, to domain 6, to the account, at a fee of at most 5.
abbrev account_word : Bytes
account_word = replicate 12 0 ++ replicate 20 17

abbrev account : Text
account = codes "0x" ++ to_hex (replicate 20 17)

abbrev evm : Evm
evm = record {
  checksum = λ t. t;
  keccak = λ b. take 4 b;
  decode_bytes = λ b. none;
  decode_burn = λ b. some (record {
    amount = 200;
    domain = 6;
    recipient = account_word;
    token = codes "0xusdc";
    caller = account_word;
    max_fee = 5;
    threshold = 1000;
  });
  decode_approve = λ b. some (codes "0xmessenger", 200);
}

abbrev burn_response : BridgeCalldataResponse
burn_response = record {
  from_chain_id = 1;
  to_chain_id = 8453;
  source_domain = 0;
  destination_domain = 6;
  account = account;
  amount = 200;
  token = codes "0xUSDC";
  fast = true;
  max_fee = 5;
  min_finality_threshold = 1000;
  quote_block = 7;
  requires = [];
  calls =
      record {
        to = codes "0xusdc";
        payload = codes "0x" ++ to_hex (codes "appr");
        value = 0;
        chain_id = 1;
        type_name = "approve";
      }
      ∷ record {
        to = codes "0xmessenger";
        payload = codes "0x" ++ to_hex (codes "depo");
        value = 0;
        chain_id = 1;
        type_name = "bridge_burn";
      }
      ∷ [];
  simulation = response.simulation;
}

abbrev client : Client
client = record {
  instrument_calldata = λ id query. ok response;
  bridge_calldata = λ query. ok burn_response;
}

abbrev request : BundleRequest
request = record {
  instrument_id = "vault";
  action = "deposit";
  account = codes "0xsafe";
  chain_id = 1;
  amount = 100;
  leg_index = 2;
  first_step_index = 4;
  token = some (record { chain_id = 1; address = codes "0xusdc"; decimals = 6 });
}

abbrev first_bundle : PlannedBundle
first_bundle = plan_bundle hash response 2 4

abbrev fresh_bundle : PlannedBundle
fresh_bundle = plan_bundle hash response 2 0

abbrev no_loop : TxBundle → ℕ → Outcome CalldataError PlannedBundle
no_loop bundle now = err (from_client "no loop")

requested : request_bundle client hash config request 1010 ≡ ok first_bundle
unfolding request_bundle seq_eq casefold min_ttl_seconds ensure_deposit_token
requested = refl

-- 19 seconds are left, one less than the default minimum.
too_late : request_bundle client hash config request 1011 ≡ err expiring
unfolding request_bundle seq_eq casefold min_ttl_seconds
too_late = refl

request_bundle-IsRequested_example : IsRequested client hash config request 1010 first_bundle
request_bundle-IsRequested_example =
    request_bundle-IsRequested client hash config request 1010 first_bundle requested

refresh_passes :
    refresh_bundle client hash config no_loop first_bundle.bundle 1005 ≡ ok fresh_bundle
unfolding refresh_bundle plan_bundle seq_eq casefold min_ttl_seconds ensure_deposit_token
refresh_passes = refl

refresh_bundle-IsRebuilt_example :
    IsRebuilt client hash config request 1005 first_bundle fresh_bundle
refresh_bundle-IsRebuilt_example =
    refresh_bundle-IsRebuilt client hash config no_loop request 1010 1005 first_bundle fresh_bundle
      requested refresh_passes

abbrev bridge_request : BridgeRequest
bridge_request = record {
  instrument_id = "vault";
  from_chain_id = 1;
  to_chain_id = 8453;
  account = account;
  amount = 200;
  leg_index = 0;
  token = record { chain_id = 1; address = codes "0xusdc"; decimals = 6 };
}

abbrev burn_bundle : PlannedBundle
burn_bundle = plan_bridge_bundle hash burn_response "vault" 0 bridge_request.token

bridged : request_bridge_bundle evm client hash config bridge_request ≡ ok burn_bundle
unfolding request_bridge_bundle contains seq_eq casefold to_hex hex_digit replicate
    decode_burn_steps to_bytes from_hex hex_value is_space take drop hex_text evm_address
bridged = refl

request_bridge_bundle-IsBurnOf_example :
    (burn : BurnCall) × IsBurnOf evm bridge_request burn_bundle burn
request_bridge_bundle-IsBurnOf_example =
    request_bridge_bundle-IsBurnOf evm client hash config bridge_request burn_bundle bridged

abbrev leg_name : ℕ → String → String
leg_name index id = id

abbrev recorded : BridgeState
recorded =
    planned_record leg_name burn_bundle.bundle (codes "0xmessenger") 100 (bridge_of burn_response)

planned_state-IsRecordOf_example :
    (burn : BurnCall) × (decode_burn_steps evm burn_bundle.steps ≡ ok burn)
    × IsRecordOf recorded bridge_request burn
unfolding planned_state plan_bridge_bundle
planned_state-IsRecordOf_example =
    planned_state-IsRecordOf leg_name burn_bundle.bundle (codes "0xmessenger") 100 evm client hash
      config bridge_request burn_bundle.steps recorded bridged refl
