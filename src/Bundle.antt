-- ===== src/Bundle.antt =====
-- core/types.py: a bundle of calldata, as it was quoted. Amounts are digit strings in the program,
-- without leading zeros, and numbers here.
use open_allocator.Base.{ℕ, Bool, Option, String, List, map}
use open_allocator.Base.Text.{Text, codes, casefold}
use open_allocator.Cctp.{TxStep}

pub record BundleToken : Type 0 where
  pub address : Text
  pub symbol : Option String
  pub decimals : ℕ

pub record BundleRequirement : Type 0 where
  pub token : Text
  pub amount : ℕ

pub record BundleLeftover : Type 0 where
  pub token : Text
  pub max_amount : ℕ

pub record BundleBridge : Type 0 where
  pub to_chain_id : ℕ
  pub source_domain : ℕ
  pub destination_domain : ℕ
  pub max_fee : ℕ
  pub min_finality_threshold : ℕ
  pub fast : Bool

-- `max` as an amount, which asks for a full withdrawal; every other amount is positive.
abbrev pub max_amount : ℕ
max_amount = 0

-- `TxBundle`; of the loop that a bundle may be, only that it is one.
pub record TxBundle : Type 0 where
  pub bundle_id : String
  pub action : String
  pub digest : Text
  pub leg_index : ℕ
  pub instrument_id : String
  pub account : Text
  pub chain_id : ℕ
  pub step_indexes : List ℕ
  pub source : String
  pub endpoint : String
  pub token_in : BundleToken
  pub token_out : BundleToken
  pub amount : ℕ
  pub quote_block : ℕ
  pub expires_at : Option ℕ
  pub requires : List BundleRequirement
  pub leftovers : List BundleLeftover
  pub expected_out : Option ℕ
  pub min_out : Option ℕ
  pub protocol_gas : Option ℕ
  pub simulated_out : Option ℕ
  pub simulation_scope : Option String
  pub simulation_engine : Option String
  pub bridge : Option BundleBridge
  pub is_loop : Bool

-- What `bundle_digest` hashes, of a bundle that is no loop: addresses and data in lower case.
pub record DigestCall : Type 0 where
  pub to : Text
  pub payload : Text
  pub value : ℕ
  pub type_name : String

pub record DigestPayload : Type 0 where
  pub instrument_id : Text
  pub action : String
  pub account : Text
  pub chain_id : ℕ
  pub amount : ℕ
  pub calls : List DigestCall
  pub quote_block : ℕ
  pub expires_at : Option ℕ
  pub bridge : Option BundleBridge

abbrev digest_call : TxStep → DigestCall
digest_call step = record {
  to = casefold step.to;
  payload = casefold step.payload;
  value = step.value;
  type_name = step.kind;
}

-- `bundle_digest`, over `json.dumps` and SHA-256
unfoldable pub bundle_digest :
    (DigestPayload → Text)
    → String
    → String
    → Text
    → ℕ
    → ℕ
    → List TxStep
    → ℕ
    → Option ℕ
    → Option BundleBridge
    → Text
bundle_digest sha256 instrument_id action account chain_id amount steps quote_block expires_at
      bridge =
    sha256 (record {
      instrument_id = casefold (codes instrument_id);
      action = action;
      account = casefold account;
      chain_id = chain_id;
      amount = amount;
      calls = map digest_call steps;
      quote_block = quote_block;
      expires_at = expires_at;
      bridge = bridge;
    })
