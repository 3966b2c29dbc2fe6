-- ===== src/Cctp.antt =====
-- exec/cctp.py: finding a Safe's burn, and checking Circle's attestation of it. Messages are bytes;
-- the program also takes them as hex text, which `to_bytes` reads.
mod Types
pub mod Ranges
pub mod Layout
pub mod Select
pub mod Burns
pub mod OwnBurns
pub mod Selection
pub mod Samples
mod Tests
pub use Types.*
use open_allocator.Base.{
  ℕ, ◌+◌, ◌-◌, String, ◌≡◌, Bool, true, false, not, ◌&&◌, ◌||◌, Option, none, some, List, [], ◌∷◌,
  ◌++◌, str_eq, leb, ltb, ◌==◌, if◌then◌else◌, length, take, drop, replicate, filter, any,
  get_elem?, seq_eq, map,
}
use open_allocator.Base.Outcome.{Outcome, ok, err, ◌>>=◌, ◌>>◌, guard}
use open_allocator.Base.Text.{Text, Bytes, codes, casefold, to_hex, from_hex}
use open_allocator.Base.Slices.{slice, zero_slice, from_bytes}

-- `_BODY` and `_BURN_BODY_LENGTH`
abbrev pub body_offset : ℕ
body_offset = 148

abbrev pub burn_body_length : ℕ
burn_body_length = 228

abbrev pub message_version : ℕ
message_version = 1

abbrev pub burn_message_version : ℕ
burn_message_version = 1

abbrev pub fail : {A : Type 0} → Invalid → Outcome Error A
fail e = err (invalid e)

abbrev pub strip_0x : Text → Text
strip_0x [] = []
strip_0x (a ∷ []) = a ∷ []
strip_0x (a ∷ b ∷ t) = if a == b'0' && (b == b'x' || b == b'X') then t else a ∷ b ∷ t

abbrev pub or_fail : {A : Type 0} → Invalid → Option A → Outcome Error A
or_fail e none = fail e
or_fail e (some a) = ok a

-- `_bytes` of a text
unfoldable pub to_bytes : Text → Outcome Error Bytes
to_bytes t = or_fail not_hex (from_hex (strip_0x t))

-- `"0x" + raw.hex()`
unfoldable pub hex_text : Bytes → Text
hex_text raw = codes "0x" ++ to_hex raw

-- The four ranges that Circle fills: the nonce, the executed finality, and in the body the executed
-- fee and the expiration block.
unfoldable pub zeroed : Bytes → Bytes
zeroed raw = zero_slice 344 376 (zero_slice 312 344 (zero_slice 144 148 (zero_slice 12 44 raw)))

-- `unattested`, after `_bytes`
unfoldable pub unattested : Bytes → Outcome Error Bytes
unattested raw =
    if ltb (length raw) (body_offset + burn_body_length)
    then fail (too_short (length raw))
    else ok (zeroed raw)

abbrev pub failures : List (String × Bool) → List String
failures [] = []
failures ((name, same) ∷ rest) = if same then failures rest else name ∷ failures rest

abbrev pub same_text : Text → Text → Bool
same_text a b = seq_eq (casefold a) (casefold b)

-- The comparisons that `check_burn` makes of any message of a burn.
unfoldable pub burn_fields : CctpMessage → BurnExpectation → List (String × Bool)
burn_fields m e =
    ("version", m.version == message_version)
    ∷ ("burn message version", m.body.version == burn_message_version)
    ∷ ("source domain", m.source_domain == e.source_domain)
    ∷ ("destination domain", m.destination_domain == e.destination_domain)
    ∷ ("source TokenMessenger", same_text m.sender e.source_token_messenger)
    ∷ ("destination TokenMessenger", same_text m.recipient e.destination_token_messenger)
    ∷ ("destinationCaller", same_text m.destination_caller e.account)
    ∷ ("burn token", same_text m.body.burn_token e.burn_token)
    ∷ ("mintRecipient", same_text m.body.mint_recipient e.account)
    ∷ ("message sender", same_text m.body.message_sender e.account)
    ∷ ("amount", m.body.amount == e.amount_raw)
    ∷ ("maxFee", m.body.max_fee == e.max_fee_raw)
    ∷ ("minFinalityThreshold", m.min_finality_threshold == e.min_finality_threshold)
    ∷ ("hook data", seq_eq m.body.hook_data [])
    ∷ []

unfoldable pub zero_nonce : Text
unfolding hex_text
zero_nonce = hex_text (replicate 32 0)

-- Those that it makes of Circle's attested copy only.
unfoldable pub attested_fields : CctpMessage → List (String × Bool)
attested_fields m =
    ("nonce (unassigned)", not (seq_eq m.nonce zero_nonce))
    ∷ (
      "executed finality (below the minimum)",
      leb m.min_finality_threshold m.finality_threshold_executed,
    )
    ∷ ("feeExecuted (above maxFee)", leb m.body.fee_executed m.body.max_fee)
    ∷ []

refuse_mismatches : Bool → List String → Outcome Error (Unit {0})
refuse_mismatches attested [] = ok tt
refuse_mismatches attested (name ∷ names) = fail (burn_mismatch attested (name ∷ names))

unfoldable pub check_burn : CctpMessage → BurnExpectation → Bool → Outcome Error (Unit {0})
unfolding refuse_mismatches burn_fields attested_fields
check_burn m e attested =
    refuse_mismatches attested
      (failures (burn_fields m e) ++ (if attested then failures (attested_fields m) else []))

module _ (evm : Evm) where
  -- `_address`
  unfoldable pub evm_address : Bytes → String → Outcome Error Text
  evm_address raw name =
      if any (λ b. not (b == 0)) (take 12 raw)
      then fail (not_evm_address name)
      else ok (evm.checksum (hex_text (drop 12 raw)))

  pub decode_body : Bytes → Outcome Error BurnMessage
  unfolding evm_address
  decode_body body = do
    burn_token ← evm_address (slice 4 36 body) "burnToken"
    mint_recipient ← evm_address (slice 36 68 body) "mintRecipient"
    message_sender ← evm_address (slice 100 132 body) "messageSender"
    ok (record {
      version = from_bytes (slice 0 4 body);
      burn_token = burn_token;
      mint_recipient = mint_recipient;
      amount = from_bytes (slice 68 100 body);
      message_sender = message_sender;
      max_fee = from_bytes (slice 132 164 body);
      fee_executed = from_bytes (slice 164 196 body);
      expiration_block = from_bytes (slice 196 228 body);
      hook_data = drop burn_body_length body;
    })

  pub decode_header : Bytes → Outcome Error CctpMessage
  unfolding decode_body
  decode_header raw = do
    sender ← evm_address (slice 44 76 raw) "sender"
    recipient ← evm_address (slice 76 108 raw) "recipient"
    destination_caller ← evm_address (slice 108 140 raw) "destinationCaller"
    body ← decode_body (drop body_offset raw)
    ok (record {
      raw = raw;
      version = from_bytes (slice 0 4 raw);
      source_domain = from_bytes (slice 4 8 raw);
      destination_domain = from_bytes (slice 8 12 raw);
      nonce = hex_text (slice 12 44 raw);
      sender = sender;
      recipient = recipient;
      destination_caller = destination_caller;
      min_finality_threshold = from_bytes (slice 140 144 raw);
      finality_threshold_executed = from_bytes (slice 144 148 raw);
      body = body;
    })

  -- `decode_message`, after `_bytes`
  unfoldable pub decode_message : Bytes → Outcome Error CctpMessage
  unfolding decode_header
  decode_message raw =
      if ltb (length raw) (body_offset + burn_body_length)
      then fail (too_short (length raw))
      else decode_header raw
