-- ===== src/Cctp/Layout.antt =====
-- The layout of a CCTP message: what Circle fills lies apart from every field that identifies a burn.
use open_allocator.Base.{◌≤◌, ◌≡◌, refl, sym, ap, ◌∙◌, arith, length, drop, replicate}
use open_allocator.Base.Outcome.{ok, ◌>>=◌, ok-injective}
use open_allocator.Base.Text.{Bytes}
use open_allocator.Base.Slices.{slice, slice-drop, from_bytes, zero_slice_id}
use open_allocator.Cctp.{
  CctpMessage, BurnMessage, Evm, zeroed, unattested, decode_body, decode_header, decode_message,
  hex_text,
}
use open_allocator.Cctp.Ranges.{
  length-zeroed, slice-zeroed, body-zeroed, hook-zeroed, nonce-zeroed, finality-zeroed, fee-zeroed,
  expiration-zeroed,
}

from_bytes-zeros_32 : from_bytes (replicate 32 0) ≡ 0
unfolding from_bytes replicate
from_bytes-zeros_32 = refl

from_bytes-zeros_4 : from_bytes (replicate 4 0) ≡ 0
unfolding from_bytes replicate
from_bytes-zeros_4 = refl

-- A decoded message with the fields that Circle fills put back to zero.
abbrev pub cleared_body : BurnMessage → BurnMessage
cleared_body b = record b { fee_executed = 0; expiration_block = 0 }

unfoldable pub cleared : CctpMessage → CctpMessage
cleared m = record m {
  raw = zeroed m.raw;
  nonce = hex_text (replicate 32 0);
  finality_threshold_executed = 0;
  body = cleared_body m.body;
}

module _ (evm : Evm) (raw : Bytes) (long : 376 ≤ length raw) where
  fee-body : slice 164 196 (drop 148 (zeroed raw)) ≡ replicate 32 0
  fee-body = slice-drop 148 164 196 312 344 (zeroed raw) refl refl ∙ fee-zeroed raw long

  expiration-body : slice 196 228 (drop 148 (zeroed raw)) ≡ replicate 32 0
  expiration-body =
      slice-drop 148 196 228 344 376 (zeroed raw) refl refl ∙ expiration-zeroed raw long

  decode_body-zeroed :
      decode_body evm (drop 148 (zeroed raw))
      ≡ (decode_body evm (drop 148 raw) >>= λ b. ok (cleared_body b))
  unfolding decode_body
  decode_body-zeroed =
      rw
        (
          body-zeroed raw long 0 4 (omega arith),
          body-zeroed raw long 4 36 (omega arith),
          body-zeroed raw long 36 68 (omega arith),
          body-zeroed raw long 68 100 (omega arith),
          body-zeroed raw long 100 132 (omega arith),
          body-zeroed raw long 132 164 (omega arith),
          fee-body,
          expiration-body,
          hook-zeroed raw long,
          from_bytes-zeros_32,
        )
        (ground arith)

  decode_header-zeroed :
      decode_header evm (zeroed raw) ≡ (decode_header evm raw >>= λ m. ok (cleared m))
  unfolding decode_header cleared
  decode_header-zeroed =
      rw
        (
          slice-zeroed raw long 0 4 (omega arith),
          slice-zeroed raw long 4 8 (omega arith),
          slice-zeroed raw long 8 12 (omega arith),
          slice-zeroed raw long 44 76 (omega arith),
          slice-zeroed raw long 76 108 (omega arith),
          slice-zeroed raw long 108 140 (omega arith),
          slice-zeroed raw long 140 144 (omega arith),
          nonce-zeroed raw long,
          finality-zeroed raw long,
          decode_body-zeroed,
          from_bytes-zeros_4,
        )
        (ground arith)

  decode_message-zeroed :
      decode_message evm (zeroed raw) ≡ (decode_message evm raw >>= λ m. ok (cleared m))
  unfolding decode_message
  decode_message-zeroed = rw (length-zeroed raw long, decode_header-zeroed) (ground arith)

-- What two messages of one burn have in common: every field but the nonce, the executed finality,
-- the executed fee and the expiration block.
pub record SameBurn (m n : CctpMessage) : Type 0 where
  pub version : m.version ≡ n.version
  pub source_domain : m.source_domain ≡ n.source_domain
  pub destination_domain : m.destination_domain ≡ n.destination_domain
  pub sender : m.sender ≡ n.sender
  pub recipient : m.recipient ≡ n.recipient
  pub destination_caller : m.destination_caller ≡ n.destination_caller
  pub min_finality_threshold : m.min_finality_threshold ≡ n.min_finality_threshold
  pub body_version : m.body.version ≡ n.body.version
  pub burn_token : m.body.burn_token ≡ n.body.burn_token
  pub mint_recipient : m.body.mint_recipient ≡ n.body.mint_recipient
  pub amount : m.body.amount ≡ n.body.amount
  pub message_sender : m.body.message_sender ≡ n.body.message_sender
  pub max_fee : m.body.max_fee ≡ n.body.max_fee
  pub hook_data : m.body.hook_data ≡ n.body.hook_data

cleared-SameBurn : (m n : CctpMessage) → cleared m ≡ cleared n → SameBurn m n
unfolding cleared
cleared-SameBurn m n e = record {
  version = ap (λ (c : CctpMessage). c.version) e;
  source_domain = ap (λ (c : CctpMessage). c.source_domain) e;
  destination_domain = ap (λ (c : CctpMessage). c.destination_domain) e;
  sender = ap (λ (c : CctpMessage). c.sender) e;
  recipient = ap (λ (c : CctpMessage). c.recipient) e;
  destination_caller = ap (λ (c : CctpMessage). c.destination_caller) e;
  min_finality_threshold = ap (λ (c : CctpMessage). c.min_finality_threshold) e;
  body_version = ap (λ (c : CctpMessage). c.body.version) e;
  burn_token = ap (λ (c : CctpMessage). c.body.burn_token) e;
  mint_recipient = ap (λ (c : CctpMessage). c.body.mint_recipient) e;
  amount = ap (λ (c : CctpMessage). c.body.amount) e;
  message_sender = ap (λ (c : CctpMessage). c.body.message_sender) e;
  max_fee = ap (λ (c : CctpMessage). c.body.max_fee) e;
  hook_data = ap (λ (c : CctpMessage). c.body.hook_data) e;
}

unattested-inv :
    (raw : Bytes) {c : Bytes} → unattested raw ≡ ok c → (376 ≤ length raw) × (zeroed raw ≡ c)
unfolding unattested
unattested-inv raw h = ground arith

decode-cleared :
    (evm : Evm) (raw : Bytes) {c : Bytes} {m : CctpMessage}
    → unattested raw ≡ ok c
    → decode_message evm raw ≡ ok m
    → decode_message evm c ≡ ok (cleared m)
decode-cleared evm raw {c} {m} u d =
    let (long, same) = unattested-inv raw u in rw (← same, decode_message-zeroed evm raw long, d)

-- Two messages with the same unattested form are, if both decode, messages of one burn: they agree
-- in every field except the four that Circle fills in.
pub unattested-SameBurn :
    (evm : Evm) (a b : Bytes) {c : Bytes} {m n : CctpMessage}
    → unattested a ≡ ok c
    → unattested b ≡ ok c
    → decode_message evm a ≡ ok m
    → decode_message evm b ≡ ok n
    → SameBurn m n
unattested-SameBurn evm a b {c} {m} {n} ua ub da db =
    cleared-SameBurn m n
      (ok-injective (sym (decode-cleared evm a ua da) ∙ decode-cleared evm b ub db))

zeroed-zeroed : (raw : Bytes) → 376 ≤ length raw → zeroed (zeroed raw) ≡ zeroed raw
zeroed-zeroed raw long =
    unfold zeroed in
    rw
      (
        zero_slice_id 12 44 (zeroed raw) (omega arith) (nonce-zeroed raw long),
        zero_slice_id 144 148 (zeroed raw) (omega arith) (finality-zeroed raw long),
        zero_slice_id 312 344 (zeroed raw) (omega arith) (fee-zeroed raw long),
      )
      (zero_slice_id 344 376 (zeroed raw) (omega arith) (expiration-zeroed raw long))

unattested-zeroed : (raw : Bytes) → 376 ≤ length raw → unattested (zeroed raw) ≡ ok (zeroed raw)
unfolding unattested
unattested-zeroed raw long = rw (length-zeroed raw long, zeroed-zeroed raw long) (ground arith)

-- The unattested form is its own unattested form, and as long as the message.
pub unattested-unattested :
    (raw : Bytes) {c : Bytes}
    → unattested raw ≡ ok c
    → (unattested c ≡ ok c) × (length c ≡ length raw)
unattested-unattested raw {c} u =
    let (long, same) = unattested-inv raw u in
    rw (← same) (unattested-zeroed raw long, length-zeroed raw long)
