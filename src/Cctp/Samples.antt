-- ===== src/Cctp/Samples.antt =====
-- A burn's message as the source chain emits it and as Circle attests it, and packages to run with.
use open_allocator.Base.{ℕ, zero, suc, ◌≡◌, refl, none, some, [], ◌∷◌, ◌++◌, replicate, take, drop}
use open_allocator.Base.Outcome.{ok}
use open_allocator.Base.Text.{Text, Bytes, codes, from_hex, to_hex}
use open_allocator.Base.Slices.{slice, from_bytes, zero_slice}
use open_allocator.Cctp.{
  Evm, CctpMessage, BurnExpectation, CircleMessage, hex_text, decode_message, unattested, to_bytes,
  zeroed,
}

-- Packages that change nothing, and decode no calldata.
abbrev pub plain_evm : Evm
plain_evm = record {
  checksum = λ t. t;
  keccak = λ b. b;
  decode_bytes = λ b. some b;
  decode_burn = λ b. none;
  decode_approve = λ b. none;
}

abbrev repeated : ℕ → ℕ → Bytes
repeated zero b = []
repeated (suc n) b = b ∷ repeated n b

abbrev pub word : ℕ → ℕ → Bytes
word pad n = repeated pad 0 ++ n ∷ []

-- An address of twenty equal bytes, and the word that holds it.
abbrev pub address_word : ℕ → Bytes
address_word b = repeated 12 0 ++ repeated 20 b

abbrev pub address_text : ℕ → Text
address_text b = hex_text (repeated 20 b)

-- The account burns 200 for a fee of at most 5; `nonce`, `final`, `fee` and `expiration` are what
-- Circle fills in.
abbrev pub message_bytes : ℕ → ℕ → ℕ → ℕ → Bytes
message_bytes nonce final fee expiration =
    word 3 1
    ++ (word 3 0
        ++ (word 3 6
            ++ (word 31 nonce
                ++ (address_word 17
                    ++ (address_word 18
                        ++ (address_word 19
                            ++ (word 3 100
                                ++ (word 3 final
                                    ++ (word 3 1
                                        ++ (address_word 20
                                            ++ (address_word 19
                                                ++ (word 31 200
                                                    ++ (address_word 19
                                                        ++ (word 31 5
                                                            ++ (word 31 fee
                                                            ++ word 31 expiration)))))))))))))))

abbrev pub decoded : ℕ → ℕ → ℕ → ℕ → CctpMessage
decoded nonce final fee expiration = record {
  raw = message_bytes nonce final fee expiration;
  version = 1;
  source_domain = 0;
  destination_domain = 6;
  nonce = hex_text (word 31 nonce);
  sender = address_text 17;
  recipient = address_text 18;
  destination_caller = address_text 19;
  min_finality_threshold = 100;
  finality_threshold_executed = final;
  body = record {
    version = 1;
    burn_token = address_text 20;
    mint_recipient = address_text 19;
    amount = 200;
    message_sender = address_text 19;
    max_fee = 5;
    fee_executed = fee;
    expiration_block = expiration;
    hook_data = [];
  };
}

abbrev pub source_bytes : Bytes
source_bytes = message_bytes 0 0 0 0

abbrev pub attested_bytes : Bytes
attested_bytes = message_bytes 7 100 3 50

abbrev pub expected_burn : BurnExpectation
expected_burn = record {
  source_domain = 0;
  destination_domain = 6;
  source_token_messenger = address_text 17;
  destination_token_messenger = address_text 18;
  account = address_text 19;
  burn_token = address_text 20;
  amount_raw = 200;
  max_fee_raw = 5;
  min_finality_threshold = 100;
}

abbrev pub attested_message : CircleMessage
attested_message = record {
  message = hex_text attested_bytes;
  attestation = some (codes "0xabcd");
  event_nonce = none;
  cctp_version = some 2;
  status = "complete";
  delay_reason = none;
}

abbrev pub source_text : Text
source_text = hex_text source_bytes

pub source-decodes : decode_message plain_evm source_bytes ≡ ok (decoded 0 0 0 0)
unfolding decode_message slice from_bytes take drop hex_text
source-decodes = refl

pub attested-decodes : decode_message plain_evm attested_bytes ≡ ok (decoded 7 100 3 50)
unfolding decode_message slice from_bytes take drop hex_text
attested-decodes = refl

pub source-unattested : unattested source_bytes ≡ ok source_bytes
unfolding unattested zeroed zero_slice take drop replicate
source-unattested = refl

pub attested-unattested : unattested attested_bytes ≡ ok source_bytes
unfolding unattested zeroed zero_slice take drop replicate
attested-unattested = refl

pub source-reads : to_bytes source_text ≡ ok source_bytes
unfolding to_bytes from_hex hex_text to_hex
source-reads = refl
