-- ===== src/Cctp/Tests.antt =====
-- Runs of exec/cctp.py on the sample messages.
use open_allocator.Base.{
  List, ℕ, ◌+◌, ◌≤◌, ◌≡◌, refl, ◌↔◌, some, [], ◌∷◌, arith, length, filter, get_elem?, seq_eq, take,
  drop, replicate, true,
}
use open_allocator.Base.Int.{pos}
use open_allocator.Base.Outcome.{ok}
use open_allocator.Base.Slices.{slice, from_bytes, zero_slice}
use open_allocator.Base.Text.{codes, from_hex, to_hex, casefold}
use open_allocator.Cctp.{
  Attestation, SourceLog, hex_text, decode_message, unattested, to_bytes, zeroed, check_burn,
  zero_nonce,
}
use open_allocator.Cctp.Burns.{Matches, IsAttested, check_burn_iff}
use open_allocator.Cctp.Layout.{SameBurn, unattested-SameBurn}
use open_allocator.Cctp.OwnBurns.{IsOwnBurn, OwnBurns}
use open_allocator.Cctp.Select.{
  select_attestation, select_source_log, candidates, complete, is_own_burn,
}
use open_allocator.Cctp.Selection.{
  select_attestation_sound, select_source_log_sound, net_mint, net_mint_bounds,
}
use open_allocator.Cctp.Samples.{
  plain_evm, address_text, source_bytes, attested_bytes, decoded, expected_burn, attested_message,
  source_text, source-decodes, attested-decodes, source-unattested, attested-unattested,
  source-reads,
}

unattested-SameBurn_example : SameBurn (decoded 0 0 0 0) (decoded 7 100 3 50)
unattested-SameBurn_example =
    unattested-SameBurn plain_evm source_bytes attested_bytes source-unattested attested-unattested
      source-decodes attested-decodes

check_burn_iff_example :
    (check_burn (decoded 7 100 3 50) expected_burn true ≡ ok tt)
    ↔ (Matches (decoded 7 100 3 50) expected_burn × IsAttested (decoded 7 100 3 50))
check_burn_iff_example = check_burn_iff (decoded 7 100 3 50) expected_burn

abbrev attestation : Attestation
attestation = record { message = decoded 7 100 3 50; attestation = codes "0xabcd" }

attestation-selected :
    select_attestation plain_evm (attested_message ∷ []) source_text expected_burn 0
    ≡ ok (some attestation)
unfolding select_attestation candidates complete to_bytes from_hex hex_text to_hex unattested zeroed
    zero_slice take drop replicate seq_eq decode_message slice from_bytes check_burn casefold
    zero_nonce
attestation-selected = refl

select_attestation_sound_example :
    SameBurn (decoded 0 0 0 0) attestation.message
    × Matches attestation.message expected_burn
    × IsAttested attestation.message
select_attestation_sound_example =
    select_attestation_sound plain_evm (attested_message ∷ []) source_text expected_burn 0
      source-reads source-decodes attestation-selected

net_mint_bounds_example : (n : ℕ) × (net_mint attestation ≡ pos n) × (n ≤ 200) × (200 ≤ n + 5)
net_mint_bounds_example =
    net_mint_bounds plain_evm (attested_message ∷ []) source_text expected_burn 0 source-reads
      source-decodes (omega arith) attestation-selected

abbrev source_log : SourceLog
source_log = record { log_index = 4; emitter = address_text 30; message = source_text }

source_log-selected :
    select_source_log plain_evm (source_log ∷ []) expected_burn (address_text 30) 0 1
    ≡ ok source_log
unfolding select_source_log is_own_burn filter to_bytes from_hex hex_text to_hex take drop replicate
    seq_eq decode_message slice from_bytes check_burn casefold
source_log-selected = refl

select_source_log_sound_example :
    ((own : List SourceLog) × OwnBurns plain_evm expected_burn
        (address_text 30)
        (source_log ∷ [])
        own
      × (length own ≡ 1)
      × (get_elem? own 0 ≡ some source_log))
    × ((b : IsOwnBurn plain_evm expected_burn (address_text 30) source_log) × Matches b.message
          expected_burn)
select_source_log_sound_example =
    select_source_log_sound plain_evm (source_log ∷ []) expected_burn (address_text 30) 0 1
      source_log-selected
