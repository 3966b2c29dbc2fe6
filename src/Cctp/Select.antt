-- ===== src/Cctp/Select.antt =====
-- exec/cctp.py: the burn in a source transaction's logs, Circle's attestation of it, and the burn
-- that a bridge bundle's calls make.
use open_allocator.Base.{
  ℕ, ◌-◌, String, Bool, true, false, ◌&&◌, Option, none, some, List, [], ◌∷◌, ◌++◌, str_eq, leb,
  ltb, ◌==◌, if◌then◌else◌, length, take, drop, replicate, filter, get_elem?, seq_eq, map, is_some,
  ◌%◌,
}
use open_allocator.Base.Outcome.{Outcome, ok, err, ◌>>=◌, ◌>>◌, guard}
use open_allocator.Base.Text.{Text, Bytes, codes, casefold, from_hex}
use open_allocator.Cctp.{
  undecodable_log, undecodable_calldata, native_value, approval_not_on_token,
  approval_not_to_messenger, approval_too_small, wrong_event_nonce, wrong_selector, wrong_steps,
  wrong_burn_count, wrong_cctp_version, Error, invalid, index_error, assertion_error,
  BurnExpectation, BurnCall, SourceLog, RawLog, TxStep, CircleMessage, CctpMessage, Attestation,
  Evm, fail, or_fail, strip_0x, to_bytes, hex_text, unattested, check_burn, same_text,
  decode_message, evm_address,
}

-- `list.sort` is stable: an item goes behind those that are not greater.
insert_log : SourceLog → List SourceLog → List SourceLog
insert_log x [] = x ∷ []
insert_log x (y ∷ ys) = if ltb x.log_index y.log_index then x ∷ y ∷ ys else y ∷ insert_log x ys

unfoldable pub sort_logs : List SourceLog → List SourceLog
unfolding insert_log
sort_logs = insert_all []
  where
    insert_all : List SourceLog → List SourceLog → List SourceLog
    insert_all done [] = done
    insert_all done (x ∷ xs) = insert_all (insert_log x done) xs

-- `_is_hex` of exec/circle.py
unfoldable pub is_hex : Text → Bool
is_hex (a ∷ b ∷ c ∷ t) =
    a == b'0' && b == b'x' && length (c ∷ t) % 2 == 0 && is_some (from_hex (c ∷ t))
is_hex _ = false

-- `CircleMessage.complete`
unfoldable pub complete : CircleMessage → Bool
unfolding is_hex
complete m =
    str_eq m.status "complete"
    && is_hex m.message
    && elim m.attestation [ none ↦ false | some a ↦ is_hex a ]

-- `raw.rjust(32, b"\0")`
unfoldable pub rjust_32 : Bytes → Bytes
rjust_32 raw = replicate (32 - length raw) 0 ++ raw

-- The complete messages that are attested copies of the wanted one, in Circle's order.
unfoldable pub candidates : Bytes → List CircleMessage → Outcome Error (List CircleMessage)
candidates wanted [] = ok []
candidates wanted (item ∷ items) =
    let rest = candidates wanted items in
    if complete item
    then (do
      raw ← to_bytes item.message
      copy ← unattested raw
      others ← rest
      ok (if seq_eq copy wanted then item ∷ others else others))
    else rest

abbrev topic_matches : Text → RawLog → Bool
topic_matches topic log = elim log.topics [ [] ↦ false | t ∷ _ ↦ seq_eq (casefold t) topic ]

-- `own[i]`
abbrev pub at_index : List SourceLog → ℕ → Outcome Error SourceLog
at_index own i = elim (get_elem? own i) [ none ↦ err index_error | some log ↦ ok log ]

abbrev pub attestation_of : Option Text → Outcome Error Text
attestation_of none = err assertion_error
attestation_of (some a) = ok a

pub check_version : Option ℕ → Outcome Error (Unit {0})
check_version none = ok tt
check_version (some v) = guard (v == 2) (invalid (wrong_cctp_version v))

pub check_event_nonce : Option Text → CctpMessage → Outcome Error (Unit {0})
check_event_nonce none m = ok tt
check_event_nonce (some nonce) m = do
  given ← to_bytes nonce
  decoded ← to_bytes m.nonce
  guard (seq_eq (rjust_32 given) decoded) (invalid wrong_event_nonce)

module _ (evm : Evm) where
  -- `MESSAGE_SENT_TOPIC`, and `keccak(text=...)[:4]`
  unfoldable pub message_sent_topic : Text
  message_sent_topic = hex_text (evm.keccak (codes "MessageSent(bytes)"))

  abbrev pub selector : String → Bytes
  selector signature = take 4 (evm.keccak (codes signature))

  abbrev log_message : Text → Option Bytes
  log_message payload = elim (from_hex (strip_0x payload)) [
    | none ↦ none
    | some raw ↦ evm.decode_bytes raw
  ]

  unfoldable pub found_logs : List RawLog → Outcome Error (List SourceLog)
  found_logs [] = ok []
  found_logs (log ∷ logs) =
      let rest = found_logs logs in
      if topic_matches message_sent_topic log
      then (do
        message ← or_fail undecodable_log (log_message log.payload)
        others ← rest
        ok (
            record { log_index = log.log_index; emitter = log.address; message = hex_text message }
            ∷ others))
      else rest

  -- `message_sent_logs`
  unfoldable pub message_sent_logs : List RawLog → Outcome Error (List SourceLog)
  unfolding found_logs sort_logs
  message_sent_logs logs = do found ← found_logs logs; ok (sort_logs found)

  abbrev pub sent_by : Text → Outcome Error CctpMessage → Bool
  sent_by account (ok m) = same_text m.body.message_sender account
  sent_by account (err _) = false

  -- `_is_own_burn`
  unfoldable pub is_own_burn : Text → Text → Bool
  is_own_burn message account = sent_by account (do raw ← to_bytes message; decode_message evm raw)

  abbrev pub is_own : BurnExpectation → Text → SourceLog → Bool
  is_own e transmitter log = same_text log.emitter transmitter && is_own_burn log.message e.account

  unfoldable pub select_source_log :
      List SourceLog → BurnExpectation → Text → ℕ → ℕ → Outcome Error SourceLog
  select_source_log logs e transmitter burn_index burns_in_operation = do
    let own = filter (is_own e transmitter) logs
    guard (length own == burns_in_operation)
        (invalid (wrong_burn_count (length own) burns_in_operation))
    selected ← at_index own burn_index
    raw ← to_bytes selected.message
    message ← decode_message evm raw
    check_burn message e false
    ok selected

  -- The checks of the candidate at the burn's position.
  unfoldable pub accept : CircleMessage → BurnExpectation → Outcome Error Attestation
  unfolding check_event_nonce check_version
  accept chosen e = do
    check_version chosen.cctp_version
    raw ← to_bytes chosen.message
    decoded ← decode_message evm raw
    check_burn decoded e true
    check_event_nonce chosen.event_nonce decoded
    attestation ← attestation_of chosen.attestation
    ok (record { message = decoded; attestation = attestation })

  unfoldable pub select_attestation :
      List CircleMessage → Text → BurnExpectation → ℕ → Outcome Error (Option Attestation)
  unfolding accept
  select_attestation messages source_message e burn_index = do
    source ← to_bytes source_message
    wanted ← unattested source
    found ← candidates wanted messages
    elim (get_elem? found burn_index) [
      | none ↦ ok none
      | some chosen ↦ do accepted ← accept chosen e; ok (some accepted)
    ]

  -- `_calldata`
  call_arguments : Text → String → String → Outcome Error Bytes
  call_arguments payload signature name = do
    raw ← to_bytes payload
    guard (seq_eq (take 4 raw) (selector signature)) (invalid (wrong_selector name))
    ok (drop 4 raw)

  abbrev is_bridge : List TxStep → Bool
  is_bridge (a ∷ b ∷ []) = str_eq a.kind "approve" && str_eq b.kind "bridge_burn"
  is_bridge _ = false

  abbrev burn_signature : String
  burn_signature = "depositForBurn(uint256,uint32,bytes32,address,bytes32,uint256,uint32)"

  decode_burn_pair : TxStep → TxStep → Outcome Error BurnCall
  unfolding call_arguments
  decode_burn_pair approve burn = do
    guard (approve.value == 0 && burn.value == 0) (invalid native_value)
    call ← call_arguments burn.payload burn_signature "depositForBurn"
    burned ← or_fail undecodable_calldata (evm.decode_burn call)
    allowed ← call_arguments approve.payload "approve(address,uint256)" "approve"
    approval ← or_fail undecodable_calldata (evm.decode_approve allowed)
    mint_recipient ← evm_address evm burned.recipient "mintRecipient"
    destination_caller ← evm_address evm burned.caller "destinationCaller"
    let token = evm.checksum burned.token
    guard (same_text approve.to token) (invalid approval_not_on_token)
    guard (same_text approval.0 burn.to) (invalid approval_not_to_messenger)
    guard (leb burned.amount approval.1) (invalid approval_too_small)
    ok (record {
      token_messenger = evm.checksum burn.to;
      amount_raw = burned.amount;
      destination_domain = burned.domain;
      mint_recipient = mint_recipient;
      burn_token = token;
      destination_caller = destination_caller;
      max_fee_raw = burned.max_fee;
      min_finality_threshold = burned.threshold;
    })

  unfoldable pub decode_burn_steps : List TxStep → Outcome Error BurnCall
  unfolding decode_burn_pair
  decode_burn_steps (approve ∷ burn ∷ []) =
      if is_bridge (approve ∷ burn ∷ [])
      then decode_burn_pair approve burn
      else fail (wrong_steps (approve.kind ∷ burn.kind ∷ []))
  decode_burn_steps steps = fail (wrong_steps (map (λ s. s.kind) steps))
