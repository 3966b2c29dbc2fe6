-- ===== src/Cctp/OwnBurns.antt =====
-- Which source logs are an account's burns, and the list of them in the order of the logs.
use open_allocator.Base.{
  ◌≡◌, refl, true, List, [], ◌∷◌, filter, seq_eq, seq_eq→eq, eq→seq_eq, Bool-cases, inl, inr,
  &&-left, &&-right,
}
use open_allocator.Base.Outcome.{Outcome, ok, err, ◌>>=◌}
use open_allocator.Base.Text.{Text, Bytes, casefold}
use open_allocator.Cctp.{
  Error, CctpMessage, BurnExpectation, SourceLog, Evm, to_bytes, decode_message,
}
use open_allocator.Cctp.Select.{is_own, is_own_burn, sent_by}

-- The transmitter emitted the log, and its message decodes to a burn that the account sent.
pub record IsOwnBurn (evm : Evm) (e : BurnExpectation) (transmitter : Text) (log : SourceLog)
    : Type 0 where
  pub emitter : casefold log.emitter ≡ casefold transmitter
  pub raw : Bytes
  pub message : CctpMessage
  pub reads : to_bytes log.message ≡ ok raw
  pub decodes : decode_message evm raw ≡ ok message
  pub sender : casefold message.body.message_sender ≡ casefold e.account

-- The account's burns among the logs, in their order, and all of them.
pub data OwnBurns (evm : Evm) (e : BurnExpectation) (transmitter : Text)
    : List SourceLog → List SourceLog → Type 0 where
  no_logs : OwnBurns evm e transmitter [] []
  own_log :
      {log : SourceLog} {logs own : List SourceLog}
      → IsOwnBurn evm e transmitter log
      → OwnBurns evm e transmitter logs own
      → OwnBurns evm e transmitter (log ∷ logs) (log ∷ own)
  other_log :
      {log : SourceLog} {logs own : List SourceLog}
      → (IsOwnBurn evm e transmitter log → ⊥)
      → OwnBurns evm e transmitter logs own
      → OwnBurns evm e transmitter (log ∷ logs) own

module _ (evm : Evm) (e : BurnExpectation) (transmitter : Text) where
  pub is_own-IsOwnBurn :
      (log : SourceLog) → is_own evm e transmitter log ≡ true → IsOwnBurn evm e transmitter log
  unfolding is_own_burn
  is_own-IsOwnBurn log h =
      by_bytes (to_bytes log.message) refl
        (&&-right (seq_eq (casefold log.emitter) (casefold transmitter)) _ h)
    where
      by_message :
          (raw : Bytes)
          → to_bytes log.message ≡ ok raw
          → (o : Outcome Error CctpMessage) → decode_message evm raw ≡ o
          → sent_by evm e.account o ≡ true
          → IsOwnBurn evm e transmitter log
      by_message raw r (err f) d k = absurd (let p = k in cc)
      by_message raw r (ok m) d k = record {
        emitter =
            seq_eq→eq _ _ (&&-left (seq_eq (casefold log.emitter) (casefold transmitter)) _ h);
        raw = raw;
        message = m;
        reads = r;
        decodes = d;
        sender = seq_eq→eq _ _ k;
      }

      by_bytes :
          (o : Outcome Error Bytes)
          → to_bytes log.message ≡ o
          → sent_by evm e.account (o >>= decode_message evm) ≡ true
          → IsOwnBurn evm e transmitter log
      by_bytes (err f) r k = absurd (let p = k in cc)
      by_bytes (ok raw) r k = by_message raw r (decode_message evm raw) refl k

  IsOwnBurn-is_own :
      (log : SourceLog) → IsOwnBurn evm e transmitter log → is_own evm e transmitter log ≡ true
  unfolding is_own_burn
  IsOwnBurn-is_own log b =
      rw (b.reads, b.decodes, eq→seq_eq _ _ b.emitter, eq→seq_eq _ _ b.sender) refl

  pub filter-OwnBurns :
      (logs : List SourceLog)
      → OwnBurns evm e transmitter logs (filter (is_own evm e transmitter) logs)
  unfolding filter
  filter-OwnBurns [] = no_logs
  filter-OwnBurns (log ∷ logs) = elim (Bool-cases (is_own evm e transmitter log)) [
    | inl p ↦ rw p (own_log (is_own-IsOwnBurn log p) (filter-OwnBurns logs))
    | inr p ↦ rw p (other_log (λ b. let q = IsOwnBurn-is_own log b in cc) (filter-OwnBurns logs))
  ]
