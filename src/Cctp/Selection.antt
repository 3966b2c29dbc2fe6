-- ===== src/Cctp/Selection.antt =====
-- What the selected source log and the selected attestation are.
use open_allocator.Base.{
  ℕ, ◌+◌, ◌-◌, ◌≤◌, ◌≡◌, refl, sym, ap, ◌∙◌, true, false, Option, none, some, List, [], ◌∷◌, arith,
  ◌==◌, if◌then◌else◌, length, filter, get_elem?, get_elem?-filter, seq_eq, seq_eq→eq, Bool-cases,
  inl, inr, ==→eq, All, subst, zero, suc, some-inj,
}
use open_allocator.Base.Outcome.{Outcome, ok, ◌>>=◌, guard, >>=-eq-ok, guard-eq-ok, ok-injective}
use open_allocator.Base.Int.{ℤ, pos, sub_ℕ}
use open_allocator.Base.Text.{Text, Bytes}
use open_allocator.Cctp.{
  Error, CctpMessage, BurnExpectation, SourceLog, CircleMessage, Attestation, Evm, to_bytes,
  unattested, check_burn, decode_message, invalid, wrong_burn_count,
}
use open_allocator.Cctp.Select.{
  candidates, complete, is_own, accept, select_source_log, select_attestation, at_index,
  check_version, check_event_nonce, attestation_of,
}
use open_allocator.Cctp.Layout.{SameBurn, unattested-SameBurn}
use open_allocator.Cctp.OwnBurns.{IsOwnBurn, OwnBurns, is_own-IsOwnBurn, filter-OwnBurns}
use open_allocator.Cctp.Burns.{Matches, IsAttested, check_burn-Matches, check_burn-IsAttested}

-- `Attestation.net_mint`, which is negative where the fee is above the amount.
unfoldable pub net_mint : Attestation → ℤ
net_mint a = sub_ℕ a.message.body.amount a.message.body.fee_executed

-- A complete message whose unattested form is `wanted`.
pub record IsCopy (wanted : Bytes) (c : CircleMessage) : Type 0 where
  pub complete_c : complete c ≡ true
  pub raw : Bytes
  pub reads : to_bytes c.message ≡ ok raw
  pub copies : unattested raw ≡ ok wanted

abbrev keep_copy : Bytes → CircleMessage → List CircleMessage → Bytes → List CircleMessage
keep_copy wanted item others copy = if seq_eq copy wanted then item ∷ others else others

keep_copy-All :
    (wanted : Bytes) (item : CircleMessage) (others : List CircleMessage) (raw copy : Bytes)
    → complete item ≡ true
    → to_bytes item.message ≡ ok raw
    → unattested raw ≡ ok copy
    → All (IsCopy wanted) others
    → All (IsCopy wanted) (keep_copy wanted item others copy)
keep_copy-All wanted item others raw copy done r u all = elim (Bool-cases (seq_eq copy wanted)) [
  | inl same ↦ rw same (
    record {
      complete_c = done;
      raw = raw;
      reads = r;
      copies = u ∙ ap ok (seq_eq→eq copy wanted same);
    },
    all,
  )
  | inr other ↦ rw other all
]

candidates-All :
    (wanted : Bytes) (items : List CircleMessage) {found : List CircleMessage}
    → candidates wanted items ≡ ok found
    → All (IsCopy wanted) found
unfolding candidates
candidates-All wanted [] h = subst (All (IsCopy wanted)) (ok-injective h) tt
candidates-All wanted (item ∷ items) {found} h = elim (Bool-cases (complete item)) [
  | inr not_complete ↦ candidates-All wanted items (rw not_complete at h)
  | inl done ↦
      let (raw, r, h1) = >>=-eq-ok (to_bytes item.message) _ (rw done at h) in
      let (copy, u, h2) = >>=-eq-ok (unattested raw) _ h1 in
      let (others, o, h3) = >>=-eq-ok (candidates wanted items) _ h2 in
      subst (All (IsCopy wanted)) (ok-injective h3)
        (keep_copy-All wanted item others raw copy done r u (candidates-All wanted items o))
]

All-get_elem? :
    (P : CircleMessage → Type 0) (xs : List CircleMessage) (i : ℕ) {c : CircleMessage}
    → All P xs
    → get_elem? xs i ≡ some c
    → P c
All-get_elem? P [] i a h = cc
All-get_elem? P (x ∷ xs) zero a h = subst P (some-inj h) a.0
All-get_elem? P (x ∷ xs) (suc i) a h = All-get_elem? P xs i a.1 h

at_index-get_elem? :
    (own : List SourceLog) (i : ℕ) {log : SourceLog}
    → at_index own i ≡ ok log
    → get_elem? own i ≡ some log
at_index-get_elem? own i h = ground arith

-- What the checks of a candidate establish.
pub record IsAccepted (evm : Evm) (c : CircleMessage) (e : BurnExpectation) (a : Attestation)
    : Type 0 where
  pub raw : Bytes
  pub reads : to_bytes c.message ≡ ok raw
  pub decodes : decode_message evm raw ≡ ok a.message
  pub passes : check_burn a.message e true ≡ ok tt

module _ (evm : Evm) where
  accept-IsAccepted :
      (c : CircleMessage) (e : BurnExpectation) {a : Attestation}
      → accept evm c e ≡ ok a
      → IsAccepted evm c e a
  unfolding accept
  accept-IsAccepted c e {a} h =
      let (_, v, h1) = >>=-eq-ok (check_version c.cctp_version) _ h in
      let (raw, r, h2) = >>=-eq-ok (to_bytes c.message) _ h1 in
      let (m, d, h3) = >>=-eq-ok (decode_message evm raw) _ h2 in
      let (_, p, h4) = >>=-eq-ok (check_burn m e true) _ h3 in
      let (_, n, h5) = >>=-eq-ok (check_event_nonce c.event_nonce m) _ h4 in
      let (t, s, h6) = >>=-eq-ok (attestation_of c.attestation) _ h5 in
      let same : m ≡ a.message = ap (λ (x : Attestation). x.message) (ok-injective h6) in
      record {
        raw = raw;
        reads = r;
        decodes = d ∙ ap ok same;
        passes = subst (λ x. check_burn x e true ≡ ok tt) same p;
      }

  -- What the attestation of a burn is: an accepted copy of the source message.
  select_attestation-inv :
      (messages : List CircleMessage) (source : Text) (e : BurnExpectation) (i : ℕ)
      {a : Attestation} {raw wanted : Bytes}
      → to_bytes source ≡ ok raw
      → unattested raw ≡ ok wanted
      → select_attestation evm messages source e i ≡ ok (some a)
      → (c : CircleMessage) × IsCopy wanted c × IsAccepted evm c e a
  unfolding select_attestation
  select_attestation-inv messages source e i {a} {raw} {wanted} r u h =
      let h1 = rw (r, u) at h in
      let (found, f, h2) = >>=-eq-ok (candidates wanted messages) _ h1 in
      at_position found f (get_elem? found i) refl h2
    where
      at_position :
          (found : List CircleMessage)
          → candidates wanted messages ≡ ok found
          → (o : Option CircleMessage) → get_elem? found i ≡ o
          → (elim o as (λ _. Outcome Error (Option Attestation)) [
            | none ↦ ok none
            | some chosen ↦ accept evm chosen e >>= λ accepted. ok (some accepted)
          ])
            ≡ ok (some a)
          → (c : CircleMessage) × IsCopy wanted c × IsAccepted evm c e a
      at_position found f none g k = cc
      at_position found f (some c) g k =
          let (x, acc, k1) = >>=-eq-ok (accept evm c e) _ k in
          let same : x ≡ a = some-inj (ok-injective k1) in
          (
            c,
            All-get_elem? (IsCopy wanted) found i (candidates-All wanted messages f) g,
            accept-IsAccepted c e (acc ∙ ap ok same),
          )

  -- An attestation that is taken up is Circle's copy of the source message: it agrees with the
  -- decoded source message in every field but the four that Circle fills in, it is the expected
  -- burn, and Circle's fields are within what the burn allows.
  pub select_attestation_sound :
      (messages : List CircleMessage) (source : Text) (e : BurnExpectation) (i : ℕ)
      {a : Attestation} {raw : Bytes} {m : CctpMessage}
      → to_bytes source ≡ ok raw
      → decode_message evm raw ≡ ok m
      → select_attestation evm messages source e i ≡ ok (some a)
      → SameBurn m a.message × Matches a.message e × IsAttested a.message
  unfolding select_attestation
  select_attestation_sound messages source e i {a} {raw} {m} r d h =
      let (wanted, u, _) = >>=-eq-ok (unattested raw) _ (rw r at h) in
      let (c, copy, acc) = select_attestation-inv messages source e i r u h in
      let same : copy.raw ≡ acc.raw = ok-injective (sym copy.reads ∙ acc.reads) in
      (
        unattested-SameBurn evm raw acc.raw u (rw (← same) copy.copies) d acc.decodes,
        check_burn-Matches a.message e true acc.passes,
        check_burn-IsAttested a.message e acc.passes,
      )

  -- Where the burn's maximum fee is at most its amount, what the destination mints is not negative,
  -- at most the burned amount, and short of it by at most the maximum fee.
  pub net_mint_bounds :
      (messages : List CircleMessage) (source : Text) (e : BurnExpectation) (i : ℕ)
      {a : Attestation} {raw : Bytes} {m : CctpMessage}
      → to_bytes source ≡ ok raw
      → decode_message evm raw ≡ ok m
      → e.max_fee_raw ≤ e.amount_raw
      → select_attestation evm messages source e i ≡ ok (some a)
      → (n : ℕ) × (net_mint a ≡ pos n) × (n ≤ e.amount_raw) × (e.amount_raw ≤ n + e.max_fee_raw)
  unfolding net_mint
  net_mint_bounds messages source e i {a} r d bounded h =
      let (_, is_burn, filled) = select_attestation_sound messages source e i r d h in
      (
        a.message.body.amount - a.message.body.fee_executed,
        ground (arith, is_burn.amount, is_burn.max_fee, filled.fee_bounded),
        omega (arith, is_burn.amount, is_burn.max_fee, filled.fee_bounded),
        omega (arith, is_burn.amount, is_burn.max_fee, filled.fee_bounded),
      )

  -- A selected source log is the one at the burn's position among all the logs that the transmitter
  -- emitted and whose message decodes to a burn that this account sent, in the order of the logs, of
  -- which there are as many as the operation submitted; and its message is the expected burn.
  pub select_source_log_sound :
      (logs : List SourceLog) (e : BurnExpectation) (transmitter : Text) (i n : ℕ)
      {selected : SourceLog}
      → select_source_log evm logs e transmitter i n ≡ ok selected
      → ((own : List SourceLog) × OwnBurns evm e transmitter logs own
          × (length own ≡ n)
          × (get_elem? own i ≡ some selected))
        × ((b : IsOwnBurn evm e transmitter selected) × Matches b.message e)
  unfolding select_source_log
  select_source_log_sound logs e transmitter i n {selected} h =
      let own = filter (is_own evm e transmitter) logs in
      let (_, counted, h1) =
        >>=-eq-ok (guard (length own == n) (invalid (wrong_burn_count (length own) n))) _ h in
      let (log, at, h2) = >>=-eq-ok (at_index own i) _ h1 in
      let (raw, r, h3) = >>=-eq-ok (to_bytes log.message) _ h2 in
      let (m, d, h4) = >>=-eq-ok (decode_message evm raw) _ h3 in
      let (_, p, h5) = >>=-eq-ok (check_burn m e false) _ h4 in
      let same : log ≡ selected = ok-injective h5 in
      let found : get_elem? own i ≡ some selected = at_index-get_elem? own i at ∙ ap some same in
      let mine =
        is_own-IsOwnBurn evm e transmitter selected
          (get_elem?-filter (is_own evm e transmitter) logs i selected found) in
      (
        (
          own,
          filter-OwnBurns evm e transmitter logs,
          ==→eq (length own) n (guard-eq-ok (length own == n) _ counted),
          found,
        ),
        (
          record {
            emitter = mine.emitter;
            raw = raw;
            message = m;
            reads = ap (λ (l : SourceLog). to_bytes l.message) (sym same) ∙ r;
            decodes = d;
            sender = (check_burn-Matches m e false p).message_sender;
          },
          check_burn-Matches m e false p,
        ),
      )
