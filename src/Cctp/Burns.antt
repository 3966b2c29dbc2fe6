-- ===== src/Cctp/Burns.antt =====
-- What `check_burn` establishes of a message, stated without the code's lists of names.
use open_allocator.Base.{
  ℕ, ◌≤◌, ◌≡◌, refl, ◌↔◌, ◌⊎◌, Bool, true, false, not, String, List, [], ◌∷◌, ◌++◌, arith, ◌==◌,
  if◌then◌else◌, All, seq_eq, seq_eq→eq, eq→seq_eq, ◌≢◌, Bool-cases, inl, inr,
}
use open_allocator.Base.Outcome.{ok}
use open_allocator.Base.Text.{casefold}
use open_allocator.Cctp.{
  CctpMessage, BurnExpectation, check_burn, refuse_mismatches, failures, burn_fields,
  attested_fields, zero_nonce,
}

-- The message is the expected burn.
pub record Matches (m : CctpMessage) (e : BurnExpectation) : Type 0 where
  pub version : m.version ≡ 1
  pub body_version : m.body.version ≡ 1
  pub source_domain : m.source_domain ≡ e.source_domain
  pub destination_domain : m.destination_domain ≡ e.destination_domain
  pub sender : casefold m.sender ≡ casefold e.source_token_messenger
  pub recipient : casefold m.recipient ≡ casefold e.destination_token_messenger
  pub destination_caller : casefold m.destination_caller ≡ casefold e.account
  pub burn_token : casefold m.body.burn_token ≡ casefold e.burn_token
  pub mint_recipient : casefold m.body.mint_recipient ≡ casefold e.account
  pub message_sender : casefold m.body.message_sender ≡ casefold e.account
  pub amount : m.body.amount ≡ e.amount_raw
  pub max_fee : m.body.max_fee ≡ e.max_fee_raw
  pub min_finality_threshold : m.min_finality_threshold ≡ e.min_finality_threshold
  pub hook_data : m.body.hook_data ≡ []

-- Circle has filled in its fields, within what the burn allows.
pub record IsAttested (m : CctpMessage) : Type 0 where
  pub assigned : m.nonce ≢ zero_nonce
  pub final : m.min_finality_threshold ≤ m.finality_threshold_executed
  pub fee_bounded : m.body.fee_executed ≤ m.body.max_fee

abbrev Holds : String × Bool → Type 0
Holds c = c.1 ≡ true

failures-nil : (cs : List (String × Bool)) → failures cs ≡ [] → All Holds cs
failures-nil [] h = tt
failures-nil ((name, true) ∷ cs) h = (refl, failures-nil cs h)
failures-nil ((name, false) ∷ cs) h = cc

failures_none : (cs : List (String × Bool)) → All Holds cs → failures cs ≡ []
failures_none [] h = refl
failures_none ((name, same) ∷ cs) h = rw h.0 (failures_none cs h.1)

==-sound : {a b : ℕ} → (a == b) ≡ true → a ≡ b
==-sound h = ground arith

==-complete : {a b : ℕ} → a ≡ b → (a == b) ≡ true
==-complete h = ground arith

burn_fields-Matches :
    (m : CctpMessage) (e : BurnExpectation) → All Holds (burn_fields m e) → Matches m e
unfolding burn_fields
burn_fields-Matches m e h = record {
  version = ==-sound h.0;
  body_version = ==-sound h.1.0;
  source_domain = ==-sound h.1.1.0;
  destination_domain = ==-sound h.1.1.1.0;
  sender = seq_eq→eq _ _ h.1.1.1.1.0;
  recipient = seq_eq→eq _ _ h.1.1.1.1.1.0;
  destination_caller = seq_eq→eq _ _ h.1.1.1.1.1.1.0;
  burn_token = seq_eq→eq _ _ h.1.1.1.1.1.1.1.0;
  mint_recipient = seq_eq→eq _ _ h.1.1.1.1.1.1.1.1.0;
  message_sender = seq_eq→eq _ _ h.1.1.1.1.1.1.1.1.1.0;
  amount = ==-sound h.1.1.1.1.1.1.1.1.1.1.0;
  max_fee = ==-sound h.1.1.1.1.1.1.1.1.1.1.1.0;
  min_finality_threshold = ==-sound h.1.1.1.1.1.1.1.1.1.1.1.1.0;
  hook_data = seq_eq→eq _ _ h.1.1.1.1.1.1.1.1.1.1.1.1.1.0;
}

Matches-burn_fields :
    (m : CctpMessage) (e : BurnExpectation) → Matches m e → All Holds (burn_fields m e)
unfolding burn_fields
Matches-burn_fields m e h = (
  ==-complete h.version,
  (
    ==-complete h.body_version,
    (
      ==-complete h.source_domain,
      (
        ==-complete h.destination_domain,
        (
          eq→seq_eq _ _ h.sender,
          (
            eq→seq_eq _ _ h.recipient,
            (
              eq→seq_eq _ _ h.destination_caller,
              (
                eq→seq_eq _ _ h.burn_token,
                (
                  eq→seq_eq _ _ h.mint_recipient,
                  (
                    eq→seq_eq _ _ h.message_sender,
                    (
                      ==-complete h.amount,
                      (
                        ==-complete h.max_fee,
                        (==-complete h.min_finality_threshold, (eq→seq_eq _ _ h.hook_data, tt)),
                      ),
                    ),
                  ),
                ),
              ),
            ),
          ),
        ),
      ),
    ),
  ),
)

attested_fields-IsAttested : (m : CctpMessage) → All Holds (attested_fields m) → IsAttested m
unfolding attested_fields
attested_fields-IsAttested m h = record {
  assigned = λ e. ground (arith, h.0, eq→seq_eq m.nonce zero_nonce e);
  final = ground (arith, h.1.0);
  fee_bounded = ground (arith, h.1.1.0);
}

IsAttested-attested_fields : (m : CctpMessage) → IsAttested m → All Holds (attested_fields m)
unfolding attested_fields
IsAttested-attested_fields m a = (
  assigned_lem (Bool-cases (seq_eq m.nonce zero_nonce)),
  (ground (arith, a.final), (ground (arith, a.fee_bounded), tt)),
)
  where
    assigned_lem :
        (seq_eq m.nonce zero_nonce ≡ true) ⊎ (seq_eq m.nonce zero_nonce ≡ false)
        → not (seq_eq m.nonce zero_nonce) ≡ true
    assigned_lem (inl same) = absurd (a.assigned (seq_eq→eq _ _ same))
    assigned_lem (inr other) = rw other

append-nil_left : (xs ys : List String) → xs ++ ys ≡ [] → xs ≡ []
append-nil_left [] ys h = refl
append-nil_left (x ∷ xs) ys h = cc

append-nil_right : (xs ys : List String) → xs ++ ys ≡ [] → ys ≡ []
append-nil_right [] ys h = h
append-nil_right (x ∷ xs) ys h = cc

refuse_mismatches-nil :
    (attested : Bool) (names : List String) → refuse_mismatches attested names ≡ ok tt → names ≡ []
unfolding refuse_mismatches
refuse_mismatches-nil attested [] h = refl
refuse_mismatches-nil attested (n ∷ ns) h = cc

check_burn_names : CctpMessage → BurnExpectation → Bool → List String
check_burn_names m e attested =
    failures (burn_fields m e) ++ (if attested then failures (attested_fields m) else [])

check_burn-nil :
    (m : CctpMessage) (e : BurnExpectation) (attested : Bool)
    → check_burn m e attested ≡ ok tt
    → check_burn_names m e attested ≡ []
check_burn-nil m e attested h =
    refuse_mismatches-nil attested (check_burn_names m e attested)
      (unfold check_burn check_burn_names in h)

-- A message of any kind passes only if it is the expected burn, field by field.
pub check_burn-Matches :
    (m : CctpMessage) (e : BurnExpectation) (attested : Bool)
    → check_burn m e attested ≡ ok tt
    → Matches m e
unfolding check_burn_names
check_burn-Matches m e attested h = burn_fields-Matches m e (
    failures-nil (burn_fields m e)
      (append-nil_left (failures (burn_fields m e)) _ (check_burn-nil m e attested h)))

pub check_burn-IsAttested :
    (m : CctpMessage) (e : BurnExpectation) → check_burn m e true ≡ ok tt → IsAttested m
unfolding check_burn_names
check_burn-IsAttested m e h = attested_fields-IsAttested m (
    failures-nil (attested_fields m)
      (append-nil_right (failures (burn_fields m e)) _ (check_burn-nil m e true h)))

-- `check_burn` accepts an attested copy exactly when every field is that of the expected burn,
-- Circle has assigned a nonce, the executed finality reaches the minimum, and the executed fee is
-- at most the maximum.
pub check_burn_iff :
    (m : CctpMessage) (e : BurnExpectation)
    → (check_burn m e true ≡ ok tt) ↔ (Matches m e × IsAttested m)
check_burn_iff m e = (
  λ h. (check_burn-Matches m e true h, check_burn-IsAttested m e h),
  λ h.
      unfold check_burn in
      rw (
        failures_none (burn_fields m e) (Matches-burn_fields m e h.0),
        failures_none (attested_fields m) (IsAttested-attested_fields m h.1),
      ),
)

-- It accepts a source message exactly when every field is that of the expected burn.
pub check_burn_source_iff :
    (m : CctpMessage) (e : BurnExpectation) → (check_burn m e false ≡ ok tt) ↔ Matches m e
check_burn_source_iff m e = (
  check_burn-Matches m e false,
  λ h. unfold check_burn in rw (failures_none (burn_fields m e) (Matches-burn_fields m e h)),
)
