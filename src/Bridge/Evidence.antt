-- ===== src/Bridge/Evidence.antt =====
-- What must have happened outside for a leg to complete, to be submitted, or to end as failed.
use open_allocator.Base.{
  ℕ, ◌≡◌, ◌⊎◌, refl, sym, ap, ◌∙◌, subst, Bool, true, false, Option, none, some, List, [], ◌∷◌,
  arith, Bool-cases, inl, inr,
}
use open_allocator.Base.Outcome.{ok, err, ok-injective, >>=-eq-ok}
use open_allocator.Base.Text.{Text}
use open_allocator.Base.Int.{ℤ}
use open_allocator.Cctp.{Invalid, invalid}
use open_allocator.Bridge.{
  source_submitted, destination_submitted, completed, BridgeState, World, Receipt, Lookup, reverted,
  raised, answered, ChainConfig, active, is_terminal, locate_burn, noted_hash, observe_source,
  assert_text, assert_some, chain_config,
}
use open_allocator.Bridge.Settle.{
  StepResult, pure_step, settle_inputs, reconcile_destination, check_nonce, observe_destination,
  reconcile_operation, reconcile_leg,
}
use open_allocator.Bridge.Advance.{
  transition, dispatch, Store, save_hook, Run, round, rounds, start, after_result, advance_leg,
  failed_state, worlds_from,
}

-- The destination chain reports the leg's nonce as used, or as not used.
pub record NonceRead (w : World) (s : BridgeState) (used : Bool) : Type 0 where
  pub nonce : Text
  pub config : ChainConfig
  pub has_nonce : s.nonce ≡ some nonce
  pub has_config : w.chain s.destination_chain_id ≡ some config
  pub reads : w.nonce_used s.destination_chain_id config.message_transmitter nonce ≡ ok used

-- The leg's destination operation is included: its transaction is on record, or its receipt is
-- there and not pending.
pub data IsIncluded (w : World) (s : BridgeState) : Type 0 where
  on_record : (hash : Text) → s.destination_transaction_hash ≡ some hash → IsIncluded w s
  by_receipt :
      (operation : Text) (r : Receipt)
      → s.destination_operation_hash ≡ some operation
      → w.operation_receipt s.destination_chain_id operation ≡ answered (some r)
      → r.pending ≡ false
      → IsIncluded w s

assert_text-some : (o : Option Text) {t : Text} → assert_text o ≡ ok t → o ≡ some t
assert_text-some none h = cc
assert_text-some (some []) h = cc
assert_text-some (some (c ∷ cs)) h = ap some (ok-injective h)

assert_some-some : {A : Type 0} (o : Option A) {a : A} → assert_some o ≡ ok a → o ≡ some a
assert_some-some none h = cc
assert_some-some (some a) h = ap some (ok-injective h)

module _ (w : World) (s : BridgeState) where
  chain_config-some : (id : ℕ) {d : ChainConfig} → chain_config w id ≡ ok d → w.chain id ≡ some d
  chain_config-some id h = ground arith

  pub settle_inputs-NonceRead :
      {nonce : Text} {mint : ℤ} {used : Bool}
      → settle_inputs w s ≡ ok (nonce, mint, used)
      → NonceRead w s used
  unfolding settle_inputs
  settle_inputs-NonceRead {nonce} {mint} {used} h =
      let (n, hn, h1) = >>=-eq-ok (assert_text s.nonce) _ h in
      let (_, _, h2) = >>=-eq-ok (assert_text s.message) _ h1 in
      let (_, _, h3) = >>=-eq-ok (assert_text s.attestation) _ h2 in
      let (_, _, h4) = >>=-eq-ok (assert_some s.net_mint_raw) _ h3 in
      let (d, hd, h5) = >>=-eq-ok (chain_config w s.destination_chain_id) _ h4 in
      let (u, hu, h6) =
        >>=-eq-ok (w.nonce_used s.destination_chain_id d.message_transmitter n) _ h5 in
      record {
        nonce = n;
        config = d;
        has_nonce = assert_text-some s.nonce hn;
        has_config = chain_config-some s.destination_chain_id hd;
        reads = hu ∙ ap ok (ap (λ (x : Text × ℤ × Bool). x.2) (ok-injective h6));
      }

  check_nonce-used :
      (transmitter nonce : Text) (t : BridgeState)
      → check_nonce w s transmitter nonce ≡ ok t
      → t.status ≡ completed
      → s.status ≡ destination_submitted
      → w.nonce_used s.destination_chain_id transmitter nonce ≡ ok true
  check_nonce-used transmitter nonce t h k e = ground arith

  -- A leg that is reconciled to `completed` was included, or its nonce is used.
  pub reconcile_evidence :
      (t : BridgeState)
      → reconcile_destination w s ≡ ok t
      → t.status ≡ completed
      → s.status ≡ destination_submitted
      → IsIncluded w s ⊎ NonceRead w s true
  unfolding reconcile_destination
  reconcile_evidence t h k e = by_hash s.destination_transaction_hash refl h
    where
      record_read :
          (n : Text) (d : ChainConfig)
          → s.nonce ≡ some n
          → w.chain s.destination_chain_id ≡ some d
          → w.nonce_used s.destination_chain_id d.message_transmitter n ≡ ok true
          → NonceRead w s true
      record_read n d hn hd u = record {
        nonce = n;
        config = d;
        has_nonce = hn;
        has_config = hd;
        reads = u;
      }

      by_lookup :
          (d : ChainConfig) (n operation : Text)
          → s.destination_operation_hash ≡ some operation
          → (w.nonce_used s.destination_chain_id d.message_transmitter n ≡ ok true
              → NonceRead w s true)
          → (found : Lookup) → w.operation_receipt s.destination_chain_id operation ≡ found
          → observe_destination w s d.message_transmitter n found ≡ ok t
          → IsIncluded w s ⊎ NonceRead w s true
      by_lookup d n operation o read (reverted text) g x = ground (arith, k, e)
      by_lookup d n operation o read (raised er) g x = cc
      by_lookup d n operation o read (answered none) g x =
          inr (read (check_nonce-used d.message_transmitter n t x k e))
      by_lookup d n operation o read (answered (some r)) g x = elim (Bool-cases r.pending) [
        | inl pending ↦
            inr (read (check_nonce-used d.message_transmitter n t (rw pending at x) k e))
        | inr included_r ↦ inl (by_receipt operation r o g included_r)
      ]

      by_operation :
          (d : ChainConfig) (n : Text)
          → (w.nonce_used s.destination_chain_id d.message_transmitter n ≡ ok true
              → NonceRead w s true)
          → (o : Option Text) → s.destination_operation_hash ≡ o
          → reconcile_operation w s d.message_transmitter n o ≡ ok t
          → IsIncluded w s ⊎ NonceRead w s true
      by_operation d n read none g x = inr (read (check_nonce-used d.message_transmitter n t x k e))
      by_operation d n read (some operation) g x =
          by_lookup d n operation g read (w.operation_receipt s.destination_chain_id operation) refl
            x

      by_hash :
          (o : Option Text)
          → s.destination_transaction_hash ≡ o
          → reconcile_leg w s o ≡ ok t
          → IsIncluded w s ⊎ NonceRead w s true
      by_hash (some hash) g x = inl (on_record hash g)
      by_hash none g x =
          let (n, hn, h1) = >>=-eq-ok (assert_some s.nonce) _ x in
          let (d, hd, h2) = >>=-eq-ok (chain_config w s.destination_chain_id) _ h1 in
          by_operation d n
            (record_read n d (assert_some-some s.nonce hn)
              (chain_config-some s.destination_chain_id hd))
            s.destination_operation_hash refl h2

pub round_goes_on :
    (w : World) (r : Run)
    → r.stopped ≡ false
    → is_terminal r.state.status ≡ false
    → round w r
      ≡ after_result r
          (save_hook r.store (transition w r.state).saved)
          (transition w r.state).result
unfolding round
round_goes_on w r h k = rw (h, k)

round_stops :
    (w : World) (r : Run) → is_terminal r.state.status ≡ true → (round w r).state ≡ r.state
unfolding round
round_stops w r h = ground arith

rounds_stop :
    (ws : List World) (r : Run) → is_terminal r.state.status ≡ true → (rounds ws r).state ≡ r.state
unfolding rounds
rounds_stop [] r h = refl
rounds_stop (w ∷ ws) r h =
    rounds_stop ws (round w r)
      (ap (λ (x : BridgeState). is_terminal x.status) (round_stops w r h) ∙ h)
    ∙ round_stops w r h

advance_leg_first :
    (at : ℕ → World) (s : BridgeState) (st : Store)
    → advance_leg at s st ≡ rounds (worlds_from 11 1 at) (round (at 0) (start s st))
advance_leg_first at s st = unfold advance_leg rounds in refl

-- The burn's transaction is known: its hash is on record, or the operation's receipt, which is final,
-- gives it.
pub data IsIncludedIn (w : World) (s : BridgeState) (hash : Text) : Type 0 where
  on_record : s.source_transaction_hash ≡ some hash → IsIncludedIn w s hash
  by_receipt :
      (operation : Text) (r : Receipt)
      → s.source_transaction_hash ≡ none
      → s.source_operation_hash ≡ some operation
      → w.operation_receipt s.source_chain_id operation ≡ answered (some r)
      → r.pending ≡ false
      → r.transaction_hash ≡ hash
      → IsIncludedIn w s hash

module _ (w : World) (s : BridgeState) (hash : Text) (e : Invalid) where
  observe_fails :
      IsIncludedIn w s hash
      → locate_burn w (noted_hash s hash) hash ≡ err (invalid e)
      → observe_source w s ≡ err (invalid e)
  unfolding observe_source
  observe_fails (on_record n) l =
      subst (λ t. observe_source w t ≡ err (invalid e))
        (ap (λ o. record s { source_transaction_hash = o }) (sym n)) l
  observe_fails (by_receipt operation r n o a p x) l =
      rw (n, o, a, p) (subst (λ z. locate_burn w (noted_hash s z) z ≡ err (invalid e)) (sym x) l)

  fails_round :
      (st : Store)
      → s.status ≡ source_submitted
      → observe_source w s ≡ err (invalid e)
      → (round w (start s st)).state ≡ failed_state s e
  fails_round st k l =
      let step : transition w s ≡ pure_step (err (invalid e)) =
        unfold transition in ap (λ x. dispatch x w s) k ∙ unfold dispatch in ap pure_step l in
      ap (λ (x : Run). x.state)
        (round_goes_on w (start s st) refl (ap is_terminal k ∙ unfold is_terminal in refl))
      ∙ ap (λ (x : StepResult). (after_result (start s st) (save_hook st x.saved) x.result).state)
          step
      ∙ unfold after_result in refl

  -- A leg whose burn's transaction is known, by its hash on record or by a final receipt, and whose
  -- burn fails a check of CCTP, ends as failed. Where the hash was not on record before the
  -- invocation, it is not on record afterwards either, so the leg counts as inactive and may be planned
  -- again.
  pub burn_forgotten :
      (at : ℕ → World) (st : Store)
      → at 0 ≡ w
      → s.status ≡ source_submitted
      → IsIncludedIn w s hash
      → locate_burn w (noted_hash s hash) hash ≡ err (invalid e)
      → ((advance_leg at s st).state ≡ failed_state s e)
        × (s.source_transaction_hash ≡ none → active (advance_leg at s st).state ≡ false)
  burn_forgotten at st z k i l =
      let first =
        subst (λ v. (round v (start s st)).state ≡ failed_state s e) (sym z)
          (fails_round st k (observe_fails i l)) in
      let ends : (advance_leg at s st).state ≡ failed_state s e =
        ap (λ (x : Run). x.state) (advance_leg_first at s st)
        ∙ rounds_stop (worlds_from 11 1 at) (round (at 0) (start s st)) (
            ap (λ (x : BridgeState). is_terminal x.status) first
            ∙ unfold is_terminal failed_state in refl)
        ∙ first in
      (ends, λ n. ap active ends ∙ unfold active failed_state in rw n)
