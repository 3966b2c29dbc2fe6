-- ===== src/Calldata/Rebuilding.antt =====
-- exec/calldata.py: what `refresh_bundle` keeps of the bundle that it rebuilds.
use open_allocator.Base.{
  ℕ, ◌≡◌, refl, sym, ◌∙◌, ap, Bool, true, false, ◌||◌, if◌then◌else◌, str_eq, eq_iff,
}
use open_allocator.Base.Text.{Text, codes}
use open_allocator.Base.Outcome.{Outcome, ok, err}
use open_allocator.Bundle.{TxBundle, DigestPayload}
use open_allocator.Execution.{PlannedBundle}
use open_allocator.Calldata.Requests.{SameText, IsRequested, request_bundle-IsRequested}
use open_allocator.Calldata.{
  CalldataError, not_rebuilt_here, CalldataConfig, Client, BundleRequest, bundle_id, request_bundle,
  rebuilt_token, refresh_bundle,
}

module _ (client : Client) (sha256 : DigestPayload → Text) (config : CalldataConfig) where
  -- The request that rebuilds a bundle.
  abbrev pub rebuilding : TxBundle → BundleRequest
  rebuilding bundle = record {
    instrument_id = bundle.instrument_id;
    action = bundle.action;
    account = bundle.account;
    chain_id = bundle.chain_id;
    amount = bundle.amount;
    leg_index = bundle.leg_index;
    first_step_index = 0;
    token = rebuilt_token client sha256 config bundle;
  }

  -- The bundle serves the request of the bundle that it replaces, keeps its id where the instrument
  -- is spelled as before, need not be rebuilt again, and a deposit spends the same token.
  pub record IsRebuilt (request : BundleRequest) (now : ℕ) (item fresh : PlannedBundle)
      : Type 0 where
    pub requested : IsRequested client sha256 config (rebuilding item.bundle) now fresh
    pub instrument : SameText (codes fresh.bundle.instrument_id) (codes request.instrument_id)
    pub account : SameText fresh.bundle.account request.account
    pub action : fresh.bundle.action ≡ request.action
    pub chain_id : fresh.bundle.chain_id ≡ request.chain_id
    pub amount : fresh.bundle.amount ≡ request.amount
    pub leg_index : fresh.bundle.leg_index ≡ request.leg_index
    pub bundle_id :
        fresh.bundle.instrument_id ≡ item.bundle.instrument_id
        → fresh.bundle.bundle_id ≡ item.bundle.bundle_id
    pub token :
        request.action ≡ "deposit"
        → SameText fresh.bundle.token_in.address item.bundle.token_in.address
          × (fresh.bundle.token_in.decimals ≡ item.bundle.token_in.decimals)

  module _ (refresh_loop : TxBundle → ℕ → Outcome CalldataError PlannedBundle) where
    -- What a bundle that is no loop is rebuilt by.
    refresh_bundle-request :
        (bundle : TxBundle) (now : ℕ) (fresh : PlannedBundle)
        → bundle.is_loop ≡ false
        → refresh_bundle client sha256 config refresh_loop bundle now ≡ ok fresh
        → request_bundle client sha256 config (rebuilding bundle) now ≡ ok fresh
    unfolding refresh_bundle
    refresh_bundle-request bundle now fresh no_loop h =
        by_tests bundle.is_loop (str_eq bundle.action "deposit" || str_eq bundle.action "withdraw")
          no_loop h
      where
        by_tests :
            (loop rebuildable : Bool)
            → loop ≡ false
            → ◌≡◌ {A = Outcome CalldataError PlannedBundle}
                (if loop
                  then refresh_loop bundle now
                  else if rebuildable
                  then request_bundle client sha256 config (rebuilding bundle) now
                  else err (not_rebuilt_here bundle.action))
                (ok fresh)
            → request_bundle client sha256 config (rebuilding bundle) now ≡ ok fresh
        by_tests true rebuildable e k = absurd (let p = e in cc)
        by_tests false true e k = k
        by_tests false false e k = absurd (let p = k in cc)

    -- Where a bundle was planned for a request and could later be rebuilt, the rebuilt bundle again
    -- serves the request: the instrument and the account up to case, the action, the chain, the amount and
    -- the leg. Its steps are the calls of a new answer, from step 0 on, and it need not be rebuilt again
    -- at that time. It keeps the bundle's id where the answer spells the instrument as before, and a deposit
    -- spends the same token.
    pub refresh_bundle-IsRebuilt :
        (request : BundleRequest) (before now : ℕ) (item fresh : PlannedBundle)
        → request_bundle client sha256 config request before ≡ ok item
        → refresh_bundle client sha256 config refresh_loop item.bundle now ≡ ok fresh
        → IsRebuilt request now item fresh
    refresh_bundle-IsRebuilt request before now item fresh g h =
        let old = request_bundle-IsRequested client sha256 config request before item g in
        let new =
          request_bundle-IsRequested client sha256 config (rebuilding item.bundle) now fresh
            (refresh_bundle-request item.bundle now fresh old.no_loop h) in
        record {
          requested = new;
          instrument = new.instrument ∙ old.instrument;
          account = new.account ∙ old.account;
          action = new.action ∙ old.action;
          chain_id = new.chain_id ∙ old.chain_id;
          amount = new.amount ∙ old.amount;
          leg_index = new.leg_index ∙ old.leg_index;
          bundle_id = λ same.
              new.bundle_id
              ∙ ap (λ id. bundle_id item.bundle.leg_index id item.bundle.action) same
              ∙ ap (λ n. bundle_id n item.bundle.instrument_id item.bundle.action) old.leg_index
              ∙ ap (bundle_id request.leg_index item.bundle.instrument_id) old.action
              ∙ sym old.bundle_id;
          token = λ deposit.
              new.token
                (record {
                  chain_id = item.bundle.chain_id;
                  address = item.bundle.token_in.address;
                  decimals = item.bundle.token_in.decimals;
                })
                (rw ((eq_iff item.bundle.action "deposit").1 (old.action ∙ deposit)) refl);
        }
