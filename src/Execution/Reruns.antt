-- ===== src/Execution/Reruns.antt =====
-- A call that went out on its own and got a receipt does not go out again, in the run and in the next.
use open_allocator.Base.{
  ◌≡◌, refl, ap, is_some, ◌≢◌, true, false, inl, inr, none, some, List, [], ◌∷◌, Bool-cases, arith,
}
use open_allocator.Base.Outcome.{ok}
use open_allocator.Base.Equality.{contains}
use open_allocator.Execution.{TxPlan, StoreKey, store_key_equality, key_of, leg_key, call_key_of}
use open_allocator.Execution.Signers.{Signer}
use open_allocator.Execution.Preparing.{store_completed}
use open_allocator.Execution.Session.{
  Event, timed, sent_call, sent_batch, lost_call, lost_batch, hooked, marked, logged, saved,
  Session, World,
}
use open_allocator.Execution.Submitting.{execute_plan}
use open_allocator.Execution.Steps.{Store, Closed}
use open_allocator.Execution.Passes.{execute_plan-Keeps}

-- Every call that went out on its own, whether its send returned or raised, has a key of the given
-- kind.
abbrev pub Sends : (StoreKey → Type 0) → List Event → Type 0
Sends P [] = Unit
Sends P (sent_call key r ∷ tr) = P key × Sends P tr
Sends P (lost_call key ∷ tr) = P key × Sends P tr
Sends P (timed n ∷ tr) = Sends P tr
Sends P (sent_batch steps r ∷ tr) = Sends P tr
Sends P (lost_batch steps ∷ tr) = Sends P tr
Sends P (hooked key ∷ tr) = Sends P tr
Sends P (marked key ∷ tr) = Sends P tr
Sends P (logged key ∷ tr) = Sends P tr
Sends P (saved ∷ tr) = Sends P tr

-- Every call that went out on its own and whose send returned a receipt has such a key.
abbrev pub Returns : (StoreKey → Type 0) → List Event → Type 0
Returns P [] = Unit
Returns P (sent_call key r ∷ tr) = P key × Returns P tr
Returns P (lost_call key ∷ tr) = Returns P tr
Returns P (timed n ∷ tr) = Returns P tr
Returns P (sent_batch steps r ∷ tr) = Returns P tr
Returns P (lost_batch steps ∷ tr) = Returns P tr
Returns P (hooked key ∷ tr) = Returns P tr
Returns P (marked key ∷ tr) = Returns P tr
Returns P (logged key ∷ tr) = Returns P tr
Returns P (saved ∷ tr) = Returns P tr

-- A call that went out on its own has no key that a send had returned a receipt for before.
abbrev pub IsOnce : List Event → Type 0
IsOnce [] = Unit
IsOnce (sent_call key r ∷ tr) = Returns (λ k. k ≢ key) tr × IsOnce tr
IsOnce (lost_call key ∷ tr) = Returns (λ k. k ≢ key) tr × IsOnce tr
IsOnce (timed n ∷ tr) = IsOnce tr
IsOnce (sent_batch steps r ∷ tr) = IsOnce tr
IsOnce (lost_batch steps ∷ tr) = IsOnce tr
IsOnce (hooked key ∷ tr) = IsOnce tr
IsOnce (marked key ∷ tr) = IsOnce tr
IsOnce (logged key ∷ tr) = IsOnce tr
IsOnce (saved ∷ tr) = IsOnce tr

Sends-map :
    (P Q : StoreKey → Type 0) (tr : List Event)
    → ((k : StoreKey) → P k → Q k)
    → Sends P tr
    → Sends Q tr
Sends-map P Q [] f h = tt
Sends-map P Q (sent_call key r ∷ tr) f h = (f key h.0, Sends-map P Q tr f h.1)
Sends-map P Q (lost_call key ∷ tr) f h = (f key h.0, Sends-map P Q tr f h.1)
Sends-map P Q (timed n ∷ tr) f h = Sends-map P Q tr f h
Sends-map P Q (sent_batch steps r ∷ tr) f h = Sends-map P Q tr f h
Sends-map P Q (lost_batch steps ∷ tr) f h = Sends-map P Q tr f h
Sends-map P Q (hooked key ∷ tr) f h = Sends-map P Q tr f h
Sends-map P Q (marked key ∷ tr) f h = Sends-map P Q tr f h
Sends-map P Q (logged key ∷ tr) f h = Sends-map P Q tr f h
Sends-map P Q (saved ∷ tr) f h = Sends-map P Q tr f h

Returns-map :
    (P Q : StoreKey → Type 0) (tr : List Event)
    → ((k : StoreKey) → P k → Q k)
    → Returns P tr
    → Returns Q tr
Returns-map P Q [] f h = tt
Returns-map P Q (sent_call key r ∷ tr) f h = (f key h.0, Returns-map P Q tr f h.1)
Returns-map P Q (lost_call key ∷ tr) f h = Returns-map P Q tr f h
Returns-map P Q (timed n ∷ tr) f h = Returns-map P Q tr f h
Returns-map P Q (sent_batch steps r ∷ tr) f h = Returns-map P Q tr f h
Returns-map P Q (lost_batch steps ∷ tr) f h = Returns-map P Q tr f h
Returns-map P Q (hooked key ∷ tr) f h = Returns-map P Q tr f h
Returns-map P Q (marked key ∷ tr) f h = Returns-map P Q tr f h
Returns-map P Q (logged key ∷ tr) f h = Returns-map P Q tr f h
Returns-map P Q (saved ∷ tr) f h = Returns-map P Q tr f h

contains-head : (key : StoreKey) (keys : List StoreKey) → contains (key ∷ keys) key ≡ true
unfolding contains
contains-head key keys = ground (arith, (store_key_equality.same_iff key key).1 refl)

contains-tail :
    (key j : StoreKey) (keys : List StoreKey)
    → contains keys j ≡ true
    → contains (key ∷ keys) j ≡ true
unfolding contains
contains-tail key j keys h = ground arith

differs :
    (key j : StoreKey) (keys : List StoreKey)
    → contains keys key ≡ false
    → contains keys j ≡ true
    → j ≢ key
differs key j keys p q e = let r = ap (contains keys) e in cc

module _ (w : World) (start : Store) where
  -- A call that was sent was not completed at the start, and what was completed stays so.
  abbrev IsFresh : Store → List Event → Type 0
  IsFresh st tr =
      ((k : StoreKey) → store_completed start k ≡ true → store_completed st k ≡ true)
      × Sends (λ k. store_completed start k ≡ false) tr

  not_before :
      (st : Store) (key : StoreKey)
      → ((k : StoreKey) → store_completed start k ≡ true → store_completed st k ≡ true)
      → store_completed st key ≡ false
      → store_completed start key ≡ false
  not_before st key mono p = elim (Bool-cases (store_completed start key)) [
    | inl q ↦ absurd (let r = mono key q in cc)
    | inr q ↦ q
  ]

  IsFresh-Closed : Closed w IsFresh
  unfolding store_completed
  IsFresh-Closed = record {
    on_timed = λ st tr n h. h;
    on_saved = λ st tr h. h;
    on_batch = λ st tr steps r h. h;
    on_lost_batch = λ st tr steps h. h;
    on_lost_call = λ st tr key p h. (h.0, (not_before st key h.0 p, h.1));
    on_call_unstored = λ tr key r h. (h.0, (not_before none key h.0 refl, h.1));
    on_call_unmarked = λ keys tr key r f p m h. (h.0, (not_before (some keys) key h.0 p, h.1));
    on_call = λ keys tr item index r p h. (
      λ k q. contains-tail (call_key_of item index) k keys (h.0 k q),
      (not_before (some keys) (call_key_of item index) h.0 p, h.1),
    );
    on_hook = λ st tr item h. h;
    on_mark = λ keys tr item m h. (λ k q. contains-tail (key_of item) k keys (h.0 k q), h.1);
    on_mark_leg = λ keys tr leg h. (λ k q. contains-tail (leg_key leg) k keys (h.0 k q), h.1);
    on_log = λ st tr item m h. h;
  }

  -- With a store that can be written, a call with a receipt is completed, and does not go out again.
  abbrev IsSettled : Store → List Event → Type 0
  IsSettled st tr =
      (is_some st ≡ true) × (Returns (λ k. store_completed st k ≡ true) tr × IsOnce tr)

  Returns-tail :
      (key : StoreKey) (keys : List StoreKey) (tr : List Event)
      → Returns (λ k. store_completed (some keys) k ≡ true) tr
      → Returns (λ k. store_completed (some (key ∷ keys)) k ≡ true) tr
  unfolding store_completed
  Returns-tail key keys tr h = Returns-map _ _ tr (λ k q. contains-tail key k keys q) h

  IsSettled-Closed :
      ((tr : List Event) (key : StoreKey) → w.mark tr key ≡ ok tt) → Closed w IsSettled
  unfolding store_completed
  IsSettled-Closed writes = record {
    on_timed = λ st tr n h. h;
    on_saved = λ st tr h. h;
    on_batch = λ st tr steps r h. h;
    on_lost_batch = λ st tr steps h. h;
    on_lost_call = λ st tr key p h. (
      h.0,
      (h.1.0, (Returns-map _ _ tr (λ k q e. let r = ap (store_completed st) e in cc) h.1.0, h.1.1)),
    );
    on_call_unstored = λ tr key r h. absurd (let q = h.0 in cc);
    on_call_unmarked =
        λ keys tr key r f p m h. absurd (let q = writes (sent_call key r ∷ tr) key in cc);
    on_call = λ keys tr item index r p h.
        let key = call_key_of item index in
        (
          refl,
          (
            (contains-head key keys, Returns-tail key keys tr h.1.0),
            (Returns-map _ _ tr (λ k q. differs key k keys p q) h.1.0, h.1.1),
          ),
        );
    on_hook = λ st tr item h. h;
    on_mark = λ keys tr item m h. (refl, (Returns-tail (key_of item) keys tr h.1.0, h.1.1));
    on_mark_leg = λ keys tr leg h. (refl, (Returns-tail (leg_key leg) keys tr h.1.0, h.1.1));
    on_log = λ st tr item m h. h;
  }

abbrev pub begun : Store → Session
begun st = record { store = st; trace = []; steps = []; receipts = []; completed = [] }

-- The session that a run of a plan leaves, however it ends.
abbrev pub after : Signer → World → TxPlan → Store → Session
after signer w plan st = (execute_plan signer w plan (begun st)).0

after-IsFresh :
    (signer : Signer) (w : World) (plan : TxPlan) (st : Store)
    → Sends (λ k. store_completed st k ≡ false) (after signer w plan st).trace
after-IsFresh signer w plan st =
    (execute_plan-Keeps w (IsFresh w st) (IsFresh-Closed w st) signer plan (begun st)
      (λ k q. q, tt)).1

after-IsSettled :
    (signer : Signer) (w : World) (plan : TxPlan) (keys : List StoreKey)
    → ((tr : List Event) (key : StoreKey) → w.mark tr key ≡ ok tt)
    → IsSettled w
        (some keys)
        (after signer w plan (some keys)).store
        (after signer w plan (some keys)).trace
after-IsSettled signer w plan keys writes =
    execute_plan-Keeps w (IsSettled w (some keys)) (IsSettled-Closed w (some keys) writes) signer
      plan (begun (some keys)) (refl, (tt, tt))

-- Where the store can be written, a run of a plan, however it ends, sends no call on its own whose key was
-- completed before the run, and none with a key for which an earlier send of the run returned a
-- receipt, be it that the send returns or raises; and each key that a send returned a receipt for is
-- completed in the store that the run leaves.
pub execute_plan-IsOnce :
    (signer : Signer) (w : World) (plan : TxPlan) (keys : List StoreKey)
    → ((tr : List Event) (key : StoreKey) → w.mark tr key ≡ ok tt)
    → IsOnce (after signer w plan (some keys)).trace
      × (Sends (λ k. store_completed (some keys) k ≡ false) (after signer w plan (some keys)).trace
          × Returns
              (λ k. store_completed (after signer w plan (some keys)).store k ≡ true)
              (after signer w plan (some keys)).trace)
execute_plan-IsOnce signer w plan keys writes =
    let h = after-IsSettled signer w plan keys writes in
    (h.1.1, (after-IsFresh signer w plan (some keys), h.1.0))

-- Where the first run's store can be written, a second run on the store that the first one left sends
-- no call on its own with a key for which a send of the first run returned a receipt, whatever the
-- two plans, signers and worlds are and however the two runs end. A call whose send raised in the
-- first run is not excluded, also where its transaction went out.
pub execute_plan_rerun :
    (signer again : Signer) (w next : World) (plan revised : TxPlan) (keys : List StoreKey)
    → ((tr : List Event) (key : StoreKey) → w.mark tr key ≡ ok tt)
    → Returns
        (λ k.
          Sends
            (λ j. j ≢ k)
            (after again next revised (after signer w plan (some keys)).store).trace)
        (after signer w plan (some keys)).trace
execute_plan_rerun signer again w next plan revised keys writes =
    let st = (after signer w plan (some keys)).store in
    Returns-map _ _ (after signer w plan (some keys)).trace
      (λ k q.
        Sends-map _ _ (after again next revised st).trace
          (λ j p e. let r = ap (store_completed st) e in cc) (after-IsFresh again next revised st))
      (after-IsSettled signer w plan keys writes).1.0
