-- ===== src/Execution/Steps.antt =====
-- The steps that a run of a plan is made of. A predicate on the store and on what happened that each
-- step keeps, the whole run keeps.
use open_allocator.Base.{ℕ, ◌≡◌, false, ◌⊎◌, Option, none, some, String, List, [], ◌∷◌}
use open_allocator.Base.Outcome.{Outcome, ok, err}
use open_allocator.Base.Equality.{contains}
use open_allocator.Cctp.{TxStep}
use open_allocator.Execution.{
  Failure, PlannedBundle, StoreKey, store_key_equality, key_of, leg_key, call_key_of,
}
use open_allocator.Execution.Preparing.{store_completed}
use open_allocator.Execution.Session.{
  Receipt, Event, timed, sent_call, sent_batch, lost_call, lost_batch, hooked, marked, logged,
  saved, Session, Run, continue, handled, catching, ◌>>=◌, World,
}

abbrev pub Store : Type 0
Store = Option (List StoreKey)

abbrev pub Occurs : Event → List Event → Type 0
Occurs e [] = ⊥
Occurs e (x ∷ tr) = (x ≡ e) ⊎ Occurs e tr

-- What each step keeps. A call goes out on its own only if it is not completed, and is marked at once
-- unless its send raised, there is no store, or the store cannot be written.
pub record Closed (w : World) (I : Store → List Event → Type 0) : Type 0 where
  pub on_timed : (st : Store) (tr : List Event) (n : ℕ) → I st tr → I st (timed n ∷ tr)
  pub on_saved : (st : Store) (tr : List Event) → I st tr → I st (saved ∷ tr)
  pub on_batch :
      (st : Store) (tr : List Event) (steps : List TxStep) (r : Receipt)
      → I st tr
      → I st (sent_batch steps r ∷ tr)
  pub on_lost_batch :
      (st : Store) (tr : List Event) (steps : List TxStep) → I st tr → I st (lost_batch steps ∷ tr)
  pub on_lost_call :
      (st : Store) (tr : List Event) (key : StoreKey)
      → store_completed st key ≡ false
      → I st tr
      → I st (lost_call key ∷ tr)
  pub on_call_unstored :
      (tr : List Event) (key : StoreKey) (r : Receipt) → I none tr → I none (sent_call key r ∷ tr)
  pub on_call_unmarked :
      (keys : List StoreKey) (tr : List Event) (key : StoreKey) (r : Receipt) (f : Failure)
      → contains keys key ≡ false
      → w.mark (sent_call key r ∷ tr) key ≡ err f
      → I (some keys) tr
      → I (some keys) (sent_call key r ∷ tr)
  pub on_call :
      (keys : List StoreKey) (tr : List Event) (item : PlannedBundle) (index : ℕ) (r : Receipt)
      → contains keys (call_key_of item index) ≡ false
      → I (some keys) tr
      → I
          (some (call_key_of item index ∷ keys))
          (marked (call_key_of item index) ∷ sent_call (call_key_of item index) r ∷ tr)
  pub on_hook :
      (st : Store) (tr : List Event) (item : PlannedBundle)
      → I st tr
      → I st (hooked (key_of item) ∷ tr)
  pub on_mark :
      (keys : List StoreKey) (tr : List Event) (item : PlannedBundle)
      → (w.on_submitted ≡ none) ⊎ Occurs (hooked (key_of item)) tr
      → I (some keys) tr
      → I (some (key_of item ∷ keys)) (marked (key_of item) ∷ tr)
  pub on_mark_leg :
      (keys : List StoreKey) (tr : List Event) (leg : String)
      → I (some keys) tr
      → I (some (leg_key leg ∷ keys)) (marked (leg_key leg) ∷ tr)
  pub on_log :
      (st : Store) (tr : List Event) (item : PlannedBundle)
      → (st ≡ none) ⊎ Occurs (marked (key_of item)) tr
      → I st tr
      → I st (logged (key_of item) ∷ tr)

module _ (J : Session → Type 0) where
  abbrev pub Keeps {ℓ} : {A : Type ℓ} → Run A → Type 0
  Keeps m = (s : Session) → J s → J (m s).0

  continue-J {ℓ κ} :
      {A : Type ℓ} {B : Type κ} (p : Session × Outcome Failure A) (rest : A → Run B)
      → J p.0
      → ((a : A) → Keeps (rest a))
      → J (continue p rest).0
  continue-J (s, err f) rest h k = h
  continue-J (s, ok a) rest h k = k a s h

  handled-J {ℓ} :
      {A : Type ℓ} (p : Session × Outcome Failure A) (handler : Failure → Run A)
      → J p.0
      → ((f : Failure) → Keeps (handler f))
      → J (handled p handler).0
  handled-J (s, err f) handler h k = k f s h
  handled-J (s, ok a) handler h k = h

  pub >>=-Keeps {ℓ κ} :
      {A : Type ℓ} {B : Type κ} (m : Run A) (rest : A → Run B)
      → Keeps m
      → ((a : A) → Keeps (rest a))
      → Keeps (m >>= rest)
  >>=-Keeps m rest h k s i = continue-J (m s) rest (h s i) k

  pub catching-Keeps {ℓ} :
      {A : Type ℓ} (m : Run A) (handler : Failure → Run A)
      → Keeps m
      → ((f : Failure) → Keeps (handler f))
      → Keeps (catching m handler)
  catching-Keeps m handler h k s i = handled-J (m s) handler (h s i) k
