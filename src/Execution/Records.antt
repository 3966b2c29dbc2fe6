-- ===== src/Execution/Records.antt =====
-- The order in which what was done is recorded: the caller's hook, the store, the allocation log.
use open_allocator.Base.{◌≡◌, refl, true, ◌⊎◌, inl, inr, Option, none, some, List, [], ◌∷◌, is_some}
use open_allocator.Execution.{TxPlan, StoreKey, bundle_key, call_key, leg_key}
use open_allocator.Execution.Signers.{Signer}
use open_allocator.Execution.Session.{
  Event, timed, sent_call, sent_batch, lost_call, lost_batch, hooked, marked, logged, saved, World,
}
use open_allocator.Execution.Steps.{Store, Closed, Occurs}
use open_allocator.Execution.Passes.{execute_plan-Keeps}
use open_allocator.Execution.Reruns.{begun, after}

-- Before a mark of a bundle the hook saw it, and before a log entry the bundle was marked.
abbrev pub IsOrdered : List Event → Type 0
IsOrdered [] = Unit
IsOrdered (marked (bundle_key id digest) ∷ tr) =
    Occurs (hooked (bundle_key id digest)) tr × IsOrdered tr
IsOrdered (marked (call_key id digest index) ∷ tr) = IsOrdered tr
IsOrdered (marked (leg_key leg) ∷ tr) = IsOrdered tr
IsOrdered (logged key ∷ tr) = Occurs (marked key) tr × IsOrdered tr
IsOrdered (timed n ∷ tr) = IsOrdered tr
IsOrdered (sent_call key r ∷ tr) = IsOrdered tr
IsOrdered (sent_batch steps r ∷ tr) = IsOrdered tr
IsOrdered (lost_call key ∷ tr) = IsOrdered tr
IsOrdered (lost_batch steps ∷ tr) = IsOrdered tr
IsOrdered (hooked key ∷ tr) = IsOrdered tr
IsOrdered (saved ∷ tr) = IsOrdered tr

abbrev IsRecorded : Store → List Event → Type 0
IsRecorded st tr = (is_some st ≡ true) × IsOrdered tr

given : {A B : Type 0} (o : Option A) → is_some o ≡ true → (o ≡ none) ⊎ B → B
given none h k = cc
given (some a) h (inl e) = absurd cc
given (some a) h (inr b) = b

IsRecorded-Closed : (w : World) → is_some w.on_submitted ≡ true → Closed w IsRecorded
IsRecorded-Closed w hook = record {
  on_timed = λ st tr n h. h;
  on_saved = λ st tr h. h;
  on_batch = λ st tr steps r h. h;
  on_lost_batch = λ st tr steps h. h;
  on_lost_call = λ st tr key p h. h;
  on_call_unstored = λ tr key r h. h;
  on_call_unmarked = λ keys tr key r f p m h. h;
  on_call = λ keys tr item index r p h. (refl, h.1);
  on_hook = λ st tr item h. h;
  on_mark = λ keys tr item m h. (refl, (given w.on_submitted hook m, h.1));
  on_mark_leg = λ keys tr leg h. (refl, h.1);
  on_log = λ st tr item m h. (h.0, (given st h.0 m, h.1));
}

-- Where the caller gives a hook and there is a store, a run of a plan, however it ends, marks a bundle
-- as completed only after the hook returned for that bundle, and logs a bundle only after it was marked.
pub execute_plan-IsOrdered :
    (signer : Signer) (w : World) (plan : TxPlan) (keys : List StoreKey)
    → is_some w.on_submitted ≡ true
    → IsOrdered (after signer w plan (some keys)).trace
execute_plan-IsOrdered signer w plan keys hook =
    (execute_plan-Keeps w IsRecorded (IsRecorded-Closed w hook) signer plan (begun (some keys))
      (refl, tt)).1
