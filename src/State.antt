-- ===== src/State.antt =====
-- core/state.py: the idempotency store of `LocalFsBackend`, and a scope of it as the executors take it.
-- JSON is kept as far as the code looks into it; the version number is left out.
use open_allocator.Base.{
  ◌≡◌, Bool, true, false, Option, none, some, String, List, [], ◌∷◌, is_some, str_eq,
}
use open_allocator.Base.Outcome.{Outcome, ok, err, ◌>>=◌, ◌>>◌, guard}
use open_allocator.Base.Equality.{string_equality}
use open_allocator.Base.Dict.{lookup, insert}
pub mod Marks
mod Tests

-- `StateError`, and Python's `TypeError` for a file that is not a store
pub data StateFailure : Type 0 where
  not_configured bad_payload bad_scopes bad_scope : StateFailure

-- The entry of a key: what was marked, with its value, or another JSON value.
pub data Entry (J : Type 0) : Type 0 where
  completed : Option J → Entry J
  no_object : Entry J

pub data ScopeData (J : Type 0) : Type 0 where
  scope_object : List (String × Entry J) → ScopeData J
  scope_other : ScopeData J

pub data Scopes (J : Type 0) : Type 0 where
  scopes_object : List (String × ScopeData J) → Scopes J
  scopes_other : Scopes J

-- The file: an object, whose scopes may be missing, or another JSON value.
pub data Payload (J : Type 0) : Type 0 where
  object : Option (Scopes J) → Payload J
  no_store : Payload J

-- `LocalFsBackend`, for the idempotency store: whether its path is set, and the file.
pub record Backend (J : Type 0) : Type 0 where
  pub has_path : Bool
  pub file : Option (Payload J)

module _ {J : Type 0} where
  abbrev pub scopes_or_empty : Option (Scopes J) → Scopes J
  scopes_or_empty none = scopes_object []
  scopes_or_empty (some s) = s

  abbrev pub payload_scopes : Option (Payload J) → Outcome StateFailure (Scopes J)
  payload_scopes none = ok (scopes_object [])
  payload_scopes (some no_store) = err bad_payload
  payload_scopes (some (object s)) = ok (scopes_or_empty s)

  -- `_read_idempotency`
  unfoldable pub read_idempotency : Backend J → Outcome StateFailure (Scopes J)
  read_idempotency b = do guard b.has_path not_configured; payload_scopes b.file

  abbrev pub scopes_list : Scopes J → Outcome StateFailure (List (String × ScopeData J))
  scopes_list scopes_other = err bad_scopes
  scopes_list (scopes_object d) = ok d

  abbrev pub entries_of : Option (ScopeData J) → Outcome StateFailure (List (String × Entry J))
  entries_of none = ok []
  entries_of (some scope_other) = err bad_scope
  entries_of (some (scope_object d)) = ok d

  -- `_scope_data`
  unfoldable pub scope_data : Scopes J → String → Outcome StateFailure (List (String × Entry J))
  unfolding lookup
  scope_data scopes scope = do d ← scopes_list scopes; entries_of (lookup scope d)

  -- `LocalFsBackend.is_completed`
  unfoldable pub is_completed : Backend J → String → String → Outcome StateFailure Bool
  unfolding read_idempotency scope_data lookup
  is_completed b scope key = do
    scopes ← read_idempotency b
    d ← scope_data scopes scope
    ok (is_some (lookup key d))

  abbrev pub value_of : Option (Entry J) → Option J
  value_of none = none
  value_of (some no_object) = none
  value_of (some (completed v)) = v

  -- `LocalFsBackend.completed_value`
  unfoldable pub completed_value : Backend J → String → String → Outcome StateFailure (Option J)
  unfolding read_idempotency scope_data lookup
  completed_value b scope key = do
    scopes ← read_idempotency b
    d ← scope_data scopes scope
    ok (value_of (lookup key d))

  -- `LocalFsBackend.mark_completed`; the value is as `json_safe` leaves it.
  unfoldable pub mark_completed :
      Backend J → String → String → Option J → Outcome StateFailure (Backend J)
  unfolding read_idempotency scope_data insert
  mark_completed b scope key value = do
    scopes ← read_idempotency b
    all ← scopes_list scopes
    d ← scope_data scopes scope
    ok (record b {
      file = some (
          object (
            some
              (scopes_object (insert scope (scope_object (insert key (completed value) d)) all))));
    })

-- `ScopedIdempotencyStore`
pub record ScopedStore (J : Type 0) : Type 0 where
  pub backend : Backend J
  pub scope : String

module _ {J : Type 0} where
  abbrev pub scoped_is_completed : ScopedStore J → String → Outcome StateFailure Bool
  scoped_is_completed s key = is_completed s.backend s.scope key

  abbrev pub scoped_mark_completed :
      ScopedStore J → String → Option J → Outcome StateFailure (ScopedStore J)
  scoped_mark_completed s key value = do
    b ← mark_completed s.backend s.scope key value
    ok (record s { backend = b })
