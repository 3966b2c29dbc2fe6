-- ===== src/State/Marks.antt =====
-- What a mark in the idempotency store changes, and what it leaves.
use open_allocator.Base.{
  ◌≡◌, ◌≢◌, refl, sym, ap, ◌∙◌, subst, Bool, true, false, Option, some, String, List, is_some, inl,
  inr, Bool-cases, ◌⊎◌,
}
use open_allocator.Base.Outcome.{Outcome, ok, ◌>>=◌, >>=-eq-ok, ok-injective, guard, guard-eq-ok}
use open_allocator.Base.Equality.{string_equality}
use open_allocator.Base.Dict.{lookup, insert, lookup-insert_self, lookup-insert_other}
use open_allocator.State.{
  StateFailure, not_configured, Entry, completed, ScopeData, scope_object, Scopes, scopes_object,
  scopes_other, object, Backend, read_idempotency, scope_data, scopes_list, entries_of,
  is_completed, completed_value, value_of, mark_completed,
}

differs : (a b : String) → a ≢ b → string_equality.same a b ≡ false
differs a b h = elim (Bool-cases (string_equality.same a b)) [
  | inl p ↦ absurd (h ((string_equality.same_iff a b).0 p))
  | inr p ↦ p
]

module _ {J : Type 0} where
  scopes_list-eq-ok :
      (s : Scopes J) (all : List (String × ScopeData J))
      → scopes_list s ≡ ok all
      → s ≡ scopes_object all
  scopes_list-eq-ok (scopes_object d) all h = ap scopes_object (ok-injective h)
  scopes_list-eq-ok scopes_other all h = absurd cc

  -- The file after a mark, where the scope held the entries `d` of the scopes `all`.
  abbrev written :
      Backend J
      → String
      → String
      → Option J
      → List (String × ScopeData J)
      → List (String × Entry J)
      → Backend J
  written b scope key value all d = record b {
    file = some (
        object (
          some (scopes_object (insert scope (scope_object (insert key (completed value) d)) all))));
  }

  -- A mark that succeeds, taken apart.
  abbrev IsMark : Backend J → String → String → Option J → Backend J → Type 0
  IsMark b scope key value after =
      (all : List (String × ScopeData J)) × (d : List (String × Entry J)) × (read_idempotency b
        ≡ ok (scopes_object all))
      × (entries_of (lookup scope all) ≡ ok d)
      × (written b scope key value all d ≡ after)

  mark_completed-IsMark :
      (b after : Backend J) (scope key : String) (value : Option J)
      → mark_completed b scope key value ≡ ok after
      → IsMark b scope key value after
  unfolding mark_completed scope_data
  mark_completed-IsMark b after scope key value h =
      let (scopes, e, r) = >>=-eq-ok (read_idempotency b) _ h in
      let (all, f, t) = >>=-eq-ok (scopes_list scopes) _ r in
      let (d, g, u) = >>=-eq-ok (scope_data scopes scope) _ t in
      let q = scopes_list-eq-ok scopes all f in
      (all, d, e ∙ ap ok q, subst (λ z. scope_data z scope ≡ ok d) q g, ok-injective u)

  read_idempotency-has_path :
      (b : Backend J) (s : Scopes J) → read_idempotency b ≡ ok s → b.has_path ≡ true
  unfolding read_idempotency
  read_idempotency-has_path b s h =
      guard-eq-ok b.has_path not_configured (>>=-eq-ok (guard b.has_path not_configured) _ h).1

  read_idempotency-written :
      (b : Backend J) (scope key : String) (value : Option J) (all : List (String × ScopeData J))
      (d : List (String × Entry J))
      → read_idempotency b ≡ ok (scopes_object all)
      → read_idempotency (written b scope key value all d)
        ≡ ok (scopes_object (insert scope (scope_object (insert key (completed value) d)) all))
  unfolding read_idempotency
  read_idempotency-written b scope key value all d h =
      rw (read_idempotency-has_path b (scopes_object all) h) refl

  -- The tests of a store whose scopes were read.
  is_completed-read :
      (b : Backend J) (scope key : String) (all : List (String × ScopeData J))
      → read_idempotency b ≡ ok (scopes_object all)
      → is_completed b scope key
        ≡ (entries_of (lookup scope all) >>= λ d. ok (is_some (lookup key d)))
  unfolding is_completed scope_data
  is_completed-read b scope key all h = rw h refl

  completed_value-read :
      (b : Backend J) (scope key : String) (all : List (String × ScopeData J))
      → read_idempotency b ≡ ok (scopes_object all)
      → completed_value b scope key
        ≡ (entries_of (lookup scope all) >>= λ d. ok (value_of (lookup key d)))
  unfolding completed_value scope_data
  completed_value-read b scope key all h = rw h refl

  -- A key that was marked is completed in its scope, with the value that was given.
  pub mark_completed_lem :
      (b after : Backend J) (scope key : String) (value : Option J)
      → mark_completed b scope key value ≡ ok after
      → (is_completed after scope key ≡ ok true) × (completed_value after scope key ≡ ok value)
  mark_completed_lem b after scope key value h =
      let (all, d, r, e, w) = mark_completed-IsMark b after scope key value h in
      let new = insert scope (scope_object (insert key (completed value) d)) all in
      let read = read_idempotency-written b scope key value all d r in
      let here = lookup-insert_self scope (scope_object (insert key (completed value) d)) all in
      let found = lookup-insert_self key (completed value) d in
      subst (λ z. (is_completed z scope key ≡ ok true) × (completed_value z scope key ≡ ok value)) w
        (
          is_completed-read (written b scope key value all d) scope key new read
              ∙ rw (here, found) refl,
          completed_value-read (written b scope key value all d) scope key new read
              ∙ rw (here, found) refl,
        )

  -- Whether a key is completed, by the entries of its scope.
  abbrev tested : Option (ScopeData J) → String → Outcome StateFailure Bool
  tested o key = entries_of o >>= λ d. ok (is_some (lookup key d))

  tested-same_scope :
      (scope key name : String) (value : Option J) (all : List (String × ScopeData J))
      (d : List (String × Entry J))
      → entries_of (lookup scope all) ≡ ok d
      → key ≢ name
      → tested
          (lookup scope (insert scope (scope_object (insert key (completed value) d)) all))
          name
        ≡ tested (lookup scope all) name
  tested-same_scope scope key name value all d e n =
      rw
        (
          lookup-insert_self scope (scope_object (insert key (completed value) d)) all,
          lookup-insert_other key name (completed value) d (differs key name n),
          e,
        )
        refl

  tested-written :
      (scope key other name : String) (value : Option J) (all : List (String × ScopeData J))
      (d : List (String × Entry J))
      → entries_of (lookup scope all) ≡ ok d
      → (scope ≢ other) ⊎ (key ≢ name)
      → tested
          (lookup other (insert scope (scope_object (insert key (completed value) d)) all))
          name
        ≡ tested (lookup other all) name
  tested-written scope key other name value all d e (inl n) =
      rw
        (lookup-insert_other scope other (scope_object (insert key (completed value) d)) all
          (differs scope other n))
        refl
  tested-written scope key other name value all d e (inr n) =
      elim (Bool-cases (string_equality.same scope other)) [
        | inl p ↦
            subst
              (λ z.
                tested (lookup z (insert scope (scope_object (insert key (completed value) d)) all))
                  name
                ≡ tested (lookup z all) name)
              ((string_equality.same_iff scope other).0 p)
              (tested-same_scope scope key name value all d e n)
        | inr p ↦
            rw
              (lookup-insert_other scope other (scope_object (insert key (completed value) d)) all
                p)
              refl
      ]

  -- A mark leaves the completion of every other key, and of every key of another scope, as it was.
  pub mark_completed-other :
      (b after : Backend J) (scope key other name : String) (value : Option J)
      → mark_completed b scope key value ≡ ok after
      → (scope ≢ other) ⊎ (key ≢ name)
      → is_completed after other name ≡ is_completed b other name
  mark_completed-other b after scope key other name value h n =
      let (all, d, r, e, w) = mark_completed-IsMark b after scope key value h in
      let new = insert scope (scope_object (insert key (completed value) d)) all in
      let read = read_idempotency-written b scope key value all d r in
      subst (λ z. is_completed z other name ≡ is_completed b other name) w
        (is_completed-read (written b scope key value all d) other name new read
          ∙ tested-written scope key other name value all d e n
          ∙ sym (is_completed-read b other name all r))
