-- ===== src/State/Tests.antt =====
-- The idempotency store at concrete inputs: a mark in a store that holds another scope.
use open_allocator.Base.{◌≡◌, refl, true, false, some, none, String, [], ◌∷◌, inl, eq_iff}
use open_allocator.Base.Outcome.{ok, err}
use open_allocator.State.{
  Backend, object, scopes_object, scope_object, no_store, completed, is_completed, completed_value,
  mark_completed, bad_payload,
}
use open_allocator.State.Marks.{mark_completed_lem, mark_completed-other}

abbrev held : Backend String
held = record {
  has_path = true;
  file =
      some (object (some (scopes_object (("a", scope_object (("k", completed none) ∷ [])) ∷ []))));
}

abbrev marked_held : Backend String
marked_held = record {
  has_path = true;
  file = some (
      object (
        some (
          scopes_object (
            ("a", scope_object (("k", completed none) ∷ []))
            ∷ ("b", scope_object (("k", completed (some "hash")) ∷ []))
            ∷ []))));
}

marks : mark_completed held "b" "k" (some "hash") ≡ ok marked_held
unfolding mark_completed
marks = refl

unreadable : is_completed (record held { file = some no_store }) "a" "k" ≡ err bad_payload
unfolding is_completed
unreadable = refl

mark_completed_lem_example :
    (is_completed marked_held "b" "k" ≡ ok true)
    × (completed_value marked_held "b" "k" ≡ ok (some "hash"))
mark_completed_lem_example = mark_completed_lem held marked_held "b" "k" (some "hash") marks

mark_completed-other_example : is_completed marked_held "a" "k" ≡ is_completed held "a" "k"
mark_completed-other_example =
    mark_completed-other held marked_held "b" "k" "a" "k" (some "hash") marks
      (inl (λ e. let q : false ≡ true = (eq_iff "b" "a").1 e in cc))
