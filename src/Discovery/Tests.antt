-- ===== src/Discovery/Tests.antt =====
-- Three instruments on two pages, of which one cannot be read and one is too small.
use open_allocator.Base.{
  ℕ, ◌+◌, ◌≡◌, refl, Option, none, some, String, List, [], ◌∷◌, take, drop, length, filter, arith,
}
use open_allocator.Base.Outcome.{Outcome, ok, err}
use open_allocator.Base.Equality.{contains, string_equality, number_equality}
use open_allocator.Eligibility.{allowlist, discovery_eligible}
use open_allocator.Policy.{Vault}
use open_allocator.Policy.Samples.{vault, baseline, hundredths}
use open_allocator.Discovery.{
  ReadError, unreadable_item, ListInstruments, allowed, discover_instruments,
}
use open_allocator.Discovery.Pages.{page_at, readable, unreadable, discover_instruments-all}

abbrev served : List (Option (Vault ℕ))
served = some vault ∷ none ∷ some (record vault { instrument_id = "small"; tvl_usd = 1 }) ∷ []

abbrev list_instruments : ListInstruments (Option (Vault ℕ))
list_instruments none = ok (page_at served 2 0)
list_instruments (some (limit, offset)) = ok (page_at served limit offset)

abbrev to_vault : Option (Vault ℕ) → Outcome ReadError (Vault ℕ)
to_vault none = err (unreadable_item "instrument is missing required field: apy")
to_vault (some v) = ok v

abbrev identify : Option (Vault ℕ) → ℕ → String
identify item position = "<unidentified>"

discovered :
    discover_instruments list_instruments to_vault identify 3 (some baseline)
    ≡ ok (
      vault ∷ [],
      record {
        instrument_id = "<unidentified>";
        reason = "instrument is missing required field: apy";
      }
          ∷ [],
    )
unfolding discover_instruments filter take drop discovery_eligible allowlist contains
discovered = refl

discover_instruments-all_example :
    (discover_instruments list_instruments to_vault identify 3 (some baseline)
      ≡ ok (
        allowed (some baseline) (readable to_vault served),
        unreadable to_vault identify 0 served,
      ))
    × (length (readable to_vault served) + length (unreadable to_vault identify 0 served)
        ≡ length served)
discover_instruments-all_example =
    discover_instruments-all list_instruments to_vault identify served 2 3 (some baseline)
      (record { first = refl; rest = λ asked offset. refl; positive = omega arith }) (omega arith)
      (tt, (tt, (tt, tt)))
