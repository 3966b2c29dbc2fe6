-- ===== src/Discovery.antt =====
-- core/universe.py: the discovery of the instruments, page by page. An item is JSON that the API
-- serves, `to_vault` the reading of its fields, and the client the call of the API.
use open_allocator.Base.{
  ℕ, zero, suc, ◌+◌, Bool, true, false, Option, none, some, String, List, [], ◌∷◌, ◌++◌, filter,
  if◌then◌else◌, is_some,
}
use open_allocator.Base.Outcome.{Outcome, ok, err, ◌>>=◌}
use open_allocator.Base.Equality.{contains, string_equality}
use open_allocator.Policy.{Floats, Vault, Policy}
use open_allocator.Eligibility.{discovery_eligible}
pub mod Pages
mod Tests

pub record Pagination : Type 0 where
  pub limit : Option ℕ
  pub offset : Option ℕ
  pub has_more : Option Bool

pub record InstrumentPage (J : Type 0) : Type 0 where
  pub items : List J
  pub pagination : Option Pagination

-- A page that says there is more but not where it stands, what the client raises, and the loop's end
-- before the last page, which only the fuel of the model gives.
pub data DiscoveryError : Type 0 where
  missing_pagination : DiscoveryError
  missing_field from_client from_reading : String → DiscoveryError
  out_of_fuel : DiscoveryError

pub record SkippedInstrument : Type 0 where
  pub instrument_id : String
  pub reason : String

-- What the reading of an item raises: a ValueError or TypeError, for which the item is skipped, or
-- another exception.
pub data ReadError : Type 0 where
  unreadable_item unexpected : String → ReadError

-- `list_instruments(limit=..., offset=...)`; none is the call without arguments.
abbrev pub ListInstruments : Type 0 → Type 0
ListInstruments J = Option (ℕ × ℕ) → Outcome DiscoveryError (InstrumentPage J)

-- `bool(...)` of a value that may be missing
abbrev pub is_set : Option Bool → Bool
is_set none = false
is_set (some b) = b

abbrev pub pagination_has_more : Option Pagination → Bool
pagination_has_more none = false
pagination_has_more (some p) = is_set p.has_more

-- `_required`
abbrev required : String → Option ℕ → Outcome DiscoveryError ℕ
required name none = err (missing_field name)
required name (some n) = ok n

-- The next request, from `_required_pagination`
abbrev pub next_page : Option Pagination → Outcome DiscoveryError (ℕ × ℕ)
next_page none = err missing_pagination
next_page (some p) = do
  limit ← required "limit" p.limit
  offset ← required "offset" p.offset
  ok (limit, offset + limit)

module _ {J : Type 0} (list_instruments : ListInstruments J) where
  -- `while _has_more(response)`, with the items so far
  unfoldable pub more_pages : ℕ → InstrumentPage J → List J → Outcome DiscoveryError (List J)
  more_pages zero response instruments =
      if pagination_has_more response.pagination then err out_of_fuel else ok instruments
  more_pages (suc fuel) response instruments =
      if pagination_has_more response.pagination
      then (do
        request ← next_page response.pagination
        next ← list_instruments (some request)
        more_pages fuel next (instruments ++ next.items))
      else ok instruments

  unfoldable pub instrument_items : ℕ → Outcome DiscoveryError (List J)
  unfolding more_pages
  instrument_items fuel = do
    response ← list_instruments none
    more_pages fuel response response.items

module _ {J N : Type 0} (to_vault : J → Outcome ReadError (Vault N))
    (identify : J → ℕ → String) where
  -- The vaults that can be read and the items that cannot, over `_identify`
  abbrev pub add_item :
      SkippedInstrument
      → Outcome ReadError (Vault N)
      → (List (Vault N)) × (List SkippedInstrument)
      → Outcome DiscoveryError ((List (Vault N)) × (List SkippedInstrument))
  add_item skip (ok vault) (vaults, skipped) = ok (vaults ++ vault ∷ [], skipped)
  add_item skip (err (unreadable_item reason)) (vaults, skipped) =
      ok (vaults, skipped ++ record skip { reason = reason } ∷ [])
  add_item skip (err (unexpected reason)) found = err (from_reading reason)

  unfoldable pub read_items :
      ℕ
      → List J
      → (List (Vault N)) × (List SkippedInstrument)
      → Outcome DiscoveryError ((List (Vault N)) × (List SkippedInstrument))
  read_items position [] found = ok found
  read_items position (item ∷ items) found = do
    next ←
        add_item (record { instrument_id = identify item position; reason = "" }) (to_vault item)
          found
    read_items (suc position) items next

module _ {N : Type 0} ⦃F : Floats N⦄ where
  abbrev pub allowed : Option (Policy N) → List (Vault N) → List (Vault N)
  allowed none vaults = vaults
  allowed (some policy) vaults = filter (λ v. discovery_eligible v policy) vaults

  module _ {J : Type 0} (list_instruments : ListInstruments J)
      (to_vault : J → Outcome ReadError (Vault N)) (identify : J → ℕ → String) where
    unfoldable pub discover_instruments :
        ℕ → Option (Policy N) → Outcome DiscoveryError ((List (Vault N)) × (List SkippedInstrument))
    unfolding instrument_items read_items
    discover_instruments fuel policy = do
      instruments ← instrument_items list_instruments fuel
      found ← read_items to_vault identify 0 instruments ([], [])
      ok (allowed policy found.0, found.1)
