-- ===== src/Discovery/Pages.antt =====
-- core/universe.py: that the loop over the pages ends, and with what.
use open_allocator.Base.{
  ℕ, zero, suc, ◌+◌, ◌≤◌, ◌<◌, ◌≡◌, refl, sym, ◌∙◌, ap, inl, inr, false, Bool-cases, Option, none,
  some, String, List, [], ◌∷◌, ◌++◌, take, drop, length, ltb, arith, All,
}
use open_allocator.Base.Outcome.{Outcome, ok, err, ◌>>=◌}
use open_allocator.Policy.{Floats, Vault, Policy}
use open_allocator.Discovery.{
  InstrumentPage, SkippedInstrument, ReadError, unreadable_item, unexpected, ListInstruments,
  more_pages, instrument_items, add_item, read_items, allowed, discover_instruments,
}

module _ {J : Type 0} where
  -- A page of the API: the items from the offset on, at most the limit, and whether any are left.
  abbrev pub page_at : List J → ℕ → ℕ → InstrumentPage J
  page_at all limit offset = record {
    items = take limit (drop offset all);
    pagination = some (record {
      limit = some limit;
      offset = some offset;
      has_more = some (ltb (offset + limit) (length all));
    });
  }

  -- An API that pages through a list: the first page has its own limit, of at least one item.
  pub record Serves (list_instruments : ListInstruments J) (all : List J) (limit : ℕ) : Type 0 where
    pub first : list_instruments none ≡ ok (page_at all limit 0)
    pub rest :
        (asked offset : ℕ) → list_instruments (some (asked, offset)) ≡ ok (page_at all asked offset)
    pub positive : 0 < limit

  append_nil : (xs : List J) → xs ++ [] ≡ xs
  append_nil [] = refl
  append_nil (x ∷ xs) = ap (λ ys. x ∷ ys) (append_nil xs)

  append_one : (xs : List J) (y : J) (zs : List J) → (xs ++ y ∷ []) ++ zs ≡ xs ++ y ∷ zs
  append_one [] y zs = refl
  append_one (x ∷ xs) y zs = ap (λ ys. x ∷ ys) (append_one xs y zs)

  take_nil : (n : ℕ) → ◌≡◌ {A = List J} (take n []) []
  unfolding take
  take_nil zero = refl
  take_nil (suc n) = refl

  take-drop : (n m k : ℕ) (xs : List J) → k ≡ n + m → take n xs ++ take m (drop n xs) ≡ take k xs
  unfolding take drop
  take-drop zero m k xs e = ap (λ z. take z xs) (let q : m ≡ k = omega arith in q)
  take-drop (suc n) m k [] e = take_nil m ∙ sym (take_nil k)
  take-drop (suc n) m zero (x ∷ xs) e = absurd (omega arith)
  take-drop (suc n) m (suc k) (x ∷ xs) e = ap (λ ys. x ∷ ys) (take-drop n m k xs (omega arith))

  take_long : (n : ℕ) (xs : List J) → length xs ≤ n → take n xs ≡ xs
  unfolding take
  take_long zero [] h = refl
  take_long zero (x ∷ xs) h = absurd (omega arith)
  take_long (suc n) [] h = refl
  take_long (suc n) (x ∷ xs) h = ap (λ ys. x ∷ ys) (take_long n xs (omega arith))

  module _ (list_instruments : ListInstruments J) (all : List J) (limit : ℕ)
      (serves : Serves list_instruments all limit) where
    more_pages-all :
        (fuel offset : ℕ)
        → length all ≤ offset + limit + fuel
        → more_pages list_instruments fuel (page_at all limit offset) (take (offset + limit) all)
          ≡ ok all
    unfolding more_pages
    more_pages-all zero offset h =
        let last : ltb (offset + limit) (length all) ≡ false = ground arith in
        rw last (ap ok (take_long (offset + limit) all (omega arith)))
    more_pages-all (suc fuel) offset h = elim (Bool-cases (ltb (offset + limit) (length all))) [
      | inl p ↦
          let some_left = serves.positive in
          rw (p, serves.rest limit (offset + limit))
            (ap (more_pages list_instruments fuel (page_at all limit (offset + limit)))
                (take-drop (offset + limit) limit (offset + limit + limit) all refl)
              ∙ more_pages-all fuel (offset + limit) (omega arith))
      | inr p ↦ rw p (ap ok (take_long (offset + limit) all (ground arith)))
    ]

    -- As many further requests as there are items are enough to read all of them.
    pub instrument_items-all :
        (fuel : ℕ) → length all ≤ fuel → instrument_items list_instruments fuel ≡ ok all
    unfolding instrument_items take drop
    instrument_items-all fuel h = rw serves.first (
        ap (more_pages list_instruments fuel (page_at all limit 0))
          (ap (λ n. take n all) (let q : limit ≡ 0 + limit = omega arith in q))
        ∙ more_pages-all fuel 0 (omega arith))

module _ {J N : Type 0} (to_vault : J → Outcome ReadError (Vault N)) where
  -- The reading of an item gives a vault, or raises what the item is skipped for.
  abbrev pub IsExpected : Outcome ReadError (Vault N) → Type 0
  IsExpected (ok vault) = Unit
  IsExpected (err (unreadable_item reason)) = Unit
  IsExpected (err (unexpected reason)) = ⊥

  abbrev pub add_readable : Outcome ReadError (Vault N) → List (Vault N) → List (Vault N)
  add_readable (ok vault) vaults = vault ∷ vaults
  add_readable (err reason) vaults = vaults

  -- The items that can be read, in their order.
  unfoldable pub readable : List J → List (Vault N)
  readable [] = []
  readable (item ∷ items) = add_readable (to_vault item) (readable items)

  abbrev pub add_unreadable :
      String → Outcome ReadError (Vault N) → List SkippedInstrument → List SkippedInstrument
  add_unreadable id (ok vault) skipped = skipped
  add_unreadable id (err (unreadable_item reason)) skipped =
      record { instrument_id = id; reason = reason } ∷ skipped
  add_unreadable id (err (unexpected reason)) skipped = skipped

  -- The items that cannot, with their names and the reasons.
  unfoldable pub unreadable : (J → ℕ → String) → ℕ → List J → List SkippedInstrument
  unreadable identify position [] = []
  unreadable identify position (item ∷ items) =
      add_unreadable (identify item position) (to_vault item)
        (unreadable identify (suc position) items)

  read_items_lem :
      (identify : J → ℕ → String) (position : ℕ) (items : List J) (vaults : List (Vault N))
      (skipped : List SkippedInstrument)
      → All (λ item. IsExpected (to_vault item)) items
      → read_items to_vault identify position items (vaults, skipped)
        ≡ ok (vaults ++ readable items, skipped ++ unreadable identify position items)
  unfolding read_items readable unreadable
  read_items_lem identify position [] vaults skipped h =
      ap ok (ap2 (append_nil vaults) (append_nil skipped))
    where
      ap2 :
          {xs ys : List (Vault N)} {us vs : List SkippedInstrument}
          → ys ≡ xs
          → vs ≡ us
          → ◌≡◌ {A = (List (Vault N)) × (List SkippedInstrument)} (xs, us) (ys, vs)
      ap2 e f = cc
  read_items_lem identify position (item ∷ items) vaults skipped h =
      by_answer (to_vault item) h.0
        (λ vs us. read_items_lem identify (suc position) items vs us h.1)
    where
      by_answer :
          (answer : Outcome ReadError (Vault N))
          → IsExpected answer
          → ((vs : List (Vault N)) (us : List SkippedInstrument)
              → read_items to_vault identify (suc position) items (vs, us)
                ≡ ok (vs ++ readable items, us ++ unreadable identify (suc position) items))
          → (add_item to_vault identify
                (record { instrument_id = identify item position; reason = "" })
                answer
                (vaults, skipped)
              >>= read_items to_vault identify (suc position) items)
            ≡ ok (
              vaults ++ add_readable answer (readable items),
              skipped
                  ++ add_unreadable
                      (identify item position)
                      answer
                      (unreadable identify (suc position) items),
            )
      by_answer (ok vault) p rest =
          rest (vaults ++ vault ∷ []) skipped
          ∙ ap (λ vs. ok (vs, skipped ++ unreadable identify (suc position) items))
              (append_one vaults vault (readable items))
      by_answer (err (unreadable_item reason)) p rest =
          rest vaults _
          ∙ ap (λ us. ok (vaults ++ readable items, us))
              (append_one skipped _ (unreadable identify (suc position) items))
      by_answer (err (unexpected reason)) p rest = absurd p

  -- Every item is read or skipped.
  readable-unreadable :
      (identify : J → ℕ → String) (position : ℕ) (items : List J)
      → All (λ item. IsExpected (to_vault item)) items
      → length (readable items) + length (unreadable identify position items) ≡ length items
  unfolding readable unreadable
  readable-unreadable identify position [] h = omega arith
  readable-unreadable identify position (item ∷ items) h =
      by_answer (to_vault item) h.0 (readable-unreadable identify (suc position) items h.1)
    where
      by_answer :
          (answer : Outcome ReadError (Vault N))
          → IsExpected answer
          → length (readable items) + length (unreadable identify (suc position) items)
            ≡ length items
          → length (add_readable answer (readable items))
              + length (
                  add_unreadable
                    (identify item position)
                    answer
                    (unreadable identify (suc position) items))
            ≡ suc (length items)
      by_answer (ok vault) p rest = omega arith
      by_answer (err (unreadable_item reason)) p rest = omega arith
      by_answer (err (unexpected reason)) p rest = absurd p

module _ {J N : Type 0} ⦃F : Floats N⦄ (list_instruments : ListInstruments J)
    (to_vault : J → Outcome ReadError (Vault N)) (identify : J → ℕ → String) where
  -- Where the API pages through a list, with at least one item on a page, and no item's reading raises
  -- other than ValueError and TypeError, discovery ends after at most as many further requests as
  -- there are items. It offers the items that can be read and that the policy lets through, in their
  -- order, skips those that cannot be read, and loses none.
  pub discover_instruments-all :
      (all : List J) (limit fuel : ℕ) (policy : Option (Policy N))
      → Serves list_instruments all limit
      → length all ≤ fuel
      → All (λ item. IsExpected to_vault (to_vault item)) all
      → (discover_instruments list_instruments to_vault identify fuel policy
          ≡ ok (allowed policy (readable to_vault all), unreadable to_vault identify 0 all))
        × (length (readable to_vault all) + length (unreadable to_vault identify 0 all)
            ≡ length all)
  unfolding discover_instruments
  discover_instruments-all all limit fuel policy serves enough expected = (
    rw (instrument_items-all list_instruments all limit serves fuel enough)
        (rw (read_items_lem to_vault identify 0 all [] [] expected) refl),
    readable-unreadable to_vault identify 0 all expected,
  )
