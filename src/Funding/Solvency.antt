-- ===== src/Funding/Solvency.antt =====
-- What a funding check that passes promises of the plan: it can be run from the balances read.
use open_allocator.Base.{
  ℕ, ◌≡◌, ◌↔◌, refl, sym, ap, ◌∙◌, subst, inl, inr, true, Option, none, some, List, [], ◌∷◌, All,
  is_some, arith, Bool-cases, some-inj, Option-cases, ◌&&◌, ◌==◌, if◌then◌else◌,
}
use open_allocator.Base.Int.{ℤ, pos, ◌+ℤ◌, ◌-ℤ◌, ◌≤ℤ◌, max_ℤ}
use open_allocator.Base.Dict.{
  lookup, insert, lookup-insert_self, lookup-insert_other, IsDistinct, insert-IsDistinct,
  All-lookup,
}
use open_allocator.Base.Alls.{All-map}
use open_allocator.Funding.{
  BalanceKey, key_equality, LedgerOperation, Movement, Kind, need, debit, credit, movements, Ledger,
  no_movements, or_nil, spent, walk_step, walk, FundingRequirement, requirement_of, shortfall_of,
  check,
}
use open_allocator.Funding.Balances.{
  Balances, as_held, from_read, change, move, Covered, Runs, Runs-ext, Holds, left_of,
}

module _ (read : BalanceKey → Option ℕ) where
  -- The balances once the ledger's spend is taken from what was read.
  abbrev after : Ledger → Balances
  after l key = left_of (read key) (spent l key)

  abbrev Meets : Ledger → Type 0
  Meets l = (k : BalanceKey) (r : ℤ) → lookup k l.required ≡ some r → Holds (read k) r

  spent-insert :
      (l : Ledger) (key k : BalanceKey) (x : ℤ)
      → spent (record l { running = insert key x l.running }) k
        ≡ (if key_equality.same key k then x else spent l k)
  spent-insert l key k x = elim (Bool-cases (key_equality.same key k)) [
    | inl p ↦ rw p (
        ap or_nil (
          ap (λ z. lookup z (insert key x l.running)) (sym ((key_equality.same_iff key k).0 p))
          ∙ lookup-insert_self key x l.running))
    | inr p ↦ rw p (ap or_nil (lookup-insert_other key k x l.running p))
  ]

  change-need :
      (held : Option ℕ) (s : ℤ) (m : Movement)
      → left_of held s ≡ change (record m { kind = need }) (left_of held s)
  change-need none s m = refl
  change-need (some b) s m = refl

  -- Spending more of a balance takes it from what is left, and a credit adds to it.
  change-debit :
      (held : Option ℕ) (s : ℤ) (m : Movement)
      → left_of held (s +ℤ pos m.amount) ≡ change (record m { kind = debit }) (left_of held s)
  unfolding ◌+ℤ◌ ◌-ℤ◌
  change-debit none s m = refl
  change-debit (some b) s m = ground arith

  change-credit :
      (held : Option ℕ) (s : ℤ) (m : Movement)
      → left_of held (s -ℤ pos m.amount) ≡ change (record m { kind = credit }) (left_of held s)
  unfolding ◌+ℤ◌ ◌-ℤ◌
  change-credit none s m = refl
  change-credit (some b) s m = ground arith

  -- An entry of `running` that is set changes what is left of its balance only.
  left_of-insert :
      (l : Ledger) (m : Movement) (f : ℤ → ℤ)
      → ((held : Option ℕ) (s : ℤ) → left_of held (f s) ≡ change m (left_of held s))
      → (k : BalanceKey)
      → after (record l { running = insert m.key (f (spent l m.key)) l.running }) k
        ≡ move m (after l) k
  unfolding move
  left_of-insert l m f h k =
      ap (left_of (read k)) (spent-insert l m.key k (f (spent l m.key)))
      ∙ elim (Bool-cases (key_equality.same m.key k)) [
        | inl p ↦ rw p (
            ap (λ z. left_of (read k) (f (spent l z))) ((key_equality.same_iff m.key k).0 p)
            ∙ h (read k) (spent l k))
        | inr p ↦ rw p refl
      ]

  after-walk_step :
      (kind : Kind) (l : Ledger) (m : Movement) (k : BalanceKey)
      → after (walk_step l (record m { kind = kind })) k
        ≡ move (record m { kind = kind }) (after l) k
  unfolding walk_step
  after-walk_step need l m k =
      unfold move in
      elim (Bool-cases (key_equality.same m.key k)) [
        | inl p ↦ rw p (change-need (read k) (spent l k) m)
        | inr p ↦ rw p refl
      ]
  after-walk_step debit l m k =
      left_of-insert l (record m { kind = debit }) (λ s. s +ℤ pos m.amount)
        (λ held s. change-debit held s m) k
  after-walk_step credit l m k =
      left_of-insert l (record m { kind = credit }) (λ s. s -ℤ pos m.amount)
        (λ held s. change-credit held s m) k

  -- Where the need of a balance is noted, it holds exactly if the movement is covered, and the
  -- balance's earlier need held.
  Holds-max :
      (held : Option ℕ) (r s : ℤ) (amount : ℕ)
      → Holds held (max_ℤ r (s +ℤ pos amount))
        ↔ (Holds held r × ((b : ℤ) × (left_of held s ≡ some b) × (pos amount ≤ℤ b)))
  unfolding max_ℤ ◌+ℤ◌ ◌-ℤ◌
  Holds-max none r s amount = (λ h. absurd (let z = h.1 in cc), λ h. absurd (let z = h.0.1 in cc))
  Holds-max (some held) r s amount = (
    λ h.
        let (b, q, g) = h in
        let e : held ≡ b = some-inj q in
        ((held, refl, ground arith), (pos held -ℤ s, refl, ground arith)),
    λ h. (held, refl, ground arith),
  )

  Holds-nil : (held : Option ℕ) (s : ℤ) (x : ℤ) → left_of held s ≡ some x → Holds held (pos 0)
  Holds-nil none s x h = absurd (let z = h in cc)
  Holds-nil (some b) s x h = (b, refl, omega arith)

  noted : Ledger → Movement → ℤ
  noted l m = max_ℤ (or_nil (lookup m.key l.required)) (spent l m.key +ℤ pos m.amount)

  Meets-need :
      (l : Ledger) (m : Movement)
      → Meets (walk_step l (record m { kind = need }))
        ↔ (Meets l × Covered (record m { kind = need }) (after l m.key))
  unfolding walk_step noted
  Meets-need l m = (
    λ h.
        let (old, new) =
          (Holds-max (read m.key) (or_nil (lookup m.key l.required)) (spent l m.key) m.amount).0
            (h m.key (noted l m) (lookup-insert_self m.key (noted l m) l.required)) in
        (
          λ k r q. elim (Bool-cases (key_equality.same m.key k)) [
            | inl p ↦
                let e = (key_equality.same_iff m.key k).0 p in
                let found : or_nil (lookup m.key l.required) ≡ r =
                  ap or_nil (ap (λ z. lookup z l.required) e ∙ q) in
                subst (λ z. Holds (read z) r) e (subst (Holds (read m.key)) found old)
            | inr p ↦ h k r (lookup-insert_other m.key k (noted l m) l.required p ∙ q)
          ],
          new,
        ),
    λ h k r q. elim (Bool-cases (key_equality.same m.key k)) [
      | inl p ↦
          let e = (key_equality.same_iff m.key k).0 p in
          let found : noted l m ≡ r = some-inj (
            sym (lookup-insert_self m.key (noted l m) l.required)
            ∙ ap (λ z. lookup z (insert m.key (noted l m) l.required)) e
            ∙ q) in
          let old : Holds (read m.key) (or_nil (lookup m.key l.required)) =
            elim (Option-cases (lookup m.key l.required)) [
              | inl z ↦
                  subst (λ o. Holds (read m.key) (or_nil o)) (sym z)
                    (Holds-nil (read m.key) (spent l m.key) h.1.0 h.1.1)
              | inr (x, z) ↦ subst (λ o. Holds (read m.key) (or_nil o)) (sym z) (h.0 m.key x z)
            ] in
          subst (λ z. Holds (read z) r) e
            (subst (Holds (read m.key)) found (
              (Holds-max (read m.key) (or_nil (lookup m.key l.required)) (spent l m.key) m.amount).1
                (old, h.1)))
      | inr p ↦ h.0 k r (sym (lookup-insert_other m.key k (noted l m) l.required p) ∙ q)
    ],
  )

  Meets-walk_step :
      (kind : Kind) (l : Ledger) (m : Movement)
      → Meets (walk_step l (record m { kind = kind }))
        ↔ (Meets l × Covered (record m { kind = kind }) (after l m.key))
  Meets-walk_step need l m = Meets-need l m
  Meets-walk_step debit l m = unfold walk_step in (λ h. (h, tt), λ h. h.0)
  Meets-walk_step credit l m = unfold walk_step in (λ h. (h, tt), λ h. h.0)

  -- The needs that a walk notes hold exactly if the movements run from what is left.
  Meets-walk : (l : Ledger) (ms : List Movement) → Meets (walk l ms) ↔ (Meets l × Runs (after l) ms)
  unfolding walk
  Meets-walk l [] = (λ h. (h, tt), λ h. h.0)
  Meets-walk l (m ∷ ms) =
      let same = λ (k : BalanceKey). after-walk_step m.kind l m k in
      let one = Meets-walk_step m.kind l m in
      let rest = Meets-walk (walk_step l m) ms in
      (
        λ h.
            let (first, runs) = rest.0 h in
            let (old, covered) = one.0 first in
            (old, (covered, Runs-ext (after (walk_step l m)) (move m (after l)) ms same runs)),
        λ h. rest.1 (
          one.1 (h.0, h.1.0),
          Runs-ext (move m (after l)) (after (walk_step l m)) ms (λ k. sym (same k)) h.1.1,
        ),
      )

  left_of-pos : (held : Option ℕ) → left_of held (pos 0) ≡ as_held held
  unfolding ◌-ℤ◌
  left_of-pos none = refl
  left_of-pos (some b) = ground arith

  after-no_movements : (k : BalanceKey) → after no_movements k ≡ from_read read k
  unfolding lookup
  after-no_movements k = left_of-pos (read k)

walk_step-IsDistinct :
    (kind : Kind) (l : Ledger) (m : Movement)
    → IsDistinct l.required
    → IsDistinct (walk_step l (record m { kind = kind })).required
unfolding walk_step
walk_step-IsDistinct need l m h = insert-IsDistinct m.key _ l.required h
walk_step-IsDistinct debit l m h = h
walk_step-IsDistinct credit l m h = h

walk-IsDistinct :
    (l : Ledger) (ms : List Movement) → IsDistinct l.required → IsDistinct (walk l ms).required
unfolding walk
walk-IsDistinct l [] h = h
walk-IsDistinct l (m ∷ ms) h =
    walk-IsDistinct (walk_step l m) ms (walk_step-IsDistinct m.kind l m h)

abbrev pub IsOk : FundingRequirement → Type 0
IsOk r = r.is_ok ≡ true

requirement_of-Holds :
    (l : Ledger) (read : BalanceKey → Option ℕ) (key : BalanceKey) (amount : ℤ)
    → IsOk (requirement_of l read (key, amount)) ↔ Holds (read key) amount
unfolding requirement_of ◌-ℤ◌
requirement_of-Holds l read key amount = by_read (read key) refl
  where
    by_read :
        (o : Option ℕ)
        → read key ≡ o
        → ((is_some (read key) && shortfall_of (read key) amount == 0) ≡ true)
          ↔ Holds (read key) amount
    by_read none q = (λ h. absurd (ground arith), λ h. absurd (let z = sym q ∙ h.1 in cc))
    by_read (some b) q =
        (λ h. (b, q, ground arith), λ h. let e = some-inj (sym q ∙ h.1) in ground arith)

-- Every requirement of a funding check is met exactly when the plan runs from the balances read:
-- before each spend, its balance is known and holds the amount, after what the plan's earlier
-- bundles spent and conservatively received.
pub check_iff :
    (ops : List LedgerOperation) (read : BalanceKey → Option ℕ) (slippage : ℤ)
    → All IsOk (check ops read slippage) ↔ Runs (from_read read) (movements ops slippage)
unfolding check
check_iff ops read slippage =
    let ms = movements ops slippage in
    let l = walk no_movements ms in
    let items =
      All-map IsOk (λ (x : BalanceKey × ℤ). Holds (read x.0) x.1) (requirement_of l read)
        (λ x. requirement_of-Holds l read x.0 x.1) l.required in
    let looked =
      All-lookup (λ k r. Holds (read k) r) l.required (walk-IsDistinct no_movements ms tt) in
    let walked = Meets-walk read no_movements ms in
    (
      λ h.
          Runs-ext (after read no_movements) (from_read read) ms (after-no_movements read)
            (walked.0 (looked.0 (items.0 h))).1,
      λ h. items.1 (
          looked.1 (
            walked.1 (
              λ k r q. absurd (let z = q in cc),
              Runs-ext (from_read read) (after read no_movements) ms
                  (λ k. sym (after-no_movements read k)) h,
            ))),
    )
