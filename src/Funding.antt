-- ===== src/Funding.antt =====
-- exec/funding.py: the ledger of what a plan spends, against what the account holds.
use open_allocator.Base.{
  ℕ, ◌+◌, ◌-◌, ◌*◌, ◌/◌, Bool, true, false, ◌&&◌, not, Option, none, some, String, List, [], ◌∷◌,
  ◌++◌, map, all, is_some, ltb, leb, ◌==◌, if◌then◌else◌,
}
use open_allocator.Base.Int.{ℤ, pos, pos_part, ◌+ℤ◌, ◌-ℤ◌, max_ℤ}
use open_allocator.Base.Text.{Text, casefold}
use open_allocator.Base.Equality.{Equality, contains, string_equality}
use open_allocator.Base.Dict.{lookup, insert}
use open_allocator.Bundle.{BundleRequirement, TxBundle}
mod Keys
unfoldable pub use Keys.{key_equality}
pub use Keys.*
pub mod Reading
pub mod Balances
pub mod Solvency
pub mod Sufficient
mod Tests

-- `LedgerOperation`
pub record LedgerOperation : Type 0 where
  pub chain_id : ℕ
  pub bundles : List TxBundle
  pub gas_token : Option Text
  pub gas_charge_raw : Option ℕ

pub data Kind : Type 0 where
  need debit credit : Kind

-- `_Movement`
pub record Movement : Type 0 where
  pub kind : Kind
  pub key : BalanceKey
  pub account : Text
  pub token : Text
  pub amount : ℕ
  pub bundle_id : Option String
  pub gas_charge : Bool

-- `key_for`
unfoldable pub key_for : ℕ → Text → Text → BalanceKey
unfolding casefold
key_for chain_id account token = record {
  chain_id = chain_id;
  account = casefold account;
  token = casefold token;
}

abbrev pub bps : ℕ
bps = 10000

abbrev haircut_of : ℤ → ℕ
haircut_of slippage = if ltb bps (pos_part slippage) then bps else pos_part slippage

-- `conservative_output`
unfoldable pub conservative_output : TxBundle → ℤ → ℕ
conservative_output bundle slippage = elim bundle.min_out [
  | some least ↦ least
  | none ↦ elim bundle.expected_out [
    | none ↦ 0
    | some expected ↦ expected * (bps - haircut_of slippage) / bps
  ]
]

abbrev pub or_zero : Option (Text × ℕ) → Text → Text × ℕ
or_zero none token = (token, 0)
or_zero (some found) token = found

-- What a bundle requires of each balance, under the first spelling of the token.
unfoldable pub needs_from :
    TxBundle
    → List BundleRequirement
    → List (BalanceKey × (Text × ℕ))
    → List (BalanceKey × (Text × ℕ))
unfolding key_for lookup insert
needs_from bundle [] needs = needs
needs_from bundle (item ∷ items) needs =
    let key = key_for bundle.chain_id bundle.account item.token in
    let found = or_zero (lookup key needs) item.token in
    needs_from bundle items (insert key (found.0, found.1 + item.amount) needs)

-- A requirement is spent once it is met.
unfoldable pub spend : BalanceKey → Text → Text → ℕ → Option String → Bool → List Movement
spend key account token amount bundle_id gas =
    record {
      kind = need;
      key = key;
      account = account;
      token = token;
      amount = amount;
      bundle_id = bundle_id;
      gas_charge = gas;
    }
    ∷ record {
      kind = debit;
      key = key;
      account = account;
      token = token;
      amount = amount;
      bundle_id = bundle_id;
      gas_charge = false;
    }
    ∷ []

unfoldable pub spend_all : TxBundle → List (BalanceKey × (Text × ℕ)) → List Movement
unfolding spend
spend_all bundle [] = []
spend_all bundle ((key, (token, amount)) ∷ needs) =
    spend key bundle.account token amount (some bundle.bundle_id) false ++ spend_all bundle needs

unfoldable pub credits : TxBundle → ℤ → List Movement
unfolding conservative_output key_for
credits bundle slippage =
    if ltb 0 (conservative_output bundle slippage)
    then record {
      kind = credit;
      key = key_for bundle.chain_id bundle.account bundle.token_out.address;
      account = bundle.account;
      token = bundle.token_out.address;
      amount = conservative_output bundle slippage;
      bundle_id = some bundle.bundle_id;
      gas_charge = false;
    }
      ∷ []
    else []

unfoldable pub bundle_movements : List TxBundle → ℤ → List Movement
unfolding needs_from spend_all credits
bundle_movements [] slippage = []
bundle_movements (bundle ∷ bundles) slippage =
    spend_all bundle (needs_from bundle bundle.requires [])
    ++ (credits bundle slippage ++ bundle_movements bundles slippage)

-- The account of the last bundle, which pays the operation's gas.
abbrev pub last_account : List TxBundle → Text
last_account [] = []
last_account (bundle ∷ []) = bundle.account
last_account (bundle ∷ next ∷ bundles) = last_account (next ∷ bundles)

unfoldable pub gas_movements : ℕ → Text → Option Text → Option ℕ → List Movement
unfolding spend key_for
gas_movements chain_id account none charge = []
gas_movements chain_id account (some token) none = []
gas_movements chain_id [] (some token) (some charge) = []
gas_movements chain_id (c ∷ account) (some token) (some charge) =
    spend (key_for chain_id (c ∷ account) token) (c ∷ account) token charge none true

-- `_movements`
unfoldable pub movements : List LedgerOperation → ℤ → List Movement
unfolding bundle_movements gas_movements
movements [] slippage = []
movements (op ∷ ops) slippage =
    bundle_movements op.bundles slippage
    ++ (gas_movements op.chain_id (last_account op.bundles) op.gas_token op.gas_charge_raw
        ++ movements ops slippage)

-- The dictionaries that `check` fills. `running` is the net spend of each balance so far.
pub record Ledger : Type 0 where
  pub running : List (BalanceKey × ℤ)
  pub required : List (BalanceKey × ℤ)
  pub tokens : List (BalanceKey × (Text × Text))
  pub bundle_ids : List (BalanceKey × List String)
  pub gas_charged : List BalanceKey

abbrev pub no_movements : Ledger
no_movements = record {
  running = [];
  required = [];
  tokens = [];
  bundle_ids = [];
  gas_charged = [];
}

abbrev pub or_nil : Option ℤ → ℤ
or_nil none = pos 0
or_nil (some x) = x

abbrev pub spent : Ledger → BalanceKey → ℤ
spent l key = or_nil (lookup key l.running)

-- `d.setdefault(k, v)`
abbrev set_default : {V : Type 0} → BalanceKey → V → List (BalanceKey × V) → List (BalanceKey × V)
set_default key v d = elim (lookup key d) [ none ↦ insert key v d | some w ↦ d ]

abbrev names_of : Option (List String) → List String
names_of none = []
names_of (some names) = names

abbrev with_name : Option String → List String → List String
with_name none names = names
with_name (some name) names = if contains names name then names else names ++ name ∷ []

-- The body of the loop of `check`.
unfoldable pub walk_step : Ledger → Movement → Ledger
unfolding lookup insert contains
walk_step l m = elim m.kind [
  | need ↦ record l {
    tokens = set_default m.key (m.account, m.token) l.tokens;
    required =
        insert m.key (max_ℤ (or_nil (lookup m.key l.required)) (spent l m.key +ℤ pos m.amount))
          l.required;
    bundle_ids =
        insert m.key (with_name m.bundle_id (names_of (lookup m.key l.bundle_ids))) l.bundle_ids;
    gas_charged =
        if m.gas_charge && not (contains l.gas_charged m.key)
        then m.key ∷ l.gas_charged
        else l.gas_charged;
  }
  | debit ↦ record l { running = insert m.key (spent l m.key +ℤ pos m.amount) l.running }
  | credit ↦ record l { running = insert m.key (spent l m.key -ℤ pos m.amount) l.running }
]

unfoldable pub walk : Ledger → List Movement → Ledger
unfolding walk_step
walk l [] = l
walk l (m ∷ ms) = walk (walk_step l m) ms

-- `FundingRequirement`
pub record FundingRequirement : Type 0 where
  pub chain_id : ℕ
  pub account : Text
  pub token : Text
  pub required_raw : ℕ
  pub available_raw : Option ℕ
  pub shortfall_raw : ℕ
  pub bundle_ids : List String
  pub includes_gas_charge : Bool
  pub is_ok : Bool

abbrev or_blank : Option (Text × Text) → Text × Text
or_blank none = ([], [])
or_blank (some found) = found

abbrev pub shortfall_of : Option ℕ → ℤ → ℕ
shortfall_of none amount = pos_part amount
shortfall_of (some held) amount = pos_part (amount -ℤ pos held)

-- A key of `required` is one of `tokens` too, set in the same step.
unfoldable pub requirement_of :
    Ledger → (BalanceKey → Option ℕ) → BalanceKey × ℤ → FundingRequirement
unfolding lookup contains
requirement_of l balances (key, amount) =
    let names = or_blank (lookup key l.tokens) in
    record {
      chain_id = key.chain_id;
      account = names.0;
      token = names.1;
      required_raw = pos_part amount;
      available_raw = balances key;
      shortfall_raw = shortfall_of (balances key) amount;
      bundle_ids = names_of (lookup key l.bundle_ids);
      includes_gas_charge = contains l.gas_charged key;
      is_ok = is_some (balances key) && shortfall_of (balances key) amount == 0;
    }

-- `check`
unfoldable pub check : List LedgerOperation → (BalanceKey → Option ℕ) → ℤ → List FundingRequirement
unfolding walk movements requirement_of
check ops balances slippage =
    let l = walk no_movements (movements ops slippage) in map (requirement_of l balances) l.required
