-- ===== src/Calldata/Checks.antt =====
-- exec/calldata.py: the checks of a response against its request; exec/client.py: the validators of
-- the models.
use open_allocator.Base.{
  ℕ, ◌-◌, Bool, true, false, not, ◌&&◌, ◌||◌, Option, none, some, String, List, [], ◌∷◌, leb, ltb,
  ◌==◌, if◌then◌else◌, all, is_some, str_eq,
}
use open_allocator.Base.Text.{Text, codes}
use open_allocator.Base.Outcome.{Outcome, ok, err, guard, ◌>>◌}
use open_allocator.Base.Equality.{contains, number_equality}
use open_allocator.Bundle.{BundleToken, max_amount}
use open_allocator.Cctp.{same_text}
use open_allocator.Calldata.Types.{
  CalldataError, mismatch, expired, expiring, unknown_usdc, unknown_decimals, different_decimals,
  referral_unsupported, bad_query, bad_response, InstrumentCalldataQuery, BridgeCalldataQuery,
  CalldataCall, BundleSimulation, InstrumentCalldataResponse, BridgeCalldataResponse,
  CalldataConfig, DepositToken, VaultToken,
}

abbrev pub Checked : Type 0
Checked = Outcome CalldataError (Unit {0})

-- `_require_equal`, of texts up to case and of values that are compared as they are
abbrev pub require_same : String → Text → Text → Checked
require_same field actual expected = guard (same_text actual expected) (mismatch field)

abbrev pub require_equal : String → ℕ → ℕ → Checked
require_equal field actual expected = guard (actual == expected) (mismatch field)

abbrev pub same_flag : Bool → Bool → Bool
same_flag true b = b
same_flag false b = not b

abbrev pub is_nonempty {ℓ} : {A : Type ℓ} → List A → Bool
is_nonempty [] = false
is_nonempty (x ∷ xs) = true

-- `_check_bundle_chain`
unfoldable pub check_bundle_chain : List CalldataCall → ℕ → BundleSimulation → ℕ → Checked
check_bundle_chain calls chain_id simulation quote_block = do
  guard (all (λ (call : CalldataCall). call.chain_id == chain_id) calls) (bad_response "chain")
  guard (simulation.quote_block == quote_block) (bad_response "quote block")

-- The validators of `InstrumentCalldataResponse`
unfoldable pub consistent_response :
    InstrumentCalldataResponse → Outcome CalldataError InstrumentCalldataResponse
unfolding check_bundle_chain
consistent_response response = do
  guard (is_nonempty response.calls) (bad_response "calls")
  check_bundle_chain response.calls response.chain_id response.simulation response.quote_block
  guard (not (response.amount_in == max_amount && not (str_eq response.action "withdraw")))
      (bad_response "amountIn=max")
  ok response

-- The validators of `BridgeCalldataResponse`
unfoldable pub consistent_bridge_response :
    BridgeCalldataResponse → Outcome CalldataError BridgeCalldataResponse
unfolding check_bundle_chain
consistent_bridge_response response = do
  guard (ltb 0 response.amount) (bad_response "amount")
  guard (contains (1000 ∷ 2000 ∷ []) response.min_finality_threshold) (bad_response "threshold")
  guard (is_nonempty response.calls) (bad_response "calls")
  check_bundle_chain response.calls response.from_chain_id response.simulation response.quote_block
  guard (not (response.from_chain_id == response.to_chain_id)) (bad_response "chains")
  guard (same_flag response.fast (response.min_finality_threshold == 1000)) (bad_response "fast")
  ok response

abbrev within_bps : Option ℕ → Bool
within_bps none = true
within_bps (some bps) = leb bps 10000

-- The validators of `InstrumentCalldataQuery`
unfoldable pub valid_query : InstrumentCalldataQuery → Checked
valid_query query = do
  guard (within_bps query.slippage_bps) (bad_query "slippageBps")
  guard (not (query.amount == max_amount && not (str_eq query.action "withdraw")))
      (bad_query "amount=max")

-- The validators of `BridgeCalldataQuery`
unfoldable pub valid_bridge_query : BridgeCalldataQuery → Checked
valid_bridge_query query = do
  guard (ltb 0 query.amount) (bad_query "amount")
  guard (not (query.from_chain_id == query.to_chain_id)) (bad_query "chains")

unfoldable pub ensure_calldata_lifetime : Option ℕ → ℕ → ℕ → Checked
ensure_calldata_lifetime none min_ttl now = ok tt
ensure_calldata_lifetime (some expiry) min_ttl now =
    if leb expiry now
    then err expired
    else if ltb (expiry - now) min_ttl
    then err expiring
    else ok tt

unfoldable pub validate_instrument_calldata :
    InstrumentCalldataResponse → String → Text → String → ℕ → ℕ → ℕ → ℕ → Checked
unfolding ensure_calldata_lifetime
validate_instrument_calldata response instrument_id account action chain_id amount min_ttl now = do
  require_same "instrumentId" (codes response.instrument_id) (codes instrument_id)
  require_same "account" response.account account
  guard (str_eq response.action action) (mismatch "action")
  require_equal "chainId" response.chain_id chain_id
  require_equal "amountIn" response.amount_in amount
  ensure_calldata_lifetime response.expires_at min_ttl now

unfoldable pub ensure_deposit_token : BundleToken → DepositToken → Checked
ensure_deposit_token token_in token = do
  require_same "tokenIn.address" token_in.address token.address
  require_equal "tokenIn.decimals" token_in.decimals token.decimals

unfoldable pub validate_bridge_calldata : BridgeCalldataResponse → ℕ → ℕ → Text → ℕ → Bool → Checked
validate_bridge_calldata response from_chain_id to_chain_id account amount fast = do
  require_equal "fromChainId" response.from_chain_id from_chain_id
  require_equal "toChainId" response.to_chain_id to_chain_id
  require_same "account" response.account account
  require_equal "amount" response.amount amount
  guard (same_flag response.fast fast) (mismatch "fast")

-- `min_ttl_seconds`, with `DEFAULT_MIN_CALLDATA_TTL_SECONDS`
abbrev configured_or : Option ℕ → ℕ → ℕ
configured_or none default = default
configured_or (some seconds) default = seconds

unfoldable pub min_ttl_seconds : CalldataConfig → ℕ
min_ttl_seconds config = configured_or config.min_calldata_ttl_seconds 20

abbrev is_positive : Option ℕ → Bool
is_positive none = false
is_positive (some n) = ltb 0 n

unfoldable pub ensure_calldata_supported : CalldataConfig → Checked
ensure_calldata_supported config =
    guard (not (is_positive config.referral_fee_bps || is_some config.referral_wallet))
      referral_unsupported

-- The decimals that the instruments report for a token, each once.
abbrev reports : ℕ → Text → VaultToken → Option ℕ
reports chain_id address vault = elim vault.token_address [
  | none ↦ none
  | some token ↦
      if vault.chain_id == chain_id && same_text token address then vault.token_decimals else none
]

abbrev add_new : Option ℕ → List ℕ → List ℕ
add_new none found = found
add_new (some n) found = if contains found n then found else n ∷ found

unfoldable pub reported_decimals : ℕ → Text → List VaultToken → List ℕ
reported_decimals chain_id address [] = []
reported_decimals chain_id address (vault ∷ vaults) =
    add_new (reports chain_id address vault) (reported_decimals chain_id address vaults)

abbrev one_decimals : ℕ → Text → List ℕ → Outcome CalldataError DepositToken
one_decimals chain_id address [] = err (unknown_decimals chain_id)
one_decimals chain_id address (n ∷ []) =
    ok (record { chain_id = chain_id; address = address; decimals = n })
one_decimals chain_id address (n ∷ m ∷ ns) = err (different_decimals (n ∷ m ∷ ns))

-- `deposit_token`, over `chains.usdc_address`
unfoldable pub deposit_token :
    (ℕ → Option Text) → ℕ → List VaultToken → Outcome CalldataError DepositToken
unfolding reported_decimals
deposit_token usdc_address chain_id vaults = elim (usdc_address chain_id) [
  | none ↦ err (unknown_usdc chain_id)
  | some address ↦ one_decimals chain_id address (reported_decimals chain_id address vaults)
]
