-- ===== src/Execution/Tests.antt =====
-- The execution at concrete inputs: a plan of two bundles on one chain, sent one call at a time.
use open_allocator.Base.{
  ◌≡◌, ◌≢◌, ◌⊎◌, All, length, refl, true, false, none, some, List, [], ◌∷◌, map,
}
use open_allocator.Base.Int.{pos, ◌+ℤ◌, ◌-ℤ◌, max_ℤ}
use open_allocator.Base.Outcome.{ok, err}
use open_allocator.Base.Text.{codes}
use open_allocator.Bundle.{BundleToken}
use open_allocator.Cctp.{TxStep}
use open_allocator.Funding.{key_equality}
use open_allocator.Execution.{
  Failure, broadcast, paymaster, key_error, PlannedBundle, TxPlan, StoreKey, store_key_equality,
  call_key_of, operations, bundles_of, assemble_plan, planned_bundles,
}
use open_allocator.Execution.Grouping.{IsOnChain, IsMerged, operations_lem}
use open_allocator.Execution.Signers.{Signer}
use open_allocator.Execution.Preparing.{store_completed}
use open_allocator.Execution.Session.{Receipt, received, lost, mined, World}
use open_allocator.Execution.Submitting.{execute_plan}
use open_allocator.Execution.Layout.{relaid, planned_bundles-assemble_plan}
use open_allocator.Execution.Reruns.{
  begun, after, Sends, Returns, IsOnce, execute_plan-IsOnce, execute_plan_rerun,
}
use open_allocator.Execution.Records.{IsOrdered, execute_plan-IsOrdered}
use open_allocator.Execution.Refusals.{IsCleared, execute_plan-IsCleared, execute_plan-is_unfit}

abbrev usdc : BundleToken
usdc = record { address = codes "0xusdc"; symbol = none; decimals = 6 }

abbrev approval : TxStep
approval = record {
  to = codes "0xusdc";
  payload = codes "0x01";
  value = 0;
  chain_id = 1;
  kind = "approve";
}

abbrev supply : TxStep
supply = record {
  to = codes "0xpool";
  payload = codes "0x02";
  value = 0;
  chain_id = 1;
  kind = "deposit";
}

abbrev deposit : PlannedBundle
deposit = record {
  bundle = record {
    bundle_id = "leg:0:vault:deposit";
    action = "deposit";
    digest = codes "d0";
    leg_index = 0;
    instrument_id = "vault";
    account = codes "0xsafe";
    chain_id = 1;
    step_indexes = [];
    source = "1tx-calldata";
    endpoint = "GET /instruments/:instrumentId/calldata";
    token_in = usdc;
    token_out = record { address = codes "0xshare"; symbol = none; decimals = 18 };
    amount = 100;
    quote_block = 100;
    expires_at = none;
    requires = record { token = codes "0xUSDC"; amount = 100 } ∷ [];
    leftovers = [];
    expected_out = none;
    min_out = none;
    protocol_gas = some 90000;
    simulated_out = none;
    simulation_scope = some "protocol_bundle";
    simulation_engine = some "wallet_neutral_atomic";
    bridge = none;
    is_loop = false;
  };
  steps = approval ∷ supply ∷ [];
}

abbrev loop : PlannedBundle
loop = record deposit {
  bundle = record deposit.bundle {
    bundle_id = "leg:1:loop:deposit";
    digest = codes "d1";
    is_loop = true;
  };
  steps = supply ∷ [];
}

abbrev second : PlannedBundle
second = record loop { bundle = record loop.bundle { is_loop = false } }

abbrev plan : TxPlan
plan = record {
  steps = approval ∷ supply ∷ supply ∷ [];
  bundles =
      record second.bundle { step_indexes = 2 ∷ [] }
      ∷ record deposit.bundle { step_indexes = 0 ∷ 1 ∷ [] }
      ∷ [];
}

abbrev wallet : Signer
wallet = record {
  has_send_batch = false;
  proposes_asynchronously = false;
  is_deployed = none;
  prepare_batch = none;
}

abbrev receipt : Receipt
receipt = record { transaction_hash = "0xaa"; pending = false; execution_status = mined }

-- The account holds 250 of everything, and every call succeeds.
abbrev world : World
world = record {
  send = λ tr step url. received receipt;
  send_batch = λ tr steps url. received receipt;
  clock = λ tr. 1000;
  reads = λ tr. record {
    rpc_url = λ c. some "http://rpc";
    balance = λ key. some 250;
    slippage = pos 0;
  };
  min_ttl = 60;
  paymaster_preflight = none;
  without_service = λ ns. [];
  gas_ok = λ c url. true;
  refresh = λ tr b now. err paymaster;
  completion_key = λ b. "leg";
  on_submitted = some (λ tr item op r. ok tt);
  mark = λ tr key. ok tt;
  log = λ tr item r. ok true;
  checkpoint = λ tr items keys. ok tt;
}

-- The first call of the deposit was completed before.
abbrev keys : List StoreKey
keys = call_key_of deposit 0 ∷ []

rest_sent :
    map (λ (r : Receipt). r.transaction_hash) (after wallet world plan (some keys)).receipts
    ≡ "0xaa" ∷ "0xaa" ∷ []
unfolding execute_plan store_key_equality key_equality ◌-ℤ◌ max_ℤ ◌+ℤ◌
rest_sent = refl

execute_plan-IsOnce_example :
    IsOnce (after wallet world plan (some keys)).trace
    × (Sends
          (λ k. store_completed (some keys) k ≡ false)
          (after wallet world plan (some keys)).trace
        × Returns
            (λ k. store_completed (after wallet world plan (some keys)).store k ≡ true)
            (after wallet world plan (some keys)).trace)
execute_plan-IsOnce_example = execute_plan-IsOnce wallet world plan keys (λ tr key. refl)

execute_plan_rerun_example :
    Returns
      (λ k.
        Sends
          (λ j. j ≢ k)
          (after wallet world plan (after wallet world plan (some keys)).store).trace)
      (after wallet world plan (some keys)).trace
execute_plan_rerun_example =
    execute_plan_rerun wallet wallet world world plan plan keys (λ tr key. refl)

-- A call that is lost is not completed, and goes out again in the next run.
abbrev late : World
late = record world { send = λ tr step url. lost broadcast }

lost_again : (after wallet late plan (some keys)).store ≡ some keys
unfolding execute_plan store_key_equality key_equality ◌-ℤ◌ max_ℤ ◌+ℤ◌
lost_again = refl

execute_plan-IsOrdered_example : IsOrdered (after wallet world plan (some keys)).trace
execute_plan-IsOrdered_example = execute_plan-IsOrdered wallet world plan keys refl

execute_plan-IsCleared_example :
    ((execute_plan wallet world plan (begun (some keys))).0 ≡ begun (some keys))
    ⊎ ((items : List PlannedBundle) × (planned_bundles plan ≡ ok items)
        × IsCleared wallet world items (begun (some keys)))
execute_plan-IsCleared_example = execute_plan-IsCleared wallet world plan (begun (some keys))

-- A loop, which the wallet would send call by call.
abbrev loop_plan : TxPlan
loop_plan = assemble_plan (deposit ∷ loop ∷ [])

execute_plan-is_unfit_example :
    (f : Failure) × (execute_plan wallet world loop_plan (begun none) ≡ (begun none, err f))
unfolding assemble_plan planned_bundles
execute_plan-is_unfit_example =
    execute_plan-is_unfit wallet world loop_plan (relaid 0 (deposit ∷ loop ∷ [])) (begun none) refl
      refl

planned_bundles-assemble_plan_example :
    planned_bundles (assemble_plan (deposit ∷ second ∷ [])) ≡ ok (relaid 0 (deposit ∷ second ∷ []))
planned_bundles-assemble_plan_example =
    planned_bundles-assemble_plan (deposit ∷ second ∷ [])
      ((approval, supply ∷ [], refl), ((supply, [], refl), tt))

-- A signer that batches sends both bundles in one operation.
one_batch :
    length (after (record wallet { has_send_batch = true }) world plan (some keys)).receipts ≡ 1
unfolding execute_plan store_key_equality key_equality ◌-ℤ◌ max_ℤ ◌+ℤ◌
one_batch = refl

operations_lem_example :
    (bundles_of (operations (deposit ∷ second ∷ []) true) ≡ deposit ∷ second ∷ [])
    × All IsOnChain (operations (deposit ∷ second ∷ []) true)
    × IsMerged (operations (deposit ∷ second ∷ []) true)
operations_lem_example = operations_lem (deposit ∷ second ∷ []) true

-- Where every call of a chain is completed, the preflight leaves the chain out.
left_out :
    (execute_plan wallet world plan
      (begun (some (call_key_of deposit 0 ∷ call_key_of deposit 1 ∷ call_key_of second 0 ∷ [])))).1
    ≡ err key_error
unfolding execute_plan store_key_equality key_equality ◌-ℤ◌ max_ℤ ◌+ℤ◌
left_out = refl
