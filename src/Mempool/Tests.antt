-- ===== src/Mempool/Tests.antt =====
-- A pool with one transaction, through mempool.rs.
use klomang_network.Prelude.{nat_eq, pair_eq, ℕ, ◌≡◌, ◌⊎◌, refl, arith, true, none, [], ◌∷◌}
use klomang_network.Prelude.Map.{lookup, insert, erase}
use klomang_network.Prelude.Result.{Result, ok, err}
use klomang_network.Transaction.{Transaction}
use klomang_network.Samples.{toy, spend, one_coin}
use klomang_network.Mempool.{
  calculate_fee_per_byte, store, evict_lowest_priority, should_accept_new_transaction, last_key,
  insert_key, remove_key, MempoolError, MempoolInner, Limits, new_inner, default_limits, admit,
  pool_full,
}
use klomang_network.Mempool.Validate.{
  StateView, insert_transaction, validate_transaction_stateful, validate_transaction_stateless,
  check_inputs, check_input, total_input_value, total_output_value, checked_add_u128,
}
use klomang_network.Mempool.Pool.{IsPool, IsPool-new}
use klomang_network.Mempool.Outcome.{Room}
use klomang_network.Mempool.Admission.{
  Accepts, Refuses, insert_transaction-IsPool, insert_transaction-Accepts,
}

abbrev view : StateView
view = record {
  outpoint_to_key = ((7, 0), 3) ∷ [];
  proves = λ k. true;
  current_total_supply = 1_000;
}

abbrev sized : Transaction → ℕ
sized tx = 200

abbrev paying : Transaction
paying = record spend { max_fee_per_gas = 2; gas_limit = 3 }

abbrev narrow : Limits
narrow = record default_limits { max_transactions = 1 }

abbrev one_pool : MempoolInner
one_pool = (insert_transaction toy narrow view one_coin sized 1_000 paying new_inner).1

one_IsPool : IsPool one_pool × Room narrow one_pool
one_IsPool =
    insert_transaction-IsPool toy narrow view one_coin sized 1_000 paying new_inner IsPool-new
      (omega arith) (omega arith)

admitted : (insert_transaction toy narrow view one_coin sized 1_000 paying new_inner).0 ≡ ok tt
unfolding insert_transaction admit validate_transaction_stateful validate_transaction_stateless
    check_inputs check_input total_input_value total_output_value checked_add_u128
    calculate_fee_per_byte lookup
admitted = refl

abbrev dearer : Transaction
dearer = record spend { id = 11; max_fee_per_gas = 3; gas_limit = 3 }

insert_transaction-IsPool_example :
    IsPool (insert_transaction toy narrow view one_coin sized 1_010 dearer one_pool).1
    × Room narrow (insert_transaction toy narrow view one_coin sized 1_010 dearer one_pool).1
insert_transaction-IsPool_example =
    insert_transaction-IsPool toy narrow view one_coin sized 1_010 dearer one_pool one_IsPool.0
      one_IsPool.1 (omega arith)

insert_transaction-Accepts_example :
    (((insert_transaction toy narrow view one_coin sized 1_010 dearer one_pool).0 ≡ ok tt)
      × Accepts narrow 1_010 dearer 200 one_pool
          (insert_transaction toy narrow view one_coin sized 1_010 dearer one_pool).1)
    ⊎ Refuses one_pool (insert_transaction toy narrow view one_coin sized 1_010 dearer one_pool)
insert_transaction-Accepts_example =
    insert_transaction-Accepts toy narrow view one_coin sized 1_010 dearer one_pool one_IsPool.0

abbrev refuse : Transaction → Result MempoolError Unit
refuse tx = err pool_full

evicted :
    ((insert_transaction toy narrow view one_coin sized 1_010 dearer one_pool).0 ≡ ok tt)
    × (lookup 9
          (insert_transaction toy narrow view one_coin sized 1_010 dearer one_pool).1.transactions
        ≡ none)
unfolding insert_transaction admit validate_transaction_stateful validate_transaction_stateless
    check_inputs check_input total_input_value total_output_value checked_add_u128
    calculate_fee_per_byte lookup store evict_lowest_priority should_accept_new_transaction last_key
    insert_key remove_key insert erase
evicted = (refl, refl)
