-- ===== src/Utxo/Tests.antt =====
-- Runs of the unspent set of state/utxo.rs on a coinbase and a transaction that spends it.
use klomang_network.Prelude.{All, ◌≢◌, ◌⊎◌, ◌+◌, ℕ, ◌≡◌, refl, arith, none, true, pair_eq}
use klomang_network.Prelude.Map.{lookup, IsMap}
use klomang_network.Prelude.Set
use klomang_network.Prelude.Result.{ok, err}
use klomang_network.Transaction.{is_coinbase}
use klomang_network.Utxo.{
  OutPoint, CoreError, validate_tx, validate_spend, check_burn, check_duplicates, sum_outputs,
  sum_inputs, check_signature, apply_tx, revert_tx,
}
use klomang_network.Utxo.{zero_bytes}
use klomang_network.Samples.{toy, coin, spend, one_coin}
use klomang_network.Utxo.Validate.{validate_tx-ok, Spends}
use klomang_network.Utxo.Apply.{apply_tx-atomic, applied, changes_of}
use klomang_network.Utxo.Revert.{revert_tx-apply_tx, Remembers}
use klomang_network.Utxo.Value.{applied-total_value, total_value}
use klomang_network.Utxo.Repeat.{coinbase_twice}

spend_fee : validate_tx toy one_coin spend ≡ ok 10
unfolding validate_tx validate_spend check_burn check_duplicates sum_outputs sum_inputs
    check_signature is_coinbase lookup Set.contains
spend_fee = refl

coin_fee : validate_tx toy one_coin coin ≡ ok 0
unfolding validate_tx check_burn is_coinbase
coin_fee = refl

no_entry : (n : ℕ) → lookup (9, n) one_coin.utxos ≡ none
unfolding lookup
no_entry n = refl

remembered : Remembers one_coin.utxos one_coin spend.inputs
unfolding lookup
remembered = (refl, tt)

revert_tx-apply_tx_example :
    ((apply_tx toy one_coin spend).0 ≡ ok (changes_of spend))
    × ((revert_tx (apply_tx toy one_coin spend).1 (changes_of spend) one_coin.utxos).0 ≡ ok tt)
    × ((k : OutPoint)
        → lookup k
            (revert_tx (apply_tx toy one_coin spend).1 (changes_of spend) one_coin.utxos).1.utxos
          ≡ lookup k one_coin.utxos)
revert_tx-apply_tx_example =
    revert_tx-apply_tx toy one_coin spend 10 one_coin.utxos spend_fee no_entry (omega arith)
      remembered

validate_tx-ok_example :
    All (λ o. o.pubkey_hash ≢ toy.blake3 (zero_bytes 32)) spend.outputs
    × (((is_coinbase spend ≡ true) × (◌≡◌ {A = ℕ} 10 0)) ⊎ Spends toy one_coin spend 10)
validate_tx-ok_example = validate_tx-ok toy one_coin spend 10 spend_fee

apply_tx-atomic_example :
    ((e : CoreError) × (validate_tx toy one_coin spend ≡ err e)
      × (apply_tx toy one_coin spend ≡ (err e, one_coin)))
    ⊎ ((fee : ℕ) × (validate_tx toy one_coin spend ≡ ok fee)
        × (apply_tx toy one_coin spend ≡ (ok (changes_of spend), applied one_coin spend)))
apply_tx-atomic_example = apply_tx-atomic toy one_coin spend

applied-total_value_example :
    IsMap (apply_tx toy one_coin spend).1.utxos
    × (total_value (apply_tx toy one_coin spend).1.utxos + 10 ≡ total_value one_coin.utxos)
unfolding is_coinbase lookup
applied-total_value_example =
    applied-total_value toy one_coin spend 10 spend_fee (refl, tt) (λ n h. no_entry n) (omega arith)

coinbase_twice_example :
    ((apply_tx toy (apply_tx toy one_coin coin).1 coin).0 ≡ ok (changes_of coin))
    × (lookup (7, 0) (apply_tx toy (apply_tx toy one_coin coin).1 coin).1.utxos
        ≡ lookup (7, 0) (apply_tx toy one_coin coin).1.utxos)
unfolding is_coinbase
coinbase_twice_example = coinbase_twice toy one_coin coin (7, 0) 0 refl coin_fee (omega arith)
