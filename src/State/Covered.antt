-- ===== src/State/Covered.antt =====
-- What a block that passes `validate_block_stateful` promises.
use klomang_network.Prelude.{
  ℕ, min, ltb, ◌+◌, ◌*◌, ◌%◌, ◌^◌, ◌<◌, ◌≤◌, ◌≡◌, ◌⊎◌, inl, inr, Bool, true, not, ◌&&◌, List, [],
  ◌∷◌, if◌then◌else◌, All, pair_eq, arith, Bool-cases, Option-cases, dec_le,
}
use klomang_network.Prelude.Map.{Map, lookup}
use klomang_network.Prelude.Result.{ok}
use klomang_network.Transaction.{Transaction, TxInput, TxOutput, is_coinbase}
use klomang_network.Utxo.{OutPoint, UtxoSet, outpoint, u64_max}
use klomang_network.Utxo.Validate.{AllPresent, sum_values, input_value}
use klomang_network.Reward.{saturating}
use klomang_network.Dag.{BlockNode}
use klomang_network.Verkle.{Curve}
use klomang_network.State.{StateManager}
use klomang_network.State.Connect.{
  all_present, no_double_spend, total_input, total_output, total_output_with_fee, no_inflation,
  validate_block_stateful,
}

-- A transaction that may create coins, or whose inputs are there and pay for its outputs and its
-- gas fee, where these fit in u64 together.
unfoldable pub IsCovered : Map OutPoint TxOutput → Transaction → Type 0
IsCovered m tx =
    (is_coinbase tx ≡ true)
    ⊎ (AllPresent m tx.inputs
        × ((u64_max < sum_values tx.outputs + tx.gas_limit * tx.max_fee_per_gas)
            ⊎ (sum_values tx.outputs + tx.gas_limit * tx.max_fee_per_gas
                ≤ input_value m tx.inputs)))

all_present-AllPresent :
    (m : Map OutPoint TxOutput) (is : List TxInput) → all_present m is ≡ true → AllPresent m is
unfolding all_present
all_present-AllPresent m [] h = tt
all_present-AllPresent m (i ∷ is) h = ground (arith, all_present-AllPresent m is)

total_input-bound :
    (m : Map OutPoint TxOutput) (t : ℕ) (is : List TxInput)
    → total_input m t is ≤ t + input_value m is
unfolding total_input input_value
total_input-bound m t [] = omega arith
total_input-bound m t (i ∷ is) = elim (Option-cases (lookup (outpoint i) m)) [
  | inl e ↦ rw (e, total_input, input_value) (omega (arith, total_input-bound m t is))
  | inr (o, e) ↦
      rw (e, total_input, input_value)
        (omega (arith, total_input-bound m (min (t + o.value) u64_max) is))
]

total_output-sum :
    (t : ℕ) (os : List TxOutput)
    → t + sum_values os ≤ u64_max
    → total_output t os ≡ t + sum_values os
unfolding total_output sum_values
total_output-sum t [] h = omega arith
total_output-sum t (o ∷ os) h =
    let whole : min (t + o.value) u64_max ≡ t + o.value = omega (arith, h) in
    rw whole (omega (arith, total_output-sum (t + o.value) os (omega (arith, h))))

total_output_with_fee-sum :
    (tx : Transaction)
    → sum_values tx.outputs + tx.gas_limit * tx.max_fee_per_gas ≤ u64_max
    → total_output_with_fee tx ≡ sum_values tx.outputs + tx.gas_limit * tx.max_fee_per_gas
unfolding total_output_with_fee
total_output_with_fee-sum tx h =
    let whole : total_output 0 tx.outputs ≡ 0 + sum_values tx.outputs =
      total_output-sum 0 tx.outputs (omega (arith, h)) in
    let fee : saturating (tx.gas_limit * tx.max_fee_per_gas) % 2 ^ 64
        ≡ tx.gas_limit * tx.max_fee_per_gas =
      omega (arith, h) in
    rw (whole, fee) (omega (arith, h))

covered :
    (m : Map OutPoint TxOutput) (tx : Transaction)
    → (if is_coinbase tx then true else all_present m tx.inputs) ≡ true
    → (if is_coinbase tx
        then true
        else not (ltb (total_input m 0 tx.inputs) (total_output_with_fee tx)))
      ≡ true
    → IsCovered m tx
unfolding IsCovered
covered m tx present paid = elim (Bool-cases (is_coinbase tx)) [
  | inl e ↦ inl e
  | inr e ↦
      let all = all_present-AllPresent m tx.inputs (ground (arith, present, e)) in
      let enough : total_output_with_fee tx ≤ total_input m 0 tx.inputs = ground (arith, paid, e) in
      let below = total_input-bound m 0 tx.inputs in
      elim (dec_le (sum_values tx.outputs + tx.gas_limit * tx.max_fee_per_gas) u64_max) [
        | yes fits ↦
            inr (all, inr (omega (arith, total_output_with_fee-sum tx fits, enough, below)))
        | no large ↦ inr (all, inl (omega (arith, large)))
      ]
]

and_true : (a b : Bool) → (a && b) ≡ true → (a ≡ true) × (b ≡ true)
and_true a b h = ground (arith, h)

all_of_block :
    (m : Map OutPoint TxOutput) (txs : List Transaction)
    → no_double_spend m txs ≡ true
    → no_inflation m txs ≡ true
    → All (IsCovered m) txs
unfolding no_double_spend no_inflation
all_of_block m [] h h' = tt
all_of_block m (tx ∷ txs) h h' =
    let (present, rest) =
      and_true (if is_coinbase tx then true else all_present m tx.inputs) (no_double_spend m txs)
        h in
    let (paid, rest') =
      and_true
        (if is_coinbase tx
          then true
          else not (ltb (total_input m 0 tx.inputs) (total_output_with_fee tx)))
        (no_inflation m txs) h' in
    (covered m tx present paid, all_of_block m txs rest rest')

-- Where a block passes, each of its transactions is a coinbase, or all its inputs are unspent and
-- their value is at least that of the outputs with the gas fee, unless those exceed u64.
pub validate_block_stateful-IsCovered :
    (k : Curve) (block : BlockNode) (m : StateManager) (u : UtxoSet)
    → (validate_block_stateful k block m u).0 ≡ ok tt
    → All (IsCovered u.utxos) block.transactions
unfolding validate_block_stateful
validate_block_stateful-IsCovered k block m u h =
    all_of_block u.utxos block.transactions (ground (arith, h)) (ground (arith, h))
