-- ===== src/Reward.antt =====
-- Fees and the coinbase: klomang-core/src/core/consensus/reward.rs, with the checks of
-- economic_constants.rs. Amounts of u128 are numbers; no product here passes 2 ^ 128 for a reward
-- that fits u64, and the products with the fee per gas saturate.
pub mod Fees
pub mod Coinbase
mod Tests
use klomang_network.Prelude.{
  ℕ, zero, suc, ◌+◌, ◌-◌, ◌*◌, ◌/◌, ◌%◌, ◌^◌, min, Bool, true, false, not, ◌&&◌, ◌||◌, Option, none,
  some, List, [], ◌∷◌, eqb, leb, ltb, length, if◌then◌else◌,
}
use klomang_network.Prelude.Result.{Result, ok, err, ◌>>=◌, ◌>>◌, guard}
use klomang_network.Crypto.{Crypto}
use klomang_network.Transaction.{Transaction, TxInput, TxOutput, is_coinbase, calculate_id}
use klomang_network.Dag.{BlockNode}
use klomang_network.Emission.{capped_reward, halving_interval, u128_max}
use klomang_network.Utxo.{
  UtxoSet, CoreError, transaction_error, fee_overflow, reward_overflow, u64_max, validate_tx,
  apply_tx,
}

abbrev pub miner_reward_percent : ℕ
miner_reward_percent = 80

abbrev pub fullnode_reward_percent : ℕ
fullnode_reward_percent = 20

pub validate_miner_share : ℕ → ℕ → Bool
validate_miner_share total_pool miner_share =
    eqb miner_share (total_pool * miner_reward_percent / 100)

pub validate_fullnode_share : ℕ → ℕ → Bool
validate_fullnode_share total_pool fullnode_share =
    eqb fullnode_share (total_pool * fullnode_reward_percent / 100)

-- The address of thirty-two zero bytes is the number zero.
pub verify_non_burn_address : ℕ → Bool
verify_non_burn_address address = not (eqb address 0)

pub calculate_fees : Crypto → Transaction → UtxoSet → Result CoreError ℕ
calculate_fees c tx utxo = validate_tx c utxo tx

abbrev pub saturating : ℕ → ℕ
saturating n = min n u128_max

pub calculate_tx_total_fee : Crypto → Transaction → UtxoSet → Result CoreError ℕ
unfolding calculate_fees
calculate_tx_total_fee c tx utxo = do
  base_fee ← calculate_fees c tx utxo
  let total_gas_fee = saturating (tx.gas_limit * tx.max_fee_per_gas)
  ok (saturating (base_fee + total_gas_fee))

-- The loop of `calculate_accepted_fees` over the transactions, with its own copy of the set.
pub accept_fees : Crypto → ℕ → UtxoSet → List Transaction → Result CoreError ℕ
accept_fees c total_fees working_utxo [] = ok total_fees
accept_fees c total_fees working_utxo (tx ∷ txs) = elim (is_coinbase tx) [
  | true ↦ accept_fees c total_fees working_utxo txs
  | false ↦ calculate_tx_total_fee c tx working_utxo >>= λ fee.
      (apply_tx c working_utxo tx).0 >>= λ _.
      let total = saturating (total_fees + fee) in
      guard (not (ltb u64_max total)) (transaction_error fee_overflow)
      >> accept_fees c total (apply_tx c working_utxo tx).1 txs
]

pub calculate_accepted_fees : Crypto → BlockNode → UtxoSet → Result CoreError ℕ
calculate_accepted_fees c block utxo = accept_fees c 0 utxo block.transactions

abbrev config_block_reward : ℕ
config_block_reward = 100

pub calculate_block_reward : ℕ → ℕ
calculate_block_reward height =
    let halvings = height / halving_interval in
    if leb 64 halvings then 0 else config_block_reward / 2 ^ halvings

pub block_total_reward : Crypto → BlockNode → ℕ → Bool → UtxoSet → Result CoreError ℕ
block_total_reward c block height is_blue utxo =
    if not is_blue
    then ok 0
    else calculate_accepted_fees c block utxo >>= λ fees.
        let total = capped_reward height + fees in
        guard (leb total u128_max) (transaction_error reward_overflow)
        >> guard (leb total u64_max) (transaction_error reward_overflow)
        >> ok total

-- Where `create_coinbase_tx` panics.
pub data Panic : Type 0 where
  zero_miner_address miner_share_assertion fullnode_share_assertion zero_pool_address : Panic

-- The two parts of the reward; the assertions are compiled in debug builds alone.
pub split_reward : Bool → ℕ → ℕ → Result Panic (ℕ × ℕ)
split_reward debug active_node_count total_reward =
    if eqb active_node_count 0
    then ok (total_reward, 0)
    else let miner_share = total_reward * miner_reward_percent / 100 in
      let fullnode_share = total_reward - miner_share in
      guard (not debug || validate_miner_share total_reward miner_share) miner_share_assertion
      >> guard (not debug || validate_fullnode_share total_reward fullnode_share)
          fullnode_share_assertion
      >> ok (miner_share, fullnode_share)

abbrev pub output : ℕ → ℕ → TxOutput
output value address = record { value = value % 2 ^ 64; pubkey_hash = address }

-- The second output: to the pool, or back to the miner where no pool address is given.
pub pool_outputs : ℕ → Option ℕ → ℕ → ℕ → Result Panic (List TxOutput)
pool_outputs miner pool active_node_count node_reward_pool =
    if not (eqb active_node_count 0) && not (eqb node_reward_pool 0)
    then elim pool [
      | none ↦ ok (output node_reward_pool miner ∷ [])
      | some address ↦
          guard (verify_non_burn_address address) zero_pool_address
          >> ok (output node_reward_pool address ∷ [])
    ]
    else ok []

abbrev blank_coinbase : List TxOutput → Transaction
blank_coinbase outputs = record {
  id = 0;
  inputs = [];
  outputs = outputs;
  execution_payload = [];
  contract_address = none;
  gas_limit = 0;
  max_fee_per_gas = 0;
  chain_id = 1;
  locktime = 0;
}

-- The id does not enter its own computation, so the blank one stands for that of no bytes.
pub with_id : Crypto → List TxOutput → Transaction
with_id c outputs = record (blank_coinbase outputs) { id = calculate_id c (blank_coinbase outputs) }

pub create_coinbase_tx : Crypto → Bool → ℕ → Option ℕ → ℕ → ℕ → Result Panic Transaction
create_coinbase_tx c debug miner pool active_node_count total_reward =
    guard (verify_non_burn_address miner) zero_miner_address
    >> split_reward debug active_node_count total_reward
    >>= λ shares. pool_outputs miner pool active_node_count shares.1 >>= λ rest.
        ok (with_id c (output shares.0 miner ∷ rest))

-- The texts of the errors of the coinbase check.
pub data CoinbaseFault : Type 0 where
  wrong_total burn_output wrong_output_count wrong_split unknown_node single_output : CoinbaseFault
  no_outputs no_coinbase : CoinbaseFault

pub find_coinbase : List Transaction → Option Transaction
find_coinbase [] = none
find_coinbase (tx ∷ txs) = let rest = find_coinbase txs in if is_coinbase tx then some tx else rest

pub total_outputs : List TxOutput → ℕ
total_outputs [] = 0
total_outputs (o ∷ os) = o.value + total_outputs os

pub all_non_burn : List TxOutput → Bool
all_non_burn [] = true
all_non_burn (o ∷ os) = verify_non_burn_address o.pubkey_hash && all_non_burn os

-- The checks on two outputs; `validator` is `FullNodeValidator::is_valid_full_node`.
pub check_split : ℕ → Option (ℕ → Bool) → TxOutput → TxOutput → Result CoinbaseFault Unit
check_split actual_reward validator first second =
    let expected_miner = actual_reward * miner_reward_percent / 100 in
    let expected_node = actual_reward - expected_miner in
    guard
      ((eqb first.value expected_miner && eqb second.value expected_node)
        || (eqb first.value expected_node && eqb second.value expected_miner))
      wrong_split
    >> elim validator [
      | none ↦ ok tt
      | some is_valid_full_node ↦
          guard
            (is_valid_full_node
              (if eqb first.value expected_node then first.pubkey_hash else second.pubkey_hash))
            unknown_node
    ]

pub check_outputs : ℕ → Option (ℕ → Bool) → List TxOutput → Result CoinbaseFault Unit
check_outputs actual_reward validator [] = err no_outputs
check_outputs actual_reward validator (o ∷ os) =
    guard (eqb (total_outputs (o ∷ os)) actual_reward) wrong_total
    >> guard (all_non_burn (o ∷ os)) burn_output
    >> elim os [
      | [] ↦ guard (eqb o.value actual_reward) single_output
      | p ∷ [] ↦ check_split actual_reward validator o p
      | _ ↦ err wrong_output_count
    ]

pub validate_coinbase_reward_internal :
    BlockNode → ℕ → Option (ℕ → Bool) → Result CoinbaseFault Unit
validate_coinbase_reward_internal block actual_reward validator =
    elim (find_coinbase block.transactions) [
      | none ↦ err no_coinbase
      | some tx ↦ check_outputs actual_reward validator tx.outputs
    ]

pub validate_coinbase_reward : BlockNode → ℕ → Result CoinbaseFault Unit
validate_coinbase_reward block actual_reward =
    validate_coinbase_reward_internal block actual_reward none
