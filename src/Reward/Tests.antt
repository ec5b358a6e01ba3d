-- ===== src/Reward/Tests.antt =====
-- Coinbases and blocks through consensus/reward.rs.
use klomang_network.Prelude.{◌≡◌, refl, arith, true, false, some, [], ◌∷◌}
use klomang_network.Prelude.Result.{ok}
use klomang_network.Emission.{
  capped_reward, full_emitted, next_reward, total_emitted, raw_block_reward,
}
use klomang_network.Transaction.{Transaction, is_coinbase}
use klomang_network.Dag.{BlockNode}
use klomang_network.Samples.{toy, coin, one_coin, block_of}
use klomang_network.Reward.{
  create_coinbase_tx, with_id, output, split_reward, pool_outputs, verify_non_burn_address,
  validate_coinbase_reward, calculate_accepted_fees, accept_fees, block_total_reward,
}
use klomang_network.Reward.Coinbase.{create_coinbase_tx-validates}

abbrev paid : Transaction
paid = with_id toy (output 80 5 ∷ output 20 6 ∷ [])

created : create_coinbase_tx toy false 5 (some 6) 2 100 ≡ ok paid
unfolding create_coinbase_tx split_reward pool_outputs verify_non_burn_address
created = refl

create_coinbase_tx-validates_example :
    validate_coinbase_reward (block_of 1 [] (paid ∷ [])) 100 ≡ ok tt
create_coinbase_tx-validates_example =
    create_coinbase_tx-validates toy 5 (some 6) 2 100 paid (block_of 1 [] (paid ∷ [])) []
      (omega arith) created refl

abbrev mined : BlockNode
mined = block_of 1 [] (coin ∷ [])

full_reward : block_total_reward toy mined 0 true one_coin ≡ ok 10_000_000_000
unfolding block_total_reward calculate_accepted_fees accept_fees is_coinbase capped_reward
    total_emitted full_emitted next_reward raw_block_reward
full_reward = refl
