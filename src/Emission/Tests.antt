-- ===== src/Emission/Tests.antt =====
-- Rewards at concrete scores of consensus/emission.rs.
use klomang_network.Prelude.{◌≡◌, ◌≤◌, ◌<◌, ◌+◌, arith, ◌⊎◌}
use klomang_network.Emission.{total_emitted, capped_reward, raw_block_reward, max_supply}
use klomang_network.Emission.Schedule.{cast_bound}
use klomang_network.Emission.Supply.{sum_rewards, total_emitted-sum_rewards, capped_reward_bounds}
use klomang_network.Emission.Split.{raw_block_reward-restart}

total_emitted-sum_rewards_example : total_emitted 250_000 ≡ sum_rewards 250_000
total_emitted-sum_rewards_example = total_emitted-sum_rewards 250_000 (omega arith)

capped_reward_bounds_example :
    (total_emitted 3_000 + capped_reward 3_000 ≤ max_supply)
    × (capped_reward 3_000 ≤ raw_block_reward 3_000)
    × ((0 < capped_reward 3_000) ⊎ (total_emitted 3_000 ≡ max_supply))
capped_reward_bounds_example = capped_reward_bounds 3_000

raw_block_reward-restart_example : raw_block_reward (7 + cast_bound) ≡ raw_block_reward 7
raw_block_reward-restart_example = raw_block_reward-restart 7 (omega arith)
