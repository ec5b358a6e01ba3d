-- ===== src/Emission.antt =====
-- Block rewards and supply: klomang-core/src/core/consensus/emission.rs, with the constants of
-- economic_constants.rs. Scores are u64, amounts u128; both are numbers.
pub mod Schedule
pub mod Supply
pub mod Split
mod Tests
use klomang_network.Prelude.{
  ℕ, zero, suc, ◌+◌, ◌-◌, ◌*◌, ◌/◌, ◌%◌, ◌^◌, ◌<◌, min, max, Bool, true, false, List, [], ◌∷◌,
  get_or, length, ltb, leb, eqb, if◌then◌else◌,
}

abbrev pub coin_unit : ℕ
coin_unit = 100_000_000

abbrev pub max_global_supply_nano_slug : ℕ
max_global_supply_nano_slug = 600_000_000_000_000_000

abbrev pub max_supply : ℕ
max_supply = max_global_supply_nano_slug

abbrev pub base_reward : ℕ
base_reward = 10_000_000_000

abbrev pub halving_interval : ℕ
halving_interval = 100_000

abbrev pub min_reward : ℕ
min_reward = 1

abbrev pub u128_max : ℕ
u128_max = 2 ^ 128 - 1

abbrev pub u64_size : ℕ
u64_size = 2 ^ 64

-- The loop of `raw_block_reward`: halve down to the floor, and stop there.
pub halve_loop : ℕ → ℕ → ℕ
halve_loop zero reward = reward
halve_loop (suc steps) reward =
    let halved = max (reward / 2) min_reward in
    elim (eqb halved min_reward) [ true ↦ halved | false ↦ halve_loop steps halved ]

-- The number of halvings is cast to u32, and then capped at 128.
abbrev pub halving_steps : ℕ → ℕ
halving_steps daa_score = min ((daa_score / halving_interval) % 2 ^ 32) 128

unfoldable pub raw_block_reward : ℕ → ℕ
raw_block_reward daa_score =
    if eqb daa_score 0
    then base_reward
    else max (halve_loop (halving_steps daa_score) base_reward) min_reward

abbrev pub halving_rewards : List ℕ
halving_rewards =
    10000000000 ∷ 5000000000 ∷ 2500000000 ∷ 1250000000 ∷ 625000000 ∷ 312500000 ∷ 156250000
    ∷ 78125000 ∷ 39062500 ∷ 19531250 ∷ 9765625 ∷ 4882812 ∷ 2441406 ∷ 1220703 ∷ 610351 ∷ 305175
    ∷ 152587 ∷ 76293 ∷ 38146 ∷ 19073 ∷ 9536 ∷ 4768 ∷ 2384 ∷ 1192 ∷ 596 ∷ 298 ∷ 149 ∷ 74 ∷ 37 ∷ 18
    ∷ 9 ∷ 4 ∷ 2 ∷ 1 ∷ []

abbrev pub cumulative_rewards : List ℕ
cumulative_rewards =
    10000000000 ∷ 15000000000 ∷ 17500000000 ∷ 18750000000 ∷ 19375000000 ∷ 19687500000 ∷ 19843750000
    ∷ 19921875000 ∷ 19960937500 ∷ 19980468750 ∷ 19990234375 ∷ 19995117187 ∷ 19997558593
    ∷ 19998779296 ∷ 19999389647 ∷ 19999694822 ∷ 19999847409 ∷ 19999923702 ∷ 19999961848
    ∷ 19999980921 ∷ 19999990457 ∷ 19999995225 ∷ 19999997609 ∷ 19999998801 ∷ 19999999397
    ∷ 19999999695 ∷ 19999999844 ∷ 19999999918 ∷ 19999999955 ∷ 19999999973 ∷ 19999999982
    ∷ 19999999986 ∷ 19999999988 ∷ 19999999989 ∷ []

-- What the full intervals have emitted; the indices are in range.
unfoldable pub full_emitted : ℕ → ℕ
full_emitted full_intervals =
    if eqb full_intervals 0
    then 0
    else if leb full_intervals 34
    then get_or cumulative_rewards (full_intervals - 1) 0 * halving_interval
    else get_or cumulative_rewards 33 0 * halving_interval
      + (full_intervals - 34) * min_reward * halving_interval

unfoldable pub next_reward : ℕ → ℕ
next_reward full_intervals =
    if ltb full_intervals 34 then get_or halving_rewards full_intervals 0 else min_reward

-- The two saturating operations are written out.
unfoldable pub total_emitted : ℕ → ℕ
total_emitted daa_score =
    if eqb daa_score 0
    then 0
    else let full_intervals = daa_score / halving_interval in
      let remainder_blocks = daa_score % halving_interval in
      let remainder_emitted = min (remainder_blocks * next_reward full_intervals) u128_max in
      min (min (full_emitted full_intervals + remainder_emitted) u128_max) max_supply

unfoldable pub capped_reward : ℕ → ℕ
capped_reward daa_score =
    let current_total = total_emitted daa_score in
    let reward = raw_block_reward daa_score in
    if leb max_supply current_total
    then 0
    else if ltb max_supply (current_total + reward)
    then max_supply - current_total
    else reward

-- The casts of the three results to u64 are written out.
pub block_reward : ℕ → ℕ → ℕ × ℕ × ℕ
block_reward daa_score active_node_count =
    let total = capped_reward daa_score in
    let share = total * 80 / 100 in
    let infra = if eqb active_node_count 0 then 0 else total - share in
    let miner = if eqb active_node_count 0 then total else share in
    let per_node = if eqb active_node_count 0 then 0 else infra / active_node_count in
    (miner % u64_size, infra % u64_size, per_node % u64_size)

pub validate_reward_split : ℕ → ℕ → Bool
validate_reward_split daa_score active_node_count =
    let (miner, infra, _) = block_reward daa_score active_node_count in
    leb (miner + infra) (capped_reward daa_score)
