-- ===== src/Emission/Split.antt =====
-- The reward of a block and its division, and what the cast of the halvings to u32 does.
use klomang_network.Prelude.{
  ℕ, zero, suc, ◌+◌, ◌-◌, ◌*◌, ◌/◌, ◌<◌, ◌≤◌, ◌≡◌, max, true, false, refl, eqb, arith, inl, inr,
  Bool-cases, ◌⊎◌, dec_lt,
}
use klomang_network.Emission.{
  base_reward, min_reward, raw_block_reward, halve_loop, halving_steps, capped_reward, block_reward,
  validate_reward_split,
}
use klomang_network.Emission.Schedule.{cast_bound}
use klomang_network.Emission.Supply.{capped_reward_facts}

halve_loop-le : (n r : ℕ) → min_reward ≤ r → halve_loop n r ≤ r
unfolding halve_loop
halve_loop-le zero r h = omega arith
halve_loop-le (suc n) r h = elim (Bool-cases (eqb (max (r / 2) min_reward) min_reward)) [
  | inl e ↦ rw (e, halve_loop) (omega arith)
  | inr e ↦
      rw (e, halve_loop) (omega (arith, halve_loop-le n (max (r / 2) min_reward) (omega arith)))
]

raw_block_reward-le : (d : ℕ) → raw_block_reward d ≤ base_reward
unfolding raw_block_reward
raw_block_reward-le d = elim (Bool-cases (eqb d 0)) [
  | inl e ↦ rw e (omega arith)
  | inr e ↦ rw e (omega (arith, halve_loop-le (halving_steps d) base_reward (omega arith)))
]

pub capped_reward-le : (d : ℕ) → capped_reward d ≤ base_reward
capped_reward-le d = omega (arith, (capped_reward_facts d).1, raw_block_reward-le d)

per_node_bounds : (i n : ℕ) → 0 < n → (i / n * n ≤ i) × (i < (i / n + 1) * n) × (i / n ≤ i)
per_node_bounds i n h = (grind arith, grind arith, grind arith)

-- The split by the number of active nodes.
block_reward_facts :
    (d n : ℕ)
    → let (miner, infra, per_node) = block_reward d n in
      (miner + infra ≡ capped_reward d)
      × (n ≡ 0 → (miner ≡ capped_reward d) × (per_node ≡ 0))
      × (0 < n
          → (miner ≡ capped_reward d * 80 / 100)
            × (per_node * n ≤ infra)
            × (infra < (per_node + 1) * n))
      × (validate_reward_split d n ≡ true)
unfolding block_reward validate_reward_split
block_reward_facts d n = elim (Bool-cases (eqb n 0)) [
  | inl e ↦ rw (e, block_reward) (ground (arith, capped_reward-le d))
  | inr e ↦
      ground (
        arith,
        per_node_bounds (capped_reward d - capped_reward d * 80 / 100) n,
        capped_reward-le d,
      )
]

-- From 2 ^ 32 halvings on the schedule starts again: the reward at a later score is the reward at
-- the score lowered by the number of scores in 2 ^ 32 intervals.
pub raw_block_reward-restart :
    (d : ℕ) → 0 < d → raw_block_reward (d + cast_bound) ≡ raw_block_reward d
unfolding raw_block_reward
raw_block_reward-restart d h =
    let t : eqb (d + cast_bound) 0 ≡ false = ground arith in
    let u : eqb d 0 ≡ false = ground arith in
    let s : halving_steps (d + cast_bound) ≡ halving_steps d = omega arith in rw (t, u, s) refl

-- The miner's and the nodes' parts make up the capped reward, so `validate_reward_split` accepts;
-- without active nodes the miner has all of it, and otherwise the miner's part is 80 percent
-- rounded down, and what the nodes get each is their part divided evenly, the rest of the division
-- being less than one unit for each node.
pub block_reward_split :
    (d n : ℕ)
    → let (miner, infra, per_node) = block_reward d n in
      (miner + infra ≡ capped_reward d)
      × (((n ≡ 0) × (miner ≡ capped_reward d) × (per_node ≡ 0))
          ⊎ ((0 < n)
              × (miner ≡ capped_reward d * 80 / 100)
              × (per_node * n ≤ infra)
              × (infra < (per_node + 1) * n)))
      × (validate_reward_split d n ≡ true)
block_reward_split d n =
    let (sum, none_active, active, valid) = block_reward_facts d n in
    (
      sum,
      elim (dec_lt 0 n) [
        | yes p ↦ let (m, low, high) = active p in inr (p, m, low, high)
        | no q ↦ let (m, none_each) = none_active (omega arith) in inl (omega arith, m, none_each)
      ],
      valid,
    )
