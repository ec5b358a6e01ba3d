-- ===== src/Emission/Supply.antt =====
-- The supply in closed form against the sum of the rewards, and the hard cap.
use klomang_network.Prelude.{
  ℕ, zero, suc, ◌+◌, ◌*◌, ◌/◌, ◌%◌, ◌<◌, ◌≤◌, ◌≡◌, ◌∙◌, min, true, refl, eqb, eqb_iff, holds_below,
  holds_below_lem, arith, inl, inr, Bool-cases, leb, sym, dec_lt, ◌⊎◌,
}
use klomang_network.Emission.{
  base_reward, halving_interval, max_supply, u128_max, raw_block_reward, next_reward, full_emitted,
  total_emitted, capped_reward,
}
use klomang_network.Emission.Schedule.{
  cast_bound, next_reward_bounds, raw_block_reward-next_reward, full_emitted-suc,
}

-- The rewards of all scores below the given one.
pub sum_rewards : ℕ → ℕ
sum_rewards zero = 0
sum_rewards (suc d) = sum_rewards d + raw_block_reward d

-- The closed form before its caps.
uncapped : ℕ → ℕ
uncapped d =
    full_emitted (d / halving_interval)
    + (d % halving_interval) * next_reward (d / halving_interval)

full_table : holds_below 35 (λ q. leb (full_emitted q) (19999999989 * halving_interval)) ≡ true
unfolding holds_below full_emitted
full_table = refl

full_emitted-le_late :
    (q : ℕ) → 34 < q → full_emitted q ≤ 19999999989 * halving_interval + q * halving_interval
unfolding full_emitted
full_emitted-le_late q h = ground arith

full_emitted-le : (q : ℕ) → full_emitted q ≤ 19999999989 * halving_interval + q * halving_interval
full_emitted-le q = elim (dec_lt 34 q) [
  | yes h ↦ full_emitted-le_late q h
  | no h ↦ ground (arith, holds_below_lem 35 _ q full_table (omega arith))
]

uncapped-suc : (d : ℕ) → uncapped (suc d) ≡ uncapped d + next_reward (d / halving_interval)
unfolding uncapped
uncapped-suc d = elim (dec_lt (suc (d % halving_interval)) halving_interval) [
  | yes h ↦
      let e : suc d / halving_interval ≡ d / halving_interval = omega arith in
      let r : suc d % halving_interval ≡ suc (d % halving_interval) = omega arith in
      rw (e, r) (grind arith)
  | no h ↦
      let e : suc d / halving_interval ≡ suc (d / halving_interval) = omega arith in
      let r : suc d % halving_interval ≡ 0 = omega arith in
      let l : d % halving_interval ≡ 99_999 = omega arith in
      rw (e, r, l, full_emitted-suc (d / halving_interval)) (grind arith)
]

mul_bound : (r n : ℕ) → r < halving_interval → n ≤ base_reward → r * n ≤ 1_000_000_000_000_000
mul_bound r n h k = grind arith

uncapped-lt : (d : ℕ) → d ≤ cast_bound → uncapped d < max_supply
unfolding uncapped
uncapped-lt d h = omega (
  arith,
  full_emitted-le (d / halving_interval),
  mul_bound (d % halving_interval) (next_reward (d / halving_interval)) (omega arith)
      (next_reward_bounds (d / halving_interval)).1,
)

uncapped-zero : uncapped 0 ≡ 0
unfolding uncapped full_emitted next_reward
uncapped-zero = refl

uncapped_lem :
    (d : ℕ)
    → uncapped d
      ≡ full_emitted (d / halving_interval)
        + (d % halving_interval) * next_reward (d / halving_interval)
unfolding uncapped
uncapped_lem d = refl

total_emitted-uncapped : (d : ℕ) → d ≤ cast_bound → total_emitted d ≡ uncapped d
unfolding total_emitted
total_emitted-uncapped d h = elim (Bool-cases (eqb d 0)) [
  | inl e ↦ let z : d ≡ 0 = (eqb_iff d 0).0 e in rw z (sym uncapped-zero)
  | inr e ↦ rw e (cap (uncapped-lt d h))
]
  where
    open_form :
        uncapped d
        ≡ full_emitted (d / halving_interval)
          + (d % halving_interval) * next_reward (d / halving_interval)
    open_form = uncapped_lem d

    cap :
        uncapped d < max_supply
        → min
            (min
              (full_emitted (d / halving_interval)
                + min ((d % halving_interval) * next_reward (d / halving_interval)) u128_max)
              u128_max)
            max_supply
          ≡ uncapped d
    cap b = omega (arith, open_form)

uncapped-sum_rewards : (d : ℕ) → d ≤ cast_bound → uncapped d ≡ sum_rewards d
unfolding sum_rewards
uncapped-sum_rewards zero h = uncapped-zero
uncapped-sum_rewards (suc d) h =
    omega (
      arith,
      uncapped-suc d,
      uncapped-sum_rewards d (omega arith),
      raw_block_reward-next_reward d h,
    )

-- Up to the score at which the cast to u32 wraps, the closed form of `total_emitted` is exactly
-- the sum of the block rewards of all scores below.
pub total_emitted-sum_rewards : (d : ℕ) → d ≤ cast_bound → total_emitted d ≡ sum_rewards d
total_emitted-sum_rewards d h = total_emitted-uncapped d h ∙ uncapped-sum_rewards d h

total_emitted-le : (d : ℕ) → total_emitted d ≤ max_supply
unfolding total_emitted
total_emitted-le d = elim (Bool-cases (eqb d 0)) [
  | inl e ↦ rw e (omega arith)
  | inr e ↦ rw e (omega arith)
]

raw_block_reward-pos : (d : ℕ) → 1 ≤ raw_block_reward d
unfolding raw_block_reward
raw_block_reward-pos d = elim (Bool-cases (eqb d 0)) [
  | inl e ↦ rw e (omega arith)
  | inr e ↦ rw e (omega arith)
]

-- The bounds, with the cap reached where nothing is left.
pub capped_reward_facts :
    (d : ℕ)
    → (total_emitted d + capped_reward d ≤ max_supply)
      × (capped_reward d ≤ raw_block_reward d)
      × (capped_reward d ≡ 0 → total_emitted d ≡ max_supply)
unfolding capped_reward
capped_reward_facts d = ground (arith, total_emitted-le d, raw_block_reward-pos d)

-- At every score, what has been emitted and the next reward together stay within the supply cap;
-- the reward is never more than the scheduled one; and it is positive until the cap is reached.
pub capped_reward_bounds :
    (d : ℕ)
    → (total_emitted d + capped_reward d ≤ max_supply)
      × (capped_reward d ≤ raw_block_reward d)
      × ((0 < capped_reward d) ⊎ (total_emitted d ≡ max_supply))
capped_reward_bounds d =
    let (total, scheduled, spent) = capped_reward_facts d in
    (
      total,
      scheduled,
      elim (dec_lt 0 (capped_reward d)) [ yes p ↦ inl p | no q ↦ inr (spent (omega arith)) ],
    )
