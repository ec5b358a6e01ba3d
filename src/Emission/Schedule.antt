-- ===== src/Emission/Schedule.antt =====
-- The halving loop against the table of rewards.
use klomang_network.Prelude.{
  ℕ, suc, ◌+◌, ◌*◌, ◌/◌, ◌^◌, ◌<◌, ◌≤◌, ◌≡◌, ◌∙◌, min, max, true, refl, eqb, eqb_iff, holds_below,
  holds_below_lem, arith, inl, inr, Bool-cases, leb, ap, sym, ltb-false, dec_le, ◌&&◌,
}
use klomang_network.Emission.{
  base_reward, halving_interval, min_reward, halve_loop, halving_steps, raw_block_reward,
  next_reward, full_emitted,
}

-- Scores at which the cast of the halvings to u32 loses nothing.
abbrev pub cast_bound : ℕ
cast_bound = 2 ^ 32 * halving_interval

loop_table : holds_below 129 (λ n. eqb (halve_loop n base_reward) (next_reward n)) ≡ true
unfolding holds_below halve_loop next_reward
loop_table = refl

halve_loop-table : (n : ℕ) → n ≤ 128 → halve_loop n base_reward ≡ next_reward n
halve_loop-table n h = (eqb_iff _ _).0 (holds_below_lem 129 _ n loop_table (omega arith))

-- From the 34th interval on the reward stays at the floor.
pub next_reward-floor : (q : ℕ) → 34 ≤ q → next_reward q ≡ min_reward
unfolding next_reward
next_reward-floor q h = rw (ltb-false q 34 h)

next_reward-min : (q : ℕ) → next_reward (min q 128) ≡ next_reward q
next_reward-min q = elim (dec_le q 128) [
  | yes h ↦ let e : min q 128 ≡ q = omega arith in ap next_reward e
  | no h ↦ next_reward-floor (min q 128) (omega arith) ∙ sym (next_reward-floor q (omega arith))
]

reward_table : holds_below 34 (λ q. leb 1 (next_reward q) && leb (next_reward q) base_reward) ≡ true
unfolding holds_below next_reward
reward_table = refl

pub next_reward_bounds : (q : ℕ) → (1 ≤ next_reward q) × (next_reward q ≤ base_reward)
next_reward_bounds q = elim (dec_le 34 q) [
  | yes h ↦ omega (arith, next_reward-floor q h)
  | no h ↦ ground (arith, holds_below_lem 34 _ q reward_table (omega arith))
]

steps_cast : (d : ℕ) → d < cast_bound → halving_steps d ≡ min (d / halving_interval) 128
steps_cast d h = omega arith

floored : (q : ℕ) → max (next_reward (min q 128)) min_reward ≡ next_reward q
floored q = rw (next_reward-min q) (omega (arith, next_reward_bounds q))

-- Below the bound the reward is the entry of the table for the score's interval.
pub raw_block_reward-next_reward :
    (d : ℕ) → d < cast_bound → raw_block_reward d ≡ next_reward (d / halving_interval)
unfolding raw_block_reward next_reward
raw_block_reward-next_reward d h = elim (Bool-cases (eqb d 0)) [
  | inl e ↦ rw ((eqb_iff d 0).0 e) refl
  | inr e ↦
      rw (e, steps_cast d h, halve_loop-table (min (d / halving_interval) 128) (omega arith))
        (floored (d / halving_interval))
]

cumulative_table :
    holds_below 35
      (λ q. eqb (full_emitted (suc q)) (full_emitted q + next_reward q * halving_interval))
    ≡ true
unfolding holds_below full_emitted next_reward
cumulative_table = refl

full_emitted-suc_late :
    (q : ℕ) → 35 ≤ q → full_emitted (suc q) ≡ full_emitted q + next_reward q * halving_interval
unfolding full_emitted next_reward
full_emitted-suc_late q h = ground arith

pub full_emitted-suc :
    (q : ℕ) → full_emitted (suc q) ≡ full_emitted q + next_reward q * halving_interval
full_emitted-suc q = elim (dec_le 35 q) [
  | yes h ↦ full_emitted-suc_late q h
  | no h ↦ (eqb_iff _ _).0 (holds_below_lem 35 _ q cumulative_table (omega arith))
]
