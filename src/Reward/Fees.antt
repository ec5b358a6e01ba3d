-- ===== src/Reward/Fees.antt =====
-- The fees of a block against the transactions applied one after another.
use klomang_network.Prelude.{
  ℕ, ◌+◌, ◌*◌, ◌≤◌, ◌≡◌, Bool, true, false, List, [], ◌∷◌, arith, refl, min, Bool-cases, inl, inr,
  sym, ◌∙◌, ◌⊎◌,
}
use mathlib.Core.Path.{subst}
use klomang_network.Prelude.Result.{ok, Result-cases}
use klomang_network.Crypto.{Crypto}
use klomang_network.Transaction.{Transaction, is_coinbase}
use klomang_network.Dag.{BlockNode}
use klomang_network.Emission.{capped_reward, u128_max}
use klomang_network.Utxo.{UtxoSet, u64_max, validate_tx, apply_tx}
use klomang_network.Utxo.Apply.{applied, apply_tx_both}
use klomang_network.Reward.{
  calculate_fees, calculate_tx_total_fee, accept_fees, calculate_accepted_fees, block_total_reward,
}

-- The transactions are accepted in order, each on the set that the one before left, and the fees
-- with the gas charges sum to the total. No operation here saturates.
pub data Accepts (c : Crypto) : UtxoSet → List Transaction → ℕ → Type 0 where
  nil : {u : UtxoSet} {total : ℕ} → total ≡ 0 → Accepts c u [] total
  coinbase :
      {u : UtxoSet} {tx : Transaction} {txs : List Transaction} {total : ℕ}
      → is_coinbase tx ≡ true
      → Accepts c u txs total
      → Accepts c u (tx ∷ txs) total
  spend :
      {u : UtxoSet} {tx : Transaction} {txs : List Transaction} {total : ℕ} (fee rest : ℕ)
      → is_coinbase tx ≡ false
      → validate_tx c u tx ≡ ok fee
      → Accepts c (applied u tx) txs rest
      → total ≡ fee + tx.gas_limit * tx.max_fee_per_gas + rest
      → Accepts c u (tx ∷ txs) total

total_fee-inversion :
    (c : Crypto) (tx : Transaction) (u : UtxoSet) (t : ℕ)
    → calculate_tx_total_fee c tx u ≡ ok t
    → (fee : ℕ) × (validate_tx c u tx ≡ ok fee)
      × (t ≡ min (fee + min (tx.gas_limit * tx.max_fee_per_gas) u128_max) u128_max)
unfolding calculate_tx_total_fee calculate_fees
total_fee-inversion c tx u t h = ground arith

accept_fees-inversion :
    (c : Crypto) (t : ℕ) (u : UtxoSet) (tx : Transaction) (txs : List Transaction) (f : ℕ)
    → is_coinbase tx ≡ false
    → accept_fees c t u (tx ∷ txs) ≡ ok f
    → (fee : ℕ) × (calculate_tx_total_fee c tx u ≡ ok fee)
      × (min (t + fee) u128_max ≤ u64_max)
      × (accept_fees c (min (t + fee) u128_max) (apply_tx c u tx).1 txs ≡ ok f)
unfolding accept_fees
accept_fees-inversion c t u tx txs f n h = elim (Result-cases (calculate_tx_total_fee c tx u)) [
  | inr (e, failed) ↦ ground arith
  | inl (fee, charged) ↦ (fee, charged, ground arith, ground arith)
]

accept_fees-coinbase :
    (c : Crypto) (t : ℕ) (u : UtxoSet) (tx : Transaction) (txs : List Transaction)
    → is_coinbase tx ≡ true
    → accept_fees c t u (tx ∷ txs) ≡ accept_fees c t u txs
unfolding accept_fees
accept_fees-coinbase c t u tx txs is_base = ground arith

accept_fees-Accepts :
    (c : Crypto) (t : ℕ) (u : UtxoSet) (txs : List Transaction) (f : ℕ)
    → t ≤ u64_max
    → accept_fees c t u txs ≡ ok f
    → (rest : ℕ) × (f ≡ t + rest) × (f ≤ u64_max) × Accepts c u txs rest
unfolding accept_fees
accept_fees-Accepts c t u [] f b h = (0, ground arith, ground arith, nil refl)
accept_fees-Accepts c t u (tx ∷ txs) f b h = elim (Bool-cases (is_coinbase tx)) [
  | inl is_base ↦
      let (rest, e, m, a) =
        accept_fees-Accepts c t u txs f b (sym (accept_fees-coinbase c t u tx txs is_base) ∙ h) in
      (rest, e, m, coinbase is_base a)
  | inr n ↦
      let (charged, e, m, go) = accept_fees-inversion c t u tx txs f n h in
      let (fee, v, total) = total_fee-inversion c tx u charged e in
      let (rest, s, m', a) =
        accept_fees-Accepts c (min (t + charged) u128_max) (apply_tx c u tx).1 txs f m go in
      (
        charged + rest,
        omega arith,
        m',
        spend fee rest n v (rw ((apply_tx_both c u tx).1 fee v) at a) (omega arith),
      )
]

pub calculate_accepted_fees-Accepts :
    (c : Crypto) (block : BlockNode) (u : UtxoSet) (fees : ℕ)
    → calculate_accepted_fees c block u ≡ ok fees
    → (fees ≤ u64_max) × Accepts c u block.transactions fees
unfolding calculate_accepted_fees
calculate_accepted_fees-Accepts c block u fees h =
    let (rest, e, m, a) = accept_fees-Accepts c 0 u block.transactions fees (omega arith) h in
    let same : rest ≡ fees = omega arith in (m, subst (Accepts c u block.transactions) same a)

-- The total by the colour of the block.
block_total_reward_facts :
    (c : Crypto) (block : BlockNode) (height total : ℕ) (is_blue : Bool) (u : UtxoSet)
    → block_total_reward c block height is_blue u ≡ ok total
    → (total ≤ u64_max)
      × (is_blue ≡ false → total ≡ 0)
      × (is_blue ≡ true
          → (fees : ℕ) × (total ≡ capped_reward height + fees)
            × Accepts c u block.transactions fees)
unfolding block_total_reward
block_total_reward_facts c block height total false u h = (ground arith, λ _. ground arith, λ e. cc)
block_total_reward_facts c block height total true u h =
    elim (Result-cases (calculate_accepted_fees c block u)) [
      | inr (e, failed) ↦ ground arith
      | inl (fees, accepted) ↦ (
        ground arith,
        λ e. cc,
        λ _. (fees, ground arith, (calculate_accepted_fees-Accepts c block u fees accepted).1),
      )
    ]

-- A red block earns nothing. A blue block earns the capped reward of its height and its fees, and
-- the sum is refused where it does not fit u64.
pub block_total_reward_lem :
    (c : Crypto) (block : BlockNode) (height total : ℕ) (is_blue : Bool) (u : UtxoSet)
    → block_total_reward c block height is_blue u ≡ ok total
    → (total ≤ u64_max)
      × (((is_blue ≡ false) × (total ≡ 0))
          ⊎ ((is_blue ≡ true)
              × ((fees : ℕ) × (total ≡ capped_reward height + fees)
                  × Accepts c u block.transactions fees)))
block_total_reward_lem c block height total is_blue u h =
    let (bound, red, blue) = block_total_reward_facts c block height total is_blue u h in
    (bound, elim (Bool-cases is_blue) [ inl b ↦ inr (b, blue b) | inr r ↦ inl (r, red r) ])
