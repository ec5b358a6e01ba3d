-- ===== src/Pow/Mining.antt =====
-- Mining returns the first nonce that passes.
use klomang_network.Prelude.{
  ℕ, zero, suc, ◌+◌, ◌^◌, ◌<◌, ◌≤◌, ◌≡◌, inl, inr, Bool, true, false, ◌||◌, Option, none, some,
  arith, Bool-cases, dec_lt,
}
use mathlib.Core.Path.{subst}
use klomang_network.Crypto.{Crypto}
use klomang_network.Pow.{BlockMiningParams, is_empty, nonce_passes, mine_from, mine_block}

-- The first number from the start on and below the end that passes, or none where none does.
unfoldable pub IsFirst : (ℕ → Bool) → ℕ → ℕ → Option ℕ → Type 0
IsFirst passes start end (some n) =
    (start ≤ n) × (n < end) × (passes n ≡ true) × ((m : ℕ) → start ≤ m → m < n → passes m ≡ false)
IsFirst passes start end none = (m : ℕ) → start ≤ m → m < end → passes m ≡ false

module _ (c : Crypto) (params : BlockMiningParams) where
  IsFirst-suc :
      (start end : ℕ) (r : Option ℕ)
      → nonce_passes c params start ≡ false
      → IsFirst (nonce_passes c params) (start + 1) end r
      → IsFirst (nonce_passes c params) start end r
  unfolding IsFirst
  IsFirst-suc start end none e h = λ m low high. elim (dec_lt start m) [
    | yes above ↦ h m (omega (arith, above)) high
    | no at ↦ subst (λ (k : ℕ). nonce_passes c params k ≡ false) (omega (arith, low, at)) e
  ]
  IsFirst-suc start end (some n) e (low, high, good, rest) = (
    omega (arith, low),
    high,
    good,
    λ m from before. elim (dec_lt start m) [
      | yes above ↦ rest m (omega (arith, above)) before
      | no at ↦ subst (λ (k : ℕ). nonce_passes c params k ≡ false) (omega (arith, from, at)) e
    ],
  )

  mine_from-IsFirst :
      (todo nonce end : ℕ)
      → nonce + todo ≡ end
      → IsFirst (nonce_passes c params) nonce end (mine_from c params todo nonce)
  unfolding mine_from IsFirst
  mine_from-IsFirst zero nonce end e = λ m low high. absurd (omega (arith, low, high, e))
  mine_from-IsFirst (suc todo) nonce end e = elim (Bool-cases (nonce_passes c params nonce)) [
    | inl h ↦
        rw (h, mine_from)
          (omega arith, omega (arith, e), h, λ m low high. absurd (omega (arith, low, high)))
    | inr h ↦
        rw (h, mine_from)
          (IsFirst-suc nonce end (mine_from c params todo (nonce + 1)) h
            (mine_from-IsFirst todo (nonce + 1) end (omega (arith, e))))
  ]

-- With both addresses given, mining returns the smallest nonce of 64 bits whose hash passes, or
-- none where no nonce passes.
pub mine_block-IsFirst :
    (c : Crypto) (params : BlockMiningParams)
    → (is_empty params.miner_address || is_empty params.node_reward_address) ≡ false
    → IsFirst (nonce_passes c params) 0 (2 ^ 64) (mine_block c params)
unfolding mine_block
mine_block-IsFirst c params h = rw h (mine_from-IsFirst c params (2 ^ 64) 0 (2 ^ 64) (omega arith))
