-- ===== src/Pow.antt =====
-- Proof of work: klomang-core/src/core/pow/hash.rs and miner.rs.
pub mod Mining
mod Tests
use klomang_network.Prelude.{
  ℕ, zero, suc, ◌+◌, ◌-◌, ◌*◌, ◌/◌, ◌^◌, max, Bool, true, false, ◌||◌, Option, none, some, List, [],
  ◌∷◌, ◌++◌, ltb, take, if◌then◌else◌,
}
use klomang_network.Prelude.Bytes.{le_bytes}
use klomang_network.Prelude.Sort.{sort}
use klomang_network.Crypto.{Crypto}
use klomang_network.Transaction.{as_bytes}

unfoldable pub concat_hashes : List ℕ → List ℕ
concat_hashes [] = []
concat_hashes (h ∷ hs) = as_bytes h ++ concat_hashes hs

unfoldable pub from_le_bytes : List ℕ → ℕ
from_le_bytes [] = 0
from_le_bytes (b ∷ bs) = b + 256 * from_le_bytes bs

unfoldable pub is_valid_pow : ℕ → ℕ → Bool
is_valid_pow hash target = ltb (from_le_bytes (take 8 (as_bytes hash))) target

pub record BlockMiningParams : Type 0 where
  pub header : List ℕ
  pub target : ℕ
  pub miner_address : List ℕ
  pub node_reward_address : List ℕ
  pub timestamp : ℕ
  pub difficulty : ℕ
  pub parent_hashes : List ℕ
  pub verkle_root : List ℕ

unfoldable pub is_empty : List ℕ → Bool
is_empty [] = true
is_empty (b ∷ bs) = false

module _ (c : Crypto) where
  unfoldable pub calculate_hash : ℕ → ℕ → List ℕ → ℕ → ℕ → ℕ → ℕ
  calculate_hash timestamp difficulty parent_hashes merit nonce tx_merkle_root = c.blake3 (
      le_bytes 8 timestamp
      ++ (le_bytes 8 difficulty
          ++ (concat_hashes (sort parent_hashes)
              ++ (le_bytes 8 merit ++ (le_bytes 8 nonce ++ as_bytes tx_merkle_root)))))

  -- One round of the loop: whether the nonce is good.
  unfoldable pub nonce_passes : BlockMiningParams → ℕ → Bool
  nonce_passes params nonce =
      let hash =
        calculate_hash params.timestamp params.difficulty params.parent_hashes 0 nonce
          (c.blake3 params.header) in
      is_valid_pow
        (c.blake3 (
          as_bytes hash
          ++ (params.verkle_root ++ (params.miner_address ++ params.node_reward_address))))
        params.target

  -- The loop over as many nonces from one on.
  unfoldable pub mine_from : BlockMiningParams → ℕ → ℕ → Option ℕ
  mine_from params zero nonce = none
  mine_from params (suc todo) nonce = elim (nonce_passes params nonce) [
    | true ↦ some nonce
    | false ↦ mine_from params todo (nonce + 1)
  ]

  unfoldable pub mine_block : BlockMiningParams → Option ℕ
  mine_block params =
      if is_empty params.miner_address || is_empty params.node_reward_address
      then none
      else mine_from params (2 ^ 64) 0

pub record Pow : Type 0 where
  pub difficulty : ℕ

unfoldable pub new : ℕ → Pow
new difficulty = record { difficulty = max difficulty 1 }

unfoldable pub target : Pow → ℕ
target p = (2 ^ 64 - 1) / max p.difficulty 1

unfoldable pub validate_pow : Pow → ℕ → Bool
validate_pow p hash = is_valid_pow hash (target p)
