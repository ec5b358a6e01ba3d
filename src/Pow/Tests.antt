-- ===== src/Pow/Tests.antt =====
-- Mining with a digest that takes the first byte.
use klomang_network.Prelude.{◌^◌, [], ◌∷◌, refl}
use klomang_network.Samples.{toy}
use klomang_network.Pow.{BlockMiningParams, nonce_passes, mine_block, is_empty}
use klomang_network.Pow.Mining.{IsFirst, mine_block-IsFirst}

abbrev work : BlockMiningParams
work = record {
  header = 1 ∷ [];
  target = 10;
  miner_address = 5 ∷ [];
  node_reward_address = 6 ∷ [];
  timestamp = 100;
  difficulty = 10;
  parent_hashes = 7 ∷ [];
  verkle_root = 3 ∷ [];
}

mine_block-IsFirst_example : IsFirst (nonce_passes toy work) 0 (2 ^ 64) (mine_block toy work)
unfolding is_empty
mine_block-IsFirst_example = mine_block-IsFirst toy work refl
