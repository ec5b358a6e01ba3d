-- ===== src/Reward/Coinbase.antt =====
-- The coinbase that is created against the coinbase that is accepted.
use klomang_network.Prelude.{
  ℕ, ◌-◌, ◌*◌, ◌/◌, ◌%◌, ◌^◌, ◌<◌, ◌≡◌, ◌≢◌, ◌⊎◌, Bool, true, false, Option, none, some, List, [],
  ◌∷◌, All, arith, refl, eqb, if◌then◌else◌, inl, inr, ℕ_discrete,
}
use klomang_network.Prelude.Result.{ok, err}
use klomang_network.Crypto.{Crypto}
use klomang_network.Transaction.{Transaction, TxOutput, is_coinbase}
use klomang_network.Dag.{BlockNode}
use klomang_network.Reward.{
  validate_miner_share, validate_fullnode_share, verify_non_burn_address, split_reward, output,
  pool_outputs, create_coinbase_tx, with_id, fullnode_share_assertion, find_coinbase, total_outputs,
  all_non_burn, check_split, check_outputs, validate_coinbase_reward_internal,
  validate_coinbase_reward,
}

parts_pass :
    (miner : ℕ) (pool : Option ℕ) (n total : ℕ) (shares : ℕ × ℕ) (rest : List TxOutput)
    → total < 2 ^ 64
    → verify_non_burn_address miner ≡ true
    → split_reward false n total ≡ ok shares
    → pool_outputs miner pool n shares.1 ≡ ok rest
    → check_outputs total none (output shares.0 miner ∷ rest) ≡ ok tt
unfolding split_reward pool_outputs check_outputs check_split total_outputs all_non_burn
    verify_non_burn_address
parts_pass miner pool n total shares rest h m s p = ground arith

create-parts :
    (c : Crypto) (debug : Bool) (miner : ℕ) (pool : Option ℕ) (n total : ℕ) (tx : Transaction)
    → create_coinbase_tx c debug miner pool n total ≡ ok tx
    → (shares : ℕ × ℕ) × (rest : List TxOutput) × (verify_non_burn_address miner ≡ true)
      × (split_reward debug n total ≡ ok shares)
      × (pool_outputs miner pool n shares.1 ≡ ok rest)
      × (tx ≡ with_id c (output shares.0 miner ∷ rest))
unfolding create_coinbase_tx
create-parts c debug miner pool n total tx h = ground arith

-- Every coinbase that is created for a reward in the range of u64 passes the check of a block that
-- starts with it, at that same reward.
pub create_coinbase_tx-validates :
    (c : Crypto) (miner : ℕ) (pool : Option ℕ) (n total : ℕ) (tx : Transaction) (block : BlockNode)
    (txs : List Transaction)
    → total < 2 ^ 64
    → create_coinbase_tx c false miner pool n total ≡ ok tx
    → block.transactions ≡ tx ∷ txs
    → validate_coinbase_reward block total ≡ ok tt
unfolding validate_coinbase_reward validate_coinbase_reward_internal find_coinbase with_id
    is_coinbase
create_coinbase_tx-validates c miner pool n total tx block txs h e b =
    let (shares, rest, m, s, p, t) = create-parts c false miner pool n total tx e in
    rw (b, t, parts_pass miner pool n total shares rest h m s p) refl

-- The creation with assertions by the rest of the reward in fives.
create_coinbase_tx_both :
    (c : Crypto) (miner : ℕ) (pool : Option ℕ) (n total : ℕ)
    → miner ≢ 0
    → 0 < n
    → (total % 5 ≡ 0
        → create_coinbase_tx c true miner pool n total
          ≡ create_coinbase_tx c false miner pool n total)
      × (total % 5 ≢ 0
          → create_coinbase_tx c true miner pool n total ≡ err fullnode_share_assertion)
unfolding create_coinbase_tx split_reward verify_non_burn_address validate_miner_share
    validate_fullnode_share
create_coinbase_tx_both c miner pool n total m h = ground arith

-- The address that has the nodes' part, of two outputs.
abbrev pub node_address : ℕ → TxOutput → TxOutput → ℕ
node_address expected_node a b = if eqb a.value expected_node then a.pubkey_hash else b.pubkey_hash

abbrev pub Known : Option (ℕ → Bool) → ℕ → Type 0
Known none address = Unit
Known (some is_valid_full_node) address = is_valid_full_node address ≡ true

-- One output, or two that are the parts of the reward in either order.
abbrev pub Shares : ℕ → Option (ℕ → Bool) → List TxOutput → Type 0
Shares reward validator [] = ⊥
Shares reward validator (a ∷ []) = Unit
Shares reward validator (a ∷ b ∷ []) =
    let miner = reward * 80 / 100 in
    (((a.value ≡ miner) × (b.value ≡ reward - miner))
      ⊎ ((a.value ≡ reward - miner) × (b.value ≡ miner)))
    × Known validator (node_address (reward - miner) a b)
Shares reward validator (a ∷ b ∷ d ∷ os) = ⊥

pub record Pays (reward : ℕ) (validator : Option (ℕ → Bool)) (outputs : List TxOutput)
    : Type 0 where
  pub total : total_outputs outputs ≡ reward
  pub kept : All (λ o. o.pubkey_hash ≢ 0) outputs
  pub shares : Shares reward validator outputs

-- In a build with assertions, and with active nodes, a coinbase is created exactly where it is in
-- a build without, if the reward is a multiple of five; for every other reward the creation stops
-- at the assertion on the nodes' share, since the share is what the miner's leaves and the
-- assertion rounds it down.
pub create_coinbase_tx-debug :
    (c : Crypto) (miner : ℕ) (pool : Option ℕ) (n total : ℕ)
    → miner ≢ 0
    → 0 < n
    → ((total % 5 ≡ 0)
        × (create_coinbase_tx c true miner pool n total
            ≡ create_coinbase_tx c false miner pool n total))
      ⊎ ((total % 5 ≢ 0)
          × (create_coinbase_tx c true miner pool n total ≡ err fullnode_share_assertion))
create_coinbase_tx-debug c miner pool n total m p = elim (ℕ_discrete (total % 5) 0) [
  | yes e ↦ inl (e, (create_coinbase_tx_both c miner pool n total m p).0 e)
  | no e ↦ inr (e, (create_coinbase_tx_both c miner pool n total m p).1 e)
]
