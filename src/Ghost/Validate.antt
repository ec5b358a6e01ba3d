-- ===== src/Ghost/Validate.antt =====
-- `validate_block` of klomang-core/src/core/consensus/ghostdag.rs.
use klomang_network.Prelude.{
  ℕ, zero, suc, ◌+◌, ◌-◌, ◌*◌, ◌%◌, ◌^◌, min, Bool, true, false, not, ◌&&◌, Option, none, some,
  List, [], ◌∷◌, ◌++◌, eqb, leb, length, pair_eq, nat_eq, if◌then◌else◌,
}
use klomang_network.Prelude.Set
use klomang_network.Prelude.Bytes.{be_bytes}
use klomang_network.Prelude.Result.{Result, ok, err, ◌>>=◌, ◌>>◌, guard}
use klomang_network.Crypto.{Crypto}
use klomang_network.Transaction.{
  Transaction, TxInput, TxOutput, as_bytes, calculate_id, compute_sighash, hash_with_index,
}
use klomang_network.Utxo.{OutPoint, outpoint, u64_max}
use klomang_network.Dag.{BlockNode, Dag, all_stored}
use klomang_network.Verkle.{VerkleTree, get}
use klomang_network.Pow.{calculate_hash, is_valid_pow, is_empty}

-- The errors of a block, by their texts.
pub data BlockFault : Type 0 where
  parent_missing too_far_future too_far_past zero_difficulty invalid_pow wrong_id double_spend
        missing_signature invalid_pubkey malformed_signature invalid_signatures missing_input
        query_failed key_collision :
      BlockFault

-- A key, the digest that is signed and a signature.
abbrev pub SignatureItem : Type 0
SignatureItem = List ℕ × ℕ × List ℕ

-- The inner loop of `validate_transactions` over the outpoints spent before.
unfoldable pub insert_spends : List OutPoint → List TxInput → Result BlockFault (List OutPoint)
insert_spends spent [] = ok spent
insert_spends spent (i ∷ is) =
    let rest = insert_spends (outpoint i ∷ spent) is in
    if Set.contains spent (outpoint i) then err double_spend else rest

module _ (c : Crypto) where
  -- One round of `while hashes.len() > 1`, over chunks of two.
  unfoldable pub merkle_level : List ℕ → List ℕ
  merkle_level [] = []
  merkle_level (a ∷ []) = c.blake3 (as_bytes a) ∷ []
  merkle_level (a ∷ b ∷ hashes) = c.blake3 (as_bytes a ++ as_bytes b) ∷ merkle_level hashes

  -- The rounds, on fuel; a round leaves fewer hashes than it takes.
  unfoldable pub merkle_rounds : ℕ → List ℕ → Option ℕ
  merkle_rounds fuel [] = none
  merkle_rounds fuel (a ∷ []) = some a
  merkle_rounds zero (a ∷ b ∷ hashes) = none
  merkle_rounds (suc fuel) (a ∷ b ∷ hashes) = merkle_rounds fuel (merkle_level (a ∷ b ∷ hashes))

  unfoldable pub tx_ids : List Transaction → List ℕ
  tx_ids [] = []
  tx_ids (tx ∷ txs) = tx.id ∷ tx_ids txs

  unfoldable pub compute_transaction_merkle_root : List Transaction → Option ℕ
  compute_transaction_merkle_root [] = some (c.blake3 [])
  compute_transaction_merkle_root (tx ∷ txs) = merkle_rounds (length (tx ∷ txs)) (tx_ids (tx ∷ txs))

  unfoldable pub collect_transaction_signatures :
      Transaction → ℕ → List SignatureItem → List TxInput → Result BlockFault (List SignatureItem)
  collect_transaction_signatures tx input_idx items [] = ok items
  collect_transaction_signatures tx input_idx items (i ∷ is) = do
    guard (not (is_empty i.signature)) missing_signature
    guard (c.is_verifying_key i.pubkey) invalid_pubkey
    guard (c.is_signature i.signature) malformed_signature
    collect_transaction_signatures tx (input_idx + 1)
        (items ++ (i.pubkey, compute_sighash c tx input_idx i.sighash_type, i.signature) ∷ []) is

  -- The outer loop of `validate_transactions`.
  unfoldable pub check_transactions :
      List OutPoint → List SignatureItem → List Transaction → Result BlockFault (List SignatureItem)
  check_transactions spent items [] = ok items
  check_transactions spent items (tx ∷ txs) = do
    guard (eqb tx.id (calculate_id c tx)) wrong_id
    spent' ← insert_spends spent tx.inputs
    items' ← collect_transaction_signatures tx 0 items tx.inputs
    check_transactions spent' items' txs

  -- Every signature is checked, in chunks on threads whose answers are joined by `and`.
  unfoldable pub batch_verify : List SignatureItem → Bool
  batch_verify [] = true
  batch_verify ((pubkey, message, signature) ∷ items) =
      c.verify pubkey message signature && batch_verify items

  unfoldable pub validate_transactions : List Transaction → Result BlockFault (Unit {0})
  validate_transactions txs = do
    items ← check_transactions [] [] txs
    guard (batch_verify items) invalid_signatures

  unfoldable pub outpoint_key : OutPoint → List ℕ
  outpoint_key (prev_tx, index) = as_bytes (c.blake3 (as_bytes prev_tx ++ be_bytes 4 index))

  unfoldable pub inputs_present : VerkleTree → List TxInput → Result BlockFault (Unit {0})
  inputs_present t [] = ok tt
  inputs_present t (i ∷ is) =
      let rest = inputs_present t is in
      elim (get (outpoint_key (outpoint i)) t) [
        | err e ↦ err query_failed
        | ok none ↦ err missing_input
        | ok (some value) ↦ rest
      ]

  unfoldable pub outputs_free :
      VerkleTree → Transaction → ℕ → List TxOutput → Result BlockFault (Unit {0})
  outputs_free t tx idx [] = ok tt
  outputs_free t tx idx (o ∷ os) =
      let rest = outputs_free t tx (idx + 1) os in
      elim (get (as_bytes (hash_with_index c tx (idx % 2 ^ 32))) t) [
        | err e ↦ rest
        | ok none ↦ rest
        | ok (some existing) ↦ err key_collision
      ]

  unfoldable pub validate_verkle_proof :
      VerkleTree → List Transaction → Result BlockFault (Unit {0})
  validate_verkle_proof t [] = ok tt
  validate_verkle_proof t (tx ∷ txs) =
      inputs_present t tx.inputs >> (outputs_free t tx 0 tx.outputs >> validate_verkle_proof t txs)

  unfoldable pub pow_passes : BlockNode → Bool
  pow_passes block = elim (compute_transaction_merkle_root block.transactions) [
    | none ↦ false
    | some tx_root ↦
        is_valid_pow
          (calculate_hash c block.header.timestamp block.header.difficulty block.header.parents
            block.blue_score block.header.nonce tx_root)
          block.header.difficulty
  ]

  unfoldable pub validate_block : Dag → VerkleTree → ℕ → BlockNode → Result BlockFault (Unit {0})
  validate_block d t current_time block = do
    guard (all_stored d.blocks block.header.parents) parent_missing
    guard (leb block.header.timestamp (min u64_max (current_time + 2 * 60 * 60))) too_far_future
    guard (leb (current_time - 24 * 60 * 60) block.header.timestamp) too_far_past
    guard (not (eqb block.header.difficulty 0)) zero_difficulty
    guard (pow_passes block) invalid_pow
    validate_transactions block.transactions
    validate_verkle_proof t block.transactions
