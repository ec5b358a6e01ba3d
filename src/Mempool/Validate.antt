-- ===== src/Mempool/Validate.antt =====
-- The validation of mempool.rs and `insert_transaction`. What the state manager answers is an argument.
use klomang_network.Prelude.{
  ℕ, ◌+◌, ◌-◌, ◌^◌, Bool, ◌||◌, none, some, List, [], ◌∷◌, eqb, ltb, leb, length, nat_eq, pair_eq,
  if◌then◌else◌, take,
}
use klomang_network.Prelude.Map.{Map, lookup}
use klomang_network.Prelude.Result.{Result, ok, err, ◌>>=◌, ◌>>◌, guard}
use klomang_network.Crypto.{Crypto}
use klomang_network.Transaction.{Transaction, TxInput, TxOutput, compute_sighash}
use klomang_network.Utxo.{UtxoSet, OutPoint, outpoint}
use klomang_network.Mempool.{
  Reason, signature_length, pubkey_length, pubkey_invalid, signature_invalid, verification_failed,
  input_not_found, key_not_found, proof_failed, input_overflow, output_overflow, insufficient_input,
  exceeds_supply, MempoolError, oversized_transaction, fee_too_low, invalid_signature, Limits,
  MempoolInner, max_tx_size_bytes, calculate_fee_per_byte, saturating_mul_u128, admit,
}

-- What the pool asks of the state manager: the key of an output in the tree, the outcome of
-- generating and verifying a proof for the key, and the supply.
pub record StateView : Type 0 where
  pub outpoint_to_key : Map OutPoint ℕ
  pub proves : ℕ → Bool
  pub current_total_supply : ℕ

unfoldable pub checked_add_u128 : ℕ → ℕ → Reason → Result MempoolError ℕ
checked_add_u128 a b r = if ltb (a + b) (2 ^ 128) then ok (a + b) else err (invalid_signature r)

unfoldable pub total_output_value : ℕ → List TxOutput → Result MempoolError ℕ
total_output_value total [] = ok total
total_output_value total (o ∷ os) =
    checked_add_u128 total o.value output_overflow >>= λ t. total_output_value t os

unfoldable pub total_input_value : UtxoSet → StateView → ℕ → List TxInput → Result MempoolError ℕ
total_input_value u s total [] = ok total
total_input_value u s total (i ∷ is) = elim (lookup (outpoint i) u.utxos) [
  | none ↦ err (invalid_signature input_not_found)
  | some entry ↦ elim (lookup (outpoint i) s.outpoint_to_key) [
    | none ↦ err (invalid_signature key_not_found)
    | some key ↦
        guard (s.proves key) (invalid_signature proof_failed)
        >> (checked_add_u128 total entry.value input_overflow >>= λ t. total_input_value u s t is)
  ]
]

module _ (c : Crypto) where
  unfoldable pub check_input : Transaction → ℕ → TxInput → Result MempoolError Unit
  check_input tx input_index i = do
    guard (eqb (length i.signature) 64) (invalid_signature signature_length)
    guard (eqb (length i.pubkey) 32 || eqb (length i.pubkey) 33) (invalid_signature pubkey_length)
    guard (c.is_verifying_key (take 32 i.pubkey)) (invalid_signature pubkey_invalid)
    guard (c.is_signature i.signature) (invalid_signature signature_invalid)
    guard
        (c.verify (take 32 i.pubkey) (compute_sighash c tx input_index i.sighash_type) i.signature)
        (invalid_signature verification_failed)

  unfoldable pub check_inputs : Transaction → ℕ → List TxInput → Result MempoolError Unit
  check_inputs tx input_index [] = ok tt
  check_inputs tx input_index (i ∷ is) =
      check_input tx input_index i >> check_inputs tx (input_index + 1) is

  unfoldable pub validate_transaction_stateless :
      Limits → ℕ → Transaction → Result MempoolError Unit
  validate_transaction_stateless l size tx =
      let fee = calculate_fee_per_byte tx size in
      guard (leb size max_tx_size_bytes) (oversized_transaction size max_tx_size_bytes)
      >> (guard (leb l.min_fee_per_byte fee) (fee_too_low fee l.min_fee_per_byte)
          >> check_inputs tx 0 tx.inputs)

  unfoldable pub validate_transaction_stateful :
      Limits → StateView → UtxoSet → ℕ → Transaction → Result MempoolError Unit
  validate_transaction_stateful l s u size tx = do
    validate_transaction_stateless l size tx
    total_input ← total_input_value u s 0 tx.inputs
    total_output ← total_output_value 0 tx.outputs
    guard (leb total_output total_input) (invalid_signature insufficient_input)
    guard (leb (saturating_mul_u128 tx.max_fee_per_gas tx.gas_limit) (total_input - total_output)) (
        fee_too_low (total_input - total_output)
          (saturating_mul_u128 tx.max_fee_per_gas tx.gas_limit))
    guard (leb total_output s.current_total_supply) (invalid_signature exceeds_supply)

  -- `serialized_size` is the size that bincode gives, or 0 where it fails.
  unfoldable pub insert_transaction :
      Limits
      → StateView
      → UtxoSet
      → (serialized_size : Transaction → ℕ) → (now : ℕ) → Transaction
      → MempoolInner
      → Result MempoolError Unit × MempoolInner
  insert_transaction l s u serialized_size now tx inner =
      let size = serialized_size tx in
      admit l (validate_transaction_stateful l s u size tx) now tx size inner
