-- ===== src/Utxo.antt =====
-- The set of unspent outputs: klomang-core/src/core/state/utxo.rs. Values are u64, indices u32.
pub mod Validate
pub mod Apply
pub mod Revert
pub mod Value
pub mod Repeat
mod Tests
use klomang_network.Prelude.{
  ℕ, zero, suc, ◌+◌, ◌-◌, ◌%◌, ◌^◌, ◌<◌, ◌≤◌, Bool, true, false, not, ◌&&◌, ◌||◌, Option, none,
  some, List, [], ◌∷◌, ◌++◌, eqb, leb, ltb, length, if◌then◌else◌, ◌==◌, Eq, pair_eq, nat_eq, map,
}
use klomang_network.Prelude.Map.{Map, lookup, insert, erase, contains_key}
use klomang_network.Prelude.Set
use klomang_network.Prelude.Result.{Result, ok, err, ◌>>=◌, ◌>>◌, guard}
use klomang_network.Crypto.{Crypto}
use klomang_network.Transaction.{Transaction, TxInput, TxOutput, is_coinbase, compute_sighash}

abbrev pub OutPoint : Type 0
OutPoint = ℕ × ℕ

-- The texts of `CoreError::TransactionError`.
pub data TxFault : Type 0 where
  burn_output duplicate_input output_overflow input_overflow input_not_found : TxFault
  insufficient_input fee_underflow input_disappeared created_not_found spent_not_found : TxFault
  fee_overflow reward_overflow : TxFault

-- The errors of `CoreError` that these parts return.
pub data CoreError : Type 0 where
  transaction_error : TxFault → CoreError
  invalid_public_key invalid_signature signature_verification_failed : CoreError

pub record UtxoChangeSet : Type 0 where
  pub spent : List OutPoint
  pub created : List (OutPoint × TxOutput)

pub record UtxoSet : Type 0 where
  pub utxos : Map OutPoint TxOutput

abbrev pub u64_max : ℕ
u64_max = 2 ^ 64 - 1

abbrev pub outpoint : TxInput → OutPoint
outpoint i = (i.prev_tx, i.index)

-- `checked_add` on u64.
abbrev pub checked_add : ℕ → ℕ → TxFault → Result CoreError ℕ
checked_add a b fault = if leb (a + b) u64_max then ok (a + b) else err (transaction_error fault)

-- As many zero bytes.
abbrev pub zero_bytes : ℕ → List ℕ
zero_bytes zero = []
zero_bytes (suc n) = 0 ∷ zero_bytes n

abbrev pub burn_address : List ℕ
burn_address = zero_bytes 32

pub check_burn : ℕ → List TxOutput → Result CoreError Unit
check_burn burn [] = ok tt
check_burn burn (o ∷ os) =
    let rest = check_burn burn os in
    if eqb o.pubkey_hash burn then err (transaction_error burn_output) else rest

pub check_duplicates : List OutPoint → List TxInput → Result CoreError Unit
check_duplicates seen [] = ok tt
check_duplicates seen (i ∷ is) =
    let rest = check_duplicates (Set.insert (outpoint i) seen) is in
    if Set.contains seen (outpoint i) then err (transaction_error duplicate_input) else rest

pub sum_outputs : ℕ → List TxOutput → Result CoreError ℕ
sum_outputs total [] = ok total
sum_outputs total (o ∷ os) = checked_add total o.value output_overflow >>= λ t. sum_outputs t os

module _ (c : Crypto) where
  -- The key, the signature and the message of one input.
  pub check_signature : Transaction → ℕ → TxInput → Result CoreError Unit
  check_signature tx input_idx i = do
    guard (eqb (length i.pubkey) 33 || eqb (length i.pubkey) 32) invalid_public_key
    guard (eqb (length i.signature) 64) invalid_signature
    guard (c.is_verifying_key i.pubkey) invalid_public_key
    guard (c.is_signature i.signature) invalid_signature
    guard (c.verify i.pubkey (compute_sighash c tx input_idx i.sighash_type) i.signature)
        signature_verification_failed

  -- The loop over the inputs, from the index and the total given.
  pub sum_inputs : UtxoSet → Transaction → ℕ → ℕ → List TxInput → Result CoreError ℕ
  sum_inputs u tx input_idx total [] = ok total
  sum_inputs u tx input_idx total (i ∷ is) = elim (lookup (outpoint i) u.utxos) [
    | none ↦ err (transaction_error input_not_found)
    | some o ↦ checked_add total o.value input_overflow >>= λ t.
        check_signature tx input_idx i >> sum_inputs u tx (input_idx + 1) t is
  ]

  -- The part of `validate_tx` for a transaction with inputs; the subtraction cannot fail, since
  -- the line above it has tested the same.
  pub validate_spend : UtxoSet → Transaction → Result CoreError ℕ
  validate_spend u tx = do
    check_duplicates [] tx.inputs
    total_output ← sum_outputs 0 tx.outputs
    total_input ← sum_inputs u tx 0 0 tx.inputs
    guard (not (ltb total_input total_output)) (transaction_error insufficient_input)
    guard (leb total_output total_input) (transaction_error fee_underflow)
    ok (total_input - total_output)

  pub validate_tx : UtxoSet → Transaction → Result CoreError ℕ
  validate_tx u tx =
      check_burn (c.blake3 burn_address) tx.outputs
      >> (if is_coinbase tx then ok 0 else validate_spend u tx)

-- The loop of `apply_tx` that removes the spent outputs; the set is changed also where it stops.
pub remove_inputs :
    List OutPoint
    → Map OutPoint TxOutput
    → List TxInput
    → Result CoreError (List OutPoint) × Map OutPoint TxOutput
remove_inputs spent m [] = (ok spent, m)
remove_inputs spent m (i ∷ is) =
    let rest = remove_inputs (spent ++ outpoint i ∷ []) (erase (outpoint i) m) is in
    if contains_key (outpoint i) m then rest else (err (transaction_error input_disappeared), m)

-- The created entries, their indices cast to u32.
unfoldable pub created_from : ℕ → ℕ → List TxOutput → List (OutPoint × TxOutput)
created_from tx_id index [] = []
created_from tx_id index (o ∷ os) = ((tx_id, index % 2 ^ 32), o) ∷ created_from tx_id (index + 1) os

unfoldable pub insert_all :
    List (OutPoint × TxOutput) → Map OutPoint TxOutput → Map OutPoint TxOutput
insert_all [] m = m
insert_all ((k, o) ∷ r) m = insert_all r (insert k o m)

-- The step after a successful validation.
pub apply_valid : UtxoSet → Transaction → Result CoreError UtxoChangeSet × UtxoSet
apply_valid u tx =
    let (r, m) = remove_inputs [] u.utxos tx.inputs in
    let new = created_from tx.id 0 tx.outputs in
    elim r [
      | err e ↦ (err e, record { utxos = m })
      | ok spent ↦
          (ok (record { spent = spent; created = new }), record { utxos = insert_all new m })
    ]

pub apply_tx : Crypto → UtxoSet → Transaction → Result CoreError UtxoChangeSet × UtxoSet
apply_tx c u tx =
    let applied = apply_valid u tx in
    elim (validate_tx c u tx) [ err e ↦ (err e, u) | ok _ ↦ applied ]

pub remove_created :
    List (OutPoint × TxOutput)
    → Map OutPoint TxOutput
    → Result CoreError Unit × Map OutPoint TxOutput
remove_created [] m = (ok tt, m)
remove_created ((k, _) ∷ r) m =
    let rest = remove_created r (erase k m) in
    if contains_key k m then rest else (err (transaction_error created_not_found), m)

pub restore_spent :
    Map OutPoint TxOutput
    → List OutPoint
    → Map OutPoint TxOutput
    → Result CoreError Unit × Map OutPoint TxOutput
restore_spent olds [] m = (ok tt, m)
restore_spent olds (k ∷ ks) m = elim (lookup k olds) [
  | none ↦ (err (transaction_error spent_not_found), m)
  | some o ↦ restore_spent olds ks (insert k o m)
]

pub revert_tx : UtxoSet → UtxoChangeSet → Map OutPoint TxOutput → Result CoreError Unit × UtxoSet
revert_tx u changes spent_outputs =
    let (r, m) = remove_created changes.created u.utxos in
    let (r', m') = restore_spent spent_outputs changes.spent m in
    elim r [ err e ↦ (err e, record { utxos = m }) | ok _ ↦ (r', record { utxos = m' }) ]

balance_from : ℕ → Map OutPoint TxOutput → ℕ
balance_from owner [] = 0
balance_from owner ((_, o) ∷ m) =
    (if eqb o.pubkey_hash owner then o.value else 0) + balance_from owner m

-- The sum wraps in a release build.
pub get_balance : UtxoSet → ℕ → ℕ
get_balance u owner = balance_from owner u.utxos % 2 ^ 64
