-- ===== src/Mempool.antt =====
-- The memory pool: klomang-core/src/core/mempool.rs. The clock and the size of a serialized
-- transaction (bincode) are arguments. The index is the list of its keys in their order.
pub mod Index
pub mod Sizes
pub mod Pool
pub mod Outcome
pub mod Admission
pub mod Removal
pub mod Validate
mod Tests
use klomang_network.Prelude.{
  ℕ, zero, suc, ◌+◌, ◌-◌, ◌*◌, ◌/◌, ◌%◌, ◌^◌, min, max, Bool, true, false, not, ◌&&◌, ◌||◌, Option,
  none, some, List, [], ◌∷◌, eqb, ltb, leb, length, nat_eq, if◌then◌else◌, take,
}
use klomang_network.Prelude.Map.{Map, lookup, insert, erase, contains_key}
use klomang_network.Prelude.Result.{Result, ok, err, ◌>>=◌, ◌>>◌, guard}
use klomang_network.Crypto.{Crypto}
use klomang_network.Transaction.{Transaction, TxInput, TxOutput, SigHashType, compute_sighash}
use klomang_network.Utxo.{UtxoSet, OutPoint, outpoint}
use klomang_network.Dag.{BlockNode}

-- The reasons that the source words differently are constructors of their own.
pub data Reason : Type 0 where
  signature_length pubkey_length pubkey_invalid signature_invalid verification_failed : Reason
  input_not_found key_not_found proof_failed input_overflow output_overflow insufficient_input :
      Reason
  exceeds_supply : Reason

pub data MempoolError : Type 0 where
  duplicate_transaction : MempoolError
  oversized_transaction : (size maximum : ℕ) → MempoolError
  fee_too_low : (received required : ℕ) → MempoolError
  invalid_signature : Reason → MempoolError
  pool_full transaction_not_found expired_transaction : MempoolError

pub record PendingTransaction : Type 0 where
  pub tx : Transaction
  pub inserted_at : ℕ
  pub size_bytes : ℕ
  pub fee_per_byte : ℕ

pub record PriorityKey : Type 0 where
  pub fee_per_byte : ℕ
  pub inserted_at : ℕ
  pub tx_id : ℕ

-- The key stands before the other in the order: a higher fee, then an earlier time, then a
-- smaller hash.
abbrev pub before : PriorityKey → PriorityKey → Bool
before a b =
    ltb b.fee_per_byte a.fee_per_byte
    || (eqb a.fee_per_byte b.fee_per_byte
        && (ltb a.inserted_at b.inserted_at
            || (eqb a.inserted_at b.inserted_at && ltb a.tx_id b.tx_id)))

abbrev pub same_key : PriorityKey → PriorityKey → Bool
same_key a b =
    eqb a.fee_per_byte b.fee_per_byte && (eqb a.inserted_at b.inserted_at && eqb a.tx_id b.tx_id)

-- `BTreeSet::insert`, `remove`, and the last key of `iter().next_back()`.
pub insert_key : PriorityKey → List PriorityKey → List PriorityKey
insert_key a [] = a ∷ []
insert_key a (b ∷ bs) =
    let rest = insert_key a bs in
    if before a b then a ∷ b ∷ bs else if same_key a b then b ∷ bs else b ∷ rest

pub remove_key : PriorityKey → List PriorityKey → List PriorityKey
remove_key a [] = []
remove_key a (b ∷ bs) = let rest = remove_key a bs in if same_key a b then rest else b ∷ rest

pub last_key : List PriorityKey → Option PriorityKey
last_key [] = none
last_key (a ∷ as') = elim (last_key as') [ none ↦ some a | some b ↦ some b ]

pub record MempoolInner : Type 0 where
  pub transactions : Map ℕ PendingTransaction
  pub priority_index : List PriorityKey
  pub total_bytes : ℕ

pub record Limits : Type 0 where
  pub max_bytes : ℕ
  pub max_transactions : ℕ
  pub min_fee_per_byte : ℕ
  pub ttl_seconds : ℕ

abbrev pub max_tx_size_bytes : ℕ
max_tx_size_bytes = 1024 * 1024

abbrev pub new_inner : MempoolInner
new_inner = record { transactions = []; priority_index = []; total_bytes = 0 }

abbrev pub default_limits : Limits
default_limits = record {
  max_bytes = 100 * 1024 * 1024;
  max_transactions = 50_000;
  min_fee_per_byte = 1;
  ttl_seconds = 60 * 60 * 24;
}

abbrev pub saturating_mul_u128 : ℕ → ℕ → ℕ
saturating_mul_u128 a b = min (a * b) (2 ^ 128 - 1)

pub calculate_fee_per_byte : Transaction → ℕ → ℕ
calculate_fee_per_byte tx size_bytes =
    if eqb size_bytes 0
    then 0
    else max (saturating_mul_u128 tx.max_fee_per_gas (tx.gas_limit + 1) / size_bytes)
        tx.max_fee_per_gas

abbrev pub key_of : ℕ → PendingTransaction → PriorityKey
key_of tx_id p = record {
  fee_per_byte = p.fee_per_byte;
  inserted_at = p.inserted_at;
  tx_id = tx_id;
}

pub should_accept_new_transaction : Limits → MempoolInner → ℕ → Bool
should_accept_new_transaction l inner fee =
    if ltb (length inner.transactions) l.max_transactions && ltb inner.total_bytes l.max_bytes
    then true
    else elim (last_key inner.priority_index) [
      | none ↦ true
      | some lowest ↦ ltb lowest.fee_per_byte fee
    ]

pub evict_lowest_priority : MempoolInner → MempoolInner
evict_lowest_priority inner = elim (last_key inner.priority_index) [
  | none ↦ inner
  | some lowest ↦
      let index = remove_key lowest inner.priority_index in
      elim (lookup lowest.tx_id inner.transactions) [
        | none ↦ record inner { priority_index = index }
        | some p ↦ record {
          transactions = erase lowest.tx_id inner.transactions;
          priority_index = index;
          total_bytes = inner.total_bytes - p.size_bytes;
        }
      ]
]

abbrev pub pending_from : ℕ → Transaction → ℕ → ℕ → PendingTransaction
pending_from now tx size fee = record {
  tx = tx;
  inserted_at = now;
  size_bytes = size;
  fee_per_byte = fee;
}

-- The lines of `insert_transaction` under the lock that store the transaction.
pub store : ℕ → Transaction → ℕ → ℕ → MempoolInner → MempoolInner
store now tx size fee inner = record {
  transactions = insert tx.id (pending_from now tx size fee) inner.transactions;
  priority_index = insert_key (key_of tx.id (pending_from now tx size fee)) inner.priority_index;
  total_bytes = (inner.total_bytes + size) % 2 ^ 64;
}

abbrev pub needs_room : Limits → MempoolInner → ℕ → Bool
needs_room l inner size =
    ltb l.max_bytes ((inner.total_bytes + size) % 2 ^ 64)
    || ltb l.max_transactions (length inner.transactions + 1)

-- `insert_transaction` after the validation, whose result is an argument.
pub admit :
    Limits
    → Result MempoolError Unit
    → ℕ
    → Transaction
    → ℕ
    → MempoolInner
    → Result MempoolError Unit × MempoolInner
admit l (err e) now tx size inner = (err e, inner)
admit l (ok _) now tx size inner =
    let fee = calculate_fee_per_byte tx size in
    if contains_key tx.id inner.transactions
    then (err duplicate_transaction, inner)
    else if not (needs_room l inner size)
    then (ok tt, store now tx size fee inner)
    else if not (should_accept_new_transaction l inner fee)
    then (err pool_full, inner)
    else (ok tt, store now tx size fee (evict_lowest_priority inner))

-- Removal of each in turn, with the count of those that were in the pool.
pub remove_each : List ℕ → MempoolInner → ℕ × MempoolInner
remove_each [] inner = (0, inner)
remove_each (i ∷ is) inner = elim (lookup i inner.transactions) [
  | none ↦ remove_each is inner
  | some p ↦
      let (n, after) = remove_each is (record {
        transactions = erase i inner.transactions;
        priority_index = remove_key (key_of i p) inner.priority_index;
        total_bytes = inner.total_bytes - p.size_bytes;
      }) in
      (suc n, after)
]

pub remove_transactions : List ℕ → MempoolInner → ℕ × MempoolInner
remove_transactions tx_ids inner = remove_each tx_ids inner

tx_ids : List Transaction → List ℕ
tx_ids [] = []
tx_ids (t ∷ ts) = t.id ∷ tx_ids ts

pub remove_on_block_inclusion : BlockNode → MempoolInner → ℕ × MempoolInner
remove_on_block_inclusion block inner = remove_transactions (tx_ids block.transactions) inner

pub expired_ids : Limits → ℕ → Map ℕ PendingTransaction → List ℕ
expired_ids l now [] = []
expired_ids l now ((i, p) ∷ m) =
    let rest = expired_ids l now m in
    if leb ((p.inserted_at + l.ttl_seconds) % 2 ^ 64) now then i ∷ rest else rest

pub expire_old_transactions : Limits → ℕ → MempoolInner → ℕ × MempoolInner
expire_old_transactions l now inner =
    let ids = expired_ids l now inner.transactions in (length ids, (remove_each ids inner).1)

-- The transactions that no longer pass, in the order of the map; the verdict is an argument.
pub failing : (Transaction → Result MempoolError Unit) → Map ℕ PendingTransaction → List ℕ
failing check [] = []
failing check ((i, p) ∷ m) = elim (check p.tx) [
  | ok _ ↦ failing check m
  | err _ ↦ i ∷ failing check m
]

pub revalidate_pending_transactions :
    (Transaction → Result MempoolError Unit) → MempoolInner → ℕ × MempoolInner
revalidate_pending_transactions check inner = remove_each (failing check inner.transactions) inner

pub txs_of : Map ℕ PendingTransaction → List PriorityKey → List Transaction
txs_of m [] = []
txs_of m (k ∷ ks) = elim (lookup k.tx_id m) [ none ↦ txs_of m ks | some p ↦ p.tx ∷ txs_of m ks ]

pub get_top_transactions : ℕ → MempoolInner → List Transaction
get_top_transactions limit inner = txs_of inner.transactions (take limit inner.priority_index)
