-- ===== src/Mempool/Pool.antt =====
-- The invariant of the pool in mempool.rs, and its single steps.
use klomang_network.Prelude.{
  ℕ, ◌+◌, ◌-◌, ◌%◌, ◌^◌, ◌≤◌, ◌<◌, ◌≡◌, ◌≢◌, ◌⊎◌, inl, inr, Bool, true, false, length, eqb_iff,
  nat_eq, arith, refl, none, some, Option-cases,
}
use klomang_network.Prelude.Map.{
  Map, IsMap, lookup, insert, erase, contains_key, lookup-erase, lookup-insert, IsMap-insert,
  IsMap-erase,
}
use klomang_network.Prelude.Set
use klomang_network.Transaction.{Transaction}
use klomang_network.Mempool.{
  PendingTransaction, PriorityKey, MempoolInner, max_tx_size_bytes, before, same_key, key_of,
  insert_key, remove_key, last_key, pending_from, store, evict_lowest_priority, new_inner,
}
use klomang_network.Mempool.Index.{
  key_eq, same_key_iff, contains-insert_key, contains-remove_key, IsSorted, IsSorted-insert_key,
  IsSorted-remove_key, last_key-contains, last_key-last,
}
use klomang_network.Mempool.Sizes.{
  total_size, total_size-insert, total_size-erase, AllSmall, AllSmall-insert, AllSmall-erase,
  total_size-bound,
}

-- The key is that of a transaction in the map.
abbrev pub listed : Map ℕ PendingTransaction → PriorityKey → Bool
listed m k = elim (lookup k.tx_id m) [ none ↦ false | some p ↦ same_key (key_of k.tx_id p) k ]

-- The index holds exactly the keys of the stored transactions, in their order, and the byte count
-- is the sum of their sizes.
pub record IsPool (inner : MempoolInner) : Type 0 where
  pub is_map : IsMap inner.transactions
  pub counted : inner.total_bytes ≡ total_size inner.transactions
  pub small : AllSmall inner.transactions
  pub indexed :
      (k : PriorityKey) → Set.contains inner.priority_index k ≡ listed inner.transactions k
  pub sorted : IsSorted inner.priority_index

pub IsPool-new : IsPool new_inner
unfolding total_size AllSmall lookup Set.contains
IsPool-new = record { is_map = tt; counted = refl; small = tt; indexed = λ k. refl; sorted = tt }

abbrev pub removed : ℕ → PendingTransaction → MempoolInner → MempoolInner
removed i p inner = record {
  transactions = erase i inner.transactions;
  priority_index = remove_key (key_of i p) inner.priority_index;
  total_bytes = inner.total_bytes - p.size_bytes;
}

pub IsPool-removed :
    (i : ℕ) (p : PendingTransaction) (inner : MempoolInner)
    → IsPool inner
    → lookup i inner.transactions ≡ some p
    → IsPool (removed i p inner)
IsPool-removed i p inner w e = record {
  is_map = IsMap-erase i inner.transactions w.is_map;
  counted = omega (arith, w.counted, total_size-erase i p inner.transactions w.is_map e);
  small = AllSmall-erase i inner.transactions w.small;
  indexed = indexed;
  sorted = IsSorted-remove_key (key_of i p) inner.priority_index w.sorted;
}
  where
    indexed :
        (k : PriorityKey)
        → Set.contains (remove_key (key_of i p) inner.priority_index) k
          ≡ listed (erase i inner.transactions) k
    indexed k = ground (
      arith,
      contains-remove_key (key_of i p) k inner.priority_index,
      w.indexed k,
      lookup-erase i k.tx_id inner.transactions,
      same_key_iff (key_of i p) k,
      eqb_iff i k.tx_id,
    )

-- A new transaction of bounded size, where fewer than 2 ^ 43 are stored.
pub IsPool-store :
    (now : ℕ) (tx : Transaction) (size fee : ℕ) (inner : MempoolInner)
    → IsPool inner
    → contains_key tx.id inner.transactions ≡ false
    → size ≤ max_tx_size_bytes
    → length inner.transactions < 2 ^ 43
    → IsPool (store now tx size fee inner)
unfolding store
IsPool-store now tx size fee inner w new sized few = record {
  is_map = IsMap-insert tx.id p inner.transactions w.is_map;
  counted = counted;
  small = AllSmall-insert tx.id p inner.transactions sized w.small;
  indexed = indexed;
  sorted = IsSorted-insert_key (key_of tx.id p) inner.priority_index w.sorted;
}
  where
    p : PendingTransaction
    p = pending_from now tx size fee

    counted : (inner.total_bytes + size) % 2 ^ 64 ≡ total_size (insert tx.id p inner.transactions)
    counted = omega (
      arith,
      w.counted,
      total_size-insert tx.id p inner.transactions new,
      total_size-bound inner.transactions w.small,
    )

    indexed :
        (k : PriorityKey)
        → Set.contains (insert_key (key_of tx.id p) inner.priority_index) k
          ≡ listed (insert tx.id p inner.transactions) k
    indexed k = ground (
      arith,
      contains-insert_key (key_of tx.id p) k inner.priority_index,
      w.indexed k,
      lookup-insert tx.id k.tx_id p inner.transactions,
      same_key_iff (key_of tx.id p) k,
      eqb_iff tx.id k.tx_id,
    )

-- The key is last in the order of the pool, and it is that of a stored transaction.
pub record IsLowest (inner : MempoolInner) (i : ℕ) (p : PendingTransaction) : Type 0 where
  pub lowest_stored : lookup i inner.transactions ≡ some p
  pub lowest_last :
      (j : ℕ) (q : PendingTransaction)
      → lookup j inner.transactions ≡ some q
      → i ≢ j
      → before (key_of j q) (key_of i p) ≡ true

pub last_key-IsLowest :
    (inner : MempoolInner) (lowest : PriorityKey)
    → IsPool inner
    → last_key inner.priority_index ≡ some lowest
    → (p : PendingTransaction) × (key_of lowest.tx_id p ≡ lowest) × IsLowest inner lowest.tx_id p
last_key-IsLowest inner lowest w e = elim (Option-cases (lookup lowest.tx_id inner.transactions)) [
  | inl gone ↦ absurd (missing gone)
  | inr (p, at) ↦ (p, same p at, record { lowest_stored = at; lowest_last = last p at })
]
  where
    inside : Set.contains inner.priority_index lowest ≡ true
    inside = last_key-contains lowest inner.priority_index e

    missing : lookup lowest.tx_id inner.transactions ≡ none → ⊥
    missing gone = ground (arith, inside, w.indexed lowest)

    same :
        (p : PendingTransaction)
        → lookup lowest.tx_id inner.transactions ≡ some p
        → key_of lowest.tx_id p ≡ lowest
    same p at =
        ground (arith, inside, w.indexed lowest, same_key_iff (key_of lowest.tx_id p) lowest)

    last :
        (p : PendingTransaction)
        → lookup lowest.tx_id inner.transactions ≡ some p
        → (j : ℕ) (q : PendingTransaction) → lookup j inner.transactions ≡ some q
        → lowest.tx_id ≢ j
        → before (key_of j q) (key_of lowest.tx_id p) ≡ true
    last p at j q h ne = ground (
      arith,
      same p at,
      w.indexed (key_of j q),
      same_key_iff (key_of j q) (key_of j q),
      last_key-last lowest (key_of j q) inner.priority_index w.sorted e,
    )

-- What eviction does to a pool: nothing to one without a key, and otherwise the lowest leaves it.
pub evict_lowest_priority-cases :
    (inner : MempoolInner)
    → IsPool inner
    → ((last_key inner.priority_index ≡ none) × (evict_lowest_priority inner ≡ inner))
      ⊎ ((i : ℕ) × (p : PendingTransaction) × IsLowest inner i p
          × (last_key inner.priority_index ≡ some (key_of i p))
          × (evict_lowest_priority inner ≡ removed i p inner))
unfolding evict_lowest_priority
evict_lowest_priority-cases inner w = elim (Option-cases (last_key inner.priority_index)) [
  | inl gone ↦ inl (gone, ground (arith, gone))
  | inr (lowest, e) ↦
      let (p, same, l) = last_key-IsLowest inner lowest w e in
      inr (lowest.tx_id, p, l, (rw (same) e), out lowest e p same l.lowest_stored)
]
  where
    out :
        (lowest : PriorityKey)
        → last_key inner.priority_index ≡ some lowest
        → (p : PendingTransaction) → key_of lowest.tx_id p ≡ lowest
        → lookup lowest.tx_id inner.transactions ≡ some p
        → evict_lowest_priority inner ≡ removed lowest.tx_id p inner
    out lowest e p same at = ground (arith, e, at, same)
