-- ===== src/Mempool/Outcome.antt =====
-- How the insertion of mempool.rs can end, and the invariant of the pool.
use klomang_network.Prelude.{
  ℕ, ◌^◌, ◌≤◌, ◌<◌, max, ◌≡◌, ◌⊎◌, inl, inr, true, false, [], ◌∷◌, length, eqb_iff, nat_eq, arith,
  refl, sym, ◌∙◌, ap, none, some, Bool-cases,
}
use klomang_network.Prelude.Map.{Map, lookup, erase, contains_key, lookup-erase}
use klomang_network.Prelude.Set
use klomang_network.Prelude.Result.{Result, ok, err}
use klomang_network.Transaction.{Transaction}
use klomang_network.Mempool.{
  PriorityKey, PendingTransaction, MempoolInner, MempoolError, pool_full, duplicate_transaction,
  Limits, max_tx_size_bytes, key_of, last_key, pending_from, store, needs_room,
  should_accept_new_transaction, admit, calculate_fee_per_byte,
}
use klomang_network.Mempool.Pool.{
  listed, IsPool, IsPool-removed, IsPool-store, removed, IsLowest, evict_lowest_priority-cases,
}
use klomang_network.Mempool.Index.{key_eq, same_key_iff, last_key-none}
use klomang_network.Mempool.Sizes.{length-insert_new, length-erase}

abbrev pub kept : ℕ → Transaction → ℕ → PendingTransaction
kept now tx size = pending_from now tx size (calculate_fee_per_byte tx size)

abbrev pub placed : ℕ → Transaction → ℕ → MempoolInner → MempoolInner
placed now tx size inner = store now tx size (calculate_fee_per_byte tx size) inner

-- How an insertion can end: the pool as it was, with the transaction, or with the transaction in
-- the place of the lowest, which there was no room for.
pub data Ends (l : Limits) (now : ℕ) (tx : Transaction) (size : ℕ) (inner : MempoolInner)
    : Result MempoolError Unit × MempoolInner → Type 0 where
  refused : (e : MempoolError) → Ends l now tx size inner (err e, inner)
  stored :
      contains_key tx.id inner.transactions ≡ false
      → needs_room l inner size ≡ false
      → Ends l now tx size inner (ok tt, placed now tx size inner)
  stored_alone :
      contains_key tx.id inner.transactions ≡ false
      → last_key inner.priority_index ≡ none
      → Ends l now tx size inner (ok tt, placed now tx size inner)
  replaced :
      (i : ℕ) (p : PendingTransaction)
      → IsLowest inner i p
      → contains_key tx.id inner.transactions ≡ false
      → needs_room l inner size ≡ true
      → (p.fee_per_byte < calculate_fee_per_byte tx size)
        ⊎ ((length inner.transactions < l.max_transactions) × (inner.total_bytes < l.max_bytes))
      → Ends l now tx size inner (ok tt, placed now tx size (removed i p inner))

pub admit-Ends :
    (l : Limits) (verdict : Result MempoolError Unit) (now : ℕ) (tx : Transaction) (size : ℕ)
    (inner : MempoolInner)
    → IsPool inner
    → Ends l now tx size inner (admit l verdict now tx size inner)
unfolding admit should_accept_new_transaction
admit-Ends l (err e) now tx size inner w = refused e
admit-Ends l (ok _) now tx size inner w =
    elim (Bool-cases (contains_key tx.id inner.transactions)) [
      | inl old ↦ rw (old) (refused duplicate_transaction)
      | inr new ↦ elim (Bool-cases (needs_room l inner size)) [
        | inr room ↦ rw (new, room) (stored new room)
        | inl full ↦
            elim (Bool-cases
              (should_accept_new_transaction l inner (calculate_fee_per_byte tx size))) [
                | inr cheap ↦ rw (new, full, cheap) (refused pool_full)
                | inl dear ↦
                    rw (new, full, dear)
                      (elim (evict_lowest_priority-cases inner w) [
                        | inl (gone, same) ↦ rw (same) (stored_alone new gone)
                        | inr (i, p, low, at, same) ↦
                            rw (same) (replaced i p low new full (worth i p at dear))
                      ])
              ]
      ]
    ]
  where
    worth :
        (i : ℕ) (p : PendingTransaction)
        → last_key inner.priority_index ≡ some (key_of i p)
        → should_accept_new_transaction l inner (calculate_fee_per_byte tx size) ≡ true
        → (p.fee_per_byte < calculate_fee_per_byte tx size)
          ⊎ ((length inner.transactions < l.max_transactions) × (inner.total_bytes < l.max_bytes))
    worth i p at dear = ground (arith, at, dear)

abbrev pub Room : Limits → MempoolInner → Type 0
Room l inner = length inner.transactions ≤ max 1 l.max_transactions

none_listed : (m : Map ℕ PendingTransaction) → ((k : PriorityKey) → listed m k ≡ false) → m ≡ []
unfolding lookup
none_listed [] h = refl
none_listed ((i, p) ∷ m) h = absurd (clash (h (key_of i p)))
  where
    clash : listed ((i, p) ∷ m) (key_of i p) ≡ false → ⊥
    clash e = ground (arith, eqb_iff i i, same_key_iff (key_of i p) (key_of i p))

-- A pool without keys is empty.
no_keys :
    (inner : MempoolInner)
    → IsPool inner
    → last_key inner.priority_index ≡ none
    → inner.transactions ≡ []
unfolding Set.contains
no_keys inner w gone = none_listed inner.transactions (λ k.
    sym (w.indexed k) ∙ ap (λ xs. Set.contains xs k) (last_key-none inner.priority_index gone))

module _ (l : Limits) (now : ℕ) (tx : Transaction) (size : ℕ) (inner : MempoolInner)
    (w : IsPool inner) (r : Room l inner)
    (new : contains_key tx.id inner.transactions ≡ false) where
  abbrev entry : PendingTransaction
  entry = kept now tx size

  stored-Room : needs_room l inner size ≡ false → Room l (placed now tx size inner)
  unfolding store
  stored-Room room = ground (arith, length-insert_new tx.id entry inner.transactions new)

  alone-Room : inner.transactions ≡ [] → Room l (placed now tx size inner)
  unfolding store
  alone-Room e = ground (arith, length-insert_new tx.id entry inner.transactions new, ap length e)

  new_after : (i : ℕ) → contains_key tx.id (erase i inner.transactions) ≡ false
  new_after i = ground (arith, lookup-erase i tx.id inner.transactions)

  replaced-Room :
      (i : ℕ) (p : PendingTransaction)
      → lookup i inner.transactions ≡ some p
      → Room l (placed now tx size (removed i p inner))
  unfolding store
  replaced-Room i p e = omega (
    arith,
    r,
    length-insert_new tx.id entry (erase i inner.transactions) (new_after i),
    length-erase i p inner.transactions w.is_map e,
  )

pub Ends-IsPool :
    (l : Limits) (now : ℕ) (tx : Transaction) (size : ℕ) (inner : MempoolInner)
    {out : Result MempoolError Unit × MempoolInner}
    → Ends l now tx size inner out
    → IsPool inner
    → Room l inner
    → l.max_transactions < 2 ^ 43
    → (out.0 ≡ ok tt → size ≤ max_tx_size_bytes)
    → IsPool out.1 × Room l out.1
Ends-IsPool l now tx size inner (refused e) w r few sized = (w, r)
Ends-IsPool l now tx size inner (stored new room) w r few sized = (
  IsPool-store now tx size (calculate_fee_per_byte tx size) inner w new (sized refl)
      (omega (arith, few, r)),
  stored-Room l now tx size inner w r new room,
)
Ends-IsPool l now tx size inner (stored_alone new gone) w r few sized = (
  IsPool-store now tx size (calculate_fee_per_byte tx size) inner w new (sized refl)
      (omega (arith, few, r)),
  alone-Room l now tx size inner w r new (no_keys inner w gone),
)
Ends-IsPool l now tx size inner (replaced i p low new full worth) w r few sized = (
  IsPool-store now tx size (calculate_fee_per_byte tx size) (removed i p inner)
      (IsPool-removed i p inner w low.lowest_stored) (new_after l now tx size inner w r new i)
      (sized refl)
      (omega (arith, few, r, length-erase i p inner.transactions w.is_map low.lowest_stored)),
  replaced-Room l now tx size inner w r new i p low.lowest_stored,
)
