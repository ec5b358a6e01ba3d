-- ===== src/Mempool/Admission.antt =====
-- `insert_transaction` of mempool.rs on a pool: what it stores, what it evicts, what it refuses.
use klomang_network.Prelude.{
  ℕ, ◌^◌, ◌≤◌, ◌<◌, ◌≡◌, ◌≢◌, ◌⊎◌, inl, inr, true, length, eqb, eqb_iff, nat_eq, arith, refl, ◌∙◌,
  none, some, if◌then◌else◌,
}
use klomang_network.Prelude.Map.{lookup, lookup-erase, lookup-insert}
use klomang_network.Prelude.Result.{Result, ok, err}
use klomang_network.Crypto.{Crypto}
use klomang_network.Transaction.{Transaction}
use klomang_network.Utxo.{UtxoSet}
use klomang_network.Mempool.{
  PendingTransaction, MempoolInner, MempoolError, Limits, max_tx_size_bytes, store, needs_room,
  admit, calculate_fee_per_byte,
}
use klomang_network.Mempool.Pool.{IsPool, removed, IsLowest}
use klomang_network.Mempool.Index.{key_eq}
use klomang_network.Mempool.Validate.{
  StateView, insert_transaction, validate_transaction_stateful, validate_transaction_stateless,
}
use klomang_network.Mempool.Outcome.{
  refused, stored, stored_alone, replaced, kept, placed, Ends, admit-Ends, Room, Ends-IsPool,
}

validated_size :
    (c : Crypto) (l : Limits) (s : StateView) (u : UtxoSet) (size : ℕ) (tx : Transaction)
    → validate_transaction_stateful c l s u size tx ≡ ok tt
    → size ≤ max_tx_size_bytes
unfolding validate_transaction_stateful validate_transaction_stateless
validated_size c l s u size tx h = ground arith

admit-ok :
    (l : Limits) (verdict : Result MempoolError Unit) (now : ℕ) (tx : Transaction) (size : ℕ)
    (inner : MempoolInner)
    → (admit l verdict now tx size inner).0 ≡ ok tt
    → verdict ≡ ok tt
unfolding admit
admit-ok l (ok tt) now tx size inner h = refl
admit-ok l (err e) now tx size inner h = ground arith

-- With fewer than 2 ^ 43 places, inserting into a pool leaves a pool, whatever the transaction and the
-- verdict on it, and no more transactions than there are places, or than one.
pub insert_transaction-IsPool :
    (c : Crypto) (l : Limits) (s : StateView) (u : UtxoSet) (serialized_size : Transaction → ℕ)
    (now : ℕ) (tx : Transaction) (inner : MempoolInner)
    → IsPool inner
    → Room l inner
    → l.max_transactions < 2 ^ 43
    → IsPool (insert_transaction c l s u serialized_size now tx inner).1
      × Room l (insert_transaction c l s u serialized_size now tx inner).1
unfolding insert_transaction
insert_transaction-IsPool c l s u serialized_size now tx inner w r few =
    let size = serialized_size tx in
    let verdict = validate_transaction_stateful c l s u size tx in
    Ends-IsPool l now tx size inner (admit-Ends l verdict now tx size inner w) w r few
      (λ e. validated_size c l s u size tx (admit-ok l verdict now tx size inner e))

-- The pool has the transaction and all that it had, but for the lowest where there was no room.
abbrev pub Accepts : Limits → ℕ → Transaction → ℕ → MempoolInner → MempoolInner → Type 0
Accepts l now tx size inner after =
    (lookup tx.id after.transactions ≡ some (kept now tx size))
    × (((j : ℕ) → tx.id ≢ j → lookup j after.transactions ≡ lookup j inner.transactions)
        ⊎ ((i : ℕ) × (p : PendingTransaction) × IsLowest inner i p
            × (needs_room l inner size ≡ true)
            × ((p.fee_per_byte < calculate_fee_per_byte tx size)
                ⊎ ((length inner.transactions < l.max_transactions)
                    × (inner.total_bytes < l.max_bytes)))
            × ((j : ℕ)
                → tx.id ≢ j
                → lookup j after.transactions
                  ≡ (if eqb i j then none else lookup j inner.transactions))))

abbrev pub Refuses : MempoolInner → Result MempoolError Unit × MempoolInner → Type 0
Refuses inner out = (e : MempoolError) × (out ≡ (err e, inner))

placed-lookup :
    (now : ℕ) (tx : Transaction) (size : ℕ) (inner : MempoolInner) (j : ℕ)
    → lookup j (placed now tx size inner).transactions
      ≡ (if eqb tx.id j then some (kept now tx size) else lookup j inner.transactions)
unfolding store
placed-lookup now tx size inner j = lookup-insert tx.id j (kept now tx size) inner.transactions

placed_self :
    (now : ℕ) (tx : Transaction) (size : ℕ) (inner : MempoolInner)
    → lookup tx.id (placed now tx size inner).transactions ≡ some (kept now tx size)
placed_self now tx size inner =
    ground (arith, placed-lookup now tx size inner tx.id, eqb_iff tx.id tx.id)

placed-other :
    (now : ℕ) (tx : Transaction) (size : ℕ) (inner : MempoolInner) (j : ℕ)
    → tx.id ≢ j
    → lookup j (placed now tx size inner).transactions ≡ lookup j inner.transactions
placed-other now tx size inner j h =
    ground (arith, placed-lookup now tx size inner j, eqb_iff tx.id j)

Ends-Accepts :
    (l : Limits) (now : ℕ) (tx : Transaction) (size : ℕ) (inner : MempoolInner)
    {out : Result MempoolError Unit × MempoolInner}
    → Ends l now tx size inner out
    → ((out.0 ≡ ok tt) × Accepts l now tx size inner out.1) ⊎ Refuses inner out
Ends-Accepts l now tx size inner (refused e) = inr (e, refl)
Ends-Accepts l now tx size inner (stored new room) =
    inl (refl, (placed_self now tx size inner, inl (placed-other now tx size inner)))
Ends-Accepts l now tx size inner (stored_alone new gone) =
    inl (refl, (placed_self now tx size inner, inl (placed-other now tx size inner)))
Ends-Accepts l now tx size inner (replaced i p low new full worth) = inl (
  refl,
  (
    placed_self now tx size (removed i p inner),
    inr (
      i,
      p,
      low,
      full,
      worth,
      λ j h. placed-other now tx size (removed i p inner) j h ∙ lookup-erase i j inner.transactions,
    ),
  ),
)

-- Inserting into a pool refuses and changes nothing, or stores the transaction with its size, its fee
-- and the time. Then every other transaction stays, or one leaves: there was no room, it was the last in
-- the order of priority, and it paid less than the new one or neither limit had been reached.
pub insert_transaction-Accepts :
    (c : Crypto) (l : Limits) (s : StateView) (u : UtxoSet) (serialized_size : Transaction → ℕ)
    (now : ℕ) (tx : Transaction) (inner : MempoolInner)
    → IsPool inner
    → (((insert_transaction c l s u serialized_size now tx inner).0 ≡ ok tt)
        × Accepts l now tx
            (serialized_size tx)
            inner
            (insert_transaction c l s u serialized_size now tx inner).1)
      ⊎ Refuses inner (insert_transaction c l s u serialized_size now tx inner)
unfolding insert_transaction
insert_transaction-Accepts c l s u serialized_size now tx inner w =
    Ends-Accepts l now tx (serialized_size tx) inner (
      admit-Ends l (validate_transaction_stateful c l s u (serialized_size tx) tx) now tx
        (serialized_size tx) inner w)
