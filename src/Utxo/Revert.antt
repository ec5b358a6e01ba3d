-- ===== src/Utxo/Revert.antt =====
-- `revert_tx` after `apply_tx`.
use klomang_network.Prelude.{
  ℕ, zero, suc, ◌+◌, ◌%◌, ◌^◌, ◌<◌, ◌≤◌, ◌≡◌, inl, inr, Bool, true, false, Option, none, some, List,
  [], ◌∷◌, eqb, leb, ltb, length, if◌then◌else◌, map, ◌&&◌, pair_eq, pair_equal_iff, All, arith,
  refl, ◌∙◌, Option-cases,
}
use klomang_network.Prelude.Map.{
  Map, lookup, insert, erase, contains_key, lookup-insert, lookup-erase,
}
use klomang_network.Prelude.Result.{ok}
use klomang_network.Crypto.{Crypto}
use klomang_network.Transaction.{Transaction, TxInput, TxOutput}
use klomang_network.Utxo.{
  OutPoint, UtxoSet, outpoint, validate_tx, created_from, remove_created, restore_spent, apply_tx,
  revert_tx,
}
use klomang_network.Utxo.Validate.{AllPresent}
use klomang_network.Utxo.Apply.{
  is_spent, applied, changes_of, lookup-applied, output_or, inputs_fit, apply_tx_both,
}

-- The map without the entries of an id from a position on.
removed : ℕ → ℕ → List TxOutput → Map OutPoint TxOutput → Map OutPoint TxOutput
removed id b [] m = m
removed id b (o ∷ os) m = removed id (b + 1) os (erase (id, b) m)

abbrev in_range : OutPoint → ℕ → ℕ → ℕ → Bool
in_range (a, n) id b e = eqb a id && (leb b n && ltb n e)

lookup-removed :
    (k : OutPoint) (id b : ℕ) (os : List TxOutput) (m : Map OutPoint TxOutput)
    → lookup k (removed id b os m) ≡ (if in_range k id b (b + length os) then none else lookup k m)
unfolding removed
lookup-removed (a, n) id b [] m = ground arith
lookup-removed (a, n) id b (o ∷ os) m =
    lookup-removed (a, n) id (b + 1) os (erase (id, b) m)
    ∙ rw (lookup-erase (id, b) (a, n) m) (ground arith)

remove_created-removed :
    (id b : ℕ) (os : List TxOutput) (m : Map OutPoint TxOutput)
    → b + length os ≤ 2 ^ 32
    → ((n : ℕ) → b ≤ n → n < b + length os → contains_key (id, n) m ≡ true)
    → remove_created (created_from id b os) m ≡ (ok tt, removed id b os m)
unfolding remove_created created_from removed
remove_created-removed id b [] m h p = refl
remove_created-removed id b (o ∷ os) m h p =
    let e : b % 2 ^ 32 ≡ b = omega arith in
    rw (e, p b (omega arith) (omega arith))
      (remove_created-removed id (b + 1) os (erase (id, b) m) (omega arith)
        λ n l r. ground (arith, lookup-erase (id, b) (id, n) m, p n (omega arith) (omega arith)))

restored : Map OutPoint TxOutput → List TxInput → Map OutPoint TxOutput → Map OutPoint TxOutput
restored olds [] m = m
restored olds (i ∷ is) m = elim (lookup (outpoint i) olds) [
  | none ↦ m
  | some o ↦ restored olds is (insert (outpoint i) o m)
]

restore_spent-restored :
    (olds : Map OutPoint TxOutput) (is : List TxInput) (m : Map OutPoint TxOutput)
    → AllPresent olds is
    → restore_spent olds (map outpoint is) m ≡ (ok tt, restored olds is m)
unfolding restore_spent restored
restore_spent-restored olds [] m p = refl
restore_spent-restored olds (i ∷ is) m p = elim (Option-cases (lookup (outpoint i) olds)) [
  | inl e ↦ ground arith
  | inr (o, e) ↦ ground (arith, restore_spent-restored olds is (insert (outpoint i) o m) p.1)
]

lookup-restored :
    (k : OutPoint) (olds : Map OutPoint TxOutput) (is : List TxInput) (m : Map OutPoint TxOutput)
    → AllPresent olds is
    → lookup k (restored olds is m) ≡ (if is_spent k is then lookup k olds else lookup k m)
unfolding restored
lookup-restored k olds [] m p = refl
lookup-restored k olds (i ∷ is) m p = elim (Option-cases (lookup (outpoint i) olds)) [
  | inl e ↦ ground arith
  | inr (o, e) ↦ ground (
    arith,
    lookup-restored k olds is (insert (outpoint i) o m) p.1,
    lookup-insert (outpoint i) k o m,
    pair_equal_iff (outpoint i) k,
  )
]

-- The map of spent outputs agrees with the set on what the transaction spends.
abbrev pub Remembers : Map OutPoint TxOutput → UtxoSet → List TxInput → Type 0
Remembers olds u = All (λ i. lookup (outpoint i) olds ≡ lookup (outpoint i) u.utxos)

remembered :
    (k : OutPoint) (olds : Map OutPoint TxOutput) (u : UtxoSet) (is : List TxInput)
    → Remembers olds u is
    → is_spent k is ≡ true
    → lookup k olds ≡ lookup k u.utxos
remembered k olds u [] r s = cc
remembered k olds u (i ∷ is) r s =
    ground (arith, remembered k olds u is r.1, pair_equal_iff (outpoint i) k)

remembered_present :
    (olds : Map OutPoint TxOutput) (u : UtxoSet) (is : List TxInput)
    → Remembers olds u is
    → AllPresent u.utxos is
    → AllPresent olds is
remembered_present olds u [] r p = tt
remembered_present olds u (i ∷ is) r p = (rw r.0 p.0, remembered_present olds u is r.1 p.1)

output_or-in :
    (os : List TxOutput) (n : ℕ) (d : Option TxOutput)
    → n < length os
    → (o : TxOutput) × (output_or os n d ≡ some o)
output_or-in [] n d h = elim h [ ]
output_or-in (o ∷ os) zero d h = (o, refl)
output_or-in (o ∷ os) (suc n) d h = output_or-in os n d (omega arith)

output_or-past :
    (os : List TxOutput) (n : ℕ) (d : Option TxOutput) → length os ≤ n → output_or os n d ≡ d
output_or-past [] n d h = refl
output_or-past (o ∷ os) zero d h = absurd (omega arith)
output_or-past (o ∷ os) (suc n) d h = output_or-past os n d (omega arith)

module _ (u : UtxoSet) (tx : Transaction) (fresh : (n : ℕ) → lookup (tx.id, n) u.utxos ≡ none)
    (short : length tx.outputs ≤ 2 ^ 32) where
  created_present :
      (n : ℕ)
      → 0 ≤ n
      → n < 0 + length tx.outputs
      → contains_key (tx.id, n) (applied u tx).utxos ≡ true
  created_present n z h = ground (
    arith,
    lookup-applied u tx (tx.id, n) short,
    output_or-in tx.outputs n none,
    output_or-in tx.outputs n (lookup (tx.id, n) u.utxos),
  )

  -- Where nothing spent is concerned, the set without the created entries is the old one.
  lookup-unapplied :
      (k : OutPoint)
      → is_spent k tx.inputs ≡ false
      → lookup k (removed tx.id 0 tx.outputs (applied u tx).utxos) ≡ lookup k u.utxos
  lookup-unapplied (a, n) s =
      lookup-removed (a, n) tx.id 0 tx.outputs (applied u tx).utxos
      ∙ rw (lookup-applied u tx (a, n) short, s)
          (ground (arith, fresh n, output_or-past tx.outputs n (lookup (a, n) u.utxos)))

  revert_applied :
      (olds : Map OutPoint TxOutput)
      → AllPresent olds tx.inputs
      → revert_tx (applied u tx) (changes_of tx) olds ≡ (
        ok tt,
        record {
          utxos = restored olds tx.inputs (removed tx.id 0 tx.outputs (applied u tx).utxos);
        },
      )
  unfolding revert_tx changes_of
  revert_applied olds there = ground (
    arith,
    remove_created-removed tx.id 0 tx.outputs (applied u tx).utxos (omega arith) created_present,
    restore_spent-restored olds tx.inputs (removed tx.id 0 tx.outputs (applied u tx).utxos) there,
  )

  lookup-reverted :
      (olds : Map OutPoint TxOutput) (k : OutPoint)
      → AllPresent olds tx.inputs
      → Remembers olds u tx.inputs
      → lookup k (restored olds tx.inputs (removed tx.id 0 tx.outputs (applied u tx).utxos))
        ≡ lookup k u.utxos
  lookup-reverted olds k there r =
      lookup-restored k olds tx.inputs (removed tx.id 0 tx.outputs (applied u tx).utxos) there
      ∙ ground (arith, remembered k olds u tx.inputs r, lookup-unapplied k)

-- Reverting a transaction that was just applied succeeds and gives back every entry of the set:
-- the transaction's id had no entry before, its outputs are at most 2 ^ 32, and the map of the
-- spent outputs holds what the set held for its inputs.
pub revert_tx-apply_tx :
    (c : Crypto) (u : UtxoSet) (tx : Transaction) (fee : ℕ) (olds : Map OutPoint TxOutput)
    → validate_tx c u tx ≡ ok fee
    → ((n : ℕ) → lookup (tx.id, n) u.utxos ≡ none)
    → length tx.outputs ≤ 2 ^ 32
    → Remembers olds u tx.inputs
    → let back = revert_tx (apply_tx c u tx).1 (changes_of tx) olds in
      ((apply_tx c u tx).0 ≡ ok (changes_of tx))
      × (back.0 ≡ ok tt)
      × ((k : OutPoint) → lookup k back.1.utxos ≡ lookup k u.utxos)
revert_tx-apply_tx c u tx fee olds v fresh short r =
    let there = remembered_present olds u tx.inputs r (inputs_fit c u tx fee v).0 in
    rw ((apply_tx_both c u tx).1 fee v, revert_applied u tx fresh short olds there)
      (refl, refl, λ k. lookup-reverted u tx fresh short olds k there r)
