-- ===== src/Utxo/Value.antt =====
-- The value in the set under `apply_tx`.
use klomang_network.Prelude.{
  ℕ, ◌+◌, ◌%◌, ◌^◌, ◌≤◌, ◌≡◌, ◌≢◌, inl, inr, true, none, List, [], ◌∷◌, length, if◌then◌else◌,
  pair_eq, pair_equal_iff, All, arith, refl,
}
use klomang_network.Prelude.Map.{
  Map, lookup, insert, erase, lookup-insert, lookup-erase, IsMap, IsMap-erase, IsMap-insert,
}
use klomang_network.Prelude.Result.{ok}
use klomang_network.Crypto.{Crypto}
use klomang_network.Transaction.{Transaction, TxInput, TxOutput, is_coinbase}
use klomang_network.Utxo.{
  OutPoint, UtxoSet, outpoint, validate_tx, created_from, insert_all, apply_tx,
}
use klomang_network.Utxo.Validate.{AllDistinct, validate_tx-ok, value_of, input_value, sum_values}
use klomang_network.Utxo.Apply.{erase_all, applied, apply_tx_both, inputs_fit, no_inputs}

unfoldable pub total_value : Map OutPoint TxOutput → ℕ
total_value [] = 0
total_value ((_, o) ∷ m) = o.value + total_value m

total_value-erase_absent :
    (k : OutPoint) (m : Map OutPoint TxOutput)
    → lookup k m ≡ none
    → total_value (erase k m) ≡ total_value m
unfolding total_value erase lookup
total_value-erase_absent k [] h = refl
total_value-erase_absent k ((j, o) ∷ m) h = ground (arith, total_value-erase_absent k m)

pub total_value-erase :
    (k : OutPoint) (m : Map OutPoint TxOutput)
    → IsMap m
    → total_value (erase k m) + value_of (lookup k m) ≡ total_value m
unfolding total_value erase lookup
total_value-erase k [] h = omega arith
total_value-erase k ((j, o) ∷ m) h =
    ground (arith, total_value-erase k m h.1, total_value-erase_absent k m, pair_equal_iff j k)

total_value-insert :
    (k : OutPoint) (o : TxOutput) (m : Map OutPoint TxOutput)
    → lookup k m ≡ none
    → total_value (insert k o m) ≡ total_value m + o.value
unfolding total_value insert lookup
total_value-insert k o [] h = omega arith
total_value-insert k o ((j, p) ∷ m) h = ground (arith, total_value-insert k o m)

pub total_value-insert_bound :
    (k : OutPoint) (o : TxOutput) (m : Map OutPoint TxOutput)
    → total_value (insert k o m) ≤ total_value m + o.value
unfolding total_value insert
total_value-insert_bound k o [] = omega arith
total_value-insert_bound k o ((j, p) ∷ m) = ground (arith, total_value-insert_bound k o m)

input_value-erase :
    (k : OutPoint) (m : Map OutPoint TxOutput) (is : List TxInput)
    → All (λ j. k ≢ outpoint j) is
    → input_value (erase k m) is ≡ input_value m is
unfolding input_value
input_value-erase k m [] h = refl
input_value-erase k m (i ∷ is) h = ground (
  arith,
  input_value-erase k m is h.1,
  lookup-erase k (outpoint i) m,
  pair_equal_iff k (outpoint i),
)

erase_all-value :
    (m : Map OutPoint TxOutput) (is : List TxInput)
    → IsMap m
    → AllDistinct is
    → IsMap (erase_all is m) × (total_value (erase_all is m) + input_value m is ≡ total_value m)
unfolding erase_all input_value
erase_all-value m [] h d = (h, omega arith)
erase_all-value m (i ∷ is) h d =
    let rest = erase_all-value (erase (outpoint i) m) is (IsMap-erase (outpoint i) m h) d.1 in
    (
      rest.0,
      omega (
        arith,
        rest.1,
        total_value-erase (outpoint i) m h,
        input_value-erase (outpoint i) m is d.0,
      ),
    )

-- No entry under the transaction's id from the position on.
abbrev Unused : ℕ → ℕ → Map OutPoint TxOutput → Type 0
Unused id b m = (n : ℕ) → b ≤ n → lookup (id, n) m ≡ none

Unused-insert :
    (id b : ℕ) (o : TxOutput) (m : Map OutPoint TxOutput)
    → Unused id b m
    → Unused id (b + 1) (insert (id, b) o m)
Unused-insert id b o m u n h =
    ground
      (arith, lookup-insert (id, b) (id, n) o m, u n (omega arith), pair_equal_iff (id, b) (id, n))

insert_all-value :
    (id b : ℕ) (os : List TxOutput) (m : Map OutPoint TxOutput)
    → IsMap m
    → b + length os ≤ 2 ^ 32
    → Unused id b m
    → IsMap (insert_all (created_from id b os) m)
      × (total_value (insert_all (created_from id b os) m) ≡ total_value m + sum_values os)
unfolding insert_all created_from sum_values
insert_all-value id b [] m h r u = (h, omega arith)
insert_all-value id b (o ∷ os) m h r u =
    let e : b % 2 ^ 32 ≡ b = omega arith in
    rw e (
      let rest =
        insert_all-value id (b + 1) os (insert (id, b) o m) (IsMap-insert (id, b) o m h)
          (omega arith) (Unused-insert id b o m u) in
      (rest.0, omega (arith, rest.1, total_value-insert (id, b) o m (u b (omega arith)))))

Unused-erase_all :
    (id : ℕ) (is : List TxInput) (m : Map OutPoint TxOutput)
    → Unused id 0 m
    → Unused id 0 (erase_all is m)
unfolding erase_all
Unused-erase_all id [] m u = u
Unused-erase_all id (i ∷ is) m u =
    Unused-erase_all id is (erase (outpoint i) m)
      (λ n h. ground (arith, lookup-erase (outpoint i) (id, n) m, u n h))

no_input_value :
    (m : Map OutPoint TxOutput) (tx : Transaction)
    → is_coinbase tx ≡ true
    → input_value m tx.inputs ≡ 0
unfolding input_value
no_input_value m tx h = rw (no_inputs tx h) refl

-- A transaction whose id has no entry yet, and of at most 2 ^ 32 outputs, keeps the set free of
-- double keys and changes the value in it as it should: a coinbase adds its outputs, and any
-- other transaction takes exactly its fee out of circulation.
pub applied-total_value :
    (c : Crypto) (u : UtxoSet) (tx : Transaction) (fee : ℕ)
    → validate_tx c u tx ≡ ok fee
    → IsMap u.utxos
    → ((n : ℕ) → 0 ≤ n → lookup (tx.id, n) u.utxos ≡ none)
    → length tx.outputs ≤ 2 ^ 32
    → let after = (apply_tx c u tx).1.utxos in
      IsMap after
      × (total_value after + fee ≡ (
          if is_coinbase tx
          then total_value u.utxos + sum_values tx.outputs
          else total_value u.utxos))
unfolding applied
applied-total_value c u tx fee v h fresh short = rw ((apply_tx_both c u tx).1 fee v) (
    let spent = erase_all-value u.utxos tx.inputs h (inputs_fit c u tx fee v).1 in
    let added =
      insert_all-value tx.id 0 tx.outputs (erase_all tx.inputs u.utxos) spent.0 (omega arith)
        (Unused-erase_all tx.id tx.inputs u.utxos fresh) in
    (
      added.0,
      elim ((validate_tx-ok c u tx fee v).1) [
        | inl (coinbase, free) ↦
            rw coinbase (omega (arith, spent.1, added.1, free, no_input_value u.utxos tx coinbase))
        | inr s ↦ rw s.has_inputs (omega (arith, spent.1, added.1, s.balanced))
      ],
    ))
