-- ===== src/Utxo/Repeat.antt =====
-- Spending an output again, and applying a coinbase again.
use klomang_network.Prelude.{
  ℕ, ◌^◌, ◌≤◌, ◌≡◌, ◌≢◌, inl, inr, true, false, Option, List, [], ◌∷◌, length, pair_eq,
  pair_equal_iff, arith, refl, ◌∙◌,
}
use klomang_network.Prelude.Map.{Map, lookup, contains_key}
use klomang_network.Prelude.Result.{ok}
use klomang_network.Crypto.{Crypto}
use klomang_network.Transaction.{Transaction, TxInput, TxOutput, is_coinbase}
use klomang_network.Utxo.{OutPoint, UtxoSet, outpoint, validate_tx, apply_tx}
use klomang_network.Utxo.Validate.{AllPresent, validate_tx-ok}
use klomang_network.Utxo.Apply.{
  is_spent, applied, lookup-applied, output_or, apply_tx_both, no_inputs, changes_of,
}

present_spent :
    (k : OutPoint) (m : Map OutPoint TxOutput) (is : List TxInput)
    → AllPresent m is
    → is_spent k is ≡ true
    → contains_key k m ≡ true
present_spent k m [] p s = cc
present_spent k m (i ∷ is) p s =
    ground (arith, present_spent k m is p.1, pair_equal_iff (outpoint i) k)

-- An output that a transaction has spent cannot be spent again: every later transaction with it
-- among its inputs is refused. (The output is not one under the spending transaction's own id.)
pub spent_once :
    (c : Crypto) (u : UtxoSet) (tx again : Transaction) (k : OutPoint) (fee other : ℕ)
    → validate_tx c u tx ≡ ok fee
    → length tx.outputs ≤ 2 ^ 32
    → is_spent k tx.inputs ≡ true
    → k.0 ≢ tx.id
    → is_spent k again.inputs ≡ true
    → validate_tx c (apply_tx c u tx).1 again ≢ ok other
spent_once c u tx again k fee other v short s n s' w =
    elim ((validate_tx-ok c (apply_tx c u tx).1 again other w).1) [
      | inl (coinbase, _) ↦
          let none_there : is_spent k again.inputs ≡ false = rw (no_inputs again coinbase) refl in
          cc
      | inr spends ↦
          let there : contains_key k (apply_tx c u tx).1.utxos ≡ true =
            present_spent k (apply_tx c u tx).1.utxos again.inputs spends.present s' in
          gone (rw ((apply_tx_both c u tx).1 fee v) at there)
    ]
  where
    gone : contains_key k (applied u tx).utxos ≡ true → ⊥
    gone there = ground (arith, lookup-applied u tx k short)

output_or_twice :
    (os : List TxOutput) (n : ℕ) (d : Option TxOutput)
    → output_or os n (output_or os n d) ≡ output_or os n d
output_or_twice os n d = ground arith

validate_coinbase :
    (c : Crypto) (u w : UtxoSet) (tx : Transaction)
    → is_coinbase tx ≡ true
    → validate_tx c w tx ≡ validate_tx c u tx
unfolding validate_tx
validate_coinbase c u w tx coinbase = rw coinbase refl

lookup-applied_twice :
    (u : UtxoSet) (tx : Transaction) (k : OutPoint)
    → tx.inputs ≡ []
    → length tx.outputs ≤ 2 ^ 32
    → lookup k (applied (applied u tx) tx).utxos ≡ lookup k (applied u tx).utxos
lookup-applied_twice u tx k e short = ground (
  arith,
  lookup-applied (applied u tx) tx k short,
  lookup-applied u tx k short,
  output_or_twice tx.outputs k.1 (lookup k u.utxos),
  spent_none k,
)
  where
    spent_none : (j : OutPoint) → is_spent j tx.inputs ≡ false
    spent_none j = rw e refl

-- A coinbase that is applied a second time is accepted and changes no entry: the id is the same,
-- so its outputs replace those of the first time, and no value is added.
pub coinbase_twice :
    (c : Crypto) (u : UtxoSet) (tx : Transaction) (k : OutPoint) (fee : ℕ)
    → is_coinbase tx ≡ true
    → validate_tx c u tx ≡ ok fee
    → length tx.outputs ≤ 2 ^ 32
    → let once = (apply_tx c u tx).1 in
      ((apply_tx c once tx).0 ≡ ok (changes_of tx))
      × (lookup k (apply_tx c once tx).1.utxos ≡ lookup k once.utxos)
coinbase_twice c u tx k fee coinbase v short = rw ((apply_tx_both c u tx).1 fee v) (
    rw
      ((apply_tx_both c (applied u tx) tx).1 fee
        (validate_coinbase c u (applied u tx) tx coinbase ∙ v))
      (refl, lookup-applied_twice u tx k (no_inputs tx coinbase) short))
