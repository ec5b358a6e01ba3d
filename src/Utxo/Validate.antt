-- ===== src/Utxo/Validate.antt =====
-- What `validate_tx` accepts.
use klomang_network.Prelude.{
  ℕ, ◌+◌, ◌≤◌, ◌≡◌, ◌≢◌, ◌⊎◌, Bool, true, false, Option, none, some, List, [], ◌∷◌, pair_eq, ◌==◌,
  ◌||◌, ap, pair_equal_iff, All, arith, refl,
}
use klomang_network.Prelude.Map.{Map, lookup, contains_key}
use klomang_network.Prelude.Set
use klomang_network.Prelude.Result.{ok}
use klomang_network.Crypto.{Crypto}
use klomang_network.Transaction.{Transaction, TxInput, TxOutput, is_coinbase, compute_sighash}
use klomang_network.Utxo.{
  OutPoint, UtxoSet, outpoint, check_burn, check_duplicates, sum_outputs, check_signature,
  sum_inputs, validate_spend, validate_tx, burn_address, u64_max, zero_bytes,
}

-- The sum of the values, unbounded.
unfoldable pub sum_values : List TxOutput → ℕ
sum_values [] = 0
sum_values (o ∷ os) = o.value + sum_values os

abbrev pub value_of : Option TxOutput → ℕ
value_of none = 0
value_of (some o) = o.value

-- The value of the outputs that the inputs spend.
unfoldable pub input_value : Map OutPoint TxOutput → List TxInput → ℕ
input_value m [] = 0
input_value m (i ∷ is) = value_of (lookup (outpoint i) m) + input_value m is

-- No two inputs spend one output.
abbrev pub AllDistinct : List TxInput → Type 0
AllDistinct [] = Unit
AllDistinct (i ∷ is) = All (λ j. outpoint i ≢ outpoint j) is × AllDistinct is

abbrev pub AllPresent : Map OutPoint TxOutput → List TxInput → Type 0
AllPresent m = All (λ i. contains_key (outpoint i) m ≡ true)

-- Every signature verifies against the message of its own index.
abbrev pub AllSigned : Crypto → Transaction → ℕ → List TxInput → Type 0
AllSigned c tx n [] = Unit
AllSigned c tx n (i ∷ is) =
    (c.verify i.pubkey (compute_sighash c tx n i.sighash_type) i.signature ≡ true)
    × AllSigned c tx (n + 1) is

-- A transaction that spends: what stands behind its fee.
pub record Spends (c : Crypto) (u : UtxoSet) (tx : Transaction) (fee : ℕ) : Type 0 where
  pub has_inputs : is_coinbase tx ≡ false
  pub present : AllPresent u.utxos tx.inputs
  pub distinct : AllDistinct tx.inputs
  pub signed : AllSigned c tx 0 tx.inputs
  pub balanced : input_value u.utxos tx.inputs ≡ sum_values tx.outputs + fee
  pub in_range : input_value u.utxos tx.inputs ≤ u64_max

or_true : (b : Bool) → (b || true) ≡ true
or_true true = refl
or_true false = refl

check_burn-All :
    (burn : ℕ) (os : List TxOutput)
    → check_burn burn os ≡ ok tt
    → All (λ o. o.pubkey_hash ≢ burn) os
unfolding check_burn
check_burn-All burn [] h = tt
check_burn-All burn (o ∷ os) h = ground (arith, check_burn-All burn os)

check_duplicates-inversion :
    (seen : List OutPoint) (i : TxInput) (is : List TxInput)
    → check_duplicates seen (i ∷ is) ≡ ok tt
    → (Set.contains seen (outpoint i) ≡ false)
      × (check_duplicates (Set.insert (outpoint i) seen) is ≡ ok tt)
unfolding check_duplicates
check_duplicates-inversion seen i is h = ground arith

insert_keeps :
    (p q : OutPoint) (seen : List OutPoint)
    → Set.contains seen p ≡ true
    → Set.contains (Set.insert q seen) p ≡ true
insert_keeps p q seen s = rw (Set.contains-insert q p seen) (rw s (or_true (q == p)))

insert_self : (p : OutPoint) (seen : List OutPoint) → Set.contains (Set.insert p seen) p ≡ true
insert_self p seen = rw (Set.contains-insert p p seen) (rw ((pair_equal_iff p p).1 refl) refl)

check_duplicates-unseen :
    (p : OutPoint) (seen : List OutPoint) (is : List TxInput)
    → check_duplicates seen is ≡ ok tt
    → Set.contains seen p ≡ true
    → All (λ j. p ≢ outpoint j) is
check_duplicates-unseen p seen [] h s = tt
check_duplicates-unseen p seen (i ∷ is) h s =
    let inv = check_duplicates-inversion seen i is h in
    (
      λ e. cc (ap (Set.contains seen) e),
      check_duplicates-unseen p (Set.insert (outpoint i) seen) is inv.1
          (insert_keeps p (outpoint i) seen s),
    )

check_duplicates-AllDistinct :
    (seen : List OutPoint) (is : List TxInput) → check_duplicates seen is ≡ ok tt → AllDistinct is
check_duplicates-AllDistinct seen [] h = tt
check_duplicates-AllDistinct seen (i ∷ is) h =
    let inv = check_duplicates-inversion seen i is h in
    (
      check_duplicates-unseen (outpoint i) (Set.insert (outpoint i) seen) is inv.1
          (insert_self (outpoint i) seen),
      check_duplicates-AllDistinct (Set.insert (outpoint i) seen) is inv.1,
    )

sum_outputs-eq :
    (t : ℕ) (os : List TxOutput) (s : ℕ) → sum_outputs t os ≡ ok s → s ≡ t + sum_values os
unfolding sum_outputs sum_values
sum_outputs-eq t [] s h = ground arith
sum_outputs-eq t (o ∷ os) s h = ground (arith, sum_outputs-eq (t + o.value) os s)

module _ (c : Crypto) (u : UtxoSet) (tx : Transaction) where
  check_signature-verify :
      (n : ℕ) (i : TxInput)
      → check_signature c tx n i ≡ ok tt
      → c.verify i.pubkey (compute_sighash c tx n i.sighash_type) i.signature ≡ true
  unfolding check_signature
  check_signature-verify n i h = ground arith

  record Sums (n t : ℕ) (is : List TxInput) (s : ℕ) : Type 0 where
    total : s ≡ t + input_value u.utxos is
    found : AllPresent u.utxos is
    verified : AllSigned c tx n is
    bounded : t ≤ u64_max → s ≤ u64_max

  sum_inputs-Sums :
      (n t : ℕ) (is : List TxInput) (s : ℕ) → sum_inputs c u tx n t is ≡ ok s → Sums n t is s
  unfolding sum_inputs input_value
  sum_inputs-Sums n t [] s h = ground arith
  sum_inputs-Sums n t (i ∷ is) s h = ground (
    arith,
    check_signature-verify n i,
    sum_inputs-Sums (n + 1) (t + value_of (lookup (outpoint i) u.utxos)) is s,
  )

  validate_spend-inversion :
      (fee : ℕ)
      → validate_spend c u tx ≡ ok fee
      → (out : ℕ) × (into : ℕ) × (check_duplicates [] tx.inputs ≡ ok tt)
        × (sum_outputs 0 tx.outputs ≡ ok out)
        × (sum_inputs c u tx 0 0 tx.inputs ≡ ok into)
        × (into ≡ out + fee)
  unfolding validate_spend
  validate_spend-inversion fee h = ground arith

  validate_spend-Spends :
      (fee : ℕ) → validate_spend c u tx ≡ ok fee → is_coinbase tx ≡ false → Spends c u tx fee
  validate_spend-Spends fee h n =
      let (out, into, dup, outs, ins, e) = validate_spend-inversion fee h in
      let sums = sum_inputs-Sums 0 0 tx.inputs into ins in
      record {
        has_inputs = n;
        present = sums.found;
        distinct = check_duplicates-AllDistinct [] tx.inputs dup;
        signed = sums.verified;
        balanced = omega (arith, sum_outputs-eq 0 tx.outputs out outs, sums.total);
        in_range = omega (arith, sums.total, sums.bounded);
      }

-- No output of an accepted transaction carries the digest of 32 zero bytes, which is all that is
-- refused of burning: the zero bytes themselves may stand there. It is a coinbase of fee zero, or
-- its inputs are all unspent, distinct and signed, and its fee is exactly what they exceed the
-- outputs by.
pub validate_tx-ok :
    (c : Crypto) (u : UtxoSet) (tx : Transaction) (fee : ℕ)
    → validate_tx c u tx ≡ ok fee
    → All (λ o. o.pubkey_hash ≢ c.blake3 (zero_bytes 32)) tx.outputs
      × (((is_coinbase tx ≡ true) × (fee ≡ 0)) ⊎ Spends c u tx fee)
unfolding validate_tx
validate_tx-ok c u tx fee h =
    ground
      (arith, check_burn-All (c.blake3 burn_address) tx.outputs, validate_spend-Spends c u tx fee)
