-- ===== src/Utxo/Apply.antt =====
-- What `apply_tx` does to the set, on every branch.
use klomang_network.Prelude.{
  ℕ, zero, suc, ◌+◌, ◌-◌, ◌%◌, ◌^◌, ◌<◌, ◌≤◌, ◌≡◌, ◌≢◌, inl, inr, Bool, true, false, Option, none,
  some, List, [], ◌∷◌, ◌++◌, eqb, eqb_iff, length, get_elem?, if◌then◌else◌, map, ◌==◌, ◌||◌,
  pair_eq, pair_equal, pair_equal_iff, All, arith, refl, ap, ◌∙◌, Bool-cases, ◌⊎◌,
}
use mathlib.Core.List.{append-nil, append_assoc}
use klomang_network.Prelude.Map.{
  Map, lookup, insert, erase, contains_key, lookup-insert, lookup-erase,
}
use klomang_network.Prelude.Result.{Result-cases, ok, err}
use klomang_network.Crypto.{Crypto}
use klomang_network.Transaction.{Transaction, TxInput, TxOutput, is_coinbase}
use klomang_network.Utxo.{
  OutPoint, UtxoSet, UtxoChangeSet, CoreError, outpoint, validate_tx, remove_inputs, created_from,
  insert_all, apply_valid, apply_tx,
}
use klomang_network.Utxo.Validate.{AllPresent, AllDistinct, validate_tx-ok}

-- The map without the spent outputs.
unfoldable pub erase_all : List TxInput → Map OutPoint TxOutput → Map OutPoint TxOutput
erase_all [] m = m
erase_all (i ∷ is) m = erase_all is (erase (outpoint i) m)

abbrev pub is_spent : OutPoint → List TxInput → Bool
is_spent k [] = false
is_spent k (i ∷ is) = outpoint i == k || is_spent k is

pub lookup-erase_all :
    (k : OutPoint) (is : List TxInput) (m : Map OutPoint TxOutput)
    → lookup k (erase_all is m) ≡ (if is_spent k is then none else lookup k m)
unfolding erase_all
lookup-erase_all k [] m = refl
lookup-erase_all k (i ∷ is) m =
    rw (lookup-erase_all k is (erase (outpoint i) m), lookup-erase (outpoint i) k m) (ground arith)

present_after :
    (k : OutPoint) (m : Map OutPoint TxOutput) (i : TxInput)
    → k ≢ outpoint i
    → contains_key (outpoint i) m ≡ true
    → contains_key (outpoint i) (erase k m) ≡ true
present_after k m i n h =
    rw (lookup-erase k (outpoint i) m) (ground (arith, pair_equal_iff k (outpoint i)))

AllPresent-erase :
    (k : OutPoint) (m : Map OutPoint TxOutput) (is : List TxInput)
    → All (λ j. k ≢ outpoint j) is
    → AllPresent m is
    → AllPresent (erase k m) is
AllPresent-erase k m [] n h = tt
AllPresent-erase k m (i ∷ is) n h = (present_after k m i n.0 h.0, AllPresent-erase k m is n.1 h.1)

remove_inputs-erase_all :
    (spent : List OutPoint) (m : Map OutPoint TxOutput) (is : List TxInput)
    → AllPresent m is
    → AllDistinct is
    → remove_inputs spent m is ≡ (ok (spent ++ map outpoint is), erase_all is m)
unfolding remove_inputs erase_all
remove_inputs-erase_all spent m [] p d = rw append-nil
remove_inputs-erase_all spent m (i ∷ is) p d = rw p.0 (
    remove_inputs-erase_all (spent ++ outpoint i ∷ []) (erase (outpoint i) m) is
      (AllPresent-erase (outpoint i) m is d.0 p.1) d.1
    ∙ rw append_assoc)

-- The set after a transaction that was accepted.
unfoldable pub applied : UtxoSet → Transaction → UtxoSet
applied u tx = record {
  utxos = insert_all (created_from tx.id 0 tx.outputs) (erase_all tx.inputs u.utxos);
}

unfoldable pub changes_of : Transaction → UtxoChangeSet
changes_of tx = record { spent = map outpoint tx.inputs; created = created_from tx.id 0 tx.outputs }

apply_valid_lem :
    (u : UtxoSet) (tx : Transaction)
    → AllPresent u.utxos tx.inputs
    → AllDistinct tx.inputs
    → apply_valid u tx ≡ (ok (changes_of tx), applied u tx)
unfolding apply_valid applied changes_of
apply_valid_lem u tx p d = ground (arith, remove_inputs-erase_all [] u.utxos tx.inputs p d)

pub no_inputs : (tx : Transaction) → is_coinbase tx ≡ true → tx.inputs ≡ []
unfolding is_coinbase
no_inputs tx h = ground arith

pub inputs_fit :
    (c : Crypto) (u : UtxoSet) (tx : Transaction) (fee : ℕ)
    → validate_tx c u tx ≡ ok fee
    → AllPresent u.utxos tx.inputs × AllDistinct tx.inputs
inputs_fit c u tx fee h = elim ((validate_tx-ok c u tx fee h).1) [
  | inl (coinbase, _) ↦ rw (no_inputs tx coinbase) (tt, tt)
  | inr s ↦ (s.present, s.distinct)
]

-- `apply_tx` by the result of the validation.
pub apply_tx_both :
    (c : Crypto) (u : UtxoSet) (tx : Transaction)
    → ((e : CoreError) → validate_tx c u tx ≡ err e → apply_tx c u tx ≡ (err e, u))
      × ((fee : ℕ)
          → validate_tx c u tx ≡ ok fee
          → apply_tx c u tx ≡ (ok (changes_of tx), applied u tx))
unfolding apply_tx
apply_tx_both c u tx = (
  λ e h. rw (h, apply_tx) refl,
  λ fee h. let fit = inputs_fit c u tx fee h in rw (h, apply_tx) (apply_valid_lem u tx fit.0 fit.1),
)

-- The output that the entries give a key, the last one first.
abbrev created_of : OutPoint → List (OutPoint × TxOutput) → Option TxOutput → Option TxOutput
created_of k [] d = d
created_of k ((j, o) ∷ r) d = created_of k r (if j == k then some o else d)

lookup-insert_all :
    (k : OutPoint) (es : List (OutPoint × TxOutput)) (m : Map OutPoint TxOutput)
    → lookup k (insert_all es m) ≡ created_of k es (lookup k m)
unfolding insert_all
lookup-insert_all k [] m = refl
lookup-insert_all k ((j, o) ∷ r) m =
    lookup-insert_all k r (insert j o m) ∙ ap (created_of k r) (lookup-insert j k o m)

-- The output at a position of the list, or else the given value.
abbrev pub output_or : List TxOutput → ℕ → Option TxOutput → Option TxOutput
output_or os n d = elim (get_elem? os n) [ none ↦ d | some o ↦ some o ]

output_or-suc :
    (o : TxOutput) (os : List TxOutput) (n : ℕ) (d : Option TxOutput)
    → 0 < n
    → output_or (o ∷ os) n d ≡ output_or os (n - 1) d
output_or-suc o os zero d h = elim h [ ]
output_or-suc o os (suc n) d h = let e : suc n - 1 ≡ n = omega arith in rw e

created_of-past :
    (id n b : ℕ) (os : List TxOutput) (d : Option TxOutput)
    → n < b
    → b + length os ≤ 2 ^ 32
    → created_of (id, n) (created_from id b os) d ≡ d
unfolding created_from
created_of-past id n b [] d h r = refl
created_of-past id n b (o ∷ os) d h r = ground (arith, created_of-past id n (b + 1) os d)

same_key : (id b n : ℕ) → b < 2 ^ 32 → pair_equal (id, b % 2 ^ 32) (id, n) ≡ eqb b n
same_key id b n h = let e : b % 2 ^ 32 ≡ b = omega arith in rw e (ground arith)

created_of-cons :
    (id n b : ℕ) (o : TxOutput) (os : List TxOutput) (d : Option TxOutput)
    → b < 2 ^ 32
    → created_of (id, n) (created_from id b (o ∷ os)) d
      ≡ created_of (id, n) (created_from id (b + 1) os) (if eqb b n then some o else d)
unfolding created_from
created_of-cons id n b o os d h =
    ap (λ t. created_of (id, n) (created_from id (b + 1) os) (if t then some o else d))
      (same_key id b n h)

created_of-at :
    (id n b : ℕ) (os : List TxOutput) (d : Option TxOutput)
    → b ≤ n
    → b + length os ≤ 2 ^ 32
    → created_of (id, n) (created_from id b os) d ≡ output_or os (n - b) d
unfolding created_from
created_of-at id n b [] d h r = refl
created_of-at id n b (o ∷ os) d h r =
    created_of-cons id n b o os d (omega arith) ∙ (elim (Bool-cases (eqb b n)) [
      | inl e ↦
          let z : n - b ≡ 0 = ground arith in
          rw (e, z) (created_of-past id n (b + 1) os (some o) (ground arith) (omega arith))
      | inr e ↦
          let s : n - b - 1 ≡ n - (b + 1) = omega arith in
          rw (e, output_or-suc o os (n - b) d (ground arith), s)
            (created_of-at id n (b + 1) os d (ground arith) (omega arith))
    ])

created_of-id :
    (id n : ℕ) (os : List TxOutput) (d : Option TxOutput)
    → length os ≤ 2 ^ 32
    → created_of (id, n) (created_from id 0 os) d ≡ output_or os n d
created_of-id id n os d h =
    let z : n - 0 ≡ n = omega arith in
    created_of-at id n 0 os d (omega arith) (omega arith) ∙ ap (λ t. output_or os t d) z

created_of-other :
    (k : OutPoint) (id b : ℕ) (os : List TxOutput) (d : Option TxOutput)
    → k.0 ≢ id
    → created_of k (created_from id b os) d ≡ d
unfolding created_from
created_of-other k id b [] d h = refl
created_of-other k id b (o ∷ os) d h = ground (arith, created_of-other k id (b + 1) os d h)

-- After a transaction the set holds its outputs under its id and their positions, no output that
-- it spent, and every other entry as before; here the outputs are at most 2 ^ 32 in number.
pub lookup-applied :
    (u : UtxoSet) (tx : Transaction) (k : OutPoint)
    → length tx.outputs ≤ 2 ^ 32
    → lookup k (applied u tx).utxos ≡ (
        let old = if is_spent k tx.inputs then none else lookup k u.utxos in
        if eqb k.0 tx.id then output_or tx.outputs k.1 old else old)
unfolding applied
lookup-applied u tx k h =
    lookup-insert_all k (created_from tx.id 0 tx.outputs) (erase_all tx.inputs u.utxos)
    ∙ rw (lookup-erase_all k tx.inputs u.utxos)
        (by_id k (if is_spent k tx.inputs then none else lookup k u.utxos))
  where
    by_id :
        (j : OutPoint) (old : Option TxOutput)
        → created_of j (created_from tx.id 0 tx.outputs) old
          ≡ (if eqb j.0 tx.id then output_or tx.outputs j.1 old else old)
    by_id (a, n) old = elim (Bool-cases (eqb a tx.id)) [
      | inl e ↦ rw (e, (eqb_iff a tx.id).0 e) (created_of-id tx.id n tx.outputs old h)
      | inr e ↦ rw e (created_of-other (a, n) tx.id 0 tx.outputs old (ground arith))
    ]

-- `apply_tx` is atomic: where the validation fails the error is passed on and the set is left as
-- it was, and where it passes the removal cannot fail, the change set lists exactly the inputs'
-- outpoints and the outputs under the transaction's id, and the set has lost the first and gained
-- the second.
pub apply_tx-atomic :
    (c : Crypto) (u : UtxoSet) (tx : Transaction)
    → ((e : CoreError) × (validate_tx c u tx ≡ err e) × (apply_tx c u tx ≡ (err e, u)))
      ⊎ ((fee : ℕ) × (validate_tx c u tx ≡ ok fee)
          × (apply_tx c u tx ≡ (ok (changes_of tx), applied u tx)))
apply_tx-atomic c u tx = elim (Result-cases (validate_tx c u tx)) [
  | inl (fee, h) ↦ inr (fee, h, (apply_tx_both c u tx).1 fee h)
  | inr (e, h) ↦ inl (e, h, (apply_tx_both c u tx).0 e h)
]
