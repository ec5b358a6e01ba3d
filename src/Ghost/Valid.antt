-- ===== src/Ghost/Valid.antt =====
-- What `validate_block` guarantees of a block that it accepts.
use klomang_network.Prelude.{
  ℕ, zero, suc, ◌+◌, ◌-◌, ◌*◌, ◌≤◌, ◌<◌, ◌≡◌, inl, inr, Bool, true, false, not, some, List, [], ◌∷◌,
  ◌++◌, eqb, leb, length, is_some, arith, refl, ap, ◌∙◌, eqb_iff, All, pair_eq, nat_eq, min,
  Bool-cases, Option-cases,
}
use mathlib.Core.Path.{subst}
use klomang_network.Prelude.Set
use klomang_network.Prelude.Result.{Result, ok, err, ◌>>=◌, ◌>>◌, guard, Result-cases}
use klomang_network.Crypto.{Crypto}
use klomang_network.Transaction.{Transaction, TxInput, as_bytes, calculate_id, compute_sighash}
use klomang_network.Utxo.{OutPoint, outpoint, u64_max}
use klomang_network.Pow.{is_empty}
use klomang_network.Dag.{BlockNode, Dag, all_stored}
use klomang_network.Verkle.{VerkleTree, get}
use klomang_network.Ghost.Validate.{
  BlockFault, missing_signature, invalid_pubkey, malformed_signature, wrong_id, invalid_signatures,
  invalid_pow, zero_difficulty, too_far_past, too_far_future, parent_missing, SignatureItem,
  insert_spends, merkle_level, merkle_rounds, tx_ids, compute_transaction_merkle_root,
  collect_transaction_signatures, check_transactions, batch_verify, validate_transactions,
  outpoint_key, inputs_present, outputs_free, validate_verkle_proof, pow_passes, validate_block,
}

guard-inversion :
    {A : Type 0} (b : Bool) (e : BlockFault) (r : Result BlockFault A) (a : A)
    → (guard b e >> r) ≡ ok a
    → (b ≡ true) × (r ≡ ok a)
guard-inversion true e r a h = (refl, h)
guard-inversion false e r a h = absurd (ground (arith, h))

bind-inversion :
    {A B : Type 0} (m : Result BlockFault A) (f : A → Result BlockFault B) (b : B)
    → (m >>= f) ≡ ok b
    → (a : A) × (m ≡ ok a) × (f a ≡ ok b)
bind-inversion (ok a) f b h = (a, refl, h)
bind-inversion (err e) f b h = absurd (ground (arith, h))

module _ (c : Crypto) where
  merkle_level-shrinks :
      (n : ℕ) (hashes : List ℕ) → length hashes ≤ n → length (merkle_level c hashes) ≤ length hashes
  unfolding merkle_level
  merkle_level-shrinks n [] h = omega arith
  merkle_level-shrinks n (a ∷ []) h = omega arith
  merkle_level-shrinks zero (a ∷ b ∷ hashes) h = absurd (omega (arith, h))
  merkle_level-shrinks (suc n) (a ∷ b ∷ hashes) h =
      omega (arith, merkle_level-shrinks n hashes (omega (arith, h)))

  merkle_rounds-some :
      (fuel a : ℕ) (hashes : List ℕ)
      → length hashes ≤ fuel
      → is_some (merkle_rounds c fuel (a ∷ hashes)) ≡ true
  unfolding merkle_rounds merkle_level
  merkle_rounds-some fuel a [] h = refl
  merkle_rounds-some zero a (b ∷ hashes) h = absurd (omega (arith, h))
  merkle_rounds-some (suc fuel) a (b ∷ hashes) h =
      merkle_rounds-some fuel (c.blake3 (as_bytes a ++ as_bytes b)) (merkle_level c hashes)
        (omega (arith, h, merkle_level-shrinks (length hashes) hashes (omega arith)))

  length-tx_ids : (txs : List Transaction) → length (tx_ids c txs) ≡ length txs
  unfolding tx_ids
  length-tx_ids [] = refl
  length-tx_ids (tx ∷ txs) = ap suc (length-tx_ids txs)

  compute_transaction_merkle_root-some :
      (txs : List Transaction) → is_some (compute_transaction_merkle_root c txs) ≡ true
  unfolding compute_transaction_merkle_root tx_ids
  compute_transaction_merkle_root-some [] = refl
  compute_transaction_merkle_root-some (tx ∷ txs) =
      merkle_rounds-some (length (tx ∷ txs)) tx.id (tx_ids c txs) (omega (arith, length-tx_ids txs))

-- Every outpoint is new to those before it.
pub Distinct : List OutPoint → List OutPoint → Type 0
Distinct spent [] = Unit
Distinct spent (o ∷ os) = (Set.contains spent o ≡ false) × Distinct (o ∷ spent) os

pub spends_of : List TxInput → List OutPoint
spends_of [] = []
spends_of (i ∷ is) = outpoint i ∷ spends_of is

pub all_spends : List Transaction → List OutPoint
all_spends [] = []
all_spends (tx ∷ txs) = spends_of tx.inputs ++ all_spends txs

insert_spends-Distinct :
    (spent rest out : List OutPoint) (is : List TxInput)
    → insert_spends spent is ≡ ok out
    → Distinct out rest
    → Distinct spent (spends_of is ++ rest)
unfolding insert_spends spends_of Distinct
insert_spends-Distinct spent rest out [] h d =
    subst (λ (l : List OutPoint). Distinct l rest) (ground (arith, h)) d
insert_spends-Distinct spent rest out (i ∷ is) h d =
    elim (Bool-cases (Set.contains spent (outpoint i))) [
      | inl e ↦ absurd (ground (arith, h, e))
      | inr e ↦
          (e, insert_spends-Distinct (outpoint i ∷ spent) rest out is (ground (arith, h, e)) d)
    ]

module _ (c : Crypto) where
  -- The signature of every input is good for its own digest.
  pub Signed : Transaction → ℕ → List TxInput → Type 0
  Signed tx input_idx [] = Unit
  Signed tx input_idx (i ∷ is) =
      (c.verify i.pubkey (compute_sighash c tx input_idx i.sighash_type) i.signature ≡ true)
      × Signed tx (input_idx + 1) is

  batch_verify-last :
      (items : List SignatureItem) (a : SignatureItem)
      → batch_verify c (items ++ a ∷ []) ≡ true
      → (batch_verify c items ≡ true) × (c.verify a.0 a.1 a.2 ≡ true)
  unfolding batch_verify
  batch_verify-last [] a h = ground (arith, h)
  batch_verify-last (b ∷ items) a h =
      let front : c.verify b.0 b.1 b.2 ≡ true = ground (arith, h) in
      let rest = batch_verify-last items a (ground (arith, h)) in (rw (front, rest.0) refl, rest.1)

  collect-Signed :
      (tx : Transaction) (input_idx : ℕ) (items out : List SignatureItem) (is : List TxInput)
      → collect_transaction_signatures c tx input_idx items is ≡ ok out
      → batch_verify c out ≡ true
      → Signed tx input_idx is × (batch_verify c items ≡ true)
  unfolding collect_transaction_signatures Signed
  collect-Signed tx input_idx items out [] h v =
      (tt, subst (λ (l : List SignatureItem). batch_verify c l ≡ true) (ground (arith, h)) v)
  collect-Signed tx input_idx items out (i ∷ is) h v =
      let item : SignatureItem =
        (i.pubkey, compute_sighash c tx input_idx i.sighash_type, i.signature) in
      let next = collect_transaction_signatures c tx (input_idx + 1) (items ++ item ∷ []) is in
      let shaped = guard (c.is_signature i.signature) malformed_signature >> next in
      let keyed = guard (c.is_verifying_key i.pubkey) invalid_pubkey >> shaped in
      let a = guard-inversion (not (is_empty i.signature)) missing_signature keyed out h in
      let b = guard-inversion (c.is_verifying_key i.pubkey) invalid_pubkey shaped out a.1 in
      let d = guard-inversion (c.is_signature i.signature) malformed_signature next out b.1 in
      let rest = collect-Signed tx (input_idx + 1) (items ++ item ∷ []) out is d.1 v in
      let own = batch_verify-last items item rest.1 in ((own.1, rest.0), own.0)

  -- The transaction carries its own digest, and its signatures are good.
  pub IsGenuine : Transaction → Type 0
  IsGenuine tx = (tx.id ≡ calculate_id c tx) × Signed tx 0 tx.inputs

  check_transactions-lem :
      (spent : List OutPoint) (items out : List SignatureItem) (txs : List Transaction)
      → check_transactions c spent items txs ≡ ok out
      → batch_verify c out ≡ true
      → All IsGenuine txs × Distinct spent (all_spends txs) × (batch_verify c items ≡ true)
  unfolding check_transactions IsGenuine Distinct all_spends
  check_transactions-lem spent items out [] h v =
      (tt, tt, subst (λ (l : List SignatureItem). batch_verify c l ≡ true) (ground (arith, h)) v)
  check_transactions-lem spent items out (tx ∷ txs) h v =
      let third = λ (spent' : List OutPoint) (items' : List SignatureItem).
        check_transactions c spent' items' txs in
      let second = λ (spent' : List OutPoint).
        collect_transaction_signatures c tx 0 items tx.inputs >>= third spent' in
      let a =
        guard-inversion (eqb tx.id (calculate_id c tx)) wrong_id
          (insert_spends spent tx.inputs >>= second) out h in
      let (spent', taken, after) = bind-inversion (insert_spends spent tx.inputs) second out a.1 in
      let (items', collected, last) =
        bind-inversion (collect_transaction_signatures c tx 0 items tx.inputs) (third spent') out
          after in
      let (genuine, distinct, valid) = check_transactions-lem spent' items' out txs last v in
      let signed = collect-Signed tx 0 items items' tx.inputs collected valid in
      (
        (((eqb_iff tx.id (calculate_id c tx)).0 a.0, signed.0), genuine),
        insert_spends-Distinct spent (all_spends txs) spent' tx.inputs taken distinct,
        signed.1,
      )

  -- Every input has a value in the tree.
  pub Present : VerkleTree → List TxInput → Type 0
  Present t [] = Unit
  Present t (i ∷ is) =
      ((v : List ℕ) × (get (outpoint_key c (outpoint i)) t ≡ ok (some v))) × Present t is

  inputs_present-Present :
      (t : VerkleTree) (is : List TxInput) → inputs_present c t is ≡ ok tt → Present t is
  unfolding inputs_present Present
  inputs_present-Present t [] h = tt
  inputs_present-Present t (i ∷ is) h = elim (Result-cases (get (outpoint_key c (outpoint i)) t)) [
    | inr (e, f) ↦ absurd (ground (arith, h, f))
    | inl (r, f) ↦ elim (Option-cases r) [
      | inl g ↦ absurd (ground (arith, h, f, g))
      | inr (v, g) ↦ ((v, f ∙ ap ok g), inputs_present-Present t is (ground (arith, h, f, g)))
    ]
  ]

  abbrev pub HasInputs : VerkleTree → Transaction → Type 0
  HasInputs t tx = Present t tx.inputs

  validate_verkle_proof-HasInputs :
      (t : VerkleTree) (txs : List Transaction)
      → validate_verkle_proof c t txs ≡ ok tt
      → All (HasInputs t) txs
  unfolding validate_verkle_proof
  validate_verkle_proof-HasInputs t [] h = tt
  validate_verkle_proof-HasInputs t (tx ∷ txs) h =
      let others = validate_verkle_proof c t txs in
      let free = outputs_free c t tx 0 tx.outputs in
      let (u, present, after) =
        bind-inversion (inputs_present c t tx.inputs) (λ _. free >> others) tt h in
      let (u', unused, last) = bind-inversion free (λ _. others) tt after in
      (inputs_present-Present t tx.inputs present, validate_verkle_proof-HasInputs t txs last)

  -- A block that may enter the graph.
  pub record IsValid (d : Dag) (t : VerkleTree) (current_time : ℕ) (block : BlockNode)
      : Type 0 where
    pub parents : all_stored d.blocks block.header.parents ≡ true
    pub not_late : block.header.timestamp ≤ current_time + 2 * 60 * 60
    pub not_early : current_time ≤ block.header.timestamp + 24 * 60 * 60
    pub difficult : 0 < block.header.difficulty
    pub worked : pow_passes c block ≡ true
    pub genuine : All IsGenuine block.transactions
    pub distinct : Distinct [] (all_spends block.transactions)
    pub present : All (HasInputs t) block.transactions

  -- An accepted block has stored parents, a time from a day before to two hours after the current
  -- one, a difficulty and a hash below it; its transactions carry their own digests and a good
  -- signature for each input, spend no outpoint twice in the whole block, and every outpoint that
  -- they spend has a value in the tree.
  pub validate_block-IsValid :
      (d : Dag) (t : VerkleTree) (current_time : ℕ) (block : BlockNode)
      → validate_block c d t current_time block ≡ ok tt
      → IsValid d t current_time block
  unfolding validate_block validate_transactions
  validate_block-IsValid d t current_time block h =
      let header = block.header in
      let txs = block.transactions in
      let trees = validate_verkle_proof c t txs in
      let checked = validate_transactions c txs >> trees in
      let worked = guard (pow_passes c block) invalid_pow >> checked in
      let hard = guard (not (eqb header.difficulty 0)) zero_difficulty >> worked in
      let fresh = guard (leb (current_time - 24 * 60 * 60) header.timestamp) too_far_past >> hard in
      let timely =
        guard (leb header.timestamp (min u64_max (current_time + 2 * 60 * 60))) too_far_future
        >> fresh in
      let a = guard-inversion (all_stored d.blocks header.parents) parent_missing timely tt h in
      let b =
        guard-inversion (leb header.timestamp (min u64_max (current_time + 2 * 60 * 60)))
          too_far_future fresh tt a.1 in
      let e =
        guard-inversion (leb (current_time - 24 * 60 * 60) header.timestamp) too_far_past hard tt
          b.1 in
      let f = guard-inversion (not (eqb header.difficulty 0)) zero_difficulty worked tt e.1 in
      let g = guard-inversion (pow_passes c block) invalid_pow checked tt f.1 in
      let (u, valid, last) = bind-inversion (validate_transactions c txs) (λ _. trees) tt g.1 in
      let (items, taken, after) =
        bind-inversion (check_transactions c [] [] txs)
          (λ items. guard (batch_verify c items) invalid_signatures) tt valid in
      let good : batch_verify c items ≡ true = ground (arith, after) in
      let all = check_transactions-lem [] [] items txs taken good in
      record {
        parents = a.0;
        not_late = ground (arith, b.0);
        not_early = ground (arith, e.0);
        difficult = ground (arith, f.0);
        worked = g.0;
        genuine = all.0;
        distinct = all.1;
        present = validate_verkle_proof-HasInputs t txs last;
      }
