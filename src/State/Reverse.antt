-- ===== src/State/Reverse.antt =====
-- Disconnecting a block that was just applied.
use klomang_network.Prelude.{
  ℕ, min, ltb, ◌+◌, ◌%◌, ◌^◌, ◌≡◌, ◌⊎◌, inl, inr, Bool, true, false, not, ◌&&◌, Option, none, some,
  List, [], ◌∷◌, ◌++◌, eqb, length, if◌then◌else◌, ◌==◌, is_some, nat_eq, pair_eq, pair_equal_iff,
  arith, refl, ap, ◌∙◌, Option-cases,
}
use klomang_network.Prelude.Map.{Map, lookup, insert, erase, lookup-insert, lookup-erase}
use klomang_network.Prelude.Set
use klomang_network.Prelude.Set.{contains-append}
use klomang_network.Prelude.Result.{Result, ok, err, Result-cases}
use klomang_network.Crypto.{Crypto}
use klomang_network.Transaction.{Transaction, TxInput, TxOutput}
use klomang_network.Utxo.{OutPoint, UtxoSet, outpoint, u64_max}
use klomang_network.State.{
  StateManager, StateManagerError, Work, BlockUndo, HostRun, spend_input, spend_inputs,
  create_output, create_outputs, apply_utxo_transaction, apply_transactions, run_contract,
  charge_gas, restore_tree, execute, apply_transaction, apply_contract_transition, payload_cost,
  apply_block_failed, insufficient_gas, start, empty_undo, apply_block,
}
use klomang_network.Dag.{BlockNode}
use klomang_network.Verkle.{Curve}
use klomang_network.State.Invariant.{IsManager}
use klomang_network.State.Atomic.{IsApplied, snapshot_of, Outcome, apply_block-atomic}
use klomang_network.State.Undo.{erase_created, insert_spent, pop, reversed, disconnect_block}

-- The last entry of an outpoint among the spent ones.
unfoldable pub last_spent : OutPoint → List (OutPoint × TxOutput) → Option TxOutput
last_spent k [] = none
last_spent k ((j, o) ∷ r) = elim (last_spent k r) [
  | some o' ↦ some o'
  | none ↦ if j == k then some o else none
]

lookup-insert_spent :
    (k : OutPoint) (r : List (OutPoint × TxOutput)) (m : Map OutPoint TxOutput)
    → lookup k (insert_spent r m)
      ≡ elim (last_spent k r) as (λ _. Option TxOutput) [ some o ↦ some o | none ↦ lookup k m ]
unfolding insert_spent last_spent
lookup-insert_spent k [] m = refl
lookup-insert_spent k ((j, o) ∷ r) m =
    ground (arith, lookup-insert_spent k r (insert j o m), lookup-insert j k o m)

lookup-erase_created :
    (k : OutPoint) (ks : List OutPoint) (m : Map OutPoint TxOutput)
    → lookup k (erase_created ks m) ≡ (if Set.contains ks k then none else lookup k m)
unfolding erase_created Set.contains
lookup-erase_created k [] m = refl
lookup-erase_created k (j ∷ ks) m =
    ground (arith, lookup-erase_created k ks (erase j m), lookup-erase j k m)

last_spent-append :
    (k j : OutPoint) (o : TxOutput) (r : List (OutPoint × TxOutput))
    → last_spent k (r ++ (j, o) ∷ []) ≡ (if j == k then some o else last_spent k r)
unfolding last_spent
last_spent-append k j o [] = refl
last_spent-append k j o ((i, p) ∷ r) = ground (arith, last_spent-append k j o r)

-- How the undo data follow an outpoint that the block has not created: it was not spent either,
-- and stands as before, or it was spent, and the undo data have what stood there.
Tracks : Map OutPoint TxOutput → OutPoint → Work → Type 0
Tracks before k w =
    (Set.contains w.undo.created_utxos k ≡ true)
    ⊎ (((last_spent k w.undo.spent_utxos ≡ none) × (lookup k w.utxo ≡ lookup k before))
        ⊎ ((lookup k w.utxo ≡ none) × (last_spent k w.undo.spent_utxos ≡ lookup k before)))

module _ (before : Map OutPoint TxOutput) (k : OutPoint) where
  spend_input-Tracks :
      (j : OutPoint) (o : TxOutput) (w : Work)
      → lookup j w.utxo ≡ some o
      → Tracks before k w
      → Tracks before k (spend_input j o w)
  unfolding spend_input Tracks
  spend_input-Tracks j o w found h = ground (
    arith,
    h,
    found,
    lookup-erase j k w.utxo,
    last_spent-append k j o w.undo.spent_utxos,
    pair_equal_iff j k,
  )

  spend_inputs-Tracks :
      (is : List TxInput) (w : Work) → Tracks before k w → Tracks before k (spend_inputs is w).1
  unfolding spend_inputs
  spend_inputs-Tracks [] w h = h
  spend_inputs-Tracks (i ∷ is) w h = elim (Option-cases (lookup (outpoint i) w.utxo)) [
    | inl e ↦ rw (e, spend_inputs) h
    | inr (o, e) ↦
        rw (e, spend_inputs)
          (spend_inputs-Tracks is (spend_input (outpoint i) o w)
            (spend_input-Tracks (outpoint i) o w e h))
  ]

  create_output-Tracks :
      (c : Crypto) (tx : Transaction) (index : ℕ) (o : TxOutput) (w : Work)
      → Tracks before k w
      → Tracks before k (create_output c tx index o w)
  unfolding create_output Tracks
  create_output-Tracks c tx index o w h =
      let j : OutPoint = (tx.id, index % 2 ^ 32) in
      ground (
        arith,
        h,
        lookup-insert j k o w.utxo,
        contains-append k j w.undo.created_utxos,
        pair_equal_iff j k,
      )

  create_outputs-Tracks :
      (c : Crypto) (tx : Transaction) (index : ℕ) (os : List TxOutput) (w : Work)
      → Tracks before k w
      → Tracks before k (create_outputs c tx index os w)
  unfolding create_outputs
  create_outputs-Tracks c tx index [] w h = h
  create_outputs-Tracks c tx index (o ∷ os) w h =
      create_outputs-Tracks c tx (index + 1) os (create_output c tx index o w)
        (create_output-Tracks c tx index o w h)

  apply_utxo_transaction-Tracks :
      (c : Crypto) (tx : Transaction) (w : Work)
      → Tracks before k w
      → Tracks before k (apply_utxo_transaction c tx w).1
  unfolding apply_utxo_transaction
  apply_utxo_transaction-Tracks c tx w h =
      let spent = spend_inputs-Tracks tx.inputs w h in
      elim (Result-cases (spend_inputs tx.inputs w).0) [
        | inr (a, e) ↦ rw (e, apply_utxo_transaction) spent
        | inl (a, e) ↦
            rw (e, apply_utxo_transaction)
              (create_outputs-Tracks c tx 0 tx.outputs (spend_inputs tx.inputs w).1 spent)
      ]

  run_contract-Tracks :
      (c : Crypto) (vm : List ℕ → ℕ → HostRun) (tx : Transaction) (w : Work)
      → Tracks before k w
      → Tracks before k (run_contract c vm tx w).1
  unfolding run_contract charge_gas restore_tree Tracks
  run_contract-Tracks c vm tx w h =
      let ran = execute c (vm tx.execution_payload tx.gas_limit) w.manager.tree in
      elim (Option-cases ran.0) [
        | inl e ↦ rw (e, run_contract) h
        | inr (used, e) ↦
            rw (e, run_contract)
              (apply_utxo_transaction-Tracks c tx (charge_gas c used tx ran.1 w) h)
      ]

  Tracks-if :
      (b : Bool) (x y : Result StateManagerError (Unit {0}) × Work)
      → Tracks before k x.1
      → Tracks before k y.1
      → Tracks before k (if b then x else y).1
  Tracks-if true x y hx hy = hx
  Tracks-if false x y hx hy = hy

  apply_transaction-Tracks :
      (c : Crypto) (vm : List ℕ → ℕ → HostRun) (tx : Transaction) (w : Work)
      → Tracks before k w
      → Tracks before k (apply_transaction c vm tx w).1
  unfolding apply_transaction apply_contract_transition
  apply_transaction-Tracks c vm tx w h =
      Tracks-if (eqb (length tx.execution_payload) 0 && not (is_some tx.contract_address))
        (apply_utxo_transaction c tx w) (apply_contract_transition c vm tx w)
        (apply_utxo_transaction-Tracks c tx w h)
        (Tracks-if (ltb tx.gas_limit (min (21_000 + payload_cost 0 tx.execution_payload) u64_max))
          (err (apply_block_failed insufficient_gas), w) (run_contract c vm tx w) h
          (run_contract-Tracks c vm tx w h))

  apply_transactions-Tracks :
      (c : Crypto) (vm : List ℕ → ℕ → HostRun) (txs : List Transaction) (w : Work)
      → Tracks before k w
      → Tracks before k (apply_transactions c vm txs w).1
  unfolding apply_transactions
  apply_transactions-Tracks c vm [] w h = h
  apply_transactions-Tracks c vm (tx ∷ txs) w h =
      let one = apply_transaction-Tracks c vm tx w h in
      elim (Result-cases (apply_transaction c vm tx w).0) [
        | inr (a, e) ↦ rw (e, apply_transactions) one
        | inl (a, e) ↦
            rw (e, apply_transactions)
              (apply_transactions-Tracks c vm txs (apply_transaction c vm tx w).1 one)
      ]

pop-append {ℓ} : {A : Type ℓ} (xs : List A) (x : A) → pop (xs ++ x ∷ []) ≡ xs
unfolding pop
pop-append [] x = refl
pop-append (y ∷ []) x = refl
pop-append (y ∷ z ∷ zs) x = ap (◌∷◌ y) (pop-append (z ∷ zs) x)

-- An outpoint after its block was applied and disconnected, by the undo data.
unfoldable pub Undone :
    BlockUndo → OutPoint → Map OutPoint TxOutput → Map OutPoint TxOutput → Type 0
Undone undo k before after =
    ((Set.contains undo.created_utxos k ≡ false) × (lookup k after ≡ lookup k before))
    ⊎ ((Set.contains undo.created_utxos k ≡ true)
        × (lookup k after ≡ last_spent k undo.spent_utxos))

Tracks-Undone :
    (before : Map OutPoint TxOutput) (k : OutPoint) (w : Work)
    → Tracks before k w
    → Undone w.undo k before
        (insert_spent w.undo.spent_utxos (erase_created w.undo.created_utxos w.utxo))
unfolding Tracks Undone
Tracks-Undone before k w h = ground (
  arith,
  h,
  lookup-insert_spent k w.undo.spent_utxos (erase_created w.undo.created_utxos w.utxo),
  lookup-erase_created k w.undo.created_utxos w.utxo,
)

-- The state after a block was applied and disconnected.
pub record IsReversed (undo : BlockUndo) (m m' : StateManager) (u u' : UtxoSet) : Type 0 where
  pub height : m'.current_height ≡ m.current_height
  pub snapshots : m'.snapshots ≡ m.snapshots
  pub storages : m'.snapshot_storages ≡ m.snapshot_storages
  pub outputs : (k : OutPoint) → Undone undo k u.utxos u'.utxos

module _ (c : Crypto) (k : Curve) (vm : List ℕ → ℕ → HostRun) (block : BlockNode) where
  start-Tracks :
      (j : OutPoint) (m : StateManager) (u : UtxoSet) → Tracks u.utxos j (start m u.utxos)
  unfolding start empty_undo Tracks last_spent
  start-Tracks j m u = inr (inl (refl, refl))

  pub undo_of :
      (m m' : StateManager) (w : Work)
      → IsApplied k block w m m'
      → lookup block.header.id m'.block_undo_data ≡ some w.undo
  undo_of m m' w a =
      rw a.undo
        (lookup-insert block.header.id block.header.id w.undo m.block_undo_data ∙ ground arith)

  disconnect_block-IsApplied :
      (m m' : StateManager) (u u' : UtxoSet) (w : Work)
      → IsApplied k block w m m'
      → u'.utxos ≡ w.utxo
      → ((j : OutPoint) → Tracks u.utxos j w)
      → (lookup block.header.id m'.block_undo_data ≡ some w.undo)
        × ((disconnect_block c block m' u').0 ≡ ok tt)
        × IsReversed w.undo m
            (disconnect_block c block m' u').1
            u
            (disconnect_block c block m' u').2
  unfolding disconnect_block reversed
  disconnect_block-IsApplied m m' u u' w a e tracks =
      let found = undo_of m m' w a in
      (
        found,
        rw (found, disconnect_block) refl,
        rw (found, disconnect_block)
            (record {
              height = rw a.height (omega arith);
              snapshots = rw a.snapshots (pop-append m.snapshots (snapshot_of k block m'));
              storages = rw a.storages (pop-append m.snapshot_storages m'.tree.storage);
              outputs = λ j. rw e (Tracks-Undone u.utxos j w (tracks j));
            }),
      )

  -- A block that was applied can be disconnected with the undo data kept for it: the height, the
  -- snapshots and their storages are again what they were, and so is every output that the block
  -- did not create. One that it created is gone, unless the block also spent it: then the spent
  -- output is put in the set.
  pub disconnect_block-apply_block :
      (m : StateManager) (u : UtxoSet)
      → IsManager k m
      → m.applying_block ≡ false
      → (apply_block c k vm block m u).0 ≡ ok tt
      → let (r, m', u') = apply_block c k vm block m u in
        let (r', m'', u'') = disconnect_block c block m' u' in
        (undo : BlockUndo) × (lookup block.header.id m'.block_undo_data ≡ some undo)
        × (r' ≡ ok tt)
        × IsReversed undo m m'' u u''
  unfolding Outcome
  disconnect_block-apply_block m u h idle fine = elim (apply_block-atomic c k vm block m u h idle) [
    | inr ((e, bad), back, same) ↦ absurd (ground (arith, fine, bad))
    | inl (done, good, applied, outputs) ↦
        let w = (apply_transactions c vm block.transactions (start m u.utxos)).1 in
        let (found, right, reversal) =
          disconnect_block-IsApplied m (apply_block c k vm block m u).1 u
            (apply_block c k vm block m u).2 w applied outputs
            (λ j.
              apply_transactions-Tracks u.utxos j c vm block.transactions (start m u.utxos)
                (start-Tracks j m u)) in
        (w.undo, found, right, reversal)
  ]
