-- ===== src/State/Frames.antt =====
-- What the transactions of a block leave alone in the manager.
use klomang_network.Prelude.{
  ℕ, ◌+◌, ◌≡◌, min, inl, inr, Bool, true, false, not, ◌&&◌, List, [], ◌∷◌, eqb, ltb, length,
  if◌then◌else◌, is_some, pair_eq, refl, ◌∙◌, Option-cases, arith, Bool-cases, eqb_iff,
}
use klomang_network.Prelude.Map.{lookup}
use klomang_network.Prelude.Result.{Result, err, Result-cases}
use klomang_network.Prelude.Bytes.{length-be_bytes}
use klomang_network.Crypto.{Crypto}
use klomang_network.Transaction.{Transaction, TxInput, TxOutput}
use klomang_network.Utxo.{outpoint, u64_max}
use klomang_network.Verkle.{Curve, VerkleTree, key_size, get, insert_key, prune_key}
use klomang_network.Verkle.Steps.{IsTree, insert_key-IsTree, clone-IsTree, prune_key-IsTree}
use klomang_network.State.{
  StateManager, StateManagerError, Work, HostRun, finished, failed, state_read, state_write,
  self_destruct, host_key, run_host, execute, spend_input, spend_inputs, create_output,
  create_outputs, apply_utxo_transaction, apply_contract_transition, apply_transaction,
  apply_transactions, charge_gas, restore_tree, run_contract, payload_cost, apply_block_failed,
  insufficient_gas,
}

-- The second manager differs in the fields of a block under way only, and its tree is sound where
-- the first one's was.
pub record IsFramed (k : Curve) (m m' : StateManager) : Type 0 where
  pub height : m'.current_height ≡ m.current_height
  pub snapshots : m'.snapshots ≡ m.snapshots
  pub storages : m'.snapshot_storages ≡ m.snapshot_storages
  pub undo : m'.block_undo_data ≡ m.block_undo_data
  pub tree : IsTree k m.tree → IsTree k m'.tree

IsFramed-refl : (k : Curve) (m : StateManager) → IsFramed k m m
IsFramed-refl k m = record {
  height = refl;
  snapshots = refl;
  storages = refl;
  undo = refl;
  tree = λ t. t;
}

pub IsFramed-trans :
    (k : Curve) (l m n : StateManager) → IsFramed k l m → IsFramed k m n → IsFramed k l n
IsFramed-trans k l m n h h' = record {
  height = h'.height ∙ h.height;
  snapshots = h'.snapshots ∙ h.snapshots;
  storages = h'.storages ∙ h.storages;
  undo = h'.undo ∙ h.undo;
  tree = λ t. h'.tree (h.tree t);
}

module _ (k : Curve) where
  -- The frame of a step that answers with a result.
  abbrev pub After : Work → Result StateManagerError (Unit {0}) × Work → Type 0
  After w r = IsFramed k w.manager r.1.manager

  prune_key-kept :
      (key : List ℕ) (t : VerkleTree)
      → length key ≡ key_size
      → IsTree k t
      → IsTree k (prune_key key t).1
  prune_key-kept [] t n i = absurd (omega (arith, n))
  prune_key-kept (b ∷ key) t n i = prune_key-IsTree k b key t i

  length-host_key : (c : Crypto) (key : List ℕ) → length (host_key c key) ≡ key_size
  unfolding host_key
  length-host_key c key = elim (Bool-cases (eqb (length key) key_size)) [
    | inl e ↦ rw e ((eqb_iff (length key) key_size).0 e)
    | inr e ↦ rw e (length-be_bytes 32 (c.blake3 key))
  ]

  run_host-IsTree :
      (c : Crypto) (h : HostRun) (t : VerkleTree) → IsTree k t → IsTree k (run_host c h t).1
  unfolding run_host
  run_host-IsTree c (finished gas) t i = i
  run_host-IsTree c failed t i = i
  run_host-IsTree c (state_read key next) t i = elim (Result-cases (get (host_key c key) t)) [
    | inr (a, e) ↦ rw (e, run_host) i
    | inl (value, e) ↦ rw (e, run_host) (run_host-IsTree c (next value) t i)
  ]
  run_host-IsTree c (state_write key value next) t i =
      elim (Result-cases (get (host_key c key) t)) [
        | inr (a, e) ↦ rw (e, run_host) i
        | inl (existing, e) ↦
            rw (e, run_host)
              (run_host-IsTree c (next (not (is_some existing)))
                (insert_key (host_key c key) value t)
                (insert_key-IsTree k (host_key c key) value t i))
      ]
  run_host-IsTree c (self_destruct key next) t i =
      run_host-IsTree c next (prune_key (host_key c key) t).1
        (prune_key-kept (host_key c key) t (length-host_key c key) i)

  execute-IsTree :
      (c : Crypto) (h : HostRun) (t : VerkleTree) → IsTree k t → IsTree k (execute c h t).1
  unfolding execute
  execute-IsTree c h t i = elim (Option-cases (run_host c h t).0) [
    | inl e ↦ rw (e, execute) (clone-IsTree k t)
    | inr (used, e) ↦ rw (e, execute) (run_host-IsTree c h t i)
  ]

  spend_inputs-After : (is : List TxInput) (w : Work) → After w (spend_inputs is w)
  unfolding spend_inputs spend_input
  spend_inputs-After [] w = IsFramed-refl k w.manager
  spend_inputs-After (i ∷ is) w = elim (Option-cases (lookup (outpoint i) w.utxo)) [
    | inl e ↦ rw (e, spend_inputs) (IsFramed-refl k w.manager)
    | inr (o, e) ↦
        rw (e, spend_inputs)
          (let rest = spend_inputs-After is (spend_input (outpoint i) o w) in
            record {
              height = rest.height;
              snapshots = rest.snapshots;
              storages = rest.storages;
              undo = rest.undo;
              tree = rest.tree;
            })
  ]

  module _ (c : Crypto) where
    create_outputs-IsFramed :
        (tx : Transaction) (index : ℕ) (os : List TxOutput) (w : Work)
        → IsFramed k w.manager (create_outputs c tx index os w).manager
    unfolding create_outputs create_output
    create_outputs-IsFramed tx index [] w = IsFramed-refl k w.manager
    create_outputs-IsFramed tx index (o ∷ os) w =
        let rest = create_outputs-IsFramed tx (index + 1) os (create_output c tx index o w) in
        record {
          height = rest.height;
          snapshots = rest.snapshots;
          storages = rest.storages;
          undo = rest.undo;
          tree = rest.tree;
        }

    apply_utxo_transaction-After :
        (tx : Transaction) (w : Work) → After w (apply_utxo_transaction c tx w)
    unfolding apply_utxo_transaction
    apply_utxo_transaction-After tx w =
        let spent = spend_inputs-After tx.inputs w in
        let made = create_outputs-IsFramed tx 0 tx.outputs (spend_inputs tx.inputs w).1 in
        elim (Result-cases (spend_inputs tx.inputs w).0) [
          | inl (a, e) ↦
              rw (e, apply_utxo_transaction)
                (IsFramed-trans k w.manager (spend_inputs tx.inputs w).1.manager
                  (create_outputs c tx 0 tx.outputs (spend_inputs tx.inputs w).1).manager spent
                  made)
          | inr (a, e) ↦ rw (e, apply_utxo_transaction) spent
        ]

    module _ (vm : List ℕ → ℕ → HostRun) where
      After-if :
          (w : Work) (b : Bool) (x y : Result StateManagerError (Unit {0}) × Work)
          → After w x
          → After w y
          → After w (if b then x else y)
      After-if w true x y hx hy = hx
      After-if w false x y hx hy = hy

      run_contract-After : (tx : Transaction) (w : Work) → After w (run_contract c vm tx w)
      unfolding run_contract charge_gas restore_tree
      run_contract-After tx w =
          let ran = execute c (vm tx.execution_payload tx.gas_limit) w.manager.tree in
          elim (Option-cases ran.0) [
            | inl e ↦
                rw (e, run_contract)
                  (record {
                    height = refl;
                    snapshots = refl;
                    storages = refl;
                    undo = refl;
                    tree = λ t. clone-IsTree k w.manager.tree;
                  })
            | inr (used, e) ↦
                rw (e, run_contract)
                  (let rest = apply_utxo_transaction-After tx (charge_gas c used tx ran.1 w) in
                    record {
                      height = rest.height;
                      snapshots = rest.snapshots;
                      storages = rest.storages;
                      undo = rest.undo;
                      tree = λ t. rest.tree (
                          execute-IsTree c (vm tx.execution_payload tx.gas_limit) w.manager.tree t);
                    })
          ]

      apply_contract_transition-After :
          (tx : Transaction) (w : Work) → After w (apply_contract_transition c vm tx w)
      unfolding apply_contract_transition
      apply_contract_transition-After tx w =
          After-if w (ltb tx.gas_limit (min (21_000 + payload_cost 0 tx.execution_payload) u64_max))
            (err (apply_block_failed insufficient_gas), w) (run_contract c vm tx w)
            (IsFramed-refl k w.manager) (run_contract-After tx w)

      apply_transaction-After :
          (tx : Transaction) (w : Work) → After w (apply_transaction c vm tx w)
      unfolding apply_transaction
      apply_transaction-After tx w =
          After-if w (eqb (length tx.execution_payload) 0 && not (is_some tx.contract_address))
            (apply_utxo_transaction c tx w) (apply_contract_transition c vm tx w)
            (apply_utxo_transaction-After tx w) (apply_contract_transition-After tx w)

      pub apply_transactions-After :
          (txs : List Transaction) (w : Work) → After w (apply_transactions c vm txs w)
      unfolding apply_transactions
      apply_transactions-After [] w = IsFramed-refl k w.manager
      apply_transactions-After (tx ∷ txs) w =
          let one = apply_transaction-After tx w in
          let rest = apply_transactions-After txs (apply_transaction c vm tx w).1 in
          elim (Result-cases (apply_transaction c vm tx w).0) [
            | inr (a, e) ↦ rw (e, apply_transactions) one
            | inl (a, e) ↦
                rw (e, apply_transactions)
                  (IsFramed-trans k w.manager (apply_transaction c vm tx w).1.manager
                    (apply_transactions c vm txs (apply_transaction c vm tx w).1).1.manager one
                    rest)
          ]
