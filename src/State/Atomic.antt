-- ===== src/State/Atomic.antt =====
-- A block is applied as a whole or not at all.
use klomang_network.Prelude.{
  ℕ, suc, ◌<◌, ◌≡◌, ◌⊎◌, inl, inr, false, some, List, [], ◌∷◌, ◌++◌, length, get_elem?, nat_eq,
  arith, refl, ap, sym, ◌∙◌, length-append, Bool-cases, if_true, if_false,
}
use mathlib.Core.Path.{subst}
use klomang_network.Prelude.Map.{insert}
use klomang_network.Prelude.Result.{Result, ok, err, Result-cases}
use klomang_network.Crypto.{Crypto}
use klomang_network.Utxo.{UtxoSet}
use klomang_network.Dag.{BlockNode}
use klomang_network.Verkle.{
  Curve, VerkleTree, clone, get_root, apply_state_transition, storage_clone,
}
use klomang_network.Verkle.Roots.{state_root}
use klomang_network.Verkle.Steps.{
  IsTree, clone-IsTree, apply_state_transition-IsTree, get_root-state_root,
}
use klomang_network.State.{
  StateManager, StateSnapshot, StateManagerError, Work, HostRun, start, roll_back, commit_block,
  apply_block, apply_taken, apply_transactions, apply_block_failed, transition_failed,
  concurrent_application,
}
use klomang_network.State.Frames.{IsFramed, apply_transactions-After}
use klomang_network.State.Snapshots.{Fit-get, Fit-append}
use klomang_network.State.Invariant.{IsManager}

-- The snapshot that a block leaves, of the manager after it.
unfoldable pub snapshot_of : Curve → BlockNode → StateManager → StateSnapshot
snapshot_of k block m = record {
  height = m.current_height;
  root = state_root k m.tree.storage;
  total_supply = m.current_total_supply;
  gas_fees = m.block_gas_fees;
  last_block_hash = some block.header.id;
}

-- The manager after a block that was applied.
pub record IsApplied (k : Curve) (block : BlockNode) (w : Work) (m m' : StateManager) : Type 0 where
  pub tree : IsTree k m'.tree
  pub stored :
      m'.tree.storage
      ≡ (apply_state_transition w.manager.pending_updates w.manager.current_total_supply
          w.manager.tree).1.storage
  pub height : m'.current_height ≡ suc m.current_height
  pub snapshots : m'.snapshots ≡ m.snapshots ++ snapshot_of k block m' ∷ []
  pub storages : m'.snapshot_storages ≡ m.snapshot_storages ++ m'.tree.storage ∷ []
  pub undo : m'.block_undo_data ≡ insert block.header.id w.undo m.block_undo_data
  pub supply : m'.current_total_supply ≡ w.manager.current_total_supply
  pub fees : m'.block_gas_fees ≡ w.manager.block_gas_fees
  pub keys : m'.outpoint_to_key ≡ w.manager.outpoint_to_key
  pub markers : m'.prune_markers ≡ w.manager.prune_markers
  pub block_hash : m'.current_block_hash ≡ some block.header.id
  pub idle : m'.applying_block ≡ false

module _ (c : Crypto) (k : Curve) (vm : List ℕ → ℕ → HostRun) (block : BlockNode) where
  roll_back-lem :
      (m m' : StateManager)
      → IsFramed k m m'
      → m.applying_block ≡ false
      → roll_back m m' ≡ record m { tree = clone m.tree }
  unfolding roll_back
  roll_back-lem m m' f h = rw (f.snapshots, f.storages, f.undo, h) refl

  commit_block-IsApplied :
      (m : StateManager) (w : Work) (tree : VerkleTree)
      → IsFramed k m w.manager
      → IsManager k m
      → IsTree k tree
      → tree.storage
        ≡ (apply_state_transition w.manager.pending_updates w.manager.current_total_supply
            w.manager.tree).1.storage
      → ((commit_block k block tree w).0 ≡ ok tt)
        × IsApplied k block w m (commit_block k block tree w).1
  unfolding commit_block snapshot_of storage_clone
  commit_block-IsApplied m w tree f h i same =
      let g = get_root-state_root k tree i in
      let small : m.current_height < length m.snapshots = omega (arith, h.count) in
      let (old, t, e, e', p) =
        Fit-get k m.current_height 0 m.snapshots m.snapshot_storages h.fit small in
      let found : get_elem? w.manager.snapshots w.manager.current_height ≡ some old =
        rw (f.snapshots, f.height) e in
      let root : (get_root k tree).0 ≡ state_root k (get_root k tree).1.storage =
        g.0 ∙ ap (state_root k) (sym g.2) in
      rw (found, commit_block)
        (
          refl,
          record {
            tree = g.1;
            stored = g.2 ∙ same;
            height = omega (arith, f.height);
            snapshots = rw (f.snapshots, root) refl;
            storages = rw f.storages refl;
            undo = rw f.undo refl;
            supply = refl;
            fees = refl;
            keys = refl;
            markers = refl;
            block_hash = refl;
            idle = refl;
          },
        )

  start-IsFramed :
      (m : StateManager) (u : UtxoSet)
      → IsFramed k m (apply_transactions c vm block.transactions (start m u.utxos)).1.manager
  unfolding start
  start-IsFramed m u =
      let rest = apply_transactions-After k c vm block.transactions (start m u.utxos) in
      record {
        height = rest.height;
        snapshots = rest.snapshots;
        storages = rest.storages;
        undo = rest.undo;
        tree = rest.tree;
      }

  -- The outcome of a block: applied as the work of its transactions, or an error that leaves the
  -- outputs as they were and the manager too, but for a tree with the same nodes and empty caches.
  unfoldable pub Outcome :
      StateManager → UtxoSet → Result StateManagerError (Unit {0}) × StateManager × UtxoSet → Type 0
  Outcome m u r =
      let (done, w) = apply_transactions c vm block.transactions (start m u.utxos) in
      ((done ≡ ok tt) × (r.0 ≡ ok tt) × IsApplied k block w m r.1 × (r.2.utxos ≡ w.utxo))
      ⊎ (((e : StateManagerError) × (r.0 ≡ err e))
          × (r.1 ≡ record m { tree = clone m.tree })
          × (r.2 ≡ u))

  apply_taken-Outcome :
      (m : StateManager) (u : UtxoSet)
      → IsManager k m
      → m.applying_block ≡ false
      → Outcome m u (apply_taken c k vm block m u)
  unfolding apply_taken Outcome
  apply_taken-Outcome m u h idle =
      let (done, w) = apply_transactions c vm block.transactions (start m u.utxos) in
      let f = start-IsFramed m u in
      let moved =
        apply_state_transition w.manager.pending_updates w.manager.current_total_supply
          w.manager.tree in
      let sound =
        apply_state_transition-IsTree k w.manager.pending_updates w.manager.current_total_supply
          w.manager.tree (f.tree h.tree) in
      let committed = commit_block-IsApplied m w moved.1 f h sound refl in
      let back = roll_back-lem m w.manager f idle in
      elim (Result-cases done) [
        | inr (e, bad) ↦ rw (bad, apply_taken) (inr ((e, refl), back, refl))
        | inl (a, good) ↦ elim (Result-cases moved.0) [
          | inr (e, bad) ↦
              rw (good, bad, apply_taken)
                (inr ((apply_block_failed transition_failed, refl), back, refl))
          | inl (b, fine) ↦
              rw (good, fine, apply_taken) (inl (refl, committed.0, committed.1, refl))
        ]
      ]

  -- With no other block under way, a block, contracts included, is either applied as the work of
  -- its transactions, with the height above, a snapshot of the new root beside the new storage,
  -- its undo data and the flag released, where the storage is that of the transition on the tree
  -- that the contracts left; or it fails and the outputs and the manager stay, but for
  -- caches.
  pub apply_block-atomic :
      (m : StateManager) (u : UtxoSet)
      → IsManager k m
      → m.applying_block ≡ false
      → Outcome m u (apply_block c k vm block m u)
  unfolding apply_block
  apply_block-atomic m u h idle =
      subst (Outcome m u)
        (sym (
          if_false m.applying_block (err (apply_block_failed concurrent_application), m, u)
            (apply_taken c k vm block m u) idle))
        (apply_taken-Outcome m u h idle)

  pub IsApplied-IsManager :
      (m m' : StateManager) (w : Work) → IsManager k m → IsApplied k block w m m' → IsManager k m'
  unfolding snapshot_of
  IsApplied-IsManager m m' w h a = record {
    tree = a.tree;
    count =
        ap (λ (ss : List StateSnapshot). length ss) a.snapshots
        ∙ length-append m.snapshots (snapshot_of k block m' ∷ [])
        ∙ omega (arith, h.count, a.height);
    fit =
        rw (a.snapshots, a.storages)
          (Fit-append k 0 m.snapshots m.snapshot_storages (snapshot_of k block m') m'.tree.storage
            h.fit
            (record {
              height = omega (arith, h.count, a.height);
              root = refl;
              rooted = a.tree.rooted;
            }));
  }

  -- In every case the manager keeps its invariant, or does nothing while another block is applied.
  pub apply_block-IsManager :
      (m : StateManager) (u : UtxoSet)
      → IsManager k m
      → IsManager k (apply_block c k vm block m u).1
  unfolding apply_block Outcome
  apply_block-IsManager m u h = elim (Bool-cases m.applying_block) [
    | inl busy ↦
        subst
          (λ (r : Result StateManagerError (Unit {0}) × StateManager × UtxoSet). IsManager k r.1)
          (sym (
            if_true m.applying_block (err (apply_block_failed concurrent_application), m, u)
              (apply_taken c k vm block m u) busy))
          h
    | inr idle ↦ elim (apply_block-atomic m u h idle) [
      | inl (worked, fine, applied, outputs) ↦
          IsApplied-IsManager m (apply_block c k vm block m u).1
            (apply_transactions c vm block.transactions (start m u.utxos)).1 h applied
      | inr (failed, back, outputs) ↦
          subst (IsManager k) (sym back)
            (record { tree = clone-IsTree k m.tree; count = h.count; fit = h.fit })
    ]
  ]
