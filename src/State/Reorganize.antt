-- ===== src/State/Reorganize.antt =====
-- The invariant of the manager over a reorganization, and what the validation of a block promises.
use klomang_network.Prelude.{
  ℕ, ◌+◌, ◌-◌, ◌<◌, ◌≤◌, ◌≡◌, inl, inr, Bool, true, false, not, Option, none, some, List, [], ◌∷◌,
  eqb, length, if◌then◌else◌, nat_eq, arith, Option-cases,
}
use klomang_network.Prelude.Map.{lookup}
use klomang_network.Prelude.Result.{Result, ok, err, Result-cases}
use klomang_network.Crypto.{Crypto}
use klomang_network.Utxo.{UtxoSet}
use klomang_network.Dag.{BlockNode, Dag}
use klomang_network.Verkle.{Curve, VerkleTree, MemoryStorage, get_root}
use klomang_network.Verkle.Steps.{IsTree, insert_key-IsTree, get_root-state_root}
use klomang_network.State.{StateManager, StateSnapshot, HostRun}
use klomang_network.State.Snapshots.{Fit}
use klomang_network.State.Invariant.{IsManager}
use klomang_network.State.Atomic.{apply_block-IsManager}
use klomang_network.State.Undo.{disconnect_block, reversed, reverse_updates, pop}
use klomang_network.State.Connect.{
  root_matches, validate_block_stateful, connect_block, split_plan, disconnect_blocks,
  connect_blocks, perform_reorganization, no_double_spend, no_inflation, BlockFault, double_spend,
  verkle_root_mismatch, inflation,
}
use klomang_network.Transaction.{Transaction}

reverse_updates-IsTree :
    (k : Curve) (r : List (List ℕ × Option (List ℕ))) (t : VerkleTree)
    → IsTree k t
    → IsTree k (reverse_updates r t)
unfolding reverse_updates
reverse_updates-IsTree k [] t h = h
reverse_updates-IsTree k ((key, none) ∷ r) t h =
    insert_key-IsTree k key [] (reverse_updates r t) (reverse_updates-IsTree k r t h)
reverse_updates-IsTree k ((key, some v) ∷ r) t h =
    insert_key-IsTree k key v (reverse_updates r t) (reverse_updates-IsTree k r t h)

length-pop {ℓ} : {A : Type ℓ} (xs : List A) → length (pop xs) ≡ length xs - 1
unfolding pop
length-pop [] = omega arith
length-pop (x ∷ []) = omega arith
length-pop (x ∷ y ∷ ys) = omega (arith, length-pop (y ∷ ys))

Fit-pop :
    (k : Curve) (i : ℕ) (ss : List StateSnapshot) (ts : List MemoryStorage)
    → Fit k i ss ts
    → Fit k i (pop ss) (pop ts)
unfolding Fit pop
Fit-pop k i [] [] h = tt
Fit-pop k i [] (t ∷ ts) h = absurd h
Fit-pop k i (s ∷ ss) [] h = absurd h
Fit-pop k i (s ∷ []) (t ∷ []) h = tt
Fit-pop k i (s ∷ []) (t ∷ t' ∷ ts) h = absurd h.1
Fit-pop k i (s ∷ s' ∷ ss) (t ∷ []) h = absurd h.1
Fit-pop k i (s ∷ s' ∷ ss) (t ∷ t' ∷ ts) h = (h.0, Fit-pop k (i + 1) (s' ∷ ss) (t' ∷ ts) h.1)

-- Above height zero a block can be taken off: the invariant stays, and the height is one less or,
-- without undo data, the same.
disconnect_block-IsManager :
    (c : Crypto) (k : Curve) (block : BlockNode) (m : StateManager) (u : UtxoSet)
    → IsManager k m
    → 0 < m.current_height
    → IsManager k (disconnect_block c block m u).1
      × (m.current_height ≤ (disconnect_block c block m u).1.current_height + 1)
unfolding disconnect_block reversed
disconnect_block-IsManager c k block m u h above =
    elim (Option-cases (lookup block.header.id m.block_undo_data)) [
      | inl e ↦ rw (e, disconnect_block) (h, omega arith)
      | inr (undo, e) ↦
          rw (e, disconnect_block)
            (
              record {
                tree = reverse_updates-IsTree k undo.verkle_updates m.tree h.tree;
                count = omega (arith, length-pop m.snapshots, h.count, above);
                fit = Fit-pop k 0 m.snapshots m.snapshot_storages h.fit;
              },
              omega arith,
            )
    ]

module _ (c : Crypto) (k : Curve) (vm : List ℕ → ℕ → HostRun) where
  disconnect_blocks-IsManager :
      (blocks : List BlockNode) (m : StateManager) (u : UtxoSet)
      → IsManager k m
      → length blocks ≤ m.current_height
      → IsManager k (disconnect_blocks c blocks m u).1
        × (m.current_height ≤ (disconnect_blocks c blocks m u).1.current_height + length blocks)
  unfolding disconnect_blocks
  disconnect_blocks-IsManager [] m u h room = (h, omega arith)
  disconnect_blocks-IsManager (block ∷ blocks) m u h room =
      let first = disconnect_blocks c blocks m u in
      let rest = disconnect_blocks-IsManager blocks m u h (omega (arith, room)) in
      let last =
        disconnect_block-IsManager c k block first.1 first.2 rest.0 (omega (arith, rest.1, room)) in
      elim (Result-cases first.0) [
        | inr (a, e) ↦ rw (e, disconnect_blocks) (rest.0, omega (arith, rest.1))
        | inl (a, e) ↦ rw (e, disconnect_blocks) (last.0, omega (arith, rest.1, last.1))
      ]

  root_matches-IsTree :
      (block : BlockNode) (t : VerkleTree) → IsTree k t → IsTree k (root_matches k block t).1
  unfolding root_matches
  root_matches-IsTree block t h = elim (Option-cases block.header.verkle_proofs) [
    | inl e ↦ rw (e, root_matches) h
    | inr (proof, e) ↦ rw (e, root_matches) (compared block.transactions)
  ]
    where
      compared :
          (txs : List Transaction)
          → IsTree k
              (elim txs as (λ _. Bool × VerkleTree) [
                | [] ↦ (true, t)
                | _ ↦ (eqb block.header.verkle_root (get_root k t).0, (get_root k t).1)
              ]).1
      compared [] = h
      compared (tx ∷ txs) = (get_root-state_root k t h).1

  IsManager-if :
      (b : Bool) (x y : Result BlockFault (Unit {0}) × StateManager)
      → IsManager k x.1
      → IsManager k y.1
      → IsManager k (if b then x else y).1
  IsManager-if true x y hx hy = hx
  IsManager-if false x y hx hy = hy

  validate_block_stateful-IsManager :
      (block : BlockNode) (m : StateManager) (u : UtxoSet)
      → IsManager k m
      → IsManager k (validate_block_stateful k block m u).1
  unfolding validate_block_stateful
  validate_block_stateful-IsManager block m u h =
      let tree = root_matches-IsTree block m.tree h.tree in
      let m' : StateManager = record m { tree = (root_matches k block m.tree).1 } in
      let kept : IsManager k m' = record { tree = tree; count = h.count; fit = h.fit } in
      IsManager-if (not (no_double_spend u.utxos block.transactions)) (err double_spend, m)
        (if not (root_matches k block m.tree).0
          then (err verkle_root_mismatch, m')
          else if not (no_inflation u.utxos block.transactions)
          then (err inflation, m')
          else (ok tt, m'))
        h
        (IsManager-if (not (root_matches k block m.tree).0) (err verkle_root_mismatch, m')
          (if not (no_inflation u.utxos block.transactions)
            then (err inflation, m')
            else (ok tt, m'))
          kept
          (IsManager-if (not (no_inflation u.utxos block.transactions)) (err inflation, m')
            (ok tt, m') kept kept))

  connect_block-IsManager :
      (block : BlockNode) (m : StateManager) (u : UtxoSet)
      → IsManager k m
      → IsManager k (connect_block c k vm block m u).1
  unfolding connect_block
  connect_block-IsManager block m u h =
      let checked = validate_block_stateful-IsManager block m u h in
      let applied =
        apply_block-IsManager c k vm block (validate_block_stateful k block m u).1 u checked in
      elim (Result-cases (validate_block_stateful k block m u).0) [
        | inr (a, e) ↦ rw (e, connect_block) checked
        | inl (a, e) ↦ rw (e, connect_block) applied
      ]

  connect_blocks-IsManager :
      (blocks : List BlockNode) (m : StateManager) (u : UtxoSet)
      → IsManager k m
      → IsManager k (connect_blocks c k vm blocks m u).1
  unfolding connect_blocks
  connect_blocks-IsManager [] m u h = h
  connect_blocks-IsManager (block ∷ blocks) m u h =
      let one = connect_block c k vm block m u in
      let kept = connect_block-IsManager block m u h in
      let rest = connect_blocks-IsManager blocks one.1 one.2 kept in
      elim (Result-cases one.0) [
        | inr (a, e) ↦ rw (e, connect_blocks) kept
        | inl (a, e) ↦ rw (e, connect_blocks) rest
      ]

  -- A reorganization that takes off no more blocks than the height keeps the invariant of the
  -- manager, whether it succeeds or stops at a block that fails.
  pub perform_reorganization-IsManager :
      (dag : Dag) (hashes : List ℕ) (m : StateManager) (u : UtxoSet)
      → IsManager k m
      → length (split_plan dag m.block_undo_data false hashes).0 ≤ m.current_height
      → IsManager k (perform_reorganization c k vm dag hashes m u).1
  unfolding perform_reorganization
  perform_reorganization-IsManager dag hashes m u h room =
      let plan = split_plan dag m.block_undo_data false hashes in
      let off = disconnect_blocks c plan.0 m u in
      let kept = (disconnect_blocks-IsManager plan.0 m u h room).0 in
      let rest = connect_blocks-IsManager plan.1 off.1 off.2 kept in
      elim (Result-cases off.0) [
        | inr (a, e) ↦ rw (e, perform_reorganization) kept
        | inl (a, e) ↦ rw (e, perform_reorganization) rest
      ]
