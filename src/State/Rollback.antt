-- ===== src/State/Rollback.antt =====
-- Rolling back to a height gives the state of that height.
use klomang_network.Prelude.{
  ℕ, ◌+◌, ◌<◌, ◌≡◌, ◌⊎◌, true, some, List, [], ◌∷◌, get_elem?, take, arith, refl,
}
use klomang_network.Prelude.Result.{Result, ok, err}
use klomang_network.Verkle.{Curve, MemoryStorage}
use klomang_network.Verkle.Roots.{state_root}
use klomang_network.Verkle.Steps.{IsTree}
use klomang_network.State.{StateManager, StateSnapshot, StateManagerError, invalid_rollback}
use klomang_network.State.Snapshots.{Fit, Fit-length}
use klomang_network.State.Invariant.{IsManager}
use klomang_network.State.Restore.{rollback, heights_match, validate_snapshots}

Fit-heights_match :
    (k : Curve) (i : ℕ) (ss : List StateSnapshot) (ts : List MemoryStorage)
    → Fit k i ss ts
    → heights_match i ss ≡ true
unfolding Fit heights_match
Fit-heights_match k i [] ts h = refl
Fit-heights_match k i (s ∷ ss) [] h = absurd h
Fit-heights_match k i (s ∷ ss) (t ∷ ts) h =
    ground (arith, h.0.height, Fit-heights_match k (i + 1) ss ts h.1)

-- The check of the snapshots passes on every manager of the invariant.
pub validate_snapshots-ok :
    (k : Curve) (m : StateManager) → IsManager k m → validate_snapshots m ≡ ok tt
unfolding validate_snapshots
validate_snapshots-ok k m h = ground (
  arith,
  Fit-heights_match k 0 m.snapshots m.snapshot_storages h.fit,
  Fit-length k 0 m.snapshots m.snapshot_storages h.fit,
)

-- The manager put back to a snapshot and its storage.
pub record IsRestored (k : Curve) (target : ℕ) (s : StateSnapshot) (t : MemoryStorage)
    (m m' : StateManager) : Type 0 where
  pub tree : IsTree k m'.tree
  pub nodes : m'.tree.storage ≡ t
  pub height : m'.current_height ≡ target
  pub snapshots : m'.snapshots ≡ take (target + 1) m.snapshots
  pub storages : m'.snapshot_storages ≡ take (target + 1) m.snapshot_storages
  pub supply : m'.current_total_supply ≡ s.total_supply
  pub fees : m'.block_gas_fees ≡ s.gas_fees
  pub undo : m'.block_undo_data ≡ m.block_undo_data
  pub hash : m'.current_block_hash ≡ m.current_block_hash

-- The two answers of `rollback`, by the height asked for.
unfoldable pub RollsBack : Curve → ℕ → StateManager → Type 0
RollsBack k target m =
    let (r, m') = rollback k target m in
    ((s : StateSnapshot) × (t : MemoryStorage) × (get_elem? m.snapshots target ≡ some s)
      × (r ≡ ok tt)
      × (state_root k t ≡ s.root)
      × IsRestored k target s t m m'
      × IsManager k m')
    ⊎ ((m.current_height < target) × (rollback k target m ≡ (err invalid_rollback, m)))

module _ (k : Curve) (target : ℕ) where
  -- What a restoration of the snapshot answers.
  Restores :
      StateSnapshot
      → MemoryStorage
      → StateManager
      → Result StateManagerError (Unit {0}) × StateManager
      → Type 0
  Restores s t m r = (r.0 ≡ ok tt) × IsRestored k target s t m r.1
