-- ===== src/State/Restore.antt =====
-- Snapshots taken back: `rollback_state`, `rollback`, `restore_from_snapshot` and the readers of
-- the current state in state_manager.rs.
use klomang_network.Prelude.{
  ℕ, ◌+◌, Bool, true, not, ◌&&◌, Option, none, some, List, [], ◌∷◌, eqb, ltb, length, get_elem?,
  take, if◌then◌else◌,
}
use klomang_network.Prelude.Result.{Result, ok, err}
use klomang_network.Verkle.{Curve, MemoryStorage, new, clone, get_root}
use klomang_network.State.{
  StateManager, StateSnapshot, StateManagerError, invalid_rollback, snapshot_not_found,
  apply_block_failed, restore_failed, storage_missing, root_mismatch, corruption, panicked,
  height_mismatch, length_mismatch,
}

unfoldable pub find_height : ℕ → List StateSnapshot → Option StateSnapshot
find_height height [] = none
find_height height (s ∷ ss) =
    let rest = find_height height ss in if eqb s.height height then some s else rest

unfoldable pub get_state_at : ℕ → StateManager → Option StateSnapshot
get_state_at height m = find_height height m.snapshots

-- The snapshots and the storages up to a height.
unfoldable pub truncated : ℕ → StateManager → StateManager
truncated height m = record m {
  snapshots = take (height + 1) m.snapshots;
  snapshot_storages = take (height + 1) m.snapshot_storages;
  current_height = height;
}

-- The end of `rollback_state`, with the storage and the snapshot of the height.
unfoldable pub restore_at :
    Curve
    → MemoryStorage
    → StateSnapshot
    → StateManager
    → Result StateManagerError (Unit {0}) × StateManager
restore_at k storage s m =
    let (root, tree) = get_root k (new storage) in
    let m' : StateManager = record m {
      tree = tree;
      current_total_supply = s.total_supply;
      block_gas_fees = s.gas_fees;
    } in
    if eqb root s.root then (ok tt, m') else (err (restore_failed root_mismatch), m')

-- The part of `rollback_state` after its two checks.
unfoldable pub roll_to :
    Curve → ℕ → StateManager → Result StateManagerError (Unit {0}) × StateManager
roll_to k target m = elim (get_elem? m.snapshot_storages target) [
  | none ↦ (err (restore_failed storage_missing), m)
  | some storage ↦ elim (get_elem? m.snapshots target) [
    | none ↦ (err panicked, record m { tree = new storage })
    | some s ↦ restore_at k storage s m
  ]
]

unfoldable pub rollback_state :
    Curve → ℕ → StateManager → Result StateManagerError (Unit {0}) × StateManager
rollback_state k target m =
    let rolled = roll_to k target (truncated target m) in
    if ltb m.current_height target
    then (err invalid_rollback, m)
    else elim (get_state_at target m) [
      | none ↦ (err (snapshot_not_found target), m)
      | some s ↦ rolled
    ]

-- What `rollback` puts back from its copies when the restoration fails.
unfoldable pub put_back : StateManager → StateManager → StateManager
put_back before m = record m {
  tree = clone before.tree;
  current_height = before.current_height;
  snapshots = before.snapshots;
  snapshot_storages = before.snapshot_storages;
  current_total_supply = before.current_total_supply;
  block_gas_fees = before.block_gas_fees;
}

-- The second comparison of the roots, after a restoration that succeeded.
unfoldable pub check_root :
    Curve → ℕ → StateManager → StateManager → Result StateManagerError (Unit {0}) × StateManager
check_root k target before m =
    let (root, tree) = get_root k m.tree in
    let m' : StateManager = record m { tree = tree } in
    elim (get_elem? m.snapshots target) [
      | none ↦ (err panicked, m')
      | some s ↦
          if eqb root s.root
          then (ok tt, m')
          else (err (restore_failed corruption), put_back before m')
    ]

unfoldable pub rollback :
    Curve → ℕ → StateManager → Result StateManagerError (Unit {0}) × StateManager
rollback k target m =
    let (r, m') = rollback_state k target m in
    let outcome : Result StateManagerError (Unit {0}) × StateManager = elim r [
      | ok _ ↦ check_root k target m m'
      | err e ↦ (err e, put_back m m')
    ] in
    if ltb m.current_height target then (err invalid_rollback, m) else outcome

unfoldable pub position : ℕ → ℕ → ℕ → List StateSnapshot → Option ℕ
position at root height [] = none
position at root height (s ∷ ss) =
    let rest = position (at + 1) root height ss in
    if eqb s.height height && eqb s.root root then some at else rest

unfoldable pub last_hash : List StateSnapshot → Option ℕ
last_hash [] = none
last_hash (s ∷ ss) = elim ss [ [] ↦ s.last_block_hash | _ ↦ last_hash ss ]

-- The tree and the heights of the snapshot at a position.
unfoldable pub restore_position :
    ℕ → ℕ → StateManager → Result StateManagerError (Unit {0}) × StateManager
restore_position at height m = elim (get_elem? m.snapshot_storages at) [
  | none ↦ (err (restore_failed storage_missing), m)
  | some storage ↦ (
    ok tt,
    record m {
      tree = new storage;
      current_height = height;
      snapshots = take (at + 1) m.snapshots;
      snapshot_storages = take (at + 1) m.snapshot_storages;
      current_block_hash = last_hash (take (at + 1) m.snapshots);
    },
  )
]

unfoldable pub restore_from_snapshot :
    ℕ → ℕ → StateManager → Result StateManagerError (Unit {0}) × StateManager
restore_from_snapshot root height m = elim (position 0 root height m.snapshots) [
  | none ↦ (err (snapshot_not_found height), m)
  | some at ↦ restore_position at height m
]

unfoldable pub get_current_state : Curve → StateManager → StateSnapshot × StateManager
get_current_state k m =
    let (root, tree) = get_root k m.tree in
    (
      record {
        height = m.current_height;
        root = root;
        total_supply = m.current_total_supply;
        gas_fees = m.block_gas_fees;
        last_block_hash = m.current_block_hash;
      },
      record m { tree = tree },
    )

unfoldable pub verify_state_root :
    Curve → ℕ → StateManager → Result StateManagerError (Unit {0}) × StateManager
verify_state_root k expected m =
    let (root, tree) = get_root k m.tree in
    (
      if eqb root expected then ok tt else err (restore_failed root_mismatch),
      record m { tree = tree },
    )

-- The loop of `validate_snapshots`, from the index on.
unfoldable pub heights_match : ℕ → List StateSnapshot → Bool
heights_match i [] = true
heights_match i (s ∷ ss) = eqb s.height i && heights_match (i + 1) ss

unfoldable pub validate_snapshots : StateManager → Result StateManagerError (Unit {0})
validate_snapshots m =
    if not (heights_match 0 m.snapshots)
    then err (apply_block_failed height_mismatch)
    else if not (eqb (length m.snapshots) (length m.snapshot_storages))
    then err (apply_block_failed length_mismatch)
    else ok tt
