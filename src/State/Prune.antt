-- ===== src/State/Prune.antt =====
-- Pruning of outpoints, and the supply's check, in state_manager.rs.
use klomang_network.Prelude.{
  ℕ, ◌+◌, ◌-◌, not, Option, none, some, List, [], ◌∷◌, ◌++◌, eqb, leb, length, take, if◌then◌else◌,
  pair_eq,
}
use klomang_network.Prelude.Map.{Map, lookup, insert, erase}
use klomang_network.Prelude.Result.{Result, ok, err}
use klomang_network.Transaction.{TxOutput}
use klomang_network.Utxo.{OutPoint, UtxoSet}
use klomang_network.Emission.{u128_max}
use klomang_network.Verkle.{Curve, VerkleTree, prune_key, get_root}
use klomang_network.State.{
  StateManager, StateSnapshot, StateManagerError, PruneMarker, cryptographic_error,
  supply_cap_exceeded, apply_block_failed, supply_mismatch, root_differs,
}

unfoldable pub mark_outpoint_for_pruning : OutPoint → ℕ → ℕ → StateManager → StateManager
mark_outpoint_for_pruning k epoch timestamp m = record m {
  prune_markers = insert k (record { epoch = epoch; timestamp = timestamp }) m.prune_markers;
}

-- The outpoints whose marker's epoch is at most the threshold.
unfoldable pub keys_to_prune : ℕ → Map OutPoint PruneMarker → List OutPoint
keys_to_prune threshold [] = []
keys_to_prune threshold ((k, marker) ∷ m) =
    let rest = keys_to_prune threshold m in if leb marker.epoch threshold then k ∷ rest else rest

-- One outpoint whose key is known and was pruned from the tree.
unfoldable pub forget_outpoint : OutPoint → VerkleTree → StateManager → StateManager
forget_outpoint k tree m = record m {
  tree = tree;
  outpoint_to_key = erase k m.outpoint_to_key;
  prune_markers = erase k m.prune_markers;
}

-- The loop over the outpoints, with those pruned so far; the first key that the tree refuses ends
-- it, and what was pruned before stays pruned.
unfoldable pub prune_outpoints :
    List OutPoint
    → List OutPoint
    → StateManager
    → Map OutPoint TxOutput
    → Result StateManagerError (List OutPoint) × StateManager × Map OutPoint TxOutput
prune_outpoints [] pruned m utxo = (ok pruned, m, utxo)
prune_outpoints (k ∷ ks) pruned m utxo = elim (lookup k m.outpoint_to_key) [
  | none ↦ prune_outpoints ks pruned m utxo
  | some key ↦
      let (r, tree) = prune_key key m.tree in
      elim r [
        | err e ↦ (err (cryptographic_error e), record m { tree = tree }, utxo)
        | ok _ ↦ prune_outpoints ks (pruned ++ k ∷ []) (forget_outpoint k tree m) (erase k utxo)
      ]
]

unfoldable pub execute_pruning_cycle :
    ℕ → StateManager → UtxoSet → Result StateManagerError (List OutPoint) × StateManager × UtxoSet
execute_pruning_cycle threshold m u =
    let (r, m', utxo) = prune_outpoints (keys_to_prune threshold m.prune_markers) [] m u.utxos in
    (r, m', record { utxos = utxo })

-- The sum of the values, checked in u128.
unfoldable pub sum_utxos : ℕ → Map OutPoint TxOutput → Option ℕ
sum_utxos total [] = some total
sum_utxos total ((_, o) ∷ m) =
    let rest = sum_utxos (total + o.value) m in
    if leb (total + o.value) u128_max then rest else none

unfoldable pub last_root : List StateSnapshot → Option ℕ
last_root [] = none
last_root (s ∷ ss) = elim ss [ [] ↦ some s.root | _ ↦ last_root ss ]

unfoldable pub cross_check_supply_consistency :
    Curve → StateManager → UtxoSet → Result StateManagerError (Unit {0}) × StateManager
cross_check_supply_consistency k m u =
    let (root, tree) = get_root k m.tree in
    elim (sum_utxos 0 u.utxos) [
      | none ↦ (err supply_cap_exceeded, m)
      | some total ↦
          if not (eqb total m.current_total_supply)
          then (err (apply_block_failed supply_mismatch), m)
          else elim (last_root m.snapshots) [
            | none ↦ (ok tt, record m { tree = tree })
            | some r ↦
                if not (eqb r root)
                then (err (apply_block_failed root_differs), record m { tree = tree })
                else (ok tt, record m { tree = tree })
          ]
    ]

-- The stable sort of the markers by their timestamps.
unfoldable pub insert_by_timestamp :
    OutPoint × PruneMarker → List (OutPoint × PruneMarker) → List (OutPoint × PruneMarker)
insert_by_timestamp (k, marker) [] = (k, marker) ∷ []
insert_by_timestamp (k, marker) ((j, other) ∷ r) =
    let rest = insert_by_timestamp (k, marker) r in
    if leb marker.timestamp other.timestamp then (k, marker) ∷ (j, other) ∷ r else (j, other) ∷ rest

unfoldable pub sort_by_timestamp : List (OutPoint × PruneMarker) → List (OutPoint × PruneMarker)
sort_by_timestamp [] = []
sort_by_timestamp (entry ∷ r) = insert_by_timestamp entry (sort_by_timestamp r)

unfoldable pub rebuild_state_root_and_prune_proofs : StateManager → ℕ × StateManager
rebuild_state_root_and_prune_proofs m =
    let pruned_count = length m.prune_markers - 1000 in
    (
      pruned_count,
      if eqb pruned_count 0
          then m
          else record m { prune_markers = take 1000 (sort_by_timestamp m.prune_markers) },
    )
