-- ===== src/State/Pruned.antt =====
-- What a pruning cycle removes.
use klomang_network.Prelude.{
  ℕ, ◌≡◌, inl, inr, Bool, false, ◌&&◌, ◌||◌, none, some, List, [], ◌∷◌, ◌++◌, leb, if◌then◌else◌,
  ◌==◌, pair_eq, pair_equal_iff, arith, refl, Option-cases,
}
use klomang_network.Prelude.Map.{Map, lookup, erase, contains_key, lookup-erase, IsMap}
use klomang_network.Prelude.Set
use klomang_network.Prelude.Set.{contains-append}
use klomang_network.Prelude.Result.{Result, ok, err, Result-cases}
use klomang_network.Transaction.{TxOutput}
use klomang_network.Utxo.{OutPoint, UtxoSet}
use klomang_network.Verkle.{VerkleTree, prune_key}
use klomang_network.State.{StateManager, StateManagerError, PruneMarker, cryptographic_error}
use klomang_network.State.Prune.{
  keys_to_prune, forget_outpoint, prune_outpoints, execute_pruning_cycle,
}

-- Whether an outpoint's marker is due.
unfoldable pub is_due : ℕ → OutPoint → Map OutPoint PruneMarker → Bool
is_due threshold k markers = elim (lookup k markers) [
  | none ↦ false
  | some marker ↦ leb marker.epoch threshold
]

contains-keys_to_prune-none :
    (threshold : ℕ) (k : OutPoint) (m : Map OutPoint PruneMarker)
    → lookup k m ≡ none
    → Set.contains (keys_to_prune threshold m) k ≡ false
unfolding keys_to_prune Set.contains lookup
contains-keys_to_prune-none threshold k [] h = refl
contains-keys_to_prune-none threshold k ((j, marker) ∷ m) h =
    ground (arith, contains-keys_to_prune-none threshold k m)

contains-keys_to_prune :
    (threshold : ℕ) (k : OutPoint) (m : Map OutPoint PruneMarker)
    → IsMap m
    → Set.contains (keys_to_prune threshold m) k ≡ is_due threshold k m
unfolding keys_to_prune Set.contains lookup is_due
contains-keys_to_prune threshold k [] h = refl
contains-keys_to_prune threshold k ((j, marker) ∷ m) h = ground (
  arith,
  contains-keys_to_prune threshold k m h.1,
  contains-keys_to_prune-none threshold k m,
  pair_equal_iff j k,
  h.0,
)

-- An outpoint after a loop that pruned it or did not.
pub record IsSwept (k : OutPoint) (hit : Bool) (m m' : StateManager)
    (utxo utxo' : Map OutPoint TxOutput) : Type 0 where
  pub output : lookup k utxo' ≡ (if hit then none else lookup k utxo)
  pub key : lookup k m'.outpoint_to_key ≡ (if hit then none else lookup k m.outpoint_to_key)
  pub marker : lookup k m'.prune_markers ≡ (if hit then none else lookup k m.prune_markers)

-- What the loop should give from the outpoints pruned before.
Sweeps :
    OutPoint
    → List OutPoint
    → List OutPoint
    → StateManager
    → Map OutPoint TxOutput
    → Result StateManagerError (List OutPoint) × StateManager × Map OutPoint TxOutput
    → Type 0
Sweeps k ks pruned m utxo r =
    let hit = Set.contains ks k && contains_key k m.outpoint_to_key in
    (out : List OutPoint)
    → r.0 ≡ ok out
    → (Set.contains out k ≡ (Set.contains pruned k || hit)) × IsSwept k hit m r.1 utxo r.2

skip-Sweeps :
    (k j : OutPoint) (ks pruned : List OutPoint) (m : StateManager) (utxo : Map OutPoint TxOutput)
    (r : Result StateManagerError (List OutPoint) × StateManager × Map OutPoint TxOutput)
    → lookup j m.outpoint_to_key ≡ none
    → Sweeps k ks pruned m utxo r
    → Sweeps k (j ∷ ks) pruned m utxo r
unfolding Sweeps Set.contains
skip-Sweeps k j ks pruned m utxo r e h =
    let same : ((j == k) || Set.contains ks k) && contains_key k m.outpoint_to_key
        ≡ Set.contains ks k && contains_key k m.outpoint_to_key =
      ground (arith, e, pair_equal_iff j k) in
    rw same h

prune-Sweeps :
    (k j : OutPoint) (key : List ℕ) (ks pruned : List OutPoint) (tree : VerkleTree)
    (m : StateManager) (utxo : Map OutPoint TxOutput)
    (r : Result StateManagerError (List OutPoint) × StateManager × Map OutPoint TxOutput)
    → lookup j m.outpoint_to_key ≡ some key
    → Sweeps k ks (pruned ++ j ∷ []) (forget_outpoint j tree m) (erase j utxo) r
    → Sweeps k (j ∷ ks) pruned m utxo r
unfolding Sweeps Set.contains forget_outpoint
prune-Sweeps k j key ks pruned tree m utxo r e h out fine =
    let (found, swept) = h out fine in
    let split = lookup-erase j k m.outpoint_to_key in
    (
      ground (arith, found, contains-append k j pruned, e, split, pair_equal_iff j k),
      record {
        output = ground (arith, swept.output, lookup-erase j k utxo, e, split, pair_equal_iff j k);
        key = ground (arith, swept.key, e, split, pair_equal_iff j k);
        marker =
            ground
              (arith, swept.marker, lookup-erase j k m.prune_markers, e, split, pair_equal_iff j k);
      },
    )

nothing-Sweeps :
    (k : OutPoint) (pruned : List OutPoint) (m : StateManager) (utxo : Map OutPoint TxOutput)
    → Sweeps k [] pruned m utxo (ok pruned, m, utxo)
unfolding Sweeps Set.contains
nothing-Sweeps k pruned m utxo out e =
    (ground (arith, e), record { output = refl; key = refl; marker = refl })

refused-Sweeps :
    (k : OutPoint) (ks pruned : List OutPoint) (m m' : StateManager) (utxo : Map OutPoint TxOutput)
    (fault : StateManagerError)
    → Sweeps k ks pruned m utxo (err fault, m', utxo)
unfolding Sweeps
refused-Sweeps k ks pruned m m' utxo fault out e = absurd (ground (arith, e))

prune_outpoints-Sweeps :
    (k : OutPoint) (ks pruned : List OutPoint) (m : StateManager) (utxo : Map OutPoint TxOutput)
    → Sweeps k ks pruned m utxo (prune_outpoints ks pruned m utxo)
unfolding prune_outpoints
prune_outpoints-Sweeps k [] pruned m utxo = nothing-Sweeps k pruned m utxo
prune_outpoints-Sweeps k (j ∷ ks) pruned m utxo = elim (Option-cases (lookup j m.outpoint_to_key)) [
  | inl e ↦
      rw (e, prune_outpoints)
        (skip-Sweeps k j ks pruned m utxo (prune_outpoints ks pruned m utxo) e
          (prune_outpoints-Sweeps k ks pruned m utxo))
  | inr (key, e) ↦ elim (Result-cases (prune_key key m.tree).0) [
    | inr (fault, f) ↦
        rw (e, f, prune_outpoints)
          (refused-Sweeps k (j ∷ ks) pruned m (record m { tree = (prune_key key m.tree).1 }) utxo
            (cryptographic_error fault))
    | inl (a, f) ↦
        rw (e, f, prune_outpoints)
          (prune-Sweeps k j key ks pruned (prune_key key m.tree).1 m utxo
            (prune_outpoints ks (pruned ++ j ∷ []) (forget_outpoint j (prune_key key m.tree).1 m)
              (erase j utxo))
            e
            (prune_outpoints-Sweeps k ks (pruned ++ j ∷ [])
              (forget_outpoint j (prune_key key m.tree).1 m) (erase j utxo)))
  ]
]

-- A cycle that succeeds prunes exactly the outpoints whose marker is due and whose key is known:
-- they are gone from the outputs, the keys and the markers, and every other outpoint stays.
pub execute_pruning_cycle-IsSwept :
    (threshold : ℕ) (m : StateManager) (u : UtxoSet) (pruned : List OutPoint) (k : OutPoint)
    → IsMap m.prune_markers
    → (execute_pruning_cycle threshold m u).0 ≡ ok pruned
    → let hit = is_due threshold k m.prune_markers && contains_key k m.outpoint_to_key in
      let (r, m', u') = execute_pruning_cycle threshold m u in
      (Set.contains pruned k ≡ hit) × IsSwept k hit m m' u.utxos u'.utxos
unfolding execute_pruning_cycle Sweeps Set.contains
execute_pruning_cycle-IsSwept threshold m u pruned k keyed fine =
    let due = contains-keys_to_prune threshold k m.prune_markers keyed in
    rw⁻¹ due
      (prune_outpoints-Sweeps k (keys_to_prune threshold m.prune_markers) [] m u.utxos pruned fine)
