-- ===== src/State/Invariant.antt =====
-- The invariant of the manager: a sound tree, and a snapshot with its storage for each height.
use klomang_network.Prelude.{suc, ◌≡◌, length, refl, sym, ap, ◌∙◌}
use klomang_network.Verkle.{Curve, VerkleTree, storage_clone}
use klomang_network.Verkle.Roots.{state_root}
use klomang_network.Verkle.Steps.{IsTree, get_root-state_root}
use klomang_network.State.{StateManager, new}
use klomang_network.State.Snapshots.{Fit}

pub record IsManager (k : Curve) (m : StateManager) : Type 0 where
  pub tree : IsTree k m.tree
  pub count : length m.snapshots ≡ suc m.current_height
  pub fit : Fit k 0 m.snapshots m.snapshot_storages

-- The manager that a sound tree starts with.
pub new-IsManager : (k : Curve) (t : VerkleTree) → IsTree k t → IsManager k (new k t)
unfolding new Fit storage_clone
new-IsManager k t h =
    let g = get_root-state_root k t h in
    record {
      tree = g.1;
      count = refl;
      fit = (
        record { height = refl; root = g.0 ∙ ap (state_root k) (sym g.2); rooted = g.1.rooted },
        tt,
      );
    }
