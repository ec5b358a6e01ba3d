-- ===== src/Ghost/Rewritten.antt =====
-- What `recompute_block` of ghostdag.rs writes.
use klomang_network.Prelude.{
  ℕ, ◌+◌, ◌%◌, ◌^◌, ◌≡◌, Bool, true, false, not, List, [], ◌∷◌, nat_eq, length, Option, none, some,
  if◌then◌else◌,
}
use klomang_network.Prelude.Map.{lookup}
use klomang_network.Prelude.Set
use klomang_network.Prelude.Sort.{sort}
use klomang_network.Dag.{BlockNode, Dag, all_stored}
use klomang_network.Ghost.{GhostDag, select_parent, build_blue_set, score_of, update}

-- The block in the place of `b` holds the colouring computed from the selected parent, and is the
-- same block otherwise; the sets are those computed up to the order of their members.
pub record Holds (d : Dag) (b c : BlockNode) (selected : ℕ) (blue red : List ℕ) : Type 0 where
  pub parent : c.selected_parent ≡ some selected
  pub blue_set : (x : ℕ) → Set.contains c.blue_set x ≡ Set.contains blue x
  pub red_set : (x : ℕ) → Set.contains c.red_set x ≡ Set.contains red x
  pub score : c.blue_score ≡ (score_of d selected + length blue) % 2 ^ 64
  pub header : c.header ≡ b.header
  pub children : c.children ≡ b.children
  pub transactions : c.transactions ≡ b.transactions

-- A stored block whose parents are all stored holds, after it, what was computed.
pub Rewritten : GhostDag → Dag → ℕ → Dag → Type 0
Rewritten g d hash after =
    (b : BlockNode) (p : ℕ) (ps : List ℕ)
    → lookup hash d.blocks ≡ some b
    → b.header.parents ≡ p ∷ ps
    → all_stored d.blocks (p ∷ ps) ≡ true
    → (selected : ℕ) × (blue : List ℕ) × (red : List ℕ) × (c : BlockNode) × (select_parent d
          (sort (p ∷ ps))
        ≡ some selected)
      × (build_blue_set g d selected ≡ some (blue, red))
      × (lookup hash after.blocks ≡ some c)
      × Holds d b c selected blue red

-- The part of `recompute_block` on the parents of the stored block.
abbrev by_parents : GhostDag → Dag → ℕ → BlockNode → List ℕ → Option (Bool × Dag)
by_parents g d hash b parents = elim parents [
  | [] ↦ some (false, d)
  | p ∷ ps ↦
      if not (all_stored d.blocks (p ∷ ps))
      then some (false, d)
      else elim (select_parent d (sort (p ∷ ps))) [
        | none ↦ some (false, d)
        | some selected ↦ elim (build_blue_set g d selected) [
          | none ↦ none
          | some (blue, red) ↦ some (update d hash b selected blue red)
        ]
      ]
]
