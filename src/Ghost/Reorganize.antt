-- ===== src/Ghost/Reorganize.antt =====
-- `can_reorganize` of klomang-core/src/core/consensus/ghostdag.rs.
use klomang_network.Prelude.{
  ℕ, zero, suc, ◌+◌, ◌≡◌, inl, inr, Bool, true, false, Option, none, some, List, leb, nat_eq,
  if◌then◌else◌, arith, Bool-cases, Option-cases,
}
use klomang_network.Prelude.Map.{lookup}
use klomang_network.Prelude.Set
use klomang_network.Prelude.Result.{Result, ok, err, Result-cases}
use klomang_network.Dag.{Dag}
use klomang_network.Ghost.{GhostDag, VirtualBlock, build_virtual_block, finality_depth}

pub data ReorgFault : Type 0 where
  block_not_found chain_too_deep : ReorgFault

unfoldable pub selected_parent_of : Dag → ℕ → Option ℕ
selected_parent_of d hash = elim (lookup hash d.blocks) [ none ↦ none | some b ↦ b.selected_parent ]

-- The loop along the selected parents, with as many rounds as are left below the bound.
unfoldable pub depth_to : Dag → List ℕ → ℕ → ℕ → Option ℕ → Result ReorgFault ℕ
depth_to d parents left depth none = ok depth
depth_to d parents zero depth (some hash) =
    if Set.contains parents hash then ok depth else err chain_too_deep
depth_to d parents (suc left) depth (some hash) =
    let rest = depth_to d parents left (depth + 1) (selected_parent_of d hash) in
    if Set.contains parents hash then ok depth else rest

-- The bound is met in the round whose depth passes 10000.
unfoldable pub can_reorganize : GhostDag → Dag → ℕ → Option (Result ReorgFault Bool)
can_reorganize g d target = elim (build_virtual_block g d) [
  | none ↦ none
  | some v ↦ elim (lookup target d.blocks) [
    | none ↦ some (err block_not_found)
    | some b ↦ elim (depth_to d v.parents 10000 0 (some target)) [
      | err e ↦ some (err e)
      | ok depth ↦ some (ok (leb depth finality_depth))
    ]
  ]
]

-- So many selected parents lead to a parent of the virtual block, or to the end of the chain.
pub data Leads (d : Dag) (parents : List ℕ) : ℕ → Option ℕ → Type 0 where
  ended : Leads d parents 0 none
  met : {hash : ℕ} → Set.contains parents hash ≡ true → Leads d parents 0 (some hash)
  above :
      {n hash : ℕ}
      → Set.contains parents hash ≡ false
      → Leads d parents n (selected_parent_of d hash)
      → Leads d parents (suc n) (some hash)

depth_to-Leads :
    (d : Dag) (parents : List ℕ) (left depth end : ℕ) (current : Option ℕ)
    → depth_to d parents left depth current ≡ ok end
    → (n : ℕ) × (depth + n ≡ end) × Leads d parents n current
unfolding depth_to
depth_to-Leads d parents left depth end none h =
    let same : depth ≡ end = ground (arith, h) in (0, omega (arith, same), ended)
depth_to-Leads d parents zero depth end (some hash) h =
    elim (Bool-cases (Set.contains parents hash)) [
      | inl e ↦ let same : depth ≡ end = ground (arith, h, e) in (0, omega (arith, same), met e)
      | inr e ↦ absurd (ground (arith, h, e))
    ]
depth_to-Leads d parents (suc left) depth end (some hash) h =
    elim (Bool-cases (Set.contains parents hash)) [
      | inl e ↦ let same : depth ≡ end = ground (arith, h, e) in (0, omega (arith, same), met e)
      | inr e ↦
          let (n, sum, rest) =
            depth_to-Leads d parents left (depth + 1) end (selected_parent_of d hash)
              (ground (arith, h, e)) in
          (suc n, omega (arith, sum), above e rest)
    ]

-- An answer of `can_reorganize` says whether as many selected parents as lead from the target to a
-- parent of the virtual block, or to the end of its chain, are within the finality depth.
pub can_reorganize-Leads :
    (g : GhostDag) (d : Dag) (target : ℕ) (answer : Bool)
    → can_reorganize g d target ≡ some (ok answer)
    → (v : VirtualBlock) × (n : ℕ) × (build_virtual_block g d ≡ some v)
      × Leads d v.parents n (some target)
      × (answer ≡ leb n finality_depth)
unfolding can_reorganize
can_reorganize-Leads g d target answer h = elim (Option-cases (build_virtual_block g d)) [
  | inl e ↦ absurd (ground (arith, h, e))
  | inr (v, e) ↦ elim (Option-cases (lookup target d.blocks)) [
    | inl f ↦ absurd (ground (arith, h, e, f))
    | inr (b, f) ↦ elim (Result-cases (depth_to d v.parents 10000 0 (some target))) [
      | inr (x, r) ↦ absurd (ground (arith, h, e, f, r))
      | inl (depth, r) ↦
          let (n, sum, leads) = depth_to-Leads d v.parents 10000 0 depth (some target) r in
          let same : n ≡ depth = omega (arith, sum) in
          (v, n, e, leads, rw same (ground (arith, h, e, f, r)))
    ]
  ]
]
