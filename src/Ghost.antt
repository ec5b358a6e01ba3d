-- ===== src/Ghost.antt =====
-- Block colouring: klomang-core/src/core/consensus/ghostdag.rs and ordering.rs. What rests on an
-- anticone is an Option, as the search for one is.
pub mod Order
pub mod Choice
pub mod Colours
pub mod Clusters
pub mod Recompute
pub mod Rewritten
pub mod Validate
pub mod Valid
pub mod Reorganize
mod Tests
use klomang_network.Prelude.{
  ℕ, zero, suc, ◌+◌, ◌-◌, ◌%◌, ◌^◌, min, max, Bool, true, false, not, ◌&&◌, ◌||◌, Option, none,
  some, List, [], ◌∷◌, eqb, ltb, leb, length, nat_eq, if◌then◌else◌,
}
use klomang_network.Prelude.Map.{lookup, insert}
use klomang_network.Prelude.Set
use klomang_network.Prelude.Sort.{sort}
use klomang_network.Dag.{
  BlockNode, Dag, get_block, get_tips, get_all_hashes, insert_each, all_stored,
}
use klomang_network.Dag.Cones.{get_anticone}

pub record GhostDag : Type 0 where
  pub k : ℕ

-- The load, which is floating point, and the time of its adjustment are left out.
pub new : ℕ → GhostDag
new k = record { k = max 1 (min k 64) }

pub record VirtualBlock : Type 0 where
  pub parents : List ℕ
  pub selected_parent : Option ℕ
  pub blue_set : List ℕ
  pub red_set : List ℕ
  pub blue_score : ℕ

abbrev pub score_of : Dag → ℕ → ℕ
score_of d h = elim (lookup h d.blocks) [ none ↦ 0 | some b ↦ b.blue_score ]

-- The hashes of stored blocks, with their scores.
pub scored : Dag → List ℕ → List (ℕ × ℕ)
scored d [] = []
scored d (h ∷ hs) = elim (lookup h d.blocks) [
  | none ↦ scored d hs
  | some b ↦ (h, b.blue_score) ∷ scored d hs
]

-- Higher scores stand first, and of equal scores the smaller hash.
abbrev pub stands_first : ℕ × ℕ → ℕ × ℕ → Bool
stands_first (h1, s1) (h2, s2) = ltb s2 s1 || (eqb s1 s2 && leb h1 h2)

pub insert_scored : ℕ × ℕ → List (ℕ × ℕ) → List (ℕ × ℕ)
insert_scored a [] = a ∷ []
insert_scored a (b ∷ bs) =
    let rest = insert_scored a bs in if stands_first a b then a ∷ b ∷ bs else b ∷ rest

pub sort_scored : List (ℕ × ℕ) → List (ℕ × ℕ)
sort_scored [] = []
sort_scored (a ∷ as') = insert_scored a (sort_scored as')

pub select_parent : Dag → List ℕ → Option ℕ
select_parent d parents = elim (sort_scored (scored d parents)) [ [] ↦ none | (h, _) ∷ _ ↦ some h ]

pub calculate_blue_score : Dag → ℕ → ℕ
calculate_blue_score d hash = elim (lookup hash d.blocks) [
  | none ↦ 0
  | some b ↦ elim b.header.parents [
    | [] ↦ 0
    | _ ↦ elim b.selected_parent [ none ↦ 0 | some p ↦ (score_of d p + length b.blue_set) % 2 ^ 64 ]
  ]
]

-- The members of the first that are in the second, counted.
pub count_in : List ℕ → List ℕ → ℕ
count_in [] blue = 0
count_in (x ∷ xs) blue = (if Set.contains blue x then 1 else 0) + count_in xs blue

-- The loop over the candidates.
pub colour : ℕ → Dag → List ℕ → List ℕ → List ℕ → Option (List ℕ × List ℕ)
colour k d blue red [] = some (blue, red)
colour k d blue red (candidate ∷ candidates) =
    let as_blue = colour k d (Set.insert candidate blue) red candidates in
    let as_red = colour k d blue (Set.insert candidate red) candidates in
    elim (get_anticone d candidate) [
      | none ↦ none
      | some anticone ↦ if leb (count_in (insert_each anticone []) blue) k then as_blue else as_red
    ]

-- The blue set of the selected parent, and itself.
pub inherited : Dag → ℕ → List ℕ
inherited d selected_parent = elim (lookup selected_parent d.blocks) [
  | none ↦ []
  | some b ↦ Set.insert selected_parent (insert_each b.blue_set [])
]

pub build_blue_set : GhostDag → Dag → ℕ → Option (List ℕ × List ℕ)
build_blue_set g d selected_parent = elim (get_anticone d selected_parent) [
  | none ↦ none
  | some candidates ↦ colour g.k d (inherited d selected_parent) [] candidates
]

subset : List ℕ → List ℕ → Bool
subset [] ys = true
subset (x ∷ xs) ys = Set.contains ys x && subset xs ys

abbrev same_set : List ℕ → List ℕ → Bool
same_set xs ys = subset xs ys && subset ys xs

abbrev same_parent : Option ℕ → ℕ → Bool
same_parent none p = false
same_parent (some q) p = eqb q p

abbrev pub new_score : Dag → ℕ → List ℕ → ℕ
new_score d selected_parent blue = (score_of d selected_parent + length blue) % 2 ^ 64

-- The stored values are those that were computed again.
pub unchanged : Dag → BlockNode → ℕ → List ℕ → List ℕ → Bool
unchanged d b selected_parent blue red =
    same_parent b.selected_parent selected_parent
    && (same_set b.blue_set blue
        && (same_set b.red_set red && eqb b.blue_score (new_score d selected_parent blue)))

abbrev pub recoloured : Dag → BlockNode → ℕ → List ℕ → List ℕ → BlockNode
recoloured d b selected_parent blue red = record b {
  selected_parent = some selected_parent;
  blue_set = blue;
  red_set = red;
  blue_score = new_score d selected_parent blue;
}

-- The write of the recomputed values, and whether one of them is new.
pub update : Dag → ℕ → BlockNode → ℕ → List ℕ → List ℕ → Bool × Dag
update d hash b selected_parent blue red =
    if unchanged d b selected_parent blue red then (false, d) else (
      true,
      record d { blocks = insert hash (recoloured d b selected_parent blue red) d.blocks },
    )

pub recompute_block : GhostDag → Dag → ℕ → Option (Bool × Dag)
recompute_block g d hash = elim (lookup hash d.blocks) [
  | none ↦ some (false, d)
  | some b ↦ elim b.header.parents [
    | [] ↦ some (false, d)
    | p ∷ ps ↦
        if not (all_stored d.blocks (p ∷ ps))
        then some (false, d)
        else elim (select_parent d (sort (p ∷ ps))) [
          | none ↦ some (false, d)
          | some selected_parent ↦ elim (build_blue_set g d selected_parent) [
            | none ↦ none
            | some (blue, red) ↦ some (update d hash b selected_parent blue red)
          ]
        ]
  ]
]

abbrev pub bare : List ℕ → VirtualBlock
bare parents = record {
  parents = parents;
  selected_parent = none;
  blue_set = [];
  red_set = [];
  blue_score = 0;
}

-- The branch for two blocks or more.
pub virtual_of_tips : GhostDag → Dag → Option VirtualBlock
virtual_of_tips g d = elim (select_parent d (get_tips d)) [
  | none ↦ some (bare (get_tips d))
  | some selected_parent ↦ elim (build_blue_set g d selected_parent) [
    | none ↦ none
    | some (blue, red) ↦ some (record {
      parents = get_tips d;
      selected_parent = some selected_parent;
      blue_set = blue;
      red_set = red;
      blue_score = (score_of d selected_parent + length blue) % 2 ^ 64;
    })
  ]
]

pub build_virtual_block : GhostDag → Dag → Option VirtualBlock
build_virtual_block g d = elim (get_all_hashes d) [
  | [] ↦ some (bare [])
  | h ∷ [] ↦ elim (lookup h d.blocks) [
    | none ↦ virtual_of_tips g d
    | some b ↦ some (record {
      parents = get_tips d;
      selected_parent = b.selected_parent;
      blue_set = b.blue_set;
      red_set = b.red_set;
      blue_score = b.blue_score;
    })
  ]
  | _ ↦ virtual_of_tips g d
]

-- `max_by` over the hashes: a higher score, and of equal scores the smaller hash.
pub max_scored : List (ℕ × ℕ) → Option (ℕ × ℕ)
max_scored [] = none
max_scored (a ∷ as') = elim (max_scored as') [
  | none ↦ some a
  | some b ↦ if stands_first b a then some b else some a
]

-- `genesis` is the digest of the bytes of that word.
pub get_virtual_block : (genesis : ℕ) → Dag → Option ℕ
get_virtual_block genesis d = elim (get_all_hashes d) [
  | [] ↦ some genesis
  | h ∷ hs ↦ elim (max_scored (scored d (h ∷ hs))) [ none ↦ none | some (best, _) ↦ some best ]
]

abbrev pub finality_depth : ℕ
finality_depth = 100

pub check_finality : GhostDag → Dag → ℕ → ℕ → Option Bool
check_finality g d hash finality_threshold = elim (build_virtual_block g d) [
  | none ↦ none
  | some v ↦ some (leb (max finality_threshold finality_depth) (v.blue_score - score_of d hash))
]
