-- ===== src/Dag/Insert.antt =====
-- `add_block` of dag/mod.rs and the links of the graph.
use klomang_network.Prelude.{
  ℕ, ◌≡◌, ◌≢◌, ◌↔◌, ◌⊎◌, inl, inr, Bool, true, false, not, ◌||◌, ◌&&◌, List, [], nat_eq, eqb,
  eqb_iff, arith, refl, Bool-cases, ◌∙◌, if◌then◌else◌,
}
use klomang_network.Prelude.Map.{lookup, Map, insert, contains_key, lookup-insert}
use klomang_network.Prelude.Set
use klomang_network.Prelude.Result.{Result, ok, err}
use klomang_network.Prelude.Sort.{sort, contains-sort}
use klomang_network.Dag.{
  new, BlockNode, Dag, DagError, duplicate_block, self_parent, genesis_exists, invalid_parent,
  parents_of, children_of, add_child, remove_all, all_stored, inserted, add_block, is_empty,
}
use klomang_network.Dag.Children.{
  parents_of-add_child, contains_key-add_child, children_of-add_child, contains-remove_all,
  all_stored_lem, all_stored-intro,
}

-- Parents are stored, the children are the converse of the parents, and the tips are the stored
-- blocks that have no children.
pub record IsLinked (d : Dag) : Type 0 where
  pub stored :
      (k p : ℕ) → Set.contains (parents_of d.blocks k) p ≡ true → contains_key p d.blocks ≡ true
  pub linked :
      (k p : ℕ) → Set.contains (children_of d.blocks p) k ≡ Set.contains (parents_of d.blocks k) p
  pub childless :
      (k : ℕ)
      → (Set.contains d.tips k ≡ true) ↔ (
          (contains_key k d.blocks ≡ true)
          × ((c : ℕ) → Set.contains (children_of d.blocks k) c ≡ false))

-- The empty graph is linked.
pub IsLinked-new : IsLinked new
unfolding new lookup Set.contains
IsLinked-new = record {
  stored = λ k p h. absurd (clash h);
  linked = λ k p. refl;
  childless = λ k. ((λ h. absurd (clash h)), (λ (h, _). absurd (clash h)));
}
  where
    clash : false ≡ true → ⊥
    clash h = cc

module _ (d : Dag) (block : BlockNode) (l : IsLinked d) (no_children : block.children ≡ [])
    (new : contains_key block.header.id d.blocks ≡ false)
    (other : Set.contains block.header.parents block.header.id ≡ false)
    (known : all_stored d.blocks block.header.parents ≡ true) where
  abbrev id : ℕ
  id = block.header.id

  abbrev ps : List ℕ
  ps = block.header.parents

  abbrev after : Map ℕ BlockNode
  after = add_child id (insert id block d.blocks) (sort ps)

  parents_after : (k : ℕ) → parents_of after k ≡ (if eqb id k then ps else parents_of d.blocks k)
  parents_after k = parents_of-add_child k id (insert id block d.blocks) (sort ps) ∙ one
    where
      one :
          parents_of (insert id block d.blocks) k ≡ (if eqb id k then ps else parents_of d.blocks k)
      one = ground (arith, lookup-insert id k block d.blocks)

  stored_after : (k : ℕ) → contains_key k after ≡ (eqb id k || contains_key k d.blocks)
  stored_after k = contains_key-add_child k id (insert id block d.blocks) (sort ps) ∙ one
    where
      one : contains_key k (insert id block d.blocks) ≡ (eqb id k || contains_key k d.blocks)
      one = ground (arith, lookup-insert id k block d.blocks)

  children_after :
      (k c : ℕ)
      → Set.contains (children_of after k) c
        ≡ (Set.contains (children_of d.blocks k) c || (Set.contains ps k && eqb id c))
  unfolding Set.contains
  children_after k c = children_of-add_child k c id (insert id block d.blocks) (sort ps) ∙ one
    where
      one :
          (Set.contains (children_of (insert id block d.blocks) k) c
            || (contains_key k (insert id block d.blocks)
                && (Set.contains (sort ps) k && eqb id c)))
          ≡ (Set.contains (children_of d.blocks k) c || (Set.contains ps k && eqb id c))
      one = ground (
        arith,
        lookup-insert id k block d.blocks,
        eqb_iff id k,
        contains-sort k ps,
        all_stored_lem d.blocks ps k known,
      )

  inserted-stored :
      (k p : ℕ) → Set.contains (parents_of after k) p ≡ true → contains_key p after ≡ true
  inserted-stored k p h =
      ground
        (arith, parents_after k, stored_after p, l.stored k p, all_stored_lem d.blocks ps p known)

  no_parents : parents_of d.blocks id ≡ []
  no_parents = ground arith

  inserted-linked :
      (k p : ℕ) → Set.contains (children_of after p) k ≡ Set.contains (parents_of after k) p
  unfolding Set.contains
  inserted-linked k p =
      ground (arith, parents_after k, children_after p k, l.linked k p, no_parents, eqb_iff id k)

  abbrev tips_after : List ℕ
  tips_after = Set.insert id (remove_all ps d.tips)

  contains-tips_after :
      (k : ℕ)
      → Set.contains tips_after k ≡ (eqb id k || (Set.contains d.tips k && not (Set.contains ps k)))
  contains-tips_after k =
      ground
        (arith, Set.contains-insert id k (remove_all ps d.tips), contains-remove_all k ps d.tips)

  inserted-childless :
      (k : ℕ)
      → (Set.contains tips_after k ≡ true)
        ↔ ((contains_key k after ≡ true) × ((c : ℕ) → Set.contains (children_of after k) c ≡ false))
  inserted-childless k = (forth, λ (h, e). back h e (e id))
    where
      unstored :
          (c : ℕ) → contains_key k d.blocks ≡ false → Set.contains (parents_of d.blocks c) k ≡ false
      unstored c h = ground (arith, l.stored c k)

      fresh : (c : ℕ) → eqb id k ≡ true → Set.contains (children_of after k) c ≡ false
      fresh c h = ground (arith, children_after k c, l.linked c k, unstored c, eqb_iff id k)

      kept :
          (c : ℕ)
          → Set.contains d.tips k ≡ true
          → Set.contains ps k ≡ false
          → Set.contains (children_of after k) c ≡ false
      kept c h n = ground (arith, children_after k c, ((l.childless k).0 h).1 c)

      forth :
          Set.contains tips_after k ≡ true
          → (contains_key k after ≡ true) × ((c : ℕ) → Set.contains (children_of after k) c ≡ false)
      forth h = elim (cases h) [
        | inl own ↦ (ground (arith, stored_after k), λ c. fresh c own)
        | inr (t, n) ↦ (ground (arith, stored_after k, ((l.childless k).0 t).0), λ c. kept c t n)
      ]
        where
          cases :
              Set.contains tips_after k ≡ true
              → (eqb id k ≡ true) ⊎ ((Set.contains d.tips k ≡ true) × (Set.contains ps k ≡ false))
          cases h = ground (arith, contains-tips_after k)

      back :
          contains_key k after ≡ true
          → ((c : ℕ) → Set.contains (children_of after k) c ≡ false)
          → Set.contains (children_of after k) id ≡ false
          → Set.contains tips_after k ≡ true
      back h e at_id = elim (Bool-cases (eqb id k)) [
        | inl own ↦ ground (arith, contains-tips_after k)
        | inr differ ↦ ground (arith, contains-tips_after k, tip differ, free)
      ]
        where
          free : Set.contains ps k ≡ false
          free = ground (arith, children_after k id, eqb_iff id id)

          none_below :
              (c : ℕ)
              → Set.contains (children_of after k) c ≡ false
              → Set.contains (children_of d.blocks k) c ≡ false
          none_below c g = ground (arith, children_after k c)

          tip : eqb id k ≡ false → Set.contains d.tips k ≡ true
          tip n = (l.childless k).1 (ground (arith, stored_after k), λ c. none_below c (e c))

  inserted-IsLinked : IsLinked (inserted d block)
  unfolding inserted
  inserted-IsLinked = record {
    stored = inserted-stored;
    linked = inserted-linked;
    childless = inserted-childless;
  }

add_block-cases :
    (d : Dag) (block : BlockNode) (out : Result DagError Unit) (after : Dag)
    → add_block d block ≡ (out, after)
    → ((after ≡ d) × (out ≢ ok tt))
      ⊎ ((out ≡ ok tt)
          × (after ≡ inserted d block)
          × (contains_key block.header.id d.blocks ≡ false)
          × (Set.contains block.header.parents block.header.id ≡ false)
          × (all_stored d.blocks block.header.parents ≡ true))
unfolding add_block
add_block-cases d block out after h = ground arith

-- From a linked graph, a block without children is added or refused, and either way the graph is
-- linked: parents are stored, children are the converse of parents, and the tips are exactly the
-- stored blocks without children.
pub add_block-IsLinked :
    (d : Dag) (block : BlockNode)
    → IsLinked d
    → block.children ≡ []
    → IsLinked (add_block d block).1
add_block-IsLinked d block l none_yet =
    elim (add_block-cases d block (add_block d block).0 (add_block d block).1 refl) [
      | inl (same, refused) ↦ rw (same) l
      | inr (done, same, new, other, known) ↦
          rw (same) (inserted-IsLinked d block l none_yet new other known)
    ]

-- A block can be added: its hash is new, it is not its own parent, its parents are stored, and it has
-- a parent unless the graph is empty.
abbrev pub Fits : Dag → BlockNode → Type 0
Fits d block =
    (contains_key block.header.id d.blocks ≡ false)
    × (Set.contains block.header.parents block.header.id ≡ false)
    × ((p : ℕ) → Set.contains block.header.parents p ≡ true → contains_key p d.blocks ≡ true)
    × ((block.header.parents ≡ []) → d.blocks ≡ [])

-- `add_block` either accepts a block that fits and returns the graph with it, or refuses a block that
-- does not fit and returns the graph as it was.
pub add_block-Fits :
    (d : Dag) (block : BlockNode)
    → ((add_block d block ≡ (ok tt, inserted d block)) × Fits d block)
      ⊎ ((e : DagError) × (add_block d block ≡ (err e, d)) × (¬ Fits d block))
unfolding add_block
add_block-Fits d block = elim (Bool-cases (contains_key block.header.id d.blocks)) [
  | inl old ↦ inr (duplicate_block, rw (old) refl, λ (f, _, _, _). clash old f)
  | inr new ↦ elim (Bool-cases (Set.contains block.header.parents block.header.id)) [
    | inl own ↦ inr (self_parent, rw (new, own) refl, λ (_, f, _, _). clash own f)
    | inr other ↦ elim (Bool-cases (is_empty block.header.parents && not (is_empty d.blocks))) [
      | inl second ↦
          inr (genesis_exists, rw (new, other, second) refl, λ (_, _, _, f). clash second (first f))
      | inr fine ↦ elim (Bool-cases (all_stored d.blocks block.header.parents)) [
        | inl known ↦
            inl (rw (new, other, fine, known) refl, (new, other, all_stored_of known, rooted fine))
        | inr unknown ↦ inr (
          invalid_parent,
          rw (new, other, fine, unknown) refl,
          λ (_, _, f, _). clash (all_stored-intro d.blocks block.header.parents f) unknown,
        )
      ]
    ]
  ]
]
  where
    clash : {b : Bool} → b ≡ true → b ≡ false → ⊥
    clash e f = cc

    all_stored_of :
        all_stored d.blocks block.header.parents ≡ true
        → (p : ℕ) → Set.contains block.header.parents p ≡ true
        → contains_key p d.blocks ≡ true
    all_stored_of known p e = all_stored_lem d.blocks block.header.parents p known e

    first :
        (block.header.parents ≡ [] → d.blocks ≡ [])
        → (is_empty block.header.parents && not (is_empty d.blocks)) ≡ false
    first f = ground (arith, f)

    rooted :
        (is_empty block.header.parents && not (is_empty d.blocks)) ≡ false
        → block.header.parents ≡ []
        → d.blocks ≡ []
    rooted f e = ground arith
