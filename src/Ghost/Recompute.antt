-- ===== src/Ghost/Recompute.antt =====
-- `recompute_block` of ghostdag.rs and the links of the graph.
use klomang_network.Prelude.{
  ◌⊎◌, inl, inr, ℕ, ◌≡◌, ◌≢◌, Bool, true, false, not, List, [], ◌∷◌, nat_eq, eqb_iff, arith, refl,
  Bool-cases, sym, ◌∙◌, ap, if◌then◌else◌, Option, none, some, Option-cases,
}
use klomang_network.Prelude.Map.{lookup, insert, contains_key, lookup-insert}
use klomang_network.Prelude.Set
use klomang_network.Prelude.Sort.{sort}
use klomang_network.Dag.{BlockNode, Dag, parents_of, children_of, all_stored}
use klomang_network.Dag.Insert.{IsLinked}
use klomang_network.Ghost.{
  GhostDag, select_parent, build_blue_set, unchanged, recoloured, update, recompute_block,
}
use klomang_network.Ghost.Colours.{build_blue_set-Coloured}

-- The second graph differs in the colouring of the block alone.
pub record Recoloured (d : Dag) (hash : ℕ) (after : Dag) : Type 0 where
  pub same_tips : after.tips ≡ d.tips
  pub others : (j : ℕ) → hash ≢ j → lookup j after.blocks ≡ lookup j d.blocks
  pub same_keys : (j : ℕ) → contains_key j after.blocks ≡ contains_key j d.blocks
  pub same_parents : (j : ℕ) → parents_of after.blocks j ≡ parents_of d.blocks j
  pub same_children : (j : ℕ) → children_of after.blocks j ≡ children_of d.blocks j

Recoloured-same : (d : Dag) (hash : ℕ) → Recoloured d hash d
Recoloured-same d hash = record {
  same_tips = refl;
  others = λ j n. refl;
  same_keys = λ j. refl;
  same_parents = λ j. refl;
  same_children = λ j. refl;
}

Recoloured-IsLinked :
    (d : Dag) (hash : ℕ) (after : Dag) → Recoloured d hash after → IsLinked d → IsLinked after
Recoloured-IsLinked d hash after r l = record {
  stored = λ k p h.
      r.same_keys p ∙ l.stored k p (ap (λ ps. Set.contains ps p) (sym (r.same_parents k)) ∙ h);
  linked = λ k p.
      ap (λ cs. Set.contains cs k) (r.same_children p)
      ∙ l.linked k p
      ∙ ap (λ ps. Set.contains ps p) (sym (r.same_parents k));
  childless = λ k. (
    (λ h. forth k ((l.childless k).0 (tip k h))),
    (λ (h, e). back k (
        (l.childless k).1 (
          sym (r.same_keys k) ∙ h,
          λ c. ap (λ cs. Set.contains cs c) (sym (r.same_children k)) ∙ e c,
        ))),
  );
}
  where
    tip : (k : ℕ) → Set.contains after.tips k ≡ true → Set.contains d.tips k ≡ true
    tip k h = ap (λ ts. Set.contains ts k) (sym r.same_tips) ∙ h

    back : (k : ℕ) → Set.contains d.tips k ≡ true → Set.contains after.tips k ≡ true
    back k h = ap (λ ts. Set.contains ts k) r.same_tips ∙ h

    forth :
        (k : ℕ)
        → (contains_key k d.blocks ≡ true)
          × ((c : ℕ) → Set.contains (children_of d.blocks k) c ≡ false)
        → (contains_key k after.blocks ≡ true)
          × ((c : ℕ) → Set.contains (children_of after.blocks k) c ≡ false)
    forth k (h, e) =
        (r.same_keys k ∙ h, λ c. ap (λ cs. Set.contains cs c) (r.same_children k) ∙ e c)

-- A block of the same header and the same children in the place of another.
replaced-Recoloured :
    (d : Dag) (hash : ℕ) (b c : BlockNode)
    → lookup hash d.blocks ≡ some b
    → c.header ≡ b.header
    → c.children ≡ b.children
    → Recoloured d hash (record d { blocks = insert hash c d.blocks })
replaced-Recoloured d hash b c e same_header same_children = record {
  same_tips = refl;
  others = λ j n. other j n;
  same_keys = λ j. ground (arith, lookup-insert hash j c d.blocks, eqb_iff hash j);
  same_parents = λ j. parents j;
  same_children = λ j. children j;
}
  where
    other : (j : ℕ) → hash ≢ j → lookup j (insert hash c d.blocks) ≡ lookup j d.blocks
    other j n = ground (arith, lookup-insert hash j c d.blocks, eqb_iff hash j)

    parents : (j : ℕ) → parents_of (insert hash c d.blocks) j ≡ parents_of d.blocks j
    parents j =
        ground
          (arith, lookup-insert hash j c d.blocks, eqb_iff hash j, ap (λ h. h.parents) same_header)

    children : (j : ℕ) → children_of (insert hash c d.blocks) j ≡ children_of d.blocks j
    children j = ground (arith, lookup-insert hash j c d.blocks, eqb_iff hash j, same_children)

update-Recoloured :
    (d : Dag) (hash : ℕ) (b : BlockNode) (p : ℕ) (blue red : List ℕ)
    → lookup hash d.blocks ≡ some b
    → Recoloured d hash (update d hash b p blue red).1
      × ((update d hash b p blue red).0 ≡ false → (update d hash b p blue red).1 ≡ d)
unfolding update
update-Recoloured d hash b p blue red e = elim (Bool-cases (unchanged d b p blue red)) [
  | inl same ↦ rw (same) (Recoloured-same d hash, λ h. refl)
  | inr new ↦
      rw (new) (
        replaced-Recoloured d hash b (recoloured d b p blue red) e refl refl,
        λ h. absurd (clash h),
      )
]
  where
    clash : true ≡ false → ⊥
    clash h = cc

-- How a recomputation can end.
abbrev Ends : Dag → ℕ → Option (Bool × Dag) → Type 0
Ends d hash out =
    (changed : Bool) × (after : Dag) × (out ≡ some (changed, after))
    × Recoloured d hash after
    × (changed ≡ false → after ≡ d)

stays : (d : Dag) (hash : ℕ) → Ends d hash (some (false, d))
stays d hash = (false, d, refl, Recoloured-same d hash, λ h. refl)

coloured_anew :
    (g : GhostDag) (d : Dag) (hash : ℕ) (b : BlockNode) (p : ℕ)
    → lookup hash d.blocks ≡ some b
    → Ends d hash (elim (build_blue_set g d p) [
      | none ↦ none
      | some (blue, red) ↦ some (update d hash b p blue red)
    ])
coloured_anew g d hash b p e =
    let (_, blue, red, _, out, _) = build_blue_set-Coloured g d p in
    let (r, same) = update-Recoloured d hash b p blue red e in
    ((update d hash b p blue red).0, (update d hash b p blue red).1, rw (out) refl, r, same)

recompute_block-Ends : (g : GhostDag) (d : Dag) (hash : ℕ) → Ends d hash (recompute_block g d hash)
unfolding recompute_block
recompute_block-Ends g d hash = elim (Option-cases (lookup hash d.blocks)) [
  | inl gone ↦ rw (gone, recompute_block) (stays d hash)
  | inr (b, e) ↦ rw (e, recompute_block) (by_parents b e b.header.parents)
]
  where
    chosen :
        (b : BlockNode)
        → lookup hash d.blocks ≡ some b
        → (o : Option ℕ)
        → Ends d hash (elim o [
          | none ↦ some (false, d)
          | some p ↦ elim (build_blue_set g d p) [
            | none ↦ none
            | some (blue, red) ↦ some (update d hash b p blue red)
          ]
        ])
    chosen b e none = stays d hash
    chosen b e (some p) = coloured_anew g d hash b p e

    by_parents :
        (b : BlockNode)
        → lookup hash d.blocks ≡ some b
        → (ps : List ℕ)
        → Ends d hash (elim ps [
          | [] ↦ some (false, d)
          | p ∷ ps ↦
              if not (all_stored d.blocks (p ∷ ps))
              then some (false, d)
              else elim (select_parent d (sort (p ∷ ps))) [
                | none ↦ some (false, d)
                | some p ↦ elim (build_blue_set g d p) [
                  | none ↦ none
                  | some (blue, red) ↦ some (update d hash b p blue red)
                ]
              ]
        ])
    by_parents b e [] = stays d hash
    by_parents b e (p ∷ ps) = elim (Bool-cases (all_stored d.blocks (p ∷ ps))) [
      | inl known ↦ rw (known) (chosen b e (select_parent d (sort (p ∷ ps))))
      | inr unknown ↦ rw (unknown) (stays d hash)
    ]

-- From a linked graph a recomputation always ends, in a linked graph with the same tips and links, in
-- which no other block has changed; where it reports no change the graph is the same.
pub recompute_block-IsLinked :
    (g : GhostDag) (d : Dag) (hash : ℕ)
    → IsLinked d
    → (changed : Bool) × (after : Dag) × (recompute_block g d hash ≡ some (changed, after))
      × IsLinked after
      × Recoloured d hash after
      × ((changed ≡ true) ⊎ (after ≡ d))
recompute_block-IsLinked g d hash l =
    let (changed, after, out, r, same) = recompute_block-Ends g d hash in
    (
      changed,
      after,
      out,
      Recoloured-IsLinked d hash after r l,
      r,
      elim (Bool-cases changed) [ inl y ↦ inl y | inr n ↦ inr (same n) ],
    )
