-- ===== src/Ghost/Choice.antt =====
-- The choice of a parent and of the best block in ghostdag.rs.
use klomang_network.Prelude.{
  ℕ, ◌≡◌, ◌≢◌, ◌⊎◌, inl, inr, true, false, ◌||◌, ◌&&◌, List, [], ◌∷◌, nat_eq, pair_eq, eqb, eqb_iff,
  arith, refl, sym, ◌∙◌, ap, Option, none, some, Option-cases,
}
use klomang_network.Prelude.Map.{lookup, contains_key}
use klomang_network.Prelude.Set
use klomang_network.Dag.{BlockNode, Dag, get_all_hashes}
use klomang_network.Ghost.{
  score_of, scored, stands_first, sort_scored, select_parent, max_scored, get_virtual_block,
}
use klomang_network.Ghost.Order.{
  Best, max_scored-Best, max_scored-none, head_of, head_of-sort_scored,
}

first_hash : Option (ℕ × ℕ) → Option ℕ
first_hash none = none
first_hash (some (h, _)) = some h

select_parent-max_scored :
    (d : Dag) (ps : List ℕ) → select_parent d ps ≡ first_hash (max_scored (scored d ps))
unfolding select_parent first_hash head_of
select_parent-max_scored d ps =
    by_head (sort_scored (scored d ps)) ∙ ap first_hash (head_of-sort_scored (scored d ps))
  where
    by_head :
        (xs : List (ℕ × ℕ))
        → (elim xs [ [] ↦ none | (h, _) ∷ _ ↦ some h ]) ≡ first_hash (head_of xs)
    by_head [] = refl
    by_head (x ∷ xs) = refl

contains-scored :
    (d : Dag) (ps : List ℕ) (h t : ℕ)
    → Set.contains (scored d ps) (h, t)
      ≡ (Set.contains ps h && (contains_key h d.blocks && eqb (score_of d h) t))
unfolding scored Set.contains
contains-scored d [] h t = refl
contains-scored d (p ∷ ps) h t = elim (Option-cases (lookup p d.blocks)) [
  | inl gone ↦ rw (gone, scored) (contains-scored d ps h t ∙ absent gone)
  | inr (b, e) ↦
      rw (e, scored)
        (ap (λ x. (eqb p h && eqb b.blue_score t) || x) (contains-scored d ps h t) ∙ present b e)
]
  where
    absent :
        lookup p d.blocks ≡ none
        → (Set.contains ps h && (contains_key h d.blocks && eqb (score_of d h) t))
          ≡ ((eqb p h || Set.contains ps h) && (contains_key h d.blocks && eqb (score_of d h) t))
    absent gone = ground (arith, eqb_iff p h)

    present :
        (b : BlockNode)
        → lookup p d.blocks ≡ some b
        → ((eqb p h && eqb b.blue_score t)
            || (Set.contains ps h && (contains_key h d.blocks && eqb (score_of d h) t)))
          ≡ ((eqb p h || Set.contains ps h) && (contains_key h d.blocks && eqb (score_of d h) t))
    present b e = ground (arith, eqb_iff p h)

-- The hash is one of those given, of a stored block, and stands first among those of stored blocks: by
-- a higher blue score, or by a smaller hash at the same score.
pub record IsChosen (d : Dag) (ps : List ℕ) (h : ℕ) : Type 0 where
  pub given : Set.contains ps h ≡ true
  pub stored : contains_key h d.blocks ≡ true
  pub first :
      (p : ℕ)
      → Set.contains ps p ≡ true
      → contains_key p d.blocks ≡ true
      → stands_first (h, score_of d h) (p, score_of d p) ≡ true

IsChosen-max :
    (d : Dag) (ps : List ℕ) (h t : ℕ) → max_scored (scored d ps) ≡ some (h, t) → IsChosen d ps h
IsChosen-max d ps h t e = record {
  given = here.0;
  stored = here.1;
  first = λ p g k. at_score (here.2) (p, score_of d p) (best.1 (p, score_of d p) (there p g k));
}
  where
    best : Best (scored d ps) (h, t)
    best = max_scored-Best (scored d ps) (h, t) e

    here : (Set.contains ps h ≡ true) × (contains_key h d.blocks ≡ true) × (score_of d h ≡ t)
    here = ground (arith, best.0, contains-scored d ps h t, eqb_iff (score_of d h) t)

    there :
        (p : ℕ)
        → Set.contains ps p ≡ true
        → contains_key p d.blocks ≡ true
        → Set.contains (scored d ps) (p, score_of d p) ≡ true
    there p g k =
        ground (arith, contains-scored d ps p (score_of d p), eqb_iff (score_of d p) (score_of d p))

    at_score :
        score_of d h ≡ t
        → (q : ℕ × ℕ) → stands_first (h, t) q ≡ true
        → stands_first (h, score_of d h) q ≡ true
    at_score e q f = rw (e) f

none_stored :
    (d : Dag) (ps : List ℕ) (p : ℕ)
    → max_scored (scored d ps) ≡ none
    → Set.contains ps p ≡ true
    → contains_key p d.blocks ≡ false
unfolding Set.contains
none_stored d ps p e g = ground (
  arith,
  contains-scored d ps p (score_of d p),
  ap (λ xs. Set.contains xs (p, score_of d p)) (max_scored-none (scored d ps) e),
  eqb_iff (score_of d p) (score_of d p),
)

-- The parent that is selected is the one of the highest blue score among the stored blocks, and of
-- those with that score the one of the smallest hash; none is selected only where none is stored.
pub select_parent-IsChosen :
    (d : Dag) (ps : List ℕ)
    → ((h : ℕ) × (select_parent d ps ≡ some h) × IsChosen d ps h)
      ⊎ ((select_parent d ps ≡ none)
          × ((p : ℕ) → Set.contains ps p ≡ true → contains_key p d.blocks ≡ false))
unfolding first_hash
select_parent-IsChosen d ps = elim (Option-cases (max_scored (scored d ps))) [
  | inl e ↦ inr (select_parent-max_scored d ps ∙ ap first_hash e, λ p g. none_stored d ps p e g)
  | inr ((h, t), e) ↦
      inl (h, select_parent-max_scored d ps ∙ ap first_hash e, IsChosen-max d ps h t e)
]

-- The block that `get_virtual_block` names is the parent that would be selected among all blocks: the
-- scan for the greatest and the sort agree. It is the genesis digest where the graph is empty.
pub get_virtual_block-select_parent :
    (genesis : ℕ) (d : Dag)
    → ((get_all_hashes d ≡ []) × (get_virtual_block genesis d ≡ some genesis))
      ⊎ ((get_all_hashes d ≢ [])
          × (get_virtual_block genesis d ≡ select_parent d (get_all_hashes d)))
unfolding get_virtual_block first_hash
get_virtual_block-select_parent genesis d = by_hashes (get_all_hashes d)
  where
    by_hashes :
        (hs : List ℕ)
        → ((hs ≡ [])
            × ((elim hs [
              | [] ↦ some genesis
              | h ∷ ts ↦ elim (max_scored (scored d (h ∷ ts))) [
                | none ↦ none
                | some (best, _) ↦ some best
              ]
            ])
                ≡ some genesis))
          ⊎ ((hs ≢ [])
              × ((elim hs [
                | [] ↦ some genesis
                | h ∷ ts ↦ elim (max_scored (scored d (h ∷ ts))) [
                  | none ↦ none
                  | some (best, _) ↦ some best
                ]
              ])
                  ≡ select_parent d hs))
    by_hashes [] = inl (refl, refl)
    by_hashes (h ∷ ts) = inr (
      (λ e. absurd (differ e)),
      at_first (max_scored (scored d (h ∷ ts))) ∙ sym (select_parent-max_scored d (h ∷ ts)),
    )
      where
        differ : (h ∷ ts) ≡ [] → ⊥
        differ e = ground arith

        at_first :
            (o : Option (ℕ × ℕ))
            → (elim o [ none ↦ none | some (best, _) ↦ some best ]) ≡ first_hash o
        at_first none = refl
        at_first (some x) = refl
