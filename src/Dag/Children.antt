-- ===== src/Dag/Children.antt =====
-- The loops of `add_block` in dag/mod.rs over the parents of the new block.
use klomang_network.Prelude.{
  ℕ, ◌≡◌, inl, inr, Bool, true, false, not, ◌||◌, ◌&&◌, List, [], ◌∷◌, nat_eq, eqb, eqb_iff, arith,
  refl, ◌∙◌, none, some, Option-cases,
}
use klomang_network.Prelude.Map.{Map, lookup, insert, contains_key, lookup-insert}
use klomang_network.Prelude.Set
use klomang_network.Dag.{
  BlockNode, parents_of, children_of, add_child, with_child, remove_all, all_stored,
}

pub parents_of-add_child :
    (k id : ℕ) (m : Map ℕ BlockNode) (ps : List ℕ)
    → parents_of (add_child id m ps) k ≡ parents_of m k
unfolding add_child
parents_of-add_child k id m [] = refl
parents_of-add_child k id m (p ∷ ps) = elim (Option-cases (lookup p m)) [
  | inl gone ↦ rw (gone) (parents_of-add_child k id m ps)
  | inr (b, e) ↦ rw (e) (parents_of-add_child k id (insert p (with_child id b) m) ps ∙ one b e)
]
  where
    one :
        (b : BlockNode)
        → lookup p m ≡ some b
        → parents_of (insert p (with_child id b) m) k ≡ parents_of m k
    one b e = ground (arith, lookup-insert p k (with_child id b) m, eqb_iff p k)

pub contains_key-add_child :
    (k id : ℕ) (m : Map ℕ BlockNode) (ps : List ℕ)
    → contains_key k (add_child id m ps) ≡ contains_key k m
unfolding add_child
contains_key-add_child k id m [] = refl
contains_key-add_child k id m (p ∷ ps) = elim (Option-cases (lookup p m)) [
  | inl gone ↦ rw (gone) (contains_key-add_child k id m ps)
  | inr (b, e) ↦ rw (e) (contains_key-add_child k id (insert p (with_child id b) m) ps ∙ one b e)
]
  where
    one :
        (b : BlockNode)
        → lookup p m ≡ some b
        → contains_key k (insert p (with_child id b) m) ≡ contains_key k m
    one b e = ground (arith, lookup-insert p k (with_child id b) m, eqb_iff p k)

pub children_of-add_child :
    (k c id : ℕ) (m : Map ℕ BlockNode) (ps : List ℕ)
    → Set.contains (children_of (add_child id m ps) k) c
      ≡ (Set.contains (children_of m k) c || (contains_key k m && (Set.contains ps k && eqb id c)))
unfolding add_child Set.contains
children_of-add_child k c id m [] = none_added (Set.contains (children_of m k) c) (contains_key k m)
  where
    none_added : (a b : Bool) → a ≡ (a || (b && false))
    none_added a b = ground arith
children_of-add_child k c id m (p ∷ ps) = elim (Option-cases (lookup p m)) [
  | inl gone ↦ rw (gone) (children_of-add_child k c id m ps ∙ absent gone)
  | inr (b, e) ↦ rw (e) (children_of-add_child k c id (insert p (with_child id b) m) ps ∙ one b e)
]
  where
    absent :
        lookup p m ≡ none
        → (Set.contains (children_of m k) c
            || (contains_key k m && (Set.contains ps k && eqb id c)))
          ≡ (Set.contains (children_of m k) c
              || (contains_key k m && ((eqb p k || Set.contains ps k) && eqb id c)))
    absent e = ground (arith, eqb_iff p k)

    one :
        (b : BlockNode)
        → lookup p m ≡ some b
        → (Set.contains (children_of (insert p (with_child id b) m) k) c
            || (contains_key k (insert p (with_child id b) m) && (Set.contains ps k && eqb id c)))
          ≡ (Set.contains (children_of m k) c
              || (contains_key k m && ((eqb p k || Set.contains ps k) && eqb id c)))
    one b e = ground (
      arith,
      lookup-insert p k (with_child id b) m,
      eqb_iff p k,
      Set.contains-insert id c b.children,
    )

pub contains-remove_all :
    (k : ℕ) (ps tips : List ℕ)
    → Set.contains (remove_all ps tips) k ≡ (Set.contains tips k && not (Set.contains ps k))
unfolding remove_all Set.contains
contains-remove_all k [] tips = ground arith
contains-remove_all k (p ∷ ps) tips =
    ground (arith, contains-remove_all k ps (Set.remove p tips), Set.contains-remove p k tips)

pub all_stored_lem :
    (m : Map ℕ BlockNode) (ps : List ℕ) (p : ℕ)
    → all_stored m ps ≡ true
    → Set.contains ps p ≡ true
    → contains_key p m ≡ true
unfolding all_stored Set.contains
all_stored_lem m [] p h e = ground arith
all_stored_lem m (q ∷ ps) p h e = ground (arith, all_stored_lem m ps p, eqb_iff q p)

pub all_stored-intro :
    (m : Map ℕ BlockNode) (ps : List ℕ)
    → ((p : ℕ) → Set.contains ps p ≡ true → contains_key p m ≡ true)
    → all_stored m ps ≡ true
unfolding all_stored Set.contains
all_stored-intro m [] h = refl
all_stored-intro m (p ∷ ps) h =
    ground (arith, h p (head p ps), all_stored-intro m ps (λ q e. h q (rest q e)))
  where
    head : (p : ℕ) (ps : List ℕ) → Set.contains (p ∷ ps) p ≡ true
    head p ps = ground (arith, eqb_iff p p)

    rest : (q : ℕ) → Set.contains ps q ≡ true → Set.contains (p ∷ ps) q ≡ true
    rest q e = ground arith
