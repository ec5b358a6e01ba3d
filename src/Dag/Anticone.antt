-- ===== src/Dag/Anticone.antt =====
-- What `get_descendants` and `get_anticone` of dag/mod.rs and dag/anticone.rs return.
use klomang_network.Prelude.{
  ℕ, zero, suc, ◌+◌, ◌<◌, ◌≡◌, ◌≢◌, ◌↔◌, inl, inr, Bool, true, false, not, ◌&&◌, List, [], ◌∷◌,
  length, nat_eq, eqb, eqb_iff, arith, refl, sym, ◌∙◌, ap, some,
}
use klomang_network.Prelude.Map.{Map, lookup, contains_key}
use klomang_network.Prelude.Set
use klomang_network.Prelude.Sort.{sort, contains-sort}
use klomang_network.Dag.{BlockNode, Dag, children_of, keys, get_all_hashes}
use klomang_network.Dag.Cones.{
  Walk, visit_children, collect_descendants, child_count, get_descendants, keep_apart, get_anticone,
}
use klomang_network.Dag.Descent.{Descends, Descends-next, walk}
use klomang_network.Dag.Unseen.{
  Descendant, child, below, Descendant-child, unseen, unseen-child_count, cost-visit_children,
}
use klomang_network.Dag.Graph.{Ancestor, parent, above, Ancestor-parent}
use klomang_network.Dag.Ancestors.{IsAncestry, get_ancestors-IsAncestry}
use klomang_network.Dag.Insert.{IsLinked}

-- The hashes are those reached by child links, other than the block's own.
abbrev pub IsProgeny : Map ℕ BlockNode → ℕ → List ℕ → Type 0
IsProgeny m id out = (k : ℕ) → (Set.contains out k ≡ true) ↔ ((k ≢ id) × Descendant m k id)

all_visited :
    (m : Map ℕ BlockNode) (id : ℕ) (descendants visited : List ℕ)
    → Descends m id (walk descendants [] visited)
    → (k : ℕ) {b : ℕ} → Descendant m k b
    → Set.contains visited b ≡ true
    → Set.contains visited k ≡ true
unfolding Set.contains
all_visited m id descendants visited s k {b} (child e) h = elim (s.closed b h) [
  | inl n ↦ cc
  | inr all ↦ all k e
]
all_visited m id descendants visited s k {b} (below p e r) h =
    all_visited m id descendants visited s k r
      (elim (s.closed b h) [ inl n ↦ cc | inr all ↦ all p e ])

Descends-IsProgeny :
    (m : Map ℕ BlockNode) (id : ℕ) (descendants visited : List ℕ)
    → Descends m id (walk descendants [] visited)
    → IsProgeny m id descendants
Descends-IsProgeny m id descendants visited s k = (
  (λ h. (other h, s.reached k h)),
  (λ (ne, r). found ne (all_visited m id descendants visited s k r root)),
)
  where
    root : Set.contains visited id ≡ true
    root = ground (arith, s.marked id, eqb_iff id id)

    other : Set.contains descendants k ≡ true → k ≢ id
    other h e = clash (ap (λ i. Set.contains descendants i) (sym e) ∙ h) s.apart
      where
        clash : {b : Bool} → b ≡ true → b ≡ false → ⊥
        clash x y = cc

    found : k ≢ id → Set.contains visited k ≡ true → Set.contains descendants k ≡ true
    found ne h = ground (arith, s.marked k, eqb_iff id k)

collect_descendants-IsProgeny :
    (fuel : ℕ) (m : Map ℕ BlockNode) (id : ℕ) (descendants stack visited : List ℕ)
    → Descends m id (walk descendants stack visited)
    → length stack + unseen visited m < fuel
    → (out : List ℕ) × (collect_descendants fuel m descendants stack visited ≡ some out)
      × IsProgeny m id out
unfolding collect_descendants
collect_descendants-IsProgeny zero m id descendants stack visited s h = absurd (omega arith)
collect_descendants-IsProgeny (suc fuel) m id descendants [] visited s h =
    (descendants, refl, Descends-IsProgeny m id descendants visited s)
collect_descendants-IsProgeny (suc fuel) m id descendants (current ∷ stack) visited s h =
    collect_descendants-IsProgeny fuel m id w.descendants w.stack w.visited
      (Descends-next m id current descendants stack visited s)
      (omega (
        arith,
        cost-visit_children m current (sort (children_of m current))
            (walk descendants stack visited) is_child,
      ))
  where
    w : Walk
    w = visit_children (sort (children_of m current)) (walk descendants stack visited)

    is_child :
        (c : ℕ)
        → Set.contains (sort (children_of m current)) c ≡ true
        → Set.contains (children_of m current) c ≡ true
    is_child c e = sym (contains-sort c (children_of m current)) ∙ e

start-Descends : (m : Map ℕ BlockNode) (id : ℕ) → Descends m id (walk [] (id ∷ []) (id ∷ []))
unfolding Set.contains
start-Descends m id = record {
  apart = refl;
  marked = λ k. refl;
  reached = λ k h. absurd (clash h);
  closed = λ v h. inl h;
  inside = λ k h. h;
}
  where
    clash : false ≡ true → ⊥
    clash h = cc

-- In every graph and for every block, the search of `get_descendants` ends, and the hashes it returns
-- are exactly those other than the block's own that are reached from it by one child link or more.
pub get_descendants-IsProgeny :
    (d : Dag) (id : ℕ)
    → (out : List ℕ) × (get_descendants d id ≡ some out) × IsProgeny d.blocks id out
unfolding get_descendants
get_descendants-IsProgeny d id =
    let (out, e, h) =
      collect_descendants-IsProgeny (suc (suc (child_count d.blocks))) d.blocks id [] (id ∷ [])
        (id ∷ []) (start-Descends d.blocks id)
        (omega (arith, unseen-child_count (id ∷ []) d.blocks)) in
    (sort out, rw (e, get_descendants) refl, λ k. rw (contains-sort k out) (h k))

module _ (d : Dag) (l : IsLinked d) where
  Descendant-Ancestor : (k : ℕ) {b : ℕ} → Descendant d.blocks k b → Ancestor d.blocks b k
  Descendant-Ancestor k {b} (child e) = parent (sym (l.linked k b) ∙ e)
  Descendant-Ancestor k {b} (below p e r) =
      Ancestor-parent d.blocks b p (sym (l.linked p b) ∙ e) (Descendant-Ancestor k r)

  Ancestor-Descendant : (a : ℕ) {b : ℕ} → Ancestor d.blocks a b → Descendant d.blocks b a
  Ancestor-Descendant a {b} (parent e) = child (l.linked b a ∙ e)
  Ancestor-Descendant a {b} (above p e r) =
      Descendant-child d.blocks b p (l.linked b p ∙ e) (Ancestor-Descendant a r)

contains-keys : (m : Map ℕ BlockNode) (k : ℕ) → Set.contains (keys m) k ≡ contains_key k m
unfolding keys Set.contains lookup
contains-keys [] k = refl
contains-keys ((i, b) ∷ m) k = ground (arith, contains-keys m k)

contains-keep_apart :
    (id : ℕ) (ancestors descendants hashes : List ℕ) (k : ℕ)
    → Set.contains (keep_apart id ancestors descendants hashes) k ≡ (
        Set.contains hashes k
        && (not (eqb k id) && (not (Set.contains ancestors k) && not (Set.contains descendants k))))
unfolding keep_apart Set.contains
contains-keep_apart id ancestors descendants [] k = refl
contains-keep_apart id ancestors descendants (x ∷ hashes) k =
    ground (arith, contains-keep_apart id ancestors descendants hashes k, eqb_iff x k)

untrue : (b : Bool) → ¬ (b ≡ true) → b ≡ false
untrue true n = absurd (n refl)
untrue false n = refl

clash : {b : Bool} → b ≡ true → b ≡ false → ⊥
clash x y = cc

-- In a linked graph the anticone of a block is computed for every block, and it is exactly the stored
-- blocks, other than itself, that are neither its ancestors nor have it for an ancestor.
pub get_anticone-lem :
    (d : Dag) (id : ℕ)
    → IsLinked d
    → (out : List ℕ) × (get_anticone d id ≡ some out)
      × ((k : ℕ)
          → (Set.contains out k ≡ true) ↔ (
              (contains_key k d.blocks ≡ true)
              × (k ≢ id)
              × (¬ Ancestor d.blocks k id)
              × (¬ Ancestor d.blocks id k)))
unfolding get_anticone get_all_hashes
get_anticone-lem d id l =
    let (as', ea, ha) = get_ancestors-IsAncestry d id in
    let (ds, ed, hd) = get_descendants-IsProgeny d id in
    (
      keep_apart id as' ds (get_all_hashes d),
      rw (ea, ed, get_anticone) refl,
      λ k. (forth as' ds ha hd k, back as' ds ha hd k),
    )
  where
    kept :
        (as' ds : List ℕ) (k : ℕ)
        → Set.contains (keep_apart id as' ds (get_all_hashes d)) k ≡ (
            contains_key k d.blocks
            && (not (eqb k id) && (not (Set.contains as' k) && not (Set.contains ds k))))
    kept as' ds k = ground (
      arith,
      contains-keep_apart id as' ds (get_all_hashes d) k,
      contains-sort k (keys d.blocks),
      contains-keys d.blocks k,
    )

    forth :
        (as' ds : List ℕ)
        → IsAncestry d.blocks id as'
        → IsProgeny d.blocks id ds
        → (k : ℕ) → Set.contains (keep_apart id as' ds (get_all_hashes d)) k ≡ true
        → (contains_key k d.blocks ≡ true)
          × (k ≢ id)
          × (¬ Ancestor d.blocks k id)
          × (¬ Ancestor d.blocks id k)
    forth as' ds ha hd k h =
        let (r, ne, na, nd) = parts h in
        (
          r,
          ne,
          (λ a. clash ((ha k).1 a) na),
          (λ a. clash ((hd k).1 (ne, Ancestor-Descendant d l id a)) nd),
        )
      where
        parts :
            Set.contains (keep_apart id as' ds (get_all_hashes d)) k ≡ true
            → (contains_key k d.blocks ≡ true)
              × (k ≢ id)
              × (Set.contains as' k ≡ false)
              × (Set.contains ds k ≡ false)
        parts h = ground (arith, kept as' ds k, eqb_iff k id)

    back :
        (as' ds : List ℕ)
        → IsAncestry d.blocks id as'
        → IsProgeny d.blocks id ds
        → (k : ℕ)
        → (contains_key k d.blocks ≡ true)
          × (k ≢ id)
          × (¬ Ancestor d.blocks k id)
          × (¬ Ancestor d.blocks id k)
        → Set.contains (keep_apart id as' ds (get_all_hashes d)) k ≡ true
    back as' ds ha hd k (r, ne, na, nd) =
        join r ne (untrue (Set.contains as' k) (λ t. na ((ha k).0 t)))
          (untrue (Set.contains ds k) (λ t. nd (Descendant-Ancestor d l k ((hd k).0 t).1)))
      where
        join :
            contains_key k d.blocks ≡ true
            → k ≢ id
            → Set.contains as' k ≡ false
            → Set.contains ds k ≡ false
            → Set.contains (keep_apart id as' ds (get_all_hashes d)) k ≡ true
        join r ne a b = ground (arith, kept as' ds k, eqb_iff k id)
