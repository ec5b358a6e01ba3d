-- ===== src/Ghost/Colours.antt =====
-- The blue and the red set of `build_blue_set` in ghostdag.rs.
use klomang_network.Prelude.{
  ℕ, ◌≤◌, ◌<◌, ◌≡◌, ◌⊎◌, inl, inr, Bool, true, false, ◌||◌, List, [], ◌∷◌, nat_eq, eqb, leb,
  eqb_iff, arith, refl, Bool-cases, ◌∙◌, some,
}
use klomang_network.Prelude.Set
use klomang_network.Dag.{Dag, insert_each, get_all_hashes}
use klomang_network.Dag.Cones.{get_anticone, keep_apart}
use klomang_network.Dag.Ancestors.{get_ancestors-IsAncestry}
use klomang_network.Dag.Anticone.{get_descendants-IsProgeny}
use klomang_network.Ghost.{GhostDag, count_in, colour, inherited, build_blue_set}

pub get_anticone_total : (d : Dag) (id : ℕ) → (out : List ℕ) × (get_anticone d id ≡ some out)
unfolding get_anticone
get_anticone_total d id =
    let (as', ea, _) = get_ancestors-IsAncestry d id in
    let (ds, ed, _) = get_descendants-IsProgeny d id in
    (keep_apart id as' ds (get_all_hashes d), rw (ea, ed, get_anticone) refl)

abbrev pub Subset : List ℕ → List ℕ → Type 0
Subset xs ys = (x : ℕ) → Set.contains xs x ≡ true → Set.contains ys x ≡ true

pub count_in_mono : (xs blue more : List ℕ) → Subset blue more → count_in xs blue ≤ count_in xs more
unfolding count_in
count_in_mono [] blue more h = omega arith
count_in_mono (x ∷ xs) blue more h = ground (arith, count_in_mono xs blue more h, h x)

-- The blocks of a block's anticone that are in the set, counted.
abbrev pub Conflicts : Dag → ℕ → List ℕ → ℕ → Type 0
Conflicts d x blue n =
    (anticone : List ℕ) × (get_anticone d x ≡ some anticone)
    × (count_in (insert_each anticone []) blue ≡ n)

-- The two sets cover what came in and the candidates; a red candidate has more than `k` blue blocks in
-- its anticone, and a blue one has at most `k` of some set between what came in and the blue set.
pub record Coloured (k : ℕ) (d : Dag) (start candidates blue red : List ℕ) : Type 0 where
  pub covers :
      (x : ℕ)
      → (Set.contains blue x || Set.contains red x)
        ≡ (Set.contains start x || Set.contains candidates x)
  pub keeps : Subset start blue
  pub refused : (x : ℕ) → Set.contains red x ≡ true → (n : ℕ) × Conflicts d x blue n × (k < n)
  pub accepted :
      (x : ℕ)
      → Set.contains blue x ≡ true
      → (Set.contains start x ≡ true)
        ⊎ ((earlier : List ℕ) × (n : ℕ) × Subset start earlier
            × Subset earlier blue
            × Conflicts d x earlier n
            × (n ≤ k))

-- The same, from the sets of a round on.
record Rounds (k : ℕ) (d : Dag) (blue red candidates final_blue final_red : List ℕ) : Type 0 where
  covers :
      (x : ℕ)
      → (Set.contains final_blue x || Set.contains final_red x)
        ≡ ((Set.contains blue x || Set.contains red x) || Set.contains candidates x)
  keeps : Subset blue final_blue
  refused :
      (x : ℕ)
      → Set.contains final_red x ≡ true
      → (Set.contains red x ≡ true) ⊎ ((n : ℕ) × Conflicts d x final_blue n × (k < n))
  accepted :
      (x : ℕ)
      → Set.contains final_blue x ≡ true
      → (Set.contains blue x ≡ true)
        ⊎ ((earlier : List ℕ) × (n : ℕ) × Subset blue earlier
            × Subset earlier final_blue
            × Conflicts d x earlier n
            × (n ≤ k))

pub insert-Subset : (c : ℕ) (xs : List ℕ) → Subset xs (Set.insert c xs)
insert-Subset c xs x h = ground (arith, Set.contains-insert c x xs)

colour-Rounds :
    (k : ℕ) (d : Dag) (blue red candidates : List ℕ)
    → (final_blue : List ℕ) × (final_red : List ℕ) × (colour k d blue red candidates
        ≡ some (final_blue, final_red))
      × Rounds k d blue red candidates final_blue final_red
unfolding colour Set.contains
colour-Rounds k d blue red [] = (
  blue,
  red,
  refl,
  record {
    covers = λ x. ground arith;
    keeps = λ x h. h;
    refused = λ x h. inl h;
    accepted = λ x h. inl h;
  },
)
colour-Rounds k d blue red (c ∷ cs) =
    let (an, e) = get_anticone_total d c in
    elim (Bool-cases (leb (count_in (insert_each an []) blue) k)) [
      | inl fits ↦
          let (b, r, out, s) = colour-Rounds k d (Set.insert c blue) red cs in
          (b, r, rw (e, colour, fits) out, as_blue an e fits b r s)
      | inr many ↦
          let (b, r, out, s) = colour-Rounds k d blue (Set.insert c red) cs in
          (b, r, rw (e, colour, many) out, as_red an e many b r s)
    ]
  where
    as_blue :
        (an : List ℕ)
        → get_anticone d c ≡ some an
        → leb (count_in (insert_each an []) blue) k ≡ true
        → (b r : List ℕ) → Rounds k d (Set.insert c blue) red cs b r
        → Rounds k d blue red (c ∷ cs) b r
    as_blue an e fits b r s = record {
      covers = λ x. s.covers x ∙ moved x;
      keeps = grown;
      refused = s.refused;
      accepted = λ x h. elim (s.accepted x h) [
        | inr (earlier, n, f, g, m, l) ↦
            inr (earlier, n, (λ y i. f y (insert-Subset c blue y i)), g, m, l)
        | inl old ↦ elim (origin x old) [
          | inr was ↦ inl was
          | inl same ↦ inr (
            blue,
            count_in (insert_each an []) blue,
            (λ y i. i),
            grown,
            (an, rw (← same) e, refl),
            ground arith,
          )
        ]
      ];
    }
      where
        moved :
            (x : ℕ)
            → ((Set.contains (Set.insert c blue) x || Set.contains red x) || Set.contains cs x)
              ≡ ((Set.contains blue x || Set.contains red x) || (eqb c x || Set.contains cs x))
        moved x = ground (arith, Set.contains-insert c x blue)

        grown : Subset blue b
        grown x h = s.keeps x (insert-Subset c blue x h)

        origin :
            (x : ℕ)
            → Set.contains (Set.insert c blue) x ≡ true
            → (c ≡ x) ⊎ (Set.contains blue x ≡ true)
        origin x h = ground (arith, Set.contains-insert c x blue, eqb_iff c x)

    as_red :
        (an : List ℕ)
        → get_anticone d c ≡ some an
        → leb (count_in (insert_each an []) blue) k ≡ false
        → (b r : List ℕ) → Rounds k d blue (Set.insert c red) cs b r
        → Rounds k d blue red (c ∷ cs) b r
    as_red an e many b r s = record {
      covers = λ x. s.covers x ∙ moved x;
      keeps = s.keeps;
      refused = λ x h. elim (s.refused x h) [
        | inr new ↦ inr new
        | inl old ↦ elim (origin x old) [
          | inr was ↦ inl was
          | inl same ↦ inr (count_in (insert_each an []) b, (an, rw (← same) e, refl), above)
        ]
      ];
      accepted = s.accepted;
    }
      where
        moved :
            (x : ℕ)
            → ((Set.contains blue x || Set.contains (Set.insert c red) x) || Set.contains cs x)
              ≡ ((Set.contains blue x || Set.contains red x) || (eqb c x || Set.contains cs x))
        moved x = ground (arith, Set.contains-insert c x red)

        above : k < count_in (insert_each an []) b
        above = ground (arith, count_in_mono (insert_each an []) blue b s.keeps)

        origin :
            (x : ℕ)
            → Set.contains (Set.insert c red) x ≡ true
            → (c ≡ x) ⊎ (Set.contains red x ≡ true)
        origin x h = ground (arith, Set.contains-insert c x red, eqb_iff c x)

-- The colouring always ends, with such sets.
pub build_blue_set-Coloured :
    (g : GhostDag) (d : Dag) (selected_parent : ℕ)
    → (candidates : List ℕ) × (blue : List ℕ) × (red : List ℕ) × (get_anticone d selected_parent
        ≡ some candidates)
      × (build_blue_set g d selected_parent ≡ some (blue, red))
      × Coloured g.k d (inherited d selected_parent) candidates blue red
unfolding build_blue_set Set.contains
build_blue_set-Coloured g d p =
    let (an, e) = get_anticone_total d p in
    let (b, r, out, s) = colour-Rounds g.k d (inherited d p) [] an in
    (
      an,
      b,
      r,
      e,
      rw (e, build_blue_set) out,
      record {
        covers = λ x. s.covers x ∙ drop_empty (Set.contains (inherited d p) x) (Set.contains an x);
        keeps = s.keeps;
        refused = λ x h. elim (s.refused x h) [ inl n ↦ absurd (untrue n) | inr m ↦ m ];
        accepted = s.accepted;
      },
    )
  where
    drop_empty : (a b : Bool) → ((a || false) || b) ≡ (a || b)
    drop_empty a b = ground arith

    untrue : false ≡ true → ⊥
    untrue h = cc
