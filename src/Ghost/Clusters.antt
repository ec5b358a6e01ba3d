-- ===== src/Ghost/Clusters.antt =====
-- The order of the colouring in `build_blue_set` of ghostdag.rs: each candidate against the blue
-- blocks before it.
use klomang_network.Prelude.{
  ℕ, ◌≤◌, ◌<◌, ◌≡◌, ◌⊎◌, inl, inr, Bool, true, false, ◌||◌, ◌&&◌, none, some, List, [], ◌∷◌, ◌++◌,
  nat_eq, eqb, leb, eqb_iff, arith, refl, sym, ap, ◌∙◌, Bool-cases, Option-cases,
}
use mathlib.Core.Path.{subst}
use klomang_network.Prelude.Map.{lookup}
use klomang_network.Prelude.Set
use klomang_network.Dag.{Dag, insert_each}
use klomang_network.Dag.Graph.{contains-insert_each}
use klomang_network.Dag.Cones.{get_anticone}
use klomang_network.Ghost.{GhostDag, count_in, colour, inherited, build_blue_set}
use klomang_network.Ghost.Colours.{
  Subset, Conflicts, Coloured, get_anticone_total, count_in_mono, insert-Subset,
  build_blue_set-Coloured,
}

-- Whether a block passes another on as blue: itself, where it is stored, and its own blue set.
unfoldable pub passed_on : Dag → ℕ → ℕ → Bool
passed_on d block x = elim (lookup block d.blocks) [
  | none ↦ false
  | some b ↦ eqb block x || Set.contains b.blue_set x
]

contains-inherited : (d : Dag) (p x : ℕ) → Set.contains (inherited d p) x ≡ passed_on d p x
unfolding inherited passed_on Set.contains
contains-inherited d p x = elim (Option-cases (lookup p d.blocks)) [
  | inl e ↦ rw (e, inherited, passed_on) refl
  | inr (b, e) ↦
      rw (e, inherited, passed_on)
        (Set.contains-insert p x (insert_each b.blue_set [])
          ∙ ground (arith, contains-insert_each x b.blue_set []))
]

-- The blue blocks that a candidate meets: what came in, and the candidates before it that are blue.
abbrev Earlier : (ℕ → Bool) → List ℕ → List ℕ → List ℕ → Type 0
Earlier start before blue earlier =
    (y : ℕ) → Set.contains earlier y ≡ (start y || (Set.contains before y && Set.contains blue y))

-- A candidate is blue where its anticone has at most `k` of them, and red where it has more.
abbrev Verdict : ℕ → ℕ → List ℕ → List ℕ → ℕ → Type 0
Verdict k x blue red n =
    ((n ≤ k) × (Set.contains blue x ≡ true)) ⊎ ((k < n) × (Set.contains red x ≡ true))

-- Every candidate is decided by the blue blocks before it.
pub IsDecided : ℕ → Dag → (ℕ → Bool) → List ℕ → List ℕ → List ℕ → Type 0
IsDecided k d start candidates blue red =
    (before after : List ℕ) (x : ℕ)
    → candidates ≡ before ++ x ∷ after
    → (earlier : List ℕ) × (n : ℕ) × Earlier start before blue earlier
      × Conflicts d x earlier n
      × Verdict k x blue red n

module _ (k : ℕ) (d : Dag) where
  -- One round, by the blue blocks in the candidate's anticone.
  colour-cons :
      (c : ℕ) (blue red cs : List ℕ) (out : List ℕ × List ℕ)
      → colour k d blue red (c ∷ cs) ≡ some out
      → (n : ℕ) × Conflicts d c blue n
        × (((n ≤ k) × (colour k d (Set.insert c blue) red cs ≡ some out))
            ⊎ ((k < n) × (colour k d blue (Set.insert c red) cs ≡ some out)))
  unfolding colour
  colour-cons c blue red cs out h =
      let (an, e) = get_anticone_total d c in
      let n = count_in (insert_each an []) blue in
      elim (Bool-cases (leb n k)) [
        | inl fits ↦
            let step : colour k d blue red (c ∷ cs) ≡ colour k d (Set.insert c blue) red cs =
              rw (e, colour, fits) refl in
            (n, (an, e, refl), inl (ground (arith, fits), sym step ∙ h))
        | inr many ↦
            let step : colour k d blue red (c ∷ cs) ≡ colour k d blue (Set.insert c red) cs =
              rw (e, colour, many) refl in
            (n, (an, e, refl), inr (ground (arith, many), sym step ∙ h))
      ]

  -- The sets of a round stay in the final ones.
  colour-kept :
      (blue red cs : List ℕ) (out : List ℕ × List ℕ)
      → colour k d blue red cs ≡ some out
      → Subset blue out.0 × Subset red out.1
  unfolding colour
  colour-kept blue red [] out h =
      let same : (blue, red) ≡ out = ground (arith, h) in
      (
        λ x i. subst (λ (o : List ℕ × List ℕ). Set.contains o.0 x ≡ true) same i,
        λ x i. subst (λ (o : List ℕ × List ℕ). Set.contains o.1 x ≡ true) same i,
      )
  colour-kept blue red (c ∷ cs) out h =
      let (n, conflicts, next) = colour-cons c blue red cs out h in
      elim next [
        | inl (fits, rest) ↦
            let (b, r) = colour-kept (Set.insert c blue) red cs out rest in
            (λ x i. b x (insert-Subset c blue x i), r)
        | inr (many, rest) ↦
            let (b, r) = colour-kept blue (Set.insert c red) cs out rest in
            (b, λ x i. r x (insert-Subset c red x i))
      ]

  -- More than `k` blue blocks in its anticone.
  abbrev Crowded : List ℕ → ℕ → Type 0
  Crowded blue y = (n : ℕ) × Conflicts d y blue n × (k < n)

  Crowded-insert : (c y : ℕ) (blue : List ℕ) → Crowded blue y → Crowded (Set.insert c blue) y
  Crowded-insert c y blue (n, (an, e, same), more) = (
    count_in (insert_each an []) (Set.insert c blue),
    (an, e, refl),
    omega (
      arith,
      same,
      more,
      count_in_mono (insert_each an []) blue (Set.insert c blue) (insert-Subset c blue),
    ),
  )

  -- Two counts of one block's conflicts agree.
  Conflicts-same : (y n m : ℕ) (blue : List ℕ) → Conflicts d y blue n → Conflicts d y blue m → n ≡ m
  Conflicts-same y n m blue (an, e, s) (an', e', s') =
      let same : an ≡ an' = ground (arith, e, e') in
      sym s ∙ ap (λ (l : List ℕ). count_in (insert_each l []) blue) same ∙ s'

  -- A block that was refused stays out of the blue set.
  colour-Crowded :
      (y : ℕ) (blue red cs : List ℕ) (out : List ℕ × List ℕ)
      → colour k d blue red cs ≡ some out
      → Set.contains blue y ≡ false
      → Crowded blue y
      → Set.contains out.0 y ≡ false
  unfolding colour
  colour-Crowded y blue red [] out h free crowd =
      let same : (blue, red) ≡ out = ground (arith, h) in
      subst (λ (o : List ℕ × List ℕ). Set.contains o.0 y ≡ false) same free
  colour-Crowded y blue red (c ∷ cs) out h free crowd =
      let (n, conflicts, next) = colour-cons c blue red cs out h in
      elim next [
        | inr (many, rest) ↦ colour-Crowded y blue (Set.insert c red) cs out rest free crowd
        | inl (fits, rest) ↦ elim (Bool-cases (eqb c y)) [
          | inr other ↦
              colour-Crowded y (Set.insert c blue) red cs out rest
                (ground (arith, Set.contains-insert c y blue, other, free))
                (Crowded-insert c y blue crowd)
          | inl e ↦
              let same : c ≡ y = (eqb_iff c y).0 e in
              let own : Conflicts d y blue n =
                subst (λ (z : ℕ). Conflicts d z blue n) same conflicts in
              absurd (omega (arith, fits, crowd.2, Conflicts-same y n crowd.0 blue own crowd.1))
        ]
      ]

  -- What holds between the rounds: blue is what came in and what was accepted of the candidates
  -- seen, and the others of those were refused.
  record Goes (start : ℕ → Bool) (seen blue : List ℕ) : Type 0 where
    origin : (y : ℕ) → Set.contains blue y ≡ true → (start y || Set.contains seen y) ≡ true
    begun : (y : ℕ) → start y ≡ true → Set.contains blue y ≡ true
    turned : (y : ℕ) → Set.contains seen y ≡ true → Set.contains blue y ≡ false → Crowded blue y

  Goes-accept :
      (start : ℕ → Bool) (c : ℕ) (seen blue : List ℕ)
      → Goes start seen blue
      → Goes start (c ∷ seen) (Set.insert c blue)
  unfolding Set.contains
  Goes-accept start c seen blue g = record {
    origin = λ y h. ground (arith, h, Set.contains-insert c y blue, g.origin y);
    begun = λ y h. ground (arith, Set.contains-insert c y blue, g.begun y h);
    turned = λ y s f. Crowded-insert c y blue (
        g.turned y (ground (arith, s, f, Set.contains-insert c y blue))
          (ground (arith, f, Set.contains-insert c y blue)));
  }

  Goes-refuse :
      (start : ℕ → Bool) (c : ℕ) (seen blue : List ℕ)
      → Goes start seen blue
      → Crowded blue c
      → Goes start (c ∷ seen) blue
  unfolding Set.contains
  Goes-refuse start c seen blue g crowd = record {
    origin = λ y h. ground (arith, g.origin y h);
    begun = g.begun;
    turned = λ y s f. elim (Bool-cases (eqb c y)) [
      | inl e ↦ subst (Crowded blue) ((eqb_iff c y).0 e) crowd
      | inr e ↦ g.turned y (ground (arith, s, e)) f
    ];
  }

  -- The blue set of a round holds what came in and the candidates seen that are blue in the end.
  Goes-blue :
      (start : ℕ → Bool) (seen blue red cs : List ℕ) (out : List ℕ × List ℕ) (y : ℕ)
      → Goes start seen blue
      → colour k d blue red cs ≡ some out
      → Set.contains blue y ≡ (start y || (Set.contains seen y && Set.contains out.0 y))
  Goes-blue start seen blue red cs out y g h = elim (Bool-cases (Set.contains blue y)) [
    | inl b ↦ ground (arith, b, g.origin y b, (colour-kept blue red cs out h).0 y b)
    | inr f ↦ elim (Bool-cases (Set.contains seen y)) [
      | inl s ↦ ground (arith, f, g.begun y, colour-Crowded y blue red cs out h f (g.turned y s f))
      | inr u ↦ ground (arith, f, u, g.begun y)
    ]
  ]

  -- A candidate after those seen and those before it.
  Decision : (ℕ → Bool) → List ℕ → List ℕ → ℕ → List ℕ × List ℕ → Type 0
  Decision start seen before x out =
      (earlier : List ℕ) × (n : ℕ) × ((y : ℕ)
        → Set.contains earlier y
          ≡ (start y || ((Set.contains seen y || Set.contains before y) && Set.contains out.0 y)))
      × Conflicts d x earlier n
      × Verdict k x out.0 out.1 n

  colour-Decision :
      (start : ℕ → Bool) (seen blue red cs before after : List ℕ) (x : ℕ) (out : List ℕ × List ℕ)
      → Goes start seen blue
      → colour k d blue red cs ≡ some out
      → cs ≡ before ++ x ∷ after
      → Decision start seen before x out
  unfolding Decision Set.contains
  colour-Decision start seen blue red [] [] after x out g h e = absurd (ground (arith, e))
  colour-Decision start seen blue red [] (b ∷ before) after x out g h e = absurd (ground (arith, e))
  colour-Decision start seen blue red (c ∷ cs) [] after x out g h e =
      let same : c ≡ x = ground (arith, e) in
      let (n, conflicts, next) = colour-cons c blue red cs out h in
      (
        blue,
        n,
        λ y. ground (arith, Goes-blue start seen blue red (c ∷ cs) out y g h),
        subst (λ (z : ℕ). Conflicts d z blue n) same conflicts,
        elim next [
          | inl (fits, rest) ↦ inl (
            fits,
            (colour-kept (Set.insert c blue) red cs out rest).0 x
                (ground (arith, Set.contains-insert c x blue, eqb_iff c x, same)),
          )
          | inr (many, rest) ↦ inr (
            many,
            (colour-kept blue (Set.insert c red) cs out rest).1 x
                (ground (arith, Set.contains-insert c x red, eqb_iff c x, same)),
          )
        ],
      )
  colour-Decision start seen blue red (c ∷ cs) (b ∷ before) after x out g h e =
      let same : c ≡ b = ground (arith, e) in
      let tail : cs ≡ before ++ x ∷ after = ground (arith, e) in
      let (n, conflicts, next) = colour-cons c blue red cs out h in
      let (earlier, m, members, own, verdict) : Decision start (c ∷ seen) before x out = elim next [
        | inl (fits, rest) ↦
            colour-Decision start (c ∷ seen) (Set.insert c blue) red cs before after x out
              (Goes-accept start c seen blue g) rest tail
        | inr (many, rest) ↦
            colour-Decision start (c ∷ seen) blue (Set.insert c red) cs before after x out
              (Goes-refuse start c seen blue g (n, conflicts, many)) rest tail
      ] in
      (earlier, m, (λ y. members y ∙ ground (arith, same)), own, verdict)

-- The colouring of the anticone of a block always ends. The blue and the red set together are what
-- the block passes on as blue, itself and its own blue set, and its anticone; all that it passes on
-- is blue, and a red block has more than `k` blue ones in its anticone. The candidates are decided
-- in turn: each is blue where at most `k` of its anticone are passed on or are blue candidates
-- before it, and red where more are.
pub build_blue_set-IsDecided :
    (g : GhostDag) (d : Dag) (selected_parent : ℕ)
    → (start : List ℕ) × (candidates : List ℕ) × (blue : List ℕ) × (red : List ℕ) × ((x : ℕ)
        → Set.contains start x ≡ passed_on d selected_parent x)
      × (get_anticone d selected_parent ≡ some candidates)
      × (build_blue_set g d selected_parent ≡ some (blue, red))
      × Coloured g.k d start candidates blue red
      × IsDecided g.k d (passed_on d selected_parent) candidates blue red
unfolding build_blue_set Set.contains IsDecided Decision
build_blue_set-IsDecided g d p =
    let (candidates, blue, red, e, out, coloured) = build_blue_set-Coloured g d p in
    let start = contains-inherited d p in
    let found : colour g.k d (inherited d p) [] candidates ≡ some (blue, red) =
      rw⁻¹ out (rw (e, build_blue_set) refl) in
    let goes : Goes g.k d (passed_on d p) [] (inherited d p) = record {
      origin = λ y h. ground (arith, h, start y);
      begun = λ y h. ground (arith, h, start y);
      turned = λ y s f. absurd (ground (arith, s));
    } in
    (
      inherited d p,
      candidates,
      blue,
      red,
      start,
      e,
      out,
      coloured,
      λ before after x split.
          colour-Decision g.k d (passed_on d p) [] (inherited d p) [] candidates before after x
            (blue, red) goes found split,
    )
