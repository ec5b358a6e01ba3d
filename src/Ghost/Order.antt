-- ===== src/Ghost/Order.antt =====
-- The order of scored blocks in ghostdag.rs, and the two ways to its first.
use klomang_network.Prelude.{
  ℕ, ◌≡◌, inl, inr, true, false, ◌&&◌, List, [], ◌∷◌, nat_eq, pair_eq, eqb, eqb_iff, arith, refl,
  Bool-cases, sym, ◌∙◌, ap, if◌then◌else◌, Option, none, some, Option-cases,
}
use klomang_network.Prelude.Set
use klomang_network.Ghost.{stands_first, insert_scored, sort_scored, max_scored}

-- The first of the list in its order, and a member of it.
abbrev pub Best : List (ℕ × ℕ) → ℕ × ℕ → Type 0
Best xs a =
    (Set.contains xs a ≡ true) × ((b : ℕ × ℕ) → Set.contains xs b ≡ true → stands_first a b ≡ true)

pub pair_equal_lem : (a b : ℕ × ℕ) → (eqb a.0 b.0 && eqb a.1 b.1) ≡ true → a ≡ b
pair_equal_lem (a, s) (b, t) h = ground arith

stands_first_trans :
    (a b c : ℕ × ℕ) → stands_first a b ≡ true → stands_first b c ≡ true → stands_first a c ≡ true
stands_first_trans (a, r) (b, s) (c, t) h g = ground arith

pub stands_first_self : (a : ℕ × ℕ) → stands_first a a ≡ true
stands_first_self (a, r) = ground arith

stands_first_total : (a b : ℕ × ℕ) → stands_first a b ≡ false → stands_first b a ≡ true
stands_first_total (a, r) (b, s) h = ground arith

stands_first_both : (a b : ℕ × ℕ) → stands_first a b ≡ true → stands_first b a ≡ true → a ≡ b
stands_first_both (a, r) (b, s) h g = ground arith

-- The best of a longer list.
choose : ℕ × ℕ → Option (ℕ × ℕ) → ℕ × ℕ
choose a none = a
choose a (some b) = if stands_first b a then b else a

max_scored-choose :
    (a : ℕ × ℕ) (xs : List (ℕ × ℕ)) → max_scored (a ∷ xs) ≡ some (choose a (max_scored xs))
unfolding max_scored choose
max_scored-choose a xs = elim (Option-cases (max_scored xs)) [
  | inl e ↦ rw (e) refl
  | inr (b, e) ↦ elim (Bool-cases (stands_first b a)) [
    | inl f ↦ rw (e, f) refl
    | inr f ↦ rw (e, f) refl
  ]
]

pub max_scored-none : (xs : List (ℕ × ℕ)) → max_scored xs ≡ none → xs ≡ []
unfolding max_scored
max_scored-none [] h = refl
max_scored-none (x ∷ xs) h = ground arith

pub max_scored-Best : (xs : List (ℕ × ℕ)) (a : ℕ × ℕ) → max_scored xs ≡ some a → Best xs a
unfolding Set.contains max_scored choose
max_scored-Best [] a h = absurd (empty h)
  where
    empty : max_scored [] ≡ some a → ⊥
    empty h = ground arith
max_scored-Best (x ∷ xs) a h = elim (Option-cases (max_scored xs)) [
  | inl e ↦ rw (own (ap (choose x) e)) (itself, only e)
  | inr (b, e) ↦ elim (Bool-cases (stands_first b x)) [
    | inl f ↦
        rw (own (ap (choose x) e ∙ as_other b f))
          (inside b (max_scored-Best xs b e), above_all b f (max_scored-Best xs b e))
    | inr f ↦
        rw (own (ap (choose x) e ∙ as_self b f)) (itself, self_above b f (max_scored-Best xs b e))
  ]
]
  where
    own : {c : ℕ × ℕ} → choose x (max_scored xs) ≡ c → a ≡ c
    own e = some_inj (sym h ∙ max_scored-choose x xs) ∙ e
      where
        some_inj : {u v : ℕ × ℕ} → some u ≡ some v → u ≡ v
        some_inj e = ground arith

    as_other : (b : ℕ × ℕ) → stands_first b x ≡ true → choose x (some b) ≡ b
    as_other b f = rw (f, choose) refl

    as_self : (b : ℕ × ℕ) → stands_first b x ≡ false → choose x (some b) ≡ x
    as_self b f = rw (f, choose) refl

    itself : Set.contains (x ∷ xs) x ≡ true
    itself = ground (arith, eqb_iff x.0 x.0, eqb_iff x.1 x.1)

    only :
        max_scored xs ≡ none
        → (b : ℕ × ℕ) → Set.contains (x ∷ xs) b ≡ true
        → stands_first x b ≡ true
    only e b m = ground (arith, max_scored-none xs e, pair_equal_lem x b, stands_first_self x)

    inside : (b : ℕ × ℕ) → Best xs b → Set.contains (x ∷ xs) b ≡ true
    inside b e = ground (arith, e.0)

    above_all :
        (b : ℕ × ℕ)
        → stands_first b x ≡ true
        → Best xs b
        → (c : ℕ × ℕ) → Set.contains (x ∷ xs) c ≡ true
        → stands_first b c ≡ true
    above_all b f e c m = ground (arith, e.1 c, pair_equal_lem x c)

    self_above :
        (b : ℕ × ℕ)
        → stands_first b x ≡ false
        → Best xs b
        → (c : ℕ × ℕ) → Set.contains (x ∷ xs) c ≡ true
        → stands_first x c ≡ true
    self_above b f e c m = ground (
      arith,
      stands_first_total b x f,
      e.1 c,
      stands_first_trans x b c,
      pair_equal_lem x c,
      stands_first_self x,
    )

unfoldable pub head_of : List (ℕ × ℕ) → Option (ℕ × ℕ)
head_of [] = none
head_of (a ∷ as') = some a

head_of-insert_scored :
    (a : ℕ × ℕ) (xs : List (ℕ × ℕ)) → head_of (insert_scored a xs) ≡ some (choose a (head_of xs))
unfolding insert_scored head_of choose
head_of-insert_scored a [] = refl
head_of-insert_scored a (b ∷ xs) = elim (Bool-cases (stands_first a b)) [
  | inl f ↦ elim (Bool-cases (stands_first b a)) [
    | inl g ↦ rw (f, g) (ap some (stands_first_both a b f g))
    | inr g ↦ rw (f, g) refl
  ]
  | inr f ↦ rw (f, stands_first_total a b f) refl
]

-- The first of the sorted list is the greatest that the scan finds.
pub head_of-sort_scored : (xs : List (ℕ × ℕ)) → head_of (sort_scored xs) ≡ max_scored xs
unfolding sort_scored max_scored head_of
head_of-sort_scored [] = refl
head_of-sort_scored (a ∷ xs) =
    head_of-insert_scored a (sort_scored xs)
    ∙ ap (λ o. some (choose a o)) (head_of-sort_scored xs)
    ∙ sym (max_scored-choose a xs)
