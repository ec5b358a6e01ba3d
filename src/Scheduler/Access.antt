-- ===== src/Scheduler/Access.antt =====
-- Conflicts of access sets, and of the combined sets of groups.
use klomang_network.Prelude.{
  ℕ, ◌≡◌, inl, inr, Bool, true, false, ◌||◌, List, [], ◌∷◌, nat_eq, eqb_iff, arith, refl, ◌∙◌,
  Bool-cases,
}
use klomang_network.Prelude.Set
use klomang_network.Scheduler.{
  AccessSet, is_disjoint, extend, has_conflict, merge, ScheduledTransaction, conflicts_with,
  combined_from, combined, empty_set,
}

-- A key that both sets hold.
pub shared :
    (xs ys : List ℕ)
    → is_disjoint xs ys ≡ false
    → (k : ℕ) × (Set.contains xs k ≡ true) × (Set.contains ys k ≡ true)
unfolding is_disjoint Set.contains
shared [] ys h = cc
shared (x ∷ xs) ys h = elim (Bool-cases (Set.contains ys x)) [
  | inl e ↦ (x, ground (arith, eqb_iff x x), e)
  | inr e ↦ let (k, a, b) = shared xs ys (ground arith) in (k, ground arith, b)
]

pub meets :
    (k : ℕ) (xs ys : List ℕ)
    → Set.contains xs k ≡ true
    → Set.contains ys k ≡ true
    → is_disjoint xs ys ≡ false
unfolding is_disjoint Set.contains
meets k [] ys a b = cc
meets k (x ∷ xs) ys a b = ground (arith, meets k xs ys, eqb_iff x k)

pub contains-extend :
    (k : ℕ) (xs ys : List ℕ)
    → Set.contains (extend xs ys) k ≡ (Set.contains xs k || Set.contains ys k)
unfolding extend Set.contains
contains-extend k xs [] = ground arith
contains-extend k xs (y ∷ ys) =
    contains-extend k (Set.insert y xs) ys ∙ rw (Set.contains-insert y k xs) (ground arith)

abbrev Within : List ℕ → List ℕ → Type 0
Within xs ys = (k : ℕ) → Set.contains xs k ≡ true → Set.contains ys k ≡ true

record Grows (a b : AccessSet) : Type 0 where
  reads : Within a.read_set b.read_set
  writes : Within a.write_set b.write_set

disjoint_mono :
    (xs ys xs' ys' : List ℕ)
    → Within xs xs'
    → Within ys ys'
    → is_disjoint xs ys ≡ false
    → is_disjoint xs' ys' ≡ false
disjoint_mono xs ys xs' ys' p q h =
    let (k, a, b) = shared xs ys h in meets k xs' ys' (p k a) (q k b)

has_conflict_mono :
    (a b a' b' : AccessSet)
    → Grows a a'
    → Grows b b'
    → has_conflict a b ≡ true
    → has_conflict a' b' ≡ true
unfolding has_conflict
has_conflict_mono a b a' b' p q h = ground (
  arith,
  disjoint_mono a.write_set b.read_set a'.write_set b'.read_set p.writes q.reads,
  disjoint_mono a.write_set b.write_set a'.write_set b'.write_set p.writes q.writes,
  disjoint_mono b.write_set a.read_set b'.write_set a'.read_set q.writes p.reads,
)

Grows-left : (a b : AccessSet) → Grows a (merge a b)
unfolding merge
Grows-left a b = record {
  reads = λ k h. rw (contains-extend k a.read_set b.read_set, h) refl;
  writes = λ k h. rw (contains-extend k a.write_set b.write_set, h) refl;
}

or_true : (b : Bool) → (b || true) ≡ true
or_true true = refl
or_true false = refl

Grows-right : (a b : AccessSet) → Grows b (merge a b)
unfolding merge
Grows-right a b = record {
  reads = λ k h. rw (contains-extend k a.read_set b.read_set, h) (or_true _);
  writes = λ k h. rw (contains-extend k a.write_set b.write_set, h) (or_true _);
}

Grows-trans : (a b d : AccessSet) → Grows a b → Grows b d → Grows a d
Grows-trans a b d p q = record {
  reads = λ k h. q.reads k (p.reads k h);
  writes = λ k h. q.writes k (p.writes k h);
}

Grows-combined_from : (a : AccessSet) (g : List ScheduledTransaction) → Grows a (combined_from a g)
unfolding combined_from
Grows-combined_from a [] = record { reads = λ k h. h; writes = λ k h. h }
Grows-combined_from a (s ∷ g) =
    Grows-trans a (merge a s.access_set) (combined_from (merge a s.access_set) g)
      (Grows-left a s.access_set) (Grows-combined_from (merge a s.access_set) g)

-- The combined set of a group holds the accesses of its first member.
Grows-head :
    (a : AccessSet) (s : ScheduledTransaction) (g : List ScheduledTransaction)
    → Grows s.access_set (combined_from a (s ∷ g))
unfolding combined_from
Grows-head a s g =
    Grows-trans s.access_set (merge a s.access_set) (combined_from (merge a s.access_set) g)
      (Grows-right a s.access_set) (Grows-combined_from (merge a s.access_set) g)

conflict_found :
    (a b : AccessSet) (s : ScheduledTransaction) (g : List ScheduledTransaction)
    → conflicts_with s g ≡ true
    → Grows s.access_set b
    → has_conflict (combined_from a g) b ≡ true
unfolding conflicts_with combined_from
conflict_found a b s [] h p = cc
conflict_found a b s (e ∷ g) h p = elim (Bool-cases (has_conflict e.access_set s.access_set)) [
  | inl here ↦
      has_conflict_mono e.access_set s.access_set (combined_from (merge a e.access_set) g) b
        (Grows-head a e g) p here
  | inr other ↦ conflict_found (merge a e.access_set) b s g (ground arith) p
]

-- A transaction in conflict with a member of a group makes the combined sets conflict.
pub conflicts_with-combined :
    (s : ScheduledTransaction) (g rest : List ScheduledTransaction)
    → conflicts_with s g ≡ true
    → has_conflict (combined g) (combined (s ∷ rest)) ≡ true
unfolding combined
conflicts_with-combined s g rest h =
    conflict_found empty_set (combined_from empty_set (s ∷ rest)) s g h
      (Grows-head empty_set s rest)
