-- ===== src/Dag/Search.antt =====
-- The round invariant of the searches along parent links in dag/mod.rs.
use klomang_network.Prelude.{
  ℕ, ◌≡◌, ◌⊎◌, inl, inr, Bool, true, false, ◌||◌, List, [], ◌∷◌, nat_eq, eqb_iff, arith, refl, ◌∙◌,
  ap,
}
use klomang_network.Prelude.Map.{Map}
use klomang_network.Prelude.Set
use klomang_network.Prelude.Sort.{sort, contains-sort}
use klomang_network.Dag.{BlockNode, parents_of, push_all}
use klomang_network.Dag.Graph.{Ancestor, parent, above, Ancestor-parent, contains-push_all}

abbrev pub Seen : List ℕ → List ℕ → ℕ → Type 0
Seen stack visited k = (Set.contains visited k ≡ true) ⊎ (Set.contains stack k ≡ true)

-- What holds between the rounds of a search from a block.
pub record Searches (m : Map ℕ BlockNode) (id : ℕ) (stack visited : List ℕ) : Type 0 where
  pub start : Seen stack visited id
  pub closed :
      (v p : ℕ)
      → Set.contains visited v ≡ true
      → Set.contains (parents_of m v) p ≡ true
      → Seen stack visited p
  pub reached : (k : ℕ) → Seen stack visited k → (k ≡ id) ⊎ Ancestor m k id

-- Where the stack is empty every ancestor has been visited.
pub visited_above :
    (m : Map ℕ BlockNode) (id : ℕ) (visited : List ℕ)
    → Searches m id [] visited
    → (a : ℕ) {b : ℕ} → Ancestor m a b
    → Set.contains visited b ≡ true
    → (v : ℕ) × (Set.contains visited v ≡ true) × (Set.contains (parents_of m v) a ≡ true)
unfolding Set.contains
visited_above m id visited s a {b} (parent e) h = (b, h, e)
visited_above m id visited s a {b} (above p e r) h =
    visited_above m id visited s a r (elim (s.closed b p h e) [ inl v ↦ v | inr n ↦ cc ])

pub start_visited :
    (m : Map ℕ BlockNode) (id : ℕ) (visited : List ℕ)
    → Searches m id [] visited
    → Set.contains visited id ≡ true
unfolding Set.contains
start_visited m id visited s = elim s.start [ inl v ↦ v | inr n ↦ cc ]

pub contains-head : (c : ℕ) (st : List ℕ) → Set.contains (c ∷ st) c ≡ true
unfolding Set.contains
contains-head c st = ground (arith, eqb_iff c c)

module _ (m : Map ℕ BlockNode) (id current : ℕ) (stack visited : List ℕ)
    (s : Searches m id (current ∷ stack) visited) where
  skip-Seen :
      (k : ℕ)
      → Set.contains visited current ≡ true
      → Seen (current ∷ stack) visited k
      → Seen stack visited k
  unfolding Set.contains
  skip-Seen k h (inl v) = inl v
  skip-Seen k h (inr w) = ground (arith, eqb_iff current k)

  keep-Seen : (k : ℕ) → Seen stack visited k → Seen (current ∷ stack) visited k
  unfolding Set.contains
  keep-Seen k (inl v) = inl v
  keep-Seen k (inr w) = inr (rw w (or_true _))
    where
      or_true : (b : Bool) → (b || true) ≡ true
      or_true true = refl
      or_true false = refl

  pub Searches-skip : Set.contains visited current ≡ true → Searches m id stack visited
  Searches-skip h = record {
    start = skip-Seen id h s.start;
    closed = λ v p a b. skip-Seen p h (s.closed v p a b);
    reached = λ k a. s.reached k (keep-Seen k a);
  }

  abbrev pushed : List ℕ
  pushed = push_all (sort (parents_of m current)) stack

  contains-pushed :
      (k : ℕ)
      → Set.contains pushed k ≡ (Set.contains (parents_of m current) k || Set.contains stack k)
  contains-pushed k =
      contains-push_all k (sort (parents_of m current)) stack
      ∙ ap (λ b. b || Set.contains stack k) (contains-sort k (parents_of m current))

  visit-Seen :
      (k : ℕ) → Seen (current ∷ stack) visited k → Seen pushed (Set.insert current visited) k
  unfolding Set.contains
  visit-Seen k h = ground (arith, contains-pushed k, Set.contains-insert current k visited)

  unvisit-Seen :
      (k : ℕ)
      → Seen pushed (Set.insert current visited) k
      → Seen (current ∷ stack) visited k ⊎ (Set.contains (parents_of m current) k ≡ true)
  unfolding Set.contains
  unvisit-Seen k h = ground (arith, contains-pushed k, Set.contains-insert current k visited)

  pub below_current : (k : ℕ) → Set.contains (parents_of m current) k ≡ true → Ancestor m k id
  below_current k e = elim (s.reached current at_top) [
    | inl same ↦ rw (← same) (parent e)
    | inr r ↦ Ancestor-parent m k current e r
  ]
    where
      at_top : Seen (current ∷ stack) visited current
      at_top = inr (contains-head current stack)

  closed_visit :
      (v p : ℕ)
      → Set.contains (Set.insert current visited) v ≡ true
      → Set.contains (parents_of m v) p ≡ true
      → Seen pushed (Set.insert current visited) p
  closed_visit v p hv hp = elim (split v hv) [
    | inl same ↦ inr (contains-pushed p ∙ here same)
    | inr old ↦ visit-Seen p (s.closed v p old hp)
  ]
    where
      split :
          (v : ℕ)
          → Set.contains (Set.insert current visited) v ≡ true
          → (current ≡ v) ⊎ (Set.contains visited v ≡ true)
      split v h = ground (arith, Set.contains-insert current v visited, eqb_iff current v)

      here : current ≡ v → (Set.contains (parents_of m current) p || Set.contains stack p) ≡ true
      here e = rw (e, hp) refl

  pub Searches-visit : Searches m id pushed (Set.insert current visited)
  Searches-visit = record {
    start = visit-Seen id s.start;
    closed = closed_visit;
    reached = λ k a. elim (unvisit-Seen k a) [
      | inl old ↦ s.reached k old
      | inr new ↦ inr (below_current k new)
    ];
  }
