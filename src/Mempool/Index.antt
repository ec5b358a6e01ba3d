-- ===== src/Mempool/Index.antt =====
-- The priority index of mempool.rs: the order of its keys and the operations of the tree set.
use klomang_network.Prelude.{
  ◌≡◌, ◌↔◌, inl, inr, true, false, ◌||◌, ◌&&◌, not, List, [], ◌∷◌, Eq, arith, refl, none, some,
  Option-cases, Bool-cases,
}
use klomang_network.Prelude.Set
use klomang_network.Mempool.{PriorityKey, before, same_key, insert_key, remove_key, last_key}

pub same_key_iff : (a b : PriorityKey) → (same_key a b ≡ true) ↔ (a ≡ b)
same_key_iff a b = ground arith

instance abbrev pub key_eq : Eq PriorityKey
key_eq = record { equal = same_key; equal_iff = same_key_iff }

pub contains-insert_key :
    (a k : PriorityKey) (xs : List PriorityKey)
    → Set.contains (insert_key a xs) k ≡ (same_key a k || Set.contains xs k)
unfolding Set.contains insert_key
contains-insert_key a k [] = refl
contains-insert_key a k (x ∷ xs) = ground (arith, contains-insert_key a k xs, same_key_iff a x)

pub contains-remove_key :
    (a k : PriorityKey) (xs : List PriorityKey)
    → Set.contains (remove_key a xs) k ≡ (not (same_key a k) && Set.contains xs k)
unfolding Set.contains remove_key
contains-remove_key a k [] = ground arith
contains-remove_key a k (x ∷ xs) =
    ground (arith, contains-remove_key a k xs, same_key_iff a x, same_key_iff a k, same_key_iff x k)

pub last_key-contains :
    (a : PriorityKey) (xs : List PriorityKey) → last_key xs ≡ some a → Set.contains xs a ≡ true
unfolding Set.contains last_key
last_key-contains a [] h = ground arith
last_key-contains a (x ∷ xs) h = ground (arith, last_key-contains a xs, same_key_iff x a)

pub last_key-none : (xs : List PriorityKey) → last_key xs ≡ none → xs ≡ []
unfolding last_key
last_key-none [] h = refl
last_key-none (x ∷ xs) h = ground arith

-- Every key of the list stands after the one given.
abbrev pub After : PriorityKey → List PriorityKey → Type 0
After a xs = (k : PriorityKey) → Set.contains xs k ≡ true → before a k ≡ true

abbrev pub IsSorted : List PriorityKey → Type 0
IsSorted [] = Unit {0}
IsSorted (x ∷ xs) = After x xs × IsSorted xs

before_trans : (a b c : PriorityKey) → before a b ≡ true → before b c ≡ true → before a c ≡ true
before_trans a b c h g = ground arith

before_total : (a b : PriorityKey) → before a b ≡ false → same_key a b ≡ false → before b a ≡ true
before_total a b h g = ground arith

pub IsSorted-insert_key :
    (a : PriorityKey) (xs : List PriorityKey) → IsSorted xs → IsSorted (insert_key a xs)
unfolding insert_key Set.contains
IsSorted-insert_key a [] s = (none_after, tt)
  where
    none_after : After a []
    none_after k h = ground arith
IsSorted-insert_key a (x ∷ xs) (f, s) = elim (Bool-cases (before a x)) [
  | inl first ↦ rw (first) (first_after first, (f, s))
  | inr later ↦ elim (Bool-cases (same_key a x)) [
    | inl same ↦ rw (later, same) (f, s)
    | inr differ ↦ rw (later, differ) (rest_after later differ, IsSorted-insert_key a xs s)
  ]
]
  where
    first_after : before a x ≡ true → After a (x ∷ xs)
    first_after h k e = ground (arith, before_trans a x k h, f k, same_key_iff x k)

    rest_after : before a x ≡ false → same_key a x ≡ false → After x (insert_key a xs)
    rest_after h n k e =
        ground (arith, contains-insert_key a k xs, before_total a x h n, f k, same_key_iff a k)

pub IsSorted-remove_key :
    (a : PriorityKey) (xs : List PriorityKey) → IsSorted xs → IsSorted (remove_key a xs)
unfolding remove_key Set.contains
IsSorted-remove_key a [] s = tt
IsSorted-remove_key a (x ∷ xs) (f, s) = elim (Bool-cases (same_key a x)) [
  | inl same ↦ rw (same) (IsSorted-remove_key a xs s)
  | inr differ ↦ rw (differ) (rest_after, IsSorted-remove_key a xs s)
]
  where
    rest_after : After x (remove_key a xs)
    rest_after k e = ground (arith, contains-remove_key a k xs, f k)

pub last_key-last :
    (a k : PriorityKey) (xs : List PriorityKey)
    → IsSorted xs
    → last_key xs ≡ some a
    → Set.contains xs k ≡ true
    → (same_key k a || before k a) ≡ true
unfolding Set.contains last_key
last_key-last a k [] s h e = ground arith
last_key-last a k (x ∷ xs) (f, s) h e = elim (Option-cases (last_key xs)) [
  | inl none_left ↦ only none_left (last_key-none xs none_left)
  | inr (b, e') ↦
      ground (arith, last_key-last a k xs s, last_key-contains a xs, f a, same_key_iff x k)
]
  where
    only : last_key xs ≡ none → xs ≡ [] → (same_key k a || before k a) ≡ true
    only n m = ground (arith, same_key_iff x k, same_key_iff k a)
