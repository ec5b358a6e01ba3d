-- ===== src/Prelude/Sort.antt =====
-- Insertion sort of numbers, for the `sort` calls of the program.
use Prim.Native.Nat.{ℕ, suc}
use mathlib.Core.Path.{◌≡◌, refl}
use mathlib.Core.List.{List, [], ◌∷◌}
use native.Mathlib.Omega.{arith}
use klomang_network.Prelude.Tests.{nat_eq, leb, if◌then◌else◌}
use klomang_network.Prelude.Lists.{length}
use klomang_network.Prelude.Set

unfoldable pub insert_in_order : ℕ → List ℕ → List ℕ
insert_in_order a [] = a ∷ []
insert_in_order a (b ∷ bs) =
    let rest = insert_in_order a bs in if leb a b then a ∷ b ∷ bs else b ∷ rest

unfoldable pub sort : List ℕ → List ℕ
unfolding insert_in_order
sort [] = []
sort (a ∷ as') = insert_in_order a (sort as')

contains-insert_in_order :
    (k a : ℕ) (bs : List ℕ) → Set.contains (insert_in_order a bs) k ≡ Set.contains (a ∷ bs) k
unfolding insert_in_order Set.contains
contains-insert_in_order k a [] = refl
contains-insert_in_order k a (b ∷ bs) = ground (arith, contains-insert_in_order k a bs)

pub contains-sort : (k : ℕ) (xs : List ℕ) → Set.contains (sort xs) k ≡ Set.contains xs k
unfolding sort Set.contains
contains-sort k [] = refl
contains-sort k (a ∷ as') =
    ground (arith, contains-insert_in_order k a (sort as'), contains-sort k as')

length-insert_in_order : (a : ℕ) (bs : List ℕ) → length (insert_in_order a bs) ≡ suc (length bs)
unfolding insert_in_order
length-insert_in_order a [] = refl
length-insert_in_order a (b ∷ bs) = ground (arith, length-insert_in_order a bs)

pub length-sort : (xs : List ℕ) → length (sort xs) ≡ length xs
unfolding sort
length-sort [] = refl
length-sort (a ∷ as') = ground (arith, length-insert_in_order a (sort as'), length-sort as')
