-- ===== src/Prelude/Paths.antt =====
-- Lists of bytes as keys of maps, and the prefixes of a list.
use Prim.Native.Nat.{ℕ}
use mathlib.Core.Path.{◌≡◌, refl}
use mathlib.Core.Logic.{◌↔◌}
use mathlib.Core.Bool.{Bool, true, false, ◌&&◌}
use mathlib.Core.List.{List, [], ◌∷◌, ◌++◌}
use native.Mathlib.Omega.{arith}
use klomang_network.Prelude.Tests.{Eq, eqb}

abbrev pub list_equal : List ℕ → List ℕ → Bool
list_equal [] [] = true
list_equal [] (b ∷ bs) = false
list_equal (a ∷ as') [] = false
list_equal (a ∷ as') (b ∷ bs) = eqb a b && list_equal as' bs

pub list_equal_iff : (p q : List ℕ) → (list_equal p q ≡ true) ↔ (p ≡ q)
list_equal_iff [] [] = ground arith
list_equal_iff [] (b ∷ bs) = ground arith
list_equal_iff (a ∷ as') [] = ground arith
list_equal_iff (a ∷ as') (b ∷ bs) = ground (arith, list_equal_iff as' bs)

instance abbrev pub list_eq : Eq (List ℕ)
list_eq = record { equal = list_equal; equal_iff = list_equal_iff }

unfoldable pub is_prefix : List ℕ → List ℕ → Bool
is_prefix [] q = true
is_prefix (a ∷ p) [] = false
is_prefix (a ∷ p) (b ∷ q) = eqb a b && is_prefix p q

pub is_prefix-append : (p q : List ℕ) → is_prefix p (p ++ q) ≡ true
unfolding is_prefix
is_prefix-append [] q = refl
is_prefix-append (a ∷ p) q = ground (arith, is_prefix-append p q)

-- A prefix of a longer list only if of the shorter one.
pub is_prefix-drop : (p q key : List ℕ) → is_prefix p key ≡ false → is_prefix (p ++ q) key ≡ false
unfolding is_prefix
is_prefix-drop [] q key h = absurd (ground arith)
is_prefix-drop (a ∷ p) q [] h = refl
is_prefix-drop (a ∷ p) q (b ∷ key) h = ground (arith, is_prefix-drop p q key)
