-- ===== src/Verkle/Toys.antt =====
-- A curve whose commitments do not collide, for the tests.
use klomang_network.Prelude.{
  ℕ, zero, suc, ◌+◌, ◌*◌, ◌≡◌, List, [], ◌∷◌, arith, refl, ap, sym, list_eq,
}
use klomang_network.Verkle.{Curve, value_to_scalar, empty_subtree_root}
use klomang_network.Verkle.Proofs.{leaf_of}
use klomang_network.Verkle.Binding.{Binds}

-- The odd numbers, doubled as often as the first says.
doubled : ℕ → ℕ → ℕ
doubled zero m = 2 * m + 1
doubled (suc a) m = 2 * doubled a m

doubled-injective : (a b m n : ℕ) → doubled a m ≡ doubled b n → (a ≡ b) × (m ≡ n)
unfolding doubled
doubled-injective zero zero m n h = (refl, omega (arith, h))
doubled-injective zero (suc b) m n h = absurd (omega (arith, h))
doubled-injective (suc a) zero m n h = absurd (omega (arith, h))
doubled-injective (suc a) (suc b) m n h =
    let (same, rest) = doubled-injective a b m n (omega (arith, h)) in (ap suc same, rest)

doubled-positive : (a m : ℕ) → doubled a m ≡ 0 → ⊥
unfolding doubled
doubled-positive zero m h = omega (arith, h)
doubled-positive (suc a) m h = doubled-positive a m (omega (arith, h))

pub encode : List ℕ → ℕ
encode [] = 0
encode (a ∷ l) = doubled a (encode l)

encode-injective : (l l' : List ℕ) → encode l ≡ encode l' → l ≡ l'
unfolding encode
encode-injective [] [] h = refl
encode-injective [] (a ∷ l) h = absurd (doubled-positive a (encode l) (sym h))
encode-injective (a ∷ l) [] h = absurd (doubled-positive a (encode l) h)
encode-injective (a ∷ l) (b ∷ l') h =
    let (same, rest) = doubled-injective a b (encode l) (encode l') h in
    rw (same, encode-injective l l' rest) refl

abbrev pub plain_curve : Curve
plain_curve = record { commit = encode; root_hash = λ n. n; scalar_of = λ n. n; blake3 = encode }

pub plain_curve-Binds : Binds plain_curve
unfolding leaf_of value_to_scalar encode empty_subtree_root
plain_curve-Binds = record {
  levels = λ l l' n h. encode-injective l l' h;
  values = λ v v' h. encode-injective v v' h;
  occupied = λ v h. doubled-positive (encode v) 0 h;
}
