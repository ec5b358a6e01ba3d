-- ===== src/Verkle/Binding.antt =====
-- Two proofs that `verify_proof` accepts for one key and one root carry the same leaf.
use klomang_network.Prelude.{
  ℕ, zero, suc, ◌+◌, ◌*◌, ◌<◌, ◌≤◌, ◌≡◌, inl, inr, Bool, true, false, not, Option, none, some, List,
  [], ◌∷◌, eqb, length, take, drop, if◌then◌else◌, All, arith, refl, ap, sym, ◌∙◌, eqb_iff,
  Bool-cases,
}
use klomang_network.Prelude.Result.{Result, ok, err, ◌>>◌}
use klomang_network.Verkle.{Curve, key_size, verkle_radix, value_to_scalar}
use klomang_network.Verkle.Proofs.{
  VerkleProof, Openings, check_openings, coeffs_from, level_root, path_scalar, path_root, leaf_of,
  type_matches, fee_matches, verify_proof,
}

-- Commitments to as many coefficients, values and leaves do not collide.
pub record Binds (c : Curve) : Type 0 where
  pub levels :
      (l l' : List ℕ)
      → length l ≡ length l'
      → c.scalar_of (c.root_hash (c.commit l)) ≡ c.scalar_of (c.root_hash (c.commit l'))
      → l ≡ l'
  pub values : (v v' : List ℕ) → value_to_scalar c v ≡ value_to_scalar c v' → v ≡ v'
  pub occupied : (v : List ℕ) → leaf_of c (some v) ≡ leaf_of c none → ⊥

abbrev pub IsByte : ℕ → Type 0
IsByte byte = byte < verkle_radix

length-take_some : (n m : ℕ) (l : List ℕ) → length l ≡ n + m → length (take n l) ≡ n
length-take_some zero m l h = refl
length-take_some (suc n) m [] h = absurd (omega (arith, h))
length-take_some (suc n) m (a ∷ l) h = ap suc (length-take_some n m l (omega (arith, h)))

length-drop_some : (n m : ℕ) (l : List ℕ) → length l ≡ n + m → length (drop n l) ≡ m
length-drop_some zero m l h = omega (arith, h)
length-drop_some (suc n) m [] h = absurd (omega (arith, h))
length-drop_some (suc n) m (a ∷ l) h = length-drop_some n m l (omega (arith, h))

module _ (c : Curve) where
  length-coeffs_from :
      (byte current index : ℕ) (l : List ℕ) → length (coeffs_from c byte current index l) ≡ length l
  unfolding coeffs_from
  length-coeffs_from byte current index [] = refl
  length-coeffs_from byte current index (a ∷ l) =
      ap suc (length-coeffs_from byte current (index + 1) l)

  -- The coefficients of a depth determine the scalar below the path.
  coeffs_from-current :
      (byte current current' index : ℕ) (l l' : List ℕ)
      → length l ≡ length l'
      → index ≤ byte
      → byte < index + length l
      → coeffs_from c byte current index l ≡ coeffs_from c byte current' index l'
      → current ≡ current'
  unfolding coeffs_from
  coeffs_from-current byte current current' index [] l' n low high h = absurd (omega arith)
  coeffs_from-current byte current current' index (a ∷ l) [] n low high h = absurd (omega arith)
  coeffs_from-current byte current current' index (a ∷ l) (a' ∷ l') n low high h =
      elim (Bool-cases (eqb index byte)) [
        | inl e ↦ ground (arith, h, e)
        | inr e ↦
            coeffs_from-current byte current current' (index + 1) l l' (omega (arith, n))
              (ground (arith, eqb_iff index byte, e, low)) (omega (arith, high)) (ground (arith, h))
      ]

  module _ (b : Binds c) where
    -- The scalar at the top of a path determines the leaf.
    path_scalar-leaf :
        (bytes siblings siblings' : List ℕ) (leaf leaf' : ℕ)
        → All IsByte bytes
        → length siblings ≡ length bytes * verkle_radix
        → length siblings' ≡ length bytes * verkle_radix
        → path_scalar c bytes siblings leaf ≡ path_scalar c bytes siblings' leaf'
        → leaf ≡ leaf'
    unfolding path_scalar level_root
    path_scalar-leaf [] siblings siblings' leaf leaf' small n n' h = h
    path_scalar-leaf (byte ∷ bytes) siblings siblings' leaf leaf' small n n' h =
        let m = length bytes * verkle_radix in
        let s : length siblings ≡ verkle_radix + m = omega (arith, n) in
        let s' : length siblings' ≡ verkle_radix + m = omega (arith, n') in
        let front = length-take_some verkle_radix m siblings s in
        let front' = length-take_some verkle_radix m siblings' s' in
        let under = path_scalar c bytes (drop verkle_radix siblings) leaf in
        let under' = path_scalar c bytes (drop verkle_radix siblings') leaf' in
        let coeffs =
          b.levels (coeffs_from c byte under 0 (take verkle_radix siblings))
            (coeffs_from c byte under' 0 (take verkle_radix siblings'))
            (length-coeffs_from byte under 0 (take verkle_radix siblings)
              ∙ front
              ∙ sym (length-coeffs_from byte under' 0 (take verkle_radix siblings') ∙ front'))
            h in
        path_scalar-leaf bytes (drop verkle_radix siblings) (drop verkle_radix siblings') leaf leaf'
          small.1 (length-drop_some verkle_radix m siblings s)
          (length-drop_some verkle_radix m siblings' s')
          (coeffs_from-current byte under under' 0 (take verkle_radix siblings)
            (take verkle_radix siblings') (front ∙ sym front') (omega arith)
            (omega (arith, front, small.0)) coeffs)

    -- The scalar of a leaf determines the value, or that there is none.
    leaf_of-value : (o o' : Option (List ℕ)) → leaf_of c o ≡ leaf_of c o' → o ≡ o'
    unfolding leaf_of
    leaf_of-value none none h = refl
    leaf_of-value (some v) none h = absurd (b.occupied v h)
    leaf_of-value none (some v) h = absurd (b.occupied v (sym h))
    leaf_of-value (some v) (some v') h =
        let x = value_to_scalar c v in
        let x' = value_to_scalar c v' in
        let same : x ∷ [] ≡ x' ∷ [] = b.levels (x ∷ []) (x' ∷ []) refl h in
        ap some (b.values v v' (ground (arith, same)))

passed_if :
    (b : Bool) (r : Result (Unit {0}) Bool)
    → (if not b then ok false else r) ≡ ok true
    → (b ≡ true) × (r ≡ ok true)
passed_if true r h = (refl, h)
passed_if false r h = absurd (ground (arith, h))

passed_then :
    (m : Result (Unit {0}) (Unit {0})) (r : Result (Unit {0}) Bool)
    → (m >> r) ≡ ok true
    → r ≡ ok true
passed_then (ok tt) r h = h
passed_then (err e) r h = absurd (ground (arith, h))

-- What the shape and the root of an accepted proof are.
pub record Passed {O : Type 0} (c : Curve) (proof : VerkleProof O ℕ) : Type 0 where
  pub whole : length proof.path ≡ key_size
  wide : length proof.siblings ≡ key_size * verkle_radix
  rooted : path_root c proof.path proof.siblings (leaf_of c proof.leaf_value) ≡ proof.root

pub verify_proof-Passed :
    {O : Type 0} (c : Curve) (p : Openings O) (proof : VerkleProof O ℕ)
    → verify_proof c p proof ≡ ok true
    → Passed c proof
unfolding verify_proof
verify_proof-Passed c p proof h =
    let computed = path_root c proof.path proof.siblings (leaf_of c proof.leaf_value) in
    let fees : Result (Unit {0}) Bool = ok (fee_matches proof.gas_fee_distribution) in
    let end : Result (Unit {0}) Bool = if not (eqb computed proof.root) then ok false else fees in
    let all : Result (Unit {0}) Bool = check_openings c p proof.opening_proofs >> end in
    let typed : Result (Unit {0}) Bool =
      if not (type_matches proof.proof_type proof.leaf_value) then ok false else all in
    let sized : Result (Unit {0}) Bool =
      if not (eqb (length proof.siblings) (key_size * verkle_radix)) then ok false else typed in
    let a = passed_if (eqb (length proof.path) key_size) sized h in
    let w = passed_if (eqb (length proof.siblings) (key_size * verkle_radix)) typed a.1 in
    let k = passed_if (type_matches proof.proof_type proof.leaf_value) all w.1 in
    let r =
      passed_if (eqb computed proof.root) fees
        (passed_then (check_openings c p proof.opening_proofs) end k.1) in
    record {
      whole = (eqb_iff (length proof.path) key_size).0 a.0;
      wide = (eqb_iff (length proof.siblings) (key_size * verkle_radix)).0 w.0;
      rooted = (eqb_iff computed proof.root).0 r.0;
    }

path_scalar-path_root :
    (c : Curve) (path siblings : List ℕ) (leaf : ℕ)
    → length path ≡ key_size
    → path_scalar c path siblings leaf ≡ c.scalar_of (path_root c path siblings leaf)
unfolding path_scalar path_root
path_scalar-path_root c [] siblings leaf n = absurd (omega (arith, n))
path_scalar-path_root c (byte ∷ bytes) siblings leaf n = refl

-- Where commitments do not collide, two proofs that are accepted for the same path of bytes and
-- the same root carry the same leaf: the same value, or both none.
pub verify_proof-binding :
    {O O' : Type 0} (c : Curve) (p : Openings O) (p' : Openings O') (proof : VerkleProof O ℕ)
    (proof' : VerkleProof O' ℕ)
    → Binds c
    → All IsByte proof.path
    → proof.path ≡ proof'.path
    → proof.root ≡ proof'.root
    → verify_proof c p proof ≡ ok true
    → verify_proof c p' proof' ≡ ok true
    → proof.leaf_value ≡ proof'.leaf_value
verify_proof-binding c p p' proof proof' b small path root h h' =
    let a = verify_proof-Passed c p proof h in
    let a' = verify_proof-Passed c p' proof' h' in
    let leaf = leaf_of c proof.leaf_value in
    let leaf' = leaf_of c proof'.leaf_value in
    let turned : path_root c proof.path proof'.siblings leaf' ≡ proof'.root = rw path a'.rooted in
    let top : path_scalar c proof.path proof.siblings leaf
        ≡ path_scalar c proof.path proof'.siblings leaf' =
      path_scalar-path_root c proof.path proof.siblings leaf a.whole
      ∙ ap c.scalar_of (a.rooted ∙ root ∙ sym turned)
      ∙ sym (path_scalar-path_root c proof.path proof'.siblings leaf' a.whole) in
    let count = ap (λ (n : ℕ). n * verkle_radix) a.whole in
    leaf_of-value c b proof.leaf_value proof'.leaf_value (
      path_scalar-leaf c b proof.path proof.siblings proof'.siblings leaf leaf' small
        (a.wide ∙ sym count) (a'.wide ∙ sym count) top)
