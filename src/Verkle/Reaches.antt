-- ===== src/Verkle/Reaches.antt =====
-- Where the loop of `verify_proof` arrives from the siblings of right nodes.
use klomang_network.Prelude.{
  ℕ, zero, suc, ◌+◌, ◌≡◌, inl, inr, Bool, true, false, List, [], ◌∷◌, ◌++◌, eqb, length, take, drop,
  if◌then◌else◌, arith, refl, ap, sym, ◌∙◌, eqb_iff, Bool-cases, take-append, drop-append,
  length-append,
}
use mathlib.Core.Path.{subst}
use klomang_network.Prelude.Map.{Map}
use klomang_network.Verkle.{
  Curve, MemoryStorage, key_size, verkle_radix, node_exists, empty_subtree_root, repeat,
}
use klomang_network.Verkle.Roots.{scalars_from, node_commitment}
use klomang_network.Verkle.Coherence.{IsCoherent, Right, compute_node_commitment-Right}
use klomang_network.Verkle.Proofs.{
  child_root, child_roots, coeffs_from, level_root, path_scalar, path_root,
}

-- The roots of the children that the storage determines.
unfoldable pub roots_from : Curve → MemoryStorage → ℕ → List ℕ → ℕ → ℕ → List ℕ
roots_from c s height path zero index = []
roots_from c s height path (suc todo) index =
    (if node_exists s (path ++ index ∷ [])
      then c.root_hash (node_commitment c s height (path ++ index ∷ []))
      else empty_subtree_root c height)
    ∷ roots_from c s height path todo (index + 1)

module _ (c : Curve) (s : MemoryStorage) where
  pub length-roots_from :
      (height : ℕ) (path : List ℕ) (todo index : ℕ)
      → length (roots_from c s height path todo index) ≡ todo
  unfolding roots_from
  length-roots_from height path zero index = refl
  length-roots_from height path (suc todo) index =
      ap suc (length-roots_from height path todo (index + 1))

  pub length-repeat : (n a : ℕ) → length (repeat n a) ≡ n
  unfolding repeat
  length-repeat zero a = refl
  length-repeat (suc n) a = ap suc (length-repeat n a)

  child_root-Right :
      (height : ℕ) (path : List ℕ) (cache : Map (List ℕ) ℕ)
      → IsCoherent c s cache
      → length path + height ≡ key_size
      → Right c s
          (if node_exists s path
            then c.root_hash (node_commitment c s height path)
            else empty_subtree_root c height)
          (child_root c s height path cache)
  unfolding child_root
  child_root-Right height path cache h at =
      let right = compute_node_commitment-Right c s height path cache h at in
      elim (Bool-cases (node_exists s path)) [
        | inl e ↦ rw (e, child_root) (ap c.root_hash right.0, right.1)
        | inr e ↦ rw (e, child_root) (refl, h)
      ]

  pub child_roots-Right :
      (height : ℕ) (path : List ℕ) (todo index : ℕ) (cache : Map (List ℕ) ℕ)
      → length path + suc height ≡ key_size
      → IsCoherent c s cache
      → ((child_roots c s height path todo index cache).0 ≡ roots_from c s height path todo index)
        × IsCoherent c s (child_roots c s height path todo index cache).1
  unfolding child_roots roots_from
  child_roots-Right height path zero index cache at h = (refl, h)
  child_roots-Right height path (suc todo) index cache at h =
      let one =
        child_root-Right height (path ++ index ∷ []) cache h
          (omega (arith, at, length-append path (index ∷ []))) in
      let rest =
        child_roots-Right height path todo (index + 1)
          (child_root c s height (path ++ index ∷ []) cache).1 at one.1 in
      (rw (one.0, rest.0) refl, rest.1)

  push_if :
      (b : Bool) (x y : ℕ)
      → c.scalar_of (if b then x else y) ≡ (if b then c.scalar_of x else c.scalar_of y)
  push_if true x y = refl
  push_if false x y = refl

  -- The scalar is that of the child at an index.
  abbrev Elem : ℕ → List ℕ → ℕ → ℕ → Type 0
  Elem height path current i = current ≡ (
      if node_exists s (path ++ i ∷ [])
      then c.scalar_of (c.root_hash (node_commitment c s height (path ++ i ∷ [])))
      else c.scalar_of (empty_subtree_root c height))

  -- With the right scalar below the path, the coefficients of a depth are those of its node.
  pub coeffs_from-roots_from :
      (height byte current : ℕ) (path : List ℕ) (todo index : ℕ)
      → current ≡ (
          if node_exists s (path ++ byte ∷ [])
          then c.scalar_of (c.root_hash (node_commitment c s height (path ++ byte ∷ [])))
          else c.scalar_of (empty_subtree_root c height))
      → coeffs_from c byte current index (roots_from c s height path todo index)
        ≡ scalars_from c
            (node_commitment c s height)
            s
            (c.scalar_of (empty_subtree_root c height))
            path
            todo
            index
  unfolding coeffs_from roots_from scalars_from
  coeffs_from-roots_from height byte current path zero index e = refl
  coeffs_from-roots_from height byte current path (suc todo) index e =
      rw (coeffs_from-roots_from height byte current path todo (index + 1) e) (
        ap
          (λ (a : ℕ).
            a
            ∷ scalars_from c (node_commitment c s height) s
                (c.scalar_of (empty_subtree_root c height)) path todo (index + 1))
          (elim (Bool-cases (eqb index byte)) [
            | inl h ↦
                let same : index ≡ byte = (eqb_iff index byte).0 h in
                rw h (subst (Elem height path current) (sym same) e)
            | inr h ↦ rw h (
                push_if (node_exists s (path ++ index ∷ []))
                  (c.root_hash (node_commitment c s height (path ++ index ∷ [])))
                  (empty_subtree_root c height))
          ]))

  pub coeffs_from-repeat :
      (byte a n index : ℕ)
      → coeffs_from c byte (c.scalar_of a) index (repeat n a) ≡ repeat n (c.scalar_of a)
  unfolding coeffs_from repeat
  coeffs_from-repeat byte a zero index = refl
  coeffs_from-repeat byte a (suc n) index = ground (arith, coeffs_from-repeat byte a n (index + 1))

  -- Where the bytes lead from the siblings and the leaf.
  unfoldable pub Reaches : List ℕ → List ℕ → ℕ → ℕ → Type 0
  Reaches [] siblings leaf target = leaf ≡ c.scalar_of target
  Reaches (byte ∷ bytes) siblings leaf target = path_root c (byte ∷ bytes) siblings leaf ≡ target

  Reaches-scalar :
      (bytes siblings : List ℕ) (leaf target : ℕ)
      → Reaches bytes siblings leaf target
      → path_scalar c bytes siblings leaf ≡ c.scalar_of target
  unfolding Reaches path_scalar path_root
  Reaches-scalar [] siblings leaf target h = h
  Reaches-scalar (byte ∷ bytes) siblings leaf target h = ap c.scalar_of h

  -- One depth more, above the siblings of the depths below.
  pub Reaches-level :
      (byte : ℕ) (bytes roots rest : List ℕ) (leaf below target : ℕ)
      → length roots ≡ verkle_radix
      → Reaches bytes rest leaf below
      → c.root_hash (c.commit (coeffs_from c byte (c.scalar_of below) 0 roots)) ≡ target
      → Reaches (byte ∷ bytes) (roots ++ rest) leaf target
  unfolding Reaches path_root level_root
  Reaches-level byte bytes roots rest leaf below target n h e =
      let front : take verkle_radix (roots ++ rest) ≡ roots = rw⁻¹ n (take-append roots rest) in
      let back : drop verkle_radix (roots ++ rest) ≡ rest = rw⁻¹ n (drop-append roots rest) in
      let under : path_scalar c bytes (drop verkle_radix (roots ++ rest)) leaf ≡ c.scalar_of below =
        ap (λ (l : List ℕ). path_scalar c bytes l leaf) back
        ∙ Reaches-scalar bytes rest leaf below h in
      ap
        (λ (l : List ℕ). c.root_hash (
          c.commit (
            coeffs_from c byte (path_scalar c bytes (drop verkle_radix (roots ++ rest)) leaf) 0 l)))
        front
      ∙ ap (λ (x : ℕ). c.root_hash (c.commit (coeffs_from c byte x 0 roots))) under
      ∙ e
