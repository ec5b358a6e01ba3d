-- ===== src/Verkle/Coherence.antt =====
-- The cached computation of `compute_node_commitment` returns what the storage alone determines.
use klomang_network.Prelude.{
  ℕ, zero, suc, ◌+◌, ◌≡◌, inl, inr, some, List, [], ◌∷◌, ◌++◌, length, if◌then◌else◌, ◌==◌, list_eq,
  list_equal_iff, arith, refl, ap, ◌∙◌, Bool-cases, Option-cases, length-append,
}
use klomang_network.Prelude.Map.{Map, lookup, insert, lookup-insert}
use klomang_network.Verkle.{
  Curve, MemoryStorage, key_size, verkle_radix, node_exists, empty_subtree_root, child_scalar,
  child_scalars, compute_node_commitment,
}
use klomang_network.Verkle.Roots.{scalars_from, node_commitment}

-- Every cached commitment is the one of the storage.
abbrev pub IsCoherent : Curve → MemoryStorage → Map (List ℕ) ℕ → Type 0
IsCoherent c s cache =
    (path : List ℕ) (height commitment : ℕ)
    → length path + height ≡ key_size
    → lookup path cache ≡ some commitment
    → commitment ≡ node_commitment c s height path

-- What a computation with the cache should give at a path.
abbrev pub Right : Curve → MemoryStorage → ℕ → ℕ × Map (List ℕ) ℕ → Type 0
Right c s value result = (result.0 ≡ value) × IsCoherent c s result.1

IsCoherent-insert :
    (c : Curve) (s : MemoryStorage) (height : ℕ) (path : List ℕ) (cache : Map (List ℕ) ℕ)
    → IsCoherent c s cache
    → length path + height ≡ key_size
    → IsCoherent c s (insert path (node_commitment c s height path) cache)
IsCoherent-insert c s height path cache h at other tall m fit found =
    let split = lookup-insert path other (node_commitment c s height path) cache in
    elim (Bool-cases (path == other)) [
      | inl e ↦
          let same : path ≡ other = (list_equal_iff path other).0 e in
          let level : height ≡ tall = omega (arith, at, fit, ap (λ (p : List ℕ). length p) same) in
          let stored : m ≡ node_commitment c s height path = ground (arith, split, found, e) in
          stored ∙ rw (same, level) refl
      | inr e ↦ h other tall m fit (ground (arith, split, found, e))
    ]

module _ (c : Curve) (s : MemoryStorage) where
  child_scalar-Right :
      (height empty : ℕ) (path : List ℕ) (cache : Map (List ℕ) ℕ)
      → Right c s (node_commitment c s height path) (compute_node_commitment c s height path cache)
      → IsCoherent c s cache
      → Right c s
          (if node_exists s path
            then c.scalar_of (c.root_hash (node_commitment c s height path))
            else empty)
          (child_scalar c (compute_node_commitment c s height) s empty path cache)
  unfolding child_scalar
  child_scalar-Right height empty path cache child h = elim (Bool-cases (node_exists s path)) [
    | inl e ↦ rw (e, child_scalar) (rw child.0 refl, child.1)
    | inr e ↦ rw (e, child_scalar) (refl, h)
  ]

  pub child_scalars-Right :
      (height empty : ℕ) (path : List ℕ) (todo index : ℕ) (cache : Map (List ℕ) ℕ)
      → ((p : List ℕ) (memo : Map (List ℕ) ℕ)
          → IsCoherent c s memo
          → length p + height ≡ key_size
          → Right c s (node_commitment c s height p) (compute_node_commitment c s height p memo))
      → length path + suc height ≡ key_size
      → IsCoherent c s cache
      → ((child_scalars c (compute_node_commitment c s height) s empty path todo index cache).0
          ≡ scalars_from c (node_commitment c s height) s empty path todo index)
        × IsCoherent c s
            (child_scalars c (compute_node_commitment c s height) s empty path todo index cache).1
  unfolding child_scalars scalars_from
  child_scalars-Right height empty path zero index cache child at h = (refl, h)
  child_scalars-Right height empty path (suc todo) index cache child at h =
      let below : length (path ++ index ∷ []) + height ≡ key_size =
        omega (arith, at, length-append path (index ∷ [])) in
      let one =
        child_scalar-Right height empty (path ++ index ∷ []) cache
          (child (path ++ index ∷ []) cache h below) h in
      let rest =
        child_scalars-Right height empty path todo (index + 1)
          (child_scalar c (compute_node_commitment c s height) s empty (path ++ index ∷ []) cache).1
          child at one.1 in
      (rw (one.0, rest.0) refl, rest.1)

  -- On a cache whose entries belong to the storage, the commitment is that of the storage.
  pub compute_node_commitment-Right :
      (height : ℕ) (path : List ℕ) (cache : Map (List ℕ) ℕ)
      → IsCoherent c s cache
      → length path + height ≡ key_size
      → Right c s (node_commitment c s height path) (compute_node_commitment c s height path cache)
  unfolding compute_node_commitment node_commitment
  compute_node_commitment-Right zero path cache h at = elim (Option-cases (lookup path cache)) [
    | inr (m, e) ↦ rw (e, compute_node_commitment) (h path zero m at e, h)
    | inl e ↦ rw (e, compute_node_commitment) (refl, IsCoherent-insert c s zero path cache h at)
  ]
  compute_node_commitment-Right (suc height) path cache h at =
      elim (Option-cases (lookup path cache)) [
        | inr (m, e) ↦ rw (e, compute_node_commitment) (h path (suc height) m at e, h)
        | inl e ↦
            let inner =
              child_scalars-Right height (c.scalar_of (empty_subtree_root c height)) path
                verkle_radix 0 cache (λ p memo. compute_node_commitment-Right height p memo) at h in
            rw (e, compute_node_commitment)
              (
                ap c.commit inner.0,
                rw inner.0 (
                    IsCoherent-insert c s (suc height) path
                      (child_scalars c (compute_node_commitment c s height) s
                        (c.scalar_of (empty_subtree_root c height)) path verkle_radix 0 cache).1
                      inner.1 at),
              )
      ]
