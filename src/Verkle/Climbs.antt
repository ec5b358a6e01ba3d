-- ===== src/Verkle/Climbs.antt =====
-- What the loop of `generate_proof_with_witness` collects: siblings that lead to the root.
use klomang_network.Prelude.{
  ℕ, suc, ◌+◌, ◌*◌, ◌≡◌, inl, inr, Bool, true, false, Option, none, some, List, [], ◌∷◌, ◌++◌,
  length, if◌then◌else◌, is_some, arith, refl, ap, sym, ◌∙◌, Bool-cases, Option-cases,
  length-append,
}
use mathlib.Core.Path.{subst}
use klomang_network.Prelude.Map.{Map}
use klomang_network.Prelude.Result.{ok}
use klomang_network.Verkle.{
  Curve, MemoryStorage, key_size, verkle_radix, node_exists, get_node_value, leaf_scalar,
  empty_subtree_root, child_scalars, compute_node_commitment, repeat,
}
use klomang_network.Verkle.Roots.{node_commitment}
use klomang_network.Verkle.Coherence.{
  IsCoherent, child_scalars-Right, compute_node_commitment-Right,
}
use klomang_network.Verkle.Proofs.{
  Openings, Walk, child_roots, depth_roots, open_child, walk, check_openings, coeffs_from, leaf_of,
}
use klomang_network.Verkle.Reaches.{
  roots_from, length-roots_from, length-repeat, child_roots-Right, coeffs_from-roots_from,
  coeffs_from-repeat, Reaches, Reaches-level,
}

-- Every key as deep as a leaf has a value where it has a node.
abbrev pub IsFull : MemoryStorage → Type 0
IsFull s = (q : List ℕ) → length q ≡ key_size → node_exists s q ≡ is_some (get_node_value s q)

-- The check of an opening proof that was made does not fail.
abbrev pub IsChecked : {O : Type 0} → Openings O → Type 0
IsChecked {O} p =
    (coeffs : List ℕ) (point value : ℕ) (o : O)
    → p.open_at coeffs point value ≡ some o
    → is_some (p.verify o) ≡ true

module _ (c : Curve) (s : MemoryStorage) where
  module _ {O : Type 0} (p : Openings O) where
    abbrev pub leaf_value : Walk O → Option (List ℕ)
    leaf_value w = if w.live then get_node_value s w.path else none

    -- What the loop over the bytes should collect.
    pub record Climbs (bytes : List ℕ) (target : ℕ) (w : Walk O) : Type 0 where
      pub reaches : Reaches c s bytes w.siblings (leaf_of c (leaf_value w)) target
      pub size : length w.siblings ≡ length bytes * verkle_radix
      pub checked : check_openings c p w.openings ≡ ok tt
      pub coherent : IsCoherent c s w.cache

    walk-dead :
        (bytes path : List ℕ) (cache : Map (List ℕ) ℕ)
        → IsCoherent c s cache
        → Climbs bytes (empty_subtree_root c (length bytes)) (walk c p s bytes path false cache)
    unfolding walk depth_roots open_child check_openings Reaches leaf_of empty_subtree_root
    walk-dead [] path cache h = record { reaches = refl; size = refl; checked = refl; coherent = h }
    walk-dead (byte ∷ bytes) path cache h =
        let rest = walk-dead bytes path cache h in
        let w = walk c p s bytes path false cache in
        let roots = repeat verkle_radix (empty_subtree_root c (length bytes)) in
        record {
          reaches =
              Reaches-level c s byte bytes roots w.siblings (leaf_of c (leaf_value w))
                (empty_subtree_root c (length bytes)) (empty_subtree_root c (suc (length bytes)))
                (length-repeat c s verkle_radix (empty_subtree_root c (length bytes))) rest.reaches
                (ap (λ (l : List ℕ). c.root_hash (c.commit l))
                  (coeffs_from-repeat c s byte (empty_subtree_root c (length bytes)) verkle_radix
                    0));
          size = omega (
            arith,
            length-append roots w.siblings,
            length-repeat c s verkle_radix (empty_subtree_root c (length bytes)),
            rest.size,
          );
          checked = rest.checked;
          coherent = rest.coherent;
        }

    check_openings-append :
        (os os' : List O)
        → check_openings c p os ≡ ok tt
        → check_openings c p os' ≡ ok tt
        → check_openings c p (os ++ os') ≡ ok tt
    unfolding check_openings
    check_openings-append [] os' h h' = h'
    check_openings-append (o ∷ os) os' h h' = elim (Option-cases (p.verify o)) [
      | inl e ↦ absurd (ground (arith, h, e))
      | inr (b, e) ↦ rw (e, check_openings) (check_openings-append os os' (ground (arith, h, e)) h')
    ]

    open_child-checked :
        (height : ℕ) (path : List ℕ) (byte : ℕ) (cache : Map (List ℕ) ℕ)
        → IsChecked p
        → length path + suc height ≡ key_size
        → IsCoherent c s cache
        → (check_openings c p (open_child c p s true height path byte cache).0 ≡ ok tt)
          × IsCoherent c s (open_child c p s true height path byte cache).1
    unfolding open_child check_openings
    open_child-checked height path byte cache sound at h =
        let one = compute_node_commitment c s height (path ++ byte ∷ []) cache in
        let right =
          compute_node_commitment-Right c s height (path ++ byte ∷ []) cache h
            (omega (arith, at, length-append path (byte ∷ []))) in
        let empty = c.scalar_of (empty_subtree_root c height) in
        let all =
          child_scalars-Right c s height empty path verkle_radix 0 one.1
            (λ q memo. compute_node_commitment-Right c s height q memo) at right.1 in
        let coeffs =
          (child_scalars c (compute_node_commitment c s height) s empty path verkle_radix 0
            one.1).0 in
        elim (Option-cases (p.open_at coeffs byte (c.scalar_of (c.root_hash one.0)))) [
          | inl e ↦ rw (e, open_child) (refl, all.1)
          | inr (o, e) ↦ elim (Option-cases (p.verify o)) [
            | inl f ↦
                absurd (ground (arith, sound coeffs byte (c.scalar_of (c.root_hash one.0)) o e, f))
            | inr (b, f) ↦ rw (e, open_child) (rw (f, check_openings) refl, all.1)
          ]
        ]

    leaf_of-leaf_scalar :
        (path : List ℕ)
        → is_some (get_node_value s path) ≡ true
        → leaf_of c (get_node_value s path)
          ≡ c.scalar_of (c.root_hash (c.commit (leaf_scalar c s path ∷ [])))
    unfolding leaf_of leaf_scalar
    leaf_of-leaf_scalar path h = elim (Option-cases (get_node_value s path)) [
      | inl e ↦ absurd (ground (arith, h, e))
      | inr (v, e) ↦ rw (e, leaf_of, leaf_scalar) refl
    ]

    -- One byte of a live path, above what the rest of the loop collects.
    Climbs-level :
        (byte : ℕ) (bytes path roots : List ℕ) (openings : List O) (below : ℕ) (w : Walk O)
        → roots ≡ roots_from c s (length bytes) path verkle_radix 0
        → check_openings c p openings ≡ ok tt
        → c.scalar_of below ≡ (
            if node_exists s (path ++ byte ∷ [])
            then c.scalar_of (c.root_hash (node_commitment c s (length bytes) (path ++ byte ∷ [])))
            else c.scalar_of (empty_subtree_root c (length bytes)))
        → Climbs bytes below w
        → Climbs
            (byte ∷ bytes)
            (c.root_hash (node_commitment c s (suc (length bytes)) path))
            (record w { siblings = roots ++ w.siblings; openings = openings ++ w.openings })
    unfolding node_commitment
    Climbs-level byte bytes path roots openings below w r o e rest =
        let n : length roots ≡ verkle_radix =
          ap (λ (l : List ℕ). length l) r
          ∙ length-roots_from c s (length bytes) path verkle_radix 0 in
        record {
          reaches =
              Reaches-level c s byte bytes roots w.siblings (leaf_of c (leaf_value w)) below
                (c.root_hash (node_commitment c s (suc (length bytes)) path)) n rest.reaches
                (ap
                    (λ (l : List ℕ).
                      c.root_hash (c.commit (coeffs_from c byte (c.scalar_of below) 0 l)))
                    r
                  ∙ ap (λ (l : List ℕ). c.root_hash (c.commit l))
                      (coeffs_from-roots_from c s (length bytes) byte (c.scalar_of below) path
                        verkle_radix 0 e));
          size = omega (arith, length-append roots w.siblings, n, rest.size);
          checked = check_openings-append openings w.openings o rest.checked;
          coherent = rest.coherent;
        }

    -- One byte of the loop, by the answers of its two tests.
    abbrev level : ℕ → List ℕ → List ℕ → Map (List ℕ) ℕ → Bool → Bool → Walk O
    level byte bytes path cache here next =
        let (roots, cache') = depth_roots c s here (length bytes) path cache in
        let (opening, cache'') = open_child c p s here (length bytes) path byte cache' in
        let rest = walk c p s bytes (path ++ byte ∷ []) next cache'' in
        record rest { siblings = roots ++ rest.siblings; openings = opening ++ rest.openings }

    level-live :
        (byte : ℕ) (bytes path : List ℕ) (cache : Map (List ℕ) ℕ) (target : ℕ) (next : Bool)
        → node_exists s path ≡ true
        → node_exists s (path ++ byte ∷ []) ≡ next
        → Climbs (byte ∷ bytes) target (level byte bytes path cache true next)
        → Climbs (byte ∷ bytes) target (walk c p s (byte ∷ bytes) path true cache)
    unfolding walk
    level-live byte bytes path cache target next live e h =
        subst
          (λ (b : Bool).
            Climbs (byte ∷ bytes) target
              (level byte bytes path cache b (node_exists s (path ++ byte ∷ []))))
          (sym live)
          (subst (λ (b : Bool). Climbs (byte ∷ bytes) target (level byte bytes path cache true b))
            (sym e) h)

    pub walk-live :
        (bytes path : List ℕ) (cache : Map (List ℕ) ℕ)
        → IsChecked p
        → IsFull s
        → node_exists s path ≡ true
        → length path + length bytes ≡ key_size
        → IsCoherent c s cache
        → Climbs bytes
            (c.root_hash (node_commitment c s (length bytes) path))
            (walk c p s bytes path true cache)
    unfolding walk depth_roots Reaches leaf_of check_openings node_commitment
    walk-live [] path cache sound full live at h =
        let there : is_some (get_node_value s path) ≡ true =
          sym (full path (omega (arith, at))) ∙ live in
        record {
          reaches = leaf_of-leaf_scalar path there;
          size = refl;
          checked = refl;
          coherent = h;
        }
    walk-live (byte ∷ bytes) path cache sound full live at h =
        let target = c.root_hash (node_commitment c s (suc (length bytes)) path) in
        let roots =
          child_roots-Right c s (length bytes) path verkle_radix 0 cache (omega (arith, at)) h in
        let cache' = (child_roots c s (length bytes) path verkle_radix 0 cache).1 in
        let opened =
          open_child-checked (length bytes) path byte cache' sound (omega (arith, at)) roots.1 in
        let cache'' = (open_child c p s true (length bytes) path byte cache').1 in
        let roots_list = (child_roots c s (length bytes) path verkle_radix 0 cache).0 in
        let openings = (open_child c p s true (length bytes) path byte cache').0 in
        let child = path ++ byte ∷ [] in
        let at' : length child + length bytes ≡ key_size =
          omega (arith, at, length-append path (byte ∷ [])) in
        elim (Bool-cases (node_exists s child)) [
          | inl e ↦
              let rest = walk-live bytes child cache'' sound full e at' opened.1 in
              level-live byte bytes path cache target true live e (
                Climbs-level byte bytes path roots_list openings
                  (c.root_hash (node_commitment c s (length bytes) child))
                  (walk c p s bytes child true cache'') roots.0 opened.0 (rw e refl) rest)
          | inr e ↦
              let rest = walk-dead bytes child cache'' opened.1 in
              level-live byte bytes path cache target false live e (
                Climbs-level byte bytes path roots_list openings
                  (empty_subtree_root c (length bytes)) (walk c p s bytes child false cache'')
                  roots.0 opened.0 (rw e refl) rest)
        ]
