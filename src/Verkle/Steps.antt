-- ===== src/Verkle/Steps.antt =====
-- Every operation of the tree keeps its caches right, so that `get_root` returns the root of the
-- storage.
use klomang_network.Prelude.{
  ℕ, zero, suc, ◌≡◌, inl, inr, Bool, true, false, not, ◌&&◌, some, List, [], ◌∷◌, ◌++◌, eqb, ltb,
  length, take, if◌then◌else◌, list_eq, is_prefix, is_prefix-drop, arith, refl, ap, sym, ◌∙◌,
  Bool-cases, Option-cases,
}
use klomang_network.Prelude.Map.{Map, lookup}
use klomang_network.Prelude.Bytes.{le_bytes}
use klomang_network.Emission.{max_global_supply_nano_slug}
use klomang_network.Verkle.{
  Curve, MemoryStorage, VerkleTree, key_size, key_for_path, node_exists, insert_key, delete_node,
  invalidate_path_cache, forget_prefixes, recursive_cleanup_empty_nodes, prune_key, ensure_node,
  ensure_path, has_children, verkle_radix, insert_updates, apply_state_transition, total_supply_key,
  burns, new, clone, get_root, recompute_root,
}
use klomang_network.Verkle.Nodes.{ensure_node-exists, set_node-exists, delete_node-exists}
use klomang_network.Verkle.Paths.{forget_prefixes-lookup, insert_key-lookup, delete_node-kept}
use klomang_network.Verkle.Roots.{state_root, node_commitment-AgreeBelow}
use klomang_network.Verkle.Coherence.{IsCoherent, compute_node_commitment-Right}

-- The caches belong to the storage, which has a root node.
pub record IsTree (c : Curve) (t : VerkleTree) : Type 0 where
  pub coherent : IsCoherent c t.storage t.commitment_cache
  pub cached :
      (root : ℕ) → t.root_cache ≡ some root → t.dirty ≡ false → root ≡ state_root c t.storage
  pub rooted : node_exists t.storage [] ≡ true

-- A change on the way to a path, with that way forgotten, leaves a right cache.
IsCoherent-forget :
    (c : Curve) (path : List ℕ) (s s' : MemoryStorage) (cache : Map (List ℕ) ℕ)
    → ((q : List ℕ)
        → is_prefix q path ≡ false
        → lookup (key_for_path q) s' ≡ lookup (key_for_path q) s)
    → IsCoherent c s cache
    → IsCoherent c s' (forget_prefixes (suc (length path)) path cache)
IsCoherent-forget c path s s' cache same h q height m fit found =
    let kept = forget_prefixes-lookup m q path cache found in
    h q height m fit kept.0
    ∙ node_commitment-AgreeBelow c s s' height q
        (λ rest. sym (same (q ++ rest) (is_prefix-drop q rest path kept.1)))

ensure_path-root :
    (path key : List ℕ) (s : MemoryStorage)
    → node_exists s [] ≡ true
    → node_exists (ensure_path path key s) [] ≡ true
unfolding ensure_path
ensure_path-root path [] s h = h
ensure_path-root path (b ∷ key) s h =
    ensure_path-root (path ++ b ∷ []) key (ensure_node (path ++ b ∷ []) s)
      (ensure_node-exists (path ++ b ∷ []) [] s ∙ rw h (ground arith))

insert_key-root :
    (key value : List ℕ) (t : VerkleTree) → node_exists (insert_key key value t).storage [] ≡ true
unfolding insert_key invalidate_path_cache
insert_key-root key value t =
    let base : node_exists (ensure_node [] t.storage) [] ≡ true =
      ensure_node-exists [] [] t.storage in
    set_node-exists key [] (some value) (ensure_path [] key (ensure_node [] t.storage))
    ∙ rw (ensure_path-root [] key (ensure_node [] t.storage) base) (ground arith)

module _ (c : Curve) where
  pub insert_key-IsTree :
      (key value : List ℕ) (t : VerkleTree) → IsTree c t → IsTree c (insert_key key value t)
  unfolding insert_key invalidate_path_cache
  insert_key-IsTree key value t h = record {
    coherent =
        IsCoherent-forget c key t.storage (insert_key key value t).storage t.commitment_cache
          (λ q free. insert_key-lookup q key value t free) h.coherent;
    cached = λ root e d. absurd (ground arith);
    rooted = insert_key-root key value t;
  }

  -- Every node but the root can go.
  delete_node-IsTree :
      (b : ℕ) (path : List ℕ) (t : VerkleTree) → IsTree c t → IsTree c (delete_node (b ∷ path) t)
  unfolding delete_node invalidate_path_cache
  delete_node-IsTree b path t h = record {
    coherent =
        IsCoherent-forget c (b ∷ path) t.storage (delete_node (b ∷ path) t).storage
          t.commitment_cache (λ q free. delete_node-kept q (b ∷ path) t free) h.coherent;
    cached = λ root e d. absurd (ground arith);
    rooted = delete_node-exists (b ∷ path) [] t.storage ∙ rw h.rooted refl;
  }

  dirty-IsTree : (t : VerkleTree) → IsTree c t → IsTree c (record t { dirty = true })
  dirty-IsTree t h = record {
    coherent = h.coherent;
    cached = λ root e d. absurd (ground arith);
    rooted = h.rooted;
  }

  IsTree-if :
      (b : Bool) (t t' : VerkleTree) → IsTree c t → IsTree c t' → IsTree c (if b then t else t')
  IsTree-if true t t' h h' = h
  IsTree-if false t t' h h' = h'

  cleanup-IsTree :
      (depth b : ℕ) (path : List ℕ) (t : VerkleTree)
      → IsTree c t
      → IsTree c (recursive_cleanup_empty_nodes depth (b ∷ path) t)
  unfolding recursive_cleanup_empty_nodes
  cleanup-IsTree zero b path t h = h
  cleanup-IsTree (suc zero) b path t h = ground arith
  cleanup-IsTree (suc (suc depth)) b path t h =
      let rest =
        cleanup-IsTree (suc depth) b path (delete_node (b ∷ take depth path) t)
          (delete_node-IsTree b (take depth path) t h) in
      IsTree-if (not (has_children verkle_radix (b ∷ take depth path) t) && not (eqb (suc depth) 0))
        (recursive_cleanup_empty_nodes (suc depth) (b ∷ path) (delete_node (b ∷ take depth path) t))
        t rest h

  pub prune_key-IsTree :
      (b : ℕ) (key : List ℕ) (t : VerkleTree) → IsTree c t → IsTree c (prune_key (b ∷ key) t).1
  unfolding prune_key
  prune_key-IsTree b key t h =
      let dirtied = dirty-IsTree t h in
      let rest =
        cleanup-IsTree (length (b ∷ key)) b key (delete_node (b ∷ key) (record t { dirty = true }))
          (delete_node-IsTree b key (record t { dirty = true }) dirtied) in
      elim (Bool-cases (node_exists t.storage (b ∷ key))) [
        | inl e ↦ rw (e, prune_key) rest
        | inr e ↦ rw (e, prune_key) dirtied
      ]

  insert_updates-IsTree :
      (updates : List (List ℕ × List ℕ)) (t : VerkleTree)
      → IsTree c t
      → IsTree c (insert_updates updates t)
  unfolding insert_updates
  insert_updates-IsTree [] t h = h
  insert_updates-IsTree ((key, value) ∷ updates) t h =
      insert_updates-IsTree updates (insert_key key value t) (insert_key-IsTree key value t h)

  pub apply_state_transition-IsTree :
      (updates : List (List ℕ × List ℕ)) (supply : ℕ) (t : VerkleTree)
      → IsTree c t
      → IsTree c (apply_state_transition updates supply t).1
  unfolding apply_state_transition
  apply_state_transition-IsTree updates supply t h =
      let dirtied = dirty-IsTree t h in
      let stored =
        insert_key-IsTree total_supply_key (le_bytes 16 supply)
          (insert_updates updates (record t { dirty = true }))
          (insert_updates-IsTree updates (record t { dirty = true }) dirtied) in
      elim (Bool-cases (burns updates)) [
        | inl e ↦ rw (e, apply_state_transition) dirtied
        | inr e ↦ elim (Bool-cases (ltb max_global_supply_nano_slug supply)) [
          | inl f ↦ rw (e, f, apply_state_transition) stored
          | inr f ↦ rw (e, f, apply_state_transition) stored
        ]
      ]

  pub new-IsTree : (s : MemoryStorage) → IsTree c (new s)
  unfolding new lookup
  new-IsTree s = record {
    coherent = λ path height m fit found. absurd (ground arith);
    cached = λ root e d. absurd (ground arith);
    rooted = ensure_node-exists [] [] s;
  }

  pub clone-IsTree : (t : VerkleTree) → IsTree c (clone t)
  unfolding clone
  clone-IsTree t =
      let fresh = new-IsTree t.storage in
      record { coherent = fresh.coherent; cached = fresh.cached; rooted = fresh.rooted }

  recompute_root-lem :
      (t : VerkleTree)
      → IsTree c t
      → ((recompute_root c t).0 ≡ state_root c t.storage) × IsTree c (recompute_root c t).1
  unfolding recompute_root state_root
  recompute_root-lem t h =
      let right =
        compute_node_commitment-Right c t.storage key_size [] t.commitment_cache h.coherent refl in
      (
        ap c.root_hash right.0,
        record {
          coherent = right.1;
          cached = λ root e d. ground (arith, e, right.0);
          rooted = h.rooted;
        },
      )

  -- A root and the tree after it, for the tree before.
  Answers : VerkleTree → ℕ × VerkleTree → Type 0
  Answers t answer =
      (answer.0 ≡ state_root c t.storage)
      × IsTree c answer.1
      × (answer.1.storage ≡ t.storage)
      × (answer.1.pruned_keys ≡ t.pruned_keys)

  Answers-if :
      (t : VerkleTree) (b : Bool) (x y : ℕ × VerkleTree)
      → (b ≡ true → Answers t x)
      → Answers t y
      → Answers t (if b then x else y)
  Answers-if t true x y hx hy = hx refl
  Answers-if t false x y hx hy = hy

  -- The root that `get_root` returns, cached or computed, is the root of the storage, and the call
  -- keeps the storage, the pruned keys and the caches right.
  pub get_root-state_root :
      (t : VerkleTree)
      → IsTree c t
      → ((get_root c t).0 ≡ state_root c t.storage)
        × IsTree c (get_root c t).1
        × ((get_root c t).1.storage ≡ t.storage)
        × ((get_root c t).1.pruned_keys ≡ t.pruned_keys)
  unfolding get_root recompute_root Answers
  get_root-state_root t h =
      let (root, tree) = recompute_root-lem t h in
      let computed : Answers t (recompute_root c t) = (root, tree, refl, refl) in
      elim (Option-cases t.root_cache) [
        | inl e ↦ rw (e, get_root) computed
        | inr (m, e) ↦
            rw (e, get_root)
              (Answers-if t (not t.dirty) (m, t) (recompute_root c t)
                (λ d. (h.cached m e (ground (arith, d)), h, refl, refl)) computed)
      ]
