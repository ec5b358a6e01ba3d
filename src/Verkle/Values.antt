-- ===== src/Verkle/Values.antt =====
-- What `get` returns after the operations that change the tree.
use klomang_network.Prelude.{
  ℕ, zero, suc, ◌+◌, ◌^◌, ◌<◌, ◌≤◌, ◌≡◌, inl, inr, true, false, not, ◌&&◌, ◌||◌, none, some, List,
  [], ◌∷◌, ◌++◌, eqb, length, take, if◌then◌else◌, ◌==◌, list_eq, list_equal_iff, arith, refl, ap,
  ◌∙◌, Bool-cases, length-append,
}
use mathlib.Core.List.{append_assoc}
use klomang_network.Prelude.Set
use klomang_network.Prelude.Set.{contains-insert}
use klomang_network.Prelude.Result.{ok, err}
use klomang_network.Verkle.{
  MemoryStorage, VerkleTree, key_absent, serialize_node, deserialize_node, node_exists,
  get_node_value, ensure_node, ensure_path, insert_key, invalidate_path_cache, has_children,
  delete_node, verkle_radix, recursive_cleanup_empty_nodes, prune_key,
}
use klomang_network.Verkle.Nodes.{
  set_node-lookup, delete_node-lookup, get_node_value-set, set_node-exists, ensure_node-exists,
  delete_node-exists,
}

-- A node that is made has no value, and neither had the path before.
pub get_node_value-ensure :
    (p q : List ℕ) (s : MemoryStorage) → get_node_value (ensure_node p s) q ≡ get_node_value s q
unfolding get_node_value ensure_node node_exists serialize_node deserialize_node
get_node_value-ensure p q s = ground (arith, set_node-lookup p q (0 ∷ []) s, list_equal_iff p q)

get_node_value-ensure_path :
    (path key q : List ℕ) (s : MemoryStorage)
    → get_node_value (ensure_path path key s) q ≡ get_node_value s q
unfolding ensure_path
get_node_value-ensure_path path [] q s = refl
get_node_value-ensure_path path (b ∷ key) q s =
    get_node_value-ensure_path (path ++ b ∷ []) key q (ensure_node (path ++ b ∷ []) s)
    ∙ get_node_value-ensure (path ++ b ∷ []) q s

pub insert_key-value :
    (key value q : List ℕ) (t : VerkleTree)
    → length value < 2 ^ 32
    → get_node_value (insert_key key value t).storage q
      ≡ (if key == q then some value else get_node_value t.storage q)
unfolding insert_key invalidate_path_cache
insert_key-value key value q t h =
    get_node_value-set key q value (ensure_path [] key (ensure_node [] t.storage)) h
    ∙ rw
        (
          get_node_value-ensure_path [] key q (ensure_node [] t.storage),
          get_node_value-ensure [] q t.storage,
        )
        refl

pub insert_key-pruned :
    (key value : List ℕ) (t : VerkleTree) → (insert_key key value t).pruned_keys ≡ t.pruned_keys
unfolding insert_key invalidate_path_cache
insert_key-pruned key value t = refl

pub longer : (p q : List ℕ) → length p < length q → (p == q) ≡ false
longer p q h = elim (Bool-cases (p == q)) [
  | inr e ↦ e
  | inl e ↦
      let same : length p ≡ length q = ap (λ (r : List ℕ). length r) ((list_equal_iff p q).0 e) in
      absurd (omega (arith, h, same))
]

-- The first node of the way is the whole path only where the way ends there.
first_apart :
    (path key q : List ℕ) (b : ℕ)
    → length path + suc (length key) ≡ length q
    → (path ++ b ∷ key == q) ≡ false
    → (path ++ b ∷ [] == q) ≡ false
first_apart path [] q b h other = other
first_apart path (k ∷ key) q b h other =
    longer (path ++ b ∷ []) q (omega (arith, h, length-append path (b ∷ [])))

ensure_path-exists :
    (path key q : List ℕ) (s : MemoryStorage)
    → length path + length key ≡ length q
    → (path ++ key == q) ≡ false
    → node_exists (ensure_path path key s) q ≡ node_exists s q
unfolding ensure_path
ensure_path-exists path [] q s h other = refl
ensure_path-exists path (b ∷ key) q s h other =
    ensure_path-exists (path ++ b ∷ []) key q (ensure_node (path ++ b ∷ []) s)
      (omega (arith, h, length-append path (b ∷ []))) (rw (append_assoc path (b ∷ []) key) other)
    ∙ ensure_node-exists (path ++ b ∷ []) q s
    ∙ rw (first_apart path key q b h other) refl

-- Of the nodes as deep as the key, only the key's own is made.
pub insert_key-exists :
    (key value q : List ℕ) (t : VerkleTree)
    → length key ≡ length q
    → 0 < length q
    → node_exists (insert_key key value t).storage q
      ≡ (if key == q then true else node_exists t.storage q)
unfolding insert_key invalidate_path_cache
insert_key-exists key value q t h deep =
    let made = set_node-exists key q (some value) (ensure_path [] key (ensure_node [] t.storage)) in
    elim (Bool-cases (key == q)) [
      | inl e ↦ made ∙ rw e refl
      | inr e ↦
          made
          ∙ rw e (
              ensure_path-exists [] key q (ensure_node [] t.storage) (omega (arith, h)) e
              ∙ ensure_node-exists [] q t.storage
              ∙ rw (longer [] q deep) refl)
    ]

pub delete_node-value :
    (path q : List ℕ) (t : VerkleTree)
    → get_node_value (delete_node path t).storage q
      ≡ (if path == q then none else get_node_value t.storage q)
unfolding delete_node invalidate_path_cache get_node_value
delete_node-value path q t = ground (arith, delete_node-lookup path q t.storage)

-- What the cleanup leaves alone: the nodes and the pruned marks of paths as long as the depth.
record IsKept (q : List ℕ) (t t' : VerkleTree) : Type 0 where
  value : get_node_value t'.storage q ≡ get_node_value t.storage q
  exists : node_exists t'.storage q ≡ node_exists t.storage q
  marks : Set.contains t'.pruned_keys q ≡ Set.contains t.pruned_keys q

IsKept-delete :
    (path q : List ℕ) (t : VerkleTree) → length path < length q → IsKept q t (delete_node path t)
unfolding delete_node invalidate_path_cache
IsKept-delete path q t h =
    let e = longer path q h in
    record {
      value = delete_node-value path q t ∙ rw e refl;
      exists = delete_node-exists path q t.storage ∙ rw e refl;
      marks = contains-insert path q t.pruned_keys ∙ rw e refl;
    }

length-take : (n : ℕ) (p : List ℕ) → length (take n p) ≤ n
length-take zero p = omega arith
length-take (suc n) [] = omega arith
length-take (suc n) (a ∷ p) = omega (arith, length-take n p)

cleanup-IsKept :
    (depth : ℕ) (path q : List ℕ) (t : VerkleTree)
    → depth ≤ length q
    → IsKept q t (recursive_cleanup_empty_nodes depth path t)
unfolding recursive_cleanup_empty_nodes
cleanup-IsKept zero path q t h = record { value = refl; exists = refl; marks = refl }
cleanup-IsKept (suc depth) path q t h =
    let one = IsKept-delete (take depth path) q t (omega (arith, length-take depth path, h)) in
    let rest = cleanup-IsKept depth path q (delete_node (take depth path) t) (omega (arith, h)) in
    elim (Bool-cases (not (has_children verkle_radix (take depth path) t) && not (eqb depth 0))) [
      | inl e ↦
          rw (e, recursive_cleanup_empty_nodes)
            (record {
              value = rest.value ∙ one.value;
              exists = rest.exists ∙ one.exists;
              marks = rest.marks ∙ one.marks;
            })
      | inr e ↦
          rw (e, recursive_cleanup_empty_nodes)
            (record { value = refl; exists = refl; marks = refl })
    ]

-- Pruning a key that is there takes its value and marks it; the other keys of its length keep
-- their values and their marks, and a key that is not there changes nothing.
pub prune_key-lem :
    (key q : List ℕ) (t : VerkleTree)
    → length key ≡ length q
    → let hit = node_exists t.storage key && (key == q) in
      ((prune_key key t).0 ≡ (if node_exists t.storage key then ok tt else err key_absent))
      × (get_node_value (prune_key key t).1.storage q
          ≡ (if hit then none else get_node_value t.storage q))
      × (node_exists (prune_key key t).1.storage q
          ≡ (if hit then false else node_exists t.storage q))
      × (Set.contains (prune_key key t).1.pruned_keys q ≡ (hit || Set.contains t.pruned_keys q))
unfolding prune_key delete_node invalidate_path_cache
prune_key-lem key q t h =
    let dirtied : VerkleTree = record t { dirty = true } in
    let kept = cleanup-IsKept (length key) key q (delete_node key dirtied) (omega (arith, h)) in
    elim (Bool-cases (node_exists t.storage key)) [
      | inr e ↦ rw (e, prune_key) (refl, refl, refl, refl)
      | inl e ↦
          rw (e, prune_key)
            (
              refl,
              kept.value ∙ delete_node-value key q dirtied,
              kept.exists ∙ delete_node-exists key q t.storage,
              kept.marks ∙ contains-insert key q t.pruned_keys,
            )
    ]
