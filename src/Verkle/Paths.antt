-- ===== src/Verkle/Paths.antt =====
-- The nodes and the cached commitments that a change of one path leaves as they are.
use klomang_network.Prelude.{
  ℕ, zero, suc, ◌<◌, ◌≤◌, ◌≡◌, inl, inr, true, false, some, List, [], ◌∷◌, ◌++◌, length, take, ◌==◌,
  list_eq, list_equal_iff, is_prefix, is_prefix-append, arith, refl, ap, sym, ◌∙◌, Bool-cases,
  dec_lt,
}
use mathlib.Core.List.{append-nil, append_assoc}
use klomang_network.Prelude.Map.{Map, lookup, lookup-erase}
use klomang_network.Verkle.{
  MemoryStorage, VerkleTree, key_for_path, ensure_node, set_node_value, ensure_path,
  forget_prefixes, serialize_node, insert_key, delete_node, invalidate_path_cache,
}
use klomang_network.Verkle.Nodes.{set_node-lookup, delete_node-lookup, ensure_node-lookup}

pub is_prefix_self : (p : List ℕ) → is_prefix p p ≡ true
is_prefix_self p = ap (is_prefix p) (sym (append-nil p)) ∙ is_prefix-append p []

-- A path that is no prefix differs from every prefix.
apart : (p q key : List ℕ) → is_prefix p key ≡ true → is_prefix q key ≡ false → (p == q) ≡ false
apart p q key hp hq = elim (Bool-cases (p == q)) [
  | inl e ↦
      let same : p ≡ q = (list_equal_iff p q).0 e in
      absurd (ground (arith, hp, hq, ap (λ (r : List ℕ). is_prefix r key) same))
  | inr e ↦ e
]

ensure_path-lookup :
    (q path key : List ℕ) (s : MemoryStorage)
    → is_prefix q (path ++ key) ≡ false
    → lookup (key_for_path q) (ensure_path path key s) ≡ lookup (key_for_path q) s
unfolding ensure_path
ensure_path-lookup q path [] s h = refl
ensure_path-lookup q path (b ∷ key) s h =
    let joined : (path ++ b ∷ []) ++ key ≡ path ++ b ∷ key = append_assoc path (b ∷ []) key in
    let free : is_prefix q ((path ++ b ∷ []) ++ key) ≡ false = rw joined h in
    ensure_path-lookup q (path ++ b ∷ []) key (ensure_node (path ++ b ∷ []) s) free
    ∙ ensure_node-lookup (path ++ b ∷ []) q s (
        apart (path ++ b ∷ []) q ((path ++ b ∷ []) ++ key) (is_prefix-append (path ++ b ∷ []) key)
          free)

-- `insert` changes the nodes on the way to the key, and `delete` the node itself.
pub insert_key-lookup :
    (q key value : List ℕ) (t : VerkleTree)
    → is_prefix q key ≡ false
    → lookup (key_for_path q) (insert_key key value t).storage ≡ lookup (key_for_path q) t.storage
unfolding insert_key invalidate_path_cache set_node_value
insert_key-lookup q key value t h =
    set_node-lookup key q (serialize_node (some value))
      (ensure_path [] key (ensure_node [] t.storage))
    ∙ rw (apart key q key (is_prefix_self key) h) (
        ensure_path-lookup q [] key (ensure_node [] t.storage) h
        ∙ ensure_node-lookup [] q t.storage (apart [] q key (is_prefix-append [] key) h))

pub delete_node-kept :
    (q path : List ℕ) (t : VerkleTree)
    → is_prefix q path ≡ false
    → lookup (key_for_path q) (delete_node path t).storage ≡ lookup (key_for_path q) t.storage
unfolding delete_node invalidate_path_cache
delete_node-kept q path t h =
    delete_node-lookup path q t.storage ∙ rw (apart path q path (is_prefix_self path) h) refl

take-prefix : (p path : List ℕ) → is_prefix p path ≡ true → take (length p) path ≡ p
unfolding is_prefix
take-prefix [] path h = refl
take-prefix (a ∷ p) [] h = absurd (ground arith)
take-prefix (a ∷ p) (b ∷ path) h = ground (arith, take-prefix p path)

is_prefix-length : (p path : List ℕ) → is_prefix p path ≡ true → length p ≤ length path
unfolding is_prefix
is_prefix-length [] path h = omega arith
is_prefix-length (a ∷ p) [] h = absurd (ground arith)
is_prefix-length (a ∷ p) (b ∷ path) h = ground (arith, is_prefix-length p path)

short :
    (n : ℕ) (p path : List ℕ)
    → (take n path == p) ≡ false
    → ((length p < n) → is_prefix p path ≡ false)
    → length p < suc n
    → is_prefix p path ≡ false
short n p path e rest small = elim (Bool-cases (is_prefix p path)) [
  | inr other ↦ other
  | inl inside ↦ elim (dec_lt (length p) n) [
    | yes below ↦ rest below
    | no above ↦
        let at : length p ≡ n = omega (arith, small, above) in
        let same : take n path ≡ p =
          ap (λ (i : ℕ). take i path) (sym at) ∙ take-prefix p path inside in
        absurd (ground (arith, e, (list_equal_iff (take n path) p).1 same))
  ]
]

-- A cached entry that stays belongs to no prefix of the lengths forgotten.
forget_prefixes-kept :
    (n m : ℕ) (p path : List ℕ) (cache : Map (List ℕ) ℕ)
    → lookup p (forget_prefixes n path cache) ≡ some m
    → (lookup p cache ≡ some m) × (length p < n → is_prefix p path ≡ false)
unfolding forget_prefixes
forget_prefixes-kept zero m p path cache h = (h, λ small. absurd (omega arith))
forget_prefixes-kept (suc n) m p path cache h =
    let split = lookup-erase (take n path) p (forget_prefixes n path cache) in
    elim (Bool-cases (take n path == p)) [
      | inl e ↦ absurd (ground (arith, split, h, e))
      | inr e ↦
          let before : lookup p (forget_prefixes n path cache) ≡ some m =
            ground (arith, split, h, e) in
          let rest = forget_prefixes-kept n m p path cache before in
          (rest.0, short n p path e rest.1)
    ]

-- What stays in the cache after a path is invalidated was there, and is no prefix of the path.
pub forget_prefixes-lookup :
    (m : ℕ) (p path : List ℕ) (cache : Map (List ℕ) ℕ)
    → lookup p (forget_prefixes (suc (length path)) path cache) ≡ some m
    → (lookup p cache ≡ some m) × (is_prefix p path ≡ false)
forget_prefixes-lookup m p path cache h =
    let kept = forget_prefixes-kept (suc (length path)) m p path cache h in
    (
      kept.0,
      elim (Bool-cases (is_prefix p path)) [
        | inr other ↦ other
        | inl inside ↦ kept.1 (omega (arith, is_prefix-length p path inside))
      ],
    )
