-- ===== src/Verkle/Nodes.antt =====
-- The stored form of a node, and what the writes of one node change in the storage.
use klomang_network.Prelude.{
  ℕ, ◌+◌, ◌%◌, ◌^◌, ◌<◌, ◌≡◌, true, false, Option, none, some, List, ◌∷◌, ◌++◌, length, take, drop,
  if◌then◌else◌, ◌==◌, list_eq, list_equal_iff, arith, refl, ◌∙◌, length-append,
}
use klomang_network.Prelude.Map.{lookup, insert, erase, lookup-insert, lookup-erase}
use klomang_network.Prelude.Bytes.{be_bytes, from_be_bytes, length-be_bytes, from_be_bytes-be_bytes}
use klomang_network.Verkle.{
  MemoryStorage, key_for_path, serialize_node, deserialize_node, node_exists, get_node_value,
  ensure_node, set_node_value,
}

front : (n : ℕ) (v : List ℕ) → take 4 (be_bytes 4 n ++ v) ≡ be_bytes 4 n
unfolding be_bytes
front n v = refl

back : (n : ℕ) (v : List ℕ) → drop 4 (be_bytes 4 n ++ v) ≡ v
unfolding be_bytes
back n v = refl

read_back :
    (rest : List ℕ)
    → length rest ≡ 4 + from_be_bytes 0 (take 4 rest)
    → deserialize_node (1 ∷ rest) ≡ some (some (drop 4 rest))
unfolding deserialize_node
read_back rest h = ground arith

value_back :
    (v : List ℕ) → length v < 2 ^ 32 → deserialize_node (serialize_node (some v)) ≡ some (some v)
unfolding serialize_node
value_back v h =
    let e : length v % 2 ^ 32 ≡ length v = omega arith in
    rw e (
      read_back (be_bytes 4 (length v) ++ v) (
        rw (front (length v) v, from_be_bytes-be_bytes 4 (length v) (omega (arith, h)))
          (length-append (be_bytes 4 (length v)) v ∙ rw (length-be_bytes 4 (length v)) refl))
      ∙ rw (back (length v) v) refl)

none_back : deserialize_node (serialize_node none) ≡ some none
unfolding serialize_node deserialize_node
none_back = refl

-- A stored node whose value is shorter than 2 ^ 32 bytes is read back.
pub deserialize_node-serialize_node :
    (value : Option (List ℕ))
    → ((v : List ℕ) → value ≡ some v → length v < 2 ^ 32)
    → deserialize_node (serialize_node value) ≡ some value
deserialize_node-serialize_node none h = none_back
deserialize_node-serialize_node (some v) h = value_back v (h v refl)

-- Different paths stand under different keys.
pub key_for_path_equal : (p q : List ℕ) → (key_for_path p == key_for_path q) ≡ (p == q)
key_for_path_equal p q = ground (arith, list_equal_iff p q)

pub set_node-lookup :
    (p q v : List ℕ) (s : MemoryStorage)
    → lookup (key_for_path q) (insert (key_for_path p) v s)
      ≡ (if p == q then some v else lookup (key_for_path q) s)
set_node-lookup p q v s =
    lookup-insert (key_for_path p) (key_for_path q) v s ∙ rw (key_for_path_equal p q) refl

pub delete_node-lookup :
    (p q : List ℕ) (s : MemoryStorage)
    → lookup (key_for_path q) (erase (key_for_path p) s)
      ≡ (if p == q then none else lookup (key_for_path q) s)
delete_node-lookup p q s =
    lookup-erase (key_for_path p) (key_for_path q) s ∙ rw (key_for_path_equal p q) refl

pub ensure_node-lookup :
    (p q : List ℕ) (s : MemoryStorage)
    → (p == q) ≡ false
    → lookup (key_for_path q) (ensure_node p s) ≡ lookup (key_for_path q) s
unfolding ensure_node
ensure_node-lookup p q s h = ground (arith, set_node-lookup p q (serialize_node none) s)

-- A node that is written is there, and the write keeps the others.
pub ensure_node-exists :
    (p q : List ℕ) (s : MemoryStorage)
    → node_exists (ensure_node p s) q ≡ (if p == q then true else node_exists s q)
unfolding ensure_node node_exists
ensure_node-exists p q s =
    ground (arith, set_node-lookup p q (serialize_node none) s, list_equal_iff p q)

pub get_node_value-set :
    (p q v : List ℕ) (s : MemoryStorage)
    → length v < 2 ^ 32
    → get_node_value (set_node_value p (some v) s) q
      ≡ (if p == q then some v else get_node_value s q)
unfolding get_node_value set_node_value
get_node_value-set p q v s h =
    ground (arith, set_node-lookup p q (serialize_node (some v)) s, value_back v h)

pub set_node-exists :
    (p q : List ℕ) (value : Option (List ℕ)) (s : MemoryStorage)
    → node_exists (set_node_value p value s) q ≡ (if p == q then true else node_exists s q)
unfolding set_node_value node_exists
set_node-exists p q value s = ground (arith, set_node-lookup p q (serialize_node value) s)

pub delete_node-exists :
    (p q : List ℕ) (s : MemoryStorage)
    → node_exists (erase (key_for_path p) s) q ≡ (if p == q then false else node_exists s q)
unfolding node_exists
delete_node-exists p q s = ground (arith, delete_node-lookup p q s)
