-- ===== src/Verkle.antt =====
-- The tree of committed state: klomang-core/src/core/state/v_trie.rs over state/storage.rs.
pub mod Nodes
pub mod Values
pub mod Paths
pub mod Roots
pub mod Coherence
pub mod Steps
pub mod Refine
pub mod Proofs
pub mod Reaches
pub mod Climbs
pub mod Complete
pub mod Multi
pub mod Binding
pub mod Sound
mod Toys
mod Tests
use klomang_network.Prelude.{
  ℕ, zero, suc, ◌+◌, ◌-◌, ◌%◌, ◌^◌, ◌<◌, Bool, true, false, not, ◌&&◌, ◌||◌, Option, none, some,
  List, [], ◌∷◌, ◌++◌, eqb, ltb, length, take, drop, if◌then◌else◌, ◌==◌, Eq, list_eq, is_some,
}
use klomang_network.Prelude.Map.{Map, lookup, insert, erase, contains_key}
use klomang_network.Prelude.Set
use klomang_network.Prelude.Bytes.{be_bytes, from_be_bytes, le_bytes}
use klomang_network.Prelude.Result.{Result, ok, err}
use klomang_network.Transaction.{as_bytes, deserialize, TxOutput}
use klomang_network.Utxo.{burn_address, zero_bytes}
use klomang_network.Emission.{max_global_supply_nano_slug}

abbrev pub verkle_radix : ℕ
verkle_radix = 256

abbrev pub key_size : ℕ
key_size = 32

abbrev pub total_supply_key : List ℕ
total_supply_key = zero_bytes 32

-- What the tree takes from the crates of its curve, on numbers for scalars, commitments and
-- digests: the commitment to the polynomial of the coefficients, the digest of a commitment, a
-- digest read as a scalar, and blake3.
pub record Curve : Type 0 where
  pub commit : List ℕ → ℕ
  pub root_hash : ℕ → ℕ
  pub scalar_of : ℕ → ℕ
  pub blake3 : List ℕ → ℕ

-- `MemoryStorage`, whose get, put and delete are the map's.
abbrev pub MemoryStorage : Type 0
MemoryStorage = Map (List ℕ) (List ℕ)

-- `CoreError::PrunedData` and `CoreError::InvalidState`, by their texts.
pub data TreeError : Type 0 where
  key_pruned key_absent burn_blocked supply_exceeded : TreeError

pub record VerkleTree : Type 0 where
  pub storage : MemoryStorage
  pub commitment_cache : Map (List ℕ) ℕ
  pub root_cache : Option ℕ
  pub dirty : Bool
  pub pruned_keys : List (List ℕ)

pub record GasFeeWitness : Type 0 where
  pub total_gas_fee : ℕ
  pub miner_share : ℕ
  pub fullnode_share : ℕ

abbrev pub key_for_path : List ℕ → List ℕ
key_for_path path = length path % 256 ∷ path

unfoldable pub serialize_node : Option (List ℕ) → List ℕ
serialize_node (some inner) = 1 ∷ (be_bytes 4 (length inner % 2 ^ 32) ++ inner)
serialize_node none = 0 ∷ []

unfoldable pub deserialize_node : List ℕ → Option (Option (List ℕ))
deserialize_node [] = none
deserialize_node (tag ∷ rest) =
    if eqb tag 0
    then some none
    else if not (eqb tag 1)
    then none
    else if ltb (length (tag ∷ rest)) 5
    then none
    else if not (eqb (length (tag ∷ rest)) (5 + from_be_bytes 0 (take 4 rest)))
    then none
    else some (some (drop 4 rest))

unfoldable pub node_exists : MemoryStorage → List ℕ → Bool
node_exists s path = contains_key (key_for_path path) s

abbrev flatten : Option (Option (List ℕ)) → Option (List ℕ)
flatten (some v) = v
flatten none = none

unfoldable pub get_node_value : MemoryStorage → List ℕ → Option (List ℕ)
get_node_value s path = elim (lookup (key_for_path path) s) [
  | none ↦ none
  | some encoded ↦ flatten (deserialize_node encoded)
]

unfoldable pub ensure_node : List ℕ → MemoryStorage → MemoryStorage
ensure_node path s =
    if node_exists s path then s else insert (key_for_path path) (serialize_node none) s

unfoldable pub set_node_value : List ℕ → Option (List ℕ) → MemoryStorage → MemoryStorage
set_node_value path value s = insert (key_for_path path) (serialize_node value) s

-- The loop of `insert`: a node for each longer path up to the whole key.
unfoldable pub ensure_path : List ℕ → List ℕ → MemoryStorage → MemoryStorage
ensure_path path [] s = s
ensure_path path (byte ∷ key) s =
    ensure_path (path ++ byte ∷ []) key (ensure_node (path ++ byte ∷ []) s)

-- The loop of `invalidate_path_cache`, over the lengths below the one given.
unfoldable pub forget_prefixes : ℕ → List ℕ → Map (List ℕ) ℕ → Map (List ℕ) ℕ
forget_prefixes zero path cache = cache
forget_prefixes (suc i) path cache = erase (take i path) (forget_prefixes i path cache)

unfoldable pub invalidate_path_cache : List ℕ → VerkleTree → VerkleTree
invalidate_path_cache path t = record t {
  commitment_cache = forget_prefixes (suc (length path)) path t.commitment_cache;
  root_cache = none;
}

-- `insert`, on a key of as many bytes as a key has.
unfoldable pub insert_key : List ℕ → List ℕ → VerkleTree → VerkleTree
insert_key key value t = invalidate_path_cache key (record t {
  dirty = true;
  storage = set_node_value key (some value) (ensure_path [] key (ensure_node [] t.storage));
})

unfoldable pub get : List ℕ → VerkleTree → Result TreeError (Option (List ℕ))
get key t =
    if Set.contains t.pruned_keys key then err key_pruned else ok (get_node_value t.storage key)

-- Whether a live child stands among those of as many first indices.
unfoldable pub has_children : ℕ → List ℕ → VerkleTree → Bool
has_children zero parent t = false
has_children (suc index) parent t =
    (node_exists t.storage (parent ++ index ∷ [])
      && not (Set.contains t.pruned_keys (parent ++ index ∷ [])))
    || has_children index parent t

unfoldable pub delete_node : List ℕ → VerkleTree → VerkleTree
delete_node path t = invalidate_path_cache path (record t {
  storage = erase (key_for_path path) t.storage;
  pruned_keys = Set.insert path t.pruned_keys;
})

-- The loop of `recursive_cleanup_empty_nodes`, over the depths below the one given.
unfoldable pub recursive_cleanup_empty_nodes : ℕ → List ℕ → VerkleTree → VerkleTree
recursive_cleanup_empty_nodes zero path t = t
recursive_cleanup_empty_nodes (suc depth) path t =
    let rest = recursive_cleanup_empty_nodes depth path (delete_node (take depth path) t) in
    if not (has_children verkle_radix (take depth path) t) && not (eqb depth 0) then rest else t

unfoldable pub prune_key : List ℕ → VerkleTree → Result TreeError (Unit {0}) × VerkleTree
prune_key key t =
    let dirtied : VerkleTree = record t { dirty = true } in
    let cleaned = recursive_cleanup_empty_nodes (length key) key (delete_node key dirtied) in
    if node_exists t.storage key then (ok tt, cleaned) else (err key_absent, dirtied)

-- The loop of `apply_state_transition` that looks for the burn address.
unfoldable pub burns : List (List ℕ × List ℕ) → Bool
burns [] = false
burns ((_, value) ∷ updates) =
    let rest = burns updates in
    elim (deserialize value) [
      | err e ↦ rest
      | ok output ↦ (as_bytes output.pubkey_hash == burn_address) || rest
    ]

unfoldable pub insert_updates : List (List ℕ × List ℕ) → VerkleTree → VerkleTree
insert_updates [] t = t
insert_updates ((key, value) ∷ updates) t = insert_updates updates (insert_key key value t)

unfoldable pub apply_state_transition :
    List (List ℕ × List ℕ) → ℕ → VerkleTree → Result TreeError (Unit {0}) × VerkleTree
apply_state_transition updates new_total_supply t =
    let dirtied : VerkleTree = record t { dirty = true } in
    let stored =
      insert_key total_supply_key (le_bytes 16 new_total_supply) (insert_updates updates dirtied) in
    if burns updates
    then (err burn_blocked, dirtied)
    else if ltb max_global_supply_nano_slug new_total_supply
    then (err supply_exceeded, stored)
    else (ok tt, stored)

-- `VerkleTree::new`.
unfoldable pub new : MemoryStorage → VerkleTree
new storage = record {
  storage = ensure_node [] storage;
  commitment_cache = [];
  root_cache = none;
  dirty = true;
  pruned_keys = [];
}

-- The `clone` of the tree, which starts with empty caches.
unfoldable pub clone : VerkleTree → VerkleTree
clone t = record (new t.storage) { pruned_keys = t.pruned_keys }

unfoldable pub storage_clone : VerkleTree → MemoryStorage
storage_clone t = t.storage

-- As many copies of the value.
unfoldable pub repeat : ℕ → ℕ → List ℕ
repeat zero a = []
repeat (suc n) a = a ∷ repeat n a

module _ (c : Curve) where
  unfoldable pub value_to_scalar : List ℕ → ℕ
  value_to_scalar value = c.scalar_of (c.blake3 value)

  -- `compute_empty_subtree_constants`: the root of an empty subtree of the height given.
  unfoldable pub empty_subtree_root : ℕ → ℕ
  empty_subtree_root zero = c.root_hash (c.commit [])
  empty_subtree_root (suc height) =
      c.root_hash (c.commit (repeat verkle_radix (c.scalar_of (empty_subtree_root height))))

  unfoldable pub leaf_scalar : MemoryStorage → List ℕ → ℕ
  leaf_scalar s path = elim (get_node_value s path) [ none ↦ 0 | some v ↦ value_to_scalar v ]

  -- The scalar of one child, with the commitment of a child that stands in the storage.
  unfoldable pub child_scalar :
      (List ℕ → Map (List ℕ) ℕ → ℕ × Map (List ℕ) ℕ)
      → MemoryStorage
      → ℕ
      → List ℕ
      → Map (List ℕ) ℕ
      → ℕ × Map (List ℕ) ℕ
  child_scalar child s empty child_path cache = elim (node_exists s child_path) [
    | true ↦
        let (commitment, after) = child child_path cache in
        (c.scalar_of (c.root_hash commitment), after)
    | false ↦ (empty, cache)
  ]

  -- The loop over the children of a node from the index on.
  unfoldable pub child_scalars :
      (List ℕ → Map (List ℕ) ℕ → ℕ × Map (List ℕ) ℕ)
      → MemoryStorage
      → ℕ
      → List ℕ
      → ℕ
      → ℕ
      → Map (List ℕ) ℕ
      → List ℕ × Map (List ℕ) ℕ
  child_scalars child s empty path zero index cache = ([], cache)
  child_scalars child s empty path (suc todo) index cache =
      let (scalar, after) = child_scalar child s empty (path ++ index ∷ []) cache in
      let (rest, last) = child_scalars child s empty path todo (index + 1) after in
      (scalar ∷ rest, last)

  -- The height is `key_size` less the depth of the source; the cache is all that changes.
  unfoldable pub compute_node_commitment :
      MemoryStorage → ℕ → List ℕ → Map (List ℕ) ℕ → ℕ × Map (List ℕ) ℕ
  compute_node_commitment s zero path cache = elim (lookup path cache) [
    | some commitment ↦ (commitment, cache)
    | none ↦
        let commitment = c.commit (leaf_scalar s path ∷ []) in
        (commitment, insert path commitment cache)
  ]
  compute_node_commitment s (suc height) path cache = elim (lookup path cache) [
    | some commitment ↦ (commitment, cache)
    | none ↦
        let (coeffs, cache') =
          child_scalars (compute_node_commitment s height) s
            (c.scalar_of (empty_subtree_root height)) path verkle_radix 0 cache in
        (c.commit coeffs, insert path (c.commit coeffs) cache')
  ]

  unfoldable pub recompute_root : VerkleTree → ℕ × VerkleTree
  recompute_root t =
      let (commitment, cache) = compute_node_commitment t.storage key_size [] t.commitment_cache in
      (
        c.root_hash commitment,
        record t {
          commitment_cache = cache;
          root_cache = some (c.root_hash commitment);
          dirty = false;
        },
      )

  unfoldable pub get_root : VerkleTree → ℕ × VerkleTree
  get_root t = elim t.root_cache [
    | none ↦ recompute_root t
    | some root ↦ if not t.dirty then (root, t) else recompute_root t
  ]
