-- ===== src/Verkle/Roots.antt =====
-- The commitments of the tree of a storage, without any cache: what `get_root` should return.
use klomang_network.Prelude.{
  ℕ, zero, suc, ◌+◌, ◌≡◌, List, [], ◌∷◌, ◌++◌, if◌then◌else◌, list_eq, refl, ap,
}
use mathlib.Core.Path.{subst}
use mathlib.Core.List.{append-nil, append_assoc}
use klomang_network.Prelude.Map.{lookup}
use klomang_network.Verkle.{
  Curve, MemoryStorage, key_for_path, key_size, verkle_radix, node_exists, get_node_value,
  leaf_scalar, empty_subtree_root,
}

-- The scalars of the children from an index on, by the commitment of a child.
unfoldable pub scalars_from : Curve → (List ℕ → ℕ) → MemoryStorage → ℕ → List ℕ → ℕ → ℕ → List ℕ
scalars_from c child s empty path zero index = []
scalars_from c child s empty path (suc todo) index =
    (if node_exists s (path ++ index ∷ [])
      then c.scalar_of (c.root_hash (child (path ++ index ∷ [])))
      else empty)
    ∷ scalars_from c child s empty path todo (index + 1)

unfoldable pub node_commitment : Curve → MemoryStorage → ℕ → List ℕ → ℕ
node_commitment c s zero path = c.commit (leaf_scalar c s path ∷ [])
node_commitment c s (suc height) path = c.commit (
    scalars_from c (node_commitment c s height) s (c.scalar_of (empty_subtree_root c height)) path
      verkle_radix 0)

unfoldable pub state_root : Curve → MemoryStorage → ℕ
state_root c s = c.root_hash (node_commitment c s key_size [])

-- Two storages hold the same nodes at the path and below it.
abbrev pub AgreeBelow : List ℕ → MemoryStorage → MemoryStorage → Type 0
AgreeBelow path s s' =
    (rest : List ℕ)
    → lookup (key_for_path (path ++ rest)) s ≡ lookup (key_for_path (path ++ rest)) s'

AgreeBelow-child :
    (path : List ℕ) (index : ℕ) (s s' : MemoryStorage)
    → AgreeBelow path s s'
    → AgreeBelow (path ++ index ∷ []) s s'
AgreeBelow-child path index s s' h rest =
    rw (append_assoc path (index ∷ []) rest) (h (index ∷ rest))

AgreeBelow-here :
    (path : List ℕ) (s s' : MemoryStorage)
    → AgreeBelow path s s'
    → lookup (key_for_path path) s ≡ lookup (key_for_path path) s'
AgreeBelow-here path s s' h =
    subst (λ (p : List ℕ). lookup (key_for_path p) s ≡ lookup (key_for_path p) s') (append-nil path)
      (h [])

node_exists-AgreeBelow :
    (path : List ℕ) (s s' : MemoryStorage)
    → AgreeBelow path s s'
    → node_exists s path ≡ node_exists s' path
unfolding node_exists
node_exists-AgreeBelow path s s' h = rw (AgreeBelow-here path s s' h) refl

get_node_value-AgreeBelow :
    (path : List ℕ) (s s' : MemoryStorage)
    → AgreeBelow path s s'
    → get_node_value s path ≡ get_node_value s' path
unfolding get_node_value
get_node_value-AgreeBelow path s s' h = rw (AgreeBelow-here path s s' h, get_node_value) refl

leaf_scalar-AgreeBelow :
    (c : Curve) (path : List ℕ) (s s' : MemoryStorage)
    → AgreeBelow path s s'
    → leaf_scalar c s path ≡ leaf_scalar c s' path
unfolding leaf_scalar
leaf_scalar-AgreeBelow c path s s' h = rw (get_node_value-AgreeBelow path s s' h, leaf_scalar) refl

scalars_from-AgreeBelow :
    (c : Curve) (child child' : List ℕ → ℕ) (s s' : MemoryStorage) (empty : ℕ) (path : List ℕ)
    (todo index : ℕ)
    → ((i : ℕ) → child (path ++ i ∷ []) ≡ child' (path ++ i ∷ []))
    → AgreeBelow path s s'
    → scalars_from c child s empty path todo index ≡ scalars_from c child' s' empty path todo index
unfolding scalars_from
scalars_from-AgreeBelow c child child' s s' empty path zero index same h = refl
scalars_from-AgreeBelow c child child' s s' empty path (suc todo) index same h =
    rw
      (
        node_exists-AgreeBelow (path ++ index ∷ []) s s' (AgreeBelow-child path index s s' h),
        same index,
        scalars_from-AgreeBelow c child child' s s' empty path todo (index + 1) same h,
      )
      refl

-- The commitment at a path depends on the nodes there and below only.
pub node_commitment-AgreeBelow :
    (c : Curve) (s s' : MemoryStorage) (height : ℕ) (path : List ℕ)
    → AgreeBelow path s s'
    → node_commitment c s height path ≡ node_commitment c s' height path
unfolding node_commitment
node_commitment-AgreeBelow c s s' zero path h =
    rw (leaf_scalar-AgreeBelow c path s s' h, node_commitment) refl
node_commitment-AgreeBelow c s s' (suc height) path h = ap c.commit (
    scalars_from-AgreeBelow c (node_commitment c s height) (node_commitment c s' height) s s'
      (c.scalar_of (empty_subtree_root c height)) path verkle_radix 0
      (λ i.
        node_commitment-AgreeBelow c s s' height (path ++ i ∷ []) (AgreeBelow-child path i s s' h))
      h)
