-- ===== src/Verkle/Proofs.antt =====
-- Proofs of a key in the tree: `generate_proof_with_witness` and `verify_proof` of v_trie.rs.
use klomang_network.Prelude.{
  ℕ, zero, suc, ◌+◌, ◌-◌, ◌*◌, ◌/◌, ◌%◌, ◌^◌, Bool, true, false, not, ◌&&◌, Option, none, some,
  List, [], ◌∷◌, ◌++◌, eqb, length, take, drop, if◌then◌else◌, is_some,
}
use klomang_network.Prelude.Map.{Map}
use klomang_network.Prelude.Result.{Result, ok, err, ◌>>=◌, ◌>>◌}
use klomang_network.Reward.{miner_reward_percent}
use klomang_network.Verkle.{
  Curve, MemoryStorage, VerkleTree, GasFeeWitness, key_size, verkle_radix, node_exists,
  get_node_value, value_to_scalar, empty_subtree_root, child_scalars, compute_node_commitment,
  get_root, repeat,
}

pub data ProofType : Type 0 where
  membership non_membership : ProofType

-- A proof with opening proofs of the polynomial commitments, over a form of digests.
pub record VerkleProof (O D : Type 0) : Type 0 where
  pub proof_type : ProofType
  pub path : List ℕ
  pub siblings : List D
  pub leaf_value : Option (List ℕ)
  pub root : D
  pub opening_proofs : List O
  pub gas_fee_distribution : Option GasFeeWitness

-- The opening proofs of a polynomial commitment: at a point with a value, and their check, which
-- can fail besides its answer.
pub record Openings (O : Type 0) : Type 0 where
  pub open_at : List ℕ → ℕ → ℕ → Option O
  pub verify : O → Option Bool

-- What the loop over the bytes of a key collects.
pub record Walk (O : Type 0) : Type 0 where
  pub siblings : List ℕ
  pub openings : List O
  pub path : List ℕ
  pub live : Bool
  pub cache : Map (List ℕ) ℕ

module _ (c : Curve) where
  -- The root of one child of a node in the storage.
  unfoldable pub child_root : MemoryStorage → ℕ → List ℕ → Map (List ℕ) ℕ → ℕ × Map (List ℕ) ℕ
  child_root s height path cache = elim (node_exists s path) [
    | true ↦
        let (commitment, after) = compute_node_commitment c s height path cache in
        (c.root_hash commitment, after)
    | false ↦ (empty_subtree_root c height, cache)
  ]

  unfoldable pub child_roots :
      MemoryStorage → ℕ → List ℕ → ℕ → ℕ → Map (List ℕ) ℕ → List ℕ × Map (List ℕ) ℕ
  child_roots s height path zero index cache = ([], cache)
  child_roots s height path (suc todo) index cache =
      let (root, after) = child_root s height (path ++ index ∷ []) cache in
      let (rest, last) = child_roots s height path todo (index + 1) after in (root ∷ rest, last)

  -- The siblings of one depth.
  unfoldable pub depth_roots :
      MemoryStorage → Bool → ℕ → List ℕ → Map (List ℕ) ℕ → List ℕ × Map (List ℕ) ℕ
  depth_roots s true height path cache = child_roots s height path verkle_radix 0 cache
  depth_roots s false height path cache = (repeat verkle_radix (empty_subtree_root c height), cache)

  module _ {O : Type 0} (p : Openings O) where
    unfoldable pub open_child :
        MemoryStorage → Bool → ℕ → List ℕ → ℕ → Map (List ℕ) ℕ → List O × Map (List ℕ) ℕ
    open_child s false height path byte cache = ([], cache)
    open_child s true height path byte cache =
        let (commitment, after) = compute_node_commitment c s height (path ++ byte ∷ []) cache in
        let (coeffs, last) =
          child_scalars c (compute_node_commitment c s height) s
            (c.scalar_of (empty_subtree_root c height)) path verkle_radix 0 after in
        elim (p.open_at coeffs byte (c.scalar_of (c.root_hash commitment))) [
          | none ↦ ([], last)
          | some proof ↦ (proof ∷ [], last)
        ]

    -- The loop from a path on; the height of a child is the number of bytes after it.
    unfoldable pub walk : MemoryStorage → List ℕ → List ℕ → Bool → Map (List ℕ) ℕ → Walk O
    walk s [] path live cache = record {
      siblings = [];
      openings = [];
      path = path;
      live = live;
      cache = cache;
    }
    walk s (byte ∷ bytes) path live cache =
        let here = live && node_exists s path in
        let (roots, cache') = depth_roots s here (length bytes) path cache in
        let (opening, cache'') = open_child s here (length bytes) path byte cache' in
        let path' = if live then path ++ byte ∷ [] else path in
        let rest = walk s bytes path' (live && node_exists s path') cache'' in
        record rest { siblings = roots ++ rest.siblings; openings = opening ++ rest.openings }

    unfoldable pub generate_proof_with_witness :
        List ℕ → Option GasFeeWitness → VerkleTree → VerkleProof O ℕ × VerkleTree
    generate_proof_with_witness key gas_witness t =
        let w = walk t.storage key [] true t.commitment_cache in
        let leaf_value = if w.live then get_node_value t.storage w.path else none in
        let (root, t') = get_root c (record t { commitment_cache = w.cache }) in
        (
          record {
            proof_type = if is_some leaf_value then membership else non_membership;
            path = key;
            siblings = w.siblings;
            leaf_value = leaf_value;
            root = root;
            opening_proofs = w.openings;
            gas_fee_distribution = gas_witness;
          },
          t',
        )

    -- The opening proofs in turn: a check that fails is an error, and its answer is dropped.
    unfoldable pub check_openings : List O → Result (Unit {0}) (Unit {0})
    check_openings [] = ok tt
    check_openings (o ∷ os) =
        let rest = check_openings os in elim (p.verify o) [ none ↦ err tt | some answer ↦ rest ]

  -- The coefficients of one depth from the index on, with the scalar below the path.
  unfoldable pub coeffs_from : ℕ → ℕ → ℕ → List ℕ → List ℕ
  coeffs_from byte current index [] = []
  coeffs_from byte current index (sibling ∷ siblings) =
      (if eqb index byte then current else c.scalar_of sibling)
      ∷ coeffs_from byte current (index + 1) siblings

  unfoldable pub level_root : ℕ → List ℕ → ℕ → ℕ
  level_root byte siblings current =
      c.root_hash (c.commit (coeffs_from byte current 0 (take verkle_radix siblings)))

  -- The loop from the leaf up to the root, on the siblings of the path's depths.
  unfoldable pub path_scalar : List ℕ → List ℕ → ℕ → ℕ
  path_scalar [] siblings leaf = leaf
  path_scalar (byte ∷ bytes) siblings leaf =
      c.scalar_of (level_root byte siblings (path_scalar bytes (drop verkle_radix siblings) leaf))

  unfoldable pub path_root : List ℕ → List ℕ → ℕ → ℕ
  path_root [] siblings leaf = 0
  path_root (byte ∷ bytes) siblings leaf =
      level_root byte siblings (path_scalar bytes (drop verkle_radix siblings) leaf)

  unfoldable pub leaf_of : Option (List ℕ) → ℕ
  leaf_of none = c.scalar_of (empty_subtree_root c 0)
  leaf_of (some value) = c.scalar_of (c.root_hash (c.commit (value_to_scalar c value ∷ [])))

unfoldable pub type_matches : ProofType → Option (List ℕ) → Bool
type_matches membership leaf = is_some leaf
type_matches non_membership leaf = not (is_some leaf)

unfoldable pub fee_matches : Option GasFeeWitness → Bool
fee_matches none = true
fee_matches (some w) =
    let expected_miner = w.total_gas_fee * miner_reward_percent % 2 ^ 128 / 100 in
    eqb w.miner_share expected_miner && eqb w.fullnode_share (w.total_gas_fee - expected_miner)

unfoldable pub verify_proof :
    {O : Type 0} → Curve → Openings O → VerkleProof O ℕ → Result (Unit {0}) Bool
verify_proof c p proof =
    let computed = path_root c proof.path proof.siblings (leaf_of c proof.leaf_value) in
    let checked =
      check_openings c p proof.opening_proofs
      >> (if not (eqb computed proof.root)
          then ok false
          else ok (fee_matches proof.gas_fee_distribution)) in
    if not (eqb (length proof.path) key_size)
    then ok false
    else if not (eqb (length proof.siblings) (key_size * verkle_radix))
    then ok false
    else if not (type_matches proof.proof_type proof.leaf_value)
    then ok false
    else checked

pub record VerkleMultiProof (O D : Type 0) : Type 0 where
  pub root : D
  pub entry_proofs : List (VerkleProof O D)

module _ {O : Type 0} (c : Curve) (p : Openings O) where
  unfoldable pub generate_proof : List ℕ → VerkleTree → VerkleProof O ℕ × VerkleTree
  generate_proof key t = generate_proof_with_witness c p key none t

  unfoldable pub generate_entries : List (List ℕ) → VerkleTree → List (VerkleProof O ℕ) × VerkleTree
  generate_entries [] t = ([], t)
  generate_entries (key ∷ keys) t =
      let (proof, after) = generate_proof key t in
      let (rest, last) = generate_entries keys after in (proof ∷ rest, last)

  unfoldable pub generate_multi_proof :
      List (List ℕ) → VerkleTree → VerkleMultiProof O ℕ × VerkleTree
  generate_multi_proof keys t =
      let (root, after) = get_root c t in
      let (entry_proofs, last) = generate_entries keys after in
      (record { root = root; entry_proofs = entry_proofs }, last)

  unfoldable pub verify_entries : ℕ → List (VerkleProof O ℕ) → Result (Unit {0}) Bool
  verify_entries root [] = ok true
  verify_entries root (entry ∷ entries) =
      let rest = verify_entries root entries in
      let checked = verify_proof c p entry >>= λ passed. if not passed then ok false else rest in
      if not (eqb entry.root root) then ok false else checked

  unfoldable pub verify_multi_proof : VerkleMultiProof O ℕ → Result (Unit {0}) Bool
  verify_multi_proof proof = verify_entries proof.root proof.entry_proofs
