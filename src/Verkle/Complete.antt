-- ===== src/Verkle/Complete.antt =====
-- A generated proof passes its check.
use klomang_network.Prelude.{
  ℕ, ◌*◌, ◌≡◌, true, Option, none, some, List, [], ◌∷◌, eqb, length, if◌then◌else◌, is_some, All,
  arith, refl, ap, sym, ◌∙◌, eqb_iff,
}
use klomang_network.Prelude.Result.{ok}
use klomang_network.Verkle.{Curve, VerkleTree, GasFeeWitness, key_size, verkle_radix}
use klomang_network.Verkle.Roots.{node_commitment, state_root}
use klomang_network.Verkle.Steps.{IsTree, get_root-state_root}
use klomang_network.Verkle.Proofs.{
  VerkleProof, Openings, membership, non_membership, walk, generate_proof_with_witness,
  check_openings, path_root, leaf_of, type_matches, fee_matches, verify_proof,
}
use klomang_network.Verkle.Steps.{new-IsTree}
use klomang_network.Verkle.{new}
use klomang_network.Verkle.Reaches.{Reaches}
use klomang_network.Verkle.Climbs.{IsFull, IsChecked, leaf_value, walk-live}
use klomang_network.Verkle.Refine.{
  Call, Fits, after, after-IsTree, after-Shows, View, view_after, Shows, blank, new-Shows,
}

eqb-true : (a b : ℕ) → a ≡ b → eqb a b ≡ true
eqb-true a b h = (eqb_iff a b).1 h

-- A proof whose parts pass the checks one by one passes.
verify_proof-true :
    {O : Type 0} (c : Curve) (p : Openings O) (proof : VerkleProof O ℕ)
    → length proof.path ≡ key_size
    → length proof.siblings ≡ key_size * verkle_radix
    → type_matches proof.proof_type proof.leaf_value ≡ true
    → check_openings c p proof.opening_proofs ≡ ok tt
    → path_root c proof.path proof.siblings (leaf_of c proof.leaf_value) ≡ proof.root
    → fee_matches proof.gas_fee_distribution ≡ true
    → verify_proof c p proof ≡ ok true
unfolding verify_proof
verify_proof-true c p proof n m kind o e f =
    rw
      (
        eqb-true (length proof.path) key_size n,
        eqb-true (length proof.siblings) (key_size * verkle_radix) m,
        kind,
        o,
        eqb-true (path_root c proof.path proof.siblings (leaf_of c proof.leaf_value)) proof.root e,
        f,
      )
      refl

type_matches-leaf :
    (leaf : Option (List ℕ))
    → type_matches (if is_some leaf then membership else non_membership) leaf ≡ true
unfolding type_matches
type_matches-leaf none = refl
type_matches-leaf (some v) = refl

-- The cache that the loop over a key leaves is right.
pub walked-IsTree :
    {O : Type 0} (c : Curve) (p : Openings O) (key : List ℕ) (t : VerkleTree)
    → length key ≡ key_size
    → IsTree c t
    → IsFull t.storage
    → IsChecked p
    → IsTree c
        (record t { commitment_cache = (walk c p t.storage key [] true t.commitment_cache).cache })
walked-IsTree c p key t n i full sound = record {
  coherent =
      (walk-live c t.storage p key [] t.commitment_cache sound full i.rooted (omega (arith, n))
        i.coherent).coherent;
  cached = i.cached;
  rooted = i.rooted;
}

-- In a tree with right caches whose whole keys have a value where they have a node, the proof that
-- is generated for a whole key, of membership or of absence, passes its check, if the openings
-- that are made pass without an error and the fee witness splits its fee as it should.
pub verify_proof-generate_proof_with_witness :
    {O : Type 0} (c : Curve) (p : Openings O) (key : List ℕ) (gas_witness : Option GasFeeWitness)
    (t : VerkleTree)
    → length key ≡ key_size
    → IsTree c t
    → IsFull t.storage
    → IsChecked p
    → fee_matches gas_witness ≡ true
    → verify_proof c p (generate_proof_with_witness c p key gas_witness t).0 ≡ ok true
unfolding generate_proof_with_witness Reaches state_root
verify_proof-generate_proof_with_witness c p [] gas_witness t n i full sound f =
    absurd (omega (arith, n))
verify_proof-generate_proof_with_witness c p (byte ∷ bytes) gas_witness t n i full sound f =
    let s = t.storage in
    let w = walk c p s (byte ∷ bytes) [] true t.commitment_cache in
    let climbs =
      walk-live c s p (byte ∷ bytes) [] t.commitment_cache sound full i.rooted (omega (arith, n))
        i.coherent in
    let moved = walked-IsTree c p (byte ∷ bytes) t n i full sound in
    let root = get_root-state_root c (record t { commitment_cache = w.cache }) moved in
    verify_proof-true c p (generate_proof_with_witness c p (byte ∷ bytes) gas_witness t).0 n
      (climbs.size ∙ ap (λ (k : ℕ). k * verkle_radix) n) (type_matches-leaf (leaf_value c s p w))
      climbs.checked
      (climbs.reaches ∙ ap (λ (k : ℕ). c.root_hash (node_commitment c s k [])) n ∙ sym root.0) f

pub Shows-IsFull : (t : VerkleTree) (w : View) → Shows t w → IsFull t.storage
Shows-IsFull t w h q n = h.same_exists q n ∙ sym (ap is_some (h.same_value q n))

-- After any run of calls with whole keys and values that fit on a new tree, the proof that is
-- generated for a whole key, of membership or of absence, passes its check, if the openings that
-- are made pass without an error and the fee witness splits its fee as it should.
pub verify_proof-after :
    {O : Type 0} (c : Curve) (p : Openings O) (calls : List Call) (key : List ℕ)
    (gas_witness : Option GasFeeWitness)
    → All Fits calls
    → length key ≡ key_size
    → IsChecked p
    → fee_matches gas_witness ≡ true
    → verify_proof c p (generate_proof_with_witness c p key gas_witness (after c calls (new []))).0
      ≡ ok true
verify_proof-after c p calls key gas_witness f n sound w =
    let t = after c calls (new []) in
    verify_proof-generate_proof_with_witness c p key gas_witness t n
      (after-IsTree c calls (new []) f (new-IsTree c []))
      (Shows-IsFull t (view_after calls blank)
        (after-Shows c calls (new []) blank f (new-IsTree c []) new-Shows))
      sound w
