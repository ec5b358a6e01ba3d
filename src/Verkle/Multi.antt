-- ===== src/Verkle/Multi.antt =====
-- Proofs of several keys, `generate_multi_proof` and `verify_multi_proof` of v_trie.rs.
use klomang_network.Prelude.{
  ℕ, ◌≡◌, true, List, [], ◌∷◌, eqb_iff, length, All, none, refl, ap, sym, ◌∙◌,
}
use mathlib.Core.Path.{subst}
use klomang_network.Prelude.Result.{ok}
use klomang_network.Verkle.{Curve, MemoryStorage, VerkleTree, key_size, get_root, new}
use klomang_network.Verkle.Roots.{state_root}
use klomang_network.Verkle.Steps.{IsTree, new-IsTree, get_root-state_root}
use klomang_network.Verkle.Proofs.{
  Openings, walk, verify_proof, fee_matches, generate_proof_with_witness, generate_proof,
  generate_entries, generate_multi_proof, verify_entries, verify_multi_proof,
}
use klomang_network.Verkle.Climbs.{IsFull, IsChecked}
use klomang_network.Verkle.Complete.{
  walked-IsTree, verify_proof-generate_proof_with_witness, Shows-IsFull,
}
use klomang_network.Verkle.Refine.{
  Call, Fits, after, after-IsTree, after-Shows, view_after, blank, new-Shows,
}

abbrev IsKey : List ℕ → Type 0
IsKey key = length key ≡ key_size

module _ {O : Type 0} (c : Curve) (p : Openings O) where
  -- A proof carries the root of the storage, and leaves a right tree with that storage.
  pub generate_proof-kept :
      (key : List ℕ) (t : VerkleTree)
      → IsKey key
      → IsTree c t
      → IsFull t.storage
      → IsChecked p
      → ((generate_proof c p key t).0.root ≡ state_root c t.storage)
        × IsTree c (generate_proof c p key t).1
        × ((generate_proof c p key t).1.storage ≡ t.storage)
  unfolding generate_proof generate_proof_with_witness
  generate_proof-kept key t n i full sound =
      let w = walk c p t.storage key [] true t.commitment_cache in
      let root =
        get_root-state_root c (record t { commitment_cache = w.cache })
          (walked-IsTree c p key t n i full sound) in
      (root.0, root.1, root.2)

  verify_entries-generate_entries :
      (keys : List (List ℕ)) (t : VerkleTree)
      → All IsKey keys
      → IsTree c t
      → IsFull t.storage
      → IsChecked p
      → verify_entries c p (state_root c t.storage) (generate_entries c p keys t).0 ≡ ok true
  unfolding verify_entries generate_entries fee_matches generate_proof generate_proof_with_witness
  verify_entries-generate_entries [] t k i full sound = refl
  verify_entries-generate_entries (key ∷ keys) t k i full sound =
      let kept = generate_proof-kept key t k.0 i full sound in
      let passed : verify_proof c p (generate_proof c p key t).0 ≡ ok true =
        verify_proof-generate_proof_with_witness c p key none t k.0 i full sound refl in
      let same = (eqb_iff (generate_proof c p key t).0.root (state_root c t.storage)).1 kept.0 in
      let t' = (generate_proof c p key t).1 in
      let rest =
        verify_entries-generate_entries keys t' k.1 kept.1
          (subst (λ (s : MemoryStorage). IsFull s) (sym kept.2) full) sound in
      rw (same, passed)
        (subst
          (λ (s : MemoryStorage).
            verify_entries c p (state_root c s) (generate_entries c p keys t').0 ≡ ok true)
          kept.2 rest)

-- After any run of calls with whole keys and values that fit on a new tree, a proof of several
-- whole keys passes its check, if the openings that are made pass without an error.
pub verify_multi_proof-after :
    {O : Type 0} (c : Curve) (p : Openings O) (calls : List Call) (keys : List (List ℕ))
    → All Fits calls
    → All IsKey keys
    → IsChecked p
    → verify_multi_proof c p (generate_multi_proof c p keys (after c calls (new []))).0 ≡ ok true
unfolding verify_multi_proof generate_multi_proof
verify_multi_proof-after c p calls keys f k sound =
    let t = after c calls (new []) in
    let i = after-IsTree c calls (new []) f (new-IsTree c []) in
    let full =
      Shows-IsFull t (view_after calls blank)
        (after-Shows c calls (new []) blank f (new-IsTree c []) new-Shows) in
    let root = get_root-state_root c t i in
    let t' = (get_root c t).1 in
    ap (λ (r : ℕ). verify_entries c p r (generate_entries c p keys t').0)
      (root.0 ∙ ap (state_root c) (sym root.2))
    ∙ verify_entries-generate_entries c p keys t' k root.1
        (subst (λ (s : MemoryStorage). IsFull s) (sym root.2) full) sound
