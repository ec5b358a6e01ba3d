-- ===== src/Verkle/Sound.antt =====
-- What a proof that `verify_proof` accepts says of the tree whose root it carries.
use klomang_network.Prelude.{
  ℕ, ◌≡◌, Bool, true, false, Option, none, some, List, [], ◌∷◌, ◌++◌, length, if◌then◌else◌, All,
  arith, refl, sym, ◌∙◌,
}
use mathlib.Core.Path.{subst}
use mathlib.Core.List.{append-nil, append_assoc}
use klomang_network.Prelude.Map.{Map}
use klomang_network.Prelude.Result.{ok}
use klomang_network.Verkle.{
  Curve, MemoryStorage, VerkleTree, key_size, node_exists, get_node_value, get_root, new,
}
use klomang_network.Verkle.Steps.{new-IsTree, get_root-state_root}
use klomang_network.Verkle.Proofs.{
  VerkleProof, Openings, walk, verify_proof, fee_matches, generate_proof_with_witness,
  generate_proof,
}
use klomang_network.Verkle.Climbs.{IsChecked}
use klomang_network.Verkle.Complete.{Shows-IsFull, verify_proof-after}
use klomang_network.Verkle.Multi.{generate_proof-kept}
use klomang_network.Verkle.Binding.{Binds, IsByte, verify_proof-Passed, verify_proof-binding}
use klomang_network.Verkle.Refine.{
  Call, Fits, after, after-IsTree, after-Shows, view_after, blank, new-Shows,
}

-- No opening is made.
abbrev silent : Openings ℕ
silent = record { open_at = λ coeffs point value. none; verify = λ o. none }

silent-IsChecked : IsChecked silent
silent-IsChecked coeffs point value o e = absurd (ground (arith, e))

module _ (c : Curve) (s : MemoryStorage) where
  -- A walk that ends alive has gone along the whole key.
  walk-path :
      (live : Bool) (bytes path : List ℕ) (cache : Map (List ℕ) ℕ)
      → (walk c silent s bytes path live cache).live ≡ true
      → (live ≡ true) × ((walk c silent s bytes path live cache).path ≡ path ++ bytes)
  unfolding walk
  walk-path live [] path cache h = (h, sym (append-nil path))
  walk-path true (byte ∷ bytes) path cache h =
      let rest = walk-path (node_exists s (path ++ byte ∷ [])) bytes (path ++ byte ∷ []) _ h in
      (refl, rest.1 ∙ append_assoc path (byte ∷ []) bytes)
  walk-path false (byte ∷ bytes) path cache h =
      absurd (ground (arith, (walk-path false bytes path _ h).0))

  -- A value at the end of a walk is the value of the key.
  found : Bool → List ℕ → Option (List ℕ)
  found live path = if live then get_node_value s path else none

  found-path :
      (live : Bool) (path key v : List ℕ)
      → (live ≡ true → path ≡ key)
      → found live path ≡ some v
      → get_node_value s key ≡ some v
  unfolding found
  found-path true path key v h e = subst (λ (q : List ℕ). get_node_value s q ≡ some v) (h refl) e
  found-path false path key v h e = absurd (ground (arith, e))

generate_proof-value :
    (c : Curve) (key v : List ℕ) (t : VerkleTree)
    → (generate_proof c silent key t).0.leaf_value ≡ some v
    → get_node_value t.storage key ≡ some v
unfolding generate_proof generate_proof_with_witness found
generate_proof-value c key v t h =
    let w = walk c silent t.storage key [] true t.commitment_cache in
    found-path c t.storage w.live w.path key v
      (λ live. (walk-path c t.storage true key [] t.commitment_cache live).1) h

-- After any run of calls with whole keys and values that fit on a new tree, and where commitments
-- do not collide: a proof of a value for a path of bytes, whoever made it, that is accepted and
-- carries the root of the tree shows the value that the abstract map has at that key.
pub verify_proof_sound :
    {O : Type 0} (c : Curve) (p : Openings O) (calls : List Call) (proof : VerkleProof O ℕ)
    (v : List ℕ)
    → Binds c
    → All Fits calls
    → All IsByte proof.path
    → proof.root ≡ (get_root c (after c calls (new []))).0
    → verify_proof c p proof ≡ ok true
    → proof.leaf_value ≡ some v
    → (view_after calls blank).value proof.path ≡ some v
unfolding fee_matches generate_proof generate_proof_with_witness
verify_proof_sound c p calls proof v b f small root h leaf =
    let key = proof.path in
    let t = after c calls (new []) in
    let n : length key ≡ key_size = (verify_proof-Passed c p proof h).whole in
    let i = after-IsTree c calls (new []) f (new-IsTree c []) in
    let shows = after-Shows c calls (new []) blank f (new-IsTree c []) new-Shows in
    let kept =
      generate_proof-kept c silent key t n i (Shows-IsFull t (view_after calls blank) shows)
        silent-IsChecked in
    let own = (generate_proof c silent key t).0 in
    let accepted = verify_proof-after c silent calls key none f n silent-IsChecked refl in
    let same =
      verify_proof-binding c p silent proof own b small refl
        (root ∙ (get_root-state_root c t i).0 ∙ sym kept.0) h accepted in
    sym (shows.same_value key n) ∙ generate_proof-value c key v t (sym same ∙ leaf)
