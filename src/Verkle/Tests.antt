-- ===== src/Verkle/Tests.antt =====
-- A run of calls, and a proof after it.
use klomang_network.Prelude.{ℕ, ◌≡◌, List, [], ◌∷◌, true, Option, some, arith, refl, list_eq, All}
use klomang_network.Prelude.Result.{ok}
use klomang_network.Utxo.{zero_bytes}
use klomang_network.Samples.{toy_curve, empty_storage}
use klomang_network.Verkle.{GasFeeWitness, new, get_root}
use klomang_network.Verkle.Roots.{state_root}
use klomang_network.Verkle.Steps.{new-IsTree}
use klomang_network.Verkle.Proofs.{Openings, generate_proof_with_witness, verify_proof, fee_matches}
use klomang_network.Verkle.Complete.{verify_proof-after}
use klomang_network.Verkle.Refine.{
  Call, write, prune, read, root, Fits, run, replay, run-replay, blank, new-Shows, after,
  get_root-after,
}
use klomang_network.Prelude.{zero, suc, none, sym, ◌∙◌}
use mathlib.Core.Path.{subst}
use klomang_network.Verkle.{
  VerkleTree, insert_key, invalidate_path_cache, ensure_path, ensure_node, set_node_value,
  node_exists, get_node_value, deserialize_node, serialize_node,
}
use klomang_network.Verkle.Steps.{get_root-state_root}
use klomang_network.Verkle.Proofs.{VerkleProof, generate_proof, walk}
use klomang_network.Verkle.Complete.{Shows-IsFull}
use klomang_network.Verkle.Multi.{generate_proof-kept}
use klomang_network.Verkle.Binding.{IsByte}
use klomang_network.Verkle.Sound.{verify_proof_sound}
use klomang_network.Verkle.Toys.{plain_curve, plain_curve-Binds}
use klomang_network.Prelude.Bytes.{be_bytes, from_be_bytes}
use klomang_network.Prelude.Map.{lookup, insert}
use klomang_network.Verkle.Refine.{step, after-IsTree, after-Shows, view_after}

abbrev leaf : List ℕ
leaf = 5 ∷ zero_bytes 31

abbrev calls : List Call
calls = write leaf (9 ∷ []) ∷ root ∷ read leaf ∷ prune leaf ∷ read leaf ∷ []

calls-Fits : All Fits calls
unfolding Fits
calls-Fits = ((refl, omega arith), (tt, (refl, (refl, (refl, tt)))))

run-replay_example : run toy_curve calls (new empty_storage) ≡ replay calls blank
run-replay_example =
    run-replay toy_curve calls (new empty_storage) blank calls-Fits
      (new-IsTree toy_curve empty_storage) new-Shows

get_root-after_example :
    (get_root toy_curve (after toy_curve calls (new empty_storage))).0
    ≡ state_root toy_curve (after toy_curve calls (new empty_storage)).storage
get_root-after_example = get_root-after toy_curve calls empty_storage calls-Fits

-- An opening is its value.
abbrev value_openings : Openings ℕ
value_openings = record { open_at = λ coeffs point value. some value; verify = λ o. some true }

abbrev fees : Option GasFeeWitness
fees = some (record { total_gas_fee = 10; miner_share = 8; fullnode_share = 2 })

fees-matches : fee_matches fees ≡ true
unfolding fee_matches
fees-matches = refl

verify_proof-after_example :
    verify_proof toy_curve value_openings
      (generate_proof_with_witness toy_curve value_openings leaf fees
        (after toy_curve calls (new []))).0
    ≡ ok true
verify_proof-after_example =
    verify_proof-after toy_curve value_openings calls leaf fees calls-Fits refl
      (λ coeffs point value o e. refl) fees-matches

-- One value, and the tree's own proof of it.
abbrev one_call : List Call
one_call = write leaf (9 ∷ []) ∷ []

one_call-Fits : All Fits one_call
unfolding Fits
one_call-Fits = ((refl, omega arith), tt)

abbrev tree : VerkleTree
tree = after plain_curve one_call (new [])

abbrev own : VerkleProof ℕ ℕ
own = (generate_proof plain_curve value_openings leaf tree).0

own-accepted : verify_proof plain_curve value_openings own ≡ ok true
unfolding fee_matches generate_proof
own-accepted =
    verify_proof-after plain_curve value_openings one_call leaf none one_call-Fits refl
      (λ coeffs point value o e. refl) refl

own-root : own.root ≡ (get_root plain_curve tree).0
own-root =
    let i = after-IsTree plain_curve one_call (new []) one_call-Fits (new-IsTree plain_curve []) in
    let shows =
      after-Shows plain_curve one_call (new []) blank one_call-Fits (new-IsTree plain_curve [])
        new-Shows in
    (generate_proof-kept plain_curve value_openings leaf tree refl i
      (Shows-IsFull tree (view_after one_call blank) shows) (λ coeffs point value o e. refl)).0
    ∙ sym (get_root-state_root plain_curve tree i).0

own-path : own.path ≡ leaf
unfolding generate_proof generate_proof_with_witness
own-path = refl

zero_bytes-small : (n : ℕ) → All IsByte (zero_bytes n)
zero_bytes-small zero = tt
zero_bytes-small (suc n) = (omega arith, zero_bytes-small n)

leaf-small : All IsByte leaf
leaf-small = (omega arith, zero_bytes-small 31)

own-value : own.leaf_value ≡ some (9 ∷ [])
unfolding generate_proof generate_proof_with_witness walk after step insert_key
    invalidate_path_cache ensure_path ensure_node set_node_value node_exists get_node_value new
    lookup insert deserialize_node serialize_node be_bytes from_be_bytes
own-value = refl

verify_proof_sound_example : (view_after one_call blank).value own.path ≡ some (9 ∷ [])
verify_proof_sound_example =
    verify_proof_sound plain_curve value_openings one_call own (9 ∷ []) plain_curve-Binds
      one_call-Fits (subst (All IsByte) (sym own-path) leaf-small) own-root own-accepted own-value
