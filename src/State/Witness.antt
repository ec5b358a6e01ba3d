-- ===== src/State/Witness.antt =====
-- Execution witnesses and their compact form in state_manager.rs. An array of 32 bytes is a list.
use klomang_network.Prelude.{
  ℕ, zero, suc, ◌%◌, ◌^◌, Bool, true, not, ◌&&◌, Option, none, some, List, [], ◌∷◌, ◌++◌, eqb, ltb,
  length, take, drop, if◌then◌else◌, ◌==◌, list_eq,
}
use klomang_network.Prelude.Bytes.{be_bytes, from_be_bytes}
use klomang_network.Prelude.Result.{Result, ok, err, ◌>>=◌, ◌>>◌, guard}
use klomang_network.State.{GasFeeWitness}
use klomang_network.Verkle.Proofs.{ProofType, membership, non_membership, VerkleProof}

pub record ExecutionWitnessEntry (O : Type 0) : Type 0 where
  pub key : List ℕ
  pub value : Option (List ℕ)
  pub proof : VerkleProof O (List ℕ)

pub record ExecutionWitness (O : Type 0) : Type 0 where
  pub root : List ℕ
  pub entries : List (ExecutionWitnessEntry O)

pub data WitnessError : Type 0 where
  invalid_serialization invalid_data invalid_proof_type : WitnessError

unfoldable pub entries_valid : {O : Type 0} → List ℕ → List (ExecutionWitnessEntry O) → Bool
entries_valid root [] = true
entries_valid root (e ∷ es) =
    (e.proof.root == root) && (e.proof.path == e.key) && entries_valid root es

unfoldable pub is_valid : {O : Type 0} → ExecutionWitness O → Bool
is_valid w = entries_valid w.root w.entries

-- `as u8`, by the order in which the type declares its variants.
unfoldable pub proof_type_code : ProofType → ℕ
proof_type_code membership = 0
proof_type_code non_membership = 1

-- The writers put the bytes before those that follow.
unfoldable pub write_sized : List ℕ → List ℕ → List ℕ
write_sized bytes rest = be_bytes 4 (length bytes % 2 ^ 32) ++ (bytes ++ rest)

unfoldable pub write_optional : Option (List ℕ) → List ℕ → List ℕ
write_optional none rest = rest
write_optional (some bytes) rest = write_sized bytes rest

unfoldable pub write_siblings : List (List ℕ) → List ℕ → List ℕ
write_siblings [] rest = rest
write_siblings (s ∷ ss) rest = s ++ write_siblings ss rest

unfoldable pub write_fee : Option GasFeeWitness → List ℕ → List ℕ
write_fee none rest = rest
write_fee (some w) rest =
    be_bytes 16 w.total_gas_fee
    ++ (be_bytes 16 w.miner_share ++ (be_bytes 16 w.fullnode_share ++ rest))

abbrev pub flag {ℓ} : {A : Type ℓ} → Option A → ℕ
flag none = 0
flag (some a) = 1

unfoldable pub write_proof : {O : Type 0} → VerkleProof O (List ℕ) → List ℕ → List ℕ
write_proof p rest = write_sized p.path (
    be_bytes 4 (length p.siblings % 2 ^ 32)
    ++ write_siblings p.siblings (
        p.root
        ++ (flag p.leaf_value
            ∷ write_optional p.leaf_value
                (flag p.gas_fee_distribution ∷ write_fee p.gas_fee_distribution rest))))

unfoldable pub write_entry : {O : Type 0} → ExecutionWitnessEntry O → List ℕ → List ℕ
write_entry e rest =
    e.key
    ++ (proof_type_code e.proof.proof_type
        ∷ flag e.value
        ∷ write_optional e.value (write_proof e.proof rest))

unfoldable pub write_entries : {O : Type 0} → List (ExecutionWitnessEntry O) → List ℕ → List ℕ
write_entries [] rest = rest
write_entries (e ∷ es) rest = write_entry e (write_entries es rest)

unfoldable pub serialize_compact : {O : Type 0} → ExecutionWitness O → List ℕ
serialize_compact w =
    w.root ++ (be_bytes 4 (length w.entries % 2 ^ 32) ++ write_entries w.entries [])

-- The readers take bytes from the cursor on, and give the bytes after those they took.
unfoldable pub read_bytes : ℕ → List ℕ → Result WitnessError (List ℕ × List ℕ)
read_bytes n bytes =
    if ltb (length bytes) n then err invalid_data else ok (take n bytes, drop n bytes)

unfoldable pub read_byte : List ℕ → Result WitnessError (ℕ × List ℕ)
read_byte [] = err invalid_data
read_byte (b ∷ bytes) = ok (b, bytes)

-- A number of as many bytes.
unfoldable pub read_number : ℕ → List ℕ → Result WitnessError (ℕ × List ℕ)
read_number n bytes = read_bytes n bytes >>= λ r. ok (from_be_bytes 0 r.0, r.1)

unfoldable pub read_sized : List ℕ → Result WitnessError (List ℕ × List ℕ)
read_sized bytes = read_number 4 bytes >>= λ r. read_bytes r.0 r.1

unfoldable pub read_optional : ℕ → List ℕ → Result WitnessError (Option (List ℕ) × List ℕ)
read_optional present bytes =
    if eqb present 1 then (read_sized bytes >>= λ r. ok (some r.0, r.1)) else ok (none, bytes)

unfoldable pub read_siblings : ℕ → List ℕ → Result WitnessError (List (List ℕ) × List ℕ)
read_siblings zero bytes = ok ([], bytes)
read_siblings (suc n) bytes = do
  sibling ← read_bytes 32 bytes
  rest ← read_siblings n sibling.1
  ok (sibling.0 ∷ rest.0, rest.1)

unfoldable pub read_fee : ℕ → List ℕ → Result WitnessError (Option GasFeeWitness × List ℕ)
read_fee present bytes =
    if eqb present 1
    then (do
      guard (not (ltb (length bytes) 48)) invalid_data
      total ← read_number 16 bytes
      miner ← read_number 16 total.1
      fullnode ← read_number 16 miner.1
      ok (
        some (record {
          total_gas_fee = total.0;
          miner_share = miner.0;
          fullnode_share = fullnode.0;
        }),
        fullnode.1,
      ))
    else ok (none, bytes)

unfoldable pub read_proof_type : ℕ → Result WitnessError ProofType
read_proof_type code =
    if eqb code 0
    then ok non_membership
    else if eqb code 1
    then ok membership
    else err invalid_proof_type

unfoldable pub read_proof :
    {O : Type 0} → ProofType → List ℕ → Result WitnessError (VerkleProof O (List ℕ) × List ℕ)
read_proof proof_type bytes = do
  path ← read_sized bytes
  count ← read_number 4 path.1
  siblings ← read_siblings count.0 count.1
  root ← read_bytes 32 siblings.1
  leaf_flag ← read_byte root.1
  leaf ← read_optional leaf_flag.0 leaf_flag.1
  fee_flag ← read_byte leaf.1
  fee ← read_fee fee_flag.0 fee_flag.1
  ok (
    record {
      proof_type = proof_type;
      path = path.0;
      siblings = siblings.0;
      leaf_value = leaf.0;
      root = root.0;
      opening_proofs = [];
      gas_fee_distribution = fee.0;
    },
    fee.1,
  )

unfoldable pub read_entry :
    {O : Type 0} → List ℕ → Result WitnessError (ExecutionWitnessEntry O × List ℕ)
read_entry bytes = do
  guard (not (ltb (length bytes) 34)) invalid_data
  key ← read_bytes 32 bytes
  code ← read_byte key.1
  proof_type ← read_proof_type code.0
  has_value ← read_byte code.1
  value ← read_optional has_value.0 has_value.1
  proof ← read_proof proof_type value.1
  ok (record { key = key.0; value = value.0; proof = proof.0 }, proof.1)

unfoldable pub read_entries :
    {O : Type 0} → ℕ → List ℕ → Result WitnessError (List (ExecutionWitnessEntry O) × List ℕ)
read_entries zero bytes = ok ([], bytes)
read_entries (suc n) bytes = do
  entry ← read_entry bytes
  rest ← read_entries n entry.1
  ok (entry.0 ∷ rest.0, rest.1)

unfoldable pub deserialize_compact :
    {O : Type 0} → List ℕ → Result WitnessError (ExecutionWitness O)
deserialize_compact bytes = do
  guard (not (ltb (length bytes) 36)) invalid_serialization
  root ← read_bytes 32 bytes
  count ← read_number 4 root.1
  entries ← read_entries count.0 count.1
  ok (record { root = root.0; entries = entries.0 })
