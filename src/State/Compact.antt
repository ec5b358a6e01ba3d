-- ===== src/State/Compact.antt =====
-- Reading a compact execution witness back.
use klomang_network.Prelude.{
  ℕ, ◌%◌, ◌^◌, ◌<◌, ◌≤◌, ◌≡◌, false, Option, none, some, List, [], ◌∷◌, ◌++◌, ltb, length, take,
  drop, All, arith, refl, take-append, drop-append, length-append, ltb-false,
}
use klomang_network.Prelude.Bytes.{be_bytes, length-be_bytes, from_be_bytes-be_bytes}
use klomang_network.Prelude.Result.{ok}
use klomang_network.State.{GasFeeWitness}
use klomang_network.Verkle.Proofs.{ProofType, membership, non_membership, VerkleProof}
use klomang_network.State.Witness.{
  ExecutionWitnessEntry, ExecutionWitness, proof_type_code, write_sized, write_optional,
  write_siblings, write_fee, flag, write_proof, write_entry, write_entries, serialize_compact,
  read_bytes, read_byte, read_number, read_sized, read_optional, read_siblings, read_fee,
  read_proof_type, read_proof, read_entry, read_entries, deserialize_compact,
}

read_bytes-append :
    (n : ℕ) (xs rest : List ℕ) → length xs ≡ n → read_bytes n (xs ++ rest) ≡ ok (xs, rest)
unfolding read_bytes
read_bytes-append n xs rest h =
    let enough : ltb (length (xs ++ rest)) n ≡ false =
      ltb-false (length (xs ++ rest)) n (omega (arith, h, length-append xs rest)) in
    let front : take n (xs ++ rest) ≡ xs = rw⁻¹ h (take-append xs rest) in
    let back : drop n (xs ++ rest) ≡ rest = rw⁻¹ h (drop-append xs rest) in
    rw (enough, front, back) refl

read_number-be_bytes :
    (n value : ℕ) (rest : List ℕ)
    → value < 256 ^ n
    → read_number n (be_bytes n value ++ rest) ≡ ok (value, rest)
unfolding read_number
read_number-be_bytes n value rest h =
    rw
      (
        read_bytes-append n (be_bytes n value) rest (length-be_bytes n value),
        from_be_bytes-be_bytes n value h,
      )
      refl

read_sized-write_sized :
    (bytes rest : List ℕ)
    → length bytes < 2 ^ 32
    → read_sized (write_sized bytes rest) ≡ ok (bytes, rest)
unfolding read_sized write_sized
read_sized-write_sized bytes rest h =
    let whole : length bytes % 2 ^ 32 ≡ length bytes = omega (arith, h) in
    rw
      (
        whole,
        read_number-be_bytes 4 (length bytes) (bytes ++ rest) (omega (arith, h)),
        read_bytes-append (length bytes) bytes rest refl,
      )
      refl

-- The bytes of an optional value fit their length field.
abbrev FitsOptional : Option (List ℕ) → Type 0
FitsOptional none = Unit
FitsOptional (some bytes) = length bytes < 2 ^ 32

read_optional-write_optional :
    (value : Option (List ℕ)) (rest : List ℕ)
    → FitsOptional value
    → read_optional (flag value) (write_optional value rest) ≡ ok (value, rest)
unfolding read_optional write_optional
read_optional-write_optional none rest h = refl
read_optional-write_optional (some bytes) rest h = rw (read_sized-write_sized bytes rest h) refl

read_siblings-write_siblings :
    (siblings : List (List ℕ)) (rest : List ℕ)
    → All (λ s. length s ≡ 32) siblings
    → read_siblings (length siblings) (write_siblings siblings rest) ≡ ok (siblings, rest)
unfolding read_siblings write_siblings
read_siblings-write_siblings [] rest h = refl
read_siblings-write_siblings (s ∷ ss) rest h =
    rw
      (
        read_bytes-append 32 s (write_siblings ss rest) h.0,
        read_siblings-write_siblings ss rest h.1,
      )
      refl

-- The amounts of a gas fee fit in u128.
abbrev FitsFee : Option GasFeeWitness → Type 0
FitsFee none = Unit
FitsFee (some w) =
    (w.total_gas_fee < 256 ^ 16) × (w.miner_share < 256 ^ 16) × (w.fullnode_share < 256 ^ 16)

length_three :
    (a b c : ℕ) (rest : List ℕ)
    → 48 ≤ length (be_bytes 16 a ++ (be_bytes 16 b ++ (be_bytes 16 c ++ rest)))
length_three a b c rest = omega (
  arith,
  length-append (be_bytes 16 a) (be_bytes 16 b ++ (be_bytes 16 c ++ rest)),
  length-append (be_bytes 16 b) (be_bytes 16 c ++ rest),
  length-append (be_bytes 16 c) rest,
  length-be_bytes 16 a,
  length-be_bytes 16 b,
  length-be_bytes 16 c,
)

read_fee-write_fee :
    (fee : Option GasFeeWitness) (rest : List ℕ)
    → FitsFee fee
    → read_fee (flag fee) (write_fee fee rest) ≡ ok (fee, rest)
unfolding read_fee write_fee
read_fee-write_fee none rest h = refl
read_fee-write_fee (some w) rest h =
    let t = be_bytes 16 w.total_gas_fee in
    let m = be_bytes 16 w.miner_share in
    let f = be_bytes 16 w.fullnode_share in
    let enough : ltb (length (t ++ (m ++ (f ++ rest)))) 48 ≡ false =
      ltb-false (length (t ++ (m ++ (f ++ rest)))) 48
        (length_three w.total_gas_fee w.miner_share w.fullnode_share rest) in
    rw
      (
        enough,
        read_number-be_bytes 16 w.total_gas_fee (m ++ (f ++ rest)) h.0,
        read_number-be_bytes 16 w.miner_share (f ++ rest) h.1,
        read_number-be_bytes 16 w.fullnode_share rest h.2,
      )
      refl

-- What the reader makes of a code.
unfoldable pub swapped : ProofType → ProofType
swapped membership = non_membership
swapped non_membership = membership

-- The proof as it is read back.
unfoldable pub reread_proof : {O : Type 0} → VerkleProof O (List ℕ) → VerkleProof O (List ℕ)
reread_proof p = record p { proof_type = swapped p.proof_type; opening_proofs = [] }

unfoldable pub reread_entries :
    {O : Type 0} → List (ExecutionWitnessEntry O) → List (ExecutionWitnessEntry O)
reread_entries [] = []
reread_entries (e ∷ es) = record e { proof = reread_proof e.proof } ∷ reread_entries es

-- The widths of the fields of an entry, as the types of the source bound them.
pub record IsEntry {O : Type 0} (e : ExecutionWitnessEntry O) : Type 0 where
  pub key : length e.key ≡ 32
  pub value : FitsOptional e.value
  pub path : length e.proof.path < 2 ^ 32
  pub count : length e.proof.siblings < 2 ^ 32
  pub siblings : All (λ s. length s ≡ 32) e.proof.siblings
  pub root : length e.proof.root ≡ 32
  pub leaf : FitsOptional e.proof.leaf_value
  pub fee : FitsFee e.proof.gas_fee_distribution

read_proof_type-code : (p : ProofType) → read_proof_type (proof_type_code p) ≡ ok (swapped p)
unfolding read_proof_type proof_type_code swapped
read_proof_type-code membership = refl
read_proof_type-code non_membership = refl

module _ {O : Type 0} where
  read_proof-write_proof :
      (e : ExecutionWitnessEntry O) (kind : ProofType) (rest : List ℕ)
      → IsEntry e
      → read_proof kind (write_proof e.proof rest)
        ≡ ok (record e.proof { proof_type = kind; opening_proofs = [] }, rest)
  unfolding read_proof write_proof read_byte
  read_proof-write_proof e kind rest h =
      let p = e.proof in
      let whole : length p.siblings % 2 ^ 32 ≡ length p.siblings = omega (arith, h.count) in
      let fees = write_fee p.gas_fee_distribution rest in
      let leaf = write_optional p.leaf_value (flag p.gas_fee_distribution ∷ fees) in
      let tail = p.root ++ (flag p.leaf_value ∷ leaf) in
      rw
        (
          whole,
          read_sized-write_sized p.path
              (be_bytes 4 (length p.siblings) ++ write_siblings p.siblings tail) h.path,
          read_number-be_bytes 4 (length p.siblings) (write_siblings p.siblings tail)
              (omega (arith, h.count)),
          read_siblings-write_siblings p.siblings tail h.siblings,
          read_bytes-append 32 p.root (flag p.leaf_value ∷ leaf) h.root,
          read_optional-write_optional p.leaf_value (flag p.gas_fee_distribution ∷ fees) h.leaf,
          read_fee-write_fee p.gas_fee_distribution rest h.fee,
        )
        refl

  read_entry-write_entry :
      (e : ExecutionWitnessEntry O) (rest : List ℕ)
      → IsEntry e
      → read_entry (write_entry e rest) ≡ ok (record e { proof = reread_proof e.proof }, rest)
  unfolding read_entry write_entry read_byte reread_proof
  read_entry-write_entry e rest h =
      let tail = write_optional e.value (write_proof e.proof rest) in
      let body = proof_type_code e.proof.proof_type ∷ flag e.value ∷ tail in
      let enough : ltb (length (e.key ++ body)) 34 ≡ false =
        ltb-false (length (e.key ++ body)) 34 (omega (arith, h.key, length-append e.key body)) in
      rw
        (
          enough,
          read_bytes-append 32 e.key body h.key,
          read_proof_type-code e.proof.proof_type,
          read_optional-write_optional e.value (write_proof e.proof rest) h.value,
          read_proof-write_proof e (swapped e.proof.proof_type) rest h,
        )
        refl

  read_entries-write_entries :
      (es : List (ExecutionWitnessEntry O)) (rest : List ℕ)
      → All IsEntry es
      → read_entries (length es) (write_entries es rest) ≡ ok (reread_entries es, rest)
  unfolding read_entries write_entries reread_entries
  read_entries-write_entries [] rest h = refl
  read_entries-write_entries (e ∷ es) rest h =
      rw
        (
          read_entry-write_entry e (write_entries es rest) h.0,
          read_entries-write_entries es rest h.1,
        )
        refl

  -- A witness whose fields have the widths of their types is read back from its compact form with
  -- every proof type swapped and without opening proofs, and otherwise as it was.
  pub deserialize_compact-serialize_compact :
      (w : ExecutionWitness O)
      → length w.root ≡ 32
      → length w.entries < 2 ^ 32
      → All IsEntry w.entries
      → deserialize_compact (serialize_compact w)
        ≡ ok (record w { entries = reread_entries w.entries })
  unfolding deserialize_compact serialize_compact
  deserialize_compact-serialize_compact w root count entries =
      let whole : length w.entries % 2 ^ 32 ≡ length w.entries = omega (arith, count) in
      let n = be_bytes 4 (length w.entries) in
      let body = write_entries w.entries [] in
      let enough : ltb (length (w.root ++ (n ++ body))) 36 ≡ false =
        ltb-false (length (w.root ++ (n ++ body))) 36 (
          omega (
            arith,
            root,
            length-append w.root (n ++ body),
            length-append n body,
            length-be_bytes 4 (length w.entries),
          )) in
      rw
        (
          whole,
          enough,
          read_bytes-append 32 w.root (n ++ body) root,
          read_number-be_bytes 4 (length w.entries) body (omega (arith, count)),
          read_entries-write_entries w.entries [] entries,
        )
        refl
