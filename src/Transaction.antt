-- ===== src/Transaction.antt =====
-- Transactions: klomang-core/src/core/state/transaction.rs, crypto/hash.rs and crypto/schnorr.rs.
pub mod Encoding
use klomang_network.Prelude.{
  ℕ, zero, suc, ◌+◌, ◌%◌, ◌^◌, Bool, true, false, Option, none, some, List, [], ◌∷◌, ◌++◌, eqb,
  length, if◌then◌else◌, take, drop,
}
use klomang_network.Prelude.Bytes.{be_bytes, from_be_bytes}
use klomang_network.Prelude.Result.{Result, ok, err}
use klomang_network.Crypto.{Crypto}

pub data SigHashType : Type 0 where
  all none_of single : SigHashType

pub from_u8 : ℕ → Option SigHashType
from_u8 b =
    if eqb b 1
    then some all
    else if eqb b 2
    then some none_of
    else if eqb b 3
    then some single
    else none

pub as_u8 : SigHashType → ℕ
as_u8 all = 1
as_u8 none_of = 2
as_u8 single = 3

pub record TxInput : Type 0 where
  pub prev_tx : ℕ
  pub index : ℕ
  pub signature : List ℕ
  pub pubkey : List ℕ
  pub sighash_type : SigHashType

pub record TxOutput : Type 0 where
  pub value : ℕ
  pub pubkey_hash : ℕ

pub record Transaction : Type 0 where
  pub id : ℕ
  pub inputs : List TxInput
  pub outputs : List TxOutput
  pub execution_payload : List ℕ
  pub contract_address : Option ℕ
  pub gas_limit : ℕ
  pub max_fee_per_gas : ℕ
  pub chain_id : ℕ
  pub locktime : ℕ

abbrev pub as_bytes : ℕ → List ℕ
as_bytes hash = be_bytes 32 hash

unfoldable pub is_coinbase : Transaction → Bool
is_coinbase tx = elim tx.inputs [ [] ↦ true | _ ↦ false ]

unfoldable pub input_id_bytes : List TxInput → List ℕ
input_id_bytes [] = []
input_id_bytes (i ∷ is) =
    as_bytes i.prev_tx
    ++ (be_bytes 4 i.index ++ (i.pubkey ++ (as_u8 i.sighash_type ∷ input_id_bytes is)))

unfoldable pub output_bytes : List TxOutput → List ℕ
output_bytes [] = []
output_bytes (o ∷ os) = be_bytes 8 o.value ++ (as_bytes o.pubkey_hash ++ output_bytes os)

-- The bytes that `calculate_id` hashes.
unfoldable pub id_bytes : Transaction → List ℕ
id_bytes tx =
    be_bytes 4 tx.chain_id
    ++ (input_id_bytes tx.inputs ++ (output_bytes tx.outputs ++ be_bytes 4 tx.locktime))

-- The inputs as `serialize_tx_for_sighash` writes them, from the index given on.
sighash_inputs : ℕ → ℕ → List TxInput → List ℕ
sighash_inputs input_index idx [] = []
sighash_inputs input_index idx (i ∷ is) =
    (if eqb idx input_index then i.pubkey else as_bytes i.prev_tx ++ be_bytes 4 i.index)
    ++ sighash_inputs input_index (idx + 1) is

-- The output of the input's own index, or nothing where there is none.
nth_output : ℕ → List TxOutput → List TxOutput
nth_output n [] = []
nth_output zero (o ∷ os) = o ∷ []
nth_output (suc n) (o ∷ os) = nth_output n os

sighash_outputs : ℕ → SigHashType → List TxOutput → List TxOutput
sighash_outputs input_index all os = os
sighash_outputs input_index none_of os = []
sighash_outputs input_index single os = nth_output input_index os

pub serialize_tx_for_sighash : Transaction → ℕ → SigHashType → List ℕ
serialize_tx_for_sighash tx input_index sighash =
    be_bytes 4 tx.chain_id
    ++ (sighash_inputs input_index 0 tx.inputs
        ++ (output_bytes (sighash_outputs input_index sighash tx.outputs)
            ++ be_bytes 4 tx.locktime))

-- "KLOMANG_TX_V1"
abbrev tag_tx_sign : List ℕ
tag_tx_sign =
    b'K' ∷ b'L' ∷ b'O' ∷ b'M' ∷ b'A' ∷ b'N' ∷ b'G' ∷ b'_' ∷ b'T' ∷ b'X' ∷ b'_' ∷ b'V' ∷ b'1' ∷ []

module _ (c : Crypto) where
  unfoldable pub calculate_id : Transaction → ℕ
  calculate_id tx = c.blake3 (id_bytes tx)

  tagged_hash : List ℕ → List ℕ → ℕ
  tagged_hash tag bytes =
      let tag_hash = as_bytes (c.blake3 tag) in c.blake3 (tag_hash ++ (tag_hash ++ bytes))

  -- It never fails.
  pub compute_sighash : Transaction → ℕ → SigHashType → ℕ
  compute_sighash tx input_index sighash =
      tagged_hash tag_tx_sign (serialize_tx_for_sighash tx input_index sighash)

  unfoldable pub hash_with_index : Transaction → ℕ → ℕ
  hash_with_index tx index = c.blake3 (as_bytes tx.id ++ be_bytes 4 index)

-- `TxOutput::serialize`
unfoldable pub serialize : TxOutput → List ℕ
serialize o = be_bytes 8 o.value ++ be_bytes 32 o.pubkey_hash

pub data DecodeError : Type 0 where
  invalid_length : DecodeError

-- `TxOutput::deserialize`
unfoldable pub deserialize : List ℕ → Result DecodeError TxOutput
deserialize bytes =
    if eqb (length bytes) 40
    then ok (record {
      value = from_be_bytes 0 (take 8 bytes);
      pubkey_hash = from_be_bytes 0 (take 32 (drop 8 bytes));
    })
    else err invalid_length
