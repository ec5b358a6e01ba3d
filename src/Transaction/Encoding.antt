-- ===== src/Transaction/Encoding.antt =====
-- The stored form of outputs and the codes of signature hash types.
use klomang_network.Prelude.{ℕ, ◌^◌, ◌<◌, ◌≡◌, ◌⊎◌, List, arith, refl, length, take, drop, ◌∙◌}
use klomang_network.Prelude.Bytes.{be_bytes, from_be_bytes, from_be_bytes-be_bytes}
use klomang_network.Prelude.Result.{ok, err}
use klomang_network.Transaction.{TxOutput, serialize, deserialize, invalid_length}

length-serialize : (o : TxOutput) → length (serialize o) ≡ 40
unfolding serialize be_bytes
length-serialize o = refl

front : (o : TxOutput) → take 8 (serialize o) ≡ be_bytes 8 o.value
unfolding serialize be_bytes
front o = refl

back : (o : TxOutput) → take 32 (drop 8 (serialize o)) ≡ be_bytes 32 o.pubkey_hash
unfolding serialize be_bytes
back o = refl

accepted :
    (bytes : List ℕ)
    → length bytes ≡ 40
    → deserialize bytes
      ≡ ok (record {
        value = from_be_bytes 0 (take 8 bytes);
        pubkey_hash = from_be_bytes 0 (take 32 (drop 8 bytes));
      })
unfolding deserialize
accepted bytes h = ground arith

-- An output whose fields have their widths is read back from its stored form, and a stored form of
-- any other length than forty bytes is refused.
pub deserialize-serialize :
    (o : TxOutput) (bytes : List ℕ)
    → o.value < 2 ^ 64
    → o.pubkey_hash < 2 ^ 256
    → (deserialize (serialize o) ≡ ok o)
      × (deserialize bytes ≡ err invalid_length ⊎ (length bytes ≡ 40))
unfolding deserialize
deserialize-serialize o bytes v h = (
  accepted (serialize o) (length-serialize o)
      ∙ rw
          (
            front o,
            back o,
            from_be_bytes-be_bytes 8 o.value v,
            from_be_bytes-be_bytes 32 o.pubkey_hash h,
          )
          refl,
  ground arith,
)
