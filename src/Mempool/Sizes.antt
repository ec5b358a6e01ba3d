-- ===== src/Mempool/Sizes.antt =====
-- The bytes and the number of the transactions of a pool, under the operations of the map.
use klomang_network.Prelude.{
  ℕ, suc, ◌+◌, ◌*◌, ◌≤◌, ◌≡◌, false, [], ◌∷◌, length, eqb_iff, nat_eq, arith, refl, some,
}
use klomang_network.Prelude.Map.{Map, IsMap, lookup, insert, erase, contains_key}
use klomang_network.Mempool.{PendingTransaction, max_tx_size_bytes}

unfoldable pub total_size : Map ℕ PendingTransaction → ℕ
total_size [] = 0
total_size ((i, p) ∷ m) = p.size_bytes + total_size m

pub total_size-insert :
    (k : ℕ) (p : PendingTransaction) (m : Map ℕ PendingTransaction)
    → contains_key k m ≡ false
    → total_size (insert k p m) ≡ total_size m + p.size_bytes
unfolding total_size insert lookup
total_size-insert k p [] h = omega arith
total_size-insert k p ((i, q) ∷ m) h = ground (arith, total_size-insert k p m)

pub length-insert_new :
    (k : ℕ) (p : PendingTransaction) (m : Map ℕ PendingTransaction)
    → contains_key k m ≡ false
    → length (insert k p m) ≡ suc (length m)
unfolding insert lookup
length-insert_new k p [] h = omega arith
length-insert_new k p ((i, q) ∷ m) h = ground (arith, length-insert_new k p m)

erase-absent : (k : ℕ) (m : Map ℕ PendingTransaction) → contains_key k m ≡ false → erase k m ≡ m
unfolding erase lookup
erase-absent k [] h = refl
erase-absent k ((i, q) ∷ m) h = ground (arith, erase-absent k m)

pub total_size-erase :
    (k : ℕ) (p : PendingTransaction) (m : Map ℕ PendingTransaction)
    → IsMap m
    → lookup k m ≡ some p
    → total_size (erase k m) + p.size_bytes ≡ total_size m
unfolding total_size erase lookup
total_size-erase k p [] h e = ground arith
total_size-erase k p ((i, q) ∷ m) (n, h) e =
    ground (arith, total_size-erase k p m h, erase-absent k m, eqb_iff i k)

pub length-erase :
    (k : ℕ) (p : PendingTransaction) (m : Map ℕ PendingTransaction)
    → IsMap m
    → lookup k m ≡ some p
    → suc (length (erase k m)) ≡ length m
unfolding erase lookup
length-erase k p [] h e = ground arith
length-erase k p ((i, q) ∷ m) (n, h) e =
    ground (arith, length-erase k p m h, erase-absent k m, eqb_iff i k)

unfoldable pub AllSmall : Map ℕ PendingTransaction → Type 0
AllSmall [] = Unit {0}
AllSmall ((i, p) ∷ m) = (p.size_bytes ≤ max_tx_size_bytes) × AllSmall m

pub AllSmall-insert :
    (k : ℕ) (p : PendingTransaction) (m : Map ℕ PendingTransaction)
    → p.size_bytes ≤ max_tx_size_bytes
    → AllSmall m
    → AllSmall (insert k p m)
unfolding AllSmall insert
AllSmall-insert k p [] h a = (h, tt)
AllSmall-insert k p ((i, q) ∷ m) h (b, a) = ground (arith, AllSmall-insert k p m h a)

pub AllSmall-erase : (k : ℕ) (m : Map ℕ PendingTransaction) → AllSmall m → AllSmall (erase k m)
unfolding AllSmall erase
AllSmall-erase k [] a = tt
AllSmall-erase k ((i, q) ∷ m) (b, a) = ground (arith, AllSmall-erase k m a)

pub total_size-bound :
    (m : Map ℕ PendingTransaction) → AllSmall m → total_size m ≤ length m * max_tx_size_bytes
unfolding AllSmall total_size
total_size-bound [] a = omega arith
total_size-bound ((i, q) ∷ m) (b, a) = omega (arith, total_size-bound m a)
