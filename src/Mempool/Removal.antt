-- ===== src/Mempool/Removal.antt =====
-- Removal from the pool in mempool.rs: inclusion in a block, expiry and revalidation.
use klomang_network.Prelude.{
  ℕ, suc, ◌+◌, ◌%◌, ◌^◌, ◌≡◌, inl, inr, Bool, true, false, ◌||◌, List, [], ◌∷◌, length, eqb, leb,
  eqb_iff, nat_eq, arith, refl, ◌∙◌, ap, none, some, Option-cases, Bool-cases, if◌then◌else◌,
}
use klomang_network.Prelude.Map.{Map, IsMap, lookup, erase, contains_key, lookup-erase}
use klomang_network.Prelude.Set
use klomang_network.Prelude.Result.{Result, ok, err}
use klomang_network.Transaction.{Transaction}
use klomang_network.Mempool.{
  PendingTransaction, MempoolInner, MempoolError, Limits, remove_each, remove_transactions,
  expired_ids, expire_old_transactions, failing, revalidate_pending_transactions,
}
use klomang_network.Mempool.Pool.{IsPool, IsPool-removed, removed}
use klomang_network.Mempool.Sizes.{length-erase}

-- The pool is left without the transactions of the set, with a count of those that left it.
pub record Removes (gone : ℕ → Bool) (inner : MempoolInner) (out : ℕ × MempoolInner) : Type 0 where
  pub still_pool : IsPool out.1
  pub rest :
      (j : ℕ) → lookup j out.1.transactions ≡ (if gone j then none else lookup j inner.transactions)
  pub count : out.0 + length out.1.transactions ≡ length inner.transactions

remove_each-Removes :
    (ids : List ℕ) (inner : MempoolInner)
    → IsPool inner
    → Removes (Set.contains ids) inner (remove_each ids inner)
unfolding remove_each Set.contains
remove_each-Removes [] inner w = record { still_pool = w; rest = λ j. refl; count = omega arith }
remove_each-Removes (i ∷ is) inner w = elim (Option-cases (lookup i inner.transactions)) [
  | inl gone ↦ rw (gone, remove_each) (absent gone (remove_each-Removes is inner w))
  | inr (p, e) ↦
      rw (e, remove_each)
        (present p e (remove_each-Removes is (removed i p inner) (IsPool-removed i p inner w e)))
]
  where
    absent :
        lookup i inner.transactions ≡ none
        → Removes (Set.contains is) inner (remove_each is inner)
        → Removes (Set.contains (i ∷ is)) inner (remove_each is inner)
    absent gone r = record {
      still_pool = r.still_pool;
      rest = λ j. r.rest j ∙ same j;
      count = r.count;
    }
      where
        same :
            (j : ℕ)
            → (if Set.contains is j then none else lookup j inner.transactions)
              ≡ (if eqb i j || Set.contains is j then none else lookup j inner.transactions)
        same j = ground (arith, gone, eqb_iff i j)

    present :
        (p : PendingTransaction)
        → lookup i inner.transactions ≡ some p
        → Removes (Set.contains is) (removed i p inner) (remove_each is (removed i p inner))
        → Removes
            (Set.contains (i ∷ is))
            inner
            (suc (remove_each is (removed i p inner)).0, (remove_each is (removed i p inner)).1)
    present p e r = record {
      still_pool = r.still_pool;
      rest = λ j. r.rest j ∙ same j;
      count = omega (arith, r.count, length-erase i p inner.transactions w.is_map e);
    }
      where
        same :
            (j : ℕ)
            → (if Set.contains is j then none else lookup j (erase i inner.transactions))
              ≡ (if eqb i j || Set.contains is j then none else lookup j inner.transactions)
        same j = ground (arith, lookup-erase i j inner.transactions)

-- Removing a list of hashes from a pool leaves a pool with all other transactions, and returns how many
-- transactions have left it.
pub remove_transactions-Removes :
    (ids : List ℕ) (inner : MempoolInner)
    → IsPool inner
    → Removes (Set.contains ids) inner (remove_transactions ids inner)
unfolding remove_transactions
remove_transactions-Removes ids inner w = remove_each-Removes ids inner w

-- Whether the transaction of the hash is stored and the test holds of it.
abbrev pub among : (PendingTransaction → Bool) → MempoolInner → ℕ → Bool
among test inner j = elim (lookup j inner.transactions) [ none ↦ false | some p ↦ test p ]

abbrev pub is_expired : Limits → ℕ → PendingTransaction → Bool
is_expired l now p = leb ((p.inserted_at + l.ttl_seconds) % 2 ^ 64) now

contains-expired_ids :
    (l : Limits) (now : ℕ) (m : Map ℕ PendingTransaction) (j : ℕ)
    → IsMap m
    → Set.contains (expired_ids l now m) j
      ≡ elim (lookup j m) [ none ↦ false | some p ↦ is_expired l now p ]
unfolding expired_ids Set.contains lookup
contains-expired_ids l now [] j h = refl
contains-expired_ids l now ((i, p) ∷ m) j (n, h) =
    ground (arith, contains-expired_ids l now m j h, eqb_iff i j)

abbrev pub fails : (Transaction → Result MempoolError Unit) → PendingTransaction → Bool
fails check p = elim (check p.tx) [ ok _ ↦ false | err _ ↦ true ]

contains-failing :
    (check : Transaction → Result MempoolError Unit) (m : Map ℕ PendingTransaction) (j : ℕ)
    → IsMap m
    → Set.contains (failing check m) j ≡ elim (lookup j m) [ none ↦ false | some p ↦ fails check p ]
unfolding failing Set.contains lookup
contains-failing check [] j h = refl
contains-failing check ((i, p) ∷ m) j (n, h) =
    ground (arith, contains-failing check m j h, eqb_iff i j)

Removes-same :
    (f g : ℕ → Bool) (inner : MempoolInner) (out : ℕ × MempoolInner)
    → ((j : ℕ) → f j ≡ g j)
    → Removes f inner out
    → Removes g inner out
Removes-same f g inner out e r = record {
  still_pool = r.still_pool;
  rest = λ j. r.rest j ∙ ap (λ b. if b then none else lookup j inner.transactions) (e j);
  count = r.count;
}

-- Revalidating a pool leaves a pool with exactly the transactions that still pass, and returns how many
-- have left it.
pub revalidate_pending_transactions-Removes :
    (check : Transaction → Result MempoolError Unit) (inner : MempoolInner)
    → IsPool inner
    → Removes (among (fails check) inner) inner (revalidate_pending_transactions check inner)
unfolding revalidate_pending_transactions
revalidate_pending_transactions-Removes check inner w =
    Removes-same (Set.contains (failing check inner.transactions)) (among (fails check) inner) inner
      (remove_each (failing check inner.transactions) inner)
      (λ j. contains-failing check inner.transactions j w.is_map)
      (remove_each-Removes (failing check inner.transactions) inner w)

Distinct : List ℕ → Type 0
Distinct [] = Unit {0}
Distinct (i ∷ is) = (Set.contains is i ≡ false) × Distinct is

expired_ids-Distinct :
    (l : Limits) (now : ℕ) (m : Map ℕ PendingTransaction) → IsMap m → Distinct (expired_ids l now m)
unfolding expired_ids Distinct
expired_ids-Distinct l now [] h = tt
expired_ids-Distinct l now ((i, p) ∷ m) (n, h) = elim (Bool-cases (is_expired l now p)) [
  | inl late ↦ rw (late) (fresh, expired_ids-Distinct l now m h)
  | inr kept ↦ rw (kept) (expired_ids-Distinct l now m h)
]
  where
    fresh : Set.contains (expired_ids l now m) i ≡ false
    fresh = ground (arith, contains-expired_ids l now m i h)

-- Where all are stored and none stands twice, all are counted.
remove_each-count :
    (ids : List ℕ) (inner : MempoolInner)
    → Distinct ids
    → ((j : ℕ) → Set.contains ids j ≡ true → contains_key j inner.transactions ≡ true)
    → (remove_each ids inner).0 ≡ length ids
unfolding remove_each Set.contains Distinct
remove_each-count [] inner d h = refl
remove_each-count (i ∷ is) inner (n, d) h = elim (Option-cases (lookup i inner.transactions)) [
  | inl gone ↦ absurd (missing gone)
  | inr (p, e) ↦ rw (e, remove_each) (ap suc (remove_each-count is (removed i p inner) d still))
]
  where
    head : Set.contains (i ∷ is) i ≡ true
    head = ground (arith, eqb_iff i i)

    missing : lookup i inner.transactions ≡ none → ⊥
    missing gone = ground (arith, h i head)

    still : (j : ℕ) → Set.contains is j ≡ true → contains_key j (erase i inner.transactions) ≡ true
    still j e = ground (arith, h j, lookup-erase i j inner.transactions, eqb_iff i j)

expired_stored :
    (l : Limits) (now : ℕ) (m : Map ℕ PendingTransaction) (j : ℕ)
    → IsMap m
    → Set.contains (expired_ids l now m) j ≡ true
    → contains_key j m ≡ true
expired_stored l now m j h e = ground (arith, contains-expired_ids l now m j h)

-- Expiry of a pool leaves a pool with exactly the transactions whose time has not run out, and returns
-- how many have left it.
pub expire_old_transactions-Removes :
    (l : Limits) (now : ℕ) (inner : MempoolInner)
    → IsPool inner
    → Removes (among (is_expired l now) inner) inner (expire_old_transactions l now inner)
unfolding expire_old_transactions
expire_old_transactions-Removes l now inner w = record {
  still_pool = r.still_pool;
  rest = r.rest;
  count = rw (← counted) r.count;
}
  where
    ids : List ℕ
    ids = expired_ids l now inner.transactions

    counted : (remove_each ids inner).0 ≡ length ids
    counted =
        remove_each-count ids inner (expired_ids-Distinct l now inner.transactions w.is_map)
          (λ j. expired_stored l now inner.transactions j w.is_map)

    r : Removes (among (is_expired l now) inner) inner (remove_each ids inner)
    r =
        Removes-same (Set.contains ids) (among (is_expired l now) inner) inner
          (remove_each ids inner) (λ j. contains-expired_ids l now inner.transactions j w.is_map)
          (remove_each-Removes ids inner w)
