-- ===== src/Scheduler/Keys.antt =====
-- The keys of the access set of a transaction without a contract.
use klomang_network.Prelude.{
  ℕ, ◌+◌, ◌≡◌, ◌≢◌, ◌⊎◌, inl, inr, true, false, List, [], ◌∷◌, nat_eq, eqb, eqb_iff, arith,
  Bool-cases, none, ◌∙◌, sym,
}
use klomang_network.Prelude.Set
use klomang_network.Crypto.{Crypto}
use klomang_network.Transaction.{Transaction, hash_with_index}
use klomang_network.Scheduler.{
  AccessSet, is_disjoint, has_conflict, indexed_keys, generate_access_set,
}
use klomang_network.Scheduler.Access.{shared}

contains-indexed_keys {ℓ} :
    {A : Type ℓ} (c : Crypto) (tx : Transaction) (i : ℕ) (keys : List ℕ) (xs : List A) (k : ℕ)
    → Set.contains (indexed_keys c tx i keys xs) k ≡ true
    → (Set.contains keys k ≡ true) ⊎ ((j : ℕ) × (k ≡ hash_with_index c tx j))
unfolding indexed_keys
contains-indexed_keys c tx i keys [] k h = inl h
contains-indexed_keys c tx i keys (x ∷ xs) k h =
    elim (contains-indexed_keys c tx (i + 1) (Set.insert (hash_with_index c tx i) keys) xs k h) [
      | inr found ↦ inr found
      | inl held ↦ elim (Bool-cases (eqb (hash_with_index c tx i) k)) [
        | inl e ↦ inr (i, sym ((eqb_iff _ _).0 e))
        | inr e ↦ inl (ground (arith, Set.contains-insert (hash_with_index c tx i) k keys))
      ]
    ]

from_empty {ℓ} :
    {A : Type ℓ} (c : Crypto) (tx : Transaction) (xs : List A) (k : ℕ)
    → Set.contains (indexed_keys c tx 0 [] xs) k ≡ true
    → (j : ℕ) × (k ≡ hash_with_index c tx j)
unfolding Set.contains
from_empty c tx xs k h = elim (contains-indexed_keys c tx 0 [] xs k h) [
  | inl held ↦ cc
  | inr found ↦ found
]

module _ (c : Crypto) (s t : Transaction)
    (apart : (i j : ℕ) → hash_with_index c s i ≢ hash_with_index c t j) where
  disjoint_keys {ℓ κ} :
      {A : Type ℓ} {B : Type κ} (xs : List A) (ys : List B)
      → is_disjoint (indexed_keys c s 0 [] xs) (indexed_keys c t 0 [] ys) ≡ true
  disjoint_keys xs ys =
      elim (Bool-cases (is_disjoint (indexed_keys c s 0 [] xs) (indexed_keys c t 0 [] ys))) [
        | inl e ↦ e
        | inr e ↦
            let (k, a, b) = shared _ _ e in
            let (i, p) = from_empty c s xs k a in
            let (j, q) = from_empty c t ys k b in absurd (apart i j (sym p ∙ q))
      ]

-- The keys of a transaction without a contract come from its own id and positions alone. So two
-- such transactions whose keys are all apart are never in conflict, whatever outputs they spend,
-- be it the same ones.
pub has_conflict-own_keys :
    (c : Crypto) (analyze : List ℕ → AccessSet) (s t : Transaction)
    → s.contract_address ≡ none
    → t.contract_address ≡ none
    → ((i j : ℕ) → hash_with_index c s i ≢ hash_with_index c t j)
    → has_conflict (generate_access_set c analyze s) (generate_access_set c analyze t) ≡ false
unfolding has_conflict generate_access_set
has_conflict-own_keys c analyze s t p q apart = ground (
  arith,
  disjoint_keys c s t apart s.outputs t.inputs,
  disjoint_keys c s t apart s.outputs t.outputs,
  disjoint_keys c t s (λ i j e. apart j i (sym e)) t.outputs s.inputs,
)
