-- ===== src/Scheduler.antt =====
-- Access sets and the parallel scheduler: klomang-core/src/core/state/access_set.rs, the access
-- sets of state/transaction.rs and scheduler/parallel.rs.
pub mod Access
pub mod Groups
pub mod Schedule
pub mod Keys
mod Tests
use klomang_network.Prelude.{
  ℕ, zero, suc, ◌+◌, nat_eq, Bool, true, false, not, ◌&&◌, ◌||◌, Option, none, some, List, [], ◌∷◌,
  ◌++◌, eqb, leb, if◌then◌else◌, length,
}
use klomang_network.Prelude.Set
use klomang_network.Crypto.{Crypto}
use klomang_network.Transaction.{Transaction, TxInput, TxOutput, hash_with_index}

pub record AccessSet : Type 0 where
  pub read_set : List ℕ
  pub write_set : List ℕ

pub empty_set : AccessSet
empty_set = record { read_set = []; write_set = [] }

-- `HashSet::is_disjoint`
unfoldable pub is_disjoint : List ℕ → List ℕ → Bool
is_disjoint [] ys = true
is_disjoint (x ∷ xs) ys = not (Set.contains ys x) && is_disjoint xs ys

-- `HashSet::extend`
unfoldable pub extend : List ℕ → List ℕ → List ℕ
extend xs [] = xs
extend xs (y ∷ ys) = extend (Set.insert y xs) ys

pub has_conflict : AccessSet → AccessSet → Bool
has_conflict a b =
    not (is_disjoint a.write_set b.read_set)
    || (not (is_disjoint a.write_set b.write_set) || not (is_disjoint b.write_set a.read_set))

pub merge : AccessSet → AccessSet → AccessSet
merge a b = record {
  read_set = extend a.read_set b.read_set;
  write_set = extend a.write_set b.write_set;
}

-- The keys of the positions of a list, from the one given on.
pub indexed_keys {ℓ} : {A : Type ℓ} → Crypto → Transaction → ℕ → List ℕ → List A → List ℕ
indexed_keys c tx i keys [] = keys
indexed_keys c tx i keys (x ∷ xs) =
    indexed_keys c tx (i + 1) (Set.insert (hash_with_index c tx i) keys) xs

-- `analyze` is the scan of a contract's bytes, which rests on the parser of wasmer.
pub generate_access_set : Crypto → (List ℕ → AccessSet) → Transaction → AccessSet
generate_access_set c analyze tx =
    let base : AccessSet = record {
      read_set = indexed_keys c tx 0 [] tx.inputs;
      write_set = indexed_keys c tx 0 [] tx.outputs;
    } in
    elim tx.contract_address [
      | none ↦ base
      | some address ↦
          merge (record base { write_set = Set.insert address base.write_set })
            (analyze tx.execution_payload)
    ]

pub record ScheduledTransaction : Type 0 where
  pub tx : Transaction
  pub access_set : AccessSet
  pub index : ℕ

pub scheduled_from :
    Crypto → (List ℕ → AccessSet) → ℕ → List Transaction → List ScheduledTransaction
scheduled_from c analyze i [] = []
scheduled_from c analyze i (t ∷ txs) =
    record { tx = t; access_set = generate_access_set c analyze t; index = i }
    ∷ scheduled_from c analyze (i + 1) txs

-- `sort_by_key` is stable; the key is the constant 0 and the id of the transaction.
pub insert_sorted : ScheduledTransaction → List ScheduledTransaction → List ScheduledTransaction
insert_sorted s [] = s ∷ []
insert_sorted s (t ∷ ts) =
    let rest = insert_sorted s ts in if leb s.tx.id t.tx.id then s ∷ t ∷ ts else t ∷ rest

pub sort_by_id : List ScheduledTransaction → List ScheduledTransaction
sort_by_id [] = []
sort_by_id (s ∷ ss) = insert_sorted s (sort_by_id ss)

pub conflicts_with : ScheduledTransaction → List ScheduledTransaction → Bool
conflicts_with candidate [] = false
conflicts_with candidate (existing ∷ group) =
    has_conflict existing.access_set candidate.access_set || conflicts_with candidate group

-- One pass over what remains: the group that it collects, and what it leaves.
pub pick :
    List ScheduledTransaction
    → List ScheduledTransaction
    → List ScheduledTransaction × List ScheduledTransaction
pick current_group [] = (current_group, [])
pick current_group (candidate ∷ remaining) =
    let taken = pick (current_group ++ candidate ∷ []) remaining in
    let (group, left) = pick current_group remaining in
    if conflicts_with candidate current_group then (group, candidate ∷ left) else taken

-- The rounds, on fuel. A round always takes the first of what remains, so that the source's
-- branch for an empty group is never entered; it stands here all the same.
pub rounds : ℕ → List ScheduledTransaction → Option (List (List ScheduledTransaction))
rounds fuel [] = some []
rounds zero (s ∷ remaining) = none
rounds (suc fuel) (s ∷ remaining) =
    let (group, left) = pick [] (s ∷ remaining) in
    let rest : Option (List (List ScheduledTransaction)) = elim group [
      | [] ↦ rounds fuel remaining
      | _ ↦ rounds fuel left
    ] in
    let current : List ScheduledTransaction = elim group [ [] ↦ s ∷ [] | g ↦ g ] in
    elim rest [ none ↦ none | some groups ↦ some (current ∷ groups) ]

-- One round for each transaction is enough.
pub schedule_transactions :
    Crypto → (List ℕ → AccessSet) → List Transaction → Option (List (List ScheduledTransaction))
schedule_transactions c analyze txs =
    let scheduled = sort_by_id (scheduled_from c analyze 0 txs) in
    rounds (length scheduled) scheduled

pub combined_from : AccessSet → List ScheduledTransaction → AccessSet
combined_from combined [] = combined
combined_from combined (s ∷ group) = combined_from (merge combined s.access_set) group

pub combined : List ScheduledTransaction → AccessSet
combined = combined_from empty_set

pub combined_sets : List (List ScheduledTransaction) → List AccessSet
combined_sets [] = []
combined_sets (g ∷ gs) = combined g ∷ combined_sets gs

-- The inner loop: the first later set that the set conflicts with.
pub conflict_after : AccessSet → ℕ → List AccessSet → Option ℕ
conflict_after a j [] = none
conflict_after a j (b ∷ bs) =
    let rest = conflict_after a (j + 1) bs in if has_conflict a b then some j else rest

pub conflict_from : ℕ → List AccessSet → Option (ℕ × ℕ)
conflict_from i [] = none
conflict_from i (a ∷ as') =
    let rest = conflict_from (i + 1) as' in
    elim (conflict_after a (i + 1) as') [ none ↦ rest | some j ↦ some (i, j) ]

-- The first pair of groups whose combined sets conflict.
pub detect_group_conflicts : List (List ScheduledTransaction) → Option (ℕ × ℕ)
detect_group_conflicts groups = conflict_from 0 (combined_sets groups)
