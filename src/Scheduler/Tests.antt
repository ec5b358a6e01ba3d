-- ===== src/Scheduler/Tests.antt =====
-- Schedules of scheduler/parallel.rs.
use klomang_network.Prelude.{◌^◌, ℕ, ◌≡◌, ◌≢◌, refl, arith, false, some, List, [], ◌∷◌}
use klomang_network.Prelude.Set
use klomang_network.Prelude.Bytes.{be_bytes, le_bytes}
use klomang_network.Transaction.{Transaction, hash_with_index}
use klomang_network.Samples.{toy, coin, spend}
use klomang_network.Scheduler.{
  AccessSet, ScheduledTransaction, empty_set, generate_access_set, indexed_keys, is_disjoint,
  has_conflict, schedule_transactions, scheduled_from, sort_by_id, insert_sorted, pick, rounds,
  conflicts_with, detect_group_conflicts,
}
use klomang_network.Scheduler.Groups.{IsSchedule}
use klomang_network.Scheduler.Schedule.{
  schedule_transactions-IsSchedule, schedule_transactions-conflict,
}
use klomang_network.Scheduler.Keys.{has_conflict-own_keys}

abbrev nothing : List ℕ → AccessSet
nothing payload = empty_set

-- The first byte of its id, in the topmost of the thirty-two bytes, is one.
abbrev other : Transaction
other = record spend { id = 2 ^ 248 }

schedule_transactions-IsSchedule_example :
    (groups : List (List ScheduledTransaction)) × (schedule_transactions toy nothing
        (coin ∷ spend ∷ [])
      ≡ some groups)
    × IsSchedule (scheduled_from toy nothing 0 (coin ∷ spend ∷ [])) groups
schedule_transactions-IsSchedule_example =
    schedule_transactions-IsSchedule toy nothing (coin ∷ spend ∷ [])

abbrev scheduled : Transaction → ℕ → ScheduledTransaction
scheduled t i = record { tx = t; access_set = generate_access_set toy nothing t; index = i }

two_groups :
    schedule_transactions toy nothing (coin ∷ spend ∷ [])
    ≡ some ((scheduled coin 0 ∷ []) ∷ (scheduled spend 1 ∷ []) ∷ [])
unfolding schedule_transactions scheduled_from sort_by_id insert_sorted pick rounds conflicts_with
    has_conflict is_disjoint generate_access_set indexed_keys hash_with_index Set.insert
    Set.contains be_bytes le_bytes
two_groups = refl

schedule_transactions-conflict_example :
    detect_group_conflicts ((scheduled coin 0 ∷ []) ∷ (scheduled spend 1 ∷ []) ∷ []) ≡ some (0, 1)
schedule_transactions-conflict_example =
    schedule_transactions-conflict toy nothing (coin ∷ spend ∷ []) (scheduled coin 0 ∷ [])
      (scheduled spend 1 ∷ []) [] two_groups

apart : (i j : ℕ) → hash_with_index toy spend i ≢ hash_with_index toy other j
unfolding hash_with_index be_bytes le_bytes
apart i j h = ground arith

has_conflict-own_keys_example :
    has_conflict (generate_access_set toy nothing spend) (generate_access_set toy nothing other)
    ≡ false
has_conflict-own_keys_example = has_conflict-own_keys toy nothing spend other refl refl apart
