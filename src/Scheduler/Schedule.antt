-- ===== src/Scheduler/Schedule.antt =====
-- The schedule of a list of transactions.
use mathlib.Core.List.{Perm}
use mathlib.Core.List.Perm
use klomang_network.Prelude.{ℕ, ◌≡◌, inl, inr, List, [], ◌∷◌, length, leb, arith, Bool-cases, some}
use klomang_network.Crypto.{Crypto}
use klomang_network.Transaction.{Transaction}
use klomang_network.Scheduler.{
  AccessSet, ScheduledTransaction, scheduled_from, insert_sorted, sort_by_id, schedule_transactions,
  detect_group_conflicts,
}
use klomang_network.Scheduler.Groups.{
  IsSchedule, rounds-IsSchedule, detect_group_conflicts-schedule,
}

insert_sorted-perm :
    (s : ScheduledTransaction) (ts : List ScheduledTransaction) → Perm (insert_sorted s ts) (s ∷ ts)
unfolding insert_sorted
insert_sorted-perm s [] = Perm.refl (s ∷ [])
insert_sorted-perm s (t ∷ ts) = elim (Bool-cases (leb s.tx.id t.tx.id)) [
  | inl e ↦ rw e (Perm.refl (s ∷ t ∷ ts))
  | inr e ↦ rw e (Perm.trans (Perm.cons t (insert_sorted-perm s ts)) (Perm.swap s t ts))
]

sort_by_id-perm : (ss : List ScheduledTransaction) → Perm (sort_by_id ss) ss
unfolding sort_by_id
sort_by_id-perm [] = Perm.refl []
sort_by_id-perm (s ∷ ss) =
    Perm.trans (insert_sorted-perm s (sort_by_id ss)) (Perm.cons s (sort_by_id-perm ss))

-- The scheduling of any list of transactions ends with groups that together hold each transaction
-- with its access set and its position exactly once; no two of a group conflict, and every
-- transaction of a later group conflicts with a member of each earlier one.
pub schedule_transactions-IsSchedule :
    (c : Crypto) (analyze : List ℕ → AccessSet) (txs : List Transaction)
    → (groups : List (List ScheduledTransaction)) × (schedule_transactions c analyze txs
        ≡ some groups)
      × IsSchedule (scheduled_from c analyze 0 txs) groups
unfolding schedule_transactions
schedule_transactions-IsSchedule c analyze txs =
    let input : List ScheduledTransaction = scheduled_from c analyze 0 txs in
    let (groups, e, s) =
      rounds-IsSchedule (length (sort_by_id input)) (sort_by_id input) (omega arith) in
    (
      groups,
      e,
      record {
        same = Perm.trans s.same (sort_by_id-perm input);
        independent = s.independent;
        layered = s.layered;
        nonempty = s.nonempty;
      },
    )

-- What is scheduled into two groups or more never passes the check that stands before the
-- execution of the groups: it always finds the first two in conflict.
pub schedule_transactions-conflict :
    (c : Crypto) (analyze : List ℕ → AccessSet) (txs : List Transaction)
    (g h : List ScheduledTransaction) (gs : List (List ScheduledTransaction))
    → schedule_transactions c analyze txs ≡ some (g ∷ h ∷ gs)
    → detect_group_conflicts (g ∷ h ∷ gs) ≡ some (0, 1)
schedule_transactions-conflict c analyze txs g h gs e =
    let (groups, e', s) = schedule_transactions-IsSchedule c analyze txs in
    let same : groups ≡ g ∷ h ∷ gs = cc in detect_group_conflicts-schedule _ g h gs (rw same at s)
