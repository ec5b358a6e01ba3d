-- ===== src/Scheduler/Groups.antt =====
-- What the groups of a schedule are, and what the check before their execution makes of them.
use mathlib.Core.List.{Perm, perm_middle, append_assoc, append-nil}
use mathlib.Core.List.Perm
use klomang_network.Prelude.{
  ℕ, zero, suc, ◌+◌, ◌≤◌, ◌≡◌, ◌≢◌, inl, inr, true, false, ◌||◌, List, [], ◌∷◌, ◌++◌, length, arith,
  refl, sym, ◌∙◌, Bool-cases, All, All-append, All-map, some,
}
use klomang_network.Scheduler.{
  AccessSet, has_conflict, ScheduledTransaction, conflicts_with, combined, pick, rounds,
  combined_sets, conflict_after, conflict_from, detect_group_conflicts,
}
use klomang_network.Scheduler.Access.{conflicts_with-combined}

-- No member conflicts with one before it in the group.
abbrev pub Independent : List ScheduledTransaction → List ScheduledTransaction → Type 0
Independent before [] = Unit
Independent before (s ∷ group) =
    (conflicts_with s before ≡ false) × Independent (before ++ s ∷ []) group

conflicts_with-append :
    (s : ScheduledTransaction) (xs ys : List ScheduledTransaction)
    → conflicts_with s (xs ++ ys) ≡ (conflicts_with s xs || conflicts_with s ys)
unfolding conflicts_with
conflicts_with-append s [] ys = refl
conflicts_with-append s (x ∷ xs) ys = ground (arith, conflicts_with-append s xs ys)

Independent-snoc :
    (before xs : List ScheduledTransaction) (s : ScheduledTransaction)
    → Independent before xs
    → conflicts_with s (before ++ xs) ≡ false
    → Independent before (xs ++ s ∷ [])
Independent-snoc before [] s h c = (rw (← append-nil before) c, tt)
Independent-snoc before (x ∷ xs) s h c =
    (h.0, Independent-snoc (before ++ x ∷ []) xs s h.1 (rw append_assoc c))

record Picks (group remaining : List ScheduledTransaction)
    (r : List ScheduledTransaction × List ScheduledTransaction) : Type 0 where
  independent : Independent [] r.0
  taken : List ScheduledTransaction
  extends : r.0 ≡ group ++ taken
  same : Perm (r.0 ++ r.1) (group ++ remaining)
  blocked : All (λ s. conflicts_with s r.0 ≡ true) r.1

pick-Picks :
    (group remaining : List ScheduledTransaction)
    → Independent [] group
    → Picks group remaining (pick group remaining)
unfolding pick
pick-Picks group [] h = record {
  independent = h;
  taken = [];
  extends = sym (append-nil group);
  same = Perm.refl (group ++ []);
  blocked = tt;
}
pick-Picks group (c ∷ remaining) h = elim (Bool-cases (conflicts_with c group)) [
  | inl e ↦
      let p = pick-Picks group remaining h in
      rw e (record {
        independent = p.independent;
        taken = p.taken;
        extends = p.extends;
        same =
            Perm.trans (perm_middle (pick group remaining).0 (pick group remaining).1)
              (Perm.trans (Perm.cons c p.same) (Perm.symm (perm_middle group remaining)));
        blocked = (rw (p.extends, conflicts_with-append c group p.taken, e) refl, p.blocked);
      })
  | inr e ↦
      let p = pick-Picks (group ++ c ∷ []) remaining (Independent-snoc [] group c h e) in
      rw e (record {
        independent = p.independent;
        taken = c ∷ p.taken;
        extends = p.extends ∙ append_assoc group (c ∷ []) p.taken;
        same = rw append_assoc at p.same;
        blocked = p.blocked;
      })
]

pick-All :
    (P : ScheduledTransaction → Type 0) (group remaining : List ScheduledTransaction)
    → All P group
    → All P remaining
    → All P (pick group remaining).0 × All P (pick group remaining).1
unfolding pick
pick-All P group [] g r = (g, tt)
pick-All P group (c ∷ remaining) g r = elim (Bool-cases (conflicts_with c group)) [
  | inl e ↦ let p = pick-All P group remaining g r.1 in rw e (p.0, (r.0, p.1))
  | inr e ↦
      rw e (pick-All P (group ++ c ∷ []) remaining (All-append P group (c ∷ []) g (r.0, tt)) r.1)
]

length-pick :
    (group remaining : List ScheduledTransaction)
    → length (pick group remaining).1 ≤ length remaining
unfolding pick
length-pick group [] = omega arith
length-pick group (c ∷ remaining) = elim (Bool-cases (conflicts_with c group)) [
  | inl e ↦ rw e (omega (arith, length-pick group remaining))
  | inr e ↦ rw e (omega (arith, length-pick (group ++ c ∷ []) remaining))
]

pick-first :
    (s : ScheduledTransaction) (remaining : List ScheduledTransaction)
    → pick [] (s ∷ remaining) ≡ pick (s ∷ []) remaining
unfolding pick conflicts_with
pick-first s remaining = refl

abbrev pub concat : List (List ScheduledTransaction) → List ScheduledTransaction
concat [] = []
concat (g ∷ gs) = g ++ concat gs

-- Every transaction of a later group conflicts with an earlier group's member, for each of them.
abbrev pub Layered : List (List ScheduledTransaction) → Type 0
Layered [] = Unit
Layered (g ∷ gs) = All (All (λ s. conflicts_with s g ≡ true)) gs × Layered gs

-- What a schedule of the transactions is.
pub record IsSchedule (input : List ScheduledTransaction)
    (groups : List (List ScheduledTransaction)) : Type 0 where
  pub same : Perm (concat groups) input
  pub independent : All (Independent []) groups
  pub layered : Layered groups
  pub nonempty : All (λ g. g ≢ []) groups

record Round (input : List ScheduledTransaction) (group left : List ScheduledTransaction)
    : Type 0 where
  independent : Independent [] group
  nonempty : group ≢ []
  same : Perm (group ++ left) input
  blocked : All (λ s. conflicts_with s group ≡ true) left

round_lem :
    (s : ScheduledTransaction) (remaining : List ScheduledTransaction)
    → Round (s ∷ remaining) (pick [] (s ∷ remaining)).0 (pick [] (s ∷ remaining)).1
unfolding conflicts_with
round_lem s remaining =
    let p = pick-Picks (s ∷ []) remaining (refl, tt) in
    rw (pick-first s remaining) (record {
      independent = p.independent;
      nonempty = λ e. cc (p.extends);
      same = p.same;
      blocked = p.blocked;
    })

rounds-cons :
    (fuel : ℕ) (s : ScheduledTransaction) (remaining : List ScheduledTransaction)
    (groups : List (List ScheduledTransaction))
    → rounds fuel (pick [] (s ∷ remaining)).1 ≡ some groups
    → rounds (suc fuel) (s ∷ remaining) ≡ some ((pick [] (s ∷ remaining)).0 ∷ groups)
unfolding rounds
rounds-cons fuel s remaining groups h = let n = (round_lem s remaining).nonempty in ground arith

shorter :
    (s : ScheduledTransaction) (remaining : List ScheduledTransaction) (fuel : ℕ)
    → length (s ∷ remaining) ≤ suc fuel
    → length (pick [] (s ∷ remaining)).1 ≤ fuel
shorter s remaining fuel h =
    rw (pick-first s remaining) (omega (arith, length-pick (s ∷ []) remaining))

-- The groups of the rounds, with what `P` says of all that remains.
record Scheduled (P : ScheduledTransaction → Type 0) (fuel : ℕ) (input : List ScheduledTransaction)
    : Type 0 where
  groups : List (List ScheduledTransaction)
  result : rounds fuel input ≡ some groups
  schedule : IsSchedule input groups
  all : All (All P) groups

rounds-nil : (fuel : ℕ) → rounds fuel [] ≡ some []
unfolding rounds
rounds-nil zero = refl
rounds-nil _ = refl

All-both :
    (P Q : ScheduledTransaction → Type 0) (xs : List ScheduledTransaction)
    → All P xs
    → All Q xs
    → All (λ s. P s × Q s) xs
All-both P Q [] p q = tt
All-both P Q (x ∷ xs) p q = ((p.0, q.0), All-both P Q xs p.1 q.1)

All-All-map :
    (P Q : ScheduledTransaction → Type 0)
    → ((s : ScheduledTransaction) → P s → Q s)
    → (gs : List (List ScheduledTransaction)) → All (All P) gs
    → All (All Q) gs
All-All-map P Q f [] h = tt
All-All-map P Q f (g ∷ gs) h = (All-map P Q f g h.0, All-All-map P Q f gs h.1)

rounds-Scheduled :
    (P : ScheduledTransaction → Type 0) (fuel : ℕ) (input : List ScheduledTransaction)
    → length input ≤ fuel
    → All P input
    → Scheduled P fuel input
rounds-Scheduled P fuel [] h a = record {
  groups = [];
  result = rounds-nil fuel;
  schedule = record { same = Perm.refl []; independent = tt; layered = tt; nonempty = tt };
  all = tt;
}
rounds-Scheduled P zero (s ∷ remaining) h a = absurd (omega arith)
rounds-Scheduled P (suc fuel) (s ∷ remaining) h a =
    let g : List ScheduledTransaction = (pick [] (s ∷ remaining)).0 in
    let left : List ScheduledTransaction = (pick [] (s ∷ remaining)).1 in
    let r : Round (s ∷ remaining) g left = round_lem s remaining in
    let kept = pick-All P [] (s ∷ remaining) tt a in
    let rest =
      rounds-Scheduled (λ t. P t × (conflicts_with t g ≡ true)) fuel left
        (shorter s remaining fuel h)
        (All-both P (λ t. conflicts_with t g ≡ true) left kept.1 r.blocked) in
    record {
      groups = g ∷ rest.groups;
      result = rounds-cons fuel s remaining rest.groups rest.result;
      schedule = record {
        same = Perm.trans (Perm.append_left g rest.schedule.same) r.same;
        independent = (r.independent, rest.schedule.independent);
        layered = (All-All-map _ _ (λ t p. p.1) rest.groups rest.all, rest.schedule.layered);
        nonempty = (r.nonempty, rest.schedule.nonempty);
      };
      all = (kept.0, All-All-map _ _ (λ t p. p.0) rest.groups rest.all);
    }

-- The rounds end within one round for each transaction. Every transaction is then in exactly one
-- group, no group is empty, no two members of a group conflict, and every transaction of a later
-- group conflicts with a member of each earlier group.
pub rounds-IsSchedule :
    (fuel : ℕ) (input : List ScheduledTransaction)
    → length input ≤ fuel
    → (groups : List (List ScheduledTransaction)) × (rounds fuel input ≡ some groups)
      × IsSchedule input groups
rounds-IsSchedule fuel input h =
    let s = rounds-Scheduled (λ _. Unit {0}) fuel input h (trivial input) in
    (s.groups, s.result, s.schedule)
  where
    trivial : (xs : List ScheduledTransaction) → All (λ _. Unit {0}) xs
    trivial [] = tt
    trivial (x ∷ xs) = (tt, trivial xs)

conflict_from-first :
    (i : ℕ) (a b : AccessSet) (rest : List AccessSet)
    → has_conflict a b ≡ true
    → conflict_from i (a ∷ b ∷ rest) ≡ some (i, i + 1)
unfolding conflict_from conflict_after
conflict_from-first i a b rest h = ground arith

-- The check before the execution finds a conflict between the first two groups of every schedule
-- that has two groups or more.
pub detect_group_conflicts-schedule :
    (input g h : List ScheduledTransaction) (gs : List (List ScheduledTransaction))
    → IsSchedule input (g ∷ h ∷ gs)
    → detect_group_conflicts (g ∷ h ∷ gs) ≡ some (0, 1)
unfolding detect_group_conflicts combined_sets
detect_group_conflicts-schedule input g [] gs s = absurd (s.nonempty.1.0 refl)
detect_group_conflicts-schedule input g (x ∷ h) gs s =
    conflict_from-first 0 (combined g) (combined (x ∷ h)) _
      (conflicts_with-combined x g h s.layered.0.0.0)
