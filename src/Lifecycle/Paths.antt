-- ===== src/Lifecycle/Paths.antt =====
-- Sequences of `transition_to` calls of status.rs, accepted or refused.
use klomang_network.Prelude.{
  ℕ, ◌+◌, ◌≤◌, ◌<◌, true, List, [], ◌∷◌, ◌++◌, ◌≡◌, ◌≢◌, ◌⊎◌, inl, inr, arith, refl, if◌then◌else◌,
}
use klomang_network.Prelude.Result.{err}
use klomang_network.Lifecycle.{
  TransactionStatus, pending, validated, in_orphan_pool, in_block, rejected, invalid_transition,
  can_transition_to, transition_to, is_terminal, same_status,
}

-- The status after a call for each target in turn.
unfoldable pub runs : List TransactionStatus → TransactionStatus → TransactionStatus
runs [] s = s
runs (t ∷ ts) s = runs ts (transition_to s t).1

-- A status that has been final once stays the same under every later sequence of calls, and a call for
-- any target is refused from it.
pub is_terminal-runs :
    (s : TransactionStatus) (ts : List TransactionStatus)
    → is_terminal s ≡ true
    → (runs ts s ≡ s)
      × ((t : TransactionStatus) → transition_to s t ≡ (err (invalid_transition s t), s))
unfolding is_terminal runs transition_to can_transition_to
is_terminal-runs in_block [] h = (refl, λ t. refl)
is_terminal-runs rejected [] h = (refl, λ t. refl)
is_terminal-runs in_block (t ∷ ts) h = is_terminal-runs in_block ts h
is_terminal-runs rejected (t ∷ ts) h = is_terminal-runs rejected ts h
is_terminal-runs pending ts h = ground arith
is_terminal-runs validated ts h = ground arith
is_terminal-runs in_orphan_pool ts h = ground arith

-- Only a validated transaction gets into a block.
into_block :
    (s t : TransactionStatus) → (transition_to s t).1 ≡ in_block → s ≢ in_block → s ≡ validated
unfolding transition_to can_transition_to
into_block s t h n = ground arith

-- A transaction that is not in a block and is in one after some calls was validated at one of them.
pub runs-in_block :
    (ts : List TransactionStatus) (s : TransactionStatus)
    → s ≢ in_block
    → runs ts s ≡ in_block
    → (us : List TransactionStatus) × (vs : List TransactionStatus) × (ts ≡ us ++ vs)
      × (runs us s ≡ validated)
unfolding runs
runs-in_block [] s n h = absurd (n h)
runs-in_block (t ∷ ts) s n h = elim (is_block (transition_to s t).1) [
  | inl now ↦ ([], t ∷ ts, refl, into_block s t now n)
  | inr later ↦
      let (us, vs, e, v) = runs-in_block ts (transition_to s t).1 later h in
      (t ∷ us, vs, rw (e) refl, v)
]
  where
    is_block : (s : TransactionStatus) → (s ≡ in_block) ⊎ (s ≢ in_block)
    is_block s = ground arith

abbrev stage : TransactionStatus → ℕ
stage pending = 0
stage in_orphan_pool = 1
stage validated = 2
stage in_block = 3
stage rejected = 3

-- The calls that changed the status.
pub changes : List TransactionStatus → TransactionStatus → ℕ
changes [] s = 0
changes (t ∷ ts) s =
    (if same_status s (transition_to s t).1 then 0 else 1) + changes ts (transition_to s t).1

transition_to-stage :
    (s t : TransactionStatus)
    → ((same_status s (transition_to s t).1 ≡ true) × (stage s ≡ stage (transition_to s t).1))
      ⊎ (stage s < stage (transition_to s t).1)
unfolding transition_to can_transition_to
transition_to-stage s t = ground arith

changes-stage : (ts : List TransactionStatus) (s : TransactionStatus) → changes ts s + stage s ≤ 3
unfolding changes
changes-stage [] s = ground arith
changes-stage (t ∷ ts) s =
    ground (arith, changes-stage ts (transition_to s t).1, transition_to-stage s t)

-- Whatever calls are made, at most three of them change the status.
pub changes_bound : (ts : List TransactionStatus) (s : TransactionStatus) → changes ts s ≤ 3
changes_bound ts s = omega (arith, changes-stage ts s)
