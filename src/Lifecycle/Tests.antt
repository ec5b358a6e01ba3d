-- ===== src/Lifecycle/Tests.antt =====
-- Sequences of status changes of mempool/status.rs.
use klomang_network.Prelude.{◌≡◌, ◌≢◌, ◌≤◌, refl, List, [], ◌∷◌}
use klomang_network.Lifecycle.{
  TransactionStatus, pending, validated, in_orphan_pool, in_block, can_transition_to, transition_to,
}
use klomang_network.Lifecycle.Paths.{runs, changes, changes_bound}

abbrev calls : List TransactionStatus
calls = in_orphan_pool ∷ validated ∷ in_block ∷ pending ∷ []

differ : pending ≢ in_block
differ h = cc

reached : runs calls pending ≡ in_block
unfolding runs transition_to can_transition_to
reached = refl

changes_bound_example : changes calls pending ≤ 3
changes_bound_example = changes_bound calls pending
