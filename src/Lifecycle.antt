-- ===== src/Lifecycle.antt =====
-- The life of a transaction in the node's pool: klomang-node/src/mempool/status.rs.
pub mod Paths
mod Tests
use klomang_network.Prelude.{Bool, true, false, if◌then◌else◌}
use klomang_network.Prelude.Result.{Result, ok, err}

pub data TransactionStatus : Type 0 where
  pending validated in_orphan_pool in_block rejected : TransactionStatus

pub data TransactionStatusError : Type 0 where
  invalid_transition : (current target : TransactionStatus) → TransactionStatusError

abbrev pub same_status : TransactionStatus → TransactionStatus → Bool
same_status pending pending = true
same_status validated validated = true
same_status in_orphan_pool in_orphan_pool = true
same_status in_block in_block = true
same_status rejected rejected = true
same_status s t = false

pub can_transition_to : TransactionStatus → TransactionStatus → Bool
can_transition_to pending validated = true
can_transition_to pending in_orphan_pool = true
can_transition_to pending rejected = true
can_transition_to in_orphan_pool validated = true
can_transition_to in_orphan_pool rejected = true
can_transition_to validated in_block = true
can_transition_to validated rejected = true
can_transition_to in_block t = false
can_transition_to rejected t = false
can_transition_to s t = if same_status s t then true else false

pub transition_to :
    TransactionStatus → TransactionStatus → Result TransactionStatusError Unit × TransactionStatus
transition_to s target =
    if can_transition_to s target then (ok tt, target) else (err (invalid_transition s target), s)

pub is_in_pool : TransactionStatus → Bool
is_in_pool pending = true
is_in_pool validated = true
is_in_pool in_orphan_pool = true
is_in_pool s = false

pub is_ready_for_block : TransactionStatus → Bool
is_ready_for_block validated = true
is_ready_for_block s = false

pub is_terminal : TransactionStatus → Bool
is_terminal in_block = true
is_terminal rejected = true
is_terminal s = false
