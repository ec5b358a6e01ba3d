-- ===== src/State/Connect.antt =====
-- Blocks put on the chain: `validate_block_stateful`, `connect_block` and
-- `perform_reorganization` of state_manager.rs.
use klomang_network.Prelude.{
  ℕ, ◌+◌, ◌*◌, ◌%◌, ◌^◌, min, Bool, true, false, not, ◌&&◌, none, some, List, [], ◌∷◌, eqb, ltb,
  if◌then◌else◌, nat_eq, pair_eq, is_some,
}
use klomang_network.Prelude.Map.{Map, lookup, contains_key}
use klomang_network.Prelude.Result.{Result, ok, err}
use klomang_network.Crypto.{Crypto}
use klomang_network.Transaction.{Transaction, TxInput, TxOutput, is_coinbase}
use klomang_network.Utxo.{OutPoint, UtxoSet, outpoint, u64_max}
use klomang_network.Reward.{saturating}
use klomang_network.Dag.{BlockNode, Dag, get_block}
use klomang_network.Verkle.{Curve, VerkleTree, get_root}
use klomang_network.State.Undo.{disconnect_block}
use klomang_network.State.{
  StateManager, StateManagerError, BlockUndo, HostRun, apply_block, apply_block_failed,
  validation_failed,
}

-- The texts of `ValidationError` in `validate_block_stateful`.
pub data BlockFault : Type 0 where
  double_spend verkle_root_mismatch inflation : BlockFault

unfoldable pub all_present : Map OutPoint TxOutput → List TxInput → Bool
all_present m [] = true
all_present m (i ∷ is) = contains_key (outpoint i) m && all_present m is

unfoldable pub no_double_spend : Map OutPoint TxOutput → List Transaction → Bool
no_double_spend m [] = true
no_double_spend m (tx ∷ txs) =
    (if is_coinbase tx then true else all_present m tx.inputs) && no_double_spend m txs

-- The totals saturate at u64.
unfoldable pub total_input : Map OutPoint TxOutput → ℕ → List TxInput → ℕ
total_input m total [] = total
total_input m total (i ∷ is) = elim (lookup (outpoint i) m) [
  | none ↦ total_input m total is
  | some o ↦ total_input m (min (total + o.value) u64_max) is
]

unfoldable pub total_output : ℕ → List TxOutput → ℕ
total_output total [] = total
total_output total (o ∷ os) = total_output (min (total + o.value) u64_max) os

-- The fee is cast to u64 before it is added.
unfoldable pub total_output_with_fee : Transaction → ℕ
total_output_with_fee tx =
    min (total_output 0 tx.outputs + saturating (tx.gas_limit * tx.max_fee_per_gas) % 2 ^ 64)
      u64_max

unfoldable pub no_inflation : Map OutPoint TxOutput → List Transaction → Bool
no_inflation m [] = true
no_inflation m (tx ∷ txs) =
    (if is_coinbase tx
      then true
      else not (ltb (total_input m 0 tx.inputs) (total_output_with_fee tx)))
    && no_inflation m txs

-- The root is asked for only where the header has proofs and the block has transactions; the
-- further rounds of that loop ask for the same root again.
unfoldable pub root_matches : Curve → BlockNode → VerkleTree → Bool × VerkleTree
root_matches k block t = elim block.header.verkle_proofs [
  | none ↦ (true, t)
  | some proof ↦ elim block.transactions [
    | [] ↦ (true, t)
    | _ ↦ let (root, t') = get_root k t in (eqb block.header.verkle_root root, t')
  ]
]

unfoldable pub validate_block_stateful :
    Curve → BlockNode → StateManager → UtxoSet → Result BlockFault (Unit {0}) × StateManager
validate_block_stateful k block m u =
    let (matches, tree) = root_matches k block m.tree in
    let m' : StateManager = record m { tree = tree } in
    if not (no_double_spend u.utxos block.transactions)
    then (err double_spend, m)
    else if not matches
    then (err verkle_root_mismatch, m')
    else if not (no_inflation u.utxos block.transactions)
    then (err inflation, m')
    else (ok tt, m')

unfoldable pub connect_block :
    Crypto
    → Curve
    → (List ℕ → ℕ → HostRun)
    → BlockNode
    → StateManager
    → UtxoSet
    → Result StateManagerError (Unit {0}) × StateManager × UtxoSet
connect_block c k vm block m u =
    let (r, m') = validate_block_stateful k block m u in
    elim r [
      | err e ↦ (err (apply_block_failed validation_failed), m', u)
      | ok _ ↦ apply_block c k vm block m' u
    ]

-- The blocks of a plan that are in the graph: those before the first one without undo data, and
-- from it on.
unfoldable pub split_plan : Dag → Map ℕ BlockUndo → Bool → List ℕ → List BlockNode × List BlockNode
split_plan dag undo diverged [] = ([], [])
split_plan dag undo diverged (hash ∷ hashes) =
    let found = is_some (get_block dag hash) in
    let stay = not diverged && contains_key hash undo in
    let (off, on) = split_plan dag undo (if found then not stay else diverged) hashes in
    elim (get_block dag hash) [
      | none ↦ (off, on)
      | some block ↦ if stay then (block ∷ off, on) else (off, block ∷ on)
    ]

-- The blocks given last are disconnected first.
unfoldable pub disconnect_blocks :
    Crypto
    → List BlockNode
    → StateManager
    → UtxoSet
    → Result StateManagerError (Unit {0}) × StateManager × UtxoSet
disconnect_blocks c [] m u = (ok tt, m, u)
disconnect_blocks c (block ∷ blocks) m u =
    let (r, m', u') = disconnect_blocks c blocks m u in
    elim r [ err e ↦ (err e, m', u') | ok _ ↦ disconnect_block c block m' u' ]

unfoldable pub connect_blocks :
    Crypto
    → Curve
    → (List ℕ → ℕ → HostRun)
    → List BlockNode
    → StateManager
    → UtxoSet
    → Result StateManagerError (Unit {0}) × StateManager × UtxoSet
connect_blocks c k vm [] m u = (ok tt, m, u)
connect_blocks c k vm (block ∷ blocks) m u =
    let (r, m', u') = connect_block c k vm block m u in
    elim r [ err e ↦ (err e, m', u') | ok _ ↦ connect_blocks c k vm blocks m' u' ]

unfoldable pub perform_reorganization :
    Crypto
    → Curve
    → (List ℕ → ℕ → HostRun)
    → Dag
    → List ℕ
    → StateManager
    → UtxoSet
    → Result StateManagerError (Unit {0}) × StateManager × UtxoSet
perform_reorganization c k vm dag hashes m u =
    let (off, on) = split_plan dag m.block_undo_data false hashes in
    let (r, m', u') = disconnect_blocks c off m u in
    elim r [ err e ↦ (err e, m', u') | ok _ ↦ connect_blocks c k vm on m' u' ]
