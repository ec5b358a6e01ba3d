-- ===== src/State/Supply.antt =====
-- The supply that the manager counts, beside the values of the unspent outputs.
use klomang_network.Prelude.{
  ℕ, min, ltb, ◌+◌, ◌%◌, ◌^◌, ◌≤◌, ◌≡◌, inl, inr, Bool, true, false, not, ◌&&◌, Option, some, List,
  [], ◌∷◌, eqb, length, if◌then◌else◌, is_some, nat_eq, pair_eq, arith, refl, ap, sym, ◌∙◌,
  Option-cases,
}
use klomang_network.Prelude.Map.{Map, lookup, erase, IsMap, IsMap-erase, IsMap-insert}
use klomang_network.Prelude.Int.{ℤ, pos, pos_part, neg_part, -ℤ_parts, +ℤ_parts}
use klomang_network.Prelude.Result.{Result, ok, err, Result-cases}
use klomang_network.Crypto.{Crypto}
use klomang_network.Transaction.{Transaction, TxInput, TxOutput}
use klomang_network.Utxo.{OutPoint, UtxoSet, outpoint, u64_max}
use klomang_network.Utxo.Validate.{sum_values, value_of}
use klomang_network.Utxo.Value.{total_value, total_value-erase, total_value-insert_bound}
use klomang_network.Emission.{u128_max}
use klomang_network.Reward.{saturating}
use klomang_network.Dag.{BlockNode}
use klomang_network.Verkle.{Curve}
use klomang_network.State.{
  StateManager, StateManagerError, Work, HostRun, spend_input, spend_inputs, create_output,
  create_outputs, apply_utxo_transaction, run_contract, charge_gas, restore_tree, execute,
  apply_transaction, apply_contract_transition, payload_cost, apply_block_failed, insufficient_gas,
  apply_transactions, start, empty_undo, apply_block,
}
use klomang_network.State.Invariant.{IsManager}
use klomang_network.State.Atomic.{IsApplied, Outcome, apply_block-atomic}
use klomang_network.State.Undo.{reverse_supply, disconnect_block, reversed}
use klomang_network.State.Reverse.{undo_of}

-- The outputs are a map, and their values sum up to the supply at most.
pub record IsBacked (m : StateManager) (utxo : Map OutPoint TxOutput) : Type 0 where
  pub keyed : IsMap utxo
  pub backed : total_value utxo ≤ m.current_total_supply

-- While a block is applied the change of the supply is counted too.
record IsCounted (supply : ℕ) (w : Work) : Type 0 where
  kept : IsBacked w.manager w.utxo
  change :
      pos_part w.undo.total_supply_delta + supply
      ≡ neg_part w.undo.total_supply_delta + w.manager.current_total_supply

-- The values of all outputs of the transactions.
unfoldable pub created_value : List Transaction → ℕ
created_value [] = 0
created_value (tx ∷ txs) = sum_values tx.outputs + created_value txs

module _ (supply : ℕ) where
  -- The supply after a step is larger by the amount at most.
  Grows : ℕ → Work → Work → Type 0
  Grows n w w' =
      IsCounted supply w' × (w'.manager.current_total_supply ≤ w.manager.current_total_supply + n)

  spend_input-IsCounted :
      (k : OutPoint) (o : TxOutput) (w : Work)
      → lookup k w.utxo ≡ some o
      → IsCounted supply w
      → IsCounted supply (spend_input k o w)
        × ((spend_input k o w).manager.current_total_supply ≤ w.manager.current_total_supply)
  unfolding spend_input
  spend_input-IsCounted k o w e h =
      let value : total_value (erase k w.utxo) + o.value ≡ total_value w.utxo =
        ap (λ (p : Option TxOutput). total_value (erase k w.utxo) + value_of p) (sym e)
        ∙ total_value-erase k w.utxo h.kept.keyed in
      let parts = -ℤ_parts w.undo.total_supply_delta (pos o.value) in
      let backed = h.kept.backed in
      let change = h.change in
      (
        record {
          kept = record {
            keyed = IsMap-erase k w.utxo h.kept.keyed;
            backed = omega (arith, value, backed);
          };
          change = omega (arith, value, backed, change, parts);
        },
        omega arith,
      )

  spend_inputs-IsCounted :
      (is : List TxInput) (w : Work)
      → IsCounted supply w
      → IsCounted supply (spend_inputs is w).1
        × ((spend_inputs is w).1.manager.current_total_supply ≤ w.manager.current_total_supply)
  unfolding spend_inputs
  spend_inputs-IsCounted [] w h = (h, omega arith)
  spend_inputs-IsCounted (i ∷ is) w h = elim (Option-cases (lookup (outpoint i) w.utxo)) [
    | inl e ↦ rw (e, spend_inputs) (h, omega arith)
    | inr (o, e) ↦
        let one = spend_input-IsCounted (outpoint i) o w e h in
        let rest = spend_inputs-IsCounted is (spend_input (outpoint i) o w) one.0 in
        rw (e, spend_inputs) (rest.0, omega (arith, rest.1, one.1))
  ]

  create_output-IsCounted :
      (c : Crypto) (tx : Transaction) (index : ℕ) (o : TxOutput) (w : Work)
      → IsCounted supply w
      → w.manager.current_total_supply + o.value ≤ u128_max
      → IsCounted supply (create_output c tx index o w)
        × ((create_output c tx index o w).manager.current_total_supply
            ≡ w.manager.current_total_supply + o.value)
  unfolding create_output
  create_output-IsCounted c tx index o w h room =
      let k : OutPoint = (tx.id, index % 2 ^ 32) in
      let whole : saturating (w.manager.current_total_supply + o.value)
          ≡ w.manager.current_total_supply + o.value =
        ground (arith, room) in
      let parts = +ℤ_parts w.undo.total_supply_delta (pos o.value) in
      let backed = h.kept.backed in
      let change = h.change in
      let value = total_value-insert_bound k o w.utxo in
      (
        record {
          kept = record {
            keyed = IsMap-insert k o w.utxo h.kept.keyed;
            backed = rw whole (omega (arith, value, backed));
          };
          change = rw whole (omega (arith, change, parts));
        },
        whole,
      )

  create_outputs-IsCounted :
      (c : Crypto) (tx : Transaction) (index : ℕ) (os : List TxOutput) (w : Work)
      → IsCounted supply w
      → w.manager.current_total_supply + sum_values os ≤ u128_max
      → IsCounted supply (create_outputs c tx index os w)
        × ((create_outputs c tx index os w).manager.current_total_supply
            ≡ w.manager.current_total_supply + sum_values os)
  unfolding create_outputs sum_values
  create_outputs-IsCounted c tx index [] w h room = (h, omega arith)
  create_outputs-IsCounted c tx index (o ∷ os) w h room =
      let one = create_output-IsCounted c tx index o w h (omega (arith, room)) in
      let rest =
        create_outputs-IsCounted c tx (index + 1) os (create_output c tx index o w) one.0
          (omega (arith, one.1, room)) in
      (rest.0, omega (arith, rest.1, one.1))

  apply_utxo_transaction-IsCounted :
      (c : Crypto) (tx : Transaction) (w : Work)
      → IsCounted supply w
      → w.manager.current_total_supply + sum_values tx.outputs ≤ u128_max
      → Grows (sum_values tx.outputs) w (apply_utxo_transaction c tx w).1
  unfolding apply_utxo_transaction Grows
  apply_utxo_transaction-IsCounted c tx w h room =
      let spent = spend_inputs-IsCounted tx.inputs w h in
      let made =
        create_outputs-IsCounted c tx 0 tx.outputs (spend_inputs tx.inputs w).1 spent.0
          (omega (arith, spent.1, room)) in
      elim (Result-cases (spend_inputs tx.inputs w).0) [
        | inr (a, e) ↦ rw (e, apply_utxo_transaction) (spent.0, omega (arith, spent.1))
        | inl (a, e) ↦ rw (e, apply_utxo_transaction) (made.0, omega (arith, made.1, spent.1))
      ]

  run_contract-IsCounted :
      (c : Crypto) (vm : List ℕ → ℕ → HostRun) (tx : Transaction) (w : Work)
      → IsCounted supply w
      → w.manager.current_total_supply + sum_values tx.outputs ≤ u128_max
      → Grows (sum_values tx.outputs) w (run_contract c vm tx w).1
  unfolding run_contract charge_gas restore_tree Grows
  run_contract-IsCounted c vm tx w h room =
      let ran = execute c (vm tx.execution_payload tx.gas_limit) w.manager.tree in
      let kept : IsBacked w.manager w.utxo = h.kept in
      elim (Option-cases ran.0) [
        | inl e ↦
            rw (e, run_contract)
              (
                record {
                  kept = record { keyed = kept.keyed; backed = kept.backed };
                  change = h.change;
                },
                omega arith,
              )
        | inr (used, e) ↦
            rw (e, run_contract)
              (apply_utxo_transaction-IsCounted c tx (charge_gas c used tx ran.1 w)
                (record {
                  kept = record { keyed = kept.keyed; backed = kept.backed };
                  change = h.change;
                })
                room)
      ]

  Grows-if :
      (n : ℕ) (w : Work) (b : Bool) (x y : Result StateManagerError (Unit {0}) × Work)
      → Grows n w x.1
      → Grows n w y.1
      → Grows n w (if b then x else y).1
  Grows-if n w true x y hx hy = hx
  Grows-if n w false x y hx hy = hy

  apply_transaction-IsCounted :
      (c : Crypto) (vm : List ℕ → ℕ → HostRun) (tx : Transaction) (w : Work)
      → IsCounted supply w
      → w.manager.current_total_supply + sum_values tx.outputs ≤ u128_max
      → Grows (sum_values tx.outputs) w (apply_transaction c vm tx w).1
  unfolding apply_transaction apply_contract_transition Grows
  apply_transaction-IsCounted c vm tx w h room =
      Grows-if (sum_values tx.outputs) w
        (eqb (length tx.execution_payload) 0 && not (is_some tx.contract_address))
        (apply_utxo_transaction c tx w) (apply_contract_transition c vm tx w)
        (apply_utxo_transaction-IsCounted c tx w h room)
        (Grows-if (sum_values tx.outputs) w
          (ltb tx.gas_limit (min (21_000 + payload_cost 0 tx.execution_payload) u64_max))
          (err (apply_block_failed insufficient_gas), w) (run_contract c vm tx w) (h, omega arith)
          (run_contract-IsCounted c vm tx w h room))

  apply_transactions-IsCounted :
      (c : Crypto) (vm : List ℕ → ℕ → HostRun) (txs : List Transaction) (w : Work)
      → IsCounted supply w
      → w.manager.current_total_supply + created_value txs ≤ u128_max
      → IsCounted supply (apply_transactions c vm txs w).1
  unfolding apply_transactions created_value Grows
  apply_transactions-IsCounted c vm [] w h room = h
  apply_transactions-IsCounted c vm (tx ∷ txs) w h room =
      let one = apply_transaction-IsCounted c vm tx w h (omega (arith, room)) in
      elim (Result-cases (apply_transaction c vm tx w).0) [
        | inr (a, e) ↦ rw (e, apply_transactions) one.0
        | inl (a, e) ↦
            rw (e, apply_transactions)
              (apply_transactions-IsCounted c vm txs (apply_transaction c vm tx w).1 one.0
                (omega (arith, one.1, room)))
      ]

  reverse_supply-IsCounted :
      (w : Work)
      → IsCounted supply w
      → supply ≤ u128_max
      → reverse_supply w.undo.total_supply_delta w.manager.current_total_supply ≡ supply
  unfolding reverse_supply
  reverse_supply-IsCounted w h small = back w.undo.total_supply_delta h.change
    where
      back :
          (delta : ℤ)
          → pos_part delta + supply ≡ neg_part delta + w.manager.current_total_supply
          → reverse_supply delta w.manager.current_total_supply ≡ supply
      back delta e = ground arith

module _ (c : Crypto) (k : Curve) (vm : List ℕ → ℕ → HostRun) (block : BlockNode) where
  start-IsCounted :
      (m : StateManager) (u : UtxoSet)
      → IsBacked m u.utxos
      → IsCounted m.current_total_supply (start m u.utxos)
  unfolding start empty_undo
  start-IsCounted m u h = record {
    kept = record { keyed = h.keyed; backed = h.backed };
    change = omega arith;
  }

  room_of :
      (m : StateManager) (u : UtxoSet)
      → m.current_total_supply + created_value block.transactions ≤ u128_max
      → (start m u.utxos).manager.current_total_supply + created_value block.transactions ≤ u128_max
  unfolding start
  room_of m u h = h

  disconnected_supply :
      (m m' : StateManager) (u' : UtxoSet) (w : Work)
      → IsApplied k block w m m'
      → (disconnect_block c block m' u').1.current_total_supply
        ≡ reverse_supply w.undo.total_supply_delta w.manager.current_total_supply
  unfolding disconnect_block reversed
  disconnected_supply m m' u' w a =
      rw (undo_of c k vm block m m' w a, disconnect_block) (rw a.supply refl)

  -- Where the values of the outputs sum up to the supply at most, and the values of the block fit
  -- in the supply's type beside it, a block that is applied leaves the outputs so backed again, and
  -- disconnecting it gives the supply from before it.
  pub disconnect_block-supply :
      (m : StateManager) (u : UtxoSet)
      → IsManager k m
      → m.applying_block ≡ false
      → IsBacked m u.utxos
      → m.current_total_supply + created_value block.transactions ≤ u128_max
      → (apply_block c k vm block m u).0 ≡ ok tt
      → let (r, m', u') = apply_block c k vm block m u in
        IsBacked m' u'.utxos
        × ((disconnect_block c block m' u').1.current_total_supply ≡ m.current_total_supply)
  unfolding Outcome
  disconnect_block-supply m u h idle backed room fine =
      elim (apply_block-atomic c k vm block m u h idle) [
        | inr ((e, bad), back, same) ↦ absurd (ground (arith, fine, bad))
        | inl (done, good, applied, outputs) ↦
            let w = (apply_transactions c vm block.transactions (start m u.utxos)).1 in
            let counted =
              apply_transactions-IsCounted m.current_total_supply c vm block.transactions
                (start m u.utxos) (start-IsCounted m u backed) (room_of m u room) in
            (
              record {
                keyed = rw outputs counted.kept.keyed;
                backed = rw (outputs, applied.supply) counted.kept.backed;
              },
              disconnected_supply m (apply_block c k vm block m u).1
                    (apply_block c k vm block m u).2 w applied
                  ∙ reverse_supply-IsCounted m.current_total_supply w counted (omega (arith, room)),
            )
      ]
