-- ===== src/State/Fees.antt =====
-- The gas fee witnesses and the cap of the supply in state_manager.rs.
use klomang_network.Prelude.{
  ℕ, ◌+◌, ◌-◌, ◌*◌, ◌/◌, ◌%◌, ◌^◌, ◌<◌, ◌≡◌, ◌↔◌, Bool, true, ◌&&◌, eqb, ltb, if◌then◌else◌, arith,
}
use klomang_network.Prelude.Result.{Result, ok, err}
use klomang_network.Emission.{max_global_supply_nano_slug}
use klomang_network.Reward.{miner_reward_percent}
use klomang_network.State.{
  GasFeeWitness, StateManager, StateManagerError, create_gas_fee_witness, supply_cap_exceeded,
}

-- The product and the sum wrap at 128 bits.
pub verify_gas_fee_distribution : GasFeeWitness → Bool
verify_gas_fee_distribution witness =
    let expected_miner = witness.total_gas_fee * miner_reward_percent % 2 ^ 128 / 100 in
    eqb witness.miner_share expected_miner
    && eqb witness.fullnode_share (witness.total_gas_fee - expected_miner)
    && eqb ((witness.miner_share + witness.fullnode_share) % 2 ^ 128) witness.total_gas_fee

pub verify_global_supply : StateManager → Result StateManagerError (Unit {0})
verify_global_supply m =
    if ltb max_global_supply_nano_slug m.current_total_supply
    then err supply_cap_exceeded
    else ok tt

shares_total :
    (fee : ℕ)
    → fee < 2 ^ 128
    → (create_gas_fee_witness fee).miner_share + (create_gas_fee_witness fee).fullnode_share ≡ fee
unfolding create_gas_fee_witness
shares_total fee h = omega arith

-- A witness of a fee in u128 is accepted exactly where it is the one made for its fee, and the
-- shares made for a fee sum up to it.
verify-create_gas_fee_witness :
    (w : GasFeeWitness)
    → w.total_gas_fee < 2 ^ 128
    → ((verify_gas_fee_distribution w ≡ true) ↔ (w ≡ create_gas_fee_witness w.total_gas_fee))
      × ((create_gas_fee_witness w.total_gas_fee).miner_share
            + (create_gas_fee_witness w.total_gas_fee).fullnode_share
          ≡ w.total_gas_fee)
unfolding verify_gas_fee_distribution create_gas_fee_witness
verify-create_gas_fee_witness w h =
    let total = shares_total w.total_gas_fee h in (ground (arith, total, h), total)
