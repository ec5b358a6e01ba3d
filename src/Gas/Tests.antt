-- ===== src/Gas/Tests.antt =====
-- A run of charges of vm/gas_meter.rs.
use klomang_network.Prelude.{◌≡◌, ◌≤◌, ◌<◌, arith, List, [], ◌∷◌, true, ◌⊎◌}
use klomang_network.Gas.{new, get_used, out_of_gas, ok, err}
use klomang_network.Gas.Charges.{
  Charge, intrinsic, state_write, wasm, charges, sum_costs, charges-new,
}

abbrev run : List Charge
run = intrinsic ∷ state_write true ∷ wasm 9 ∷ []

charges-new_example :
    ((sum_costs run ≤ 50_000)
      × ((charges run (new 50_000)).0 ≡ ok)
      × (get_used (charges run (new 50_000)).1 ≡ sum_costs run))
    ⊎ ((50_000 < sum_costs run) × ((charges run (new 50_000)).0 ≡ err out_of_gas))
charges-new_example = charges-new run 50_000 (omega arith)
