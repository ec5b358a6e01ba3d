-- ===== src/Gas.antt =====
-- Gas accounting: klomang-core/src/core/vm/gas_meter.rs. Costs are u64; the i128 balance is an
-- integer, which no run of fewer than 2 ^ 62 charges brings out of the range of i128.
pub mod Charges
mod Tests
use klomang_network.Prelude.{
  ℕ, zero, suc, ◌+◌, ◌-◌, ◌/◌, ◌%◌, ◌^◌, ◌<◌, min, Bool, true, false, List, [], ◌∷◌, eqb,
  if◌then◌else◌,
}
use klomang_network.Prelude.Int.{ℤ, pos, negsuc, ◌-ℤ◌, ltb_ℤ}

abbrev pub u64_max : ℕ
u64_max = 2 ^ 64 - 1

abbrev pub saturating_add : ℕ → ℕ → ℕ
saturating_add a b = min (a + b) u64_max

pub record GasMeter : Type 0 where
  pub initial : ℤ
  pub remaining : ℤ
  pub consumed_wasm : ℕ
  pub consumed_host : ℕ
  pub refund : ℕ

-- The one error of `VMError` that the meter returns.
pub data VmError : Type 0 where
  out_of_gas : VmError

pub data Outcome : Type 0 where
  ok : Outcome
  err : VmError → Outcome

abbrev pub intrinsic_gas : ℕ
intrinsic_gas = 21_000

abbrev pub state_read_cost : ℕ
state_read_cost = 2_100

abbrev pub state_write_new_cost : ℕ
state_write_new_cost = 20_000

abbrev pub state_write_update_cost : ℕ
state_write_update_cost = 5_000

abbrev pub self_destruct_refund : ℕ
self_destruct_refund = 24_000

pub new : ℕ → GasMeter
new gas_limit = record {
  initial = pos gas_limit;
  remaining = pos gas_limit;
  consumed_wasm = 0;
  consumed_host = 0;
  refund = 0;
}

-- The meter is charged also where the charge fails.
pub consume_host : ℕ → GasMeter → Outcome × GasMeter
consume_host cost m =
    let left = m.remaining -ℤ pos cost in
    let m' = record m { remaining = left; consumed_host = saturating_add m.consumed_host cost } in
    if ltb_ℤ left (pos 0) then (err out_of_gas, m') else (ok, m')

pub consume_opcode : ℕ → GasMeter → Outcome × GasMeter
consume_opcode cost m =
    let left = m.remaining -ℤ pos cost in
    let m' = record m { remaining = left; consumed_wasm = saturating_add m.consumed_wasm cost } in
    if ltb_ℤ left (pos 0) then (err out_of_gas, m') else (ok, m')

pub charge_intrinsic : GasMeter → Outcome × GasMeter
charge_intrinsic = consume_host intrinsic_gas

-- 4 for a zero byte and 16 for any other, saturating.
payload_cost : ℕ → List ℕ → ℕ
payload_cost total [] = total
payload_cost total (byte ∷ rest) =
    payload_cost (saturating_add total (if eqb byte 0 then 4 else 16)) rest

pub charge_payload : List ℕ → GasMeter → Outcome × GasMeter
charge_payload payload = consume_host (payload_cost 0 payload)

pub charge_state_read : GasMeter → Outcome × GasMeter
charge_state_read = consume_host state_read_cost

abbrev pub state_write_cost : Bool → ℕ
state_write_cost is_new = if is_new then state_write_new_cost else state_write_update_cost

pub charge_state_write : Bool → GasMeter → Outcome × GasMeter
charge_state_write is_new = consume_host (state_write_cost is_new)

-- A cost of the code is counted as a host cost as well.
pub charge_wasm : ℕ → GasMeter → Outcome × GasMeter
charge_wasm cost m =
    let (r, m') = consume_host cost m in
    elim r [
      | ok ↦ (ok, record m' { consumed_wasm = saturating_add m'.consumed_wasm cost })
      | err e ↦ (err e, m')
    ]

pub refund_self_destruct : GasMeter → GasMeter
refund_self_destruct m = record m { refund = saturating_add m.refund self_destruct_refund }

-- The cast of an i128 to u64.
cast_u64 : ℤ → ℕ
cast_u64 (pos n) = n % 2 ^ 64
cast_u64 (negsuc n) = 2 ^ 64 - 1 - n % 2 ^ 64

pub get_used : GasMeter → ℕ
get_used m = cast_u64 (m.initial -ℤ m.remaining)

-- The net use and the refund, which is at most a fifth.
pub finalize : GasMeter → ℕ → ℕ × ℕ
finalize m total_used =
    let actual_refund = min m.refund (total_used / 5) in (total_used - actual_refund, actual_refund)
