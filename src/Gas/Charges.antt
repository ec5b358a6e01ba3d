-- ===== src/Gas/Charges.antt =====
-- Runs of charges against one meter.
use klomang_network.Prelude.{
  ℕ, ◌+◌, ◌*◌, ◌^◌, ◌<◌, ◌≤◌, ◌≡◌, ◌⊎◌, Bool, List, [], ◌∷◌, arith, refl, inl, inr, dec_le, min,
  ◌/◌,
}
use klomang_network.Prelude.Int.{ℤ, pos, negsuc, pos_part, neg_part, ◌-ℤ◌, -ℤ_parts}
use klomang_network.Gas.{
  GasMeter, Outcome, ok, err, out_of_gas, new, consume_host, consume_opcode, charge_intrinsic,
  charge_payload, charge_state_read, charge_state_write, charge_wasm, refund_self_destruct,
  get_used, finalize, payload_cost, intrinsic_gas, state_read_cost, state_write_cost, cast_u64,
}

-- What an execution does with its meter.
pub data Charge : Type 0 where
  intrinsic state_read self_destruct : Charge
  payload : List ℕ → Charge
  state_write : Bool → Charge
  wasm opcode : ℕ → Charge

pub cost_of : Charge → ℕ
cost_of intrinsic = intrinsic_gas
cost_of state_read = state_read_cost
cost_of self_destruct = 0
cost_of (payload bytes) = payload_cost 0 bytes
cost_of (state_write is_new) = state_write_cost is_new
cost_of (wasm cost) = cost
cost_of (opcode cost) = cost

pub charge : Charge → GasMeter → Outcome × GasMeter
charge intrinsic m = charge_intrinsic m
charge state_read m = charge_state_read m
charge self_destruct m = (ok, refund_self_destruct m)
charge (payload bytes) m = charge_payload bytes m
charge (state_write is_new) m = charge_state_write is_new m
charge (wasm cost) m = charge_wasm cost m
charge (opcode cost) m = consume_opcode cost m

-- Charges in order, up to the first that fails.
pub charges : List Charge → GasMeter → Outcome × GasMeter
charges [] m = (ok, m)
charges (c ∷ cs) m =
    let (r, m') = charge c m in
    let rest = charges cs m' in elim r [ ok ↦ rest | err e ↦ (err e, m') ]

pub sum_costs : List Charge → ℕ
sum_costs [] = 0
sum_costs (c ∷ cs) = cost_of c + sum_costs cs

-- The balance falls by exactly `cost`, the limit stays, and the charge passes when the balance
-- was enough.
record Charges (m : GasMeter) (cost : ℕ) (r : Outcome) (m' : GasMeter) : Type 0 where
  same_limit : m'.initial ≡ m.initial
  left :
      pos_part m'.remaining + neg_part m.remaining + cost
      ≡ neg_part m'.remaining + pos_part m.remaining
  passes : r ≡ ok → neg_part m'.remaining ≡ 0
  fails : (r ≡ ok → ⊥) → 0 < neg_part m'.remaining

host-Charges : (c : ℕ) (m : GasMeter) → Charges m c (consume_host c m).0 (consume_host c m).1
unfolding consume_host
host-Charges c m = ground (arith, -ℤ_parts m.remaining (pos c))

opcode-Charges : (c : ℕ) (m : GasMeter) → Charges m c (consume_opcode c m).0 (consume_opcode c m).1
unfolding consume_opcode
opcode-Charges c m = ground (arith, -ℤ_parts m.remaining (pos c))

wasm-Charges : (c : ℕ) (m : GasMeter) → Charges m c (charge_wasm c m).0 (charge_wasm c m).1
unfolding charge_wasm
wasm-Charges c m = ground (arith, host-Charges c m)

charge-Charges :
    (c : Charge) (m : GasMeter)
    → neg_part m.remaining ≡ 0
    → Charges m (cost_of c) (charge c m).0 (charge c m).1
unfolding charge cost_of charge_intrinsic charge_state_read charge_payload charge_state_write
    refund_self_destruct
charge-Charges intrinsic m h = host-Charges _ m
charge-Charges state_read m h = host-Charges _ m
charge-Charges self_destruct m h = ground arith
charge-Charges (payload bytes) m h = host-Charges _ m
charge-Charges (state_write is_new) m h = host-Charges _ m
charge-Charges (wasm cost) m h = wasm-Charges cost m
charge-Charges (opcode cost) m h = opcode-Charges cost m

pos_or_neg : (x : ℤ) → (pos_part x ≡ 0) ⊎ (neg_part x ≡ 0)
pos_or_neg (pos n) = inr refl
pos_or_neg (negsuc n) = inl refl

-- A run from a balance that is not negative: it passes exactly when the balance covers the costs.
record Runs (m : GasMeter) (cost : ℕ) (r : Outcome) (m' : GasMeter) : Type 0 where
  covered : cost ≤ pos_part m.remaining → r ≡ ok
  uncovered : pos_part m.remaining < cost → r ≡ err out_of_gas
  same_limit : m'.initial ≡ m.initial
  left : r ≡ ok → pos_part m'.remaining + cost ≡ pos_part m.remaining
  nonneg : r ≡ ok → neg_part m'.remaining ≡ 0

charges-Runs :
    (cs : List Charge) (m : GasMeter)
    → neg_part m.remaining ≡ 0
    → Runs m (sum_costs cs) (charges cs m).0 (charges cs m).1
unfolding charges sum_costs
charges-Runs [] m h = ground arith
charges-Runs (c ∷ cs) m h = ground (
  arith,
  charge-Charges c m h,
  charges-Runs cs (charge c m).1,
  pos_or_neg (charge c m).1.remaining,
)

cast_u64-sub :
    (limit s : ℕ) (left : ℤ)
    → limit < 2 ^ 64
    → pos_part left + s ≡ limit
    → neg_part left ≡ 0
    → cast_u64 (pos limit -ℤ left) ≡ s
unfolding cast_u64 ◌-ℤ◌
cast_u64-sub limit s (pos n) h e z = ground arith
cast_u64-sub limit s (negsuc n) h e z = ground arith

get_used_lem :
    (m : GasMeter) (limit s : ℕ)
    → limit < 2 ^ 64
    → m.initial ≡ pos limit
    → pos_part m.remaining + s ≡ limit
    → neg_part m.remaining ≡ 0
    → get_used m ≡ s
unfolding get_used
get_used_lem m limit s h i e z = rw i (cast_u64-sub limit s m.remaining h e z)

-- A run by what the limit covers.
charges_both :
    (cs : List Charge) (limit : ℕ)
    → limit < 2 ^ 64
    → (sum_costs cs ≤ limit
        → ((charges cs (new limit)).0 ≡ ok) × (get_used (charges cs (new limit)).1 ≡ sum_costs cs))
      × (limit < sum_costs cs → (charges cs (new limit)).0 ≡ err out_of_gas)
unfolding new
charges_both cs limit h =
    let r = charges-Runs cs (new limit) refl in
    (
      λ fits.
          let done = r.covered fits in
          (
            done,
            get_used_lem (charges cs (new limit)).1 limit (sum_costs cs) h r.same_limit
                (r.left done) (r.nonneg done),
          ),
      r.uncovered,
    )

-- From a fresh meter a run of charges passes exactly when the limit covers the sum of their costs,
-- and runs out of gas in every other case; after a run that passes, the gas used is that sum.
pub charges-new :
    (cs : List Charge) (limit : ℕ)
    → limit < 2 ^ 64
    → ((sum_costs cs ≤ limit)
        × ((charges cs (new limit)).0 ≡ ok)
        × (get_used (charges cs (new limit)).1 ≡ sum_costs cs))
      ⊎ ((limit < sum_costs cs) × ((charges cs (new limit)).0 ≡ err out_of_gas))
charges-new cs limit h = elim (dec_le (sum_costs cs) limit) [
  | yes fits ↦ let (passes, used) = (charges_both cs limit h).0 fits in inl (fits, passes, used)
  | no over ↦ inr (omega arith, (charges_both cs limit h).1 (omega arith))
]

-- The refund is the collected one up to a fifth of the use, and the fifth where more was collected: what
-- is paid and what is refunded make up the use, and at least four fifths of it are paid.
pub finalize_split :
    (m : GasMeter) (used : ℕ)
    → let (net, refunded) = finalize m used in
      (net + refunded ≡ used) × (refunded ≡ min m.refund (used / 5)) × (4 * used ≤ 5 * net)
unfolding finalize
finalize_split m used = (omega arith, refl, omega arith)
