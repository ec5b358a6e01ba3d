-- ===== src/Prelude/Bytes.antt =====
-- Big-endian and little-endian bytes of a number of a fixed width.
use Prim.Native.Nat.{ℕ, zero, suc, ◌+◌, ◌-◌, ◌*◌, ◌/◌, ◌%◌, ◌^◌, ◌<◌}
use mathlib.Core.Path.{◌≡◌, refl, sym, ◌∙◌, ap}
use mathlib.Core.List.{List, [], ◌∷◌}
use native.Mathlib.Nat.{pow-suc, mul_comm, div-div-eq-div-mul, mod-eq-sub-div-mul, mod-eq_of_lt}
use native.Mathlib.Omega.{arith}
use klomang_network.Prelude.Lists.{length}

-- `to_le_bytes` at the given number of bytes.
unfoldable pub le_bytes : ℕ → ℕ → List ℕ
le_bytes zero n = []
le_bytes (suc k) n = n % 256 ∷ le_bytes k (n / 256)

-- `to_be_bytes`: the same bytes from the other end.
unfoldable pub be_bytes : ℕ → ℕ → List ℕ
be_bytes zero n = []
be_bytes (suc k) n = (n / 256 ^ k) % 256 ∷ be_bytes k n

unfoldable pub from_be_bytes : ℕ → List ℕ → ℕ
from_be_bytes acc [] = acc
from_be_bytes acc (b ∷ bs) = from_be_bytes (acc * 256 + b) bs

pub length-be_bytes : (k n : ℕ) → length (be_bytes k n) ≡ k
unfolding be_bytes
length-be_bytes zero n = refl
length-be_bytes (suc k) n = ap suc (length-be_bytes k n)

digit : (n p : ℕ) → 0 < p → n % (256 * p) ≡ (n / p % 256) * p + n % p
digit n p h =
    let whole : n ≡ n / p * p + n % p = grind arith in
    let high : n / p ≡ n / p / 256 * 256 + n / p % 256 = omega arith in
    let scaled : n / p * p ≡ (n / p / 256 * 256 + n / p % 256) * p = ap (λ (t : ℕ). t * p) high in
    let outer : n / (p * 256) ≡ n / p / 256 = sym (div-div-eq-div-mul n p 256) in
    let rest : n % (p * 256) ≡ n - n / (p * 256) * (p * 256) = mod-eq-sub-div-mul n (p * 256) in
    rw (mul_comm 256 p, rest, outer) (omega (arith, whole, scaled))

pow_pos : (k : ℕ) → 0 < 256 ^ k
pow_pos zero = omega arith
pow_pos (suc k) = rw (pow-suc 256 k) (omega (arith, pow_pos k))

from_be_bytes-be_bytes_from :
    (k acc n : ℕ) → from_be_bytes acc (be_bytes k n) ≡ acc * 256 ^ k + n % 256 ^ k
unfolding be_bytes from_be_bytes
from_be_bytes-be_bytes_from zero acc n = omega arith
from_be_bytes-be_bytes_from (suc k) acc n =
    from_be_bytes-be_bytes_from k (acc * 256 + n / 256 ^ k % 256) n
    ∙ rw (pow-suc 256 k, mul_comm (256 ^ k) 256, digit n (256 ^ k) (pow_pos k)) (grind arith)

pub from_be_bytes-be_bytes : (k n : ℕ) → n < 256 ^ k → from_be_bytes 0 (be_bytes k n) ≡ n
from_be_bytes-be_bytes k n h = from_be_bytes-be_bytes_from k 0 n ∙ rw (mod-eq_of_lt h) (omega arith)
