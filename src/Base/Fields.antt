-- ===== src/Base/Fields.antt =====
-- Bit fields: a mask above some digits, and `|` in the order of the sources.
use Prim.Native.Nat.{ℕ, zero, suc, ◌+◌, ◌*◌, ◌/◌, ◌^◌, ◌≤◌, ◌<◌, bit_and, bit_or}
use mathlib.Core.Path.{◌≡◌, refl, ap, ◌∙◌}
use native.Mathlib.Nat.{pow-suc, div-div-eq-div-mul}
use native.Mathlib.Omega.{arith}
use takshaka.Base.Bits.{and_step, or_step, or_fields, mul-pow-suc}

or_comm_fuel : (n a b : ℕ) → a ≤ n → b ≤ n → bit_or a b ≡ bit_or b a
or_comm_fuel zero zero zero p q = refl
or_comm_fuel zero zero (suc b) p q = absurd (omega arith)
or_comm_fuel zero (suc a) b p q = absurd (omega arith)
or_comm_fuel (suc n) a b p q =
    omega
      (arith, or_step a b, or_step b a, or_comm_fuel n (a / 2) (b / 2) (omega arith) (omega arith))

pub or_comm : (a b : ℕ) → bit_or a b ≡ bit_or b a
or_comm a b = or_comm_fuel (a + b) a b (omega arith) (omega arith)

-- The same with the high field first.
pub or_low : (k a q : ℕ) → a < 2 ^ k → bit_or (q * 2 ^ k) a ≡ a + q * 2 ^ k
or_low k a q h = or_comm (q * 2 ^ k) a ∙ or_fields k a q h

-- A mask of `k` zeros below `m`.
pub and_above : (k a m : ℕ) → bit_and a (m * 2 ^ k) ≡ bit_and (a / 2 ^ k) m * 2 ^ k
and_above zero a m = omega (
  arith,
  ap (λ (t : ℕ). bit_and a t) {x = m * 1} {y = m} (omega arith),
  ap (λ (t : ℕ). bit_and t m) {x = a / 1} {y = a} (omega arith),
)
and_above (suc k) a m = omega (
  arith,
  and_step a (m * 2 ^ suc k),
  ap (bit_and (a / 2)) halved,
  mul-pow-suc m k,
  and_above k (a / 2) m,
  ap (λ (t : ℕ). bit_and t m * 2 ^ k) place,
  mul-pow-suc (bit_and (a / 2 ^ suc k) m) k,
)
  where
    halved : m * 2 ^ suc k / 2 ≡ m * 2 ^ k
    halved = omega (arith, mul-pow-suc m k)

    place : a / 2 / 2 ^ k ≡ a / 2 ^ suc k
    place = div-div-eq-div-mul a 2 (2 ^ k) ∙ ap (λ (t : ℕ). a / t) (omega (arith, pow-suc 2 k))

and_comm_fuel : (n a b : ℕ) → a ≤ n → b ≤ n → bit_and a b ≡ bit_and b a
and_comm_fuel zero zero zero p q = refl
and_comm_fuel zero zero (suc b) p q = absurd (omega arith)
and_comm_fuel zero (suc a) b p q = absurd (omega arith)
and_comm_fuel (suc n) a b p q =
    omega (
      arith,
      and_step a b,
      and_step b a,
      and_comm_fuel n (a / 2) (b / 2) (omega arith) (omega arith),
    )

pub and_comm : (a b : ℕ) → bit_and a b ≡ bit_and b a
and_comm a b = and_comm_fuel (a + b) a b (omega arith) (omega arith)
