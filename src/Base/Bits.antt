-- ===== src/Base/Bits.antt =====
-- Laws of `^`, and of `|` and `&` with the constants of the sources, at every width.
use Prim.Native.Nat.{ℕ, zero, suc, ◌+◌, ◌-◌, ◌*◌, ◌/◌, ◌%◌, ◌^◌, ◌≤◌, ◌<◌}
use Prim.Native.Nat.{bit_xor, bit_and, bit_or, min, max, differ, digits, bitwise}
use Prim.Native.Nat.{bit_xor-bitwise, bit_and-bitwise, bit_or-bitwise}
use mathlib.Core.Path.{◌≡◌, refl, sym, ap, ◌∙◌}
use native.Mathlib.Nat.{pow-suc, one-le-pow, mod-eq_of_lt, add-mul-mod_self_right}
use native.Mathlib.Omega.{arith}

-- A native operation is a recursion on binary digits, with the left operand itself for fuel.
module _ (last : ℕ → ℕ) (digit : ℕ → ℕ → ℕ) where
  abbrev on_fuel : ℕ → ℕ → ℕ → ℕ
  on_fuel = digits last digit

  one_more : (n a b : ℕ) → a ≤ n → on_fuel (suc n) a b ≡ on_fuel n a b
  one_more n zero b h = elim n as (λ k. on_fuel (suc k) 0 b ≡ on_fuel k 0 b) [
    | zero ↦ refl
    | suc k ↦ refl
  ]
  one_more zero (suc a) b h = elim h [ ]
  one_more (suc n) (suc a) b h =
      ap (λ (q : ℕ). q * 2 + digit (suc a % 2) (b % 2))
        (one_more n (suc a / 2) (b / 2) (omega arith))

  settled : (k n a b : ℕ) → n ≡ k + a → on_fuel n a b ≡ bitwise last digit a b
  settled zero n a b e = ap (λ (m : ℕ). on_fuel m a b) (omega (arith, e))
  settled (suc k) n a b e =
      ap (λ (m : ℕ). on_fuel m a b) {y = suc (k + a)} (omega (arith, e))
      ∙ one_more (k + a) a b (omega arith)
      ∙ settled k (k + a) a b refl

  peel :
      (a b : ℕ)
      → bitwise last digit (suc a) b
        ≡ bitwise last digit (suc a / 2) (b / 2) * 2 + digit (suc a % 2) (b % 2)
  peel a b =
      ap (λ (q : ℕ). q * 2 + digit (suc a % 2) (b % 2))
        (settled (a - suc a / 2) a (suc a / 2) (b / 2) (omega arith))

differ_lem : (a b : ℕ) → a < 2 → b < 2 → differ a b ≡ (a + b) % 2
differ_lem zero zero ha hb = refl
differ_lem zero (suc zero) ha hb = refl
differ_lem zero (suc (suc b)) ha hb = absurd (omega arith)
differ_lem (suc zero) zero ha hb = refl
differ_lem (suc zero) (suc zero) ha hb = refl
differ_lem (suc zero) (suc (suc b)) ha hb = absurd (omega arith)
differ_lem (suc (suc a)) b ha hb = absurd (omega arith)

zero-and : (b : ℕ) → bit_and 0 b ≡ 0
zero-and b = bit_and-bitwise 0 b

zero-or : (b : ℕ) → bit_or 0 b ≡ b
zero-or b = bit_or-bitwise 0 b

pub zero-xor : (b : ℕ) → bit_xor 0 b ≡ b
zero-xor b = bit_xor-bitwise 0 b

-- The lowest digit of each operation, and the rest.
pub xor_step : (a b : ℕ) → bit_xor a b ≡ bit_xor (a / 2) (b / 2) * 2 + (a + b) % 2
xor_step zero b = omega (arith, zero-xor b, zero-xor (b / 2))
xor_step (suc a) b =
    let low : differ (suc a % 2) (b % 2) ≡ (suc a + b) % 2 =
      differ_lem (suc a % 2) (b % 2) (omega arith) (omega arith) ∙ omega arith in
    rw (bit_xor-bitwise (suc a) b, bit_xor-bitwise (suc a / 2) (b / 2))
      (peel (λ y. y) differ a b
        ∙ ap (λ (d : ℕ). bitwise (λ y. y) differ (suc a / 2) (b / 2) * 2 + d) low)

pub and_step : (a b : ℕ) → bit_and a b ≡ bit_and (a / 2) (b / 2) * 2 + min (a % 2) (b % 2)
and_step zero b = omega (arith, zero-and b, zero-and (b / 2))
and_step (suc a) b =
    bit_and-bitwise (suc a) b
    ∙ peel (λ _. zero) min a b
    ∙ ap (λ (q : ℕ). q * 2 + min (suc a % 2) (b % 2)) (sym (bit_and-bitwise (suc a / 2) (b / 2)))

pub or_step : (a b : ℕ) → bit_or a b ≡ bit_or (a / 2) (b / 2) * 2 + max (a % 2) (b % 2)
or_step zero b = omega (arith, zero-or b, zero-or (b / 2))
or_step (suc a) b =
    bit_or-bitwise (suc a) b
    ∙ peel (λ y. y) max a b
    ∙ ap (λ (q : ℕ). q * 2 + max (suc a % 2) (b % 2)) (sym (bit_or-bitwise (suc a / 2) (b / 2)))

xor_comm_fuel : (n a b : ℕ) → a ≤ n → b ≤ n → bit_xor a b ≡ bit_xor b a
xor_comm_fuel zero zero zero p q = refl
xor_comm_fuel zero zero (suc b) p q = absurd (omega arith)
xor_comm_fuel zero (suc a) b p q = absurd (omega arith)
xor_comm_fuel (suc n) a b p q =
    omega (
      arith,
      xor_step a b,
      xor_step b a,
      xor_comm_fuel n (a / 2) (b / 2) (omega arith) (omega arith),
    )

pub xor_comm : (a b : ℕ) → bit_xor a b ≡ bit_xor b a
xor_comm a b = xor_comm_fuel (a + b) a b (omega arith) (omega arith)

pub xor-zero : (a : ℕ) → bit_xor a 0 ≡ a
xor-zero a = omega (arith, xor_comm a 0, zero-xor a)

pub xor-half : (a b : ℕ) → bit_xor a b / 2 ≡ bit_xor (a / 2) (b / 2)
xor-half a b = omega (arith, xor_step a b)

pub xor-parity : (a b : ℕ) → bit_xor a b % 2 ≡ (a + b) % 2
xor-parity a b = omega (arith, xor_step a b)

xor_assoc_fuel :
    (n a b c : ℕ) → a ≤ n → b ≤ n → c ≤ n → bit_xor (bit_xor a b) c ≡ bit_xor a (bit_xor b c)
xor_assoc_fuel zero zero b c p q r = rw (zero-xor b, zero-xor (bit_xor b c))
xor_assoc_fuel zero (suc a) b c p q r = absurd (omega arith)
xor_assoc_fuel (suc n) a b c p q r = omega (
  arith,
  xor_step (bit_xor a b) c,
  xor_step a (bit_xor b c),
  xor-parity a b,
  xor-parity b c,
  ap (λ (t : ℕ). bit_xor t (c / 2)) (xor-half a b),
  ap (bit_xor (a / 2)) (xor-half b c),
  xor_assoc_fuel n (a / 2) (b / 2) (c / 2) (omega arith) (omega arith) (omega arith),
)

pub xor_assoc : (a b c : ℕ) → bit_xor (bit_xor a b) c ≡ bit_xor a (bit_xor b c)
xor_assoc a b c = xor_assoc_fuel (a + b + c) a b c (omega arith) (omega arith) (omega arith)

xor_self_fuel : (n a : ℕ) → a ≤ n → bit_xor a a ≡ 0
xor_self_fuel zero zero p = refl
xor_self_fuel zero (suc a) p = absurd (omega arith)
xor_self_fuel (suc n) a p = omega (arith, xor_step a a, xor_self_fuel n (a / 2) (omega arith))

pub xor_self : (a : ℕ) → bit_xor a a ≡ 0
xor_self a = xor_self_fuel a a (omega arith)

-- `x ^= s` twice changes nothing.
pub xor_cancel : (a s : ℕ) → bit_xor (bit_xor a s) s ≡ a
xor_cancel a s = rw (xor_assoc a s s, xor_self s, xor-zero a)

pub xor-lt : (k a b : ℕ) → a < 2 ^ k → b < 2 ^ k → bit_xor a b < 2 ^ k
xor-lt zero zero zero p q = p
xor-lt zero zero (suc b) p q = absurd (omega arith)
xor-lt zero (suc a) b p q = absurd (omega arith)
xor-lt (suc k) a b p q = omega (
  arith,
  pow-suc 2 k,
  xor_step a b,
  xor-lt k (a / 2) (b / 2) (omega (arith, pow-suc 2 k)) (omega (arith, pow-suc 2 k)),
)

pub mul-pow-suc : (q k : ℕ) → q * 2 ^ suc k ≡ 2 * (q * 2 ^ k)
mul-pow-suc q k = omega (arith, ap (λ (t : ℕ). q * t) (pow-suc 2 k))

-- `^` of disjoint digits is a sum.
pub xor_fields : (k a q : ℕ) → a < 2 ^ k → bit_xor a (q * 2 ^ k) ≡ a + q * 2 ^ k
xor_fields zero zero q p = omega (arith, zero-xor (q * 1))
xor_fields zero (suc a) q p = absurd (omega arith)
xor_fields (suc k) a q p = omega (
  arith,
  xor_step a (q * 2 ^ suc k),
  ap (bit_xor (a / 2)) halved,
  mul-pow-suc q k,
  xor_fields k (a / 2) q (omega (arith, pow-suc 2 k)),
)
  where
    halved : q * 2 ^ suc k / 2 ≡ q * 2 ^ k
    halved = omega (arith, mul-pow-suc q k)

-- So is `|`.
pub or_fields : (k a q : ℕ) → a < 2 ^ k → bit_or a (q * 2 ^ k) ≡ a + q * 2 ^ k
or_fields zero zero q p = omega (arith, zero-or (q * 1))
or_fields zero (suc a) q p = absurd (omega arith)
or_fields (suc k) a q p = omega (
  arith,
  or_step a (q * 2 ^ suc k),
  ap (bit_or (a / 2)) halved,
  mul-pow-suc q k,
  or_fields k (a / 2) q (omega (arith, pow-suc 2 k)),
)
  where
    halved : q * 2 ^ suc k / 2 ≡ q * 2 ^ k
    halved = omega (arith, mul-pow-suc q k)

and-zero_below : (n a : ℕ) → a < n → bit_and a 0 ≡ 0
and-zero_below n zero h = zero-and 0
and-zero_below zero (suc a) h = elim h [ ]
and-zero_below (suc n) (suc a) h =
    let half : bit_and (suc a / 2) 0 ≡ 0 = and-zero_below n (suc a / 2) (omega arith) in
    omega (arith, half, and_step (suc a) 0)

mod-pow-suc : (k a : ℕ) → a % 2 ^ suc k ≡ (a / 2) % 2 ^ k * 2 + a % 2
mod-pow-suc k a =
    let low : ℕ = (a / 2) % 2 ^ k * 2 + a % 2 in
    let wide : (a / 2 / 2 ^ k) * 2 ^ suc k ≡ 2 * ((a / 2 / 2 ^ k) * 2 ^ k) =
      omega (arith, ap (λ (t : ℕ). (a / 2 / 2 ^ k) * t) (pow-suc 2 k)) in
    let whole : a ≡ low + (a / 2 / 2 ^ k) * 2 ^ suc k = omega (arith, one-le-pow k 2) in
    ap (λ (t : ℕ). t % 2 ^ suc k) whole
    ∙ add-mul-mod_self_right low (a / 2 / 2 ^ k) (2 ^ suc k)
    ∙ mod-eq_of_lt (omega (arith, one-le-pow k 2, pow-suc 2 k))

-- `x & (2 ^ k - 1)` keeps the low `k` digits.
pub and_mask : (k a : ℕ) → bit_and a (2 ^ k - 1) ≡ a % 2 ^ k
and_mask zero a = and-zero_below (suc a) a (omega arith) ∙ omega arith
and_mask (suc k) a = omega (
  arith,
  and_step a (2 ^ suc k - 1),
  halved,
  and_mask k (a / 2),
  pow-suc 2 k,
  one-le-pow k 2,
  mod-pow-suc k a,
)
  where
    halved : bit_and (a / 2) ((2 ^ suc k - 1) / 2) ≡ bit_and (a / 2) (2 ^ k - 1)
    halved = ap (bit_and (a / 2)) (omega (arith, pow-suc 2 k, one-le-pow k 2))
