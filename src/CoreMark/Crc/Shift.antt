-- ===== src/CoreMark/Crc/Shift.antt =====
-- The checksum against its description as a shift register with the reflected polynomial 0xa001.
use takshaka.Base.{
  ℕ, zero, suc, ◌+◌, ◌*◌, ◌/◌, ◌%◌, ◌^◌, ◌<◌, ◌≡◌, ◌≢◌, refl, ap, ◌∙◌, sym, bit_and, bit_or,
  bit_xor, ◌==◌, if◌then◌else◌, arith,
}
use takshaka.Base.Bits.{
  xor_comm, xor_assoc, xor_cancel, zero-xor, xor-zero, mul-pow-suc, xor-half, xor-parity, xor-lt,
  xor_fields, or_fields, and_mask,
}
use native.Mathlib.Nat.{zero-add, suc-add, pow-suc, one-le-pow}
use takshaka.CoreMark.Crc.{crcu8_round, crcu8_loop, crcu8, crcu16, crc16, crcu32}

-- One step of the register.
unfoldable pub shift : ℕ → ℕ
shift r = if r % 2 == 1 then bit_xor (r / 2) 0xa001 else r / 2

unfoldable pub shifts : ℕ → ℕ → ℕ
shifts zero r = r
shifts (suc n) r = shifts n (shift r)

shift-lt : (r : ℕ) → r < 2 ^ 16 → shift r < 2 ^ 16
unfolding shift
shift-lt r h = ground (arith, xor-lt 16 (r / 2) 0xa001)

pub shifts-lt : (n r : ℕ) → r < 2 ^ 16 → shifts n r < 2 ^ 16
unfolding shifts
shifts-lt zero r h = h
shifts-lt (suc n) r h = shifts-lt n (shift r) (shift-lt r h)

-- The bits of the loop, as arithmetic.
bit_xor_digits : (a b : ℕ) → a < 2 → b < 2 → bit_xor a b ≡ (a + b) % 2
bit_xor_digits zero b p q = omega (arith, zero-xor b)
bit_xor_digits (suc zero) zero p q = refl
bit_xor_digits (suc zero) (suc zero) p q = refl
bit_xor_digits (suc zero) (suc (suc b)) p q = absurd (omega arith)
bit_xor_digits (suc (suc a)) b p q = absurd (omega arith)

x16_lem : (d c : ℕ) → bit_xor (bit_and d 1) (bit_and (c % 2 ^ 8) 1) ≡ bit_xor c d % 2
x16_lem d c =
    rw (and_mask 1 d, and_mask 1 (c % 2 ^ 8))
      (omega
        (arith, xor-parity c d, bit_xor_digits (d % 2) (c % 2 ^ 8 % 2) (omega arith) (omega arith)))

carry_lem : (c : ℕ) → c < 2 ^ 16 → bit_or (bit_xor c 0x4002 / 2) 0x8000 ≡ bit_xor (c / 2) 0xa001
carry_lem c h =
    let low : ℕ = bit_xor (c / 2) 0x2001 in
    let small : low < 2 ^ 15 = xor-lt 15 (c / 2) 0x2001 (omega arith) (omega arith) in
    ap (λ (t : ℕ). bit_or t 0x8000) (xor-half c 0x4002)
    ∙ or_fields 15 low 1 small
    ∙ sym (xor_fields 15 low 1 small)
    ∙ xor_assoc (c / 2) 0x2001 0x8000

no_carry_lem : (c : ℕ) → c < 2 ^ 16 → bit_and (c / 2) 0x7fff ≡ c / 2
no_carry_lem c h = omega (arith, and_mask 15 (c / 2))

swap_last : (a b c : ℕ) → bit_xor (bit_xor a b) c ≡ bit_xor (bit_xor a c) b
swap_last a b c = xor_assoc a b c ∙ ap (bit_xor a) (xor_comm b c) ∙ sym (xor_assoc a c b)

-- Digits that are still `n` steps away do not meet the polynomial.
shift-xor : (x y : ℕ) → shift (bit_xor x (y * 2)) ≡ bit_xor (shift x) y
unfolding shift
shift-xor x y =
    let half : bit_xor x (y * 2) / 2 ≡ bit_xor (x / 2) y =
      xor-half x (y * 2) ∙ ap (bit_xor (x / 2)) (omega arith) in
    let parity : bit_xor x (y * 2) % 2 ≡ x % 2 = omega (arith, xor-parity x (y * 2)) in
    rw (half, parity) (ground (arith, swap_last (x / 2) y 0xa001))

pub shifts-xor : (n x y : ℕ) → shifts n (bit_xor x (y * 2 ^ n)) ≡ bit_xor (shifts n x) y
unfolding shifts
shifts-xor zero x y = ap (bit_xor x) (omega arith)
shifts-xor (suc n) x y =
    ap (shifts n) (
      ap (λ (t : ℕ). shift (bit_xor x t)) (omega (arith, mul-pow-suc y n))
      ∙ shift-xor x (y * 2 ^ n))
    ∙ shifts-xor n (shift x) y

pub shifts-add : (m n r : ℕ) → shifts (m + n) r ≡ shifts n (shifts m r)
unfolding shifts
shifts-add zero n r = rw zero-add
shifts-add (suc m) n r = rw suc-add (shifts-add m n (shift r))

-- A round of the loop is a step of the register `crc ^ byte`.
crcu8_round-shift : (d c : ℕ) → c < 2 ^ 16 → bit_xor (crcu8_round d c) (d / 2) ≡ shift (bit_xor c d)
unfolding crcu8_round shift
crcu8_round-shift d c h =
    rw (x16_lem d c, carry_lem c h, no_carry_lem c h, xor-half c d)
      (ground (arith, swap_last (c / 2) (d / 2) 0xa001))

crcu8_round-lt : (d c : ℕ) → c < 2 ^ 16 → crcu8_round d c < 2 ^ 16
unfolding crcu8_round
crcu8_round-lt d c h =
    rw (carry_lem c h, no_carry_lem c h) (ground (arith, xor-lt 16 (c / 2) 0xa001))

crcu8_loop-shifts : (n d c : ℕ) → d < 2 ^ n → c < 2 ^ 16 → crcu8_loop n d c ≡ shifts n (bit_xor c d)
unfolding crcu8_loop shifts
crcu8_loop-shifts zero zero c p q = sym (xor-zero c)
crcu8_loop-shifts zero (suc d) c p q = absurd (omega arith)
crcu8_loop-shifts (suc n) d c p q =
    crcu8_loop-shifts n (d / 2) (crcu8_round d c) (omega (arith, pow-suc 2 n))
      (crcu8_round-lt d c q)
    ∙ ap (shifts n) (crcu8_round-shift d c q)

-- For a byte and a 16-bit register, `crcu8` shifts `crc ^ data` eight times.
pub crcu8-shifts : (d c : ℕ) → d < 2 ^ 8 → c < 2 ^ 16 → crcu8 d c ≡ shifts 8 (bit_xor c d)
unfolding crcu8
crcu8-shifts d c p q = crcu8_loop-shifts 8 d c p q

xor-split : (c n : ℕ) (k : ℕ) → bit_xor c n ≡ bit_xor (bit_xor c (n % 2 ^ k)) (n / 2 ^ k * 2 ^ k)
xor-split c n k =
    ap (bit_xor c)
      (sym (xor_fields k (n % 2 ^ k) (n / 2 ^ k) (omega (arith, one-le-pow k 2)) ∙ omega arith))
    ∙ sym (xor_assoc c (n % 2 ^ k) (n / 2 ^ k * 2 ^ k))

-- The low `k` digits go in first, then the others: the register takes the whole value.
two_parts :
    (n k c v : ℕ)
    → shifts n (bit_xor (shifts k (bit_xor c (v % 2 ^ k))) (v / 2 ^ k))
      ≡ shifts (k + n) (bit_xor c v)
two_parts n k c v =
    ap (shifts n) (
      sym (shifts-xor k (bit_xor c (v % 2 ^ k)) (v / 2 ^ k))
      ∙ ap (shifts k) (sym (xor-split c v k)))
    ∙ sym (shifts-add k n (bit_xor c v))

-- For 16-bit values, `crcu16` shifts `crc ^ newval` sixteen times.
pub crcu16-shifts : (v c : ℕ) → v < 2 ^ 16 → c < 2 ^ 16 → crcu16 v c ≡ shifts 16 (bit_xor c v)
unfolding crcu16
crcu16-shifts v c p q =
    let low : crcu8 (v % 2 ^ 8) c ≡ shifts 8 (bit_xor c (v % 2 ^ 8)) =
      crcu8-shifts (v % 2 ^ 8) c (omega arith) q in
    let fits : shifts 8 (bit_xor c (v % 2 ^ 8)) < 2 ^ 16 =
      shifts-lt 8 _ (xor-lt 16 c (v % 2 ^ 8) q (omega arith)) in
    let high : v / 2 ^ 8 % 2 ^ 8 ≡ v / 2 ^ 8 = omega arith in
    rw (low, high) (crcu8-shifts (v / 2 ^ 8) _ (omega arith) fits ∙ two_parts 8 8 c v)

-- For a 32-bit value and a 16-bit register, `crcu32` shifts `crc ^ newval` 32 times.
pub crcu32-shifts : (v c : ℕ) → v < 2 ^ 32 → c < 2 ^ 16 → crcu32 v c ≡ shifts 32 (bit_xor c v)
unfolding crcu32 crc16
crcu32-shifts v c p q =
    let low : crcu16 (v % 2 ^ 16) c ≡ shifts 16 (bit_xor c (v % 2 ^ 16)) =
      crcu16-shifts (v % 2 ^ 16) c (omega arith) q in
    let fits : shifts 16 (bit_xor c (v % 2 ^ 16)) < 2 ^ 16 =
      shifts-lt 16 _ (xor-lt 16 c (v % 2 ^ 16) q (omega arith)) in
    let high : v / 2 ^ 16 % 2 ^ 16 ≡ v / 2 ^ 16 = omega arith in
    rw (low, high) (crcu16-shifts (v / 2 ^ 16) _ (omega arith) fits ∙ two_parts 16 16 c v)

-- The top digit of the new register says whether the polynomial was added.
added : (x : ℕ) → x < 2 ^ 15 → bit_xor x 0xa001 ≡ bit_xor x 0x2001 + 2 ^ 15
added x h =
    let small : bit_xor x 0x2001 < 2 ^ 15 = xor-lt 15 x 0x2001 h (omega arith) in
    sym (xor_assoc x 0x2001 0x8000) ∙ xor_fields 15 (bit_xor x 0x2001) 1 small

xor_right_injective : (a b s : ℕ) → bit_xor a s ≡ bit_xor b s → a ≡ b
xor_right_injective a b s h = sym (xor_cancel a s) ∙ ap (λ (t : ℕ). bit_xor t s) h ∙ xor_cancel b s

shift-injective : (r s : ℕ) → r < 2 ^ 16 → s < 2 ^ 16 → shift r ≡ shift s → r ≡ s
unfolding shift
shift-injective r s p q h = ground (
  arith,
  added (r / 2),
  added (s / 2),
  xor-lt 15 (r / 2) 0x2001,
  xor-lt 15 (s / 2) 0x2001,
  xor_right_injective (r / 2) (s / 2) 0xa001,
)

shifts-injective : (n r s : ℕ) → r < 2 ^ 16 → s < 2 ^ 16 → shifts n r ≡ shifts n s → r ≡ s
unfolding shifts
shifts-injective zero r s p q h = h
shifts-injective (suc n) r s p q h =
    shift-injective r s p q (shifts-injective n (shift r) (shift s) (shift-lt r p) (shift-lt s q) h)

crcu16-injective :
    (v w c : ℕ) → v < 2 ^ 16 → w < 2 ^ 16 → c < 2 ^ 16 → crcu16 v c ≡ crcu16 w c → v ≡ w
crcu16-injective v w c p q r h = xor_right_injective v w c (
    xor_comm v c
    ∙ shifts-injective 16 (bit_xor c v) (bit_xor c w) (xor-lt 16 c v r p) (xor-lt 16 c w r q)
        (sym (crcu16-shifts v c p r) ∙ h ∙ crcu16-shifts w c q r)
    ∙ xor_comm c w)

-- From one 16-bit register, two different 16-bit values leave different checksums.
pub crcu16-ne : (v w c : ℕ) → v < 2 ^ 16 → w < 2 ^ 16 → c < 2 ^ 16 → v ≢ w → crcu16 v c ≢ crcu16 w c
crcu16-ne v w c p q r ne e = ne (crcu16-injective v w c p q r e)
