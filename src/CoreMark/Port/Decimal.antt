-- ===== src/CoreMark/Port/Decimal.antt =====
-- `print_int` of coremark/src/core_portme.c prints a number that is not negative in decimal notation.
use takshaka.Base.{
  ℕ, zero, suc, ◌+◌, ◌/◌, ◌%◌, ◌^◌, ◌≤◌, ◌<◌, ◌≡◌, ◌≢◌, refl, ap, ◌∙◌, sym, true, false, ◌==◌, leb,
  List, [], ◌∷◌, arith, Bool-cases, ==_iff, inl, inr, ◌⊎◌, length, get_or,
}
use native.Mathlib.Nat.{pow-suc}
use takshaka.Bsp.Uart.Number.{decimal, AllDecimal, IsDecimal}
use takshaka.CoreMark.Port.{fill_buffer, print_uint, print_int}

-- The digits of `u`, of at most `k` places, before those of the buffer.
record Filled (u k : ℕ) (buf out : List ℕ) : Type 0 where
  digits : AllDecimal out
  value : decimal out 0 ≡ decimal buf u
  room : length out ≤ length buf + k
  leading : (u ≡ 0) × (out ≡ buf) ⊎ ((get_or out 0 b'0' == b'0') ≡ false)

leads :
    (u d : ℕ) (buf out : List ℕ)
    → u ≢ 0
    → d ≡ b'0' + u % 10
    → (u / 10 ≡ 0) × (out ≡ d ∷ buf) ⊎ ((get_or out 0 b'0' == b'0') ≡ false)
    → (u ≡ 0) × (out ≡ buf) ⊎ ((get_or out 0 b'0' == b'0') ≡ false)
leads u d buf out ne e (inl (small, is)) =
    inr (ap (λ (o : List ℕ). get_or o 0 b'0' == b'0') is ∙ ground arith)
leads u d buf out ne e (inr h) = inr h

fill_buffer-Filled :
    (fuel k u : ℕ) (buf : List ℕ)
    → u < 10 ^ k
    → k < fuel
    → AllDecimal buf
    → Filled u k buf (fill_buffer fuel u buf)
unfolding fill_buffer
fill_buffer-Filled zero k u buf small lt h = absurd (omega arith)
fill_buffer-Filled (suc fuel) zero u buf small lt h =
    let none_left : (u == 0) ≡ true = ground arith in
    rw (none_left, fill_buffer) (nothing_left (omega arith))
  where
    nothing_left : u ≡ 0 → Filled u 0 buf buf
    nothing_left is = record {
      digits = h;
      value = ap (decimal buf) (sym is);
      room = omega arith;
      leading = inl (is, refl);
    }
fill_buffer-Filled (suc fuel) (suc k) u buf small lt h = elim (Bool-cases (u == 0)) [
  | inl done ↦
      let is : u ≡ 0 = (==_iff u 0).0 done in
      rw (done, fill_buffer)
        (record {
          digits = h;
          value = ap (decimal buf) (sym is);
          room = omega arith;
          leading = inl (is, refl);
        })
  | inr more ↦
      let d : ℕ = b'0' + u % 10 in
      let ih =
        fill_buffer-Filled fuel k (u / 10) (d ∷ buf) (omega (arith, pow-suc 10 k)) (omega arith)
          (omega arith, omega arith, h) in
      rw (more, fill_buffer)
        (record {
          digits = ih.digits;
          value = ih.value ∙ ap (decimal buf) (omega arith);
          room = omega (arith, ih.room);
          leading =
              leads u d buf (fill_buffer fuel (u / 10) (d ∷ buf)) (ground arith) refl ih.leading;
        })
]

first_of :
    (u : ℕ) (out : List ℕ)
    → (u == 0) ≡ false
    → (u ≡ 0) × (out ≡ []) ⊎ ((get_or out 0 b'0' == b'0') ≡ false)
    → (get_or out 0 b'0' == b'0') ≡ false
first_of u out ne (inl (is, _)) = absurd (ground arith)
first_of u out ne (inr h) = h

-- The notation of an `int` that is not negative.
pub print_int-IsDecimal : (v : ℕ) → v < 2 ^ 31 → IsDecimal (print_int v) v
unfolding print_int print_uint
print_int-IsDecimal v small =
    let positive : leb (2 ^ 31) v ≡ false = ground (arith, small) in
    elim (Bool-cases (v == 0)) [
      | inl nought ↦
          let is : v ≡ 0 = (==_iff v 0).0 nought in
          rw (positive, nought)
            (record {
              digits = (omega arith, omega arith, tt);
              value = sym is;
              canonical = inl refl;
              short = omega arith;
            })
      | inr more ↦
          let f = fill_buffer-Filled 20 10 v [] (omega (arith, small)) (omega arith) tt in
          rw (positive, more)
            (record {
              digits = f.digits;
              value = f.value;
              canonical = inr (first_of v (fill_buffer 20 v []) more f.leading);
              short = f.room;
            })
    ]
