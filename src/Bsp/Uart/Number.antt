-- ===== src/Bsp/Uart/Number.antt =====
-- `uart_putdec` sends the number that it is given.
use takshaka.Base.{
  ℕ, zero, suc, ◌+◌, ◌-◌, ◌*◌, ◌/◌, ◌%◌, ◌^◌, ◌≤◌, ◌<◌, ◌≡◌, ◌≢◌, refl, ap, ◌∙◌, sym, true, false,
  ◌==◌, ltb, leb, if◌then◌else◌, Option, some, List, [], ◌∷◌, arith, Bool-cases, ==_iff, inl, inr,
  ◌⊎◌, length, get_or,
}
use native.Mathlib.Nat.{pow-suc}
use takshaka.Bsp.Board.{Board}
use takshaka.Bsp.Uart.{uart_putc, fill_decimal, put_unsigned, uart_putdec}
use takshaka.Bsp.Uart.Sent.{frees, Sends, >>-Sends, uart_putc-Sends, put_buffer-Sends, IsBytes}

-- The number that a run of decimal digits stands for, behind the digits read so far.
abbrev pub decimal : List ℕ → ℕ → ℕ
decimal [] n = n
decimal (c ∷ s) n = decimal s (n * 10 + (c - b'0'))

abbrev pub AllDecimal : List ℕ → Type 0
AllDecimal [] = Unit
AllDecimal (c ∷ s) = (b'0' ≤ c) × (c ≤ b'9') × AllDecimal s

-- The usual decimal notation: digits only, of the right value, and no leading zero.
pub record IsDecimal (text : List ℕ) (n : ℕ) : Type 0 where
  pub digits : AllDecimal text
  pub value : decimal text 0 ≡ n
  pub canonical : (text ≡ b'0' ∷ []) ⊎ ((get_or text 0 b'0' == b'0') ≡ false)
  pub short : length text ≤ 10

record Filled (u k : ℕ) (buf : List ℕ) (r : Option (List ℕ)) : Type 0 where
  out : List ℕ
  runs : r ≡ some out
  digits : AllDecimal out
  value : decimal out 0 ≡ decimal buf u
  room : length out ≤ length buf + k
  leading : (u ≡ 0) × (out ≡ buf) ⊎ ((get_or out 0 b'0' == b'0') ≡ false)

fill_decimal-Filled :
    (fuel k u : ℕ) (buf : List ℕ)
    → u < 10 ^ k
    → k < fuel
    → length buf + k ≤ 12
    → AllDecimal buf
    → Filled u k buf (fill_decimal fuel u buf)
unfolding fill_decimal
fill_decimal-Filled zero k u buf small lt fits h = absurd (omega arith)
fill_decimal-Filled (suc fuel) zero u buf small lt fits h =
    let none_left : (u == 0) ≡ true = ground arith in
    record {
      out = buf;
      runs = rw (none_left, fill_decimal);
      digits = h;
      value = ap (decimal buf) (omega arith);
      room = omega arith;
      leading = inl (omega arith, refl);
    }
fill_decimal-Filled (suc fuel) (suc k) u buf small lt fits h = elim (Bool-cases (u == 0)) [
  | inl done ↦ record {
    out = buf;
    runs = rw (done, fill_decimal);
    digits = h;
    value = ap (decimal buf) (sym ((==_iff u 0).0 done));
    room = omega arith;
    leading = inl ((==_iff u 0).0 done, refl);
  }
  | inr more ↦
      let d : ℕ = b'0' + u % 10 in
      let roomy : ltb (length buf) 12 ≡ true = ground arith in
      let ih =
        fill_decimal-Filled fuel k (u / 10) (d ∷ buf) (omega (arith, pow-suc 10 k)) (omega arith)
          (omega arith) (omega arith, omega arith, h) in
      record {
        out = ih.out;
        runs = rw (more, roomy, fill_decimal) ih.runs;
        digits = ih.digits;
        value = ih.value ∙ ap (decimal buf) (omega arith);
        room = omega (arith, ih.room);
        leading = leads u d buf ih.out (ground arith) refl ih.leading;
      }
]
  where
    leads :
        (u d : ℕ) (buf out : List ℕ)
        → u ≢ 0
        → d ≡ b'0' + u % 10
        → (u / 10 ≡ 0) × (out ≡ d ∷ buf) ⊎ ((get_or out 0 b'0' == b'0') ≡ false)
        → (u ≡ 0) × (out ≡ buf) ⊎ ((get_or out 0 b'0' == b'0') ≡ false)
    leads u d buf out ne e (inl (small, is)) =
        inr (ap (λ (o : List ℕ). get_or o 0 b'0' == b'0') is ∙ ground arith)
    leads u d buf out ne e (inr h) = inr h

IsBytes-AllDecimal : (s : List ℕ) → AllDecimal s → IsBytes s
IsBytes-AllDecimal [] h = tt
IsBytes-AllDecimal (c ∷ s) h = (omega arith, IsBytes-AllDecimal s h.2)

canonical_of :
    (u : ℕ) (out : List ℕ)
    → (u == 0) ≡ false
    → (u ≡ 0) × (out ≡ []) ⊎ ((get_or out 0 b'0' == b'0') ≡ false)
    → (get_or out 0 b'0' == b'0') ≡ false
canonical_of u out ne (inl (is, _)) = absurd (ground arith)
canonical_of u out ne (inr h) = h

-- The text of a number, which does not depend on the board.
pub record Printed (u : ℕ) : Type 0 where
  pub text : List ℕ
  pub is : IsDecimal text u
  pub sends : (b : Board) → length text ≤ frees b.status → Sends text b (put_unsigned u b)

pub put_unsigned-Printed : (u : ℕ) → u < 10 ^ 10 → Printed u
unfolding put_unsigned
put_unsigned-Printed u small = elim (Bool-cases (u == 0)) [
  | inl nought ↦ record {
    text = b'0' ∷ [];
    is = record {
      digits = ground arith;
      value = sym ((==_iff u 0).0 nought);
      canonical = inl refl;
      short = omega arith;
    };
    sends = λ b room. rw nought (uart_putc-Sends b'0' b (omega arith) (omega arith));
  }
  | inr other ↦
      let f = fill_decimal-Filled 12 10 u [] small (omega arith) (omega arith) tt in
      record {
        text = f.out;
        is = record {
          digits = f.digits;
          value = f.value;
          canonical = inr (canonical_of u f.out other f.leading);
          short = f.room;
        };
        sends = λ b room.
            rw (other, f.runs) (put_buffer-Sends f.out b (IsBytes-AllDecimal f.out f.digits) room);
      }
]

-- A minus sign and a decimal notation.
pub record Negated (text : List ℕ) (n : ℕ) : Type 0 where
  pub rest : List ℕ
  pub shape : text ≡ b'-' ∷ rest
  pub is : IsDecimal rest n

-- The decimal notation of an `int32_t`, given by its bit pattern.
abbrev pub IsSignedDecimal : List ℕ → ℕ → Type 0
IsSignedDecimal text v = if leb (2 ^ 31) v then Negated text (2 ^ 32 - v) else IsDecimal text v

-- The text of an `int32_t`, which does not depend on the board.
pub record SignedPrinted (v : ℕ) : Type 0 where
  pub text : List ℕ
  pub is : IsSignedDecimal text v
  pub short : length text ≤ 11
  pub sends : (b : Board) → length text ≤ frees b.status → Sends text b (uart_putdec v b)

pub uart_putdec-SignedPrinted : (v : ℕ) → v < 2 ^ 32 → SignedPrinted v
unfolding uart_putdec
uart_putdec-SignedPrinted v fits = elim (Bool-cases (leb (2 ^ 31) v)) [
  | inl negative ↦
      let abs : (2 ^ 32 - v) % 2 ^ 32 ≡ 2 ^ 32 - v = ground arith in
      let p = put_unsigned-Printed (2 ^ 32 - v) (ground arith) in
      record {
        text = b'-' ∷ p.text;
        is = rw negative (record { rest = p.text; shape = refl; is = p.is });
        short = omega (arith, p.is.short);
        sends = λ b room.
            rw (negative, abs)
              (>>-Sends (b'-' ∷ []) p.text (uart_putc b'-') (put_unsigned (2 ^ 32 - v)) b
                (uart_putc-Sends b'-' b (omega arith) (omega arith)) p.sends room);
      }
  | inr positive ↦
      let p = put_unsigned-Printed v (ground arith) in
      record {
        text = p.text;
        is = rw positive p.is;
        short = omega (arith, p.is.short);
        sends = λ b room. rw positive (p.sends b room);
      }
]

-- `uart_putdec` sends the decimal notation of its argument and nothing else, for every `int32_t`,
-- within its buffer of 12 bytes, if the transmitter gets free eleven times.
pub uart_putdec-Sends :
    (v : ℕ) (b : Board)
    → v < 2 ^ 32
    → 11 ≤ frees b.status
    → (text : List ℕ) × IsSignedDecimal text v × Sends text b (uart_putdec v b)
uart_putdec-Sends v b fits room =
    let p = uart_putdec-SignedPrinted v fits in (p.text, p.is, p.sends b (omega (arith, p.short)))
