-- ===== src/CoreMark/Arguments/Notation.antt =====
-- The numbers that `parseval` of coremark/src/core_util.c reads.
use takshaka.Base.{
  ℕ, ◌+◌, ◌-◌, ◌*◌, ◌%◌, ◌^◌, ◌≡◌, ◌≢◌, refl, ap, ◌∙◌, ◌==◌, Bool, true, false, ◌&&◌, ◌||◌, leb,
  if◌then◌else◌, some, List, [], ◌∷◌, ◌++◌, arith,
}
use takshaka.CoreMark.Arguments.{
  hex_digit, hex_loop, decimal_loop, qualified, behind_sign, parseval,
}

-- The digits of a number, and whether they are hexadecimal.
pub data Digits : Type 0 where
  decimal : List ℕ → Digits
  hexadecimal : List ℕ → Digits

-- The digits of the two notations, and what they stand for.
abbrev pub is_figure : ℕ → Bool
is_figure c = leb b'0' c && leb c b'9'

abbrev pub is_letter : ℕ → Bool
is_letter c = leb b'a' c && leb c b'f'

abbrev pub digit_value : ℕ → ℕ
digit_value c = if is_letter c then 10 + (c - b'a') else c - b'0'

abbrev pub AllDecimal : List ℕ → Type 0
AllDecimal [] = Unit
AllDecimal (c ∷ s) = (is_figure c ≡ true) × AllDecimal s

abbrev pub AllHex : List ℕ → Type 0
AllHex [] = Unit
AllHex (c ∷ s) = ((is_figure c || is_letter c) ≡ true) × AllHex s

abbrev pub value_of : (base before : ℕ) → List ℕ → ℕ
value_of base before [] = before
value_of base before (c ∷ s) = value_of base (before * base + digit_value c) s

-- A minus sign or none, the digits, and what follows.
abbrev pub signed_before : Bool → List ℕ → List ℕ
signed_before true s = b'-' ∷ s
signed_before false s = s

abbrev pub digits_before : Digits → List ℕ → List ℕ
digits_before (decimal ds) s = ds ++ s
digits_before (hexadecimal ds) s = b'0' ∷ b'x' ∷ (ds ++ s)

abbrev pub magnitude_of : Digits → ℕ
magnitude_of (decimal ds) = value_of 10 0 ds
magnitude_of (hexadecimal ds) = value_of 16 0 ds

-- What the byte behind the digits multiplies by.
abbrev pub scale : ℕ → ℕ
scale c = if c == b'K' then 1024 else if c == b'M' then 1024 * 1024 else 1

-- There is a digit, and the byte `c` behind the digits is none; a single 0 is not followed by an x.
abbrev pub IsNotation : Digits → (c : ℕ) → Type 0
IsNotation (decimal []) c = ⊥
IsNotation (decimal (d ∷ ds)) c = AllDecimal (d ∷ ds) × (is_figure c ≡ false) × (c ≢ b'x')
IsNotation (hexadecimal ds) c = AllHex ds × ((is_figure c || is_letter c) ≡ false)

decimal_loop_lem :
    (ds : List ℕ) (n c : ℕ) (s : List ℕ)
    → AllDecimal ds
    → is_figure c ≡ false
    → decimal_loop (ds ++ c ∷ s) (n % 2 ^ 32) ≡ some (value_of 10 n ds % 2 ^ 32, c)
unfolding decimal_loop
decimal_loop_lem [] n c s h stop = rw (decimal_loop, stop) refl
decimal_loop_lem (d ∷ ds) n c s (digit, h) stop =
    let same : (n % 2 ^ 32 * 10 + (d - b'0')) % 2 ^ 32 ≡ (n * 10 + digit_value d) % 2 ^ 32 =
      ground arith in
    rw (decimal_loop, digit, same) (decimal_loop_lem ds (n * 10 + digit_value d) c s h stop)

hex_loop_lem :
    (ds : List ℕ) (n c : ℕ) (s : List ℕ)
    → AllHex ds
    → (is_figure c || is_letter c) ≡ false
    → hex_loop (ds ++ c ∷ s) (n % 2 ^ 32) ≡ some (value_of 16 n ds % 2 ^ 32, c)
unfolding hex_loop
hex_loop_lem [] n c s h stop = rw (hex_loop, stop) refl
hex_loop_lem (d ∷ ds) n c s (digit, h) stop =
    let same : (n % 2 ^ 32 * 16 + hex_digit d) % 2 ^ 32 ≡ (n * 16 + digit_value d) % 2 ^ 32 =
      ground arith in
    rw (hex_loop, digit, same) (hex_loop_lem ds (n * 16 + digit_value d) c s h stop)

-- The 32-bit pattern of a number or of its negative.
abbrev pub bits_of : (neg : Bool) (n : ℕ) → ℕ
bits_of neg n = if neg then (2 ^ 32 - n % 2 ^ 32) % 2 ^ 32 else n % 2 ^ 32

qualified_lem :
    (neg : Bool) (n c : ℕ) → qualified neg (some (n % 2 ^ 32, c)) ≡ some (bits_of neg (n * scale c))
unfolding qualified
qualified_lem true n c = ground arith
qualified_lem false n c = ground arith

behind_sign_lem :
    (neg : Bool) (ds : Digits) (c : ℕ) (s : List ℕ)
    → IsNotation ds c
    → behind_sign neg (digits_before ds (c ∷ s)) ≡ some (bits_of neg (magnitude_of ds * scale c))
unfolding behind_sign
behind_sign_lem neg (decimal []) c s h = absurd h
behind_sign_lem neg (decimal (d ∷ [])) c s (h, stop, not_x) =
    let no_prefix : (d == b'0' && c == b'x') ≡ false = ground (arith, not_x) in
    rw no_prefix (
      ap (qualified neg) (decimal_loop_lem (d ∷ []) 0 c s h stop)
      ∙ qualified_lem neg (value_of 10 0 (d ∷ [])) c)
behind_sign_lem neg (decimal (d ∷ e ∷ ds)) c s (h, stop, not_x) =
    let digit : is_figure e ≡ true = h.1.0 in
    let no_prefix : (d == b'0' && e == b'x') ≡ false = ground arith in
    rw no_prefix (
      ap (qualified neg) (decimal_loop_lem (d ∷ e ∷ ds) 0 c s h stop)
      ∙ qualified_lem neg (value_of 10 0 (d ∷ e ∷ ds)) c)
behind_sign_lem neg (hexadecimal ds) c s (h, stop) =
    ap (qualified neg) (hex_loop_lem ds 0 c s h stop) ∙ qualified_lem neg (value_of 16 0 ds) c

-- `parseval` reads a decimal number, or behind 0x a hexadecimal one, with its sign and a qualifier K or M,
-- modulo 2 ^ 32.
pub parseval-pattern :
    (neg : Bool) (ds : Digits) (c : ℕ) (s : List ℕ)
    → IsNotation ds c
    → parseval (signed_before neg (digits_before ds (c ∷ s)))
      ≡ some (bits_of neg (magnitude_of ds * scale c))
unfolding parseval
parseval-pattern true ds c s h = behind_sign_lem true ds c s h
parseval-pattern false (decimal []) c s h = absurd h
parseval-pattern false (decimal (d ∷ ds)) c s h =
    let digit : is_figure d ≡ true = h.0.0 in
    let not_minus : (d == b'-') ≡ false = ground arith in
    rw not_minus (behind_sign_lem false (decimal (d ∷ ds)) c s h)
parseval-pattern false (hexadecimal ds) c s h = behind_sign_lem false (hexadecimal ds) c s h
