-- ===== src/CoreMark/Arguments.antt =====
-- Seeds from the command line (SEED_METHOD SEED_ARG) in coremark/src/core_util.c. An `ee_s32` is its bit
-- pattern, and sums and products that it does not hold wrap around. A text is the memory from the
-- pointer on; a read behind it is `none`.
pub mod Notation
mod Tests
use takshaka.Base.{
  ℕ, zero, suc, ◌+◌, ◌-◌, ◌*◌, ◌%◌, ◌^◌, ◌==◌, ltb, leb, Bool, true, false, ◌&&◌, ◌||◌,
  if◌then◌else◌, Option, none, some, ◌>>=◌, List, [], ◌∷◌,
}

abbrev pub is_decimal : ℕ → Bool
is_decimal c = leb b'0' c && leb c b'9'

abbrev pub is_hex : ℕ → Bool
is_hex c = is_decimal c || (leb b'a' c && leb c b'f')

abbrev pub hex_digit : ℕ → ℕ
hex_digit c = if ltb 9 (c - b'0') then 10 + c - b'a' else c - b'0'

-- `while` there are digits: `retval`, and the byte behind them.
unfoldable pub hex_loop : List ℕ → (retval : ℕ) → Option (ℕ × ℕ)
hex_loop [] retval = none
hex_loop (c ∷ s) retval = elim (is_hex c) [
  | true ↦ hex_loop s ((retval * 16 + hex_digit c) % 2 ^ 32)
  | false ↦ some (retval, c)
]

unfoldable pub decimal_loop : List ℕ → (retval : ℕ) → Option (ℕ × ℕ)
decimal_loop [] retval = none
decimal_loop (c ∷ s) retval = elim (is_decimal c) [
  | true ↦ decimal_loop s ((retval * 10 + (c - b'0')) % 2 ^ 32)
  | false ↦ some (retval, c)
]

-- The qualifier and the sign.
unfoldable pub qualified : (neg : Bool) → Option (ℕ × ℕ) → Option ℕ
qualified neg read = do
  (retval, c) ← read
  let kilo = if c == b'K' then retval * 1024 % 2 ^ 32 else retval
  let mega = if c == b'M' then kilo * (1024 * 1024) % 2 ^ 32 else kilo
  some (if neg then (2 ^ 32 - mega) % 2 ^ 32 else mega)

-- Behind the sign: hexadecimal digits behind `0x`, else decimal ones.
unfoldable pub behind_sign : (neg : Bool) → List ℕ → Option ℕ
behind_sign neg [] = none
behind_sign neg (c ∷ []) = if c == b'0' then none else qualified neg (decimal_loop (c ∷ []) 0)
behind_sign neg (c ∷ x ∷ s) =
    if c == b'0' && x == b'x'
    then qualified neg (hex_loop s 0)
    else qualified neg (decimal_loop (c ∷ x ∷ s) 0)

unfoldable pub parseval : (valstring : List ℕ) → Option ℕ
parseval [] = none
parseval (c ∷ s) = if c == b'-' then behind_sign true s else behind_sign false (c ∷ s)

-- `argv` holds the `argc` texts.
unfoldable pub get_seed_args : (i : ℕ) (argv : List (List ℕ)) → Option ℕ
get_seed_args i [] = some 0
get_seed_args zero (a ∷ argv) = parseval a
get_seed_args (suc i) (a ∷ argv) = get_seed_args i argv
