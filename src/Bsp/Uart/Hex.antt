-- ===== src/Bsp/Uart/Hex.antt =====
-- `uart_puthex` sends the number that it is given.
use takshaka.Base.{
  ℕ, zero, suc, ◌+◌, ◌-◌, ◌*◌, ◌/◌, ◌%◌, ◌^◌, ◌≤◌, ◌<◌, ◌≡◌, refl, Bool, true, ◌==◌, ltb, leb,
  if◌then◌else◌, List, [], ◌∷◌, ◌++◌, arith, check_below, check_below_sound, ◌&&◌, length, get_or,
  codes,
}
use takshaka.Bsp.Board.{Board}
use takshaka.Bsp.Uart.{uart_putc, uart_puts, literal, hex_digits, puthex_loop, uart_puthex}
use takshaka.Bsp.Uart.Sent.{frees, Sends, skip-Sends, >>-Sends, uart_putc-Sends, uart_puts-Sends}

-- The number that a run of lower-case hexadecimal digits stands for.
abbrev pub nibble : ℕ → ℕ
nibble c = if leb c b'9' then c - b'0' else c - b'a' + 10

abbrev pub hexadecimal : List ℕ → ℕ → ℕ
hexadecimal [] n = n
hexadecimal (c ∷ s) n = hexadecimal s (n * 16 + nibble c)

abbrev digit_ok : ℕ → Bool
digit_ok d = nibble (get_or hex_digits d 0) == d && ltb (get_or hex_digits d 0) 128

digit_ok_all : check_below 16 digit_ok ≡ true
unfolding check_below
digit_ok_all = refl

nibble-hex_digits :
    (d : ℕ) → d < 16 → (nibble (get_or hex_digits d 0) ≡ d) × (get_or hex_digits d 0 < 2 ^ 8)
nibble-hex_digits d h = ground (arith, check_below_sound 16 digit_ok d digit_ok_all h)

abbrev hex_text : ℕ → ℕ → List ℕ
hex_text zero v = []
hex_text (suc n) v = get_or hex_digits (v / 2 ^ (4 * n) % 16) 0 ∷ hex_text n v

puthex_loop-Sends :
    (n v : ℕ) (b : Board)
    → length (hex_text n v) ≤ frees b.status
    → Sends (hex_text n v) b (puthex_loop n v b)
unfolding puthex_loop
puthex_loop-Sends zero v b room = skip-Sends b
puthex_loop-Sends (suc n) v b room =
    let c : ℕ = get_or hex_digits (v / 2 ^ (4 * n) % 16) 0 in
    >>-Sends (c ∷ []) (hex_text n v) (uart_putc c) (puthex_loop n v) b
      (uart_putc-Sends c b (nibble-hex_digits (v / 2 ^ (4 * n) % 16) (omega arith)).1 (omega arith))
      (λ b' r. puthex_loop-Sends n v b' r) room

hexadecimal-hex_text : (v : ℕ) → v < 2 ^ 32 → hexadecimal (hex_text 8 v) 0 ≡ v
hexadecimal-hex_text v h = omega (
  arith,
  (nibble-hex_digits (v / 268435456 % 16) (omega arith)).0,
  (nibble-hex_digits (v / 16777216 % 16) (omega arith)).0,
  (nibble-hex_digits (v / 1048576 % 16) (omega arith)).0,
  (nibble-hex_digits (v / 65536 % 16) (omega arith)).0,
  (nibble-hex_digits (v / 4096 % 16) (omega arith)).0,
  (nibble-hex_digits (v / 256 % 16) (omega arith)).0,
  (nibble-hex_digits (v / 16 % 16) (omega arith)).0,
  (nibble-hex_digits (v / 1 % 16) (omega arith)).0,
)

-- `uart_puthex` sends `0x` and eight hexadecimal digits of its argument, if the transmitter gets free
-- ten times.
pub uart_puthex-Sends :
    (v : ℕ) (b : Board)
    → v < 2 ^ 32
    → 10 ≤ frees b.status
    → (text : List ℕ) × (length text ≡ 8)
      × (hexadecimal text 0 ≡ v)
      × Sends (codes "0x" ++ text) b (uart_puthex v b)
unfolding uart_puthex
uart_puthex-Sends v b fits room = (
  hex_text 8 v,
  refl,
  hexadecimal-hex_text v fits,
  >>-Sends (codes "0x") (hex_text 8 v) (uart_puts (literal (codes "0x"))) (puthex_loop 8 v) b
      (uart_puts-Sends (codes "0x") [] b (ground arith) (omega arith))
      (λ b' r. puthex_loop-Sends 8 v b' r) (omega arith),
)
