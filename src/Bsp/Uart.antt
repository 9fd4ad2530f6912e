-- ===== src/Bsp/Uart.antt =====
-- The console functions of rtos/bsp/bsp.c.
pub mod Sent
pub mod Number
pub mod Hex
use takshaka.Base.{
  ℕ, zero, suc, ◌+◌, ◌-◌, ◌*◌, ◌/◌, ◌%◌, ◌^◌, ◌==◌, ltb, leb, if◌then◌else◌, true, false, Option,
  none, some, List, [], ◌∷◌, ◌++◌, bit_and, get_or, length, codes,
}
use takshaka.Bsp.Board.{Board, Outcome, returns, halts, stuck, Cmd, and_then, ◌>>◌, skip}

-- A string literal in memory.
abbrev pub literal : List ℕ → List ℕ
literal s = s ++ 0 ∷ []

unfoldable pub uart_init : Cmd
uart_init b = returns (record b { bauddiv = 2 })

-- `while (UART_STATUS & UART_ST_TXBUSY)`: what is left of the reads.
unfoldable pub wait_free : List ℕ → Option (List ℕ)
wait_free [] = none
wait_free (s ∷ ss) = if bit_and s 1 == 0 then some ss else wait_free ss

unfoldable pub uart_putc : ℕ → Cmd
uart_putc c b = elim (wait_free b.status) [
  | none ↦ stuck
  | some ss ↦ returns (record b { status = ss; sent = b.sent ++ (c % 2 ^ 8) ∷ [] })
]

-- The list is the memory from `s` on; a read past its end is a fault.
unfoldable pub uart_puts : List ℕ → Cmd
uart_puts [] = λ b. stuck
uart_puts (c ∷ s) = let rest = uart_puts s in if c == 0 then skip else uart_putc c >> rest

-- `while (u) { buf[i++] = '0' + u % 10; u /= 10; }`: the filled part of `buf`, last byte first. A
-- store past `buf[11]` and a lack of fuel are `none`.
unfoldable pub fill_decimal : ℕ → ℕ → List ℕ → Option (List ℕ)
fill_decimal zero u buf = none
fill_decimal (suc fuel) u buf = elim (u == 0) [
  | true ↦ some buf
  | false ↦ elim (ltb (length buf) 12) [
    | true ↦ fill_decimal fuel (u / 10) ((b'0' + u % 10) ∷ buf)
    | false ↦ none
  ]
]

-- `while (i) uart_putc(buf[--i])`.
unfoldable pub put_buffer : List ℕ → Cmd
put_buffer [] = skip
put_buffer (c ∷ buf) = uart_putc c >> put_buffer buf

-- The part of `uart_putdec` behind the sign. Twelve rounds are more than the ten digits of a `uint32_t`.
unfoldable pub put_unsigned : ℕ → Cmd
put_unsigned u =
    if u == 0
    then uart_putc b'0'
    else elim (fill_decimal 12 u []) [ none ↦ (λ b. stuck) | some buf ↦ put_buffer buf ]

-- An `int32_t` is its bit pattern.
unfoldable pub uart_putdec : ℕ → Cmd
uart_putdec v =
    if leb (2 ^ 31) v
    then uart_putc b'-' >> put_unsigned ((2 ^ 32 - v) % 2 ^ 32)
    else put_unsigned v

abbrev pub hex_digits : List ℕ
hex_digits = codes "0123456789abcdef"

-- `for (i = 28; i >= 0; i -= 4)`: with `n` rounds left, `i` is `4 * (n - 1)`.
unfoldable pub puthex_loop : ℕ → ℕ → Cmd
puthex_loop zero v = skip
puthex_loop (suc n) v = uart_putc (get_or hex_digits (v / 2 ^ (4 * n) % 16) 0) >> puthex_loop n v

unfoldable pub uart_puthex : ℕ → Cmd
uart_puthex v = uart_puts (literal (codes "0x")) >> puthex_loop 8 v
