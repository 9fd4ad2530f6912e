-- ===== src/Bsp/Tests.antt =====
-- The theorems on the board support at concrete inputs.
use takshaka.Base.{
  ℕ, ◌+◌, ◌-◌, ◌<◌, false, ◌%◌, ◌^◌, ltb, if◌then◌else◌, refl, true, none, List, [], ◌∷◌, ◌++◌,
  arith, codes, replicate,
}
use takshaka.Bsp.Board.{Board}
use takshaka.Bsp.Uart.{uart_putdec, literal}
use takshaka.Bsp.Uart.Sent.{Sends}
use takshaka.Bsp.Uart.Number.{IsSignedDecimal, uart_putdec-Sends}
use takshaka.Bsp.Hooks.{v_assert_called, malloc_failed_hook}
use takshaka.Bsp.Hooks.Reports.{Fails, v_assert_called-Fails, malloc_failed_hook-Sends}
use takshaka.Bsp.Libc.{Memory, memmove, strncpy}
use takshaka.Bsp.Libc.Blocks.{Moved, memmove-Moved}
use takshaka.Bsp.Libc.Strings.{IsString, Copied, strncpy-Copied}

-- The transmitter is busy once, and then free.
abbrev idle : Board
idle = record {
  status = 1 ∷ replicate 40 0;
  sent = [];
  bauddiv = 2;
  tohost = none;
  interrupts = true;
  malloc_failed_count = 0;
}

uart_putdec-Sends_example :
    (text : List ℕ) × IsSignedDecimal text (2 ^ 32 - 7)
    × Sends text idle (uart_putdec (2 ^ 32 - 7) idle)
uart_putdec-Sends_example = uart_putdec-Sends (2 ^ 32 - 7) idle (omega arith) (omega arith)

v_assert_called-Fails_example :
    (text : List ℕ) × IsSignedDecimal text (12 % 2 ^ 32)
    × Fails
        (codes "\n[ASSERT] " ++ (codes "q.c" ++ (b':' ∷ (text ++ b'\n' ∷ []))))
        (record idle { interrupts = false })
        (v_assert_called (literal (codes "q.c")) 12 idle)
v_assert_called-Fails_example =
    v_assert_called-Fails (codes "q.c") 12 idle (ground arith) (omega arith)

malloc_failed_hook-Sends_example :
    Sends
      (codes "[HOOK] malloc failed\n")
      (record idle { malloc_failed_count = (0 + 1) % 2 ^ 32 })
      (malloc_failed_hook idle)
malloc_failed_hook-Sends_example = malloc_failed_hook-Sends idle (omega arith)

-- The byte at an address is the address itself, from 1 up to 9.
abbrev counting : Memory
counting a = if ltb a 10 then a else 0

counting_bytes : (a : ℕ) → counting a < 2 ^ 8
counting_bytes a = ground arith

memmove-Moved_example : Moved counting (memmove counting 3 1 5) 3 1 5
memmove-Moved_example = memmove-Moved counting 3 1 5

counting-IsString : IsString counting 7 3
counting-IsString = record { bytes = λ i h. ground arith; nul = refl }

strncpy-Copied_example : Copied counting (strncpy counting 1 7 5) 1 7 3 5
strncpy-Copied_example = strncpy-Copied 5 3 1 7 counting counting-IsString (omega arith)
