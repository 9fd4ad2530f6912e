-- ===== src/Bsp/Board.antt =====
-- What the C code sees of the board: the memory-mapped registers of rtos/bsp/bsp.h, the interrupt
-- enable, and the counter that bsp.c keeps.
use takshaka.Base.{ℕ, Bool, Option, List}

pub record Board : Type 0 where
  -- the values that later reads of UART_STATUS return, in order
  pub status : List ℕ
  -- the bytes stored to UART_TXDATA so far, in order
  pub sent : List ℕ
  pub bauddiv : ℕ
  -- what was stored to TOHOST last
  pub tohost : Option ℕ
  pub interrupts : Bool
  pub malloc_failed_count : ℕ

-- A call returns, or spins for ever in `for(;;){}` of sim_pass or sim_fail. `stuck` is a wait for a
-- transmitter that stays busy for all of `status`, or a fault.
pub data Outcome : Type 0 where
  returns : Board → Outcome
  halts : Board → Outcome
  stuck : Outcome

abbrev pub Cmd : Type 0
Cmd = Board → Outcome

abbrev pub and_then : Outcome → Cmd → Outcome
and_then (returns b) k = k b
and_then (halts b) k = halts b
and_then stuck k = stuck

infixr 5 ◌>>◌
abbrev pub ◌>>◌ : Cmd → Cmd → Cmd
m >> k = λ b. and_then (m b) k

abbrev pub skip : Cmd
skip = returns
