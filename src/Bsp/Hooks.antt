-- ===== src/Bsp/Hooks.antt =====
-- The simulation exits of rtos/bsp/bsp.c, and the hooks that the kernel calls.
pub mod Reports
use takshaka.Base.{ℕ, suc, ◌+◌, ◌%◌, ◌^◌, false, Option, none, some, List, codes}
use takshaka.Bsp.Board.{Board, Outcome, returns, halts, Cmd, and_then, ◌>>◌, skip}
use takshaka.Bsp.Uart.{uart_putc, uart_puts, uart_putdec, literal}

-- `TOHOST = 1u; for(;;){}`
unfoldable pub sim_pass : Cmd
sim_pass b = halts (record b { tohost = some 1 })

unfoldable pub sim_fail : Cmd
sim_fail b = halts (record b { tohost = some 2 })

-- `taskDISABLE_INTERRUPTS()`
abbrev pub disable_interrupts : Cmd
disable_interrupts b = returns (record b { interrupts = false })

-- `pcFile` is the memory from the pointer on.
unfoldable pub v_assert_called : List ℕ → ℕ → Cmd
v_assert_called pc_file ul_line =
    disable_interrupts
    >> uart_puts (literal (codes "\n[ASSERT] "))
    >> uart_puts pc_file
    >> uart_putc b':'
    >> uart_putdec (ul_line % 2 ^ 32)
    >> uart_putc b'\n'
    >> sim_fail

unfoldable pub application_exception_handler : Cmd
application_exception_handler =
    uart_puts (literal (codes "\n[TRAP] unexpected exception\n")) >> sim_fail

unfoldable pub application_interrupt_handler : Cmd
application_interrupt_handler =
    uart_puts (literal (codes "\n[TRAP] unexpected interrupt\n")) >> sim_fail

unfoldable pub malloc_failed_hook : Cmd
malloc_failed_hook =
    (λ b. returns (record b { malloc_failed_count = (b.malloc_failed_count + 1) % 2 ^ 32 }))
    >> uart_puts (literal (codes "[HOOK] malloc failed\n"))

-- `pcTaskName` is NULL or the memory from the pointer on.
unfoldable pub stack_overflow_hook : Option (List ℕ) → Cmd
stack_overflow_hook pc_task_name =
    disable_interrupts
    >> uart_puts (literal (codes "\n[STACK OVERFLOW] task: "))
    >> elim pc_task_name [ none ↦ skip | some name ↦ uart_puts name ]
    >> uart_putc b'\n'
    >> sim_fail
