-- ===== src/Rtos/Interrupt.antt =====
-- rtos/app/test_interrupt.c: the handler of the software interrupt, and the two tasks that raise it. A store
-- of 1 to `CLINT_MSIP` runs the handler if the interrupt is enabled in `mie`, which is what the processor
-- does with a pending interrupt.
pub mod Checks
mod Tests
use takshaka.Base.{
  ℕ, zero, suc, ◌+◌, ◌%◌, ◌^◌, ◌≡◌, ◌==◌, ltb, Bool, true, false, if◌then◌else◌, Option, none, some,
  ◌>>=◌, ◌&&◌, List, [], ◌∷◌, codes,
}
use takshaka.Bsp.Board.{Cmd, ◌>>◌, skip}
use takshaka.Bsp.Uart.{uart_putc, uart_puts, uart_puthex, literal}
use takshaka.Bsp.Hooks.{sim_fail, sim_pass}

-- The notifications of the kernel, with their documented behaviour: a give adds one to the value of the
-- task, and a take that clears the value returns what it was, which is 0 if the take runs into its limit.
pub record Notifications : Type 1 where
  pub State : Type 0
  pub value : (task : ℕ) → State → ℕ
  pub give_from_isr : (task : ℕ) → State → State
  pub take : (task : ℕ) → State → ℕ × State
  pub value_given : (t : ℕ) (k : State) → value t (give_from_isr t k) ≡ suc (value t k)
  pub value_taken : (t : ℕ) (k : State) → (take t k).0 ≡ value t k
  pub value_cleared : (t : ℕ) (k : State) → value t (take t k).1 ≡ 0

-- `report_test`
unfoldable pub report_test : (name : List ℕ) (pass : Bool) → Cmd
report_test name pass =
    uart_puts (literal (codes "[TEST] "))
    >> uart_puts (literal name)
    >> (if pass
        then uart_puts (literal (codes ": PASS\n"))
        else uart_puts (literal (codes ": FAIL\n")) >> sim_fail)

module _ (K : Notifications) where
  -- The globals, `CLINT_MSIP`, bit 3 of `mie`, and the state of the kernel.
  pub record Irq : Type 0 where
    pub g_sw_irq_count : ℕ
    pub g_sw_irq_notified : ℕ
    pub notified_task : Option ℕ
    pub clint_msip : ℕ
    pub msie : Bool
    pub kernel : K.State

  -- `freertos_risc_v_application_interrupt_handler`, and what it prints.
  unfoldable pub interrupt_handler : (mcause_val : ℕ) → Irq → Irq × Cmd
  interrupt_handler mcause_val s =
      if mcause_val == 0x80000003
      then (let counted = record s { g_sw_irq_count = s.g_sw_irq_count + 1; clint_msip = 0 } in
          elim s.notified_task [
            | none ↦ (counted, skip)
            | some task ↦ (
              record counted {
                kernel = K.give_from_isr task s.kernel;
                g_sw_irq_notified = s.g_sw_irq_notified + 1;
              },
              skip,
            )
          ])
      else (
        s,
        uart_puts (literal (codes "[ERR] Unexpected interrupt cause: "))
            >> uart_puthex mcause_val
            >> uart_putc b'\n'
            >> sim_fail,
      )

  -- `CLINT_MSIP = 1`, with the handler where the interrupt is enabled.
  unfoldable pub assert_msip : Irq → Irq
  assert_msip s =
      let pending = record s { clint_msip = 1 } in
      if s.msie then (interrupt_handler 0x80000003 pending).0 else pending

  -- `CLINT_MSIP = 1`, and the wait of the task for its notification: the value that it takes.
  unfoldable pub raise_and_take : (task : ℕ) → Irq → ℕ × Irq
  raise_and_take task s =
      let raised = assert_msip s in
      let taken = K.take task raised.kernel in (taken.0, record raised { kernel = taken.1 })

  -- The loop of `vSoftwareIrqTask`, with the rounds left. `none` is the call of `sim_fail` in a round
  -- that takes no notification.
  unfoldable pub raise_loop : (rounds task : ℕ) → Irq → Option Irq
  raise_loop zero task s = some s
  raise_loop (suc rounds) task s =
      let r = raise_and_take task s in
      elim (r.0 == 0) [ true ↦ none | false ↦ raise_loop rounds task r.1 ]

  -- `vSoftwareIrqTask`
  unfoldable pub software_irq_task : (task : ℕ) → Irq → Option Irq
  software_irq_task task s = do
    s' ← raise_loop 5 task (record s { notified_task = some task; msie = true })
    some (record s' { msie = false })

  -- The loop of `vMasterInterruptTest`, with the rounds left: `competing_ok`.
  unfoldable pub competing_loop : (rounds task : ℕ) → (competing_ok : Bool) → Irq → Bool × Irq
  competing_loop zero task competing_ok s = (competing_ok, s)
  competing_loop (suc rounds) task competing_ok s =
      let r = raise_and_take task s in
      competing_loop rounds task (if r.0 == 0 then false else competing_ok) r.1

  -- The last three checks of `vMasterInterruptTest`. The task `other` runs while it waits, which is
  -- `vSoftwareIrqTask`. `none` is a call of `sim_fail` in that task.
  unfoldable pub software_checks : (master other : ℕ) → Irq → Option (List Bool × Irq)
  software_checks master other s = do
    fired ← software_irq_task other s
    let competing =
        competing_loop 10 master true (record fired { msie = true; notified_task = some master })
    some (
      (fired.g_sw_irq_count == 5) ∷ (fired.g_sw_irq_notified == 5) ∷ competing.0 ∷ [],
      record competing.1 { msie = false },
    )
