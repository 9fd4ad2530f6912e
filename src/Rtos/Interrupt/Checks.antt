-- ===== src/Rtos/Interrupt/Checks.antt =====
-- The checks pass: every interrupt is counted, and wakes the task that raised it.
use takshaka.Base.{ℕ, ◌+◌, ◌≡◌, ◌==◌, Bool, true, false, Option, some, List, [], ◌∷◌}
use takshaka.Rtos.Interrupt.{Notifications, Irq}

module _ (K : Notifications) where
  -- A round of a task that waits for the enabled interrupt.
  record Woken (task : ℕ) (s : Irq K) (r : ℕ × Irq K) : Type 0 where
    woken : r.0 == 0 ≡ false
    counted : r.1.g_sw_irq_count ≡ s.g_sw_irq_count + 1
    notified : r.1.g_sw_irq_notified ≡ s.g_sw_irq_notified + 1
    cleared : r.1.clint_msip ≡ 0
    task_kept : r.1.notified_task ≡ some task
    enabled : r.1.msie ≡ true

  -- What `n` interrupts leave.
  record Raised (n : ℕ) (s s' : Irq K) : Type 0 where
    counted : s'.g_sw_irq_count ≡ s.g_sw_irq_count + n
    notified : s'.g_sw_irq_notified ≡ s.g_sw_irq_notified + n

  -- With no interrupt left pending.
  record Competed (n : ℕ) (s : Irq K) (ok : Bool) (r : Bool × Irq K) : Type 0 where
    kept : r.0 ≡ ok
    raised : Raised n s r.1
    cleared : s.clint_msip ≡ 0 → r.1.clint_msip ≡ 0

-- The last three checks of the interrupt test.
pub record Passed (K : Notifications) (r : Option (List Bool × Irq K)) : Type 0 where
  pub after : Irq K
  pub runs : r ≡ some (true ∷ true ∷ true ∷ [], after)
  pub counted : after.g_sw_irq_count ≡ 15
  pub notified : after.g_sw_irq_notified ≡ 15
  pub cleared : after.clint_msip ≡ 0
  pub disabled : after.msie ≡ false
