-- ===== src/Rtos/Interrupt/Tests.antt =====
-- Notifications that are kept by task, and the checks of the interrupt test with them.
use takshaka.Base.{ℕ, suc, ◌≡◌, refl, false, ◌==◌, if◌then◌else◌, none, arith}
use takshaka.Rtos.Interrupt.{Notifications, Irq}

abbrev give : ℕ → (ℕ → ℕ) → ℕ → ℕ
give t k x = if x == t then suc (k x) else k x

abbrev clear : ℕ → (ℕ → ℕ) → ℕ → ℕ
clear t k x = if x == t then 0 else k x

value_given : (t : ℕ) (k : ℕ → ℕ) → give t k t ≡ suc (k t)
value_given t k = ground arith

value_cleared : (t : ℕ) (k : ℕ → ℕ) → clear t k t ≡ 0
value_cleared t k = ground arith

abbrev by_task : Notifications
by_task = record {
  State = ℕ → ℕ;
  value = λ t k. k t;
  give_from_isr = give;
  take = λ t k. (k t, clear t k);
  value_given = value_given;
  value_taken = λ t k. refl;
  value_cleared = value_cleared;
}

abbrev at_start : Irq by_task
at_start = record {
  g_sw_irq_count = 0;
  g_sw_irq_notified = 0;
  notified_task = none;
  clint_msip = 0;
  msie = false;
  kernel = λ t. 0;
}
