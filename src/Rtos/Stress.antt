-- ===== src/Rtos/Stress.antt =====
-- rtos/app/test_stress.c: two periodic tasks, a background task and the master, as steps that any
-- scheduler may interleave. The increment of the shared counter of the misses is a load and a store.
pub mod Misses
mod Tests
use takshaka.Base.{
  ℕ, zero, suc, ◌+◌, ◌-◌, ◌*◌, ◌%◌, ◌^◌, ◌≡◌, ◌==◌, ltb, leb, Bool, true, false, if◌then◌else◌,
  Option, none, some, ◌>>=◌, ◌&&◌, List, [], ◌∷◌, ◌++◌, bit_xor, codes,
}
use takshaka.Bsp.Board.{Cmd, ◌>>◌}
use takshaka.Bsp.Uart.{uart_putc, uart_puts, uart_putdec, literal}
use takshaka.Bsp.Hooks.{sim_pass, sim_fail}
use takshaka.Rtos.Timing.{minus32}

-- The calls of the kernel that the tasks make: the tick count, the shared mutex, with `none` for a call
-- that still waits, and whether a task that is delayed until a tick is ready again.
pub record Scheduler : Type 1 where
  pub State : Type 0
  pub tick_count : State → ℕ
  pub take : State → Option State
  pub give : State → State
  pub delay_over : (wake : ℕ) → State → Bool
  pub created : State
  pub tick : State → State

-- The load on a core, whose result is not used: rounds `i` to `i + n - 1`.
unfoldable pub do_work : (n i acc : ℕ) → ℕ
do_work zero i acc = acc
do_work (suc n) i acc = do_work n (i + 1) (bit_xor ((acc * 1103515245 + 12345) % 2 ^ 32) i)

-- The lines of the transcript that the verdict is about.
pub data Report : Type 0 where
  deadline_miss : Report
  verdict : (pass : Bool) → Report

-- Where a periodic task is, with its `release_tick` and `finish_tick`, or with the counter that it has
-- loaded.
pub data Periodic : Type 0 where
  starting : Periodic
  testing : Periodic
  reading : Periodic
  releasing : (release_tick : ℕ) → Periodic
  taking : (release_tick : ℕ) → Periodic
  working : (release_tick : ℕ) → Periodic
  giving : (release_tick : ℕ) → Periodic
  finishing : (release_tick : ℕ) → Periodic
  comparing : (release_tick finish_tick : ℕ) → Periodic
  loading : Periodic
  storing : (loaded : ℕ) → Periodic
  printing : Periodic
  calling_delay : Periodic
  delayed : Periodic
  ended : Periodic

-- A periodic task, with its `xNextWakeTime`.
pub record Task : Type 0 where
  pub at : Periodic
  pub next_wake : ℕ

-- Where the master is, with the tick that its `vTaskDelay` ends at.
pub data Master : Type 0 where
  entering : Master
  waiting : (wake : ℕ) → Master
  evaluating : Master
  judging : (pass : Bool) → Master
  finished : Master

pub record Shared (S : Scheduler) : Type 0 where
  pub kernel : S.State
  pub g_t1_releases : ℕ
  pub g_t2_releases : ℕ
  pub g_deadline_misses : ℕ
  pub g_stress_done : Bool
  pub g_bg_counter : ℕ
  pub out : List Report

-- One line of the results.
abbrev put_count : (label : List ℕ) → ℕ → Cmd
put_count label n = uart_puts (literal label) >> uart_putdec n >> uart_putc b'\n'

abbrev passed_text : (overload : Bool) → List ℕ
passed_text true = codes "[STRESS_NEG] PASS: Deadline miss successfully caught as designed!\n"
passed_text false = codes "[STRESS] ALL SCHEDULED TASKS MET DEADLINES: PASS\n"

abbrev failed_text : (overload : Bool) → List ℕ
failed_text true = codes "[STRESS_NEG] FAIL: Overload was not detected!\n"
failed_text false = codes "[STRESS] FAIL: Deadline misses or insufficient releases\n"

module _ (S : Scheduler) where
  -- A release of the task with the higher priority, or of the other.
  abbrev released : (high : Bool) → Shared S → Shared S
  released true w = record w { g_t1_releases = w.g_t1_releases + 1 }
  released false w = record w { g_t2_releases = w.g_t2_releases + 1 }

  -- The periods are the deadlines.
  abbrev period : (high : Bool) → ℕ
  period high = if high then 10 else 25

  -- The statement at which a periodic task is. `none` is a blocked or deleted task.
  unfoldable pub periodic_from :
      (high : Bool) → Periodic → (next_wake : ℕ) → Shared S → Option (Task × Shared S)
  periodic_from high starting t w =
      some (record { at = testing; next_wake = S.tick_count w.kernel }, w)
  periodic_from high testing t w =
      some (record { at = if w.g_stress_done then ended else reading; next_wake = t }, w)
  periodic_from high reading t w =
      some (record { at = releasing (S.tick_count w.kernel); next_wake = t }, w)
  periodic_from high (releasing r) t w =
      some (record { at = taking r; next_wake = t }, released high w)
  periodic_from high (taking r) t w = do
    k ← S.take w.kernel
    some (record { at = working r; next_wake = t }, record w { kernel = k })
  periodic_from high (working r) t w = some (record { at = giving r; next_wake = t }, w)
  periodic_from high (giving r) t w =
      some (record { at = finishing r; next_wake = t }, record w { kernel = S.give w.kernel })
  periodic_from high (finishing r) t w =
      some (record { at = comparing r (S.tick_count w.kernel); next_wake = t }, w)
  periodic_from high (comparing r f) t w = some (
    record {
      at = if ltb (period high) (minus32 f r) then loading else calling_delay;
      next_wake = t;
    },
    w,
  )
  periodic_from high loading t w =
      some (record { at = storing w.g_deadline_misses; next_wake = t }, w)
  periodic_from high (storing loaded) t w =
      some (record { at = printing; next_wake = t }, record w { g_deadline_misses = loaded + 1 })
  periodic_from high printing t w =
      some (
        record { at = calling_delay; next_wake = t },
        record w { out = w.out ++ deadline_miss ∷ [] },
      )
  periodic_from high calling_delay t w =
      some (record { at = delayed; next_wake = (t + period high) % 2 ^ 32 }, w)
  periodic_from high delayed t w =
      if S.delay_over t w.kernel then some (record { at = testing; next_wake = t }, w) else none
  periodic_from high ended t w = none

  -- `g_bg_counter++`, unless the test is over.
  abbrev background_step : Shared S → Shared S
  background_step w =
      if w.g_stress_done then w else record w { g_bg_counter = (w.g_bg_counter + 1) % 2 ^ 32 }

  -- What the master decides; `overload` is the build with `NEG_OVERLOAD`.
  abbrev pub passes : (overload : Bool) → Shared S → Bool
  passes overload w =
      if overload
      then ltb 0 w.g_deadline_misses
      else w.g_deadline_misses == 0
        && (leb 6 w.g_t1_releases && (leb 2 w.g_t2_releases && ltb 0 w.g_bg_counter))

  unfoldable pub master_from : (overload : Bool) → Master → Shared S → Option (Master × Shared S)
  master_from overload entering w = some (waiting ((S.tick_count w.kernel + 80) % 2 ^ 32), w)
  master_from overload (waiting wake) w =
      if S.delay_over wake w.kernel
      then some (evaluating, record w { g_stress_done = true })
      else none
  master_from overload evaluating w = some (judging (passes overload w), w)
  master_from overload (judging pass) w =
      some (finished, record w { out = w.out ++ verdict pass ∷ [] })
  master_from overload finished w = none

  -- What the master prints of the counters, and its last line and exit.
  unfoldable pub put_results : (overload : Bool) → Shared S → Cmd
  put_results overload w =
      uart_puts (literal (codes "\n================ STRESS TEST RESULTS ================\n"))
      >> put_count (codes "Task 1 Releases (T=10ms) : ") w.g_t1_releases
      >> put_count (codes "Task 2 Releases (T=25ms) : ") w.g_t2_releases
      >> put_count (codes "Background Cycles Burned : ") w.g_bg_counter
      >> put_count (codes "Deadline Misses Detected : ") w.g_deadline_misses
      >> (if passes overload w
          then uart_puts (literal (passed_text overload)) >> sim_pass
          else uart_puts (literal (failed_text overload)) >> sim_fail)

  pub record Tasks : Type 0 where
    pub high : Task
    pub low : Task
    pub master : Master
    pub shared : Shared S

  -- `main`, up to the start of the scheduler.
  abbrev pub stress_main : Tasks
  stress_main = record {
    high = record { at = starting; next_wake = 0 };
    low = record { at = starting; next_wake = 0 };
    master = entering;
    shared = record {
      kernel = S.created;
      g_t1_releases = 0;
      g_t2_releases = 0;
      g_deadline_misses = 0;
      g_stress_done = false;
      g_bg_counter = 0;
      out = [];
    };
  }

  -- One step of the system.
  pub data StressStep (overload : Bool) : Tasks → Tasks → Type 0 where
    by_high :
        (w : Tasks) (t : Task) (s : Shared S)
        → periodic_from true w.high.at w.high.next_wake w.shared ≡ some (t, s)
        → StressStep overload w (record w { high = t; shared = s })
    by_low :
        (w : Tasks) (t : Task) (s : Shared S)
        → periodic_from false w.low.at w.low.next_wake w.shared ≡ some (t, s)
        → StressStep overload w (record w { low = t; shared = s })
    by_master :
        (w : Tasks) (m : Master) (s : Shared S)
        → master_from overload w.master w.shared ≡ some (m, s)
        → StressStep overload w (record w { master = m; shared = s })
    by_background :
        (w : Tasks) → StressStep overload w (record w { shared = background_step w.shared })
    by_tick :
        (w : Tasks)
        → StressStep overload w
            (record w { shared = record w.shared { kernel = S.tick w.shared.kernel } })

  pub data StressReachable (overload : Bool) : Tasks → Type 0 where
    start : StressReachable overload stress_main
    next :
        (w w' : Tasks)
        → StressReachable overload w
        → StressStep overload w w'
        → StressReachable overload w'
