-- ===== src/Rtos/Stress/Tests.antt =====
-- A scheduler for the stress test, and its theorem at a run with the overload.
use takshaka.Base.{ℕ, zero, suc, ◌+◌, refl, leb, Bool, true, false, if◌then◌else◌, none, some}
use takshaka.Rtos.Stress.{
  Scheduler, Tasks, giving, printing, periodic_from, stress_main, StressReachable, start, next,
  by_high, by_tick,
}
use takshaka.Rtos.Stress.Misses.{Justified, passes-Justified}

-- The mutex is free or taken, and the time is the number of ticks.
abbrev clocked : Scheduler
clocked = record {
  State = Bool × ℕ;
  tick_count = λ k. k.1;
  take = λ k. if k.0 then none else some (true, k.1);
  give = λ k. (false, k.1);
  delay_over = λ wake k. leb wake k.1;
  created = (false, 0);
  tick = λ k. (k.0, k.1 + 1);
}

abbrev ticked : Tasks clocked → Tasks clocked
ticked w = record w {
  shared = record w.shared { kernel = (w.shared.kernel.0, w.shared.kernel.1 + 1) };
}

abbrev late : (n : ℕ) → Tasks clocked → Tasks clocked
late zero w = w
late (suc n) w = ticked (late n w)

late-Reachable :
    (n : ℕ) (w : Tasks clocked)
    → StressReachable clocked true w
    → StressReachable clocked true (late n w)
late-Reachable zero w path = path
late-Reachable (suc n) w path = next _ _ (late-Reachable n w path) (by_tick (late n w))

abbrev at_work : Tasks clocked
at_work = record (stress_main clocked) {
  high = record { at = giving 0; next_wake = 0 };
  shared = record (stress_main clocked).shared { kernel = (true, 0); g_t1_releases = 1 };
}

at_work-Reachable : StressReachable clocked true at_work
unfolding periodic_from
at_work-Reachable =
    next _ _
      (next _ _
        (next _ _
          (next _ _ (next _ _ (next _ _ start (by_high _ _ _ refl)) (by_high _ _ _ refl))
            (by_high _ _ _ refl))
          (by_high _ _ _ refl))
        (by_high _ _ _ refl))
      (by_high _ _ _ refl)

-- The task with the higher priority gives the mutex back after 11 ticks, and has counted its miss.
abbrev counted_miss : Tasks clocked
counted_miss = record at_work {
  high = record { at = printing; next_wake = 0 };
  shared = record at_work.shared { kernel = (false, 11); g_deadline_misses = 1 };
}

counted_miss-Reachable : StressReachable clocked true counted_miss
unfolding periodic_from
counted_miss-Reachable =
    next _ _
      (next _ _
        (next _ _
          (next _ _ (next _ _ (late-Reachable 11 at_work at_work-Reachable) (by_high _ _ _ refl))
            (by_high _ _ _ refl))
          (by_high _ _ _ refl))
        (by_high _ _ _ refl))
      (by_high _ _ _ refl)

passes-Justified_example : Justified true counted_miss
passes-Justified_example = passes-Justified clocked true counted_miss counted_miss-Reachable refl
