-- ===== src/Rtos/Tests.antt =====
-- A kernel for the demonstration, and the theorems at concrete runs.
use takshaka.Base.{
  ℕ, ◌≤◌, ◌≡◌, refl, ltb, Bool, true, false, if◌then◌else◌, some, [], ◌∷◌, ◌++◌, length, arith,
}
use takshaka.Rtos.Plain.{plain}
use takshaka.Rtos.Demo.{
  num_items, receiving, World, calling_delay, starting, sent, sem, producer_from, consumer_from,
  main, Reachable, start, next, by_producer, by_consumer,
}
use takshaka.Rtos.Demo.Transcript.{gots, dones}
use takshaka.Rtos.Demo.Order.{Ordered, Reachable-Ordered, consumer_from-receiving}
use takshaka.Rtos.Demo.NoTick.{Reachable-no_tick}
use takshaka.Rtos.Demo.Progress.{Passes, Reachable-Passes}
use takshaka.Rtos.Timing.{TimingSample, Timing, Reads, measured, summary}
use takshaka.Rtos.Timing.Samples.{InOrder, Measures, measured-Measures}
use takshaka.Rtos.Timing.Statistics.{SmallSample, Summarises, summary-Summarises}

-- The producer sends, reports and signals its first item, and the consumer takes the signal.
abbrev signalled : (timer : Bool) → World (plain num_items)
signalled timer = record {
  kernel = record { items = 1 ∷ []; units = 0; ticks = 0 };
  producer = calling_delay 1;
  consumer = receiving;
  worker = starting;
  g_worker_ticks_seen = 0;
  g_consumed = 0;
  g_sem_taken = 1;
  out = ((main (plain num_items) timer).out ++ sent 1 ∷ []) ++ sem ∷ [];
}

signalled-Reachable : (timer : Bool) → Reachable (plain num_items) timer (signalled timer)
unfolding main producer_from consumer_from
signalled-Reachable timer =
    next _ _
      (next _ _
        (next _ _
          (next _ _ (next _ _ (next _ _ start (by_producer _ _ refl)) (by_producer _ _ refl))
            (by_producer _ _ refl))
          (by_consumer _ _ refl))
        (by_consumer _ _ refl))
      (by_consumer _ _ refl)

Reachable-Ordered_example : Ordered (signalled true).out
Reachable-Ordered_example =
    Reachable-Ordered (plain num_items) true (signalled true) (signalled-Reachable true)

consumer_from-receiving_example :
    (1 ≤ 1)
    × ((w' : World (plain num_items)) × (consumer_from (plain num_items) receiving (signalled true)
          ≡ some w'))
consumer_from-receiving_example =
    consumer_from-receiving (plain num_items) true (signalled true) (signalled-Reachable true) refl

Reachable-no_tick_example :
    (length (gots (signalled false).out) ≤ 1) × (dones (signalled false).out ≡ 0)
Reachable-no_tick_example =
    Reachable-no_tick (plain num_items) (signalled false) (signalled-Reachable false)

Reachable-Passes_example : Passes (plain num_items) (signalled true)
Reachable-Passes_example =
    Reachable-Passes (plain num_items) (signalled true) (signalled-Reachable true)

-- The counter wraps between the assertion and the entry.
abbrev reads : ℕ → Reads
reads i = record {
  at_assert = 4294967290;
  at_entry = 4294967300;
  at_start = 4294967400;
  at_end = 4294967700;
}

abbrev no_sample : TimingSample
no_sample = record {
  t_assert = 0;
  t_isr_entry = 0;
  t_task_start = 0;
  t_task_end = 0;
  lat_irq = 0;
  lat_sched = 0;
  t_exec = 0;
  resp_end_to_end = 0;
}

abbrev cleared : Timing
cleared = record { g_samples = λ x. no_sample; g_sample_idx = 0; clint_msip = 0; calls = [] }

reads-InOrder : InOrder (reads 0)
reads-InOrder = record {
  entered = omega arith;
  started = omega arith;
  ended = omega arith;
  near = omega arith;
}

measured-Measures_example : Measures (reads 2) ((measured 3 reads cleared).g_samples 2)
measured-Measures_example =
    measured-Measures 3 2 reads cleared (omega arith) (λ j. reads-InOrder) (omega arith)

abbrev samples : ℕ → TimingSample
samples i = record no_sample { lat_irq = if ltb i 10 then 7 else 9; t_exec = 300 }

samples-SmallSample : (i : ℕ) → SmallSample (samples i)
samples-SmallSample i = (ground arith, omega arith, omega arith, omega arith)

summary-Summarises_example :
    let r = summary 20 samples in
    Summarises (λ i. (samples i).lat_irq) r.irq
    × Summarises (λ i. (samples i).lat_sched) r.sched
    × Summarises (λ i. (samples i).t_exec) r.exec
    × Summarises (λ i. (samples i).resp_end_to_end) r.resp
summary-Summarises_example = summary-Summarises samples samples-SmallSample
