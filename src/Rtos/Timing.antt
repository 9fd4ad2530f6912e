-- ===== src/Rtos/Timing.antt =====
-- rtos/app/test_timing.c: the samples that the tasks and the interrupt handler take, and their summary.
-- A read of the cycle counter is an argument.
pub mod Samples
pub mod Statistics
use takshaka.Base.{
  ℕ, zero, suc, ◌+◌, ◌-◌, ◌*◌, ◌/◌, ◌%◌, ◌^◌, ◌==◌, ltb, Bool, if◌then◌else◌, List, [], ◌∷◌, ◌++◌,
  codes,
}
use takshaka.Bsp.Board.{Cmd, ◌>>◌}
use takshaka.Bsp.Uart.{uart_putc, uart_puts, uart_putdec, literal}
use takshaka.Bsp.Hooks.{sim_pass}

abbrev pub num_samples : ℕ
num_samples = 20

-- `TimingSample_t`
pub record TimingSample : Type 0 where
  pub t_assert : ℕ
  pub t_isr_entry : ℕ
  pub t_task_start : ℕ
  pub t_task_end : ℕ
  pub lat_irq : ℕ
  pub lat_sched : ℕ
  pub t_exec : ℕ
  pub resp_end_to_end : ℕ

-- The calls of the kernel.
pub data Call : Type 0 where
  delay : ℕ → Call
  notify_give_from_isr : Call
  yield_from_isr : Call
  notify_give_master : Call
  notify_take_master : ℕ → Call

-- The globals, `CLINT_MSIP`, and the calls of the kernel so far.
pub record Timing : Type 0 where
  pub g_samples : ℕ → TimingSample
  pub g_sample_idx : ℕ
  pub clint_msip : ℕ
  pub calls : List Call

-- A difference of `uint32_t`.
abbrev pub minus32 : ℕ → ℕ → ℕ
minus32 a b = (a + (2 ^ 32 - b)) % 2 ^ 32

abbrev pub set_sample : (ℕ → TimingSample) → ℕ → TimingSample → ℕ → TimingSample
set_sample g i v x = if x == i then v else g x

abbrev pub calling : Call → Timing → Timing
calling c s = record s { calls = s.calls ++ c ∷ [] }

-- `freertos_risc_v_application_interrupt_handler`
unfoldable pub timing_handler : (t_entry mcause_val : ℕ) → Timing → Timing
timing_handler t_entry mcause_val s =
    if mcause_val == 0x80000003
    then (let idx = s.g_sample_idx in
        let old = s.g_samples idx in
        let new = record old { t_isr_entry = t_entry; lat_irq = minus32 t_entry old.t_assert } in
        let samples = if ltb idx num_samples then set_sample s.g_samples idx new else s.g_samples in
        calling yield_from_isr
          (calling notify_give_from_isr (record s { clint_msip = 0; g_samples = samples })))
    else s

-- One round of `vRespondingTask`, behind its `ulTaskNotifyTake`.
unfoldable pub respond : (i t_start t_end : ℕ) → Timing → Timing
respond i t_start t_end s =
    let old = s.g_samples i in
    let new = record old {
      t_task_start = t_start;
      t_task_end = t_end;
      lat_sched = minus32 t_start old.t_isr_entry;
      t_exec = minus32 t_end t_start;
      resp_end_to_end = minus32 t_end old.t_assert;
    } in
    calling notify_give_master (record s { g_samples = set_sample s.g_samples i new })

-- The workload between the two reads of the counter, for `k` from 1 on.
unfoldable pub workload : (rounds k acc : ℕ) → ℕ
workload zero k acc = acc
workload (suc rounds) k acc = workload rounds (k + 1) ((acc * 33 + k) % 2 ^ 32)

-- One round of `vMasterTimingTask` up to its wait: `i` is at most 19.
unfoldable pub assert_sample : (i t_assert : ℕ) → Timing → Timing
assert_sample i t_assert s =
    let paced = calling (delay 2) (record s { g_sample_idx = i }) in
    record paced {
      g_samples = set_sample paced.g_samples i (record (paced.g_samples i) { t_assert = t_assert });
      clint_msip = 1;
    }

-- The values of the counter at the four reads of a round.
pub record Reads : Type 0 where
  pub at_assert : ℕ
  pub at_entry : ℕ
  pub at_start : ℕ
  pub at_end : ℕ

-- The low word of `mcycle`.
abbrev pub get_cycle_count : ℕ → ℕ
get_cycle_count c = c % 2 ^ 32

-- A round in the order in which the interrupt and the priorities of the tasks run it: the interrupt
-- comes behind the store to `CLINT_MSIP`, and the responding task before the master goes on.
abbrev pub timing_round : ℕ → Reads → Timing → Timing
timing_round i c s = calling (notify_take_master 50) (
    respond i (get_cycle_count c.at_start) (get_cycle_count c.at_end) (
      timing_handler (get_cycle_count c.at_entry) 0x80000003
        (assert_sample i (get_cycle_count c.at_assert) s)))

-- The first `n` rounds.
unfoldable pub measured : (n : ℕ) → (ℕ → Reads) → Timing → Timing
measured zero c s = s
measured (suc n) c s = timing_round n (c n) (measured n c s)

-- The minimum, the maximum and the sum of one measure.
pub record Stat : Type 0 where
  pub least : ℕ
  pub greatest : ℕ
  pub sum : ℕ

pub record Summary : Type 0 where
  pub irq : Stat
  pub sched : Stat
  pub exec : Stat
  pub resp : Stat

abbrev pub no_stat : Stat
no_stat = record { least = 0xFFFFFFFF; greatest = 0; sum = 0 }

abbrev pub add_value : ℕ → Stat → Stat
add_value v st = record {
  least = if ltb v st.least then v else st.least;
  greatest = if ltb st.greatest v then v else st.greatest;
  sum = (st.sum + v) % 2 ^ 32;
}

-- The first `n` rounds of the loop over the samples.
unfoldable pub summary : (n : ℕ) → (ℕ → TimingSample) → Summary
summary zero g = record { irq = no_stat; sched = no_stat; exec = no_stat; resp = no_stat }
summary (suc n) g =
    let before = summary n g in
    record {
      irq = add_value (g n).lat_irq before.irq;
      sched = add_value (g n).lat_sched before.sched;
      exec = add_value (g n).t_exec before.exec;
      resp = add_value (g n).resp_end_to_end before.resp;
    }

abbrev pub average : Stat → ℕ
average st = st.sum / num_samples

-- The minimum, the maximum and the average, each behind its text.
unfoldable pub put_stat : (before mid late : List ℕ) → Stat → Cmd
put_stat before mid late st =
    uart_puts (literal before)
    >> uart_putdec st.least
    >> uart_puts (literal mid)
    >> uart_putdec st.greatest
    >> uart_puts (literal late)
    >> uart_putdec (average st)

abbrev put_line : (label : List ℕ) → Stat → Cmd
put_line label st = put_stat label (codes " max=") (codes " avg=") st >> uart_putc b'\n'

abbrev put_json : (label end : List ℕ) → Stat → Cmd
put_json label end st =
    put_stat label (codes ", \"max\": ") (codes ", \"avg\": ") st >> uart_puts (literal end)

-- What the master prints behind the loop.
unfoldable pub put_summary : Summary → Cmd
put_summary r =
    uart_puts (literal (codes "\n================ TIMING MEASUREMENT SUMMARY ================\n"))
    >> uart_puts (literal (codes "Samples: 20\n"))
    >> put_line (codes "Interrupt Latency (cycles)     : min=") r.irq
    >> put_line (codes "Scheduler Latency (cycles)     : min=") r.sched
    >> put_line (codes "Task Execution Time (cycles)   : min=") r.exec
    >> put_line (codes "End-to-End Response (cycles)   : min=") r.resp
    >> uart_puts (literal (codes "\n[TIMING_JSON_START]\n"))
    >> uart_puts (literal (codes "{\n"))
    >> uart_puts (literal (codes "  \"samples\": 20,\n"))
    >> put_json (codes "  \"interrupt_latency\": {\"min\": ") (codes "},\n") r.irq
    >> put_json (codes "  \"scheduler_latency\": {\"min\": ") (codes "},\n") r.sched
    >> put_json (codes "  \"task_execution\": {\"min\": ") (codes "},\n") r.exec
    >> put_json (codes "  \"response_time\": {\"min\": ") (codes "}\n") r.resp
    >> uart_puts (literal (codes "}\n"))
    >> uart_puts (literal (codes "[TIMING_JSON_END]\n"))
    >> uart_puts (literal (codes "\n[TIMING] ALL STAGE 4 MEASUREMENTS COMPLETE!\n"))
    >> sim_pass
