-- ===== src/CoreMark/Driver/Calibrate.antt =====
-- The choice of the number of iterations by time, in coremark/src/core_main.c, and the timed part.
pub mod Length
use takshaka.Base.{
  ℕ, ◌+◌, ◌*◌, ◌/◌, ◌%◌, ◌^◌, ◌==◌, ltb, Bool, true, false, if◌then◌else◌, Option, none, some,
  ◌>>=◌, List, [], ◌∷◌,
}
use takshaka.CoreMark.ListJoin.Bench.{CoreResults}
use takshaka.CoreMark.Port.{start_time, stop_time, get_time, time_in_secs}

-- The reads of the counter at the start and at the stop of one timed part.
abbrev pub Reads : Type 0
Reads = ℕ × ℕ

-- `get_time()` behind `start_time()` and `stop_time()`.
unfoldable pub elapsed : Reads → ℕ
elapsed (start, stop) =
    get_time (stop_time stop (start_time start (record { start_tick = 0; stop_tick = 0 })))

-- The seconds of the last part, the reads that are left, and the results.
pub record Calibrated : Type 0 where
  pub secs_passed : ℕ
  pub reads : List Reads
  pub res : CoreResults

-- The parameter is the timed part, `iterate` in `main`. Each round of the loop takes one pair of reads;
-- `none` is a lack of reads or a timed part that does not return.
module _ (run : CoreResults → Option CoreResults) where
  -- `while (secs_passed < 1)`, which makes at least one round.
  unfoldable pub calibrate_loop : List Reads → CoreResults → Option Calibrated
  calibrate_loop [] res = none
  calibrate_loop (r ∷ reads) res = do
    res' ← run (record res { iterations = res.iterations * 10 % 2 ^ 32 })
    let secs = time_in_secs (elapsed r)
    elim (ltb secs 1) [
      | true ↦ calibrate_loop reads res'
      | false ↦ some (record { secs_passed = secs; reads = reads; res = res' })
    ]

  -- The iterations behind a part of so many seconds.
  unfoldable pub scaled : (iterations secs_passed : ℕ) → ℕ
  scaled iterations secs_passed =
      let divisor = if secs_passed == 0 then 1 else secs_passed in
      iterations * (1 + 10 / divisor) % 2 ^ 32

  unfoldable pub choose_iterations : List Reads → CoreResults → Option (List Reads × CoreResults)
  choose_iterations reads res =
      if res.iterations == 0
      then (do
        c ← calibrate_loop reads (record res { iterations = 1 })
        some (c.reads, record c.res { iterations = scaled c.res.iterations c.secs_passed }))
      else some (reads, res)

  -- The benchmark proper: `total_time` and the results.
  unfoldable pub timed : List Reads → CoreResults → Option (ℕ × CoreResults)
  timed [] res = none
  timed (r ∷ reads) res = do res' ← run res; some (elapsed r, res')
