-- ===== src/Dhrystone/Score.antt =====
-- The score that the main of dhrystone/src/dhry_1.c computes from the elapsed time.
use takshaka.Base.{ℕ, ◌+◌, ◌*◌, ◌/◌, ◌%◌, ◌^◌, ◌≤◌, ◌<◌, ◌≡◌, refl, ltb, if◌then◌else◌, true, arith}
use native.Mathlib.Nat.{div-mul-le_self, div-lt_iff_lt-mul, mod-lt, div-add-mod', mod-eq_of_lt}

abbrev pub clk_freq_hz : ℕ
clk_freq_hz = 100000000

pub record Score : Type 0 where
  pub cycles_per_iter : ℕ
  pub us_per_run : ℕ
  pub dhrystones_per_sec : ℕ
  pub dmips : ℕ
  pub dmips_frac : ℕ
  pub dmips_mhz : ℕ
  pub dmips_mhz_frac : ℕ

-- `number_of_runs` is the positive `int`, and `elapsed` the difference of two reads of `mtime`.
unfoldable pub score : (number_of_runs elapsed : ℕ) → Score
score number_of_runs elapsed =
    let clocked = number_of_runs * clk_freq_hz % 2 ^ 64 in
    let dhrystones_per_sec = if ltb 0 elapsed then clocked / elapsed % 2 ^ 32 else 0 in
    let us_per_run = if ltb 0 elapsed then elapsed * 1000000 % 2 ^ 64 / clocked % 2 ^ 32 else 0 in
    let mhz = clk_freq_hz / 1000000 in
    let dps_per_mhz = if ltb 0 mhz then dhrystones_per_sec / mhz else 0 in
    record {
      cycles_per_iter = if ltb 0 elapsed then elapsed / number_of_runs else 0;
      us_per_run = us_per_run;
      dhrystones_per_sec = dhrystones_per_sec;
      dmips = dhrystones_per_sec / 1757;
      dmips_frac = dhrystones_per_sec % 1757 * 1000 % 2 ^ 32 / 1757;
      dmips_mhz = dps_per_mhz / 1757;
      dmips_mhz_frac = dps_per_mhz % 1757 * 1000 % 2 ^ 32 / 1757;
    }

-- The rate is the quotient of the runs and the time in seconds, rounded down; the two ratings are it, and
-- it for each of the 100 MHz, in thousandths of 1757, rounded down; the time of a run is in microseconds.
pub record Rates (number_of_runs elapsed : ℕ) (r : Score) : Type 0 where
  pub at_least : r.dhrystones_per_sec * elapsed ≤ number_of_runs * clk_freq_hz
  pub below : number_of_runs * clk_freq_hz < (r.dhrystones_per_sec + 1) * elapsed
  pub dmips : r.dmips * 1000 + r.dmips_frac ≡ r.dhrystones_per_sec * 1000 / 1757
  pub dmips_frac : r.dmips_frac < 1000
  pub dmips_mhz : r.dmips_mhz * 1000 + r.dmips_mhz_frac ≡ r.dhrystones_per_sec / 100 * 1000 / 1757
  pub dmips_mhz_frac : r.dmips_mhz_frac < 1000
  pub us_per_run : r.us_per_run ≡ elapsed * 1000000 / (number_of_runs * clk_freq_hz)
  pub cycles : r.cycles_per_iter * number_of_runs ≤ elapsed

thousandths : (d : ℕ) → d / 1757 * 1000 + d % 1757 * 1000 % 2 ^ 32 / 1757 ≡ d * 1000 / 1757
thousandths d = omega arith

-- For a positive number of runs below 2 ^ 31 and an elapsed time below 2 ^ 32 that is long enough that the
-- rate is below 2 ^ 32, the score has the rate, the two ratings and the time of a run, without an overflow.
pub score-Rates :
    (number_of_runs elapsed : ℕ)
    → 1 ≤ number_of_runs
    → number_of_runs < 2 ^ 31
    → 1 ≤ elapsed
    → elapsed < 2 ^ 32
    → number_of_runs * clk_freq_hz < elapsed * 2 ^ 32
    → Rates number_of_runs elapsed (score number_of_runs elapsed)
unfolding score
score-Rates n e runs_pos few some_time short long =
    let q = n * clk_freq_hz / e in
    let small : q < 2 ^ 32 = (div-lt_iff_lt-mul some_time).1 (omega (arith, long)) in
    let positive : ltb 0 e ≡ true = ground (arith, some_time) in
    let no_wrap : n * clk_freq_hz % 2 ^ 64 ≡ n * clk_freq_hz = omega (arith, few) in
    let rest = mod-lt (n * clk_freq_hz) {m = e} some_time in
    let split = div-add-mod' (n * clk_freq_hz) e in
    let no_wrap_us : e * 1000000 % 2 ^ 64 ≡ e * 1000000 = omega (arith, short) in
    let small_us : e * 1000000 / (n * clk_freq_hz) < 2 ^ 32 =
      (div-lt_iff_lt-mul (omega (arith, runs_pos))).1 (omega (arith, runs_pos, short)) in
    rw (positive, no_wrap, no_wrap_us, mod-eq_of_lt small, mod-eq_of_lt small_us)
      (record {
        at_least = div-mul-le_self (n * clk_freq_hz) e;
        below = grind (arith, rest, split);
        dmips = thousandths q;
        dmips_frac = omega arith;
        dmips_mhz = thousandths (q / 100);
        dmips_mhz_frac = omega arith;
        us_per_run = refl;
        cycles = div-mul-le_self e n;
      })
