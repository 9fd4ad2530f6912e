-- ===== src/CoreMark/Driver/Calibrate/Length.antt =====
-- How long the run is that the time-based choice of the iterations makes.
use takshaka.Base.{
  ℕ, zero, suc, ◌+◌, ◌*◌, ◌/◌, ◌%◌, ◌^◌, ◌≤◌, ◌<◌, ◌==◌, ltb, ◌≡◌, refl, ap, ◌∙◌, false, true, Bool,
  ◌&&◌, Option-cases, Option, none, some, List, [], ◌∷◌, arith, Bool-cases, inl, inr, ltb→lt,
  length,
}
use native.Mathlib.Nat.{pow-suc, div-le_self, mod-eq_of_lt}
use takshaka.CoreMark.ListJoin.Bench.{CoreResults}
use takshaka.CoreMark.Port.{start_time, stop_time, get_time, time_in_secs, ticks_per_sec}
use takshaka.CoreMark.Driver.Calibrate.{
  Reads, elapsed, Calibrated, calibrate_loop, scaled, choose_iterations,
}

-- Every part takes `c` ticks for each of its iterations, where `n` is their number before.
abbrev pub Steady : (c n : ℕ) → List Reads → Type 0
Steady c n [] = Unit
Steady c n (r ∷ reads) = (r.1 ≡ r.0 + c * (n * 10)) × Steady c (n * 10) reads

elapsed_short : (r : Reads) (t : ℕ) → r.1 ≡ r.0 + t → t < 2 ^ 32 → elapsed r ≡ t
unfolding elapsed get_time start_time stop_time
elapsed_short r t e small = omega arith

-- A part of `t` ticks took `s` seconds.
factor_bounds :
    (s t : ℕ)
    → s ≡ t / ticks_per_sec
    → 1 ≤ s
    → s ≤ 9
    → (11 * ticks_per_sec ≤ t * (1 + 10 / s)) × (t * (1 + 10 / s) < 22 * ticks_per_sec)
factor_bounds zero t e low high = absurd (omega arith)
factor_bounds (suc zero) t e low high = omega arith
factor_bounds (suc (suc zero)) t e low high = omega arith
factor_bounds (suc (suc (suc zero))) t e low high = omega arith
factor_bounds (suc (suc (suc (suc zero)))) t e low high = omega arith
factor_bounds (suc (suc (suc (suc (suc zero))))) t e low high = omega arith
factor_bounds (suc (suc (suc (suc (suc (suc zero)))))) t e low high = omega arith
factor_bounds (suc (suc (suc (suc (suc (suc (suc zero))))))) t e low high = omega arith
factor_bounds (suc (suc (suc (suc (suc (suc (suc (suc zero)))))))) t e low high = omega arith
factor_bounds (suc (suc (suc (suc (suc (suc (suc (suc (suc zero))))))))) t e low high = omega arith
factor_bounds (suc (suc (suc (suc (suc (suc (suc (suc (suc (suc s)))))))))) t e low high =
    absurd (omega arith)

-- Every part, with ten times the iterations of the one before, returns and leaves their number.
unfoldable pub proceeds : (CoreResults → Option CoreResults) → List Reads → CoreResults → Bool
proceeds run [] res = true
proceeds run (r ∷ reads) res =
    elim (run (record res { iterations = res.iterations * 10 % 2 ^ 32 })) [
      | none ↦ false
      | some res' ↦ res'.iterations == res.iterations * 10 % 2 ^ 32 && proceeds run reads res'
    ]

-- One part.
record Ran (run : CoreResults → Option CoreResults) (reads : List Reads) (res : CoreResults)
    : Type 0 where
  after : CoreResults
  ran : run (record res { iterations = res.iterations * 10 % 2 ^ 32 }) ≡ some after
  kept : after.iterations ≡ res.iterations * 10 % 2 ^ 32
  goes_on : proceeds run reads after ≡ true

proceeds-Ran :
    (run : CoreResults → Option CoreResults) (r : Reads) (reads : List Reads) (res : CoreResults)
    → proceeds run (r ∷ reads) res ≡ true
    → Ran run reads res
unfolding proceeds
proceeds-Ran run r reads res h =
    elim (Option-cases (run (record res { iterations = res.iterations * 10 % 2 ^ 32 }))) [
      | inl stuck ↦ absurd (cc (rw (stuck, proceeds) at h))
      | inr (after, ran) ↦
          let both : (after.iterations == res.iterations * 10 % 2 ^ 32 && proceeds run reads after)
              ≡ true =
            rw (ran, proceeds) at h in
          record {
            after = after;
            ran = ran;
            kept = ground (arith, both);
            goes_on = ground (arith, both);
          }
    ]

ten_apart : (a b p : ℕ) → b ≡ a * 10 → b * p ≡ a * (p * 10)
ten_apart a b p e = ap (λ (t : ℕ). t * p) e ∙ grind arith

power_step : (c n k : ℕ) → c * (n * 10) * 10 ^ k ≡ c * n * 10 ^ suc k
power_step c n k = rw pow-suc (ten_apart (c * n) (c * (n * 10)) (10 ^ k) (grind arith))

full_second : (t t' : ℕ) → t ≡ t' → ltb (t / ticks_per_sec) 1 ≡ false → ticks_per_sec ≤ t'
full_second t t' same h = ground arith

scaled_exact :
    (c n s : ℕ)
    → 10 ≤ c
    → c * n < 10 * ticks_per_sec
    → c * (n * (1 + 10 / s) % 2 ^ 32) ≡ c * n * (1 + 10 / s)
scaled_exact c n s slow short =
    let few : n < 10 ^ 8 = grind arith in
    let factor : 10 / s ≤ 10 = div-le_self 10 s in
    let fits : n * (1 + 10 / s) < 2 ^ 32 = grind arith in
    ap (λ (t : ℕ). c * t) (mod-eq_of_lt fits) ∙ grind arith

-- The last part of the loop took one second or more, and less than ten.
record Calibration (c : ℕ) (run : CoreResults → Option CoreResults) (reads : List Reads)
    (res : CoreResults) : Type 0 where
  out : Calibrated
  runs : calibrate_loop run reads res ≡ some out
  secs : out.secs_passed ≡ c * out.res.iterations / ticks_per_sec
  long : ticks_per_sec ≤ c * out.res.iterations
  short : c * out.res.iterations < 10 * ticks_per_sec

module _ (c : ℕ) (run : CoreResults → Option CoreResults) (slow : 10 ≤ c) where
  calibrate_loop-Calibration :
      (reads : List Reads) (k n : ℕ) (res : CoreResults)
      → res.iterations ≡ n
      → c * n < ticks_per_sec
      → k ≤ length reads
      → ticks_per_sec ≤ c * n * 10 ^ k
      → Steady c n reads
      → proceeds run reads res ≡ true
      → Calibration c run reads res
  unfolding calibrate_loop time_in_secs
  calibrate_loop-Calibration [] zero n res is small enough far steady h = absurd (omega arith)
  calibrate_loop-Calibration [] (suc k) n res is small enough far steady h = absurd (omega arith)
  calibrate_loop-Calibration (r ∷ reads) zero n res is small enough far steady h =
      absurd (omega arith)
  calibrate_loop-Calibration (r ∷ reads) (suc k) n res is small enough far steady h =
      let part = proceeds-Ran run r reads res h in
      let res' = part.after in
      let few : n * 10 < 10 ^ 8 = grind arith in
      let iterations : res'.iterations ≡ n * 10 = omega (arith, part.kept, is) in
      let whole : c * res'.iterations ≡ c * n * 10 =
        ap (λ (t : ℕ). c * t) iterations ∙ grind arith in
      let regroup : c * (n * 10) ≡ c * n * 10 = grind arith in
      let took : elapsed r ≡ c * res'.iterations =
        elapsed_short r (c * res'.iterations)
          (steady.0 ∙ omega (arith, ap (λ (t : ℕ). c * t) iterations)) (omega (arith, whole)) in
      elim (Bool-cases (ltb (time_in_secs (elapsed r)) 1)) [
        | inl more ↦
            let next =
              calibrate_loop-Calibration reads k (n * 10) res' iterations
                (omega (arith, regroup, whole, took, ltb→lt (elapsed r / ticks_per_sec) 1 more))
                (omega arith) (omega (arith, power_step c n k)) steady.1 part.goes_on in
            record {
              out = next.out;
              runs = rw (part.ran, more) next.runs;
              secs = next.secs;
              long = next.long;
              short = next.short;
            }
        | inr done ↦ record {
          out = record { secs_passed = time_in_secs (elapsed r); reads = reads; res = res' };
          runs = rw (part.ran, done) refl;
          secs = ap (λ (t : ℕ). t / ticks_per_sec) took;
          long = full_second (elapsed r) (c * res'.iterations) took done;
          short = omega (arith, whole);
        }
      ]

-- Where no number of iterations is set, and each timed part takes `c` ticks for every iteration, at
-- least ten and less than a second's, so that the last of the parts can take a second, and each part
-- returns and leaves the number of its iterations: `main` chooses iterations that take 11 to 22 seconds.
pub choose_iterations_long :
    (c : ℕ) (run : CoreResults → Option CoreResults) (reads : List Reads) (res : CoreResults)
    → 10 ≤ c
    → c < ticks_per_sec
    → ticks_per_sec ≤ c * 10 ^ length reads
    → Steady c 1 reads
    → res.iterations ≡ 0
    → proceeds run reads (record res { iterations = 1 }) ≡ true
    → (later : List Reads) × (res' : CoreResults) × (choose_iterations run reads res
        ≡ some (later, res'))
      × (11 * ticks_per_sec ≤ c * res'.iterations)
      × (c * res'.iterations < 22 * ticks_per_sec)
unfolding choose_iterations scaled
choose_iterations_long c run reads res slow fast many steady unset returns =
    let first : CoreResults = record res { iterations = 1 } in
    let l =
      calibrate_loop-Calibration c run slow reads (length reads) 1 first refl (omega arith)
        (omega arith) (omega (arith, many, one_each (10 ^ length reads))) steady returns in
    let s = l.out.secs_passed in
    let n = l.out.res.iterations in
    let low : 1 ≤ s = omega (arith, l.secs, l.long) in
    let positive : (s == 0) ≡ false = ground (arith, low) in
    let bounds = factor_bounds s (c * n) l.secs low (omega (arith, l.secs, l.short)) in
    let exact : c * (n * (1 + 10 / s) % 2 ^ 32) ≡ c * n * (1 + 10 / s) =
      scaled_exact c n s slow l.short in
    (
      l.out.reads,
      record l.out.res { iterations = n * (1 + 10 / s) % 2 ^ 32 },
      rw (unset, l.runs, positive) refl,
      omega (arith, exact, bounds.0),
      omega (arith, exact, bounds.1),
    )
  where
    one_each : (p : ℕ) → c * 1 * p ≡ c * p
    one_each p = ap (λ (t : ℕ). t * p) (omega arith)
