-- ===== src/Rtos/Timing/Samples.antt =====
-- What the samples hold: the true differences of the cycle counter, over a wrap of its low word too.
use takshaka.Base.{
  ℕ, zero, suc, ◌+◌, ◌-◌, ◌%◌, ◌^◌, ◌≤◌, ◌<◌, ◌≡◌, ltb, refl, sym, subst, ◌==◌, Bool-cases, inl,
  inr, true, false, arith,
}
use takshaka.Rtos.Timing.{
  num_samples, TimingSample, Timing, minus32, timing_handler, respond, assert_sample, Reads,
  timing_round, measured,
}

-- The four reads of a round are in order, and less than 2 ^ 32 cycles apart.
pub record InOrder (c : Reads) : Type 0 where
  pub entered : c.at_assert ≤ c.at_entry
  pub started : c.at_entry ≤ c.at_start
  pub ended : c.at_start ≤ c.at_end
  pub near : c.at_end - c.at_assert < 2 ^ 32

-- The sample of a round: each measure is a difference of two reads, and the response is made of the
-- other three.
pub record Measures (c : Reads) (v : TimingSample) : Type 0 where
  pub lat_irq : v.lat_irq ≡ c.at_entry - c.at_assert
  pub lat_sched : v.lat_sched ≡ c.at_start - c.at_entry
  pub t_exec : v.t_exec ≡ c.at_end - c.at_start
  pub resp : v.resp_end_to_end ≡ c.at_end - c.at_assert
  pub parts : v.resp_end_to_end ≡ v.lat_irq + v.lat_sched + v.t_exec

minus32_lem : (a b : ℕ) → b ≤ a → a - b < 2 ^ 32 → minus32 (a % 2 ^ 32) (b % 2 ^ 32) ≡ a - b
minus32_lem a b le near = omega arith

round-Measures :
    (i : ℕ) (c : Reads) (s : Timing)
    → i < num_samples
    → InOrder c
    → Measures c ((timing_round i c s).g_samples i)
unfolding timing_handler respond assert_sample
round-Measures i c s less order =
    let here : ltb i num_samples ≡ true = ground (arith, less) in
    let same : i == i ≡ true = ground arith in
    let irq =
      minus32_lem c.at_entry c.at_assert order.entered
        (omega (arith, order.near, order.started, order.ended)) in
    let sched =
      minus32_lem c.at_start c.at_entry order.started
        (omega (arith, order.near, order.entered, order.ended)) in
    let exec =
      minus32_lem c.at_end c.at_start order.ended
        (omega (arith, order.near, order.entered, order.started)) in
    let resp =
      minus32_lem c.at_end c.at_assert (omega (arith, order.entered, order.started, order.ended))
        order.near in
    rw (here, same)
      (record {
        lat_irq = irq;
        lat_sched = sched;
        t_exec = exec;
        resp = resp;
        parts = omega (arith, irq, sched, exec, resp, order.entered, order.started, order.ended);
      })

-- A round leaves the samples of the earlier ones.
round_before :
    (i j : ℕ) (c : Reads) (s : Timing) → j < i → (timing_round i c s).g_samples j ≡ s.g_samples j
unfolding timing_handler respond assert_sample
round_before i j c s less =
    let other : j == i ≡ false = ground (arith, less) in
    elim (Bool-cases (ltb i num_samples)) [
      | inl e ↦ rw (e, other) refl
      | inr e ↦ rw (e, other) refl
    ]

-- Behind `n` rounds, at most 20, whose reads are in order and less than 2 ^ 32 cycles apart, the sample
-- of every round holds the true differences, also where the low word of the counter has wrapped, and the
-- response time is the sum of the other three measures.
pub measured-Measures :
    (n i : ℕ) (c : ℕ → Reads) (s : Timing)
    → n ≤ num_samples
    → ((j : ℕ) → InOrder (c j))
    → i < n
    → Measures (c i) ((measured n c s).g_samples i)
unfolding measured
measured-Measures zero i c s le order less = absurd (omega (arith, less))
measured-Measures (suc n) i c s le order less = elim (Bool-cases (i == n)) [
  | inl e ↦
      let last : n ≡ i = ground (arith, e) in
      subst (λ (k : ℕ). Measures (c i) ((timing_round k (c k) (measured n c s)).g_samples i))
        (sym last) (round-Measures i (c i) (measured n c s) (omega (arith, le, less)) (order i))
  | inr e ↦
      let before : i < n = ground (arith, e, less) in
      subst (Measures (c i)) (sym (round_before n i (c n) (measured n c s) before))
        (measured-Measures n i c s (omega (arith, le)) order before)
]
