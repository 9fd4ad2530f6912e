-- ===== src/Rtos/Timing/Statistics.antt =====
-- What the summary of the samples holds.
use takshaka.Base.{
  ℕ, zero, suc, ◌+◌, ◌*◌, ◌%◌, ◌^◌, ◌≤◌, ◌<◌, ◌≡◌, refl, sym, ap, subst, inl, inr, ltb, ◌==◌,
  Bool-cases, arith,
}
use takshaka.Rtos.Timing.{num_samples, TimingSample, Stat, no_stat, add_value, summary, average}

-- The sum of the first `n` values.
abbrev pub total : (n : ℕ) → (ℕ → ℕ) → ℕ
total zero f = 0
total (suc n) f = total n f + f n

-- One measure behind `n` rounds.
abbrev stat : (n : ℕ) → (ℕ → ℕ) → Stat
stat zero f = no_stat
stat (suc n) f = add_value (f n) (stat n f)

-- No value is below the minimum or above the maximum, both are values, the sum does not overflow, and the
-- average is between the two.
pub record Summarises (f : ℕ → ℕ) (st : Stat) : Type 0 where
  pub above_least : (i : ℕ) → i < num_samples → st.least ≤ f i
  pub below_greatest : (i : ℕ) → i < num_samples → f i ≤ st.greatest
  pub least_at : (i : ℕ) × (i < num_samples) × (st.least ≡ f i)
  pub greatest_at : (i : ℕ) × (i < num_samples) × (st.greatest ≡ f i)
  pub sum_is : st.sum ≡ total num_samples f
  pub average_above : st.least ≤ average st
  pub average_below : average st ≤ st.greatest

least_le : (n i : ℕ) (f : ℕ → ℕ) → i < n → (stat n f).least ≤ f i
least_le zero i f less = absurd (omega (arith, less))
least_le (suc n) i f less = elim (Bool-cases (i == n)) [
  | inl e ↦ let last : n ≡ i = ground (arith, e) in ground (arith, ap f last)
  | inr e ↦ ground (arith, least_le n i f (ground (arith, e, less)))
]

greatest_le : (n i : ℕ) (f : ℕ → ℕ) → i < n → f i ≤ (stat n f).greatest
greatest_le zero i f less = absurd (omega (arith, less))
greatest_le (suc n) i f less = elim (Bool-cases (i == n)) [
  | inl e ↦ let last : n ≡ i = ground (arith, e) in ground (arith, ap f last)
  | inr e ↦ ground (arith, greatest_le n i f (ground (arith, e, less)))
]

least-at :
    (n : ℕ) (f : ℕ → ℕ)
    → ((i : ℕ) → f i < 2 ^ 32)
    → (i : ℕ) × (i < suc n) × ((stat (suc n) f).least ≡ f i)
least-at zero f small = (0, omega arith, ground (arith, small 0))
least-at (suc n) f small =
    let (i, less, is) = least-at n f small in
    elim (Bool-cases (ltb (f (suc n)) (stat (suc n) f).least)) [
      | inl e ↦ (suc n, omega arith, rw e refl)
      | inr e ↦ (i, omega (arith, less), rw e is)
    ]

greatest-at : (n : ℕ) (f : ℕ → ℕ) → (i : ℕ) × (i < suc n) × ((stat (suc n) f).greatest ≡ f i)
greatest-at zero f = (0, omega arith, ground arith)
greatest-at (suc n) f =
    let (i, less, is) = greatest-at n f in
    elim (Bool-cases (ltb (stat (suc n) f).greatest (f (suc n)))) [
      | inl e ↦ (suc n, omega arith, rw e refl)
      | inr e ↦ (i, omega (arith, less), rw e is)
    ]

stat-total : (n : ℕ) (f : ℕ → ℕ) → (stat n f).sum ≡ total n f % 2 ^ 32
stat-total zero f = omega arith
stat-total (suc n) f = omega (arith, stat-total n f)

total_above : (n m : ℕ) (f : ℕ → ℕ) → ((i : ℕ) → i < n → m ≤ f i) → n * m ≤ total n f
total_above zero m f le = omega arith
total_above (suc n) m f le =
    omega (arith, total_above n m f (λ i less. le i (omega (arith, less))), le n (omega arith))

total_below : (n m : ℕ) (f : ℕ → ℕ) → ((i : ℕ) → i < n → f i ≤ m) → total n f ≤ n * m
total_below zero m f le = omega arith
total_below (suc n) m f le =
    omega (arith, total_below n m f (λ i less. le i (omega (arith, less))), le n (omega arith))

-- A value that is small enough that the sum of 20 does not overflow.
abbrev pub small : ℕ
small = 214748364

stat-Summarises : (f : ℕ → ℕ) → ((i : ℕ) → f i ≤ small) → Summarises f (stat num_samples f)
stat-Summarises f le =
    let bound = total_below num_samples small f (λ i less. le i) in
    let sum : (stat num_samples f).sum ≡ total num_samples f =
      omega (arith, stat-total num_samples f, bound) in
    let least = λ (i : ℕ) (less : i < num_samples). least_le num_samples i f less in
    let greatest = λ (i : ℕ) (less : i < num_samples). greatest_le num_samples i f less in
    record {
      above_least = least;
      below_greatest = greatest;
      least_at = least-at 19 f (λ i. omega (arith, le i));
      greatest_at = greatest-at 19 f;
      sum_is = sum;
      average_above =
          omega (arith, sum, total_above num_samples (stat num_samples f).least f least);
      average_below =
          omega (arith, sum, total_below num_samples (stat num_samples f).greatest f greatest);
    }

-- The four measures of a sample are small.
abbrev pub SmallSample : TimingSample → Type 0
SmallSample v =
    (v.lat_irq ≤ small) × (v.lat_sched ≤ small) × (v.t_exec ≤ small) × (v.resp_end_to_end ≤ small)

irq_of : (n : ℕ) (g : ℕ → TimingSample) → (summary n g).irq ≡ stat n (λ i. (g i).lat_irq)
unfolding summary
irq_of zero g = refl
irq_of (suc n) g = ap (add_value (g n).lat_irq) (irq_of n g)

sched_of : (n : ℕ) (g : ℕ → TimingSample) → (summary n g).sched ≡ stat n (λ i. (g i).lat_sched)
unfolding summary
sched_of zero g = refl
sched_of (suc n) g = ap (add_value (g n).lat_sched) (sched_of n g)

exec_of : (n : ℕ) (g : ℕ → TimingSample) → (summary n g).exec ≡ stat n (λ i. (g i).t_exec)
unfolding summary
exec_of zero g = refl
exec_of (suc n) g = ap (add_value (g n).t_exec) (exec_of n g)

resp_of : (n : ℕ) (g : ℕ → TimingSample) → (summary n g).resp ≡ stat n (λ i. (g i).resp_end_to_end)
unfolding summary
resp_of zero g = refl
resp_of (suc n) g = ap (add_value (g n).resp_end_to_end) (resp_of n g)

-- For 20 samples whose measures are at most 214748364 cycles, the summary has the minimum, the maximum
-- and the sum of each measure, and each average is between the minimum and the maximum.
pub summary-Summarises :
    (g : ℕ → TimingSample)
    → ((i : ℕ) → SmallSample (g i))
    → let r = summary num_samples g in
      Summarises (λ i. (g i).lat_irq) r.irq
      × Summarises (λ i. (g i).lat_sched) r.sched
      × Summarises (λ i. (g i).t_exec) r.exec
      × Summarises (λ i. (g i).resp_end_to_end) r.resp
summary-Summarises g le = (
  subst (Summarises (λ i. (g i).lat_irq)) (sym (irq_of num_samples g))
      (stat-Summarises (λ i. (g i).lat_irq) (λ i. (le i).0)),
  subst (Summarises (λ i. (g i).lat_sched)) (sym (sched_of num_samples g))
      (stat-Summarises (λ i. (g i).lat_sched) (λ i. (le i).1)),
  subst (Summarises (λ i. (g i).t_exec)) (sym (exec_of num_samples g))
      (stat-Summarises (λ i. (g i).t_exec) (λ i. (le i).2)),
  subst (Summarises (λ i. (g i).resp_end_to_end)) (sym (resp_of num_samples g))
      (stat-Summarises (λ i. (g i).resp_end_to_end) (λ i. (le i).3)),
)
