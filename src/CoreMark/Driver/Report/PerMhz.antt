-- ===== src/CoreMark/Driver/Report/PerMhz.antt =====
-- The line with the score per MHz.
use takshaka.Base.{
  ℕ, ◌+◌, ◌^◌, ◌*◌, ◌/◌, ◌%◌, ◌≤◌, ◌<◌, ◌≡◌, ◌↔◌, refl, ◌==◌, false, Bool-cases, inl, inr, leb,
  Bool, true, some, List, ◌∷◌, ◌++◌, codes, length, arith, check_below, check_below_sound, ltb,
  if◌then◌else◌,
}
use native.Mathlib.Nat.{div-add-mod', mod-lt}
use takshaka.CoreMark.Port.{print_int, print_uint, fill_buffer}
use takshaka.Bsp.Uart.Number.{IsDecimal}
use takshaka.CoreMark.Port.Decimal.{print_int-IsDecimal}
use takshaka.CoreMark.Port.Printf.{say, ee_printf, print_from, switch_letter, with_argument}
use takshaka.CoreMark.Driver.Report.{Rating, rating, per_mhz_line, mhz}

per_mhz_line_text :
    (r : Rating)
    → per_mhz_line r
      ≡ some (
          codes "CoreMark/MHz:            "
          ++ (print_int r.cm_per_mhz_int ++ b'.' ∷ (print_int r.cm_per_mhz_frac ++ codes "\r\n")))
unfolding per_mhz_line say ee_printf print_from switch_letter with_argument
per_mhz_line_text r = refl

-- Whether the fraction for a remainder of `k` has three digits.
digits_fit : ℕ → Bool
digits_fit k = let n = length (print_int (k * 1000 / mhz)) in if leb 10 k then n == 3 else ltb n 3

digits_table : check_below mhz digits_fit ≡ true
unfolding check_below digits_fit print_int print_uint fill_buffer
digits_table = refl

three_digits : (k : ℕ) → k < mhz → (length (print_int (k * 1000 / mhz)) ≡ 3) ↔ (10 ≤ k)
unfolding digits_fit
three_digits k small =
    let row = check_below_sound mhz digits_fit k digits_table small in
    (λ long. ground (arith, row, long), λ enough. ground (arith, row, enough))

rating-frac :
    (iterations total_time : ℕ) {r : Rating}
    → rating iterations total_time ≡ some r
    → r.cm_per_mhz_frac ≡ r.cm_per_sec % mhz * 1000 / mhz
unfolding rating
rating-frac iterations total_time h = ground arith

-- The rate of `iterations` in `total_time` ticks, its hundredth part, and the thousandths of the rest of
-- it, each rounded down. The rate is modulo 2 ^ 32.
pub record Rated (iterations total_time : ℕ) (r : Rating) : Type 0 where
  pub per_sec : ℕ
  pub rate_low : per_sec * total_time ≤ iterations * 100000000
  pub rate_high : iterations * 100000000 < (per_sec + 1) * total_time
  pub is_rate : r.cm_per_sec ≡ per_sec % 2 ^ 32
  pub score_low : (r.cm_per_mhz_int * 1000 + r.cm_per_mhz_frac) * 100 ≤ r.cm_per_sec * 1000
  pub score_high : r.cm_per_sec * 1000 < (r.cm_per_mhz_int * 1000 + r.cm_per_mhz_frac + 1) * 100
  pub thousandths : r.cm_per_mhz_frac < 1000

score_bounds :
    (c : ℕ)
    → ((c / mhz * 1000 + c % mhz * 1000 / mhz) * 100 ≤ c * 1000)
      × (c * 1000 < (c / mhz * 1000 + c % mhz * 1000 / mhz + 1) * 100)
      × (c % mhz * 1000 / mhz < 1000)
score_bounds c = (omega arith, omega arith, omega arith)

quotient_bounds : (n d : ℕ) → (d == 0) ≡ false → (n / d * d ≤ n) × (n < (n / d + 1) * d)
quotient_bounds n d positive =
    let whole : n / d * d + n % d ≡ n = div-add-mod' n d in
    let rest : n % d < d = mod-lt n (ground arith) in
    let more : (n / d + 1) * d ≡ n / d * d + d = grind arith in
    (omega (arith, whole), omega (arith, whole, rest, more))

rating-Rated :
    (iterations total_time : ℕ) (r : Rating)
    → rating iterations total_time ≡ some r
    → Rated iterations total_time r
unfolding rating
rating-Rated iterations total_time r h = elim (Bool-cases (total_time == 0)) [
  | inl never ↦ absurd (ground (arith, h, never))
  | inr runs ↦ elim (Bool-cases (iterations == 0)) [
    | inl none_run ↦ absurd (ground (arith, h, runs, none_run))
    | inr some_run ↦
        let c = r.cm_per_sec in
        let bounds = score_bounds c in
        let rate = quotient_bounds (iterations * 100000000) total_time runs in
        let whole : r.cm_per_mhz_int ≡ c / mhz = ground (arith, h, runs, some_run) in
        let rest : r.cm_per_mhz_frac ≡ c % mhz * 1000 / mhz = ground (arith, h, runs, some_run) in
        record {
          per_sec = iterations * 100000000 / total_time;
          rate_low = rate.0;
          rate_high = rate.1;
          is_rate = ground (arith, h, runs, some_run);
          score_low = omega (arith, whole, rest, bounds.0);
          score_high = omega (arith, whole, rest, bounds.1);
          thousandths = omega (arith, rest, bounds.2);
        }
  ]
]

-- The line of the score, and the parts of it: the decimal notation of the whole part and of the
-- thousandths.
pub record Shown (r : Rating) : Type 0 where
  pub whole : List ℕ
  pub frac : List ℕ
  pub is_whole : IsDecimal whole r.cm_per_mhz_int
  pub is_frac : IsDecimal frac r.cm_per_mhz_frac
  pub line :
      per_mhz_line r
      ≡ some (codes "CoreMark/MHz:            " ++ (whole ++ b'.' ∷ (frac ++ codes "\r\n")))
  pub three : (length frac ≡ 3) ↔ (10 ≤ r.cm_per_sec % 100)

-- Where there is a rating, the line is the whole part, a point and the thousandths in decimal notation:
-- both together are the hundredth part of the rate of the iterations in a second, rounded down to
-- thousandths, and the rate is modulo 2 ^ 32. The thousandths are printed in three digits exactly where the
-- rate has a remainder of 10 or more by 100; below that the padding that the format asks for is
-- missing.
pub per_mhz_line-rating :
    (iterations total_time : ℕ) (r : Rating)
    → rating iterations total_time ≡ some r
    → Rated iterations total_time r × Shown r
per_mhz_line-rating iterations total_time r h =
    let rated = rating-Rated iterations total_time r h in
    (
      rated,
      record {
        whole = print_int r.cm_per_mhz_int;
        frac = print_int r.cm_per_mhz_frac;
        is_whole =
            print_int-IsDecimal r.cm_per_mhz_int (omega (arith, rated.score_low, rated.is_rate));
        is_frac = print_int-IsDecimal r.cm_per_mhz_frac (omega (arith, rated.thousandths));
        line = per_mhz_line_text r;
        three =
            rw (rating-frac iterations total_time h)
              (three_digits (r.cm_per_sec % mhz) (omega arith));
      },
    )
