-- ===== src/CoreMark/Port/Numbers.antt =====
-- Elapsed time and alignment in the port layer.
use takshaka.Base.{ℕ, ◌+◌, ◌-◌, ◌*◌, ◌/◌, ◌%◌, ◌^◌, ◌≤◌, ◌<◌, ◌≡◌, ap, ◌∙◌, arith}
use takshaka.Base.Fields.{and_above}
use takshaka.Base.Bits.{and_mask}
use takshaka.CoreMark.Port.{Ticks, start_time, stop_time, get_time, align_mem}

-- `get_time` is the number of ticks between `start_time` and `stop_time`, also over a wrap of the
-- 32-bit counter, if they are fewer than 2 ^ 32.
pub get_time-stop_time :
    (start elapsed : ℕ) (t : Ticks)
    → elapsed < 2 ^ 32
    → get_time (stop_time (start + elapsed) (start_time start t)) ≡ elapsed
unfolding get_time stop_time start_time
get_time-stop_time start elapsed t short = omega arith

align_value : (p : ℕ) → p + 3 < 2 ^ 32 → align_mem p ≡ (p + 3) / 4 * 4
unfolding align_mem
align_value p fits =
    and_above 2 ((p + 3) % 2 ^ 32) (2 ^ 30 - 1)
    ∙ ap (λ (t : ℕ). t * 4) (and_mask 30 ((p + 3) % 2 ^ 32 / 4))
    ∙ omega arith

-- `align_mem` returns the first multiple of 4 that is not below the pointer.
pub align_mem_lem :
    (p : ℕ) → p + 3 < 2 ^ 32 → (align_mem p % 4 ≡ 0) × (p ≤ align_mem p) × (align_mem p < p + 4)
align_mem_lem p fits = (
  omega (arith, align_value p fits),
  omega (arith, align_value p fits),
  omega (arith, align_value p fits),
)
