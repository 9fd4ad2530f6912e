-- ===== src/CoreMark/Driver/Division.antt =====
-- The blocks that `main` divides the memory into.
use takshaka.Base.{ℕ, zero, suc, ◌+◌, ◌-◌, ◌*◌, ◌≤◌, ◌≡◌, ap, arith}
use native.Mathlib.Nat.{div-mul-le_self}
use takshaka.CoreMark.Driver.{executed, algorithms_below, block_size, block_start}

below-le : (execs i k : ℕ) → algorithms_below execs i ≤ algorithms_below execs (i + k)
unfolding algorithms_below
below-le execs i zero = omega (arith, ap (algorithms_below execs) {x = i + 0} {y = i} (omega arith))
below-le execs i (suc k) = omega (
  arith,
  below-le execs i k,
  ap (algorithms_below execs) {x = i + suc k} {y = suc (i + k)} (omega arith),
)

below_next :
    (execs i : ℕ)
    → executed execs i ≡ 1
    → algorithms_below execs (i + 1) ≡ algorithms_below execs i + 1
unfolding algorithms_below
below_next execs i runs =
    omega (arith, runs, ap (algorithms_below execs) {x = i + 1} {y = suc i} (omega arith))

whole-le : (total execs : ℕ) → block_size total execs * algorithms_below execs 3 ≤ total
unfolding block_size
whole-le total execs = div-mul-le_self total (algorithms_below execs 3)

ends_before :
    (total execs i k : ℕ)
    → executed execs i ≡ 1
    → block_size total execs * algorithms_below execs i + block_size total execs
      ≤ block_size total execs * algorithms_below execs (i + 1 + k)
ends_before total execs i k runs =
    let more : algorithms_below execs i + 1 ≤ algorithms_below execs (i + 1 + k) =
      omega (arith, below_next execs i runs, below-le execs (i + 1) k) in
    grind (arith, more)

-- The block of an executed algorithm ends where that of every later one starts, or before, and inside
-- the memory.
pub block_start_apart :
    (total execs i k : ℕ)
    → executed execs i ≡ 1
    → i + 1 + k ≤ 3
    → (block_start total execs i + block_size total execs ≤ block_start total execs (i + 1 + k))
      × (block_start total execs i + block_size total execs ≤ total)
unfolding block_start
block_start_apart total execs i k runs inside = (
  ends_before total execs i k runs,
  omega (
    arith,
    ends_before total execs i (2 - i) runs,
    ap (λ (t : ℕ). block_size total execs * algorithms_below execs t) {x = i + 1 + (2 - i)} {y = 3}
        (omega arith),
    whole-le total execs,
  ),
)
