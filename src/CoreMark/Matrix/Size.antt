-- ===== src/CoreMark/Matrix/Size.antt =====
-- The dimension that `core_init_matrix` chooses, and the range of `matrix_sum`.
use takshaka.Base.{
  ℕ, zero, suc, ◌+◌, ◌-◌, ◌*◌, ◌%◌, ◌^◌, ◌≤◌, ◌<◌, ◌≡◌, refl, ap, ltb, List, arith, Bool-cases, inl,
  inr, ◌⊎◌, Option, some,
}
use takshaka.CoreMark.Matrix.{MatParams, fill_matrices, dimension_loop, core_init_matrix}

square_below : (a b : ℕ) → a * a < b * b → a < b
square_below a b h = grind arith

row_below_square : (i : ℕ) → i < 16384 → (i + 1) * (i + 1) ≤ 16384 * 16384
row_below_square i h = grind arith

record Dimension (blksize i : ℕ) (r : Option ℕ) : Type 0 where
  out : ℕ
  runs : r ≡ some out
  positive : 1 ≤ out
  below : (out - 1) * (out - 1) * 8 < blksize
  above : blksize ≤ out * out * 8

dimension_loop-Dimension :
    (fuel blksize i j : ℕ)
    → 1 ≤ blksize
    → blksize < 2 ^ 31
    → 16386 ≤ i + fuel
    → j ≡ i * i * 8
    → (i ≡ 0) ⊎ ((1 ≤ i) × ((i - 1) * (i - 1) * 8 < blksize))
    → Dimension blksize i (dimension_loop fuel blksize i j)
unfolding dimension_loop
dimension_loop-Dimension zero blksize i j one small enough is last = absurd (too_far last)
  where
    too_far : (i ≡ 0) ⊎ ((1 ≤ i) × ((i - 1) * (i - 1) * 8 < blksize)) → ⊥
    too_far (inl e) = omega arith
    too_far (inr (p, q)) = omega (arith, square_below (i - 1) 16384 (omega arith))
dimension_loop-Dimension (suc fuel) blksize i j one small enough is last =
    elim (Bool-cases (ltb j blksize)) [
      | inl more ↦
          let low : i < 16384 = square_below i 16384 (ground arith) in
          let next : (i + 1) * (i + 1) * 2 * 4 % 2 ^ 32 ≡ (i + 1) * (i + 1) * 8 =
            omega (arith, row_below_square i low) in
          let d =
            dimension_loop-Dimension fuel blksize (i + 1) ((i + 1) * (i + 1) * 2 * 4 % 2 ^ 32) one
              small (omega arith) next (inr (omega arith, ground (arith, is, more))) in
          record {
            out = d.out;
            runs = rw (more, dimension_loop) d.runs;
            positive = d.positive;
            below = d.below;
            above = d.above;
          }
      | inr done ↦ record {
        out = i;
        runs = rw (done, dimension_loop);
        positive = positive_at (ground arith) last;
        below = below_at (ground arith) last;
        above = ground arith;
      }
    ]
  where
    positive_at :
        blksize ≤ i * i * 8 → (i ≡ 0) ⊎ ((1 ≤ i) × ((i - 1) * (i - 1) * 8 < blksize)) → 1 ≤ i
    positive_at big (inl e) = omega (arith, ap (λ (t : ℕ). t * t * 8) e)
    positive_at big (inr (p, q)) = p

    below_at :
        blksize ≤ i * i * 8
        → (i ≡ 0) ⊎ ((1 ≤ i) × ((i - 1) * (i - 1) * 8 < blksize))
        → (i - 1) * (i - 1) * 8 < blksize
    below_at big (inl e) = omega (arith, ap (λ (t : ℕ). t * t * 8) e)
    below_at big (inr (p, q)) = q

-- `core_init_matrix` ends, and the dimension is the greatest N with 8 * N * N below the block size:
-- the two matrices of 2-byte elements and the one of 4-byte elements fit the block.
pub core_init_matrix_fits :
    (blksize : ℕ) (a b c : List ℕ) (seed : ℕ)
    → 1 ≤ blksize
    → blksize < 2 ^ 31
    → (p : MatParams) × (core_init_matrix blksize a b c seed ≡ some p)
      × (p.n * p.n * 2 + p.n * p.n * 2 + p.n * p.n * 4 < blksize)
      × (blksize ≤ (p.n + 1) * (p.n + 1) * 8)
unfolding core_init_matrix fill_matrices
core_init_matrix_fits blksize a b c seed one small =
    let d = dimension_loop-Dimension 65536 blksize 0 0 one small (omega arith) refl (inl refl) in
    let p = fill_matrices ((d.out + (2 ^ 32 - 1)) % 2 ^ 32) a b c seed in
    let is : p.n ≡ d.out - 1 =
      omega (arith, d.positive, d.below, square_below (d.out - 1) 16384 (omega (arith, d.below))) in
    (
      p,
      rw (d.runs, core_init_matrix),
      omega (arith, ap (λ (t : ℕ). t * t) is, d.below),
      omega (
        arith,
        ap (λ (t : ℕ). (t + 1) * (t + 1)) is,
        ap (λ (t : ℕ). t * t) {x = d.out - 1 + 1} {y = d.out} (omega (arith, d.positive)),
        d.above,
      ),
    )
