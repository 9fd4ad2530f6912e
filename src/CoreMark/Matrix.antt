-- ===== src/CoreMark/Matrix.antt =====
-- The matrix kernel of coremark/src/core_matrix.c. A `MATDAT` is its 16-bit pattern and a `MATRES`
-- its 32-bit pattern; the three matrices are the arrays A, B and C, row by row.
pub mod Loops
pub mod Laws
pub mod Size
mod Tests
use takshaka.Base.{
  ℕ, zero, suc, ◌+◌, ◌-◌, ◌*◌, ◌/◌, ◌%◌, ◌^◌, ◌==◌, ltb, leb, Bool, if◌then◌else◌, true, false,
  Option, none, some, List, [], ◌∷◌, get_or, set, bit_and, bit_or,
}
use takshaka.CoreMark.Crc.{crc16}

-- `for (i = 0; i < n; i++) f`
abbrev pub for_to {ℓ} : {S : Type ℓ} → ℕ → (ℕ → S → S) → S → S
for_to zero f s = s
for_to (suc n) f s = f n (for_to n f s)

-- `(MATRES)x`
abbrev pub sign_extend : ℕ → ℕ
sign_extend v = if leb (2 ^ 15) v then v + (2 ^ 32 - 2 ^ 16) else v

-- `a > b` of two `MATRES`.
abbrev pub greater : ℕ → ℕ → Bool
greater a b = ltb ((b + 2 ^ 31) % 2 ^ 32) ((a + 2 ^ 31) % 2 ^ 32)

-- `(x >> from) & ~(0xffffffff << to)`; the shift of a negative `x` brings in ones, which the mask drops.
abbrev pub bit_extract : (x from to : ℕ) → ℕ
bit_extract x from to = x / 2 ^ from % 2 ^ to

unfoldable pub matrix_add_const : (n : ℕ) → List ℕ → ℕ → List ℕ
matrix_add_const n a val =
    for_to n (λ i. for_to n (λ j a. set a (i * n + j) ((get_or a (i * n + j) 0 + val) % 2 ^ 16))) a

unfoldable pub matrix_mul_const : (n : ℕ) → (c a : List ℕ) → ℕ → List ℕ
matrix_mul_const n c a val =
    for_to n
      (λ i. for_to n (λ j c.
        set c (i * n + j) (sign_extend (get_or a (i * n + j) 0) * sign_extend val % 2 ^ 32)))
      c

-- `C[at] += x`
abbrev pub accumulate : ℕ → ℕ → List ℕ → List ℕ
accumulate at x c = set c at ((get_or c at 0 + x) % 2 ^ 32)

unfoldable pub matrix_mul_vect : (n : ℕ) → (c a b : List ℕ) → List ℕ
matrix_mul_vect n c a b =
    for_to n
      (λ i c.
        for_to n
          (λ j.
            accumulate i
              (sign_extend (get_or a (i * n + j) 0) * sign_extend (get_or b j 0) % 2 ^ 32))
          (set c i 0))
      c

-- The loops of the two products, which differ in what they make of a product of two elements.
abbrev pub product_loops : (ℕ → ℕ) → (n : ℕ) → (c a b : List ℕ) → List ℕ
product_loops f n c a b =
    for_to n
      (λ i. for_to n (λ j c.
        for_to n
          (λ k. accumulate (i * n + j) (
            f (
              sign_extend (get_or a (i * n + k) 0)
              * sign_extend (get_or b (k * n + j) 0)
              % 2 ^ 32)))
          (set c (i * n + j) 0)))
      c

unfoldable pub matrix_mul_matrix : (n : ℕ) → (c a b : List ℕ) → List ℕ
matrix_mul_matrix n c a b = product_loops (λ x. x) n c a b

unfoldable pub matrix_mul_matrix_bitextract : (n : ℕ) → (c a b : List ℕ) → List ℕ
matrix_mul_matrix_bitextract n c a b =
    product_loops (λ tmp. bit_extract tmp 2 4 * bit_extract tmp 5 7 % 2 ^ 32) n c a b

-- The variables of `matrix_sum`.
pub record Summing : Type 0 where
  pub ret : ℕ
  pub tmp : ℕ
  pub prev : ℕ

unfoldable pub sum_step : (clipval cur : ℕ) → Summing → Summing
sum_step clipval cur s =
    let tmp = (s.tmp + cur) % 2 ^ 32 in
    if greater tmp clipval
    then record { ret = (s.ret + 10) % 2 ^ 16; tmp = 0; prev = cur }
    else record {
      ret = (s.ret + (if greater cur s.prev then 1 else 0)) % 2 ^ 16;
      tmp = tmp;
      prev = cur;
    }

unfoldable pub matrix_sum : (n : ℕ) → List ℕ → ℕ → ℕ
matrix_sum n c clipval =
    let sums =
      for_to n (λ i. for_to n (λ j. sum_step (sign_extend clipval) (get_or c (i * n + j) 0)))
        (record { ret = 0; tmp = 0; prev = 0 }) in
    sums.ret

-- A and C after the call, and the checksum.
pub record Tested : Type 0 where
  pub a : List ℕ
  pub c : List ℕ
  pub crc : ℕ

-- `-val`
abbrev pub negated : ℕ → ℕ
negated val = (2 ^ 16 - val) % 2 ^ 16

unfoldable pub matrix_test : (n : ℕ) → (c a b : List ℕ) → ℕ → Tested
matrix_test n c a b val =
    let clipval = bit_or 0xf000 val in
    let a1 = matrix_add_const n a val in
    let c1 = matrix_mul_const n c a1 val in
    let c2 = matrix_mul_vect n c1 a1 b in
    let c3 = matrix_mul_matrix n c2 a1 b in
    let c4 = matrix_mul_matrix_bitextract n c3 a1 b in
    record {
      a = matrix_add_const n a1 (negated val);
      c = c4;
      crc = crc16 (matrix_sum n c4 clipval) (
          crc16 (matrix_sum n c3 clipval)
            (crc16 (matrix_sum n c2 clipval) (crc16 (matrix_sum n c1 clipval) 0)));
    }

pub record MatParams : Type 0 where
  pub n : ℕ
  pub a : List ℕ
  pub b : List ℕ
  pub c : List ℕ

unfoldable pub core_bench_matrix : MatParams → ℕ → ℕ → ℕ × MatParams
core_bench_matrix p seed crc =
    let t = matrix_test p.n p.c p.a p.b seed in (crc16 t.crc crc, record p { a = t.a; c = t.c })

-- `while (j < blksize) { i++; j = i * i * 2 * 4; }`: the final `i`. Out of fuel is `none`.
unfoldable pub dimension_loop : (fuel blksize i j : ℕ) → Option ℕ
dimension_loop zero blksize i j = none
dimension_loop (suc fuel) blksize i j = elim (ltb j blksize) [
  | true ↦ dimension_loop fuel blksize (i + 1) ((i + 1) * (i + 1) * 2 * 4 % 2 ^ 32)
  | false ↦ some i
]

-- `x % 65536` of an `ee_s32`, which has the sign of `x`.
abbrev pub remainder : ℕ → ℕ
remainder x = if leb (2 ^ 31) x then (2 ^ 32 - (2 ^ 32 - x) % 65536) % 2 ^ 32 else x % 65536

-- The variables of the filling loops of `core_init_matrix`.
pub record Filling : Type 0 where
  pub a : List ℕ
  pub b : List ℕ
  pub seed : ℕ
  pub order : ℕ

-- A `val` is cut to its 16-bit pattern where it is stored.
unfoldable pub fill_step : ℕ → Filling → Filling
fill_step at f =
    let seed = remainder (f.order * f.seed % 2 ^ 32) in
    let val = bit_and ((seed + f.order) % 2 ^ 16) 0xffff in
    record {
      a = set f.a at (bit_and ((val + f.order) % 2 ^ 16) 0xff);
      b = set f.b at val;
      seed = seed;
      order = (f.order + 1) % 2 ^ 32;
    }

-- The part of `core_init_matrix` behind the choice of `n`; `a`, `b` and `c` are the arrays that the
-- memory block is divided into.
unfoldable pub fill_matrices : (n : ℕ) → (a b c : List ℕ) → (seed : ℕ) → MatParams
fill_matrices n a b c seed =
    let f =
      for_to n (λ i. for_to n (λ j. fill_step (i * n + j)))
        (record { a = a; b = b; seed = if seed == 0 then 1 else seed; order = 1 }) in
    record { n = n; a = f.a; b = f.b; c = c }

-- `65536` rounds are more than the dimension of any block below 2 ^ 31 bytes takes. Each array is a list of
-- its own, so the alignment of the addresses of A and C does not show.
unfoldable pub core_init_matrix : (blksize : ℕ) → (a b c : List ℕ) → (seed : ℕ) → Option MatParams
core_init_matrix blksize a b c seed = elim (dimension_loop 65536 blksize 0 0) [
  | none ↦ none
  | some i ↦ some (fill_matrices ((i + (2 ^ 32 - 1)) % 2 ^ 32) a b c seed)
]
