-- ===== src/CoreMark/Matrix/Tests.antt =====
-- The matrix theorems at concrete inputs.
use takshaka.Base.{ℕ, ◌+◌, ◌*◌, ◌%◌, ◌^◌, ◌≡◌, ◌≤◌, ◌<◌, some, List, [], ◌∷◌, arith, get_or}
use takshaka.CoreMark.Matrix.{MatParams, matrix_mul_matrix, core_init_matrix}
use takshaka.CoreMark.Matrix.Laws.{entry, matrix_mul_matrix-entry}
use takshaka.CoreMark.Matrix.Size.{core_init_matrix_fits}

abbrev a : List ℕ
a = 1 ∷ 2 ∷ 3 ∷ 0xffff ∷ []

abbrev b : List ℕ
b = 5 ∷ 6 ∷ 7 ∷ 8 ∷ []

abbrev c : List ℕ
c = 0 ∷ 0 ∷ 0 ∷ 0 ∷ []

matrix_mul_matrix-entry_example :
    get_or (matrix_mul_matrix 2 c a b) (1 * 2 + 0) 0 ≡ entry 2 a b 1 0 % 2 ^ 32
matrix_mul_matrix-entry_example =
    matrix_mul_matrix-entry 2 1 0 c a b (omega arith) (omega arith) (omega arith)

core_init_matrix_fits_example :
    (p : MatParams) × (core_init_matrix 666 a b c 0 ≡ some p)
    × (p.n * p.n * 2 + p.n * p.n * 2 + p.n * p.n * 4 < 666)
    × (666 ≤ (p.n + 1) * (p.n + 1) * 8)
core_init_matrix_fits_example = core_init_matrix_fits 666 a b c 0 (omega arith) (omega arith)
