-- ===== src/CoreMark/Matrix/Laws.antt =====
-- What the matrix operations leave in A and in C.
use takshaka.Base.{
  ℕ, zero, suc, ◌+◌, ◌*◌, ◌/◌, ◌%◌, ◌^◌, ◌≤◌, ◌<◌, ◌≡◌, ◌≢◌, refl, ap, ◌∙◌, sym, ◌==◌, ltb, ◌-◌,
  if◌then◌else◌, List, get_or, set, length, length-set, get_or-set_self, get_or-set_ne, arith,
  Bool-cases, inl, inr,
}
use native.Mathlib.Nat.{mod-add-div', div-lt_iff_lt-mul, mod-lt}
use takshaka.CoreMark.Matrix.{
  for_to, sign_extend, accumulate, negated, matrix_add_const, matrix_mul_vect, product_loops,
  matrix_mul_matrix,
}
use takshaka.CoreMark.Matrix.Loops.{list_ext, Write, square_writes, length-square, square_frame}

-- A single store, of a value made of the cell's old one.
store-Write :
    (n i j : ℕ) (w : ℕ → ℕ) → Write n i j (λ a. set a (i * n + j) (w (get_or a (i * n + j) 0))) w
store-Write n i j w = record {
  len = λ c. length-set c (i * n + j) (w (get_or c (i * n + j) 0));
  here = λ c h. get_or-set_self c (i * n + j) (w (get_or c (i * n + j) 0)) 0 h;
  away = λ c p ne. get_or-set_ne c (i * n + j) p (w (get_or c (i * n + j) 0)) 0 (λ e. ne (sym e));
}

abbrev added : ℕ → ℕ → ℕ
added val x = (x + val) % 2 ^ 16

-- Every element of the matrix, by its place in memory.
add_const_inside :
    (n val p : ℕ) (a : List ℕ)
    → p < n * n
    → n * n ≤ length a
    → get_or (matrix_add_const n a val) p 0 ≡ added val (get_or a p 0)
unfolding matrix_add_const
add_const_inside zero val p a h fits = absurd (omega arith)
add_const_inside (suc k) val p a h fits =
    let n : ℕ = suc k in
    let at : p / n * n + p % n ≡ p = omega (arith, mod-add-div' p n) in
    let row : p / n < n = (div-lt_iff_lt-mul {k = n} {x = p} {y = n} (omega arith)).1 h in
    ap (λ (q : ℕ). get_or (matrix_add_const (suc k) a val) q 0) (sym at)
    ∙ square_writes n (λ i j a. set a (i * n + j) (added val (get_or a (i * n + j) 0)))
        (λ i j. added val) (λ i j. store-Write n i j (added val)) (p / n) (p % n) a row
        (mod-lt p (omega arith)) fits
    ∙ ap (λ (q : ℕ). added val (get_or a q 0)) at

add_const_outside :
    (n val p : ℕ) (a : List ℕ) → n * n ≤ p → get_or (matrix_add_const n a val) p 0 ≡ get_or a p 0
unfolding matrix_add_const
add_const_outside n val p a h =
    square_frame n (λ i j a. set a (i * n + j) (added val (get_or a (i * n + j) 0)))
      (λ i j. added val) (λ i j. store-Write n i j (added val)) p a h

length-matrix_add_const : (n val : ℕ) (a : List ℕ) → length (matrix_add_const n a val) ≡ length a
unfolding matrix_add_const
length-matrix_add_const n val a =
    length-square n (λ i j a. set a (i * n + j) (added val (get_or a (i * n + j) 0)))
      (λ i j. added val) (λ i j. store-Write n i j (added val)) a

-- Adding a value and then its negation gives the matrix back.
pub matrix_add_const_undo :
    (n val : ℕ) (a : List ℕ)
    → n * n ≤ length a
    → ((p : ℕ) → get_or a p 0 < 2 ^ 16)
    → val < 2 ^ 16
    → matrix_add_const n (matrix_add_const n a val) (negated val) ≡ a
matrix_add_const_undo n val a fits wide small =
    let a1 : List ℕ = matrix_add_const n a val in
    let same_length : length a1 ≡ length a = length-matrix_add_const n val a in
    list_ext (matrix_add_const n a1 (negated val)) a
      (length-matrix_add_const n (negated val) a1 ∙ same_length)
      (λ p. elim (Bool-cases (ltb p (n * n))) [
        | inl inside ↦
            add_const_inside n (negated val) p a1 (ground arith) (omega arith)
            ∙ ap (added (negated val)) (add_const_inside n val p a (ground arith) fits)
            ∙ omega (arith, wide p)
        | inr outside ↦
            add_const_outside n (negated val) p a1 (ground arith)
            ∙ add_const_outside n val p a (ground arith)
      ])

-- The sum of the first `n` values.
abbrev pub sum_below : ℕ → (ℕ → ℕ) → ℕ
sum_below zero f = 0
sum_below (suc n) f = sum_below n f + f n

-- The loop that adds terms to one cell.
module _ (at : ℕ) (f : ℕ → ℕ) where
  abbrev pub adding : ℕ → List ℕ → List ℕ
  adding m c = for_to m (λ k. accumulate at (f k)) c

  length-adding : (m : ℕ) (c : List ℕ) → length (adding m c) ≡ length c
  length-adding zero c = refl
  length-adding (suc m) c =
      length-set (adding m c) at ((get_or (adding m c) at 0 + f m) % 2 ^ 32) ∙ length-adding m c

  adding_away : (m p : ℕ) (c : List ℕ) → p ≢ at → get_or (adding m c) p 0 ≡ get_or c p 0
  adding_away zero p c ne = refl
  adding_away (suc m) p c ne =
      get_or-set_ne (adding m c) at p ((get_or (adding m c) at 0 + f m) % 2 ^ 32) 0
        (λ e. ne (sym e))
      ∙ adding_away m p c ne

  adding_here :
      (m : ℕ) (c : List ℕ)
      → at < length c
      → get_or (adding m (set c at 0)) at 0 ≡ sum_below m f % 2 ^ 32
  adding_here zero c fits = get_or-set_self c at 0 0 fits
  adding_here (suc m) c fits =
      let before : List ℕ = adding m (set c at 0) in
      get_or-set_self before at ((get_or before at 0 + f m) % 2 ^ 32) 0
        (omega (arith, length-adding m (set c at 0), length-set c at 0))
      ∙ omega (arith, adding_here m c fits)

module _ (f : ℕ → ℕ) (n : ℕ) (a b : List ℕ) where
  abbrev pub term : (i j k : ℕ) → ℕ
  term i j k =
      f (sign_extend (get_or a (i * n + k) 0) * sign_extend (get_or b (k * n + j) 0) % 2 ^ 32)

  cell-Write :
      (i j : ℕ)
      → Write n i j
          (λ c. adding (i * n + j) (term i j) n (set c (i * n + j) 0))
          (λ _. sum_below n (term i j) % 2 ^ 32)
  cell-Write i j =
      let at : ℕ = i * n + j in
      record {
        len = λ c. length-adding at (term i j) n (set c at 0) ∙ length-set c at 0;
        here = λ c h. adding_here at (term i j) n c h;
        away = λ c p ne.
            adding_away at (term i j) n p (set c at 0) ne
            ∙ get_or-set_ne c at p 0 0 (λ e. ne (sym e));
      }

  pub product_cell :
      (i j : ℕ) (c : List ℕ)
      → i < n
      → j < n
      → n * n ≤ length c
      → get_or (product_loops f n c a b) (i * n + j) 0 ≡ sum_below n (term i j) % 2 ^ 32
  product_cell i j c =
      square_writes n (λ i j c. adding (i * n + j) (term i j) n (set c (i * n + j) 0))
        (λ i j _. sum_below n (term i j) % 2 ^ 32) cell-Write i j c

sum_mod : (n : ℕ) (f : ℕ → ℕ) → sum_below n (λ k. f k % 2 ^ 32) % 2 ^ 32 ≡ sum_below n f % 2 ^ 32
sum_mod zero f = refl
sum_mod (suc n) f = omega (arith, sum_mod n f)

-- What a bit pattern of 16 bits stands for, modulo 2 ^ 32: itself, or itself less 2 ^ 16.
abbrev pub signed_value : ℕ → ℕ
signed_value v = if ltb v (2 ^ 15) then v else 2 ^ 32 + v - 2 ^ 16

sign_extend-signed_value : (v : ℕ) → sign_extend v ≡ signed_value v
sign_extend-signed_value v = ground arith

-- The entry of row `i` and column `j` of the product of two matrices of `ee_s16`, modulo 2 ^ 32.
abbrev pub entry : (n : ℕ) → (a b : List ℕ) → (i j : ℕ) → ℕ
entry n a b i j =
    sum_below n (λ k. signed_value (get_or a (i * n + k) 0) * signed_value (get_or b (k * n + j) 0))

-- `matrix_mul_matrix` leaves in each of the n * n cells of C, which it has room for, the entry of the
-- product of the matrices A and B modulo 2 ^ 32; their bit patterns of 16 bits stand for signed numbers.
pub matrix_mul_matrix-entry :
    (n i j : ℕ) (c a b : List ℕ)
    → i < n
    → j < n
    → n * n ≤ length c
    → get_or (matrix_mul_matrix n c a b) (i * n + j) 0 ≡ entry n a b i j % 2 ^ 32
unfolding matrix_mul_matrix
matrix_mul_matrix-entry n i j c a b row column fits =
    product_cell (λ x. x) n a b i j c row column fits
    ∙ sum_mod n (λ k. sign_extend (get_or a (i * n + k) 0) * sign_extend (get_or b (k * n + j) 0))
    ∙ λ t.
        sum_below n (λ k.
          sign_extend-signed_value (get_or a (i * n + k) 0) t
          * sign_extend-signed_value (get_or b (k * n + j) 0) t)
        % 2 ^ 32

-- `matrix_mul_vect` leaves the product with the vector B in the first `N` cells of C, modulo 2 ^ 32.
pub matrix_mul_vect_lem :
    (n i : ℕ) (c a b : List ℕ)
    → i < n
    → n ≤ length c
    → get_or (matrix_mul_vect n c a b) i 0
      ≡ sum_below n (λ j. sign_extend (get_or a (i * n + j) 0) * sign_extend (get_or b j 0))
        % 2 ^ 32
unfolding matrix_mul_vect
matrix_mul_vect_lem n i c a b row fits = rows n row (omega arith)
  where
    element : ℕ → ℕ → ℕ
    element i j = sign_extend (get_or a (i * n + j) 0) * sign_extend (get_or b j 0) % 2 ^ 32

    vector : ℕ → List ℕ
    vector k = for_to k (λ i c. adding i (element i) n (set c i 0)) c

    vector_len : (k : ℕ) → length (vector k) ≡ length c
    vector_len zero = refl
    vector_len (suc k) =
        length-adding k (element k) n (set (vector k) k 0)
        ∙ length-set (vector k) k 0
        ∙ vector_len k

    rows :
        (k : ℕ)
        → i < k
        → k ≤ length c
        → get_or (vector k) i 0
          ≡ sum_below n (λ j. sign_extend (get_or a (i * n + j) 0) * sign_extend (get_or b j 0))
            % 2 ^ 32
    rows zero below wide = absurd (omega arith)
    rows (suc k) below wide = elim (Bool-cases (i == k)) [
      | inl last ↦
          let is : i ≡ k = ground arith in
          ap (λ (t : ℕ). get_or (adding k (element k) n (set (vector k) k 0)) t 0) is
          ∙ adding_here k (element k) n (vector k) (omega (arith, vector_len k))
          ∙ ap (λ (t : ℕ). sum_below n (element t) % 2 ^ 32) (sym is)
          ∙ sum_mod n (λ j. sign_extend (get_or a (i * n + j) 0) * sign_extend (get_or b j 0))
      | inr before ↦
          adding_away k (element k) n i (set (vector k) k 0) (ground arith)
          ∙ get_or-set_ne (vector k) k i 0 0 (ground arith)
          ∙ rows k (ground arith) (omega arith)
    ]
