-- ===== src/CoreMark/Matrix/Loops.antt =====
-- Two nested loops that write the cells of a square matrix one after the other.
use takshaka.Base.{
  ℕ, zero, suc, ◌+◌, ◌*◌, ◌≤◌, ◌<◌, ◌≡◌, ◌≢◌, refl, ap, ◌∙◌, ltb, List, [], ◌∷◌, get_or, length,
  arith, Bool-cases, inl, inr, ◌⊎◌,
}
use takshaka.CoreMark.Matrix.{for_to}

pub row_below : (i k n : ℕ) → i < k → i * n + n ≤ k * n
row_below i k n h = grind arith

pub list_ext :
    (xs ys : List ℕ) → length xs ≡ length ys → ((p : ℕ) → get_or xs p 0 ≡ get_or ys p 0) → xs ≡ ys
list_ext [] [] e h = refl
list_ext [] (y ∷ ys) e h = absurd (omega arith)
list_ext (x ∷ xs) [] e h = absurd (omega arith)
list_ext (x ∷ xs) (y ∷ ys) e h =
    ap (λ (z : ℕ). z ∷ xs) (h 0)
    ∙ ap (λ (zs : List ℕ). y ∷ zs) (list_ext xs ys (omega arith) (λ p. h (suc p)))

-- One write: to the cell of row `i` and column `j`, of a value made of the one that stood there.
pub record Write (n i j : ℕ) (act : List ℕ → List ℕ) (w : ℕ → ℕ) : Type 0 where
  pub len : (c : List ℕ) → length (act c) ≡ length c
  pub here :
      (c : List ℕ)
      → i * n + j < length c
      → get_or (act c) (i * n + j) 0 ≡ w (get_or c (i * n + j) 0)
  pub away : (c : List ℕ) (p : ℕ) → p ≢ i * n + j → get_or (act c) p 0 ≡ get_or c p 0

module _ (n : ℕ) (act : ℕ → ℕ → List ℕ → List ℕ) (w : ℕ → ℕ → ℕ → ℕ)
    (one : (i j : ℕ) → Write n i j (act i j) (w i j)) where
  row_len : (i m : ℕ) (c : List ℕ) → length (for_to m (act i) c) ≡ length c
  row_len i zero c = refl
  row_len i (suc m) c = (one i m).len (for_to m (act i) c) ∙ row_len i m c

  row_away :
      (i m p : ℕ) (c : List ℕ)
      → (p < i * n) ⊎ (i * n + m ≤ p)
      → get_or (for_to m (act i) c) p 0 ≡ get_or c p 0
  row_away i zero p c h = refl
  row_away i (suc m) p c h =
      (one i m).away (for_to m (act i) c) p (ground arith) ∙ row_away i m p c (ground arith)

  row_here :
      (i m j : ℕ) (c : List ℕ)
      → j < m
      → i * n + m ≤ length c
      → get_or (for_to m (act i) c) (i * n + j) 0 ≡ w i j (get_or c (i * n + j) 0)
  row_here i zero j c lt fits = absurd (omega arith)
  row_here i (suc m) j c lt fits = elim (Bool-cases (ltb j m)) [
    | inl before ↦
        (one i m).away (for_to m (act i) c) (i * n + j) (ground arith)
        ∙ row_here i m j c (ground arith) (omega arith)
    | inr last ↦
        let is : m ≡ j = ground arith in
        ap (λ (t : ℕ). get_or (act i t (for_to t (act i) c)) (i * n + j) 0) is
        ∙ (one i j).here (for_to j (act i) c) (omega (arith, row_len i j c))
        ∙ ap (w i j) (row_away i j (i * n + j) c (inr (omega arith)))
  ]

  abbrev square : ℕ → List ℕ → List ℕ
  square k c = for_to k (λ i. for_to n (act i)) c

  square_len : (k : ℕ) (c : List ℕ) → length (square k c) ≡ length c
  square_len zero c = refl
  square_len (suc k) c = row_len k n (square k c) ∙ square_len k c

  square_away : (k p : ℕ) (c : List ℕ) → k * n ≤ p → get_or (square k c) p 0 ≡ get_or c p 0
  square_away zero p c h = refl
  square_away (suc k) p c h =
      row_away k n p (square k c) (inr (omega (arith, row_below k (suc k) n (omega arith))))
      ∙ square_away k p c (omega (arith, row_below k (suc k) n (omega arith)))

  square_here :
      (k i j : ℕ) (c : List ℕ)
      → i < k
      → j < n
      → k * n ≤ length c
      → get_or (square k c) (i * n + j) 0 ≡ w i j (get_or c (i * n + j) 0)
  square_here zero i j c below inside fits = absurd (omega arith)
  square_here (suc k) i j c below inside fits =
      let wide : k * n + n ≤ length c = omega (arith, row_below k (suc k) n (omega arith)) in
      elim (Bool-cases (ltb i k)) [
        | inl before ↦
            row_away k n (i * n + j) (square k c)
              (inl (omega (arith, row_below i k n (ground arith))))
            ∙ square_here k i j c (ground arith) inside (omega arith)
        | inr last ↦
            let is : k ≡ i = ground arith in
            ap (λ (t : ℕ). get_or (for_to n (act t) (square t c)) (i * n + j) 0) is
            ∙ row_here i n j (square i c) inside
                (omega (arith, square_len i c, ap (λ (t : ℕ). t * n) is))
            ∙ ap (w i j) (square_away i (i * n + j) c (omega arith))
      ]

  -- All cells of the square are written once, and nothing else.
  pub square_writes :
      (i j : ℕ) (c : List ℕ)
      → i < n
      → j < n
      → n * n ≤ length c
      → get_or (square n c) (i * n + j) 0 ≡ w i j (get_or c (i * n + j) 0)
  square_writes i j c = square_here n i j c

  pub length-square : (c : List ℕ) → length (square n c) ≡ length c
  length-square c = square_len n c

  pub square_frame : (p : ℕ) (c : List ℕ) → n * n ≤ p → get_or (square n c) p 0 ≡ get_or c p 0
  square_frame p c = square_away n p c
