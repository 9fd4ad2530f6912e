-- ===== src/CoreMark/ListJoin/Sort/Order.antt =====
-- The interface of a comparison function, ascending lists, and lists that consist of ascending runs.
use takshaka.Base.{
  ℕ, zero, suc, ◌≤◌, ◌<◌, ◌≡◌, refl, ◌⊎◌, inl, true, false, Option, some, List, [], ◌∷◌, ◌++◌,
  length, arith, append-nil, sym, ap, ◌∙◌, subst,
}
use takshaka.CoreMark.ListJoin.{ListData, Heap}
use takshaka.CoreMark.ListJoin.Sort.{Compare, at_most_zero}
use takshaka.CoreMark.ListJoin.Sort.Segments.{Single}

-- What a comparison must do on a state that it keeps: return, write at most to the data cells and the
-- results, and answer by a key of the `info` pointers, either way where the keys are equal.
pub record Answer {R : Type 0} (key : ℕ → ℕ) (Inv : (ℕ → ListData) → R → Type 0) (a b : ℕ)
    (h : Heap) (r : Option (ℕ × Heap × R)) : Type 0 where
  pub value : ℕ
  pub cell : ℕ → ListData
  pub res : R
  pub runs : r ≡ some (value, record h { cell = cell }, res)
  pub kept : Inv cell res
  pub at_most : at_most_zero value ≡ true → key a ≤ key b
  pub above : at_most_zero value ≡ false → key b ≤ key a

abbrev pub ComparesBy : {R : Type 0} → Compare R → (ℕ → ℕ) → ((ℕ → ListData) → R → Type 0) → Type 0
ComparesBy {R} cmp key Inv =
    (a b : ℕ) (h : Heap) (r : R) → Inv h.cell r → Answer key Inv a b h (cmp a b h r)

-- What the sort is called with: a comparison, the `info` pointer of each item, and the items.
pub record Problem (R : Type 0) : Type 1 where
  pub cmp : Compare R
  pub key : ℕ → ℕ
  pub Inv : (ℕ → ListData) → R → Type 0
  pub compares : ComparesBy cmp key Inv
  pub info : ℕ → ℕ
  pub items : List ℕ
  pub single : Single items

-- The key of an item.
abbrev pub key_of : {R : Type 0} → Problem R → ℕ → ℕ
key_of pr x = pr.key (pr.info x)

module _ (k : ℕ → ℕ) where
  -- The keys do not fall, and the first is not below `low`.
  abbrev pub Ascending : ℕ → List ℕ → Type 0
  Ascending low [] = Unit
  Ascending low (x ∷ xs) = (low ≤ k x) × Ascending (k x) xs

  -- A list of `n` ascending runs: all but the last have `w` items, and the last has at most `w`.
  abbrev pub Runs : (w n : ℕ) → List ℕ → Type 0
  Runs w zero zs = zs ≡ []
  Runs w (suc n) zs =
      (run : List ℕ) × (rest : List ℕ) × (zs ≡ run ++ rest)
      × Ascending 0 run
      × (1 ≤ length run)
      × (length run ≤ w)
      × ((length run ≡ w) ⊎ (n ≡ 0))
      × Runs w n rest

  pub raise-Ascending :
      (low : ℕ) (x : ℕ) (xs : List ℕ) (new : ℕ)
      → new ≤ k x
      → Ascending low (x ∷ xs)
      → Ascending new (x ∷ xs)
  raise-Ascending low x xs new h (_, a) = (h, a)

  pub Runs-one : (w : ℕ) (zs : List ℕ) → Runs w 1 zs → Ascending 0 zs
  Runs-one w zs (run, rest, is, asc, _, _, _, e) =
      subst (Ascending 0) (sym (is ∙ ap (λ (r : List ℕ). run ++ r) e ∙ append-nil run)) asc

  -- Every list consists of runs of one item.
  pub Runs-singles : (zs : List ℕ) → Runs 1 (length zs) zs
  Runs-singles [] = refl
  Runs-singles (x ∷ zs) =
      (x ∷ [], zs, refl, (omega arith, tt), omega arith, omega arith, inl refl, Runs-singles zs)

-- The number of merges of `n` runs, two by two.
abbrev pub halves : ℕ → ℕ
halves zero = 0
halves (suc zero) = 1
halves (suc (suc n)) = suc (halves n)

pub halves-le : (n : ℕ) → halves n ≤ n
halves-le zero = omega arith
halves-le (suc zero) = omega arith
halves-le (suc (suc n)) = omega (arith, halves-le n)

pub halves-lt : (n : ℕ) → 2 ≤ n → halves n < n
halves-lt zero h = absurd (omega arith)
halves-lt (suc zero) h = absurd (omega arith)
halves-lt (suc (suc n)) h = omega (arith, halves-le n)

pub halves_pos : (n : ℕ) → 1 ≤ n → 1 ≤ halves n
halves_pos zero h = absurd (omega arith)
halves_pos (suc zero) h = omega arith
halves_pos (suc (suc n)) h = omega arith
