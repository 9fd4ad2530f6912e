-- ===== src/CoreMark/ListJoin/Bench/Sorting.antt =====
-- `cmp_idx` answers by the signed index, so the last sort of `core_bench_list` orders the list by index.
use takshaka.Base.{
  ℕ, ◌+◌, ◌%◌, ◌^◌, ◌≤◌, ◌<◌, ◌≡◌, refl, ap, ◌∙◌, subst, ◌==◌, true, false, if◌then◌else◌, Option,
  none, some, List, length, arith,
}
use takshaka.CoreMark.ListJoin.{ListData, Heap}
use takshaka.CoreMark.ListJoin.Chain.{IsChain, Distinct}
use takshaka.CoreMark.ListJoin.Sort.{at_most_zero, core_list_mergesort}
use takshaka.CoreMark.ListJoin.Sort.Order.{ComparesBy}
use takshaka.CoreMark.ListJoin.Sort.Laws.{SortedAs, core_list_mergesort-SortedAs}
use takshaka.CoreMark.ListJoin.Bench.{CoreResults, difference, rebuilt, cmp_idx}

-- An `ee_s16` by its bit pattern, moved up so that the numbers are in the order of the integers.
abbrev pub signed_order : ℕ → ℕ
signed_order v = (v + 2 ^ 15) % 2 ^ 16

at_most-signed_order :
    (u v : ℕ)
    → u < 2 ^ 16
    → v < 2 ^ 16
    → at_most_zero (difference u v) ≡ true
    → signed_order u ≤ signed_order v
at_most-signed_order u v hu hv h = ground arith

above-signed_order :
    (u v : ℕ)
    → u < 2 ^ 16
    → v < 2 ^ 16
    → at_most_zero (difference u v) ≡ false
    → signed_order v ≤ signed_order u
above-signed_order u v hu hv h = ground arith

-- There are no results, and the indices are `idx`.
abbrev pub SameIndices : (idx : ℕ → ℕ) → (ℕ → ListData) → Option CoreResults → Type 0
SameIndices idx cell r = (r ≡ none) × ((a : ℕ) → (cell a).idx ≡ idx a)

-- A write to the data of a cell leaves all indices.
write-idx :
    (cell : ℕ → ListData) (a d x : ℕ)
    → (if x == a then record { data16 = d; idx = (cell a).idx } else cell x).idx ≡ (cell x).idx
write-idx cell a d x = ground (arith, ap (λ (y : ℕ). (cell y).idx) {x = x} {y = a})

pub cmp_idx-ComparesBy :
    (idx : ℕ → ℕ)
    → ((a : ℕ) → idx a < 2 ^ 16)
    → ComparesBy cmp_idx (λ a. signed_order (idx a)) (SameIndices idx)
unfolding cmp_idx
cmp_idx-ComparesBy idx small a b h (some r) (absent, same) = absurd (cc absent)
cmp_idx-ComparesBy idx small a b h none (absent, same) = record {
  value = difference (cell2 a).idx (cell2 b).idx;
  cell = cell2;
  res = none;
  runs = refl;
  kept = (refl, same2);
  at_most = λ e.
      at_most-signed_order (idx a) (idx b) (small a) (small b)
        (subst (λ (v : ℕ). at_most_zero v ≡ true) value e);
  above = λ e.
      above-signed_order (idx a) (idx b) (small a) (small b)
        (subst (λ (v : ℕ). at_most_zero v ≡ false) value e);
}
  where
    cell1 : ℕ → ListData
    cell1 x =
        if x == a
        then record { data16 = rebuilt (h.cell a).data16; idx = (h.cell a).idx }
        else h.cell x

    cell2 : ℕ → ListData
    cell2 x =
        if x == b
        then record { data16 = rebuilt (cell1 b).data16; idx = (cell1 b).idx }
        else cell1 x

    same1 : (x : ℕ) → (cell1 x).idx ≡ idx x
    same1 x = write-idx h.cell a (rebuilt (h.cell a).data16) x ∙ same x

    same2 : (x : ℕ) → (cell2 x).idx ≡ idx x
    same2 x = write-idx cell1 b (rebuilt (cell1 b).data16) x ∙ same1 x

    value : difference (cell2 a).idx (cell2 b).idx ≡ difference (idx a) (idx b)
    value = rw (same2 a, same2 b) refl

-- For indices of 16 bits, the sort of a list of at most `bound` distinct items, at least one, by
-- `cmp_idx` without results returns: a chain of the same items in the order of their signed indices.
pub cmp_idx-SortedAs :
    (bound : ℕ) (list : Option ℕ) (h : Heap) (xs : List ℕ)
    → ((a : ℕ) → (h.cell a).idx < 2 ^ 16)
    → IsChain h list xs
    → Distinct xs
    → 1 ≤ length xs
    → length xs ≤ bound
    → SortedAs
        (λ a. signed_order (h.cell a).idx)
        (SameIndices (λ a. (h.cell a).idx))
        h.info
        xs
        (core_list_mergesort cmp_idx bound list h none)
cmp_idx-SortedAs bound list h xs small chain distinct nonempty le =
    core_list_mergesort-SortedAs cmp_idx (λ a. signed_order (h.cell a).idx)
      (SameIndices (λ a. (h.cell a).idx)) (cmp_idx-ComparesBy (λ a. (h.cell a).idx) small) bound
      list h none xs chain distinct nonempty le (refl, λ a. refl)
