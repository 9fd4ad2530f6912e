-- ===== src/CoreMark/ListJoin/Sort/Laws.antt =====
-- `core_list_mergesort` sorts: with enough fuel it returns the same items, in the order of their keys.
use takshaka.Base.{
  ℕ, zero, suc, ◌+◌, ◌*◌, ◌≤◌, ◌≡◌, refl, subst, inl, inr, leb, Bool-cases, Option, none, some,
  ◌>>=◌, List, [], ◌∷◌, length, arith,
}
use takshaka.CoreMark.ListJoin.{ListData, Heap}
use takshaka.CoreMark.ListJoin.Chain.{IsChain, Distinct}
use takshaka.CoreMark.ListJoin.Sort.{Compare, sort_loop, core_list_mergesort}
use takshaka.CoreMark.ListJoin.Sort.Segments.{
  SameItems, Seg, Seg-of_IsChain, IsChain-of_Seg, Distinct-Single,
}
use takshaka.CoreMark.ListJoin.Sort.Order.{
  ComparesBy, Problem, key_of, Ascending, Runs, Runs-one, Runs-singles, halves, halves-le,
  halves-lt, halves_pos,
}
use takshaka.CoreMark.ListJoin.Sort.Pass.{merge_pass-PassDone, some_item}

-- The sort returns, and its result is a chain of the same items with keys that do not fall, in a heap
-- with the same `info` pointers and in a state that the comparison keeps.
pub record SortedAs {R : Type 0} (key : ℕ → ℕ) (Inv : (ℕ → ListData) → R → Type 0) (info : ℕ → ℕ)
    (items : List ℕ) (r : Option (Option ℕ × Heap × R)) : Type 0 where
  pub head : Option ℕ
  pub heap : Heap
  pub res : R
  pub zs : List ℕ
  pub runs : r ≡ some (head, heap, res)
  pub chain : IsChain heap head zs
  pub same_items : SameItems zs items
  pub ascends : Ascending (λ x. key (info x)) 0 zs
  pub same_info : heap.info ≡ info
  pub kept : Inv heap.cell res

sort_loop-SortedAs :
    {R : Type 0} (pr : Problem R) (fuel bound w n : ℕ) (list : Option ℕ) (h : Heap) (res : R)
    (zs : List ℕ)
    → Seg h.next list zs none
    → h.info ≡ pr.info
    → pr.Inv h.cell res
    → SameItems zs pr.items
    → Runs (key_of pr) w n zs
    → 1 ≤ n
    → n ≤ fuel
    → halves n ≤ bound
    → SortedAs pr.key pr.Inv pr.info pr.items (sort_loop pr.cmp fuel bound w list h res)
unfolding sort_loop
sort_loop-SortedAs pr zero bound w n list h res zs seg info kept all shape pos enough room =
    absurd (omega (arith, pos, enough))
sort_loop-SortedAs pr (suc fuel) bound w n list h res [] seg info kept all shape pos enough room =
    absurd (omega (arith, some_item pr w n [] pos shape))
sort_loop-SortedAs pr (suc fuel) bound w n list h res (z ∷ zs) seg info kept all shape pos enough
      room =
    let p = merge_pass-PassDone pr bound w n list h res z zs seg info kept all shape room in
    elim (Bool-cases (leb p.after.nmerges 1)) [
      | inl last ↦
          let one : halves n ≡ 1 = ground (arith, last, p.merges, halves_pos n pos) in
          record {
            head = p.after.list;
            heap = p.after.heap;
            res = p.after.res;
            zs = p.zs;
            runs = rw (p.runs, ◌>>=◌, last) refl;
            chain = IsChain-of_Seg p.after.heap p.after.list p.zs p.linked_up;
            same_items = p.all;
            ascends =
                Runs-one (key_of pr) (w + w) p.zs
                  (subst (λ (m : ℕ). Runs (key_of pr) (w + w) m p.zs) one p.shape);
            same_info = p.same_info;
            kept = p.kept;
          }
      | inr more ↦
          rw (p.runs, ◌>>=◌, more)
            (sort_loop-SortedAs pr fuel bound (w * 2) (halves n) p.after.list p.after.heap
              p.after.res p.zs p.linked_up p.same_info p.kept p.all
              (subst (λ (v : ℕ). Runs (key_of pr) v (halves n) p.zs) (omega arith) p.shape)
              (halves_pos n pos)
              (omega (arith, enough, halves-lt n (ground (arith, more, p.merges, halves-le n))))
              (omega (arith, room, halves-le (halves n))))
    ]

-- For a comparison that returns, writes at most to the data cells and the results, and answers by a key
-- of the `info` pointers, the sort of a list of at most `bound` distinct items, at least one, returns:
-- a chain of the same items, in the order of their keys.
pub core_list_mergesort-SortedAs :
    {R : Type 0} (cmp : Compare R) (key : ℕ → ℕ) (Inv : (ℕ → ListData) → R → Type 0)
    → ComparesBy cmp key Inv
    → (bound : ℕ) (list : Option ℕ) (h : Heap) (res : R) (xs : List ℕ) → IsChain h list xs
    → Distinct xs
    → 1 ≤ length xs
    → length xs ≤ bound
    → Inv h.cell res
    → SortedAs key Inv h.info xs (core_list_mergesort cmp bound list h res)
unfolding core_list_mergesort
core_list_mergesort-SortedAs cmp key Inv compares bound list h res xs chain distinct nonempty le
      kept =
    let pr : Problem _ = record {
      cmp = cmp;
      key = key;
      Inv = Inv;
      compares = compares;
      info = h.info;
      items = xs;
      single = Distinct-Single xs distinct;
    } in
    sort_loop-SortedAs pr (bound + 1) bound 1 (length xs) list h res xs
      (Seg-of_IsChain h list xs chain) refl kept (λ a. refl) (Runs-singles (key_of pr) xs) nonempty
      (omega (arith, le)) (omega (arith, le, halves-le (length xs)))
