-- ===== src/CoreMark/ListJoin/Bench/Behind.antt =====
-- The part of `core_bench_list` behind its sort by the data: one item is removed and put back, and the
-- list is sorted by index.
use takshaka.Base.{
  ℕ, zero, suc, ◌^◌, ◌≤◌, ◌<◌, ◌≡◌, refl, sym, ap, subst, ◌∙◌, Option, none, some, ◌>>=◌, List, [],
  ◌∷◌, length, length-append, arith,
}
use takshaka.CoreMark.Crc.{crc16}
use takshaka.CoreMark.ListJoin.{
  ListData, Heap, update, data_of, core_list_find, core_list_remove, core_list_undo_remove,
}
use takshaka.CoreMark.ListJoin.Chain.{IsChain, first_hit, core_list_find-first_hit}
use takshaka.CoreMark.ListJoin.Splice.{core_list_undo_remove-core_list_remove}
use takshaka.CoreMark.ListJoin.Sort.{core_list_mergesort}
use takshaka.CoreMark.ListJoin.Sort.Segments.{
  times, Single, SameItems, Seg, Seg-of_IsChain, IsChain-of_Seg, Seg-split, update-Seg,
}
use takshaka.CoreMark.ListJoin.Sort.Order.{Ascending}
use takshaka.CoreMark.ListJoin.Sort.Laws.{SortedAs}
use takshaka.CoreMark.ListJoin.Init.Filled.{Single-Distinct}
use takshaka.CoreMark.ListJoin.Bench.{CoreResults, crc_loop, or_next, cmp_idx}
use takshaka.CoreMark.ListJoin.Bench.Sorting.{signed_order, SameIndices, cmp_idx-SortedAs}
use takshaka.CoreMark.ListJoin.Bench.Moving.{split_at, length-same}
use takshaka.CoreMark.ListJoin.Bench.Caching.{first_hit-times}

-- The loop of the checksum ends with the chain.
crc_loop_total :
    (fuel : ℕ) (h : Heap) (list : ℕ) (p : Option ℕ) (v : ℕ) (xs : List ℕ)
    → IsChain h p xs
    → length xs ≤ fuel
    → (n : ℕ) × (crc_loop fuel h list p v ≡ some n)
unfolding crc_loop
crc_loop_total fuel h list p v [] c le = (v, rw c refl)
crc_loop_total zero h list p v (x ∷ xs) c le = absurd (omega arith)
crc_loop_total (suc fuel) h list p v (x ∷ xs) (e, c) le =
    let (n, runs) =
      crc_loop_total fuel h list (h.next x) (crc16 (data_of h list).data16 v) xs c (omega arith) in
    (n, rw (e, crc_loop) runs)

-- From an item of a chain the links lead through items of it.
inside-IsChain :
    (h : Heap) (p : Option ℕ) (x : ℕ) (xs : List ℕ)
    → IsChain h p xs
    → 1 ≤ times x xs
    → (back : List ℕ) × IsChain h (some x) (x ∷ back) × (length (x ∷ back) ≤ length xs)
inside-IsChain h p x xs c inside =
    let at = split_at x xs inside in
    let whole = subst (λ (t : List ℕ). Seg h.next p t none) at.is (Seg-of_IsChain h p xs c) in
    let (mid, front, (e, rest)) = Seg-split h.next p none at.front (x ∷ at.back) whole in
    (
      at.back,
      (refl, IsChain-of_Seg h (h.next x) at.back rest),
      omega (arith, ap (λ (t : List ℕ). length t) at.is, length-append {0} at.front (x ∷ at.back)),
    )

-- The first loop of the checksum, from the item that was found or from the second one.
crc_found_total :
    (fuel : ℕ) (h : Heap) (z : ℕ) (zs : List ℕ) (t : Option ℕ) (v : ℕ)
    → IsChain h (some z) (z ∷ zs)
    → length (z ∷ zs) ≤ fuel
    → ((x : ℕ) → t ≡ some x → 1 ≤ times x (z ∷ zs))
    → (n : ℕ) × (crc_loop fuel h z (or_next h z t) v ≡ some n)
crc_found_total fuel h z zs none v c le inside =
    crc_loop_total fuel h z (h.next z) v zs c.1 (omega arith)
crc_found_total fuel h z zs (some x) v c le inside =
    let (back, chain, short) = inside-IsChain h (some z) x (z ∷ zs) c (inside x refl) in
    crc_loop_total fuel h z (some x) v (x ∷ back) chain (omega arith)

-- The heap without the item `b`, which stands behind `a`; `z` stands before both.
pub record Unlinked (h : Heap) (z a b : ℕ) (ws : List ℕ) : Type 0 where
  pub heap : Heap
  pub runs : core_list_remove h a ≡ some (b, heap)
  pub chain : IsChain heap (some z) (z ∷ a ∷ ws)
  pub undone : core_list_undo_remove heap b a ≡ (b, h)

heap_or : Heap → Option (ℕ × Heap) → Heap
heap_or h none = h
heap_or h (some (b, h')) = h'

unlink_next :
    (next : ℕ → Option ℕ) (z a b : ℕ) (ws : List ℕ)
    → Seg next (some z) (z ∷ a ∷ b ∷ ws) none
    → Single (z ∷ a ∷ b ∷ ws)
    → Seg (update (update next a (next b)) b none) (some z) (z ∷ a ∷ ws) none
unlink_next next z a b ws (_, (to_a, (to_b, s))) single =
    let n = update (update next a (next b)) b none in
    let of_z = single z in
    let of_a = single a in
    let of_b = single b in
    let at_z : n z ≡ some a = ground (arith, to_a, of_z) in
    let at_a : n a ≡ next b = ground (arith, of_a) in
    (
      refl,
      (
        at_z,
        rw at_a (
            update-Seg (update next a (next b)) b none (next b) none ws (ground (arith, of_b))
              (update-Seg next a (next b) (next b) none ws (ground (arith, of_a)) s)),
      ),
    )

unlink :
    (h : Heap) (z a b : ℕ) (ws : List ℕ)
    → IsChain h (some z) (z ∷ a ∷ b ∷ ws)
    → Single (z ∷ a ∷ b ∷ ws)
    → Unlinked h z a b ws
unfolding core_list_remove heap_or
unlink h z a b ws chain single =
    let (h2, runs, undone) =
      core_list_undo_remove-core_list_remove h a b chain.1.1.0 (ground (arith, single a)) in
    let h1 : Heap = record {
      next = update (update h.next a (h.next b)) b none;
      info = update (update h.info a (h.info b)) b (h.info a);
      cell = h.cell;
    } in
    let direct : core_list_remove h a ≡ some (b, h1) = rw (chain.1.1.0, ◌>>=◌) refl in
    record {
      heap = h2;
      runs = runs;
      chain =
          subst (λ (g : Heap). IsChain g (some z) (z ∷ a ∷ ws)) (ap (heap_or h) (sym direct ∙ runs))
            (IsChain-of_Seg h1 (some z) (z ∷ a ∷ ws) (
              unlink_next h.next z a b ws (Seg-of_IsChain h (some z) (z ∷ a ∷ b ∷ ws) chain)
                single));
      undone = undone;
    }

-- The result of the last sort with its first item, and the checksum over it.
pub record Resorted (h : Heap) (xs : List ℕ) (items v : ℕ)
    (r : Option (Option ℕ × Heap × Option CoreResults)) : Type 0 where
  pub head : ℕ
  pub heap : Heap
  pub zs : List ℕ
  pub out : Option CoreResults
  pub crc : ℕ
  pub runs : r ≡ some (some head, heap, out)
  pub summed : crc_loop items heap head (heap.next head) v ≡ some crc
  pub chain : IsChain heap (some head) (head ∷ zs)
  pub same_items : SameItems (head ∷ zs) xs
  pub ascends : Ascending (λ x. signed_order (h.cell (h.info x)).idx) 0 (head ∷ zs)
  pub same_info : heap.info ≡ h.info
  pub same_indices : (a : ℕ) → (heap.cell a).idx ≡ (h.cell a).idx

SortedAs-Resorted :
    (h : Heap) (xs : List ℕ) (items v : ℕ) (r : Option (Option ℕ × Heap × Option CoreResults))
    → 1 ≤ length xs
    → length xs ≤ items
    → SortedAs (λ a. signed_order (h.cell a).idx) (SameIndices (λ a. (h.cell a).idx)) h.info xs r
    → Resorted h xs items v r
SortedAs-Resorted h xs items v r nonempty le s =
    let (z, rest, is) = first_item s.zs (omega (arith, length-same s.zs xs s.same_items)) in
    let chain : IsChain s.heap s.head (z ∷ rest) =
      subst (λ (t : List ℕ). IsChain s.heap s.head t) is s.chain in
    let same : SameItems (z ∷ rest) xs = subst (λ (t : List ℕ). SameItems t xs) is s.same_items in
    let (n, summed) =
      crc_loop_total items s.heap z (s.heap.next z) v rest chain.1
        (omega (arith, length-same (z ∷ rest) xs same)) in
    record {
      head = z;
      heap = s.heap;
      zs = rest;
      out = s.res;
      crc = n;
      runs = s.runs ∙ ap (λ (p : Option ℕ). some (p, s.heap, s.res)) chain.0;
      summed = summed;
      chain = (refl, chain.1);
      same_items = same;
      ascends =
          subst (λ (t : List ℕ). Ascending (λ x. signed_order (h.cell (h.info x)).idx) 0 t) is
            s.ascends;
      same_info = s.same_info;
      same_indices = s.kept.1;
    }
  where
    first_item : (zs : List ℕ) → 1 ≤ length zs → (z : ℕ) × (rest : List ℕ) × (zs ≡ z ∷ rest)
    first_item [] some_item = absurd (omega arith)
    first_item (z ∷ rest) some_item = (z, rest, refl)

-- The part of a run behind the first loop, in the heap that the loop leaves.
pub record Behind (h : Heap) (z a b : ℕ) (ws : List ℕ) (items v : ℕ) (info : ListData)
    : Type 0 where
  pub gone : Unlinked h z a b ws
  pub first : ℕ
  pub found :
      core_list_find items gone.heap (some z) info ≡ some (first_hit gone.heap info (z ∷ a ∷ ws))
  pub summed :
      crc_loop items gone.heap z (or_next gone.heap z (first_hit gone.heap info (z ∷ a ∷ ws))) v
      ≡ some first
  pub sorted :
      Resorted h (z ∷ a ∷ b ∷ ws) items first (core_list_mergesort cmp_idx items (some z) h none)

pub rest-Behind :
    (h : Heap) (z a b : ℕ) (ws : List ℕ) (items v : ℕ) (info : ListData)
    → ((x : ℕ) → (h.cell x).idx < 2 ^ 16)
    → IsChain h (some z) (z ∷ a ∷ b ∷ ws)
    → Single (z ∷ a ∷ b ∷ ws)
    → length (z ∷ a ∷ b ∷ ws) ≤ items
    → Behind h z a b ws items v info
rest-Behind h z a b ws items v info small chain single le =
    let gone = unlink h z a b ws chain single in
    let fits : length (z ∷ a ∷ ws) ≤ items = omega (arith, le) in
    let (first, summed) =
      crc_found_total items gone.heap z (a ∷ ws) (first_hit gone.heap info (z ∷ a ∷ ws)) v
        gone.chain fits (first_hit-times gone.heap info (z ∷ a ∷ ws)) in
    record {
      gone = gone;
      first = first;
      found = core_list_find-first_hit items gone.heap (some z) info (z ∷ a ∷ ws) gone.chain fits;
      summed = summed;
      sorted = SortedAs-Resorted h (z ∷ a ∷ b ∷ ws) items first _ (omega arith) le (
          cmp_idx-SortedAs items (some z) h (z ∷ a ∷ b ∷ ws) small chain
            (Single-Distinct (z ∷ a ∷ b ∷ ws) single) (omega arith) le);
    }
