-- ===== src/CoreMark/ListJoin/Init/Sorted.antt =====
-- `core_list_init` returns a list of all its cells but the last, in the order of the signed indices.
use takshaka.Base.{
  ℕ, zero, suc, ◌+◌, ◌-◌, ◌*◌, ◌/◌, ◌%◌, ◌^◌, ◌≤◌, ◌<◌, ◌≡◌, refl, sym, ap, ◌∙◌, subst, ◌==◌, ltb,
  if◌then◌else◌, Bool-cases, inl, inr, Option, none, some, ◌>>=◌, List, [], ◌∷◌, length, arith,
  bit_and, bit_or, bit_xor,
}
use takshaka.Base.Bits.{and_mask}
use takshaka.Base.Fields.{and_comm}
use takshaka.CoreMark.ListJoin.{
  Heap, Pools, core_list_insert_new, set_next, set_info, set_cell, data_of,
}
use takshaka.CoreMark.ListJoin.Chain.{IsChain}
use takshaka.CoreMark.ListJoin.Sort.{core_list_mergesort}
use takshaka.CoreMark.ListJoin.Sort.Segments.{times, Seg, Seg-of_IsChain, IsChain-of_Seg}
use takshaka.CoreMark.ListJoin.Sort.Order.{Ascending}
use takshaka.CoreMark.ListJoin.Sort.Laws.{SortedAs}
use takshaka.CoreMark.ListJoin.Bench.{CoreResults, cmp_idx}
use takshaka.CoreMark.ListJoin.Bench.Moving.{length-same}
use takshaka.CoreMark.ListJoin.Bench.Sorting.{signed_order, SameIndices, cmp_idx-SortedAs}
use takshaka.CoreMark.ListJoin.Init.{insert_loop, index_of, index_loop, core_list_init}
use takshaka.CoreMark.ListJoin.Init.Filled.{
  Filled, Grown, AllFilled, insert-Grown, insert_loop-AllFilled, Single-Distinct,
}

index_of-lt : (size seed i : ℕ) → index_of size seed i < 2 ^ 16
index_of-lt size seed i =
    let rest = bit_or (bit_and (i + 1) 7 * 2 ^ 8) (bit_xor i seed % 2 ^ 16) in
    let masked : bit_and 0x3fff rest ≡ rest % 2 ^ 14 = and_comm 0x3fff rest ∙ and_mask 14 rest in
    elim (Bool-cases (ltb i (size / 5))) [
      | inl e ↦ rw e (omega arith)
      | inr e ↦ rw (e, masked) (omega arith)
    ]

-- The loop returns, and has written to indices only.
record Indexed (h : Heap) (r : Option Heap) : Type 0 where
  after : Heap
  runs : r ≡ some after
  same_next : after.next ≡ h.next
  same_info : after.info ≡ h.info
  small : (a : ℕ) → (after.cell a).idx < 2 ^ 16

index_loop-Indexed :
    (fuel size seed i : ℕ) (h : Heap) (finder : ℕ) (ys : List ℕ)
    → IsChain h (h.next finder) ys
    → length ys < fuel
    → ((a : ℕ) → (h.cell a).idx < 2 ^ 16)
    → Indexed h (index_loop fuel size seed i h finder)
unfolding index_loop
index_loop-Indexed zero size seed i h finder ys chain enough small = absurd (omega (arith, enough))
index_loop-Indexed (suc fuel) size seed i h finder [] end enough small = record {
  after = h;
  runs = rw (index_loop, end) refl;
  same_next = refl;
  same_info = refl;
  small = small;
}
index_loop-Indexed (suc fuel) size seed i h finder (y ∷ ys) (e, chain) enough small =
    let d = data_of h finder in
    let h' =
      set_cell h (h.info finder) (record { data16 = d.data16; idx = index_of size seed i }) in
    let rest = index_loop-Indexed fuel size seed (i + 1) h' y ys chain (omega (arith, enough)) (λ a.
      elim (Bool-cases (a == h.info finder)) [
        | inl here ↦ rw here (index_of-lt size seed i)
        | inr there ↦ rw there (small a)
      ]) in
    record {
      after = rest.after;
      runs = rw (index_loop, e) rest.runs;
      same_next = rest.same_next;
      same_info = rest.same_info;
      small = rest.small;
    }

-- The list is sorted, each cell below the last one stands in it once, and the indices are of 16 bits.
pub record Ready (size : ℕ) (r : Option (Option ℕ × Heap)) : Type 0 where
  pub head : Option ℕ
  pub heap : Heap
  pub zs : List ℕ
  pub runs : r ≡ some (head, heap)
  pub chain : IsChain heap head zs
  pub once : (e : ℕ) → times e zs ≡ (if ltb (e + 1) size then 1 else 0)
  pub ascends : Ascending (λ x. signed_order (heap.cell (heap.info x)).idx) 0 zs
  pub len : length zs + 1 ≡ size
  pub small : (a : ℕ) → (heap.cell a).idx < 2 ^ 16

-- The sort of the indexed list.
ready :
    (size : ℕ) (h : Heap) (xs : List ℕ) (r : Option (Option ℕ × Heap × Option CoreResults))
    → ((e : ℕ) → times e xs ≡ (if ltb (e + 1) size then 1 else 0))
    → length xs + 1 ≡ size
    → ((a : ℕ) → (h.cell a).idx < 2 ^ 16)
    → SortedAs (λ a. signed_order (h.cell a).idx) (SameIndices (λ a. (h.cell a).idx)) h.info xs r
    → Ready size (do (list, sorted, _) ← r; some (list, sorted))
ready size h xs r once len small s =
    let key : (x : ℕ)
        → signed_order (h.cell (h.info x)).idx ≡ signed_order (s.heap.cell (s.heap.info x)).idx =
      λ x. ap signed_order (
        sym (s.kept.1 (h.info x))
        ∙ ap (λ (f : ℕ → ℕ). (s.heap.cell (f x)).idx) (sym s.same_info)) in
    record {
      head = s.head;
      heap = s.heap;
      zs = s.zs;
      runs = rw (s.runs, ◌>>=◌) refl;
      chain = s.chain;
      once = λ e. s.same_items e ∙ once e;
      ascends = subst (λ (k : ℕ → ℕ). Ascending k 0 s.zs) (λ i x. key x i) s.ascends;
      len = omega (arith, length-same s.zs xs s.same_items, len);
      small = λ a. subst (λ (v : ℕ). v < 2 ^ 16) (sym (s.kept.1 a)) (small a);
    }

-- The last two steps, on a filled list.
index_and_sort :
    (size seed : ℕ) (h : Heap) (b : Pools) (xs : List ℕ)
    → 3 ≤ size
    → Filled size h b xs
    → b.memblock + 1 ≡ size
    → Ready size (do
      finder ← h.next 0
      indexed ← index_loop (size + 1) size seed 1 h finder
      (list, sorted, _) ← core_list_mergesort cmp_idx (size + 1) (some 0) indexed none
      some (list, sorted))
index_and_sort size seed h b [] enough f all = absurd (omega (arith, enough, all, f.len))
index_and_sort size seed h b (x ∷ xs) enough f all =
    let (from_start, (to_first, chain)) = f.chain in
    let d =
      index_loop-Indexed (size + 1) size seed 1 h x xs chain (omega (arith, f.len, all)) f.small in
    let linked = IsChain-of_Seg d.after (some 0) (0 ∷ x ∷ xs) (
      subst (λ (next : ℕ → Option ℕ). Seg next (some 0) (0 ∷ x ∷ xs) none) (sym d.same_next)
        (Seg-of_IsChain h (some 0) (0 ∷ x ∷ xs) f.chain)) in
    let once : (e : ℕ) → times e (0 ∷ x ∷ xs) ≡ (if ltb (e + 1) size then 1 else 0) =
      λ e. ground (arith, f.once e, all) in
    rw (to_first, ◌>>=◌, d.runs, ◌>>=◌)
      (ready size d.after (0 ∷ x ∷ xs)
        (core_list_mergesort cmp_idx (size + 1) (some 0) d.after none) once
        (omega (arith, f.len, all)) d.small
        (cmp_idx-SortedAs (size + 1) (some 0) d.after (0 ∷ x ∷ xs) d.small linked
          (Single-Distinct (0 ∷ x ∷ xs) (λ e. ground (arith, once e))) (omega arith)
          (omega (arith, f.len, all))))

-- For a block of 100 bytes or more, data cells whose indices are of 16 bits, and every seed,
-- `core_list_init` returns: a list of the cells below the last one, each once, in the order of the signed
-- indices, which are of 16 bits.
pub core_list_init-Ready :
    (blksize seed : ℕ) (h : Heap)
    → 100 ≤ blksize
    → blksize < 2 ^ 32
    → ((a : ℕ) → (h.cell a).idx < 2 ^ 16)
    → Ready (blksize / 20 - 2) (core_list_init blksize seed h)
unfolding core_list_init
core_list_init-Ready blksize seed h enough short small =
    subst (λ (n : ℕ). Ready n (core_list_init blksize seed h)) is
      (index_and_sort size seed filled.1 filled.0 all.xs (omega (arith, is, enough)) all.filled
        all.all)
  where
    size : ℕ
    size = (blksize / 20 + (2 ^ 32 - 2)) % 2 ^ 32

    is : size ≡ blksize / 20 - 2
    is = omega (arith, enough, short)

    h1 : Heap
    h1 = set_cell (set_info (set_next h 0 none) 0 0) 0 (record { data16 = 0x8080; idx = 0 })

    b : Pools
    b = record { memblock = 1; datablock = 1; memblock_end = size; datablock_end = size }

    first : Filled size h1 b []
    first = record {
      chain = (refl, refl);
      once = λ e. ground arith;
      len = refl;
      data_cells = refl;
      ends = (refl, refl);
      small = λ a. elim (Bool-cases (a == 0)) [
        | inl here ↦ rw here (omega arith)
        | inr there ↦ rw there (small a)
      ];
    }

    tail : Option ℕ × Pools × Heap
    tail = core_list_insert_new h1 b 0 (record { data16 = 0xffff; idx = 0x7fff })

    grown : Grown size b tail
    grown = insert-Grown size h1 b [] (record { data16 = 0xffff; idx = 0x7fff }) first (omega arith)

    filled : Pools × Heap
    filled = insert_loop size 0 seed tail.2 tail.1 0

    all : AllFilled size filled
    all =
        insert_loop-AllFilled size 0 seed size tail.2 tail.1 grown.xs grown.filled
          (ground (arith, grown.memblock, is, enough)) (omega arith)
