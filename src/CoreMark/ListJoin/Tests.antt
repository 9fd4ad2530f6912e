-- ===== src/CoreMark/ListJoin/Tests.antt =====
-- Runs of the list functions, and the theorems at concrete inputs.
use takshaka.Base.{
  ℕ, ◌%◌, ◌^◌, ◌≡◌, refl, ltb, Option, none, some, List, [], ◌∷◌, arith, if◌then◌else◌, ◌==◌,
}
use takshaka.CoreMark.Crc.{crcu16}
use takshaka.CoreMark.ListJoin.{
  ListData, Heap, Pools, core_list_find, core_list_reverse, core_list_remove, core_list_undo_remove,
  core_list_insert_new,
}
use takshaka.CoreMark.ListJoin.Chain.{
  IsChain, first_hit, reversed, Relinked, core_list_find-first_hit, core_list_reverse-Relinked,
}
use takshaka.CoreMark.ListJoin.Splice.{
  core_list_undo_remove-core_list_remove, core_list_remove-IsChain, InsertOutcome,
  core_list_insert_new-InsertOutcome,
}
use takshaka.CoreMark.ListJoin.Sort.Segments.{times}
use takshaka.CoreMark.ListJoin.Sort.{
  core_list_mergesort, sort_loop, merge_pass, pass_loop, merge_loop, merge_step, step_along,
}
use takshaka.CoreMark.ListJoin.Bench.{
  core_bench_list, CoreResults, Calculated, calculate, calc_func, cmp_idx,
}
use takshaka.CoreMark.ListJoin.Sort.Laws.{SortedAs, core_list_mergesort-SortedAs}
use takshaka.CoreMark.ListJoin.Bench.Sorting.{signed_order, SameIndices, cmp_idx-ComparesBy}
use takshaka.CoreMark.ListJoin.Bench.Restored.{Restored, core_bench_list-Restored}
use takshaka.CoreMark.ListJoin.Bench.SameOrder.{SameOrder, core_bench_list-SameOrder}
use takshaka.CoreMark.ListJoin.Init.{core_list_init}
use takshaka.CoreMark.ListJoin.Init.Sorted.{Ready, core_list_init-Ready}
use takshaka.CoreMark.ListJoin.Init.Benched.{with_list, core_list_init-core_bench_list}
use takshaka.CoreMark.ListJoin.Bench.Cache.{calc_func-calc_func}

-- The items 0, 1 and 2 in this order; the indices of their data are 5, 7 and 6.
abbrev three : Heap
three = record {
  next = λ x. if x == 0 then some 1 else if x == 1 then some 2 else none;
  info = λ x. x;
  cell = λ x. record { data16 = 0x0101; idx = if x == 0 then 5 else if x == 1 then 7 else 6 };
}

abbrev places : List ℕ
places = 0 ∷ 1 ∷ 2 ∷ []

places-IsChain : IsChain three (some 0) places
places-IsChain = (refl, (refl, (refl, refl)))

-- Sorted by index, item 2 stands before item 1.
abbrev links : Option (Option ℕ × Heap × Option CoreResults) → List (Option ℕ)
links none = []
links (some (p, h, r)) = p ∷ h.next 0 ∷ h.next 2 ∷ h.next 1 ∷ []

mergesort_runs :
    links (core_list_mergesort cmp_idx 3 (some 0) three none) ≡ some 0 ∷ some 2 ∷ some 1 ∷ none ∷ []
unfolding core_list_mergesort sort_loop merge_pass pass_loop merge_loop merge_step step_along
    cmp_idx
mergesort_runs = refl

abbrev index_in_three : ℕ → ℕ
index_in_three a = (three.cell a).idx

core_list_mergesort-SortedAs_example :
    SortedAs
      (λ a. signed_order (index_in_three a))
      (SameIndices index_in_three)
      three.info
      places
      (core_list_mergesort cmp_idx 3 (some 0) three none)
core_list_mergesort-SortedAs_example =
    core_list_mergesort-SortedAs cmp_idx (λ a. signed_order (index_in_three a))
      (SameIndices index_in_three) (cmp_idx-ComparesBy index_in_three (λ a. ground arith)) 3
      (some 0) three none places places-IsChain (ground arith) (omega arith) (omega arith)
      (refl, λ a. refl)

-- A third of the 2000 bytes of a run.
core_list_init-Ready_example : Ready 31 (core_list_init 666 0 three)
core_list_init-Ready_example =
    core_list_init-Ready 666 0 three (omega arith) (omega arith) (λ a. ground arith)

abbrev wanted : ListData
wanted = record { data16 = 0; idx = 6 }

core_list_find-first_hit_example :
    core_list_find 3 three (some 0) wanted ≡ some (first_hit three wanted places)
core_list_find-first_hit_example =
    core_list_find-first_hit 3 three (some 0) wanted places places-IsChain (omega arith)

core_list_reverse-Relinked_example :
    Relinked three (reversed places) (core_list_reverse 3 three (some 0))
core_list_reverse-Relinked_example =
    core_list_reverse-Relinked 3 three (some 0) places places-IsChain (ground arith) (omega arith)

core_list_undo_remove-core_list_remove_example :
    (h' : Heap) × (core_list_remove three 1 ≡ some (2, h'))
    × (core_list_undo_remove h' 2 1 ≡ (2, three))
core_list_undo_remove-core_list_remove_example =
    core_list_undo_remove-core_list_remove three 1 2 refl (omega arith)

core_list_remove-IsChain_example :
    (h' : Heap) × (core_list_remove three 0 ≡ some (1, h'))
    × IsChain h' (some 0) (0 ∷ 2 ∷ [])
    × (h'.info 0 ≡ 1)
    × (h'.info 1 ≡ 0)
core_list_remove-IsChain_example =
    core_list_remove-IsChain three 0 1 (2 ∷ []) places-IsChain (ground arith)

abbrev pools : Pools
pools = record { memblock = 3; datablock = 3; memblock_end = 5; datablock_end = 5 }

core_list_insert_new-InsertOutcome_example :
    InsertOutcome three pools 0 (1 ∷ 2 ∷ []) wanted (core_list_insert_new three pools 0 wanted)
core_list_insert_new-InsertOutcome_example =
    core_list_insert_new-InsertOutcome three pools 0 (1 ∷ 2 ∷ []) wanted places-IsChain
      (ground arith) (ground arith)

abbrev results : CoreResults
results = record {
  seed1 = 0;
  seed2 = 0;
  seed3 = 0x66;
  memblock = 0 ∷ [];
  size = 1;
  iterations = 1;
  execs = 7;
  list = some 0;
  heap = three;
  mat = record { n = 0; a = []; b = []; c = [] };
  crc = 0;
  crclist = 0;
  crcmatrix = 0;
  crcstate = 0;
  err = 0;
}

-- The operation of the data 0x0202 returns the data.
abbrev calculated : Calculated
calculated = record { retval = 2; pdata = 0x0282; res = record results { crc = crcu16 0x0202 0 } }

calculated_runs : calc_func 0x0202 results ≡ some calculated
unfolding calc_func calculate
calculated_runs = refl

calc_func-calc_func_example :
    calc_func 0x0282 results ≡ some (record { retval = 2; pdata = 0x0282; res = results })
calc_func-calc_func_example = calc_func-calc_func 0x0202 results calculated results calculated_runs

core_bench_list-Restored_example : Restored results places (core_bench_list 3 results 0xffff)
core_bench_list-Restored_example =
    core_bench_list-Restored 3 results 0xffff places (omega arith) (λ a. ground arith)
      places-IsChain (ground arith) (omega arith) (omega arith)

-- The same list with the indices 0, 1 and 2.
abbrev ordered : Heap
ordered = record {
  next = λ x. if x == 0 then some 1 else if x == 1 then some 2 else none;
  info = λ x. x;
  cell = λ x. record { data16 = 0x0101; idx = x % 2 ^ 16 };
}

core_bench_list-SameOrder_example :
    SameOrder
      (record results { heap = ordered })
      places
      (core_bench_list 3 (record results { heap = ordered }) 0xffff)
core_bench_list-SameOrder_example =
    core_bench_list-SameOrder 3 (record results { heap = ordered }) 0xffff places (omega arith)
      (λ a. ground arith) (refl, (refl, (refl, refl))) (ground arith) (omega arith) (omega arith)
      (ground arith) (λ a b in_a in_b same. ground arith)

-- The list of a run with 2000 bytes, and the second run of `core_bench_list` in an iteration.
core_list_init-core_bench_list_example :
    (list : Option ℕ) × (h' : Heap) × (zs : List ℕ) × (core_list_init 666 0 three ≡ some (list, h'))
    × IsChain h' list zs
    × ((e : ℕ) → times e zs ≡ (if ltb e 30 then 1 else 0))
    × Restored
        (with_list results list h')
        zs
        (core_bench_list 33 (with_list results list h') 0xffff)
core_list_init-core_bench_list_example =
    core_list_init-core_bench_list 666 0 three results 0xffff (omega arith) (omega arith)
      (λ a. ground arith) (omega arith)
