-- ===== src/CoreMark/ListJoin/Init/Benched.antt =====
-- `core_bench_list` on the list that `core_list_init` returns.
use takshaka.Base.{
  ℕ, ◌-◌, ◌/◌, ◌^◌, ◌≤◌, ◌<◌, ◌≡◌, if◌then◌else◌, ltb, ◌∙◌, Option, some, List, arith,
}
use takshaka.CoreMark.ListJoin.{Heap}
use takshaka.CoreMark.ListJoin.Chain.{IsChain}
use takshaka.CoreMark.ListJoin.Sort.Segments.{times}
use takshaka.CoreMark.ListJoin.Bench.{CoreResults, core_bench_list}
use takshaka.CoreMark.ListJoin.Bench.Restored.{Restored, core_bench_list-Restored}
use takshaka.CoreMark.ListJoin.Init.{core_list_init}
use takshaka.CoreMark.ListJoin.Init.Filled.{Single-Distinct}
use takshaka.CoreMark.ListJoin.Init.Sorted.{core_list_init-Ready}

-- Of the results, the list and the memory that `core_list_init` has written.
abbrev pub with_list : CoreResults → Option ℕ → Heap → CoreResults
with_list res list h = record res { list = list; heap = h }

-- For a block of 120 bytes or more, data cells whose indices are of 16 bits, every seed and a negative
-- `finder_idx`: `core_list_init` returns a chain of the first cells, all but three of those that the block
-- has room for, each once; on it `core_bench_list` returns too, and leaves a chain of the same cells in
-- the order of their signed indices.
pub core_list_init-core_bench_list :
    (blksize seed : ℕ) (h : Heap) (res : CoreResults) (finder_idx : ℕ)
    → 120 ≤ blksize
    → blksize < 2 ^ 32
    → ((a : ℕ) → (h.cell a).idx < 2 ^ 16)
    → 2 ^ 15 ≤ finder_idx
    → (list : Option ℕ) × (h' : Heap) × (zs : List ℕ) × (core_list_init blksize seed h
        ≡ some (list, h'))
      × IsChain h' list zs
      × ((e : ℕ) → times e zs ≡ (if ltb e (blksize / 20 - 3) then 1 else 0))
      × Restored
          (with_list res list h')
          zs
          (core_bench_list (blksize / 20) (with_list res list h') finder_idx)
core_list_init-core_bench_list blksize seed h res finder_idx enough short small negative =
    let r = core_list_init-Ready blksize seed h (omega arith) short small in
    (
      r.head,
      r.heap,
      r.zs,
      r.runs,
      r.chain,
      λ e. r.once e ∙ ground arith,
      core_bench_list-Restored (blksize / 20) (with_list res r.head r.heap) finder_idx r.zs negative
          r.small r.chain (Single-Distinct r.zs (λ e. ground (arith, r.once e)))
          (omega (arith, r.len, enough)) (omega (arith, r.len)),
    )
