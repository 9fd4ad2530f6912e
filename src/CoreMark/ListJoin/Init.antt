-- ===== src/CoreMark/ListJoin/Init.antt =====
-- `core_list_init` of coremark/src/core_list_join.c.
pub mod Filled
pub mod Sorted
pub mod Benched
use takshaka.Base.{
  ℕ, zero, suc, ◌+◌, ◌-◌, ◌*◌, ◌/◌, ◌%◌, ◌^◌, ltb, if◌then◌else◌, Option, none, some, ◌>>=◌,
  bit_and, bit_or, bit_xor,
}
use takshaka.CoreMark.ListJoin.{
  Heap, set_next, set_info, set_cell, data_of, Pools, core_list_insert_new,
}
use takshaka.CoreMark.ListJoin.Sort.{core_list_mergesort}
use takshaka.CoreMark.ListJoin.Bench.{cmp_idx}

-- `for (i = 0; i < size; i++)` of `core_list_init`, with the rounds left.
unfoldable pub insert_loop : (rounds i seed : ℕ) → Heap → Pools → (list : ℕ) → Pools × Heap
insert_loop zero i seed h b list = (b, h)
insert_loop (suc rounds) i seed h b list =
    let datpat = bit_and (bit_xor seed i % 2 ^ 16) 0xf in
    let dat = bit_or (datpat * 2 ^ 3) (bit_and i 7) in
    let made =
      core_list_insert_new h b list
        (record { data16 = bit_or (dat * 2 ^ 8) dat % 2 ^ 16; idx = 0x7fff }) in
    insert_loop rounds (i + 1) seed made.2 made.1 list

-- The index of the item in place `i`: the place for the first fifth, scattered above for the others.
abbrev pub index_of : (size seed i : ℕ) → ℕ
index_of size seed i =
    if ltb i (size / 5)
    then i % 2 ^ 16
    else bit_and 0x3fff (bit_or (bit_and (i + 1) 7 * 2 ^ 8) (bit_xor i seed % 2 ^ 16))

-- `while (finder->next != NULL)`, from the place `i` on.
unfoldable pub index_loop : (fuel size seed i : ℕ) → Heap → (finder : ℕ) → Option Heap
index_loop zero size seed i h finder = none
index_loop (suc fuel) size seed i h finder = elim (h.next finder) [
  | none ↦ some h
  | some after ↦
      let d = data_of h finder in
      index_loop fuel size seed (i + 1)
        (set_cell h (h.info finder) (record { data16 = d.data16; idx = index_of size seed i }))
        after
]

-- The cells are numbered from the start of the memory block; what they hold before is arbitrary. The
-- fuel of a walk is the number of cells, which no list in them exceeds.
unfoldable pub core_list_init : (blksize seed : ℕ) → Heap → Option (Option ℕ × Heap)
core_list_init blksize seed h = do
  let size = (blksize / 20 + (2 ^ 32 - 2)) % 2 ^ 32
  let h1 : Heap =
      set_cell (set_info (set_next h 0 none) 0 0) 0 (record { data16 = 0x8080; idx = 0 })
  let b : Pools = record { memblock = 1; datablock = 1; memblock_end = size; datablock_end = size }
  let tail = core_list_insert_new h1 b 0 (record { data16 = 0xffff; idx = 0x7fff })
  let filled = insert_loop size 0 seed tail.2 tail.1 0
  finder ← filled.1.next 0
  indexed ← index_loop (size + 1) size seed 1 filled.1 finder
  (list, sorted, _) ← core_list_mergesort cmp_idx (size + 1) (some 0) indexed none
  some (list, sorted)
