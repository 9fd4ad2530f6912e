-- ===== src/CoreMark/ListJoin/Bench.antt =====
-- The list benchmark of coremark/src/core_list_join.c: the item functions and
-- `core_bench_list`. An `ee_s16` is its bit pattern.
pub mod Cache
pub mod Caching
pub mod Moving
pub mod Behind
pub mod Restored
pub mod SameOrder
pub mod Sorting
use takshaka.Base.{
  ℕ, zero, suc, ◌+◌, ◌-◌, ◌*◌, ◌/◌, ◌%◌, ◌^◌, ◌==◌, ltb, leb, Bool, true, false, if◌then◌else◌,
  Option, none, some, List, ◌>>=◌, ◌&&◌, bit_and, bit_or, bit_xor,
}
use takshaka.CoreMark.Crc.{crcu16, crc16}
use takshaka.CoreMark.State.{core_bench_state}
use takshaka.CoreMark.Matrix.{MatParams, core_bench_matrix}
use takshaka.CoreMark.ListJoin.{
  ListData, Heap, set_next, set_cell, data_of, core_list_find, core_list_reverse, core_list_remove,
  core_list_undo_remove,
}
use takshaka.CoreMark.ListJoin.Sort.{Compare, core_list_mergesort}

-- `core_results`; `memblock` is the block of the state machine, `memblock[3]`.
pub record CoreResults : Type 0 where
  pub seed1 : ℕ
  pub seed2 : ℕ
  pub seed3 : ℕ
  pub memblock : List ℕ
  pub size : ℕ
  pub iterations : ℕ
  pub execs : ℕ
  pub list : Option ℕ
  pub heap : Heap
  pub mat : MatParams
  pub crc : ℕ
  pub crclist : ℕ
  pub crcmatrix : ℕ
  pub crcstate : ℕ
  pub err : ℕ

-- The results, the returned value and `*pdata`.
pub record Calculated : Type 0 where
  pub retval : ℕ
  pub pdata : ℕ
  pub res : CoreResults

-- `dtype |= dtype << 4` of the four bits 3 to 6.
abbrev pub data_type : ℕ → ℕ
data_type item = let dtype = bit_and (item / 2 ^ 3) 0xf in bit_or dtype (dtype * 2 ^ 4)

-- The calculation of `calc_func` by the type of the operation, with its effect on the results.
unfoldable pub calculate : (flag item dtype : ℕ) → CoreResults → Option (ℕ × CoreResults)
calculate zero item dtype res = do
  (retval, block) ←
      core_bench_state res.size res.memblock res.seed1 res.seed2
        (if ltb dtype 0x22 then 0x22 else dtype) res.crc
  some (
    retval,
    record res { memblock = block; crcstate = if res.crcstate == 0 then retval else res.crcstate },
  )
calculate (suc zero) item dtype res =
    let bench = core_bench_matrix res.mat dtype res.crc in
    some (
      bench.0,
      record res {
        mat = bench.1;
        crcmatrix = if res.crcmatrix == 0 then bench.0 else res.crcmatrix;
      },
    )
calculate (suc (suc flag)) item dtype res = some (item, res)

unfoldable pub calc_func : (item : ℕ) → CoreResults → Option Calculated
calc_func item res =
    if bit_and (item / 2 ^ 7) 1 == 1
    then some (record { retval = bit_and item 0x7f; pdata = item; res = res })
    else do
      (retval, res') ← calculate (bit_and item 7) item (data_type item) res
      let low = bit_and retval 0x7f
      some (record {
        retval = low;
        pdata = bit_or (bit_or (bit_and item 0xff00) 0x80) low;
        res = record res' { crc = crcu16 retval res'.crc };
      })

-- The difference of two `ee_s16`, as an `ee_s32`.
abbrev pub difference : ℕ → ℕ → ℕ
difference a b = (sign_extend a + (2 ^ 32 - sign_extend b)) % 2 ^ 32
  where
    sign_extend : ℕ → ℕ
    sign_extend v = if leb (2 ^ 15) v then v + (2 ^ 32 - 2 ^ 16) else v

abbrev pub set_data16 : Heap → ℕ → ℕ → Heap
set_data16 h a v = set_cell h a (record { data16 = v; idx = (h.cell a).idx })

-- `none` is a NULL `res`, which `calc_func` would dereference.
unfoldable pub cmp_complex : Compare (Option CoreResults)
cmp_complex a b h res = do
  r ← res
  first ← calc_func (h.cell a).data16 r
  let h1 = set_data16 h a first.pdata
  second ← calc_func (h1.cell b).data16 first.res
  some (difference first.retval second.retval, set_data16 h1 b second.pdata, some second.res)

-- `(x & 0xff00) | (0x00ff & (x >> 8))`
abbrev pub rebuilt : ℕ → ℕ
rebuilt x = bit_or (bit_and x 0xff00) (bit_and 0xff (x / 2 ^ 8))

unfoldable pub cmp_idx : Compare (Option CoreResults)
cmp_idx a b h none =
    let h1 = set_data16 h a (rebuilt (h.cell a).data16) in
    let h2 = set_data16 h1 b (rebuilt (h1.cell b).data16) in
    some (difference (h2.cell a).idx (h2.cell b).idx, h2, none)
cmp_idx a b h (some res) = some (difference (h.cell a).idx (h.cell b).idx, h, some res)

-- The variables of `core_bench_list` that its first loop changes.
pub record Finding : Type 0 where
  pub retval : ℕ
  pub found : ℕ
  pub missed : ℕ
  pub list : Option ℕ
  pub idx : ℕ
  pub heap : Heap

-- `finder = this_find->next` goes to the head of the list, if there is one.
unfoldable pub cache_next : Heap → (list this_find : ℕ) → Heap
cache_next h list this_find = elim (h.next this_find) [
  | none ↦ h
  | some finder ↦
      let h1 = set_next h this_find (h.next finder) in
      let h2 = set_next h1 finder (h1.next list) in set_next h2 list (some finder)
]

-- One round of the loop, with index `i`; `items` is the fuel of the walks over the list.
unfoldable pub find_round : (items i : ℕ) → Finding → Option Finding
find_round items i s = do
  this_find ← core_list_find items s.heap s.list (record { data16 = bit_and i 0xff; idx = s.idx })
  (reversed, h) ← core_list_reverse items s.heap s.list
  list ← reversed
  let idx = if leb (2 ^ 15) s.idx then s.idx else (s.idx + 1) % 2 ^ 16
  elim this_find [
    | none ↦ do
      after ← h.next list
      some (record {
        retval = (s.retval + bit_and ((data_of h after).data16 / 2 ^ 8) 1) % 2 ^ 16;
        found = s.found;
        missed = (s.missed + 1) % 2 ^ 16;
        list = some list;
        idx = idx;
        heap = h;
      })
    | some hit ↦
        let item = (data_of h hit).data16 in
        let used = if bit_and item 1 == 1 then bit_and (item / 2 ^ 9) 1 else 0 in
        some (record {
          retval = (s.retval + used) % 2 ^ 16;
          found = (s.found + 1) % 2 ^ 16;
          missed = s.missed;
          list = some list;
          idx = idx;
          heap = cache_next h list hit;
        })
  ]

-- `for (i = 0; i < find_num; i++)`, with the rounds left.
unfoldable pub find_loop : (items rounds i : ℕ) → Finding → Option Finding
find_loop items zero i s = some s
find_loop items (suc rounds) i s = find_round items i s >>= find_loop items rounds (i + 1)

-- `while (finder)`: the checksum of the head's data, once for each item.
unfoldable pub crc_loop : (fuel : ℕ) → Heap → (list : ℕ) → Option ℕ → ℕ → Option ℕ
crc_loop fuel h list none retval = some retval
crc_loop zero h list (some finder) retval = none
crc_loop (suc fuel) h list (some finder) retval =
    crc_loop fuel h list (h.next finder) (crc16 (data_of h list).data16 retval)

-- The first item with data behind the removed one, or the head's next.
abbrev pub or_next : Heap → ℕ → Option ℕ → Option ℕ
or_next h list none = h.next list
or_next h list (some finder) = some finder

-- The checksum, the results and the heap. `items` is the number of items of the list, or more.
unfoldable pub core_bench_list :
    (items : ℕ) → CoreResults → (finder_idx : ℕ) → Option (ℕ × CoreResults)
core_bench_list items res finder_idx = do
  s ← find_loop items (if leb (2 ^ 15) res.seed3 then 0 else res.seed3) 0 (record {
    retval = 0;
    found = 0;
    missed = 0;
    list = res.list;
    idx = finder_idx;
    heap = res.heap;
  })
  let retval = (s.retval + s.found * 4 + (2 ^ 16 - s.missed)) % 2 ^ 16
  (sorted, h1, r1) ←
      (if ltb 0 finder_idx && ltb finder_idx (2 ^ 15)
        then core_list_mergesort cmp_complex items s.list s.heap (some res)
        else some (s.list, s.heap, some res))
  list ← sorted
  after ← h1.next list
  (remover, h2) ← core_list_remove h1 after
  let last : ℕ = if leb (2 ^ 15) res.seed3 then 0 else res.seed3
  finder ←
      core_list_find items h2 (some list)
        (record { data16 = if last == 0 then 0 else bit_and (last - 1) 0xff; idx = s.idx })
  first ← crc_loop items h2 list (or_next h2 list finder) retval
  behind ← h2.next list
  let undone = core_list_undo_remove h2 remover behind
  (resorted, h3, _) ← core_list_mergesort cmp_idx items (some list) undone.1 none
  head ← resorted
  second ← crc_loop items h3 head (h3.next head) first
  r ← r1
  some (second, record r { heap = h3 })
