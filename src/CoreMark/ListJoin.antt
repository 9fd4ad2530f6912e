-- ===== src/CoreMark/ListJoin.antt =====
-- The linked list of coremark/src/core_list_join.c, on an explicit heap. A `list_head` and a
-- `list_data` are numbered separately; `none` is NULL, and a NULL dereference fails.
pub mod Chain
pub mod Splice
pub mod Sort
pub mod Bench
pub mod Init
mod Tests
use takshaka.Base.{
  ℕ, zero, suc, ◌+◌, ◌-◌, ◌*◌, ◌%◌, ◌^◌, ◌==◌, ltb, leb, Bool, true, false, if◌then◌else◌, Option,
  none, some, ◌>>=◌, ◌&&◌, ◌||◌, not, bit_and,
}

pub record ListData : Type 0 where
  pub data16 : ℕ
  pub idx : ℕ

pub record Heap : Type 0 where
  pub next : ℕ → Option ℕ
  pub info : ℕ → ℕ
  pub cell : ℕ → ListData

abbrev pub update {ℓ} : {A : Type ℓ} → (ℕ → A) → ℕ → A → ℕ → A
update f p v x = if x == p then v else f x

abbrev pub set_next : Heap → ℕ → Option ℕ → Heap
set_next h p v = record h { next = update h.next p v }

abbrev pub set_info : Heap → ℕ → ℕ → Heap
set_info h p v = record h { info = update h.info p v }

abbrev pub set_cell : Heap → ℕ → ListData → Heap
set_cell h p v = record h { cell = update h.cell p v }

-- `list->info`
abbrev pub data_of : Heap → ℕ → ListData
data_of h p = h.cell (h.info p)

-- The item whose index, or for a negative index whose low byte, is that of `info`.
abbrev pub is_hit : ListData → ListData → Bool
is_hit info d =
    if leb (2 ^ 15) info.idx then bit_and d.data16 0xff == info.data16 else d.idx == info.idx

-- Out of fuel is `none`.
unfoldable pub core_list_find : (fuel : ℕ) → Heap → Option ℕ → ListData → Option (Option ℕ)
core_list_find fuel h none info = some none
core_list_find zero h (some p) info = none
core_list_find (suc fuel) h (some p) info =
    let rest = core_list_find fuel h (h.next p) info in
    if is_hit info (data_of h p) then some (some p) else rest

-- `while (list)`, with the part that is already reversed.
unfoldable pub reverse_loop : (fuel : ℕ) → Heap → (list next : Option ℕ) → Option (Option ℕ × Heap)
reverse_loop fuel h none next = some (next, h)
reverse_loop zero h (some p) next = none
reverse_loop (suc fuel) h (some p) next = reverse_loop fuel (set_next h p next) (h.next p) (some p)

unfoldable pub core_list_reverse : (fuel : ℕ) → Heap → Option ℕ → Option (Option ℕ × Heap)
core_list_reverse fuel h list = reverse_loop fuel h list none

-- The item that was unlinked, and the heap.
unfoldable pub core_list_remove : Heap → ℕ → Option (ℕ × Heap)
core_list_remove h item = do
  ret ← h.next item
  let tmp = h.info item
  let h1 = set_info h item (h.info ret)
  let h2 = set_info h1 ret tmp
  let h3 = set_next h2 item (h2.next ret)
  some (ret, set_next h3 ret none)

unfoldable pub core_list_undo_remove : Heap → (item_removed item_modified : ℕ) → ℕ × Heap
core_list_undo_remove h item_removed item_modified =
    let tmp = h.info item_removed in
    let h1 = set_info h item_removed (h.info item_modified) in
    let h2 = set_info h1 item_modified tmp in
    let h3 = set_next h2 item_removed (h2.next item_modified) in
    (item_removed, set_next h3 item_modified (some item_removed))

-- The free cells, and the ends of their regions.
pub record Pools : Type 0 where
  pub memblock : ℕ
  pub datablock : ℕ
  pub memblock_end : ℕ
  pub datablock_end : ℕ

unfoldable pub core_list_insert_new :
    Heap → Pools → (insert_point : ℕ) → ListData → Option ℕ × Pools × Heap
core_list_insert_new h b insert_point info =
    if leb b.memblock_end (b.memblock + 1) || leb b.datablock_end (b.datablock + 1)
    then (none, b, h)
    else let newitem = b.memblock in
      let h1 = set_next h newitem (h.next insert_point) in
      let h2 = set_next h1 insert_point (some newitem) in
      let h3 = set_info h2 newitem b.datablock in
      (
        some newitem,
        record b { memblock = newitem + 1; datablock = b.datablock + 1 },
        set_cell h3 b.datablock info,
      )
