-- ===== src/CoreMark/ListJoin/Sort.antt =====
-- `core_list_mergesort`, for a comparison function that may write to the heap and to the results.
pub mod Segments
pub mod Order
pub mod Merge
pub mod Pass
pub mod Laws
use takshaka.Base.{
  ℕ, zero, suc, ◌+◌, ◌-◌, ◌*◌, ◌^◌, ◌==◌, ltb, leb, Bool, true, false, if◌then◌else◌, Option, none,
  some, ◌>>=◌, ◌&&◌, ◌||◌,
}
use takshaka.CoreMark.ListJoin.{Heap, update, set_next}

-- `cmp(a, b, res)` on two `info` pointers: the `ee_s32` that it returns, as its bit pattern.
abbrev pub Compare : Type 0 → Type 0
Compare R = ℕ → ℕ → Heap → R → Option (ℕ × Heap × R)

-- `cmp(...) <= 0`
abbrev pub at_most_zero : ℕ → Bool
at_most_zero v = if v == 0 then true else leb (2 ^ 31) v

-- The variables of the sort.
pub record Sorting (R : Type 0) : Type 0 where
  pub list : Option ℕ
  pub tail : Option ℕ
  pub p : Option ℕ
  pub q : Option ℕ
  pub psize : ℕ
  pub qsize : ℕ
  pub nmerges : ℕ
  pub heap : Heap
  pub res : R

-- `for (i = 0; i < insize; i++) { psize++; q = q->next; if (!q) break; }`
unfoldable pub step_along : ℕ → Heap → (q : ℕ) → (psize : ℕ) → Option ℕ × ℕ
step_along zero h q psize = (some q, psize)
step_along (suc insize) h q psize = elim (h.next q) [
  | none ↦ (none, psize + 1)
  | some q' ↦ step_along insize h q' (psize + 1)
]

-- The links behind `tail->next = e`, which is not made where `tail` is NULL.
abbrev pub linked : (tail : Option ℕ) (e : ℕ) (next : ℕ → Option ℕ) → ℕ → Option ℕ
linked none e next = next
linked (some t) e next = update next t (some e)

-- `list = e`, which is made where `tail` is NULL.
abbrev pub or_first : (tail : Option ℕ) (e : ℕ) (list : Option ℕ) → Option ℕ
or_first none e list = some e
or_first (some t) e list = list

module _ {R : Type 0} where
  -- `e` is added to the merged list, and `tail = e`.
  abbrev pub append_item : ℕ → Sorting R → Sorting R
  append_item e s = record s {
    list = or_first s.tail e s.list;
    tail = some e;
    heap = record s.heap { next = linked s.tail e s.heap.next };
  }

  -- `e = p; p = p->next; psize--`, and the item is added to the merged list.
  abbrev pub take_p : ℕ → Sorting R → Sorting R
  take_p e s = append_item e (record s { p = s.heap.next e; psize = s.psize - 1 })

  abbrev pub take_q : ℕ → Sorting R → Sorting R
  take_q e s = append_item e (record s { q = s.heap.next e; qsize = s.qsize - 1 })

  abbrev pub has_more : Sorting R → Bool
  has_more s = ltb 0 s.psize || (ltb 0 s.qsize && elim s.q [ none ↦ false | some _ ↦ true ])

module _ {R : Type 0} (cmp : Compare R) where
  -- One round of the merge, with a NULL dereference as `none`.
  unfoldable pub merge_step : Sorting R → Option (Sorting R)
  merge_step s =
      if s.psize == 0
      then (do e ← s.q; some (take_q e s))
      else if s.qsize == 0
      then (do e ← s.p; some (take_p e s))
      else elim s.q [
        | none ↦ do e ← s.p; some (take_p e s)
        | some q ↦ do
          p ← s.p
          (v, h, r) ← cmp (s.heap.info p) (s.heap.info q) s.heap s.res
          let s' = record s { heap = h; res = r }
          some (if at_most_zero v then take_p p s' else take_q q s')
      ]

  -- `while (psize > 0 || (qsize > 0 && q))`. Out of fuel is `none`.
  unfoldable pub merge_loop : (fuel : ℕ) → Sorting R → Option (Sorting R)
  merge_loop zero s = if has_more s then none else some s
  merge_loop (suc fuel) s = elim (has_more s) [
    | true ↦ merge_step s >>= merge_loop fuel
    | false ↦ some s
  ]

  -- `while (p)`: the merges of one pass.
  unfoldable pub pass_loop : (fuel insize : ℕ) → Sorting R → Option (Sorting R)
  pass_loop zero insize s = elim s.p [ none ↦ some s | some _ ↦ none ]
  pass_loop (suc fuel) insize s = elim s.p [
    | none ↦ some s
    | some p ↦
        let along = step_along insize s.heap p 0 in
        do
          s' ←
              merge_loop (insize + insize)
                (record s { q = along.0; psize = along.1; qsize = insize; nmerges = s.nmerges + 1 })
          pass_loop fuel insize (record s' { p = s'.q })
  ]

  -- A pass over the whole list, with `tail->next = NULL` behind it.
  unfoldable pub merge_pass : (fuel insize : ℕ) → Option ℕ → Heap → R → Option (Sorting R)
  merge_pass fuel insize list h r = do
    s ← pass_loop fuel insize (record {
      list = none;
      tail = none;
      p = list;
      q = none;
      psize = 0;
      qsize = 0;
      nmerges = 0;
      heap = h;
      res = r;
    })
    t ← s.tail
    some (record s { heap = set_next s.heap t none })

  -- `while (1)`. `items` is the fuel of a pass, which takes at most one merge for each item.
  unfoldable pub sort_loop :
      (fuel items insize : ℕ) → Option ℕ → Heap → R → Option (Option ℕ × Heap × R)
  sort_loop zero items insize list h r = none
  sort_loop (suc fuel) items insize list h r = do
    s ← merge_pass items insize list h r
    elim (leb s.nmerges 1) [
      | true ↦ some (s.list, s.heap, s.res)
      | false ↦ sort_loop fuel items (insize * 2) s.list s.heap s.res
    ]

  -- A pass halves the number of merges, so a list of `items` takes fewer than `items + 1` passes.
  unfoldable pub core_list_mergesort :
      (items : ℕ) → Option ℕ → Heap → R → Option (Option ℕ × Heap × R)
  core_list_mergesort items list h r = sort_loop (items + 1) items 1 list h r
