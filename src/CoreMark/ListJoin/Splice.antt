-- ===== src/CoreMark/ListJoin/Splice.antt =====
-- Removing an item and putting it back, and inserting a new one.
use takshaka.Base.{
  ℕ, ◌+◌, ◌≤◌, ◌<◌, ◌≡◌, ◌≢◌, refl, ap, ◌⊎◌, leb, Option, none, some, ◌>>=◌, ◌||◌, List, [], ◌∷◌,
  arith, Bool-cases, inl, inr,
}
use takshaka.CoreMark.ListJoin.{
  ListData, Heap, update, set_next, set_info, set_cell, data_of, Pools, core_list_remove,
  core_list_undo_remove, core_list_insert_new,
}
use takshaka.CoreMark.ListJoin.Chain.{IsChain, NotIn, Distinct, set_next-IsChain}

-- `core_list_undo_remove` on what `core_list_remove` returned gives the whole heap back.
pub core_list_undo_remove-core_list_remove :
    (h : Heap) (item ret : ℕ)
    → h.next item ≡ some ret
    → item ≢ ret
    → (h' : Heap) × (core_list_remove h item ≡ some (ret, h'))
      × (core_list_undo_remove h' ret item ≡ (ret, h))
unfolding core_list_remove core_list_undo_remove
core_list_undo_remove-core_list_remove h item ret linked ne = (
  record {
    next = update (update h.next item (h.next ret)) ret none;
    info = update (update h.info item (h.info ret)) ret (h.info item);
    cell = h.cell;
  },
  rw (linked, ◌>>=◌) refl,
  λ i. (ret, record { next = λ x. next_back x i; info = λ x. info_back x i; cell = h.cell }),
)
  where
    next_back :
        (x : ℕ)
        → update
            (update
              (update (update h.next item (h.next ret)) ret none)
              ret
              (update (update h.next item (h.next ret)) ret none item))
            item
            (some ret)
            x
          ≡ h.next x
    next_back x = ground (arith, linked, ap h.next {x = x} {y = ret}, ap h.next {x = x} {y = item})

    info_back :
        (x : ℕ)
        → update
            (update
              (update (update h.info item (h.info ret)) ret (h.info item))
              ret
              (update (update h.info item (h.info ret)) ret (h.info item) item))
            item
            (update (update h.info item (h.info ret)) ret (h.info item) ret)
            x
          ≡ h.info x
    info_back x = ground (arith, ap h.info {x = x} {y = ret}, ap h.info {x = x} {y = item})

relabel-IsChain :
    (h : Heap) (info : ℕ → ℕ) (cell : ℕ → ListData) (p : Option ℕ) (xs : List ℕ)
    → IsChain h p xs
    → IsChain (record h { info = info; cell = cell }) p xs
relabel-IsChain h info cell p [] c = c
relabel-IsChain h info cell p (x ∷ xs) (e, c) = (e, relabel-IsChain h info cell (h.next x) xs c)

-- The chain without the item behind its first, with the first's data replaced by those of the second.
pub core_list_remove-IsChain :
    (h : Heap) (item ret : ℕ) (xs : List ℕ)
    → IsChain h (some item) (item ∷ ret ∷ xs)
    → Distinct (item ∷ ret ∷ xs)
    → (h' : Heap) × (core_list_remove h item ≡ some (ret, h'))
      × IsChain h' (some item) (item ∷ xs)
      × (h'.info item ≡ h.info ret)
      × (h'.info ret ≡ h.info item)
unfolding core_list_remove
core_list_remove-IsChain h item ret xs (_, (linked, c)) ((ne, out), (out', distinct)) = (
  record {
    next = update (update h.next item (h.next ret)) ret none;
    info = update (update h.info item (h.info ret)) ret (h.info item);
    cell = h.cell;
  },
  rw (linked, ◌>>=◌) refl,
  (
    refl,
    rw unlinked (
        set_next-IsChain (set_next h0 item (h.next ret)) ret none (h.next ret) xs out' (
          set_next-IsChain h0 item (h.next ret) (h.next ret) xs out
            (relabel-IsChain h h0.info h.cell (h.next ret) xs c))),
  ),
  ground arith,
  ground arith,
)
  where
    h0 : Heap
    h0 = record h { info = update (update h.info item (h.info ret)) ret (h.info item) }

    unlinked : update (update h.next item (h.next ret)) ret none item ≡ h.next ret
    unlinked = ground arith

-- Inserting with a free cell in both regions: the new item stands behind the insert point with the
-- given data, no other data cell has changed, and the regions keep their last cell free.
pub record Inserted (h : Heap) (b : Pools) (at : ℕ) (xs : List ℕ) (info : ListData)
    (r : Option ℕ × Pools × Heap) : Type 0 where
  pub after : Heap
  pub is : r ≡ (
    some b.memblock,
    record b { memblock = b.memblock + 1; datablock = b.datablock + 1 },
    after,
  )
  pub chain : IsChain after (some at) (at ∷ b.memblock ∷ xs)
  pub given : data_of after b.memblock ≡ info
  pub others : (a : ℕ) → a ≢ b.datablock → after.cell a ≡ h.cell a
  pub inside : (b.memblock + 1 < b.memblock_end) × (b.datablock + 1 < b.datablock_end)

-- Inserting without room changes nothing and returns NULL.
abbrev pub InsertOutcome : Heap → Pools → ℕ → List ℕ → ListData → Option ℕ × Pools × Heap → Type 0
InsertOutcome h b at xs info r =
    Inserted h b at xs info r
    ⊎ (r ≡ (none, b, h)) × ((b.memblock_end ≤ b.memblock + 1) ⊎ (b.datablock_end ≤ b.datablock + 1))

-- `core_list_insert_new` behind the first item of a chain that the free cell is not part of: it inserts
-- where both regions have room, and changes nothing and returns NULL where one has not.
pub core_list_insert_new-InsertOutcome :
    (h : Heap) (b : Pools) (at : ℕ) (xs : List ℕ) (info : ListData)
    → IsChain h (some at) (at ∷ xs)
    → Distinct (at ∷ xs)
    → NotIn b.memblock (at ∷ xs)
    → InsertOutcome h b at xs info (core_list_insert_new h b at info)
unfolding core_list_insert_new
core_list_insert_new-InsertOutcome h b at xs info (_, c) (out, distinct) (ne, fresh) =
    elim (Bool-cases
      (leb b.memblock_end (b.memblock + 1) || leb b.datablock_end (b.datablock + 1))) [
        | inl full ↦ rw full (inr (refl, ground arith))
        | inr free ↦ rw free (
            inl (record {
              after = after;
              is = refl;
              chain = (refl, (to_new, rw from_new linked));
              given = ground arith;
              others = λ a ne. ground arith;
              inside = ground arith;
            }))
      ]
  where
    h2 : Heap
    h2 = set_next (set_next h b.memblock (h.next at)) at (some b.memblock)

    after : Heap
    after =
        set_cell
          (set_info (set_next (set_next h b.memblock (h.next at)) at (some b.memblock)) b.memblock
            b.datablock)
          b.datablock info

    linked : IsChain after (h.next at) xs
    linked = relabel-IsChain h2 after.info after.cell (h.next at) xs (
        set_next-IsChain (set_next h b.memblock (h.next at)) at (some b.memblock) (h.next at) xs out
          (set_next-IsChain h b.memblock (h.next at) (h.next at) xs fresh c))

    to_new : after.next at ≡ some b.memblock
    to_new = ground arith

    from_new : after.next b.memblock ≡ h.next at
    from_new = ground arith
