-- ===== src/CoreMark/ListJoin/Init/Filled.antt =====
-- The insertions of `core_list_init`: they fill the cells, one by one, up to the last free one.
use takshaka.Base.{
  ℕ, zero, suc, ◌+◌, ◌*◌, ◌%◌, ◌^◌, ◌≤◌, ◌<◌, ◌≡◌, sym, ap, ◌∙◌, subst, ◌==◌, ltb, leb, ◌||◌,
  if◌then◌else◌, Bool-cases, ◌⊎◌, inl, inr, Option, some, List, [], ◌∷◌, length, arith, bit_and,
  bit_or, bit_xor,
}
use takshaka.CoreMark.ListJoin.{ListData, Heap, Pools, core_list_insert_new}
use takshaka.CoreMark.ListJoin.Chain.{IsChain, NotIn, Distinct}
use takshaka.CoreMark.ListJoin.Splice.{core_list_insert_new-InsertOutcome}
use takshaka.CoreMark.ListJoin.Sort.Segments.{times, Single}
use takshaka.CoreMark.ListJoin.Init.{insert_loop}

NotIn-of_times : (e : ℕ) (xs : List ℕ) → times e xs ≡ 0 → NotIn e xs
NotIn-of_times e [] out = tt
NotIn-of_times e (x ∷ xs) out =
    (λ same. ground (arith, out, same), NotIn-of_times e xs (ground (arith, out)))

pub Single-Distinct : (xs : List ℕ) → Single xs → Distinct xs
Single-Distinct [] single = tt
Single-Distinct (x ∷ xs) single = (
  NotIn-of_times x xs (ground (arith, single x)),
  Single-Distinct xs (λ e. ground (arith, single e)),
)

-- The cells below `memblock` are a list from cell 0 on, each once, and the data cells follow the items.
pub record Filled (size : ℕ) (h : Heap) (b : Pools) (xs : List ℕ) : Type 0 where
  pub chain : IsChain h (some 0) (0 ∷ xs)
  pub once : (e : ℕ) → times e (0 ∷ xs) ≡ (if ltb e b.memblock then 1 else 0)
  pub len : length (0 ∷ xs) ≡ b.memblock
  pub data_cells : b.datablock ≡ b.memblock
  pub ends : (b.memblock_end ≡ size) × (b.datablock_end ≡ size)
  pub small : (a : ℕ) → (h.cell a).idx < 2 ^ 16

insert-small :
    (h : Heap) (b : Pools) (at : ℕ) (info : ListData)
    → info.idx < 2 ^ 16
    → ((a : ℕ) → (h.cell a).idx < 2 ^ 16)
    → (a : ℕ) → ((core_list_insert_new h b at info).2.cell a).idx < 2 ^ 16
unfolding core_list_insert_new
insert-small h b at info given small a =
    elim (Bool-cases
      (leb b.memblock_end (b.memblock + 1) || leb b.datablock_end (b.datablock + 1))) [
        | inl full ↦ rw full (small a)
        | inr free ↦ rw free (elim (Bool-cases (a == b.datablock)) [
          | inl here ↦ rw here given
          | inr there ↦ rw there (small a)
        ])
      ]

-- An insertion behind the first item goes on filling, or finds no room.
pub record Grown (size : ℕ) (b : Pools) (r : Option ℕ × Pools × Heap) : Type 0 where
  pub xs : List ℕ
  pub filled : Filled size r.2 r.1 xs
  pub memblock : r.1.memblock ≡ (if ltb (b.memblock + 1) size then b.memblock + 1 else b.memblock)

pub insert-Grown :
    (size : ℕ) (h : Heap) (b : Pools) (xs : List ℕ) (info : ListData)
    → Filled size h b xs
    → info.idx < 2 ^ 16
    → Grown size b (core_list_insert_new h b 0 info)
insert-Grown size h b xs info f given =
    elim (core_list_insert_new-InsertOutcome h b 0 xs info f.chain distinct fresh) [
      | inl i ↦ subst (Grown size b) (sym i.is) (record {
        xs = b.memblock ∷ xs;
        filled = record {
          chain = i.chain;
          once = λ e. ground (arith, f.once e);
          len = ap suc f.len ∙ omega arith;
          data_cells = ap (λ (n : ℕ). n + 1) f.data_cells;
          ends = f.ends;
          small = λ a.
              subst (λ (r : Option ℕ × Pools × Heap). (r.2.cell a).idx < 2 ^ 16) i.is
                (insert-small h b 0 info given f.small a);
        };
        memblock = ground (arith, i.inside, f.ends);
      })
      | inr (same, full) ↦
          subst (Grown size b) (sym same)
            (record { xs = xs; filled = f; memblock = ground (arith, over full) })
    ]
  where
    distinct : Distinct (0 ∷ xs)
    distinct = Single-Distinct (0 ∷ xs) (λ e. ground (arith, f.once e))

    fresh : NotIn b.memblock (0 ∷ xs)
    fresh = NotIn-of_times b.memblock (0 ∷ xs) (ground (arith, f.once b.memblock))

    over :
        (b.memblock_end ≤ b.memblock + 1) ⊎ (b.datablock_end ≤ b.datablock + 1)
        → size ≤ b.memblock + 1
    over (inl le) = omega (arith, le, f.ends.0)
    over (inr le) = omega (arith, le, f.ends.1, f.data_cells)

-- Enough rounds fill all cells but the last.
pub record AllFilled (size : ℕ) (r : Pools × Heap) : Type 0 where
  pub xs : List ℕ
  pub filled : Filled size r.1 r.0 xs
  pub all : r.0.memblock + 1 ≡ size

pub insert_loop-AllFilled :
    (rounds i seed size : ℕ) (h : Heap) (b : Pools) (xs : List ℕ)
    → Filled size h b xs
    → b.memblock + 1 ≤ size
    → size ≤ b.memblock + 1 + rounds
    → AllFilled size (insert_loop rounds i seed h b 0)
unfolding insert_loop
insert_loop-AllFilled zero i seed size h b xs f le enough = record {
  xs = xs;
  filled = f;
  all = omega (arith, le, enough);
}
insert_loop-AllFilled (suc rounds) i seed size h b xs f le enough =
    let datpat = bit_and (bit_xor seed i % 2 ^ 16) 0xf in
    let dat = bit_or (datpat * 2 ^ 3) (bit_and i 7) in
    let info : ListData = record { data16 = bit_or (dat * 2 ^ 8) dat % 2 ^ 16; idx = 0x7fff } in
    let made = core_list_insert_new h b 0 info in
    let g = insert-Grown size h b xs info f (omega arith) in
    insert_loop-AllFilled rounds (i + 1) seed size made.2 made.1 g.xs g.filled
      (ground (arith, g.memblock, le)) (ground (arith, g.memblock, le, enough))
