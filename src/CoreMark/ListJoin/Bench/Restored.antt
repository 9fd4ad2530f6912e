-- ===== src/CoreMark/ListJoin/Bench/Restored.antt =====
-- What `core_bench_list` leaves of the list when it does not sort it by the data (`finder_idx` negative,
-- the second run of an iteration).
use takshaka.Base.{
  ℕ, ◌+◌, ◌-◌, ◌*◌, ◌%◌, ◌^◌, ◌≤◌, ◌<◌, ◌≡◌, refl, sym, ap, subst, ◌∙◌, ◌==◌, leb, ltb, ◌&&◌,
  bit_and, if◌then◌else◌, false, Option, some, ◌>>=◌, List, [], ◌∷◌, length, arith,
}
use takshaka.CoreMark.ListJoin.{ListData, Heap}
use takshaka.CoreMark.ListJoin.Chain.{IsChain, Distinct}
use takshaka.CoreMark.ListJoin.Sort.Segments.{SameItems, Distinct-Single}
use takshaka.CoreMark.ListJoin.Sort.Order.{Ascending}
use takshaka.CoreMark.ListJoin.Bench.{CoreResults, Finding, find_loop, core_bench_list}
use takshaka.CoreMark.ListJoin.Bench.Sorting.{signed_order}
use takshaka.CoreMark.ListJoin.Bench.Caching.{Single-same, Searched, find_loop-Searched}
use takshaka.CoreMark.ListJoin.Bench.Behind.{Resorted, Behind, rest-Behind}

-- The run returns a checksum. It writes nothing of the results but the heap, where the list is a chain
-- of the same items in the order of their signed indices, with the same `info` pointers and indices.
pub record Restored (res : CoreResults) (xs : List ℕ) (r : Option (ℕ × CoreResults)) : Type 0 where
  pub crc : ℕ
  pub heap : Heap
  pub head : ℕ
  pub zs : List ℕ
  pub runs : r ≡ some (crc, record res { heap = heap })
  pub chain : IsChain heap (some head) (head ∷ zs)
  pub same_items : SameItems (head ∷ zs) xs
  pub ascends : Ascending (λ x. signed_order (res.heap.cell (res.heap.info x)).idx) 0 (head ∷ zs)
  pub same_info : heap.info ≡ res.heap.info
  pub same_indices : (a : ℕ) → (heap.cell a).idx ≡ (res.heap.cell a).idx

-- The same list with its first three items.
record Three (h : Heap) (z : ℕ) (xs : List ℕ) (h' : Heap) : Type 0 where
  a : ℕ
  b : ℕ
  ws : List ℕ
  chain : IsChain h' (some z) (z ∷ a ∷ b ∷ ws)
  same_items : SameItems (z ∷ a ∷ b ∷ ws) xs
  len : length (z ∷ a ∷ b ∷ ws) ≡ length xs

chain-Three :
    (h : Heap) (z : ℕ) (xs : List ℕ) (h' : Heap) (rest : List ℕ)
    → IsChain h' (some z) (z ∷ rest)
    → SameItems (z ∷ rest) xs
    → length (z ∷ rest) ≡ length xs
    → 3 ≤ length xs
    → Three h z xs h'
chain-Three h z xs h' [] chain same len long = absurd (omega arith)
chain-Three h z xs h' (a ∷ []) chain same len long = absurd (omega arith)
chain-Three h z xs h' (a ∷ b ∷ ws) chain same len long = record {
  a = a;
  b = b;
  ws = ws;
  chain = chain;
  same_items = same;
  len = len;
}

-- What the second search looks for.
abbrev info_of : CoreResults → Finding → ListData
info_of res s =
    let last : ℕ = if leb (2 ^ 15) res.seed3 then 0 else res.seed3 in
    record { data16 = if last == 0 then 0 else bit_and (last - 1) 0xff; idx = s.idx }

-- The variables of the first loop at its start.
abbrev start : CoreResults → ℕ → Finding
start res finder_idx = record {
  retval = 0;
  found = 0;
  missed = 0;
  list = res.list;
  idx = finder_idx;
  heap = res.heap;
}

start-Searched :
    (res : CoreResults) (finder_idx : ℕ) (xs : List ℕ)
    → IsChain res.heap res.list xs
    → 1 ≤ length xs
    → Searched res.heap xs (start res finder_idx)
start-Searched res finder_idx [] chain long = absurd (omega arith)
start-Searched res finder_idx (x ∷ xs) (at, chain) long = record {
  head = x;
  at_head = at;
  shuffled = record {
    rest = xs;
    chain = (refl, chain);
    same_items = λ e. refl;
    len = refl;
    same_info = refl;
    same_cell = refl;
  };
}

-- The run behind its first loop.
run_over :
    (items : ℕ) (res : CoreResults) (finder_idx : ℕ) (s : Finding) (z a b : ℕ) (ws : List ℕ)
    → 2 ^ 15 ≤ finder_idx
    → find_loop items (if leb (2 ^ 15) res.seed3 then 0 else res.seed3) 0 (start res finder_idx)
      ≡ some s
    → s.list ≡ some z
    → IsChain s.heap (some z) (z ∷ a ∷ b ∷ ws)
    → (r : Behind s.heap z a b ws items
        ((s.retval + s.found * 4 + (2 ^ 16 - s.missed)) % 2 ^ 16)
        (info_of res s))
    → core_bench_list items res finder_idx
      ≡ some (r.sorted.crc, record res { heap = r.sorted.heap })
unfolding core_bench_list
run_over items res finder_idx s z a b ws negative runs at_z chain r =
    let no_sort : (ltb 0 finder_idx && ltb finder_idx (2 ^ 15)) ≡ false =
      ground (arith, negative) in
    rw
      (
        runs, at_z, no_sort, chain.1.0, r.gone.runs, r.found, r.summed, r.gone.chain.1.0,
        r.gone.undone, r.sorted.runs, r.sorted.summed, ◌>>=◌,
      )
      refl

-- The list of the last sort is the list of the results, restored.
Resorted-Restored :
    (res : CoreResults) (xs : List ℕ) (s : Finding) (z items v : ℕ) (t : Three res.heap z xs s.heap)
    (sorts : Option (Option ℕ × Heap × Option CoreResults))
    (b : Resorted s.heap (z ∷ t.a ∷ t.b ∷ t.ws) items v sorts)
    → s.heap.info ≡ res.heap.info
    → s.heap.cell ≡ res.heap.cell
    → (r : Option (ℕ × CoreResults)) → r ≡ some (b.crc, record res { heap = b.heap })
    → Restored res xs r
Resorted-Restored res xs s z items v t sorts b same_info same_cell r runs = record {
  crc = b.crc;
  heap = b.heap;
  head = b.head;
  zs = b.zs;
  runs = runs;
  chain = b.chain;
  same_items = λ e. b.same_items e ∙ t.same_items e;
  ascends =
      subst
        (λ (c : ℕ → ListData).
          Ascending (λ x. signed_order (c (res.heap.info x)).idx) 0 (b.head ∷ b.zs))
        same_cell
        (subst
          (λ (i : ℕ → ℕ). Ascending (λ x. signed_order (s.heap.cell (i x)).idx) 0 (b.head ∷ b.zs))
          same_info b.ascends);
  same_info = b.same_info ∙ same_info;
  same_indices = λ x. b.same_indices x ∙ ap (λ (c : ℕ → ListData). (c x).idx) same_cell;
}

-- With a negative `finder_idx`, indices of 16 bits and a list of at least three items and at most
-- `items`, `core_bench_list` returns, and the list that the loop has reversed and changed is put in the
-- order of its indices.
pub core_bench_list-Restored :
    (items : ℕ) (res : CoreResults) (finder_idx : ℕ) (xs : List ℕ)
    → 2 ^ 15 ≤ finder_idx
    → ((x : ℕ) → (res.heap.cell x).idx < 2 ^ 16)
    → IsChain res.heap res.list xs
    → Distinct xs
    → 3 ≤ length xs
    → length xs ≤ items
    → Restored res xs (core_bench_list items res finder_idx)
core_bench_list-Restored items res finder_idx xs negative small chain distinct long le =
    let single = Distinct-Single xs distinct in
    let (s, runs, found) =
      find_loop-Searched res.heap xs items (if leb (2 ^ 15) res.seed3 then 0 else res.seed3) 0
        (start res finder_idx) (start-Searched res finder_idx xs chain (omega (arith, long))) single
        (omega (arith, long)) le in
    let sh = found.shuffled in
    let t = chain-Three res.heap found.head xs s.heap sh.rest sh.chain sh.same_items sh.len long in
    let r =
      rest-Behind s.heap found.head t.a t.b t.ws items
        ((s.retval + s.found * 4 + (2 ^ 16 - s.missed)) % 2 ^ 16) (info_of res s)
        (subst (λ (c : ℕ → ListData). (x : ℕ) → (c x).idx < 2 ^ 16) (sym sh.same_cell) small)
        t.chain (Single-same xs (found.head ∷ t.a ∷ t.b ∷ t.ws) t.same_items single)
        (omega (arith, t.len, le)) in
    Resorted-Restored res xs s found.head items _ t _ r.sorted sh.same_info sh.same_cell _ (
      run_over items res finder_idx s found.head t.a t.b t.ws negative runs found.at_head t.chain r)
