-- ===== src/CoreMark/ListJoin/Bench/Caching.antt =====
-- The first loop of `core_bench_list` keeps a chain of the same items.
use takshaka.Base.{
  ℕ, zero, suc, ◌+◌, ◌≤◌, ◌≡◌, refl, ap, ◌∙◌, bit_and, Option, none, some, ◌>>=◌, List, [], ◌∷◌,
  length, length-append, arith,
}
use takshaka.CoreMark.ListJoin.{ListData, Heap, core_list_find, core_list_reverse}
use takshaka.CoreMark.ListJoin.Chain.{
  IsChain, first_hit, core_list_find-first_hit, reversed, core_list_reverse-Relinked,
}
use takshaka.CoreMark.ListJoin.Sort.Segments.{times, Single, times-append, SameItems}
use takshaka.CoreMark.ListJoin.Init.Filled.{Single-Distinct}
use takshaka.CoreMark.ListJoin.Bench.{Finding, find_round, find_loop}
use takshaka.CoreMark.ListJoin.Bench.Moving.{Shuffled, cache_next-Shuffled}

times-reversed : (e : ℕ) (xs : List ℕ) → times e (reversed xs) ≡ times e xs
times-reversed e [] = refl
times-reversed e (x ∷ xs) =
    times-append e (reversed xs) (x ∷ []) ∙ ground (arith, times-reversed e xs)

length-reversed : (xs : List ℕ) → length (reversed xs) ≡ length xs
length-reversed [] = refl
length-reversed (x ∷ xs) =
    omega (arith, length-append {0} (reversed xs) (x ∷ []), length-reversed xs)

pub first_hit-times :
    (h : Heap) (info : ListData) (xs : List ℕ) (x : ℕ)
    → first_hit h info xs ≡ some x
    → 1 ≤ times x xs
first_hit-times h info [] x e = absurd (cc e)
first_hit-times h info (y ∷ ys) x e = ground (arith, first_hit-times h info ys x)

-- The list of the loop: a chain of the items `xs`, whose data nothing has changed.
pub record Searched (h : Heap) (xs : List ℕ) (s : Finding) : Type 0 where
  pub head : ℕ
  pub at_head : s.list ≡ some head
  pub shuffled : Shuffled h head xs s.heap

record Round (h : Heap) (xs : List ℕ) (r : Option Finding) : Type 0 where
  after : Finding
  runs : r ≡ some after
  searched : Searched h xs after

-- Behind the reversal, which gives `y` as the head of the items.
step-Round :
    (items i : ℕ) (s : Finding) (t : Option ℕ) (y y2 : ℕ) (ys : List ℕ) (next : ℕ → Option ℕ)
    → core_list_find items s.heap s.list (record { data16 = bit_and i 0xff; idx = s.idx }) ≡ some t
    → core_list_reverse items s.heap s.list ≡ some (some y, record s.heap { next = next })
    → IsChain (record s.heap { next = next }) (some y) (y ∷ y2 ∷ ys)
    → Single (y ∷ y2 ∷ ys)
    → ((x : ℕ) → t ≡ some x → 1 ≤ times x (y ∷ y2 ∷ ys))
    → Round s.heap (y ∷ y2 ∷ ys) (find_round items i s)
unfolding find_round
step-Round items i s none y y2 ys next found turned chain single inside =
    rw (found, turned, chain.1.0, find_round)
      (record {
        after = _;
        runs = refl;
        searched = record {
          head = y;
          at_head = refl;
          shuffled = record {
            rest = y2 ∷ ys;
            chain = chain;
            same_items = λ e. refl;
            len = refl;
            same_info = refl;
            same_cell = refl;
          };
        };
      })
step-Round items i s (some x) y y2 ys next found turned chain single inside =
    let moved =
      cache_next-Shuffled (record s.heap { next = next }) y x (y2 ∷ ys) chain single
        (inside x refl) in
    rw (found, turned, find_round)
      (record {
        after = _;
        runs = refl;
        searched = record {
          head = y;
          at_head = refl;
          shuffled = record {
            rest = moved.rest;
            chain = moved.chain;
            same_items = moved.same_items;
            len = moved.len;
            same_info = moved.same_info;
            same_cell = moved.same_cell;
          };
        };
      })

turned-Round :
    (items i : ℕ) (s : Finding) (t head : Option ℕ) (ys : List ℕ) (next : ℕ → Option ℕ)
    → core_list_find items s.heap s.list (record { data16 = bit_and i 0xff; idx = s.idx }) ≡ some t
    → core_list_reverse items s.heap s.list ≡ some (head, record s.heap { next = next })
    → IsChain (record s.heap { next = next }) head ys
    → Single ys
    → ((x : ℕ) → t ≡ some x → 1 ≤ times x ys)
    → 2 ≤ length ys
    → Round s.heap ys (find_round items i s)
turned-Round items i s t head [] next found turned chain single inside long = absurd (omega arith)
turned-Round items i s t head (y ∷ []) next found turned chain single inside long =
    absurd (omega arith)
turned-Round items i s t head (y ∷ y2 ∷ ys) next found turned chain single inside long =
    step-Round items i s t y y2 ys next found
      (turned ∙ ap (λ (p : Option ℕ). some (p, record s.heap { next = next })) chain.0)
      (refl, chain.1) single inside

pub Single-same : (xs ys : List ℕ) → SameItems ys xs → Single xs → Single ys
Single-same xs ys same single e = omega (arith, same e, single e)

-- One round of the loop, on the list that the rounds before have left.
find_round-Round :
    (h : Heap) (xs : List ℕ) (items i : ℕ) (s : Finding)
    → Searched h xs s
    → Single xs
    → 2 ≤ length xs
    → length xs ≤ items
    → Round h xs (find_round items i s)
find_round-Round h xs items i s w single long enough =
    let zs = w.head ∷ w.shuffled.rest in
    let chain : IsChain s.heap s.list zs = (w.at_head, w.shuffled.chain.1) in
    let single_zs = Single-same xs zs w.shuffled.same_items single in
    let fits : length zs ≤ items = omega (arith, w.shuffled.len, enough) in
    let info : ListData = record { data16 = bit_and i 0xff; idx = s.idx } in
    let turned =
      core_list_reverse-Relinked items s.heap s.list zs chain (Single-Distinct zs single_zs) fits in
    let r =
      turned-Round items i s (first_hit s.heap info zs) turned.head (reversed zs) turned.next
        (core_list_find-first_hit items s.heap s.list info zs chain fits) turned.runs turned.chain
        (Single-same zs (reversed zs) (λ e. times-reversed e zs) single_zs)
        (λ x e. omega (arith, times-reversed x zs, first_hit-times s.heap info zs x e))
        (omega (arith, length-reversed zs, w.shuffled.len)) in
    let after = r.searched.shuffled in
    record {
      after = r.after;
      runs = r.runs;
      searched = record {
        head = r.searched.head;
        at_head = r.searched.at_head;
        shuffled = record {
          rest = after.rest;
          chain = after.chain;
          same_items = λ e. after.same_items e ∙ times-reversed e zs ∙ w.shuffled.same_items e;
          len = after.len ∙ length-reversed zs ∙ w.shuffled.len;
          same_info = after.same_info ∙ w.shuffled.same_info;
          same_cell = after.same_cell ∙ w.shuffled.same_cell;
        };
      };
    }

-- The whole loop.
pub find_loop-Searched :
    (h : Heap) (xs : List ℕ) (items rounds i : ℕ) (s : Finding)
    → Searched h xs s
    → Single xs
    → 2 ≤ length xs
    → length xs ≤ items
    → (s' : Finding) × (find_loop items rounds i s ≡ some s') × Searched h xs s'
unfolding find_loop
find_loop-Searched h xs items zero i s w single long enough = (s, refl, w)
find_loop-Searched h xs items (suc rounds) i s w single long enough =
    let r = find_round-Round h xs items i s w single long enough in
    let (s', runs, w') =
      find_loop-Searched h xs items rounds (i + 1) r.after r.searched single long enough in
    (s', rw (r.runs, ◌>>=◌, find_loop) runs, w')
