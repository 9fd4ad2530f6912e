-- ===== src/CoreMark/ListJoin/Bench/SameOrder.antt =====
-- The list that `core_bench_list` is given in the order of its indices is there again afterwards.
use takshaka.Base.{
  ℕ, ◌^◌, ◌≤◌, ◌<◌, ◌≡◌, refl, ap, subst, ◌∙◌, Option, some, List, [], ◌∷◌, length, arith,
}
use takshaka.CoreMark.ListJoin.{Heap}
use takshaka.CoreMark.ListJoin.Chain.{IsChain, Distinct}
use takshaka.CoreMark.ListJoin.Sort.Segments.{times, SameItems}
use takshaka.CoreMark.ListJoin.Sort.Order.{Ascending}
use takshaka.CoreMark.ListJoin.Bench.{CoreResults, core_bench_list}
use takshaka.CoreMark.ListJoin.Bench.Sorting.{signed_order}
use takshaka.CoreMark.ListJoin.Bench.Restored.{Restored, core_bench_list-Restored}

Ascending-le :
    (key : ℕ → ℕ) (low : ℕ) (xs : List ℕ) (e : ℕ)
    → Ascending key low xs
    → 1 ≤ times e xs
    → low ≤ key e
Ascending-le key low [] e up inside = absurd (omega arith)
Ascending-le key low (x ∷ xs) e (le, up) inside =
    ground (arith, Ascending-le key (key x) xs e up, ap key {x = e} {y = x})

-- No two items have the same key.
abbrev pub NoTies : (ℕ → ℕ) → List ℕ → Type 0
NoTies key xs = (a b : ℕ) → 1 ≤ times a xs → 1 ≤ times b xs → key a ≡ key b → a ≡ b

same_order :
    (key : ℕ → ℕ) (low low' : ℕ) (zs xs : List ℕ)
    → Ascending key low zs
    → Ascending key low' xs
    → NoTies key xs
    → SameItems zs xs
    → zs ≡ xs
same_order key low low' [] [] up up' apart same = refl
same_order key low low' [] (x ∷ xs) up up' apart same = absurd (ground (arith, same x))
same_order key low low' (z ∷ zs) [] up up' apart same = absurd (ground (arith, same z))
same_order key low low' (z ∷ zs) (x ∷ xs) (le, up) (le', up') apart same =
    let z_in : 1 ≤ times z (x ∷ xs) = ground (arith, same z) in
    let x_in : 1 ≤ times x (z ∷ zs) = ground (arith, same x) in
    let x_here : 1 ≤ times x (x ∷ xs) = ground arith in
    let down = Ascending-le key (key x) (x ∷ xs) z (omega arith, up') z_in in
    let back = Ascending-le key (key z) (z ∷ zs) x (omega arith, up) x_in in
    let heads : z ≡ x = apart z x z_in x_here (omega (arith, down, back)) in
    let same' : SameItems (x ∷ zs) (x ∷ xs) =
      subst (λ (t : ℕ). SameItems (t ∷ zs) (x ∷ xs)) heads same in
    let tails =
      same_order key (key z) (key x) zs xs up up'
        (λ a b in_a in_b. apart a b (ground (arith, in_a)) (ground (arith, in_b)))
        (λ e. ground (arith, same' e)) in
    ap (λ (t : ℕ). t ∷ zs) heads ∙ ap (λ (t : List ℕ). x ∷ t) tails

-- A run of `core_bench_list` behind which the list holds `xs` in this order again. The data of the items
-- is not among it: `cmp_idx` changes it.
pub record SameOrder (res : CoreResults) (xs : List ℕ) (r : Option (ℕ × CoreResults)) : Type 0 where
  pub crc : ℕ
  pub heap : Heap
  pub runs : r ≡ some (crc, record res { heap = heap })
  pub chain : IsChain heap res.list xs
  pub same_info : heap.info ≡ res.heap.info
  pub same_indices : (a : ℕ) → (heap.cell a).idx ≡ (res.heap.cell a).idx

Restored-SameOrder :
    (res : CoreResults) (xs : List ℕ) (r : Option (ℕ × CoreResults))
    → IsChain res.heap res.list xs
    → Ascending (λ x. signed_order (res.heap.cell (res.heap.info x)).idx) 0 xs
    → NoTies (λ x. signed_order (res.heap.cell (res.heap.info x)).idx) xs
    → Restored res xs r
    → SameOrder res xs r
Restored-SameOrder res xs r chain up apart done =
    let order =
      same_order (λ x. signed_order (res.heap.cell (res.heap.info x)).idx) 0 0 (done.head ∷ done.zs)
        xs done.ascends up apart done.same_items in
    let from_head : IsChain done.heap (some done.head) xs =
      subst (λ (t : List ℕ). IsChain done.heap (some done.head) t) order done.chain in
    record {
      crc = done.crc;
      heap = done.heap;
      runs = done.runs;
      chain = same_head res.heap done.heap res.list (some done.head) xs chain from_head;
      same_info = done.same_info;
      same_indices = done.same_indices;
    }
  where
    same_head :
        (h h' : Heap) (p q : Option ℕ) (xs : List ℕ)
        → IsChain h p xs
        → IsChain h' q xs
        → IsChain h' p xs
    same_head h h' p q [] c c' = c
    same_head h h' p q (x ∷ xs) c c' = (c.0, c'.1)

-- Where the list is in the order of its signed indices, without two equal ones, a run of
-- `core_bench_list` with a negative `finder_idx` returns and leaves the links of the list as they were:
-- from the pointer in the results the same items follow in the same order, with the same `info` pointers
-- and indices. Their `data16` may change. The list has at least three items and at most `items`, all
-- distinct, and indices are of 16 bits.
pub core_bench_list-SameOrder :
    (items : ℕ) (res : CoreResults) (finder_idx : ℕ) (xs : List ℕ)
    → 2 ^ 15 ≤ finder_idx
    → ((x : ℕ) → (res.heap.cell x).idx < 2 ^ 16)
    → IsChain res.heap res.list xs
    → Distinct xs
    → 3 ≤ length xs
    → length xs ≤ items
    → Ascending (λ x. signed_order (res.heap.cell (res.heap.info x)).idx) 0 xs
    → NoTies (λ x. signed_order (res.heap.cell (res.heap.info x)).idx) xs
    → SameOrder res xs (core_bench_list items res finder_idx)
core_bench_list-SameOrder items res finder_idx xs negative small chain distinct long le up apart =
    Restored-SameOrder res xs (core_bench_list items res finder_idx) chain up apart
      (core_bench_list-Restored items res finder_idx xs negative small chain distinct long le)
