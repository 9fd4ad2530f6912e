-- ===== src/CoreMark/ListJoin/Sort/Merge.antt =====
-- One merge: the loop takes the items of two runs in the order of their keys.
use takshaka.Base.{
  ℕ, zero, suc, ◌+◌, ◌-◌, ◌≤◌, ◌≡◌, refl, ap, ◌∙◌, sym, subst, ◌⊎◌, inl, inr, true, false, ◌==◌,
  ltb, ◌&&◌, if◌then◌else◌, Bool-cases, Option, none, some, ◌>>=◌, List, [], ◌∷◌, ◌++◌, length,
  arith, append_assoc, append-nil,
}
use takshaka.CoreMark.ListJoin.{Heap}
use takshaka.CoreMark.ListJoin.Sort.{
  Sorting, at_most_zero, take_p, take_q, has_more, merge_step, merge_loop,
}
use takshaka.CoreMark.ListJoin.Sort.Segments.{
  times, times-append, Seg, Built, append-Built, append-Seg,
}
use takshaka.CoreMark.ListJoin.Sort.Order.{Answer, Problem, key_of, Ascending}

module _ {R : Type 0} (pr : Problem R) where
  -- In the middle of a pass: `out` is merged, `xs` is what `p` has left of its run, and from `q` on
  -- stands `ys`.
  pub record Holds (s : Sorting R) (out xs ys : List ℕ) : Type 0 where
    pub built : Built s.heap.next s.list s.tail out
    pub stop : Option ℕ
    pub left : Seg s.heap.next s.p xs stop
    pub right : Seg s.heap.next s.q ys none
    pub same_info : s.heap.info ≡ pr.info
    pub kept : pr.Inv s.heap.cell s.res
    pub all : (a : ℕ) → times a out + times a xs + times a ys ≡ times a pr.items

  take_p-Holds :
      (s : Sorting R) (out xs ys : List ℕ) (x : ℕ)
      → Holds s out (x ∷ xs) ys
      → Holds (take_p x s) (out ++ x ∷ []) xs ys
  take_p-Holds s out xs ys x h = record {
    built =
        append-Built s.heap.next s.list s.tail out x (λ a. omega (arith, h.all a, pr.single a))
          h.built;
    stop = h.stop;
    left =
        append-Seg s.heap.next s.list s.tail (s.heap.next x) h.stop out xs x h.built
          (λ a. ground (arith, h.all a, pr.single a)) h.left.1;
    right =
        append-Seg s.heap.next s.list s.tail s.q none out ys x h.built
          (λ a. ground (arith, h.all a, pr.single a)) h.right;
    same_info = h.same_info;
    kept = h.kept;
    all = λ a. ground (arith, h.all a, times-append a out (x ∷ []));
  }

  take_q-Holds :
      (s : Sorting R) (out xs ys : List ℕ) (y : ℕ)
      → Holds s out xs (y ∷ ys)
      → Holds (take_q y s) (out ++ y ∷ []) xs ys
  take_q-Holds s out xs ys y h = record {
    built =
        append-Built s.heap.next s.list s.tail out y (λ a. omega (arith, h.all a, pr.single a))
          h.built;
    stop = h.stop;
    left =
        append-Seg s.heap.next s.list s.tail s.p h.stop out xs y h.built
          (λ a. ground (arith, h.all a, pr.single a)) h.left;
    right =
        append-Seg s.heap.next s.list s.tail (s.heap.next y) none out ys y h.built
          (λ a. ground (arith, h.all a, pr.single a)) h.right.1;
    same_info = h.same_info;
    kept = h.kept;
    all = λ a. ground (arith, h.all a, times-append a out (y ∷ []));
  }

  -- The merge returns with `ms` merged behind `out` and `rest` left at `q`.
  pub record Merged (m : ℕ) (out rest : List ℕ) (low n : ℕ) (r : Option (Sorting R)) : Type 0 where
    pub after : Sorting R
    pub ms : List ℕ
    pub runs : r ≡ some after
    pub holds : Holds after (out ++ ms) [] rest
    pub ascends : Ascending (key_of pr) low ms
    pub len : length ms ≡ n
    pub same_merges : after.nmerges ≡ m

  -- A round that takes the item `e`, and the rounds behind it.
  cons-Merged :
      (fuel : ℕ) (s s' : Sorting R) (out rest : List ℕ) (e low n m : ℕ)
      → has_more s ≡ true
      → merge_step pr.cmp s ≡ some s'
      → low ≤ key_of pr e
      → Merged s.nmerges (out ++ e ∷ []) rest (key_of pr e) n (merge_loop pr.cmp fuel s')
      → m ≡ suc n
      → Merged s.nmerges out rest low m (merge_loop pr.cmp (suc fuel) s)
  unfolding merge_loop
  cons-Merged fuel s s' out rest e low n total goes step above m is = record {
    after = m.after;
    ms = e ∷ m.ms;
    runs = rw (goes, step, ◌>>=◌, merge_loop) m.runs;
    holds =
        subst (λ (o : List ℕ). Holds m.after o [] rest) (append_assoc out (e ∷ []) m.ms) m.holds;
    ascends = (above, m.ascends);
    len = ap suc m.len ∙ sym is;
    same_merges = m.same_merges;
  }

  step_q :
      (s : Sorting R) (y : ℕ) → s.psize ≡ 0 → s.q ≡ some y → merge_step pr.cmp s ≡ some (take_q y s)
  unfolding merge_step
  step_q s y z e = ground (arith, e)

  step_p_left :
      (s : Sorting R) (x : ℕ)
      → 1 ≤ s.psize
      → s.p ≡ some x
      → s.qsize ≡ 0
      → merge_step pr.cmp s ≡ some (take_p x s)
  unfolding merge_step
  step_p_left s x more e z = ground arith

  step_p_end :
      (s : Sorting R) (x : ℕ)
      → 1 ≤ s.psize
      → s.p ≡ some x
      → s.q ≡ none
      → merge_step pr.cmp s ≡ some (take_p x s)
  unfolding merge_step
  step_p_end s x more e z = ground arith

  -- The state behind a comparison.
  abbrev answered :
      {a b : ℕ} {r : Option (ℕ × Heap × R)} (s : Sorting R)
      → Answer pr.key pr.Inv a b s.heap r
      → Sorting R
  answered s c = record s { heap = record s.heap { cell = c.cell }; res = c.res }

  step_both :
      (s : Sorting R) (x y : ℕ)
      → 1 ≤ s.psize
      → s.p ≡ some x
      → 1 ≤ s.qsize
      → s.q ≡ some y
      → (c : Answer pr.key pr.Inv
          (s.heap.info x)
          (s.heap.info y)
          s.heap
          (pr.cmp (s.heap.info x) (s.heap.info y) s.heap s.res))
      → merge_step pr.cmp s
        ≡ some (if at_most_zero c.value then take_p x (answered s c) else take_q y (answered s c))
  unfolding merge_step
  step_both s x y p_more p q_more q c =
      let p_size : s.psize == 0 ≡ false = ground arith in
      let q_size : s.qsize == 0 ≡ false = ground arith in
      rw (p_size, q_size, q, p, ◌>>=◌, c.runs, ◌>>=◌) (ap some (cc q))

  answered-Holds :
      {a b : ℕ} {r : Option (ℕ × Heap × R)} (s : Sorting R) (out xs ys : List ℕ)
      (c : Answer pr.key pr.Inv a b s.heap r)
      → Holds s out xs ys
      → Holds (answered s c) out xs ys
  answered-Holds s out xs ys c h = record {
    built = h.built;
    stop = h.stop;
    left = h.left;
    right = h.right;
    same_info = h.same_info;
    kept = c.kept;
    all = h.all;
  }

  -- The run at `q` ends after `qsize` items or with the list.
  abbrev pub RunEnds : (qsize : ℕ) (y1 y2 : List ℕ) → Type 0
  RunEnds qsize y1 y2 = (qsize ≡ length y1) ⊎ ((y2 ≡ []) × (length y1 ≤ qsize))

  tail-RunEnds :
      (qsize y : ℕ) (y1 y2 : List ℕ) → RunEnds qsize (y ∷ y1) y2 → RunEnds (qsize - 1) y1 y2
  tail-RunEnds qsize y y1 y2 (inl e) = inl (omega (arith, e))
  tail-RunEnds qsize y y1 y2 (inr (e, le)) = inr (e, omega (arith, le))

  RunEnds-pos : (qsize y : ℕ) (y1 y2 : List ℕ) → RunEnds qsize (y ∷ y1) y2 → 1 ≤ qsize
  RunEnds-pos qsize y y1 y2 (inl e) = omega (arith, e)
  RunEnds-pos qsize y y1 y2 (inr (e, le)) = omega (arith, le)

  finished :
      (fuel : ℕ) (s : Sorting R) (out y2 : List ℕ) (low : ℕ)
      → Holds s out [] y2
      → s.psize ≡ 0
      → RunEnds s.qsize [] y2
      → Merged s.nmerges out y2 low 0 (merge_loop pr.cmp fuel s)
  unfolding merge_loop
  finished fuel s out y2 low h p ends = record {
    after = s;
    ms = [];
    runs = stops fuel (over ends);
    holds = subst (λ (o : List ℕ). Holds s o [] y2) (sym (append-nil out)) h;
    ascends = tt;
    len = refl;
    same_merges = refl;
  }
    where
      over : RunEnds s.qsize [] y2 → has_more s ≡ false
      over (inl e) = ground (arith, e)
      over (inr (e, _)) =
          let gone : s.q ≡ none = subst (λ (l : List ℕ). Seg s.heap.next s.q l none) e h.right in
          rw (p, gone)
            (elim (ltb 0 s.qsize) as (λ b. b && false ≡ false) [ true ↦ refl | false ↦ refl ])

      stops : (fuel : ℕ) → has_more s ≡ false → merge_loop pr.cmp fuel s ≡ some s
      stops zero e = rw e refl
      stops (suc fuel) e = rw (merge_loop, e) refl

  step_p :
      (s : Sorting R) (out xs y2 : List ℕ) (x : ℕ)
      → Holds s out (x ∷ xs) y2
      → 1 ≤ s.psize
      → RunEnds s.qsize [] y2
      → merge_step pr.cmp s ≡ some (take_p x s)
  step_p s out xs y2 x h more (inl e) = step_p_left s x more h.left.0 e
  step_p s out xs y2 x h more (inr (e, _)) =
      step_p_end s x more h.left.0 (subst (λ (l : List ℕ). Seg s.heap.next s.q l none) e h.right)

  more_p : (s : Sorting R) → 1 ≤ s.psize → has_more s ≡ true
  more_p s more = ground arith

  more_q : (s : Sorting R) (y : ℕ) → s.q ≡ some y → 1 ≤ s.qsize → has_more s ≡ true
  more_q s y e more = ground arith

  -- Enough rounds merge what is left of two runs.
  pub merge_loop-Merged :
      (fuel : ℕ) (s : Sorting R) (out xs y1 y2 : List ℕ) (low : ℕ)
      → Holds s out xs (y1 ++ y2)
      → s.psize ≡ length xs
      → RunEnds s.qsize y1 y2
      → Ascending (key_of pr) low xs
      → Ascending (key_of pr) low y1
      → length xs + length y1 ≤ fuel
      → Merged s.nmerges out y2 low (length xs + length y1) (merge_loop pr.cmp fuel s)
  merge_loop-Merged fuel s out [] [] y2 low h p ends ax ay enough =
      subst (λ (n : ℕ). Merged s.nmerges out y2 low n (merge_loop pr.cmp fuel s)) (omega arith)
        (finished fuel s out y2 low h p ends)
  merge_loop-Merged zero s out (x ∷ xs) y1 y2 low h p ends ax ay enough =
      absurd (omega (arith, enough))
  merge_loop-Merged zero s out [] (y ∷ y1) y2 low h p ends ax ay enough =
      absurd (omega (arith, enough))
  merge_loop-Merged (suc fuel) s out [] (y ∷ y1) y2 low h p ends _ (ay, ays) enough =
      let q_more = RunEnds-pos s.qsize y y1 y2 ends in
      cons-Merged fuel s (take_q y s) out y2 y low (length {A = ℕ} [] + length y1)
        (0 + length (y ∷ y1)) (more_q s y (h.right.0) q_more) (step_q s y p h.right.0) ay
        (merge_loop-Merged fuel (take_q y s) (out ++ y ∷ []) [] y1 y2 (key_of pr y)
          (take_q-Holds s out [] (y1 ++ y2) y h) (omega (arith, p))
          (tail-RunEnds s.qsize y y1 y2 ends) tt ays (omega (arith, enough)))
        (omega arith)
  merge_loop-Merged (suc fuel) s out (x ∷ xs) [] y2 low h p ends (ax, axs) ay enough =
      cons-Merged fuel s (take_p x s) out y2 x low (length xs + 0) (length (x ∷ xs) + 0)
        (more_p s (omega (arith, p))) (step_p s out xs y2 x h (omega (arith, p)) ends) ax
        (merge_loop-Merged fuel (take_p x s) (out ++ x ∷ []) xs [] y2 (key_of pr x)
          (take_p-Holds s out xs y2 x h) (omega (arith, p)) ends axs tt (omega (arith, enough)))
        (omega arith)
  merge_loop-Merged (suc fuel) s out (x ∷ xs) (y ∷ y1) y2 low h p ends (ax, axs) (ay, ays) enough =
      let p_more : 1 ≤ s.psize = omega (arith, p) in
      let c = pr.compares (s.heap.info x) (s.heap.info y) s.heap s.res h.kept in
      let s' = answered s c in
      let h' = answered-Holds s out (x ∷ xs) (y ∷ y1 ++ y2) c h in
      let step = step_both s x y p_more h.left.0 (RunEnds-pos s.qsize y y1 y2 ends) h.right.0 c in
      let keyed : (a b : ℕ)
          → pr.key (s.heap.info a) ≤ pr.key (s.heap.info b)
          → key_of pr a ≤ key_of pr b =
        λ a b. subst (λ (f : ℕ → ℕ). pr.key (f a) ≤ pr.key (f b)) h.same_info in
      elim (Bool-cases (at_most_zero c.value)) [
        | inl at_most ↦
            cons-Merged fuel s (take_p x s') out y2 x low (length xs + length (y ∷ y1))
              (length (x ∷ xs) + length (y ∷ y1)) (more_p s p_more) (rw at_most at step) ax
              (merge_loop-Merged fuel (take_p x s') (out ++ x ∷ []) xs (y ∷ y1) y2 (key_of pr x)
                (take_p-Holds s' out xs (y ∷ y1 ++ y2) x h') (omega (arith, p)) ends axs
                (keyed x y (c.at_most at_most), ays) (omega (arith, enough)))
              (omega arith)
        | inr above ↦
            cons-Merged fuel s (take_q y s') out y2 y low (length (x ∷ xs) + length y1)
              (length (x ∷ xs) + length (y ∷ y1)) (more_p s p_more) (rw above at step) ay
              (merge_loop-Merged fuel (take_q y s') (out ++ y ∷ []) (x ∷ xs) y1 y2 (key_of pr y)
                (take_q-Holds s' out (x ∷ xs) (y1 ++ y2) y h') p (tail-RunEnds s.qsize y y1 y2 ends)
                (keyed y x (c.above above), axs) ays (omega (arith, enough)))
              (omega arith)
      ]
