-- ===== src/CoreMark/ListJoin/Sort/Pass.antt =====
-- One pass of the sort: the merges of the runs, two by two.
use takshaka.Base.{
  ℕ, zero, suc, ◌+◌, ◌≤◌, ◌≡◌, refl, ap, ◌∙◌, sym, subst, ◌⊎◌, inl, inr, Option, none, some, ◌>>=◌,
  List, [], ◌∷◌, ◌++◌, length, arith, append_assoc, append-nil,
}
use takshaka.CoreMark.ListJoin.{Heap, set_next}
use takshaka.CoreMark.ListJoin.Sort.{Sorting, step_along, merge_loop, pass_loop, merge_pass}
use takshaka.CoreMark.ListJoin.Sort.Segments.{
  times, SameItems, times-append, Seg, Seg-split, Built, end-Seg,
}
use takshaka.CoreMark.ListJoin.Sort.Order.{Problem, key_of, Ascending, Runs, halves, halves_pos}
use takshaka.CoreMark.ListJoin.Sort.Merge.{Holds, Merged, RunEnds, merge_loop-Merged}

-- A walk over a run stops behind it: after `insize` items, or at the end of the list.
pub step_along-Seg :
    (insize : ℕ) (h : Heap) (x : ℕ) (xs : List ℕ) (mid : Option ℕ) (psize : ℕ)
    → Seg h.next (h.next x) xs mid
    → length (x ∷ xs) ≤ insize
    → (length (x ∷ xs) ≡ insize) ⊎ (mid ≡ none)
    → step_along insize h x psize ≡ (mid, psize + length (x ∷ xs))
unfolding step_along
step_along-Seg zero h x xs mid psize s le ends = absurd (omega (arith, le))
step_along-Seg (suc insize) h x [] none psize s le ends = rw (step_along, s) refl
step_along-Seg (suc insize) h x [] (some m) psize s le (inr e) = cc e
step_along-Seg (suc zero) h x [] (some m) psize s le (inl e) = rw (step_along, s, step_along) refl
step_along-Seg (suc (suc insize)) h x [] (some m) psize s le (inl e) = absurd (omega (arith, e))
step_along-Seg (suc insize) h x (x' ∷ xs) mid psize (e, s) le ends =
    rw (step_along, e)
      (step_along-Seg insize h x' xs mid (psize + 1) s (omega (arith, le)) (shorter ends)
        ∙ ap (λ (n : ℕ). (mid, n)) (omega arith))
  where
    shorter :
        (length (x ∷ x' ∷ xs) ≡ suc insize) ⊎ (mid ≡ none)
        → (length (x' ∷ xs) ≡ insize) ⊎ (mid ≡ none)
    shorter (inl full) = inl (omega (arith, full))
    shorter (inr last) = inr last

module _ {R : Type 0} (pr : Problem R) where
  -- Between two merges: `out` is merged, and from `p` on stands `rest`.
  pub record Between (s : Sorting R) (out rest : List ℕ) : Type 0 where
    pub built : Built s.heap.next s.list s.tail out
    pub ahead : Seg s.heap.next s.p rest none
    pub same_info : s.heap.info ≡ pr.info
    pub kept : pr.Inv s.heap.cell s.res
    pub all : (a : ℕ) → times a out + times a rest ≡ times a pr.items

  -- The rest of the pass returns, with `n` runs of `w` items merged behind `out`.
  pub record Passed (m : ℕ) (out : List ℕ) (w n : ℕ) (r : Option (Sorting R)) : Type 0 where
    pub after : Sorting R
    pub ms : List ℕ
    pub runs : r ≡ some after
    pub between : Between after (out ++ ms) []
    pub shape : Runs (key_of pr) w n ms
    pub merges : after.nmerges ≡ m + n

  -- The merge of the run at `p` with the next one.
  merge_at :
      (w : ℕ) (s : Sorting R) (out : List ℕ) (x : ℕ) (xs y1 y2 : List ℕ)
      → Between s out ((x ∷ xs) ++ (y1 ++ y2))
      → Ascending (key_of pr) 0 (x ∷ xs)
      → Ascending (key_of pr) 0 y1
      → length (x ∷ xs) ≤ w
      → length y1 ≤ w
      → (length (x ∷ xs) ≡ w) ⊎ (y1 ++ y2 ≡ [])
      → RunEnds pr w y1 y2
      → let along = step_along w s.heap x 0 in
        Merged pr (s.nmerges + 1) out y2 0 (length (x ∷ xs) + length y1) (
          merge_loop pr.cmp
            (w + w)
            (record s { q = along.0; psize = along.1; qsize = w; nmerges = s.nmerges + 1 }))
  merge_at w s out x xs y1 y2 b ax ay lx ly full ends =
      let (mid, front, back) = Seg-split s.heap.next s.p none (x ∷ xs) (y1 ++ y2) b.ahead in
      let along = step_along-Seg w s.heap x xs mid 0 front.1 lx (at_end full mid back) in
      rw along (
        merge_loop-Merged pr (w + w)
          (record s { q = mid; psize = 0 + length (x ∷ xs); qsize = w; nmerges = s.nmerges + 1 })
          out (x ∷ xs) y1 y2 0
          (record {
            built = b.built;
            stop = mid;
            left = front;
            right = back;
            same_info = b.same_info;
            kept = b.kept;
            all = λ a. omega (arith, b.all a, times-append a (x ∷ xs) (y1 ++ y2));
          })
          (omega arith) ends ax ay (omega (arith, lx, ly)))
    where
      at_end :
          (length (x ∷ xs) ≡ w) ⊎ (y1 ++ y2 ≡ [])
          → (mid : Option ℕ) → Seg s.heap.next mid (y1 ++ y2) none
          → (length (x ∷ xs) ≡ w) ⊎ (mid ≡ none)
      at_end (inl e) mid back = inl e
      at_end (inr e) mid back = inr (subst (λ (l : List ℕ). Seg s.heap.next mid l none) e back)

  Between-of_Holds :
      (s : Sorting R) (out rest : List ℕ)
      → Holds pr s out [] rest
      → Between (record s { p = s.q }) out rest
  Between-of_Holds s out rest h = record {
    built = h.built;
    ahead = h.right;
    same_info = h.same_info;
    kept = h.kept;
    all = λ a. omega (arith, h.all a);
  }

  -- A merge of two runs, and the rest of the pass behind it.
  cons-Passed :
      (fuel w : ℕ) (s : Sorting R) (out : List ℕ) (x : ℕ) (xs y1 y2 : List ℕ) (n : ℕ)
      → Between s out ((x ∷ xs) ++ (y1 ++ y2))
      → Ascending (key_of pr) 0 (x ∷ xs)
      → Ascending (key_of pr) 0 y1
      → length (x ∷ xs) ≤ w
      → length y1 ≤ w
      → (length (x ∷ xs) ≡ w) ⊎ (y1 ++ y2 ≡ [])
      → RunEnds pr w y1 y2
      → (length (x ∷ xs) + length y1 ≡ w + w) ⊎ (n ≡ 0)
      → ((s' : Sorting R) (out' : List ℕ)
          → Between s' out' y2
          → Passed s'.nmerges out' (w + w) n (pass_loop pr.cmp fuel w s'))
      → Passed s.nmerges out (w + w) (suc n) (pass_loop pr.cmp (suc fuel) w s)
  unfolding pass_loop
  cons-Passed fuel w s out x xs y1 y2 n b ax ay lx ly full ends both next =
      let m = merge_at w s out x xs y1 y2 b ax ay lx ly full ends in
      let s' = record m.after { p = m.after.q } in
      let rest = next s' (out ++ m.ms) (Between-of_Holds m.after (out ++ m.ms) y2 m.holds) in
      record {
        after = rest.after;
        ms = m.ms ++ rest.ms;
        runs = rw (pass_loop, b.ahead.0, m.runs, ◌>>=◌) rest.runs;
        between =
            subst (λ (o : List ℕ). Between rest.after o []) (append_assoc out m.ms rest.ms)
              rest.between;
        shape = (
          m.ms,
          rest.ms,
          refl,
          m.ascends,
          omega (arith, m.len),
          omega (arith, m.len, lx, ly),
          doubled m.len both,
          rest.shape,
        );
        merges = omega (arith, rest.merges, m.same_merges);
      }
    where
      doubled :
          {l : ℕ}
          → l ≡ length (x ∷ xs) + length y1
          → (length (x ∷ xs) + length y1 ≡ w + w) ⊎ (n ≡ 0)
          → (l ≡ w + w) ⊎ (n ≡ 0)
      doubled e (inl twice) = inl (e ∙ twice)
      doubled e (inr last) = inr last

  no_run :
      (fuel w : ℕ) (s : Sorting R) (out : List ℕ)
      → Between s out []
      → Passed s.nmerges out (w + w) 0 (pass_loop pr.cmp fuel w s)
  unfolding pass_loop
  no_run fuel w s out b = record {
    after = s;
    ms = [];
    runs = ended fuel b.ahead;
    between = subst (λ (o : List ℕ). Between s o []) (sym (append-nil out)) b;
    shape = refl;
    merges = omega arith;
  }
    where
      ended : (fuel : ℕ) → s.p ≡ none → pass_loop pr.cmp fuel w s ≡ some s
      ended zero e = simp (pass_loop, e) refl
      ended (suc fuel) e = simp (pass_loop, e) refl

  one_full : (w n l : ℕ) → (l ≡ w) ⊎ (suc n ≡ 0) → l ≡ w
  one_full w n l (inl full) = full
  one_full w n l (inr last) = absurd (omega (arith, last))

  two_full : (w n l l' : ℕ) → l ≡ w → (l' ≡ w) ⊎ (n ≡ 0) → (l + l' ≡ w + w) ⊎ (halves n ≡ 0)
  two_full w n l l' e (inl full) = inl (omega (arith, e, full))
  two_full w n l l' e (inr last) = inr (ap halves last)

  RunEnds-of_Runs :
      (w n : ℕ) (run rest : List ℕ)
      → length run ≤ w
      → (length run ≡ w) ⊎ (n ≡ 0)
      → Runs (key_of pr) w n rest
      → RunEnds pr w run rest
  RunEnds-of_Runs w n run rest le (inl full) shape = inl (sym full)
  RunEnds-of_Runs w n run rest le (inr last) shape =
      inr (subst (λ (m : ℕ). Runs (key_of pr) w m rest) last shape, le)

  -- A pass over `n` ascending runs of `w` items leaves half as many runs, of twice as many items.
  pub pass_loop-Passed :
      (fuel w n : ℕ) (s : Sorting R) (out rest : List ℕ)
      → Between s out rest
      → Runs (key_of pr) w n rest
      → halves n ≤ fuel
      → Passed s.nmerges out (w + w) (halves n) (pass_loop pr.cmp fuel w s)
  pass_loop-Passed fuel w zero s out rest b shape enough =
      no_run fuel w s out (subst (Between s out) shape b)
  pass_loop-Passed zero w (suc zero) s out rest b shape enough = absurd (omega (arith, enough))
  pass_loop-Passed zero w (suc (suc n)) s out rest b shape enough = absurd (omega (arith, enough))
  pass_loop-Passed (suc fuel) w (suc zero) s out rest b
        ([], rest', is, asc, pos, le, full, none_left) enough =
      absurd (omega (arith, pos))
  pass_loop-Passed (suc fuel) w (suc zero) s out rest b
        (x ∷ xs, rest', is, asc, pos, le, full, none_left) enough =
      let b' : Between s out ((x ∷ xs) ++ []) =
        subst (Between s out) (is ∙ ap (λ (r : List ℕ). (x ∷ xs) ++ r) none_left) b in
      cons-Passed fuel w s out x xs [] [] 0 b' asc tt le (omega arith) (inr refl)
        (inr (refl, omega arith)) (inr refl) (λ s' out' b'. no_run fuel w s' out' b')
  pass_loop-Passed (suc fuel) w (suc (suc n)) s out rest b ([], rest', is, asc, pos, le, full, more)
        enough =
      absurd (omega (arith, pos))
  pass_loop-Passed (suc fuel) w (suc (suc n)) s out rest b
        (x ∷ xs, rest', is, asc, pos, le, full, (run, rest2, is2, asc2, pos2, le2, full2, more))
        enough =
      let b' : Between s out ((x ∷ xs) ++ (run ++ rest2)) =
        subst (Between s out) (is ∙ ap (λ (r : List ℕ). (x ∷ xs) ++ r) is2) b in
      let full_now = one_full w n (length (x ∷ xs)) full in
      cons-Passed fuel w s out x xs run rest2 (halves n) b' asc asc2 le le2 (inl full_now)
        (RunEnds-of_Runs w n run rest2 le2 full2 more)
        (two_full w n (length (x ∷ xs)) (length run) full_now full2)
        (λ s' out' b'. pass_loop-Passed fuel w n s' out' rest2 b' more (omega (arith, enough)))

  -- A whole pass over a list that is not empty leaves it linked from its new head.
  pub record PassDone (w n : ℕ) (r : Option (Sorting R)) : Type 0 where
    pub after : Sorting R
    pub zs : List ℕ
    pub runs : r ≡ some after
    pub linked_up : Seg after.heap.next after.list zs none
    pub same_info : after.heap.info ≡ pr.info
    pub kept : pr.Inv after.heap.cell after.res
    pub all : SameItems zs pr.items
    pub shape : Runs (key_of pr) w n zs
    pub merges : after.nmerges ≡ n

  Runs-pos : (w n x : ℕ) (xs : List ℕ) → Runs (key_of pr) w n (x ∷ xs) → 1 ≤ n
  Runs-pos w zero x xs shape = absurd (omega (arith, ap length shape))
  Runs-pos w (suc n) x xs shape = omega arith

  pub some_item : (w n : ℕ) (zs : List ℕ) → 1 ≤ n → Runs (key_of pr) w n zs → 1 ≤ length zs
  some_item w zero zs pos shape = absurd (omega (arith, pos))
  some_item w (suc n) zs pos ([], rest, is, asc, more, le, full, behind) =
      absurd (omega (arith, more))
  some_item w (suc n) zs pos (x ∷ xs, rest, is, asc, more, le, full, behind) =
      omega (arith, ap length is)

  -- `tail->next = NULL`
  end_pass :
      (w n : ℕ) (r : Option (Sorting R))
      → 1 ≤ n
      → Passed 0 [] w n r
      → PassDone w n (do s ← r; t ← s.tail; some (record s { heap = set_next s.heap t none }))
  end_pass w n r pos p = closed p.after.tail refl p.between.built
    where
      closed :
          (tail : Option ℕ)
          → p.after.tail ≡ tail
          → Built p.after.heap.next p.after.list tail p.ms
          → PassDone w n (do s ← r; t ← s.tail; some (record s { heap = set_next s.heap t none }))
      closed none e (_, nothing) =
          absurd (omega (arith, some_item w n p.ms pos p.shape, ap length nothing))
      closed (some t) e b = record {
        after = record p.after { heap = set_next p.after.heap t none };
        zs = p.ms;
        runs = rw (p.runs, ◌>>=◌, e, ◌>>=◌) refl;
        linked_up =
            end-Seg p.after.heap.next p.after.list t p.ms
              (λ a. omega (arith, p.between.all a, pr.single a)) b;
        same_info = p.between.same_info;
        kept = p.between.kept;
        all = λ a. omega (arith, p.between.all a);
        shape = p.shape;
        merges = omega (arith, p.merges);
      }

  pub merge_pass-PassDone :
      (fuel w n : ℕ) (list : Option ℕ) (h : Heap) (res : R) (x : ℕ) (xs : List ℕ)
      → Seg h.next list (x ∷ xs) none
      → h.info ≡ pr.info
      → pr.Inv h.cell res
      → SameItems (x ∷ xs) pr.items
      → Runs (key_of pr) w n (x ∷ xs)
      → halves n ≤ fuel
      → PassDone (w + w) (halves n) (merge_pass pr.cmp fuel w list h res)
  unfolding merge_pass
  merge_pass-PassDone fuel w n list h res x xs seg info kept all shape enough =
      let start : Sorting R = record {
        list = none;
        tail = none;
        p = list;
        q = none;
        psize = 0;
        qsize = 0;
        nmerges = 0;
        heap = h;
        res = res;
      } in
      let b : Between start [] (x ∷ xs) = record {
        built = (refl, refl);
        ahead = seg;
        same_info = info;
        kept = kept;
        all = λ a. omega (arith, all a);
      } in
      end_pass (w + w) (halves n) (pass_loop pr.cmp fuel w start)
        (halves_pos n (Runs-pos w n x xs shape))
        (pass_loop-Passed fuel w n start [] (x ∷ xs) b shape enough)
