-- ===== src/CoreMark/ListJoin/Bench/Moving.antt =====
-- A list item is moved behind the head of the list, as the first loop of `core_bench_list` does.
use takshaka.Base.{
  ℕ, ◌≤◌, ◌≡◌, refl, sym, ap, subst, ◌∙◌, ◌==◌, false, Option, none, some, List, [], ◌∷◌, ◌++◌,
  length, length-append, arith, Bool-cases, Option-cases, ==_iff, inl, inr,
}
use takshaka.CoreMark.ListJoin.{Heap, update}
use takshaka.CoreMark.ListJoin.Chain.{IsChain}
use takshaka.CoreMark.ListJoin.Sort.Segments.{
  times, Single, times-append, SameItems, Seg, Seg-of_IsChain, IsChain-of_Seg, Seg-append,
  Seg-split, update-Seg,
}
use takshaka.CoreMark.ListJoin.Bench.{cache_next}

-- A list split at an item of it.
pub record SplitAt (x : ℕ) (xs : List ℕ) : Type 0 where
  pub front : List ℕ
  pub back : List ℕ
  pub is : xs ≡ front ++ x ∷ back

pub split_at : (x : ℕ) (xs : List ℕ) → 1 ≤ times x xs → SplitAt x xs
split_at x [] h = absurd (omega arith)
split_at x (y ∷ ys) h = elim (Bool-cases (x == y)) [
  | inl same ↦ record { front = []; back = ys; is = ap (λ (t : ℕ). t ∷ ys) (ground (arith, same)) }
  | inr other ↦
      let rest = split_at x ys (ground (arith, other)) in
      record { front = y ∷ rest.front; back = rest.back; is = ap (λ (t : List ℕ). y ∷ t) rest.is }
]

-- The same items are as many.
pub length-same : (xs ys : List ℕ) → SameItems xs ys → length xs ≡ length ys
length-same [] [] same = refl
length-same [] (y ∷ ys) same = absurd (ground (arith, same y))
length-same (x ∷ xs) ys same =
    let at = split_at x ys (ground (arith, same x)) in
    let fewer : SameItems xs (at.front ++ at.back) = λ e. one_less at.front at.back at.is e in
    omega (
      arith,
      length-same xs (at.front ++ at.back) fewer,
      ap (λ (t : List ℕ). length t) at.is,
      length-append {0} at.front (x ∷ at.back),
      length-append {0} at.front at.back,
    )
  where
    one_less :
        (front back : List ℕ)
        → ys ≡ front ++ x ∷ back
        → (e : ℕ) → times e xs ≡ times e (front ++ back)
    one_less front back is e =
        ground (
          arith,
          same e,
          ap (times e) is,
          times-append e front (x ∷ back),
          times-append e front back,
        )

-- Item `f` is moved from behind `x` to behind the head `z`.
moved : (next : ℕ → Option ℕ) (z x f : ℕ) → ℕ → Option ℕ
moved next z x f =
    let n1 = update next x (next f) in let n2 = update n1 f (n1 z) in update n2 z (some f)

moved_head : (next : ℕ → Option ℕ) (z f e : ℕ) → next z ≡ some f → moved next z z f e ≡ next e
unfolding moved
moved_head next z f e linked =
    ground (arith, linked, ap next {x = e} {y = z}, ap next {x = e} {y = f})

-- The three items and the parts between them are apart.
record AllApart (z x f : ℕ) (us ws : List ℕ) : Type 0 where
  z_us : times z us ≡ 0
  z_ws : times z ws ≡ 0
  x_us : times x us ≡ 0
  x_ws : times x ws ≡ 0
  f_us : times f us ≡ 0
  f_ws : times f ws ≡ 0
  z_x : (z == x) ≡ false
  z_f : (z == f) ≡ false
  x_f : (x == f) ≡ false

all_apart : (z x f : ℕ) (us ws : List ℕ) → Single (z ∷ (us ++ x ∷ f ∷ ws)) → AllApart z x f us ws
all_apart z x f us ws single =
    let of_z = single z in
    let of_x = single x in
    let of_f = single f in
    record {
      z_us = ground (arith, of_z, times-append z us (x ∷ f ∷ ws));
      z_ws = ground (arith, of_z, times-append z us (x ∷ f ∷ ws));
      x_us = ground (arith, of_x, times-append x us (x ∷ f ∷ ws));
      x_ws = ground (arith, of_x, times-append x us (x ∷ f ∷ ws));
      f_us = ground (arith, of_f, times-append f us (x ∷ f ∷ ws));
      f_ws = ground (arith, of_f, times-append f us (x ∷ f ∷ ws));
      z_x = ground (arith, of_z, times-append z us (x ∷ f ∷ ws));
      z_f = ground (arith, of_z, times-append z us (x ∷ f ∷ ws));
      x_f = ground (arith, of_x, times-append x us (x ∷ f ∷ ws));
    }

moved-Seg :
    (next : ℕ → Option ℕ) (z x f : ℕ) (p stop : Option ℕ) (xs : List ℕ)
    → times z xs ≡ 0
    → times x xs ≡ 0
    → times f xs ≡ 0
    → Seg next p xs stop
    → Seg (moved next z x f) p xs stop
unfolding moved
moved-Seg next z x f p stop xs out_z out_x out_f s =
    update-Seg (update (update next x (next f)) f (update next x (next f) z)) z (some f) p stop xs
      out_z
      (update-Seg (update next x (next f)) f (update next x (next f) z) p stop xs out_f
        (update-Seg next x (next f) p stop xs out_x s))

moved_inner :
    (next : ℕ → Option ℕ) (z x f : ℕ) (us ws : List ℕ) (stop : Option ℕ)
    → Seg next (next z) us (some x)
    → Seg next (next f) ws stop
    → AllApart z x f us ws
    → Seg (moved next z x f) (some z) (z ∷ f ∷ (us ++ x ∷ ws)) stop
unfolding moved
moved_inner next z x f us ws stop front back a =
    let n = moved next z x f in
    let at_z : n z ≡ some f = ground arith in
    let at_f : n f ≡ next z = ground (arith, a.z_f, a.z_x) in
    let at_x : n x ≡ next f = ground (arith, a.z_x, a.x_f) in
    (
      refl,
      (
        at_z,
        rw at_f (
            Seg-append n (next z) (some x) stop us (x ∷ ws)
              (moved-Seg next z x f (next z) (some x) us a.z_us a.x_us a.f_us front)
              (refl, rw at_x (moved-Seg next z x f (next f) stop ws a.z_ws a.x_ws a.f_ws back))),
      ),
    )

-- A chain from `z` of the same items, in a heap that differs in the links only.
pub record Shuffled (h : Heap) (z : ℕ) (xs : List ℕ) (h' : Heap) : Type 0 where
  pub rest : List ℕ
  pub chain : IsChain h' (some z) (z ∷ rest)
  pub same_items : SameItems (z ∷ rest) xs
  pub len : length (z ∷ rest) ≡ length xs
  pub same_info : h'.info ≡ h.info
  pub same_cell : h'.cell ≡ h.cell

next_item :
    (next : ℕ → Option ℕ) (p : Option ℕ) (x f : ℕ) (back : List ℕ)
    → Seg next p (x ∷ back) none
    → next x ≡ some f
    → (ws : List ℕ) × (back ≡ f ∷ ws) × Seg next (next f) ws none
next_item next p x f [] (e, last) linked = absurd (cc (last, linked))
next_item next p x f (y ∷ ws) (e, (to_y, s)) linked =
    let same : y ≡ f = some_inj y f (sym to_y ∙ linked) in
    (ws, ap (λ (t : ℕ). t ∷ ws) same, subst (λ (t : ℕ). Seg next (next t) ws none) same s)
  where
    some_inj : (a b : ℕ) → ◌≡◌ {A = Option ℕ} (some a) (some b) → a ≡ b
    some_inj a b h = cc

moved_items :
    (e z x f : ℕ) (us ws : List ℕ)
    → times e (z ∷ f ∷ (us ++ x ∷ ws)) ≡ times e (z ∷ (us ++ x ∷ f ∷ ws))
moved_items e z x f us ws =
    ground (arith, times-append e us (x ∷ ws), times-append e us (x ∷ f ∷ ws))

moved_length :
    (z x f : ℕ) (us ws : List ℕ) → length (z ∷ f ∷ (us ++ x ∷ ws)) ≡ length (z ∷ (us ++ x ∷ f ∷ ws))
moved_length z x f us ws =
    omega (arith, length-append {0} us (x ∷ ws), length-append {0} us (x ∷ f ∷ ws))

cache_inner :
    (h : Heap) (z x f : ℕ) (zs us back : List ℕ)
    → IsChain h (some z) (z ∷ zs)
    → Single (z ∷ zs)
    → zs ≡ us ++ x ∷ back
    → h.next x ≡ some f
    → Shuffled h z (z ∷ zs) (record h { next = moved h.next z x f })
cache_inner h z x f zs us back chain single is linked =
    let whole : Seg h.next (h.next z) (us ++ x ∷ back) none =
      subst (λ (t : List ℕ). Seg h.next (h.next z) t none) is
        (Seg-of_IsChain h (h.next z) zs chain.1) in
    let (mid, front, rest) = Seg-split h.next (h.next z) none us (x ∷ back) whole in
    let (ws, back_is, tail) = next_item h.next mid x f back rest linked in
    let zs_is : zs ≡ us ++ x ∷ f ∷ ws = is ∙ ap (λ (t : List ℕ). us ++ x ∷ t) back_is in
    let apart = all_apart z x f us ws (subst (λ (t : List ℕ). Single (z ∷ t)) zs_is single) in
    let front_x : Seg h.next (h.next z) us (some x) =
      subst (λ (m : Option ℕ). Seg h.next (h.next z) us m) rest.0 front in
    record {
      rest = f ∷ (us ++ x ∷ ws);
      chain =
          IsChain-of_Seg (record h { next = moved h.next z x f }) (some z) (z ∷ f ∷ (us ++ x ∷ ws))
            (moved_inner h.next z x f us ws none front_x tail apart);
      same_items =
          λ e. moved_items e z x f us ws ∙ ap (λ (t : List ℕ). times e (z ∷ t)) (sym zs_is);
      len = moved_length z x f us ws ∙ ap (λ (t : List ℕ). length (z ∷ t)) (sym zs_is);
      same_info = refl;
      same_cell = refl;
    }

cached_head :
    (h : Heap) (z f : ℕ) (zs : List ℕ)
    → IsChain h (some z) (z ∷ zs)
    → h.next z ≡ some f
    → Shuffled h z (z ∷ zs) (cache_next h z z)
unfolding cache_next moved
cached_head h z f zs chain linked =
    let same : moved h.next z z f ≡ h.next = λ i e. moved_head h.next z f e linked i in
    rw (linked, cache_next)
      (record {
        rest = zs;
        chain =
            IsChain-of_Seg (record h { next = moved h.next z z f }) (some z) (z ∷ zs)
              (subst (λ (n : ℕ → Option ℕ). Seg n (some z) (z ∷ zs) none) (sym same)
                (Seg-of_IsChain h (some z) (z ∷ zs) chain));
        same_items = λ e. refl;
        len = refl;
        same_info = refl;
        same_cell = refl;
      })

-- Caching an item of the chain behind the head.
pub cache_next-Shuffled :
    (h : Heap) (z x : ℕ) (zs : List ℕ)
    → IsChain h (some z) (z ∷ zs)
    → Single (z ∷ zs)
    → 1 ≤ times x (z ∷ zs)
    → Shuffled h z (z ∷ zs) (cache_next h z x)
unfolding cache_next moved
cache_next-Shuffled h z x zs chain single inside = elim (Option-cases (h.next x)) [
  | inl last ↦
      rw (last, cache_next)
        (record {
          rest = zs;
          chain = chain;
          same_items = λ e. refl;
          len = refl;
          same_info = refl;
          same_cell = refl;
        })
  | inr (f, linked) ↦ elim (Bool-cases (x == z)) [
    | inl head ↦
        subst (λ (y : ℕ). Shuffled h z (z ∷ zs) (cache_next h z y)) (sym ((==_iff x z).0 head))
          (cached_head h z f zs chain (ap h.next (sym ((==_iff x z).0 head)) ∙ linked))
    | inr inner ↦
        let at = split_at x zs (ground (arith, inner, inside)) in
        rw (linked, cache_next) (cache_inner h z x f zs at.front at.back chain single at.is linked)
  ]
]
