-- ===== src/CoreMark/ListJoin/Sort/Segments.antt =====
-- Runs of linked items, the merged list that the sort builds, and how often an item stands in a list.
use takshaka.Base.{
  ℕ, ◌+◌, ◌≤◌, ◌≡◌, refl, ap, sym, subst, ◌==◌, if◌then◌else◌, Option, none, some, List, [], ◌∷◌,
  ◌++◌, arith,
}
use takshaka.CoreMark.ListJoin.{Heap, update}
use takshaka.CoreMark.ListJoin.Chain.{IsChain, NotIn, Distinct}
use takshaka.CoreMark.ListJoin.Sort.{linked, or_first}

-- How often `e` stands in a list.
abbrev pub times : (e : ℕ) → List ℕ → ℕ
times e [] = 0
times e (next ∷ rest) = if e == next then 1 + times e rest else times e rest

-- No item stands twice in the list.
abbrev pub Single : List ℕ → Type 0
Single list = (e : ℕ) → times e list ≤ 1

pub times-append :
    (e : ℕ) (front back : List ℕ) → times e (front ++ back) ≡ times e front + times e back
times-append e [] back = omega arith
times-append e (next ∷ rest) back = ground (arith, times-append e rest back)

-- The same items, as often.
abbrev pub SameItems : (list other : List ℕ) → Type 0
SameItems list other = (e : ℕ) → times e list ≡ times e other

pub times_self : (a : ℕ) (xs : List ℕ) → 1 ≤ times a (a ∷ xs)
times_self a xs = ground arith

times_out : (a : ℕ) (xs : List ℕ) → NotIn a xs → times a xs ≡ 0
times_out a [] h = refl
times_out a (x ∷ xs) (ne, h) = ground (arith, times_out a xs h)

pub Distinct-Single : (xs : List ℕ) → Distinct xs → Single xs
Distinct-Single [] d a = omega arith
Distinct-Single (x ∷ xs) (out, d) a =
    ground (
      arith,
      times_out x xs out,
      Distinct-Single xs d a,
      ap (λ (b : ℕ). times b xs) {x = a} {y = x},
    )

-- From `p` the links lead through `xs` to `stop`.
abbrev pub Seg : (next : ℕ → Option ℕ) → Option ℕ → List ℕ → Option ℕ → Type 0
Seg next p [] stop = p ≡ stop
Seg next p (x ∷ xs) stop = (p ≡ some x) × Seg next (next x) xs stop

pub Seg-of_IsChain : (h : Heap) (p : Option ℕ) (xs : List ℕ) → IsChain h p xs → Seg h.next p xs none
Seg-of_IsChain h p [] c = c
Seg-of_IsChain h p (x ∷ xs) (e, c) = (e, Seg-of_IsChain h (h.next x) xs c)

pub IsChain-of_Seg : (h : Heap) (p : Option ℕ) (xs : List ℕ) → Seg h.next p xs none → IsChain h p xs
IsChain-of_Seg h p [] c = c
IsChain-of_Seg h p (x ∷ xs) (e, c) = (e, IsChain-of_Seg h (h.next x) xs c)

pub Seg-append :
    (next : ℕ → Option ℕ) (p mid stop : Option ℕ) (xs ys : List ℕ)
    → Seg next p xs mid
    → Seg next mid ys stop
    → Seg next p (xs ++ ys) stop
Seg-append next p mid stop [] ys s t = subst (λ (q : Option ℕ). Seg next q ys stop) (sym s) t
Seg-append next p mid stop (x ∷ xs) ys (e, s) t = (e, Seg-append next (next x) mid stop xs ys s t)

-- Where a list is split, so is its segment.
pub Seg-split :
    (next : ℕ → Option ℕ) (p stop : Option ℕ) (xs ys : List ℕ)
    → Seg next p (xs ++ ys) stop
    → (mid : Option ℕ) × Seg next p xs mid × Seg next mid ys stop
Seg-split next p stop [] ys s = (p, refl, s)
Seg-split next p stop (x ∷ xs) ys (e, s) =
    let (mid, front, back) = Seg-split next (next x) stop xs ys s in (mid, (e, front), back)

pub update-Seg :
    (next : ℕ → Option ℕ) (a : ℕ) (v p stop : Option ℕ) (xs : List ℕ)
    → times a xs ≡ 0
    → Seg next p xs stop
    → Seg (update next a v) p xs stop
update-Seg next a v p stop [] out s = s
update-Seg next a v p stop (x ∷ xs) out (e, s) =
    let same : update next a v x ≡ next x = ground arith in
    (e, rw same (update-Seg next a v (next x) stop xs (ground arith) s))

-- The merged list so far: its last item is `tail`, whose own link is arbitrary.
abbrev pub Built : (next : ℕ → Option ℕ) → (list tail : Option ℕ) → List ℕ → Type 0
Built next list none out = (list ≡ none) × (out ≡ [])
Built next list (some t) out =
    (front : List ℕ) × (out ≡ front ++ t ∷ []) × Seg next list front (some t)

-- An added item is the last one of the merged list.
pub append-Built :
    (next : ℕ → Option ℕ) (list tail : Option ℕ) (out : List ℕ) (e : ℕ)
    → Single out
    → Built next list tail out
    → Built (linked tail e next) (or_first tail e list) (some e) (out ++ e ∷ [])
append-Built next list none out e single (empty, nothing) =
    ([], ap (λ (o : List ℕ). o ++ e ∷ []) nothing, refl)
append-Built next list (some t) out e single (front, is, s) =
    let out_front : times t front ≡ 0 =
      omega (arith, single t, ap (times t) is, times-append t front (t ∷ []), times_self t []) in
    let here : update next t (some e) t ≡ some e = ground arith in
    (
      out,
      refl,
      subst (λ (o : List ℕ). Seg (update next t (some e)) list o (some e)) (sym is)
          (Seg-append (update next t (some e)) list (some t) (some e) front (t ∷ [])
            (update-Seg next t (some e) list (some t) front out_front s) (refl, here)),
    )

-- Items that are not in the merged list stay linked as they are.
pub append-Seg :
    (next : ℕ → Option ℕ) (list tail p stop : Option ℕ) (out xs : List ℕ) (e : ℕ)
    → Built next list tail out
    → ((a : ℕ) → times a out + times a xs ≤ 1)
    → Seg next p xs stop
    → Seg (linked tail e next) p xs stop
append-Seg next list none p stop out xs e b apart s = s
append-Seg next list (some t) p stop out xs e (front, is, _) apart s =
    update-Seg next t (some e) p stop xs
      (omega (arith, apart t, ap (times t) is, times-append t front (t ∷ []), times_self t [])) s

-- Behind `tail->next = NULL` the merged list is a chain.
pub end-Seg :
    (next : ℕ → Option ℕ) (list : Option ℕ) (t : ℕ) (out : List ℕ)
    → Single out
    → Built next list (some t) out
    → Seg (update next t none) list out none
end-Seg next list t out single (front, is, s) =
    let out_front : times t front ≡ 0 =
      omega (arith, single t, ap (times t) is, times-append t front (t ∷ []), times_self t []) in
    let here : update next t none t ≡ none = ground arith in
    subst (λ (o : List ℕ). Seg (update next t none) list o none) (sym is)
      (Seg-append (update next t none) list (some t) none front (t ∷ [])
        (update-Seg next t none list (some t) front out_front s) (refl, here))
