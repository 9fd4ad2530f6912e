-- ===== src/CoreMark/ListJoin/Chain.antt =====
-- Chains of list items, and what `core_list_find` and `core_list_reverse` do to them.
use takshaka.Base.{
  ℕ, zero, suc, ◌≤◌, ◌≡◌, ◌≢◌, refl, sym, subst, if◌then◌else◌, Option, none, some, List, [], ◌∷◌,
  ◌++◌, length, arith, Bool-cases, inl, inr, append_assoc, append-nil,
}
use takshaka.CoreMark.ListJoin.{
  ListData, Heap, update, set_next, data_of, is_hit, core_list_find, reverse_loop,
  core_list_reverse,
}

-- The items that the `next` pointers link from `p` on, up to NULL.
abbrev pub IsChain : Heap → Option ℕ → List ℕ → Type 0
IsChain h p [] = p ≡ none
IsChain h p (x ∷ xs) = (p ≡ some x) × IsChain h (h.next x) xs

abbrev pub NotIn : ℕ → List ℕ → Type 0
NotIn x [] = Unit
NotIn x (y ∷ ys) = (x ≢ y) × NotIn x ys

abbrev pub Distinct : List ℕ → Type 0
Distinct [] = Unit
Distinct (x ∷ xs) = NotIn x xs × Distinct xs

-- A write to an item that is not in the chain leaves the chain.
pub set_next-IsChain :
    (h : Heap) (x : ℕ) (v p : Option ℕ) (xs : List ℕ)
    → NotIn x xs
    → IsChain h p xs
    → IsChain (set_next h x v) p xs
set_next-IsChain h x v p [] out c = c
set_next-IsChain h x v p (y ∷ ys) (ne, out) (e, c) =
    let same : update h.next x v y ≡ h.next y = ground arith in
    (e, rw same (set_next-IsChain h x v (h.next y) ys out c))

-- Of all items, the first that is looked for.
abbrev pub first_hit : Heap → ListData → List ℕ → Option ℕ
first_hit h info [] = none
first_hit h info (x ∷ xs) = if is_hit info (data_of h x) then some x else first_hit h info xs

-- `core_list_find` returns the first item of the chain that is looked for, or NULL if there is none.
pub core_list_find-first_hit :
    (fuel : ℕ) (h : Heap) (list : Option ℕ) (info : ListData) (xs : List ℕ)
    → IsChain h list xs
    → length xs ≤ fuel
    → core_list_find fuel h list info ≡ some (first_hit h info xs)
unfolding core_list_find
core_list_find-first_hit fuel h list info [] e enough = rw e refl
core_list_find-first_hit zero h list info (x ∷ xs) c enough = absurd (omega arith)
core_list_find-first_hit (suc fuel) h list info (x ∷ xs) (e, c) enough =
    rw e (elim (Bool-cases (is_hit info (data_of h x))) [
      | inl hit ↦ rw hit refl
      | inr miss ↦ rw miss (core_list_find-first_hit fuel h (h.next x) info xs c (omega arith))
    ])

abbrev pub reversed : List ℕ → List ℕ
reversed [] = []
reversed (x ∷ xs) = reversed xs ++ x ∷ []

-- A chain of the given items, in a heap that differs in the links only.
pub record Relinked (h : Heap) (xs : List ℕ) (r : Option (Option ℕ × Heap)) : Type 0 where
  pub head : Option ℕ
  pub next : ℕ → Option ℕ
  pub runs : r ≡ some (head, record h { next = next })
  pub chain : IsChain (record h { next = next }) head xs

abbrev Apart : List ℕ → List ℕ → Type 0
Apart [] ys = Unit
Apart (x ∷ xs) ys = NotIn x ys × Apart xs ys

Apart-cons : (x : ℕ) (xs ys : List ℕ) → NotIn x xs → Apart xs ys → Apart xs (x ∷ ys)
Apart-cons x [] ys out apart = tt
Apart-cons x (y ∷ xs) ys (ne, out) (a, apart) = ((λ e. ne (sym e), a), Apart-cons x xs ys out apart)

Apart-nil : (xs : List ℕ) → Apart xs []
Apart-nil [] = tt
Apart-nil (x ∷ xs) = (tt, Apart-nil xs)

reverse_loop-Relinked :
    (fuel : ℕ) (h : Heap) (list next : Option ℕ) (xs ys : List ℕ)
    → IsChain h list xs
    → IsChain h next ys
    → Distinct xs
    → Apart xs ys
    → length xs ≤ fuel
    → Relinked h (reversed xs ++ ys) (reverse_loop fuel h list next)
unfolding reverse_loop
reverse_loop-Relinked fuel h list next [] ys c done distinct apart enough = record {
  head = next;
  next = h.next;
  runs = rw c refl;
  chain = done;
}
reverse_loop-Relinked zero h list next (x ∷ xs) ys c done distinct apart enough =
    absurd (omega arith)
reverse_loop-Relinked (suc fuel) h list next (x ∷ xs) ys (e, c) done (out, distinct) apart enough =
    let h1 : Heap = set_next h x next in
    let linked : h1.next x ≡ next = ground arith in
    let front : IsChain h1 (h1.next x) ys =
      rw linked (set_next-IsChain h x next next ys apart.0 done) in
    let ih =
      reverse_loop-Relinked fuel h1 (h.next x) (some x) xs (x ∷ ys)
        (set_next-IsChain h x next (h.next x) xs out c) (refl, front) distinct
        (Apart-cons x xs ys out apart.1) (omega arith) in
    record {
      head = ih.head;
      next = ih.next;
      runs = rw (e, reverse_loop) ih.runs;
      chain =
          subst (IsChain (record h { next = ih.next }) ih.head)
            (sym (append_assoc (reversed xs) (x ∷ []) ys)) ih.chain;
    }

-- `core_list_reverse` links the items in the opposite order and writes nothing but links.
pub core_list_reverse-Relinked :
    (fuel : ℕ) (h : Heap) (list : Option ℕ) (xs : List ℕ)
    → IsChain h list xs
    → Distinct xs
    → length xs ≤ fuel
    → Relinked h (reversed xs) (core_list_reverse fuel h list)
unfolding core_list_reverse
core_list_reverse-Relinked fuel h list xs c distinct enough =
    subst (λ (t : List ℕ). Relinked h t (reverse_loop fuel h list none)) (append-nil (reversed xs))
      (reverse_loop-Relinked fuel h list none xs [] c refl distinct (Apart-nil xs) enough)
