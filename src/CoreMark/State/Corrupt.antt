-- ===== src/CoreMark/State/Corrupt.antt =====
-- Which bytes the corruption loops of `core_bench_state` touch, and when the second undoes the first.
use takshaka.Base.{
  ℕ, zero, suc, ◌+◌, ◌-◌, ◌%◌, ◌^◌, ◌<◌, ◌≤◌, ◌≡◌, ◌≢◌, refl, ap, ◌∙◌, Bool, true, false, not, ◌&&◌,
  List, [], ◌∷◌, arith, Bool-cases, ==_iff, inl, inr, ◌==◌, ltb, leb, if◌then◌else◌, length, get_or,
  set, length-set, get_or-set_self, get_or-set_ne, bit_xor,
}
use mathlib.Core.Path.{ap₂}
use takshaka.Base.Bits.{xor_cancel}
use takshaka.CoreMark.State.{corrupt_byte, corrupt_loop, corrupt}
use native.Mathlib.Nat.{mod-eq-sub-mod, mod-eq_of_lt}

module _ (n seed step : ℕ) where
  pub length-corrupt_loop :
      (f i : ℕ) (mem : List ℕ) → length (corrupt_loop f n seed step i mem) ≡ length mem
  unfolding corrupt_loop
  length-corrupt_loop zero i mem = refl
  length-corrupt_loop (suc f) i mem = elim (Bool-cases (ltb i n)) [
    | inl more ↦
        rw (more, corrupt_loop)
          (length-corrupt_loop f (i + step) (set mem i (corrupt_byte seed (get_or mem i 0)))
            ∙ length-set mem i _)
    | inr done ↦ rw (done, corrupt_loop)
  ]

  -- An offset that lies ahead of `i` by a multiple of the step.
  abbrev touched : ℕ → ℕ → Bool
  touched i j = leb i j && ltb j n && (j - i) % step == 0

  touched_step : (i j : ℕ) → 0 < step → j ≢ i → touched (i + step) j ≡ touched i j
  touched_step i j h ne = ground (
    arith,
    mod-eq_of_lt {n = j - i} {m = step},
    mod-eq-sub-mod {n = j - i} {m = step},
    ap (λ (t : ℕ). t % step) regroup,
  )
    where
      regroup : j - i - step ≡ j - (i + step)
      regroup = omega arith

  -- One round writes at `i`, and the later ones do not come back to it.
  get_next :
      (i j : ℕ) (mem : List ℕ)
      → ltb i n ≡ true
      → 0 < step
      → n ≤ length mem
      → (if touched (i + step) j
          then corrupt_byte seed (get_or (set mem i (corrupt_byte seed (get_or mem i 0))) j 0)
          else get_or (set mem i (corrupt_byte seed (get_or mem i 0))) j 0)
        ≡ (if touched i j then corrupt_byte seed (get_or mem j 0) else get_or mem j 0)
  get_next i j mem more p r = elim (Bool-cases (j == i)) [
    | inl same ↦
        let is : j ≡ i = (==_iff j i).0 same in
        ground (
          arith,
          get_or-set_self mem i (corrupt_byte seed (get_or mem i 0)) 0,
          ap (λ (k : ℕ). get_or mem k 0) is,
          ap (λ (k : ℕ). get_or (set mem i (corrupt_byte seed (get_or mem i 0))) k 0) is,
        )
    | inr other ↦ rw (
      get_or-set_ne mem i j (corrupt_byte seed (get_or mem i 0)) 0 (λ e. ground arith),
      touched_step i j p (λ e. ground arith),
    )
  ]

  get-corrupt_loop :
      (f i j : ℕ) (mem : List ℕ)
      → 0 < step
      → n ≤ i + f
      → n ≤ length mem
      → get_or (corrupt_loop f n seed step i mem) j 0
        ≡ (if touched i j then corrupt_byte seed (get_or mem j 0) else get_or mem j 0)
  unfolding corrupt_loop
  get-corrupt_loop zero i j mem p q r = ground arith
  get-corrupt_loop (suc f) i j mem p q r = elim (Bool-cases (ltb i n)) [
    | inl more ↦
        let next : List ℕ = set mem i (corrupt_byte seed (get_or mem i 0)) in
        rw (more, corrupt_loop)
          (get-corrupt_loop f (i + step) j next p (omega arith)
              (omega (arith, length-set mem i (corrupt_byte seed (get_or mem i 0))))
            ∙ get_next i j mem more p r)
    | inr done ↦ rw (done, corrupt_loop) (ground arith)
  ]

pub corrupted_at :
    (blksize seed step j : ℕ) (mem : List ℕ)
    → 0 < step
    → blksize ≤ length mem
    → get_or (corrupt blksize seed step mem) j 0 ≡ (
        if ltb j blksize && j % step == 0
        then corrupt_byte seed (get_or mem j 0)
        else get_or mem j 0)
unfolding corrupt
corrupted_at n seed step j mem p q =
    get-corrupt_loop n seed step n 0 j mem p (omega arith) q ∙ ground arith

-- In memory of at least `blksize` bytes and for a step above 0: of the bytes below `blksize` at the
-- multiples of the step, the loop changes those that are not commas, into their exclusive or with the low
-- byte of the seed; all other bytes stay.
pub get-corrupt :
    (blksize seed step j : ℕ) (mem : List ℕ)
    → 0 < step
    → blksize ≤ length mem
    → get_or (corrupt blksize seed step mem) j 0 ≡ (
        if ltb j blksize && j % step == 0 && not (get_or mem j 0 == b',')
        then bit_xor (get_or mem j 0) (seed % 2 ^ 8)
        else get_or mem j 0)
unfolding corrupt_byte
get-corrupt n seed step j mem p q = corrupted_at n seed step j mem p q ∙ ground arith

pub length-corrupt :
    (n seed step : ℕ) (mem : List ℕ) → length (corrupt n seed step mem) ≡ length mem
unfolding corrupt
length-corrupt n seed step mem = length-corrupt_loop n seed step n 0 mem

-- The byte does not turn into a comma, which the second loop would skip.
abbrev pub StaysApart : ℕ → ℕ → Type 0
StaysApart seed b = (not (b == b',') && bit_xor b (seed % 2 ^ 8) == b',') ≡ false

corrupt_byte_twice : (seed b : ℕ) → StaysApart seed b → corrupt_byte seed (corrupt_byte seed b) ≡ b
unfolding corrupt_byte
corrupt_byte_twice seed b h = ground (arith, xor_cancel b (seed % 2 ^ 8))

get_or-ext :
    (xs ys : List ℕ) → length xs ≡ length ys → ((j : ℕ) → get_or xs j 0 ≡ get_or ys j 0) → xs ≡ ys
get_or-ext [] [] e h = refl
get_or-ext [] (y ∷ ys) e h = absurd (omega arith)
get_or-ext (x ∷ xs) [] e h = absurd (omega arith)
get_or-ext (x ∷ xs) (y ∷ ys) e h = ap₂ ◌∷◌ (h 0) (get_or-ext xs ys (omega arith) (λ j. h (suc j)))

-- With equal seeds the second loop undoes the first, if the first turns no byte into a comma.
pub corrupt-corrupt :
    (blksize seed step : ℕ) (mem : List ℕ)
    → 0 < step
    → blksize ≤ length mem
    → ((j : ℕ) → StaysApart seed (get_or mem j 0))
    → corrupt blksize seed step (corrupt blksize seed step mem) ≡ mem
corrupt-corrupt n seed step mem p q apart =
    get_or-ext _ mem (length-corrupt n seed step _ ∙ length-corrupt n seed step mem) λ j.
      corrupted_at n seed step j (corrupt n seed step mem) p
        (omega (arith, length-corrupt n seed step mem))
      ∙ ground (
        arith,
        corrupted_at n seed step j mem p q,
        corrupt_byte_twice seed (get_or mem j 0) (apart j),
      )

-- A byte of the block that the first loop turns into a comma stays a comma: the original is lost.
pub corrupt_lost :
    (blksize seed step j : ℕ) (mem : List ℕ)
    → 0 < step
    → blksize ≤ length mem
    → j < blksize
    → j % step ≡ 0
    → bit_xor (get_or mem j 0) (seed % 2 ^ 8) ≡ b','
    → get_or (corrupt blksize seed step (corrupt blksize seed step mem)) j 0 ≡ b','
unfolding corrupt_byte
corrupt_lost n seed step j mem p q lt at e =
    corrupted_at n seed step j (corrupt n seed step mem) p
      (omega (arith, length-corrupt n seed step mem))
    ∙ ground (arith, corrupted_at n seed step j mem p q)
