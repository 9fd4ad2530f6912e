-- ===== src/Dhrystone/Port/Strcpy.antt =====
-- `strcpy` of dhrystone/src/dhry_port.c, on the memory of the machine.
use takshaka.Base.{
  ℕ, zero, suc, ◌+◌, ◌≤◌, ◌<◌, ◌≡◌, ◌≢◌, ◌⊎◌, refl, ap, ◌∙◌, inl, inr, ◌==◌, true, false, Option,
  none, some, arith,
}
use takshaka.Bsp.Libc.{Memory, store}
use takshaka.Bsp.Libc.Strings.{IsString, tail-IsString, store-IsString}
use takshaka.Bsp.Libc.Blocks.{store_same, store_other}

-- `while ((*d++ = *src++));`, in at most `fuel` rounds.
unfoldable pub strcpy : (fuel : ℕ) → Memory → (d src : ℕ) → Option Memory
strcpy zero m d src = none
strcpy (suc fuel) m d src = elim (m src == 0) [
  | true ↦ some (store m d (m src))
  | false ↦ strcpy fuel (store m d (m src)) (d + 1) (src + 1)
]

-- The string and its NUL are at the destination, and no other byte has changed.
pub record StringAt (m : Memory) (d src n : ℕ) (r : Option Memory) : Type 0 where
  pub after : Memory
  pub runs : r ≡ some after
  pub copied : (i : ℕ) → i ≤ n → after (d + i) ≡ m (src + i)
  pub below : (a : ℕ) → a < d → after a ≡ m a
  pub above : (a : ℕ) → d + n < a → after a ≡ m a

-- The destination lies before the string or behind its NUL.
abbrev pub Apart : (d src n : ℕ) → Type 0
Apart d src n = (d + suc n ≤ src) ⊎ (src + n < d)

tail-Apart : (d src n : ℕ) → Apart d src (suc n) → Apart (d + 1) (src + 1) n
tail-Apart d src n (inl le) = inl (omega (arith, le))
tail-Apart d src n (inr le) = inr (omega (arith, le))

store-Apart : (d src n : ℕ) → Apart d src (suc n) → (d + 1 ≤ src + 1) ⊎ (src + 1 + n < d)
store-Apart d src n (inl le) = inl (omega (arith, le))
store-Apart d src n (inr le) = inr (omega (arith, le))

Apart-ne : (d src n i : ℕ) → Apart d src (suc n) → i ≤ n → src + 1 + i ≢ d
Apart-ne d src n i (inl le) less e = omega (arith, le, less, e)
Apart-ne d src n i (inr le) less e = omega (arith, le, less, e)

-- The first byte, and those that the rest of the loop copies.
copied_next :
    (m : Memory) (d src n i : ℕ) (r : Option Memory)
    → Apart d src (suc n)
    → i ≤ suc n
    → (s : StringAt (store m d (m src)) (d + 1) (src + 1) n r) → s.after (d + i) ≡ m (src + i)
copied_next m d src n zero r apart le s =
    s.below (d + 0) (omega arith)
    ∙ store_same m d (m src) (d + 0) (omega arith)
    ∙ ap m {x = src} {y = src + 0} (omega arith)
copied_next m d src n (suc i) r apart le s =
    ap s.after {x = d + suc i} {y = d + 1 + i} (omega arith)
    ∙ s.copied i (omega (arith, le))
    ∙ store_other m d (m src) (src + 1 + i) (Apart-ne d src n i apart (omega (arith, le)))
    ∙ ap m {x = src + 1 + i} {y = src + suc i} (omega arith)

-- To a destination that is apart from the string and its NUL, `strcpy` copies both, and writes nothing
-- else, in as many rounds as there are bytes.
pub strcpy-StringAt :
    (fuel : ℕ) (m : Memory) (d src n : ℕ)
    → IsString m src n
    → Apart d src n
    → n < fuel
    → StringAt m d src n (strcpy fuel m d src)
unfolding strcpy
strcpy-StringAt zero m d src n string apart enough = absurd (omega (arith, enough))
strcpy-StringAt (suc fuel) m d src zero string apart enough =
    let ends : m src == 0 ≡ true =
      ground (arith, string.nul, ap m {x = src + 0} {y = src} (omega arith)) in
    rw (strcpy, ends)
      (record {
        after = store m d (m src);
        runs = refl;
        copied = λ i le.
            store_same m d (m src) (d + i) (omega (arith, le))
            ∙ ap m {x = src} {y = src + i} (omega (arith, le));
        below = λ a less. store_other m d (m src) a (ground (arith, less));
        above = λ a less. store_other m d (m src) a (ground (arith, less));
      })
strcpy-StringAt (suc fuel) m d src (suc n) string apart enough =
    let m' = store m d (m src) in
    let goes : m src == 0 ≡ false =
      ground (arith, string.bytes 0 (omega arith), ap m {x = src + 0} {y = src} (omega arith)) in
    let tail =
      store-IsString m d (src + 1) n (m src) 1 (store-Apart d src n apart) (omega arith)
        (tail-IsString m src n string) in
    let rest =
      strcpy-StringAt fuel m' (d + 1) (src + 1) n tail (tail-Apart d src n apart)
        (omega (arith, enough)) in
    rw (strcpy, goes)
      (record {
        after = rest.after;
        runs = rest.runs;
        copied = λ i le. copied_next m d src n i (strcpy fuel m' (d + 1) (src + 1)) apart le rest;
        below = λ a less.
            rest.below a (omega (arith, less)) ∙ store_other m d (m src) a (ground (arith, less));
        above = λ a less.
            rest.above a (omega (arith, less)) ∙ store_other m d (m src) a (ground (arith, less));
      })
