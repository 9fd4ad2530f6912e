-- ===== src/Bsp/Libc/Blocks.antt =====
-- Copies, moves, fills and comparisons of blocks.
use takshaka.Base.{
  ℕ, zero, suc, ◌+◌, ◌%◌, ◌^◌, ◌≤◌, ◌<◌, ◌≡◌, ◌≢◌, refl, ap, ◌∙◌, sym, ◌==◌, ltb, leb,
  if◌then◌else◌, arith, Bool-cases, ==_iff, inl, inr, ◌⊎◌, ◌&&◌,
}
use takshaka.Bsp.Libc.{Memory, store, memcpy, memset, copy_down, memmove, memcmp, byte_difference}

-- The block of `n` bytes at `d` holds what stood at `s` before, and nothing else has changed.
pub record Moved (m after : Memory) (d s n : ℕ) : Type 0 where
  pub block : (i : ℕ) → i < n → after (d + i) ≡ m (s + i)
  pub frame : (a : ℕ) → (a < d) ⊎ (d + n ≤ a) → after a ≡ m a

pub store_same : (m : Memory) (a v x : ℕ) → x ≡ a → store m a v x ≡ v
store_same m a v x e = ground arith

pub store_other : (m : Memory) (a v x : ℕ) → x ≢ a → store m a v x ≡ m x
store_other m a v x e = ground arith

memcpy_frame : (n d s : ℕ) (m : Memory) (a : ℕ) → (a < d) ⊎ (d + n ≤ a) → memcpy m d s n a ≡ m a
unfolding memcpy
memcpy_frame zero d s m a h = refl
memcpy_frame (suc n) d s m a h =
    memcpy_frame n (d + 1) (s + 1) (store m d (m s)) a (ground arith)
    ∙ store_other m d (m s) a (ground arith)

copy_down_frame :
    (n d s : ℕ) (m : Memory) (a : ℕ) → (a < d) ⊎ (d + n ≤ a) → copy_down m d s n a ≡ m a
unfolding copy_down
copy_down_frame zero d s m a h = refl
copy_down_frame (suc n) d s m a h =
    copy_down_frame n d s (store m (d + n) (m (s + n))) a (ground arith)
    ∙ store_other m (d + n) (m (s + n)) a (ground arith)

-- An upward copy is right where the destination starts below the source or past its end.
memcpy_block :
    (n d s i : ℕ) (m : Memory) → (d ≤ s) ⊎ (s + n ≤ d) → i < n → memcpy m d s n (d + i) ≡ m (s + i)
unfolding memcpy
memcpy_block zero d s i m apart h = absurd (omega arith)
memcpy_block (suc n) d s zero m apart h =
    memcpy_frame n (d + 1) (s + 1) (store m d (m s)) (d + 0) (inl (omega arith))
    ∙ store_same m d (m s) (d + 0) (omega arith)
    ∙ ap m (omega arith)
memcpy_block (suc n) d s (suc i) m apart h =
    ap (memcpy (store m d (m s)) (d + 1) (s + 1) n) {y = d + 1 + i} (omega arith)
    ∙ memcpy_block n (d + 1) (s + 1) i (store m d (m s)) (ground arith) (omega arith)
    ∙ ap (store m d (m s)) {y = s + suc i} (omega arith)
    ∙ store_other m d (m s) (s + suc i) (ground arith)

-- A downward copy is right where the destination does not start below the source.
copy_down_block : (n d s i : ℕ) (m : Memory) → s ≤ d → i < n → copy_down m d s n (d + i) ≡ m (s + i)
unfolding copy_down
copy_down_block zero d s i m above h = absurd (omega arith)
copy_down_block (suc n) d s i m above h = elim (Bool-cases (ltb i n)) [
  | inl below ↦
      copy_down_block n d s i (store m (d + n) (m (s + n))) above (ground arith)
      ∙ store_other m (d + n) (m (s + n)) (s + i) (ground arith)
  | inr last ↦
      copy_down_frame n d s (store m (d + n) (m (s + n))) (d + i) (ground arith)
      ∙ store_same m (d + n) (m (s + n)) (d + i) (ground arith)
      ∙ ap m (ground arith)
]

-- `memcpy` of a block into one that it does not overlap from below moves it.
pub memcpy-Moved : (m : Memory) (d s n : ℕ) → (d ≤ s) ⊎ (s + n ≤ d) → Moved m (memcpy m d s n) d s n
memcpy-Moved m d s n apart = record {
  block = λ i h. memcpy_block n d s i m apart h;
  frame = memcpy_frame n d s m;
}

-- `memmove` moves the block wherever source and destination lie.
pub memmove-Moved : (m : Memory) (d s n : ℕ) → Moved m (memmove m d s n) d s n
unfolding memmove
memmove-Moved m d s n = elim (Bool-cases (ltb d s)) [
  | inl below ↦ rw below (memcpy-Moved m d s n (ground arith))
  | inr above ↦ rw above (record {
    block = λ i h. copy_down_block n d s i m (ground arith) h;
    frame = copy_down_frame n d s m;
  })
]

-- `memset` writes the low byte of its argument to every byte of the block, and to no other.
pub memset_lem :
    (n d c a : ℕ) (m : Memory)
    → memset m d c n a ≡ (if leb d a && ltb a (d + n) then c % 2 ^ 8 else m a)
unfolding memset
memset_lem zero d c a m = ground arith
memset_lem (suc n) d c a m = memset_lem n (d + 1) c a (store m d (c % 2 ^ 8)) ∙ ground arith

abbrev pub Agree : Memory → ℕ → ℕ → ℕ → Type 0
Agree m p1 p2 n = (i : ℕ) → i < n → m (p1 + i) ≡ m (p2 + i)

pub record FirstDifference (m : Memory) (p1 p2 n r : ℕ) : Type 0 where
  pub at : ℕ
  pub inside : at < n
  pub before : Agree m p1 p2 at
  pub differ : m (p1 + at) ≢ m (p2 + at)
  pub is : r ≡ byte_difference (m (p1 + at)) (m (p2 + at))
  pub nonzero : r ≢ 0

-- 0 for blocks that agree on `n` bytes, otherwise the difference at the first offset where they do not.
abbrev pub Compared : Memory → ℕ → ℕ → ℕ → ℕ → Type 0
Compared m p1 p2 n r = (r ≡ 0) × Agree m p1 p2 n ⊎ FirstDifference m p1 p2 n r

agree_step :
    (m : Memory) (p1 p2 n : ℕ)
    → m p1 ≡ m p2
    → ((i : ℕ) → i < n → m (p1 + 1 + i) ≡ m (p2 + 1 + i))
    → (i : ℕ) → i < suc n
    → m (p1 + i) ≡ m (p2 + i)
agree_step m p1 p2 n e h zero lt = ap m {y = p1} (omega arith) ∙ e ∙ ap m (omega arith)
agree_step m p1 p2 n e h (suc i) lt =
    ap m {y = p1 + 1 + i} (omega arith) ∙ h i (omega arith) ∙ ap m (omega arith)

Compared-suc :
    (m : Memory) (p1 p2 n r : ℕ)
    → m p1 ≡ m p2
    → Compared m (p1 + 1) (p2 + 1) n r
    → Compared m p1 p2 (suc n) r
Compared-suc m p1 p2 n r e (inl (is, agree)) = inl (is, agree_step m p1 p2 n e agree)
Compared-suc m p1 p2 n r e (inr f) =
    let left : m (p1 + suc f.at) ≡ m (p1 + 1 + f.at) = ap m (omega arith) in
    let right : m (p2 + suc f.at) ≡ m (p2 + 1 + f.at) = ap m (omega arith) in
    inr (record {
      at = suc f.at;
      inside = omega (arith, f.inside);
      before = agree_step m p1 p2 f.at e f.before;
      differ = λ same. f.differ (sym left ∙ same ∙ right);
      is =
          f.is
          ∙ ap (λ (b : ℕ). byte_difference b (m (p2 + 1 + f.at))) (sym left)
          ∙ ap (byte_difference (m (p1 + suc f.at))) (sym right);
      nonzero = f.nonzero;
    })

-- `memcmp` returns the difference of the first two bytes that differ, and 0 exactly where none do.
pub memcmp-Compared :
    (n p1 p2 : ℕ) (m : Memory) → ((a : ℕ) → m a < 2 ^ 8) → Compared m p1 p2 n (memcmp m p1 p2 n)
unfolding memcmp
memcmp-Compared zero p1 p2 m bytes = inl (refl, λ i h. absurd (omega arith))
memcmp-Compared (suc n) p1 p2 m bytes = elim (Bool-cases (m p1 == m p2)) [
  | inl same ↦ rw same (
      Compared-suc m p1 p2 n (memcmp m (p1 + 1) (p2 + 1) n) ((==_iff (m p1) (m p2)).0 same)
        (memcmp-Compared n (p1 + 1) (p2 + 1) m bytes))
  | inr other ↦
      let left : m (p1 + 0) ≡ m p1 = ap m (omega arith) in
      let right : m (p2 + 0) ≡ m p2 = ap m (omega arith) in
      rw other (
        inr (record {
          at = 0;
          inside = omega arith;
          before = λ i h. absurd (omega arith);
          differ = ground (arith, left, right);
          is =
              ap (λ (b : ℕ). byte_difference b (m p2)) (sym left)
              ∙ ap (byte_difference (m (p1 + 0))) (sym right);
          nonzero = ground (arith, bytes p1, bytes p2);
        }))
]
