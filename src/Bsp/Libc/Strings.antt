-- ===== src/Bsp/Libc/Strings.antt =====
-- Copies of strings and their lengths.
use takshaka.Base.{
  ℕ, zero, suc, ◌+◌, ◌≤◌, ◌<◌, ◌≡◌, ◌≢◌, refl, ap, ◌∙◌, sym, true, false, ◌==◌, ltb, leb,
  if◌then◌else◌, some, arith, Bool-cases, ==_iff, inl, inr, ◌⊎◌, ◌&&◌,
}
use takshaka.Bsp.Libc.{Memory, store, pad_nuls, strncpy, strlen}
use takshaka.Bsp.Libc.Blocks.{store_same, store_other}

-- A string of `len` bytes stands at `s`, with its NUL behind it.
pub record IsString (m : Memory) (s len : ℕ) : Type 0 where
  pub bytes : (i : ℕ) → i < len → m (s + i) ≢ 0
  pub nul : m (s + len) ≡ 0

strlen_from :
    (fuel k s len : ℕ) (m : Memory)
    → IsString m s len
    → k ≤ len
    → len < k + fuel
    → strlen m s k fuel ≡ some len
unfolding strlen
strlen_from zero k s len m h le lt = absurd (omega arith)
strlen_from (suc fuel) k s len m h le lt = elim (Bool-cases (m (s + k) == 0)) [
  | inl nul ↦ elim (Bool-cases (k == len)) [
    | inl here ↦ rw nul (ap some ((==_iff k len).0 here))
    | inr short ↦ absurd (h.bytes k (ground arith) ((==_iff (m (s + k)) 0).0 nul))
  ]
  | inr more ↦ elim (Bool-cases (k == len)) [
    | inl here ↦ absurd (ground (arith, h.nul))
    | inr short ↦ rw more (strlen_from fuel (k + 1) s len m h (ground arith) (omega arith))
  ]
]

-- `strlen` ends at the NUL of a string and returns its length.
pub strlen_lem :
    (fuel s len : ℕ) (m : Memory) → IsString m s len → len < fuel → strlen m s 0 fuel ≡ some len
strlen_lem fuel s len m h lt = strlen_from fuel 0 s len m h (omega arith) (omega arith)

-- The destination holds the first `n` bytes of the string, or all of it and NULs up to `n`; nothing
-- else has changed.
pub record Copied (m after : Memory) (d s len n : ℕ) : Type 0 where
  pub text : (i : ℕ) → i < n → i < len → after (d + i) ≡ m (s + i)
  pub padding : (i : ℕ) → i < n → len ≤ i → after (d + i) ≡ 0
  pub frame : (a : ℕ) → (a < d) ⊎ (d + n ≤ a) → after a ≡ m a

pad_nuls_lem :
    (n d a : ℕ) (m : Memory) → pad_nuls m d n a ≡ (if leb d a && ltb a (d + n) then 0 else m a)
unfolding pad_nuls
pad_nuls_lem zero d a m = ground arith
pad_nuls_lem (suc n) d a m = pad_nuls_lem n (d + 1) a (store m d 0) ∙ ground arith

pads : (m : Memory) (d s n : ℕ) → Copied m (pad_nuls m d n) d s 0 n
pads m d s n = record {
  text = λ i h lt. absurd (omega arith);
  padding = λ i h le. ground (arith, pad_nuls_lem n d (d + i) m);
  frame = λ a h. ground (arith, pad_nuls_lem n d a m);
}

pub tail-IsString : (m : Memory) (s len : ℕ) → IsString m s (suc len) → IsString m (s + 1) len
tail-IsString m s len h = record {
  bytes = λ i lt e. h.bytes (suc i) (omega arith) (ap m {x = s + suc i} (omega arith) ∙ e);
  nul = ap m {x = s + 1 + len} (omega arith) ∙ h.nul;
}

pub store-IsString :
    (m : Memory) (d s len v n : ℕ)
    → (d + n ≤ s) ⊎ (s + len < d)
    → 1 ≤ n
    → IsString m s len
    → IsString (store m d v) s len
store-IsString m d s len v n apart one h = record {
  bytes = λ i lt e. h.bytes i lt (sym (store_other m d v (s + i) (ground arith)) ∙ e);
  nul = store_other m d v (s + len) (ground arith) ∙ h.nul;
}

-- `strncpy` to a destination apart from its source copies at most `n` bytes of the string and pads
-- with NULs, within the `n` bytes of the destination; a string of `n` bytes or more gets no NUL.
pub strncpy-Copied :
    (n len d s : ℕ) (m : Memory)
    → IsString m s len
    → (d + n ≤ s) ⊎ (s + len < d)
    → Copied m (strncpy m d s n) d s len n
unfolding strncpy
strncpy-Copied zero len d s m h apart = record {
  text = λ i lt _. absurd (omega arith);
  padding = λ i lt _. absurd (omega arith);
  frame = λ a _. refl;
}
strncpy-Copied (suc n) zero d s m h apart =
    let nul : (m s == 0) ≡ true = ground (arith, h.nul, ap m {x = s} {y = s + 0} (omega arith)) in
    rw nul (pads m d s (suc n))
strncpy-Copied (suc n) (suc len) d s m h apart =
    let first : (m s == 0) ≡ false =
      ground (arith, h.bytes 0 (omega arith), ap m {x = s} {y = s + 0} (omega arith)) in
    let m' : Memory = store m d (m s) in
    let ih =
      strncpy-Copied n len (d + 1) (s + 1) m'
        (tail-IsString m' s len
          (store-IsString m d s (suc len) (m s) (suc n) apart (omega arith) h))
        (ground arith) in
    rw first (copied_step m (strncpy m' (d + 1) (s + 1) n) d s len n apart ih)
  where
    copied_step :
        (m after : Memory) (d s len n : ℕ)
        → (d + suc n ≤ s) ⊎ (s + suc len < d)
        → Copied (store m d (m s)) after (d + 1) (s + 1) len n
        → Copied m after d s (suc len) (suc n)
    copied_step m after d s len n apart ih = record {
      text = λ i. elim i as (λ k. k < suc n → k < suc len → after (d + k) ≡ m (s + k)) [
        | zero ↦ λ lt below.
            ap after {y = d} (omega arith)
            ∙ ih.frame d (inl (omega arith))
            ∙ store_same m d (m s) d refl
            ∙ ap m (omega arith)
        | suc j ↦ λ lt below.
            ap after {y = d + 1 + j} (omega arith)
            ∙ ih.text j (omega arith) (omega arith)
            ∙ store_other m d (m s) (s + 1 + j) (ground arith)
            ∙ ap m (omega arith)
      ];
      padding = λ i. elim i as (λ k. k < suc n → suc len ≤ k → after (d + k) ≡ 0) [
        | zero ↦ λ lt le. absurd (omega arith)
        | suc j ↦ λ lt le.
            ap after {y = d + 1 + j} (omega arith) ∙ ih.padding j (omega arith) (omega arith)
      ];
      frame = λ a h. ih.frame a (ground arith) ∙ store_other m d (m s) a (ground arith);
    }
