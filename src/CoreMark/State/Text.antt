-- ===== src/CoreMark/State/Text.antt =====
-- What `core_init_state` writes: whole patterns, each with its comma, and at least two NULs.
use takshaka.Base.{
  ℕ, zero, suc, ◌+◌, ◌-◌, ◌/◌, ◌%◌, ◌^◌, ◌<◌, ◌≤◌, ◌≡◌, refl, sym, ap, subst, ◌∙◌, ltb, true, some,
  List, [], ◌∷◌, ◌++◌, length, get_or, set, drop, replicate, arith, Bool-cases, inl, inr, ◌⊎◌,
  append_assoc, append-nil, length-append, length-drop, drop-drop, set-append, length-replicate,
}
use takshaka.CoreMark.State.Init.{
  intpat, floatpat, scipat, errpat, pattern_of, write_bytes, init_loop, fill_zeros, core_init_state,
}
use takshaka.CoreMark.State.Token.{IsToken}

record Sized (b : List ℕ) : Type 0 where
  least : 4 ≤ length b
  most : length b ≤ 8
  token : IsToken b

abbrev pub IsPattern : List ℕ → Type 0
IsPattern b = (s : ℕ) × (b ≡ pattern_of s)

-- What holds of the four texts of a table holds of the one that the seed picks.
four :
    (a b c d : List ℕ) (k : ℕ)
    → Sized a
    → Sized b
    → Sized c
    → Sized d
    → k < 4
    → Sized (get_or (a ∷ b ∷ c ∷ d ∷ []) k [])
four a b c d zero pa pb pc pd h = pa
four a b c d (suc zero) pa pb pc pd h = pb
four a b c d (suc (suc zero)) pa pb pc pd h = pc
four a b c d (suc (suc (suc zero))) pa pb pc pd h = pd
four a b c d (suc (suc (suc (suc k)))) pa pb pc pd h = absurd (omega arith)

int_Sized : (k : ℕ) → k < 4 → Sized (get_or intpat k [])
int_Sized k = four _ _ _ _ k (ground arith) (ground arith) (ground arith) (ground arith)

float_Sized : (k : ℕ) → k < 4 → Sized (get_or floatpat k [])
float_Sized k = four _ _ _ _ k (ground arith) (ground arith) (ground arith) (ground arith)

sci_Sized : (k : ℕ) → k < 4 → Sized (get_or scipat k [])
sci_Sized k = four _ _ _ _ k (ground arith) (ground arith) (ground arith) (ground arith)

err_Sized : (k : ℕ) → k < 4 → Sized (get_or errpat k [])
err_Sized k = four _ _ _ _ k (ground arith) (ground arith) (ground arith) (ground arith)

pattern_of-Sized : (s : ℕ) → Sized (pattern_of s)
unfolding pattern_of
pattern_of-Sized s =
    let k : s / 8 % 4 < 4 = omega arith in
    elim (Bool-cases (ltb (s % 8) 3)) [
      | inl a ↦ rw a (int_Sized (s / 8 % 4) k)
      | inr a ↦ elim (Bool-cases (ltb (s % 8) 5)) [
        | inl b ↦ rw (a, b) (float_Sized (s / 8 % 4) k)
        | inr b ↦ elim (Bool-cases (ltb (s % 8) 7)) [
          | inl c ↦ rw (a, b, c) (sci_Sized (s / 8 % 4) k)
          | inr c ↦ rw (a, b, c) (err_Sized (s / 8 % 4) k)
        ]
      ]
    ]

-- Patterns, each with its comma.
pub data Text : List ℕ → Type 0 where
  nil : Text []
  more : {t t' : List ℕ} (b : List ℕ) → Text t → IsPattern b → t' ≡ t ++ (b ++ b',' ∷ []) → Text t'

-- The patterns of `n` seeds from `first` on, each with its comma.
abbrev pub text_of : (first n : ℕ) → List ℕ
text_of first zero = []
text_of first (suc n) = text_of first n ++ (pattern_of ((first + n) % 2 ^ 16) ++ b',' ∷ [])

-- A run of writes behind a prefix overwrites as much of the rest.
write_bytes_lem :
    (pre bs tail : List ℕ) (at : ℕ)
    → at ≡ length pre
    → length bs ≤ length tail
    → write_bytes (pre ++ tail) at bs ≡ (pre ++ bs) ++ drop (length bs) tail
unfolding write_bytes
write_bytes_lem pre [] tail at e h = ap (λ (t : List ℕ). t ++ tail) (sym (append-nil pre))
write_bytes_lem pre (b ∷ bs) [] at e h = absurd (omega arith)
write_bytes_lem pre (b ∷ bs) (x ∷ tail) at e h =
    ap (λ (m : List ℕ). write_bytes m (at + 1) bs)
      (ap (λ (k : ℕ). set (pre ++ x ∷ tail) k b) e
        ∙ set-append pre tail x b
        ∙ sym (append_assoc pre (b ∷ []) tail))
    ∙ write_bytes_lem (pre ++ b ∷ []) bs tail (at + 1) (omega (arith, length-append pre (b ∷ [])))
        (omega arith)
    ∙ ap (λ (t : List ℕ). t ++ drop (length bs) tail) (append_assoc pre (b ∷ []) bs)

fill_zeros-write_bytes :
    (n at : ℕ) (mem : List ℕ) → fill_zeros n at mem ≡ write_bytes mem at (replicate n 0)
unfolding fill_zeros write_bytes
fill_zeros-write_bytes zero at mem = refl
fill_zeros-write_bytes (suc n) at mem = fill_zeros-write_bytes n (at + 1) (set mem at 0)

-- The memory that the first loop leaves: a text of `total` bytes, and the old bytes behind it.
record Filled (size first : ℕ) (mem₀ : List ℕ) (total : ℕ) (mem : List ℕ) : Type 0 where
  text : List ℕ
  number : ℕ
  patterns : text ≡ text_of first number
  is_text : Text text
  total_length : total ≡ length text
  shape : mem ≡ text ++ drop total mem₀
  room : (total < size) ⊎ (total ≡ 0)

-- The next pattern does not fit.
abbrev NoRoom : (size first number total : ℕ) → Type 0
NoRoom size first number total = size ≤ total + length (pattern_of ((first + number) % 2 ^ 16)) + 1

module _ (size first : ℕ) (mem₀ : List ℕ) (small : size < 2 ^ 31) (fits : size ≤ length mem₀) where
  -- One round behind the first writes the pattern and its comma.
  filled_more :
      (total : ℕ) (buf mem : List ℕ) (f : Filled size first mem₀ total mem)
      → buf ≡ pattern_of ((first + f.number) % 2 ^ 16)
      → total + length buf + 1 < size
      → Filled size first mem₀ (total + length buf + 1) (write_bytes mem total (buf ++ b',' ∷ []))
  filled_more total buf mem f p lt =
      let piece : List ℕ = buf ++ b',' ∷ [] in
      let size_piece : length piece ≡ length buf + 1 = length-append buf (b',' ∷ []) in
      record {
        text = f.text ++ piece;
        number = suc f.number;
        patterns = λ i. f.patterns i ++ (p i ++ b',' ∷ []);
        is_text = more buf f.is_text ((first + f.number) % 2 ^ 16, p) refl;
        total_length = omega (arith, length-append f.text piece, f.total_length);
        shape =
            ap (λ (m : List ℕ). write_bytes m total piece) f.shape
            ∙ write_bytes_lem f.text piece (drop total mem₀) total f.total_length
                (omega (arith, length-drop total mem₀))
            ∙ ap (λ (t : List ℕ). (f.text ++ piece) ++ t)
                (drop-drop (length piece) total mem₀ ∙ ap (λ (k : ℕ). drop k mem₀) (omega arith));
        room = inl lt;
      }

  init_loop-Filled :
      (fuel total seed : ℕ) (buf mem : List ℕ) (f : Filled size first mem₀ total mem)
      → seed ≡ (first + f.number) % 2 ^ 16
      → buf ≡ pattern_of ((first + f.number) % 2 ^ 16)
      → size - total < fuel
      → (r : ℕ × List ℕ) × (init_loop fuel size total seed buf mem ≡ some r)
        × (g : Filled size first mem₀ r.0 r.1) × NoRoom size first g.number r.0
  unfolding init_loop filled_more
  init_loop-Filled zero total seed buf mem f at p h = absurd (omega arith)
  init_loop-Filled (suc fuel) total seed buf mem f at p h =
      let sized : Sized buf =
        subst Sized (sym p) (pattern_of-Sized ((first + f.number) % 2 ^ 16)) in
      let seed' = (seed + 1) % 2 ^ 16 in
      let some_bytes : ltb 0 (length buf) ≡ true = ground (arith, sized.least) in
      let no_wrap : (total + length buf + 1) % 2 ^ 32 ≡ total + length buf + 1 =
        omega (arith, sized.least, sized.most, f.room) in
      let next : seed' ≡ (first + suc f.number) % 2 ^ 16 = omega (arith, at) in
      elim (Bool-cases (ltb (total + length buf + 1) size)) [
        | inl more_room ↦
            let lt : total + length buf + 1 < size = ground arith in
            rw (no_wrap, more_room, some_bytes, init_loop, no_wrap)
              (init_loop-Filled fuel (total + length buf + 1) seed' (pattern_of seed')
                (write_bytes mem total (buf ++ b',' ∷ [])) (filled_more total buf mem f p lt) next
                (ap pattern_of next) (omega (arith, sized.least)))
        | inr full ↦
            let same : length buf ≡ length (pattern_of ((first + f.number) % 2 ^ 16)) =
              ap (λ (t : List ℕ). length t) p in
            ((total, mem), rw (no_wrap, full, init_loop), f, ground (arith, same, full))
      ]

-- The block after `core_init_state`: a text of whole patterns, then NULs up to `size`, at least two
-- of them; behind the block nothing has changed.
pub record Initialised (size : ℕ) (mem mem' : List ℕ) : Type 0 where
  pub text : List ℕ
  pub is_text : Text text
  pub nuls : ℕ
  pub two_nuls : 2 ≤ nuls
  pub whole : length text + nuls ≡ size
  pub shape : mem' ≡ (text ++ replicate nuls 0) ++ drop size mem

-- The text is the patterns of the seeds that follow `seed`, as many as fit before two NULs.
pub record Generated (size seed : ℕ) (mem mem' : List ℕ) : Type 0 where
  pub initialised : Initialised size mem mem'
  pub number : ℕ
  pub patterns : initialised.text ≡ text_of ((seed + 1) % 2 ^ 16) number
  pub full : size < length (text_of ((seed + 1) % 2 ^ 16) (suc number)) + 2

module _ (size seed : ℕ) (mem : List ℕ) (two : 2 ≤ size) (small : size < 2 ^ 31)
    (fits : size ≤ length mem) where
  abbrev first : ℕ
  first = (seed + 1) % 2 ^ 16

  abbrev no_patterns : Filled (size - 1) first mem 0 mem
  no_patterns = record {
    text = [];
    number = 0;
    patterns = refl;
    is_text = nil;
    total_length = refl;
    shape = refl;
    room = inr refl;
  }

  first_round :
      (r : ℕ × List ℕ) × (init_loop (suc size) (size - 1) 0 seed [] mem ≡ some r)
      × (g : Filled (size - 1) first mem r.0 r.1) × NoRoom (size - 1) first g.number r.0
  unfolding init_loop
  first_round =
      let seed' = (seed + 1) % 2 ^ 16 in
      let same : seed' ≡ (first + 0) % 2 ^ 16 = omega arith in
      elim (Bool-cases (ltb 1 (size - 1))) [
        | inl more_room ↦
            rw (more_room, init_loop)
              (init_loop-Filled (size - 1) first mem (omega arith) (omega arith) size 0 seed'
                (pattern_of seed') mem no_patterns same (ap pattern_of same) (omega arith))
        | inr full ↦ ((0, mem), rw (full, init_loop), no_patterns, ground (arith, full))
      ]

  -- For a size from 2 to 2 ^ 31 - 1 that the memory has, `core_init_state` ends, stays within its block, and
  -- fills it with the patterns of the seeds that follow its seed, each with its comma, as many as fit
  -- before at least two NULs.
  pub core_init_state-Generated :
      (mem' : List ℕ) × (core_init_state size seed mem ≡ some mem') × Generated size seed mem mem'
  unfolding core_init_state
  core_init_state-Generated =
      let (r, runs, f, no_room) = first_round in
      let no_wrap : (size + 2 ^ 32 - 1) % 2 ^ 32 ≡ size - 1 = omega arith in
      let fuel : size + 1 ≡ suc size = omega arith in
      let n : ℕ = size - r.0 in
      (
        fill_zeros n r.0 r.1,
        rw (no_wrap, fuel, runs, core_init_state),
        record {
          initialised = record {
            text = f.text;
            is_text = f.is_text;
            nuls = n;
            two_nuls = omega (arith, f.room);
            whole = omega (arith, f.room, f.total_length);
            shape =
                fill_zeros-write_bytes n r.0 r.1
                ∙ ap (λ (m : List ℕ). write_bytes m r.0 (replicate n 0)) f.shape
                ∙ write_bytes_lem f.text (replicate n 0) (drop r.0 mem) r.0 f.total_length
                    (omega (arith, length-replicate {A = ℕ} n 0, length-drop r.0 mem))
                ∙ ap (λ (t : List ℕ). (f.text ++ replicate n 0) ++ t)
                    (drop-drop (length (replicate n 0)) r.0 mem
                      ∙ ap (λ (k : ℕ). drop k mem)
                          (omega (arith, length-replicate {A = ℕ} n 0, f.room)));
          };
          number = f.number;
          patterns = f.patterns;
          full = omega (
            arith,
            no_room,
            f.total_length,
            ap (λ (t : List ℕ). length t) f.patterns,
            length-append (text_of first f.number)
                (pattern_of ((first + f.number) % 2 ^ 16) ++ b',' ∷ []),
            length-append (pattern_of ((first + f.number) % 2 ^ 16)) (b',' ∷ []),
          );
        },
      )

  pub core_init_state-Initialised :
      (mem' : List ℕ) × (core_init_state size seed mem ≡ some mem') × Initialised size mem mem'
  core_init_state-Initialised =
      let (mem', runs, g) = core_init_state-Generated in (mem', runs, g.initialised)
