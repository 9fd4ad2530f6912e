-- ===== src/CoreMark/State/Init.antt =====
-- `core_init_state` of coremark/src/core_state.c: the text that fills the block.
use takshaka.Base.{
  ℕ, zero, suc, ◌+◌, ◌-◌, ◌/◌, ◌%◌, ◌^◌, ltb, if◌then◌else◌, true, false, Option, none, some, List,
  [], ◌∷◌, ◌++◌, length, get_or, set, codes,
}

abbrev pub intpat : List (List ℕ)
intpat = codes "5012" ∷ codes "1234" ∷ codes "-874" ∷ codes "+122" ∷ []

abbrev pub floatpat : List (List ℕ)
floatpat = codes "35.54400" ∷ codes ".1234500" ∷ codes "-110.700" ∷ codes "+0.64400" ∷ []

abbrev pub scipat : List (List ℕ)
scipat = codes "5.500e+3" ∷ codes "-.123e-2" ∷ codes "-87e+832" ∷ codes "+0.6e-12" ∷ []

abbrev pub errpat : List (List ℕ)
errpat = codes "T0.3e-1F" ∷ codes "-T.T++Tq" ∷ codes "1T3.4e4z" ∷ codes "34.0e-T^" ∷ []

-- The `switch` on an `ee_s16` seed, given by its bit pattern. `next` is the length of the text.
unfoldable pub pattern_of : ℕ → List ℕ
pattern_of seed =
    let table =
      if ltb (seed % 8) 3
      then intpat
      else if ltb (seed % 8) 5
      then floatpat
      else if ltb (seed % 8) 7
      then scipat
      else errpat in
    get_or table (seed / 8 % 4) []

-- The `for` loop that copies `buf`, and the store behind it.
unfoldable pub write_bytes : List ℕ → ℕ → List ℕ → List ℕ
write_bytes mem at [] = mem
write_bytes mem at (b ∷ bs) = write_bytes (set mem at b) (at + 1) bs

-- The first `while` loop. `none` is out of fuel.
unfoldable pub init_loop : ℕ → (size total seed : ℕ) → (buf mem : List ℕ) → Option (ℕ × List ℕ)
init_loop zero size total seed buf mem = none
init_loop (suc fuel) size total seed buf mem =
    let next = length buf in
    let seed' = (seed + 1) % 2 ^ 16 in
    elim (ltb ((total + next + 1) % 2 ^ 32) size) [
      | true ↦
          init_loop fuel size (if ltb 0 next then (total + next + 1) % 2 ^ 32 else total) seed'
            (pattern_of seed')
            (if ltb 0 next then write_bytes mem total (buf ++ b',' ∷ []) else mem)
      | false ↦ some (total, mem)
    ]

-- The last loop, with the rounds left.
unfoldable pub fill_zeros : ℕ → ℕ → List ℕ → List ℕ
fill_zeros zero total mem = mem
fill_zeros (suc n) total mem = fill_zeros n (total + 1) (set mem total 0)

unfoldable pub core_init_state : (size seed : ℕ) → List ℕ → Option (List ℕ)
core_init_state size seed p =
    elim (init_loop (size + 1) ((size + 2 ^ 32 - 1) % 2 ^ 32) 0 seed [] p) [
      | none ↦ none
      | some (total, mem) ↦ some (fill_zeros (size - total) total mem)
    ]
