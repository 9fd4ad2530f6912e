-- ===== src/CoreMark/State.antt =====
-- The state machine of coremark/src/core_state.c, and its benchmark over a block of bytes.
-- Memory from a pointer on is the list of its bytes; `none` is a read past the end of the list.
pub mod Format
pub mod Automaton
pub mod Sound
pub mod Token
pub mod Corrupt
pub mod Init
pub mod Text
pub mod Bench
use takshaka.Base.{
  ℕ, zero, suc, ◌+◌, ◌%◌, ◌^◌, ◌==◌, leb, ltb, if◌then◌else◌, Bool, true, false, ◌&&◌, ◌||◌, Option,
  none, some, List, [], ◌∷◌, length, get_or, set, bit_xor,
}
use takshaka.CoreMark.Crc.{crcu32}

-- `enum CORE_STATE`.
pub data CoreState : Type 0 where
  start invalid s1 s2 int float exponent scientific : CoreState

-- The enumerator's value, which indexes the arrays of counts.
abbrev pub ordinal : CoreState → ℕ
ordinal start = 0
ordinal invalid = 1
ordinal s1 = 2
ordinal s2 = 3
ordinal int = 4
ordinal float = 5
ordinal exponent = 6
ordinal scientific = 7

abbrev pub is_invalid : CoreState → Bool
is_invalid invalid = true
is_invalid _ = false

-- An `ee_u32[NUM_CORE_STATES]`.
abbrev pub Counts : Type 0
Counts = List ℕ

abbrev pub no_counts : Counts
no_counts = 0 ∷ 0 ∷ 0 ∷ 0 ∷ 0 ∷ 0 ∷ 0 ∷ 0 ∷ []

-- `counts[state]++`
unfoldable pub count : Counts → CoreState → Counts
count tc s = set tc (ordinal s) ((get_or tc (ordinal s) 0 + 1) % 2 ^ 32)

unfoldable pub ee_isdigit : ℕ → Bool
ee_isdigit c = leb b'0' c && leb c b'9'

abbrev pub is_sign : ℕ → Bool
is_sign c = c == b'+' || c == b'-'

-- One round of the `switch`.
unfoldable pub next_symbol : CoreState → ℕ → Counts → CoreState × Counts
next_symbol start c tc =
    if ee_isdigit c
    then (int, count tc start)
    else if is_sign c
    then (s1, count tc start)
    else if c == b'.'
    then (float, count tc start)
    else (invalid, count (count tc invalid) start)
next_symbol s1 c tc =
    if ee_isdigit c
    then (int, count tc s1)
    else if c == b'.'
    then (float, count tc s1)
    else (invalid, count tc s1)
next_symbol int c tc =
    if c == b'.'
    then (float, count tc int)
    else if ee_isdigit c
    then (int, tc)
    else (invalid, count tc int)
next_symbol float c tc =
    if c == b'E' || c == b'e'
    then (s2, count tc float)
    else if ee_isdigit c
    then (float, tc)
    else (invalid, count tc float)
next_symbol s2 c tc = if is_sign c then (exponent, count tc s2) else (invalid, count tc s2)
next_symbol exponent c tc =
    if ee_isdigit c then (scientific, count tc exponent) else (invalid, count tc exponent)
next_symbol scientific c tc = if ee_isdigit c then (scientific, tc) else (invalid, count tc invalid)
next_symbol invalid c tc = (invalid, tc)

-- The state, the counts and `*instr` when the machine stops.
pub record Scan : Type 0 where
  pub state : CoreState
  pub counts : Counts
  pub rest : List ℕ

-- The loop, from `str` on.
unfoldable pub scan : List ℕ → CoreState → Counts → Option Scan
scan [] s tc = none
scan (c ∷ cs) s tc =
    let (s', tc') = next_symbol s c tc in
    let onward = scan cs s' tc' in
    if c == 0 || is_invalid s
    then some (record { state = s; counts = tc; rest = c ∷ cs })
    else if c == b','
    then some (record { state = s; counts = tc; rest = cs })
    else onward

unfoldable pub core_state_transition : List ℕ → Counts → Option Scan
core_state_transition instr transition_count = scan instr start transition_count

-- `track_counts` and `final_counts`.
pub record Tally : Type 0 where
  pub track : Counts
  pub final : Counts

-- `while (*p != 0)`: one token a round. Out of fuel is `none` too.
unfoldable pub run_tokens : ℕ → List ℕ → Tally → Option Tally
run_tokens zero p t = none
run_tokens (suc fuel) [] t = none
run_tokens (suc fuel) (c ∷ cs) t = elim (c == 0) [
  | true ↦ some t
  | false ↦ elim (core_state_transition (c ∷ cs) t.track) [
    | none ↦ none
    | some r ↦ run_tokens fuel r.rest (record { track = r.counts; final = count t.final r.state })
  ]
]

-- `if (*p != ',') *p ^= (ee_u8)seed;`
unfoldable pub corrupt_byte : ℕ → ℕ → ℕ
corrupt_byte seed b = if b == b',' then b else bit_xor b (seed % 2 ^ 8)

-- `while (p < memblock + blksize)`, at offset `i`. With a positive step, `blksize` rounds suffice.
unfoldable pub corrupt_loop : ℕ → (blksize seed step : ℕ) → ℕ → List ℕ → List ℕ
corrupt_loop zero blksize seed step i mem = mem
corrupt_loop (suc fuel) blksize seed step i mem = elim (ltb i blksize) [
  | true ↦
      corrupt_loop fuel blksize seed step (i + step)
        (set mem i (corrupt_byte seed (get_or mem i 0)))
  | false ↦ mem
]

unfoldable pub corrupt : (blksize seed step : ℕ) → List ℕ → List ℕ
corrupt blksize seed step mem = corrupt_loop blksize blksize seed step 0 mem

-- The last loop, from index `i` on.
unfoldable pub crc_counts : ℕ → ℕ → Tally → ℕ → ℕ
crc_counts zero i t crc = crc
crc_counts (suc n) i t crc =
    crc_counts n (i + 1) t (crcu32 (get_or t.track i 0) (crcu32 (get_or t.final i 0) crc))

-- The checksum, and the memory afterwards. The step is the positive `dtype` of its caller.
unfoldable pub core_bench_state :
    (blksize : ℕ) → List ℕ → (seed1 seed2 step crc : ℕ) → Option (ℕ × List ℕ)
core_bench_state blksize memblock seed1 seed2 step crc =
    elim (run_tokens (length memblock) memblock (record { track = no_counts; final = no_counts })) [
      | none ↦ none
      | some t ↦
          let corrupted = corrupt blksize seed1 step memblock in
          elim (run_tokens (length memblock) corrupted t) [
            | none ↦ none
            | some t' ↦ some (crc_counts 8 0 t' crc, corrupt blksize seed2 step corrupted)
          ]
    ]
