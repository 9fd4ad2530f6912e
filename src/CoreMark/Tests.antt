-- ===== src/CoreMark/Tests.antt =====
-- Runs of the CoreMark functions, and the theorems at concrete inputs.
use takshaka.Base.{
  ℕ, zero, suc, ◌%◌, ◌^◌, ◌+◌, ◌≤◌, ◌≡◌, ◌≢◌, refl, some, List, [], ◌∷◌, ◌++◌, arith, codes,
  bit_xor, get_or, if◌then◌else◌, ltb, ◌&&◌, not, ◌==◌,
}
use takshaka.CoreMark.Crc.{crcu8, crcu16, crc16}
use takshaka.CoreMark.Crc.Shift.{shifts, crcu16-shifts, crcu16-ne}
use takshaka.CoreMark.State.{
  invalid, float, Scan, Counts, no_counts, Tally, core_state_transition, scan, next_symbol,
  ee_isdigit, count, core_bench_state, corrupt, crc_counts,
}
use takshaka.CoreMark.State.Format.{Format}
use takshaka.CoreMark.State.Token.{core_state_transition-Format, Format-core_state_transition}
use takshaka.CoreMark.State.Corrupt.{StaysApart, get-corrupt, corrupt_lost}
use takshaka.CoreMark.State.Init.{core_init_state, init_loop, pattern_of, write_bytes, fill_zeros}
use takshaka.CoreMark.State.Text.{nil, more, Initialised, Generated, core_init_state-Generated}
use takshaka.CoreMark.Driver.{
  Parameters, known_id, seed_crc, block_size, block_start, algorithms_below,
}
use takshaka.CoreMark.Driver.Division.{block_start_apart}
use takshaka.CoreMark.Port.{start_time, stop_time, get_time}
use takshaka.CoreMark.Port.Numbers.{get_time-stop_time}
use takshaka.CoreMark.State.Bench.{core_bench_state_total, core_bench_state_restores}

-- The check value of CRC-16 with the reflected polynomial 0xa001, over "123456789".
check_value :
    crcu8 b'9' (
      crcu8 b'8' (
        crcu8 b'7' (crcu8 b'6' (crcu8 b'5' (crcu8 b'4' (crcu8 b'3' (crcu8 b'2' (crcu8 b'1' 0))))))))
    ≡ 0xbb3d
unfolding crcu8
check_value = refl

crcu16-shifts_example : crcu16 0x1234 0xffff ≡ shifts 16 (bit_xor 0xffff 0x1234)
crcu16-shifts_example = crcu16-shifts 0x1234 0xffff (omega arith) (omega arith)

crcu16-ne_example : crcu16 5 0 ≢ crcu16 6 0
crcu16-ne_example = crcu16-ne 5 6 0 (omega arith) (omega arith) (omega arith) (omega arith)

abbrev token : List ℕ
token = codes "-12.5"

abbrev behind_token : List ℕ
behind_token = codes "7"

token_Format : Format float token
unfolding ee_isdigit
token_Format = record {
  sign = codes "-";
  number = codes "12.5";
  shape = refl;
  is_sign_sign = refl;
  unsigned = record {
    whole = codes "12";
    tail = codes "5";
    shape = refl;
    whole_digits = ground arith;
    fraction = ground arith;
  };
}

core_state_transition-Format_example :
    (tc' : Counts) × (core_state_transition (token ++ b',' ∷ behind_token) no_counts
      ≡ some (record { state = float; counts = tc'; rest = behind_token }))
core_state_transition-Format_example =
    core_state_transition-Format token behind_token b',' no_counts (ground arith) refl float refl
      token_Format

abbrev scanned : Scan
scanned = record { state = float; counts = 1 ∷ 0 ∷ 1 ∷ 0 ∷ 1 ∷ 0 ∷ 0 ∷ 0 ∷ []; rest = behind_token }

token_runs : core_state_transition (token ++ b',' ∷ behind_token) no_counts ≡ some scanned
unfolding core_state_transition scan next_symbol ee_isdigit count
token_runs = refl

Format-core_state_transition_example : Format float token × (behind_token ≡ behind_token)
Format-core_state_transition_example =
    Format-core_state_transition token behind_token b',' no_counts (ground arith) refl scanned
      token_runs refl

-- The third of the "scientific" patterns has no point, and the machine rejects it at its `e`.
scientific_rejected :
    (s : Scan) × (core_state_transition (codes "-87e+832,") no_counts ≡ some s)
    × (s.state ≡ invalid)
    × (s.rest ≡ codes "+832,")
unfolding core_state_transition scan next_symbol ee_isdigit count
scientific_rejected = (
  record { state = invalid; counts = 1 ∷ 0 ∷ 1 ∷ 0 ∷ 1 ∷ 0 ∷ 0 ∷ 0 ∷ []; rest = codes "+832," },
  refl,
  refl,
  refl,
)

abbrev block : List ℕ
block = codes "5012,9" ++ (0 ∷ 0 ∷ [])

get-corrupt_example : get_or (corrupt 8 0x15 2 block) 2 0 ≡ (
    if ltb 2 8 && 2 % 2 == 0 && not (get_or block 2 0 == b',')
    then bit_xor (get_or block 2 0) (0x15 % 2 ^ 8)
    else get_or block 2 0)
get-corrupt_example = get-corrupt 8 0x15 2 2 block (omega arith) (omega arith)

-- `'9' ^ 0x15` is a comma.
corrupt_lost_example : get_or (corrupt 8 0x15 5 (corrupt 8 0x15 5 block)) 5 0 ≡ b','
corrupt_lost_example =
    corrupt_lost 8 0x15 5 5 block (omega arith) (omega arith) (omega arith) refl refl

core_init_state-Generated_example :
    (mem : List ℕ) × (core_init_state 8 0 block ≡ some mem) × Generated 8 0 block mem
core_init_state-Generated_example =
    core_init_state-Generated 8 0 block (omega arith) (omega arith) (omega arith)

core_bench_state_total_example :
    (mem : List ℕ) × (t : Tally) × (core_init_state 8 0 block ≡ some mem)
    × (core_bench_state 8 mem 1 2 34 0
        ≡ some (crc_counts 8 0 t 0, corrupt 8 2 34 (corrupt 8 1 34 mem)))
core_bench_state_total_example =
    core_bench_state_total 8 0 1 2 34 0 block (omega arith) (omega arith) (omega arith)
      (omega arith)

abbrev filled : List ℕ
filled = codes "5012," ++ (0 ∷ 0 ∷ 0 ∷ [])

core_init_state_runs : core_init_state 8 0 block ≡ some filled
unfolding core_init_state init_loop pattern_of write_bytes fill_zeros
core_init_state_runs = refl

filled-Initialised : Initialised 8 block filled
unfolding pattern_of
filled-Initialised = record {
  text = codes "5012,";
  is_text = more (codes "5012") nil (0, refl) refl;
  nuls = 3;
  two_nuls = omega arith;
  whole = refl;
  shape = refl;
}

filled_apart : (j : ℕ) → StaysApart 0x3415 (get_or filled j 0)
filled_apart zero = refl
filled_apart (suc zero) = refl
filled_apart (suc (suc zero)) = refl
filled_apart (suc (suc (suc zero))) = refl
filled_apart (suc (suc (suc (suc zero)))) = refl
filled_apart (suc (suc (suc (suc (suc zero))))) = refl
filled_apart (suc (suc (suc (suc (suc (suc zero)))))) = refl
filled_apart (suc (suc (suc (suc (suc (suc (suc zero))))))) = refl
filled_apart (suc (suc (suc (suc (suc (suc (suc (suc j)))))))) = refl

core_bench_state_restores_example :
    (crc : ℕ) × (core_bench_state 8 filled 0x3415 0x3415 34 0 ≡ some (crc, filled))
core_bench_state_restores_example =
    core_bench_state_restores 8 0x3415 34 0 filled-Initialised (omega arith) filled_apart

get_time-stop_time_example :
    get_time (
      stop_time
        (0xfffffff0 + 0x20)
        (start_time 0xfffffff0 (record { start_tick = 0; stop_tick = 0 })))
    ≡ 0x20
get_time-stop_time_example =
    get_time-stop_time 0xfffffff0 0x20 (record { start_tick = 0; stop_tick = 0 }) (omega arith)

-- The parameters of the two runs of 2000 bytes that the seeds choose are known ones.
abbrev validation : Parameters
validation = record { seed1 = 0x3415; seed2 = 0x3415; seed3 = 0x66; iterations = 1; execs = 7 }

validation_known : known_id (seed_crc validation (block_size 2000 7)) ≡ some 4
unfolding known_id seed_crc block_size algorithms_below crc16 crcu16 crcu8
validation_known = refl

performance_known :
    known_id (seed_crc (record validation { seed1 = 0; seed2 = 0 }) (block_size 2000 7)) ≡ some 3
unfolding known_id seed_crc block_size algorithms_below crc16 crcu16 crcu8
performance_known = refl

-- Without the list, the matrix comes first and the state machine behind it.
block_start_apart_example :
    (block_start 2000 6 1 + block_size 2000 6 ≤ block_start 2000 6 (1 + 1 + 0))
    × (block_start 2000 6 1 + block_size 2000 6 ≤ 2000)
block_start_apart_example = block_start_apart 2000 6 1 0 refl (omega arith)
