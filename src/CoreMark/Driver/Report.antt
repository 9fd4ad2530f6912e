-- ===== src/CoreMark/Driver/Report.antt =====
-- The report of coremark/src/core_main.c for one context, by the bytes that it sends.
pub mod Verified
pub mod PerMhz
use takshaka.Base.{
  ℕ, ◌+◌, ◌-◌, ◌*◌, ◌/◌, ◌%◌, ◌^◌, ◌==◌, ltb, leb, ◌&&◌, not, Bool, if◌then◌else◌, Option, none,
  some, ◌>>=◌, List, [], ◌∷◌, get_or, codes, true, false,
}
use takshaka.CoreMark.ListJoin.Bench.{CoreResults}
use takshaka.CoreMark.Port.{Sizes, check_data_types, time_in_secs, ticks_per_sec}
use takshaka.CoreMark.Port.DataTypes.{data_type_messages}
use takshaka.CoreMark.Port.Printf.{Argument, word, string, say, in_order}
use takshaka.CoreMark.Driver.{
  executed, known_id, known_errors, list_known_crc, matrix_known_crc, state_known_crc,
}

-- A call that is made under a test.
abbrev pub when : Bool → Option (List ℕ) → Option (List ℕ)
when test call = if test then call else some []

-- `COMPILER_FLAGS` of core_portme.h.
abbrev compiler_flags : List ℕ
compiler_flags = codes "-O2 -march=rv32im -mabi=ilp32"

-- The `switch` over the checksum of the seeds.
unfoldable pub parameters_line : Option ℕ → Option (List ℕ)
parameters_line none = some []
parameters_line (some id) =
    if id == 0
    then say (codes "6k performance run parameters for coremark.\n") []
    else if id == 1
    then say (codes "6k validation run parameters for coremark.\n") []
    else if id == 2
    then say (codes "Profile generation run parameters for coremark.\n") []
    else if id == 3
    then say (codes "2K performance run parameters for coremark.\n") []
    else say (codes "2K validation run parameters for coremark.\n") []

-- An error of one of the three algorithms.
abbrev error_line : (ran crc known : ℕ) → (text : List ℕ) → Option (List ℕ)
error_line ran crc known text =
    when (ran == 1 && not (crc == known)) (say text (word 0 ∷ word crc ∷ word known ∷ []))

unfoldable pub error_lines : CoreResults → Option ℕ → Option (List ℕ)
error_lines res none = some []
error_lines res (some id) = in_order (
    error_line (executed res.execs 0) res.crclist (get_or list_known_crc id 0)
      (codes "[%u]ERROR! list crc 0x%04x - should be 0x%04x\n")
    ∷ error_line (executed res.execs 1) res.crcmatrix (get_or matrix_known_crc id 0)
        (codes "[%u]ERROR! matrix crc 0x%04x - should be 0x%04x\n")
    ∷ error_line (executed res.execs 2) res.crcstate (get_or state_known_crc id 0)
        (codes "[%u]ERROR! state crc 0x%04x - should be 0x%04x\n")
    ∷ [])

-- `total_errors`, the bit pattern of an `ee_s16`: -1 for unknown seeds, to which the errors of the data
-- types are added too.
unfoldable pub total_errors : CoreResults → (id : Option ℕ) → Sizes → ℕ
total_errors res none s = (2 ^ 16 - 1 + check_data_types s) % 2 ^ 16
total_errors res (some id) s = (known_errors res id + check_data_types s) % 2 ^ 16

-- The three last tests of `total_errors`.
pub data Verdict : Type 0 where
  validated : Verdict
  errors_detected : Verdict
  cannot_validate : Verdict

unfoldable pub verdict : (total_errors : ℕ) → Verdict
verdict n =
    if n == 0 then validated else if ltb n (2 ^ 15) then errors_detected else cannot_validate

unfoldable pub verdict_line : Verdict → Option (List ℕ)
verdict_line validated =
    say (codes "Correct operation validated. See README.md for run and reporting rules.\n") []
verdict_line errors_detected = say (codes "Errors detected\n") []
verdict_line cannot_validate =
    say
      (codes
        "Cannot validate operation for these seed values, please compare with results on a known platform.\n")
      []

-- The score of a run with the known seeds of a 2K performance run.
pub record Rating : Type 0 where
  pub cm_per_sec : ℕ
  pub cm_per_mhz_int : ℕ
  pub cm_per_mhz_frac : ℕ
  pub cycles_per_iter : ℕ

abbrev pub mhz : ℕ
mhz = ticks_per_sec / 1000000

-- `none` is a division by zero.
unfoldable pub rating : (iterations total_time : ℕ) → Option Rating
rating iterations total_time =
    if total_time == 0
    then none
    else if iterations == 0
    then none
    else let cm_per_sec = iterations * ticks_per_sec / total_time % 2 ^ 32 in
      some (record {
        cm_per_sec = cm_per_sec;
        cm_per_mhz_int = cm_per_sec / mhz;
        cm_per_mhz_frac = cm_per_sec % mhz * 1000 / mhz;
        cycles_per_iter = total_time / iterations;
      })

unfoldable pub per_mhz_line : Rating → Option (List ℕ)
per_mhz_line r =
    say (codes "CoreMark/MHz:            %d.%03d\n")
      (word r.cm_per_mhz_int ∷ word r.cm_per_mhz_frac ∷ [])

unfoldable pub rating_lines : (compiler_version : List ℕ) → Rating → Option (List ℕ)
rating_lines version r = in_order (
    say (codes "\n") []
    ∷ say (codes "Cycles/Iteration:        %d\n") (word r.cycles_per_iter ∷ [])
    ∷ per_mhz_line r
    ∷ say (codes "Iterations/Sec:          %d\n") (word r.cm_per_sec ∷ [])
    ∷ say (codes "Compiler Version:        %s\n") (string version ∷ [])
    ∷ say (codes "Compiler Flags:          %s\n") (string compiler_flags ∷ [])
    ∷ say (codes "\n") []
    ∷ say (codes "CoreMark 1.0 : %d / %s %s")
        (word r.cm_per_sec ∷ string version ∷ string compiler_flags ∷ [])
    ∷ say (codes " / %s") (string (codes "STATIC") ∷ [])
    ∷ say (codes "\n") []
    ∷ [])

-- Behind the first line of a validated run.
abbrev rated : (compiler_version : List ℕ) (iterations total_time : ℕ) → Option (List ℕ)
rated version iterations total_time = do r ← rating iterations total_time; rating_lines version r

-- What `main` prints behind the timed part; the size is that of the block of one algorithm.
unfoldable pub report :
    (compiler_version : List ℕ) → Sizes → (seedcrc total_time : ℕ) → CoreResults → Option (List ℕ)
report version s seedcrc total_time res =
    let id = known_id seedcrc in
    let total = total_errors res id s in
    let secs = time_in_secs total_time in
    in_order (
      parameters_line id
      ∷ error_lines res id
      ∷ data_type_messages s
      ∷ say (codes "CoreMark Size    : %lu\n") (word res.size ∷ [])
      ∷ say (codes "Total ticks      : %lu\n") (word total_time ∷ [])
      ∷ say (codes "Total time (secs): %d\n") (word secs ∷ [])
      ∷ when (ltb 0 secs)
          (say (codes "Iterations/Sec   : %d\n") (word (res.iterations / secs) ∷ []))
      ∷ say (codes "Iterations       : %lu\n") (word res.iterations ∷ [])
      ∷ say (codes "Compiler version : %s\n") (string version ∷ [])
      ∷ say (codes "Compiler flags   : %s\n") (string compiler_flags ∷ [])
      ∷ say (codes "Memory location  : %s\n") (string (codes "STATIC") ∷ [])
      ∷ say (codes "seedcrc          : 0x%04x\n") (word seedcrc ∷ [])
      ∷ when (executed res.execs 0 == 1)
          (say (codes "[%d]crclist       : 0x%04x\n") (word 0 ∷ word res.crclist ∷ []))
      ∷ when (executed res.execs 1 == 1)
          (say (codes "[%d]crcmatrix     : 0x%04x\n") (word 0 ∷ word res.crcmatrix ∷ []))
      ∷ when (executed res.execs 2 == 1)
          (say (codes "[%d]crcstate      : 0x%04x\n") (word 0 ∷ word res.crcstate ∷ []))
      ∷ say (codes "[%d]crcfinal      : 0x%04x\n") (word 0 ∷ word res.crc ∷ [])
      ∷ verdict_line (verdict total)
      ∷ when (total == 0 && seedcrc == 0xe9f5) (rated version res.iterations total_time)
      ∷ [])
