-- ===== src/CoreMark/Driver/Tests.antt =====
-- The whole benchmark at the seeds of the 2K runs, and the theorems on the driver at concrete inputs.
use takshaka.Base.{
  true, ℕ, ◌*◌, ◌≤◌, ◌<◌, ◌≡◌, ◌↔◌, refl, Option, none, some, ◌>>=◌, List, [], ◌∷◌, codes,
  replicate, arith,
}
use takshaka.CoreMark.Port.{
  Seeds, Sizes, check_data_types, ticks_per_sec, print_int, get_seed_32, start_time, stop_time,
  get_time, time_in_secs, fill_buffer, print_uint, fill_hex, print_hex,
}
use takshaka.CoreMark.ListJoin.Bench.{
  CoreResults, calculate, calc_func, cmp_complex, cmp_idx, cache_next, find_round, find_loop,
  crc_loop, core_bench_list,
}
use takshaka.CoreMark.Driver.Main.{Memory, core_main, matrix_seed, call_inits}
use takshaka.CoreMark.Driver.Calibrate.{
  Reads, choose_iterations, elapsed, calibrate_loop, scaled, timed,
}
use takshaka.CoreMark.Driver.Calibrate.Length.{proceeds, choose_iterations_long}
use takshaka.CoreMark.Driver.Report.{
  total_errors, validated, cannot_validate, verdict, Rating, rating, per_mhz_line, parameters_line,
  error_lines, verdict_line, rating_lines, report,
}
use takshaka.CoreMark.Driver.Report.Verified.{Matches, verdict_correct}
use takshaka.CoreMark.Driver.Report.PerMhz.{Rated, Shown, per_mhz_line-rating}
use takshaka.CoreMark.Crc.{crcu8, crcu16, crcu32, crc16}
use takshaka.CoreMark.State.{
  count, ee_isdigit, next_symbol, scan, core_state_transition, run_tokens, corrupt_byte,
  corrupt_loop, corrupt, crc_counts, core_bench_state,
}
use takshaka.CoreMark.State.Init.{pattern_of, write_bytes, init_loop, fill_zeros, core_init_state}
use takshaka.CoreMark.Matrix.{
  matrix_add_const, matrix_mul_const, matrix_mul_vect, matrix_mul_matrix,
  matrix_mul_matrix_bitextract, sum_step, matrix_sum, matrix_test, core_bench_matrix,
  dimension_loop, fill_step, fill_matrices, core_init_matrix,
}
use takshaka.CoreMark.ListJoin.{
  core_list_find, reverse_loop, core_list_reverse, core_list_remove, core_list_undo_remove,
  core_list_insert_new,
}
use takshaka.CoreMark.ListJoin.Sort.{
  step_along, merge_step, merge_loop, pass_loop, merge_pass, sort_loop, core_list_mergesort,
}
use takshaka.CoreMark.ListJoin.Init.{insert_loop, index_loop, core_list_init}
use takshaka.CoreMark.Port.Printf.{
  puts, with_argument, switch_letter, print_from, ee_printf, portable_init, say,
}
use takshaka.CoreMark.Port.DataTypes.{data_type_messages}
use takshaka.CoreMark.Driver.{
  Parameters, iterate_once, iterate_loop, iterate, with_defaults, parameters, algorithms_below,
  block_size, block_start, seed_crc, known_id, known_errors,
}

abbrev sizes : Sizes
sizes = record {
  ee_u8 = 1;
  ee_u16 = 2;
  ee_s16 = 2;
  ee_s32 = 4;
  ee_u32 = 4;
  ee_ptr_int = 4;
  pointer = 4;
}

abbrev performance : Seeds
performance = record { seed1 = 0; seed2 = 0; seed3 = 0x66; seed4 = 1; seed5 = 0 }

abbrev profile : Seeds
profile = record { seed1 = 8; seed2 = 8; seed3 = 8; seed4 = 1; seed5 = 0 }

abbrev validation : Seeds
validation = record { seed1 = 0x3415; seed2 = 0x3415; seed3 = 0x66; seed4 = 1; seed5 = 0 }

-- The memory block before `main`, with room for matrices of 9 by 9.
abbrev memory : Memory
memory = record {
  heap = record { next = λ _. none; info = λ _. 0; cell = λ _. record { data16 = 0; idx = 0 } };
  a = replicate 81 0;
  b = replicate 81 0;
  c = replicate 81 0;
  bytes = replicate 666 0;
  mat = record { n = 0; a = []; b = []; c = [] };
  list = none;
}

-- The three checksums of a run with so many bytes and one iteration, which takes 3 seconds.
checksums : Seeds → (total : ℕ) → Option (ℕ × ℕ × ℕ)
unfolding crcu8 crcu16 crcu32 crc16 count ee_isdigit next_symbol scan core_state_transition
    run_tokens corrupt_byte corrupt_loop corrupt crc_counts core_bench_state pattern_of write_bytes
    init_loop fill_zeros core_init_state matrix_add_const matrix_mul_const matrix_mul_vect
    matrix_mul_matrix matrix_mul_matrix_bitextract sum_step matrix_sum matrix_test core_bench_matrix
    dimension_loop fill_step fill_matrices core_init_matrix core_list_find reverse_loop
    core_list_reverse core_list_remove core_list_undo_remove core_list_insert_new step_along
    merge_step merge_loop pass_loop merge_pass sort_loop core_list_mergesort calculate calc_func
    cmp_complex cmp_idx cache_next find_round find_loop crc_loop core_bench_list insert_loop
    index_loop core_list_init get_seed_32 check_data_types start_time stop_time get_time
    time_in_secs fill_buffer print_uint print_int fill_hex print_hex puts with_argument
    switch_letter print_from ee_printf portable_init say data_type_messages iterate_once
    iterate_loop iterate with_defaults parameters algorithms_below block_size block_start seed_crc
    known_id known_errors elapsed calibrate_loop scaled choose_iterations timed parameters_line
    error_lines total_errors verdict verdict_line rating per_mhz_line rating_lines report
    matrix_seed call_inits core_main
checksums seeds total = do
  (text, res) ← core_main 64 (codes "GCC") sizes seeds total memory ((0, 300000000) ∷ [])
  some (res.crclist, res.crcmatrix, res.crcstate)

-- The model gives the checksums that coremark/src/core_main.c has in its tables.
profile_run : checksums profile 1200 ≡ some (0x6a79, 0x5608, 0xe5a4)
unfolding checksums
profile_run = refl

performance_run : checksums performance 2000 ≡ some (0xe714, 0x1fd7, 0x8e3a)
unfolding checksums
performance_run = refl

validation_run : checksums validation 2000 ≡ some (0xe3c1, 0x0747, 0x8d84)
unfolding checksums
validation_run = refl

-- The matrix alone, whose three arrays hold one cell each.
abbrev matrix_only : Parameters
matrix_only = record { seed1 = 8; seed2 = 8; seed3 = 8; iterations = 1; execs = 2 }

abbrev matrix_only_started : CoreResults
unfolding core_init_matrix dimension_loop fill_matrices fill_step matrix_seed
matrix_only_started = record {
  seed1 = 8;
  seed2 = 8;
  seed3 = 8;
  memblock = memory.bytes;
  size = 12;
  iterations = 1;
  execs = 2;
  list = none;
  heap = memory.heap;
  mat = elim (core_init_matrix 12 memory.a memory.b memory.c (matrix_seed 8 8)) [
    | none ↦ memory.mat
    | some m ↦ m
  ];
  crc = 0;
  crclist = 0;
  crcmatrix = 0;
  crcstate = 0;
  err = 0;
}

matrix_only_starts : call_inits matrix_only 12 memory ≡ some matrix_only_started
unfolding call_inits core_init_matrix dimension_loop fill_matrices fill_step matrix_seed
matrix_only_starts = refl

-- The results of a run with the seeds of a performance run and 666 bytes, in which each algorithm gets
-- 222 of them, without a number of iterations.
abbrev unset : Parameters
unset = record { seed1 = 0; seed2 = 0; seed3 = 0x66; iterations = 0; execs = 7 }

unset_results : CoreResults
unfolding call_inits
unset_results = elim (call_inits unset 222 memory) [ none ↦ matrix_only_started | some res ↦ res ]

-- The counter for ten iterations of 10000000 ticks.
abbrev one_second : List Reads
one_second = (0, 100000000) ∷ []

ten_iterations : proceeds (iterate 64) one_second (record unset_results { iterations = 1 }) ≡ true
unfolding proceeds unset_results crcu8 crcu16 crcu32 crc16 count ee_isdigit next_symbol scan
    core_state_transition run_tokens corrupt_byte corrupt_loop corrupt crc_counts core_bench_state
    pattern_of write_bytes init_loop fill_zeros core_init_state matrix_add_const matrix_mul_const
    matrix_mul_vect matrix_mul_matrix matrix_mul_matrix_bitextract sum_step matrix_sum matrix_test
    core_bench_matrix dimension_loop fill_step fill_matrices core_init_matrix core_list_find
    reverse_loop core_list_reverse core_list_remove core_list_undo_remove core_list_insert_new
    step_along merge_step merge_loop pass_loop merge_pass sort_loop core_list_mergesort calculate
    calc_func cmp_complex cmp_idx cache_next find_round find_loop crc_loop core_bench_list
    insert_loop index_loop core_list_init get_seed_32 check_data_types start_time stop_time get_time
    time_in_secs fill_buffer print_uint print_int fill_hex print_hex puts with_argument
    switch_letter print_from ee_printf portable_init say data_type_messages iterate_once
    iterate_loop iterate with_defaults parameters algorithms_below block_size block_start seed_crc
    known_id known_errors elapsed calibrate_loop scaled choose_iterations timed parameters_line
    error_lines total_errors verdict verdict_line rating per_mhz_line rating_lines report
    matrix_seed call_inits core_main
ten_iterations = refl

no_number : unset_results.iterations ≡ 0
unfolding unset_results crcu8 crcu16 crcu32 crc16 count ee_isdigit next_symbol scan
    core_state_transition run_tokens corrupt_byte corrupt_loop corrupt crc_counts core_bench_state
    pattern_of write_bytes init_loop fill_zeros core_init_state matrix_add_const matrix_mul_const
    matrix_mul_vect matrix_mul_matrix matrix_mul_matrix_bitextract sum_step matrix_sum matrix_test
    core_bench_matrix dimension_loop fill_step fill_matrices core_init_matrix core_list_find
    reverse_loop core_list_reverse core_list_remove core_list_undo_remove core_list_insert_new
    step_along merge_step merge_loop pass_loop merge_pass sort_loop core_list_mergesort calculate
    calc_func cmp_complex cmp_idx cache_next find_round find_loop crc_loop core_bench_list
    insert_loop index_loop core_list_init get_seed_32 check_data_types start_time stop_time get_time
    time_in_secs fill_buffer print_uint print_int fill_hex print_hex puts with_argument
    switch_letter print_from ee_printf portable_init say data_type_messages iterate_once
    iterate_loop iterate with_defaults parameters algorithms_below block_size block_start seed_crc
    known_id known_errors elapsed calibrate_loop scaled choose_iterations timed parameters_line
    error_lines total_errors verdict verdict_line rating per_mhz_line rating_lines report
    matrix_seed call_inits core_main
no_number = refl

choose_iterations_long_example :
    (later : List Reads) × (res' : CoreResults) × (choose_iterations
        (iterate 64)
        one_second
        unset_results
      ≡ some (later, res'))
    × (11 * ticks_per_sec ≤ 10000000 * res'.iterations)
    × (10000000 * res'.iterations < 22 * ticks_per_sec)
choose_iterations_long_example =
    choose_iterations_long 10000000 (iterate 64) one_second unset_results (omega arith)
      (omega arith) (omega arith) (omega arith) no_number ten_iterations

abbrev known_results : CoreResults
known_results = record matrix_only_started {
  execs = 7;
  crclist = 0xe714;
  crcmatrix = 0x1fd7;
  crcstate = 0x8e3a;
}

sizes_right : check_data_types sizes ≡ 0
unfolding check_data_types
sizes_right = refl

abbrev known : Option ℕ
known = some 3

verdict_correct_example :
    ((verdict (total_errors known_results known sizes) ≡ validated)
      ↔ ((k : ℕ) × (known ≡ some k) × Matches known_results k))
    × ((verdict (total_errors known_results known sizes) ≡ cannot_validate) ↔ (known ≡ none))
verdict_correct_example = verdict_correct known_results known sizes sizes_right

-- 305 iterations a second.
abbrev rating_305 : Rating
rating_305 = record {
  cm_per_sec = 305;
  cm_per_mhz_int = 3;
  cm_per_mhz_frac = 50;
  cycles_per_iter = 327868;
}

rates_305 : rating 305 100000000 ≡ some rating_305
unfolding rating
rates_305 = refl

per_mhz_line-rating_example : Rated 305 100000000 rating_305 × Shown rating_305
per_mhz_line-rating_example = per_mhz_line-rating 305 100000000 rating_305 rates_305

-- 3.050 is printed as 3.50.
padding_is_missing : per_mhz_line rating_305 ≡ some (codes "CoreMark/MHz:            3.50\r\n")
unfolding per_mhz_line say ee_printf print_from switch_letter with_argument print_int print_uint
    fill_buffer
padding_is_missing = refl
