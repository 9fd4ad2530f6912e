-- ===== src/CoreMark/Driver.antt =====
-- The driver coremark/src/core_main.c: the parameters of a run, the division of the memory block, the
-- iterations, and the comparison with the known checksums.
pub mod Division
pub mod Calibrate
pub mod Report
pub mod Main
mod Tests
use takshaka.Base.{
  ℕ, zero, suc, ◌+◌, ◌-◌, ◌*◌, ◌/◌, ◌%◌, ◌^◌, ◌==◌, Bool, true, false, if◌then◌else◌, Option, none,
  some, ◌>>=◌, List, [], ◌∷◌, get_or, ◌&&◌,
}
use takshaka.CoreMark.Crc.{crcu16, crc16}
use takshaka.CoreMark.ListJoin.Bench.{CoreResults, core_bench_list}
use takshaka.CoreMark.Port.{Seeds, get_seed_32}

-- The first and the second call of `core_bench_list` of an iteration, with their checksums folded.
unfoldable pub iterate_once : (items : ℕ) → CoreResults → Option CoreResults
iterate_once items res = do
  (up, r1) ← core_bench_list items res 1
  let r2 = record r1 { crc = crcu16 up r1.crc }
  (down, r3) ← core_bench_list items r2 (2 ^ 16 - 1)
  some (record r3 { crc = crcu16 down r3.crc })

-- The iterations from index `i` on; the first one sets `crclist`.
unfoldable pub iterate_loop : (items rounds i : ℕ) → CoreResults → Option CoreResults
iterate_loop items zero i res = some res
iterate_loop items (suc rounds) i res = do
  r ← iterate_once items res
  iterate_loop items rounds (i + 1) (record r { crclist = if i == 0 then r.crc else r.crclist })

unfoldable pub iterate : (items : ℕ) → CoreResults → Option CoreResults
iterate items res =
    iterate_loop items res.iterations 0
      (record res { crc = 0; crclist = 0; crcmatrix = 0; crcstate = 0 })

-- The seeds, the iterations and the algorithms that `main` chooses.
pub record Parameters : Type 0 where
  pub seed1 : ℕ
  pub seed2 : ℕ
  pub seed3 : ℕ
  pub iterations : ℕ
  pub execs : ℕ

-- The defaults for a performance run and for a validation run.
unfoldable pub with_defaults : Parameters → Parameters
with_defaults p =
    if p.seed1 == 0 && p.seed2 == 0 && p.seed3 == 0
    then record p { seed3 = 0x66 }
    else if p.seed1 == 1 && p.seed2 == 0 && p.seed3 == 0
    then record p { seed1 = 0x3415; seed2 = 0x3415; seed3 = 0x66 }
    else p

-- `get_seed` casts to 16 bits, `get_seed_32` does not.
unfoldable pub parameters : Seeds → Parameters
parameters s =
    let execs = get_seed_32 s 5 in
    with_defaults (record {
      seed1 = get_seed_32 s 1 % 2 ^ 16;
      seed2 = get_seed_32 s 2 % 2 ^ 16;
      seed3 = get_seed_32 s 3 % 2 ^ 16;
      iterations = get_seed_32 s 4;
      execs = if execs == 0 then 7 else execs;
    })

-- Whether algorithm `i` is executed: 1 or 0.
abbrev pub executed : (execs i : ℕ) → ℕ
executed execs i = execs / 2 ^ i % 2

-- The executed algorithms below `i`. Up to 3 it is `num_algorithms`, up to `i` the `j` of the source.
unfoldable pub algorithms_below : (execs i : ℕ) → ℕ
algorithms_below execs zero = 0
algorithms_below execs (suc i) = algorithms_below execs i + executed execs i

-- The size of the block of each algorithm; where none is executed the source divides by zero.
unfoldable pub block_size : (total execs : ℕ) → ℕ
block_size total execs = total / algorithms_below execs 3

-- Where the block of algorithm `i` starts, from the start of the memory.
unfoldable pub block_start : (total execs i : ℕ) → ℕ
block_start total execs i = block_size total execs * algorithms_below execs i

unfoldable pub seed_crc : Parameters → (size : ℕ) → ℕ
seed_crc p size = crc16 (size % 2 ^ 16) (crc16 p.seed3 (crc16 p.seed2 (crc16 p.seed1 0)))

-- `known_id`, and `none` for -1.
unfoldable pub known_id : (seedcrc : ℕ) → Option ℕ
known_id seedcrc =
    if seedcrc == 0x8a02
    then some 0
    else if seedcrc == 0x7b05
    then some 1
    else if seedcrc == 0x4eaf
    then some 2
    else if seedcrc == 0xe9f5
    then some 3
    else if seedcrc == 0x18f2
    then some 4
    else none

abbrev pub list_known_crc : List ℕ
list_known_crc = 0xd4b0 ∷ 0x3340 ∷ 0x6a79 ∷ 0xe714 ∷ 0xe3c1 ∷ []

abbrev pub matrix_known_crc : List ℕ
matrix_known_crc = 0xbe52 ∷ 0x1199 ∷ 0x5608 ∷ 0x1fd7 ∷ 0x0747 ∷ []

abbrev pub state_known_crc : List ℕ
state_known_crc = 0x5e47 ∷ 0x39bf ∷ 0xe5a4 ∷ 0x8e3a ∷ 0x8d84 ∷ []

-- 1 for an executed algorithm whose checksum is not the known one.
abbrev pub crc_error : (executed crc known : ℕ) → ℕ
crc_error executed crc known = if executed == 1 then if crc == known then 0 else 1 else 0

-- `results[0].err`
unfoldable pub known_errors : CoreResults → (id : ℕ) → ℕ
known_errors res id =
    crc_error (executed res.execs 0) res.crclist (get_or list_known_crc id 0)
    + crc_error (executed res.execs 1) res.crcmatrix (get_or matrix_known_crc id 0)
    + crc_error (executed res.execs 2) res.crcstate (get_or state_known_crc id 0)
