-- ===== src/CoreMark/Driver/Main.antt =====
-- The main of coremark/src/core_main.c as it is built here: one context, static memory, seeds from
-- variables, no floating-point numbers.
use takshaka.Base.{
  ℕ, ◌+◌, ◌-◌, ◌*◌, ◌^◌, ◌==◌, leb, if◌then◌else◌, Option, some, ◌>>=◌, List, ◌++◌, bit_or,
}
use takshaka.CoreMark.ListJoin.{Heap}
use takshaka.CoreMark.ListJoin.Bench.{CoreResults}
use takshaka.CoreMark.ListJoin.Init.{core_list_init}
use takshaka.CoreMark.Matrix.{MatParams, core_init_matrix}
use takshaka.CoreMark.State.Init.{core_init_state}
use takshaka.CoreMark.Port.{Seeds, Sizes}
use takshaka.CoreMark.Port.Printf.{portable_init}
use takshaka.CoreMark.Driver.{Parameters, parameters, executed, block_size, seed_crc, iterate}
use takshaka.CoreMark.Driver.Calibrate.{Reads, choose_iterations, timed}
use takshaka.CoreMark.Driver.Report.{report}

-- What the memory block holds before: the list cells, the three matrices and the bytes of the state
-- machine, each from the start of its part; and what the variable `results[0]` of `main` holds for `mat`
-- and `list`, which nothing sets where their algorithm is not executed.
pub record Memory : Type 0 where
  pub heap : Heap
  pub a : List ℕ
  pub b : List ℕ
  pub c : List ℕ
  pub bytes : List ℕ
  pub mat : MatParams
  pub list : Option ℕ

-- `(ee_s32)seed1 | ((ee_s32)seed2 << 16)`
unfoldable pub matrix_seed : (seed1 seed2 : ℕ) → ℕ
matrix_seed seed1 seed2 =
    bit_or (if leb (2 ^ 15) seed1 then seed1 + (2 ^ 32 - 2 ^ 16) else seed1) (seed2 * 2 ^ 16)

-- The calls of the initialisations of the executed algorithms. The outputs are set by `iterate`.
unfoldable pub call_inits : Parameters → (size : ℕ) → Memory → Option CoreResults
call_inits p size m = do
  (list, heap) ←
      if executed p.execs 0 == 1 then core_list_init size p.seed1 m.heap else some (m.list, m.heap)
  mat ←
      if executed p.execs 1 == 1
      then core_init_matrix size m.a m.b m.c (matrix_seed p.seed1 p.seed2)
      else some m.mat
  bytes ← if executed p.execs 2 == 1 then core_init_state size p.seed1 m.bytes else some m.bytes
  some (record {
    seed1 = p.seed1;
    seed2 = p.seed2;
    seed3 = p.seed3;
    memblock = bytes;
    size = size;
    iterations = p.iterations;
    execs = p.execs;
    list = list;
    heap = heap;
    mat = mat;
    crc = 0;
    crclist = 0;
    crcmatrix = 0;
    crcstate = 0;
    err = 0;
  })

-- Everything that `main` prints, with the results at the end; `items` bounds the walks over the list.
unfoldable pub core_main :
    (items : ℕ) (compiler_version : List ℕ)
    → Sizes
    → Seeds
    → (total : ℕ) → Memory
    → List Reads
    → Option (List ℕ × CoreResults)
core_main items version sizes seeds total m reads = do
  (messages, _) ← portable_init sizes
  let p = parameters seeds
  let size = block_size total p.execs
  started ← call_inits p size m
  (later, chosen) ← choose_iterations (iterate items) reads started
  (total_time, res) ← timed (iterate items) later chosen
  text ← report version sizes (seed_crc p size) total_time res
  some (messages ++ text, res)
