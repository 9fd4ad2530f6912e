-- ===== src/CoreMark/State/Bench.antt =====
-- `core_bench_state` on a block that `core_init_state` has filled.
use takshaka.Base.{
  ℕ, zero, suc, ◌+◌, ◌-◌, ◌%◌, ◌^◌, ◌<◌, ◌≤◌, ◌≡◌, ◌≢◌, ==_iff, sym, ap, ◌∙◌, true, false, inl, inr,
  List, [], ◌∷◌, ◌++◌, some, arith, Bool-cases, ◌==◌, length, get_or, drop, replicate,
  length-append, length-replicate, get_or-append_left, get_or-append_right, get_or-replicate,
}
use native.Mathlib.Nat.{mod-add-mod, mod-eq_of_lt}
use takshaka.CoreMark.State.{Tally, no_counts, corrupt, crc_counts, core_bench_state}
use takshaka.CoreMark.State.Token.{has_zero, run_tokens_total}
use takshaka.CoreMark.State.Corrupt.{corrupted_at, length-corrupt, StaysApart, corrupt-corrupt}
use takshaka.CoreMark.State.Text.{Initialised, core_init_state-Initialised}
use takshaka.CoreMark.State.Init.{core_init_state}

has_zero_of_get : (mem : List ℕ) (j : ℕ) → j < length mem → get_or mem j 0 ≡ 0 → has_zero mem ≡ true
has_zero_of_get [] j lt e = absurd (omega arith)
has_zero_of_get (x ∷ mem) zero lt e = ground arith
has_zero_of_get (x ∷ mem) (suc j) lt e = ground (arith, has_zero_of_get mem j)

-- Two neighbours are not both multiples of a step of at least 2.
neighbours : (j step : ℕ) → 2 ≤ step → j % step ≡ 0 → (j + 1) % step ≢ 0
neighbours j step h e e' =
    let shifted : (0 + 1) % step ≡ 0 =
      ap (λ (t : ℕ). (t + 1) % step) (sym e) ∙ mod-add-mod j step 1 ∙ e' in
    absurd (omega (arith, shifted, mod-eq_of_lt {n = 1} {m = step} h))

module _ (size : ℕ) {mem₀ mem : List ℕ} (init : Initialised size mem₀ mem) where
  open init use {text, nuls, two_nuls, whole, shape}

  block_fits : size ≤ length mem
  block_fits = omega (
    arith,
    ap length shape,
    length-append (text ++ replicate nuls 0) (drop size mem₀),
    length-append text (replicate nuls 0),
    length-replicate {A = ℕ} nuls 0,
  )

  get_nul : (j : ℕ) → length text ≤ j → j < size → get_or mem j 0 ≡ 0
  get_nul j le lt =
      ap (λ (m : List ℕ). get_or m j 0) shape
      ∙ get_or-append_left (text ++ replicate nuls 0) (drop size mem₀) j 0
          (omega (arith, length-append text (replicate nuls 0), length-replicate {A = ℕ} nuls 0))
      ∙ get_or-append_right text (replicate nuls 0) j (j - length text) 0 (omega arith)
      ∙ get_or-replicate nuls (j - length text) 0

  has_zero-block : has_zero mem ≡ true
  has_zero-block =
      has_zero_of_get mem (size - 1) (omega (arith, block_fits))
        (get_nul (size - 1) (omega arith) (omega arith))

  -- One of the last two NULs is not a multiple of the step.
  has_zero-corrupt : (seed step : ℕ) → 2 ≤ step → has_zero (corrupt size seed step mem) ≡ true
  has_zero-corrupt seed step h = elim (Bool-cases ((size - 1) % step == 0)) [
    | inl last ↦ kept (size - 2) (omega arith) (omega arith) (ground (arith, off last))
    | inr other ↦ kept (size - 1) (omega arith) (omega arith) other
  ]
    where
      off : ((size - 1) % step == 0) ≡ true → (size - 2) % step ≢ 0
      off last e =
          neighbours (size - 2) step h e
            (ap (λ (t : ℕ). t % step) (omega arith) ∙ (==_iff ((size - 1) % step) 0).0 last)

      kept :
          (j : ℕ)
          → length text ≤ j
          → j < size
          → (j % step == 0) ≡ false
          → has_zero (corrupt size seed step mem) ≡ true
      kept j le lt off =
          has_zero_of_get (corrupt size seed step mem) j
            (omega (arith, length-corrupt size seed step mem, block_fits))
            (corrupted_at size seed step j mem (omega arith) block_fits
              ∙ ground (arith, get_nul j le lt))

  module _ (seed1 seed2 step crc : ℕ) (wide : 2 ≤ step) where
    -- Both scans end inside the block, whatever the corruption.
    core_bench_state_runs :
        (t : Tally) × (core_bench_state size mem seed1 seed2 step crc
          ≡ some (crc_counts 8 0 t crc, corrupt size seed2 step (corrupt size seed1 step mem)))
    unfolding core_bench_state
    core_bench_state_runs =
        let (t, first) =
          run_tokens_total (length mem) mem (record { track = no_counts; final = no_counts })
            has_zero-block (omega arith) in
        let (t', second) =
          run_tokens_total (length mem) (corrupt size seed1 step mem) t
            (has_zero-corrupt seed1 step wide)
            (omega (arith, length-corrupt size seed1 step mem)) in
        (t', rw (first, second, core_bench_state))

-- On a block that `core_init_state` has filled, with a step of at least 2, `core_bench_state` returns:
-- both scans end inside the block, whatever the seeds.
pub core_bench_state_total :
    (size seed seed1 seed2 step crc : ℕ) (mem : List ℕ)
    → 2 ≤ size
    → size < 2 ^ 31
    → size ≤ length mem
    → 2 ≤ step
    → (block : List ℕ) × (t : Tally) × (core_init_state size seed mem ≡ some block)
      × (core_bench_state size block seed1 seed2 step crc
          ≡ some (crc_counts 8 0 t crc, corrupt size seed2 step (corrupt size seed1 step block)))
core_bench_state_total size seed seed1 seed2 step crc mem two small fits wide =
    let (block, e, init) = core_init_state-Initialised size seed mem two small fits in
    let (t, runs) = core_bench_state_runs size init seed1 seed2 step crc wide in (block, t, e, runs)

-- With equal seeds that turn no byte of the block into a comma, the block is as it was.
pub core_bench_state_restores :
    (size seed step crc : ℕ) {mem₀ mem : List ℕ}
    → Initialised size mem₀ mem
    → 2 ≤ step
    → ((j : ℕ) → StaysApart seed (get_or mem j 0))
    → (crc' : ℕ) × (core_bench_state size mem seed seed step crc ≡ some (crc', mem))
core_bench_state_restores size seed step crc {mem = mem} init wide apart =
    let (t, runs) = core_bench_state_runs size init seed seed step crc wide in
    let back : corrupt size seed step (corrupt size seed step mem) ≡ mem =
      corrupt-corrupt size seed step mem (omega arith) (block_fits size init) apart in
    (crc_counts 8 0 t crc, runs ∙ ap (λ (m : List ℕ). some (crc_counts 8 0 t crc, m)) back)
