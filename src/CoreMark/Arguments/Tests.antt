-- ===== src/CoreMark/Arguments/Tests.antt =====
-- `parseval` at concrete texts.
use takshaka.Base.{ℕ, ◌-◌, ◌*◌, ◌^◌, ◌≡◌, refl, true, some, List, [], ◌∷◌, ◌++◌, codes, arith}
use takshaka.CoreMark.Arguments.{
  hex_loop, decimal_loop, qualified, behind_sign, parseval, get_seed_args,
}
use takshaka.CoreMark.Arguments.Notation.{decimal, parseval-pattern}

-- The command line "coremark 0x3415 -2K".
abbrev arguments : List (List ℕ)
arguments = (codes "coremark" ++ 0 ∷ []) ∷ (codes "0x3415" ++ 0 ∷ []) ∷ (codes "-2K" ++ 0 ∷ []) ∷ []

first_seed : get_seed_args 1 arguments ≡ some 0x3415
unfolding get_seed_args parseval behind_sign hex_loop qualified
first_seed = refl

second_seed : get_seed_args 2 arguments ≡ some (2 ^ 32 - 2048)
unfolding get_seed_args parseval behind_sign decimal_loop qualified
second_seed = refl

missing_seed : get_seed_args 3 arguments ≡ some 0
unfolding get_seed_args
missing_seed = refl

parseval-pattern_example : parseval (codes "-12M") ≡ some (2 ^ 32 - 12 * (1024 * 1024))
parseval-pattern_example =
    parseval-pattern true (decimal (b'1' ∷ b'2' ∷ [])) b'M' []
      ((refl, (refl, tt)), refl, omega arith)
