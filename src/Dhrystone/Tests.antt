-- ===== src/Dhrystone/Tests.antt =====
-- The Dhrystone theorems at concrete inputs.
use takshaka.Base.{
  ℕ, ◌≡◌, refl, some, none, List, [], ◌∷◌, length, codes, arith, ◌==◌, if◌then◌else◌, inr,
}
use takshaka.Bsp.Libc.{Memory}
use takshaka.Bsp.Libc.Strings.{IsString}
use takshaka.Dhrystone.Port.{print_uint, fill_digits, put_digits}
use takshaka.Dhrystone.Port.Strcpy.{strcpy, StringAt, strcpy-StringAt}
use takshaka.Dhrystone.Score.{score, Rates, score-Rates}
use takshaka.Dhrystone.Globals.{ident_1, ident_2, Globals}
use takshaka.Dhrystone.Main.{Locals}
use takshaka.Dhrystone.Port.{word, dhr_printf, print_from, directive, convert, digits}
use takshaka.Dhrystone.Port.Count.{dhr_printf-length}

abbrev zeros : Globals
zeros = record {
  records = λ x. record {
    ptr_comp = none;
    discr = ident_1;
    enum_comp = ident_1;
    int_comp = 0;
    str_comp = [];
  };
  ptr_glob = none;
  bool_glob = 0;
  ch_1_glob = 0;
  ch_2_glob = 0;
  int_glob = 0;
  arr_1_glob = λ i. 0;
  arr_2_glob = λ i j. 0;
}

abbrev locals : Locals
locals = record { globals = zeros; int_1_loc = 0; int_2_loc = 0; int_3_loc = 0; enum_loc = ident_2 }

-- The format `%d.%03d` and its NUL.
abbrev format : List ℕ
format = b'%' ∷ b'd' ∷ b'.' ∷ b'%' ∷ b'0' ∷ b'3' ∷ b'd' ∷ 0 ∷ []

format_runs : dhr_printf format (word 12 ∷ word 7 ∷ []) ≡ some (codes "12.007", 6)
unfolding dhr_printf print_from directive convert digits
format_runs = refl

dhr_printf-length_example : 6 ≡ length (codes "12.007")
dhr_printf-length_example =
    dhr_printf-length format (word 12 ∷ word 7 ∷ []) (codes "12.007") 6 format_runs

score-Rates_example : Rates 500000 170000000 (score 500000 170000000)
score-Rates_example =
    score-Rates 500000 170000000 (omega arith) (omega arith) (omega arith) (omega arith)
      (omega arith)

-- The number 123 is printed as an unset byte, and its first two digits.
print_uint_runs : print_uint 123 10 (λ x. 0x5a) ≡ 0x5a ∷ b'1' ∷ b'2' ∷ []
unfolding print_uint fill_digits put_digits
print_uint_runs = refl

-- Three bytes at 10, with their NUL.
abbrev memory : Memory
memory x = if x == 13 then 0 else 65

memory-IsString : IsString memory 10 3
memory-IsString = record { bytes = λ i less. ground (arith, less); nul = refl }

strcpy-StringAt_example : StringAt memory 20 10 3 (strcpy 4 memory 20 10)
strcpy-StringAt_example =
    strcpy-StringAt 4 memory 20 10 3 memory-IsString (inr (omega arith)) (omega arith)
