-- ===== src/Dhrystone/Main.antt =====
-- `main` of dhrystone/src/dhry_1.c without its printing.
pub mod Values
use takshaka.Base.{
  ℕ, zero, suc, ◌+◌, ◌-◌, ◌*◌, ◌/◌, ◌%◌, ◌^◌, ◌==◌, leb, ltb, Bool, true, false, if◌then◌else◌,
  Option, none, some, ◌>>=◌, List, codes,
}
use takshaka.Dhrystone.Globals.{
  Enumeration, ident_1, ident_2, ident_3, RecType, Globals, add, subtract, less, same_ident,
}
use takshaka.Dhrystone.Helpers.{proc_6, proc_7, proc_8, func_1, func_2, put_2}
use takshaka.Dhrystone.Procedures.{proc_1, proc_2, proc_4, proc_5}

-- The variables of `main` that its loop changes.
pub record Locals : Type 0 where
  pub globals : Globals
  pub int_1_loc : ℕ
  pub int_2_loc : ℕ
  pub int_3_loc : ℕ
  pub enum_loc : Enumeration

abbrev pub str_1 : List ℕ
str_1 = codes "DHRYSTONE PROGRAM, 1'ST STRING"

abbrev pub str_2 : List ℕ
str_2 = codes "DHRYSTONE PROGRAM, 2'ND STRING"

-- Before the first run; `g` is what stands in the globals, and of `Ptr_glob->Ptr_Comp` on they are set.
unfoldable pub initialised : Globals → Globals
initialised g = record g {
  records = λ x.
      if x == 0
      then record {
        ptr_comp = some 1;
        discr = ident_1;
        enum_comp = ident_3;
        int_comp = 40;
        str_comp = codes "DHRYSTONE PROGRAM, SOME STRING";
      }
      else g.records x;
  ptr_glob = some 0;
  arr_2_glob = put_2 g.arr_2_glob 8 7 10;
}

-- `while (Int_1_Loc < Int_2_Loc)`: `Int_1_Loc` and `Int_3_Loc` behind it.
unfoldable pub count_loop : (fuel int_1 int_2 int_3 : ℕ) → Option (ℕ × ℕ)
count_loop zero int_1 int_2 int_3 = none
count_loop (suc fuel) int_1 int_2 int_3 = elim (less int_1 int_2) [
  | true ↦ count_loop fuel (add int_1 1) int_2 (proc_7 int_1 int_2)
  | false ↦ some (int_1, int_3)
]

-- `for (Ch_Index = 'A'; Ch_Index <= Ch_2_glob; ++Ch_Index)`
unfoldable pub letter_loop :
    (fuel ch_index : ℕ) → Enumeration → Globals → Option (Enumeration × Globals)
letter_loop zero ch_index enum_loc g = none
letter_loop (suc fuel) ch_index enum_loc g = elim (leb ch_index g.ch_2_glob) [
  | true ↦
      let called = func_1 g ch_index b'C' in
      letter_loop fuel (ch_index + 1)
        (if same_ident enum_loc called.0 then proc_6 called.1.int_glob ident_1 else enum_loc)
        called.1
  | false ↦ some (enum_loc, g)
]

-- The quotient of two non-negative `int`s.
abbrev pub quotient : ℕ → ℕ → ℕ
quotient a b = a / b

-- One run. `fuel` bounds the rounds of each of its loops; `unset` is what stands in the variable that
-- `Proc_2` does not initialise.
unfoldable pub run : (fuel : ℕ) → Enumeration → Locals → Option Locals
run fuel unset s = do
  let g1 : Globals = proc_4 (proc_5 s.globals)
  (is_true, g2) ← func_2 fuel g1 str_1 str_2
  let g3 : Globals = record g2 { bool_glob = if is_true then 0 else 1 }
  (int_1, int_3) ← count_loop fuel 2 3 s.int_3_loc
  g4 ← proc_8 g3 int_1 int_3
  glob ← g4.ptr_glob
  g5 ← proc_1 g4 glob
  (enum_loc, g6) ← letter_loop fuel b'A' ident_2 g5
  let int_3' = 3 * int_1 % 2 ^ 32
  let int_2' = quotient int_3' int_1
  let int_2 = subtract (7 * subtract int_3' int_2' % 2 ^ 32) int_1
  int_1' ← proc_2 fuel g6 int_1 unset
  some (record {
    globals = g6;
    int_1_loc = int_1';
    int_2_loc = int_2;
    int_3_loc = int_3';
    enum_loc = enum_loc;
  })

-- `for (Run_Index = 1; Run_Index <= Number_Of_Runs; ++Run_Index)`, with the runs left.
unfoldable pub runs : (fuel : ℕ) → Enumeration → (number_of_runs : ℕ) → Locals → Option Locals
runs fuel unset zero s = some s
runs fuel unset (suc n) s = run fuel unset s >>= runs fuel unset n
