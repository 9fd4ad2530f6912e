-- ===== src/Dhrystone/Main/Values.antt =====
-- The final values of the benchmark's variables.
use takshaka.Base.{ℕ, ◌+◌, ◌%◌, ◌^◌, ◌≡◌, ◌==◌, if◌then◌else◌, Option, some, List}
use takshaka.Dhrystone.Globals.{ident_1, ident_3, RecType, Globals, add}
use takshaka.Dhrystone.Main.{Locals}

-- Rec_glob_1 is the first record, and points to the second.
abbrev first_record : ℕ → List ℕ → RecType
first_record i t = record {
  ptr_comp = some 1;
  discr = ident_1;
  enum_comp = ident_3;
  int_comp = i;
  str_comp = t;
}

abbrev loaded : (i : ℕ) (t : List ℕ) (rest : ℕ → RecType) → Globals → Globals
loaded i t rest g = record g {
  records = λ x. if x == 0 then first_record i t else rest x;
  ptr_glob = some 0;
}

-- What `main` prints behind its loop, but for the strings.
pub record Values (before : Globals) (s : Locals) : Type 0 where
  pub int_glob : s.globals.int_glob ≡ 5
  pub bool_glob : s.globals.bool_glob ≡ 1
  pub ch_1_glob : s.globals.ch_1_glob ≡ b'A'
  pub ch_2_glob : s.globals.ch_2_glob ≡ b'B'
  pub arr_1_glob : s.globals.arr_1_glob 8 ≡ 7
  pub arr_2_glob : s.globals.arr_2_glob 8 7 ≡ add (before.arr_2_glob 8 7) 1
  pub first_int : (s.globals.records 0).int_comp ≡ 17
  pub second_int : (s.globals.records 1).int_comp ≡ 18
  pub int_1_loc : s.int_1_loc ≡ 7
  pub int_2_loc : s.int_2_loc ≡ 39
  pub int_3_loc : s.int_3_loc ≡ 9

record Ran (before : Globals) (t : List ℕ) (r : Option Locals) : Type 0 where
  after : Locals
  runs_to : r ≡ some after
  values : Values before after
  first : after.globals.records 0 ≡ first_record 17 t
  pointer : after.globals.ptr_glob ≡ some 0

-- What stands in the variables after the runs, with the count of them in Arr_2_glob[8][7].
pub record Finished (count : ℕ) (start : ℕ) (r : Option Locals) : Type 0 where
  pub before : Globals
  pub after : Locals
  pub runs_to : r ≡ some after
  pub values : Values before after
  pub counted : after.globals.arr_2_glob 8 7 ≡ (start + count) % 2 ^ 32
