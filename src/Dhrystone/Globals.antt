-- ===== src/Dhrystone/Globals.antt =====
-- The types of dhrystone/src/dhry.h and the globals of dhrystone/src/dhry_1.c. An `int` is its 32-bit
-- pattern. A record pointer is the number of one of the two records, and `none` is NULL; of the union
-- only the variant `var_1` is used.
use takshaka.Base.{ℕ, ◌+◌, ◌-◌, ◌%◌, ◌^◌, ◌==◌, ltb, Bool, true, false, if◌then◌else◌, Option, List}

pub data Enumeration : Type 0 where
  ident_1 : Enumeration
  ident_2 : Enumeration
  ident_3 : Enumeration
  ident_4 : Enumeration
  ident_5 : Enumeration

pub record RecType : Type 0 where
  pub ptr_comp : Option ℕ
  pub discr : Enumeration
  pub enum_comp : Enumeration
  pub int_comp : ℕ
  pub str_comp : List ℕ

-- `records` are Rec_glob_1 and Rec_glob_2, at 0 and 1, and `arr_2_glob` is row by row.
pub record Globals : Type 0 where
  pub records : ℕ → RecType
  pub ptr_glob : Option ℕ
  pub bool_glob : ℕ
  pub ch_1_glob : ℕ
  pub ch_2_glob : ℕ
  pub int_glob : ℕ
  pub arr_1_glob : ℕ → ℕ
  pub arr_2_glob : ℕ → ℕ → ℕ

abbrev pub put_record : Globals → ℕ → RecType → Globals
put_record g p r = record g { records = λ x. if x == p then r else g.records x }

abbrev pub add : ℕ → ℕ → ℕ
add a b = (a + b) % 2 ^ 32

abbrev pub subtract : ℕ → ℕ → ℕ
subtract a b = (a + (2 ^ 32 - b)) % 2 ^ 32

-- `a < b` of two `int`s.
abbrev pub less : ℕ → ℕ → Bool
less a b = ltb ((a + 2 ^ 31) % 2 ^ 32) ((b + 2 ^ 31) % 2 ^ 32)

abbrev pub is_ident_1 : Enumeration → Bool
is_ident_1 ident_1 = true
is_ident_1 _ = false

abbrev pub same_ident : Enumeration → Enumeration → Bool
same_ident ident_1 ident_1 = true
same_ident ident_2 ident_2 = true
same_ident ident_3 ident_3 = true
same_ident ident_4 ident_4 = true
same_ident ident_5 ident_5 = true
same_ident _ _ = false
