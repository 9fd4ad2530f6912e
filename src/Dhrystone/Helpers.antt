-- ===== src/Dhrystone/Helpers.antt =====
-- The procedures and functions of dhrystone/src/dhry_2.c.
use takshaka.Base.{
  ℕ, zero, suc, ◌+◌, ◌-◌, ◌==◌, ltb, Bool, true, false, not, if◌then◌else◌, Option, none, some,
  ◌>>=◌, List, [], ◌∷◌, get_or, ◌&&◌,
}
use takshaka.Dhrystone.Globals.{
  Enumeration, ident_1, ident_2, ident_3, ident_4, ident_5, Globals, add, less, is_ident_1,
}

unfoldable pub func_3 : Enumeration → Bool
func_3 ident_3 = true
func_3 _ = false

-- The `switch` of `Proc_6`, with the value that the guard before it has left.
abbrev pub switch_6 : (int_glob : ℕ) → Enumeration → Enumeration → Enumeration
switch_6 int_glob ident_1 before = ident_1
switch_6 int_glob ident_2 before = if less 100 int_glob then ident_1 else ident_4
switch_6 int_glob ident_3 before = ident_2
switch_6 int_glob ident_4 before = before
switch_6 int_glob ident_5 before = ident_3

-- What is stored through `Enum_Ref_Par`.
unfoldable pub proc_6 : (int_glob : ℕ) → Enumeration → Enumeration
proc_6 int_glob enum_val_par =
    switch_6 int_glob enum_val_par (if not (func_3 enum_val_par) then ident_4 else enum_val_par)

-- What is stored through `Int_Par_Ref`.
unfoldable pub proc_7 : ℕ → ℕ → ℕ
proc_7 int_1_par_val int_2_par_val = add int_2_par_val (add int_1_par_val 2)

abbrev pub put : (ℕ → ℕ) → ℕ → ℕ → ℕ → ℕ
put a i v x = if x == i then v else a x

abbrev pub put_2 : (ℕ → ℕ → ℕ) → ℕ → ℕ → ℕ → ℕ → ℕ → ℕ
put_2 a i j v x = if x == i then put (a i) j v else a x

-- The stores must stay inside the arrays, which `none` says they do not.
unfoldable pub proc_8 : Globals → (int_1_par_val int_2_par_val : ℕ) → Option Globals
proc_8 g int_1_par_val int_2_par_val =
    let loc = add int_1_par_val 5 in
    if ltb loc 20 && ltb 0 loc
    then (let a1 = put g.arr_1_glob loc int_2_par_val in
        let a2 = put a1 (loc + 1) (a1 loc) in
        let a3 = put a2 (loc + 30) loc in
        let b1 = put_2 g.arr_2_glob loc loc loc in
        let b2 = put_2 b1 loc (loc + 1) loc in
        let b3 = put_2 b2 loc (loc - 1) (add (b2 loc (loc - 1)) 1) in
        let b4 = put_2 b3 (loc + 20) loc (a3 loc) in
        some (record g { arr_1_glob = a3; arr_2_glob = b4; int_glob = 5 }))
    else none

unfoldable pub func_1 : Globals → (ch_1_par_val ch_2_par_val : ℕ) → Enumeration × Globals
func_1 g ch_1_par_val ch_2_par_val =
    if ch_1_par_val == ch_2_par_val
    then (ident_2, record g { ch_1_glob = ch_1_par_val })
    else (ident_1, g)

-- `strcmp(a, b) > 0`, of two strings up to their NUL.
abbrev pub greater : List ℕ → List ℕ → Bool
greater [] b = false
greater (x ∷ a) [] = true
greater (x ∷ a) (y ∷ b) = if x == y then greater a b else ltb y x

-- The loop `while (Int_Loc <= 2)` of `Func_2`: `Int_Loc` and the globals behind it. Out of fuel is
-- `none`. `Ch_Loc` is the letter `A` behind the loop.
unfoldable pub func_2_loop :
    (fuel : ℕ) → Globals → (str_1 str_2 : List ℕ) → (int_loc : ℕ) → Option (ℕ × Globals)
func_2_loop zero g str_1 str_2 int_loc = none
func_2_loop (suc fuel) g str_1 str_2 int_loc = elim (less 2 int_loc) [
  | true ↦ some (int_loc, g)
  | false ↦
      let called = func_1 g (get_or str_1 int_loc 0) (get_or str_2 (int_loc + 1) 0) in
      func_2_loop fuel called.1 str_1 str_2 (if is_ident_1 called.0 then add int_loc 1 else int_loc)
]

-- With `Ch_Loc` the letter `A`, the two tests of it fail.
unfoldable pub func_2 :
    (fuel : ℕ) → Globals → (str_1_par_ref str_2_par_ref : List ℕ) → Option (Bool × Globals)
func_2 fuel g str_1_par_ref str_2_par_ref = do
  (int_loc, g') ← func_2_loop fuel g str_1_par_ref str_2_par_ref 2
  some (
      if greater str_1_par_ref str_2_par_ref
      then (true, record g' { int_glob = add int_loc 7 })
      else (false, g'))
