-- ===== src/Dhrystone/Procedures.antt =====
-- The procedures of dhrystone/src/dhry_1.c. A NULL dereference is `none`.
use takshaka.Base.{
  ℕ, zero, suc, ◌==◌, true, false, if◌then◌else◌, Option, none, some, ◌>>=◌, bit_or,
}
use takshaka.Dhrystone.Globals.{Enumeration, Globals, put_record, add, subtract, is_ident_1}
use takshaka.Dhrystone.Helpers.{proc_6, proc_7}

-- `Ptr_Ref_Par` points to the `Ptr_Comp` of the record `of`.
unfoldable pub proc_3 : Globals → (of : ℕ) → Option Globals
proc_3 g of = do
  glob ← g.ptr_glob
  let g1 : Globals =
      put_record g of (record (g.records of) { ptr_comp = (g.records glob).ptr_comp })
  some (put_record g1 glob (record (g1.records glob) { int_comp = proc_7 10 g1.int_glob }))

unfoldable pub proc_1 : Globals → (ptr_val_par : ℕ) → Option Globals
proc_1 g par = do
  next ← (g.records par).ptr_comp
  glob ← g.ptr_glob
  let g1 : Globals = put_record g next (g.records glob)
  let g2 : Globals = put_record g1 par (record (g1.records par) { int_comp = 5 })
  let g3 : Globals =
      put_record g2 next (record (g2.records next) { int_comp = (g2.records par).int_comp })
  let g4 : Globals =
      put_record g3 next (record (g3.records next) { ptr_comp = (g3.records par).ptr_comp })
  g5 ← proc_3 g4 next
  elim (is_ident_1 (g5.records next).discr) [
    | true ↦ do
      let g6 : Globals = put_record g5 next (record (g5.records next) { int_comp = 6 })
      let g7 : Globals =
          put_record g6 next
            (record (g6.records next) { enum_comp = proc_6 g6.int_glob (g6.records par).enum_comp })
      after ← g7.ptr_glob
      let g8 : Globals =
          put_record g7 next (record (g7.records next) { ptr_comp = (g7.records after).ptr_comp })
      some (
          put_record g8 next
            (record (g8.records next) { int_comp = proc_7 (g8.records next).int_comp 10 }))
    | false ↦ do target ← (g5.records par).ptr_comp; some (put_record g5 par (g5.records target))
  ]

-- The loop of `Proc_2`: what is stored through `Int_Par_Ref`. Out of fuel is `none`; `enum_loc` is not
-- initialised in the source, so its first value is a parameter.
unfoldable pub proc_2_loop : (fuel : ℕ) → Globals → (int_loc par : ℕ) → Enumeration → Option ℕ
proc_2_loop zero g int_loc par enum_loc = none
proc_2_loop (suc fuel) g int_loc par enum_loc = elim (g.ch_1_glob == b'A') [
  | true ↦ some (subtract (subtract int_loc 1) g.int_glob)
  | false ↦ elim (is_ident_1 enum_loc) [
    | true ↦ some par
    | false ↦ proc_2_loop fuel g int_loc par enum_loc
  ]
]

unfoldable pub proc_2 : (fuel : ℕ) → Globals → (par : ℕ) → Enumeration → Option ℕ
proc_2 fuel g par enum_loc = proc_2_loop fuel g (add par 10) par enum_loc

unfoldable pub proc_4 : Globals → Globals
proc_4 g = record g {
  bool_glob = bit_or (if g.ch_1_glob == b'A' then 1 else 0) g.bool_glob;
  ch_2_glob = b'B';
}

unfoldable pub proc_5 : Globals → Globals
proc_5 g = record g { ch_1_glob = b'A'; bool_glob = 0 }
