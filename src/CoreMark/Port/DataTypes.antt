-- ===== src/CoreMark/Port/DataTypes.antt =====
-- What `check_data_types` of coremark/src/core_util.c prints.
use takshaka.Base.{ℕ, ◌==◌, ltb, if◌then◌else◌, Option, some, List, [], ◌∷◌, codes}
use takshaka.CoreMark.Port.{Sizes, check_data_types}
use takshaka.CoreMark.Port.Printf.{say, in_order}

-- The message of one test, printed where the two sizes differ.
abbrev unless_equal : ℕ → ℕ → (message : List ℕ) → Option (List ℕ)
unless_equal a b message = if a == b then some [] else say message []

unfoldable pub data_type_messages : Sizes → Option (List ℕ)
data_type_messages s = in_order (
    unless_equal s.ee_u8 1 (codes "ERROR: ee_u8 is not an 8b datatype!\n")
    ∷ unless_equal s.ee_u16 2 (codes "ERROR: ee_u16 is not a 16b datatype!\n")
    ∷ unless_equal s.ee_s16 2 (codes "ERROR: ee_s16 is not a 16b datatype!\n")
    ∷ unless_equal s.ee_s32 4 (codes "ERROR: ee_s32 is not a 32b datatype!\n")
    ∷ unless_equal s.ee_u32 4 (codes "ERROR: ee_u32 is not a 32b datatype!\n")
    ∷ unless_equal s.ee_ptr_int s.pointer
        (codes "ERROR: ee_ptr_int is not a datatype that holds an int pointer!\n")
    ∷ (if ltb 0 (check_data_types s)
        then say (codes "ERROR: Please modify the datatypes in core_portme.h!\n") []
        else some [])
    ∷ [])
