-- ===== src/CoreMark/Port/Printf/Tests.antt =====
-- `ee_printf` at a format of the report of CoreMark.
use takshaka.Base.{◌≡◌, refl, true, false, some, List, [], ◌∷◌, ◌++◌, codes, arith}
use takshaka.CoreMark.Port.{print_uint, fill_buffer, print_hex, fill_hex}
use takshaka.CoreMark.Port.Printf.{word, switch_letter, with_argument, ee_printf, print_from}
use takshaka.CoreMark.Port.Printf.Pieces.{Piece, byte, conversion, rendered, ee_printf-rendered}

-- "%lu 0x%04x\n"
abbrev line : List Piece
line =
    conversion [] true b'u'
    ∷ byte b' '
    ∷ byte b'0'
    ∷ byte b'x'
    ∷ conversion (b'0' ∷ b'4' ∷ []) false b'x'
    ∷ byte b'\n'
    ∷ []

ee_printf_runs :
    ee_printf (codes "%lu 0x%04x\n" ++ 0 ∷ []) (word 12 ∷ word 0xe7 ∷ [])
    ≡ some (record { out = codes "12 0x00e7\r\n"; n = 6; args = [] })
unfolding ee_printf print_from switch_letter with_argument print_uint fill_buffer print_hex fill_hex
ee_printf_runs = refl

ee_printf-rendered_example :
    ee_printf (codes "%lu 0x%04x\n" ++ 0 ∷ []) (word 12 ∷ word 0xe7 ∷ [])
    ≡ rendered line (word 12 ∷ word 0xe7 ∷ [])
ee_printf-rendered_example = ee_printf-rendered line (word 12 ∷ word 0xe7 ∷ []) (ground arith)
