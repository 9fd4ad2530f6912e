-- ===== src/CoreMark/Port/Printf.antt =====
-- `ee_printf` of coremark/src/core_portme.c, by the bytes that it sends.
pub mod Pieces
mod Tests
use takshaka.Base.{
  ℕ, ◌+◌, ◌-◌, ◌*◌, ◌%◌, ◌^◌, ◌==◌, leb, Bool, true, false, if◌then◌else◌, Option, none, some,
  ◌>>=◌, ◌&&◌, ◌||◌, List, [], ◌∷◌, ◌++◌, codes,
}
use takshaka.CoreMark.Port.{Sizes, putc, print_uint, print_int, print_hex}

-- An argument: a word, or the bytes of the string that a pointer stands for.
pub data Argument : Type 0 where
  word : ℕ → Argument
  string : List ℕ → Argument

-- `_puts`
unfoldable pub puts : List ℕ → List ℕ
puts [] = []
puts (c ∷ s) = putc c ++ puts s

abbrev default_case : (letter : ℕ) (lng : Bool) → List ℕ
default_case letter lng = b'%' ∷ ((if lng then b'l' ∷ [] else []) ++ putc letter)

-- The conversions that take an argument, and the rest of the arguments.
unfoldable pub with_argument : (letter width : ℕ) → List Argument → Option (List ℕ × List Argument)
with_argument letter width [] = none
with_argument letter width (word v ∷ args) =
    if letter == b'c'
    then some (putc (v % 2 ^ 8), args)
    else if letter == b'd' || letter == b'i'
    then some (print_int v, args)
    else if letter == b'u'
    then some (print_uint v, args)
    else if letter == b's'
    then none
    else (do digits ← print_hex v width; some (digits, args))
with_argument letter width (string s ∷ args) = if letter == b's' then some (puts s, args) else none

abbrev takes_argument : ℕ → Bool
takes_argument c =
    c == b'c'
    || (c == b's' || (c == b'd' || (c == b'i' || (c == b'u' || (c == b'x' || c == b'X')))))

-- The `switch`: what is sent, and the arguments that are left. A `long` is as wide as an `int`.
unfoldable pub switch_letter :
    (letter width : ℕ) (lng : Bool) → List Argument → Option (List ℕ × List Argument)
switch_letter letter width lng args =
    if letter == b'%'
    then some (b'%' ∷ [], args)
    else if takes_argument letter
    then with_argument letter width args
    else some (default_case letter lng, args)

-- Where `ee_printf` stands in the format: in the text, in the width, or at the letter.
pub data Place : Type 0 where
  in_text : Place
  in_width : (width : ℕ) → Place
  at_letter : (width : ℕ) → Place

-- What is sent, `n`, and the arguments that are left.
pub record Printed : Type 0 where
  pub out : List ℕ
  pub n : ℕ
  pub args : List Argument

-- Adds one round of the loop, which sends `out`.
abbrev pub one_more : List ℕ → Option Printed → Option Printed
one_more out rest = do r ← rest; some (record { out = out ++ r.out; n = r.n + 1; args = r.args })

abbrev pub is_digit : ℕ → Bool
is_digit c = leb b'0' c && leb c b'9'

-- `fmt` is the memory from the pointer on; a read behind it is `none`. A NUL ends the format only in the
-- text: as the letter of a conversion it is sent, and the loop goes on behind it.
unfoldable pub print_from : (fmt : List ℕ) → Place → List Argument → Option Printed
print_from [] place args = none
print_from (c ∷ fmt) in_text args = elim (c == 0) [
  | true ↦ some (record { out = []; n = 0; args = args })
  | false ↦ elim (c == b'%') [
    | true ↦ print_from fmt (in_width 0) args
    | false ↦ one_more (putc c) (print_from fmt in_text args)
  ]
]
print_from (c ∷ fmt) (in_width width) args = elim (is_digit c) [
  | true ↦ print_from fmt (in_width (width * 10 + (c - b'0'))) args
  | false ↦ elim (c == b'l') [
    | true ↦ print_from fmt (at_letter width) args
    | false ↦ switch_letter c width false args >>= λ r. one_more r.0 (print_from fmt in_text r.1)
  ]
]
print_from (c ∷ fmt) (at_letter width) args =
    switch_letter c width true args >>= λ r. one_more r.0 (print_from fmt in_text r.1)

unfoldable pub ee_printf : (fmt : List ℕ) → List Argument → Option Printed
ee_printf fmt args = print_from fmt in_text args

-- `core_portable`
pub record CorePortable : Type 0 where
  pub portable_id : ℕ

-- What is printed where two sizes differ.
abbrev error_where : (a b : ℕ) → (message : List ℕ) → Option Printed
error_where a b message =
    if a == b
    then some (record { out = []; n = 0; args = [] })
    else ee_printf (message ++ 0 ∷ []) []

-- The bytes that are sent, and the new contents of `*p`.
unfoldable pub portable_init : Sizes → Option (List ℕ × CorePortable)
portable_init s = do
  pointers ← error_where s.ee_ptr_int s.pointer (codes "ERROR: ee_ptr_int size mismatch!\n")
  words ← error_where s.ee_u32 4 (codes "ERROR: ee_u32 is not 32-bit!\n")
  some (pointers.out ++ words.out, record { portable_id = 1 })

unfoldable pub portable_fini : CorePortable
portable_fini = record { portable_id = 0 }

-- One call with a format that is followed by its NUL, by the bytes that it sends.
unfoldable pub say : (text : List ℕ) → List Argument → Option (List ℕ)
say text args = do p ← ee_printf (text ++ 0 ∷ []) args; some p.out

-- Calls one behind the other.
abbrev pub in_order : List (Option (List ℕ)) → Option (List ℕ)
in_order [] = some []
in_order (call ∷ calls) = do out ← call; rest ← in_order calls; some (out ++ rest)
