-- ===== src/CoreMark/Port/Printf/Pieces.antt =====
-- A format of whole pieces, and what `ee_printf` does with it.
use takshaka.Base.{
  ℕ, ◌+◌, ◌-◌, ◌*◌, ◌≡◌, ◌≢◌, refl, ap, ◌∙◌, ◌==◌, Bool, true, false, Option, some, ◌>>=◌, List, [],
  ◌∷◌, ◌++◌, arith,
}
use takshaka.CoreMark.Port.{putc}
use takshaka.CoreMark.Port.Printf.{
  Argument, switch_letter, in_width, Printed, one_more, is_digit, print_from, ee_printf,
}

-- A byte of the text, or a conversion: a width in decimal digits, whether there is an `l`, and a letter.
pub data Piece : Type 0 where
  byte : ℕ → Piece
  conversion : (width : List ℕ) (lng : Bool) (letter : ℕ) → Piece

abbrev pub written : List Piece → List ℕ
written [] = 0 ∷ []
written (byte c ∷ ps) = c ∷ written ps
written (conversion width true letter ∷ ps) = b'%' ∷ (width ++ b'l' ∷ letter ∷ written ps)
written (conversion width false letter ∷ ps) = b'%' ∷ (width ++ letter ∷ written ps)

-- The number that digits stand for, behind those that stand for `before`.
abbrev pub number_from : (before : ℕ) → List ℕ → ℕ
number_from before [] = before
number_from before (d ∷ ds) = number_from (before * 10 + (d - b'0')) ds

-- Piece by piece: a byte is sent, and a conversion is that of its letter.
abbrev pub rendered : List Piece → List Argument → Option Printed
rendered [] args = some (record { out = []; n = 0; args = args })
rendered (byte c ∷ ps) args = one_more (putc c) (rendered ps args)
rendered (conversion width lng letter ∷ ps) args =
    switch_letter letter (number_from 0 width) lng args >>= λ r. one_more r.0 (rendered ps r.1)

abbrev pub Digits : List ℕ → Type 0
Digits [] = Unit
Digits (d ∷ ds) = (is_digit d ≡ true) × Digits ds

-- The text has no NUL and no `%`, a width has digits only, and a letter is no digit and, where there is
-- no `l` before it, no `l`.
abbrev pub Plain : List Piece → Type 0
Plain [] = Unit
Plain (byte c ∷ ps) = (c ≢ 0) × (c ≢ b'%') × Plain ps
Plain (conversion width true letter ∷ ps) = Digits width × Plain ps
Plain (conversion width false letter ∷ ps) =
    Digits width × (is_digit letter ≡ false) × (letter ≢ b'l') × Plain ps

over_width :
    (width : List ℕ) (before : ℕ) (fmt : List ℕ) (args : List Argument)
    → Digits width
    → print_from (width ++ fmt) (in_width before) args
      ≡ print_from fmt (in_width (number_from before width)) args
unfolding print_from
over_width [] before fmt args h = refl
over_width (d ∷ ds) before fmt args (digit, h) =
    rw (print_from, digit) (over_width ds (before * 10 + (d - b'0')) fmt args h)

-- On a format of whole pieces and its NUL, `ee_printf` is the rendering piece by piece, for all
-- arguments; `n` is the number of the pieces, not of the bytes that are sent.
pub ee_printf-rendered :
    (ps : List Piece) (args : List Argument)
    → Plain ps
    → ee_printf (written ps) args ≡ rendered ps args
unfolding ee_printf print_from
ee_printf-rendered [] args h = refl
ee_printf-rendered (byte c ∷ ps) args (not_nul, not_percent, h) =
    let nul : c == 0 ≡ false = ground (arith, not_nul) in
    let percent : c == b'%' ≡ false = ground (arith, not_percent) in
    rw (ee_printf, print_from, nul, percent) (ap (one_more (putc c)) (ee_printf-rendered ps args h))
ee_printf-rendered (conversion width true letter ∷ ps) args (digits, h) =
    over_width width 0 (b'l' ∷ letter ∷ written ps) args digits ∙ λ i.
    switch_letter letter (number_from 0 width) true args >>= λ r.
    one_more r.0 (ee_printf-rendered ps r.1 h i)
ee_printf-rendered (conversion width false letter ∷ ps) args (digits, no_digit, not_l, h) =
    let other : letter == b'l' ≡ false = ground (arith, not_l) in
    over_width width 0 (letter ∷ written ps) args digits
    ∙ rw (print_from, no_digit, other)
        (λ i. switch_letter letter (number_from 0 width) false args >>= λ r.
          one_more r.0 (ee_printf-rendered ps r.1 h i))
