-- ===== src/CoreMark/Barebones/Directive.antt =====
-- The conversions that `ee_vsprintf` of coremark/src/barebones/ee_printf.c reads, and how they are
-- written.
pub mod Stages
pub mod Reading
pub mod Integers
use takshaka.Base.{
  ℕ, zero, suc, ◌+◌, ◌-◌, ◌*◌, ◌^◌, ◌<◌, ◌≤◌, ◌≡◌, ◌≢◌, refl, ap, ◌∙◌, ◌==◌, leb, ltb, Bool, true,
  false, ◌&&◌, ◌||◌, if◌then◌else◌, Option, none, some, ◌>>=◌, List, [], ◌∷◌, ◌++◌, arith,
}
use takshaka.CoreMark.Barebones.{Flags}
use takshaka.CoreMark.Barebones.Vsprintf.{
  Argument, no_flags, Place, in_text, in_flags, in_width, at_precision, in_precision,
  behind_qualifier, Read, go, done, ended, add_digit, at_letter, at_qualifier, at_dot, at_width,
  at_flag, read_byte, format_from, ee_vsprintf,
}

pub data Flag : Type 0 where
  minus : Flag
  plus_sign : Flag
  blank : Flag
  hash : Flag
  nought : Flag

abbrev pub flag_byte : Flag → ℕ
flag_byte minus = b'-'
flag_byte plus_sign = b'+'
flag_byte blank = b' '
flag_byte hash = b'#'
flag_byte nought = b'0'

abbrev pub without_flags : Flags
without_flags = record {
  zeropad = false;
  sign = false;
  plus = false;
  space = false;
  left = false;
  hex_prep = false;
  uppercase = false;
}

abbrev pub set_flag : Flag → Flags → Flags
set_flag minus f = record f { left = true }
set_flag plus_sign f = record f { plus = true }
set_flag blank f = record f { space = true }
set_flag hash f = record f { hex_prep = true }
set_flag nought f = record f { zeropad = true }

-- The parts of a conversion with no `*`: flags, the digits of a width, behind a point those of a precision, a
-- qualifier `l` or `L`, and a letter.
pub record Directive : Type 0 where
  pub flags : List Flag
  pub width : List ℕ
  pub precision : Option (List ℕ)
  pub qualifier : Option ℕ
  pub letter : ℕ

-- How a conversion is written, behind the `%`, with what follows it.
abbrev pub flags_before : List Flag → List ℕ → List ℕ
flags_before [] fmt = fmt
flags_before (f ∷ fs) fmt = flag_byte f ∷ flags_before fs fmt

abbrev pub letter_before : (qualifier : Option ℕ) (letter : ℕ) → List ℕ → List ℕ
letter_before none letter fmt = letter ∷ fmt
letter_before (some q) letter fmt = q ∷ letter ∷ fmt

abbrev pub precision_before : Option (List ℕ) → List ℕ → List ℕ
precision_before none fmt = fmt
precision_before (some ds) fmt = b'.' ∷ (ds ++ fmt)

abbrev pub written : Directive → List ℕ → List ℕ
written d fmt =
    b'%'
    ∷ flags_before d.flags
        (d.width ++ precision_before d.precision (letter_before d.qualifier d.letter fmt))

-- What the parts stand for.
abbrev pub flags_of : List Flag → Flags → Flags
flags_of [] f = f
flags_of (g ∷ gs) f = flags_of gs (set_flag g f)

abbrev pub number_from : (before : ℕ) → List ℕ → ℕ
number_from before [] = before
number_from before (d ∷ ds) = number_from (before * 10 + (d - b'0')) ds

-- No digits are -1 for a width, and 0 behind a point.
abbrev pub width_of : List ℕ → Option ℕ
width_of [] = none
width_of (d ∷ ds) = some (number_from 0 (d ∷ ds))

abbrev pub precision_of : Option (List ℕ) → Option ℕ
precision_of none = none
precision_of (some ds) = some (number_from 0 ds)

abbrev pub qualifier_of : Option ℕ → ℕ
qualifier_of none = 0
qualifier_of (some q) = q

-- The ten decimal digits.
abbrev pub is_figure : ℕ → Bool
is_figure c = leb b'0' c && leb c b'9'

-- Digits whose number an `int` holds, at every step of the sum.
abbrev pub Fits : (before : ℕ) → List ℕ → Type 0
Fits before [] = Unit
Fits before (d ∷ ds) =
    (is_figure d ≡ true) × (before * 10 + d < 2 ^ 31) × Fits (before * 10 + (d - b'0')) ds

abbrev pub FirstNotNought : List ℕ → Type 0
FirstNotNought [] = Unit
FirstNotNought (d ∷ ds) = (d == b'0') ≡ false

abbrev pub FitsIf : Option (List ℕ) → Type 0
FitsIf none = Unit
FitsIf (some ds) = Fits 0 ds

abbrev pub IsQualifier : Option ℕ → Type 0
IsQualifier none = Unit
IsQualifier (some q) = ((q == b'l') || (q == b'L')) ≡ true

-- The letter is none of the other parts' bytes.
pub record IsLetter (c : ℕ) : Type 0 where
  pub not_minus : (c == b'-') ≡ false
  pub not_plus : (c == b'+') ≡ false
  pub not_blank : (c == b' ') ≡ false
  pub not_hash : (c == b'#') ≡ false
  pub not_digit : is_figure c ≡ false
  pub not_star : (c == b'*') ≡ false
  pub not_dot : (c == b'.') ≡ false
  pub not_qualifier : ((c == b'l') || (c == b'L')) ≡ false

pub record IsDirective (d : Directive) : Type 0 where
  pub width_fits : Fits 0 d.width
  pub width_first : FirstNotNought d.width
  pub precision_fits : FitsIf d.precision
  pub qualifier_is : IsQualifier d.qualifier
  pub letter_is : IsLetter d.letter

-- What follows when a byte is read.
abbrev pub proceed : (fmt : List ℕ) → Read → Option (List ℕ)
proceed fmt r = elim r [
  | go place args ↦ format_from fmt place args
  | done out args ↦ (do rest ← format_from fmt in_text args; some (out ++ rest))
  | ended out args ↦ some out
]
