-- ===== src/CoreMark/Barebones/Directive/Reading.antt =====
-- A whole conversion.
use takshaka.Base.{
  ℕ, ◌+◌, ◌-◌, ◌*◌, ◌^◌, ◌<◌, ◌≡◌, refl, ◌∙◌, ◌==◌, true, false, Option, none, some, ◌>>=◌, List,
  [], ◌∷◌, ◌++◌, arith,
}
use takshaka.CoreMark.Barebones.{Flags}
use takshaka.CoreMark.Barebones.Vsprintf.{
  Argument, no_flags, Place, in_text, in_flags, in_width, at_precision, in_precision, at_letter,
  at_dot, at_width, at_flag, read_byte, format_from,
}
use takshaka.CoreMark.Barebones.Directive.{
  without_flags, is_figure, Flag, Directive, flags_before, letter_before, precision_before, written,
  flags_of, number_from, width_of, precision_of, qualifier_of, Fits, FirstNotNought, FitsIf,
  IsQualifier, IsLetter, IsDirective, proceed,
}
use takshaka.CoreMark.Barebones.Directive.Stages.{
  over_flags, over_width, over_precision, Reads, over_letter, add_digit_fits, in_flags-Reads,
  in_width-Reads, in_precision-Reads, at_precision-Reads,
}

-- From here a point starts a precision.
abbrev ReadsPoint : Place → Flags → (width : Option ℕ) → Type 0
ReadsPoint place f w =
    (fmt : List ℕ) (args : List Argument)
    → format_from (b'.' ∷ fmt) place args ≡ format_from fmt (at_precision f w) args

over_rest :
    (place : Place) (f : Flags) (w : Option ℕ) (p : Option (List ℕ)) (q : Option ℕ) (c : ℕ)
    (fmt : List ℕ) (args : List Argument)
    → Reads place f w none
    → ReadsPoint place f w
    → FitsIf p
    → IsQualifier q
    → IsLetter c
    → format_from (precision_before p (letter_before q c fmt)) place args
      ≡ (at_letter f w (precision_of p) (qualifier_of q) c args >>= proceed fmt)
unfolding format_from read_byte
over_rest place f w none q c fmt args reads point fits is l =
    over_letter place f w none q c fmt args reads is l
over_rest place f w (some []) q c fmt args reads point fits is l =
    point (letter_before q c fmt) args
    ∙ over_letter (at_precision f w) f w (some 0) q c fmt args (at_precision-Reads f w) is l
over_rest place f w (some (d ∷ ds)) q c fmt args reads point (digit, small, fits) is l =
    point (d ∷ (ds ++ letter_before q c fmt)) args
    ∙ rw (format_from, read_byte, digit, add_digit_fits 0 d digit small)
        (over_precision ds (0 * 10 + (d - b'0')) f w (letter_before q c fmt) args fits)
    ∙ over_letter (in_precision f w (number_from 0 (d ∷ ds))) f w (some (number_from 0 (d ∷ ds))) q
        c fmt args (in_precision-Reads f w (number_from 0 (d ∷ ds))) is l

flags_point : (f : Flags) → ReadsPoint (in_flags f) f none
unfolding format_from read_byte at_flag at_width at_dot
flags_point f fmt args = refl

width_point : (f : Flags) (i : ℕ) → ReadsPoint (in_width f i) f (some i)
unfolding format_from read_byte at_dot
width_point f i fmt args = refl

first_digit :
    (d : ℕ) (f : Flags) (fmt : List ℕ) (args : List Argument)
    → is_figure d ≡ true
    → (d == b'0') ≡ false
    → d < 2 ^ 31
    → format_from (d ∷ fmt) (in_flags f) args
      ≡ format_from fmt (in_width f (0 * 10 + (d - b'0'))) args
unfolding format_from read_byte at_flag at_width
first_digit d f fmt args digit not_nought small =
    let not_minus : (d == b'-') ≡ false = ground arith in
    let not_plus : (d == b'+') ≡ false = ground arith in
    let not_blank : (d == b' ') ≡ false = ground arith in
    let not_hash : (d == b'#') ≡ false = ground arith in
    rw
      (
        format_from,
        read_byte,
        at_flag,
        not_minus,
        not_plus,
        not_blank,
        not_hash,
        not_nought,
        at_width,
        digit,
        add_digit_fits 0 d digit (omega arith),
      )
      refl

start :
    (gs : List Flag) (ws : List ℕ) (p : Option (List ℕ)) (q : Option ℕ) (c : ℕ) (fmt : List ℕ)
    (args : List Argument)
    → Fits 0 ws
    → FirstNotNought ws
    → FitsIf p
    → IsQualifier q
    → IsLetter c
    → format_from
        (b'%' ∷ flags_before gs (ws ++ precision_before p (letter_before q c fmt)))
        in_text
        args
      ≡ (at_letter (flags_of gs no_flags) (width_of ws) (precision_of p) (qualifier_of q) c args
          >>= proceed fmt)
unfolding format_from read_byte
start gs [] p q c fmt args fits first fits' is l =
    let f = flags_of gs no_flags in
    over_flags gs no_flags (precision_before p (letter_before q c fmt)) args
    ∙ over_rest (in_flags f) f none p q c fmt args (in_flags-Reads f) (flags_point f) fits' is l
start gs (d ∷ ds) p q c fmt args (digit, small, fits) first fits' is l =
    let f = flags_of gs no_flags in
    let rest = precision_before p (letter_before q c fmt) in
    let w = number_from 0 (d ∷ ds) in
    over_flags gs no_flags (d ∷ (ds ++ rest)) args
    ∙ first_digit d f (ds ++ rest) args digit first (omega arith)
    ∙ over_width ds (0 * 10 + (d - b'0')) f rest args fits
    ∙ over_rest (in_width f w) f (some w) p q c fmt args (in_width-Reads f w) (width_point f w)
        fits' is l

-- A conversion without `*` is read as a whole: its letter acts with the flags, the width, the precision
-- and the qualifier that are written before it, and the rest of the format follows.
pub format_from-directive :
    (d : Directive) (fmt : List ℕ) (args : List Argument)
    → IsDirective d
    → format_from (written d fmt) in_text args ≡ (
        at_letter
          (flags_of d.flags without_flags)
          (width_of d.width)
          (precision_of d.precision)
          (qualifier_of d.qualifier)
          d.letter
          args
        >>= proceed fmt)
format_from-directive d fmt args is =
    start d.flags d.width d.precision d.qualifier d.letter fmt args is.width_fits is.width_first
      is.precision_fits is.qualifier_is is.letter_is
