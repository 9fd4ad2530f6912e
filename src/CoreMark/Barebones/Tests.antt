-- ===== src/CoreMark/Barebones/Tests.antt =====
-- The formatted printing of the port template at concrete formats.
use Prim.Native.String.{String}
use Prim.Native.Nat.{◌-◌, ◌^◌}
use takshaka.Base.{
  ℕ, ◌+◌, ◌≡◌, refl, true, false, Option, none, some, ◌>>=◌, length, List, [], ◌∷◌, ◌++◌, codes,
  arith,
}
use takshaka.CoreMark.Barebones.{
  Flags, fill_tmp, sign_text, magnitude, prefix, numeral, number, strnlen,
}
use takshaka.CoreMark.Barebones.Address.{in_field, eaddr_loop, eaddr, octet, iaddr_loop, iaddr}
use takshaka.CoreMark.Barebones.Numeral.{IsNumeral}
use takshaka.CoreMark.Barebones.Letters.{InCase}
use takshaka.CoreMark.Barebones.Layout.{zeros, body}
use takshaka.CoreMark.Barebones.Number.{
  IsMagnitude, sign_of, prefix_of, Formatted, number-Formatted,
}
use takshaka.CoreMark.Barebones.Directive.{minus, plus_sign, Directive, IsDirective, proceed}
use takshaka.CoreMark.Barebones.Directive.Reading.{format_from-directive}
use takshaka.CoreMark.Barebones.Directive.Integers.{decimal, flags_for, ee_vsprintf-integer}
use takshaka.CoreMark.Barebones.Vsprintf.{
  no_flags, in_text, word, pointer, add_digit, put_string, at_letter, at_qualifier, at_dot,
  at_width, at_flag, read_byte, format_from, ee_vsprintf, send_loop, ee_printf, Argument,
}

prints : String → List Argument → Option (List ℕ)
unfolding ee_printf ee_vsprintf send_loop format_from read_byte at_flag at_width at_dot at_qualifier
    at_letter put_string add_digit number numeral prefix magnitude sign_text fill_tmp strnlen
    in_field eaddr_loop eaddr octet iaddr_loop iaddr
prints fmt args = ee_printf (codes fmt ++ 0 ∷ []) args

decimals :
    prints "[%5d|%-5d|%05d|%+d|% d]" (word 42 ∷ word 42 ∷ word (2 ^ 32 - 42) ∷ word 7 ∷ word 7 ∷ [])
    ≡ some (codes "[   42|42   |-0042|+7| 7]")
unfolding prints
decimals = refl

hexadecimals :
    prints "0x%04x %#X %#o %.4u %p" (word 0xe7 ∷ word 0xbeef ∷ word 8 ∷ word 12 ∷ word 0x1000 ∷ [])
    ≡ some (codes "0x00e7 0xBEEF 010 0012 00001000")
unfolding prints
hexadecimals = refl

texts :
    prints "%s|%.2s|%5s|%-5s|%c|%s|100%%" (
      pointer (some (codes "abc" ++ 0 ∷ []))
      ∷ pointer (some (codes "abc" ++ 0 ∷ []))
      ∷ pointer (some (codes "abc" ++ 0 ∷ []))
      ∷ pointer (some (codes "abc" ++ 0 ∷ []))
      ∷ word b'x'
      ∷ pointer none
      ∷ [])
    ≡ some (codes "abc|ab|  abc|abc  |x|<NULL>|100%")
unfolding prints
texts = refl

addresses :
    prints "%la %a %*d %z %" (
      pointer (some (0 ∷ 27 ∷ 255 ∷ 16 ∷ 1 ∷ 2 ∷ []))
      ∷ pointer (some (192 ∷ 168 ∷ 0 ∷ 17 ∷ []))
      ∷ word 4
      ∷ word 5
      ∷ [])
    ≡ some (codes "00:1b:ff:10:01:02 192.168.0.17    5 %z %")
unfolding prints
addresses = refl

-- "%-+6d"
abbrev six_wide : Directive
six_wide = record {
  flags = minus ∷ plus_sign ∷ [];
  width = b'6' ∷ [];
  precision = none;
  qualifier = none;
  letter = b'd';
}

six_wide-IsDirective : IsDirective six_wide
six_wide-IsDirective = record {
  width_fits = (refl, omega arith, tt);
  width_first = refl;
  precision_fits = tt;
  qualifier_is = tt;
  letter_is = record {
    not_minus = refl;
    not_plus = refl;
    not_blank = refl;
    not_hash = refl;
    not_digit = refl;
    not_star = refl;
    not_dot = refl;
    not_qualifier = refl;
  };
}

format_from-directive_example : format_from (codes "%-+6d!" ++ 0 ∷ []) in_text (word 42 ∷ []) ≡ (
    at_letter (record no_flags { left = true; plus = true }) (some 6) none 0 b'd' (word 42 ∷ [])
    >>= proceed (codes "!" ++ 0 ∷ []))
format_from-directive_example =
    format_from-directive six_wide (codes "!" ++ 0 ∷ []) (word 42 ∷ []) six_wide-IsDirective

abbrev with_sign : Flags → Flags
with_sign f = record f { sign = true }

ee_vsprintf-integer_example :
    (n : ℕ) × (text : List ℕ) × IsMagnitude true 42 n
    × IsNumeral 10 n text
    × InCase false text
    × (ee_vsprintf (codes "%-+6d" ++ 0 ∷ []) (word 42 ∷ [])
        ≡ some (
            in_field 6 (flags_for with_sign six_wide) (
              body
                (sign_of (flags_for with_sign six_wide) 42)
                (prefix_of (flags_for with_sign six_wide) 10)
                (zeros false true 6 0
                  (length (sign_of (flags_for with_sign six_wide) 42)
                    + length (prefix_of (flags_for with_sign six_wide) 10))
                  (length text))
                text)))
ee_vsprintf-integer_example =
    ee_vsprintf-integer six_wide 10 with_sign 42 six_wide-IsDirective (decimal refl refl refl)
      (omega arith)

number-Formatted_example :
    Formatted 0xe7 16 6 4 (record no_flags { zeropad = true; hex_prep = true })
number-Formatted_example =
    number-Formatted 0xe7 16 6 4 (record no_flags { zeropad = true; hex_prep = true }) (omega arith)
      (omega arith) (omega arith)
