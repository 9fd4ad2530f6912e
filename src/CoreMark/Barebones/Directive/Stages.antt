-- ===== src/CoreMark/Barebones/Directive/Stages.antt =====
-- The parts of a conversion, one at a time.
use takshaka.Base.{
  ℕ, ◌+◌, ◌-◌, ◌*◌, ◌^◌, ◌<◌, ◌≤◌, ◌≡◌, refl, ap, ◌∙◌, ◌==◌, ltb, true, false, ◌||◌, Option, none,
  some, ◌>>=◌, List, [], ◌∷◌, ◌++◌, arith,
}
use takshaka.CoreMark.Barebones.{Flags}
use takshaka.CoreMark.Barebones.Vsprintf.{
  Argument, Place, in_flags, in_width, at_precision, in_precision, behind_qualifier, add_digit,
  at_letter, at_qualifier, at_dot, at_width, at_flag, read_byte, format_from,
}
use takshaka.CoreMark.Barebones.Directive.{
  is_figure, Flag, set_flag, flags_before, letter_before, flags_of, number_from, qualifier_of, Fits,
  IsQualifier, IsLetter, proceed, minus, plus_sign, blank, hash, nought,
}

pub over_flags :
    (gs : List Flag) (f : Flags) (fmt : List ℕ) (args : List Argument)
    → format_from (flags_before gs fmt) (in_flags f) args
      ≡ format_from fmt (in_flags (flags_of gs f)) args
unfolding format_from read_byte at_flag
over_flags [] f fmt args = refl
over_flags (minus ∷ gs) f fmt args = over_flags gs (set_flag minus f) fmt args
over_flags (plus_sign ∷ gs) f fmt args = over_flags gs (set_flag plus_sign f) fmt args
over_flags (blank ∷ gs) f fmt args = over_flags gs (set_flag blank f) fmt args
over_flags (hash ∷ gs) f fmt args = over_flags gs (set_flag hash f) fmt args
over_flags (nought ∷ gs) f fmt args = over_flags gs (set_flag nought f) fmt args

pub add_digit_fits :
    (i c : ℕ)
    → is_figure c ≡ true
    → i * 10 + c < 2 ^ 31
    → add_digit i c ≡ some (i * 10 + (c - b'0'))
unfolding add_digit
add_digit_fits i c digit small =
    let fits : ltb (i * 10 + c) (2 ^ 31) ≡ true = ground (arith, small) in
    let low : b'0' ≤ c = ground (arith, digit) in rw fits (ap some (omega (arith, low)))

pub over_width :
    (ds : List ℕ) (i : ℕ) (f : Flags) (fmt : List ℕ) (args : List Argument)
    → Fits i ds
    → format_from (ds ++ fmt) (in_width f i) args
      ≡ format_from fmt (in_width f (number_from i ds)) args
unfolding format_from read_byte
over_width [] i f fmt args h = refl
over_width (d ∷ ds) i f fmt args (digit, small, h) =
    rw (format_from, read_byte, digit, add_digit_fits i d digit small)
      (over_width ds (i * 10 + (d - b'0')) f fmt args h)

pub over_precision :
    (ds : List ℕ) (i : ℕ) (f : Flags) (w : Option ℕ) (fmt : List ℕ) (args : List Argument)
    → Fits i ds
    → format_from (ds ++ fmt) (in_precision f w i) args
      ≡ format_from fmt (in_precision f w (number_from i ds)) args
unfolding format_from read_byte
over_precision [] i f w fmt args h = refl
over_precision (d ∷ ds) i f w fmt args (digit, small, h) =
    rw (format_from, read_byte, digit, add_digit_fits i d digit small)
      (over_precision ds (i * 10 + (d - b'0')) f w fmt args h)

-- A byte that ends the flags, the width and the precision.
pub record IsStop (c : ℕ) : Type 0 where
  pub not_minus : (c == b'-') ≡ false
  pub not_plus : (c == b'+') ≡ false
  pub not_blank : (c == b' ') ≡ false
  pub not_hash : (c == b'#') ≡ false
  pub not_digit : is_figure c ≡ false
  pub not_star : (c == b'*') ≡ false
  pub not_dot : (c == b'.') ≡ false

letter-IsStop : (c : ℕ) → IsLetter c → IsStop c
letter-IsStop c l = record {
  not_minus = l.not_minus;
  not_plus = l.not_plus;
  not_blank = l.not_blank;
  not_hash = l.not_hash;
  not_digit = l.not_digit;
  not_star = l.not_star;
  not_dot = l.not_dot;
}

qualifier-IsStop : (c : ℕ) → ((c == b'l') || (c == b'L')) ≡ true → IsStop c
qualifier-IsStop c h = record {
  not_minus = ground arith;
  not_plus = ground arith;
  not_blank = ground arith;
  not_hash = ground arith;
  not_digit = ground arith;
  not_star = ground arith;
  not_dot = ground arith;
}

-- A place from which such a byte is read as the qualifier or as the letter.
abbrev pub Reads : Place → Flags → (width precision : Option ℕ) → Type 0
Reads place f w p =
    (c : ℕ) (fmt : List ℕ) (args : List Argument)
    → IsStop c
    → format_from (c ∷ fmt) place args ≡ (at_qualifier f w p c args >>= proceed fmt)

read_letter :
    (f : Flags) (w p : Option ℕ) (q c : ℕ) (fmt : List ℕ) (args : List Argument)
    → format_from (c ∷ fmt) (behind_qualifier f w p q) args
      ≡ (at_letter f w p q c args >>= proceed fmt)
unfolding format_from read_byte
read_letter f w p q c fmt args = refl

pub over_letter :
    (place : Place) (f : Flags) (w p q : Option ℕ) (c : ℕ) (fmt : List ℕ) (args : List Argument)
    → Reads place f w p
    → IsQualifier q
    → IsLetter c
    → format_from (letter_before q c fmt) place args
      ≡ (at_letter f w p (qualifier_of q) c args >>= proceed fmt)
unfolding at_qualifier
over_letter place f w p none c fmt args reads is l =
    reads c fmt args (letter-IsStop c l) ∙ rw l.not_qualifier refl
over_letter place f w p (some q) c fmt args reads is l =
    reads q (c ∷ fmt) args (qualifier-IsStop q is) ∙ rw is (read_letter f w p q c fmt args)

pub in_flags-Reads : (f : Flags) → Reads (in_flags f) f none none
unfolding format_from read_byte at_flag at_width at_dot
in_flags-Reads f c fmt args s =
    let not_nought : (c == b'0') ≡ false = ground (arith, s.not_digit) in
    rw
      (
        format_from, read_byte, at_flag, s.not_minus, s.not_plus, s.not_blank, s.not_hash,
        not_nought, at_width, s.not_digit, s.not_star, at_dot, s.not_dot,
      )
      refl

pub in_width-Reads : (f : Flags) (i : ℕ) → Reads (in_width f i) f (some i) none
unfolding format_from read_byte at_dot
in_width-Reads f i c fmt args s = rw (format_from, read_byte, s.not_digit, at_dot, s.not_dot) refl

pub in_precision-Reads :
    (f : Flags) (w : Option ℕ) (i : ℕ) → Reads (in_precision f w i) f w (some i)
unfolding format_from read_byte
in_precision-Reads f w i c fmt args s = rw (format_from, read_byte, s.not_digit) refl

pub at_precision-Reads : (f : Flags) (w : Option ℕ) → Reads (at_precision f w) f w (some 0)
unfolding format_from read_byte
at_precision-Reads f w c fmt args s = rw (format_from, read_byte, s.not_digit, s.not_star) refl
