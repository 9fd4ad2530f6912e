-- ===== src/CoreMark/Barebones/Directive/Integers.antt =====
-- A format that is one conversion of an integer.
use takshaka.Base.{
  ℕ, ◌+◌, ◌^◌, ◌≤◌, ◌<◌, ◌≡◌, refl, ap, ◌∙◌, Option, none, some, ◌>>=◌, List, [], ◌∷◌, length,
  append-nil, arith, true,
}
use takshaka.CoreMark.Barebones.{Flags, number}
use takshaka.CoreMark.Barebones.Address.{in_field}
use takshaka.CoreMark.Barebones.Numeral.{IsNumeral}
use takshaka.CoreMark.Barebones.Letters.{InCase}
use takshaka.CoreMark.Barebones.Layout.{zeros, body}
use takshaka.CoreMark.Barebones.Number.{IsMagnitude, sign_of, prefix_of, number-Formatted}
use takshaka.CoreMark.Barebones.Vsprintf.{
  word, Read, done, or_zero, at_letter, read_byte, format_from, ee_vsprintf,
}
use takshaka.CoreMark.Barebones.Directive.{
  Directive, without_flags, number_from, flags_of, width_of, precision_of, qualifier_of, written,
  IsDirective, proceed,
}
use takshaka.CoreMark.Barebones.Directive.Reading.{format_from-directive}

-- The letters of integers, with their base and what they add to the flags.
pub data IntegerLetter : (letter base : ℕ) → (Flags → Flags) → Type 0 where
  decimal :
      {c b : ℕ} {g : Flags → Flags}
      → c ≡ b'd'
      → b ≡ 10
      → g ≡ (λ f. record f { sign = true })
      → IntegerLetter c b g
  decimal_i :
      {c b : ℕ} {g : Flags → Flags}
      → c ≡ b'i'
      → b ≡ 10
      → g ≡ (λ f. record f { sign = true })
      → IntegerLetter c b g
  unsigned : {c b : ℕ} {g : Flags → Flags} → c ≡ b'u' → b ≡ 10 → g ≡ (λ f. f) → IntegerLetter c b g
  octal : {c b : ℕ} {g : Flags → Flags} → c ≡ b'o' → b ≡ 8 → g ≡ (λ f. f) → IntegerLetter c b g
  hexadecimal :
      {c b : ℕ} {g : Flags → Flags} → c ≡ b'x' → b ≡ 16 → g ≡ (λ f. f) → IntegerLetter c b g
  hexadecimal_upper :
      {c b : ℕ} {g : Flags → Flags}
      → c ≡ b'X'
      → b ≡ 16
      → g ≡ (λ f. record f { uppercase = true })
      → IntegerLetter c b g

reads_number :
    (c b : ℕ) (g : Flags → Flags) (f : Flags) (w p : Option ℕ) (q v : ℕ)
    → IntegerLetter c b g
    → at_letter f w p q c (word v ∷ [])
      ≡ (number v b (or_zero w) (or_zero p) (g f) >>= λ out. some (done out []))
unfolding at_letter
reads_number c b g f w p q v (decimal c_is b_is g_is) = rw (c_is, b_is, g_is) refl
reads_number c b g f w p q v (decimal_i c_is b_is g_is) = rw (c_is, b_is, g_is) refl
reads_number c b g f w p q v (unsigned c_is b_is g_is) = rw (c_is, b_is, g_is) refl
reads_number c b g f w p q v (octal c_is b_is g_is) = rw (c_is, b_is, g_is) refl
reads_number c b g f w p q v (hexadecimal c_is b_is g_is) = rw (c_is, b_is, g_is) refl
reads_number c b g f w p q v (hexadecimal_upper c_is b_is g_is) = rw (c_is, b_is, g_is) refl

base_bounds : {c b : ℕ} {g : Flags → Flags} → IntegerLetter c b g → (2 ≤ b) × (b ≤ 36)
base_bounds (decimal c_is b_is g_is) = omega arith
base_bounds (decimal_i c_is b_is g_is) = omega arith
base_bounds (unsigned c_is b_is g_is) = omega arith
base_bounds (octal c_is b_is g_is) = omega arith
base_bounds (hexadecimal c_is b_is g_is) = omega arith
base_bounds (hexadecimal_upper c_is b_is g_is) = omega arith

nothing_left : (out : List ℕ) → proceed (0 ∷ []) (done out []) ≡ some out
unfolding format_from read_byte
nothing_left out = ap some (append-nil out)

-- Flags, width and precision of a conversion of an integer. What is not written is 0.
abbrev pub flags_for : (Flags → Flags) → Directive → Flags
flags_for g d = g (flags_of d.flags without_flags)

abbrev pub field_width : Directive → ℕ
field_width d = number_from 0 d.width

abbrev pub least_digits : Directive → ℕ
least_digits d = elim d.precision [ none ↦ 0 | some ds ↦ number_from 0 ds ]

width_is : (ds : List ℕ) → or_zero (width_of ds) ≡ number_from 0 ds
width_is [] = refl
width_is (d ∷ ds) = refl

precision_is :
    (p : Option (List ℕ))
    → or_zero (precision_of p) ≡ elim p [ none ↦ 0 | some ds ↦ number_from 0 ds ]
precision_is none = refl
precision_is (some ds) = refl

-- A format that is one conversion of an integer (d, i, u, o, x or X) without `*` and its NUL gives for
-- every 32-bit word the numeral of its magnitude in the base and the case of the letter, with the sign,
-- the prefix, the zeros and the spaces that the flags, the width and the precision ask for.
pub ee_vsprintf-integer :
    (d : Directive) (base : ℕ) (g : Flags → Flags) (v : ℕ)
    → IsDirective d
    → IntegerLetter d.letter base g
    → v < 2 ^ 32
    → (n : ℕ) × (text : List ℕ) × IsMagnitude (flags_for g d).sign v n
      × IsNumeral base n text
      × InCase (flags_for g d).uppercase text
      × (ee_vsprintf (written d (0 ∷ [])) (word v ∷ [])
          ≡ some (
              in_field (field_width d) (flags_for g d) (
                body
                  (sign_of (flags_for g d) v)
                  (prefix_of (flags_for g d) base)
                  (zeros
                    (flags_for g d).zeropad
                    (flags_for g d).left
                    (field_width d)
                    (least_digits d)
                    (length (sign_of (flags_for g d) v) + length (prefix_of (flags_for g d) base))
                    (length text))
                  text)))
unfolding ee_vsprintf
ee_vsprintf-integer d base g v is letter small =
    let bounds = base_bounds letter in
    let n =
      number-Formatted v base (field_width d) (least_digits d) (flags_for g d) bounds.0 bounds.1
        small in
    (
      n.n,
      n.text,
      n.is_magnitude,
      n.is,
      n.in_case,
      format_from-directive d (0 ∷ []) (word v ∷ []) is
          ∙ ap (λ (o : Option Read). o >>= proceed (0 ∷ []))
              (reads_number d.letter base g (flags_of d.flags without_flags) (width_of d.width)
                  (precision_of d.precision) (qualifier_of d.qualifier) v letter
                ∙ (λ t.
                    number v base (width_is d.width t) (precision_is d.precision t) (flags_for g d)
                    >>= λ out. some (done out []))
                ∙ ap (λ (o : Option (List ℕ)). o >>= λ out. some (done out [])) n.result)
          ∙ nothing_left _,
    )
