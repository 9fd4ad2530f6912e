-- ===== src/CoreMark/Barebones/Number.antt =====
-- What `number` of coremark/src/barebones/ee_printf.c writes.
use takshaka.Base.{
  ℕ, ◌+◌, ◌^◌, ◌≤◌, ◌<◌, ◌≡◌, refl, ap, ◌∙◌, ltb, leb, ◌==◌, Bool-cases, inl, inr, Bool, true,
  false, ◌&&◌, ◌||◌, if◌then◌else◌, some, List, [], ◌∷◌, length, arith,
}
use takshaka.CoreMark.Barebones.{Flags, sign_text, magnitude, prefix, numeral, number}
use takshaka.CoreMark.Barebones.Address.{in_field}
use takshaka.CoreMark.Barebones.Numeral.{IsNumeral, numeral-IsNumeral}
use takshaka.CoreMark.Barebones.Letters.{InCase, numeral-InCase}
use takshaka.CoreMark.Barebones.Layout.{zeros, body, assembled-justified}

-- The number without its sign: as a signed number, of a bit pattern of 32 bits.
abbrev pub IsMagnitude : (signed : Bool) (num n : ℕ) → Type 0
IsMagnitude true num n = (num < 2 ^ 31 → n ≡ num) × (2 ^ 31 ≤ num → n + num ≡ 2 ^ 32)
IsMagnitude false num n = n ≡ num

-- The byte before a number: a minus sign before a negative one, and before the others what the flags
-- ask for. Unsigned numbers have none.
abbrev pub sign_for : (signed negative plus blank : Bool) → List ℕ
sign_for false negative plus blank = []
sign_for true true plus blank = b'-' ∷ []
sign_for true false true blank = b'+' ∷ []
sign_for true false false true = b' ' ∷ []
sign_for true false false false = []

abbrev pub sign_of : Flags → ℕ → List ℕ
sign_of f num = sign_for f.sign (leb (2 ^ 31) num) f.plus f.space

-- The prefix of the other notations, if it is asked for: 0 in base 8 and 0x in base 16.
abbrev pub prefix_of : Flags → (base : ℕ) → List ℕ
prefix_of f base =
    if f.hex_prep && base == 8
    then b'0' ∷ []
    else if f.hex_prep && base == 16
    then b'0' ∷ b'x' ∷ []
    else []

sign_text-sign_for :
    (z signed plus blank left hex upper : Bool) (num : ℕ)
    → sign_text
        (record {
          zeropad = z;
          sign = signed;
          plus = plus;
          space = blank;
          left = left;
          hex_prep = hex;
          uppercase = upper;
        })
        num
      ≡ sign_for signed (leb (2 ^ 31) num) plus blank
unfolding sign_text
sign_text-sign_for z false plus blank left hex upper num = refl
sign_text-sign_for z true plus blank left hex upper num = elim (Bool-cases (leb (2 ^ 31) num)) [
  | inl below ↦ rw below refl
  | inr above ↦ rw above (behind_plus plus blank)
]
  where
    behind_plus :
        (plus blank : Bool)
        → (if plus then b'+' ∷ [] else if blank then b' ' ∷ [] else [])
          ≡ sign_for true false plus blank
    behind_plus true blank = refl
    behind_plus false true = refl
    behind_plus false false = refl

sign_text-sign_of : (f : Flags) (num : ℕ) → sign_text f num ≡ sign_of f num
sign_text-sign_of f num =
    sign_text-sign_for f.zeropad f.sign f.plus f.space f.left f.hex_prep f.uppercase num

prefix-prefix_of : (f : Flags) (base : ℕ) → prefix f base ≡ prefix_of f base
unfolding prefix
prefix-prefix_of f base = elim (Bool-cases f.hex_prep) [
  | inl asked ↦ rw asked refl
  | inr not_asked ↦ rw not_asked refl
]

magnitude-IsMagnitude :
    (f : Flags) (num : ℕ) → num < 2 ^ 32 → IsMagnitude f.sign num (magnitude f num)
unfolding magnitude
magnitude-IsMagnitude f num small = elim (Bool-cases f.sign) [
  | inl signed ↦ rw signed (λ low. ground (arith, low), λ high. ground (arith, high, small))
  | inr unsigned ↦ rw unsigned refl
]

-- What is written for a number: the numeral of its magnitude behind a sign, a prefix and zeros, in a
-- field.
pub record Formatted (num base size precision : ℕ) (f : Flags) : Type 0 where
  pub n : ℕ
  pub is_magnitude : IsMagnitude f.sign num n
  pub text : List ℕ
  pub is : IsNumeral base n text
  pub in_case : InCase f.uppercase text
  pub result :
      number num base size precision f
      ≡ some (
          in_field size f (
            body
              (sign_of f num)
              (prefix_of f base)
              (zeros f.zeropad f.left size precision
                (length (sign_of f num) + length (prefix_of f base))
                (length text))
              text))

magnitude-lt : (f : Flags) (num : ℕ) → num < 2 ^ 32 → magnitude f num < 2 ^ 32
unfolding magnitude
magnitude-lt f num small = ground arith

-- In every base from 2 to 36, `number` writes for a 32-bit number the numeral of its magnitude, in letters
-- of the case that is asked for, behind its sign, its prefix and so many zeros that the precision, or with zero padding the field, is filled; and
-- puts this into the field, to the left or to the right.
pub number-Formatted :
    (num base size precision : ℕ) (f : Flags)
    → 2 ≤ base
    → base ≤ 36
    → num < 2 ^ 32
    → Formatted num base size precision f
unfolding number in_field
number-Formatted num base size precision f low high small =
    let in_range : (ltb base 2 || ltb 36 base) ≡ false = ground arith in
    let tmp = numeral f base (magnitude f num) in
    record {
      n = magnitude f num;
      is_magnitude = magnitude-IsMagnitude f num small;
      text = tmp;
      is = numeral-IsNumeral f base (magnitude f num) low high (magnitude-lt f num small);
      in_case = numeral-InCase f base (magnitude f num) low high;
      result = rw in_range (
          ap some (
            assembled-justified f.zeropad f.left size precision (sign_text f num) (prefix f base)
              tmp
            ∙ λ t. in_field size f (
                body (sign_text-sign_of f num t) (prefix-prefix_of f base t)
                  (zeros f.zeropad f.left size precision
                    (length (sign_text-sign_of f num t) + length (prefix-prefix_of f base t))
                    (length tmp))
                  tmp)));
    }
