-- ===== src/CoreMark/State/Sound.antt =====
-- Where the machine ends in a numeric state, it has read a number of that format.
use takshaka.Base.{
  ℕ, ◌≡◌, refl, sym, ap, subst, ◌∙◌, true, List, [], ◌∷◌, arith, Bool-cases, inl, inr, ◌⊎◌, ◌≢◌,
  ◌==◌, ==_iff,
}
use takshaka.CoreMark.State.{CoreState, start, invalid, s1, s2, int, float, exponent, scientific}
use takshaka.CoreMark.State.{ee_isdigit, is_sign, next_symbol}
use takshaka.CoreMark.State.Format.{
  is_figure, Digits, Scaled, Fraction, Pointed, Natural, Unsigned, Format, is_mark, is_numeric,
}
use takshaka.CoreMark.State.Automaton.{delta, run, run-invalid}

abbrev IsNumeric : CoreState → Type 0
IsNumeric f = is_numeric f ≡ true

from_scientific :
    (f : CoreState) (w : List ℕ) → run scientific w ≡ f → IsNumeric f → (f ≡ scientific) × Digits w
unfolding run delta next_symbol ee_isdigit
from_scientific f [] e n = (sym e, tt)
from_scientific f (c ∷ cs) e n = ground (arith, from_scientific f cs, run-invalid cs)

from_exponent :
    (f : CoreState) (w : List ℕ) → run exponent w ≡ f → IsNumeric f → (f ≡ scientific) × Natural w
unfolding run delta next_symbol ee_isdigit
from_exponent f [] e n = cc
from_exponent f (c ∷ cs) e n = ground (arith, from_scientific f cs, run-invalid cs)

module _ (q : CoreState) (c : ℕ) (cs : List ℕ) (f : CoreState) where
  step_to : (q' : CoreState) → delta q c ≡ q' → run q (c ∷ cs) ≡ f → run q' cs ≡ f
  unfolding run
  step_to q' p e = sym (ap (λ (r : CoreState). run r cs) p) ∙ e

  step_invalid : delta q c ≡ invalid → run q (c ∷ cs) ≡ f → IsNumeric f → ⊥
  step_invalid p e n =
      let lost : f ≡ invalid = sym (step_to invalid p e) ∙ run-invalid cs in ground arith

from_s2 :
    (f : CoreState) (m : ℕ) (w : List ℕ)
    → is_mark m ≡ true
    → run s2 w ≡ f
    → IsNumeric f
    → (f ≡ scientific) × Scaled (m ∷ w)
unfolding run delta next_symbol ee_isdigit
from_s2 f m [] p e n = cc
from_s2 f m (c ∷ cs) p e n = elim (Bool-cases (is_sign c)) [
  | inl sign ↦
      let (is, rest) = from_exponent f cs (step_to s2 c cs f exponent (ground arith) e) n in
      (
        is,
        record {
          fraction = [];
          mark = m;
          sign = c;
          digit = rest.digit;
          digits = rest.digits;
          shape = ap (λ (t : List ℕ). m ∷ c ∷ t) rest.shape;
          fraction_digits = tt;
          is_mark_mark = p;
          is_sign_sign = sign;
          exponent_digits = rest.all_digits;
        },
      )
  | inr other ↦ absurd (step_invalid s2 c cs f (ground arith) e n)
]

Scaled-cons : (c : ℕ) (w : List ℕ) → is_figure c ≡ true → Scaled w → Scaled (c ∷ w)
Scaled-cons c w h n = record {
  fraction = c ∷ n.fraction;
  mark = n.mark;
  sign = n.sign;
  digit = n.digit;
  digits = n.digits;
  shape = ap (λ (t : List ℕ). c ∷ t) n.shape;
  fraction_digits = (h, n.fraction_digits);
  is_mark_mark = n.is_mark_mark;
  is_sign_sign = n.is_sign_sign;
  exponent_digits = n.exponent_digits;
}

-- What follows the point, by the format in which the machine ends.
abbrev AfterPoint : CoreState → List ℕ → Type 0
AfterPoint f w = ((f ≡ float) × Digits w) ⊎ ((f ≡ scientific) × Scaled w)

AfterPoint-cons :
    (f : CoreState) (c : ℕ) (w : List ℕ)
    → is_figure c ≡ true
    → AfterPoint f w
    → AfterPoint f (c ∷ w)
AfterPoint-cons f c w h (inl (is, ds)) = inl (is, (h, ds))
AfterPoint-cons f c w h (inr (is, n)) = inr (is, Scaled-cons c w h n)

from_float : (f : CoreState) (w : List ℕ) → run float w ≡ f → IsNumeric f → AfterPoint f w
unfolding run delta next_symbol ee_isdigit
from_float f [] e n = inl (sym e, tt)
from_float f (c ∷ cs) e n = elim (Bool-cases (is_mark c)) [
  | inl mark ↦ inr (from_s2 f c cs mark (step_to float c cs f s2 (ground arith) e) n)
  | inr other ↦ elim (Bool-cases (is_figure c)) [
    | inl digit ↦
        AfterPoint-cons f c cs digit
          (from_float f cs (step_to float c cs f float (ground arith) e) n)
    | inr bad ↦ absurd (step_invalid float c cs f (ground arith) e n)
  ]
]

Fraction-AfterPoint : (f : CoreState) (w : List ℕ) → AfterPoint f w → Fraction f w
Fraction-AfterPoint f w (inl (is, ds)) = rw is ds
Fraction-AfterPoint f w (inr (is, n)) = rw is n

Pointed-point : (f : CoreState) (w : List ℕ) → Fraction f w → Pointed f (b'.' ∷ w)
Pointed-point f w h = record { whole = []; tail = w; shape = refl; whole_digits = tt; fraction = h }

Pointed-cons :
    (f : CoreState) (c : ℕ) (w : List ℕ) → is_figure c ≡ true → Pointed f w → Pointed f (c ∷ w)
Pointed-cons f c w h n = record {
  whole = c ∷ n.whole;
  tail = n.tail;
  fraction = n.fraction;
  shape = ap (λ (t : List ℕ). c ∷ t) n.shape;
  whole_digits = (h, n.whole_digits);
}

-- What follows the digits of an integer part.
abbrev AfterDigit : CoreState → List ℕ → Type 0
AfterDigit f w = ((f ≡ int) × Digits w) ⊎ ((f ≢ int) × Pointed f w)

AfterDigit-cons :
    (f : CoreState) (c : ℕ) (w : List ℕ)
    → is_figure c ≡ true
    → AfterDigit f w
    → AfterDigit f (c ∷ w)
AfterDigit-cons f c w h (inl (is, ds)) = inl (is, (h, ds))
AfterDigit-cons f c w h (inr (ne, n)) = inr (ne, Pointed-cons f c w h n)

AfterDigit-point : (f : CoreState) (w : List ℕ) → AfterPoint f w → AfterDigit f (b'.' ∷ w)
AfterDigit-point f w h = inr (ne h, Pointed-point f w (Fraction-AfterPoint f w h))
  where
    ne : AfterPoint f w → f ≢ int
    ne (inl (is, ds)) e = cc
    ne (inr (is, n)) e = cc

from_int : (f : CoreState) (w : List ℕ) → run int w ≡ f → IsNumeric f → AfterDigit f w
unfolding run delta next_symbol ee_isdigit
from_int f [] e n = inl (sym e, tt)
from_int f (c ∷ cs) e n = elim (Bool-cases (c == b'.')) [
  | inl point ↦
      subst (λ (d : ℕ). AfterDigit f (d ∷ cs)) (sym ((==_iff c b'.').0 point))
        (AfterDigit-point f cs (from_float f cs (step_to int c cs f float (ground arith) e) n))
  | inr other ↦ elim (Bool-cases (is_figure c)) [
    | inl digit ↦
        AfterDigit-cons f c cs digit (from_int f cs (step_to int c cs f int (ground arith) e) n)
    | inr bad ↦ absurd (step_invalid int c cs f (ground arith) e n)
  ]
]

Unsigned-AfterDigit :
    (f : CoreState) (c : ℕ) (w : List ℕ)
    → IsNumeric f
    → is_figure c ≡ true
    → AfterDigit f w
    → Unsigned f (c ∷ w)
Unsigned-AfterDigit f c w n h (inl (is, ds)) =
    rw is (record { digit = c; digits = w; shape = refl; all_digits = (h, ds) })
Unsigned-AfterDigit int c w n h (inr (ne, p)) = absurd (ne refl)
Unsigned-AfterDigit float c w n h (inr (ne, p)) = Pointed-cons float c w h p
Unsigned-AfterDigit scientific c w n h (inr (ne, p)) = Pointed-cons scientific c w h p
Unsigned-AfterDigit _ c w n h (inr (ne, p)) = cc

Unsigned-AfterPoint : (f : CoreState) (w : List ℕ) → AfterPoint f w → Unsigned f (b'.' ∷ w)
Unsigned-AfterPoint f w (inl (is, ds)) = rw is (Pointed-point float w ds)
Unsigned-AfterPoint f w (inr (is, n)) = rw is (Pointed-point scientific w n)

from_s1 : (f : CoreState) (w : List ℕ) → run s1 w ≡ f → IsNumeric f → Unsigned f w
unfolding run delta next_symbol ee_isdigit
from_s1 f [] e n = cc
from_s1 f (c ∷ cs) e n = elim (Bool-cases (is_figure c)) [
  | inl digit ↦
      Unsigned-AfterDigit f c cs n digit (from_int f cs (step_to s1 c cs f int (ground arith) e) n)
  | inr other ↦ elim (Bool-cases (c == b'.')) [
    | inl point ↦
        subst (λ (d : ℕ). Unsigned f (d ∷ cs)) (sym ((==_iff c b'.').0 point))
          (Unsigned-AfterPoint f cs (from_float f cs (step_to s1 c cs f float (ground arith) e) n))
    | inr bad ↦ absurd (step_invalid s1 c cs f (ground arith) e n)
  ]
]

-- Where the machine ends in a numeric state, it has read a number of that format.
pub Format-run : (f : CoreState) (t : List ℕ) → run start t ≡ f → IsNumeric f → Format f t
unfolding run delta next_symbol ee_isdigit
Format-run f [] e n = cc
Format-run f (c ∷ cs) e n = elim (Bool-cases (is_figure c)) [
  | inl digit ↦ record {
    sign = [];
    number = c ∷ cs;
    shape = refl;
    is_sign_sign = tt;
    unsigned =
        Unsigned-AfterDigit f c cs n digit
          (from_int f cs (step_to start c cs f int (ground arith) e) n);
  }
  | inr other ↦ elim (Bool-cases (is_sign c)) [
    | inl sign ↦ record {
      sign = c ∷ [];
      number = cs;
      shape = refl;
      is_sign_sign = sign;
      unsigned = from_s1 f cs (step_to start c cs f s1 (ground arith) e) n;
    }
    | inr unsigned ↦ elim (Bool-cases (c == b'.')) [
      | inl point ↦ record {
        sign = [];
        number = c ∷ cs;
        shape = refl;
        is_sign_sign = tt;
        unsigned =
            subst (λ (d : ℕ). Unsigned f (d ∷ cs)) (sym ((==_iff c b'.').0 point))
              (Unsigned-AfterPoint f cs
                (from_float f cs (step_to start c cs f float (ground arith) e) n));
      }
      | inr bad ↦ absurd (step_invalid start c cs f (ground arith) e n)
    ]
  ]
]
