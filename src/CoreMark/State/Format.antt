-- ===== src/CoreMark/State/Format.antt =====
-- The numeric formats of coremark/src/core_state.c as a grammar over bytes.
use takshaka.Base.{ℕ, ◌≡◌, Bool, true, false, ◌||◌, ◌&&◌, leb, List, [], ◌∷◌, ◌++◌, ◌==◌}
use takshaka.CoreMark.State.{CoreState, int, float, scientific}

abbrev pub is_plus_minus : ℕ → Bool
is_plus_minus c = c == b'+' || c == b'-'

abbrev pub is_mark : ℕ → Bool
is_mark c = c == b'E' || c == b'e'

-- The ten decimal digits.
abbrev pub is_figure : ℕ → Bool
is_figure c = leb b'0' c && leb c b'9'

abbrev pub Digits : List ℕ → Type 0
Digits [] = Unit
Digits (c ∷ cs) = (is_figure c ≡ true) × Digits cs

abbrev pub Sign : List ℕ → Type 0
Sign [] = Unit
Sign (c ∷ []) = is_plus_minus c ≡ true
Sign (c ∷ d ∷ cs) = ⊥

-- Digits, `E` or `e`, a sign, and at least one digit.
pub record Scaled (w : List ℕ) : Type 0 where
  pub fraction : List ℕ
  pub mark : ℕ
  pub sign : ℕ
  pub digit : ℕ
  pub digits : List ℕ
  pub shape : w ≡ fraction ++ mark ∷ sign ∷ digit ∷ digits
  pub fraction_digits : Digits fraction
  pub is_mark_mark : is_mark mark ≡ true
  pub is_sign_sign : is_plus_minus sign ≡ true
  pub exponent_digits : Digits (digit ∷ digits)

-- What may follow the point.
abbrev pub Fraction : CoreState → List ℕ → Type 0
Fraction float w = Digits w
Fraction scientific w = Scaled w
Fraction _ w = ⊥

-- Digits, a point, and the rest.
pub record Pointed (f : CoreState) (w : List ℕ) : Type 0 where
  pub whole : List ℕ
  pub tail : List ℕ
  pub shape : w ≡ whole ++ b'.' ∷ tail
  pub whole_digits : Digits whole
  pub fraction : Fraction f tail

pub record Natural (w : List ℕ) : Type 0 where
  pub digit : ℕ
  pub digits : List ℕ
  pub shape : w ≡ digit ∷ digits
  pub all_digits : Digits (digit ∷ digits)

abbrev pub Unsigned : CoreState → List ℕ → Type 0
Unsigned int w = Natural w
Unsigned float w = Pointed float w
Unsigned scientific w = Pointed scientific w
Unsigned _ w = ⊥

-- A number of the format that the state names: an optional sign, then an unsigned number.
pub record Format (f : CoreState) (t : List ℕ) : Type 0 where
  pub sign : List ℕ
  pub number : List ℕ
  pub shape : t ≡ sign ++ number
  pub is_sign_sign : Sign sign
  pub unsigned : Unsigned f number

abbrev pub is_numeric : CoreState → Bool
is_numeric int = true
is_numeric float = true
is_numeric scientific = true
is_numeric _ = false
