-- ===== src/CoreMark/State/Automaton.antt =====
-- The machine without its counts is a finite automaton that accepts the three formats.
use takshaka.Base.{ℕ, ◌≡◌, refl, ap, ◌∙◌, Bool, true, false, List, [], ◌∷◌, ◌++◌, arith}
use takshaka.CoreMark.State.{CoreState, start, invalid, s1, int, float, scientific}
use takshaka.CoreMark.State.{Counts, ee_isdigit, is_sign, next_symbol}
use takshaka.CoreMark.State.Format.{
  is_figure, Digits, Sign, Fraction, Pointed, Natural, Unsigned, Format, is_mark,
}

unfoldable pub delta : CoreState → ℕ → CoreState
delta s c = (next_symbol s c []).0

-- The counts do not influence the state.
pub next_symbol-delta : (s : CoreState) (c : ℕ) (tc : Counts) → (next_symbol s c tc).0 ≡ delta s c
unfolding delta next_symbol
next_symbol-delta start c tc = ground arith
next_symbol-delta _ c tc = ground arith

unfoldable pub run : CoreState → List ℕ → CoreState
run s [] = s
run s (c ∷ cs) = run (delta s c) cs

pub run-append : (s : CoreState) (xs ys : List ℕ) → run s (xs ++ ys) ≡ run (run s xs) ys
unfolding run
run-append s [] ys = refl
run-append s (x ∷ xs) ys = run-append (delta s x) xs ys

pub run-invalid : (cs : List ℕ) → run invalid cs ≡ invalid
unfolding run delta next_symbol
run-invalid [] = refl
run-invalid (c ∷ cs) = run-invalid cs

-- The three states that a digit keeps.
run-Digits_int : (ds : List ℕ) → Digits ds → run int ds ≡ int
unfolding run delta next_symbol ee_isdigit
run-Digits_int [] h = refl
run-Digits_int (d ∷ ds) h = ground (arith, run-Digits_int ds)

run-Digits_float : (ds : List ℕ) → Digits ds → run float ds ≡ float
unfolding run delta next_symbol ee_isdigit
run-Digits_float [] h = refl
run-Digits_float (d ∷ ds) h = ground (arith, run-Digits_float ds)

run-Digits_scientific : (ds : List ℕ) → Digits ds → run scientific ds ≡ scientific
unfolding run delta next_symbol ee_isdigit
run-Digits_scientific [] h = refl
run-Digits_scientific (d ∷ ds) h = ground (arith, run-Digits_scientific ds)

-- From the point on.
run-Scaled :
    (m s d : ℕ) (ds : List ℕ)
    → is_mark m ≡ true
    → is_sign s ≡ true
    → Digits (d ∷ ds)
    → run float (m ∷ s ∷ d ∷ ds) ≡ scientific
unfolding run delta next_symbol ee_isdigit
run-Scaled m s d ds p q r = ground (arith, run-Digits_scientific ds)

run-Fraction : (f : CoreState) (w : List ℕ) → Fraction f w → run float w ≡ f
run-Fraction float w h = run-Digits_float w h
run-Fraction scientific w h =
    ap (run float) h.shape
    ∙ run-append float h.fraction _
    ∙ ap (λ (s : CoreState). run s (h.mark ∷ h.sign ∷ h.digit ∷ h.digits))
        (run-Digits_float h.fraction h.fraction_digits)
    ∙ run-Scaled h.mark h.sign h.digit h.digits h.is_mark_mark h.is_sign_sign h.exponent_digits
run-Fraction _ w h = elim h [ ]

-- Before the point the machine is at the start, or behind a sign.
abbrev is_fresh : CoreState → Bool
is_fresh start = true
is_fresh s1 = true
is_fresh _ = false

delta_digit : (q : CoreState) (d : ℕ) → is_fresh q ≡ true → is_figure d ≡ true → delta q d ≡ int
unfolding delta next_symbol ee_isdigit
delta_digit start d h p = ground arith
delta_digit _ d h p = ground arith

delta_point : (q : CoreState) → is_fresh q ≡ true → delta q b'.' ≡ float
unfolding delta next_symbol ee_isdigit
delta_point start h = refl
delta_point s1 h = refl
delta_point _ h = cc

run-Digits_point : (ds w : List ℕ) → Digits ds → run int (ds ++ b'.' ∷ w) ≡ run float w
unfolding run delta next_symbol
run-Digits_point ds w p =
    run-append int ds (b'.' ∷ w) ∙ ap (λ (q : CoreState). run q (b'.' ∷ w)) (run-Digits_int ds p)

run-whole :
    (q : CoreState) (ds w : List ℕ)
    → is_fresh q ≡ true
    → Digits ds
    → run q (ds ++ b'.' ∷ w) ≡ run float w
unfolding run
run-whole q [] w h p = ap (λ (s : CoreState). run s w) (delta_point q h)
run-whole q (d ∷ ds) w h p =
    ap (λ (s : CoreState). run s (ds ++ b'.' ∷ w)) (delta_digit q d h p.0)
    ∙ run-Digits_point ds w p.1

run-Natural : (q : CoreState) (w : List ℕ) → is_fresh q ≡ true → Natural w → run q w ≡ int
unfolding run
run-Natural q w h n =
    ap (run q) n.shape
    ∙ ap (λ (s : CoreState). run s n.digits) (delta_digit q n.digit h n.all_digits.0)
    ∙ run-Digits_int n.digits n.all_digits.1

run-Pointed : (q f : CoreState) (w : List ℕ) → is_fresh q ≡ true → Pointed f w → run q w ≡ f
run-Pointed q f w h n =
    ap (run q) n.shape
    ∙ run-whole q n.whole n.tail h n.whole_digits
    ∙ run-Fraction f n.tail n.fraction

run-Unsigned : (q f : CoreState) (w : List ℕ) → is_fresh q ≡ true → Unsigned f w → run q w ≡ f
run-Unsigned q int w h n = run-Natural q w h n
run-Unsigned q float w h n = run-Pointed q float w h n
run-Unsigned q scientific w h n = run-Pointed q scientific w h n
run-Unsigned q _ w h n = elim n [ ]

run-Sign : (s : List ℕ) → Sign s → is_fresh (run start s) ≡ true
unfolding run delta next_symbol ee_isdigit
run-Sign [] h = refl
run-Sign (c ∷ []) h = ground arith
run-Sign (c ∷ d ∷ cs) h = elim h [ ]

-- A number of format `f` takes the machine to `f`.
pub run-Format : (f : CoreState) (t : List ℕ) → Format f t → run start t ≡ f
run-Format f t n =
    ap (run start) n.shape
    ∙ run-append start n.sign n.number
    ∙ run-Unsigned (run start n.sign) f n.number (run-Sign n.sign n.is_sign_sign) n.unsigned
