-- ===== src/CoreMark/Barebones/Numeral.antt =====
-- The digits that `number` of coremark/src/barebones/ee_printf.c finds.
use takshaka.Base.{
  ℕ, zero, suc, ◌+◌, ◌-◌, ◌*◌, ◌/◌, ◌%◌, ◌^◌, ◌≤◌, ◌<◌, ◌≡◌, ◌≢◌, ◌⊎◌, inl, inr, refl, sym, ap, ◌∙◌,
  ◌==◌, leb, Bool, true, false, ◌&&◌, if◌then◌else◌, List, [], ◌∷◌, get_or, arith, check_below,
  check_below_sound, Bool-cases, ==_iff, length,
}
use native.Mathlib.Nat.{pow-zero, pow-suc, mod-lt, div-add-mod', div-lt_iff_lt-mul, mul-le-mul_left}
use takshaka.CoreMark.Barebones.{Flags, digits, upper_digits, fill_tmp, numeral}

abbrev pub digit_value : ℕ → ℕ
digit_value c =
    if leb b'0' c && leb c b'9'
    then c - b'0'
    else if leb b'a' c && leb c b'z'
    then c - b'a' + 10
    else if leb b'A' c && leb c b'Z'
    then c - b'A' + 10
    else 36

-- The number that digits stand for, behind those that stand for `before`.
abbrev pub value_from : (base before : ℕ) → List ℕ → ℕ
value_from base before [] = before
value_from base before (c ∷ text) = value_from base (before * base + digit_value c) text

abbrev pub DigitsBelow : (base : ℕ) → List ℕ → Type 0
DigitsBelow base [] = Unit
DigitsBelow base (c ∷ text) = (digit_value c < base) × DigitsBelow base text

-- The usual notation of a number: digits of the base, of the right value, and no leading zero.
pub record IsNumeral (base n : ℕ) (text : List ℕ) : Type 0 where
  pub below : DigitsBelow base text
  pub value : value_from base 0 text ≡ n
  pub leading : (text ≡ b'0' ∷ []) ⊎ ((get_or text 0 b'0' == b'0') ≡ false)
  pub short : length text ≤ 32

-- A list of digits: the digit for each value, and '0' for 0 only.
abbrev right_digit : List ℕ → ℕ → Bool
right_digit dig d =
    (digit_value (get_or dig d 0) == d)
    && (if d == 0 then true else if get_or dig d 0 == b'0' then false else true)

abbrev IsDigits : List ℕ → Type 0
IsDigits dig = check_below 36 (right_digit dig) ≡ true

digits-IsDigits : IsDigits digits
unfolding check_below
digits-IsDigits = refl

upper_digits-IsDigits : IsDigits upper_digits
unfolding check_below
upper_digits-IsDigits = refl

digit-value : (dig : List ℕ) (d : ℕ) → IsDigits dig → d < 36 → digit_value (get_or dig d 0) ≡ d
digit-value dig d is small =
    both (digit_value (get_or dig d 0) == d) _ (==_iff (digit_value (get_or dig d 0)) d).0
      (check_below_sound 36 (right_digit dig) d is small)
  where
    both : (a b : Bool) {P : Type 0} → (a ≡ true → P) → (a && b) ≡ true → P
    both true b k h = k refl
    both false b k h = absurd (cc h)

record Filled (base u fuel : ℕ) (tmp out : List ℕ) : Type 0 where
  below : DigitsBelow base out
  value : value_from base 0 out ≡ value_from base u tmp
  short : length out ≤ length tmp + fuel
  leading : (u ≡ 0) × (out ≡ tmp) ⊎ ((get_or out 0 b'0' == b'0') ≡ false)

digit-ne-zero :
    (dig : List ℕ) (d : ℕ) → IsDigits dig → d < 36 → ((get_or dig d 0 == b'0') ≡ false) ⊎ (d ≡ 0)
digit-ne-zero dig d is small = elim (Bool-cases (d == 0)) [
  | inl nought ↦ inr ((==_iff d 0).0 nought)
  | inr other ↦ inl (ground (arith, check_below_sound 36 (right_digit dig) d is small, other))
]

quotient-lt : (fuel base u : ℕ) → 2 ≤ base → u < 2 ^ suc fuel → u / base < 2 ^ fuel
quotient-lt fuel base u low small =
    let double : u < 2 ^ fuel * 2 = omega (arith, pow-suc 2 fuel) in
    let more : 2 ^ fuel * 2 ≤ 2 ^ fuel * base = mul-le-mul_left (2 ^ fuel) low in
    (div-lt_iff_lt-mul {k = base} {x = u} {y = 2 ^ fuel} (omega arith)).1
      (omega (arith, double, more))

not_both :
    (u base : ℕ) → (u == 0) ≡ false → u / base * base + u % base ≡ u → u % base ≡ 0 → u / base ≢ 0
not_both u base more whole nought none_left =
    let gone : u / base * base ≡ 0 = ap (λ (t : ℕ). t * base) none_left ∙ omega arith in
    absurd (ground (arith, more, gone, whole, nought))

not_empty :
    (u : ℕ) (out : List ℕ)
    → (u == 0) ≡ false
    → (u ≡ 0) × (out ≡ []) ⊎ ((get_or out 0 b'0' == b'0') ≡ false)
    → (get_or out 0 b'0' == b'0') ≡ false
not_empty u out more (inl (is, _)) = absurd (ground arith)
not_empty u out more (inr h) = h

leads :
    (u base d : ℕ) (tmp out : List ℕ)
    → (u == 0) ≡ false
    → (u % base ≡ 0 → u / base ≢ 0)
    → (d == b'0') ≡ false ⊎ (u % base ≡ 0)
    → (u / base ≡ 0) × (out ≡ d ∷ tmp) ⊎ ((get_or out 0 b'0' == b'0') ≡ false)
    → (u ≡ 0) × (out ≡ tmp) ⊎ ((get_or out 0 b'0' == b'0') ≡ false)
leads u base d tmp out more whole digit (inr h) = inr h
leads u base d tmp out more whole (inl other) (inl (small, is)) =
    inr (ap (λ (o : List ℕ). get_or o 0 b'0' == b'0') is ∙ other)
leads u base d tmp out more whole (inr nought) (inl (small, is)) = absurd (whole nought small)

fill_tmp-Filled :
    (fuel base u : ℕ) (dig tmp : List ℕ)
    → IsDigits dig
    → 2 ≤ base
    → base ≤ 36
    → u < 2 ^ fuel
    → DigitsBelow base tmp
    → Filled base u fuel tmp (fill_tmp fuel base u dig tmp)
unfolding fill_tmp
fill_tmp-Filled zero base u dig tmp is low high small h = record {
  below = h;
  value = ap (λ (t : ℕ). value_from base t tmp) (omega (arith, pow-zero 2));
  short = omega arith;
  leading = inl (omega (arith, pow-zero 2), refl);
}
fill_tmp-Filled (suc fuel) base u dig tmp is low high small h = elim (Bool-cases (u == 0)) [
  | inl nought ↦
      let same : u ≡ 0 = (==_iff u 0).0 nought in
      rw (nought, fill_tmp)
        (record {
          below = h;
          value = ap (λ (t : ℕ). value_from base t tmp) (sym same);
          short = omega arith;
          leading = inl (same, refl);
        })
  | inr more ↦
      let d : ℕ = get_or dig (u % base) 0 in
      let rest : u % base < base = mod-lt u (omega arith) in
      let is_digit : digit_value d ≡ u % base =
        digit-value dig (u % base) is (omega (arith, rest)) in
      let whole : u / base * base + u % base ≡ u = div-add-mod' u base in
      let ih =
        fill_tmp-Filled fuel base (u / base) dig (d ∷ tmp) is low high
          (quotient-lt fuel base u low small) (omega (arith, is_digit, rest), h) in
      rw (more, fill_tmp)
        (record {
          below = ih.below;
          value = ih.value ∙ ap (λ (t : ℕ). value_from base t tmp) (omega (arith, is_digit, whole));
          short = omega (arith, ih.short);
          leading =
              leads u base d tmp (fill_tmp fuel base (u / base) dig (d ∷ tmp)) more
                (not_both u base more whole) (digit-ne-zero dig (u % base) is (omega (arith, rest)))
                ih.leading;
        })
]

fill_tmp-IsNumeral :
    (u base : ℕ) (dig : List ℕ)
    → IsDigits dig
    → 2 ≤ base
    → base ≤ 36
    → u < 2 ^ 32
    → IsNumeral base u (if u == 0 then b'0' ∷ [] else fill_tmp 32 base u dig [])
fill_tmp-IsNumeral u base dig is low high small = elim (Bool-cases (u == 0)) [
  | inl nought ↦ rw nought (record {
    below = (omega arith, tt);
    value = omega (arith, (==_iff u 0).0 nought);
    leading = inl refl;
    short = omega arith;
  })
  | inr more ↦
      let f = fill_tmp-Filled 32 base u dig [] is low high small tt in
      rw more (record {
        below = f.below;
        value = f.value;
        leading = inr (not_empty u (fill_tmp 32 base u dig []) more f.leading);
        short = f.short;
      })
]

-- The notation of a 32-bit number in every base from 2 to 36, in letters of either case.
pub numeral-IsNumeral :
    (f : Flags) (base u : ℕ)
    → 2 ≤ base
    → base ≤ 36
    → u < 2 ^ 32
    → IsNumeral base u (numeral f base u)
unfolding numeral
numeral-IsNumeral f base u low high small = elim (Bool-cases f.uppercase) [
  | inl upper ↦
      rw upper (fill_tmp-IsNumeral u base upper_digits upper_digits-IsDigits low high small)
  | inr lower ↦ rw lower (fill_tmp-IsNumeral u base digits digits-IsDigits low high small)
]
