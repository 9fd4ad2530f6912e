-- ===== src/CoreMark/Barebones/Letters.antt =====
-- The case of the letters that `number` of coremark/src/barebones/ee_printf.c writes.
use takshaka.Base.{
  ℕ, zero, suc, ◌/◌, ◌%◌, ◌≤◌, ◌<◌, ◌≡◌, inl, inr, refl, ◌==◌, leb, Bool, true, false, not, ◌&&◌,
  if◌then◌else◌, List, [], ◌∷◌, get_or, arith, check_below, check_below_sound, Bool-cases,
}
use native.Mathlib.Nat.{mod-lt}
use takshaka.CoreMark.Barebones.{Flags, digits, upper_digits, fill_tmp, numeral}

-- No letter is of the other case.
abbrev pub in_case : (upper : Bool) → ℕ → Bool
in_case true c = not (leb b'a' c && leb c b'z')
in_case false c = not (leb b'A' c && leb c b'Z')

abbrev pub InCase : (upper : Bool) → List ℕ → Type 0
InCase upper [] = Unit
InCase upper (c ∷ text) = (in_case upper c ≡ true) × InCase upper text

abbrev DigitsInCase : (upper : Bool) → List ℕ → Type 0
DigitsInCase upper dig = check_below 36 (λ d. in_case upper (get_or dig d 0)) ≡ true

digits-DigitsInCase : DigitsInCase false digits
unfolding check_below
digits-DigitsInCase = refl

upper_digits-DigitsInCase : DigitsInCase true upper_digits
unfolding check_below
upper_digits-DigitsInCase = refl

fill_tmp-InCase :
    (fuel base u : ℕ) (upper : Bool) (dig tmp : List ℕ)
    → DigitsInCase upper dig
    → 2 ≤ base
    → base ≤ 36
    → InCase upper tmp
    → InCase upper (fill_tmp fuel base u dig tmp)
unfolding fill_tmp
fill_tmp-InCase zero base u upper dig tmp is low high h = h
fill_tmp-InCase (suc fuel) base u upper dig tmp is low high h = elim (Bool-cases (u == 0)) [
  | inl nought ↦ rw (nought, fill_tmp) h
  | inr more ↦
      let rest : u % base < base = mod-lt u (omega arith) in
      let digit =
        check_below_sound 36 (λ d. in_case upper (get_or dig d 0)) (u % base) is
          (omega (arith, rest)) in
      rw (more, fill_tmp)
        (fill_tmp-InCase fuel base (u / base) upper dig (get_or dig (u % base) 0 ∷ tmp) is low high
          (digit, h))
]

numeral_by :
    (u base : ℕ) (upper : Bool) (dig : List ℕ)
    → DigitsInCase upper dig
    → 2 ≤ base
    → base ≤ 36
    → InCase upper (if u == 0 then b'0' ∷ [] else fill_tmp 32 base u dig [])
numeral_by u base upper dig is low high = elim (Bool-cases (u == 0)) [
  | inl nought ↦ rw nought (nought_in_case upper, tt)
  | inr more ↦ rw more (fill_tmp-InCase 32 base u upper dig [] is low high tt)
]
  where
    nought_in_case : (upper : Bool) → in_case upper b'0' ≡ true
    nought_in_case true = refl
    nought_in_case false = refl

-- The letters of the notation are in the case that is asked for.
pub numeral-InCase :
    (f : Flags) (base u : ℕ) → 2 ≤ base → base ≤ 36 → InCase f.uppercase (numeral f base u)
unfolding numeral
numeral-InCase f base u low high = elim (Bool-cases f.uppercase) [
  | inl upper ↦ rw upper (numeral_by u base true upper_digits upper_digits-DigitsInCase low high)
  | inr lower ↦ rw lower (numeral_by u base false digits digits-DigitsInCase low high)
]
