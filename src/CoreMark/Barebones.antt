-- ===== src/CoreMark/Barebones.antt =====
-- The formatted printing of the port template, coremark/src/barebones/ee_printf.c, without its
-- floating-point part (HAS_FLOAT 0). A function that writes from `str` on is modelled by the bytes that
-- it writes; a `long` has 32 bits and is its bit pattern.
pub mod Address
pub mod Vsprintf
pub mod Letters
pub mod Layout
pub mod Number
pub mod Numeral
pub mod Directive
mod Tests
use takshaka.Base.{
  ℕ, zero, suc, ◌+◌, ◌-◌, ◌*◌, ◌/◌, ◌%◌, ◌^◌, ◌==◌, ltb, leb, Bool, true, false, not, ◌&&◌, ◌||◌,
  if◌then◌else◌, Option, none, some, ◌>>=◌, List, [], ◌∷◌, ◌++◌, length, replicate, get_or, codes,
}

-- The bits of `type` and of `flags`.
pub record Flags : Type 0 where
  pub zeropad : Bool
  pub sign : Bool
  pub plus : Bool
  pub space : Bool
  pub left : Bool
  pub hex_prep : Bool
  pub uppercase : Bool

abbrev pub digits : List ℕ
digits = codes "0123456789abcdefghijklmnopqrstuvwxyz"

abbrev pub upper_digits : List ℕ
upper_digits = codes "0123456789ABCDEFGHIJKLMNOPQRSTUVWXYZ"

-- The digits of a number, the first one first: `tmp` is filled with the last one first. A 32-bit
-- number has at most 32 digits, of the 66 that `tmp` has room for.
unfoldable pub fill_tmp : (fuel base num : ℕ) (dig : List ℕ) → List ℕ → List ℕ
fill_tmp zero base num dig tmp = tmp
fill_tmp (suc fuel) base num dig tmp = elim (num == 0) [
  | true ↦ tmp
  | false ↦ fill_tmp fuel base (num / base) dig (get_or dig (num % base) 0 ∷ tmp)
]

-- The sign, if there is one; `num` is not negated yet.
unfoldable pub sign_text : Flags → (num : ℕ) → List ℕ
sign_text f num =
    if not f.sign
    then []
    else if leb (2 ^ 31) num
    then b'-' ∷ []
    else if f.plus
    then b'+' ∷ []
    else if f.space
    then b' ' ∷ []
    else []

-- The number without its sign; -(2 ^ 31) stays as it is.
unfoldable pub magnitude : Flags → (num : ℕ) → ℕ
magnitude f num = if f.sign && leb (2 ^ 31) num then (2 ^ 32 - num) % 2 ^ 32 else num

unfoldable pub prefix : Flags → (base : ℕ) → List ℕ
prefix f base =
    if not f.hex_prep
    then []
    else if base == 8
    then b'0' ∷ []
    else if base == 16
    then b'0' ∷ get_or digits 33 0 ∷ []
    else []

-- `tmp`
unfoldable pub numeral : Flags → (base num : ℕ) → List ℕ
numeral f base num =
    let dig = if f.uppercase then upper_digits else digits in
    if num == 0 then b'0' ∷ [] else fill_tmp 32 base num dig []

-- The source lets `size` fall below 0 and only asks whether it is positive, as it asks whether there are
-- more digits than `precision`: a number below 0 is 0 here. A base that is refused is `none`.
unfoldable pub number : (num base size precision : ℕ) → Flags → Option (List ℕ)
number num base size precision f =
    if ltb base 2 || ltb 36 base
    then none
    else let c = if f.zeropad && not f.left then b'0' else b' ' in
      let sign = sign_text f num in
      let pre = prefix f base in
      let tmp = numeral f base (magnitude f num) in
      let i = length tmp in
      let least = if ltb precision i then i else precision in
      let room = size - length sign - length pre - least in
      let spaces = if not ((f.zeropad && not f.left) || f.left) then room else 0 in
      let pads = if not f.left then room - spaces else 0 in
      some (
        replicate spaces b' '
        ++ (sign
            ++ (pre
                ++ (replicate pads c
                    ++ (replicate (least - i) b'0'
                        ++ (tmp ++ replicate (room - spaces - pads) b' '))))))

-- `s` is the memory from the pointer on, and a read behind it is `none`. No count stands for the greatest
-- `size_t`. The byte is read before the count is tested.
unfoldable pub strnlen : (s : List ℕ) (count : Option ℕ) → Option ℕ
strnlen [] count = none
strnlen (c ∷ s) none =
    let rest = strnlen s none in if c == 0 then some 0 else (do n ← rest; some (suc n))
strnlen (c ∷ s) (some zero) = some 0
strnlen (c ∷ s) (some (suc count)) =
    let rest = strnlen s (some count) in if c == 0 then some 0 else (do n ← rest; some (suc n))
