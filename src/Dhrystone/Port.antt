-- ===== src/Dhrystone/Port.antt =====
-- The port layer dhrystone/src/dhry_port.c. A printing function is modelled by the bytes that it passes
-- to `uart_putc`, in order; `uart_putc` and `uart_puts` are those of the board support.
pub mod Count
pub mod Strcpy
use takshaka.Base.{
  ℕ, zero, suc, ◌+◌, ◌-◌, ◌*◌, ◌/◌, ◌%◌, ◌^◌, ◌==◌, leb, ltb, Bool, true, false, if◌then◌else◌,
  Option, none, some, ◌>>=◌, List, [], ◌∷◌, ◌++◌, ◌&&◌, length, get_or, replicate, codes,
}

-- The digits of a number, first digit first, before those in `tmp`. A 32-bit number has at most 32.
unfoldable pub digits : (fuel base v : ℕ) → (tmp : List ℕ) → List ℕ
digits zero base v tmp = tmp
digits (suc fuel) base v tmp = elim (v == 0) [
  | true ↦ tmp
  | false ↦ digits fuel base (v / base) (get_or (codes "0123456789abcdef") (v % base) 0 ∷ tmp)
]

abbrev pub number : (base v : ℕ) → List ℕ
number base v = if v == 0 then b'0' ∷ [] else digits 32 base v []

unfoldable pub print_uint_rev : (v base : ℕ) → List ℕ
print_uint_rev v base = number base v

-- `print_uint`, which no function calls: the number of the digits, and the buffer, last digit first.
unfoldable pub fill_digits : (fuel base v n : ℕ) → (buf : ℕ → ℕ) → ℕ × (ℕ → ℕ)
fill_digits zero base v n buf = (n, buf)
fill_digits (suc fuel) base v n buf = elim (v == 0) [
  | true ↦ (n, buf)
  | false ↦
      let digit = get_or (codes "0123456789abcdef") (v % base) 0 in
      fill_digits fuel base (v / base) (n + 1) (λ x. if x == n then digit else buf x)
]

-- `while (n--) uart_putc(buf[n + 1])`
unfoldable pub put_digits : (n : ℕ) → (buf : ℕ → ℕ) → List ℕ
put_digits zero buf = []
put_digits (suc n) buf = buf (n + 1) ∷ put_digits n buf

-- `buf` holds what the stack has held before.
unfoldable pub print_uint : (v base : ℕ) → (buf : ℕ → ℕ) → List ℕ
print_uint v base buf =
    if v == 0
    then b'0' ∷ []
    else (let filled = fill_digits 32 base v 0 buf in put_digits filled.0 filled.1)

-- An argument of `dhr_printf`: a word, or the string that a pointer stands for.
pub data Argument : Type 0 where
  word : ℕ → Argument
  text : List ℕ → Argument

-- `for (int p = n; p < width; p++) uart_putc(pad)`, and the digits behind.
abbrev pub padded : (pad width : ℕ) → List ℕ → List ℕ
padded pad width ds = replicate (width - length ds) pad ++ ds

-- What is printed, how much `count` grows, and the arguments that are left.
pub record Printed : Type 0 where
  pub out : List ℕ
  pub count : ℕ
  pub args : List Argument

abbrev pub signed : (pad width v : ℕ) → List Argument → Printed
signed pad width v args =
    if leb (2 ^ 31) v
    then record {
      out = b'-' ∷ padded pad width (number 10 ((2 ^ 32 - v) % 2 ^ 32));
      count = 1 + length (padded pad width (number 10 ((2 ^ 32 - v) % 2 ^ 32)));
      args = args;
    }
    else record {
      out = padded pad width (number 10 v);
      count = length (padded pad width (number 10 v));
      args = args;
    }

abbrev pub unsigned : (base pad width v : ℕ) → List Argument → Printed
unsigned base pad width v args = record {
  out = padded pad width (number base v);
  count = length (padded pad width (number base v));
  args = args;
}

-- The conversions that take an argument, by their letter; `none` where the next argument is missing or
-- of the other kind.
unfoldable pub convert : (letter pad width : ℕ) → List Argument → Option Printed
convert letter pad width [] = none
convert letter pad width (word v ∷ args) =
    if letter == b'd'
    then some (signed pad width v args)
    else if letter == b'u'
    then some (unsigned 10 pad width v args)
    else if letter == b'x'
    then some (unsigned 16 pad width v args)
    else if letter == b'c'
    then some (record { out = v % 2 ^ 8 ∷ []; count = 1; args = args })
    else none
convert letter pad width (text s ∷ args) =
    if letter == b's' then some (record { out = s; count = length s; args = args }) else none

abbrev pub takes_argument : ℕ → Bool
takes_argument c =
    if c == b'd'
    then true
    else if c == b'u'
    then true
    else if c == b'x'
    then true
    else if c == b'c'
    then true
    else c == b's'

-- The `switch` of `dhr_printf`.
unfoldable pub directive : (letter pad width : ℕ) → List Argument → Option Printed
directive letter pad width args =
    if takes_argument letter
    then convert letter pad width args
    else if letter == b'%'
    then some (record { out = b'%' ∷ []; count = 1; args = args })
    else some (record { out = b'%' ∷ letter ∷ []; count = 2; args = args })

-- Where `dhr_printf` stands in the format: in plain text, behind a `%`, or in the width.
pub data Place : Type 0 where
  plain : Place
  percent : Place
  width_of : (pad width : ℕ) → Place

abbrev pub is_digit : ℕ → Bool
is_digit c = leb b'0' c && leb c b'9'

-- Adds what a later part of the format prints.
abbrev pub before : List ℕ → ℕ → Printed → Printed
before out n p = record { out = out ++ p.out; count = n + p.count; args = p.args }

-- `fmt` is the memory from the pointer on; a read past its end is `none`, and so is the NUL in the
-- place of a letter, since the loop then goes on behind it.
unfoldable pub print_from : Place → List ℕ → List Argument → Option Printed
print_from at [] args = none
print_from plain (c ∷ fmt) args =
    if c == 0
    then some (record { out = []; count = 0; args = args })
    else if c == b'%'
    then print_from percent fmt args
    else (do p ← print_from plain fmt args; some (before (c ∷ []) 1 p))
print_from percent (c ∷ fmt) args =
    if c == b'0'
    then print_from (width_of b'0' 0) fmt args
    else if is_digit c
    then print_from (width_of b' ' (c - b'0')) fmt args
    else if c == 0
    then none
    else (do
      d ← directive c b' ' 0 args
      p ← print_from plain fmt d.args
      some (before d.out d.count p))
print_from (width_of pad width) (c ∷ fmt) args =
    if is_digit c
    then print_from (width_of pad (width * 10 + (c - b'0'))) fmt args
    else if c == 0
    then none
    else (do
      d ← directive c pad width args
      p ← print_from plain fmt d.args
      some (before d.out d.count p))

abbrev pub returned : Printed → Option (List ℕ × ℕ)
returned p = some (p.out, p.count)

-- The printed bytes and the returned count.
unfoldable pub dhr_printf : (fmt : List ℕ) → List Argument → Option (List ℕ × ℕ)
dhr_printf fmt args = print_from plain fmt args >>= returned
