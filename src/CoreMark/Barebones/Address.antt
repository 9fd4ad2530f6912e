-- ===== src/CoreMark/Barebones/Address.antt =====
-- `eaddr` and `iaddr` of coremark/src/barebones/ee_printf.c: a hardware address and an Internet address.
-- The address is the memory from the pointer on; a read behind it is `none`.
use takshaka.Base.{
  ℕ, zero, suc, ◌-◌, ◌/◌, ◌%◌, ◌==◌, leb, not, if◌then◌else◌, Option, none, some, ◌>>=◌, List, [],
  ◌∷◌, ◌++◌, length, replicate, get_or,
}
use takshaka.CoreMark.Barebones.{Flags, digits, upper_digits}

-- Text in a field of so many places.
unfoldable pub in_field : (size : ℕ) → Flags → (text : List ℕ) → List ℕ
in_field size f text =
    if not f.left
    then replicate (size - length text) b' ' ++ text
    else text ++ replicate (size - length text) b' '

-- The rounds from the second one on, each behind a separator.
unfoldable pub eaddr_loop : (rounds : ℕ) (dig addr : List ℕ) → Option (List ℕ)
eaddr_loop zero dig addr = some []
eaddr_loop (suc rounds) dig [] = none
eaddr_loop (suc rounds) dig (a ∷ addr) = do
  rest ← eaddr_loop rounds dig addr
  some (b':' ∷ get_or dig (a / 16) 0 ∷ get_or dig (a % 16) 0 ∷ rest)

unfoldable pub eaddr : (addr : List ℕ) (size : ℕ) → Flags → Option (List ℕ)
eaddr [] size f = none
eaddr (a ∷ addr) size f =
    let dig = if f.uppercase then upper_digits else digits in
    do
      rest ← eaddr_loop 5 dig addr
      some (in_field size f (get_or dig (a / 16) 0 ∷ get_or dig (a % 16) 0 ∷ rest))

-- One byte in decimal.
unfoldable pub octet : ℕ → List ℕ
octet n =
    if n == 0
    then get_or digits 0 0 ∷ []
    else if leb 100 n
    then get_or digits (n / 100) 0
      ∷ get_or digits (n % 100 / 10) 0
      ∷ get_or digits (n % 100 % 10) 0
      ∷ []
    else if leb 10 n
    then get_or digits (n / 10) 0 ∷ get_or digits (n % 10) 0 ∷ []
    else get_or digits n 0 ∷ []

unfoldable pub iaddr_loop : (rounds : ℕ) (addr : List ℕ) → Option (List ℕ)
iaddr_loop zero addr = some []
iaddr_loop (suc rounds) [] = none
iaddr_loop (suc rounds) (a ∷ addr) = do
  rest ← iaddr_loop rounds addr
  some (b'.' ∷ (octet a ++ rest))

unfoldable pub iaddr : (addr : List ℕ) (size : ℕ) → Flags → Option (List ℕ)
iaddr [] size f = none
iaddr (a ∷ addr) size f = do rest ← iaddr_loop 3 addr; some (in_field size f (octet a ++ rest))
