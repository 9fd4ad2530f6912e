-- ===== src/CoreMark/Barebones/Vsprintf.antt =====
-- `ee_vsprintf` and `ee_printf` of coremark/src/barebones/ee_printf.c.
use takshaka.Base.{
  ℕ, zero, suc, ◌+◌, ◌-◌, ◌*◌, ◌%◌, ◌^◌, ◌==◌, ltb, leb, Bool, true, false, ◌&&◌, ◌||◌,
  if◌then◌else◌, Option, none, some, ◌>>=◌, List, [], ◌∷◌, ◌++◌, length, codes,
}
use takshaka.CoreMark.Barebones.{Flags, number, strnlen}
use takshaka.CoreMark.Barebones.Address.{in_field, eaddr, iaddr}

-- An argument: a word, or a pointer with the memory from it on, NULL being `none`.
pub data Argument : Type 0 where
  word : ℕ → Argument
  pointer : Option (List ℕ) → Argument

abbrev pub no_flags : Flags
no_flags = record {
  zeropad = false;
  sign = false;
  plus = false;
  space = false;
  left = false;
  hex_prep = false;
  uppercase = false;
}

-- Where `ee_vsprintf` stands in the format. A field width or a precision of -1 is `none`.
pub data Place : Type 0 where
  in_text : Place
  in_flags : Flags → Place
  in_width : Flags → (width : ℕ) → Place
  behind_width : Flags → (width : Option ℕ) → Place
  at_precision : Flags → (width : Option ℕ) → Place
  in_precision : Flags → (width : Option ℕ) (precision : ℕ) → Place
  behind_precision : Flags → (width precision : Option ℕ) → Place
  behind_qualifier : Flags → (width precision : Option ℕ) (qualifier : ℕ) → Place

-- What a byte of a conversion does: the conversion goes on, it is done, or the format ends in it. Each
-- holds the arguments that are left.
pub data Read : Type 0 where
  go : Place → List Argument → Read
  done : (out : List ℕ) → List Argument → Read
  ended : (out : List ℕ) → List Argument → Read

abbrev pub is_digit : ℕ → Bool
is_digit c = leb b'0' c && leb c b'9'

-- A round of `skip_atoi`; a sum that an `int` does not hold is `none`.
unfoldable pub add_digit : (i c : ℕ) → Option ℕ
add_digit i c = if ltb (i * 10 + c) (2 ^ 31) then some (i * 10 + c - b'0') else none

abbrev pub or_zero : Option ℕ → ℕ
or_zero none = 0
or_zero (some n) = n

-- A number argument, in a field.
abbrev integer : (base : ℕ) → Flags → (width precision : Option ℕ) (num : ℕ) → Option (List ℕ)
integer base f width precision num = number num base (or_zero width) (or_zero precision) f

-- The first so many bytes of a string.
abbrev pub take : ℕ → List ℕ → List ℕ
take zero s = []
take (suc n) [] = []
take (suc n) (c ∷ s) = c ∷ take n s

unfoldable pub put_string : Flags → (width precision : Option ℕ) → Option (List ℕ) → Option (List ℕ)
put_string f width precision s =
    let text : List ℕ = elim s [ none ↦ codes "<NULL>" ++ 0 ∷ [] | some t ↦ t ] in
    do len ← strnlen text precision; some (in_field (or_zero width) f (take len text))

-- `va_arg`; an argument of the other kind, or none, is `none`.
abbrev pub word_arg : List Argument → Option (ℕ × List Argument)
word_arg [] = none
word_arg (word v ∷ args) = some (v, args)
word_arg (pointer s ∷ args) = none

abbrev pub pointer_arg : List Argument → Option (Option (List ℕ) × List Argument)
pointer_arg [] = none
pointer_arg (word v ∷ args) = none
pointer_arg (pointer s ∷ args) = some (s, args)

-- A conversion that writes the number of a word.
abbrev put_number : (base : ℕ) → Flags → (width precision : Option ℕ) → List Argument → Option Read
put_number base f width precision args = do
  (v, args') ← word_arg args
  out ← integer base f width precision v
  some (done out args')

-- `%p` without a width: two digits for each byte.
abbrev put_pointer : Flags → (width precision : Option ℕ) → List Argument → Option Read
put_pointer f none precision args =
    put_number 16 (record f { zeropad = true }) (some 8) precision args
put_pointer f (some w) precision args = put_number 16 f (some w) precision args

abbrev put_address : Flags → (width : Option ℕ) (hardware : Bool) → List Argument → Option Read
put_address f width hardware args = do
  (p, args') ← pointer_arg args
  addr ← p
  out ← (if hardware then eaddr addr (or_zero width) f else iaddr addr (or_zero width) f)
  some (done out args')

-- The second `switch`. Without a qualifier `qualifier` is 0.
unfoldable pub at_letter :
    Flags → (width precision : Option ℕ) (qualifier c : ℕ) → List Argument → Option Read
at_letter f width precision qualifier c args =
    if c == b'c'
    then (do
      (v, args') ← word_arg args
      some (done (in_field (or_zero width) f ((v % 2 ^ 8) ∷ [])) args'))
    else if c == b's'
    then (do
      (s, args') ← pointer_arg args
      out ← put_string f width precision s
      some (done out args'))
    else if c == b'p'
    then put_pointer f width precision args
    else if c == b'A'
    then put_address (record f { uppercase = true }) width (qualifier == b'l') args
    else if c == b'a'
    then put_address f width (qualifier == b'l') args
    else if c == b'o'
    then put_number 8 f width precision args
    else if c == b'X'
    then put_number 16 (record f { uppercase = true }) width precision args
    else if c == b'x'
    then put_number 16 f width precision args
    else if c == b'd' || c == b'i'
    then put_number 10 (record f { sign = true }) width precision args
    else if c == b'u'
    then put_number 10 f width precision args
    else if c == b'%'
    then some (done (b'%' ∷ []) args)
    else if c == 0
    then some (ended (b'%' ∷ []) args)
    else some (done (b'%' ∷ c ∷ []) args)

unfoldable pub at_qualifier :
    Flags → (width precision : Option ℕ) (c : ℕ) → List Argument → Option Read
at_qualifier f width precision c args =
    if c == b'l' || c == b'L'
    then some (go (behind_qualifier f width precision c) args)
    else at_letter f width precision 0 c args

unfoldable pub at_dot : Flags → (width : Option ℕ) (c : ℕ) → List Argument → Option Read
at_dot f width c args =
    if c == b'.' then some (go (at_precision f width) args) else at_qualifier f width none c args

-- `*` takes the width from an argument; a negative one is to the left.
abbrev width_arg : Flags → List Argument → Option Read
width_arg f args = do
  (v, args') ← word_arg args
  some (
      if leb (2 ^ 31) v
      then go (behind_width (record f { left = true }) (some ((2 ^ 32 - v) % 2 ^ 32))) args'
      else go (behind_width f (some v)) args')

unfoldable pub at_width : Flags → (c : ℕ) → List Argument → Option Read
at_width f c args =
    if is_digit c
    then (do i ← add_digit 0 c; some (go (in_width f i) args))
    else if c == b'*'
    then width_arg f args
    else at_dot f none c args

unfoldable pub at_flag : Flags → (c : ℕ) → List Argument → Option Read
at_flag f c args =
    if c == b'-'
    then some (go (in_flags (record f { left = true })) args)
    else if c == b'+'
    then some (go (in_flags (record f { plus = true })) args)
    else if c == b' '
    then some (go (in_flags (record f { space = true })) args)
    else if c == b'#'
    then some (go (in_flags (record f { hex_prep = true })) args)
    else if c == b'0'
    then some (go (in_flags (record f { zeropad = true })) args)
    else at_width f c args

abbrev precision_arg : Flags → (width : Option ℕ) → List Argument → Option Read
precision_arg f width args = do
  (v, args') ← word_arg args
  some (go (behind_precision f width (some (if leb (2 ^ 31) v then 0 else v))) args')

-- One byte of the format. A byte of the text is copied, and a NUL there ends the format.
unfoldable pub read_byte : Place → (c : ℕ) → List Argument → Option Read
read_byte in_text c args =
    if c == 0
    then some (ended [] args)
    else if c == b'%'
    then some (go (in_flags no_flags) args)
    else some (done (c ∷ []) args)
read_byte (in_flags f) c args = at_flag f c args
read_byte (in_width f i) c args =
    if is_digit c
    then (do i' ← add_digit i c; some (go (in_width f i') args))
    else at_dot f (some i) c args
read_byte (behind_width f width) c args = at_dot f width c args
read_byte (at_precision f width) c args =
    if is_digit c
    then (do i ← add_digit 0 c; some (go (in_precision f width i) args))
    else if c == b'*'
    then precision_arg f width args
    else at_qualifier f width (some 0) c args
read_byte (in_precision f width i) c args =
    if is_digit c
    then (do i' ← add_digit i c; some (go (in_precision f width i') args))
    else at_qualifier f width (some i) c args
read_byte (behind_precision f width precision) c args = at_qualifier f width precision c args
read_byte (behind_qualifier f width precision qualifier) c args =
    at_letter f width precision qualifier c args

-- What is written behind the bytes that are read so far.
unfoldable pub format_from : (fmt : List ℕ) → Place → List Argument → Option (List ℕ)
format_from [] place args = none
format_from (c ∷ fmt) place args = read_byte place c args >>= λ r. elim r [
  | go place' args' ↦ format_from fmt place' args'
  | done out args' ↦ (do rest ← format_from fmt in_text args'; some (out ++ rest))
  | ended out args' ↦ some out
]

-- The contents of `buf` before the NUL that is stored at the end; their number is returned.
unfoldable pub ee_vsprintf : (fmt : List ℕ) → List Argument → Option (List ℕ)
ee_vsprintf fmt args = format_from fmt in_text args

-- `while (*p)`: the bytes before the first NUL.
unfoldable pub send_loop : List ℕ → List ℕ
send_loop [] = []
send_loop (c ∷ p) = elim (c == 0) [ true ↦ [] | false ↦ c ∷ send_loop p ]

-- The bytes that are sent; their number is returned. More than 1023 bytes and the NUL do not fit `buf`,
-- which is `none`.
unfoldable pub ee_printf : (fmt : List ℕ) → List Argument → Option (List ℕ)
ee_printf fmt args = do
  buf ← ee_vsprintf fmt args
  if ltb (length buf) 1024 then some (send_loop buf) else none
