-- ===== src/Bsp/Libc.antt =====
-- The string functions of rtos/bsp/libc_stubs.c, on the memory of the machine.
pub mod Blocks
pub mod Strings
use takshaka.Base.{ℕ, zero, suc, ◌+◌, ◌-◌, ◌%◌, ◌^◌, ◌==◌, ltb, if◌then◌else◌, Option, none, some}

-- The byte at each address.
abbrev pub Memory : Type 0
Memory = ℕ → ℕ

abbrev pub store : Memory → ℕ → ℕ → Memory
store m a v x = if x == a then v else m x

-- `while (n--) *dd++ = *ss++`
unfoldable pub memcpy : Memory → ℕ → ℕ → ℕ → Memory
memcpy m d s zero = m
memcpy m d s (suc n) = memcpy (store m d (m s)) (d + 1) (s + 1) n

unfoldable pub memset : Memory → ℕ → ℕ → ℕ → Memory
memset m d c zero = m
memset m d c (suc n) = memset (store m d (c % 2 ^ 8)) (d + 1) c n

-- `while (n--) *--dd = *--ss`, with `dd` at `d + n` and `ss` at `s + n`.
unfoldable pub copy_down : Memory → ℕ → ℕ → ℕ → Memory
copy_down m d s zero = m
copy_down m d s (suc n) = copy_down (store m (d + n) (m (s + n))) d s n

-- The first loop is that of `memcpy`.
unfoldable pub memmove : Memory → ℕ → ℕ → ℕ → Memory
memmove m d s n = if ltb d s then memcpy m d s n else copy_down m d s n

-- `*p1 - *p2`, an `int` as its bit pattern.
abbrev pub byte_difference : ℕ → ℕ → ℕ
byte_difference a b = (a + (2 ^ 32 - b)) % 2 ^ 32

unfoldable pub memcmp : Memory → ℕ → ℕ → ℕ → ℕ
memcmp m p1 p2 zero = 0
memcmp m p1 p2 (suc n) =
    let rest = memcmp m (p1 + 1) (p2 + 1) n in
    if m p1 == m p2 then rest else byte_difference (m p1) (m p2)

-- `while (n--) { *d++ = '\0'; }`
unfoldable pub pad_nuls : Memory → ℕ → ℕ → Memory
pad_nuls m d zero = m
pad_nuls m d (suc n) = pad_nuls (store m d 0) (d + 1) n

unfoldable pub strncpy : Memory → ℕ → ℕ → ℕ → Memory
strncpy m d s zero = m
strncpy m d s (suc n) =
    let rest = strncpy (store m d (m s)) (d + 1) (s + 1) n in
    if m s == 0 then pad_nuls m d (suc n) else rest

-- `while (s[len]) len++`, in at most `fuel` rounds.
unfoldable pub strlen : Memory → ℕ → ℕ → ℕ → Option ℕ
strlen m s len zero = none
strlen m s len (suc fuel) =
    let rest = strlen m s (len + 1) fuel in if m (s + len) == 0 then some len else rest
