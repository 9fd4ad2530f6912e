-- ===== src/CoreMark/Port.antt =====
-- The port layer coremark/src/core_portme.c, and the seeds and the size checks of
-- coremark/src/core_util.c. A printing function is modelled by the bytes that it sends, in order.
pub mod Numbers
pub mod Decimal
pub mod Printf
pub mod DataTypes
use takshaka.Base.{
  ℕ, zero, suc, ◌+◌, ◌-◌, ◌*◌, ◌/◌, ◌%◌, ◌^◌, ◌==◌, leb, ltb, Bool, true, false, not, if◌then◌else◌,
  Option, none, some, List, [], ◌∷◌, ◌++◌, length, get_or, codes, bit_and,
}

-- The seeds, `seed1_volatile` to `seed5_volatile`.
pub record Seeds : Type 0 where
  pub seed1 : ℕ
  pub seed2 : ℕ
  pub seed3 : ℕ
  pub seed4 : ℕ
  pub seed5 : ℕ

unfoldable pub get_seed_32 : Seeds → ℕ → ℕ
get_seed_32 s i =
    if i == 1
    then s.seed1
    else if i == 2
    then s.seed2
    else if i == 3
    then s.seed3
    else if i == 4
    then s.seed4
    else if i == 5
    then s.seed5
    else 0

-- What `sizeof` is for the types of core_portme.h.
pub record Sizes : Type 0 where
  pub ee_u8 : ℕ
  pub ee_u16 : ℕ
  pub ee_s16 : ℕ
  pub ee_s32 : ℕ
  pub ee_u32 : ℕ
  pub ee_ptr_int : ℕ
  pub pointer : ℕ

-- `if (a != b) retval++`, without the message.
abbrev pub mismatch : ℕ → ℕ → ℕ
mismatch a b = if a == b then 0 else 1

unfoldable pub check_data_types : Sizes → ℕ
check_data_types s =
    mismatch s.ee_u8 1
    + mismatch s.ee_u16 2
    + mismatch s.ee_s16 2
    + mismatch s.ee_s32 4
    + mismatch s.ee_u32 4
    + mismatch s.ee_ptr_int s.pointer

-- `_start_tick` and `_stop_tick`, 32-bit reads of the counter.
pub record Ticks : Type 0 where
  pub start_tick : ℕ
  pub stop_tick : ℕ

unfoldable pub start_time : (mtime : ℕ) → Ticks → Ticks
start_time mtime t = record t { start_tick = mtime % 2 ^ 32 }

unfoldable pub stop_time : (mtime : ℕ) → Ticks → Ticks
stop_time mtime t = record t { stop_tick = mtime % 2 ^ 32 }

unfoldable pub get_time : Ticks → ℕ
get_time t = (t.stop_tick + (2 ^ 32 - t.start_tick)) % 2 ^ 32

-- `EE_TICKS_PER_SEC`
abbrev pub ticks_per_sec : ℕ
ticks_per_sec = 100000000

-- Without floating-point numbers a `secs_ret` is an `ee_u32`.
unfoldable pub time_in_secs : (ticks : ℕ) → ℕ
time_in_secs ticks = ticks / ticks_per_sec

-- `(p + 3) & ~3`, of a 32-bit pointer.
unfoldable pub align_mem : ℕ → ℕ
align_mem p = bit_and ((p + 3) % 2 ^ 32) (2 ^ 32 - 4)

-- A line feed is sent behind a carriage return.
abbrev pub putc : ℕ → List ℕ
putc c = if c == b'\n' then b'\r' ∷ b'\n' ∷ [] else c ∷ []

-- `while (v) { b[i++] = '0' + v % 10; v /= 10; }`: the filled part of the buffer, last byte first. A
-- 32-bit number has fewer than 20 digits.
unfoldable pub fill_buffer : (fuel v : ℕ) → List ℕ → List ℕ
fill_buffer zero v b = b
fill_buffer (suc fuel) v b = elim (v == 0) [
  | true ↦ b
  | false ↦ fill_buffer fuel (v / 10) ((b'0' + v % 10) ∷ b)
]

unfoldable pub print_uint : ℕ → List ℕ
print_uint v = if v == 0 then b'0' ∷ [] else fill_buffer 20 v []

-- An `int` is its bit pattern.
unfoldable pub print_int : ℕ → List ℕ
print_int v = if leb (2 ^ 31) v then b'-' ∷ print_uint ((2 ^ 32 - v) % 2 ^ 32) else print_uint v

-- `do { b[i++] = h[v & 0xF]; v >>= 4; } while (v)`
unfoldable pub fill_hex : (fuel v : ℕ) → List ℕ → List ℕ
fill_hex zero v b = b
fill_hex (suc fuel) v b =
    let b' = get_or (codes "0123456789abcdef") (v % 16) 0 ∷ b in
    elim (v / 16 == 0) [ true ↦ b' | false ↦ fill_hex fuel (v / 16) b' ]

-- `while (i < width) b[i++] = '0'`. More than 16 digits do not fit the buffer, which is `none`.
unfoldable pub print_hex : (v width : ℕ) → Option (List ℕ)
print_hex v width =
    let b = fill_hex 8 v [] in
    let padded = replicate_zero (width - length b) b in
    if leb (length padded) 16 then some padded else none
  where
    replicate_zero : ℕ → List ℕ → List ℕ
    replicate_zero zero b = b
    replicate_zero (suc n) b = b'0' ∷ replicate_zero n b
