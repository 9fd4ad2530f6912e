-- ===== src/CoreMark/Crc.antt =====
-- The checksum functions of coremark/src/core_util.c.
pub mod Shift
use takshaka.Base.{ℕ, zero, suc, ◌/◌, ◌%◌, ◌^◌, bit_and, bit_or, bit_xor, ◌==◌, if◌then◌else◌}

-- The register after one round of `crcu8`. `carry` is `x16`, so the two tests of the source are one.
crcu8_round : ℕ → ℕ → ℕ
crcu8_round byte crc =
    let x16 = bit_xor (bit_and byte 1) (bit_and (crc % 2 ^ 8) 1) in
    if x16 == 1 then bit_or (bit_xor crc 0x4002 / 2) 0x8000 else bit_and (crc / 2) 0x7fff

-- The loop with the rounds left.
crcu8_loop : ℕ → ℕ → ℕ → ℕ
unfolding crcu8_round
crcu8_loop zero byte crc = crc
crcu8_loop (suc n) byte crc = crcu8_loop n (byte / 2) (crcu8_round byte crc)

unfoldable pub crcu8 : ℕ → ℕ → ℕ
unfolding crcu8_loop
crcu8 byte crc = crcu8_loop 8 byte crc

unfoldable pub crcu16 : ℕ → ℕ → ℕ
crcu16 newval crc = crcu8 (newval / 2 ^ 8 % 2 ^ 8) (crcu8 (newval % 2 ^ 8) crc)

-- An `ee_s16` is its bit pattern, so the cast of the source changes nothing.
unfoldable pub crc16 : ℕ → ℕ → ℕ
crc16 newval crc = crcu16 newval crc

unfoldable pub crcu32 : ℕ → ℕ → ℕ
crcu32 newval crc = crc16 (newval / 2 ^ 16 % 2 ^ 16) (crc16 (newval % 2 ^ 16) crc)
