-- ===== src/Crc.antt =====
-- zlib.crc32: the reflected CRC-32 with the polynomial 0xEDB88320, bit by bit.
use Prim.Native.Nat.{bit_xor}
use pykafka.Prelude.{ℕ, zero, suc, ◌/◌, ◌%◌, List, foldl, ◌==◌, if◌then◌else◌}

crc_step : ℕ → ℕ
crc_step c = if c % 2 == 1 then bit_xor (c / 2) 0xedb8_8320 else c / 2

crc_steps : ℕ → ℕ → ℕ
unfolding crc_step
crc_steps zero c = c
crc_steps (suc k) c = crc_steps k (crc_step c)

crc_byte : ℕ → ℕ → ℕ
unfolding crc_steps
crc_byte c b = crc_steps 8 (bit_xor c b)

unfoldable pub crc32 : List ℕ → ℕ
unfolding crc_byte
crc32 bytes = bit_xor (foldl crc_byte 0xffff_ffff bytes) 0xffff_ffff
