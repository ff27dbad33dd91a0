-- ===== src/Segment/Crc.antt =====
-- `crc32.ChecksumIEEE` of hash/crc32, which the binary codec calls: the reflected polynomial
-- 0xEDB88320, bit by bit.
use Prim.Native.Nat.{bit_xor}
use figwal.Common.{ℕ, zero, suc, ◌/◌, ◌%◌, ◌^◌, ◌<◌, ◌≡◌, refl, arith, [], ◌∷◌, ◌==◌, if◌then◌else◌}
use figwal.Segment.Bytes.{Bytes}

abbrev shift_bit : ℕ → ℕ
shift_bit c = if c % 2 == 1 then bit_xor (c / 2) 0xEDB88320 else c / 2

shift_bits : ℕ → ℕ → ℕ
shift_bits zero c = c
shift_bits (suc n) c = shift_bits n (shift_bit c)

add_byte : ℕ → ℕ → ℕ
unfolding shift_bits
add_byte c b = shift_bits 8 (bit_xor c b)

add_bytes : ℕ → Bytes → ℕ
unfolding add_byte
add_bytes c [] = c
add_bytes c (b ∷ bs) = add_bytes (add_byte c b) bs

-- The result is a uint32.
unfoldable pub crc32 : Bytes → ℕ
unfolding add_bytes
crc32 bytes = bit_xor (add_bytes 0xffff_ffff bytes) 0xffff_ffff % 2 ^ 32

pub crc32-lt : (bytes : Bytes) → crc32 bytes < 2 ^ 32
unfolding crc32
crc32-lt bytes = omega arith

-- The check value of CRC-32/ISO-HDLC: the bytes of "123456789".
crc32_check : crc32 (49 ∷ 50 ∷ 51 ∷ 52 ∷ 53 ∷ 54 ∷ 55 ∷ 56 ∷ 57 ∷ []) ≡ 0xCBF43926
unfolding crc32
crc32_check = refl
