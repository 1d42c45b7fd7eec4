-- ===== src/Modbus/Checksum.antt =====
-- `crc16` and `lrc` of clients/modbus/stub_clients.go.
pub mod Crc
pub mod Lrc
use go_iot_client.Base.{
  ℕ, zero, suc, ◌+◌, ◌-◌, ◌/◌, ◌%◌, bit_and, bit_xor, List, [], ◌∷◌, ◌==◌, if◌then◌else◌,
}

-- One round of the inner loop: `>>` by one place, and `^ 0xA001` where the lowest bit was set.
pub crc_bit : ℕ → ℕ
crc_bit crc = if bit_and crc 0x0001 == 0 then crc / 2 else bit_xor (crc / 2) 0xA001

-- The inner loop, by the rounds left.
pub crc_bits : ℕ → ℕ → ℕ
unfolding crc_bit
crc_bits zero crc = crc
crc_bits (suc n) crc = crc_bits n (crc_bit crc)

-- The outer loop over the bytes.
pub crc_loop : ℕ → List ℕ → ℕ
unfolding crc_bits
crc_loop crc [] = crc
crc_loop crc (b ∷ bs) = crc_loop (crc_bits 8 (bit_xor crc b)) bs

unfoldable pub crc16 : List ℕ → ℕ
unfolding crc_loop
crc16 bs = crc_loop 0xFFFF bs

-- `sum += b` on a byte
pub lrc_sum : ℕ → List ℕ → ℕ
lrc_sum sum [] = sum
lrc_sum sum (b ∷ bs) = lrc_sum ((sum + b) % 256) bs

-- `byte((^sum) + 1)`
unfoldable pub lrc : List ℕ → ℕ
unfolding lrc_sum
lrc bs = (255 - lrc_sum 0 bs + 1) % 256
