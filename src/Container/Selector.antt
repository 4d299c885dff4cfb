-- ===== src/Container/Selector.antt =====
-- wxf/container/selector.go and hashSelector.go: a service is chosen by the CRC-32 of the channel
-- id.
use Prim.Native.Nat.{bit_xor}
use wxf_im.Prelude.{
  ℕ, zero, suc, ◌/◌, ◌%◌, none, some, List, [], ◌∷◌, ◌==◌, if◌then◌else◌, length, get_elem?, Bytes,
  Outcome, ok, panicked,
}
use wxf_im.Wire.Pkt.Message.{Header}
use wxf_im.Container.Clients.{Service}

-- hash/crc32, IEEE polynomial, bit by bit.
crc_bits : ℕ → ℕ → ℕ
crc_bits zero crc = crc
crc_bits (suc n) crc = crc_bits n (if crc % 2 == 1 then bit_xor (crc / 2) 0xedb88320 else crc / 2)

crc_update : ℕ → Bytes → ℕ
crc_update crc [] = crc
crc_update crc (b ∷ bs) = crc_update (crc_bits 8 (bit_xor crc b)) bs

-- HashCode(key)
unfoldable pub hash_code : Bytes → ℕ
unfolding crc_bits crc_update
hash_code key = bit_xor (crc_update 0xffffffff key) 0xffffffff

-- (s *HashSelector) Lookup: `code % 0` and an index out of range panic.
unfoldable pub hash_select : Header → List Service → Outcome Bytes
hash_select h services =
    if length services == 0
    then panicked
    else elim (get_elem? services (hash_code h.channel_id % length services)) [
      | none ↦ panicked
      | some s ↦ ok s.service_id
    ]
