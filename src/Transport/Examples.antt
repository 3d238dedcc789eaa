-- ===== src/Transport/Examples.antt =====
-- The check value of the CRC-32 of Ethernet, and a frame of a port.
use xge_ptpv.Common.{
  ℕ, zero, suc, ◌+◌, ◌<◌, ◌≤◌, ◌≡◌, refl, ◌∷◌, [], inl, inr, some, length, get_or, arith,
}
use xge_ptpv.Msg.{Buffer}
use xge_ptpv.Transport.{
  Transport, init, calculate_crc, crc_of, next_crc32_d8, xors, word_of, reverse_bits, transmit,
  parse_frame,
}
use xge_ptpv.Transport.Delivery.{parse_frame-transmit, octet}
use xge_ptpv.Transport.Length.{transmit_bounds}

-- The octets "123456789".
check_value :
    calculate_crc (0x31 ∷ 0x32 ∷ 0x33 ∷ 0x34 ∷ 0x35 ∷ 0x36 ∷ 0x37 ∷ 0x38 ∷ 0x39 ∷ []) ≡ 0xCBF4_3926
unfolding calculate_crc crc_of next_crc32_d8 xors word_of reverse_bits
check_value = refl

-- IPv4 behind a SNAP header and two tags.
abbrev port : Transport
unfolding init
port = init 1 1 1 2 2

-- The first octets of a Sync.
abbrev sync : Buffer
sync i = get_or (0x00 ∷ 0x02 ∷ 0x00 ∷ 44 ∷ []) i 0

sync_bound : (i : ℕ) → sync i < 256
sync_bound zero = omega arith
sync_bound (suc zero) = omega arith
sync_bound (suc (suc zero)) = omega arith
sync_bound (suc (suc (suc zero))) = omega arith
sync_bound (suc (suc (suc (suc i)))) = omega arith

parse_frame-transmit_example :
    let frame = transmit port sync 44 0 in
    let found = parse_frame (octet frame) in
    (found.head ≡ some 58)
    × (found.message_type ≡ 0)
    × (found.message_length ≡ 44)
    × ((i : ℕ) → i < 44 → octet frame (58 + i) ≡ sync i)
unfolding port
parse_frame-transmit_example =
    parse_frame-transmit port sync 44 0 (omega arith) (omega arith) (omega arith)
      (inl (ground arith)) (inr (inr refl)) (omega arith) (omega arith) sync_bound

transmit_bounds_example :
    (64 ≤ length (transmit port sync 44 0)) × (length (transmit port sync 44 0) ≤ 256)
transmit_bounds_example = transmit_bounds port sync 44 0 (omega arith)
