-- ===== src/Transport/Crc.antt =====
-- The frame check sequence: `reverse_8b`, `reverse_32b`, `nextCRC32_D8` and `calculate_crc` of
-- esl/sw/dep/transport.cpp. Words are numbers, taken apart into bits and put together as the loops
-- do.
use Prim.Native.Nat.{bit_xor}
use xge_ptpv.Common.{ℕ, zero, suc, ◌+◌, ◌-◌, ◌*◌, ◌/◌, ◌%◌, ◌^◌, List, [], ◌∷◌}

-- `(data >> i) & 0x1`
abbrev pub bit : ℕ → ℕ → ℕ
bit word i = word / 2 ^ i % 2

-- The lowest `n` bits of a word, in the opposite order.
unfoldable pub reverse_bits : ℕ → ℕ → ℕ
reverse_bits zero word = 0
reverse_bits (suc n) word = bit word n + 2 * reverse_bits n word

abbrev pub reverse_8b : ℕ → ℕ
reverse_8b word = reverse_bits 8 word

abbrev pub reverse_32b : ℕ → ℕ
reverse_32b word = reverse_bits 32 word

-- A chain of `^`.
unfoldable pub xors : List ℕ → ℕ
xors [] = 0
xors (b ∷ bs) = bit_xor b (xors bs)

-- The bits put together, the lowest first.
unfoldable pub word_of : List ℕ → ℕ
word_of [] = 0
word_of (b ∷ bs) = b + 2 * word_of bs

-- `nextCRC32_D8`, with the table of the source.
unfoldable pub next_crc32_d8 : ℕ → ℕ → ℕ
next_crc32_d8 octet current =
    let d : ℕ → ℕ = λ i. bit octet i in
    let q : ℕ → ℕ = λ i. bit current i in
    word_of (
      xors (q 24 ∷ q 30 ∷ d 0 ∷ d 6 ∷ [])
      ∷ xors (q 24 ∷ q 25 ∷ q 30 ∷ q 31 ∷ d 0 ∷ d 1 ∷ d 6 ∷ d 7 ∷ [])
      ∷ xors (q 24 ∷ q 25 ∷ q 26 ∷ q 30 ∷ q 31 ∷ d 0 ∷ d 1 ∷ d 2 ∷ d 6 ∷ d 7 ∷ [])
      ∷ xors (q 25 ∷ q 26 ∷ q 27 ∷ q 31 ∷ d 1 ∷ d 2 ∷ d 3 ∷ d 7 ∷ [])
      ∷ xors (q 24 ∷ q 26 ∷ q 27 ∷ q 28 ∷ q 30 ∷ d 0 ∷ d 2 ∷ d 3 ∷ d 4 ∷ d 6 ∷ [])
      ∷ xors (
          q 24
          ∷ q 25
          ∷ q 27
          ∷ q 28
          ∷ q 29
          ∷ q 30
          ∷ q 31
          ∷ d 0
          ∷ d 1
          ∷ d 3
          ∷ d 4
          ∷ d 5
          ∷ d 6
          ∷ d 7
          ∷ [])
      ∷ xors (q 25 ∷ q 26 ∷ q 28 ∷ q 29 ∷ q 30 ∷ q 31 ∷ d 1 ∷ d 2 ∷ d 4 ∷ d 5 ∷ d 6 ∷ d 7 ∷ [])
      ∷ xors (q 24 ∷ q 26 ∷ q 27 ∷ q 29 ∷ q 31 ∷ d 0 ∷ d 2 ∷ d 3 ∷ d 5 ∷ d 7 ∷ [])
      ∷ xors (q 0 ∷ q 24 ∷ q 25 ∷ q 27 ∷ q 28 ∷ d 0 ∷ d 1 ∷ d 3 ∷ d 4 ∷ [])
      ∷ xors (q 1 ∷ q 25 ∷ q 26 ∷ q 28 ∷ q 29 ∷ d 1 ∷ d 2 ∷ d 4 ∷ d 5 ∷ [])
      ∷ xors (q 2 ∷ q 24 ∷ q 26 ∷ q 27 ∷ q 29 ∷ d 0 ∷ d 2 ∷ d 3 ∷ d 5 ∷ [])
      ∷ xors (q 3 ∷ q 24 ∷ q 25 ∷ q 27 ∷ q 28 ∷ d 0 ∷ d 1 ∷ d 3 ∷ d 4 ∷ [])
      ∷ xors
          (q 4 ∷ q 24 ∷ q 25 ∷ q 26 ∷ q 28 ∷ q 29 ∷ q 30 ∷ d 0 ∷ d 1 ∷ d 2 ∷ d 4 ∷ d 5 ∷ d 6 ∷ [])
      ∷ xors
          (q 5 ∷ q 25 ∷ q 26 ∷ q 27 ∷ q 29 ∷ q 30 ∷ q 31 ∷ d 1 ∷ d 2 ∷ d 3 ∷ d 5 ∷ d 6 ∷ d 7 ∷ [])
      ∷ xors (q 6 ∷ q 26 ∷ q 27 ∷ q 28 ∷ q 30 ∷ q 31 ∷ d 2 ∷ d 3 ∷ d 4 ∷ d 6 ∷ d 7 ∷ [])
      ∷ xors (q 7 ∷ q 27 ∷ q 28 ∷ q 29 ∷ q 31 ∷ d 3 ∷ d 4 ∷ d 5 ∷ d 7 ∷ [])
      ∷ xors (q 8 ∷ q 24 ∷ q 28 ∷ q 29 ∷ d 0 ∷ d 4 ∷ d 5 ∷ [])
      ∷ xors (q 9 ∷ q 25 ∷ q 29 ∷ q 30 ∷ d 1 ∷ d 5 ∷ d 6 ∷ [])
      ∷ xors (q 10 ∷ q 26 ∷ q 30 ∷ q 31 ∷ d 2 ∷ d 6 ∷ d 7 ∷ [])
      ∷ xors (q 11 ∷ q 27 ∷ q 31 ∷ d 3 ∷ d 7 ∷ [])
      ∷ xors (q 12 ∷ q 28 ∷ d 4 ∷ [])
      ∷ xors (q 13 ∷ q 29 ∷ d 5 ∷ [])
      ∷ xors (q 14 ∷ q 24 ∷ d 0 ∷ [])
      ∷ xors (q 15 ∷ q 24 ∷ q 25 ∷ q 30 ∷ d 0 ∷ d 1 ∷ d 6 ∷ [])
      ∷ xors (q 16 ∷ q 25 ∷ q 26 ∷ q 31 ∷ d 1 ∷ d 2 ∷ d 7 ∷ [])
      ∷ xors (q 17 ∷ q 26 ∷ q 27 ∷ d 2 ∷ d 3 ∷ [])
      ∷ xors (q 18 ∷ q 24 ∷ q 27 ∷ q 28 ∷ q 30 ∷ d 0 ∷ d 3 ∷ d 4 ∷ d 6 ∷ [])
      ∷ xors (q 19 ∷ q 25 ∷ q 28 ∷ q 29 ∷ q 31 ∷ d 1 ∷ d 4 ∷ d 5 ∷ d 7 ∷ [])
      ∷ xors (q 20 ∷ q 26 ∷ q 29 ∷ q 30 ∷ d 2 ∷ d 5 ∷ d 6 ∷ [])
      ∷ xors (q 21 ∷ q 27 ∷ q 30 ∷ q 31 ∷ d 3 ∷ d 6 ∷ d 7 ∷ [])
      ∷ xors (q 22 ∷ q 28 ∷ q 31 ∷ d 4 ∷ d 7 ∷ [])
      ∷ xors (q 23 ∷ q 29 ∷ d 5 ∷ [])
      ∷ [])

-- The loop of `calculate_crc`.
unfoldable pub crc_of : List ℕ → ℕ → ℕ
crc_of [] current = current
crc_of (b ∷ bs) current = crc_of bs (next_crc32_d8 (reverse_8b b) current)

-- `calculate_crc`
unfoldable pub calculate_crc : List ℕ → ℕ
calculate_crc frame = 2 ^ 32 - 1 - reverse_32b (crc_of frame (2 ^ 32 - 1))
