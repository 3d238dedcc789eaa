-- ===== src/Msg/Octets.antt =====
-- Message buffers, written and read in network order. The C code reaches every octet of `msgObuf`
-- and `msgIbuf` by a constant offset below PACKET_SIZE, so a buffer is a function of the offset.
-- A store of `flip16(v)` on the little-endian host puts the high octet first.
use xge_ptpv.Common.{
  ℕ, ◌+◌, ◌-◌, ◌*◌, ◌/◌, ◌%◌, ◌^◌, ◌≡◌, refl, ◌&&◌, List, [], ◌∷◌, ltb, leb, ◌==◌, if◌then◌else◌,
  get_or, length, arith,
}
use xge_ptpv.Common.Int.{ℤ, residue}

abbrev pub Buffer : Type 0
Buffer = ℕ → ℕ

-- Stores follow one another: `buf ▷ put8 0 1 ▷ put8 1 2`.
infixl 20 ◌▷◌
abbrev pub ◌▷◌ : Buffer → (Buffer → Buffer) → Buffer
b ▷ store = store b

unfoldable pub put8 : ℕ → ℕ → Buffer → Buffer
put8 i v b j = if j == i then v % 2 ^ 8 else b j

unfoldable pub put16 : ℕ → ℕ → Buffer → Buffer
unfolding put8
put16 i v b = b ▷ put8 i (v / 2 ^ 8) ▷ put8 (i + 1) v

unfoldable pub put32 : ℕ → ℕ → Buffer → Buffer
unfolding put16
put32 i v b = b ▷ put16 i (v / 2 ^ 16) ▷ put16 (i + 2) v

-- A signed octet, by its bit pattern.
unfoldable pub put_int8 : ℕ → ℤ → Buffer → Buffer
unfolding put8
put_int8 i z = put8 i (residue (2 ^ 8) z)

-- `memset(buf + i, 0, n)`
unfoldable pub clear : ℕ → ℕ → Buffer → Buffer
clear i n b j = if leb i j && ltb j (i + n) then 0 else b j

-- `memcpy(buf + i, xs, n)`
unfoldable pub copy : ℕ → ℕ → List ℕ → Buffer → Buffer
copy i n xs b j = if leb i j && ltb j (i + n) then get_or xs (j - i) 0 else b j

abbrev pub get16 : Buffer → ℕ → ℕ
get16 b i = b i * 2 ^ 8 + b (i + 1)

abbrev pub get32 : Buffer → ℕ → ℕ
get32 b i = get16 b i * 2 ^ 16 + get16 b (i + 2)

-- The 8 octets of a clock identity.
abbrev pub get_identity : Buffer → ℕ → List ℕ
get_identity b i =
    b i ∷ b (i + 1) ∷ b (i + 2) ∷ b (i + 3) ∷ b (i + 4) ∷ b (i + 5) ∷ b (i + 6) ∷ b (i + 7) ∷ []

-- `copyClockIdentity(buf + i, xs)`
unfoldable pub put_identity : ℕ → List ℕ → Buffer → Buffer
unfolding copy
put_identity i = copy i 8

pub eight :
    (u : List ℕ)
    → length u ≡ 8
    → get_or u 0 0
        ∷ get_or u 1 0
        ∷ get_or u 2 0
        ∷ get_or u 3 0
        ∷ get_or u 4 0
        ∷ get_or u 5 0
        ∷ get_or u 6 0
        ∷ get_or u 7 0
        ∷ []
      ≡ u
eight [] h = absurd (omega arith)
eight (a ∷ []) h = absurd (omega arith)
eight (a ∷ b ∷ []) h = absurd (omega arith)
eight (a ∷ b ∷ c ∷ []) h = absurd (omega arith)
eight (a ∷ b ∷ c ∷ d ∷ []) h = absurd (omega arith)
eight (a ∷ b ∷ c ∷ d ∷ e ∷ []) h = absurd (omega arith)
eight (a ∷ b ∷ c ∷ d ∷ e ∷ f ∷ []) h = absurd (omega arith)
eight (a ∷ b ∷ c ∷ d ∷ e ∷ f ∷ g ∷ []) h = absurd (omega arith)
eight (a ∷ b ∷ c ∷ d ∷ e ∷ f ∷ g ∷ k ∷ []) h = refl
eight (a ∷ b ∷ c ∷ d ∷ e ∷ f ∷ g ∷ k ∷ l ∷ u) h = absurd (omega arith)
