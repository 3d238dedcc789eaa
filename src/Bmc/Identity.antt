-- ===== src/Bmc/Identity.antt =====
-- The clock identity that `initData` makes of the MAC address.
use xge_ptpv.Common.{ℕ, ◌≡◌, refl, sym, ◌∙◌, ap, List, [], ◌∷◌, length, get_or, arith}
use xge_ptpv.Bmc.{eui64}

-- The MAC address inside a clock identity.
abbrev mac_of : List ℕ → List ℕ
mac_of c =
    get_or c 0 0 ∷ get_or c 1 0 ∷ get_or c 2 0 ∷ get_or c 5 0 ∷ get_or c 6 0 ∷ get_or c 7 0 ∷ []

six :
    (u : List ℕ)
    → length u ≡ 6
    → u
      ≡ get_or u 0 0 ∷ get_or u 1 0 ∷ get_or u 2 0 ∷ get_or u 3 0 ∷ get_or u 4 0 ∷ get_or u 5 0 ∷ []
six [] h = absurd (omega arith)
six (a ∷ []) h = absurd (omega arith)
six (a ∷ b ∷ []) h = absurd (omega arith)
six (a ∷ b ∷ c ∷ []) h = absurd (omega arith)
six (a ∷ b ∷ c ∷ d ∷ []) h = absurd (omega arith)
six (a ∷ b ∷ c ∷ d ∷ e ∷ []) h = absurd (omega arith)
six (a ∷ b ∷ c ∷ d ∷ e ∷ f ∷ []) h = refl
six (a ∷ b ∷ c ∷ d ∷ e ∷ f ∷ g ∷ u) h = absurd (omega arith)

mac_of-eui64 : (u : List ℕ) → length u ≡ 6 → mac_of (eui64 u) ≡ u
unfolding eui64
mac_of-eui64 u h = sym (six u h)

-- The clock identity made of a MAC address of 6 octets has 8 octets, and two different addresses of
-- 6 octets have different ones.
pub eui64_inj :
    (u v : List ℕ)
    → length u ≡ 6
    → length v ≡ 6
    → (length (eui64 u) ≡ 8) × (eui64 u ≡ eui64 v → u ≡ v)
unfolding eui64
eui64_inj u v hu hv = (refl, λ e. sym (mac_of-eui64 u hu) ∙ ap mac_of e ∙ mac_of-eui64 v hv)
