-- ===== src/Transport/Delivery.antt =====
-- A frame that `transmit` of esl/sw/dep/transport.cpp writes is parsed by `parse_frame` as the
-- message it carries.
use xge_ptpv.Common.{
  ℕ, zero, suc, ◌+◌, ◌*◌, ◌/◌, ◌%◌, ◌^◌, ◌≤◌, ◌<◌, ◌≡◌, refl, sym, ap, subst, ◌∙◌, ◌⊎◌, ◌≢◌, ltb,
  inl, inr, true, false, List, [], ◌∷◌, ◌++◌, some, get_or, ◌==◌, if◌then◌else◌, arith,
}
use xge_ptpv.Msg.{Buffer}
use xge_ptpv.Transport.Snap.{frame_with, is_length, untagged, single, double, parse_snap}
use xge_ptpv.Transport.{
  Transport, octets_from, copied, headers, unpadded, assemble_frame, types_of, transmit,
  ip_overhead, pppoe_overhead, snap_overhead, protocol_overhead, skip_tags, parse_frame, word16,
}

-- A list of octets as an array.
abbrev pub octet : List ℕ → Buffer
octet xs i = get_or xs i 0

octets_from_get :
    (n i j : ℕ) (b : Buffer) (r s : List ℕ)
    → j < n
    → octet ((octets_from i n b ++ r) ++ s) j ≡ b (i + j)
octets_from_get zero i j b r s h = absurd (omega arith)
octets_from_get (suc n) i zero b r s h = ap b (omega arith)
octets_from_get (suc n) i (suc j) b r s h =
    octets_from_get n (i + 1) j b r s (omega arith) ∙ ap b (omega arith)

copied_get :
    (n : ℕ) (b : Buffer) (r s : List ℕ) (i : ℕ) → i < n → octet ((copied n b ++ r) ++ s) i ≡ b i
copied_get n b r s i h = octets_from_get n 0 i b r s h ∙ ap b (omega arith)

-- The octets of headers in front of a message.
abbrev pub header_len : ℕ → ℕ → ℕ → ℕ
header_len encap protocol tag =
    14
    + 4 * tag
    + (if encap == 0 then 0 else 8)
    + (if protocol == 1 then 28 else if protocol == 2 then 48 else 0)

abbrev drop : ℕ → List ℕ → List ℕ
drop zero xs = xs
drop (suc n) [] = []
drop (suc n) (x ∷ xs) = drop n xs

suc_add : (n i : ℕ) → suc n + i ≡ suc (n + i)
suc_add n i = omega arith

octet-drop : (n i : ℕ) (xs : List ℕ) → octet xs (n + i) ≡ octet (drop n xs) i
octet-drop zero i xs = ap (octet xs) (omega arith)
octet-drop (suc n) i [] = refl
octet-drop (suc n) i (x ∷ xs) = ap (octet (x ∷ xs)) (suc_add n i) ∙ octet-drop n i xs

abbrev pub Carries : List ℕ → ℕ → Buffer → ℕ → Type 0
Carries frame base msg len =
    ((parse_frame (octet frame)).head ≡ some base)
    × ((i : ℕ) → i < len → octet (drop base frame) i ≡ msg i)

abbrev Everywhere : (ℕ → ℕ → Type 0) → Type 0
Everywhere P =
    (tag dport : ℕ)
    → (dport ≡ 319) ⊎ (dport ≡ 320)
    → (tag ≡ 0) ⊎ ((tag ≡ 1) ⊎ (tag ≡ 2))
    → P tag dport

tags_ports :
    (P : ℕ → ℕ → Type 0) → P 0 319 → P 0 320 → P 1 319 → P 1 320 → P 2 319 → P 2 320 → Everywhere P
tags_ports P a b c d e f tag dport (inl p) (inl q) = rw p (rw q a)
tags_ports P a b c d e f tag dport (inr p) (inl q) = rw p (rw q b)
tags_ports P a b c d e f tag dport (inl p) (inr (inl q)) = rw p (rw q c)
tags_ports P a b c d e f tag dport (inr p) (inr (inl q)) = rw p (rw q d)
tags_ports P a b c d e f tag dport (inl p) (inr (inr q)) = rw p (rw q e)
tags_ports P a b c d e f tag dport (inr p) (inr (inr q)) = rw p (rw q f)

module _ (t : Transport) (msg : Buffer) (len : ℕ) where
  abbrev AtEvery : ℕ → ℕ → ℕ → ℕ → ℕ → ℕ → Type 0
  AtEvery encap protocol length_type ether2 tag dport =
      Carries (assemble_frame t msg len length_type ether2 tag dport)
        (header_len encap protocol tag) msg len

  ether_ipv4 : Everywhere (AtEvery 0 1 0x0800 0)
  unfolding assemble_frame unpadded headers parse_frame skip_tags protocol_overhead ip_overhead
      pppoe_overhead snap_overhead
  ether_ipv4 =
      tags_ports (AtEvery 0 1 0x0800 0) (refl, copied_get len msg _ _)
        (refl, copied_get len msg _ _) (refl, copied_get len msg _ _) (refl, copied_get len msg _ _)
        (refl, copied_get len msg _ _) (refl, copied_get len msg _ _)

  ether_ipv6 : Everywhere (AtEvery 0 2 0x86dd 0)
  unfolding assemble_frame unpadded headers parse_frame skip_tags protocol_overhead ip_overhead
      pppoe_overhead snap_overhead
  ether_ipv6 =
      tags_ports (AtEvery 0 2 0x86dd 0) (refl, copied_get len msg _ _)
        (refl, copied_get len msg _ _) (refl, copied_get len msg _ _) (refl, copied_get len msg _ _)
        (refl, copied_get len msg _ _) (refl, copied_get len msg _ _)

  ether_ieee_802_3 : Everywhere (AtEvery 0 3 0x88f7 0)
  unfolding assemble_frame unpadded headers parse_frame skip_tags protocol_overhead ip_overhead
      pppoe_overhead snap_overhead
  ether_ieee_802_3 =
      tags_ports (AtEvery 0 3 0x88f7 0) (refl, copied_get len msg _ _)
        (refl, copied_get len msg _ _) (refl, copied_get len msg _ _) (refl, copied_get len msg _ _)
        (refl, copied_get len msg _ _) (refl, copied_get len msg _ _)

  pppoe_ipv4 : Everywhere (AtEvery 2 1 0x8864 0x0021)
  unfolding assemble_frame unpadded headers parse_frame skip_tags protocol_overhead ip_overhead
      pppoe_overhead snap_overhead
  pppoe_ipv4 =
      tags_ports (AtEvery 2 1 0x8864 0x0021) (refl, copied_get len msg _ _)
        (refl, copied_get len msg _ _) (refl, copied_get len msg _ _) (refl, copied_get len msg _ _)
        (refl, copied_get len msg _ _) (refl, copied_get len msg _ _)

  pppoe_ipv6 : Everywhere (AtEvery 2 2 0x8864 0x0057)
  unfolding assemble_frame unpadded headers parse_frame skip_tags protocol_overhead ip_overhead
      pppoe_overhead snap_overhead
  pppoe_ipv6 =
      tags_ports (AtEvery 2 2 0x8864 0x0057) (refl, copied_get len msg _ _)
        (refl, copied_get len msg _ _) (refl, copied_get len msg _ _) (refl, copied_get len msg _ _)
        (refl, copied_get len msg _ _) (refl, copied_get len msg _ _)

  -- The octets of the length.
  snap_length :
      (length_type : ℕ)
      → length_type ≤ 1500
      → length_type / 2 ^ 8 % 2 ^ 8 * 2 ^ 8 % 2 ^ 16 + length_type % 2 ^ 8 ≡ length_type
  snap_length lt h = omega arith

  module _ (lt : ℕ) (h : lt < 1500) where
    abbrev With : ℕ → ℕ → ℕ → ℕ → Type 0
    With protocol ether2 tag dport =
        Carries
          (frame_with t msg len lt ether2 tag dport true false (ether2 == 0x0800)
            (ether2 == 0x86dd))
          (header_len 1 protocol tag) msg len

    snap_ipv4 : Everywhere (With 1 0x0800)
    unfolding headers snap_overhead ip_overhead
    snap_ipv4 =
        let l : lt ≤ 1500 = omega arith in
        let n = snap_length lt l in
        tags_ports (With 1 0x0800)
          (parse_snap _ lt 0 36 (untagged _ lt n l) l refl, copied_get len msg _ _)
          (parse_snap _ lt 0 36 (untagged _ lt n l) l refl, copied_get len msg _ _)
          (parse_snap _ lt 4 36 (single _ lt refl n l) l refl, copied_get len msg _ _)
          (parse_snap _ lt 4 36 (single _ lt refl n l) l refl, copied_get len msg _ _)
          (parse_snap _ lt 8 36 (double _ lt refl n) l refl, copied_get len msg _ _)
          (parse_snap _ lt 8 36 (double _ lt refl n) l refl, copied_get len msg _ _)

    snap_ipv6 : Everywhere (With 2 0x86dd)
    unfolding headers snap_overhead ip_overhead
    snap_ipv6 =
        let l : lt ≤ 1500 = omega arith in
        let n = snap_length lt l in
        tags_ports (With 2 0x86dd)
          (parse_snap _ lt 0 56 (untagged _ lt n l) l refl, copied_get len msg _ _)
          (parse_snap _ lt 0 56 (untagged _ lt n l) l refl, copied_get len msg _ _)
          (parse_snap _ lt 4 56 (single _ lt refl n l) l refl, copied_get len msg _ _)
          (parse_snap _ lt 4 56 (single _ lt refl n l) l refl, copied_get len msg _ _)
          (parse_snap _ lt 8 56 (double _ lt refl n) l refl, copied_get len msg _ _)
          (parse_snap _ lt 8 56 (double _ lt refl n) l refl, copied_get len msg _ _)

    snap_ieee_802_3 : Everywhere (With 3 0x88f7)
    unfolding headers snap_overhead ip_overhead
    snap_ieee_802_3 =
        let l : lt ≤ 1500 = omega arith in
        let n = snap_length lt l in
        tags_ports (With 3 0x88f7)
          (parse_snap _ lt 0 8 (untagged _ lt n l) l refl, copied_get len msg _ _)
          (parse_snap _ lt 0 8 (untagged _ lt n l) l refl, copied_get len msg _ _)
          (parse_snap _ lt 4 8 (single _ lt refl n l) l refl, copied_get len msg _ _)
          (parse_snap _ lt 4 8 (single _ lt refl n l) l refl, copied_get len msg _ _)
          (parse_snap _ lt 8 8 (double _ lt refl n) l refl, copied_get len msg _ _)
          (parse_snap _ lt 8 8 (double _ lt refl n) l refl, copied_get len msg _ _)

    -- The tests on the types ask for these headers.
    from_With :
        (protocol ether2 : ℕ)
        → Everywhere (With protocol ether2)
        → Everywhere (AtEvery 1 protocol lt ether2)
    from_With protocol ether2 w tag dport d e =
        subst (λ frame. Carries frame (header_len 1 protocol tag) msg len)
          (sym (is_length t msg len lt ether2 tag dport h)) (w tag dport d e)

routes :
    (P : ℕ → ℕ → Type 0)
    → P 0 1
    → P 0 2
    → P 0 3
    → P 1 1
    → P 1 2
    → P 1 3
    → P 2 1
    → P 2 2
    → (encap protocol : ℕ) → encap ≤ 2
    → 1 ≤ protocol
    → protocol ≤ 3
    → (encap ≢ 2) ⊎ (protocol ≢ 3)
    → P encap protocol
routes P a b c d e f g h zero (suc zero) x y z w = a
routes P a b c d e f g h zero (suc (suc zero)) x y z w = b
routes P a b c d e f g h zero (suc (suc (suc zero))) x y z w = c
routes P a b c d e f g h (suc zero) (suc zero) x y z w = d
routes P a b c d e f g h (suc zero) (suc (suc zero)) x y z w = e
routes P a b c d e f g h (suc zero) (suc (suc (suc zero))) x y z w = f
routes P a b c d e f g h (suc (suc zero)) (suc zero) x y z w = g
routes P a b c d e f g h (suc (suc zero)) (suc (suc zero)) x y z w = h
routes P a b c d e f g h (suc (suc zero)) (suc (suc (suc zero))) x y z w = ground arith
routes P a b c d e f g h (suc (suc (suc n))) p x y z w = absurd (omega arith)
routes P a b c d e f g h n zero x y z w = absurd (omega arith)
routes P a b c d e f g h n (suc (suc (suc (suc p)))) x y z w = absurd (omega arith)

module _ (t : Transport) (msg : Buffer) (len : ℕ) (h : len < 1424) where
  abbrev Sent : ℕ → ℕ → Type 0
  Sent encap protocol = Everywhere (λ tag dport.
      let types = types_of encap protocol len in
      Carries (assemble_frame t msg len types.0 types.1 tag dport) (header_len encap protocol tag)
        msg len)

  sent :
      (encap protocol : ℕ)
      → encap ≤ 2
      → 1 ≤ protocol
      → protocol ≤ 3
      → (encap ≢ 2) ⊎ (protocol ≢ 3)
      → Sent encap protocol
  unfolding types_of
  sent =
      routes Sent (ether_ipv4 t msg len) (ether_ipv6 t msg len) (ether_ieee_802_3 t msg len)
        (from_With t msg len _ (omega arith) 1 0x0800 (snap_ipv4 t msg len _ (omega arith)))
        (from_With t msg len _ (omega arith) 2 0x86dd (snap_ipv6 t msg len _ (omega arith)))
        (from_With t msg len _ (omega arith) 3 0x88f7 (snap_ieee_802_3 t msg len _ (omega arith)))
        (pppoe_ipv4 t msg len) (pppoe_ipv6 t msg len)

abbrev port_of : ℕ → ℕ
port_of message_type = if ltb message_type 8 then 319 else 320

port_cases : (message_type : ℕ) → (port_of message_type ≡ 319) ⊎ (port_of message_type ≡ 320)
port_cases n = ground arith

-- What `parse_frame` reads of the message.
parsed :
    (b : Buffer) (base : ℕ)
    → (parse_frame b).head ≡ some base
    → ((parse_frame b).message_type ≡ b base % 16)
      × ((parse_frame b).message_length ≡ word16 b (base + 2))
unfolding parse_frame
parsed b base e = ground arith

-- For each encapsulation (Ethernet, SNAP, PPPoE), protocol (IPv4, IPv6, IEEE 802.3, the last not in
-- PPPoE) and number of VLAN tags that are configured, of a message of 4 to 172 octets, whose frame
-- fits the 256 octets of `m_frame_mem` and `m_rcvd_frame`: the frame that `transmit` writes is taken
-- for one of PTP by `parse_frame`, which finds the message behind the headers, with the type and the
-- length that its own header says, and the octets there are the message's.
pub parse_frame-transmit :
    (t : Transport) (msg : Buffer) (len message_type : ℕ)
    → t.layer2_encap ≤ 2
    → 1 ≤ t.network_protocol
    → t.network_protocol ≤ 3
    → (t.layer2_encap ≢ 2) ⊎ (t.network_protocol ≢ 3)
    → (t.vlan_tag ≡ 0) ⊎ ((t.vlan_tag ≡ 1) ⊎ (t.vlan_tag ≡ 2))
    → 4 ≤ len
    → len ≤ 172
    → ((i : ℕ) → msg i < 256)
    → let frame = transmit t msg len message_type in
      let base = header_len t.layer2_encap t.network_protocol t.vlan_tag in
      let found = parse_frame (octet frame) in
      (found.head ≡ some base)
      × (found.message_type ≡ msg 0 % 16)
      × (found.message_length ≡ 256 * msg 2 + msg 3)
      × ((i : ℕ) → i < len → octet frame (base + i) ≡ msg i)
unfolding transmit
parse_frame-transmit t msg len message_type p q r s tags low high octets =
    let frame = transmit t msg len message_type in
    let base = header_len t.layer2_encap t.network_protocol t.vlan_tag in
    let carried =
      sent t msg len (omega arith) t.layer2_encap t.network_protocol p q r s t.vlan_tag _
        (port_cases message_type) tags in
    let at : (i : ℕ) → i < len → octet frame (base + i) ≡ msg i =
      λ i h. octet-drop base i frame ∙ carried.1 i h in
    let found = parsed (octet frame) base carried.0 in
    let zeroth : octet frame base ≡ msg 0 = ap (octet frame) (omega arith) ∙ at 0 (omega arith) in
    let third : octet frame (base + 2 + 1) ≡ msg 3 =
      ap (octet frame) (omega arith) ∙ at 3 (omega arith) in
    let second = at 2 (omega arith) in
    let bound = octets 2 in
    (carried.0, found.0 ∙ ap (λ n. n % 16) zeroth, found.1 ∙ omega arith, at)
