-- ===== src/Transport/Length.antt =====
-- The octets of a frame of esl/sw/dep/transport.cpp, counted.
use xge_ptpv.Common.{
  ℕ, zero, suc, ◌+◌, ◌≤◌, ◌≡◌, refl, ap, ◌⊎◌, Bool, true, false, ◌&&◌, ltb, List, [], ◌∷◌, ◌++◌,
  length, ◌==◌, if◌then◌else◌, arith,
}
use xge_ptpv.Msg.{Buffer}
use xge_ptpv.Transport.{
  Transport, octets_from, copied, zeros, vlan_tags, pair, headers, pad_len, unpadded,
  assemble_frame, types_of, transmit, crc_octets, calculate_crc, has_snap, has_pppoe, has_ipv4,
  has_ipv6,
}

length-++ : (xs ys : List ℕ) → length (xs ++ ys) ≡ length xs + length ys
length-++ [] ys = omega arith
length-++ (x ∷ xs) ys = omega (arith, length-++ xs ys)

length-octets_from : (i n : ℕ) (b : Buffer) → length (octets_from i n b) ≡ n
length-octets_from i zero b = refl
length-octets_from i (suc n) b = ap suc (length-octets_from (i + 1) n b)

length-zeros : (n : ℕ) → length (zeros n) ≡ n
length-zeros zero = refl
length-zeros (suc n) = ap suc (length-zeros n)

-- No frame is both.
one_version :
    (length_type ether2 : ℕ) → (has_ipv4 length_type ether2 && has_ipv6 length_type ether2) ≡ false
one_version length_type ether2 = ground arith

length-headers :
    (t : Transport) (snap pppoe ipv4 ipv6 : Bool) (ether2 dport len : ℕ)
    → (ipv4 && ipv6) ≡ false
    → (length (headers t snap pppoe ipv4 ipv6 ether2 dport len) ≤ 56)
      × (ipv6 ≡ true → 48 ≤ length (headers t snap pppoe ipv4 ipv6 ether2 dport len))
unfolding headers
length-headers t true pppoe true true ether2 dport len h = ground arith
length-headers t true pppoe true false ether2 dport len h = ground arith
length-headers t true pppoe false true ether2 dport len h = ground arith
length-headers t true pppoe false false ether2 dport len h = ground arith
length-headers t false true true true ether2 dport len h = ground arith
length-headers t false true true false ether2 dport len h = ground arith
length-headers t false true false true ether2 dport len h = ground arith
length-headers t false true false false ether2 dport len h = ground arith
length-headers t false false true true ether2 dport len h = ground arith
length-headers t false false true false ether2 dport len h = ground arith
length-headers t false false false true ether2 dport len h = ground arith
length-headers t false false false false ether2 dport len h = ground arith

length-vlan_tags :
    (tag : ℕ) → length (vlan_tags tag) ≡ (if tag == 2 then 8 else if tag == 1 then 4 else 0)
length-vlan_tags tag = ground arith

abbrev tag_len : ℕ → ℕ
tag_len tag = if tag == 2 then 8 else if tag == 1 then 4 else 0

length-unpadded :
    (t : Transport) (msg : Buffer) (len length_type ether2 tag dport : ℕ)
    → let n = length (unpadded t msg len length_type ether2 tag dport) in
      (n ≤ 70 + tag_len tag + len)
      × (14 + tag_len tag + len ≤ n)
      × (has_ipv6 length_type ether2 ≡ true → 62 + tag_len tag + len ≤ n)
unfolding unpadded
length-unpadded t msg len length_type ether2 tag dport =
    let h =
      headers t (has_snap length_type) (has_pppoe length_type) (has_ipv4 length_type ether2)
        (has_ipv6 length_type ether2) ether2 dport len in
    let bounds =
      length-headers t (has_snap length_type) (has_pppoe length_type) (has_ipv4 length_type ether2)
        (has_ipv6 length_type ether2) ether2 dport len (one_version length_type ether2) in
    let front = copied 6 t.mac_da ++ copied 6 t.mac_sa ++ vlan_tags tag in
    let a = length-++ (front ++ pair length_type ++ h) (copied len msg) in
    let b = length-++ (front ++ pair length_type) h in
    let e = length-++ (vlan_tags tag) (pair length_type) in
    let c = length-octets_from 0 len msg in
    let d : length (vlan_tags tag) ≡ tag_len tag = length-vlan_tags tag in
    (omega arith, omega arith, λ is_ipv6. omega (arith, bounds.1 is_ipv6))

length-assemble_frame :
    (t : Transport) (msg : Buffer) (len length_type ether2 tag dport : ℕ)
    → let n = length (assemble_frame t msg len length_type ether2 tag dport) in
      (64 ≤ n) × (n ≤ 84 + len ⊎ n ≤ 76)
unfolding assemble_frame pad_len
length-assemble_frame t msg len length_type ether2 tag dport =
    let body = unpadded t msg len length_type ether2 tag dport in
    let pad = pad_len (has_ipv6 length_type ether2) tag (length body) in
    let a = length-++ body (zeros pad) in
    let b = length-++ (body ++ zeros pad) (crc_octets (calculate_crc (body ++ zeros pad))) in
    let c = length-zeros pad in
    let d = length-unpadded t msg len length_type ether2 tag dport in (ground arith, ground arith)

-- For a message of at most 172 octets and any setting of the port: the frame that `transmit`
-- writes has at least the 64 octets of the shortest Ethernet frame, and at most the 256 of
-- `m_frame_mem`.
pub transmit_bounds :
    (t : Transport) (msg : Buffer) (len message_type : ℕ)
    → len ≤ 172
    → (64 ≤ length (transmit t msg len message_type))
      × (length (transmit t msg len message_type) ≤ 256)
unfolding transmit
transmit_bounds t msg len message_type h =
    let types = types_of t.layer2_encap t.network_protocol len in
    let dport : ℕ = if ltb message_type 8 then 319 else 320 in
    let bounds = length-assemble_frame t msg len types.0 types.1 t.vlan_tag dport in
    (bounds.0, ground arith)
