-- ===== src/Transport/Assembly.antt =====
-- `assemble_frame` and `transmit` of esl/sw/dep/transport.cpp: the frame around a message.
use xge_ptpv.Common.{
  ℕ, zero, suc, ◌+◌, ◌-◌, ◌/◌, ◌%◌, ◌^◌, Bool, ◌&&◌, ◌||◌, List, [], ◌∷◌, ◌++◌, length, ltb, leb,
  ◌==◌, if◌then◌else◌,
}
use xge_ptpv.Msg.{Buffer}
use xge_ptpv.Transport.Crc.{calculate_crc}

abbrev pub udp_ipv4 : ℕ
udp_ipv4 = 1

abbrev pub udp_ipv6 : ℕ
udp_ipv6 = 2

abbrev pub ieee_802_3 : ℕ
ieee_802_3 = 3

pub record Transport : Type 0 where
  pub mac_sa : Buffer
  pub mac_da : Buffer
  pub ipv4_sa : Buffer
  pub ipv4_da : Buffer
  pub ipv6_sa : Buffer
  pub ipv6_da : Buffer
  pub network_protocol : ℕ
  pub layer2_encap : ℕ
  pub vlan_tag : ℕ
  pub delay_mechanism : ℕ

-- Octets `i` to `i + n - 1` of an array.
abbrev pub octets_from : ℕ → ℕ → Buffer → List ℕ
octets_from i zero b = []
octets_from i (suc n) b = b i ∷ octets_from (i + 1) n b

-- A loop that appends the first `n` octets of an array.
abbrev pub copied : ℕ → Buffer → List ℕ
copied n b = octets_from 0 n b

-- The two octets of a number of 16 bits.
abbrev pub pair : ℕ → List ℕ
pair w = w / 2 ^ 8 % 2 ^ 8 ∷ w % 2 ^ 8 ∷ []

abbrev pub zeros : ℕ → List ℕ
zeros zero = []
zeros (suc n) = 0 ∷ zeros n

abbrev pub vlan_tags : ℕ → List ℕ
vlan_tags tag =
    if tag == 2
    then 0x88 ∷ 0xa8 ∷ 0x00 ∷ 0x02 ∷ 0x81 ∷ 0x00 ∷ 0x00 ∷ 0x02 ∷ []
    else if tag == 1
    then 0x81 ∷ 0x00 ∷ 0x00 ∷ 0x02 ∷ []
    else []

abbrev pub snap_header : ℕ → List ℕ
snap_header ether2 = 0xaa ∷ 0xaa ∷ 0x00 ∷ 0x00 ∷ 0x00 ∷ 0x00 ∷ pair ether2

abbrev pub pppoe_header : ℕ → List ℕ
pppoe_header ether2 = 0x00 ∷ 0x00 ∷ 0x00 ∷ 0x00 ∷ 0x00 ∷ 0x00 ∷ pair ether2

abbrev pub ipv4_header : Transport → ℕ → List ℕ
ipv4_header t len =
    0x45 ∷ 0x00 ∷ pair (20 + 8 + len)
    ++ 0x00 ∷ 0x00 ∷ 0x00 ∷ 0x00 ∷ 0xff ∷ 17 ∷ 0x00 ∷ 0x00 ∷ copied 4 t.ipv4_sa
    ++ copied 4 t.ipv4_da

abbrev pub ipv6_header : Transport → ℕ → List ℕ
ipv6_header t len =
    0x60 ∷ 0x00 ∷ 0x00 ∷ 0x00 ∷ pair (8 + len + 2)
    ++ 17 ∷ 0xff ∷ copied 16 t.ipv6_sa
    ++ copied 16 t.ipv6_da

-- The header of UDP, where IPv6 has two octets of padding.
abbrev pub udp_header : Bool → ℕ → ℕ → List ℕ
udp_header is_ipv6 dport len =
    0x00 ∷ 0x00 ∷ pair dport ++ pair (if is_ipv6 then 8 + len + 2 else 8 + len) ++ 0xab ∷ 0xcd ∷ []

-- Which headers a frame has, by its length/type field and the type after that.
abbrev pub has_snap : ℕ → Bool
has_snap length_type = leb length_type 1500

abbrev pub has_pppoe : ℕ → Bool
has_pppoe length_type = length_type == 0x8864

abbrev pub has_ipv4 : ℕ → ℕ → Bool
has_ipv4 length_type ether2 =
    length_type == 0x0800
    || ((ltb length_type 1500 && ether2 == 0x0800) || (length_type == 0x8864 && ether2 == 0x0021))

abbrev pub has_ipv6 : ℕ → ℕ → Bool
has_ipv6 length_type ether2 =
    length_type == 0x86dd
    || ((ltb length_type 1500 && ether2 == 0x86dd) || (length_type == 0x8864 && ether2 == 0x0057))

-- The headers after the length/type field, by which of them there are.
unfoldable pub headers : Transport → Bool → Bool → Bool → Bool → ℕ → ℕ → ℕ → List ℕ
headers t snap pppoe ipv4 ipv6 ether2 dport len =
    (if snap then snap_header ether2 else if pppoe then pppoe_header ether2 else [])
    ++ (if ipv4 then ipv4_header t len else [])
    ++ (if ipv6 then ipv6_header t len else [])
    ++ (if ipv4 || ipv6 then udp_header ipv6 dport len else [])

-- The padding of a frame of `len` octets so far.
unfoldable pub pad_len : Bool → ℕ → ℕ → ℕ
pad_len is_ipv6 vlan_tag len =
    if is_ipv6
    then 2
    else 64 - ((if vlan_tag == 2 then len - 8 else if vlan_tag == 1 then len - 4 else len) + 4)

-- The octets of the check sequence.
abbrev pub crc_octets : ℕ → List ℕ
crc_octets crc =
    crc % 2 ^ 8 ∷ crc / 2 ^ 8 % 2 ^ 8 ∷ crc / 2 ^ 16 % 2 ^ 8 ∷ crc / 2 ^ 24 % 2 ^ 8 ∷ []

-- A frame up to its padding.
unfoldable pub unpadded : Transport → Buffer → ℕ → ℕ → ℕ → ℕ → ℕ → List ℕ
unpadded t msg len length_type ether2 tag dport =
    copied 6 t.mac_da
    ++ copied 6 t.mac_sa
    ++ vlan_tags tag
    ++ pair length_type
    ++ headers t (has_snap length_type) (has_pppoe length_type) (has_ipv4 length_type ether2)
        (has_ipv6 length_type ether2) ether2 dport len
    ++ copied len msg

-- `assemble_frame`
unfoldable pub assemble_frame : Transport → Buffer → ℕ → ℕ → ℕ → ℕ → ℕ → List ℕ
assemble_frame t msg len length_type ether2 tag dport =
    let body = unpadded t msg len length_type ether2 tag dport in
    let padded = body ++ zeros (pad_len (has_ipv6 length_type ether2) tag (length body)) in
    padded ++ crc_octets (calculate_crc padded)

-- The length/type field of `transmit`, and the type after it.
unfoldable pub types_of : ℕ → ℕ → ℕ → ℕ × ℕ
types_of encap protocol len =
    if encap == 0
    then (
      (if protocol == udp_ipv4
          then 0x0800
          else if protocol == udp_ipv6
          then 0x86dd
          else if protocol == ieee_802_3
          then 0x88f7
          else 0),
      0,
    )
    else (if encap == 1
        then (if protocol == udp_ipv4
            then ((12 + 2 + 8 + 4 + (20 + 8 + len)) % 2 ^ 16, 0x0800)
            else (if protocol == udp_ipv6
                then ((12 + 2 + 8 + 4 + (40 + 8 + len + 2)) % 2 ^ 16, 0x86dd)
                else (if protocol == ieee_802_3
                    then ((12 + 2 + 8 + 4 + len) % 2 ^ 16, 0x88f7)
                    else (12 + 2 + 8 + 4, 0))))
        else (if encap == 2
            then (
              0x8864,
              (if protocol == udp_ipv4 then 0x0021 else if protocol == udp_ipv6 then 0x0057 else 0),
            )
            else (0, 0)))

-- `transmit`: the frame that is written to the transmit buffer.
unfoldable pub transmit : Transport → Buffer → ℕ → ℕ → List ℕ
transmit t msg len message_type =
    let types = types_of t.layer2_encap t.network_protocol len in
    assemble_frame t msg len types.0 types.1 t.vlan_tag (if ltb message_type 8 then 319 else 320)
