-- ===== src/Transport/Parsing.antt =====
-- `parse_frame` and `receive` of esl/sw/dep/transport.cpp: the message in a frame.
use xge_ptpv.Common.{
  ℕ, ◌+◌, ◌*◌, ◌%◌, ◌^◌, Bool, ◌&&◌, ◌||◌, Option, none, some, ltb, leb, ◌==◌, if◌then◌else◌,
}
use xge_ptpv.Msg.{Buffer}

abbrev pub word16 : Buffer → ℕ → ℕ
word16 b i = b i * 2 ^ 8 % 2 ^ 16 + b (i + 1)

-- `next_layer_protocol == 17` and the destination port is one of PTP.
abbrev pub is_ptp_udp : ℕ → ℕ → Bool
is_ptp_udp protocol dport = protocol == 17 && (dport == 319 || dport == 320)

-- The octets of headers from `m` on if the message is one of PTP, for each type of frame.
unfoldable pub ip_overhead : Buffer → ℕ → ℕ → ℕ → ℕ → Option ℕ
ip_overhead b m protocol dport overhead =
    if is_ptp_udp (b (m + protocol)) (word16 b (m + dport)) then some overhead else none

unfoldable pub pppoe_overhead : Buffer → ℕ → Option ℕ
pppoe_overhead b m =
    if word16 b (m + 6) == 0x0021
    then ip_overhead b m 17 30 36
    else if word16 b (m + 6) == 0x0057
    then ip_overhead b m 14 50 56
    else none

unfoldable pub snap_overhead : Buffer → ℕ → Option ℕ
snap_overhead b m =
    let is_snap = b m == 0xaa && b (m + 1) == 0xaa in
    let type = word16 b (m + 6) in
    if is_snap && type == 0x0800
    then ip_overhead b m 17 30 36
    else if is_snap && type == 0x86dd
    then ip_overhead b m 14 50 56
    else if is_snap && type == 0x88f7
    then some 8
    else none

unfoldable pub protocol_overhead : Buffer → ℕ → ℕ → Option ℕ
protocol_overhead b eth_type m =
    if eth_type == 0x88f7
    then some 0
    else if eth_type == 0x0800
    then ip_overhead b m 9 22 28
    else if eth_type == 0x86dd
    then ip_overhead b m 6 42 48
    else if eth_type == 0x8864
    then pppoe_overhead b m
    else if leb eth_type 1500
    then snap_overhead b m
    else none

-- The type field behind the tags, and their octets.
unfoldable pub skip_tags : Buffer → ℕ × ℕ
skip_tags b =
    let outer = word16 b 12 in
    let single = outer == 0x8100 in
    let eth_type = if single then word16 b 16 else outer in
    if eth_type == 0x88a8
      || (eth_type == 0x9100 || (eth_type == 0x9200 || (eth_type == 0x9300 || eth_type == 0x8100)))
    then (word16 b 20, 8)
    else (eth_type, (if single then 4 else 0))

-- Where the message begins, and what its header says.
pub record Parsed : Type 0 where
  pub head : Option ℕ
  pub message_type : ℕ
  pub message_length : ℕ

-- `parse_frame`
unfoldable pub parse_frame : Buffer → Parsed
parse_frame b =
    let tags = skip_tags b in
    elim (protocol_overhead b tags.0 (14 + tags.1)) [
      | some n ↦
          let base = 14 + tags.1 + n in
          record {
            head = some base;
            message_type = b base % 16;
            message_length = word16 b (base + 2);
          }
      | none ↦ record { head = none; message_type = 0xf; message_length = 0 }
    ]

-- `receive`, where the receive buffer holds the first `rx_frm_len` octets of `incoming` and
-- `m_rcvd_frame` held `rcvd_frame`: what `msg_buf` holds then, the message's type and its length.
unfoldable pub receive : Buffer → ℕ → Buffer → Buffer → Buffer × ℕ × ℕ
receive incoming rx_frm_len rcvd_frame msg_buf =
    if ltb 0 rx_frm_len
    then (let frame : Buffer = λ i. if ltb i rx_frm_len then incoming i else rcvd_frame i in
        let found = parse_frame frame in
        elim (found.head) [
          | some base ↦ (
            (λ i. if ltb i found.message_length then frame (base + i) else msg_buf i),
            found.message_type,
            found.message_length,
          )
          | none ↦ (msg_buf, found.message_type, found.message_length)
        ])
    else (msg_buf, 0xf, 0)
