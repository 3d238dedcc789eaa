-- ===== src/Transport/Snap.antt =====
-- The frames with a SNAP header of esl/sw/dep/transport.cpp, whose length/type field is a length.
use xge_ptpv.Common.{
  ℕ, ◌+◌, ◌≤◌, ◌<◌, ◌≡◌, refl, ap, ◌∙◌, Bool, true, false, List, ◌++◌, some, length, ◌==◌, arith,
}
use xge_ptpv.Msg.{Buffer}
use xge_ptpv.Transport.{
  Transport, copied, zeros, vlan_tags, pair, headers, pad_len, unpadded, assemble_frame, word16,
  has_snap, has_pppoe, has_ipv4, has_ipv6, snap_overhead, protocol_overhead, skip_tags, parse_frame,
  crc_octets, calculate_crc,
}

-- Behind the tags, if any, stands the length.
pub untagged : (b : Buffer) (lt : ℕ) → word16 b 12 ≡ lt → lt ≤ 1500 → skip_tags b ≡ (lt, 0)
unfolding skip_tags
untagged b lt e h = rw e (ground arith)

pub single :
    (b : Buffer) (lt : ℕ)
    → word16 b 12 ≡ 0x8100
    → word16 b 16 ≡ lt
    → lt ≤ 1500
    → skip_tags b ≡ (lt, 4)
unfolding skip_tags
single b lt e f h = rw e (rw f (ground arith))

pub double : (b : Buffer) (lt : ℕ) → word16 b 12 ≡ 0x88a8 → word16 b 20 ≡ lt → skip_tags b ≡ (lt, 8)
unfolding skip_tags
double b lt e f = rw e (rw f refl)

by_length : (b : Buffer) (lt m : ℕ) → lt ≤ 1500 → protocol_overhead b lt m ≡ snap_overhead b m
unfolding protocol_overhead
by_length b lt m h = ground arith

pub parse_snap :
    (b : Buffer) (lt v n : ℕ)
    → skip_tags b ≡ (lt, v)
    → lt ≤ 1500
    → snap_overhead b (14 + v) ≡ some n
    → (parse_frame b).head ≡ some (14 + v + n)
unfolding parse_frame
parse_snap b lt v n e h f =
    rw (e, parse_frame)
      (rw (by_length b lt (14 + v) h) (rw f (ap (λ w. some (14 + w + n)) (ap (λ p. p.1) e))))

-- A frame with the headers that the tests of its types ask for.
abbrev pub frame_with : Transport → Buffer → ℕ → ℕ → ℕ → ℕ → ℕ → Bool → Bool → Bool → Bool → List ℕ
frame_with t msg len length_type ether2 tag dport snap pppoe ipv4 ipv6 =
    let body =
      copied 6 t.mac_da
      ++ copied 6 t.mac_sa
      ++ vlan_tags tag
      ++ pair length_type
      ++ headers t snap pppoe ipv4 ipv6 ether2 dport len
      ++ copied len msg in
    let padded = body ++ zeros (pad_len ipv6 tag (length body)) in
    padded ++ crc_octets (calculate_crc padded)

pub is_length :
    (t : Transport) (msg : Buffer) (len length_type ether2 tag dport : ℕ)
    → length_type < 1500
    → assemble_frame t msg len length_type ether2 tag dport
      ≡ frame_with t msg len length_type ether2 tag dport true false
          (ether2 == 0x0800)
          (ether2 == 0x86dd)
unfolding assemble_frame unpadded
is_length t msg len length_type ether2 tag dport h =
    let with = frame_with t msg len length_type ether2 tag dport in
    let snap : has_snap length_type ≡ true = ground arith in
    let pppoe : has_pppoe length_type ≡ false = ground arith in
    let ipv4 : has_ipv4 length_type ether2 ≡ (ether2 == 0x0800) = ground arith in
    let ipv6 : has_ipv6 length_type ether2 ≡ (ether2 == 0x86dd) = ground arith in
    ap
      (λ x.
        with x (has_pppoe length_type) (has_ipv4 length_type ether2) (has_ipv6 length_type ether2))
      snap
    ∙ ap (λ x. with true x (has_ipv4 length_type ether2) (has_ipv6 length_type ether2)) pppoe
    ∙ ap (λ x. with true false x (has_ipv6 length_type ether2)) ipv4
    ∙ ap (λ x. with true false (ether2 == 0x0800) x) ipv6
