-- ===== src/Transport/Setup.antt =====
-- `init` of esl/sw/dep/transport.cpp: the addresses of a port. `m_clock_id` is an argument.
use xge_ptpv.Common.{ℕ, ◌%◌, ◌^◌, List, [], ◌∷◌, ◌==◌, if◌then◌else◌, get_or}
use xge_ptpv.Msg.{Buffer}
use xge_ptpv.Servo.Offset.{p2p}
use xge_ptpv.Transport.Assembly.{Transport}

abbrev of_list : List ℕ → Buffer
of_list octets i = get_or octets i 0

-- `init`
unfoldable pub init : ℕ → ℕ → ℕ → ℕ → ℕ → Transport
init clock_id network_protocol layer2_encap vlan_tag delay_mechanism =
    let is_p2p = delay_mechanism == p2p in
    let id = clock_id % 2 ^ 8 in
    record {
      mac_sa = of_list (0xb0 ∷ 0x80 ∷ id ∷ 0xd2 ∷ id ∷ id ∷ []);
      mac_da = of_list (
          if is_p2p
          then 0x01 ∷ 0x80 ∷ 0xc2 ∷ 0x00 ∷ 0x00 ∷ 0x0e ∷ []
          else 0x01 ∷ 0x1b ∷ 0x19 ∷ 0x00 ∷ 0x00 ∷ 0x00 ∷ []);
      ipv4_sa = of_list (192 ∷ 168 ∷ id ∷ id ∷ []);
      ipv4_da = of_list (if is_p2p then 224 ∷ 0 ∷ 0 ∷ 107 ∷ [] else 224 ∷ 0 ∷ 1 ∷ 129 ∷ []);
      ipv6_sa = of_list (
          0xfe ∷ 0x80 ∷ 0xbe ∷ 0x10 ∷ 0xdc ∷ 0xd7 ∷ 0x1a ∷ 0xc0 ∷ 0xbd ∷ 0x72 ∷ 0xde ∷ 0x90 ∷ 0x08
          ∷ 0x24 ∷ id ∷ id ∷ []);
      ipv6_da = of_list (
          if is_p2p
          then 0xff ∷ 0x02 ∷ 0 ∷ 0 ∷ 0 ∷ 0 ∷ 0 ∷ 0 ∷ 0 ∷ 0 ∷ 0 ∷ 0 ∷ 0 ∷ 0 ∷ 0x00 ∷ 0x6b ∷ []
          else 0xff ∷ 0x02 ∷ 0 ∷ 0 ∷ 0 ∷ 0 ∷ 0 ∷ 0 ∷ 0 ∷ 0 ∷ 0 ∷ 0 ∷ 0 ∷ 0 ∷ 0x01 ∷ 0x81 ∷ []);
      network_protocol = network_protocol;
      layer2_encap = layer2_encap;
      vlan_tag = vlan_tag;
      delay_mechanism = delay_mechanism;
    }
