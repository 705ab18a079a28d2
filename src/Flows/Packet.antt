-- ===== src/Flows/Packet.antt =====
-- collectors/pcap/src/flow_tracker.cpp: the headers of a packet, and the key of its flow. The reads of
-- the packed header structs are loads of their bytes.
use aiguard_siem.Common.{
  ℕ, ◌+◌, ◌*◌, ◌/◌, ◌%◌, Bool, true, false, Option, none, some, ◌&&◌, ◌||◌, if◌then◌else◌, ◌==◌,
  ltb, leb, length, not, Text,
}
use aiguard_siem.Wire.{Outcome, ok, ◌>>=◌, load, le, be, field}

pub record FlowKey : Type 0 where
  pub src_ip : ℕ
  pub dst_ip : ℕ
  pub src_port : ℕ
  pub dst_port : ℕ
  pub protocol : ℕ

-- `operator==`.
unfoldable pub same_key : FlowKey → FlowKey → Bool
same_key a b =
    (a.src_ip == b.src_ip)
    && ((a.dst_ip == b.dst_ip)
        && ((a.src_port == b.src_port)
            && ((a.dst_port == b.dst_port) && (a.protocol == b.protocol))))

abbrev pub reverse_key : FlowKey → FlowKey
reverse_key k = record {
  src_ip = k.dst_ip;
  dst_ip = k.src_ip;
  src_port = k.dst_port;
  dst_port = k.src_port;
  protocol = k.protocol;
}

-- The key, and whether the packet goes forward.
unfoldable pub normalize_key : FlowKey → FlowKey × Bool
normalize_key k =
    if ltb k.src_ip k.dst_ip || ((k.src_ip == k.dst_ip) && leb k.src_port k.dst_port)
    then (k, true)
    else (reverse_key k, false)

abbrev pub eth_size : ℕ
eth_size = 14

abbrev pub ip_size : ℕ
ip_size = 20

abbrev pub tcp_size : ℕ
tcp_size = 20

abbrev pub udp_size : ℕ
udp_size = 8

pub record ParsedPacket : Type 0 where
  pub key : FlowKey
  pub ip_header_len : ℕ
  pub transport_header_len : ℕ

-- The key of an IP header; the addresses stay in network byte order.
abbrev pub packet_of : Text → ℕ → ℕ → ℕ → ℕ → ParsedPacket
packet_of ip header_len transport_len src_port dst_port = record {
  key = record {
    src_ip = le (field ip 12 4);
    dst_ip = le (field ip 16 4);
    src_port = src_port;
    dst_port = dst_port;
    protocol = le (field ip 9 1);
  };
  ip_header_len = header_len;
  transport_header_len = transport_len;
}

-- The ports, from the header behind the IP header.
unfoldable pub parse_transport : Text → ℕ → Text → ℕ → Outcome (Option ParsedPacket)
parse_transport bytes off ip header_len =
    let at : ℕ = off + header_len in
    if le (field ip 9 1) == 6
    then (if ltb (length bytes) (at + tcp_size) then ok none else (do
      tcp ← load bytes at tcp_size
      let offset_words = le (field tcp 12 1) / 16
      ok (
          some (
            packet_of ip header_len (offset_words * 4) (be (field tcp 0 2)) (be (field tcp 2 2))))))
    else (if le (field ip 9 1) == 17
        then (if ltb (length bytes) (at + udp_size) then ok none else (do
          udp ← load bytes at udp_size
          ok (some (packet_of ip header_len udp_size (be (field udp 0 2)) (be (field udp 2 2))))))
        else ok (some (packet_of ip header_len 0 0 0)))

-- An IPv4 header at `off`. (The total length is read and not used.)
unfoldable pub parse_ipv4 : Text → ℕ → Outcome (Option ParsedPacket)
parse_ipv4 bytes off = if ltb (length bytes) (off + ip_size) then ok none else (do
  ip ← load bytes off ip_size
  let version_ihl = le (field ip 0 1)
  let header_len = version_ihl % 16 * 4
  if not (version_ihl / 16 % 16 == 4) || ltb header_len 20
      then ok none
      else parse_transport bytes off ip header_len)

-- `none` where the packet is not tracked.
unfoldable pub parse_packet : Text → Outcome (Option ParsedPacket)
parse_packet bytes = if ltb (length bytes) (eth_size + ip_size) then ok none else (do
  eth ← load bytes 0 eth_size
  let ethertype = be (field eth 12 2)
  if ethertype == 0x0800
      then parse_ipv4 bytes eth_size
      else (if ethertype == 0x8100
          then (if ltb (length bytes) (eth_size + 4 + ip_size) then ok none else (do
            inner ← load bytes (eth_size + 2) 2
            if be inner == 0x0800 then parse_ipv4 bytes (eth_size + 4) else ok none))
          else ok none))

-- The flags of a TCP packet, which `process_packet` reads again.
unfoldable pub read_tcp_flags : Text → FlowKey → Outcome ℕ
read_tcp_flags bytes k =
    if k.protocol == 6
    then (do
      eth ← load bytes 0 eth_size
      let off = if be (field eth 12 2) == 0x8100 then eth_size + 4 else eth_size
      ip ← load bytes off 1
      let at = off + le ip % 16 * 4
      if leb (at + tcp_size) (length bytes)
          then (do flags ← load bytes (at + 13) 1; ok (le flags))
          else ok 0)
    else ok 0
