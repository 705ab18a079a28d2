-- ===== src/Flows/Bounds.antt =====
-- Every packet is parsed within its bounds.
use aiguard_siem.Common.{
  ℕ, ◌+◌, ◌*◌, ◌/◌, ◌%◌, ◌≤◌, ◌≡◌, some, Bool-cases, inl, inr, ◌==◌, ◌||◌, ltb, leb, length, Text,
  arith, take, drop, if◌then◌else◌, Bool, true, not, leb→le,
}
use aiguard_siem.Wire.{IsOk, if-IsOk, load-IsOk, ok, load, load_in_bounds, le, be, field}
use aiguard_siem.Flows.Packet.{
  FlowKey, ParsedPacket, parse_transport, parse_ipv4, parse_packet, read_tcp_flags, eth_size,
  ip_size, tcp_size, udp_size,
}

parse_transport-IsOk :
    (bytes ip : Text) (off header_len : ℕ) → IsOk (parse_transport bytes off ip header_len)
unfolding parse_transport
parse_transport-IsOk bytes ip off header_len =
    if-IsOk (le (field ip 9 1) == 6) _ _
      (λ tcp.
        if-IsOk (ltb (length bytes) (off + header_len + tcp_size)) _ _ (λ short. tt)
          (λ fits. load-IsOk bytes (off + header_len) tcp_size _ (ground arith) (λ x. tt)))
      (λ other.
        if-IsOk (le (field ip 9 1) == 17) _ _
          (λ udp.
            if-IsOk (ltb (length bytes) (off + header_len + udp_size)) _ _ (λ short. tt)
              (λ fits. load-IsOk bytes (off + header_len) udp_size _ (ground arith) (λ x. tt)))
          (λ none_left. tt))

parse_ipv4-IsOk : (bytes : Text) (off : ℕ) → IsOk (parse_ipv4 bytes off)
unfolding parse_ipv4
parse_ipv4-IsOk bytes off =
    if-IsOk (ltb (length bytes) (off + ip_size)) _ _ (λ short. tt)
      (λ fits. load-IsOk bytes off ip_size _ (ground arith) (λ ip.
        let version_ihl : ℕ = le (field ip 0 1) in
        if-IsOk (not (version_ihl / 16 % 16 == 4) || ltb (version_ihl % 16 * 4) 20) _ _ (λ bad. tt)
          (λ good. parse_transport-IsOk bytes ip off (version_ihl % 16 * 4))))

-- Whatever the bytes are, the parser returns: it reads none beyond the packet.
pub parse_packet-IsOk : (bytes : Text) → IsOk (parse_packet bytes)
unfolding parse_packet
parse_packet-IsOk bytes =
    if-IsOk (ltb (length bytes) (eth_size + ip_size)) _ _ (λ short. tt)
      (λ fits. load-IsOk bytes 0 eth_size _ (ground arith) (λ eth.
        if-IsOk (be (field eth 12 2) == 0x0800) _ _ (λ plain. parse_ipv4-IsOk bytes eth_size)
          (λ other.
            if-IsOk (be (field eth 12 2) == 0x8100) _ _
              (λ tagged.
                if-IsOk (ltb (length bytes) (eth_size + 4 + ip_size)) _ _ (λ short. tt)
                  (λ room. load-IsOk bytes (eth_size + 2) 2 _ (ground arith) (λ inner.
                    if-IsOk (be inner == 0x0800) _ _ (λ v4. parse_ipv4-IsOk bytes (eth_size + 4))
                      (λ not_v4. tt))))
              (λ unknown. tt))))

-- The Ethernet header of a packet, and the room that a packet which is tracked leaves behind it.
abbrev ethertype : Text → ℕ
ethertype bytes = be (field (take eth_size (drop 0 bytes)) 12 2)

parsed_room :
    (bytes : Text) (p : ParsedPacket)
    → parse_packet bytes ≡ ok (some p)
    → (eth_size + ip_size ≤ length bytes)
      × ((ethertype bytes == 0x8100) ≡ true → eth_size + 4 + ip_size ≤ length bytes)
unfolding parse_packet load
parsed_room bytes p h = ground arith

-- The second reading of a packet that was parsed stays within it as well.
pub read_tcp_flags-IsOk :
    (bytes : Text) (p : ParsedPacket) (k : FlowKey)
    → parse_packet bytes ≡ ok (some p)
    → IsOk (read_tcp_flags bytes k)
unfolding read_tcp_flags
read_tcp_flags-IsOk bytes p k h =
    let room = parsed_room bytes p h in
    let tagged : Bool = ethertype bytes == 0x8100 in
    let off : ℕ = if tagged then eth_size + 4 else eth_size in
    let within : off + 1 ≤ length bytes = elim (Bool-cases tagged) [
      | inl t ↦ rw t (let r = room.1 t in omega (arith, r))
      | inr t ↦ rw t (let r = room.0 in omega (arith, r))
    ] in
    if-IsOk (k.protocol == 6) _ _
      (λ tcp. rw (load_in_bounds bytes 0 eth_size (omega (arith, room.0))) (
        load-IsOk bytes off 1 _ within (λ ip.
          if-IsOk (leb (off + le ip % 16 * 4 + tcp_size) (length bytes)) _ _
            (λ fits.
              load-IsOk bytes (off + le ip % 16 * 4 + 13) 1 _
                (let f = leb→le (off + le ip % 16 * 4 + tcp_size) (length bytes) fits in
                  omega (arith, f))
                (λ flags. tt))
            (λ short. tt))))
      (λ other. tt)
