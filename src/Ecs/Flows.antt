-- ===== src/Ecs/Flows.antt =====
-- The default mappings of flow records.
use aiguard_siem.Common.{
  ℕ, ◌≡◌, refl, true, Option, some, List, [], ◌∷◌, get_or_else, nat_key, arith, Text, codes,
  text_key, text_eq, find, insert,
}
use aiguard_siem.Common.Int.{ℤ, pos, negsuc}
use aiguard_siem.Events.{Platform, Event, text}
use aiguard_siem.Ecs.Normalizer.{
  to_int64, to_uint16, put_ecs, text_or, int_or, port_or, transformed, string_of, store_value,
  map_value, normalize_from, normalize, register_mapping, initialize_default_mappings,
  protocol_name,
}

module _ (pf : Platform) (stoul : Text → Option ℕ) (stoi : Text → Option ℤ) where
  open pf use {Double}

  -- The custom fields of a flow record, as texts.
  pub record FlowFields : Type 0 where
    pub srcaddr : Text
    pub dstaddr : Text
    pub srcport : Text
    pub dstport : Text
    pub prot : Text
    pub octets : Text
    pub packets : Text

  pub record HasFields (f : FlowFields) (e : Event Double) : Type 0 where
    pub srcaddr : find (codes "srcaddr") e.custom_fields ≡ some (text f.srcaddr)
    pub dstaddr : find (codes "dstaddr") e.custom_fields ≡ some (text f.dstaddr)
    pub srcport : find (codes "srcport") e.custom_fields ≡ some (text f.srcport)
    pub dstport : find (codes "dstport") e.custom_fields ≡ some (text f.dstport)
    pub prot : find (codes "prot") e.custom_fields ≡ some (text f.prot)
    pub octets : find (codes "dOctets") e.custom_fields ≡ some (text f.octets)
    pub packets : find (codes "dPkts") e.custom_fields ≡ some (text f.packets)

  -- The numbers that the conversions read in them.
  pub record Reads (f : FlowFields) (srcport dstport octets packets : ℕ) (prot : ℤ) : Type 0 where
    pub srcport_read : stoul f.srcport ≡ some srcport
    pub dstport_read : stoul f.dstport ≡ some dstport
    pub octets_read : stoul f.octets ≡ some octets
    pub packets_read : stoul f.packets ≡ some packets
    pub prot_read : stoi f.prot ≡ some prot

  -- The names of the protocols by their numbers.
  abbrev pub transports : List (ℕ × Text)
  transports = (1, codes "icmp") ∷ ((6, codes "tcp") ∷ ((17, codes "udp") ∷ []))

  abbrev pub transport_of : ℤ → Text
  transport_of (pos n) = get_or_else (find n transports) (codes "unknown")
  transport_of (negsuc n) = codes "unknown"

  protocol_name-eq-transport_of : (prot : ℤ) → protocol_name pf stoul stoi prot ≡ transport_of prot
  unfolding find
  protocol_name-eq-transport_of (pos n) = ground arith
  protocol_name-eq-transport_of (negsuc n) = refl

  -- An event with the seven fields of a flow record as texts, which the conversions read as numbers,
  -- gets its addresses, ports, bytes and packets from them, and for the protocols 1, 6 and 17 the
  -- transports "icmp", "tcp" and "udp", for any other one "unknown"; nothing throws.
  pub normalize-netflow :
      (f : FlowFields) (srcport dstport octets packets : ℕ) (prot : ℤ) (e : Event Double)
      → HasFields f e
      → Reads f srcport dstport octets packets prot
      → normalize pf (codes "netflow") (initialize_default_mappings pf stoul stoi) e ≡ (
        record e {
          source_ip = f.srcaddr;
          destination_ip = f.dstaddr;
          source_port = to_uint16 (to_int64 srcport);
          destination_port = to_uint16 (to_int64 dstport);
          network_transport = transport_of prot;
          network_bytes_in = to_int64 octets;
          network_packets_in = to_int64 packets;
        },
        true,
      )
  unfolding normalize normalize_from initialize_default_mappings register_mapping insert find
      text_eq put_ecs text_or int_or port_or transformed string_of store_value map_value
  normalize-netflow f srcport dstport octets packets prot e h r =
      rw
        (
          h.srcaddr,
          h.dstaddr,
          h.srcport,
          r.srcport_read,
          h.dstport,
          r.dstport_read,
          h.prot,
          r.prot_read,
          ← protocol_name-eq-transport_of prot,
          h.octets,
          r.octets_read,
          h.packets,
          r.packets_read,
        )
        refl
