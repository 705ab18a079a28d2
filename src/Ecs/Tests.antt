-- ===== src/Ecs/Tests.antt =====
-- A flow record's event.
use aiguard_siem.Common.{
  ℕ, ◌≡◌, refl, true, Option, none, some, [], ◌∷◌, Text, codes, scan_digits, is_digit,
  if◌then◌else◌, find, text_eq,
}
use aiguard_siem.Common.Int.{ℤ, pos}
use mathlib.Core.Option
use aiguard_siem.Events.{Event, text, empty_event}
use aiguard_siem.Platforms.{whole_numbers}
use aiguard_siem.Ecs.Normalizer.{normalize, initialize_default_mappings, to_int64, to_uint16}
use aiguard_siem.Ecs.Flows.{FlowFields, HasFields, Reads, normalize-netflow}

-- Numbers without a sign.
abbrev stoul : Text → Option ℕ
stoul [] = none
stoul (c ∷ s) = if is_digit c then some (scan_digits 0 (c ∷ s)).0 else none

abbrev stoi : Text → Option ℤ
stoi s = Option.map pos (stoul s)

abbrev fields : FlowFields whole_numbers stoul stoi
fields = record {
  srcaddr = codes "10.0.0.1";
  dstaddr = codes "10.0.0.2";
  srcport = codes "70000";
  dstport = codes "443";
  prot = codes "6";
  octets = codes "1500";
  packets = codes "3";
}

abbrev flow_event : Event ℕ
flow_event =
    let e = empty_event {D = ℕ} in
    record e {
      custom_fields =
          (codes "srcaddr", text fields.srcaddr)
          ∷ (codes "dstaddr", text fields.dstaddr)
          ∷ (codes "srcport", text fields.srcport)
          ∷ (codes "dstport", text fields.dstport)
          ∷ (codes "prot", text fields.prot)
          ∷ (codes "dOctets", text fields.octets)
          ∷ (codes "dPkts", text fields.packets)
          ∷ [];
    }

has_fields : HasFields whole_numbers stoul stoi fields flow_event
unfolding find text_eq
has_fields = record {
  srcaddr = refl;
  dstaddr = refl;
  srcport = refl;
  dstport = refl;
  prot = refl;
  octets = refl;
  packets = refl;
}

reads : Reads whole_numbers stoul stoi fields 70000 443 1500 3 (pos 6)
unfolding scan_digits
reads = record {
  srcport_read = refl;
  dstport_read = refl;
  octets_read = refl;
  packets_read = refl;
  prot_read = refl;
}

normalize-netflow_example :
    normalize whole_numbers
      (codes "netflow")
      (initialize_default_mappings whole_numbers stoul stoi)
      flow_event
    ≡ (
      record flow_event {
        source_ip = fields.srcaddr;
        destination_ip = fields.dstaddr;
        source_port = to_uint16 (to_int64 70000);
        destination_port = to_uint16 (to_int64 443);
        network_transport = codes "tcp";
        network_bytes_in = to_int64 1500;
        network_packets_in = to_int64 3;
      },
      true,
    )
unfolding find
normalize-netflow_example =
    normalize-netflow whole_numbers stoul stoi fields 70000 443 1500 3 (pos 6) flow_event has_fields
      reads
