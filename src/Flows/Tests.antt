-- ===== src/Flows/Tests.antt =====
-- The tracker on a TCP packet, with a VLAN tag or not, and its reply.
use aiguard_siem.Common.{
  ◌≡◌, ◌⊎◌, refl, true, false, not, some, List, [], ◌∷◌, ◌++◌, replicate, length, Text, arith,
}
use aiguard_siem.Platforms.{whole_numbers}
use aiguard_siem.Events.{seconds}
use aiguard_siem.Wire.{Gives, IsOk, ok, load, le, be, be_from}
use aiguard_siem.Flows.Packet.{
  FlowKey, ParsedPacket, parse_packet, parse_ipv4, parse_transport, read_tcp_flags, normalize_key,
  reverse_key,
}
use aiguard_siem.Flows.Bounds.{parse_packet-IsOk}
use aiguard_siem.Flows.Keys.{normalize_key-reverse_key}
use aiguard_siem.Flows.Features.{flow_features}
use aiguard_siem.Flows.Stats.{new_entry, update_flow_stats}
use aiguard_siem.Flows.Tracker.{FlowTracker, FlowTrackerConfig, new_tracker}
use aiguard_siem.Flows.Invariant.{IsTracked, Call, packet, sweep, run}
use aiguard_siem.Flows.Expiry.{run-IsTracked}

-- From 10.0.0.2:1234 to 10.0.0.1:80, a SYN.
abbrev ip_packet : Text
ip_packet =
    0x45 ∷ 0 ∷ 0 ∷ 40 ∷ 0 ∷ 0 ∷ 0 ∷ 0 ∷ 64 ∷ 6 ∷ 0 ∷ 0 ∷ 10 ∷ 0 ∷ 0 ∷ 2 ∷ 10 ∷ 0 ∷ 0 ∷ 1 ∷ 0x04
    ∷ 0xd2 ∷ 0 ∷ 80 ∷ 0 ∷ 0 ∷ 0 ∷ 0 ∷ 0 ∷ 0 ∷ 0 ∷ 0 ∷ 0x50 ∷ 0x02 ∷ 0 ∷ 0 ∷ 0 ∷ 0 ∷ 0 ∷ 0 ∷ []

abbrev frame : Text
frame = replicate 12 0 ++ (0x08 ∷ 0x00 ∷ ip_packet)

abbrev tagged_frame : Text
tagged_frame = replicate 12 0 ++ (0x81 ∷ 0x00 ∷ 0 ∷ 5 ∷ 0x08 ∷ 0x00 ∷ ip_packet)

abbrev syn_key : FlowKey
syn_key = record {
  src_ip = 0x0200000a;
  dst_ip = 0x0100000a;
  src_port = 1234;
  dst_port = 80;
  protocol = 6;
}

abbrev syn : ParsedPacket
syn = record { key = syn_key; ip_header_len = 20; transport_header_len = 20 }

parse_frame : parse_packet frame ≡ ok (some syn)
unfolding parse_packet parse_ipv4 parse_transport load le be be_from
parse_frame = refl

parse_tagged_frame : parse_packet tagged_frame ≡ ok (some syn)
unfolding parse_packet parse_ipv4 parse_transport load le be be_from
parse_tagged_frame = refl

syn_flag : read_tcp_flags tagged_frame syn_key ≡ ok 2
unfolding read_tcp_flags load le be be_from
syn_flag = refl

parse_packet-IsOk_example : IsOk (parse_packet frame)
parse_packet-IsOk_example = parse_packet-IsOk frame

normalize_key-reverse_key_example :
    ((normalize_key (reverse_key syn_key)).0 ≡ (normalize_key syn_key).0)
    × (((normalize_key (reverse_key syn_key)).1 ≡ not (normalize_key syn_key).1)
        ⊎ ((reverse_key syn_key ≡ syn_key) × ((normalize_key syn_key).1 ≡ true)))
normalize_key-reverse_key_example = normalize_key-reverse_key syn_key

-- One flow at most: the second frame is of the same flow.
abbrev config : FlowTrackerConfig
config = record { flow_timeout_seconds = 120; idle_timeout_seconds = 15; max_flows = 1 }

abbrev calls : List Call
calls = packet 0 frame (seconds 1) ∷ packet 3 tagged_frame (seconds 2) ∷ sweep (seconds 20) ∷ []

run-IsTracked_example :
    Gives (IsTracked whole_numbers) (run whole_numbers calls (new_tracker whole_numbers config))
run-IsTracked_example = run-IsTracked whole_numbers calls config (omega arith) (omega arith)

abbrev one_flow : FlowTracker whole_numbers
one_flow =
    let blank = new_tracker whole_numbers config in
    record blank {
      flows =
          (
            reverse_key syn_key,
            update_flow_stats whole_numbers 54 (seconds 1) false 2
                (new_entry whole_numbers (reverse_key syn_key) (seconds 1) false),
          )
          ∷ [];
    }

-- As the comment in the source numbers them.
eighty_four_features :
    (length (
      flow_features whole_numbers syn_key (new_entry whole_numbers syn_key (seconds 1) true).stats))
    ≡ 84
unfolding flow_features
eighty_four_features = refl
