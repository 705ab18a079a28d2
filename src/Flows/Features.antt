-- ===== src/Flows/Features.antt =====
-- collectors/pcap/src/flow_tracker.cpp: the features of a flow for the models, in their order.
use aiguard_siem.Common.{ℕ, List, [], ◌∷◌, if◌then◌else◌, ltb}
use aiguard_siem.Events.{Platform}
use aiguard_siem.Flows.Packet.{FlowKey}
use aiguard_siem.Flows.Stats.{FlowStats, num, is_positive}

module _ (pf : Platform) where
  open pf use {Double}

  abbrev pub per_second : FlowStats Double → ℕ → Double
  per_second s count =
      if is_positive s.duration_ms
      then pf.div (pf.mul (num pf count) (num pf 1000)) (pf.of_int s.duration_ms)
      else num pf 0

  -- A ratio of doubles, and of counters; zero where the divisor is not positive.
  abbrev pub ratio : Double → Double → Double
  ratio a b = if pf.lt (num pf 0) b then pf.div a b else num pf 0

  abbrev pub count_ratio : ℕ → ℕ → Double
  count_ratio a b = if ltb 0 b then pf.div (num pf a) (num pf b) else num pf 0

  abbrev pub zero_feature : Double
  zero_feature = num pf 0

  unfoldable pub flow_features : FlowKey → FlowStats Double → List Double
  flow_features key s =
      pf.of_int s.duration_ms
      ∷ s.fwd.pkt_size.mean
      ∷ s.fwd.pkt_size.std
      ∷ s.fwd.pkt_size.greatest
      ∷ s.fwd.pkt_size.least
      ∷ s.bwd.pkt_size.mean
      ∷ s.bwd.pkt_size.std
      ∷ s.bwd.pkt_size.greatest
      ∷ s.bwd.pkt_size.least
      ∷ s.flow_bytes_per_second
      ∷ s.flow_packets_per_second
      ∷ s.iat.least
      ∷ s.iat.greatest
      ∷ s.iat.mean
      ∷ s.iat.std
      ∷ s.fwd.iat.least
      ∷ s.fwd.iat.greatest
      ∷ s.fwd.iat.mean
      ∷ s.fwd.iat.std
      ∷ s.bwd.iat.least
      ∷ s.bwd.iat.greatest
      ∷ s.bwd.iat.mean
      ∷ s.bwd.iat.std
      ∷ s.packet_size.mean
      ∷ s.packet_size.std
      ∷ s.var_packet_size
      ∷ s.packet_size.greatest
      ∷ s.packet_size.least
      ∷ num pf s.flags.fin_count
      ∷ num pf s.flags.syn_count
      ∷ num pf s.flags.rst_count
      ∷ num pf s.flags.psh_count
      ∷ num pf s.flags.ack_count
      ∷ num pf s.flags.urg_count
      ∷ num pf s.flags.cwr_count
      ∷ num pf s.flags.ece_count
      ∷ s.syn_flag_ratio
      ∷ s.rst_flag_ratio
      ∷ s.psh_flag_ratio
      ∷ s.ack_flag_ratio
      ∷ num pf s.fwd.packet_count
      ∷ num pf s.bwd.packet_count
      ∷ num pf s.fwd.byte_count
      ∷ num pf s.bwd.byte_count
      ∷ num pf s.fwd.psh_flags
      ∷ num pf s.bwd.psh_flags
      ∷ num pf s.fwd.urg_flags
      ∷ num pf s.bwd.urg_flags
      ∷ per_second s s.fwd.packet_count
      ∷ per_second s s.bwd.packet_count
      ∷ per_second s s.fwd.byte_count
      ∷ per_second s s.bwd.byte_count
      ∷ ratio s.packet_size.least s.packet_size.greatest
      ∷ num pf s.byte_count
      ∷ num pf s.packet_count
      ∷ count_ratio s.bwd.packet_count s.fwd.packet_count
      ∷ count_ratio s.byte_count s.packet_count
      ∷ ratio s.fwd.pkt_size.mean s.bwd.pkt_size.mean
      ∷ count_ratio s.fwd.packet_count s.bwd.packet_count
      ∷ count_ratio s.fwd.byte_count s.bwd.byte_count
      ∷ s.mean_header_len
      ∷ zero_feature
      ∷ zero_feature
      ∷ zero_feature
      ∷ zero_feature
      ∷ zero_feature
      ∷ zero_feature
      ∷ zero_feature
      ∷ zero_feature
      ∷ zero_feature
      ∷ zero_feature
      ∷ ratio s.fwd.pkt_size.least s.fwd.pkt_size.greatest
      ∷ ratio s.bwd.pkt_size.least s.bwd.pkt_size.greatest
      ∷ num pf s.packet_count
      ∷ num pf s.packet_count
      ∷ zero_feature
      ∷ zero_feature
      ∷ zero_feature
      ∷ zero_feature
      ∷ zero_feature
      ∷ zero_feature
      ∷ pf.mul s.mean_header_len (num pf s.packet_count)
      ∷ zero_feature
      ∷ num pf key.protocol
      ∷ []
