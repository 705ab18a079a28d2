-- ===== src/Flows/Stats.antt =====
-- collectors/pcap/src/flow_tracker.cpp: the statistics of a flow. The struct names its fields flat: a
-- `Spread` stands for the minimum, maximum, mean and running variance of one quantity, and a
-- `Direction` for the fields that carry the prefix `fwd` or `bwd`. Counters are `uint64_t`.
use aiguard_siem.Common.{
  ℕ, ◌+◌, ◌-◌, ◌*◌, ◌/◌, ◌^◌, ◌%◌, Bool, false, ◌&&◌, if◌then◌else◌, ◌==◌, ltb, leb, bit_and,
}
use aiguard_siem.Common.Int.{ℤ, pos, negsuc, sub_ℕ}
use aiguard_siem.Events.{Platform, Timestamp, wrap64}
use aiguard_siem.Flows.Packet.{FlowKey}

pub record Spread (D : Type 0) : Type 0 where
  pub least : D
  pub greatest : D
  pub mean : D
  pub running_var : D
  pub std : D

-- The sums of sizes and times, which nothing sets, are left out.
pub record Direction (D : Type 0) : Type 0 where
  pub packet_count : ℕ
  pub byte_count : ℕ
  pub pkt_size : Spread D
  pub iat : Spread D
  pub psh_flags : ℕ
  pub urg_flags : ℕ
  pub last_time_us : ℕ

pub record TcpFlags : Type 0 where
  pub fin_count : ℕ
  pub syn_count : ℕ
  pub rst_count : ℕ
  pub psh_count : ℕ
  pub ack_count : ℕ
  pub urg_count : ℕ
  pub cwr_count : ℕ
  pub ece_count : ℕ

-- The active and idle times and the least and greatest header length stay zero: nothing sets them.
pub record FlowStats (D : Type 0) : Type 0 where
  pub packet_count : ℕ
  pub byte_count : ℕ
  pub fwd : Direction D
  pub bwd : Direction D
  pub start_time : Timestamp
  pub last_time : Timestamp
  pub duration_ms : ℤ
  pub packet_size : Spread D
  pub var_packet_size : D
  pub iat : Spread D
  pub flags : TcpFlags
  pub syn_flag_ratio : D
  pub rst_flag_ratio : D
  pub psh_flag_ratio : D
  pub ack_flag_ratio : D
  pub flow_bytes_per_second : D
  pub flow_packets_per_second : D
  pub mean_header_len : D

pub record FlowEntry (D : Type 0) : Type 0 where
  pub key : FlowKey
  pub stats : FlowStats D
  pub total_packets : ℕ
  pub total_bytes : ℕ
  pub is_forward : Bool

-- `count++` where the flag is set.
abbrev pub count_flag : ℕ → ℕ → ℕ → ℕ
count_flag tcp_flags flag n = if bit_and tcp_flags flag == 0 then n else wrap64 (n + 1)

unfoldable pub count_flags : ℕ → TcpFlags → TcpFlags
count_flags f c = record {
  fin_count = count_flag f 0x01 c.fin_count;
  syn_count = count_flag f 0x02 c.syn_count;
  rst_count = count_flag f 0x04 c.rst_count;
  psh_count = count_flag f 0x08 c.psh_count;
  ack_count = count_flag f 0x10 c.ack_count;
  urg_count = count_flag f 0x20 c.urg_count;
  ece_count = count_flag f 0x40 c.ece_count;
  cwr_count = count_flag f 0x80 c.cwr_count;
}

abbrev pub microseconds : Timestamp → ℕ
microseconds t = t / 1000

-- The difference of two unsigned numbers wraps.
abbrev pub minus64 : ℕ → ℕ → ℕ
minus64 a b = (a + 2 ^ 64 - b) % 2 ^ 64

-- `duration_cast<milliseconds>(a - b)`, which rounds towards zero.
abbrev pub milliseconds_between : Timestamp → Timestamp → ℤ
milliseconds_between a b =
    if leb b a then pos ((a - b) / 1_000_000) else sub_ℕ 0 ((b - a) / 1_000_000)

abbrev pub is_positive : ℤ → Bool
is_positive (pos n) = ltb 0 n
is_positive (negsuc n) = false

module _ (pf : Platform) where
  open pf use {Double}

  abbrev pub num : ℕ → Double
  num n = pf.of_int (pos n)

  abbrev pub zero_spread : Spread Double
  zero_spread = record {
    least = num 0;
    greatest = num 0;
    mean = num 0;
    running_var = num 0;
    std = num 0;
  }

  abbrev pub zero_direction : Direction Double
  zero_direction = record {
    packet_count = 0;
    byte_count = 0;
    pkt_size = zero_spread;
    iat = zero_spread;
    psh_flags = 0;
    urg_flags = 0;
    last_time_us = 0;
  }

  abbrev pub no_flags : TcpFlags
  no_flags = record {
    fin_count = 0;
    syn_count = 0;
    rst_count = 0;
    psh_count = 0;
    ack_count = 0;
    urg_count = 0;
    cwr_count = 0;
    ece_count = 0;
  }

  -- `FlowEntry entry; entry.key = ...; entry.stats.start_time = ...; entry.is_forward = ...;`
  unfoldable pub new_entry : FlowKey → Timestamp → Bool → FlowEntry Double
  new_entry key timestamp is_forward = record {
    key = key;
    stats = record {
      packet_count = 0;
      byte_count = 0;
      fwd = zero_direction;
      bwd = zero_direction;
      start_time = timestamp;
      last_time = 0;
      duration_ms = pos 0;
      packet_size = zero_spread;
      var_packet_size = num 0;
      iat = zero_spread;
      flags = no_flags;
      syn_flag_ratio = num 0;
      rst_flag_ratio = num 0;
      psh_flag_ratio = num 0;
      ack_flag_ratio = num 0;
      flow_bytes_per_second = num 0;
      flow_packets_per_second = num 0;
      mean_header_len = num 0;
    };
    total_packets = 0;
    total_bytes = 0;
    is_forward = is_forward;
  }

  unfoldable pub welford_update : Double → ℕ → Spread Double → Spread Double
  welford_update value count s =
      let delta : Double = pf.sub value s.mean in
      let mean : Double = pf.add s.mean (pf.div delta (num count)) in
      let delta2 : Double = pf.sub value mean in
      record s { mean = mean; running_var = pf.add s.running_var (pf.mul delta delta2) }

  -- The `count`-th value of a quantity.
  unfoldable pub observe : Double → ℕ → Spread Double → Spread Double
  unfolding welford_update
  observe value count s =
      if count == 1
      then record s { least = value; greatest = value; mean = value; running_var = num 0 }
      else welford_update value count (record s {
        least = if pf.lt value s.least then value else s.least;
        greatest = if pf.lt s.greatest value then value else s.greatest;
      })

  -- The branch for one direction.
  unfoldable pub update_direction : ℕ → ℕ → ℕ → Direction Double → Direction Double
  unfolding observe
  update_direction packet_len time_us tcp_flags d =
      let packets : ℕ = wrap64 (d.packet_count + 1) in
      let gap : Double = pf.of_int (sub_ℕ time_us d.last_time_us) in
      record {
        packet_count = packets;
        byte_count = wrap64 (d.byte_count + packet_len);
        pkt_size = observe (num packet_len) packets d.pkt_size;
        iat =
            if ltb 1 packets && ltb 0 d.last_time_us
            then observe gap (packets - 1) d.iat
            else d.iat;
        psh_flags = count_flag tcp_flags 0x08 d.psh_flags;
        urg_flags = count_flag tcp_flags 0x20 d.urg_flags;
        last_time_us = time_us;
      }

  unfoldable pub update_flow_stats : ℕ → Timestamp → Bool → ℕ → FlowEntry Double → FlowEntry Double
  unfolding observe
  update_flow_stats packet_len timestamp is_forward tcp_flags entry =
      let s : FlowStats Double = entry.stats in
      let time_us : ℕ = microseconds timestamp in
      let packets : ℕ = wrap64 (s.packet_count + 1) in
      let gap : Double = pf.of_int (sub_ℕ time_us (microseconds s.last_time)) in
      record entry {
        total_packets = wrap64 (entry.total_packets + 1);
        total_bytes = wrap64 (entry.total_bytes + packet_len);
        stats = record s {
          packet_count = packets;
          byte_count = wrap64 (s.byte_count + packet_len);
          packet_size = observe (num packet_len) packets s.packet_size;
          iat = if ltb 1 packets then observe gap (packets - 1) s.iat else s.iat;
          flags = count_flags tcp_flags s.flags;
          fwd = if is_forward then update_direction packet_len time_us tcp_flags s.fwd else s.fwd;
          bwd = if is_forward then s.bwd else update_direction packet_len time_us tcp_flags s.bwd;
          last_time = timestamp;
        };
      }

  -- The standard deviation of a quantity of which `count` packets gave a value, `skip` aside.
  abbrev pub deviation : ℕ → ℕ → Spread Double → Spread Double
  deviation count skip s =
      if ltb skip count
      then record s { std = pf.sqrt (pf.div s.running_var (num (count - skip))) }
      else s

  abbrev pub finalize_direction : Direction Double → Direction Double
  finalize_direction d = record d {
    pkt_size = deviation d.packet_count 1 d.pkt_size;
    iat = deviation d.packet_count 2 d.iat;
  }

  unfoldable pub finalize_stats : FlowEntry Double → FlowEntry Double
  finalize_stats entry =
      let s : FlowStats Double = entry.stats in
      let n : ℕ = s.packet_count in
      let duration : ℤ = milliseconds_between s.last_time s.start_time in
      let per_second = λ (count : ℕ) (old : Double).
        if is_positive duration
        then pf.div (pf.mul (num count) (num 1000)) (pf.of_int duration)
        else old in
      let ratio =
        λ (count : ℕ) (old : Double). if ltb 0 n then pf.div (num count) (num n) else old in
      let payload = λ (d : Direction Double). minus64 d.byte_count (wrap64 (d.packet_count * 20)) in
      let header_bytes : ℕ = minus64 (minus64 s.byte_count (payload s.fwd)) (payload s.bwd) in
      record entry {
        stats = record s {
          packet_size = deviation n 1 s.packet_size;
          var_packet_size =
              if ltb 1 n then pf.div s.packet_size.running_var (num (n - 1)) else s.var_packet_size;
          iat = deviation n 2 s.iat;
          fwd = finalize_direction s.fwd;
          bwd = finalize_direction s.bwd;
          duration_ms = duration;
          flow_bytes_per_second = per_second s.byte_count s.flow_bytes_per_second;
          flow_packets_per_second = per_second n s.flow_packets_per_second;
          syn_flag_ratio = ratio s.flags.syn_count s.syn_flag_ratio;
          rst_flag_ratio = ratio s.flags.rst_count s.rst_flag_ratio;
          psh_flag_ratio = ratio s.flags.psh_count s.psh_flag_ratio;
          ack_flag_ratio = ratio s.flags.ack_count s.ack_flag_ratio;
          mean_header_len = if ltb 0 n then pf.div (num header_bytes) (num n) else num 0;
        };
      }
