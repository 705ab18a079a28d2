-- ===== src/Flows/Tracker.antt =====
-- collectors/pcap/src/flow_tracker.cpp: the tracker's state and its methods, under its lock. The order
-- of the list is the one in which the hash table iterates: the place that the table gives a new key
-- is an argument, and the first entry is the one that is evicted.
use aiguard_siem.Common.{
  ℕ, zero, suc, ◌+◌, ◌-◌, Bool, Option, none, some, List, [], ◌∷◌, map, if◌then◌else◌, ltb, leb,
  ◌||◌, length, find, insert, Text,
}
use aiguard_siem.Events.{Platform, Timestamp, seconds, wrap64}
use aiguard_siem.Wire.{Outcome, ok, fault, ◌>>=◌}
use aiguard_siem.Flows.Packet.{FlowKey, ParsedPacket, parse_packet, read_tcp_flags, normalize_key}
use aiguard_siem.Flows.Keys.{flow_key}
use aiguard_siem.Flows.Stats.{FlowEntry, FlowStats, new_entry, update_flow_stats, finalize_stats}
use aiguard_siem.Flows.Features.{flow_features}

-- The settings that the methods read.
pub record FlowTrackerConfig : Type 0 where
  pub flow_timeout_seconds : ℕ
  pub idle_timeout_seconds : ℕ
  pub max_flows : ℕ

pub record Stats : Type 0 where
  pub flows_created : ℕ
  pub flows_expired : ℕ
  pub packets_processed : ℕ
  pub bytes_processed : ℕ

-- A new entry at a place of the list.
unfoldable pub place {ℓ} : {A : Type ℓ} → ℕ → A → List A → List A
place zero r m = r ∷ m
place (suc n) r [] = r ∷ []
place (suc n) r (x ∷ m) = x ∷ place n r m

module _ (pf : Platform) where
  open pf use {Double}

  abbrev pub Flows : Type 0
  Flows = List (FlowKey × FlowEntry Double)

  pub record FlowTracker : Type 0 where
    pub config : FlowTrackerConfig
    pub flows : Flows
    pub stats : Stats

  -- `flows_.erase(flows_.begin())`, which is undefined on an empty table.
  unfoldable pub evict_first : Flows → Outcome Flows
  evict_first [] = fault
  evict_first (r ∷ m) = ok m

  unfoldable pub make_room : FlowTracker → Outcome Flows
  make_room c = if leb c.config.max_flows (length c.flows) then evict_first c.flows else ok c.flows

  -- The branches on `flows_.find(normalized)`.
  unfoldable pub track_found :
      ℕ
      → FlowKey
      → Bool
      → ℕ
      → Timestamp
      → ℕ
      → FlowTracker
      → Option (FlowEntry Double)
      → Outcome FlowTracker
  track_found slot key is_forward len timestamp tcp_flags c (some entry) =
      let updated = update_flow_stats pf len timestamp is_forward tcp_flags entry in
      ok (record c { flows = insert key updated c.flows })
  track_found slot key is_forward len timestamp tcp_flags c none = do
    flows ← make_room c
    let entry = new_entry pf key timestamp is_forward
    let updated = update_flow_stats pf len timestamp is_forward tcp_flags entry
    ok (record c {
      flows = place slot (key, updated) flows;
      stats = record c.stats { flows_created = wrap64 (c.stats.flows_created + 1) };
    })

  abbrev pub track_packet :
      ℕ → FlowKey → Bool → ℕ → Timestamp → ℕ → FlowTracker → Outcome FlowTracker
  track_packet slot key is_forward len timestamp tcp_flags c =
      track_found slot key is_forward len timestamp tcp_flags c (find key c.flows)

  abbrev pub count_packet : ℕ → FlowTracker → FlowTracker
  count_packet len c = record c {
    stats = record c.stats {
      packets_processed = wrap64 (c.stats.packets_processed + 1);
      bytes_processed = wrap64 (c.stats.bytes_processed + len);
    };
  }

  unfoldable pub process_parsed :
      ℕ
      → Text
      → Timestamp
      → FlowTracker
      → Option ParsedPacket
      → Outcome (FlowTracker × Option FlowKey)
  process_parsed slot bytes timestamp c none = ok (c, none)
  process_parsed slot bytes timestamp c (some p) = do
    tcp_flags ← read_tcp_flags bytes p.key
    let normalized = normalize_key p.key
    c' ← track_packet slot normalized.0 normalized.1 (length bytes) timestamp tcp_flags c
    ok (count_packet (length bytes) c', some normalized.0)

  unfoldable pub process_packet :
      ℕ → Text → Timestamp → FlowTracker → Outcome (FlowTracker × Option FlowKey)
  process_packet slot bytes timestamp c = do
    parsed ← parse_packet bytes
    process_parsed slot bytes timestamp c parsed

  unfoldable pub extract_features : FlowKey → FlowTracker → List Double
  extract_features key c = elim (find key c.flows) [
    | none ↦ []
    | some entry ↦ flow_features pf key entry.stats
  ]

  unfoldable pub get_active_flows : FlowTracker → List FlowKey
  get_active_flows c = map (λ r. r.0) c.flows

  unfoldable pub get_flow_stats : FlowKey → FlowTracker → Option (FlowStats Double)
  get_flow_stats key c = elim (find key c.flows) [ none ↦ none | some entry ↦ some entry.stats ]

  abbrev pub is_expired : FlowTrackerConfig → Timestamp → FlowEntry Double → Bool
  is_expired config now entry =
      ltb (seconds config.flow_timeout_seconds) (now - entry.stats.start_time)
      || ltb (seconds config.idle_timeout_seconds) (now - entry.stats.last_time)

  -- The flows that stay and those that expire.
  unfoldable pub split_expired :
      FlowTrackerConfig → Timestamp → Flows → Flows × List (FlowEntry Double)
  split_expired config now [] = ([], [])
  split_expired config now ((k, entry) ∷ m) =
      let (kept, expired) = split_expired config now m in
      if is_expired config now entry
      then (kept, finalize_stats pf entry ∷ expired)
      else ((k, entry) ∷ kept, expired)

  unfoldable pub expire_flows : Timestamp → FlowTracker → FlowTracker × List (FlowEntry Double)
  expire_flows now c =
      let (kept, expired) = split_expired c.config now c.flows in
      (
        record c {
          flows = kept;
          stats = record c.stats {
            flows_expired = wrap64 (c.stats.flows_expired + length expired);
          };
        },
        expired,
      )

  unfoldable pub active_flow_count : FlowTracker → ℕ
  active_flow_count c = length c.flows

  unfoldable pub get_stats : FlowTracker → Stats
  get_stats c = c.stats

  abbrev pub new_tracker : FlowTrackerConfig → FlowTracker
  new_tracker config = record {
    config = config;
    flows = [];
    stats = record {
      flows_created = 0;
      flows_expired = 0;
      packets_processed = 0;
      bytes_processed = 0;
    };
  }
