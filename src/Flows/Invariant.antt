-- ===== src/Flows/Invariant.antt =====
-- What every sequence of packets and sweeps keeps.
use aiguard_siem.Common.{
  ℕ, zero, suc, ◌+◌, ◌≤◌, ◌≡◌, refl, ap, ◌∙◌, Bool, true, false, none, some, List, [], ◌∷◌,
  if◌then◌else◌, length, find, Text, Distinct, Every, arith, Bool-cases, inl, inr,
}
use aiguard_siem.Events.{Platform, Timestamp, wrap64}
use aiguard_siem.Wire.{Outcome, ok, ◌>>=◌}
use aiguard_siem.Flows.Packet.{FlowKey, normalize_key, same_key}
use aiguard_siem.Flows.Keys.{flow_key, same_key_iff, normalize_key_idem}
use aiguard_siem.Flows.Stats.{FlowEntry, new_entry, update_flow_stats, update_direction}
use aiguard_siem.Flows.Tracker.{FlowTracker, place, process_packet, expire_flows}

module _ {V : Type 0} where
  pub length-place :
      (n : ℕ) (r : FlowKey × V) (m : List (FlowKey × V)) → length (place n r m) ≡ length m + 1
  unfolding place
  length-place zero r m = omega arith
  length-place (suc n) r [] = refl
  length-place (suc n) r (x ∷ m) = omega (arith, length-place n r m)

  pub Every-place :
      (P : FlowKey × V → Type 0) (n : ℕ) (r : FlowKey × V) (m : List (FlowKey × V))
      → P r
      → Every P m
      → Every P (place n r m)
  unfolding place
  Every-place P zero r m p e = (p, e)
  Every-place P (suc n) r [] p e = (p, tt)
  Every-place P (suc n) r (x ∷ m) p e = (e.0, Every-place P n r m p e.1)

  find-place :
      (n : ℕ) (k j : FlowKey) (v : V) (m : List (FlowKey × V))
      → find k m ≡ none
      → find j (place n (k, v) m) ≡ (if same_key k j then some v else find j m)
  unfolding place find
  find-place zero k j v m h = refl
  find-place (suc n) k j v [] h = refl
  find-place (suc n) k j v ((i, w) ∷ m) h =
      ground (arith, find-place n k j v m, same_key_iff k j, same_key_iff i j, same_key_iff i k)

  pub place-Distinct :
      (n : ℕ) (k : FlowKey) (v : V) (m : List (FlowKey × V))
      → find k m ≡ none
      → Distinct m
      → Distinct (place n (k, v) m)
  unfolding place find
  place-Distinct zero k v m h d = (h, d)
  place-Distinct (suc n) k v [] h d = (refl, tt)
  place-Distinct (suc n) k v ((i, w) ∷ m) h d = elim (Bool-cases (same_key i k)) [
    | inl same ↦ absurd (ground arith)
    | inr other ↦
        let rest : find k m ≡ none = rw other at h in
        let apart : same_key k i ≡ false = ground (arith, same_key_iff k i, same_key_iff i k) in
        (find-place n k i v m rest ∙ rw apart d.0, place-Distinct n k v m rest d.1)
  ]

-- A packet, with the place that the hash table gives a new key, or a sweep.
pub data Call : Type 0 where
  packet : ℕ → Text → Timestamp → Call
  sweep : Timestamp → Call

module _ (pf : Platform) where
  open pf use {Double}

  -- The counters of a flow add up, and its key is in the order that `normalize_key` gives.
  pub record IsCounted (entry : FlowEntry Double) : Type 0 where
    pub normal : (normalize_key entry.key).1 ≡ true
    pub packets :
        entry.stats.packet_count
        ≡ wrap64 (entry.stats.fwd.packet_count + entry.stats.bwd.packet_count)
    pub bytes :
        entry.stats.byte_count ≡ wrap64 (entry.stats.fwd.byte_count + entry.stats.bwd.byte_count)
    pub totals :
        (entry.total_packets ≡ entry.stats.packet_count)
        × (entry.total_bytes ≡ entry.stats.byte_count)

  pub update_flow_stats-IsCounted :
      (len : ℕ) (t : Timestamp) (is_forward : Bool) (flags : ℕ) (entry : FlowEntry Double)
      → IsCounted entry
      → IsCounted (update_flow_stats pf len t is_forward flags entry)
  unfolding update_flow_stats update_direction
  update_flow_stats-IsCounted len t true flags entry i =
      let p = i.packets in
      let b = i.bytes in
      let s = i.totals in
      record {
        normal = i.normal;
        packets = omega (arith, p);
        bytes = omega (arith, b);
        totals = omega (arith, s.0, s.1);
      }
  update_flow_stats-IsCounted len t false flags entry i =
      let p = i.packets in
      let b = i.bytes in
      let s = i.totals in
      record {
        normal = i.normal;
        packets = omega (arith, p);
        bytes = omega (arith, b);
        totals = omega (arith, s.0, s.1);
      }

  pub new_entry-IsCounted :
      (k : FlowKey) (t : Timestamp) (is_forward : Bool)
      → IsCounted (new_entry pf (normalize_key k).0 t is_forward)
  unfolding new_entry
  new_entry-IsCounted k t is_forward = record {
    normal = ap (λ r. r.1) (normalize_key_idem k);
    packets = refl;
    bytes = refl;
    totals = (refl, refl);
  }

  -- No key has two flows, there are at most `max_flows`, and every flow's counters add up. The flows
  -- that are active and those that expired are among those created, of which every one had a packet.
  pub record IsTracked (c : FlowTracker pf) : Type 0 where
    pub distinct : Distinct c.flows
    pub bounded : length c.flows ≤ c.config.max_flows
    pub counted : Every (λ r. IsCounted r.1) c.flows
    pub accounted : length c.flows + c.stats.flows_expired ≤ c.stats.flows_created
    pub created : c.stats.flows_created ≤ c.stats.packets_processed

  abbrev pub step : Call → FlowTracker pf → Outcome (FlowTracker pf)
  step (packet slot bytes t) c = do r ← process_packet pf slot bytes t c; ok r.0
  step (sweep now) c = ok (expire_flows pf now c).0

  abbrev pub run : List Call → FlowTracker pf → Outcome (FlowTracker pf)
  run [] c = ok c
  run (x ∷ xs) c = step x c >>= run xs
