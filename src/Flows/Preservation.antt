-- ===== src/Flows/Preservation.antt =====
-- Every call of the tracker returns and keeps the invariant.
use aiguard_siem.Common.{
  ℕ, suc, ◌+◌, ◌^◌, ◌≤◌, ◌<◌, ◌≡◌, refl, ◌∙◌, Bool, true, Option, none, some, [], ◌∷◌, leb, length,
  find, insert, Text, has, Distinct, Every, arith, Bool-cases, inl, inr, insert-Distinct,
  length-insert, Every-insert,
}
use mathlib.Core.Path.{subst}
use mathlib.Core.Option.{some-injective}
use aiguard_siem.Events.{Platform, Timestamp, wrap64}
use aiguard_siem.Wire.{Gives, IsOk-cases, bind-Gives, ok}
use aiguard_siem.Flows.Packet.{
  FlowKey, ParsedPacket, parse_packet, read_tcp_flags, normalize_key, same_key,
}
use aiguard_siem.Flows.Bounds.{parse_packet-IsOk, read_tcp_flags-IsOk}
use aiguard_siem.Flows.Keys.{flow_key}
use aiguard_siem.Flows.Stats.{FlowEntry, new_entry, update_flow_stats}
use aiguard_siem.Flows.Tracker.{
  FlowTracker, FlowTrackerConfig, Flows, place, evict_first, make_room, track_found, count_packet,
  process_parsed, process_packet,
}
use aiguard_siem.Flows.Invariant.{
  length-place, Every-place, place-Distinct, IsCounted, update_flow_stats-IsCounted,
  new_entry-IsCounted, IsTracked,
}

module _ (pf : Platform) where
  open pf use {Double}

  find-Every :
      (k : FlowKey) (m : Flows pf) (entry : FlowEntry Double)
      → find k m ≡ some entry
      → Every (λ r. IsCounted pf r.1) m
      → IsCounted pf entry
  unfolding find
  find-Every k [] entry h a = cc
  find-Every k ((j, w) ∷ m) entry h a = elim (Bool-cases (same_key j k)) [
    | inl same ↦
        let e : some w ≡ some entry = rw same at h in
        subst (IsCounted pf) (some-injective w entry e) a.0
    | inr other ↦ let e : find k m ≡ some entry = rw other at h in find-Every k m entry e a.1
  ]

  -- A list with room for one more flow, of a new key.
  abbrev HasRoom : FlowTrackerConfig → FlowKey → ℕ → Flows pf → Type 0
  HasRoom config key old m =
      (Distinct m × (find key m ≡ none))
      × ((length m + 1 ≤ config.max_flows) × ((length m ≤ old) × Every (λ r. IsCounted pf r.1) m))

  evict_first-HasRoom :
      (config : FlowTrackerConfig) (key : FlowKey) (m : Flows pf)
      → 0 < length m
      → Distinct m
      → find key m ≡ none
      → length m ≤ config.max_flows
      → Every (λ r. IsCounted pf r.1) m
      → Gives (HasRoom config key (length m)) (evict_first pf m)
  unfolding evict_first find
  evict_first-HasRoom config key [] l d f b a = absurd (omega (arith, l))
  evict_first-HasRoom config key ((j, w) ∷ m) l d f b a = elim (Bool-cases (same_key j key)) [
    | inl same ↦ absurd (ground arith)
    | inr other ↦
        let e : find key m ≡ none = rw other at f in
        ((d.1, e), (omega (arith, b), (omega arith, a.1)))
  ]

  make_room-HasRoom :
      (key : FlowKey) (c : FlowTracker pf)
      → 0 < c.config.max_flows
      → IsTracked pf c
      → find key c.flows ≡ none
      → Gives (HasRoom c.config key (length c.flows)) (make_room pf c)
  unfolding make_room
  make_room-HasRoom key c h i f = elim (Bool-cases (leb c.config.max_flows (length c.flows))) [
    | inl full ↦
        let some_flow : 0 < length c.flows = ground arith in
        rw full
          (evict_first-HasRoom c.config key c.flows some_flow i.distinct f i.bounded i.counted)
    | inr room ↦
        let fits : length c.flows + 1 ≤ c.config.max_flows = ground arith in
        rw room (((i.distinct, f), (fits, (omega arith, i.counted))))
  ]

  -- With `n` calls to come.
  pub record Within (n : ℕ) (config : FlowTrackerConfig) (c : FlowTracker pf) : Type 0 where
    pub tracked : IsTracked pf c
    pub settings : c.config ≡ config
    pub few : c.stats.packets_processed + n < 2 ^ 64

  abbrev Counts : ℕ → FlowTrackerConfig → ℕ → FlowTracker pf → Type 0
  Counts n config len c = Within n config (count_packet pf len c)

  known_flow :
      (n len : ℕ) (key : FlowKey) (updated : FlowEntry Double → FlowEntry Double)
      (entry : FlowEntry Double) (c : FlowTracker pf)
      → ((e : FlowEntry Double) → IsCounted pf e → IsCounted pf (updated e))
      → Within (suc n) c.config c
      → find key c.flows ≡ some entry
      → Counts n c.config len (record c { flows = insert key (updated entry) c.flows })
  known_flow n len key updated entry c u w f =
      let i = w.tracked in
      let few = w.few in
      let here : has (find key c.flows) ≡ true = rw f refl in
      let same : length (insert key (updated entry) c.flows) ≡ length c.flows =
        length-insert key (updated entry) c.flows ∙ rw here refl in
      let b = i.bounded in
      let a = i.accounted in
      let m = i.created in
      record {
        tracked = record {
          distinct = insert-Distinct key (updated entry) c.flows i.distinct;
          bounded = omega (arith, same, b);
          counted =
              Every-insert (IsCounted pf) key (updated entry) c.flows
                (u entry (find-Every key c.flows entry f i.counted)) i.counted;
          accounted = omega (arith, same, a);
          created = omega (arith, m, few);
        };
        settings = refl;
        few = omega (arith, few);
      }

  new_flow :
      (n len slot : ℕ) (key : FlowKey) (entry : FlowEntry Double) (c : FlowTracker pf)
      (flows : Flows pf)
      → IsCounted pf entry
      → Within (suc n) c.config c
      → HasRoom c.config key (length c.flows) flows
      → Counts n c.config len (record c {
        flows = place slot (key, entry) flows;
        stats = record c.stats { flows_created = wrap64 (c.stats.flows_created + 1) };
      })
  new_flow n len slot key entry c flows e w r =
      let i = w.tracked in
      let few = w.few in
      let more : length (place slot (key, entry) flows) ≡ length flows + 1 =
        length-place slot (key, entry) flows in
      let a = i.accounted in
      let m = i.created in
      let room = r.1.0 in
      let less = r.1.1.0 in
      let up : wrap64 (c.stats.flows_created + 1) ≡ c.stats.flows_created + 1 =
        omega (arith, few, m) in
      let next : wrap64 (c.stats.packets_processed + 1) ≡ c.stats.packets_processed + 1 =
        omega (arith, few) in
      record {
        tracked = record {
          distinct = place-Distinct slot key entry flows r.0.1 r.0.0;
          bounded = omega (arith, more, room);
          counted = Every-place (λ x. IsCounted pf x.1) slot (key, entry) flows e r.1.1.1;
          accounted = omega (arith, more, less, a, up);
          created = omega (arith, m, up, next);
        };
        settings = refl;
        few = omega (arith, few, next);
      }

  track_found-Counts :
      (n slot : ℕ) (k : FlowKey) (is_forward : Bool) (len : ℕ) (t : Timestamp) (flags : ℕ)
      (c : FlowTracker pf) (found : Option (FlowEntry Double))
      → 0 < c.config.max_flows
      → Within (suc n) c.config c
      → find (normalize_key k).0 c.flows ≡ found
      → Gives
          (Counts n c.config len)
          (track_found pf slot (normalize_key k).0 is_forward len t flags c found)
  unfolding track_found
  track_found-Counts n slot k is_forward len t flags c (some entry) h w f =
      let key : FlowKey = (normalize_key k).0 in
      known_flow n len key (update_flow_stats pf len t is_forward flags) entry c
        (update_flow_stats-IsCounted pf len t is_forward flags) w f
  track_found-Counts n slot k is_forward len t flags c none h w f =
      let key : FlowKey = (normalize_key k).0 in
      let entry = update_flow_stats pf len t is_forward flags (new_entry pf key t is_forward) in
      let fresh =
        update_flow_stats-IsCounted pf len t is_forward flags (new_entry pf key t is_forward)
          (new_entry-IsCounted pf k t is_forward) in
      bind-Gives (HasRoom c.config key (length c.flows)) (Counts n c.config len) (make_room pf c) _
        (make_room-HasRoom key c h w.tracked f)
        (λ flows r. new_flow n len slot key entry c flows fresh w r)

  Within-fewer :
      (n : ℕ) (config : FlowTrackerConfig) (c : FlowTracker pf)
      → Within (suc n) config c
      → Within n config c
  Within-fewer n config c w =
      let few = w.few in
      record { tracked = w.tracked; settings = w.settings; few = omega (arith, few) }

  process_parsed-Within :
      (n slot : ℕ) (bytes : Text) (t : Timestamp) (c : FlowTracker pf)
      (parsed : Option ParsedPacket)
      → 0 < c.config.max_flows
      → Within (suc n) c.config c
      → parse_packet bytes ≡ ok parsed
      → Gives (λ r. Within n c.config r.0) (process_parsed pf slot bytes t c parsed)
  unfolding process_parsed
  process_parsed-Within n slot bytes t c none h w e = Within-fewer n c.config c w
  process_parsed-Within n slot bytes t c (some p) h w e =
      let (flags, read) =
        IsOk-cases (read_tcp_flags bytes p.key) (read_tcp_flags-IsOk bytes p p.key e) in
      let key = normalize_key p.key in
      rw read (
        bind-Gives (Counts n c.config (length bytes)) (λ r. Within n c.config r.0)
          (track_found pf slot key.0 key.1 (length bytes) t flags c (find key.0 c.flows)) _
          (track_found-Counts n slot p.key key.1 (length bytes) t flags c (find key.0 c.flows) h w
            refl)
          (λ c' w'. w'))

  pub process_packet-Within :
      (n slot : ℕ) (bytes : Text) (t : Timestamp) (c : FlowTracker pf)
      → 0 < c.config.max_flows
      → Within (suc n) c.config c
      → Gives (λ r. Within n c.config r.0) (process_packet pf slot bytes t c)
  unfolding process_packet
  process_packet-Within n slot bytes t c h w =
      let (parsed, e) = IsOk-cases (parse_packet bytes) (parse_packet-IsOk bytes) in
      rw e (process_parsed-Within n slot bytes t c parsed h w e)
