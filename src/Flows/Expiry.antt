-- ===== src/Flows/Expiry.antt =====
-- Sweeps of expired flows, and runs of packets and sweeps.
use aiguard_siem.Common.{
  ℕ, suc, ◌+◌, ◌^◌, ◌<◌, ◌≡◌, refl, sym, true, false, none, List, [], ◌∷◌, length, find, Distinct,
  Every, arith, Bool-cases, inl, inr,
}
use mathlib.Core.Path.{subst}
use aiguard_siem.Events.{Platform, Timestamp}
use aiguard_siem.Wire.{Gives, bind-Gives}
use aiguard_siem.Flows.Packet.{FlowKey, same_key}
use aiguard_siem.Flows.Keys.{flow_key}
use aiguard_siem.Flows.Stats.{FlowEntry, finalize_stats}
use aiguard_siem.Flows.Tracker.{
  FlowTracker, FlowTrackerConfig, Flows, process_packet, split_expired, expire_flows, is_expired,
  new_tracker,
}
use aiguard_siem.Flows.Invariant.{IsCounted, IsTracked, Call, packet, sweep, step, run}
use aiguard_siem.Flows.Preservation.{Within, process_packet-Within}

module _ (pf : Platform) where
  open pf use {Double}

  -- How a split leaves the flows: all of them are kept or expired, those kept are not due, and those
  -- expired are.
  pub record IsSplit (config : FlowTrackerConfig) (now : Timestamp) (m kept : Flows pf)
      (expired : List (FlowEntry Double)) : Type 0 where
    pub total : length kept + length expired ≡ length m
    pub alive : Every (λ r. is_expired pf config now r.1 ≡ false) kept
    pub due : Every (λ e. is_expired pf config now e ≡ true) expired

  split_expired-IsSplit :
      (config : FlowTrackerConfig) (now : Timestamp) (m : Flows pf)
      → let r = split_expired pf config now m in IsSplit config now m r.0 r.1
  unfolding split_expired
  split_expired-IsSplit config now [] = record { total = refl; alive = tt; due = tt }
  split_expired-IsSplit config now ((k, entry) ∷ m) =
      let i = split_expired-IsSplit config now m in
      let n = i.total in
      elim (Bool-cases (is_expired pf config now entry)) [
        | inl gone ↦ rw gone (record {
          total = omega (arith, n);
          alive = i.alive;
          due = (unfold finalize_stats in gone, i.due);
        })
        | inr stays ↦
            rw stays (record { total = omega (arith, n); alive = (stays, i.alive); due = i.due })
      ]

  split_expired-Every :
      (P : FlowKey × FlowEntry Double → Type 0) (config : FlowTrackerConfig) (now : Timestamp)
      (m : Flows pf)
      → Every P m
      → Every P (split_expired pf config now m).0
  unfolding split_expired
  split_expired-Every P config now [] a = tt
  split_expired-Every P config now ((k, entry) ∷ m) a =
      elim (Bool-cases (is_expired pf config now entry)) [
        | inl gone ↦ rw gone (split_expired-Every P config now m a.1)
        | inr stays ↦ rw stays ((a.0, split_expired-Every P config now m a.1))
      ]

  split_expired-missing :
      (j : FlowKey) (config : FlowTrackerConfig) (now : Timestamp) (m : Flows pf)
      → find j m ≡ none
      → find j (split_expired pf config now m).0 ≡ none
  unfolding split_expired find
  split_expired-missing j config now [] h = refl
  split_expired-missing j config now ((k, entry) ∷ m) h = elim (Bool-cases (same_key k j)) [
    | inl same ↦ absurd (ground arith)
    | inr other ↦
        let rest : find j m ≡ none = rw other at h in
        let ih = split_expired-missing j config now m rest in
        elim (Bool-cases (is_expired pf config now entry)) [
          | inl gone ↦ rw gone ih
          | inr stays ↦ rw (stays, other) ih
        ]
  ]

  split_expired-Distinct :
      (config : FlowTrackerConfig) (now : Timestamp) (m : Flows pf)
      → Distinct m
      → Distinct (split_expired pf config now m).0
  unfolding split_expired
  split_expired-Distinct config now [] d = tt
  split_expired-Distinct config now ((k, entry) ∷ m) d =
      elim (Bool-cases (is_expired pf config now entry)) [
        | inl gone ↦ rw gone (split_expired-Distinct config now m d.1)
        | inr stays ↦
            rw stays
              ((split_expired-missing k config now m d.0, split_expired-Distinct config now m d.1))
      ]

  expire_flows-Within :
      (n : ℕ) (now : Timestamp) (c : FlowTracker pf)
      → Within pf (suc n) c.config c
      → Within pf n c.config (expire_flows pf now c).0
  unfolding expire_flows
  expire_flows-Within n now c w =
      let i = w.tracked in
      let s = (split_expired-IsSplit c.config now c.flows).total in
      let few = w.few in
      let b = i.bounded in
      let a = i.accounted in
      let m = i.created in
      record {
        tracked = record {
          distinct = split_expired-Distinct c.config now c.flows i.distinct;
          bounded = omega (arith, s, b);
          counted = split_expired-Every (λ r. IsCounted pf r.1) c.config now c.flows i.counted;
          accounted = omega (arith, s, a, m, few);
          created = m;
        };
        settings = refl;
        few = omega (arith, few);
      }

  step-Within :
      (n : ℕ) (x : Call) (c : FlowTracker pf)
      → 0 < c.config.max_flows
      → Within pf (suc n) c.config c
      → Gives (Within pf n c.config) (step pf x c)
  step-Within n (packet slot bytes t) c h w =
      bind-Gives (λ r. Within pf n c.config r.0) (Within pf n c.config)
        (process_packet pf slot bytes t c) _ (process_packet-Within pf n slot bytes t c h w)
        (λ r i. i)
  step-Within n (sweep now) c h w = expire_flows-Within n now c w

  run-Within :
      (xs : List Call) (config : FlowTrackerConfig) (c : FlowTracker pf)
      → 0 < config.max_flows
      → Within pf (length xs) config c
      → Gives (IsTracked pf) (run pf xs c)
  run-Within [] config c h w = w.tracked
  run-Within (x ∷ xs) config c h w =
      let s = w.settings in
      bind-Gives (Within pf (length xs) config) (IsTracked pf) (step pf x c) (run pf xs)
        (subst (λ g. Gives (Within pf (length xs) g) (step pf x c)) s
          (step-Within (length xs) x c (subst (λ g. 0 < g.max_flows) (sym s) h)
            (subst (λ g. Within pf (suc (length xs)) g c) (sym s) w)))
        (λ c' w'. run-Within xs config c' h w')

  -- From a new tracker that allows a flow, every sequence of fewer than 2^64 packets and sweeps runs
  -- to its end with no access out of bounds, whatever the packets are and whichever flows are
  -- evicted, and leaves a tracker in which no key has two flows, there are at most `max_flows`, each
  -- flow's counters add up over its two directions, and flows active and expired are among those created.
  pub run-IsTracked :
      (xs : List Call) (config : FlowTrackerConfig)
      → 0 < config.max_flows
      → length xs < 2 ^ 64
      → Gives (IsTracked pf) (run pf xs (new_tracker pf config))
  run-IsTracked xs config h l = run-Within xs config (new_tracker pf config) h (record {
    tracked = record {
      distinct = tt;
      bounded = omega arith;
      counted = tt;
      accounted = omega arith;
      created = omega arith;
    };
    settings = refl;
    few = omega (arith, l);
  })

  -- A sweep returns the flows that are due, removes just these, and leaves those that are not.
  pub expire_flows-IsSplit :
      (now : Timestamp) (c : FlowTracker pf)
      → let r = expire_flows pf now c in IsSplit c.config now c.flows r.0.flows r.1
  unfolding expire_flows
  expire_flows-IsSplit now c = split_expired-IsSplit c.config now c.flows
