-- ===== src/Correlation/Tests.antt =====
-- The engine on a small rule: failed logins of a host.
use aiguard_siem.Common.{
  ℕ, ◌+◌, ◌*◌, ◌%◌, ◌^◌, ◌≤◌, ◌<◌, ◌≡◌, refl, ◌↔◌, true, false, Bool, List, [], ◌∷◌, ◌++◌, map,
  none, Option, Text, codes, find, text_key, length, Every, arith, has, if◌then◌else◌, suc,
}
use aiguard_siem.Platforms.{whole_numbers}
use aiguard_siem.Events.{Event, empty_event, medium, milliseconds}
use aiguard_siem.Correlation.Conditions.{
  Condition, CorrelationRule, get_field_string, check_condition, matches_conditions, check_op,
}
use aiguard_siem.Correlation.Engine.{
  Alert, CorrelationState, Stats, Progress, CorrelationEngine, track, on_match, process_event,
  process_events, evaluate_all, evaluate, aggregation_key, fresh_state, drop_expired,
  cleanup_expired, store_event, make_alert, count_alert,
}
use aiguard_siem.Correlation.Expiry.{InOrder, keep_recent, track_window}
use aiguard_siem.Correlation.Invariant.{AllTidy, IsTidy, process_events-AllTidy}
use aiguard_siem.Correlation.Cleanup.{survivors, lifetime, cleanup_expired-live}
use aiguard_siem.Correlation.Below.{AllBelow, process_events-AllBelow}
use aiguard_siem.Correlation.Threshold.{
  InBurst, on_matches, stamps, burst_below_threshold, burst_at_threshold,
}

abbrev condition : Condition Text
condition = record {
  field = codes "event.action";
  op = codes "=";
  value = codes "login-failed";
  compiled_regex = none;
}

-- Two failed logins within a second.
abbrev brute_force : CorrelationRule Text
brute_force = record {
  id = codes "ssh";
  name = codes "SSH brute force";
  description = [];
  mitre_tactic = [];
  mitre_technique = codes "T1110";
  severity = medium;
  severity_score = 50;
  conditions = condition ∷ [];
  time_window_ms = 1000;
  threshold = 2;
  aggregation_field = codes "host.name";
  action = codes "alert";
  sigma_rule_id = [];
}

abbrev login : ℕ → Event ℕ
unfolding empty_event
login t =
    let blank : Event ℕ = empty_event in
    record blank { timestamp = t; action = codes "login-failed"; host_name = codes "web1" }

abbrev no_stats : Stats
no_stats = record {
  events_processed = 0;
  alerts_generated = 0;
  rules_matched = 0;
  rules_evaluated = 0;
}

abbrev engine : CorrelationEngine whole_numbers
engine = record { rules = (codes "ssh", brute_force) ∷ []; state = []; stats = no_stats }

abbrev start : Progress whole_numbers
start = record { state = []; stats = no_stats; alerts = [] }

-- The second login within the window fires, and the counting starts again.
two_logins : length (process_events whole_numbers engine (login 5 ∷ login 6 ∷ login 7 ∷ [])).1 ≡ 1
unfolding process_events process_event evaluate_all evaluate matches_conditions check_condition
    get_field_string check_op on_match aggregation_key track drop_expired login find
    aiguard_siem.Common.Maps.insert empty_event store_event make_alert count_alert
two_logins = refl

-- A login that comes later than the window does not.
late_login : length (process_events whole_numbers engine (login 5 ∷ login 1_000_000_006 ∷ [])).1 ≡ 0
unfolding process_events process_event evaluate_all evaluate matches_conditions check_condition
    get_field_string check_op on_match aggregation_key track drop_expired login find
    aiguard_siem.Common.Maps.insert empty_event store_event make_alert count_alert
late_login = refl

absent : get_field_string whole_numbers (login 5) (codes "x") ≡ []
unfolding get_field_string login empty_event find
absent = refl

-- A key that has seen the times 5 and 7.
abbrev seen : CorrelationState ℕ
seen = record { first_seen = 5; last_seen = 7; timestamps = 5 ∷ 7 ∷ []; events = [] }

seen-InOrder : InOrder 1_000_000_006 seen.timestamps
seen-InOrder = omega arith

track_window_example :
    let w = milliseconds 1000 in
    let kept = (track whole_numbers brute_force (login 1_000_000_006) seen).timestamps in
    (kept ≡ keep_recent w 1_000_000_006 (5 ∷ 7 ∷ 1_000_000_006 ∷ []))
    × Every (λ t. (t ≤ 1_000_000_006) × (1_000_000_006 ≤ t + w)) kept
    × InOrder 1_000_000_006 kept
unfolding login
track_window_example =
    track_window whole_numbers brute_force (login 1_000_000_006) seen seen-InOrder

process_events-AllTidy_example :
    AllTidy 9 (process_events whole_numbers engine (login 5 ∷ login 9 ∷ [])).0.state
unfolding login
process_events-AllTidy_example =
    process_events-AllTidy whole_numbers engine (login 5 ∷ login 9 ∷ []) 0 (omega arith) tt

abbrev two_keys : CorrelationEngine whole_numbers
two_keys = record engine {
  state = (codes "ssh", (codes "web1", seen) ∷ (codes "web2", fresh_state) ∷ []) ∷ [];
}

two_keys-AllTidy : AllTidy 7 two_keys.state
two_keys-AllTidy = omega arith

cleanup_expired-live_example :
    let d = cleanup_expired whole_numbers two_keys 9 in
    (d ≡ record two_keys { state = survivors whole_numbers two_keys.rules 9 two_keys.state })
    × Every
        (λ r.
          Every
            (λ k. IsTidy 7 k.1 × (9 ≤ k.1.last_seen + lifetime whole_numbers two_keys.rules r.0))
            r.1)
        d.state
cleanup_expired-live_example = cleanup_expired-live whole_numbers two_keys 9 7 two_keys-AllTidy

engine-AllBelow : AllBelow whole_numbers engine.rules engine.state
unfolding find
engine-AllBelow = (λ key. omega arith, tt)

process_events-AllBelow_example :
    AllBelow whole_numbers engine.rules
      (process_events whole_numbers engine (login 5 ∷ login 6 ∷ login 7 ∷ [])).0.state
process_events-AllBelow_example =
    process_events-AllBelow whole_numbers engine (login 5 ∷ login 6 ∷ login 7 ∷ [])
      (unfold find in (refl, tt)) engine-AllBelow

login-InBurst : InBurst whole_numbers (codes "ssh") brute_force (codes "web1") 5 (login 6)
unfolding login empty_event aggregation_key get_field_string
login-InBurst = record { same_key = refl; close = omega arith; after = omega arith }

-- Another rule, that waits for three.
abbrev patient : CorrelationRule Text
patient = record brute_force { threshold = 3 }

patient-InBurst : InBurst whole_numbers (codes "ssh") patient (codes "web1") 5 (login 6)
unfolding login empty_event aggregation_key get_field_string
patient-InBurst = record { same_key = refl; close = omega arith; after = omega arith }

no_stamps :
    Every {A = ℕ} (λ t. 5 ≤ t) (stamps whole_numbers (codes "ssh") patient (codes "web1") start)
unfolding find
no_stamps = tt

burst_below_threshold_example :
    let q = on_matches whole_numbers (codes "ssh") patient (login 6 ∷ login 6 ∷ []) start in
    (q.alerts ≡ []) × (stamps whole_numbers (codes "ssh") patient (codes "web1") q ≡ 6 ∷ 6 ∷ [])
unfolding login find
burst_below_threshold_example =
    burst_below_threshold whole_numbers (codes "ssh") patient (codes "web1") 5
      (login 6 ∷ login 6 ∷ []) start (patient-InBurst, (patient-InBurst, tt)) no_stamps
      (omega arith)

burst_at_threshold_example :
    let q =
      on_match whole_numbers
        (login 6)
        (codes "ssh")
        patient
        (on_matches whole_numbers (codes "ssh") patient (login 6 ∷ login 6 ∷ []) start) in
    (a : Alert ℕ) × (q.alerts ≡ a ∷ [])
    × (a.rule_id ≡ codes "ssh")
    × (a.aggregation_key ≡ codes "web1")
    × (a.match_count ≡ 3)
    × (stamps whole_numbers (codes "ssh") patient (codes "web1") q ≡ [])
unfolding find
burst_at_threshold_example =
    burst_at_threshold whole_numbers (codes "ssh") patient (codes "web1") 5 (login 6 ∷ login 6 ∷ [])
      (login 6) start (patient-InBurst, (patient-InBurst, tt)) patient-InBurst no_stamps
      (omega arith) (omega arith)
