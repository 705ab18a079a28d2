-- ===== src/Correlation/Engine.antt =====
-- engine/correlation/src/correlation_engine.cpp: the engine's state and its methods. A call runs
-- to its end before the next one; the locks of the source are what makes that so for `state_`.
use aiguard_siem.Common.{
  ℕ, ◌+◌, ◌^◌, ◌%◌, Bool, true, false, none, some, List, [], ◌∷◌, ◌++◌, map, Text, codes,
  if◌then◌else◌, is_empty, has, find, insert, erase, text_key, length, ltb, leb, decimal,
  get_or_else,
}
use aiguard_siem.Events.{Platform, Event, Severity, Timestamp, empty_event, milliseconds, wrap64}
use aiguard_siem.Correlation.Conditions.{
  CorrelationRule, get_field_string, matches_conditions, compile_regex,
}

pub record Alert (D : Type 0) : Type 0 where
  pub id : Text
  pub rule_id : Text
  pub rule_name : Text
  pub description : Text
  pub mitre_tactic : Text
  pub mitre_technique : Text
  pub severity : Severity
  pub severity_score : ℕ
  pub timestamp : Timestamp
  pub triggering_events : List (Event D)
  pub aggregation_key : Text
  pub match_count : ℕ
  pub action : Text
  pub status : Text

pub record CorrelationState (D : Type 0) : Type 0 where
  pub first_seen : Timestamp
  pub last_seen : Timestamp
  pub timestamps : List Timestamp
  pub events : List (Event D)

pub record Stats : Type 0 where
  pub events_processed : ℕ
  pub alerts_generated : ℕ
  pub rules_matched : ℕ
  pub rules_evaluated : ℕ

abbrev pub RuleState : Type 0 → Type 0
RuleState D = List (Text × CorrelationState D)

-- rule_id -> aggregation_key -> state
abbrev pub StateMap : Type 0 → Type 0
StateMap D = List (Text × RuleState D)

abbrev pub fresh_state : {D : Type 0} → CorrelationState D
fresh_state = record { first_seen = 0; last_seen = 0; timestamps = []; events = [] }

-- `state_[rule_id][agg_key]`; an absent entry is made.
abbrev pub state_at : {D : Type 0} → StateMap D → Text → Text → CorrelationState D
state_at m rule_id key = get_or_else (find key (get_or_else (find rule_id m) [])) fresh_state

abbrev pub put_state : {D : Type 0} → StateMap D → Text → Text → CorrelationState D → StateMap D
put_state m rule_id key s = insert rule_id (insert key s (get_or_else (find rule_id m) [])) m

-- The loop that drops time stamps from the front while they lie before the window.
unfoldable pub drop_expired : ℕ → Timestamp → List Timestamp → List Timestamp
drop_expired window now [] = []
drop_expired window now (t ∷ ts) =
    let rest = drop_expired window now ts in if ltb (t + window) now then rest else t ∷ ts

-- The fields that are kept of a triggering event.
unfoldable pub trigger_copy : {D : Type 0} → Event D → Event D
unfolding empty_event
trigger_copy {D} e =
    let blank : Event D = empty_event in
    record blank {
      id = e.id;
      timestamp = e.timestamp;
      source_ip = e.source_ip;
      destination_ip = e.destination_ip;
      host_name = e.host_name;
      user_name = e.user_name;
      process_name = e.process_name;
      category = e.category;
      action = e.action;
      severity = e.severity;
    }

unfoldable pub store_event : {D : Type 0} → Event D → List (Event D) → List (Event D)
store_event e es = if ltb (length es) 100 then es ++ (trigger_copy e ∷ []) else es

module _ (pf : Platform) where
  open pf use {Double, Regex}

  -- The state of the key once the event is counted in.
  unfoldable pub track :
      CorrelationRule Regex → Event Double → CorrelationState Double → CorrelationState Double
  track rule e s = record {
    first_seen = if is_empty s.timestamps then e.timestamp else s.first_seen;
    last_seen = e.timestamp;
    timestamps =
        drop_expired (milliseconds rule.time_window_ms) e.timestamp
          (s.timestamps ++ (e.timestamp ∷ []));
    events = store_event e s.events;
  }

  unfoldable pub make_alert :
      Text
      → CorrelationRule Regex
      → Text
      → Event Double
      → Stats
      → CorrelationState Double
      → Alert Double
  unfolding decimal
  make_alert rule_id rule key e stats s = record {
    id = codes "alert-" ++ decimal (wrap64 (stats.alerts_generated + 1));
    rule_id = rule_id;
    rule_name = rule.name;
    description = rule.description;
    mitre_tactic = rule.mitre_tactic;
    mitre_technique = rule.mitre_technique;
    severity = rule.severity;
    severity_score = rule.severity_score;
    timestamp = e.timestamp;
    triggering_events = s.events;
    aggregation_key = key;
    match_count = length s.timestamps % 2 ^ 32;
    action = rule.action;
    status = codes "open";
  }

  unfoldable pub count_alert : Stats → Stats
  count_alert s = record s {
    alerts_generated = wrap64 (s.alerts_generated + 1);
    rules_matched = wrap64 (s.rules_matched + 1);
  }

  unfoldable pub aggregation_key : CorrelationRule Regex → Event Double → Text
  aggregation_key rule e =
      let k : Text =
        if is_empty rule.aggregation_field
        then []
        else get_field_string pf e rule.aggregation_field in
      if is_empty k then codes "_global_" else k

  -- What the loop over the rules carries.
  pub record Progress : Type 0 where
    pub state : StateMap Double
    pub stats : Stats
    pub alerts : List (Alert Double)

  -- A rule that matched: count the event in, and fire and reset at the threshold.
  unfoldable pub on_match : Event Double → Text → CorrelationRule Regex → Progress → Progress
  on_match e rule_id rule p =
      let key : Text = aggregation_key rule e in
      let s : CorrelationState Double = track rule e (state_at p.state rule_id key) in
      if leb rule.threshold (length s.timestamps)
      then record {
        state = put_state p.state rule_id key (record s { timestamps = []; events = [] });
        stats = count_alert p.stats;
        alerts = p.alerts ++ (make_alert rule_id rule key e p.stats s ∷ []);
      }
      else record p { state = put_state p.state rule_id key s }

  unfoldable pub evaluate : Event Double → Text × CorrelationRule Regex → Progress → Progress
  evaluate e (rule_id, rule) p =
      if matches_conditions pf e rule then on_match e rule_id rule p else p

  unfoldable pub evaluate_all :
      Event Double → List (Text × CorrelationRule Regex) → Progress → Progress
  evaluate_all e [] p = p
  evaluate_all e (r ∷ rs) p = evaluate_all e rs (evaluate e r p)

  pub record CorrelationEngine : Type 0 where
    pub rules : List (Text × CorrelationRule Regex)
    pub state : StateMap Double
    pub stats : Stats

  unfoldable pub add_rule : CorrelationEngine → CorrelationRule Regex → CorrelationEngine
  add_rule c rule = record c {
    rules =
        insert rule.id (record rule { conditions = map (compile_regex pf) rule.conditions })
          c.rules;
  }

  unfoldable pub remove_rule : CorrelationEngine → Text → CorrelationEngine × Bool
  remove_rule c rule_id =
      if has (find rule_id c.rules)
      then (record c { rules = erase rule_id c.rules }, true)
      else (c, false)

  unfoldable pub process_event :
      CorrelationEngine → Event Double → CorrelationEngine × List (Alert Double)
  process_event c e =
      let begun : Stats = record c.stats {
        events_processed = wrap64 (c.stats.events_processed + 1);
        rules_evaluated = wrap64 (c.stats.rules_evaluated + length c.rules);
      } in
      let p : Progress =
        evaluate_all e c.rules (record { state = c.state; stats = begun; alerts = [] }) in
      (record c { state = p.state; stats = p.stats }, p.alerts)

  unfoldable pub process_events :
      CorrelationEngine → List (Event Double) → CorrelationEngine × List (Alert Double)
  process_events c [] = (c, [])
  process_events c (e ∷ es) =
      let (c', alerts) = process_event c e in
      let (c'', more) = process_events c' es in (c'', alerts ++ more)

  -- The keys whose last event lies before the cutoff are erased.
  unfoldable pub prune : ℕ → Timestamp → RuleState Double → RuleState Double
  prune window now [] = []
  prune window now ((k, s) ∷ m) =
      if ltb (s.last_seen + window) now then prune window now m else (k, s) ∷ prune window now m

  unfoldable pub rule_window : CorrelationEngine → Text → ℕ
  rule_window c rule_id = elim (find rule_id c.rules) [
    | some rule ↦ milliseconds rule.time_window_ms
    | none ↦ milliseconds 60_000
  ]

  unfoldable pub prune_all : CorrelationEngine → Timestamp → StateMap Double → StateMap Double
  prune_all c now [] = []
  prune_all c now ((rule_id, m) ∷ rest) =
      (rule_id, prune (rule_window c rule_id) now m) ∷ prune_all c now rest

  unfoldable pub cleanup_expired : CorrelationEngine → Timestamp → CorrelationEngine
  cleanup_expired c now = record c { state = prune_all c now c.state }

  unfoldable pub get_rules : CorrelationEngine → List (CorrelationRule Regex)
  get_rules c = map (λ r. r.1) c.rules

  unfoldable pub rule_count : CorrelationEngine → ℕ
  rule_count c = length c.rules
