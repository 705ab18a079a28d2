-- ===== src/Stream/Processor.antt =====
-- engine/correlation/src/stream_processor.cpp: the state of `StreamProcessor` and the turns of its
-- threads. The queue, the engine and the windows are the models of those components. Kafka is outside:
-- a message brings the event that its text decodes to, and `produced` are the events that went to the
-- producer. The counters of the metrics registry repeat those of `stats` and are left out.
use aiguard_siem.Common.{
  ℕ, ◌+◌, ◌-◌, ◌/◌, Bool, true, false, Option, none, some, List, [], ◌∷◌, ◌++◌, codes,
  if◌then◌else◌, ltb, ◌==◌,
}
use aiguard_siem.Common.Int.{pos}
use aiguard_siem.Events.{
  Platform, Event, text, int, double, empty_event, set_field, severity_to_string, Timestamp, wrap64,
}
use aiguard_siem.Correlation.Conditions.{CorrelationRule}
use aiguard_siem.Correlation.Engine.{Alert, CorrelationEngine, add_rule, cleanup_expired}
use aiguard_siem.Correlation.Engine
use aiguard_siem.Windows.Manager.{
  EventWindowManager, WindowResult, WindowSpec, add_window, set_result_callback, expire_windows,
}
use aiguard_siem.Windows.Manager
use aiguard_siem.Ring.Buffer.{RingBuffer, new_buffer, try_push, try_pop}
use aiguard_siem.Flows.Stats.{minus64}

pub record Stats : Type 0 where
  pub events_consumed : ℕ
  pub events_processed : ℕ
  pub alerts_generated : ℕ
  pub correlation_matches : ℕ
  pub current_eps : ℕ
  pub peak_eps : ℕ

-- A message of Kafka: its error code, and the event that `from_json` makes of it, if any.
pub record Message (D : Type 0) : Type 0 where
  pub error_code : ℕ
  pub event : Option (Event D)

module _ (pf : Platform) where
  open pf use {Double, Regex}

  pub record StreamProcessor : Type 0 where
    pub enable_correlation : Bool
    pub enable_windowing : Bool
    pub correlation_engine : CorrelationEngine pf
    pub window_manager : EventWindowManager pf
    pub event_queue : RingBuffer (Event Double)
    -- The events that the consumer threads hold until the queue takes them.
    pub pending : List (Event Double)
    pub stats : Stats
    pub last_stats_time : Timestamp
    pub last_events_consumed : ℕ
    pub next_id : ℕ
    pub produced : List (Event Double)

  unfoldable pub alert_event : ℕ → Alert Double → Event Double
  alert_event id alert =
      let blank = empty_event {D = Double} in
      let e : Event Double = record blank {
        id = id;
        timestamp = alert.timestamp;
        category = codes "alert";
        type = codes "correlation";
        severity = severity_to_string alert.severity;
        severity_score = alert.severity_score;
        action = alert.action;
      } in
      let e = set_field e (codes "alert.id") (text alert.id) in
      let e = set_field e (codes "alert.rule_id") (text alert.rule_id) in
      let e = set_field e (codes "alert.rule_name") (text alert.rule_name) in
      let e = set_field e (codes "alert.description") (text alert.description) in
      let e = set_field e (codes "alert.mitre_tactic") (text alert.mitre_tactic) in
      let e = set_field e (codes "alert.mitre_technique") (text alert.mitre_technique) in
      let e = set_field e (codes "alert.match_count") (int (pos alert.match_count)) in
      set_field e (codes "alert.aggregation_key") (text alert.aggregation_key)

  unfoldable pub window_event : ℕ → Timestamp → WindowResult Double → Event Double
  window_event id now result =
      let blank = empty_event {D = Double} in
      let e : Event Double = record blank {
        id = id;
        timestamp = now;
        category = codes "alert";
        type = codes "threshold";
        severity = codes "high";
        severity_score = 80;
        action = codes "window_threshold_exceeded";
      } in
      let e = set_field e (codes "alert.window_id") (text result.window_id) in
      let e = set_field e (codes "alert.window_spec") (text result.spec_id) in
      let e = set_field e (codes "alert.group_key") (text result.group_key) in
      let e = set_field e (codes "alert.aggregation_value") (double result.aggregation_value) in
      set_field e (codes "alert.event_count") (int (pos result.event_count))

  -- An alert goes to the producer and is counted; `matches` is one for those of the engine.
  abbrev pub produce : Event Double → ℕ → StreamProcessor → StreamProcessor
  produce e matches c = record c {
    produced = c.produced ++ (e ∷ []);
    next_id = wrap64 (c.next_id + 1);
    stats = record c.stats {
      alerts_generated = wrap64 (c.stats.alerts_generated + 1);
      correlation_matches = wrap64 (c.stats.correlation_matches + matches);
    };
  }

  unfoldable pub send_alerts : List (Alert Double) → StreamProcessor → StreamProcessor
  send_alerts [] c = c
  send_alerts (alert ∷ alerts) c = send_alerts alerts (produce (alert_event c.next_id alert) 1 c)

  -- The callback that the constructor registers, on each result in turn.
  unfoldable pub on_results :
      Timestamp → List (WindowResult Double) → StreamProcessor → StreamProcessor
  on_results now [] c = c
  on_results now (result ∷ results) c =
      let rest = on_results now results (produce (window_event c.next_id now result) 0 c) in
      let skipped = on_results now results c in if result.threshold_exceeded then rest else skipped

  unfoldable pub correlate : Event Double → StreamProcessor → StreamProcessor
  correlate e c =
      let (engine, alerts) = Engine.process_event pf c.correlation_engine e in
      if c.enable_correlation
      then send_alerts alerts (record c { correlation_engine = engine })
      else c

  unfoldable pub aggregate_windows : Timestamp → Event Double → StreamProcessor → StreamProcessor
  aggregate_windows now e c =
      let (windows, results) = Manager.process_event pf e c.window_manager in
      if c.enable_windowing
      then on_results now results (record c { window_manager = windows })
      else c

  abbrev pub count_processed : StreamProcessor → StreamProcessor
  count_processed c = record c {
    stats = record c.stats { events_processed = wrap64 (c.stats.events_processed + 1) };
  }

  -- One round of `process_loop`, given what the queue answers.
  unfoldable pub process_popped :
      Timestamp → Option (Event Double) → StreamProcessor → StreamProcessor
  process_popped now none c = c
  process_popped now (some e) c = count_processed (aggregate_windows now e (correlate e c))

  unfoldable pub process_turn : Timestamp → StreamProcessor → StreamProcessor
  process_turn now c =
      let (queue, popped) = try_pop c.event_queue in
      process_popped now popped (record c { event_queue = queue })

  -- A message in `consume_loop`, up to the wait for the queue.
  unfoldable pub receive_event : Option (Event Double) → StreamProcessor → StreamProcessor
  receive_event none c = c
  receive_event (some e) c = record c {
    pending = c.pending ++ (e ∷ []);
    stats = record c.stats { events_consumed = wrap64 (c.stats.events_consumed + 1) };
  }

  unfoldable pub receive_turn : Message Double → StreamProcessor → StreamProcessor
  receive_turn m c = if m.error_code == 0 then receive_event m.event c else c

  -- One try of the first consumer that waits.
  unfoldable pub push_turn : List (Event Double) → StreamProcessor → StreamProcessor
  push_turn [] c = c
  push_turn (e ∷ es) c =
      let (queue, done) = try_push e c.event_queue in
      if done then record c { event_queue = queue; pending = es } else c

  -- Another consumer comes first.
  abbrev pub next_consumer : List (Event Double) → List (Event Double)
  next_consumer [] = []
  next_consumer (e ∷ es) = es ++ (e ∷ [])

  abbrev pub elapsed_seconds : Timestamp → StreamProcessor → ℕ
  elapsed_seconds now c = (now - c.last_stats_time) / 1_000_000_000

  abbrev pub update_rates : Timestamp → StreamProcessor → Stats
  update_rates now c =
      let elapsed = elapsed_seconds now c in
      let eps : ℕ = minus64 c.stats.events_consumed c.last_events_consumed / elapsed in
      if ltb 0 elapsed
      then record c.stats {
        current_eps = eps;
        peak_eps = if ltb c.stats.peak_eps eps then eps else c.stats.peak_eps;
      }
      else c.stats

  -- One round of `checkpoint_loop`: the results of the windows that expire are dropped. The clock of
  -- the statistics is steady, the other one is not.
  unfoldable pub checkpoint_turn : Timestamp → Timestamp → StreamProcessor → StreamProcessor
  checkpoint_turn now steady c = record c {
    correlation_engine = cleanup_expired pf c.correlation_engine now;
    window_manager = (expire_windows pf now c.window_manager).0;
    stats = update_rates steady c;
    last_events_consumed = c.stats.events_consumed;
    last_stats_time = steady;
  }

  unfoldable pub add_correlation_rule : CorrelationRule Regex → StreamProcessor → StreamProcessor
  add_correlation_rule rule c = record c {
    correlation_engine = add_rule pf c.correlation_engine rule;
  }

  unfoldable pub add_stream_window : WindowSpec Double → StreamProcessor → StreamProcessor
  add_stream_window spec c = record c { window_manager = add_window pf spec c.window_manager }

  unfoldable pub get_stats : StreamProcessor → Stats
  get_stats c = c.stats

  -- The constructor; the queue has 4096 slots.
  abbrev pub new_processor : Bool → Bool → Timestamp → StreamProcessor
  new_processor enable_correlation enable_windowing now = record {
    enable_correlation = enable_correlation;
    enable_windowing = enable_windowing;
    correlation_engine = record {
      rules = [];
      state = [];
      stats = record {
        events_processed = 0;
        alerts_generated = 0;
        rules_matched = 0;
        rules_evaluated = 0;
      };
    };
    window_manager =
        set_result_callback pf true (record { specs = []; windows = []; has_callback = false });
    event_queue = new_buffer 4096 (empty_event {D = Double});
    pending = [];
    stats = record {
      events_consumed = 0;
      events_processed = 0;
      alerts_generated = 0;
      correlation_matches = 0;
      current_eps = 0;
      peak_eps = 0;
    };
    last_stats_time = now;
    last_events_consumed = 0;
    next_id = 1;
    produced = [];
  }
