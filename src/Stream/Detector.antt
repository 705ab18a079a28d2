-- ===== src/Stream/Detector.antt =====
-- What the stream processor detects, described without its threads and its queue: the engine and the
-- windows over the turns that touch them, one after the other, and the events that are produced.
use aiguard_siem.Common.{
  ℕ, ◌+◌, ◌≡◌, refl, ◌∙◌, Bool, true, false, List, [], ◌∷◌, ◌++◌, map, filter, if◌then◌else◌,
}
use aiguard_siem.Events.{Platform, Event, Timestamp, wrap64}
use aiguard_siem.Correlation.Conditions.{CorrelationRule}
use aiguard_siem.Correlation.Engine.{Alert, CorrelationEngine, add_rule, cleanup_expired}
use aiguard_siem.Correlation.Engine
use aiguard_siem.Windows.Manager.{
  EventWindowManager, WindowResult, WindowSpec, add_window, expire_windows,
}
use aiguard_siem.Windows.Manager
use aiguard_siem.Stream.Processor.{
  StreamProcessor, produce, send_alerts, on_results, correlate, aggregate_windows, alert_event,
  window_event,
}

module _ (pf : Platform) where
  open pf use {Double, Regex}

  pub record Detector : Type 0 where
    pub engine : CorrelationEngine pf
    pub windows : EventWindowManager pf
    pub produced : List (Event Double)
    pub next_id : ℕ

  -- Events that wait for their ids get them in turn.
  abbrev pub publish : List (ℕ → Event Double) → Detector → Detector
  publish [] d = d
  publish (draft ∷ drafts) d = publish drafts (record d {
    produced = d.produced ++ (draft d.next_id ∷ []);
    next_id = wrap64 (d.next_id + 1);
  })

  abbrev pub alert_drafts : List (Alert Double) → List (ℕ → Event Double)
  alert_drafts alerts = map (λ a id. alert_event pf id a) alerts

  abbrev pub window_drafts : Timestamp → List (WindowResult Double) → List (ℕ → Event Double)
  window_drafts now results =
      map (λ r id. window_event pf id now r) (filter (λ r. r.threshold_exceeded) results)

  abbrev pub detect_matches : Bool → Event Double → Detector → Detector
  detect_matches correlating e d =
      let (engine, alerts) = Engine.process_event pf d.engine e in
      if correlating then publish (alert_drafts alerts) (record d { engine = engine }) else d

  abbrev pub detect_windows : Bool → Timestamp → Event Double → Detector → Detector
  detect_windows windowing now e d =
      let (windows, results) = Manager.process_event pf e d.windows in
      if windowing then publish (window_drafts now results) (record d { windows = windows }) else d

  -- The turns that matter here.
  pub data Turn : Type 0 where
    handled : Timestamp → Event Double → Turn
    swept : Timestamp → Turn
    ruled : CorrelationRule Regex → Turn
    windowed : WindowSpec Double → Turn

  abbrev pub take_turn : Bool → Bool → Turn → Detector → Detector
  take_turn correlating windowing (handled now e) d =
      detect_windows windowing now e (detect_matches correlating e d)
  take_turn correlating windowing (swept now) d = record d {
    engine = cleanup_expired pf d.engine now;
    windows = (expire_windows pf now d.windows).0;
  }
  take_turn correlating windowing (ruled rule) d = record d { engine = add_rule pf d.engine rule }
  take_turn correlating windowing (windowed spec) d = record d {
    windows = add_window pf spec d.windows;
  }

  -- A history has the latest turn first.
  abbrev pub replay : Bool → Bool → Detector → List Turn → Detector
  replay correlating windowing d [] = d
  replay correlating windowing d (t ∷ history) =
      take_turn correlating windowing t (replay correlating windowing d history)

  abbrev pub handled_events : List Turn → List (Event Double)
  handled_events [] = []
  handled_events (handled now e ∷ history) = e ∷ handled_events history
  handled_events (swept now ∷ history) = handled_events history
  handled_events (ruled rule ∷ history) = handled_events history
  handled_events (windowed spec ∷ history) = handled_events history

  abbrev pub detector_of : StreamProcessor pf → Detector
  detector_of c = record {
    engine = c.correlation_engine;
    windows = c.window_manager;
    produced = c.produced;
    next_id = c.next_id;
  }

  send_alerts-publish :
      (alerts : List (Alert Double)) (c : StreamProcessor pf)
      → detector_of (send_alerts pf alerts c) ≡ publish (alert_drafts alerts) (detector_of c)
  unfolding send_alerts
  send_alerts-publish [] c = refl
  send_alerts-publish (a ∷ alerts) c =
      send_alerts-publish alerts (produce pf (alert_event pf c.next_id a) 1 c)

  if-detector_of :
      (b : Bool) (c c' : StreamProcessor pf) (d d' : Detector)
      → detector_of c ≡ d
      → detector_of c' ≡ d'
      → detector_of (if b then c else c') ≡ (if b then d else d')
  if-detector_of true c c' d d' h k = h
  if-detector_of false c c' d d' h k = k

  -- A result below its threshold makes no draft.
  if-publish :
      (b : Bool) (now : Timestamp) (r : WindowResult Double) (rs : List (WindowResult Double))
      (d : Detector)
      → let draft = λ (x : WindowResult Double) (id : ℕ). window_event pf id now x in
        (if b then publish (map draft (r ∷ rs)) d else publish (map draft rs) d)
        ≡ publish (map draft (if b then r ∷ rs else rs)) d
  if-publish true now r rs d = refl
  if-publish false now r rs d = refl

  on_results-publish :
      (now : Timestamp) (results : List (WindowResult Double)) (c : StreamProcessor pf)
      → detector_of (on_results pf now results c)
        ≡ publish (window_drafts now results) (detector_of c)
  unfolding on_results
  on_results-publish now [] c = refl
  on_results-publish now (r ∷ results) c =
      let d = produce pf (window_event pf c.next_id now r) 0 c in
      if-detector_of r.threshold_exceeded (on_results pf now results d)
        (on_results pf now results c) _ _ (on_results-publish now results d)
        (on_results-publish now results c)
      ∙ if-publish r.threshold_exceeded now r (filter (λ x. x.threshold_exceeded) results)
          (detector_of c)

  pub correlate-detect_matches :
      (e : Event Double) (c : StreamProcessor pf)
      → detector_of (correlate pf e c) ≡ detect_matches c.enable_correlation e (detector_of c)
  unfolding correlate
  correlate-detect_matches e c =
      let r = Engine.process_event pf c.correlation_engine e in
      let d : StreamProcessor pf = record c { correlation_engine = r.0 } in
      if-detector_of c.enable_correlation (send_alerts pf r.1 d) c _ (detector_of c)
        (send_alerts-publish r.1 d) refl

  pub aggregate_windows-detect_windows :
      (now : Timestamp) (e : Event Double) (c : StreamProcessor pf)
      → detector_of (aggregate_windows pf now e c)
        ≡ detect_windows c.enable_windowing now e (detector_of c)
  unfolding aggregate_windows
  aggregate_windows-detect_windows now e c =
      let r = Manager.process_event pf e c.window_manager in
      let d : StreamProcessor pf = record c { window_manager = r.0 } in
      if-detector_of c.enable_windowing (on_results pf now r.1 d) c _ (detector_of c)
        (on_results-publish now r.1 d) refl
