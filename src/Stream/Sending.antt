-- ===== src/Stream/Sending.antt =====
-- Sending alerts leaves the events and the rates of the processor alone.
use aiguard_siem.Common.{
  ℕ, ◌≡◌, refl, sym, ◌∙◌, Bool, true, false, List, [], ◌∷◌, if◌then◌else◌, length, length-append,
  Bool-cases, inl, inr, arith,
}
use mathlib.Core.Path.{subst}
use aiguard_siem.Events.{Platform, Event, Timestamp, wrap64}
use aiguard_siem.Correlation.Engine.{Alert}
use aiguard_siem.Correlation.Engine
use aiguard_siem.Windows.Manager.{WindowResult}
use aiguard_siem.Windows.Manager
use aiguard_siem.Stream.Processor.{
  StreamProcessor, produce, send_alerts, on_results, correlate, aggregate_windows, alert_event,
  window_event,
}

module _ (pf : Platform) where
  open pf use {Double}

  -- Sending alerts touches neither the events nor the rates.
  pub record Sends (c d : StreamProcessor pf) : Type 0 where
    pub correlating : d.enable_correlation ≡ c.enable_correlation
    pub windowing : d.enable_windowing ≡ c.enable_windowing
    pub queue : d.event_queue ≡ c.event_queue
    pub pending : d.pending ≡ c.pending
    pub consumed : d.stats.events_consumed ≡ c.stats.events_consumed
    pub processed : d.stats.events_processed ≡ c.stats.events_processed
    pub current : d.stats.current_eps ≡ c.stats.current_eps
    pub peak : d.stats.peak_eps ≡ c.stats.peak_eps
    pub alerts :
        c.stats.alerts_generated ≡ wrap64 (length c.produced)
        → d.stats.alerts_generated ≡ wrap64 (length d.produced)

  Sends-refl : (c : StreamProcessor pf) → Sends c c
  Sends-refl c = record {
    correlating = refl;
    windowing = refl;
    queue = refl;
    pending = refl;
    consumed = refl;
    processed = refl;
    current = refl;
    peak = refl;
    alerts = λ h. h;
  }

  pub Sends-trans : (b c d : StreamProcessor pf) → Sends b c → Sends c d → Sends b d
  Sends-trans b c d f g = record {
    correlating = g.correlating ∙ f.correlating;
    windowing = g.windowing ∙ f.windowing;
    queue = g.queue ∙ f.queue;
    pending = g.pending ∙ f.pending;
    consumed = g.consumed ∙ f.consumed;
    processed = g.processed ∙ f.processed;
    current = g.current ∙ f.current;
    peak = g.peak ∙ f.peak;
    alerts = λ h. g.alerts (f.alerts h);
  }

  produce-Sends :
      (e : Event Double) (matches : ℕ) (c : StreamProcessor pf) → Sends c (produce pf e matches c)
  produce-Sends e matches c = record {
    correlating = refl;
    windowing = refl;
    queue = refl;
    pending = refl;
    consumed = refl;
    processed = refl;
    current = refl;
    peak = refl;
    alerts = λ h. omega (arith, h, length-append c.produced (e ∷ []));
  }

  send_alerts-Sends :
      (alerts : List (Alert Double)) (c : StreamProcessor pf) → Sends c (send_alerts pf alerts c)
  unfolding send_alerts
  send_alerts-Sends [] c = Sends-refl c
  send_alerts-Sends (a ∷ alerts) c =
      let d = produce pf (alert_event pf c.next_id a) 1 c in
      Sends-trans c d (send_alerts pf alerts d) (produce-Sends _ 1 c) (send_alerts-Sends alerts d)

  on_results-Sends :
      (now : Timestamp) (results : List (WindowResult Double)) (c : StreamProcessor pf)
      → Sends c (on_results pf now results c)
  unfolding on_results
  on_results-Sends now [] c = Sends-refl c
  on_results-Sends now (r ∷ results) c =
      let d = produce pf (window_event pf c.next_id now r) 0 c in
      elim (Bool-cases r.threshold_exceeded) [
        | inl exceeded ↦
            subst
              (λ b.
                Sends c (if b then on_results pf now results d else on_results pf now results c))
              (sym exceeded)
              (Sends-trans c d (on_results pf now results d) (produce-Sends _ 0 c)
                (on_results-Sends now results d))
        | inr below ↦
            subst
              (λ b.
                Sends c (if b then on_results pf now results d else on_results pf now results c))
              (sym below) (on_results-Sends now results c)
      ]

  if-Sends :
      (b : Bool) (c d e : StreamProcessor pf) → Sends c d → Sends c e → Sends c (if b then d else e)
  if-Sends true c d e f g = f
  if-Sends false c d e f g = g

  pub correlate-Sends : (e : Event Double) (c : StreamProcessor pf) → Sends c (correlate pf e c)
  unfolding correlate
  correlate-Sends e c =
      let r = Engine.process_event pf c.correlation_engine e in
      let d : StreamProcessor pf = record c { correlation_engine = r.0 } in
      let same : Sends c d = record {
        correlating = refl;
        windowing = refl;
        queue = refl;
        pending = refl;
        consumed = refl;
        processed = refl;
        current = refl;
        peak = refl;
        alerts = λ h. h;
      } in
      if-Sends c.enable_correlation c _ c (Sends-trans c d _ same (send_alerts-Sends r.1 d))
        (Sends-refl c)

  pub aggregate_windows-Sends :
      (now : Timestamp) (e : Event Double) (c : StreamProcessor pf)
      → Sends c (aggregate_windows pf now e c)
  unfolding aggregate_windows
  aggregate_windows-Sends now e c =
      let r = Manager.process_event pf e c.window_manager in
      let d : StreamProcessor pf = record c { window_manager = r.0 } in
      let same : Sends c d = record {
        correlating = refl;
        windowing = refl;
        queue = refl;
        pending = refl;
        consumed = refl;
        processed = refl;
        current = refl;
        peak = refl;
        alerts = λ h. h;
      } in
      if-Sends c.enable_windowing c _ c (Sends-trans c d _ same (on_results-Sends now r.1 d))
        (Sends-refl c)
