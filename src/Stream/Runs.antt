-- ===== src/Stream/Runs.antt =====
-- Runs of the stream processor, and what is to hold after each: no event that was received is lost,
-- changed or handled twice, and what is detected depends on the order of the turns alone.
use aiguard_siem.Common.{
  ℕ, ◌+◌, ◌≤◌, ◌≡◌, Bool, Option, none, some, List, [], ◌∷◌, ◌++◌, if◌then◌else◌, length, arith,
  ◌==◌,
}
use aiguard_siem.Events.{Platform, Event, Timestamp, wrap64}
use aiguard_siem.Ring.Buffer.{try_pop}
use aiguard_siem.Ring.Queue.{Holds}
use aiguard_siem.Stream.Processor.{
  StreamProcessor, Message, process_turn, receive_turn, push_turn, next_consumer, checkpoint_turn,
}
use aiguard_siem.Correlation.Conditions.{CorrelationRule}
use aiguard_siem.Windows.Manager.{WindowSpec}
use aiguard_siem.Stream.Processor.{add_correlation_rule, add_stream_window}
use aiguard_siem.Stream.Detector.{
  Turn, handled, swept, ruled, windowed, replay, handled_events, detector_of,
}

-- How many elements pass a test.
abbrev pub count {ℓ} : {A : Type ℓ} → (A → Bool) → List A → ℕ
count test [] = 0
count test (x ∷ xs) = (if test x then 1 else 0) + count test xs

pub count-append {ℓ} :
    {A : Type ℓ} (test : A → Bool) (xs ys : List A)
    → count test (xs ++ ys) ≡ count test xs + count test ys
count-append test [] ys = omega arith
count-append test (x ∷ xs) ys = omega (arith, count-append test xs ys)

module _ (pf : Platform) where
  open pf use {Double, Regex}

  abbrev pub accepted : Message Double → List (Event Double)
  accepted m = if m.error_code == 0 then (elim m.event [ none ↦ [] | some e ↦ e ∷ [] ]) else []

  abbrev pub popped_turns : Timestamp → Option (Event Double) → List (Turn pf)
  popped_turns now none = []
  popped_turns now (some e) = handled now e ∷ []

  -- A run from `c₀`: the events received so far, the turns that the detector saw, the latest one
  -- first, and the processor. The threads take turns in any order, and rules and windows are added
  -- in between.
  pub data Run (c₀ : StreamProcessor pf)
      : List (Event Double) → List (Turn pf) → StreamProcessor pf → Type 0 where
    start : Run c₀ [] [] c₀
    receive :
        {es : List (Event Double)} {h : List (Turn pf)} {c : StreamProcessor pf}
        (m : Message Double)
        → Run c₀ es h c
        → Run c₀ (es ++ accepted m) h (receive_turn pf m c)
    push :
        {es : List (Event Double)} {h : List (Turn pf)} {c : StreamProcessor pf}
        → Run c₀ es h c
        → Run c₀ es h (push_turn pf c.pending c)
    switch :
        {es : List (Event Double)} {h : List (Turn pf)} {c : StreamProcessor pf}
        → Run c₀ es h c
        → Run c₀ es h (record c { pending = next_consumer pf c.pending })
    process :
        {es : List (Event Double)} {h : List (Turn pf)} {c : StreamProcessor pf} (now : Timestamp)
        → Run c₀ es h c
        → Run c₀ es (popped_turns now (try_pop c.event_queue).1 ++ h) (process_turn pf now c)
    checkpoint :
        {es : List (Event Double)} {h : List (Turn pf)} {c : StreamProcessor pf}
        (now steady : Timestamp)
        → Run c₀ es h c
        → Run c₀ es (swept now ∷ h) (checkpoint_turn pf now steady c)
    add_rule :
        {es : List (Event Double)} {h : List (Turn pf)} {c : StreamProcessor pf}
        (rule : CorrelationRule Regex)
        → Run c₀ es h c
        → Run c₀ es (ruled rule ∷ h) (add_correlation_rule pf rule c)
    add_window :
        {es : List (Event Double)} {h : List (Turn pf)} {c : StreamProcessor pf}
        (spec : WindowSpec Double)
        → Run c₀ es h c
        → Run c₀ es (windowed spec ∷ h) (add_stream_window pf spec c)

  -- The events received are those handled, queued and held by consumers, as often each; the engine,
  -- the windows and the events produced are what the turns make of them, and the counters agree.
  pub record IsAccounted (c₀ : StreamProcessor pf) (es : List (Event Double)) (h : List (Turn pf))
      (c : StreamProcessor pf) : Type 0 where
    pub queued : List (Event Double)
    pub holds : Holds c.event_queue queued
    pub capacity : c.event_queue.capacity ≡ 4096
    pub events :
        (test : Event Double → Bool)
        → count test es
          ≡ count test (handled_events pf h) + count test queued + count test c.pending
    pub correlating : c.enable_correlation ≡ c₀.enable_correlation
    pub windowing : c.enable_windowing ≡ c₀.enable_windowing
    pub detector :
        detector_of pf c ≡ replay pf c₀.enable_correlation c₀.enable_windowing (detector_of pf c₀) h
    pub consumed : c.stats.events_consumed ≡ wrap64 (length es)
    pub processed : c.stats.events_processed ≡ wrap64 (length (handled_events pf h))
    pub alerts : c.stats.alerts_generated ≡ wrap64 (length c.produced)
    pub peak : c.stats.current_eps ≤ c.stats.peak_eps
