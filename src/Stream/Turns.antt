-- ===== src/Stream/Turns.antt =====
-- The turns of the consumers and of the workers.
use aiguard_siem.Common.{
  ◌+◌, ◌≡◌, refl, sym, ap, ◌∙◌, Bool, true, false, Option, none, some, List, [], ◌∷◌, ◌++◌,
  if◌then◌else◌, length, length-append, Bool-cases, inl, inr, arith, ◌==◌,
}
use mathlib.Core.List.{append-nil}
use mathlib.Core.Path.{subst}
use aiguard_siem.Events.{Platform, Event, Timestamp}
use aiguard_siem.Ring.Buffer.{RingBuffer, try_push, try_pop}
use aiguard_siem.Ring.Queue.{Holds, push_spec, pop_spec}
use aiguard_siem.Ring.Refinement.{try_push_lem, try_pop_lem}
use aiguard_siem.Stream.Processor.{
  StreamProcessor, Message, correlate, aggregate_windows, process_popped, process_turn,
  receive_event, receive_turn, push_turn, next_consumer,
}
use aiguard_siem.Stream.Detector.{
  Turn, handled_events, detector_of, detect_matches, detect_windows, correlate-detect_matches,
  aggregate_windows-detect_windows,
}
use aiguard_siem.Stream.Sending.{Sends-trans, correlate-Sends, aggregate_windows-Sends}
use aiguard_siem.Stream.Runs.{count, count-append, accepted, popped_turns, IsAccounted}

module _ (pf : Platform) where
  open pf use {Double, Regex}

  module _ (c₀ : StreamProcessor pf) where
    abbrev Accounted : List (Event Double) → List (Turn pf) → StreamProcessor pf → Type 0
    Accounted es h c = IsAccounted pf c₀ es h c

    -- What the queue answers to a pop, and the turn that follows.
    popped-IsAccounted :
        (now : Timestamp) (es : List (Event Double)) (h : List (Turn pf)) (c : StreamProcessor pf)
        (i : IsAccounted pf c₀ es h c) (b : RingBuffer (Event Double)) (q : List (Event Double))
        → i.queued ≡ q
        → Holds b (pop_spec q).0
        → b.capacity ≡ 4096
        → Accounted es
            (popped_turns pf now (pop_spec q).1 ++ h)
            (process_popped pf now (pop_spec q).1 (record c { event_queue = b }))
    unfolding process_popped
    popped-IsAccounted now es h c i b [] same holds capacity = record {
      queued = [];
      holds = holds;
      capacity = capacity;
      events = λ test.
          subst
            (λ x.
              count test es
              ≡ count test (handled_events pf h) + count test x + count test c.pending)
            same (i.events test);
      correlating = i.correlating;
      windowing = i.windowing;
      detector = i.detector;
      consumed = i.consumed;
      processed = i.processed;
      alerts = i.alerts;
      peak = i.peak;
    }
    popped-IsAccounted now es h c i b (e ∷ q) same holds capacity =
        let c' : StreamProcessor pf = record c { event_queue = b } in
        let d = correlate pf e c' in
        let out = aggregate_windows pf now e d in
        let one = correlate-Sends pf e c' in
        let s = Sends-trans pf c' d out one (aggregate_windows-Sends pf now e d) in
        let first = correlate-detect_matches pf e c' in
        let second = aggregate_windows-detect_windows pf now e d in
        let on_c = c₀.enable_correlation in
        let on_w = c₀.enable_windowing in
        let processed = i.processed in
        let peak = i.peak in
        record {
          queued = q;
          holds = subst (λ x. Holds x q) (sym s.queue) holds;
          capacity = ap (λ x. x.capacity) s.queue ∙ capacity;
          events = λ test.
              let here : count test i.queued ≡ count test (e ∷ q) = ap (count test) same in
              let waiting : count test out.pending ≡ count test c.pending =
                ap (count test) s.pending in
              omega (arith, i.events test, here, waiting);
          correlating = s.correlating ∙ i.correlating;
          windowing = s.windowing ∙ i.windowing;
          detector =
              second
              ∙ (ap (λ on. detect_windows pf on now e (detector_of pf d))
                    (one.windowing ∙ i.windowing)
                  ∙ ap (detect_windows pf on_w now e) (
                      first
                      ∙ (ap (λ on. detect_matches pf on e (detector_of pf c)) i.correlating
                          ∙ ap (detect_matches pf on_c e) i.detector)));
          consumed = s.consumed ∙ i.consumed;
          processed = omega (arith, processed, s.processed);
          alerts = s.alerts i.alerts;
          peak = omega (arith, peak, s.current, s.peak);
        }

    pub process_turn-IsAccounted :
        (now : Timestamp) (es : List (Event Double)) (h : List (Turn pf)) (c : StreamProcessor pf)
        → Accounted es h c
        → Accounted es (popped_turns pf now (try_pop c.event_queue).1 ++ h) (process_turn pf now c)
    unfolding process_turn
    process_turn-IsAccounted now es h c i =
        let pop = try_pop_lem c.event_queue i.queued i.holds in
        let r = try_pop c.event_queue in
        subst
          (λ o.
            Accounted es (popped_turns pf now o ++ h)
              (process_popped pf now o (record c { event_queue = r.0 })))
          (sym pop.0)
          (popped-IsAccounted now es h c i r.0 i.queued refl pop.1.0 (pop.1.1 ∙ i.capacity))

    receive_event-IsAccounted :
        (o : Option (Event Double)) (es : List (Event Double)) (h : List (Turn pf))
        (c : StreamProcessor pf)
        → Accounted es h c
        → Accounted (es ++ (elim o [ none ↦ [] | some e ↦ e ∷ [] ])) h (receive_event pf o c)
    unfolding receive_event
    receive_event-IsAccounted none es h c i = rw (append-nil es) i
    receive_event-IsAccounted (some e) es h c i =
        let consumed = i.consumed in
        record {
          queued = i.queued;
          holds = i.holds;
          capacity = i.capacity;
          events = λ test. omega (
            arith,
            i.events test,
            count-append test c.pending (e ∷ []),
            count-append test es (e ∷ []),
          );
          correlating = i.correlating;
          windowing = i.windowing;
          detector = i.detector;
          consumed = omega (arith, consumed, length-append es (e ∷ []));
          processed = i.processed;
          alerts = i.alerts;
          peak = i.peak;
        }

    pub receive_turn-IsAccounted :
        (m : Message Double) (es : List (Event Double)) (h : List (Turn pf))
        (c : StreamProcessor pf)
        → Accounted es h c
        → Accounted (es ++ accepted pf m) h (receive_turn pf m c)
    unfolding receive_turn
    receive_turn-IsAccounted m es h c i =
        let read : List (Event Double) = elim m.event [ none ↦ [] | some e ↦ e ∷ [] ] in
        let Goal = λ (b : Bool).
          Accounted (es ++ (if b then read else [])) h
            (if b then receive_event pf m.event c else c) in
        elim (Bool-cases (m.error_code == 0)) [
          | inl fine ↦ subst Goal (sym fine) (receive_event-IsAccounted m.event es h c i)
          | inr bad ↦ subst Goal (sym bad) (rw (append-nil es) i)
        ]

    pub push_turn-IsAccounted :
        (ps : List (Event Double)) (es : List (Event Double)) (h : List (Turn pf))
        (c : StreamProcessor pf)
        → ps ≡ c.pending
        → Accounted es h c
        → Accounted es h (push_turn pf ps c)
    unfolding push_turn
    push_turn-IsAccounted [] es h c w i = i
    push_turn-IsAccounted (e ∷ ps) es h c w i =
        let push = try_push_lem e c.event_queue i.queued i.holds in
        let r = try_push e c.event_queue in
        let Goal = λ (b : Bool).
          Accounted es h (if b then record c { event_queue = r.0; pending = ps } else c) in
        let spec = push_spec c.event_queue.capacity e i.queued in
        elim (Bool-cases (length i.queued + 1 == c.event_queue.capacity)) [
          | inl last ↦
              let refused : spec.1 ≡ false = rw last refl in subst Goal (sym (push.0 ∙ refused)) i
          | inr room ↦
              let taken : spec.1 ≡ true = rw room refl in
              subst Goal (sym (push.0 ∙ taken)) (record {
                queued = i.queued ++ (e ∷ []);
                holds = rw room at push.1.0;
                capacity = push.1.1 ∙ i.capacity;
                events = λ test.
                    let waiting : count test c.pending ≡ count test (e ∷ ps) =
                      ap (count test) (sym w) in
                    omega (arith, i.events test, waiting, count-append test i.queued (e ∷ []));
                correlating = i.correlating;
                windowing = i.windowing;
                detector = i.detector;
                consumed = i.consumed;
                processed = i.processed;
                alerts = i.alerts;
                peak = i.peak;
              })
        ]

    count-next_consumer :
        (test : Event Double → Bool) (ps : List (Event Double))
        → count test (next_consumer pf ps) ≡ count test ps
    count-next_consumer test [] = refl
    count-next_consumer test (e ∷ ps) = omega (arith, count-append test ps (e ∷ []))

    pub switch-IsAccounted :
        (es : List (Event Double)) (h : List (Turn pf)) (c : StreamProcessor pf)
        → Accounted es h c
        → Accounted es h (record c { pending = next_consumer pf c.pending })
    switch-IsAccounted es h c i = record {
      queued = i.queued;
      holds = i.holds;
      capacity = i.capacity;
      events = λ test. omega (arith, i.events test, count-next_consumer test c.pending);
      correlating = i.correlating;
      windowing = i.windowing;
      detector = i.detector;
      consumed = i.consumed;
      processed = i.processed;
      alerts = i.alerts;
      peak = i.peak;
    }
