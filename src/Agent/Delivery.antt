-- ===== src/Agent/Delivery.antt =====
-- What the agent takes in goes out in order, each event once, in batches.
use aiguard_siem.Common.{
  ℕ, ◌+◌, ◌-◌, ◌/◌, ◌<◌, ◌≡◌, refl, sym, ap, ◌∙◌, Bool, true, false, not, ◌&&◌, Option, List, [],
  ◌∷◌, ◌++◌, if◌then◌else◌, length, Bool-cases, inl, inr, arith, leb, ◌==◌, is_empty,
}
use mathlib.Core.Path.{subst}
use mathlib.Core.List.{append_assoc, append-nil}
use aiguard_siem.Events.{Event, Timestamp}
use aiguard_siem.Ring.Buffer.{RingBuffer, try_push, try_pop}
use aiguard_siem.Ring.Queue.{Holds, push_spec, pop_spec, new_buffer-Holds}
use aiguard_siem.Ring.Refinement.{try_push_lem, try_pop_lem}
use aiguard_siem.Agent.Conversion.{EndpointEvent, convert_endpoint_event}
use aiguard_siem.Agent.Core.{
  AgentConfig, AgentCore, submit_event, flush_batch, add_to_batch, work_popped, work_turn,
  heartbeat_turn, execute_action, new_agent,
}

-- A turn of one of the threads, or a call.
pub data Turn : Type 0 where
  submit : EndpointEvent → Turn
  work : ℕ → Timestamp → Turn
  beat : Timestamp → Turn
  act : Turn

module _ {D : Type 0} where
  -- The events are conversions of the endpoint events, one of each, in their order.
  abbrev pub Converted : List EndpointEvent → List (Event D) → Type 0
  Converted [] [] = Unit
  Converted [] (e ∷ es) = ⊥
  Converted (p ∷ ps) [] = ⊥
  Converted (p ∷ ps) (e ∷ es) = ((id : ℕ) × (e ≡ convert_endpoint_event id p)) × Converted ps es

  Converted-snoc :
      (ps : List EndpointEvent) (es : List (Event D)) (id : ℕ) (p : EndpointEvent)
      → Converted ps es
      → Converted (ps ++ (p ∷ [])) (es ++ (convert_endpoint_event id p ∷ []))
  Converted-snoc [] [] id p h = ((id, refl), tt)
  Converted-snoc [] (e ∷ es) id p h = absurd h
  Converted-snoc (q ∷ ps) [] id p h = absurd h
  Converted-snoc (q ∷ ps) (e ∷ es) id p h = (h.0, Converted-snoc ps es id p h.1)

  -- Of the events taken in, the first ones are converted, delivered or in the batch, and the others
  -- wait in the queue; the batch is not full.
  pub record IsDelivering (taken : List EndpointEvent) (c : AgentCore D) : Type 0 where
    pub done : List EndpointEvent
    pub waiting : List EndpointEvent
    pub parts : taken ≡ done ++ waiting
    pub holds : Holds c.event_queue waiting
    pub converted : Converted done (c.delivered ++ c.batch)
    pub room : length c.batch < c.config.event_batch_size

  -- What a turn takes in: the event that is submitted, if the queue has room.
  abbrev pub taken_by : Turn → AgentCore D → List EndpointEvent
  taken_by (submit p) c = if (try_push p c.event_queue).1 then p ∷ [] else []
  taken_by _ c = []

  abbrev pub step : Turn → AgentCore D → AgentCore D
  step (submit p) c = submit_event p c
  step (work sent now) c = work_turn sent now c
  step (beat now) c = heartbeat_turn now c
  step act c = (execute_action c).0

  abbrev pub run : List Turn → AgentCore D → AgentCore D
  run [] c = c
  run (t ∷ ts) c = run ts (step t c)

  abbrev pub taken_in : List Turn → AgentCore D → List EndpointEvent
  taken_in [] c = []
  taken_in (t ∷ ts) c = taken_by t c ++ taken_in ts (step t c)

  submit_event-IsDelivering :
      (p : EndpointEvent) (taken : List EndpointEvent) (c : AgentCore D)
      → IsDelivering taken c
      → IsDelivering (taken ++ taken_by (submit p) c) (submit_event p c)
  unfolding submit_event
  submit_event-IsDelivering p taken c i =
      let push = try_push_lem p c.event_queue i.waiting i.holds in
      let r = try_push p c.event_queue in
      let q = push_spec c.event_queue.capacity p i.waiting in
      elim (Bool-cases (length i.waiting + 1 == c.event_queue.capacity)) [
        | inl last ↦
            let refused : r.1 ≡ false = push.0 ∙ (let s : q.1 ≡ false = rw last refl in s) in
            rw refused (record {
              done = i.done;
              waiting = i.waiting;
              parts = append-nil taken ∙ i.parts;
              holds = rw last at push.1.0;
              converted = i.converted;
              room = i.room;
            })
        | inr space ↦
            let accepted : r.1 ≡ true = push.0 ∙ (let s : q.1 ≡ true = rw space refl in s) in
            rw accepted (record {
              done = i.done;
              waiting = i.waiting ++ (p ∷ []);
              parts = ap (λ x. x ++ (p ∷ [])) i.parts ∙ append_assoc i.done i.waiting (p ∷ []);
              holds = rw space at push.1.0;
              converted = i.converted;
              room = i.room;
            })
      ]

  -- A batch that goes out keeps the events in their order.
  flush_batch-IsDelivering :
      (sent : ℕ) (now : Timestamp) (taken done waiting : List EndpointEvent) (c : AgentCore D)
      → taken ≡ done ++ waiting
      → Holds c.event_queue waiting
      → Converted done (c.delivered ++ c.batch)
      → 0 < c.config.event_batch_size
      → IsDelivering taken (flush_batch sent now c)
  flush_batch-IsDelivering sent now taken done waiting c parts holds converted pos = record {
    done = done;
    waiting = waiting;
    parts = parts;
    holds = holds;
    converted = subst (Converted done) (sym (append-nil (c.delivered ++ c.batch))) converted;
    room = pos;
  }

  if-IsDelivering :
      (b : Bool) (taken : List EndpointEvent) (c d : AgentCore D)
      → (b ≡ true → IsDelivering taken c)
      → (b ≡ false → IsDelivering taken d)
      → IsDelivering taken (if b then c else d)
  if-IsDelivering true taken c d f g = f refl
  if-IsDelivering false taken c d f g = g refl

  work_popped-IsDelivering :
      (sent : ℕ) (now : Timestamp) (taken done waiting : List EndpointEvent)
      (b : RingBuffer EndpointEvent) (o : Option EndpointEvent) (c : AgentCore D)
      → taken ≡ done ++ waiting
      → o ≡ (pop_spec waiting).1
      → Holds b (pop_spec waiting).0
      → Converted done (c.delivered ++ c.batch)
      → length c.batch < c.config.event_batch_size
      → IsDelivering taken (work_popped sent now o (record c { event_queue = b }))
  unfolding work_popped
  work_popped-IsDelivering sent now taken done [] b o c parts e holds converted room =
      let d : AgentCore D = record c { event_queue = b } in
      subst (λ x. IsDelivering taken (work_popped sent now x d)) (sym e)
        (if-IsDelivering
          (not (is_empty c.batch)
            && leb c.config.event_batch_timeout_ms ((now - c.last_flush) / 1_000_000))
          taken (flush_batch sent now d) d
          (λ due.
            flush_batch-IsDelivering sent now taken done [] d parts holds converted
              (omega (arith, room)))
          (λ early. record {
            done = done;
            waiting = [];
            parts = parts;
            holds = holds;
            converted = converted;
            room = room;
          }))
  work_popped-IsDelivering sent now taken done (p ∷ waiting) b o c parts e holds converted room =
      let d : AgentCore D = record c { event_queue = b } in
      let event : Event D = convert_endpoint_event c.next_id p in
      let added : AgentCore D = add_to_batch p d in
      let parts' : taken ≡ (done ++ (p ∷ [])) ++ waiting =
        parts ∙ sym (append_assoc done (p ∷ []) waiting) in
      let converted' : Converted (done ++ (p ∷ [])) (c.delivered ++ (c.batch ++ (event ∷ []))) =
        subst (Converted (done ++ (p ∷ []))) (append_assoc c.delivered c.batch (event ∷ []))
          (Converted-snoc done (c.delivered ++ c.batch) c.next_id p converted) in
      subst (λ x. IsDelivering taken (work_popped sent now x d)) (sym e)
        (if-IsDelivering (leb c.config.event_batch_size (length added.batch)) taken
          (flush_batch sent now added) added
          (λ is_full.
            flush_batch-IsDelivering sent now taken (done ++ (p ∷ [])) waiting added parts' holds
              converted' (omega (arith, room)))
          (λ some_left. record {
            done = done ++ (p ∷ []);
            waiting = waiting;
            parts = parts';
            holds = holds;
            converted = converted';
            room = ground arith;
          }))

  work_turn-IsDelivering :
      (sent : ℕ) (now : Timestamp) (taken : List EndpointEvent) (c : AgentCore D)
      → IsDelivering taken c
      → IsDelivering taken (work_turn sent now c)
  unfolding work_turn
  work_turn-IsDelivering sent now taken c i =
      let pop = try_pop_lem c.event_queue i.waiting i.holds in
      let r = try_pop c.event_queue in
      work_popped-IsDelivering sent now taken i.done i.waiting r.0 r.1 c i.parts pop.0 pop.1.0
        i.converted i.room

  step-IsDelivering :
      (t : Turn) (taken : List EndpointEvent) (c : AgentCore D)
      → IsDelivering taken c
      → IsDelivering (taken ++ taken_by t c) (step t c)
  unfolding heartbeat_turn execute_action
  step-IsDelivering (submit p) taken c i = submit_event-IsDelivering p taken c i
  step-IsDelivering (work sent now) taken c i =
      subst (λ x. IsDelivering x (work_turn sent now c)) (sym (append-nil taken))
        (work_turn-IsDelivering sent now taken c i)
  step-IsDelivering (beat now) taken c i = record {
    done = i.done;
    waiting = i.waiting;
    parts = append-nil taken ∙ i.parts;
    holds = i.holds;
    converted = i.converted;
    room = i.room;
  }
  step-IsDelivering act taken c i = record {
    done = i.done;
    waiting = i.waiting;
    parts = append-nil taken ∙ i.parts;
    holds = i.holds;
    converted = i.converted;
    room = i.room;
  }

  run-from :
      (ts : List Turn) (taken : List EndpointEvent) (c : AgentCore D)
      → IsDelivering taken c
      → IsDelivering (taken ++ taken_in ts c) (run ts c)
  run-from [] taken c i = subst (λ x. IsDelivering x c) (sym (append-nil taken)) i
  run-from (t ∷ ts) taken c i =
      subst (λ x. IsDelivering x (run ts (step t c)))
        (append_assoc taken (taken_by t c) (taken_in ts (step t c)))
        (run-from ts (taken ++ taken_by t c) (step t c) (step-IsDelivering t taken c i))

  -- From a new agent with a batch size above zero, in whatever order submissions, rounds of the
  -- processing loop, heartbeats and actions come and whatever the Kafka client answers: the events
  -- that the queue took are, in their order and each once, the delivered ones, those of the batch,
  -- and those that wait in the queue; the first two are their conversions, and the batch is never full.
  pub run-IsDelivering :
      (ts : List Turn) (blank : EndpointEvent) (config : AgentConfig) (now : Timestamp)
      → 0 < config.event_batch_size
      → let c = new_agent blank config now in IsDelivering (taken_in ts c) (run ts c)
  run-IsDelivering ts blank config now h =
      let c : AgentCore D = new_agent blank config now in
      run-from ts [] c (record {
        done = [];
        waiting = [];
        parts = refl;
        holds = new_buffer-Holds 65536 blank (omega arith);
        converted = tt;
        room = h;
      })
