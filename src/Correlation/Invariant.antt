-- ===== src/Correlation/Invariant.antt =====
-- What holds of the state of every rule and aggregation key after any stream in order.
use aiguard_siem.Common.{
  ◌≤◌, List, [], ◌∷◌, Text, length, Every, arith, Bool-cases, inl, inr, length-append, Every-insert,
  Every-find, text_key, leb,
}
use aiguard_siem.Events.{Platform, Event, Timestamp}
use aiguard_siem.Correlation.Conditions.{CorrelationRule, matches_conditions}
use aiguard_siem.Correlation.Engine.{
  CorrelationState, StateMap, RuleState, fresh_state, state_at, put_state, store_event,
  trigger_copy, track, Progress, on_match, evaluate, evaluate_all, CorrelationEngine, process_event,
  process_events, aggregation_key,
}
use aiguard_siem.Correlation.Expiry.{InOrder, InOrder-mono, track_window}

-- One key's state: the stamps are in order and not later than `now`, and at most 100 events are
-- stored.
pub record IsTidy {D : Type 0} (now : Timestamp) (s : CorrelationState D) : Type 0 where
  pub ordered : InOrder now s.timestamps
  pub bounded : length s.events ≤ 100

abbrev pub AllTidy : {D : Type 0} → Timestamp → StateMap D → Type 0
AllTidy now m = Every (λ r. Every (λ k. IsTidy now k.1) r.1) m

fresh-IsTidy : {D : Type 0} (now : Timestamp) → IsTidy {D = D} now fresh_state
fresh-IsTidy now = record { ordered = record { ascending = tt; past = tt }; bounded = omega arith }

state_at-IsTidy :
    {D : Type 0} (now : Timestamp) (m : StateMap D) (rule_id key : Text)
    → AllTidy now m
    → IsTidy now (state_at m rule_id key)
state_at-IsTidy now m rule_id key a =
    Every-find (IsTidy now) key fresh_state _ (fresh-IsTidy now)
      (Every-find (Every (λ k. IsTidy now k.1)) rule_id [] m tt a)

put_state-AllTidy :
    {D : Type 0} (now : Timestamp) (m : StateMap D) (rule_id key : Text) (s : CorrelationState D)
    → IsTidy now s
    → AllTidy now m
    → AllTidy now (put_state m rule_id key s)
put_state-AllTidy now m rule_id key s h a =
    Every-insert (Every (λ k. IsTidy now k.1)) rule_id _ m
      (Every-insert (IsTidy now) key s _ h
        (Every-find (Every (λ k. IsTidy now k.1)) rule_id [] m tt a))
      a

rule-later :
    {D : Type 0} {now later : Timestamp} (m : RuleState D)
    → now ≤ later
    → Every (λ k. IsTidy now k.1) m
    → Every (λ k. IsTidy later k.1) m
rule-later [] h a = tt
rule-later ((k, s) ∷ m) h a = (
  record { ordered = InOrder-mono s.timestamps h a.0.ordered; bounded = a.0.bounded },
  rule-later m h a.1,
)

AllTidy-later :
    {D : Type 0} {now later : Timestamp} (m : StateMap D)
    → now ≤ later
    → AllTidy now m
    → AllTidy later m
AllTidy-later [] h a = tt
AllTidy-later ((k, r) ∷ m) h a = (rule-later r h a.0, AllTidy-later m h a.1)

store_event-bounded :
    {D : Type 0} (e : Event D) (es : List (Event D))
    → length es ≤ 100
    → length (store_event e es) ≤ 100
unfolding store_event
store_event-bounded e es h = ground (arith, length-append es (trigger_copy e ∷ []))

module _ (pf : Platform) where
  open pf use {Double, Regex}

  track-IsTidy :
      (rule : CorrelationRule Regex) (e : Event Double) (s : CorrelationState Double)
      → IsTidy e.timestamp s
      → IsTidy e.timestamp (track pf rule e s)
  track-IsTidy rule e s h = record {
    ordered = (track_window pf rule e s h.ordered).2;
    bounded = unfold track in store_event-bounded e s.events h.bounded;
  }

  on_match-AllTidy :
      (e : Event Double) (rule_id : Text) (rule : CorrelationRule Regex) (p : Progress pf)
      → AllTidy e.timestamp p.state
      → AllTidy e.timestamp (on_match pf e rule_id rule p).state
  unfolding on_match
  on_match-AllTidy e rule_id rule p a =
      let key : Text = aggregation_key pf rule e in
      let s : CorrelationState Double = track pf rule e (state_at p.state rule_id key) in
      let h : IsTidy e.timestamp s =
        track-IsTidy rule e _ (state_at-IsTidy e.timestamp p.state rule_id key a) in
      let cleared : IsTidy e.timestamp (record s { timestamps = []; events = [] }) = record {
        ordered = record { ascending = tt; past = tt };
        bounded = omega arith;
      } in
      elim (Bool-cases (leb rule.threshold (length s.timestamps))) [
        | inl fires ↦ rw fires (put_state-AllTidy e.timestamp p.state rule_id key _ cleared a)
        | inr quiet ↦ rw quiet (put_state-AllTidy e.timestamp p.state rule_id key s h a)
      ]

  evaluate-AllTidy :
      (e : Event Double) (r : Text × CorrelationRule Regex) (p : Progress pf)
      → AllTidy e.timestamp p.state
      → AllTidy e.timestamp (evaluate pf e r p).state
  unfolding evaluate
  evaluate-AllTidy e (rule_id, rule) p a = elim (Bool-cases (matches_conditions pf e rule)) [
    | inr out ↦ rw out a
    | inl hit ↦ rw hit (on_match-AllTidy e rule_id rule p a)
  ]

  evaluate_all-AllTidy :
      (e : Event Double) (rs : List (Text × CorrelationRule Regex)) (p : Progress pf)
      → AllTidy e.timestamp p.state
      → AllTidy e.timestamp (evaluate_all pf e rs p).state
  unfolding evaluate_all
  evaluate_all-AllTidy e [] p a = a
  evaluate_all-AllTidy e (r ∷ rs) p a =
      evaluate_all-AllTidy e rs (evaluate pf e r p) (evaluate-AllTidy e r p a)

  process_event-AllTidy :
      (c : CorrelationEngine pf) (e : Event Double) (now : Timestamp)
      → now ≤ e.timestamp
      → AllTidy now c.state
      → AllTidy e.timestamp (process_event pf c e).0.state
  unfolding process_event
  process_event-AllTidy c e now h a = evaluate_all-AllTidy e c.rules _ (AllTidy-later c.state h a)

  -- The time of the last event of a stream that starts at `now`, and that the stream is in order.
  abbrev pub last_time : Timestamp → List (Event Double) → Timestamp
  last_time now [] = now
  last_time now (e ∷ es) = last_time e.timestamp es

  abbrev pub ArrivesInOrder : Timestamp → List (Event Double) → Type 0
  ArrivesInOrder now [] = Unit {0}
  ArrivesInOrder now (e ∷ es) = (now ≤ e.timestamp) × ArrivesInOrder e.timestamp es

  -- Whatever the rules are, a stream of events in order keeps every key of every rule tidy: its
  -- stamps ascend and none lies in the future, and it stores at most 100 triggering events.
  pub process_events-AllTidy :
      (c : CorrelationEngine pf) (es : List (Event Double)) (now : Timestamp)
      → ArrivesInOrder now es
      → AllTidy now c.state
      → AllTidy (last_time now es) (process_events pf c es).0.state
  unfolding process_events
  process_events-AllTidy c [] now o a = a
  process_events-AllTidy c (e ∷ es) now o a =
      process_events-AllTidy (process_event pf c e).0 es e.timestamp o.1
        (process_event-AllTidy c e now o.0 a)
