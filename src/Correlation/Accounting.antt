-- ===== src/Correlation/Accounting.antt =====
-- The engine's counters and its table of rules.
use aiguard_siem.Common.{
  ℕ, suc, ◌+◌, ◌-◌, ◌^◌, ◌≤◌, ◌<◌, ◌≡◌, refl, ◌∙◌, List, [], ◌∷◌, map, Text, length, leb, arith,
  Bool-cases, inl, inr, length-append, text_key, text_eq, text_eq_iff, find, find-insert,
  find-erase, if◌then◌else◌, false, some, none, has, Distinct, erase-Distinct, length-insert,
  length-erase,
}
use aiguard_siem.Events.{Platform, Event, wrap64}
use aiguard_siem.Correlation.Conditions.{CorrelationRule, matches_conditions, compile_regex}
use aiguard_siem.Correlation.Engine.{
  Stats, CorrelationState, track, make_alert, state_at, aggregation_key, count_alert, Progress,
  on_match, evaluate, evaluate_all, CorrelationEngine, process_event, process_events, add_rule,
  remove_rule, rule_count,
}

-- Looking up any key in a map that lacks `k`.
absent :
    {V : Type 0} (k j : Text) (m : List (Text × V))
    → has (find k m) ≡ false
    → find j m ≡ (if text_eq k j then none else find j m)
absent k j m h = ground (arith, text_eq_iff k j)

module _ (pf : Platform) where
  open pf use {Double, Regex}

  -- From `p` to `q` at most `n` alerts were added, and the counters count them.
  record Counts (n : ℕ) (p q : Progress pf) : Type 0 where
    grown : length p.alerts ≤ length q.alerts
    few : length q.alerts ≤ length p.alerts + n
    generated :
        q.stats.alerts_generated
        ≡ wrap64 (p.stats.alerts_generated + (length q.alerts - length p.alerts))
    matched :
        q.stats.rules_matched ≡ wrap64 (p.stats.rules_matched + (length q.alerts - length p.alerts))
    evaluated : q.stats.rules_evaluated ≡ p.stats.rules_evaluated
    processed : q.stats.events_processed ≡ p.stats.events_processed

  -- The counters hold 64 bits.
  pub record InRange (s : Stats) : Type 0 where
    pub generated : s.alerts_generated < 2 ^ 64
    pub matched : s.rules_matched < 2 ^ 64

  on_match-Counts :
      (e : Event Double) (rule_id : Text) (rule : CorrelationRule Regex) (p : Progress pf)
      → InRange p.stats
      → Counts 1 p (on_match pf e rule_id rule p) × InRange (on_match pf e rule_id rule p).stats
  unfolding on_match count_alert
  on_match-Counts e rule_id rule p h =
      let key : Text = aggregation_key pf rule e in
      let s : CorrelationState Double = track pf rule e (state_at p.state rule_id key) in
      elim (Bool-cases (leb rule.threshold (length s.timestamps))) [
        | inl fires ↦ rw fires (
            omega (arith, length-append p.alerts (make_alert pf rule_id rule key e p.stats s ∷ [])))
        | inr quiet ↦ rw quiet (omega arith)
      ]

  evaluate-Counts :
      (e : Event Double) (r : Text × CorrelationRule Regex) (p : Progress pf)
      → InRange p.stats
      → Counts 1 p (evaluate pf e r p) × InRange (evaluate pf e r p).stats
  unfolding evaluate
  evaluate-Counts e (rule_id, rule) p h = elim (Bool-cases (matches_conditions pf e rule)) [
    | inl hit ↦ rw hit (on_match-Counts e rule_id rule p h)
    | inr out ↦ rw out (omega arith)
  ]

  evaluate_all-Counts :
      (e : Event Double) (rs : List (Text × CorrelationRule Regex)) (p : Progress pf)
      → InRange p.stats
      → Counts (length rs) p (evaluate_all pf e rs p) × InRange (evaluate_all pf e rs p).stats
  unfolding evaluate_all
  evaluate_all-Counts e [] p h = omega arith
  evaluate_all-Counts e (r ∷ rs) p h =
      let one = evaluate-Counts e r p h in
      let more = evaluate_all-Counts e rs (evaluate pf e r p) one.1 in
      omega (arith, one.0, more.0, more.1)

  -- Processing one event counts it once, counts every rule as evaluated, and adds the number of
  -- alerts that it returns, at most one for each rule, to both alert counters, modulo 2^64. The
  -- rules stay as they are.
  pub process_event-counts :
      (c : CorrelationEngine pf) (e : Event Double)
      → InRange c.stats
      → let (c', alerts) = process_event pf c e in
        (length alerts ≤ rule_count pf c)
        × (c'.stats.events_processed ≡ wrap64 (c.stats.events_processed + 1))
        × (c'.stats.rules_evaluated ≡ wrap64 (c.stats.rules_evaluated + rule_count pf c))
        × (c'.stats.alerts_generated ≡ wrap64 (c.stats.alerts_generated + length alerts))
        × (c'.stats.rules_matched ≡ wrap64 (c.stats.rules_matched + length alerts))
        × (c'.rules ≡ c.rules)
        × InRange c'.stats
  unfolding process_event rule_count
  process_event-counts c e h =
      let begun : Progress pf = record {
        state = c.state;
        stats = record c.stats {
          events_processed = wrap64 (c.stats.events_processed + 1);
          rules_evaluated = wrap64 (c.stats.rules_evaluated + length c.rules);
        };
        alerts = [];
      } in
      let all = evaluate_all-Counts e c.rules begun (omega arith) in
      (
        omega (arith, all.0),
        omega (arith, all.0),
        omega (arith, all.0),
        omega (arith, all.0),
        omega (arith, all.0),
        refl,
        all.1,
      )

  -- Over a stream of events the engine counts every event and every alert that it returns.
  pub process_events-counts :
      (c : CorrelationEngine pf) (es : List (Event Double))
      → InRange c.stats
      → c.stats.events_processed < 2 ^ 64
      → let (c', alerts) = process_events pf c es in
        (c'.stats.events_processed ≡ wrap64 (c.stats.events_processed + length es))
        × (c'.stats.alerts_generated ≡ wrap64 (c.stats.alerts_generated + length alerts))
        × (c'.rules ≡ c.rules)
  unfolding process_events
  process_events-counts c [] h k = (omega (arith, h.generated), omega (arith, h.generated), refl)
  process_events-counts c (e ∷ es) h k =
      let one = process_event-counts c e h in
      let c' : CorrelationEngine pf = (process_event pf c e).0 in
      let more = process_events-counts c' es one.6 (omega (arith, one.1)) in
      (
        omega (arith, more.0, one.1),
        omega (
          arith,
          more.1,
          one.3,
          length-append (process_event pf c e).1 (process_events pf c' es).1,
        ),
        more.2 ∙ one.5,
      )

  -- A rule that is added is found under its id, with its patterns compiled, in place of an older
  -- rule of that id; the other rules, the state and the counters stay.
  pub add_rule_lem :
      (c : CorrelationEngine pf) (r : CorrelationRule Regex) (j : Text)
      → let c' = add_rule pf c r in
        (find j c'.rules ≡ (
          if text_eq r.id j
          then some (record r { conditions = map (compile_regex pf) r.conditions })
          else find j c.rules))
        × (rule_count pf c'
            ≡ (if has (find r.id c.rules) then rule_count pf c else suc (rule_count pf c)))
        × (c'.state ≡ c.state)
        × (c'.stats ≡ c.stats)
  unfolding add_rule rule_count
  add_rule_lem c r j = (find-insert r.id j _ c.rules, length-insert r.id _ c.rules, refl, refl)

  -- `remove_rule` answers whether the rule was there. Afterwards it is gone and the others stay;
  -- the rule count falls exactly when the answer is true.
  pub remove_rule_lem :
      (c : CorrelationEngine pf) (k j : Text)
      → Distinct c.rules
      → let (c', done) = remove_rule pf c k in
        (done ≡ has (find k c.rules))
        × (find j c'.rules ≡ (if text_eq k j then none else find j c.rules))
        × (rule_count pf c' + (if done then 1 else 0) ≡ rule_count pf c)
        × Distinct c'.rules
  unfolding remove_rule rule_count
  remove_rule_lem c k j d = elim (Bool-cases (has (find k c.rules))) [
    | inl there ↦ rw there (
      refl,
      find-erase k j c.rules,
      rw there at (length-erase k c.rules d),
      erase-Distinct k c.rules d,
    )
    | inr gone ↦ rw gone (refl, absent k j c.rules gone, omega arith, d)
  ]
