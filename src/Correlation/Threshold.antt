-- ===== src/Correlation/Threshold.antt =====
-- When a rule fires: counting the events of one key up to the rule's threshold.
use aiguard_siem.Common.{
  suc, ◌+◌, ◌^◌, ◌≤◌, ◌<◌, ◌≡◌, refl, sym, ap, ◌∙◌, List, [], ◌∷◌, ◌++◌, map, Text, length, leb,
  Every, Every-mono, Every-snoc, length-map, arith, Bool-cases, inl, inr, length-append, text_key,
  text_eq, text_eq_refl, find, find-insert, get_or_else, true, false,
}
use mathlib.Core.List.{append_assoc, append-nil}
use aiguard_siem.Events.{Platform, Event, Timestamp, milliseconds}
use aiguard_siem.Correlation.Conditions.{CorrelationRule}
use aiguard_siem.Correlation.Engine.{
  Alert, CorrelationState, StateMap, state_at, put_state, track, make_alert, Progress, on_match,
  aggregation_key,
}
use aiguard_siem.Correlation.Expiry.{drop_expired_none}

pub state_at-put_state_self :
    {D : Type 0} (m : StateMap D) (rule_id key : Text) (s : CorrelationState D)
    → state_at (put_state m rule_id key s) rule_id key ≡ s
state_at-put_state_self m rule_id key s =
    rw (find-insert rule_id rule_id _ m, text_eq_refl rule_id)
      (rw (find-insert key key s (get_or_else (find rule_id m) []), text_eq_refl key))

-- The states of the other rules, and of the other keys of the rule, are not touched.
pub state_at-put_state_rule :
    {D : Type 0} (m : StateMap D) (rule_id other key j : Text) (s : CorrelationState D)
    → text_eq rule_id other ≡ false
    → state_at (put_state m rule_id key s) other j ≡ state_at m other j
state_at-put_state_rule m rule_id other key j s h = rw (find-insert rule_id other _ m, h)

pub state_at-put_state_key :
    {D : Type 0} (m : StateMap D) (rule_id key j : Text) (s : CorrelationState D)
    → text_eq key j ≡ false
    → state_at (put_state m rule_id key s) rule_id j ≡ state_at m rule_id j
state_at-put_state_key m rule_id key j s h =
    rw (find-insert rule_id rule_id _ m, text_eq_refl rule_id)
      (rw (find-insert key j s (get_or_else (find rule_id m) []), h))

module _ (pf : Platform) (rule_id : Text) (rule : CorrelationRule pf.Regex) where
  open pf use {Double}

  -- After an event that matches, its key has fewer stamps left than the threshold asks for.
  pub on_match-lt-threshold :
      (e : Event Double) (p : Progress pf)
      → 0 < rule.threshold
      → let q = on_match pf e rule_id rule p in
        length (state_at q.state rule_id (aggregation_key pf rule e)).timestamps < rule.threshold
  unfolding on_match
  on_match-lt-threshold e p h =
      let key : Text = aggregation_key pf rule e in
      let s : CorrelationState Double = track pf rule e (state_at p.state rule_id key) in
      elim (Bool-cases (leb rule.threshold (length s.timestamps))) [
        | inl fires ↦ rw (fires, state_at-put_state_self p.state rule_id key _) h
        | inr quiet ↦ rw (quiet, state_at-put_state_self p.state rule_id key s) (ground arith)
      ]

  -- The loop over events that all match the rule.
  abbrev pub on_matches : List (Event Double) → Progress pf → Progress pf
  on_matches [] p = p
  on_matches (e ∷ es) p = on_matches es (on_match pf e rule_id rule p)

  -- A burst: events of one key that come within the window of the time `since`.
  pub record InBurst (key : Text) (since : Timestamp) (e : Event Double) : Type 0 where
    pub same_key : aggregation_key pf rule e ≡ key
    pub close : e.timestamp ≤ since + milliseconds rule.time_window_ms
    pub after : since ≤ e.timestamp

  track_burst :
      (key : Text) (since : Timestamp) (e : Event Double) (s : CorrelationState Double)
      → InBurst key since e
      → Every (λ t. since ≤ t) s.timestamps
      → (track pf rule e s).timestamps ≡ s.timestamps ++ (e.timestamp ∷ [])
  unfolding track
  track_burst key since e s b a = drop_expired_none _ e.timestamp _ (
      Every-snoc _ s.timestamps e.timestamp
        (Every-mono _ _ s.timestamps (λ t h. omega (arith, b.close)) a) (omega arith))

  Every-stamps :
      (key : Text) (since : Timestamp) (ts : List Timestamp) (es : List (Event Double))
      → Every (λ t. since ≤ t) ts
      → Every (InBurst key since) es
      → Every (λ t. since ≤ t) (ts ++ map (λ e. e.timestamp) es)
  Every-stamps key since [] [] a b = tt
  Every-stamps key since [] (e ∷ es) a b = (b.0.after, Every-stamps key since [] es a b.1)
  Every-stamps key since (t ∷ ts) es a b = (a.0, Every-stamps key since ts es a.1 b)

  abbrev pub stamps : Text → Progress pf → List Timestamp
  stamps key p = (state_at p.state rule_id key).timestamps

  quiet_step :
      (key : Text) (since : Timestamp) (e : Event Double) (p : Progress pf)
      → InBurst key since e
      → Every (λ t. since ≤ t) (stamps key p)
      → suc (length (stamps key p)) < rule.threshold
      → let q = on_match pf e rule_id rule p in
        (q.alerts ≡ p.alerts) × (stamps key q ≡ stamps key p ++ (e.timestamp ∷ []))
  unfolding on_match
  quiet_step key since e p b a h =
      let s : CorrelationState Double = track pf rule e (state_at p.state rule_id key) in
      let counted : s.timestamps ≡ stamps key p ++ (e.timestamp ∷ []) =
        track_burst key since e (state_at p.state rule_id key) b a in
      let quiet : leb rule.threshold (length s.timestamps) ≡ false =
        ground (arith, ap length counted, length-append (stamps key p) (e.timestamp ∷ [])) in
      rw (b.same_key, quiet)
        (refl, ap (λ x. x.timestamps) (state_at-put_state_self p.state rule_id key s) ∙ counted)

  firing_step :
      (key : Text) (since : Timestamp) (e : Event Double) (p : Progress pf)
      → InBurst key since e
      → Every (λ t. since ≤ t) (stamps key p)
      → suc (length (stamps key p)) ≡ rule.threshold
      → let q = on_match pf e rule_id rule p in
        let s = track pf rule e (state_at p.state rule_id key) in
        (q.alerts ≡ p.alerts ++ (make_alert pf rule_id rule key e p.stats s ∷ []))
        × (length s.timestamps ≡ rule.threshold)
        × (stamps key q ≡ [])
  unfolding on_match
  firing_step key since e p b a h =
      let s : CorrelationState Double = track pf rule e (state_at p.state rule_id key) in
      let counted : length s.timestamps ≡ rule.threshold = omega (
        arith,
        ap length (track_burst key since e (state_at p.state rule_id key) b a),
        length-append (stamps key p) (e.timestamp ∷ []),
        h,
      ) in
      let fires : leb rule.threshold (length s.timestamps) ≡ true = ground (arith, counted) in
      rw (b.same_key, fires)
        (refl, counted, ap (λ x. x.timestamps) (state_at-put_state_self p.state rule_id key _))

  -- A burst that stays below the threshold, counting the stamps that the key already has, gives no
  -- alert, and the key keeps the stamp of each of its events.
  pub burst_below_threshold :
      (key : Text) (since : Timestamp) (es : List (Event Double)) (p : Progress pf)
      → Every (InBurst key since) es
      → Every (λ t. since ≤ t) (stamps key p)
      → length (stamps key p) + length es < rule.threshold
      → let q = on_matches es p in
        (q.alerts ≡ p.alerts) × (stamps key q ≡ stamps key p ++ map (λ e. e.timestamp) es)
  burst_below_threshold key since [] p b a h = (refl, sym (append-nil (stamps key p)))
  burst_below_threshold key since (e ∷ es) p b a h =
      let q : Progress pf = on_match pf e rule_id rule p in
      let step = quiet_step key since e p b.0 a (omega arith) in
      let rest =
        burst_below_threshold key since es q b.1
          (rw step.1 (Every-snoc _ (stamps key p) e.timestamp a b.0.after))
          (omega (arith, ap length step.1, length-append (stamps key p) (e.timestamp ∷ []))) in
      (
        rest.0 ∙ step.0,
        rest.1
            ∙ (rw (
              step.1,
              append_assoc (stamps key p) (e.timestamp ∷ []) (map (λ e. e.timestamp) es),
            )),
      )

  -- The event that brings a burst to the threshold gives exactly one more alert. It carries the
  -- rule, the key and the threshold as its count, and the key starts again with no stamps.
  pub burst_at_threshold :
      (key : Text) (since : Timestamp) (es : List (Event Double)) (e : Event Double)
      (p : Progress pf)
      → Every (InBurst key since) es
      → InBurst key since e
      → Every (λ t. since ≤ t) (stamps key p)
      → suc (length (stamps key p) + length es) ≡ rule.threshold
      → rule.threshold < 2 ^ 32
      → let q = on_match pf e rule_id rule (on_matches es p) in
        (a : Alert Double) × (q.alerts ≡ p.alerts ++ (a ∷ []))
        × (a.rule_id ≡ rule_id)
        × (a.aggregation_key ≡ key)
        × (a.match_count ≡ rule.threshold)
        × (stamps key q ≡ [])
  unfolding make_alert
  burst_at_threshold key since es e p b last a h small =
      let mid : Progress pf = on_matches es p in
      let below = burst_below_threshold key since es p b a (omega arith) in
      let seen : Every (λ t. since ≤ t) (stamps key mid) =
        rw below.1 (Every-stamps key since (stamps key p) es a b) in
      let full : suc (length (stamps key mid)) ≡ rule.threshold = omega (
        arith,
        ap length below.1,
        h,
        length-append (stamps key p) (map (λ e. e.timestamp) es),
        length-map es (λ (e : Event Double). e.timestamp),
      ) in
      let step = firing_step key since e mid last seen full in
      (
        make_alert pf rule_id rule key e mid.stats
            (track pf rule e (state_at mid.state rule_id key)),
        rw below.0 at step.0,
        refl,
        refl,
        omega (arith, step.1, small),
        step.2,
      )
