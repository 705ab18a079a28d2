-- ===== src/Correlation/Cleanup.antt =====
-- Which keys a clean-up leaves.
use mathlib.Core.Option
use aiguard_siem.Common.{
  if◌then◌else◌, get_or_else, ℕ, ◌+◌, ◌*◌, ◌≤◌, ◌≡◌, refl, ap, true, false, Bool, Option, some,
  none, List, [], ◌∷◌, Text, map, filter, ltb, leb, Every, arith, Bool-cases, inl, inr, text_key,
  find,
}
use aiguard_siem.Events.{Platform, Timestamp, milliseconds}
use aiguard_siem.Correlation.Conditions.{CorrelationRule}
use aiguard_siem.Correlation.Engine.{
  CorrelationState, StateMap, RuleState, CorrelationEngine, prune, prune_all, cleanup_expired,
  rule_window, fresh_state,
}
use aiguard_siem.Correlation.Invariant.{IsTidy, AllTidy}

module _ (pf : Platform) where
  open pf use {Double, Regex}

  -- How long the keys of a rule live behind their last event, in nanoseconds.
  abbrev pub window_of : Option (CorrelationRule Regex) → ℕ
  window_of (some rule) = rule.time_window_ms * 1_000_000
  window_of none = 60_000_000_000

  abbrev pub lifetime : List (Text × CorrelationRule Regex) → Text → ℕ
  lifetime rules rule_id = window_of (find rule_id rules)

  abbrev pub is_alive : ℕ → Timestamp → Text × CorrelationState Double → Bool
  is_alive window t k = leb t (k.1.last_seen + window)

  -- The keys of all rules that are alive at `t`.
  abbrev pub survivors :
      List (Text × CorrelationRule Regex) → Timestamp → StateMap Double → StateMap Double
  survivors rules t m = map (λ r. (r.0, filter (is_alive (lifetime rules r.0) t) r.1)) m

  rule_window-eq-lifetime :
      (c : CorrelationEngine pf) (rule_id : Text)
      → rule_window pf c rule_id ≡ lifetime c.rules rule_id
  unfolding rule_window
  rule_window-eq-lifetime c rule_id = cases (find rule_id c.rules)
    where
      cases :
          (o : Option (CorrelationRule Regex))
          → elim o [ some rule ↦ milliseconds rule.time_window_ms | none ↦ milliseconds 60_000 ]
            ≡ window_of o
      cases (some rule) = refl
      cases none = refl

  prune-eq-filter :
      (w : ℕ) (t : Timestamp) (m : RuleState Double) → prune pf w t m ≡ filter (is_alive w t) m
  unfolding prune
  prune-eq-filter w t [] = refl
  prune-eq-filter w t ((k, s) ∷ m) = elim (Bool-cases (ltb (s.last_seen + w) t)) [
    | inl old ↦
        let dead : leb t (s.last_seen + w) ≡ false = ground arith in
        rw (old, dead) (prune-eq-filter w t m)
    | inr live ↦
        let alive : leb t (s.last_seen + w) ≡ true = ground arith in
        rw (live, alive) (ap (λ x. (k, s) ∷ x) (prune-eq-filter w t m))
  ]

  prune_all-eq-survivors :
      (c : CorrelationEngine pf) (t : Timestamp) (m : StateMap Double)
      → prune_all pf c t m ≡ survivors c.rules t m
  unfolding prune_all
  prune_all-eq-survivors c t [] = refl
  prune_all-eq-survivors c t ((rule_id, m) ∷ rest) =
      rw
        (
          rule_window-eq-lifetime c rule_id,
          prune-eq-filter (lifetime c.rules rule_id) t m,
          prune_all-eq-survivors c t rest,
        )
        refl

  filter-live :
      (w : ℕ) (t now : Timestamp) (m : RuleState Double)
      → Every (λ k. IsTidy now k.1) m
      → Every (λ k. IsTidy now k.1 × (t ≤ k.1.last_seen + w)) (filter (is_alive w t) m)
  filter-live w t now [] a = tt
  filter-live w t now ((k, s) ∷ m) a = elim (Bool-cases (leb t (s.last_seen + w))) [
    | inr old ↦ rw old (filter-live w t now m a.1)
    | inl live ↦ rw live ((a.0, ground arith), filter-live w t now m a.1)
  ]

  survivors-live :
      (rules : List (Text × CorrelationRule Regex)) (t now : Timestamp) (m : StateMap Double)
      → AllTidy now m
      → Every
          (λ r. Every (λ k. IsTidy now k.1 × (t ≤ k.1.last_seen + lifetime rules r.0)) r.1)
          (survivors rules t m)
  survivors-live rules t now [] a = tt
  survivors-live rules t now ((k, r) ∷ m) a =
      (filter-live (lifetime rules k) t now r a.0, survivors-live rules t now m a.1)

  -- Where all keys are tidy, a clean-up at time `t` changes nothing but the keys, and leaves, as they
  -- are and in order, exactly those whose last event lies within the window of their rule before `t`,
  -- or within 60 seconds for a rule that was removed. They are still tidy.
  pub cleanup_expired-live :
      (c : CorrelationEngine pf) (t now : Timestamp)
      → AllTidy now c.state
      → let d = cleanup_expired pf c t in
        (d ≡ record c { state = survivors c.rules t c.state })
        × Every
            (λ r. Every (λ k. IsTidy now k.1 × (t ≤ k.1.last_seen + lifetime c.rules r.0)) r.1)
            d.state
  unfolding cleanup_expired
  cleanup_expired-live c t now a =
      rw (prune_all-eq-survivors c t c.state) ((refl, survivors-live c.rules t now c.state a))

  -- The keys that a rule has.
  abbrev pub keys_of : StateMap Double → Text → RuleState Double
  keys_of m rule_id = get_or_else (find rule_id m) []

  -- The state of a key that is dead is a fresh one.
  abbrev kept_state : ℕ → Timestamp → CorrelationState Double → CorrelationState Double
  kept_state w t s = if leb t (s.last_seen + w) then s else fresh_state
