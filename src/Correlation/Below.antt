-- ===== src/Correlation/Below.antt =====
-- No key of any rule is ever left at its threshold.
use mathlib.Core.Path.{subst}
use aiguard_siem.Common.{
  ◌<◌, ◌≡◌, refl, sym, ap, ◌∙◌, false, some, none, List, [], ◌∷◌, Text, length, leb, Every, arith,
  Bool-cases, inl, inr, text_key, text_eq, text_eq_refl, text_eq→eq, find, Distinct,
}
use aiguard_siem.Events.{Platform, Event}
use aiguard_siem.Correlation.Conditions.{CorrelationRule, matches_conditions}
use aiguard_siem.Correlation.Engine.{
  StateMap, state_at, track, Progress, on_match, evaluate, evaluate_all, CorrelationEngine,
  process_event, process_events, aggregation_key,
}
use aiguard_siem.Correlation.Threshold.{
  on_match-lt-threshold, state_at-put_state_rule, state_at-put_state_key,
}

some-injective : {A : Type 0} {a b : A} → some a ≡ some b → a ≡ b
some-injective h = cc

none≢some : {A : Type 0} {a : A} → none ≡ some a → ⊥
none≢some h = cc

-- In a table whose ids differ every entry is the one that is found.
Distinct-found :
    {V : Type 0} (m : List (Text × V)) → Distinct m → Every (λ r. find r.0 m ≡ some r.1) m
unfolding find
Distinct-found {V} [] d = tt
Distinct-found {V} ((j, w) ∷ m) d = (rw (text_eq_refl j) refl, later m (Distinct-found m d.1))
  where
    later :
        (xs : List (Text × V))
        → Every (λ r. find r.0 m ≡ some r.1) xs
        → Every (λ r. find r.0 ((j, w) ∷ m) ≡ some r.1) xs
    later [] a = tt
    later ((i, v) ∷ xs) a = (
      elim (Bool-cases (text_eq j i)) [
        | inl same ↦ absurd (none≢some (sym d.0 ∙ (ap (λ x. find x m) (text_eq→eq j i same) ∙ a.0)))
        | inr other ↦ rw other a.0
      ],
      later xs a.1,
    )

module _ (pf : Platform) where
  open pf use {Double, Regex}

  -- Every key of a rule has fewer stamps than the rule's threshold.
  abbrev pub RuleBelow : StateMap Double → Text × CorrelationRule Regex → Type 0
  RuleBelow m r = (key : Text) → length (state_at m r.0 key).timestamps < r.1.threshold

  abbrev pub AllBelow : List (Text × CorrelationRule Regex) → StateMap Double → Type 0
  AllBelow rules m = Every (RuleBelow m) rules

  RuleBelow-pos :
      (m : StateMap Double) (r : Text × CorrelationRule Regex) → RuleBelow m r → 0 < r.1.threshold
  RuleBelow-pos m r h = let one = h [] in omega (arith, one)

  -- The keys that `on_match` leaves alone.
  on_match_other_key :
      (e : Event Double) (rule_id : Text) (rule : CorrelationRule Regex) (p : Progress pf)
      (key : Text)
      → text_eq (aggregation_key pf rule e) key ≡ false
      → state_at (on_match pf e rule_id rule p).state rule_id key ≡ state_at p.state rule_id key
  unfolding on_match
  on_match_other_key e rule_id rule p key h =
      let s = track pf rule e (state_at p.state rule_id (aggregation_key pf rule e)) in
      elim (Bool-cases (leb rule.threshold (length s.timestamps))) [
        | inl fires ↦ rw fires (state_at-put_state_key p.state rule_id _ key _ h)
        | inr quiet ↦ rw quiet (state_at-put_state_key p.state rule_id _ key _ h)
      ]

  on_match_other_rule :
      (e : Event Double) (rule_id : Text) (rule : CorrelationRule Regex) (p : Progress pf)
      (other key : Text)
      → text_eq rule_id other ≡ false
      → state_at (on_match pf e rule_id rule p).state other key ≡ state_at p.state other key
  unfolding on_match
  on_match_other_rule e rule_id rule p other key h =
      let s = track pf rule e (state_at p.state rule_id (aggregation_key pf rule e)) in
      elim (Bool-cases (leb rule.threshold (length s.timestamps))) [
        | inl fires ↦ rw fires (state_at-put_state_rule p.state rule_id other _ key _ h)
        | inr quiet ↦ rw quiet (state_at-put_state_rule p.state rule_id other _ key _ h)
      ]

  -- The rule that matched.
  on_match-RuleBelow_self :
      (e : Event Double) (rule_id : Text) (rule : CorrelationRule Regex) (p : Progress pf)
      → RuleBelow p.state (rule_id, rule)
      → RuleBelow (on_match pf e rule_id rule p).state (rule_id, rule)
  on_match-RuleBelow_self e rule_id rule p b key =
      let q = on_match pf e rule_id rule p in
      let here =
        on_match-lt-threshold pf rule_id rule e p (RuleBelow-pos p.state (rule_id, rule) b) in
      elim (Bool-cases (text_eq (aggregation_key pf rule e) key)) [
        | inl same ↦
            subst (λ k. length (state_at q.state rule_id k).timestamps < rule.threshold)
              (text_eq→eq (aggregation_key pf rule e) key same) here
        | inr other ↦
            subst (λ s. length s.timestamps < rule.threshold)
              (sym (on_match_other_key e rule_id rule p key other)) (b key)
      ]

  module _ (rules : List (Text × CorrelationRule Regex)) where
    abbrev IsFound : Text × CorrelationRule Regex → Type 0
    IsFound r = find r.0 rules ≡ some r.1

    on_match-RuleBelow :
        (e : Event Double) (r s : Text × CorrelationRule Regex) (p : Progress pf)
        → IsFound r
        → IsFound s
        → RuleBelow p.state s
        → RuleBelow (on_match pf e r.0 r.1 p).state s
    on_match-RuleBelow e (i, rule) (j, other) p f g b = elim (Bool-cases (text_eq i j)) [
      | inl same ↦
          let ids : i ≡ j = text_eq→eq i j same in
          let one : rule ≡ other = some-injective (sym f ∙ (ap (λ x. find x rules) ids ∙ g)) in
          subst (λ k. RuleBelow (on_match pf e k rule p).state (j, other)) (sym ids)
            (subst (λ u. RuleBelow (on_match pf e j u p).state (j, other)) (sym one)
              (on_match-RuleBelow_self e j other p b))
      | inr apart ↦ λ key.
          subst (λ s. length s.timestamps < other.threshold)
            (sym (on_match_other_rule e i rule p j key apart)) (b key)
    ]

    evaluate-AllBelow :
        (e : Event Double) (r : Text × CorrelationRule Regex)
        (ss : List (Text × CorrelationRule Regex)) (p : Progress pf)
        → IsFound r
        → Every IsFound ss
        → AllBelow ss p.state
        → AllBelow ss (evaluate pf e r p).state
    unfolding find evaluate
    evaluate-AllBelow e r [] p f g b = tt
    evaluate-AllBelow e (i, rule) (s ∷ ss) p f g b = (
      elim (Bool-cases (matches_conditions pf e rule)) [
        | inl hit ↦ rw hit (on_match-RuleBelow e (i, rule) s p f g.0 b.0)
        | inr out ↦ rw out b.0
      ],
      evaluate-AllBelow e (i, rule) ss p f g.1 b.1,
    )

    evaluate_all-AllBelow :
        (e : Event Double) (rs ss : List (Text × CorrelationRule Regex)) (p : Progress pf)
        → Every IsFound rs
        → Every IsFound ss
        → AllBelow ss p.state
        → AllBelow ss (evaluate_all pf e rs p).state
    unfolding evaluate_all
    evaluate_all-AllBelow e [] ss p f g b = b
    evaluate_all-AllBelow e (r ∷ rs) ss p f g b =
        evaluate_all-AllBelow e rs ss (evaluate pf e r p) f.1 g (evaluate-AllBelow e r ss p f.0 g b)

  process_event-AllBelow :
      (c : CorrelationEngine pf) (e : Event Double)
      → Distinct c.rules
      → AllBelow c.rules c.state
      → AllBelow c.rules (process_event pf c e).0.state
  unfolding process_event
  process_event-AllBelow c e d b =
      let found = Distinct-found c.rules d in
      evaluate_all-AllBelow c.rules e c.rules c.rules _ found found b

  process_event-rules :
      (c : CorrelationEngine pf) (e : Event Double) → (process_event pf c e).0.rules ≡ c.rules
  unfolding process_event
  process_event-rules c e = refl

  -- In an engine whose rules have different ids, and in which every key of every rule has fewer stamps
  -- than the rule's threshold, this is so after any events, in whatever order their time stamps are.
  pub process_events-AllBelow :
      (c : CorrelationEngine pf) (es : List (Event Double))
      → Distinct c.rules
      → AllBelow c.rules c.state
      → AllBelow c.rules (process_events pf c es).0.state
  unfolding process_events
  process_events-AllBelow c [] d b = b
  process_events-AllBelow c (e ∷ es) d b =
      let q = (process_event pf c e).0 in
      let same = process_event-rules c e in
      subst (λ rs. AllBelow rs (process_events pf q es).0.state) same
        (process_events-AllBelow q es (subst (λ rs. Distinct rs) (sym same) d)
          (subst (λ rs. AllBelow rs q.state) (sym same) (process_event-AllBelow c e d b)))
