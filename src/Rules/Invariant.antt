-- ===== src/Rules/Invariant.antt =====
-- What every sequence of operations keeps: a profile for each rule, and a total that is not below
-- the number of rules.
use aiguard_siem.Common.{
  ℕ, suc, ◌+◌, ◌-◌, ◌^◌, ◌≤◌, ◌<◌, ◌≡◌, refl, true, some, List, [], ◌∷◌, Text, has, find, erase,
  text_key, length, Distinct, insert-Distinct, erase-Distinct, find-insert, find-erase,
  length-insert, length-erase, arith, text_eq, text_eq_refl, Bool-cases, inl, inr,
}
use aiguard_siem.Events.{Platform, wrap64}
use aiguard_siem.Correlation.Conditions.{CorrelationRule}
use aiguard_siem.Rules.Engine.{
  RuleEngine, Stats, put_rule, load_rules, load_sigma_rules, add_rule, remove_rule, reload_rules,
  reload_sigma_rules, empty_engine, new_profile, rule_count,
}

module _ (pf : Platform) where
  open pf use {Double, Regex}

  -- A call of the engine that changes its state.
  pub data Call : Type 0 where
    load : List (CorrelationRule Regex) → Call
    add : CorrelationRule Regex → Call
    remove : Text → Call
    reload : List (CorrelationRule Regex) → Call

  abbrev pub step : Call → RuleEngine pf → RuleEngine pf
  step (load rules) c = (load_sigma_rules pf rules c).0
  step (add rule) c = add_rule pf rule c
  step (remove id) c = (remove_rule pf id c).0
  step (reload rules) c = (reload_sigma_rules pf rules c).0

  abbrev pub run : List Call → RuleEngine pf → RuleEngine pf
  run [] c = c
  run (x ∷ xs) c = run xs (step x c)

  -- The number of rules that calls bring in.
  abbrev pub brought : List Call → ℕ
  brought [] = 0
  brought (load rules ∷ xs) = length rules + brought xs
  brought (add rule ∷ xs) = 1 + brought xs
  brought (remove id ∷ xs) = brought xs
  brought (reload rules ∷ xs) = length rules + brought xs

  pub record IsConsistent (c : RuleEngine pf) : Type 0 where
    pub distinct : Distinct c.rules
    pub profiled : (k : Text) → has (find k c.profiles) ≡ has (find k c.rules)
    pub counted : length c.rules ≤ c.stats.total_rules

  abbrev pub Within : ℕ → RuleEngine pf → Type 0
  Within n c = IsConsistent c × (c.stats.total_rules + n < 2 ^ 64)

  put_rule-profiled :
      (rule : CorrelationRule Regex) (c : RuleEngine pf) (k : Text)
      → has (find k c.profiles) ≡ has (find k c.rules)
      → has (find k (put_rule pf rule c).profiles) ≡ has (find k (put_rule pf rule c).rules)
  unfolding put_rule
  put_rule-profiled rule c k h =
      rw
        (
          find-insert rule.id k rule c.rules,
          find-insert rule.id k (new_profile pf rule.id) c.profiles,
        )
        (elim (Bool-cases (text_eq rule.id k)) [ inl t ↦ rw t refl | inr t ↦ rw t h ])

  -- A rule put into the store, its total counted up.
  put_rule-IsConsistent :
      (rule : CorrelationRule Regex) (c : RuleEngine pf) (s : Stats)
      → IsConsistent c
      → suc c.stats.total_rules ≤ s.total_rules
      → IsConsistent (record (put_rule pf rule c) { stats = s })
  put_rule-IsConsistent rule c s i h = record {
    distinct = unfold put_rule in insert-Distinct rule.id rule c.rules i.distinct;
    profiled = λ k. put_rule-profiled rule c k (i.profiled k);
    counted = unfold put_rule in ground (arith, length-insert rule.id rule c.rules, i.counted);
  }

  load_rules-Within :
      (rules : List (CorrelationRule Regex)) (n : ℕ) (c : RuleEngine pf)
      → Within (length rules + n) c
      → Within n (load_rules pf rules c)
  unfolding load_rules
  load_rules-Within [] n c w = (w.0, omega (arith, w.1))
  load_rules-Within (rule ∷ rules) n c w =
      load_rules-Within rules n _
        (put_rule-IsConsistent rule c _ w.0 (omega (arith, w.1)), omega (arith, w.1))

  reload_rules-Within :
      (rules : List (CorrelationRule Regex)) (n : ℕ) (c : RuleEngine pf)
      → Within (length rules + n) c
      → Within n (reload_rules pf rules c)
  unfolding reload_rules
  reload_rules-Within [] n c w = (w.0, omega (arith, w.1))
  reload_rules-Within (rule ∷ rules) n c w =
      reload_rules-Within rules n _
        (put_rule-IsConsistent rule c _ w.0 (omega (arith, w.1)), omega (arith, w.1))

  empty-IsConsistent : IsConsistent (empty_engine pf)
  unfolding find
  empty-IsConsistent = record { distinct = tt; profiled = λ k. refl; counted = omega arith }

  remove_rule-Within :
      (id : Text) (n : ℕ) (c : RuleEngine pf) → Within n c → Within n (remove_rule pf id c).0
  unfolding remove_rule
  remove_rule-Within id n c w = elim (Bool-cases (has (find id c.rules))) [
    | inr absent ↦ rw absent w
    | inl present ↦
        let shorter : length (erase id c.rules) + 1 ≡ length c.rules =
          rw present at (length-erase id c.rules w.0.distinct) in
        let counted = w.0.counted in
        let total : wrap64 (c.stats.total_rules + 2 ^ 64 - 1) ≡ c.stats.total_rules - 1 =
          omega (arith, w.1, shorter, counted) in
        rw (present, total)
          ((
            record {
              distinct = erase-Distinct id c.rules w.0.distinct;
              profiled = λ k.
                  ground
                    (arith, find-erase id k c.rules, find-erase id k c.profiles, w.0.profiled k);
              counted = omega (arith, shorter, counted);
            },
            omega (arith, w.1),
          ))
  ]

  step-Within :
      (x : Call) (xs : List Call) (c : RuleEngine pf)
      → Within (brought (x ∷ xs)) c
      → Within (brought xs) (step x c)
  unfolding load_sigma_rules reload_sigma_rules add_rule
  step-Within (load rules) xs c w = load_rules-Within rules (brought xs) c w
  step-Within (add rule) xs c w =
      (put_rule-IsConsistent rule c _ w.0 (omega (arith, w.1)), omega (arith, w.1))
  step-Within (remove id) xs c w = remove_rule-Within id (brought xs) c w
  step-Within (reload rules) xs c w =
      reload_rules-Within rules (brought xs) (empty_engine pf)
        (empty-IsConsistent, omega (arith, w.1))

  run-Within : (xs : List Call) (c : RuleEngine pf) → Within (brought xs) c → Within 0 (run xs c)
  run-Within [] c w = w
  run-Within (x ∷ xs) c w = run-Within xs (step x c) (step-Within x xs c w)

  -- After any calls on a new engine that bring in fewer than 2^64 rules, no rule id stands twice, a
  -- rule has a profile and a profile a rule, and `total_rules` is not below the number of rules.
  pub run-IsConsistent :
      (xs : List Call) → brought xs < 2 ^ 64 → IsConsistent (run xs (empty_engine pf))
  run-IsConsistent xs h = (run-Within xs (empty_engine pf) (empty-IsConsistent, omega arith)).0

  -- Adding a rule whose id the engine has replaces the rule, and still counts it in `total_rules`:
  -- the number of rules stays and the total goes up by one.
  pub add_rule_again :
      (rule : CorrelationRule Regex) (c : RuleEngine pf)
      → has (find rule.id c.rules) ≡ true
      → c.stats.total_rules + 1 < 2 ^ 64
      → let c' = add_rule pf rule c in
        (rule_count pf c' ≡ rule_count pf c)
        × ((find rule.id c'.rules ≡ some rule) × (c'.stats.total_rules ≡ c.stats.total_rules + 1))
  unfolding add_rule put_rule rule_count
  add_rule_again rule c h b = (
    rw (length-insert rule.id rule c.rules, h) refl,
    (rw (find-insert rule.id rule.id rule c.rules, text_eq_refl rule.id) refl, omega arith),
  )
