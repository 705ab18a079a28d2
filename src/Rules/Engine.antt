-- ===== src/Rules/Engine.antt =====
-- engine/rules/src/rule_engine.cpp: the rule store. What `SigmaCompiler::compile_directory` returns
-- is an argument of the operations that call it.
use aiguard_siem.Common.{
  ℕ, ◌+◌, ◌-◌, ◌^◌, Bool, true, false, List, [], ◌∷◌, map, Text, has, find, insert, erase, text_key,
  length, if◌then◌else◌,
}
use aiguard_siem.Common.Int.{pos}
use aiguard_siem.Events.{Platform, Timestamp, wrap64}
use aiguard_siem.Correlation.Conditions.{CorrelationRule}

pub record RuleProfile (D : Type 0) : Type 0 where
  pub rule_id : Text
  pub match_count : ℕ
  pub evaluation_count : ℕ
  pub avg_evaluation_time_ns : D
  pub match_rate : D
  pub last_match : Timestamp

pub record Stats : Type 0 where
  pub total_rules : ℕ
  pub sigma_rules : ℕ
  pub dsl_rules : ℕ
  pub rules_loaded : ℕ
  pub rules_failed : ℕ

abbrev pub no_stats : Stats
no_stats = record {
  total_rules = 0;
  sigma_rules = 0;
  dsl_rules = 0;
  rules_loaded = 0;
  rules_failed = 0;
}

module _ (pf : Platform) where
  open pf use {Double, Regex}

  pub record RuleEngine : Type 0 where
    pub rules : List (Text × CorrelationRule Regex)
    pub profiles : List (Text × RuleProfile Double)
    pub stats : Stats

  abbrev pub empty_engine : RuleEngine
  empty_engine = record { rules = []; profiles = []; stats = no_stats }

  abbrev pub new_profile : Text → RuleProfile Double
  new_profile id = record {
    rule_id = id;
    match_count = 0;
    evaluation_count = 0;
    avg_evaluation_time_ns = pf.of_int (pos 0);
    match_rate = pf.of_int (pos 0);
    last_match = 0;
  }

  -- `rules_[id] = rule; profiles_[id] = RuleProfile{.rule_id = id};`
  unfoldable pub put_rule : CorrelationRule Regex → RuleEngine → RuleEngine
  put_rule rule c = record c {
    rules = insert rule.id rule c.rules;
    profiles = insert rule.id (new_profile rule.id) c.profiles;
  }

  unfoldable pub load_rules : List (CorrelationRule Regex) → RuleEngine → RuleEngine
  load_rules [] c = c
  load_rules (rule ∷ rules) c = load_rules rules (record (put_rule rule c) {
    stats = record c.stats {
      sigma_rules = wrap64 (c.stats.sigma_rules + 1);
      total_rules = wrap64 (c.stats.total_rules + 1);
      rules_loaded = wrap64 (c.stats.rules_loaded + 1);
    };
  })

  unfoldable pub load_sigma_rules : List (CorrelationRule Regex) → RuleEngine → RuleEngine × ℕ
  load_sigma_rules compiled c = (load_rules compiled c, length compiled)

  unfoldable pub add_rule : CorrelationRule Regex → RuleEngine → RuleEngine
  add_rule rule c = record (put_rule rule c) {
    stats = record c.stats {
      dsl_rules = wrap64 (c.stats.dsl_rules + 1);
      total_rules = wrap64 (c.stats.total_rules + 1);
    };
  }

  unfoldable pub remove_rule : Text → RuleEngine → RuleEngine × Bool
  remove_rule rule_id c =
      let removed : RuleEngine = record {
        rules = erase rule_id c.rules;
        profiles = erase rule_id c.profiles;
        stats = record c.stats { total_rules = wrap64 (c.stats.total_rules + 2 ^ 64 - 1) };
      } in
      if has (find rule_id c.rules) then (removed, true) else (c, false)

  unfoldable pub reload_rules : List (CorrelationRule Regex) → RuleEngine → RuleEngine
  reload_rules [] c = c
  reload_rules (rule ∷ rules) c = reload_rules rules (record (put_rule rule c) {
    stats = record c.stats {
      sigma_rules = wrap64 (c.stats.sigma_rules + 1);
      total_rules = wrap64 (c.stats.total_rules + 1);
    };
  })

  unfoldable pub reload_sigma_rules : List (CorrelationRule Regex) → RuleEngine → RuleEngine × ℕ
  reload_sigma_rules compiled c = (reload_rules compiled empty_engine, length compiled)

  unfoldable pub get_rules : RuleEngine → List (CorrelationRule Regex)
  get_rules c = map (λ r. r.1) c.rules

  unfoldable pub get_profiles : RuleEngine → List (RuleProfile Double)
  get_profiles c = map (λ r. r.1) c.profiles

  unfoldable pub rule_count : RuleEngine → ℕ
  rule_count c = length c.rules

  unfoldable pub get_stats : RuleEngine → Stats
  get_stats c = c.stats
