-- ===== src/Rules/Tests.antt =====
-- The rule store, with a rule that is added twice.
use aiguard_siem.Common.{List, [], ◌∷◌, Text, codes, insert, arith, text_key}
use aiguard_siem.Platforms.{whole_numbers}
use aiguard_siem.Events.{medium}
use aiguard_siem.Correlation.Conditions.{CorrelationRule}
use aiguard_siem.Rules.Engine.{RuleEngine, empty_engine, add_rule, put_rule}
use aiguard_siem.Rules.Invariant.{
  Call, load, add, remove, reload, run, IsConsistent, run-IsConsistent,
}

abbrev rule : Text → CorrelationRule Text
rule id = record {
  id = id;
  name = [];
  description = [];
  mitre_tactic = [];
  mitre_technique = [];
  severity = medium;
  severity_score = 50;
  conditions = [];
  time_window_ms = 1000;
  threshold = 2;
  aggregation_field = [];
  action = [];
  sigma_rule_id = [];
}

abbrev calls : List (Call whole_numbers)
calls =
    load (rule (codes "a") ∷ rule (codes "a") ∷ rule (codes "b") ∷ [])
    ∷ add (rule (codes "c"))
    ∷ remove (codes "a")
    ∷ reload (rule (codes "d") ∷ [])
    ∷ []

run-IsConsistent_example :
    IsConsistent whole_numbers (run whole_numbers calls (empty_engine whole_numbers))
run-IsConsistent_example = run-IsConsistent whole_numbers calls (omega arith)

abbrev one_rule : RuleEngine whole_numbers
unfolding add_rule put_rule insert
one_rule = add_rule whole_numbers (rule (codes "a")) (empty_engine whole_numbers)
