-- ===== src/Correlation/Conditions.antt =====
-- engine/correlation/src/correlation_engine.cpp: which events meet a rule's conditions. The length of a
-- rule's window, of a signed type in the source, is not negative.
use mathlib.Core.Bool.{not}
use aiguard_siem.Common.{
  ℕ, ◌≡◌, refl, Bool, true, false, ◌&&◌, ◌||◌, Option, none, some, List, [], ◌∷◌, Text, codes,
  text_eq, if◌then◌else◌, is_empty, starts_with, ends_with, contains, split_on, mem_text, decimal,
  arith, inl, inr, Bool-cases, text_eq→eq, ◌↔◌, Every,
}
use aiguard_siem.Events.{
  Platform, FieldValue, text, int, double, bool, Event, Severity, int_to_string, get_field,
}

pub record Condition (R : Type 0) : Type 0 where
  pub field : Text
  pub op : Text
  pub value : Text
  pub compiled_regex : Option R

pub record CorrelationRule (R : Type 0) : Type 0 where
  pub id : Text
  pub name : Text
  pub description : Text
  pub mitre_tactic : Text
  pub mitre_technique : Text
  pub severity : Severity
  pub severity_score : ℕ
  pub conditions : List (Condition R)
  pub time_window_ms : ℕ
  pub threshold : ℕ
  pub aggregation_field : Text
  pub action : Text
  pub sigma_rule_id : Text

-- A field goes by its ECS name or by the name of the member.
unfoldable pub either : Text → Text → Text → Bool
unfolding text_eq
either s a b = text_eq s a || text_eq s b

module _ (pf : Platform) where
  open pf use {Double, Regex, to_text, stod, lt, le, regex, regex_search}

  unfoldable pub value_to_string : Option (FieldValue Double) → Text
  unfolding int_to_string
  value_to_string none = []
  value_to_string (some (text s)) = s
  value_to_string (some (int n)) = int_to_string n
  value_to_string (some (double d)) = to_text d
  value_to_string (some (bool b)) = if b then codes "true" else codes "false"
  value_to_string (some v) = []

  unfoldable pub get_field_string : Event Double → Text → Text
  unfolding either value_to_string get_field decimal
  get_field_string e f =
      if either f (codes "source.ip") (codes "source_ip")
      then e.source_ip
      else (if either f (codes "destination.ip") (codes "destination_ip")
          then e.destination_ip
          else (if either f (codes "host.name") (codes "host_name")
              then e.host_name
              else (if either f (codes "user.name") (codes "user_name")
                  then e.user_name
                  else (if either f (codes "process.name") (codes "process_name")
                      then e.process_name
                      else (if either f (codes "event.action") (codes "action")
                          then e.action
                          else (if either f (codes "event.category") (codes "category")
                              then e.category
                              else (if either f (codes "event.type") (codes "type")
                                  then e.type
                                  else (if either f (codes "event.severity") (codes "severity")
                                      then e.severity
                                      else (if either f (codes "source.port") (codes "source_port")
                                          then decimal e.source_port
                                          else (if either f (codes "destination.port")
                                                (codes "destination_port")
                                              then decimal e.destination_port
                                              else (if either f (codes "network.transport")
                                                    (codes "network_transport")
                                                  then e.network_transport
                                                  else (if either f (codes "network.protocol")
                                                        (codes "network_protocol")
                                                      then e.network_protocol
                                                      else (if either f (codes "process.pid")
                                                            (codes "process_pid")
                                                          then e.process_pid
                                                          else value_to_string
                                                            (get_field e f))))))))))))))

  -- A conversion that throws makes the comparison false.
  unfoldable pub compare_numbers : (Double → Double → Bool) → Option Double → Option Double → Bool
  compare_numbers r (some a) (some b) = r a b
  compare_numbers r _ _ = false

  unfoldable pub search_regex : Option Regex → Text → Bool
  search_regex none s = false
  search_regex (some r) s = elim (regex_search r s) [ some found ↦ found | none ↦ false ]

  -- The operators, in the order in which the code tries them.
  unfoldable pub check_op : Condition Regex → Text → Bool
  unfolding either text_eq contains ends_with search_regex compare_numbers split_on mem_text
  check_op c v =
      if either c.op (codes "=") (codes "==")
      then text_eq v c.value
      else (if text_eq c.op (codes "!=")
          then not (text_eq v c.value)
          else (if text_eq c.op (codes "contains")
              then contains v c.value
              else (if text_eq c.op (codes "startswith")
                  then starts_with v c.value
                  else (if text_eq c.op (codes "endswith")
                      then ends_with v c.value
                      else (if text_eq c.op (codes "regex")
                          then search_regex c.compiled_regex v
                          else (if text_eq c.op (codes "exists")
                              then not (is_empty v)
                              else (if text_eq c.op (codes ">")
                                  then compare_numbers (λ a b. lt b a) (stod v) (stod c.value)
                                  else (if text_eq c.op (codes "<")
                                      then compare_numbers lt (stod v) (stod c.value)
                                      else (if text_eq c.op (codes ">=")
                                          then compare_numbers (λ a b. le b a) (stod v)
                                              (stod c.value)
                                          else (if text_eq c.op (codes "<=")
                                              then compare_numbers le (stod v) (stod c.value)
                                              else (if text_eq c.op (codes "in")
                                                  then mem_text text_eq v (split_on b',' c.value)
                                                  else false)))))))))))

  unfoldable pub check_condition : Event Double → Condition Regex → Bool
  check_condition e c =
      let v = get_field_string e c.field in
      if is_empty v && not (text_eq c.op (codes "exists")) then false else check_op c v

  unfoldable pub matches_all : Event Double → List (Condition Regex) → Bool
  matches_all e [] = true
  matches_all e (c ∷ cs) =
      let rest = matches_all e cs in if check_condition e c then rest else false

  unfoldable pub matches_conditions : Event Double → CorrelationRule Regex → Bool
  unfolding matches_all
  matches_conditions e r = matches_all e r.conditions

  -- `add_rule` compiles the pattern of each `regex` condition; a pattern that does not compile is
  -- logged, and the condition keeps no regex.
  unfoldable pub compile_regex : Condition Regex → Condition Regex
  unfolding text_eq
  compile_regex c =
      if text_eq c.op (codes "regex") && not (is_empty c.value)
      then elim (regex c.value) [ some r ↦ record c { compiled_regex = some r } | none ↦ c ]
      else c

  check_op-exists :
      (c : Condition Regex) (v : Text) → c.op ≡ codes "exists" → check_op c v ≡ not (is_empty v)
  unfolding check_op
  check_op-exists c v h = rw h refl

  -- An event without a rule's field meets no condition on that field, whatever the operator:
  -- `!=` fails on it too.
  pub check_condition_absent :
      (e : Event Double) (c : Condition Regex)
      → get_field_string e c.field ≡ []
      → check_condition e c ≡ false
  unfolding check_condition
  check_condition_absent e c h = elim (Bool-cases (text_eq c.op (codes "exists"))) [
    | inl ex ↦ rw (h, ex) (check_op-exists c [] (text_eq→eq c.op (codes "exists") ex))
    | inr other ↦ rw (h, other)
  ]

  matches_all_sound :
      (e : Event Double) (cs : List (Condition Regex))
      → matches_all e cs ≡ true
      → Every (λ c. check_condition e c ≡ true) cs
  unfolding matches_all
  matches_all_sound e [] h = tt
  matches_all_sound e (c ∷ cs) h = ground (arith, matches_all_sound e cs)

  matches_all_complete :
      (e : Event Double) (cs : List (Condition Regex))
      → Every (λ c. check_condition e c ≡ true) cs
      → matches_all e cs ≡ true
  unfolding matches_all
  matches_all_complete e [] h = refl
  matches_all_complete e (c ∷ cs) h = rw h.0 (matches_all_complete e cs h.1)

  -- A rule matches an event exactly when the event meets each of its conditions.
  pub matches_conditions_iff :
      (e : Event Double) (r : CorrelationRule Regex)
      → (matches_conditions e r ≡ true) ↔ Every (λ c. check_condition e c ≡ true) r.conditions
  unfolding matches_conditions
  matches_conditions_iff e r =
      (matches_all_sound e r.conditions, matches_all_complete e r.conditions)
