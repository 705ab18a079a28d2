-- ===== src/Sigma/Compiler.antt =====
-- engine/rules/src/sigma_compiler.cpp: `SigmaCompiler`. Nothing that `compile` calls throws, but for a
-- lack of memory, which has no model; the files of a directory are an argument.
use aiguard_siem.Common.{
  ℕ, suc, ◌+◌, ◌*◌, ◌%◌, Bool, true, false, ◌&&◌, ◌||◌, Option, none, some, List, [], ◌∷◌, ◌++◌,
  map, Text, codes, if◌then◌else◌, leb, ltb, take, drop, is_empty, starts_with, contains, find_char,
  split_on, find, text_key, text_eq, decimal,
}
use aiguard_siem.Events.{Severity, info, low, medium, high, critical, wrap64}
use aiguard_siem.Correlation.Conditions.{Condition, CorrelationRule}
use aiguard_siem.Sigma.Lines.{KeyValues, trim, trim_left, unquote, indent_of, parse_yaml_simple}

pub record SigmaDetection : Type 0 where
  pub field : Text
  pub values : List Text
  pub modifiers : List Text
  pub operator_type : Text

-- The variables of the loop of `parse_detection`.
pub record Selections : Type 0 where
  pub in_selection : Bool
  pub detections : List SigmaDetection

-- A selection's name, and a value on its line.
unfoldable pub take_selection : Text → Text → Selections → Selections
take_selection name rest c =
    let inline : SigmaDetection = record {
      field = name;
      values = rest ∷ [];
      modifiers = [];
      operator_type = codes "eq";
    } in
    if text_eq name (codes "condition") then c else record {
      in_selection = true;
      detections = if is_empty rest then c.detections else c.detections ++ (inline ∷ []);
    }

-- The parts of a value between bars: the value itself and its modifiers.
unfoldable pub detection_of : Text → Text → List Text → SigmaDetection
detection_of field value (first ∷ modifier ∷ modifiers) = record {
  field = field;
  values = first ∷ [];
  modifiers = modifier ∷ modifiers;
  operator_type = modifier;
}
detection_of field value parts = record {
  field = field;
  values = value ∷ [];
  modifiers = [];
  operator_type = codes "eq";
}

unfoldable pub take_field : Text → Text → Selections → Selections
take_field field value c = record c {
  detections = c.detections ++ (detection_of field value (map trim (split_on b'|' value)) ∷ []);
}

-- A line without its indent, given where the colon is.
unfoldable pub take_trimmed : ℕ → Text → Selections → Option ℕ → Selections
take_trimmed indent s c none = c
take_trimmed indent s c (some colon) =
    let key = take colon s in
    let value = drop (suc colon) s in
    if leb indent 4
    then take_selection key (trim_left value) c
    else (if c.in_selection then take_field (trim key) (unquote (trim value)) c else c)

unfoldable pub take_indented : Text → Selections → Option ℕ → Selections
take_indented line c none = c
take_indented line c (some indent) =
    take_trimmed indent (drop indent line) c (find_char b':' (drop indent line))

unfoldable pub take_lines : List Text → Selections → Selections
take_lines [] c = c
take_lines (line ∷ lines) c = take_lines lines (take_indented line c (indent_of line))

unfoldable pub parse_detection : Text → List SigmaDetection
parse_detection yaml =
    (take_lines (split_on b'\n' yaml) (record { in_selection = false; detections = [] })).detections

abbrev pub first_value : List Text → Text
first_value [] = []
first_value (v ∷ vs) = v

abbrev pub condition_op : Text → Text
condition_op op =
    if text_eq op (codes "contains")
      || (text_eq op (codes "startswith")
          || (text_eq op (codes "endswith") || text_eq op (codes "regex")))
    then op
    else codes "="

module _ {R : Type 0} where
  unfoldable pub condition_of : SigmaDetection → Condition R
  condition_of det = record {
    field = det.field;
    op = condition_op det.operator_type;
    value = first_value det.values;
    compiled_regex = none;
  }

  -- The condition expression is not looked at.
  unfoldable pub compile_condition : Text → List SigmaDetection → List (Condition R)
  compile_condition condition detections = map condition_of detections

-- The text from the first occurrence on.
unfoldable pub find_text : Text → Text → Option Text
find_text p [] = if starts_with [] p then some [] else none
find_text p (c ∷ s) =
    let rest = find_text p s in if starts_with (c ∷ s) p then some (c ∷ s) else rest

abbrev pub before_dot : Text → Option ℕ → Text
before_dot s none = s
before_dot s (some dot) = take dot s

-- One round of the loop over the tags, given where the two patterns occur.
unfoldable pub tag_found : Text × Text → Option Text → Option Text → Text × Text
tag_found (tactic, technique) (some t) other =
    (tactic, before_dot (drop 7 t) (find_char b'.' (drop 7 t)))
tag_found (tactic, technique) none (some t) = (drop 7 t, technique)
tag_found (tactic, technique) none none = (tactic, technique)

unfoldable pub mitre_from : Text × Text → List Text → Text × Text
mitre_from found [] = found
mitre_from found (tag ∷ tags) =
    mitre_from
      (tag_found found (find_text (codes "attack.t") tag) (find_text (codes "attack.") tag)) tags

unfoldable pub extract_mitre : List Text → Text × Text
extract_mitre tags = mitre_from ([], []) tags

unfoldable pub map_level : Text → Severity
map_level level =
    if text_eq level (codes "critical")
    then critical
    else (if text_eq level (codes "high")
        then high
        else (if text_eq level (codes "medium")
            then medium
            else (if text_eq level (codes "low") then low else info)))

abbrev pub severity_number : Severity → ℕ
severity_number info = 0
severity_number low = 1
severity_number medium = 2
severity_number high = 3
severity_number critical = 4

abbrev pub value_or : KeyValues → Text → Text → Text
value_or kv key default = elim (find key kv) [ none ↦ default | some v ↦ v ]

abbrev pub tags_of : Option Text → List Text
tags_of none = []
tags_of (some s) = map trim (split_on b',' s)

-- The lines of the detection section, given the indent of the first one.
unfoldable pub block_from : Bool → List Text → Text
block_from inside [] = []
block_from inside (line ∷ lines) =
    let entered = block_from true lines in
    let next = block_from inside lines in
    let kept = line ++ (b'\n' ∷ next) in
    elim (indent_of line) [
      | none ↦ next
      | some indent ↦
          if contains line (codes "detection:") && ltb indent 4
          then entered
          else (if inside then (if ltb indent 4 then [] else kept) else next)
    ]

unfoldable pub detection_block : Text → Text
detection_block yaml = block_from false (split_on b'\n' yaml)

pub record Stats : Type 0 where
  pub rules_compiled : ℕ
  pub rules_failed : ℕ
  pub conditions_parsed : ℕ

abbrev pub new_compiler : Stats
new_compiler = record { rules_compiled = 0; rules_failed = 0; conditions_parsed = 0 }

-- A file of the directory: its extension, and its text if it opens.
pub record SourceFile : Type 0 where
  pub extension : Text
  pub contents : Option Text

abbrev pub is_yaml : Text → Bool
is_yaml extension = text_eq extension (codes ".yml") || text_eq extension (codes ".yaml")

module _ {R : Type 0} where
  unfoldable pub compile_pairs : Text → KeyValues → Stats → CorrelationRule R
  compile_pairs yaml kv c =
      let mitre = extract_mitre (tags_of (find (codes "tags") kv)) in
      let severity = map_level (value_or kv (codes "level") (codes "medium")) in
      record {
        id = value_or kv (codes "id") (codes "rule-" ++ decimal (wrap64 (c.rules_compiled + 1)));
        name = value_or kv (codes "title") (codes "Untitled Rule");
        description = value_or kv (codes "description") [];
        mitre_tactic = mitre.0;
        mitre_technique = mitre.1;
        severity = severity;
        severity_score = severity_number severity * 20 % 256;
        conditions =
            compile_condition (value_or kv (codes "condition") (codes "selection"))
              (parse_detection (detection_block yaml));
        time_window_ms = 60000;
        threshold = 1;
        aggregation_field = [];
        action = codes "alert";
        sigma_rule_id = [];
      }

  unfoldable pub compile : Text → Stats → CorrelationRule R × Stats
  compile yaml c = (
    compile_pairs yaml (parse_yaml_simple yaml) c,
    record c {
      rules_compiled = wrap64 (c.rules_compiled + 1);
      conditions_parsed = wrap64 (c.conditions_parsed + 1);
    },
  )

  unfoldable pub compile_file : SourceFile → Stats → List (CorrelationRule R) × Stats
  compile_file file c = elim file.contents [
    | none ↦ ([], c)
    | some yaml ↦
        let r = compile yaml c in if is_yaml file.extension then (r.0 ∷ [], r.1) else ([], c)
  ]

  unfoldable pub compile_directory : List SourceFile → Stats → List (CorrelationRule R) × Stats
  compile_directory [] c = ([], c)
  compile_directory (file ∷ files) c =
      let (here, c') = compile_file file c in
      let (rest, c'') = compile_directory files c' in (here ++ rest, c'')

unfoldable pub get_stats : Stats → Stats
get_stats c = c
