-- ===== src/Sigma/Tests.antt =====
-- A rule as the Sigma documentation writes one, and as the compiler reads one.
use aiguard_siem.Common.{
  ℕ, ◌≡◌, refl, none, some, List, [], ◌∷◌, ◌++◌, map, Text, codes, arith, text_eq, starts_with,
  ends_with, contains, split_on, split_from, find_char, insert, ◌≤◌,
}
use aiguard_siem.Events.{Event, empty_event}
use aiguard_siem.Platforms.{whole_numbers}
use aiguard_siem.Correlation.Conditions.{matches_all, compile_regex}
use aiguard_siem.Sigma.Lines.{
  parse_yaml_simple, put_lines, put_line, put_trimmed, unquote, uncomment, is_space, indent_of,
  trim_left, trim_right,
}
use aiguard_siem.Sigma.Compiler.{
  SigmaDetection, compile_condition, SourceFile, parse_detection, take_lines, take_indented,
  take_trimmed, take_selection, take_field, detection_of, extract_mitre, mitre_from, tag_found,
  find_text, detection_block, block_from,
}
use aiguard_siem.Sigma.Matching.{matches_all-compile_condition, meets_all}
use aiguard_siem.Sigma.Words.{IsWord}
use aiguard_siem.Sigma.RoundTrip.{Field, render, as_detection, parse_detection-render}

abbrev line : Text → Text → Text
line s rest = s ++ (b'\n' ∷ rest)

abbrev yaml : Text
yaml = line (codes "title: \"Shell\" # a comment") (
    line (codes "tags: attack.execution, attack.t1059.001") (
      line (codes "detection:") (
        line (codes "    selection:") (
          line (codes "        CommandLine: cmd|contains")
            (line (codes "    condition: selection") (line (codes "level: high") []))))))

key_values :
    parse_yaml_simple yaml
    ≡ (codes "title", codes "Shell")
      ∷ (codes "tags", codes "attack.execution, attack.t1059.001")
      ∷ (codes "CommandLine", codes "cmd|contains")
      ∷ (codes "condition", codes "selection")
      ∷ (codes "level", codes "high")
      ∷ []
unfolding parse_yaml_simple put_lines put_line put_trimmed unquote uncomment is_space trim_left
    trim_right split_on split_from find_char insert text_eq starts_with ends_with
key_values = refl

block :
    detection_block yaml
    ≡ line (codes "    selection:") (
        line
          (codes "        CommandLine: cmd|contains")
          (line (codes "    condition: selection") []))
unfolding detection_block block_from split_on split_from indent_of contains starts_with
block = refl

tactic_and_technique :
    extract_mitre (codes "attack.execution" ∷ codes "attack.t1059.001" ∷ [])
    ≡ (codes "execution", codes "t1059")
unfolding extract_mitre mitre_from tag_found find_text starts_with find_char
tactic_and_technique = refl

-- The modifier that Sigma writes behind a field's name stays in the name, and the operator is equality.
modifier_in_name :
    parse_detection
      (line (codes "    selection:") (line (codes "        CommandLine|contains: cmd") []))
    ≡ record {
      field = codes "CommandLine|contains";
      values = codes "cmd" ∷ [];
      modifiers = [];
      operator_type = codes "eq";
    }
      ∷ []
unfolding parse_detection take_lines take_indented take_trimmed take_selection take_field
    detection_of unquote trim_left trim_right split_on split_from find_char text_eq starts_with
    ends_with indent_of
modifier_in_name = refl

abbrev two_detections : List SigmaDetection
two_detections =
    record {
      field = codes "user.name";
      values = codes "root" ∷ [];
      modifiers = [];
      operator_type = codes "eq";
    }
    ∷ record {
      field = codes "process.name";
      values = codes "sh" ∷ [];
      modifiers = codes "endswith" ∷ [];
      operator_type = codes "endswith";
    }
    ∷ []

abbrev by_root : Event ℕ
by_root =
    let e = empty_event {D = ℕ} in
    record e { user_name = codes "root"; process_name = codes "bash" }

matches_all-compile_condition_example :
    matches_all whole_numbers by_root
      (map (compile_regex whole_numbers) (compile_condition (codes "a or b") two_detections))
    ≡ meets_all whole_numbers by_root two_detections
matches_all-compile_condition_example =
    matches_all-compile_condition whole_numbers by_root (codes "a or b") two_detections

abbrev files : List SourceFile
files =
    record { extension = codes ".yml"; contents = some yaml }
    ∷ record { extension = codes ".txt"; contents = some yaml }
    ∷ record { extension = codes ".yaml"; contents = none }
    ∷ []

abbrev fields : List Field
fields =
    record { name = codes "u"; value = codes "r"; modifier = none }
    ∷ record { name = codes "p"; value = codes "s"; modifier = some (codes "x") }
    ∷ []

abbrev Plain : ℕ → Type 0
Plain c = IsWord (c ∷ [])

letter : (c : ℕ) → (96 ≤ c) → (c ≤ 122) → Plain c
letter c l h = (
  (
    λ e. absurd (omega (arith, e, l)),
    (
      λ e. absurd (omega (arith, e, l)),
      (
        λ e. absurd (omega (arith, e, l)),
        (
          λ e. absurd (omega (arith, e, l)),
          (λ e. absurd (omega (arith, e, h)), λ e. absurd (omega (arith, e, l))),
        ),
      ),
    ),
  ),
  tt,
)

parse_detection-render_example :
    parse_detection (render (codes "s") fields) ≡ map as_detection fields
parse_detection-render_example =
    parse_detection-render (codes "s") fields (letter 115 (omega arith) (omega arith))
      (unfold text_eq in refl)
      (
        ((letter 117 (omega arith) (omega arith), (letter 114 (omega arith) (omega arith), tt))),
        (
          (
            letter 112 (omega arith) (omega arith),
            (letter 115 (omega arith) (omega arith), letter 120 (omega arith) (omega arith)),
          ),
          tt,
        ),
      )
