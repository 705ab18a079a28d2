-- ===== src/Sigma/Matching.antt =====
-- What compiled rules match, once `add_rule` of the correlation engine has taken them in.
use aiguard_siem.Common.{
  ℕ, ◌+◌, ◌≡◌, refl, ap, sym, ◌∙◌, Bool, true, false, ◌&&◌, none, List, [], ◌∷◌, map, Text, codes,
  if◌then◌else◌, length, is_empty, starts_with, ends_with, contains, text_eq, text_eq→eq,
  Bool-cases, Option-cases, inl, inr, arith, has, length-append,
}
use mathlib.Core.Path.{subst}
use aiguard_siem.Events.{Platform, Event, wrap64}
use aiguard_siem.Correlation.Conditions.{
  Condition, either, get_field_string, search_regex, check_op, check_condition, matches_all,
  compile_regex,
}
use aiguard_siem.Sigma.Compiler.{
  SigmaDetection, first_value, condition_op, condition_of, compile_condition, compile, Stats,
  SourceFile, is_yaml, compile_file, compile_directory,
}

guarded : (b x y : Bool) → x ≡ y → (if b && true then false else x) ≡ (if b then false else y)
guarded true x y h = refl
guarded false x y h = h

module _ (pf : Platform) where
  open pf use {Double, Regex, regex}

  -- What a detection asks of the text of its field.
  abbrev pub finds : Text → Text → Bool
  finds pattern v = if is_empty pattern then false else search_regex pf (regex pattern) v

  abbrev pub is_met : Text → Text → Text → Bool
  is_met op w v =
      if text_eq op (codes "contains")
      then contains v w
      else (if text_eq op (codes "startswith")
          then starts_with v w
          else (if text_eq op (codes "endswith")
              then ends_with v w
              else (if text_eq op (codes "regex") then finds w v else text_eq v w)))

  -- A detection is met by an event that has its field, with a text that does.
  abbrev pub meets : Event Double → SigmaDetection → Bool
  meets e d =
      let v = get_field_string pf e d.field in
      if is_empty v then false else is_met d.operator_type (first_value d.values) v

  abbrev pub meets_all : Event Double → List SigmaDetection → Bool
  meets_all e [] = true
  meets_all e (d ∷ ds) = if meets e d then meets_all e ds else false

  abbrev compiled : Text → Text → Text → Condition Regex
  compiled field op w =
      compile_regex pf
        (record { field = field; op = condition_op op; value = w; compiled_regex = none })

  abbrev Agrees : Event Double → Text → Text → Text → Type 0
  Agrees e field w op =
      check_condition pf e (compiled field op w)
      ≡ (let v = get_field_string pf e field in if is_empty v then false else is_met op w v)

  Agrees-regex : (e : Event Double) (field w : Text) → Agrees e field w (codes "regex")
  unfolding check_condition check_op compile_regex either text_eq search_regex
  Agrees-regex e field [] = guarded (is_empty (get_field_string pf e field)) _ _ refl
  Agrees-regex e field (c ∷ w) = elim (Option-cases (regex (c ∷ w))) [
    | inl bad ↦ rw bad (guarded (is_empty (get_field_string pf e field)) _ _ refl)
    | inr good ↦ rw good.1 (guarded (is_empty (get_field_string pf e field)) _ _ refl)
  ]

  Agrees-known :
      (e : Event Double) (field w : Text)
      → Agrees e field w (codes "contains")
        × Agrees e field w (codes "startswith")
        × Agrees e field w (codes "endswith")
  unfolding check_condition check_op compile_regex either text_eq
  Agrees-known e field w =
      let v = is_empty (get_field_string pf e field) in
      (guarded v _ _ refl, guarded v _ _ refl, guarded v _ _ refl)

  -- Every other operator asks for equality.
  Agrees-other :
      (e : Event Double) (field w op : Text)
      → text_eq op (codes "contains") ≡ false
      → text_eq op (codes "startswith") ≡ false
      → text_eq op (codes "endswith") ≡ false
      → text_eq op (codes "regex") ≡ false
      → Agrees e field w op
  unfolding check_condition check_op compile_regex either
  Agrees-other e field w op a b c d =
      let v = is_empty (get_field_string pf e field) in
      rw (a, b, c, d) (unfold text_eq in guarded v _ _ refl)

  Agrees-any : (e : Event Double) (field w op : Text) → Agrees e field w op
  Agrees-any e field w op = elim (Bool-cases (text_eq op (codes "contains"))) [
    | inl h ↦
        subst (Agrees e field w) (sym (text_eq→eq op (codes "contains") h))
          (Agrees-known e field w).0
    | inr a ↦ elim (Bool-cases (text_eq op (codes "startswith"))) [
      | inl h ↦
          subst (Agrees e field w) (sym (text_eq→eq op (codes "startswith") h))
            (Agrees-known e field w).1
      | inr b ↦ elim (Bool-cases (text_eq op (codes "endswith"))) [
        | inl h ↦
            subst (Agrees e field w) (sym (text_eq→eq op (codes "endswith") h))
              (Agrees-known e field w).2
        | inr c ↦ elim (Bool-cases (text_eq op (codes "regex"))) [
          | inl h ↦
              subst (Agrees e field w) (sym (text_eq→eq op (codes "regex") h))
                (Agrees-regex e field w)
          | inr d ↦ Agrees-other e field w op a b c d
        ]
      ]
    ]
  ]

  -- Once the correlation engine has compiled its patterns, a rule made of detections matches an event
  -- exactly when the event meets every one of them, whatever the condition expression is, be it a
  -- disjunction or a negation.
  pub matches_all-compile_condition :
      (e : Event Double) (condition : Text) (ds : List SigmaDetection)
      → matches_all pf e (map (compile_regex pf) (compile_condition condition ds)) ≡ meets_all e ds
  unfolding matches_all compile_condition condition_of
  matches_all-compile_condition e condition [] = refl
  matches_all-compile_condition e condition (d ∷ ds) =
      let rest = matches_all-compile_condition e condition ds in
      ap
        (λ b.
          if b
          then matches_all pf e (map (compile_regex pf) (compile_condition condition ds))
          else false)
        (Agrees-any e d.field (first_value d.values) d.operator_type)
      ∙ ap (λ m. if meets e d then m else false) rest

abbrev pub compilable : SourceFile → Bool
compilable file = has file.contents && is_yaml file.extension

abbrev pub count_file : SourceFile → ℕ
count_file file = if compilable file then 1 else 0

abbrev pub count_compilable : List SourceFile → ℕ
count_compilable [] = 0
count_compilable (file ∷ files) = count_file file + count_compilable files

-- What one file does to the rules and the counters.
compile_file_lem :
    (R : Type 0) (file : SourceFile) (c : Stats)
    → let r = compile_file {R = R} file c in
      (length r.0 ≡ count_file file)
      × (wrap64 r.1.rules_compiled ≡ wrap64 (c.rules_compiled + count_file file))
      × (r.1.rules_failed ≡ c.rules_failed)
unfolding compile_file compile
compile_file_lem R file c = elim (Option-cases file.contents) [
  | inl shut ↦ rw shut ((refl, omega arith, refl))
  | inr opens ↦ elim (Bool-cases (is_yaml file.extension)) [
    | inl yaml ↦ rw (opens.1, yaml) ((refl, omega arith, refl))
    | inr other ↦ rw (opens.1, other) ((refl, omega arith, refl))
  ]
]

-- Every YAML file of a directory that opens becomes a rule, the other files none; the counter of
-- compiled rules goes up by as many, and that of failures stays.
pub compile_directory_lem :
    (R : Type 0) (files : List SourceFile) (c : Stats)
    → let r = compile_directory {R = R} files c in
      (length r.0 ≡ count_compilable files)
      × (wrap64 r.1.rules_compiled ≡ wrap64 (c.rules_compiled + count_compilable files))
      × (r.1.rules_failed ≡ c.rules_failed)
unfolding compile_directory
compile_directory_lem R [] c = (refl, omega arith, refl)
compile_directory_lem R (file ∷ files) c =
    let here = compile_file {R = R} file c in
    let one = compile_file_lem R file c in
    let rest = compile_directory_lem R files here.1 in
    let more = compile_directory {R = R} files here.1 in
    (
      omega (arith, length-append here.0 more.0, one.0, rest.0),
      omega (arith, one.1, rest.1),
      rest.2 ∙ one.2,
    )
