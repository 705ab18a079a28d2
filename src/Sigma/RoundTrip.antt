-- ===== src/Sigma/RoundTrip.antt =====
-- The detection section of a rule, printed and read.
use aiguard_siem.Common.{
  ◌≡◌, refl, ap, sym, ◌∙◌, true, false, Option, none, some, List, [], ◌∷◌, ◌++◌, map, Text, codes,
  length, take, is_empty, text_eq, Every, arith, find_char-append, replicate, split_on, split_from,
  take-length-append,
}
use mathlib.Core.Path.{subst}
use mathlib.Core.List.{append_assoc, append-nil}
use aiguard_siem.Sigma.Lines.{indent_of, trim, trim_left, trim_right, unquote}
use aiguard_siem.Sigma.Compiler.{
  SigmaDetection, Selections, detection_of, take_selection, take_field, take_trimmed, take_indented,
  take_lines, parse_detection,
}
use aiguard_siem.Sigma.Words.{
  IsWord, IsLine, split_from-line, split_from-whole, indent_of-word, unquote-word, Every-append,
  drop-past, NotBlank, IsWord-NotBlank, trim-word, trim-word_alone, no_bar, no_colon, not_empty,
  blanks, split_on-line, word-IsLine,
}

-- A field of a selection, with or without a modifier.
pub record Field : Type 0 where
  pub name : Text
  pub value : Text
  pub modifier : Option Text

abbrev pub bar : Option Text → Text
bar none = []
bar (some m) = b'|' ∷ m

abbrev pub render_field : Field → Text
render_field f = codes "        " ++ (f.name ++ (b':' ∷ (b' ' ∷ (f.value ++ bar f.modifier))))

abbrev pub render_fields : List Field → Text
render_fields [] = []
render_fields (f ∷ fs) = render_field f ++ (b'\n' ∷ render_fields fs)

abbrev pub render : Text → List Field → Text
render name fs = (codes "    " ++ (name ++ (b':' ∷ []))) ++ (b'\n' ∷ render_fields fs)

abbrev pub as_detection : Field → SigmaDetection
as_detection f = record {
  field = f.name;
  values = f.value ∷ [];
  modifiers = elim f.modifier [ none ↦ [] | some m ↦ m ∷ [] ];
  operator_type = elim f.modifier [ none ↦ codes "eq" | some m ↦ m ];
}

abbrev pub IsModifier : Option Text → Type 0
IsModifier none = Unit
IsModifier (some m) = IsWord m

abbrev pub IsFieldWord : Field → Type 0
IsFieldWord f = IsWord f.name × (IsWord f.value × IsModifier f.modifier)

-- The value and the modifier come apart.
detection_of-field :
    (name value : Text) (modifier : Option Text)
    → let f : Field = record { name = name; value = value; modifier = modifier } in
      IsFieldWord f
      → detection_of name (value ++ bar modifier) (map trim (split_on b'|' (value ++ bar modifier)))
        ≡ as_detection f
unfolding detection_of split_on
detection_of-field name value none h =
    let parts : split_from b'|' [] value ≡ value ∷ [] =
      split_from-whole b'|' [] value (no_bar value h.1.0)
        (subst (λ x. is_empty x ≡ false) (append-nil value) (not_empty value [] h.1.0)) in
    rw (append-nil value, parts) refl
detection_of-field name value (some m) h =
    let rest : split_from b'|' [] m ≡ m ∷ [] =
      split_from-whole b'|' [] m (no_bar m h.1.1)
        (subst (λ x. is_empty x ≡ false) (append-nil m) (not_empty m [] h.1.1)) in
    let parts : split_from b'|' [] (value ++ (b'|' ∷ m)) ≡ value ∷ (m ∷ []) =
      split_from-line b'|' [] value m (no_bar value h.1.0)
      ∙ unfold split_on in ap (λ x. value ∷ x) rest in
    rw (parts, trim-word_alone value h.1.0, trim-word_alone m h.1.1) refl

bar-NotBlank : (m : Option Text) → IsModifier m → NotBlank (bar m)
bar-NotBlank none h = tt
bar-NotBlank (some m) h = (refl, IsWord-NotBlank m h)

-- A line of a field adds the field's detection.
take_indented-render_field :
    (f : Field) (ds : List SigmaDetection)
    → IsFieldWord f
    → take_indented
        (render_field f)
        (record { in_selection = true; detections = ds })
        (indent_of (render_field f))
      ≡ record { in_selection = true; detections = ds ++ (as_detection f ∷ []) }
unfolding take_indented take_trimmed take_field indent_of detection_of split_on unquote trim_right
    trim_left
take_indented-render_field f ds h =
    let value : Text = f.value ++ bar f.modifier in
    let tail : Text = b' ' ∷ value in
    let colon = find_char-append b':' f.name tail (no_colon f.name h.0) in
    let key : trim (take (length f.name) (f.name ++ (b':' ∷ tail))) ≡ f.name =
      ap trim (take-length-append f.name (b':' ∷ tail)) ∙ trim-word_alone f.name h.0 in
    let clean : unquote (trim value) ≡ value =
      ap unquote (trim-word f.value (bar f.modifier) h.1.0 (bar-NotBlank f.modifier h.1.1))
      ∙ unquote-word f.value (bar f.modifier) h.1.0 in
    rw (indent_of-word f.name (b':' ∷ tail) h.0, colon, drop-past f.name b':' tail, key, clean)
      (ap (λ d. record { in_selection = true; detections = ds ++ (d ∷ []) })
        (detection_of-field f.name f.value f.modifier h))

bar-IsLine : (m : Option Text) → IsModifier m → IsLine (bar m)
bar-IsLine none h = tt
bar-IsLine (some m) h = (λ e. absurd (omega (arith, e)), word-IsLine m h)

render_field-IsLine : (f : Field) → IsFieldWord f → IsLine (render_field f)
render_field-IsLine f h =
    let value : Text = f.value ++ bar f.modifier in
    Every-append _ (replicate 8 b' ') (f.name ++ (b':' ∷ (b' ' ∷ value))) (blanks 8) (
      Every-append _ f.name (b':' ∷ (b' ' ∷ value)) (word-IsLine f.name h.0) (
        λ e. absurd (omega (arith, e)),
        (
          λ e. absurd (omega (arith, e)),
          Every-append _ f.value (bar f.modifier) (word-IsLine f.value h.1.0)
              (bar-IsLine f.modifier h.1.1),
        ),
      ))

take_lines-render_fields :
    (fs : List Field) (ds : List SigmaDetection)
    → Every IsFieldWord fs
    → take_lines
        (split_on b'\n' (render_fields fs))
        (record { in_selection = true; detections = ds })
      ≡ record { in_selection = true; detections = ds ++ map as_detection fs }
unfolding take_lines
take_lines-render_fields [] ds h =
    unfold split_on in
    unfold split_from in
    ap (λ x. record { in_selection = true; detections = x }) (sym (append-nil ds))
take_lines-render_fields (f ∷ fs) ds h =
    ap (λ ls. take_lines ls (record { in_selection = true; detections = ds }))
      (split_on-line (render_field f) (render_fields fs) (render_field-IsLine f h.0))
    ∙ (ap (take_lines (split_on b'\n' (render_fields fs))) (take_indented-render_field f ds h.0)
        ∙ (take_lines-render_fields fs (ds ++ (as_detection f ∷ [])) h.1
            ∙ ap (λ x. record { in_selection = true; detections = x })
                (append_assoc ds (as_detection f ∷ []) (map as_detection fs))))

-- The line of a selection's name starts it.
take_indented-name :
    (name : Text)
    → IsWord name
    → text_eq name (codes "condition") ≡ false
    → let line = codes "    " ++ (name ++ (b':' ∷ [])) in
      take_indented line (record { in_selection = false; detections = [] }) (indent_of line)
      ≡ record { in_selection = true; detections = [] }
unfolding take_indented take_trimmed take_selection indent_of trim_left
take_indented-name name w other =
    let colon = find_char-append b':' name [] (no_colon name w) in
    rw
      (
        indent_of-word name (b':' ∷ []) w,
        colon,
        take-length-append name (b':' ∷ []),
        drop-past name b':' [],
        other,
      )
      refl

-- A selection printed with its fields is read back: `parse_detection` gives a detection for each
-- field, with its value, and with its modifier as the operator where it has one, provided that the
-- names, values and modifiers are words without blanks, colons, bars and quotes, and the selection is
-- not called "condition".
pub parse_detection-render :
    (name : Text) (fs : List Field)
    → IsWord name
    → text_eq name (codes "condition") ≡ false
    → Every IsFieldWord fs
    → parse_detection (render name fs) ≡ map as_detection fs
unfolding parse_detection take_lines
parse_detection-render name fs w other h =
    let line : Text = codes "    " ++ (name ++ (b':' ∷ [])) in
    let plain : IsLine line =
      Every-append _ (replicate 4 b' ') (name ++ (b':' ∷ [])) (blanks 4) (
        Every-append _ name (b':' ∷ []) (word-IsLine name w)
          (λ e. absurd (omega (arith, e)), tt)) in
    let start : Selections = record { in_selection = false; detections = [] } in
    ap (λ c. c.detections)
      (ap (λ ls. take_lines ls start) (split_on-line line (render_fields fs) plain)
        ∙ (ap (take_lines (split_on b'\n' (render_fields fs))) (take_indented-name name w other)
            ∙ take_lines-render_fields fs [] h))
