-- ===== src/Windows/Aggregation.antt =====
-- engine/correlation/src/event_windows.cpp: what a window keeps of an event, the key it groups
-- events by, and the number it computes from them.
use aiguard_siem.Common.{
  ℕ, none, some, List, [], ◌∷◌, map, Text, codes, if◌then◌else◌, is_empty, length, text_eq, refl,
  ◌≡◌, ◌∙◌, ap, sym, Bool-cases, inl, inr, arith, suc, length-map, find,
}
use aiguard_siem.Common.Int.{pos, ◌+ℤ◌}
use aiguard_siem.Events.{
  Platform, Event, FieldValue, empty_event, get_field, int_to_string, text, int, double, bool,
  texts, ints, doubles,
}

-- The copy of an event that the windows store.
unfoldable pub stored_event : {D : Type 0} → Event D → Event D
unfolding empty_event
stored_event e = record empty_event {
  id = e.id;
  timestamp = e.timestamp;
  source_ip = e.source_ip;
  destination_ip = e.destination_ip;
  host_name = e.host_name;
  user_name = e.user_name;
  category = e.category;
  action = e.action;
  severity = e.severity;
}

module _ (pf : Platform) where
  open pf use {Double}

  abbrev pub group_text : FieldValue Double → Text
  group_text (text s) = s
  group_text (int n) = int_to_string n
  group_text (double d) = pf.to_text d
  group_text (bool b) = if b then codes "true" else codes "false"
  group_text (texts v) = []
  group_text (ints v) = []
  group_text (doubles v) = []

  unfoldable pub get_group_key : Event Double → Text → Text
  get_group_key e field =
      if is_empty field
      then codes "_global_"
      else (if text_eq field (codes "source.ip")
          then e.source_ip
          else (if text_eq field (codes "destination.ip")
              then e.destination_ip
              else (if text_eq field (codes "host.name")
                  then e.host_name
                  else (if text_eq field (codes "user.name")
                      then e.user_name
                      else (if text_eq field (codes "process.name")
                          then e.process_name
                          else (if text_eq field (codes "event.category")
                              then e.category
                              else (elim (get_field e field) [
                                | some v ↦ group_text v
                                | none ↦ codes "_unknown_"
                              ])))))))

  -- Text that is no number counts as zero. So do the lists, for which the call of `std::stod` in
  -- the source has no overload.
  abbrev pub value_number : FieldValue Double → Double
  value_number (text s) = elim (pf.stod s) [ some d ↦ d | none ↦ pf.of_int (pos 0) ]
  value_number (int n) = pf.of_int n
  value_number (double d) = d
  value_number (bool b) = if b then pf.of_int (pos 1) else pf.of_int (pos 0)
  value_number (texts v) = pf.of_int (pos 0)
  value_number (ints v) = pf.of_int (pos 0)
  value_number (doubles v) = pf.of_int (pos 0)

  unfoldable pub get_field_double : Event Double → Text → Double
  get_field_double e field =
      if text_eq field (codes "network.bytes")
      then pf.of_int (e.network_bytes_in +ℤ e.network_bytes_out)
      else (if text_eq field (codes "network.packets")
          then pf.of_int (e.network_packets_in +ℤ e.network_packets_out)
          else (if text_eq field (codes "source.port")
              then pf.of_int (pos e.source_port)
              else (if text_eq field (codes "destination.port")
                  then pf.of_int (pos e.destination_port)
                  else (elim (get_field e field) [
                    | some v ↦ value_number v
                    | none ↦ pf.of_int (pos 0)
                  ]))))

  unfoldable pub sum_from : Double → List Double → Double
  sum_from acc [] = acc
  sum_from acc (v ∷ vs) = sum_from (pf.add acc v) vs

  -- `std::min_element` and `std::max_element`, from the first value on.
  unfoldable pub min_from : Double → List Double → Double
  min_from best [] = best
  min_from best (v ∷ vs) = min_from (if pf.lt v best then v else best) vs

  unfoldable pub max_from : Double → List Double → Double
  max_from best [] = best
  max_from best (v ∷ vs) = max_from (if pf.lt best v then v else best) vs

  abbrev pub aggregate_values : Text → Double → List Double → Double
  aggregate_values function v vs =
      let zero_value : Double = pf.of_int (pos 0) in
      if text_eq function (codes "sum")
      then sum_from zero_value (v ∷ vs)
      else (if text_eq function (codes "avg")
          then pf.div (sum_from zero_value (v ∷ vs)) (pf.of_int (pos (length (v ∷ vs))))
          else (if text_eq function (codes "min")
              then min_from v vs
              else (if text_eq function (codes "max") then max_from v vs else zero_value)))

  unfoldable pub aggregate : List (Event Double) → Text → Text → Double
  aggregate [] function field = pf.of_int (pos 0)
  aggregate (e ∷ es) function field =
      if text_eq function (codes "count")
      then pf.of_int (pos (length (e ∷ es)))
      else aggregate_values function (get_field_double e field)
          (map (λ x. get_field_double x field) es)

  -- No field of a stored copy holds a number but zero.
  pub get_field_double-stored_event :
      (e : Event Double) (field : Text)
      → get_field_double (stored_event e) field ≡ pf.of_int (pos 0)
  unfolding get_field_double stored_event get_field find ◌+ℤ◌
  get_field_double-stored_event e field = ground arith

  module _ (add_zero : pf.add (pf.of_int (pos 0)) (pf.of_int (pos 0)) ≡ pf.of_int (pos 0))
      (zero_div : (n : ℕ)
        → pf.div (pf.of_int (pos 0)) (pf.of_int (pos (suc n))) ≡ pf.of_int (pos 0)) where
    abbrev stored_values : List (Event Double) → Text → List Double
    stored_values es field = map (λ x. get_field_double x field) (map stored_event es)

    sum_from-stored :
        (es : List (Event Double)) (field : Text)
        → sum_from (pf.of_int (pos 0)) (stored_values es field) ≡ pf.of_int (pos 0)
    unfolding sum_from
    sum_from-stored [] field = refl
    sum_from-stored (e ∷ es) field =
        rw (get_field_double-stored_event e field, add_zero) (sum_from-stored es field)

    min_from-stored :
        (es : List (Event Double)) (field : Text)
        → min_from (pf.of_int (pos 0)) (stored_values es field) ≡ pf.of_int (pos 0)
    unfolding min_from
    min_from-stored [] field = refl
    min_from-stored (e ∷ es) field =
        rw (get_field_double-stored_event e field)
          (elim (Bool-cases (pf.lt (pf.of_int (pos 0)) (pf.of_int (pos 0)))) [
            | inl t ↦ rw t (min_from-stored es field)
            | inr t ↦ rw t (min_from-stored es field)
          ])

    max_from-stored :
        (es : List (Event Double)) (field : Text)
        → max_from (pf.of_int (pos 0)) (stored_values es field) ≡ pf.of_int (pos 0)
    unfolding max_from
    max_from-stored [] field = refl
    max_from-stored (e ∷ es) field =
        rw (get_field_double-stored_event e field)
          (elim (Bool-cases (pf.lt (pf.of_int (pos 0)) (pf.of_int (pos 0)))) [
            | inl t ↦ rw t (max_from-stored es field)
            | inr t ↦ rw t (max_from-stored es field)
          ])

    -- Over the copies that a window stores, every aggregation but `count` is zero, whatever the
    -- events hold, where zero plus zero is zero and zero divided by a positive number is zero.
    pub aggregate_stored :
        (es : List (Event Double)) (function field : Text)
        → aggregate (map stored_event es) function field
          ≡ pf.of_int (pos (if text_eq function (codes "count") then length es else 0))
    unfolding aggregate
    aggregate_stored [] function field = ground arith
    aggregate_stored (e ∷ es) function field =
        let first : get_field_double (stored_event e) field ≡ pf.of_int (pos 0) =
          get_field_double-stored_event e field in
        let all : length (stored_values es field) ≡ length es =
          length-map (map stored_event es) (λ x. get_field_double x field)
          ∙ length-map es stored_event in
        let events : length (map stored_event es) ≡ length es = length-map es stored_event in
        let total : sum_from (pf.of_int (pos 0)) (pf.of_int (pos 0) ∷ stored_values es field)
            ≡ pf.of_int (pos 0) =
          ap (λ x. sum_from (pf.of_int (pos 0)) (x ∷ stored_values es field)) (sym first)
          ∙ sum_from-stored (e ∷ es) field in
        rw
          (
            first,
            events,
            all,
            total,
            min_from-stored es field,
            max_from-stored es field,
            zero_div (length es),
          )
          (ground arith)
