-- ===== src/Windows/Expiry.antt =====
-- Expiring windows: which go, which stay as they are, and what is reported.
use aiguard_siem.Common.{
  ◌+◌, ◌≡◌, refl, Option, none, some, ◌∷◌, [], List, Text, codes, length, map, filter, leb, ltb,
  arith, Bool-cases, Bool, inl, inr, ◌++◌, length-append, Option-cases, text_eq, get_elem?, true,
  false,
}
use aiguard_siem.Events.{Platform, Timestamp}
use aiguard_siem.Windows.Aggregation.{aggregate}
use aiguard_siem.Windows.Manager.{
  WindowSpec, WindowState, WindowResult, SpecWindows, WindowMap, EventWindowManager, expire_spec,
  expire_all, expire_windows, find_spec, window_result, count_windows, active_window_count,
}

module _ (pf : Platform) where
  open pf use {Double, le}

  abbrev pub has_ended : Timestamp → Text × WindowState Double → Bool
  has_ended now w = leb w.1.end now

  abbrev pub is_open : Timestamp → Text × WindowState Double → Bool
  is_open now w = ltb now w.1.end

  -- The report on a window that has ended.
  abbrev pub closed : WindowSpec Double → Text × WindowState Double → WindowResult Double
  closed spec w =
      let value = aggregate pf w.1.events spec.aggregation_function spec.aggregation_field in
      record {
        window_id = spec.id ++ codes "_" ++ w.1.group_key;
        spec_id = spec.id;
        window_start = w.1.start;
        window_end = w.1.end;
        group_key = w.1.group_key;
        aggregation_value = value;
        event_count = length w.1.events;
        threshold_exceeded = le spec.threshold value;
      }

  expire_spec_lem :
      (spec : WindowSpec Double) (now : Timestamp) (m : SpecWindows Double)
      → expire_spec pf spec now m
        ≡ (filter (is_open now) m, map (closed spec) (filter (has_ended now) m))
  unfolding expire_spec window_result
  expire_spec_lem spec now [] = refl
  expire_spec_lem spec now ((k, win) ∷ m) =
      let rest = expire_spec_lem spec now m in
      elim (Bool-cases (leb win.end now)) [
        | inl gone ↦ let shut : ltb now win.end ≡ false = ground arith in rw (gone, shut, rest) refl
        | inr stays ↦
            let opens : ltb now win.end ≡ true = ground arith in rw (stays, opens, rest) refl
      ]

  -- The first specification of the name, if there is one.
  abbrev pub named : Text → List (WindowSpec Double) → Option (WindowSpec Double)
  named spec_id specs = get_elem? (filter (λ s. text_eq s.id spec_id) specs) 0

  find_spec-eq-named :
      (spec_id : Text) (specs : List (WindowSpec Double))
      → find_spec pf spec_id specs ≡ named spec_id specs
  unfolding find_spec
  find_spec-eq-named spec_id [] = refl
  find_spec-eq-named spec_id (s ∷ specs) = elim (Bool-cases (text_eq s.id spec_id)) [
    | inl same ↦ rw same refl
    | inr other ↦ rw other (find_spec-eq-named spec_id specs)
  ]

  -- What is left of the windows of a specification, and what is reported of them.
  abbrev pub left_of :
      Option (WindowSpec Double) → Timestamp → SpecWindows Double → SpecWindows Double
  left_of none now m = m
  left_of (some spec) now m = filter (is_open now) m

  abbrev pub reported_of :
      Option (WindowSpec Double) → Timestamp → SpecWindows Double → List (WindowResult Double)
  reported_of none now m = []
  reported_of (some spec) now m = map (closed spec) (filter (has_ended now) m)

  abbrev pub reported :
      List (WindowSpec Double) → Timestamp → WindowMap pf → List (WindowResult Double)
  reported specs now [] = []
  reported specs now ((spec_id, m) ∷ rest) =
      reported_of (named spec_id specs) now m ++ reported specs now rest

  abbrev pub left : List (WindowSpec Double) → Timestamp → WindowMap pf → WindowMap pf
  left specs now windows = map (λ r. (r.0, left_of (named r.0 specs) now r.1)) windows

  expire_all_lem :
      (specs : List (WindowSpec Double)) (now : Timestamp) (windows : WindowMap pf)
      → expire_all pf specs now windows ≡ (left specs now windows, reported specs now windows)
  unfolding expire_all
  expire_all_lem specs now [] = refl
  expire_all_lem specs now ((spec_id, m) ∷ rest) =
      let more = expire_all_lem specs now rest in
      let same = find_spec-eq-named spec_id specs in
      elim (Option-cases (named spec_id specs)) [
        | inl absent ↦ rw (expire_all, same, absent, more) refl
        | inr (spec, known) ↦ rw (expire_all, same, known, more, expire_spec_lem spec now m) refl
      ]

  -- A window has ended or is open.
  length-filter :
      (now : Timestamp) (m : SpecWindows Double)
      → length (filter (has_ended now) m) + length (filter (is_open now) m) ≡ length m
  length-filter now [] = refl
  length-filter now ((k, win) ∷ m) = let rest = length-filter now m in ground arith

  length-closed :
      (spec : WindowSpec Double) (m : SpecWindows Double) → length (map (closed spec) m) ≡ length m
  length-closed spec [] = refl
  length-closed spec (w ∷ m) = omega (arith, length-closed spec m)

  reported_of-count :
      (o : Option (WindowSpec Double)) (now : Timestamp) (m : SpecWindows Double)
      → length (reported_of o now m) + length (left_of o now m) ≡ length m
  reported_of-count none now m = omega arith
  reported_of-count (some spec) now m =
      omega (arith, length-filter now m, length-closed spec (filter (has_ended now) m))

  reported-count :
      (specs : List (WindowSpec Double)) (now : Timestamp) (windows : WindowMap pf)
      → length (reported specs now windows) + count_windows pf (left specs now windows)
        ≡ count_windows pf windows
  unfolding count_windows
  reported-count specs now [] = refl
  reported-count specs now ((spec_id, m) ∷ rest) =
      let o = named spec_id specs in
      omega (
        arith,
        reported-count specs now rest,
        reported_of-count o now m,
        length-append (reported_of o now m) (reported specs now rest),
      )

  -- A sweep at `now` leaves, unchanged and in order, exactly the windows that end later, and those
  -- whose specification is gone; nothing else of the manager changes. It reports each of the other
  -- windows once, in order, with its specification, span, group, aggregate and number of events, so
  -- that reports and windows left add up to the windows before.
  pub expire_windows_lem :
      (c : EventWindowManager pf) (now : Timestamp)
      → let (c', results) = expire_windows pf now c in
        (c' ≡ record c { windows = left c.specs now c.windows })
        × (results ≡ reported c.specs now c.windows)
        × (length results + active_window_count pf c' ≡ active_window_count pf c)
  unfolding expire_windows active_window_count
  expire_windows_lem c now =
      rw (expire_all_lem c.specs now c.windows) ((refl, refl, reported-count c.specs now c.windows))
