-- ===== src/Windows/Manager.antt =====
-- engine/correlation/src/event_windows.cpp: the window manager and its methods. Sizes and time-outs
-- are positive numbers, time points are not before the epoch, and the start of a window may be.
-- The results that the callback receives are returned.
use aiguard_siem.Common.{
  ℕ, zero, suc, ◌+◌, ◌-◌, ◌*◌, ◌/◌, ◌%◌, Bool, false, none, some, Option, List, [], ◌∷◌, ◌++◌, Text,
  codes, if◌then◌else◌, is_empty, find, insert, text_key, text_eq, length, leb, ltb, ◌==◌, ◌&&◌,
  decimal, get_or_else, not, ◌||◌,
}
use aiguard_siem.Common.Int.{ℤ, pos, negsuc}
use aiguard_siem.Events.{Platform, Event, Timestamp, milliseconds}
use aiguard_siem.Windows.Aggregation.{stored_event, aggregate, get_group_key}

pub data WindowType : Type 0 where
  tumbling sliding session hopping : WindowType

pub record WindowSpec (D : Type 0) : Type 0 where
  pub id : Text
  pub type : WindowType
  pub window_size_ms : ℕ
  pub slide_size_ms : ℕ
  pub gap_timeout_ms : ℕ
  pub group_by_field : Text
  pub aggregation_function : Text
  pub aggregation_field : Text
  pub threshold : D
  pub alert_rule_id : Text

pub record WindowResult (D : Type 0) : Type 0 where
  pub window_id : Text
  pub spec_id : Text
  pub window_start : ℤ
  pub window_end : Timestamp
  pub group_key : Text
  pub aggregation_value : D
  pub event_count : ℕ
  pub threshold_exceeded : Bool

pub record WindowState (D : Type 0) : Type 0 where
  pub start : ℤ
  pub end : Timestamp
  pub events : List (Event D)
  pub group_key : Text

abbrev pub fresh_window : {D : Type 0} → WindowState D
fresh_window = record { start = pos 0; end = 0; events = []; group_key = [] }

-- `windows_[spec.id]`: the windows of one specification.
abbrev pub SpecWindows : Type 0 → Type 0
SpecWindows D = List (Text × WindowState D)

-- `spec_windows[key]`.
abbrev pub window_at : {D : Type 0} → SpecWindows D → Text → WindowState D
window_at m key = get_or_else (find key m) fresh_window

abbrev pub same_time : ℤ → ℕ → Bool
same_time (pos n) t = n == t
same_time (negsuc n) t = false

-- -n milliseconds.
abbrev pub before_epoch : ℕ → ℤ
before_epoch zero = pos 0
before_epoch (suc n) = negsuc (milliseconds (suc n) - 1)

abbrev pub to_milliseconds : Timestamp → ℕ
to_milliseconds t = t / 1_000_000

module _ (pf : Platform) where
  open pf use {Double}

  -- The result for the events that a window holds.
  unfoldable pub window_result :
      WindowSpec Double → Text → Text → WindowState Double → WindowResult Double
  window_result spec window_id key win =
      let val : Double = aggregate pf win.events spec.aggregation_function spec.aggregation_field in
      record {
        window_id = window_id;
        spec_id = spec.id;
        window_start = win.start;
        window_end = win.end;
        group_key = key;
        aggregation_value = val;
        event_count = length win.events;
        threshold_exceeded = pf.le spec.threshold val;
      }

  abbrev pub Processed : Type 0
  Processed = SpecWindows Double × List (WindowResult Double)

  unfoldable pub append_event : Event Double → WindowState Double → WindowState Double
  append_event e win = record win { events = win.events ++ (stored_event e ∷ []) }

  unfoldable pub process_tumbling :
      WindowSpec Double → Event Double → Text → SpecWindows Double → Processed
  unfolding append_event
  process_tumbling spec e key m =
      let win : WindowState Double = window_at m key in
      let ms : ℕ = to_milliseconds e.timestamp in
      let start_ms : ℕ = ms - ms % spec.window_size_ms in
      let start : ℕ = milliseconds start_ms in
      let old : List (WindowResult Double) =
        if is_empty win.events
        then []
        else window_result spec (spec.id ++ codes "_" ++ key ++ codes "_" ++ decimal start_ms) key
            win
          ∷ [] in
      let opened : WindowState Double = record win {
        start = pos start;
        end = start + milliseconds spec.window_size_ms;
        group_key = key;
      } in
      if not (is_empty win.events) && same_time win.start start
      then (insert key (append_event e win) m, [])
      else (insert key (append_event e opened) m, old)

  unfoldable pub process_sliding :
      WindowSpec Double → Event Double → Text → SpecWindows Double → Processed
  unfolding append_event
  process_sliding spec e key m =
      let window_key : Text = key ++ codes "_" ++ decimal (to_milliseconds e.timestamp) in
      let win : WindowState Double = record (window_at m window_key) {
        start = pos e.timestamp;
        end = e.timestamp + milliseconds spec.window_size_ms;
        group_key = key;
      } in
      (insert window_key (append_event e win) m, [])

  -- A difference of times that is negative is no gap.
  unfoldable pub process_session :
      WindowSpec Double → Event Double → Text → SpecWindows Double → Processed
  unfolding append_event
  process_session spec e key m =
      let win : WindowState Double = window_at m key in
      let t : Timestamp = e.timestamp in
      let begun : WindowState Double = record win { start = pos t; end = t; group_key = key } in
      let restarted : WindowState Double = record win { events = []; start = pos t; end = t } in
      let closed : WindowResult Double =
        window_result spec (spec.id ++ codes "_" ++ key ++ codes "_session") key win in
      if is_empty win.events
      then (insert key (append_event e begun) m, [])
      else (if ltb spec.gap_timeout_ms (to_milliseconds (t - win.end))
          then (insert key (append_event e restarted) m, closed ∷ [])
          else (insert key (append_event e (record win { end = t })) m, []))

  -- The body of the loop over windows: an event joins the window of a key, which it opens where it
  -- is the first.
  unfoldable pub join_window :
      Event Double → Text → Text → ℤ → Timestamp → SpecWindows Double → SpecWindows Double
  unfolding append_event
  join_window e key window_key start end m =
      let win : WindowState Double = window_at m window_key in
      let opened : WindowState Double = record win { start = start; end = end; group_key = key } in
      insert window_key (append_event e (if is_empty win.events then opened else win)) m

  -- The windows -j, ..., -1.
  unfoldable pub hop_before_epoch :
      WindowSpec Double → Event Double → Text → ℕ → SpecWindows Double → SpecWindows Double
  hop_before_epoch spec e key zero m = m
  hop_before_epoch spec e key (suc j) m =
      let ms : ℕ = to_milliseconds e.timestamp in
      let back : ℕ = suc j * spec.slide_size_ms in
      let name : Text = key ++ codes "_-" ++ decimal (suc j) in
      let joined : SpecWindows Double =
        join_window e key name (before_epoch back) (milliseconds (spec.window_size_ms - back)) m in
      hop_before_epoch spec e key j (if leb spec.window_size_ms (ms + back) then m else joined)

  -- `count` windows from `w` on.
  unfoldable pub hop :
      WindowSpec Double → Event Double → Text → ℕ → ℕ → SpecWindows Double → SpecWindows Double
  hop spec e key zero w m = m
  hop spec e key (suc count) w m =
      let ms : ℕ = to_milliseconds e.timestamp in
      let start : ℕ = w * spec.slide_size_ms in
      let end : ℕ = start + spec.window_size_ms in
      let name : Text = key ++ codes "_" ++ decimal w in
      let joined : SpecWindows Double =
        join_window e key name (pos (milliseconds start)) (milliseconds end) m in
      hop spec e key count (suc w) (if ltb ms start || leb end ms then m else joined)

  -- The division of the source rounds towards zero.
  unfoldable pub process_hopping :
      WindowSpec Double → Event Double → Text → SpecWindows Double → Processed
  process_hopping spec e key m =
      let ms : ℕ = to_milliseconds e.timestamp in
      let first : ℕ = (ms - spec.window_size_ms) / spec.slide_size_ms in
      let before : ℕ = (spec.window_size_ms - ms) / spec.slide_size_ms in
      let last : ℕ = ms / spec.slide_size_ms in
      (hop spec e key (suc last - first) first (hop_before_epoch spec e key before m), [])

  pub record EventWindowManager : Type 0 where
    pub specs : List (WindowSpec Double)
    pub windows : List (Text × SpecWindows Double)
    pub has_callback : Bool

  unfoldable pub add_window : WindowSpec Double → EventWindowManager → EventWindowManager
  add_window spec c = record c { specs = c.specs ++ (spec ∷ []) }

  unfoldable pub set_result_callback : Bool → EventWindowManager → EventWindowManager
  set_result_callback callable c = record c { has_callback = callable }

  abbrev pub process_window :
      WindowSpec Double → Event Double → Text → SpecWindows Double → Processed
  process_window spec e key m = elim spec.type [
    | tumbling ↦ process_tumbling spec e key m
    | sliding ↦ process_sliding spec e key m
    | session ↦ process_session spec e key m
    | hopping ↦ process_hopping spec e key m
  ]

  abbrev pub WindowMap : Type 0
  WindowMap = List (Text × SpecWindows Double)

  unfoldable pub process_specs :
      Event Double → List (WindowSpec Double) → WindowMap → WindowMap × List (WindowResult Double)
  process_specs e [] windows = (windows, [])
  process_specs e (spec ∷ specs) windows =
      let key : Text = get_group_key pf e spec.group_by_field in
      let (m, emitted) = process_window spec e key (get_or_else (find spec.id windows) []) in
      let (windows', more) = process_specs e specs (insert spec.id m windows) in
      (windows', emitted ++ more)

  unfoldable pub process_event :
      Event Double → EventWindowManager → EventWindowManager × List (WindowResult Double)
  process_event e c =
      let (windows, emitted) = process_specs e c.specs c.windows in
      (record c { windows = windows }, if c.has_callback then emitted else [])

  unfoldable pub find_spec : Text → List (WindowSpec Double) → Option (WindowSpec Double)
  find_spec spec_id [] = none
  find_spec spec_id (s ∷ specs) = if text_eq s.id spec_id then some s else find_spec spec_id specs

  -- The windows of one specification that have ended at `now` are erased.
  unfoldable pub expire_spec : WindowSpec Double → Timestamp → SpecWindows Double → Processed
  expire_spec spec now [] = ([], [])
  expire_spec spec now ((k, win) ∷ m) =
      let result : WindowResult Double =
        window_result spec (spec.id ++ codes "_" ++ win.group_key) win.group_key win in
      let (kept, results) = expire_spec spec now m in
      if leb win.end now then (kept, result ∷ results) else ((k, win) ∷ kept, results)

  unfoldable pub expire_all :
      List (WindowSpec Double) → Timestamp → WindowMap → WindowMap × List (WindowResult Double)
  expire_all specs now [] = ([], [])
  expire_all specs now ((spec_id, m) ∷ rest) =
      let (rest', more) = expire_all specs now rest in
      elim (find_spec spec_id specs) [
        | none ↦ ((spec_id, m) ∷ rest', more)
        | some spec ↦
            let (m', results) = expire_spec spec now m in ((spec_id, m') ∷ rest', results ++ more)
      ]

  unfoldable pub expire_windows :
      Timestamp → EventWindowManager → EventWindowManager × List (WindowResult Double)
  expire_windows now c =
      let (windows, results) = expire_all c.specs now c.windows in
      (record c { windows = windows }, results)

  unfoldable pub count_windows : WindowMap → ℕ
  count_windows [] = 0
  count_windows ((spec_id, m) ∷ rest) = length m + count_windows rest

  unfoldable pub active_window_count : EventWindowManager → ℕ
  active_window_count c = count_windows c.windows

  unfoldable pub clear : EventWindowManager → EventWindowManager
  clear c = record c { windows = [] }
