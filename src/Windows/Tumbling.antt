-- ===== src/Windows/Tumbling.antt =====
-- Tumbling windows: what a window holds when the next one starts.
use aiguard_siem.Common.{
  ◌-◌, ◌%◌, ◌≡◌, refl, ◌∷◌, [], List, map, Text, Bool-cases, inl, inr, ◌++◌, is_empty, not, ◌&&◌,
}
use mathlib.Core.List.{append_assoc, append-nil}
use aiguard_siem.Events.{Platform, Event, milliseconds}
use aiguard_siem.Windows.Aggregation.{stored_event}
use aiguard_siem.Windows.Session.{window_at-insert}
use aiguard_siem.Windows.Manager.{
  WindowSpec, SpecWindows, Processed, process_tumbling, window_at, to_milliseconds, append_event,
  same_time,
}

module _ (pf : Platform) (spec : WindowSpec pf.Double) (key : Text) where
  open pf use {Double}

  process_tumbling-events :
      (e : Event Double) (m : SpecWindows Double)
      → (window_at (process_tumbling pf spec e key m).0 key).events
        ≡ (window_at m key).events ++ (stored_event e ∷ [])
  unfolding process_tumbling append_event
  process_tumbling-events e m =
      let start =
        milliseconds
          (to_milliseconds e.timestamp - to_milliseconds e.timestamp % spec.window_size_ms) in
      elim (Bool-cases
        (not (is_empty (window_at m key).events) && same_time (window_at m key).start start)) [
          | inl same ↦ rw (same, window_at-insert m key _) refl
          | inr opens ↦ rw (opens, window_at-insert m key _) refl
        ]

  abbrev pub process_tumblings : List (Event Double) → SpecWindows Double → Processed pf
  process_tumblings [] m = (m, [])
  process_tumblings (e ∷ es) m =
      let (m', r) = process_tumbling pf spec e key m in
      let (m'', more) = process_tumblings es m' in (m'', r ++ more)

  -- The window of a key holds, after a stream of events, those it held before and a copy of every
  -- event of the stream: no event leaves it when a new window starts.
  pub process_tumblings-events :
      (es : List (Event Double)) (m : SpecWindows Double)
      → (window_at (process_tumblings es m).0 key).events
        ≡ (window_at m key).events ++ map stored_event es
  process_tumblings-events [] m = rw (append-nil (window_at m key).events) refl
  process_tumblings-events (e ∷ es) m =
      rw
        (
          process_tumblings-events es (process_tumbling pf spec e key m).0,
          process_tumbling-events e m,
          append_assoc (window_at m key).events (stored_event e ∷ []) (map stored_event es),
        )
        refl
