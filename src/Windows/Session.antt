-- ===== src/Windows/Session.antt =====
-- Session windows: events with small gaps share a window, and a gap beyond the time-out closes it.
use mathlib.Core.Path.{subst}
use aiguard_siem.Common.{
  ◌-◌, ◌≤◌, ◌<◌, ◌≡◌, refl, sym, none, ◌∷◌, [], List, map, Text, codes, ltb, arith, ◌++◌, true,
  false, find, find-insert, insert, text_eq_refl, text_key,
}
use mathlib.Core.List.{append_assoc, append-nil}
use aiguard_siem.Common.Int.{ℤ, pos}
use aiguard_siem.Events.{Platform, Timestamp, Event}
use aiguard_siem.Windows.Aggregation.{stored_event}
use aiguard_siem.Windows.Manager.{
  WindowSpec, WindowState, WindowResult, SpecWindows, Processed, process_session, window_at,
  window_result, to_milliseconds, append_event,
}

pub window_at-insert :
    {D : Type 0} (m : SpecWindows D) (key : Text) (win : WindowState D)
    → window_at (insert key win m) key ≡ win
window_at-insert m key win = rw (find-insert key key win m, text_eq_refl key) refl

module _ (pf : Platform) (spec : WindowSpec pf.Double) (key : Text) where
  open pf use {Double}

  -- The events of one key, one after another.
  abbrev pub process_sessions : List (Event Double) → SpecWindows Double → Processed pf
  process_sessions [] m = (m, [])
  process_sessions (e ∷ es) m =
      let (m', r) = process_session pf spec e key m in
      let (m'', more) = process_sessions es m' in (m'', r ++ more)

  -- No event comes later than the time-out after the one before it.
  abbrev pub IsClose : Timestamp → List (Event Double) → Type 0
  IsClose last [] = Unit
  IsClose last (e ∷ es) =
      (to_milliseconds (e.timestamp - last) ≤ spec.gap_timeout_ms) × IsClose e.timestamp es

  abbrev pub last_time : Timestamp → List (Event Double) → Timestamp
  last_time t [] = t
  last_time t (e ∷ es) = last_time e.timestamp es

  process_session_extends :
      (e x : Event Double) (xs : List (Event Double)) (start : ℤ) (last : Timestamp)
      (m : SpecWindows Double)
      → window_at m key ≡ (record { start = start; end = last; events = x ∷ xs; group_key = key })
      → to_milliseconds (e.timestamp - last) ≤ spec.gap_timeout_ms
      → process_session pf spec e key m ≡ (
        insert key
            (record {
              start = start;
              end = e.timestamp;
              events = x ∷ (xs ++ (stored_event e ∷ []));
              group_key = key;
            })
            m,
        [],
      )
  unfolding process_session append_event
  process_session_extends e x xs start last m w h =
      let t : ltb spec.gap_timeout_ms (to_milliseconds (e.timestamp - last)) ≡ false =
        ground arith in
      rw (w, t) refl

  process_session_closes :
      (e x : Event Double) (xs : List (Event Double)) (start : ℤ) (last : Timestamp)
      (m : SpecWindows Double)
      → window_at m key ≡ (record { start = start; end = last; events = x ∷ xs; group_key = key })
      → spec.gap_timeout_ms < to_milliseconds (e.timestamp - last)
      → process_session pf spec e key m ≡ (
        insert key
            (record {
              start = pos e.timestamp;
              end = e.timestamp;
              events = stored_event e ∷ [];
              group_key = key;
            })
            m,
        window_result pf spec
              (spec.id ++ codes "_" ++ key ++ codes "_session")
              key
              (record { start = start; end = last; events = x ∷ xs; group_key = key })
            ∷ [],
      )
  unfolding process_session append_event
  process_session_closes e x xs start last m w h =
      let t : ltb spec.gap_timeout_ms (to_milliseconds (e.timestamp - last)) ≡ true =
        ground arith in
      rw (w, t) refl

  process_session_opens :
      (e : Event Double) (m : SpecWindows Double)
      → find key m ≡ none
      → process_session pf spec e key m ≡ (
        insert key
            (record {
              start = pos e.timestamp;
              end = e.timestamp;
              events = stored_event e ∷ [];
              group_key = key;
            })
            m,
        [],
      )
  unfolding process_session append_event
  process_session_opens e m h = rw h refl

  process_sessions_cons :
      (e : Event Double) (es : List (Event Double)) (m m' : SpecWindows Double)
      (r : List (WindowResult Double))
      → process_session pf spec e key m ≡ (m', r)
      → process_sessions (e ∷ es) m ≡ (let (m'', more) = process_sessions es m' in (m'', r ++ more))
  process_sessions_cons e es m m' r h = rw h refl

  -- One result, for the window `win`, is emitted, and the window of the key holds `e'` only.
  abbrev pub ClosesOnce : WindowState Double → Event Double → Processed pf → Type 0
  ClosesOnce win e' r =
      (window_at r.0 key ≡ (record {
        start = pos e'.timestamp;
        end = e'.timestamp;
        events = stored_event e' ∷ [];
        group_key = key;
      }))
      × (r.1 ≡ window_result pf spec (spec.id ++ codes "_" ++ key ++ codes "_session") key win ∷ [])

  process_sessions_extend :
      (es : List (Event Double)) (e' x : Event Double) (xs : List (Event Double)) (start : ℤ)
      (last : Timestamp) (m : SpecWindows Double)
      → window_at m key ≡ (record { start = start; end = last; events = x ∷ xs; group_key = key })
      → IsClose last es
      → spec.gap_timeout_ms < to_milliseconds (e'.timestamp - last_time last es)
      → ClosesOnce
          (record {
            start = start;
            end = last_time last es;
            events = x ∷ (xs ++ map stored_event es);
            group_key = key;
          })
          e'
          (process_sessions (es ++ (e' ∷ [])) m)
  process_sessions_extend [] e' x xs start last m w c h =
      let step = process_session_closes e' x xs start last m w h in
      rw (append-nil xs) (
        subst (ClosesOnce _ e') (sym (process_sessions_cons e' [] m _ _ step))
          ((window_at-insert m key _, refl)))
  process_sessions_extend (e ∷ es) e' x xs start last m w c h =
      let step = process_session_extends e x xs start last m w c.0 in
      let rest =
        process_sessions_extend es e' x (xs ++ (stored_event e ∷ [])) start e.timestamp _
          (window_at-insert m key _) c.1 h in
      rw (← append_assoc xs (stored_event e ∷ []) (map stored_event es))
        (subst (ClosesOnce _ e') (sym (process_sessions_cons e (es ++ (e' ∷ [])) m _ _ step)) rest)

  -- A stream of events of one key, with no gap beyond the time-out, followed by one event after such
  -- a gap, emits exactly one result where the key had no window: it runs from the first event to the
  -- last one before the gap and counts them all. The window of the key then holds the last event only.
  pub process_sessions_lem :
      (e : Event Double) (es : List (Event Double)) (e' : Event Double) (m : SpecWindows Double)
      → find key m ≡ none
      → IsClose e.timestamp es
      → spec.gap_timeout_ms < to_milliseconds (e'.timestamp - last_time e.timestamp es)
      → ClosesOnce
          (record {
            start = pos e.timestamp;
            end = last_time e.timestamp es;
            events = map stored_event (e ∷ es);
            group_key = key;
          })
          e'
          (process_sessions (e ∷ (es ++ (e' ∷ []))) m)
  process_sessions_lem e es e' m fresh c h =
      subst (ClosesOnce _ e')
        (sym (process_sessions_cons e (es ++ (e' ∷ [])) m _ _ (process_session_opens e m fresh)))
        (process_sessions_extend es e' (stored_event e) [] (pos e.timestamp) e.timestamp _
          (window_at-insert m key _) c h)
