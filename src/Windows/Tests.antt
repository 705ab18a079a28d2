-- ===== src/Windows/Tests.antt =====
-- The window manager on the events of one host.
use aiguard_siem.Common.{
  ℕ, ◌+◌, ◌*◌, ◌≡◌, refl, true, [], ◌∷◌, map, codes, length, arith, suc, text_eq, find,
}
use native.Mathlib.Nat.{zero-div}
use aiguard_siem.Common.Int.{pos}
use aiguard_siem.Platforms.{whole_numbers}
use aiguard_siem.Events.{Event, empty_event, milliseconds}
use aiguard_siem.Windows.Aggregation.{stored_event, aggregate, aggregate_stored}
use aiguard_siem.Windows.Manager.{
  WindowSpec, WindowType, tumbling, session, hopping, EventWindowManager, expire_windows,
  active_window_count, window_at, process_hopping,
}
use aiguard_siem.Windows.Session.{process_sessions, ClosesOnce, process_sessions_lem}
use aiguard_siem.Windows.Hopping.{hop_key, process_hopping-events}
use aiguard_siem.Windows.Tumbling.{process_tumblings, process_tumblings-events}
use aiguard_siem.Windows.Expiry.{left, reported, expire_windows_lem}

abbrev at_ms : ℕ → Event ℕ
unfolding empty_event
at_ms t =
    let blank : Event ℕ = empty_event in
    record blank { timestamp = t * 1_000_000; host_name = codes "web1"; network_bytes_in = pos 700 }

-- A window of 10 ms that moves by 5 ms, or ends after a gap of 20 ms.
abbrev small : WindowType → WindowSpec ℕ
small type = record {
  id = codes "w";
  type = type;
  window_size_ms = 10;
  slide_size_ms = 5;
  gap_timeout_ms = 20;
  group_by_field = codes "host.name";
  aggregation_function = codes "count";
  aggregation_field = [];
  threshold = 2;
  alert_rule_id = [];
}

aggregate_stored_example :
    aggregate whole_numbers
      (map stored_event (at_ms 1 ∷ at_ms 2 ∷ []))
      (codes "sum")
      (codes "network.bytes")
    ≡ 0
unfolding text_eq
aggregate_stored_example =
    aggregate_stored whole_numbers refl (λ n. zero-div (suc n)) (at_ms 1 ∷ at_ms 2 ∷ [])
      (codes "sum") (codes "network.bytes")

process_sessions_example :
    ClosesOnce whole_numbers
      (small session)
      (codes "web1")
      (record {
        start = pos (milliseconds 100);
        end = milliseconds 130;
        events = map stored_event (at_ms 100 ∷ at_ms 115 ∷ at_ms 130 ∷ []);
        group_key = codes "web1";
      })
      (at_ms 160)
      (process_sessions whole_numbers
        (small session)
        (codes "web1")
        (at_ms 100 ∷ at_ms 115 ∷ at_ms 130 ∷ at_ms 160 ∷ [])
        [])
unfolding find at_ms
process_sessions_example =
    process_sessions_lem whole_numbers (small session) (codes "web1") (at_ms 100)
      (at_ms 115 ∷ at_ms 130 ∷ []) (at_ms 160) [] refl (omega arith) (omega arith)

process_tumblings-events_example :
    (window_at
      (process_tumblings whole_numbers
        (small tumbling)
        (codes "web1")
        (at_ms 3 ∷ at_ms 12 ∷ at_ms 25 ∷ [])
        []).0
      (codes "web1")).events
    ≡ stored_event (at_ms 3) ∷ stored_event (at_ms 12) ∷ stored_event (at_ms 25) ∷ []
unfolding find
process_tumblings-events_example =
    process_tumblings-events whole_numbers (small tumbling) (codes "web1")
      (at_ms 3 ∷ at_ms 12 ∷ at_ms 25 ∷ []) []

process_hopping-events_example :
    (window_at
      (process_hopping whole_numbers (small hopping) (at_ms 17) (codes "web1") []).0
      (hop_key (codes "web1") 2)).events
    ≡ stored_event (at_ms 17) ∷ []
unfolding find at_ms
process_hopping-events_example =
    process_hopping-events whole_numbers (small hopping) (at_ms 17) (codes "web1") 2 []
      (omega arith) (omega arith)

abbrev manager : EventWindowManager whole_numbers
manager = record {
  specs = small session ∷ [];
  windows =
      (
        codes "w",
        (
          codes "web1",
          record { start = pos 5; end = 8; events = at_ms 0 ∷ []; group_key = codes "web1" },
        )
            ∷ (
              codes "web2",
              record { start = pos 6; end = 30; events = at_ms 0 ∷ []; group_key = codes "web2" },
            )
            ∷ [],
      )
      ∷ [];
  has_callback = true;
}

expire_windows_example :
    let (c', results) = expire_windows whole_numbers 20 manager in
    (c' ≡ record manager { windows = left whole_numbers manager.specs 20 manager.windows })
    × (results ≡ reported whole_numbers manager.specs 20 manager.windows)
    × (length results + active_window_count whole_numbers c'
        ≡ active_window_count whole_numbers manager)
expire_windows_example = expire_windows_lem whole_numbers manager 20

-- One window has ended, the other is open.
one_reported : length (reported whole_numbers manager.specs 20 manager.windows) ≡ 1
unfolding text_eq
one_reported = refl
