-- ===== src/Windows/Hopping.antt =====
-- Hopping windows: an event joins the windows whose span it lies in, and no others.
use aiguard_siem.Common.{
  ℕ, zero, suc, ◌+◌, ◌-◌, ◌*◌, ◌/◌, ◌≤◌, ◌<◌, ◌≡◌, refl, sym, ap, ◌∙◌, ◌∷◌, [], List, Text, codes,
  length, Bool-cases, is_empty, inl, inr, ◌++◌, Bool, true, false, ◌&&◌, ◌||◌, ltb, leb, ◌==◌,
  arith, if◌then◌else◌, decimal, insert, find-insert, text_eq, text_eq→eq, text_eq_refl, text_key,
  drop, drop-length-append, scan_digits, leb→le, scan_digits-decimal,
}
use native.Mathlib.Nat.{le-div_iff_mul-le, zero-div, suc-mul}
use aiguard_siem.Common.Int.{ℤ, pos}
use aiguard_siem.Events.{Platform, Event, milliseconds}
use aiguard_siem.Windows.Aggregation.{stored_event}
use aiguard_siem.Windows.Manager.{
  WindowSpec, WindowState, SpecWindows, process_hopping, hop, hop_before_epoch, join_window,
  window_at, to_milliseconds, append_event,
}

decimal-injective : (m n : ℕ) → decimal m ≡ decimal n → m ≡ n
unfolding scan_digits
decimal-injective m n h =
    sym (ap (λ p. p.0) (scan_digits-decimal m []))
    ∙ (ap (λ s. (scan_digits 0 (s ++ [])).0) h ∙ ap (λ p. p.0) (scan_digits-decimal n []))

-- The key of the window with index `w`.
abbrev pub hop_key : Text → ℕ → Text
hop_key key w = key ++ codes "_" ++ decimal w

text_eq-hop_key : (key : Text) (v w : ℕ) → text_eq (hop_key key v) (hop_key key w) ≡ (v == w)
text_eq-hop_key key v w = elim (Bool-cases (text_eq (hop_key key v) (hop_key key w))) [
  | inl same ↦
      let e = text_eq→eq (hop_key key v) (hop_key key w) same in
      let d : decimal v ≡ decimal w =
        sym (drop-length-append (key ++ codes "_") (decimal v))
        ∙ (ap (drop (length (key ++ codes "_"))) e
            ∙ drop-length-append (key ++ codes "_") (decimal w)) in
      let i : v ≡ w = decimal-injective v w d in same ∙ ground (arith, i)
  | inr other ↦ elim (Bool-cases (v == w)) [
    | inl same ↦
        let i : v ≡ w = ground arith in
        let r : text_eq (hop_key key v) (hop_key key w) ≡ true =
          ap (λ x. text_eq (hop_key key v) (hop_key key x)) (sym i)
          ∙ text_eq_refl (hop_key key v) in
        ground (arith, r, other)
    | inr differ ↦ other ∙ sym differ
  ]
]

module _ (pf : Platform) (spec : WindowSpec pf.Double) (e : Event pf.Double) (key : Text) where
  open pf use {Double}

  -- `w` is the index of a window that spans the event.
  abbrev pub covers : ℕ → Bool
  covers w =
      let ms : ℕ = to_milliseconds e.timestamp in
      leb (w * spec.slide_size_ms) ms && ltb ms (w * spec.slide_size_ms + spec.window_size_ms)

  abbrev events_at : SpecWindows Double → ℕ → List (Event Double)
  events_at m w = (window_at m (hop_key key w)).events

  window_at-insert_key :
      (m : SpecWindows Double) (kw kv : Text) (win : WindowState Double)
      → window_at (insert kw win m) kv ≡ (if text_eq kw kv then win else window_at m kv)
  window_at-insert_key m kw kv win = elim (Bool-cases (text_eq kw kv)) [
    | inl same ↦ rw (find-insert kw kv win m, same) refl
    | inr other ↦ rw (find-insert kw kv win m, other) refl
  ]

  joined :
      (b : Bool) (win opened : WindowState Double)
      → win.events ≡ opened.events
      → (append_event pf e (if b then opened else win)).events ≡ win.events ++ (stored_event e ∷ [])
  unfolding append_event
  joined true win opened h = rw h refl
  joined false win opened h = refl

  join_window-events :
      (w v : ℕ) (start : ℤ) (end : ℕ) (m : SpecWindows Double)
      → events_at (join_window pf e key (hop_key key w) start end m) v
        ≡ (if w == v then events_at m v ++ (stored_event e ∷ []) else events_at m v)
  unfolding join_window
  join_window-events w v start end m =
      let old : WindowState Double = window_at m (hop_key key w) in
      let opened : WindowState Double = record old { start = start; end = end; group_key = key } in
      let win : WindowState Double =
        append_event pf e (if is_empty old.events then opened else old) in
      let found : (window_at (insert (hop_key key w) win m) (hop_key key v)).events
          ≡ (if text_eq (hop_key key w) (hop_key key v)
              then win
              else window_at m (hop_key key v)).events =
        ap (λ x. x.events) (window_at-insert_key m (hop_key key w) (hop_key key v) win) in
      found ∙ elim (Bool-cases (w == v)) [
        | inl same ↦
            let i : w ≡ v = ground arith in
            rw (text_eq-hop_key key w v, same)
              (joined (is_empty old.events) old opened refl
                ∙ ap (λ k. events_at m k ++ (stored_event e ∷ [])) i)
        | inr other ↦ rw (text_eq-hop_key key w v, other) refl
      ]

  -- The index of a window is among the `count` that follow `w`, and the window spans the event.
  abbrev reaches : ℕ → ℕ → ℕ → Bool
  reaches count w v = leb w v && (ltb v (w + count) && covers v)

  reaches-suc_ne :
      (count w v : ℕ) → (w == v) ≡ false → reaches count (suc w) v ≡ reaches (suc count) w v
  reaches-suc_ne count w v h =
      let low : leb (suc w) v ≡ leb w v = ground arith in
      let high : ltb v (suc w + count) ≡ ltb v (w + suc count) = ground arith in rw (low, high) refl

  reaches_self : (count w v : ℕ) → w ≡ v → reaches (suc count) w v ≡ covers w
  reaches_self count w v i =
      let low : leb w v ≡ true = ground arith in
      let high : ltb v (w + suc count) ≡ true = ground arith in rw (low, high) (ap covers (sym i))

  reaches_past : (count w v : ℕ) → w ≡ v → reaches count (suc w) v ≡ false
  reaches_past count w v i = let low : leb (suc w) v ≡ false = ground arith in rw low refl

  abbrev with_event : Bool → List (Event Double) → List (Event Double)
  with_event b es = if b then es ++ (stored_event e ∷ []) else es

  -- The loop from `w` on adds the event to the windows that span it.
  hop-events :
      (count w v : ℕ) (m : SpecWindows Double)
      → events_at (hop pf spec e key count w m) v ≡ with_event (reaches count w v) (events_at m v)
  unfolding hop
  hop-events zero w v m = elim (Bool-cases (leb w v)) [
    | inl low ↦ let high : ltb v (w + 0) ≡ false = ground arith in rw (low, high) refl
    | inr low ↦ rw low refl
  ]
  hop-events (suc count) w v m =
      let ms : ℕ = to_milliseconds e.timestamp in
      let start : ℕ = w * spec.slide_size_ms in
      let end : ℕ = start + spec.window_size_ms in
      let next : SpecWindows Double =
        if ltb ms start || leb end ms
        then m
        else join_window pf e key (hop_key key w) (pos (milliseconds start)) (milliseconds end) m in
      hop-events count (suc w) v next ∙ elim (Bool-cases (ltb ms start || leb end ms)) [
        | inl outside ↦
            let misses : covers w ≡ false = ground arith in
            rw outside (elim (Bool-cases (w == v)) [
              | inl same ↦
                  let i : w ≡ v = ground arith in
                  ap (λ b. with_event b (events_at m v))
                    (reaches_past count w v i ∙ sym (reaches_self count w v i ∙ misses))
              | inr other ↦ ap (λ b. with_event b (events_at m v)) (reaches-suc_ne count w v other)
            ])
        | inr inside ↦
            let hits : covers w ≡ true = ground arith in
            rw inside (
              ap (with_event (reaches count (suc w) v))
                (join_window-events w v (pos (milliseconds start)) (milliseconds end) m)
              ∙ elim (Bool-cases (w == v)) [
                | inl same ↦
                    let i : w ≡ v = ground arith in
                    rw same (
                      ap (λ b. with_event b (with_event true (events_at m v)))
                        (reaches_past count w v i)
                      ∙ ap (λ b. with_event b (events_at m v))
                          (sym (reaches_self count w v i ∙ hits)))
                | inr other ↦
                    rw other
                      (ap (λ b. with_event b (events_at m v)) (reaches-suc_ne count w v other))
              ])
      ]

  -- The indices that the loop runs through are enough.
  reaches-covers :
      (v : ℕ)
      → 0 < spec.slide_size_ms
      → spec.window_size_ms ≤ to_milliseconds e.timestamp
      → let first = (to_milliseconds e.timestamp - spec.window_size_ms) / spec.slide_size_ms in
        reaches (suc (to_milliseconds e.timestamp / spec.slide_size_ms) - first) first v ≡ covers v
  reaches-covers v slide late =
      let ms : ℕ = to_milliseconds e.timestamp in
      let first : ℕ = (ms - spec.window_size_ms) / spec.slide_size_ms in
      let last : ℕ = ms / spec.slide_size_ms in
      elim (Bool-cases (covers v)) [
        | inr misses ↦ rw misses (ground arith)
        | inl hits ↦
            let started : v * spec.slide_size_ms ≤ ms = ground arith in
            let running : ms < v * spec.slide_size_ms + spec.window_size_ms = ground arith in
            let upto : v ≤ last = (le-div_iff_mul-le slide).1 started in
            let product : suc v * spec.slide_size_ms ≡ v * spec.slide_size_ms + spec.slide_size_ms =
              suc-mul v spec.slide_size_ms in
            let from : first ≤ v = elim (Bool-cases (leb first v)) [
              | inl t ↦ leb→le first v t
              | inr t ↦
                  let past : suc v ≤ first = ground arith in
                  let span = (le-div_iff_mul-le slide).0 past in
                  absurd (omega (arith, span, product))
            ] in
            let low : leb first v ≡ true = ground arith in
            let high : ltb v (first + (suc last - first)) ≡ true = ground arith in
            rw (low, high) refl
      ]

  -- Where the slide is positive and the event is at least a window size after
  -- the epoch, the event is added to the window with index `v` of its key exactly when it lies in
  -- that window's span, from `v` slides on for the window size: no such window is left out.
  pub process_hopping-events :
      (v : ℕ) (m : SpecWindows Double)
      → 0 < spec.slide_size_ms
      → spec.window_size_ms ≤ to_milliseconds e.timestamp
      → (window_at (process_hopping pf spec e key m).0 (hop_key key v)).events ≡ (
          if covers v
          then (window_at m (hop_key key v)).events ++ (stored_event e ∷ [])
          else (window_at m (hop_key key v)).events)
  unfolding process_hopping
  process_hopping-events v m slide late =
      let ms : ℕ = to_milliseconds e.timestamp in
      let none_before : (spec.window_size_ms - ms) / spec.slide_size_ms ≡ 0 =
        let small : spec.window_size_ms - ms ≡ 0 = omega arith in
        rw small (zero-div spec.slide_size_ms) in
      let first : ℕ = (ms - spec.window_size_ms) / spec.slide_size_ms in
      rw none_before (
        hop-events (suc (ms / spec.slide_size_ms) - first) first v
          (hop_before_epoch pf spec e key 0 m)
        ∙ (rw (reaches-covers v slide late) (unfold hop_before_epoch in refl)))
