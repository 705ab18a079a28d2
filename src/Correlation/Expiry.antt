-- ===== src/Correlation/Expiry.antt =====
-- The time window of a rule: what `drop_expired` and `track` keep of the time stamps.
use aiguard_siem.Common.{
  ℕ, ◌+◌, ◌≤◌, ◌≡◌, refl, sym, ap, List, [], ◌∷◌, ◌++◌, if◌then◌else◌, ltb, Every, Every-mono,
  Every-snoc, arith, Bool-cases, inl, inr,
}
use aiguard_siem.Events.{Platform, Event, Timestamp, milliseconds}
use aiguard_siem.Correlation.Conditions.{CorrelationRule}
use aiguard_siem.Correlation.Engine.{CorrelationState, drop_expired, track}

-- From the oldest to the newest.
abbrev pub Ascending : List Timestamp → Type 0
Ascending [] = Unit {0}
Ascending (t ∷ ts) = Every (λ u. t ≤ u) ts × Ascending ts

-- The stamps that lie in the window, wherever they stand.
unfoldable pub keep_recent : ℕ → Timestamp → List Timestamp → List Timestamp
keep_recent window now [] = []
keep_recent window now (t ∷ ts) =
    if ltb (t + window) now then keep_recent window now ts else t ∷ keep_recent window now ts

pub Ascending-snoc :
    (ts : List Timestamp) (now : Timestamp)
    → Ascending ts
    → Every (λ t. t ≤ now) ts
    → Ascending (ts ++ (now ∷ []))
Ascending-snoc [] now a b = (tt, tt)
Ascending-snoc (t ∷ ts) now a b =
    (Every-snoc (λ u. t ≤ u) ts now a.0 b.0, Ascending-snoc ts now a.1 b.1)

-- Nothing in the window is dropped.
keep_recent_all :
    (w now : ℕ) (ts : List Timestamp) → Every (λ t. now ≤ t + w) ts → keep_recent w now ts ≡ ts
unfolding keep_recent
keep_recent_all w now [] a = refl
keep_recent_all w now (t ∷ ts) a = ground (arith, keep_recent_all w now ts a.1)

pub drop_expired_none :
    (w now : ℕ) (ts : List Timestamp) → Every (λ t. now ≤ t + w) ts → drop_expired w now ts ≡ ts
unfolding drop_expired
drop_expired_none w now [] a = refl
drop_expired_none w now (t ∷ ts) a = ground arith

-- On stamps in order, dropping from the front is the same as filtering the whole list.
drop_expired-eq-keep_recent :
    (w now : ℕ) (ts : List Timestamp) → Ascending ts → drop_expired w now ts ≡ keep_recent w now ts
unfolding drop_expired keep_recent
drop_expired-eq-keep_recent w now [] a = refl
drop_expired-eq-keep_recent w now (t ∷ ts) a = elim (Bool-cases (ltb (t + w) now)) [
  | inl old ↦ rw old (drop_expired-eq-keep_recent w now ts a.1)
  | inr new ↦
      rw new
        (ap (◌∷◌ t) (sym (keep_recent_all w now ts (Every-mono _ _ ts (λ u h. ground arith) a.0))))
]

Every-keep_recent :
    (P : Timestamp → Type 0) (w now : ℕ) (ts : List Timestamp)
    → Every P ts
    → Every (λ t. P t × (now ≤ t + w)) (keep_recent w now ts)
unfolding keep_recent
Every-keep_recent P w now [] a = tt
Every-keep_recent P w now (t ∷ ts) a = elim (Bool-cases (ltb (t + w) now)) [
  | inl old ↦ rw old (Every-keep_recent P w now ts a.1)
  | inr new ↦ rw new ((a.0, ground arith), Every-keep_recent P w now ts a.1)
]

Every-fst :
    (now w : ℕ) (P : Timestamp → Type 0) (ts : List Timestamp)
    → Every (λ t. P t × (now ≤ t + w)) ts
    → Every P ts
Every-fst now w P [] a = tt
Every-fst now w P (t ∷ ts) a = (a.0.0, Every-fst now w P ts a.1)

keep_recent-Ascending :
    (w now : ℕ) (ts : List Timestamp) → Ascending ts → Ascending (keep_recent w now ts)
unfolding keep_recent
keep_recent-Ascending w now [] a = tt
keep_recent-Ascending w now (t ∷ ts) a = elim (Bool-cases (ltb (t + w) now)) [
  | inl old ↦ rw old (keep_recent-Ascending w now ts a.1)
  | inr new ↦ rw new (
    Every-fst now w (λ u. t ≤ u) _ (Every-keep_recent (λ u. t ≤ u) w now ts a.0),
    keep_recent-Ascending w now ts a.1,
  )
]

-- The stamps of a key are in order, and none is later than `now`.
pub record InOrder (now : Timestamp) (ts : List Timestamp) : Type 0 where
  pub ascending : Ascending ts
  pub past : Every (λ t. t ≤ now) ts

pub InOrder-mono :
    {now later : Timestamp} (ts : List Timestamp) → now ≤ later → InOrder now ts → InOrder later ts
InOrder-mono ts h o = record {
  ascending = o.ascending;
  past = Every-mono _ _ ts (λ t k. omega arith) o.past;
}

module _ (pf : Platform) where
  open pf use {Double, Regex}

  -- When an event comes in order, a key keeps exactly the stamps of its rule's window, the new
  -- one included; all of them lie in the window that ends now, and they are still in order.
  pub track_window :
      (rule : CorrelationRule Regex) (e : Event Double) (s : CorrelationState Double)
      → InOrder e.timestamp s.timestamps
      → let w = milliseconds rule.time_window_ms in
        let kept = (track pf rule e s).timestamps in
        (kept ≡ keep_recent w e.timestamp (s.timestamps ++ (e.timestamp ∷ [])))
        × Every (λ t. (t ≤ e.timestamp) × (e.timestamp ≤ t + w)) kept
        × InOrder e.timestamp kept
  unfolding track
  track_window rule e s o =
      let now = e.timestamp in
      let w = milliseconds rule.time_window_ms in
      let ts : List Timestamp = s.timestamps ++ (now ∷ []) in
      let up : Ascending ts = Ascending-snoc s.timestamps now o.ascending o.past in
      let before : Every (λ t. t ≤ now) ts = Every-snoc _ s.timestamps now o.past (omega arith) in
      let inside = Every-keep_recent (λ t. t ≤ now) w now ts before in
      rw (drop_expired-eq-keep_recent w now ts up) (
        refl,
        inside,
        record {
          ascending = keep_recent-Ascending w now ts up;
          past = Every-fst now w (λ t. t ≤ now) _ inside;
        },
      )
