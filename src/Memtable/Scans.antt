-- ===== src/Memtable/Scans.antt =====
-- Scans: `range` and `prefix_scan` against a filter of all the entries.
use aiguard_siem.Common.{
  ℕ, zero, suc, ◌≡◌, refl, ap, ◌∙◌, Bool, true, false, not, ◌&&◌, [], ◌∷◌, map, take, Text, text_lt,
  text_lt_trans, starts_with, if◌then◌else◌, Every, Every-mono, Bool-cases, inl, inr, arith,
}
use aiguard_siem.Memtable.Table.{
  Entry, Entries, MemTable, lsm_entry, lower_bound, range_from, range, prefix_from, prefix_scan,
}
use aiguard_siem.Memtable.Order.{Above, IsSorted, starts_with_not_above, starts_with_not_below}

abbrev pub select : (Text × Entry → Bool) → Entries → Entries
select p [] = []
select p (r ∷ m) = if p r then r ∷ select p m else select p m

abbrev pub live : Text × Entry → Bool
live r = not r.1.deleted

select_none : (p : Text × Entry → Bool) (m : Entries) → Every (λ r. p r ≡ false) m → select p m ≡ []
select_none p [] a = refl
select_none p (r ∷ m) a = rw a.0 (select_none p m a.1)

abbrev NotBelow : Text → Entries → Type 0
NotBelow start m = Every (λ r. text_lt r.0 start ≡ false) m

lower_bound-IsSorted : (start : Text) (m : Entries) → IsSorted m → IsSorted (lower_bound start m)
unfolding lower_bound
lower_bound-IsSorted start [] s = tt
lower_bound-IsSorted start ((k, v) ∷ m) s = elim (Bool-cases (text_lt k start)) [
  | inl below ↦ rw below (lower_bound-IsSorted start m s.1)
  | inr stop ↦ rw stop ((s.0, s.1))
]

Above-NotBelow :
    (start k : Text) (m : Entries) → text_lt k start ≡ false → Above k m → NotBelow start m
Above-NotBelow start k m h a =
    Every-mono (λ r. text_lt k r.0 ≡ true) (λ r. text_lt r.0 start ≡ false) m
      (λ r b. ground (arith, text_lt_trans k r.0 start)) a

lower_bound-NotBelow :
    (start : Text) (m : Entries) → IsSorted m → NotBelow start (lower_bound start m)
unfolding lower_bound
lower_bound-NotBelow start [] s = tt
lower_bound-NotBelow start ((k, v) ∷ m) s = elim (Bool-cases (text_lt k start)) [
  | inl below ↦ rw below (lower_bound-NotBelow start m s.1)
  | inr stop ↦ rw stop ((stop, Above-NotBelow start k m stop s.0))
]

select-lower_bound :
    (p : Text × Entry → Bool) (start : Text) (m : Entries)
    → ((r : Text × Entry) → text_lt r.0 start ≡ true → p r ≡ false)
    → select p (lower_bound start m) ≡ select p m
unfolding lower_bound
select-lower_bound p start [] h = refl
select-lower_bound p start ((k, v) ∷ m) h = elim (Bool-cases (text_lt k start)) [
  | inl below ↦ rw (below, h (k, v) below) (select-lower_bound p start m h)
  | inr stop ↦ rw stop refl
]

abbrev pub in_range : Text → Text → Text × Entry → Bool
in_range start end r = live r && (not (text_lt r.0 start) && text_lt r.0 end)

range_from_lem :
    (start end : Text) (room : ℕ) (m : Entries)
    → IsSorted m
    → NotBelow start m
    → range_from end room m ≡ map lsm_entry (take room (select (in_range start end) m))
unfolding range_from
range_from_lem start end zero [] s b = refl
range_from_lem start end (suc room) [] s b = refl
range_from_lem start end zero ((k, v) ∷ m) s b = refl
range_from_lem start end (suc room) ((k, v) ∷ m) s b = elim (Bool-cases (text_lt k end)) [
  | inl inside ↦ elim (Bool-cases v.deleted) [
    | inl gone ↦ simp (inside, b.0, gone) (range_from_lem start end (suc room) m s.1 b.1)
    | inr here ↦
        simp (inside, b.0, here)
          (ap (◌∷◌ (lsm_entry (k, v))) (range_from_lem start end room m s.1 b.1))
  ]
  | inr stop ↦
      let rest : select (in_range start end) m ≡ [] = select_none (in_range start end) m (
        Every-mono (λ r. text_lt k r.0 ≡ true) (λ r. in_range start end r ≡ false) m
          (λ r a. ground (arith, text_lt_trans k r.0 end)) s.0) in
      rw (stop, b.0)
        (elim (Bool-cases v.deleted) [
          | inl gone ↦ simp (gone, rest) refl
          | inr here ↦ simp (here, rest) refl
        ])
]

-- On a table in order, `range` returns the entries from `start` up to, and without, `end` that are
-- not deleted, in order, as many as the limit allows.
pub range_lem :
    (start end : Text) (limit : ℕ) (t : MemTable)
    → IsSorted t.entries
    → range start end limit t ≡ map lsm_entry (take limit (select (in_range start end) t.entries))
unfolding range
range_lem start end limit t s =
    range_from_lem start end limit (lower_bound start t.entries)
      (lower_bound-IsSorted start t.entries s) (lower_bound-NotBelow start t.entries s)
    ∙ ap (λ m. map lsm_entry (take limit m))
        (select-lower_bound (in_range start end) start t.entries (λ r h. ground arith))

abbrev pub has_prefix : Text → Text × Entry → Bool
has_prefix prefix r = live r && starts_with r.0 prefix

prefix_from_lem :
    (prefix : Text) (room : ℕ) (m : Entries)
    → IsSorted m
    → NotBelow prefix m
    → prefix_from prefix room m ≡ map lsm_entry (take room (select (has_prefix prefix) m))
unfolding prefix_from
prefix_from_lem prefix zero [] s b = refl
prefix_from_lem prefix (suc room) [] s b = refl
prefix_from_lem prefix zero ((k, v) ∷ m) s b = refl
prefix_from_lem prefix (suc room) ((k, v) ∷ m) s b = elim (Bool-cases (starts_with k prefix)) [
  | inl inside ↦ elim (Bool-cases v.deleted) [
    | inl gone ↦ simp (inside, gone) (prefix_from_lem prefix (suc room) m s.1 b.1)
    | inr here ↦
        simp (inside, here) (ap (◌∷◌ (lsm_entry (k, v))) (prefix_from_lem prefix room m s.1 b.1))
  ]
  | inr stop ↦
      let rest : select (has_prefix prefix) m ≡ [] = select_none (has_prefix prefix) m (
        Every-mono (λ r. text_lt k r.0 ≡ true) (λ r. has_prefix prefix r ≡ false) m
          (λ r a. ground (arith, starts_with_not_above prefix k r.0 b.0 stop a)) s.0) in
      rw stop (elim (Bool-cases v.deleted) [
        | inl gone ↦ simp (gone, rest) refl
        | inr here ↦ simp (here, rest) refl
      ])
]

-- On a table in order, `prefix_scan` returns the entries whose key starts with the prefix and that
-- are not deleted, in order, as many as the limit allows: stopping at the first other key loses none.
pub prefix_scan_lem :
    (prefix : Text) (limit : ℕ) (t : MemTable)
    → IsSorted t.entries
    → prefix_scan prefix limit t ≡ map lsm_entry (take limit (select (has_prefix prefix) t.entries))
unfolding prefix_scan
prefix_scan_lem prefix limit t s =
    prefix_from_lem prefix limit (lower_bound prefix t.entries)
      (lower_bound-IsSorted prefix t.entries s) (lower_bound-NotBelow prefix t.entries s)
    ∙ ap (λ m. map lsm_entry (take limit m))
        (select-lower_bound (has_prefix prefix) prefix t.entries
          (λ r h. ground (arith, starts_with_not_below prefix r.0 h)))
