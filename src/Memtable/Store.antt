-- ===== src/Memtable/Store.antt =====
-- The buffer as a map from keys to values, and what every sequence of writes keeps.
use aiguard_siem.Common.{
  ℕ, ◌+◌, ◌≤◌, ◌≡◌, refl, ap, ◌∙◌, true, none, some, List, [], ◌∷◌, Text, text_key, text_eq,
  if◌then◌else◌, ◌&&◌, ltb, Bool-cases, inl, inr, arith, length,
}
use aiguard_siem.Events.{Timestamp, wrap64}
use aiguard_siem.Memtable.Table.{visible, MemTable, put, get, remove, clear}
use aiguard_siem.Memtable.Order.{IsSorted, assign-IsSorted, find-assign}

-- A call that writes.
pub data Write : Type 0 where
  put_key : Text → Text → ℕ → Timestamp → Write
  remove_key : Text → ℕ → Timestamp → Write
  clear_all : Write

pub record IsValid (max_size : ℕ) (t : MemTable) : Type 0 where
  pub sorted : IsSorted t.entries
  pub limit : t.max_size ≡ max_size
  pub within : t.current_size ≤ max_size

module _ (sizeof_entry : ℕ) where
  -- A write that the buffer accepts is what later reads of its key return, and one that it refuses
  -- changes no read: reads of other keys are untouched either way.
  pub get-put :
      (key value : Text) (seq : ℕ) (now : Timestamp) (j : Text) (t : MemTable)
      → let r = put sizeof_entry key value seq now t in
        get j r.0 ≡ (if r.1 && text_eq key j then some value else get j t)
  unfolding put get
  get-put key value seq now j t =
      let fits =
        ltb t.max_size
          (wrap64 (t.current_size + wrap64 (length key + length value + sizeof_entry))) in
      elim (Bool-cases fits) [
        | inl full ↦ rw full refl
        | inr room ↦ rw room (
            ap visible (find-assign key j _ t.entries) ∙ elim (Bool-cases (text_eq key j)) [
              | inl same ↦ rw same refl
              | inr other ↦ rw other refl
            ])
      ]

  abbrev pub write : Write → MemTable → MemTable
  write (put_key key value seq now) t = (put sizeof_entry key value seq now t).0
  write (remove_key key seq now) t = (remove key seq now t).0
  write clear_all t = clear t

  abbrev pub writes : List Write → MemTable → MemTable
  writes [] t = t
  writes (x ∷ xs) t = writes xs (write x t)

  put-IsValid :
      (max_size : ℕ) (key value : Text) (seq : ℕ) (now : Timestamp) (t : MemTable)
      → IsValid max_size t
      → IsValid max_size (put sizeof_entry key value seq now t).0
  unfolding put
  put-IsValid max_size key value seq now t i =
      let total : ℕ = wrap64 (t.current_size + wrap64 (length key + length value + sizeof_entry)) in
      elim (Bool-cases (ltb t.max_size total)) [
        | inl full ↦ rw full i
        | inr room ↦
            let limit = i.limit in
            let fits : total ≤ max_size = ground arith in
            rw room (record {
              sorted = assign-IsSorted key _ t.entries i.sorted;
              limit = i.limit;
              within = fits;
            })
      ]

  write-IsValid :
      (max_size : ℕ) (x : Write) (t : MemTable) → IsValid max_size t → IsValid max_size (write x t)
  unfolding remove clear
  write-IsValid max_size (put_key key value seq now) t i =
      put-IsValid max_size key value seq now t i
  write-IsValid max_size (remove_key key seq now) t i = record {
    sorted = assign-IsSorted key _ t.entries i.sorted;
    limit = i.limit;
    within = i.within;
  }
  write-IsValid max_size clear_all t i = record {
    sorted = tt;
    limit = i.limit;
    within = omega arith;
  }

  -- After any writes to a new buffer the entries are in the strict order of their keys, and the
  -- size it accounts for is within its limit.
  pub writes-IsValid :
      (max_size : ℕ) (xs : List Write) (t : MemTable)
      → IsValid max_size t
      → IsValid max_size (writes xs t)
  writes-IsValid max_size [] t i = i
  writes-IsValid max_size (x ∷ xs) t i =
      writes-IsValid max_size xs (write x t) (write-IsValid max_size x t i)

-- A removed key reads as absent, other keys read as before, and the removal needs no room: it
-- succeeds on a full buffer and leaves the accounted size as it is.
pub get-remove :
    (key : Text) (seq : ℕ) (now : Timestamp) (j : Text) (t : MemTable)
    → let r = remove key seq now t in
      (get j r.0 ≡ (if text_eq key j then none else get j t))
      × ((r.1 ≡ true) × (r.0.current_size ≡ t.current_size))
unfolding remove get
get-remove key seq now j t = (
  ap visible (find-assign key j _ t.entries)
      ∙ elim (Bool-cases (text_eq key j)) [ inl same ↦ rw same refl | inr other ↦ rw other refl ],
  (refl, refl),
)
