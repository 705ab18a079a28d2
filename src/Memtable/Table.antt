-- ===== src/Memtable/Table.antt =====
-- storage/hot/src/memtable.cpp: the write buffer. `std::map` is a list that its keys order; the time
-- of a call is an argument, and so is the size of an `Entry` in bytes.
use aiguard_siem.Common.{
  ℕ, zero, suc, ◌+◌, Bool, true, false, none, some, Option, List, [], ◌∷◌, map, Text, length, find,
  text_key, text_eq, text_lt, starts_with, if◌then◌else◌, ltb, leb,
}
use aiguard_siem.Events.{Timestamp, wrap64}

pub record Entry : Type 0 where
  pub value : Text
  pub seq : ℕ
  pub deleted : Bool
  pub timestamp : Timestamp

pub record LsmEntry : Type 0 where
  pub key : Text
  pub value : Text
  pub timestamp : Timestamp
  pub sequence_number : ℕ
  pub deleted : Bool

abbrev pub Entries : Type 0
Entries = List (Text × Entry)

pub record MemTable : Type 0 where
  pub entries : Entries
  pub current_size : ℕ
  pub max_size : ℕ

abbrev pub new_table : ℕ → MemTable
new_table max_size = record { entries = []; current_size = 0; max_size = max_size }

module _ {V : Type 0} where
  -- `m[key] = v` of a `std::map`, at the place that the order gives it.
  unfoldable pub assign : Text → V → List (Text × V) → List (Text × V)
  assign k v [] = (k, v) ∷ []
  assign k v ((j, w) ∷ m) =
      if text_eq k j
      then (j, v) ∷ m
      else (if text_lt k j then (k, v) ∷ (j, w) ∷ m else (j, w) ∷ assign k v m)

  -- The entries from `m.lower_bound(start)` on.
  unfoldable pub lower_bound : Text → List (Text × V) → List (Text × V)
  lower_bound start [] = []
  lower_bound start ((k, v) ∷ m) = if text_lt k start then lower_bound start m else (k, v) ∷ m

unfoldable pub put : ℕ → Text → Text → ℕ → Timestamp → MemTable → MemTable × Bool
put sizeof_entry key value seq now t =
    let entry_size : ℕ = wrap64 (length key + length value + sizeof_entry) in
    let entry : Entry = record { value = value; seq = seq; deleted = false; timestamp = now } in
    let written : MemTable = record t {
      entries = assign key entry t.entries;
      current_size = wrap64 (t.current_size + entry_size);
    } in
    if ltb t.max_size (wrap64 (t.current_size + entry_size)) then (t, false) else (written, true)

abbrev pub visible : Option Entry → Option Text
visible none = none
visible (some entry) = if entry.deleted then none else some entry.value

unfoldable pub get : Text → MemTable → Option Text
get key t = visible (find key t.entries)

unfoldable pub remove : Text → ℕ → Timestamp → MemTable → MemTable × Bool
remove key seq now t =
    let entry : Entry = record { value = []; seq = seq; deleted = true; timestamp = now } in
    (record t { entries = assign key entry t.entries }, true)

unfoldable pub lsm_entry : Text × Entry → LsmEntry
lsm_entry (k, v) = record {
  key = k;
  value = v.value;
  timestamp = v.timestamp;
  sequence_number = v.seq;
  deleted = v.deleted;
}

-- The loop of `range`; `room` is what the limit leaves.
unfoldable pub range_from : Text → ℕ → Entries → List LsmEntry
range_from end room [] = []
range_from end zero ((k, v) ∷ m) = []
range_from end (suc room) ((k, v) ∷ m) =
    let skipped = range_from end (suc room) m in
    let taken = lsm_entry (k, v) ∷ range_from end room m in
    if text_lt k end then (if v.deleted then skipped else taken) else []

unfoldable pub range : Text → Text → ℕ → MemTable → List LsmEntry
range start end limit t = range_from end limit (lower_bound start t.entries)

unfoldable pub prefix_from : Text → ℕ → Entries → List LsmEntry
prefix_from prefix room [] = []
prefix_from prefix zero ((k, v) ∷ m) = []
prefix_from prefix (suc room) ((k, v) ∷ m) =
    let skipped = prefix_from prefix (suc room) m in
    let taken = lsm_entry (k, v) ∷ prefix_from prefix room m in
    if starts_with k prefix then (if v.deleted then skipped else taken) else []

unfoldable pub prefix_scan : Text → ℕ → MemTable → List LsmEntry
prefix_scan prefix limit t = prefix_from prefix limit (lower_bound prefix t.entries)

unfoldable pub get_all : MemTable → List LsmEntry
get_all t = map lsm_entry t.entries

unfoldable pub is_full : MemTable → Bool
is_full t = leb t.max_size t.current_size

unfoldable pub count : MemTable → ℕ
count t = length t.entries

unfoldable pub clear : MemTable → MemTable
clear t = record t { entries = []; current_size = 0 }
