-- ===== src/Sstable/Scan.antt =====
-- storage/hot/src/sstable.cpp: range scans of a table.
use aiguard_siem.Common.{
  ℕ, zero, suc, ◌+◌, ◌*◌, true, false, Option, none, some, List, [], ◌∷◌, Text, text_lt,
  if◌then◌else◌, ◌==◌,
}
use aiguard_siem.Wire.{Outcome, ok, ◌>>=◌, load, le}
use aiguard_siem.Memtable.Table.{LsmEntry, lower_bound}
use aiguard_siem.Sstable.Table.{SsTable, Index, read_text}

-- The entry at a place of the file.
unfoldable pub read_entry : Text → ℕ → Outcome LsmEntry
read_entry file off = do
  k ← read_text file off
  v ← read_text file k.1
  seq ← load file v.1 8
  deleted ← load file (v.1 + 8) 1
  ts ← load file (v.1 + 9) 8
  ok (record {
    key = k.0;
    value = v.0;
    timestamp = le ts * 1000;
    sequence_number = le seq;
    deleted = if le deleted == 0 then false else true;
  })

-- The loop over the index; `room` is what the limit leaves.
unfoldable pub scan_from : Text → Text → ℕ → Index → Outcome (List LsmEntry)
scan_from file end room [] = ok []
scan_from file end zero ((k, off) ∷ m) = ok []
scan_from file end (suc room) ((k, off) ∷ m) =
    let skipped = scan_from file end (suc room) m in
    let more = scan_from file end room m in
    if text_lt k end
    then (read_entry file off >>= λ e. if e.deleted then skipped else (more >>= λ es. ok (e ∷ es)))
    else ok []

unfoldable pub range : Text → Text → ℕ → SsTable → Option Text → Outcome (List LsmEntry)
range start end limit t none = ok []
range start end limit t (some file) = scan_from file end limit (lower_bound start t.index)
