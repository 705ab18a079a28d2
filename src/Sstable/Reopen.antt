-- ===== src/Sstable/Reopen.antt =====
-- storage/hot/src/sstable.cpp: `open` of a file, with `read_bloom_filter`.
use aiguard_siem.Common.{
  ℕ, zero, suc, ◌+◌, ◌-◌, Option, none, some, [], ◌∷◌, Text, length, not, if◌then◌else◌, ◌==◌, ltb,
  text_key,
}
use aiguard_siem.Wire.{Outcome, ok, ◌>>=◌, load, le, field}
use aiguard_siem.Memtable.Table.{assign}
use aiguard_siem.Flows.Stats.{minus64}
use aiguard_siem.Sstable.Bloom.{no_bloom}
use aiguard_siem.Sstable.Table.{SsTable, Index, read_text}

unfoldable pub read_index : Text → ℕ → ℕ → Index → Outcome Index
read_index file off zero index = ok index
read_index file off (suc n) index = do
  k ← read_text file off
  offset ← load file k.1 8
  read_index file (k.1 + 8) n (assign k.0 (le offset) index)

abbrev pub first_of : Index → Text
first_of [] = []
first_of ((k, off) ∷ m) = k

abbrev pub last_of : Text → Index → Text
last_of j [] = j
last_of j ((k, off) ∷ m) = last_of k m

abbrev pub new_table : SsTable
new_table = record {
  index = [];
  bloom = no_bloom;
  file_size = 0;
  smallest_key = [];
  largest_key = [];
}

-- The filter is looked for before `index_offset`, and the index at it.
unfoldable pub read_bloom_filter : ℕ → Text → Outcome SsTable
read_bloom_filter magic file = do
  footer ← load file (length file - 40) 40
  let bloom_bits = le (field footer 0 8)
  let bloom_size = le (field footer 8 8)
  let index_offset = le (field footer 16 8)
  let index_count = le (field footer 24 8)
  if not (le (field footer 32 8) == magic) then ok new_table else (do
    filter ← load file (minus64 index_offset bloom_size) bloom_size
    index ← read_index file index_offset index_count []
    ok (record new_table {
      index = index;
      bloom = record { filter = filter; bits = bloom_bits };
      smallest_key = first_of index;
      largest_key = last_of [] index;
    }))

unfoldable pub open_table : ℕ → Option Text → Outcome (Option SsTable)
open_table magic none = ok none
open_table magic (some file) = do
  t ← (if ltb (length file) 40 then ok new_table else read_bloom_filter magic file)
  ok (some (record t { file_size = length file }))
