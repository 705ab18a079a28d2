-- ===== src/Sstable/Tests.antt =====
-- Tables of a few entries.
use aiguard_siem.Common.{
  ℕ, ◌≡◌, refl, Bool, true, false, Option, none, some, List, [], ◌∷◌, Text, codes, length, text_eq,
  text_lt, Every, arith, ◌<◌, ◌^◌,
}
use aiguard_siem.Wire.{Outcome, ok, fault, Gives, load, le, ◌>>=◌}
use aiguard_siem.Memtable.Table.{
  LsmEntry, MemTable, new_table, get_all, lsm_entry, assign, lower_bound,
}
use aiguard_siem.Memtable.Table
use aiguard_siem.Memtable.Order.{IsSorted}
use aiguard_siem.Sstable.Bloom.{
  bloom_hash, mix_bytes, mix_byte, finish_hash, write_bloom_filter, add_keys, set_bit, set_byte,
  no_bloom,
}
use aiguard_siem.Sstable.Positives.{IsSound, write_bloom_filter-IsSound}
use aiguard_siem.Sstable.Table.{
  SsTable, Index, create, get, write_blocks, encode_entry, encode_text, encode_index, encode_footer,
  le_bytes, read_text,
}
use aiguard_siem.Sstable.Reading.{FitsEntry}
use aiguard_siem.Sstable.Lookup.{latest, answer, get-create}
use aiguard_siem.Sstable.Flush.{get-create-get_all}
use aiguard_siem.Sstable.Scan.{range, scan_from, read_entry}
use aiguard_siem.Sstable.Reopen.{open_table, read_bloom_filter, read_index}
use aiguard_siem.Sstable.Durable.{Serves, open_table-create}

abbrev entry : Text → Text → Bool → LsmEntry
entry key value deleted = record {
  key = key;
  value = value;
  timestamp = 5000;
  sequence_number = 7;
  deleted = deleted;
}

abbrev entries : List LsmEntry
entries =
    entry (codes "a") (codes "1") false
    ∷ entry (codes "b") (codes "2") true
    ∷ entry (codes "c") (codes "3") false
    ∷ []

abbrev magic : ℕ
magic = 0xA15157

abbrev index_of : Option SsTable → Index
index_of none = []
index_of (some t) = t.index

abbrev reopened : Bool → Outcome Index
reopened enable = do
  r ← create magic enable entries
  t ← open_table magic (some r.1)
  ok (index_of t)

-- As MurmurHash3 of one byte at a time gives it.
hash_of_hello : bloom_hash (codes "hello") 0 ≡ 449616461
unfolding bloom_hash mix_bytes mix_byte finish_hash
hash_of_hello = refl

-- Without a filter the index comes back; with one, the bytes of the filter are read as the index.
reopened_without_filter :
    reopened false ≡ ok ((codes "a", 0) ∷ (codes "b", 27) ∷ (codes "c", 54) ∷ [])
unfolding create open_table read_bloom_filter read_index read_text write_blocks encode_entry
    encode_text encode_index encode_footer le_bytes load le assign text_eq text_lt
    write_bloom_filter add_keys set_bit set_byte bloom_hash mix_bytes mix_byte finish_hash
reopened_without_filter = refl

reopened_with_filter : reopened true ≡ fault
unfolding create open_table read_bloom_filter read_index read_text write_blocks encode_entry
    encode_text encode_index encode_footer le_bytes load le assign text_eq text_lt
    write_bloom_filter add_keys set_bit set_byte bloom_hash mix_bytes mix_byte finish_hash
reopened_with_filter = refl

ranged :
    (create magic true entries >>= λ r. range (codes "b") (codes "d") 5 r.0 (some r.1))
    ≡ ok (entry (codes "c") (codes "3") false ∷ [])
unfolding create open_table read_bloom_filter read_index read_text write_blocks encode_entry
    encode_text encode_index encode_footer le_bytes load le assign text_eq text_lt
    write_bloom_filter add_keys set_bit set_byte bloom_hash mix_bytes mix_byte finish_hash scan_from
    read_entry range lower_bound
ranged = refl

write_bloom_filter-IsSound_example :
    Gives
      (IsSound (codes "a" ∷ codes "b" ∷ []))
      (write_bloom_filter (codes "a" ∷ codes "b" ∷ []) no_bloom)
write_bloom_filter-IsSound_example =
    write_bloom_filter-IsSound (codes "a" ∷ codes "b" ∷ []) (omega arith)

entries_fit : Every FitsEntry entries
entries_fit = (omega arith, (omega arith, (omega arith, tt)))

blocks_fit : length (write_blocks 0 [] entries).bytes < 2 ^ 64
unfolding write_blocks encode_entry encode_text le_bytes
blocks_fit = omega arith

get-create_example :
    Gives
      (λ r. get (codes "c") r.0 (some r.1) ≡ ok (answer (latest (codes "c") entries)))
      (create magic true entries)
get-create_example = get-create magic true entries (codes "c") entries_fit blocks_fit

open_table-create_example :
    Gives
      (λ r. Gives (Serves r.1 entries) (open_table magic (some r.1)))
      (create magic false entries)
open_table-create_example = open_table-create magic entries (omega arith) entries_fit blocks_fit

-- A removal and a value.
abbrev buffer : MemTable
buffer =
    let blank = new_table 200 in
    record blank {
      entries =
          (codes "a", record { value = codes "1"; seq = 1; deleted = false; timestamp = 10 })
          ∷ (codes "b", record { value = []; seq = 2; deleted = true; timestamp = 11 })
          ∷ [];
    }

buffer_fits : Every FitsEntry (get_all buffer)
unfolding get_all lsm_entry
buffer_fits = (omega arith, (omega arith, tt))

buffer_blocks_fit : length (write_blocks 0 [] (get_all buffer)).bytes < 2 ^ 64
unfolding write_blocks encode_entry encode_text le_bytes get_all lsm_entry
buffer_blocks_fit = omega arith

buffer-IsSorted : IsSorted buffer.entries
unfolding text_lt
buffer-IsSorted = ((refl, tt), (tt, tt))

get-create-get_all_example :
    Gives
      (λ r. get (codes "b") r.0 (some r.1) ≡ ok (Table.get (codes "b") buffer))
      (create magic true (get_all buffer))
get-create-get_all_example =
    get-create-get_all magic true buffer (codes "b") buffer-IsSorted buffer_fits buffer_blocks_fit
