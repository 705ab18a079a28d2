-- ===== src/Memtable/Tests.antt =====
-- A small buffer, with entries of 56 bytes besides their key and value.
use aiguard_siem.Common.{◌≡◌, refl, List, [], ◌∷◌, map, take, codes, text_eq, text_lt, arith}
use aiguard_siem.Memtable.Table.{
  MemTable, new_table, put, remove, range, prefix_scan, lsm_entry, assign,
}
use aiguard_siem.Memtable.Scans.{select, in_range, has_prefix, range_lem, prefix_scan_lem}
use aiguard_siem.Memtable.Store.{Write, put_key, remove_key, writes, IsValid, writes-IsValid}

abbrev three_writes : List Write
three_writes =
    put_key (codes "b") (codes "2") 1 10
    ∷ put_key (codes "a") (codes "1") 2 11
    ∷ remove_key (codes "c") 3 12
    ∷ []

-- Room for three entries.
abbrev small_table : MemTable
unfolding put remove assign text_eq text_lt
small_table = writes 56 three_writes (new_table 200)

writes-IsValid_example : IsValid 200 (writes 56 three_writes (new_table 200))
writes-IsValid_example =
    writes-IsValid 56 200 three_writes (new_table 200)
      (record { sorted = tt; limit = refl; within = omega arith })

range_example :
    range (codes "a") (codes "b") 5 small_table
    ≡ map lsm_entry (take 5 (select (in_range (codes "a") (codes "b")) small_table.entries))
unfolding small_table remove
range_example =
    range_lem (codes "a") (codes "b") 5 small_table
      (writes-IsValid 56 200 three_writes (new_table 200)
        (record { sorted = tt; limit = refl; within = omega arith })).sorted

prefix_scan_example :
    prefix_scan (codes "b") 5 small_table
    ≡ map lsm_entry (take 5 (select (has_prefix (codes "b")) small_table.entries))
unfolding small_table remove
prefix_scan_example =
    prefix_scan_lem (codes "b") 5 small_table
      (writes-IsValid 56 200 three_writes (new_table 200)
        (record { sorted = tt; limit = refl; within = omega arith })).sorted
