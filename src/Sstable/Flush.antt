-- ===== src/Sstable/Flush.antt =====
-- storage/hot: a write buffer that goes to disk, memtable.cpp's `get_all` into sstable.cpp's `create`.
use aiguard_siem.Common.{
  ℕ, ◌<◌, ◌^◌, ◌≡◌, refl, ap, ◌∙◌, Bool, false, Option, none, some, [], ◌∷◌, Text, length, map,
  find, text_key, text_eq, text_eq_iff, text_lt_irrefl, Every, Bool-cases, inl, inr, arith,
}
use mathlib.Core.Path.{subst}
use aiguard_siem.Wire.{ok, Gives, Gives-mono}
use aiguard_siem.Memtable.Table.{LsmEntry, Entry, Entries, MemTable, lsm_entry, get_all, visible}
use aiguard_siem.Memtable.Table
use aiguard_siem.Memtable.Order.{Above, IsSorted}
use aiguard_siem.Sstable.Table.{write_blocks, create, get}
use aiguard_siem.Sstable.Reading.{FitsEntry}
use aiguard_siem.Sstable.Lookup.{latest, latest_or, answer, get-create}

latest-Above : (key : Text) (m : Entries) → Above key m → latest key (map lsm_entry m) ≡ none
unfolding latest lsm_entry
latest-Above key [] a = refl
latest-Above key ((k, v) ∷ m) a =
    let above = a.0 in
    let other : text_eq k key ≡ false = ground (arith, text_eq_iff k key, text_lt_irrefl key) in
    rw (latest-Above key m a.1, other) refl

latest_or_other :
    (e : LsmEntry) (key : Text) (o : Option LsmEntry)
    → text_eq e.key key ≡ false
    → latest_or e key o ≡ o
latest_or_other e key none h = rw h refl
latest_or_other e key (some d) h = refl

-- In an ordered buffer the last entry with a key is the only one.
answer-latest :
    (key : Text) (m : Entries)
    → IsSorted m
    → answer (latest key (map lsm_entry m)) ≡ visible (find key m)
unfolding latest lsm_entry find
answer-latest key [] s = refl
answer-latest key ((k, v) ∷ m) s = elim (Bool-cases (text_eq k key)) [
  | inl same ↦
      let above : Above key m = subst (λ j. Above j m) ((text_eq_iff k key).0 same) s.0 in
      rw (latest-Above key m above, same) refl
  | inr other ↦
      rw (latest_or_other (lsm_entry (k, v)) key (latest key (map lsm_entry m)) other, other)
        (answer-latest key m s.1)
]

-- A write buffer whose entries are in order and fit the format reads the same from disk: the table
-- that `create` makes of all its entries answers for every key what the buffer answers.
pub get-create-get_all :
    (magic : ℕ) (enable : Bool) (t : MemTable) (key : Text)
    → IsSorted t.entries
    → Every FitsEntry (get_all t)
    → length (write_blocks 0 [] (get_all t)).bytes < 2 ^ 64
    → Gives (λ r. get key r.0 (some r.1) ≡ ok (Table.get key t)) (create magic enable (get_all t))
unfolding Table.get get_all
get-create-get_all magic enable t key s fits size =
    Gives-mono _ _ (create magic enable (get_all t))
      (get-create magic enable (get_all t) key fits size)
      (λ r h. h ∙ ap ok (answer-latest key t.entries s))
