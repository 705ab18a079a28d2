-- ===== src/Sstable/Indexes.antt =====
-- The index of a table, written and read back.
use aiguard_siem.Common.{
  ℕ, ◌+◌, ◌^◌, ◌<◌, ◌≤◌, ◌≡◌, refl, sym, ap, ◌∙◌, true, false, List, [], ◌∷◌, ◌++◌, Text, length,
  length-append, arith, text_eq, text_eq→eq, text_eq_iff, text_lt, text_lt_irrefl, text_lt_trans,
  Every, Every-mono, Every-snoc, Bool-cases, inl, inr,
}
use mathlib.Core.Path.{subst}
use mathlib.Core.List.{append_assoc, append-nil}
use aiguard_siem.Events.{wrap64}
use aiguard_siem.Wire.{ok}
use aiguard_siem.Memtable.Table.{LsmEntry, assign}
use aiguard_siem.Memtable.Order.{Above, IsSorted, assign-IsSorted}
use aiguard_siem.Sstable.Table.{
  Index, write_blocks, encode_index, encode_text, le_bytes, entry_size, encode_entry,
}
use aiguard_siem.Sstable.Reading.{
  At, At-split, Fits, FitsEntry, length-le_bytes, le-le_bytes, length-encode_text,
  length-encode_entry, load-At, read_text-At,
}
use aiguard_siem.Sstable.Reopen.{read_index}

Every-assign :
    {V : Type 0} (P : Text × V → Type 0) (k : Text) (v : V) (m : List (Text × V))
    → P (k, v)
    → Every P m
    → Every P (assign k v m)
unfolding assign
Every-assign P k v [] h a = (h, tt)
Every-assign P k v ((j, w) ∷ m) h a = elim (Bool-cases (text_eq k j)) [
  | inl same ↦ rw same ((subst (λ i. P (i, v)) (text_eq→eq k j same) h, a.1))
  | inr other ↦ elim (Bool-cases (text_lt k j)) [
    | inl before ↦ rw (other, before) ((h, (a.0, a.1)))
    | inr after ↦ rw (other, after) ((a.0, Every-assign P k v m h a.1))
  ]
]

length-assign :
    {V : Type 0} (k : Text) (v : V) (m : List (Text × V)) → length (assign k v m) ≤ length m + 1
unfolding assign
length-assign k v [] = omega arith
length-assign k v ((j, w) ∷ m) = ground (arith, length-assign k v m)

-- A key and a place that fit the format.
abbrev pub FitsIndex : Text × ℕ → Type 0
FitsIndex r = Fits r.0 × (r.1 < 2 ^ 64)

-- What the blocks make of the index: it stays in order and fits, and has no more keys than entries.
pub record IsIndex (off : ℕ) (index : Index) (es : List LsmEntry) : Type 0 where
  pub sorted : IsSorted (write_blocks off index es).index
  pub fits : Every FitsIndex (write_blocks off index es).index
  pub size : length (write_blocks off index es).index ≤ length index + length es
  pub offset :
      (write_blocks off index es).current_offset ≡ off + length (write_blocks off index es).bytes

pub write_blocks-IsIndex :
    (off : ℕ) (index : Index) (es : List LsmEntry)
    → IsSorted index
    → Every FitsIndex index
    → Every FitsEntry es
    → off + length (write_blocks off index es).bytes < 2 ^ 64
    → IsIndex off index es
unfolding write_blocks
write_blocks-IsIndex off index [] s i f h = record {
  sorted = s;
  fits = i;
  size = omega arith;
  offset = omega arith;
}
write_blocks-IsIndex off index (e ∷ es) s i f h =
    let fits = f.0 in
    let size = length-encode_entry e fits in
    let more = write_blocks (wrap64 (off + entry_size e)) (assign e.key off index) es in
    let long = length-append (encode_entry e) more.bytes in
    let next : wrap64 (off + entry_size e) ≡ off + entry_size e = omega (arith, h, size, long) in
    let ih =
      write_blocks-IsIndex (wrap64 (off + entry_size e)) (assign e.key off index) es
        (assign-IsSorted e.key off index s)
        (Every-assign FitsIndex e.key off index ((omega (arith, fits), omega (arith, h))) i) f.1
        (omega (arith, h, size, long, next)) in
    record {
      sorted = ih.sorted;
      fits = ih.fits;
      size = omega (arith, ih.size, length-assign e.key off index);
      offset = omega (arith, ih.offset, next, size, long);
    }

abbrev assigns : Index → Index → Index
assigns [] acc = acc
assigns ((k, off) ∷ m) acc = assigns m (assign k off acc)

read_index-encode_index :
    (file : Text) (off : ℕ) (m acc : Index) (tail : Text)
    → Every FitsIndex m
    → 0 < length tail
    → At file off (encode_index m) tail
    → read_index file off (length m) acc ≡ ok (assigns m acc)
unfolding read_index encode_index
read_index-encode_index file off [] acc tail f pos at = refl
read_index-encode_index file off ((k, o) ∷ m) acc tail f pos at =
    let rest : Text = le_bytes 8 o ++ encode_index m in
    let size = length-le_bytes 8 o in
    let at_key =
      At-split file off (4 + length k) (encode_text k) rest tail (length-encode_text k f.0.0) at in
    let at_place =
      At-split file (off + (4 + length k)) 8 (le_bytes 8 o) (encode_index m) tail size at_key.1 in
    let read_key =
      read_text-At file off k (rest ++ tail) f.0.0 (omega (arith, length-append rest tail, pos))
        at_key.0 in
    let read_place =
      load-At file (off + (4 + length k)) 8 (le_bytes 8 o) (encode_index m ++ tail) at_place.0
        (sym size) (omega (arith, size)) in
    rw (read_key, read_place, le-le_bytes 8 o (omega (arith, f.0.1)))
      (read_index-encode_index file (off + (4 + length k) + 8) m (assign k o acc) tail f.1 pos
        at_place.1)

assign-last :
    (k : Text) (o : ℕ) (acc : Index)
    → Every (λ r. text_lt r.0 k ≡ true) acc
    → assign k o acc ≡ acc ++ ((k, o) ∷ [])
unfolding assign
assign-last k o [] a = refl
assign-last k o ((j, p) ∷ acc) a =
    let below = a.0 in
    let other : text_eq k j ≡ false = ground (arith, text_eq_iff k j, text_lt_irrefl k) in
    let after : text_lt k j ≡ false = ground (arith, text_lt_trans k j k, text_lt_irrefl k) in
    rw (other, after) (ap (◌∷◌ (j, p)) (assign-last k o acc a.1))

assigns-sorted :
    (m acc : Index) → IsSorted m → Every (λ r. Above r.0 m) acc → assigns m acc ≡ acc ++ m
assigns-sorted [] acc s a = sym (append-nil acc)
assigns-sorted ((k, o) ∷ m) acc s a =
    let last =
      assign-last k o acc
        (Every-mono (λ r. Above r.0 ((k, o) ∷ m)) (λ r. text_lt r.0 k ≡ true) acc (λ r h. h.0) a) in
    ap (assigns m) last
    ∙ (assigns-sorted m (acc ++ ((k, o) ∷ [])) s.1 (
          Every-snoc (λ r. Above r.0 m) acc (k, o)
            (Every-mono (λ r. Above r.0 ((k, o) ∷ m)) (λ r. Above r.0 m) acc (λ r h. h.1) a) s.0)
        ∙ append_assoc acc ((k, o) ∷ []) m)

-- An index that was written is read back.
pub read_index-ordered :
    (file : Text) (off : ℕ) (m : Index) (tail : Text)
    → IsSorted m
    → Every FitsIndex m
    → 0 < length tail
    → At file off (encode_index m) tail
    → read_index file off (length m) [] ≡ ok m
read_index-ordered file off m tail s f pos at =
    read_index-encode_index file off m [] tail f pos at ∙ ap ok (assigns-sorted m [] s tt)
