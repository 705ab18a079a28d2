-- ===== src/Sstable/Lookup.antt =====
-- Lookups in a table answer from the entries that it was made of, and so do those in a write buffer
-- that goes to disk.
use aiguard_siem.Common.{
  ℕ, ◌+◌, ◌*◌, ◌^◌, ◌<◌, ◌≤◌, ◌≡◌, refl, sym, ap, ◌∙◌, Bool, true, false, Option, none, some, List,
  [], ◌∷◌, ◌++◌, Text, length, drop, map, length-append, length-map, find, text_key, text_eq,
  text_eq→eq, text_eq_iff, text_lt_irrefl, Every, Bool-cases, Option-cases, inl, inr, arith,
  if◌then◌else◌,
}
use mathlib.Core.Path.{subst}
use aiguard_siem.Events.{wrap64}
use aiguard_siem.Wire.{ok, Gives, bind-Gives}
use aiguard_siem.Memtable.Table.{LsmEntry, assign, lower_bound}
use aiguard_siem.Memtable.Order.{find-assign}
use aiguard_siem.Sstable.Bloom.{no_bloom, write_bloom_filter, might_contain}
use aiguard_siem.Sstable.Positives.{IsSound, write_bloom_filter-IsSound}
use aiguard_siem.Sstable.Table.{
  SsTable, Index, write_blocks, encode_entry, encode_index, encode_footer, entry_size, create, get,
  index_from, read_value, read_found,
}
use aiguard_siem.Sstable.Reading.{
  At, At-split, FitsEntry, live_value, length-encode_entry, read_value-At,
}

-- The last entry with the key: the specification of a lookup.
abbrev pub latest_or : LsmEntry → Text → Option LsmEntry → Option LsmEntry
latest_or e key none = if text_eq e.key key then some e else none
latest_or e key (some later) = some later

unfoldable pub latest : Text → List LsmEntry → Option LsmEntry
latest key [] = none
latest key (e ∷ es) = latest_or e key (latest key es)

abbrev pub answer : Option LsmEntry → Option Text
answer none = none
answer (some e) = live_value e

-- What the index has for a key after some entries: what it had before, or the place of the last one.
abbrev Found : Text → Text → Option ℕ → Option ℕ → Option LsmEntry → Type 0
Found file key after before none = after ≡ before
Found file key after before (some e) =
    (off : ℕ) × (rest : Text) × (after ≡ some off)
    × At file off (encode_entry e) rest
    × (e.key ≡ key)
    × FitsEntry e

Found-step :
    (file key : Text) (after before : Option ℕ) (off : ℕ) (e : LsmEntry) (rest : Text)
    (o : Option LsmEntry)
    → FitsEntry e
    → At file off (encode_entry e) rest
    → Found file key after (if text_eq e.key key then some off else before) o
    → Found file key after before (latest_or e key o)
Found-step file key after before off e rest (some later) h at f = f
Found-step file key after before off e rest none h at f = elim (Bool-cases (text_eq e.key key)) [
  | inl same ↦
      let g : after ≡ some off = rw same at f in
      rw same ((off, rest, g, at, text_eq→eq e.key key same, h))
  | inr other ↦ let g : after ≡ before = rw other at f in rw other g
]

write_blocks-Found :
    (file key : Text) (off : ℕ) (index : Index) (es : List LsmEntry) (tail : Text)
    → Every FitsEntry es
    → off + length (write_blocks off index es).bytes < 2 ^ 64
    → At file off (write_blocks off index es).bytes tail
    → Found file key (find key (write_blocks off index es).index) (find key index) (latest key es)
unfolding write_blocks latest
write_blocks-Found file key off index [] tail f h at = refl
write_blocks-Found file key off index (e ∷ es) tail f h at =
    let size : length (encode_entry e) ≡ entry_size e = length-encode_entry e f.0 in
    let fits = f.0 in
    let more = write_blocks (wrap64 (off + entry_size e)) (assign e.key off index) es in
    let long = length-append (encode_entry e) more.bytes in
    let next : wrap64 (off + entry_size e) ≡ off + entry_size e = omega (arith, h, size, long) in
    let parts = At-split file off (entry_size e) (encode_entry e) more.bytes tail size at in
    Found-step file key _ (find key index) off e (more.bytes ++ tail) (latest key es) fits parts.0 (
      subst (λ b. Found file key (find key more.index) b (latest key es))
        (find-assign e.key key off index)
        (write_blocks-Found file key (wrap64 (off + entry_size e)) (assign e.key off index) es tail
          f.1 (omega (arith, h, size, long, next)) (ap (λ k. drop k file) next ∙ parts.1)))

-- Each entry takes 25 bytes at least.
pub length-write_blocks :
    (off : ℕ) (index : Index) (es : List LsmEntry)
    → Every FitsEntry es
    → 25 * length es ≤ length (write_blocks off index es).bytes
unfolding write_blocks
length-write_blocks off index [] f = omega arith
length-write_blocks off index (e ∷ es) f =
    let fits = f.0 in
    let more = write_blocks (wrap64 (off + entry_size e)) (assign e.key off index) es in
    omega (
      arith,
      fits,
      length-append (encode_entry e) more.bytes,
      length-encode_entry e fits,
      length-write_blocks (wrap64 (off + entry_size e)) (assign e.key off index) es f.1,
    )

find-lower_bound : (key : Text) (m : Index) → find key (lower_bound key m) ≡ find key m
unfolding lower_bound find
find-lower_bound key [] = refl
find-lower_bound key ((k, off) ∷ m) =
    ground (arith, find-lower_bound key m, text_lt_irrefl key, text_eq_iff k key)

index_from-find :
    (key : Text) (index suffix : Index)
    → find key suffix ≡ find key index
    → index_from key index suffix ≡ find key index
unfolding index_from find
index_from-find key index [] h = refl
index_from-find key index ((k, off) ∷ m) h = ground arith

-- A place in the index is read, from a table whose filter lets the key pass.
get-read_found :
    (key file : Text) (t : SsTable)
    → might_contain key t.bloom ≡ ok true
    → get key t (some file) ≡ read_found key (some file) (find key t.index)
unfolding get
get-read_found key file t h =
    rw (h, index_from-find key t.index (lower_bound key t.index) (find-lower_bound key t.index))
      refl

latest-Every :
    (P : Text → Type 0) (key : Text) (es : List LsmEntry) (e : LsmEntry)
    → Every P (map (λ d. d.key) es)
    → latest key es ≡ some e
    → P key
unfolding latest
latest-Every P key [] e a h = absurd (ground arith)
latest-Every P key (d ∷ es) e a h = elim (Option-cases (latest key es)) [
  | inl none_left ↦ elim (Bool-cases (text_eq d.key key)) [
    | inl same ↦ subst P (text_eq→eq d.key key same) a.0
    | inr other ↦ absurd (let g = rw (none_left, other) at h in ground arith)
  ]
  | inr later ↦ latest-Every P key es later.0 a.1 later.1
]

get-Found :
    (file key : Text) (t : SsTable) (o : Option LsmEntry)
    → Found file key (find key t.index) none o
    → ((e : LsmEntry) → o ≡ some e → might_contain key t.bloom ≡ ok true)
    → ((r : Bool) × (might_contain key t.bloom ≡ ok r))
    → get key t (some file) ≡ ok (answer o)
unfolding get read_found
get-Found file key t none f passes total = elim (Bool-cases total.0) [
  | inl there ↦
      get-read_found key file t (total.1 ∙ ap ok there) ∙ ap (read_found key (some file)) f
  | inr absent ↦ rw (total.1, absent) refl
]
get-Found file key t (some e) f passes total =
    get-read_found key file t (passes e refl)
    ∙ (ap (read_found key (some file)) f.2
        ∙ (ap (λ k. read_value k file f.0) (sym f.4) ∙ read_value-At file f.0 e f.1 f.5 f.3))

no_bloom-IsSound : (keys : List Text) → IsSound keys no_bloom
unfolding might_contain
no_bloom-IsSound keys = record { positives = all keys; total = λ key. (true, refl) }
  where
    all : (ks : List Text) → Every (λ key. might_contain key no_bloom ≡ ok true) ks
    all [] = tt
    all (k ∷ ks) = (refl, all ks)

bloom-IsSound :
    (enable : Bool) (keys : List Text)
    → length keys < 2 ^ 60
    → Gives (IsSound keys) (if enable then write_bloom_filter keys no_bloom else ok no_bloom)
bloom-IsSound true keys h = write_bloom_filter-IsSound keys h
bloom-IsSound false keys h = no_bloom-IsSound keys

-- From entries that fit the format's 32-bit lengths and 64-bit offsets `create` makes a table, with
-- or without a bloom filter and within the filter's bounds, and for each key `get` reads from the file
-- the value of the last entry with the key, or nothing where that marks a removal or there is none.
pub get-create :
    (magic : ℕ) (enable : Bool) (entries : List LsmEntry) (key : Text)
    → Every FitsEntry entries
    → length (write_blocks 0 [] entries).bytes < 2 ^ 64
    → Gives
        (λ r. get key r.0 (some r.1) ≡ ok (answer (latest key entries)))
        (create magic enable entries)
unfolding create find
get-create magic enable entries key fits size =
    let keys : List Text = map (λ e. e.key) entries in
    let blocks = write_blocks 0 [] entries in
    let few : length keys < 2 ^ 60 = omega (
      arith,
      length-map entries (λ (e : LsmEntry). e.key),
      length-write_blocks 0 [] entries fits,
      size,
    ) in
    bind-Gives (IsSound keys) _ (if enable then write_bloom_filter keys no_bloom else ok no_bloom) _
      (bloom-IsSound enable keys few)
      (λ bloom s.
        let tail =
          bloom.filter
          ++ (encode_index blocks.index
              ++ encode_footer magic bloom blocks.current_offset (length blocks.index)) in
        get-Found (blocks.bytes ++ tail) key _ (latest key entries)
          (write_blocks-Found (blocks.bytes ++ tail) key 0 [] entries tail fits
            (omega (arith, size)) refl)
          (λ e h. latest-Every (λ k. might_contain k bloom ≡ ok true) key entries e s.positives h)
          (s.total key))
