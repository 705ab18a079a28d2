-- ===== src/Sstable/Table.antt =====
-- storage/hot/src/sstable.cpp: `SSTable`. The bytes of a file are an argument or a result; a file that
-- cannot be opened is `none`, and a read past the end of a file is a fault.
use aiguard_siem.Common.{
  ℕ, zero, suc, ◌+◌, ◌/◌, ◌%◌, Bool, Option, none, some, List, [], ◌∷◌, ◌++◌, map, Text, text_key,
  text_eq, not, if◌then◌else◌, ◌==◌, length, take, find,
}
use aiguard_siem.Events.{wrap64}
use aiguard_siem.Wire.{Outcome, ok, ◌>>=◌, load, le}
use aiguard_siem.Memtable.Table.{LsmEntry, assign, lower_bound}
use aiguard_siem.Sstable.Bloom.{Bloom, no_bloom, write_bloom_filter, might_contain}
use aiguard_siem.Events.{wrap32}

abbrev pub Index : Type 0
Index = List (Text × ℕ)

pub record SsTable : Type 0 where
  pub index : Index
  pub bloom : Bloom
  pub file_size : ℕ
  pub smallest_key : Text
  pub largest_key : Text

-- `file.write` of the `w` bytes of a number.
unfoldable pub le_bytes : ℕ → ℕ → Text
le_bytes zero n = []
le_bytes (suc w) n = n % 256 ∷ le_bytes w (n / 256)

-- A length and the bytes.
unfoldable pub encode_text : Text → Text
encode_text s = let len : ℕ = wrap32 (length s) in le_bytes 4 len ++ take len s

unfoldable pub encode_entry : LsmEntry → Text
encode_entry e =
    encode_text e.key
    ++ (encode_text e.value
        ++ (le_bytes 8 e.sequence_number
            ++ (le_bytes 1 (if e.deleted then 1 else 0) ++ le_bytes 8 (e.timestamp / 1000))))

-- The sum is one of `uint32_t`.
abbrev pub entry_size : LsmEntry → ℕ
entry_size e = wrap32 (wrap32 (length e.key) + wrap32 (length e.value) + 25)

-- The data blocks, and what they make of the index and of `current_offset`.
pub record Blocks : Type 0 where
  pub index : Index
  pub current_offset : ℕ
  pub bytes : Text

unfoldable pub write_blocks : ℕ → Index → List LsmEntry → Blocks
write_blocks offset index [] = record { index = index; current_offset = offset; bytes = [] }
write_blocks offset index (e ∷ es) =
    let rest = write_blocks (wrap64 (offset + entry_size e)) (assign e.key offset index) es in
    record {
      index = rest.index;
      current_offset = rest.current_offset;
      bytes = encode_entry e ++ rest.bytes;
    }

unfoldable pub encode_index : Index → Text
encode_index [] = []
encode_index ((key, offset) ∷ m) = encode_text key ++ (le_bytes 8 offset ++ encode_index m)

abbrev pub first_key : List LsmEntry → Text
first_key [] = []
first_key (e ∷ es) = e.key

abbrev pub last_key : Text → List LsmEntry → Text
last_key k [] = k
last_key k (e ∷ es) = last_key e.key es

unfoldable pub encode_footer : ℕ → Bloom → ℕ → ℕ → Text
encode_footer magic bloom index_offset index_count =
    le_bytes 8 bloom.bits
    ++ (le_bytes 8 (length bloom.filter)
        ++ (le_bytes 8 index_offset ++ (le_bytes 8 index_count ++ le_bytes 8 magic)))

-- `create` on a file that opens: the table and the bytes written.
unfoldable pub create : ℕ → Bool → List LsmEntry → Outcome (SsTable × Text)
create magic enable_bloom_filter entries =
    let blocks = write_blocks 0 [] entries in
    do
      bloom ←
          (if enable_bloom_filter
            then write_bloom_filter (map (λ e. e.key) entries) no_bloom
            else ok no_bloom)
      let bytes =
          blocks.bytes
          ++ (bloom.filter
              ++ (encode_index blocks.index
                  ++ encode_footer magic bloom blocks.current_offset (length blocks.index)))
      ok (
        record {
          index = blocks.index;
          bloom = bloom;
          file_size = length bytes;
          smallest_key = first_key entries;
          largest_key = last_key [] entries;
        },
        bytes,
      )

-- A length and the bytes that follow, with the place behind them.
unfoldable pub read_text : Text → ℕ → Outcome (Text × ℕ)
read_text file off = do
  len ← load file off 4
  s ← load file (off + 4) (le len)
  ok (s, off + 4 + le len)

-- The index entry that `get` finds, given what `lower_bound` finds.
unfoldable pub index_from : Text → Index → Index → Option ℕ
index_from key index [] = find key index
index_from key index ((k, offset) ∷ m) = if text_eq k key then some offset else find key index

unfoldable pub read_value : Text → Text → ℕ → Outcome (Option Text)
read_value key file off = do
  k ← read_text file off
  if not (text_eq k.0 key) then ok none else (do
    v ← read_text file k.1
    seq ← load file v.1 8
    deleted ← load file (v.1 + 8) 1
    ok (if le deleted == 0 then some v.0 else none))

unfoldable pub read_found : Text → Option Text → Option ℕ → Outcome (Option Text)
read_found key file none = ok none
read_found key none (some off) = ok none
read_found key (some file) (some off) = read_value key file off

unfoldable pub get : Text → SsTable → Option Text → Outcome (Option Text)
get key t file = do
  maybe ← might_contain key t.bloom
  if not maybe
      then ok none
      else read_found key file (index_from key t.index (lower_bound key t.index))
