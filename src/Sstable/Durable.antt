-- ===== src/Sstable/Durable.antt =====
-- A table that is written to a file and opened again.
use aiguard_siem.Common.{
  ℕ, ◌+◌, ◌-◌, ◌^◌, ◌<◌, ◌≡◌, refl, sym, ap, ◌∙◌, true, false, Option, none, some, List, [], ◌++◌,
  Text, length, drop, length-append, drop-length-append, arith, Every, ltb, ◌==◌, ==_iff,
}
use mathlib.Core.Path.{subst}
use aiguard_siem.Wire.{ok, Gives, load, le, field}
use mathlib.Core.List.{append-nil}
use aiguard_siem.Flows.Stats.{minus64}
use aiguard_siem.Memtable.Order.{IsSorted}
use aiguard_siem.Memtable.Table.{LsmEntry}
use aiguard_siem.Sstable.Bloom.{Bloom, no_bloom}
use aiguard_siem.Sstable.Table.{
  SsTable, Index, write_blocks, encode_index, encode_footer, le_bytes, create, get,
}
use aiguard_siem.Sstable.Reading.{At, At-next, FitsEntry, le-le_bytes, load-At}
use aiguard_siem.Sstable.Lookup.{latest, answer, get-create, length-write_blocks}
use aiguard_siem.Sstable.Reopen.{first_of, last_of, read_bloom_filter, open_table}
use aiguard_siem.Sstable.Indexes.{FitsIndex, write_blocks-IsIndex, read_index-ordered}

pub record IsFooter (magic : ℕ) (bloom : Bloom) (index_offset index_count : ℕ) (footer : Text)
    : Type 0 where
  pub size : length footer ≡ 40
  pub bits : le (field footer 0 8) ≡ bloom.bits
  pub bloom_size : le (field footer 8 8) ≡ length bloom.filter
  pub offset : le (field footer 16 8) ≡ index_offset
  pub count : le (field footer 24 8) ≡ index_count
  pub magic_number : le (field footer 32 8) ≡ magic

encode_footer-IsFooter :
    (magic : ℕ) (bloom : Bloom) (index_offset index_count : ℕ)
    → magic < 2 ^ 64
    → bloom.bits < 2 ^ 64
    → length bloom.filter < 2 ^ 64
    → index_offset < 2 ^ 64
    → index_count < 2 ^ 64
    → IsFooter magic bloom index_offset index_count
        (encode_footer magic bloom index_offset index_count)
unfolding encode_footer le_bytes
encode_footer-IsFooter magic bloom index_offset index_count m b s o c = record {
  size = refl;
  bits = le-le_bytes 8 bloom.bits (omega (arith, b));
  bloom_size = le-le_bytes 8 (length bloom.filter) (omega (arith, s));
  offset = le-le_bytes 8 index_offset (omega (arith, o));
  count = le-le_bytes 8 index_count (omega (arith, c));
  magic_number = le-le_bytes 8 magic (omega (arith, m));
}

-- The table serves the entries out of the file.
abbrev pub Serves : Text → List LsmEntry → Option SsTable → Type 0
Serves file entries none = ⊥
Serves file entries (some t) =
    (key : Text) → get key t (some file) ≡ ok (answer (latest key entries))

-- Opening a file of data blocks, an index that fits and a footer gives back the index.
open_table-written :
    (magic : ℕ) (blocks : Text) (index : Index)
    → magic < 2 ^ 64
    → length blocks < 2 ^ 64
    → length index < 2 ^ 64
    → IsSorted index
    → Every FitsIndex index
    → let file =
        blocks
        ++ (encode_index index ++ encode_footer magic no_bloom (length blocks) (length index)) in
      open_table magic (some file)
      ≡ ok (
          some (record {
            index = index;
            bloom = no_bloom;
            file_size = length file;
            smallest_key = first_of index;
            largest_key = last_of [] index;
          }))
unfolding open_table read_bloom_filter
open_table-written magic blocks index m d c sorted fits =
    let footer : Text = encode_footer magic no_bloom (length blocks) (length index) in
    let file : Text = blocks ++ (encode_index index ++ footer) in
    let f =
      encode_footer-IsFooter magic no_bloom (length blocks) (length index) m (omega arith)
        (omega arith) d c in
    let inner = length-append (encode_index index) footer in
    let outer = length-append blocks (encode_index index ++ footer) in
    let size = f.size in
    let long : ltb (length file) 40 ≡ false = ground (arith, inner, outer, size) in
    let at_index : At file (length blocks) (encode_index index) footer =
      drop-length-append blocks (encode_index index ++ footer) in
    let at_end : length blocks + length (encode_index index) ≡ length file - 40 =
      omega (arith, inner, outer, size) in
    let at_footer : At file (length file - 40) footer [] =
      ap (λ k. drop k file) (sym at_end)
      ∙ (At-next file (length blocks) (encode_index index) footer at_index
          ∙ sym (append-nil footer)) in
    let read_footer =
      load-At file (length file - 40) 40 footer [] at_footer (sym size) (omega (arith, size)) in
    let none_skipped : minus64 (length blocks) 0 ≡ length blocks = omega (arith, d) in
    let read_filter : load file (length blocks) 0 ≡ ok [] =
      load-At file (length blocks) 0 [] (encode_index index ++ footer) at_index refl
        (omega (arith, inner, size)) in
    let read_rest =
      read_index-ordered file (length blocks) index footer sorted fits (omega (arith, size))
        at_index in
    let magic_read : (le (field footer 32 8) == magic) ≡ true = (==_iff _ magic).1 f.magic_number in
    rw
      (
        long, read_footer, magic_read, f.offset, f.bloom_size, f.count, f.bits, none_skipped,
        read_filter, read_rest,
      )
      refl

-- Without a bloom filter a table survives its file: from entries that fit the format, `create` writes
-- a file that `open` reads back into a table, and for each key `get` answers from it the value of the
-- last entry with the key, or nothing where that marks a removal or there is none.
pub open_table-create :
    (magic : ℕ) (entries : List LsmEntry)
    → magic < 2 ^ 64
    → Every FitsEntry entries
    → length (write_blocks 0 [] entries).bytes < 2 ^ 64
    → Gives
        (λ r. Gives (Serves r.1 entries) (open_table magic (some r.1)))
        (create magic false entries)
unfolding create get
open_table-create magic entries m fits size =
    let blocks = write_blocks 0 [] entries in
    let i = write_blocks-IsIndex 0 [] entries tt tt fits (omega (arith, size)) in
    let opened =
      open_table-written magic blocks.bytes blocks.index m size
        (omega (arith, i.size, length-write_blocks 0 [] entries fits, size)) i.sorted i.fits in
    let file : ℕ → Text = λ off.
      blocks.bytes
      ++ (encode_index blocks.index ++ encode_footer magic no_bloom off (length blocks.index)) in
    let place : length blocks.bytes ≡ blocks.current_offset = omega (arith, i.offset) in
    let opened_there =
      subst
        (λ off.
          open_table magic (some (file off))
          ≡ ok (
              some (record {
                index = blocks.index;
                bloom = no_bloom;
                file_size = length (file off);
                smallest_key = first_of blocks.index;
                largest_key = last_of [] blocks.index;
              })))
        place opened in
    subst (Gives (Serves (file blocks.current_offset) entries)) (sym opened_there)
      (λ key. get-create magic false entries key fits size)
