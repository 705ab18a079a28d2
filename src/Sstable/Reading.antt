-- ===== src/Sstable/Reading.antt =====
-- Reading back what was written into a file.
use aiguard_siem.Common.{
  ℕ, zero, suc, ◌+◌, ◌-◌, ◌/◌, ◌%◌, ◌^◌, ◌<◌, ◌≡◌, refl, sym, ap, ◌∙◌, Option, [], ◌∷◌, ◌++◌, Text,
  length, take, drop, length-append, length-drop, drop-drop, take-length-append, drop-length-append,
  arith, text_eq_refl, if◌then◌else◌, none, some,
}
use mathlib.Core.List.{append_assoc}
use native.Mathlib.Nat.{pow-suc}
use aiguard_siem.Wire.{ok, load, load_in_bounds, le}
use aiguard_siem.Memtable.Table.{LsmEntry}
use aiguard_siem.Sstable.Table.{
  le_bytes, encode_text, encode_entry, entry_size, read_text, read_value,
}

pub length-le_bytes : (w n : ℕ) → length (le_bytes w n) ≡ w
unfolding le_bytes
length-le_bytes zero n = refl
length-le_bytes (suc w) n = ap suc (length-le_bytes w (n / 256))

pub le-le_bytes : (w n : ℕ) → n < 256 ^ w → le (le_bytes w n) ≡ n
unfolding le le_bytes
le-le_bytes zero n h = omega (arith, h)
le-le_bytes (suc w) n h =
    let p = pow-suc 256 w in
    let ih = le-le_bytes w (n / 256) (omega (arith, h, p)) in omega (arith, ih)

-- The file has these bytes at the place, and more after them.
abbrev pub At : Text → ℕ → Text → Text → Type 0
At file off x rest = drop off file ≡ x ++ rest

pub At-next :
    (file : Text) (off : ℕ) (x rest : Text) → At file off x rest → drop (off + length x) file ≡ rest
At-next file off x rest h =
    sym (drop-drop off (length x) file) ∙ (ap (drop (length x)) h ∙ drop-length-append x rest)

-- Two stretches of bytes, one after the other.
pub At-split :
    (file : Text) (off n : ℕ) (x y rest : Text)
    → length x ≡ n
    → At file off (x ++ y) rest
    → At file off x (y ++ rest) × At file (off + n) y rest
At-split file off n x y rest e h =
    let first : At file off x (y ++ rest) = h ∙ append_assoc x y rest in
    (first, ap (λ k. drop (off + k) file) (sym e) ∙ At-next file off x (y ++ rest) first)

pub load-At :
    (file : Text) (off n : ℕ) (x rest : Text)
    → At file off x rest
    → n ≡ length x
    → 0 < length x + length rest
    → load file off n ≡ ok x
load-At file off n x rest h e pos =
    let size : length file - off ≡ length x + length rest =
      sym (length-drop off file) ∙ (ap length h ∙ length-append x rest) in
    load_in_bounds file off n (omega (arith, size, e, pos))
    ∙ ap ok
        (ap (λ k. take k (drop off file)) e ∙ (ap (take (length x)) h ∙ take-length-append x rest))

abbrev pub Fits : Text → Type 0
Fits s = length s < 2 ^ 32

take_all : (s : Text) → take (length s) s ≡ s
take_all [] = refl
take_all (c ∷ s) = ap (◌∷◌ c) (take_all s)

pub encode_text-Fits : (s : Text) → Fits s → encode_text s ≡ le_bytes 4 (length s) ++ s
unfolding encode_text
encode_text-Fits s h =
    let e : length s % 2 ^ 32 ≡ length s = omega (arith, h) in
    rw e (ap (◌++◌ (le_bytes 4 (length s))) (take_all s))

pub length-encode_text : (s : Text) → Fits s → length (encode_text s) ≡ 4 + length s
length-encode_text s h =
    ap length (encode_text-Fits s h)
    ∙ (length-append (le_bytes 4 (length s)) s
        ∙ ap (λ n. n + length s) (length-le_bytes 4 (length s)))

-- A text is read back where one was written, as long as something follows it.
pub read_text-At :
    (file : Text) (off : ℕ) (s rest : Text)
    → Fits s
    → 0 < length rest
    → At file off (encode_text s) rest
    → read_text file off ≡ ok (s, off + (4 + length s))
unfolding read_text
read_text-At file off s rest h pos at =
    let n : ℕ = length s in
    let head : At file off (le_bytes 4 n) (s ++ rest) =
      at ∙ (ap (λ x. x ++ rest) (encode_text-Fits s h) ∙ append_assoc (le_bytes 4 n) s rest) in
    let body : At file (off + 4) s rest =
      ap (λ k. drop (off + k) file) (sym (length-le_bytes 4 n))
      ∙ At-next file off (le_bytes 4 n) (s ++ rest) head in
    let first : load file off 4 ≡ ok (le_bytes 4 n) =
      load-At file off 4 (le_bytes 4 n) (s ++ rest) head (sym (length-le_bytes 4 n))
        (omega (arith, length-le_bytes 4 n)) in
    let len : le (le_bytes 4 n) ≡ n = le-le_bytes 4 n (omega (arith, h)) in
    let second : load file (off + 4) n ≡ ok s =
      load-At file (off + 4) n s rest body refl (omega (arith, pos)) in
    rw (first, len, second) (ap (λ k. ok (s, k)) (omega arith))

-- What a read of an entry answers: nothing for one that marks a removal.
abbrev pub live_value : LsmEntry → Option Text
live_value e = if e.deleted then none else some e.value

abbrev pub FitsEntry : LsmEntry → Type 0
FitsEntry e = length e.key + length e.value + 25 < 2 ^ 32

pub length-encode_entry : (e : LsmEntry) → FitsEntry e → length (encode_entry e) ≡ entry_size e
unfolding encode_entry
length-encode_entry e h =
    let flag : ℕ = if e.deleted then 1 else 0 in
    let d : Text = le_bytes 1 flag ++ le_bytes 8 (e.timestamp / 1000) in
    let c : Text = le_bytes 8 e.sequence_number ++ d in
    omega (
      arith,
      h,
      length-append (encode_text e.key) (encode_text e.value ++ c),
      length-append (encode_text e.value) c,
      length-append (le_bytes 8 e.sequence_number) d,
      length-append (le_bytes 1 flag) (le_bytes 8 (e.timestamp / 1000)),
      length-encode_text e.key (omega (arith, h)),
      length-encode_text e.value (omega (arith, h)),
      length-le_bytes 8 e.sequence_number,
      length-le_bytes 1 flag,
      length-le_bytes 8 (e.timestamp / 1000),
    )

-- Where an entry stands, it is read back.
pub read_value-At :
    (file : Text) (off : ℕ) (e : LsmEntry) (rest : Text)
    → FitsEntry e
    → At file off (encode_entry e) rest
    → read_value e.key file off ≡ ok (live_value e)
unfolding read_value encode_entry
read_value-At file off e rest h at =
    let flag : ℕ = if e.deleted then 1 else 0 in
    let stamp : Text = le_bytes 8 (e.timestamp / 1000) in
    let d : Text = le_bytes 1 flag ++ stamp in
    let c : Text = le_bytes 8 e.sequence_number ++ d in
    let b : Text = encode_text e.value ++ c in
    let fits_key : Fits e.key = omega (arith, h) in
    let fits_value : Fits e.value = omega (arith, h) in
    let here : ℕ = off + (4 + length e.key) in
    let there : ℕ = here + (4 + length e.value) in
    let at_key =
      At-split file off (4 + length e.key) (encode_text e.key) b rest
        (length-encode_text e.key fits_key) at in
    let at_value =
      At-split file here (4 + length e.value) (encode_text e.value) c rest
        (length-encode_text e.value fits_value) at_key.1 in
    let at_seq =
      At-split file there 8 (le_bytes 8 e.sequence_number) d rest
        (length-le_bytes 8 e.sequence_number) at_value.1 in
    let at_flag =
      At-split file (there + 8) 1 (le_bytes 1 flag) stamp rest (length-le_bytes 1 flag) at_seq.1 in
    let size_seq = length-le_bytes 8 e.sequence_number in
    let size_flag = length-le_bytes 1 flag in
    let long_c : 0 < length (c ++ rest) =
      omega
        (arith, length-append c rest, length-append (le_bytes 8 e.sequence_number) d, size_seq) in
    let long_b : 0 < length (b ++ rest) = omega (
      arith,
      length-append b rest,
      length-append (encode_text e.value) c,
      length-encode_text e.value fits_value,
    ) in
    let read_key = read_text-At file off e.key (b ++ rest) fits_key long_b at_key.0 in
    let read_v = read_text-At file here e.value (c ++ rest) fits_value long_c at_value.0 in
    let read_seq =
      load-At file there 8 (le_bytes 8 e.sequence_number) (d ++ rest) at_seq.0 (sym size_seq)
        (omega (arith, size_seq)) in
    let read_flag =
      load-At file (there + 8) 1 (le_bytes 1 flag) (stamp ++ rest) at_flag.0 (sym size_flag)
        (omega (arith, size_flag)) in
    let value : le (le_bytes 1 flag) ≡ flag = le-le_bytes 1 flag (ground arith) in
    rw (read_key, text_eq_refl e.key, read_v, read_seq, read_flag, value) (ground arith)
