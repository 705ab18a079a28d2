-- ===== src/Sstable/Positives.antt =====
-- A bloom filter answers yes for each of its keys.
use aiguard_siem.Common.{
  ℕ, zero, suc, ◌+◌, ◌*◌, ◌/◌, ◌%◌, ◌^◌, ◌<◌, ◌≡◌, refl, bit_or, Bool, true, false, some, ◌&&◌,
  ◌||◌, not, List, [], ◌∷◌, Text, ◌==◌, ltb, length, get_elem?, get_elem?-set_self,
  get_elem?-set_ne, length-set, sym, ap, ◌∙◌, Bool-cases, inl, inr, set, replicate,
  length-replicate, is_empty, tabulated, tabulated-entry, Every, Every-mono, arith,
}
use mathlib.Core.Path.{subst}
use aiguard_siem.Wire.{Outcome, ok, Gives, bind-Gives, Gives-mono}
use aiguard_siem.Sstable.Bloom.{
  Filter, has_bit, test_bit, test_byte, set_bit, set_byte, bloom_bit, add_key, add_keys, Bloom,
  write_bloom_filter, might_contain, test_from, no_bloom,
}

-- Of a byte: a bit is there once it is set, no other one is lost, and the byte stays one.
abbrev bit_law : ℕ → ℕ → ℕ → Bool
bit_law i j byte =
    let byte' : ℕ = bit_or byte (2 ^ j) in
    has_bit byte' j && (ltb byte' 256 && (not (has_bit byte i) || has_bit byte' i))

bit_table : tabulated (λ i. tabulated (λ j. tabulated (bit_law i j) 256) 8) 8 ≡ true
unfolding tabulated
bit_table = refl

bit_law_holds : (i j byte : ℕ) → i < 8 → j < 8 → byte < 256 → bit_law i j byte ≡ true
bit_law_holds i j byte hi hj hb =
    let row =
      tabulated-entry (λ k. tabulated (λ l. tabulated (bit_law k l) 256) 8) 8 i hi bit_table in
    let cell = tabulated-entry (λ l. tabulated (bit_law i l) 256) 8 j hj row in
    tabulated-entry (bit_law i j) 256 byte hb cell

abbrev pub IsBytes : Filter → Type 0
IsBytes filter = Every (λ b. b < 256) filter

get_elem?-bytes :
    (filter : Filter) (i : ℕ)
    → IsBytes filter
    → i < length filter
    → (byte : ℕ) × (get_elem? filter i ≡ some byte) × (byte < 256)
get_elem?-bytes [] i h l = absurd (omega arith)
get_elem?-bytes (x ∷ xs) zero h l = (x, refl, h.0)
get_elem?-bytes (x ∷ xs) (suc i) h l = get_elem?-bytes xs i h.1 (omega arith)

get_elem?-found :
    (filter : Filter) (i : ℕ) → i < length filter → (byte : ℕ) × (get_elem? filter i ≡ some byte)
get_elem?-found [] i l = absurd (omega arith)
get_elem?-found (x ∷ xs) zero l = (x, refl)
get_elem?-found (x ∷ xs) (suc i) l = get_elem?-found xs i (omega arith)

set-IsBytes : (filter : Filter) (i v : ℕ) → IsBytes filter → v < 256 → IsBytes (set filter i v)
set-IsBytes [] i v h l = tt
set-IsBytes (x ∷ xs) zero v h l = (l, h.1)
set-IsBytes (x ∷ xs) (suc i) v h l = (h.0, set-IsBytes xs i v h.1 l)

-- What a filter becomes when bits are set: as long, of bytes, and with every bit that it had.
pub record Extends (filter filter' : Filter) : Type 0 where
  pub size : length filter' ≡ length filter
  pub bytes : IsBytes filter'
  pub keeps : (c : ℕ) → test_bit filter c ≡ ok true → test_bit filter' c ≡ ok true

Extends-trans : (a b c : Filter) → Extends a b → Extends b c → Extends a c
Extends-trans a b c e d = record {
  size = omega (arith, e.size, d.size);
  bytes = d.bytes;
  keeps = λ i h. d.keeps i (e.keeps i h);
}

-- The bit at `c` of a byte that has gained the bit at `bit`.
set_byte-Extends :
    (filter : Filter) (bit byte : ℕ)
    → IsBytes filter
    → bit / 8 < length filter
    → get_elem? filter (bit / 8) ≡ some byte
    → byte < 256
    → let f = set filter (bit / 8) (bit_or byte (2 ^ (bit % 8))) in
      Extends filter f × (test_bit f bit ≡ ok true)
unfolding test_bit test_byte
set_byte-Extends filter bit byte h l found small =
    let byte' : ℕ = bit_or byte (2 ^ (bit % 8)) in
    let filter' : Filter = set filter (bit / 8) byte' in
    let law : (i : ℕ) → i < 8 → bit_law i (bit % 8) byte ≡ true =
      λ i b. bit_law_holds i (bit % 8) byte b (omega arith) small in
    let here : get_elem? filter' (bit / 8) ≡ some byte' =
      get_elem?-set_self filter (bit / 8) byte' l in
    (
      record {
        size = length-set filter (bit / 8) byte';
        bytes = set-IsBytes filter (bit / 8) byte' h (ground (arith, law 0 (omega arith)));
        keeps = λ c k. elim (Bool-cases (bit / 8 == c / 8)) [
          | inl same ↦
              let e : bit / 8 ≡ c / 8 = ground arith in
              subst (λ o. test_byte c o ≡ ok true) (sym (ap (get_elem? filter') (sym e) ∙ here))
                (ground (
                  arith,
                  law (c % 8) (omega arith),
                  subst (λ o. test_byte c o ≡ ok true) (ap (get_elem? filter) (sym e) ∙ found) k,
                ))
          | inr other ↦
              subst (λ o. test_byte c o ≡ ok true)
                (sym
                  (get_elem?-set_ne filter byte' (λ (e : bit / 8 ≡ c / 8). absurd (ground arith))))
                k
        ];
      },
      subst (λ o. test_byte bit o ≡ ok true) (sym here) (ground (arith, law 0 (omega arith))),
    )

set_bit-Extends :
    (filter : Filter) (bit : ℕ)
    → IsBytes filter
    → bit / 8 < length filter
    → Gives (λ f. Extends filter f × (test_bit f bit ≡ ok true)) (set_bit filter bit)
unfolding set_bit set_byte
set_bit-Extends filter bit h l =
    let found = get_elem?-bytes filter (bit / 8) h l in
    subst (λ o. Gives (λ f. Extends filter f × (test_bit f bit ≡ ok true)) (set_byte filter bit o))
      (sym found.1) (set_byte-Extends filter bit found.0 h l found.1 found.2)

-- The three bits of a key.
abbrev pub Has : ℕ → Text → Filter → Type 0
Has bits key filter =
    (test_bit filter (bloom_bit key bits 0) ≡ ok true)
    × (test_bit filter (bloom_bit key bits 1) ≡ ok true)
    × (test_bit filter (bloom_bit key bits 2) ≡ ok true)

Extends-Has : (bits : ℕ) (key : Text) (a b : Filter) → Extends a b → Has bits key a → Has bits key b
Extends-Has bits key a b e h = (e.keeps _ h.0, e.keeps _ h.1, e.keeps _ h.2)

add_key-Extends :
    (bits : ℕ) (key : Text) (filter : Filter)
    → 0 < bits
    → (bits + 7) / 8 ≡ length filter
    → IsBytes filter
    → Gives (λ f. Extends filter f × Has bits key f) (add_key bits key filter)
add_key-Extends bits key filter pos size h =
    let within : (seed : ℕ) (f : Filter)
        → length f ≡ length filter
        → bloom_bit key bits seed / 8 < length f =
      λ seed f e. ground (arith, size) in
    bind-Gives _ _ (set_bit filter (bloom_bit key bits 0)) _
      (set_bit-Extends filter _ h (within 0 filter refl))
      (λ one a.
        bind-Gives _ _ (set_bit one (bloom_bit key bits 1)) _
          (set_bit-Extends one _ a.0.bytes (within 1 one a.0.size))
          (λ two b.
            let ab = Extends-trans filter one two a.0 b.0 in
            Gives-mono _ _ (set_bit two (bloom_bit key bits 2))
              (set_bit-Extends two _ b.0.bytes (within 2 two ab.size))
              (λ three c. (
                Extends-trans filter two three ab c.0,
                (c.0.keeps _ (b.0.keeps _ a.1), c.0.keeps _ b.1, c.1),
              ))))

Extends-refl : (a : Filter) → IsBytes a → Extends a a
Extends-refl a h = record { size = refl; bytes = h; keeps = λ c k. k }

add_keys-Extends :
    (bits : ℕ) (keys : List Text) (filter : Filter)
    → 0 < bits
    → (bits + 7) / 8 ≡ length filter
    → IsBytes filter
    → Gives (λ f. Extends filter f × Every (λ key. Has bits key f) keys) (add_keys bits keys filter)
unfolding add_keys
add_keys-Extends bits [] filter pos size h = (Extends-refl filter h, tt)
add_keys-Extends bits (key ∷ keys) filter pos size h =
    bind-Gives _ _ (add_key bits key filter) _ (add_key-Extends bits key filter pos size h)
      (λ one a.
        Gives-mono _ _ (add_keys bits keys one)
          (add_keys-Extends bits keys one pos (size ∙ sym a.0.size) a.0.bytes)
          (λ f b. (Extends-trans filter one f a.0 b.0, (Extends-Has bits key one f b.0 a.1, b.1))))

zeros-IsBytes : (n : ℕ) → IsBytes (replicate n 0)
zeros-IsBytes zero = tt
zeros-IsBytes (suc n) = (omega arith, zeros-IsBytes n)

-- A key whose bits are there is not turned away.
might_contain-Has :
    (key : Text) (b : Bloom) → Has b.bits key b.filter → might_contain key b ≡ ok true
unfolding might_contain
might_contain-Has key b h = elim (Bool-cases (is_empty b.filter || b.bits == 0)) [
  | inl off ↦ rw off refl
  | inr on ↦ rw (on, h.0, h.1, h.2) refl
]

test_bit-total :
    (filter : Filter) (bit : ℕ)
    → bit / 8 < length filter
    → (r : Bool) × (test_bit filter bit ≡ ok r)
unfolding test_bit test_byte
test_bit-total filter bit l =
    let found = get_elem?-found filter (bit / 8) l in
    (has_bit found.0 (bit % 8), ap (test_byte bit) found.1)

test_from-total :
    (seed : ℕ) (key : Text) (b : Bloom) (rest : Outcome Bool)
    → bloom_bit key b.bits seed / 8 < length b.filter
    → (r : Bool) × (rest ≡ ok r)
    → (r : Bool) × (test_from seed key b rest ≡ ok r)
test_from-total seed key b rest l h =
    let (r, e) = test_bit-total b.filter (bloom_bit key b.bits seed) l in
    elim (Bool-cases r) [
      | inl there ↦ (h.0, rw (e, there) h.1)
      | inr absent ↦ (false, rw (e, absent) refl)
    ]

might_contain-total :
    (key : Text) (b : Bloom)
    → length b.filter ≡ (b.bits + 7) / 8
    → (r : Bool) × (might_contain key b ≡ ok r)
unfolding might_contain
might_contain-total key b size = elim (Bool-cases (is_empty b.filter || b.bits == 0)) [
  | inl off ↦ (true, rw off refl)
  | inr on ↦
      let pos : 0 < b.bits = ground arith in
      let within : (seed : ℕ) → bloom_bit key b.bits seed / 8 < length b.filter =
        λ seed. ground (arith, size) in
      let r = test_from-total 0 key b _ (within 0) (
        test_from-total 1 key b _ (within 1)
          (test_from-total 2 key b (ok true) (within 2) (true, refl))) in
      (r.0, rw on r.1)
]

-- A filter that has no false negatives for the keys and answers every query, within its bounds.
pub record IsSound (keys : List Text) (b : Bloom) : Type 0 where
  pub positives : Every (λ key. might_contain key b ≡ ok true) keys
  pub total : (key : Text) → (r : Bool) × (might_contain key b ≡ ok r)

-- The filter written for fewer than 2^60 keys, which no access leaves the bounds of, has no false
-- negatives: it might contain each of these keys. A query of any key returns.
pub write_bloom_filter-IsSound :
    (keys : List Text)
    → length keys < 2 ^ 60
    → Gives (IsSound keys) (write_bloom_filter keys no_bloom)
unfolding write_bloom_filter
write_bloom_filter-IsSound [] h = record {
  positives = tt;
  total = λ key. might_contain-total key no_bloom refl;
}
write_bloom_filter-IsSound (key ∷ keys) h =
    let all : List Text = key ∷ keys in
    let bits : ℕ = length all * 10 % 2 ^ 64 in
    let pos : 0 < bits = omega (arith, h) in
    let size : length (replicate ((bits + 7) / 8) 0) ≡ (bits + 7) / 8 =
      length-replicate ((bits + 7) / 8) 0 in
    bind-Gives _ _ (add_keys bits all (replicate ((bits + 7) / 8) 0)) _
      (add_keys-Extends bits all (replicate ((bits + 7) / 8) 0) pos (sym size)
        (zeros-IsBytes ((bits + 7) / 8)))
      (λ filter a.
        let b : Bloom = record { filter = filter; bits = bits } in
        record {
          positives = Every-mono _ _ all (λ k i. might_contain-Has k b i) a.1;
          total = λ k. might_contain-total k b (a.0.size ∙ size);
        })
