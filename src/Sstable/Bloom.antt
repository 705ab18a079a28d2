-- ===== src/Sstable/Bloom.antt =====
-- storage/hot/src/sstable.cpp: the bloom filter. An access of the bit vector out of bounds is a fault.
use aiguard_siem.Common.{
  ℕ, ◌+◌, ◌-◌, ◌*◌, ◌/◌, ◌%◌, ◌^◌, bit_and, bit_or, bit_xor, Bool, true, false, Option, none, some,
  List, [], ◌∷◌, Text, if◌then◌else◌, ◌==◌, ◌||◌, not, length, get_elem?, set, replicate, is_empty,
}
use aiguard_siem.Events.{wrap32}
use aiguard_siem.Wire.{Outcome, ok, fault, ◌>>=◌}

-- `(k << n) | (k >> (32 - n))` of 32 bits.
abbrev pub rotate : ℕ → ℕ → ℕ
rotate n k = bit_or (wrap32 (k * 2 ^ n)) (k / 2 ^ (32 - n))

abbrev pub shift_xor : ℕ → ℕ → ℕ
shift_xor n h = bit_xor h (h / 2 ^ n)

-- One round of the loop, on a byte.
unfoldable pub mix_byte : ℕ → ℕ → ℕ
mix_byte h b =
    let k : ℕ = wrap32 (rotate 15 (wrap32 (b * 0xcc9e2d51)) * 0x1b873593) in
    wrap32 (rotate 13 (bit_xor h k) * 5 + 0xe6546b64)

unfoldable pub mix_bytes : ℕ → Text → ℕ
mix_bytes h [] = h
mix_bytes h (b ∷ bs) = mix_bytes (mix_byte h b) bs

unfoldable pub finish_hash : ℕ → ℕ
finish_hash h =
    let a : ℕ = wrap32 (shift_xor 16 h * 0x85ebca6b) in
    let b : ℕ = wrap32 (shift_xor 13 a * 0xc2b2ae35) in shift_xor 16 b

-- `h ^= len` keeps the low 32 bits of the length.
unfoldable pub bloom_hash : Text → ℕ → ℕ
bloom_hash key seed = finish_hash (bit_xor (mix_bytes seed key) (wrap32 (length key)))

abbrev pub Filter : Type 0
Filter = List ℕ

abbrev pub has_bit : ℕ → ℕ → Bool
has_bit byte i = not (bit_and byte (2 ^ i) == 0)

-- `filter[bit / 8] & (1 << (bit % 8))`, given what `filter[bit / 8]` is.
unfoldable pub test_byte : ℕ → Option ℕ → Outcome Bool
test_byte bit none = fault
test_byte bit (some byte) = ok (has_bit byte (bit % 8))

unfoldable pub test_bit : Filter → ℕ → Outcome Bool
test_bit filter bit = test_byte bit (get_elem? filter (bit / 8))

-- `filter[bit / 8] |= (1 << (bit % 8))`.
unfoldable pub set_byte : Filter → ℕ → Option ℕ → Outcome Filter
set_byte filter bit none = fault
set_byte filter bit (some byte) = ok (set filter (bit / 8) (bit_or byte (2 ^ (bit % 8))))

unfoldable pub set_bit : Filter → ℕ → Outcome Filter
set_bit filter bit = set_byte filter bit (get_elem? filter (bit / 8))

abbrev pub bloom_bit : Text → ℕ → ℕ → ℕ
bloom_bit key bits seed = bloom_hash key seed % bits

-- The three seeds.
abbrev pub add_key : ℕ → Text → Filter → Outcome Filter
add_key bits key filter = do
  one ← set_bit filter (bloom_bit key bits 0)
  two ← set_bit one (bloom_bit key bits 1)
  set_bit two (bloom_bit key bits 2)

unfoldable pub add_keys : ℕ → List Text → Filter → Outcome Filter
add_keys bits [] filter = ok filter
add_keys bits (key ∷ keys) filter = do filter' ← add_key bits key filter; add_keys bits keys filter'

-- The two members that the filter is.
pub record Bloom : Type 0 where
  pub filter : Filter
  pub bits : ℕ

abbrev pub no_bloom : Bloom
no_bloom = record { filter = []; bits = 0 }

unfoldable pub write_bloom_filter : List Text → Bloom → Outcome Bloom
write_bloom_filter keys b =
    let bits : ℕ = length keys * 10 % 2 ^ 64 in
    if is_empty keys then ok b else (do
      filter ← add_keys bits keys (replicate ((bits + 7) / 8) 0)
      ok (record { filter = filter; bits = bits }))

abbrev pub test_from : ℕ → Text → Bloom → Outcome Bool → Outcome Bool
test_from seed key b rest = do
  here ← test_bit b.filter (bloom_bit key b.bits seed)
  if here then rest else ok false

unfoldable pub might_contain : Text → Bloom → Outcome Bool
might_contain key b =
    if is_empty b.filter || b.bits == 0
    then ok true
    else test_from 0 key b (test_from 1 key b (test_from 2 key b (ok true)))
