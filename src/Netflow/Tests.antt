-- ===== src/Netflow/Tests.antt =====
-- The parser on small packets.
use aiguard_siem.Common.{
  ℕ, ◌+◌, ◌*◌, ◌≤◌, ◌<◌, ◌≡◌, refl, List, [], ◌∷◌, ◌++◌, length, replicate, Text, map,
  if◌then◌else◌, ltb, arith, find, some, nat_key,
}
use aiguard_siem.Wire.{ok, out_of_fuel, be}
use aiguard_siem.Netflow.V5.{NetFlowRecord, decode_record, parse_v5, blocks, parse_v5-eq-blocks}
use aiguard_siem.Netflow.Templates.{TemplateCache, Fields, v9_flowset, ipfix_set, parse_v9}
use aiguard_siem.Netflow.Sets.{v9_data_flowset, ipfix_data_set}
use aiguard_siem.Netflow.Loops.{parse_v9_zero_length}

-- A header that announces two records, and one record.
abbrev v5_packet : Text
v5_packet = (0 ∷ 5 ∷ 0 ∷ 2 ∷ []) ++ replicate 68 1

parse_v5-eq-blocks_example :
    parse_v5 v5_packet
    ≡ ok (if ltb 72 24 then [] else map decode_record (blocks (be (0 ∷ 2 ∷ [])) (replicate 48 1)))
parse_v5-eq-blocks_example = parse_v5-eq-blocks v5_packet

-- A template of a byte count and a source address.
abbrev bytes_and_source : Fields
bytes_and_source = (1, 4) ∷ (8, 4) ∷ []

abbrev cache : TemplateCache
cache = (256, bytes_and_source) ∷ []

-- A data set of that template with room for two records.
abbrev data_set : Text
data_set = (1 ∷ 0 ∷ 0 ∷ 20 ∷ []) ++ replicate 16 7

found : find 256 cache ≡ some bytes_and_source
unfolding find
found = refl

v9_data_flowset_example :
    (rs : List NetFlowRecord) × (v9_flowset 21 data_set 0 256 20 cache ≡ ok (rs, cache))
    × (4 + length rs * 8 ≤ 20)
    × (20 < 4 + length rs * 8 + 8)
v9_data_flowset_example =
    v9_data_flowset 21 data_set 0 256 20 cache bytes_and_source (omega arith) found (omega arith)
      (omega arith) (omega arith) (omega arith) (omega arith)

ipfix_data_set_example :
    (rs : List NetFlowRecord) × (ipfix_set 21 data_set 0 256 20 cache ≡ ok (rs, cache))
    × (4 + length rs * 8 ≤ 20)
    × (20 < 4 + length rs * 8 + 8)
ipfix_data_set_example =
    ipfix_data_set 21 data_set 0 256 20 cache bytes_and_source (omega arith) found (omega arith)
      (omega arith) (omega arith) (omega arith) (omega arith)

-- A header that announces one flowset, and a template flowset of length 0.
abbrev zero_length : Text
zero_length = (0 ∷ 9 ∷ 0 ∷ 1 ∷ []) ++ replicate 20 0

below : be (0 ∷ 0 ∷ []) < 256
unfolding be
below = omega arith

two_zeros : be (0 ∷ 0 ∷ []) ≡ 0
unfolding be
two_zeros = refl

be_small : (n : ℕ) → be (0 ∷ n ∷ []) ≡ n
unfolding be
be_small n = omega arith

parse_v9_zero_length_example : parse_v9 1000 [] zero_length ≡ out_of_fuel
parse_v9_zero_length_example =
    parse_v9_zero_length 1000 [] zero_length (omega arith) (omega (arith, be_small 1)) below
      two_zeros

-- A message of 20 bytes with a template set of length 0.
abbrev zero_set : Text
zero_set = (0 ∷ 10 ∷ 0 ∷ 20 ∷ []) ++ replicate 16 0
