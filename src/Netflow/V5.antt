-- ===== src/Netflow/V5.antt =====
-- collectors/netflow/src/netflow_parser.cpp: NetFlow v5, a header and records of fixed size.
use aiguard_siem.Common.{
  ℕ, zero, suc, ◌+◌, ◌-◌, ◌/◌, ◌≤◌, ◌<◌, ◌≡◌, refl, true, false, List, [], ◌∷◌, map, if◌then◌else◌,
  length, length-map, ltb, leb, leb→le, take, drop, length-drop, drop-drop, arith, Text, Bool-cases,
  inl, inr, min,
}
use aiguard_siem.Wire.{Outcome, ok, ◌>>=◌, load, load_in_bounds, le, be, field}

pub data NetFlowVersion : Type 0 where
  v5 v9 ipfix : NetFlowVersion

pub record NetFlowRecord : Type 0 where
  pub src_addr : ℕ
  pub dst_addr : ℕ
  pub next_hop : ℕ
  pub input_if : ℕ
  pub output_if : ℕ
  pub d_pkts : ℕ
  pub d_octets : ℕ
  pub first : ℕ
  pub last : ℕ
  pub src_port : ℕ
  pub dst_port : ℕ
  pub protocol : ℕ
  pub tcp_flags : ℕ
  pub tos : ℕ
  pub src_as : ℕ
  pub dst_as : ℕ
  pub src_mask : ℕ
  pub dst_mask : ℕ
  pub version : NetFlowVersion

abbrev pub header_size : ℕ
header_size = 24

abbrev pub record_size : ℕ
record_size = 48

-- The fields of the packed struct `NetFlowV5Record`. The addresses stay in network byte order.
unfoldable pub decode_record : Text → NetFlowRecord
unfolding le be
decode_record rec = record {
  src_addr = le (field rec 0 4);
  dst_addr = le (field rec 4 4);
  next_hop = le (field rec 8 4);
  input_if = be (field rec 12 2);
  output_if = be (field rec 14 2);
  d_pkts = be (field rec 16 4);
  d_octets = be (field rec 20 4);
  first = be (field rec 24 4);
  last = be (field rec 28 4);
  src_port = be (field rec 32 2);
  dst_port = be (field rec 34 2);
  tcp_flags = le (field rec 37 1);
  protocol = le (field rec 38 1);
  tos = le (field rec 39 1);
  src_as = be (field rec 40 2);
  dst_as = be (field rec 42 2);
  src_mask = le (field rec 44 1);
  dst_mask = le (field rec 45 1);
  version = v5;
}

-- The loop over the records: `left` more are announced, the next one would stand at `offset`.
unfoldable pub parse_records : Text → ℕ → ℕ → Outcome (List NetFlowRecord)
unfolding load
parse_records bytes zero offset = ok []
parse_records bytes (suc left) offset =
    let rest = parse_records bytes left (offset + record_size) in
    if ltb (length bytes) (offset + record_size)
    then ok []
    else (do rec ← load bytes offset record_size; records ← rest; ok (decode_record rec ∷ records))

unfoldable pub parse_v5 : Text → Outcome (List NetFlowRecord)
unfolding parse_records
parse_v5 bytes =
    if ltb (length bytes) header_size
    then ok []
    else (do count ← load bytes 2 2; parse_records bytes (be count) header_size)

-- The reference: the whole blocks of 48 bytes at the front of a text, `n` at most.
unfoldable pub blocks : ℕ → Text → List Text
blocks zero bytes = []
blocks (suc n) bytes =
    if leb record_size (length bytes)
    then take record_size bytes ∷ blocks n (drop record_size bytes)
    else []

parse_records-eq-blocks :
    (bytes : Text) (left offset : ℕ)
    → parse_records bytes left offset ≡ ok (map decode_record (blocks left (drop offset bytes)))
unfolding parse_records blocks
parse_records-eq-blocks bytes zero offset = refl
parse_records-eq-blocks bytes (suc left) offset =
    elim (Bool-cases (ltb (length bytes) (offset + record_size))) [
      | inl short ↦
          let none_left : leb record_size (length (drop offset bytes)) ≡ false =
            ground (arith, length-drop offset bytes) in
          rw (short, none_left)
      | inr fits ↦
          let more : leb record_size (length (drop offset bytes)) ≡ true =
            ground (arith, length-drop offset bytes) in
          rw (
            fits,
            more,
            load_in_bounds bytes offset record_size (ground arith),
            parse_records-eq-blocks bytes left (offset + record_size),
            drop-drop offset record_size bytes,
          )
    ]

-- A v5 packet never makes the parser read out of bounds. From a packet that holds the header it
-- decodes the whole records that are there, in order, but no more than the header's count; from a
-- shorter one, nothing.
pub parse_v5-eq-blocks :
    (bytes : Text)
    → parse_v5 bytes
      ≡ ok (
          if ltb (length bytes) header_size
          then []
          else map decode_record (blocks (be (field bytes 2 2)) (drop header_size bytes)))
unfolding parse_v5
parse_v5-eq-blocks bytes = elim (Bool-cases (ltb (length bytes) header_size)) [
  | inl short ↦ rw short
  | inr fits ↦
      rw (fits, load_in_bounds bytes 2 2 (ground arith))
        (parse_records-eq-blocks bytes (be (field bytes 2 2)) header_size)
]

length-blocks :
    (n : ℕ) (bytes : Text) → length (blocks n bytes) ≡ min n (length bytes / record_size)
unfolding blocks
length-blocks zero bytes = omega arith
length-blocks (suc n) bytes = elim (Bool-cases (leb record_size (length bytes))) [
  | inl fits ↦ rw fits (
      omega (
        arith,
        length-blocks n (drop record_size bytes),
        length-drop record_size bytes,
        leb→le record_size (length bytes) fits,
      ))
  | inr short ↦ rw short (let small : length bytes < record_size = ground arith in omega arith)
]

-- A packet that holds the header gives as many records as its count announces and its length has
-- room for.
pub parse_v5_count :
    (bytes : Text)
    → header_size ≤ length bytes
    → (rs : List NetFlowRecord) × (parse_v5 bytes ≡ ok rs)
      × (length rs ≡ min (be (field bytes 2 2)) ((length bytes - header_size) / record_size))
parse_v5_count bytes h =
    let n : ℕ = be (field bytes 2 2) in
    let whole : List Text = blocks n (drop header_size bytes) in
    let enough : ltb (length bytes) header_size ≡ false = ground arith in
    (
      map decode_record whole,
      rw enough at (parse_v5-eq-blocks bytes),
      omega (
        arith,
        length-map whole decode_record,
        length-blocks n (drop header_size bytes),
        length-drop header_size bytes,
      ),
    )
