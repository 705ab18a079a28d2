-- ===== src/Netflow/Templates.antt =====
-- collectors/netflow/src/netflow_parser.cpp: NetFlow v9 and IPFIX. The templates of earlier packets
-- are the parser's `thread_local` state. Each loop takes fuel; `out_of_fuel` is a loop that did not
-- end within it.
use aiguard_siem.Common.{
  ℕ, zero, suc, ◌+◌, ◌^◌, ◌%◌, ◌&&◌, none, some, List, [], ◌∷◌, ◌++◌, if◌then◌else◌, length, ltb,
  leb, ◌==◌, Text, find, insert, nat_key,
}
use aiguard_siem.Wire.{Outcome, ok, fault, out_of_fuel, ◌>>=◌, load, le, be}
use aiguard_siem.Netflow.V5.{NetFlowVersion, v9, ipfix, NetFlowRecord, parse_v5}

-- A field's type and its length.
abbrev pub Fields : Type 0
Fields = List (ℕ × ℕ)

-- `std::unordered_map<uint16_t, std::vector<std::pair<uint16_t, uint16_t>>>`.
abbrev pub TemplateCache : Type 0
TemplateCache = List (ℕ × Fields)

unfoldable pub blank_record : NetFlowVersion → NetFlowRecord
blank_record v = record {
  src_addr = 0;
  dst_addr = 0;
  next_hop = 0;
  input_if = 0;
  output_if = 0;
  d_pkts = 0;
  d_octets = 0;
  first = 0;
  last = 0;
  src_port = 0;
  dst_port = 0;
  protocol = 0;
  tcp_flags = 0;
  tos = 0;
  src_as = 0;
  dst_as = 0;
  src_mask = 0;
  dst_mask = 0;
  version = v;
}

-- `read_uint`: a copy of `n` bytes into a `uint32_t`, out of bounds above four.
unfoldable pub read_uint : Text → ℕ → ℕ → Outcome ℕ
unfolding load le be
read_uint bytes off n = if ltb 4 n then fault else (do
  raw ← load bytes off n
  ok (if n == 2 then be raw else (if n == 4 then be raw else le raw)))

abbrev pub low16 : ℕ → ℕ
low16 n = n % 2 ^ 16

-- The fields that v9 and IPFIX read alike.
unfoldable pub read_common : Text → ℕ → ℕ → ℕ → NetFlowRecord → Outcome NetFlowRecord
unfolding read_uint
read_common bytes off kind n r =
    if kind == 1
    then (do x ← read_uint bytes off n; ok (record r { d_octets = x }))
    else (if kind == 2
        then (do x ← read_uint bytes off n; ok (record r { d_pkts = x }))
        else (if kind == 4
            then (do x ← load bytes off 1; ok (record r { protocol = le x }))
            else (if kind == 6
                then (do x ← load bytes off 1; ok (record r { tcp_flags = le x }))
                else (if kind == 7
                    then (do x ← read_uint bytes off n; ok (record r { src_port = low16 x }))
                    else (if kind == 8
                        then (do x ← load bytes off 4; ok (record r { src_addr = le x }))
                        else (if kind == 10
                            then (do
                              x ← read_uint bytes off n
                              ok (record r { dst_port = low16 x }))
                            else (if kind == 11
                                then (do x ← load bytes off 4; ok (record r { dst_addr = le x }))
                                else ok r)))))))

-- v9 reads three more.
unfoldable pub read_v9 : Text → ℕ → ℕ → ℕ → NetFlowRecord → Outcome NetFlowRecord
unfolding read_common
read_v9 bytes off kind n r =
    if kind == 12
    then (do x ← read_uint bytes off n; ok (record r { d_octets = x }))
    else (if kind == 22
        then (do x ← read_uint bytes off n; ok (record r { src_as = low16 x }))
        else (if kind == 23
            then (do x ← load bytes off 1; ok (record r { tos = le x }))
            else read_common bytes off kind n r))

-- The fields of one record of v9; the loop stops at a field that would pass the flowset's end.
unfoldable pub v9_fields : Text → ℕ → Fields → ℕ → NetFlowRecord → Outcome NetFlowRecord
unfolding read_v9
v9_fields bytes finish [] off r = ok r
v9_fields bytes finish ((kind, n) ∷ fields) off r =
    let next = λ (r' : NetFlowRecord). v9_fields bytes finish fields (off + n) r' in
    if ltb finish (off + n) then ok r else (read_v9 bytes off kind n r >>= next)

-- IPFIX makes no such check.
unfoldable pub ipfix_fields : Text → Fields → ℕ → NetFlowRecord → Outcome NetFlowRecord
unfolding read_common
ipfix_fields bytes [] off r = ok r
ipfix_fields bytes ((kind, n) ∷ fields) off r =
    read_common bytes off kind n r >>= λ r'. ipfix_fields bytes fields (off + n) r'

abbrev pub total_length : Fields → ℕ
total_length [] = 0
total_length ((kind, n) ∷ fields) = n + total_length fields

-- The loop over the records of a data set that ends at `finish`.
unfoldable pub data_records :
    (ℕ → Outcome NetFlowRecord) → ℕ → ℕ → ℕ → ℕ → Outcome (List NetFlowRecord)
data_records read size finish zero off = out_of_fuel
data_records read size finish (suc fuel) off =
    let rest = data_records read size finish fuel (off + size) in
    if ltb finish (off + size) then ok [] else (do r ← read off; rs ← rest; ok (r ∷ rs))

-- The loop over a template's field specifiers, and where it stops.
unfoldable pub template_fields : Text → ℕ → ℕ → ℕ → Outcome (Fields × ℕ)
unfolding load be
template_fields bytes finish zero off = ok ([], off)
template_fields bytes finish (suc left) off =
    let rest = template_fields bytes finish left (off + 4) in
    if ltb finish (off + 4) then ok ([], off) else (do
      kind ← load bytes off 2
      n ← load bytes (off + 2) 2
      (fields, stop) ← rest
      ok ((be kind, be n) ∷ fields, stop))

-- The loop over the templates of a template set that ends at `finish`.
unfoldable pub template_set : Text → ℕ → ℕ → ℕ → TemplateCache → Outcome TemplateCache
unfolding template_fields
template_set bytes finish zero off cache = out_of_fuel
template_set bytes finish (suc fuel) off cache =
    let next = λ (stop : ℕ) (c : TemplateCache). template_set bytes finish fuel stop c in
    if ltb finish (off + 4) then ok cache else (do
      template_id ← load bytes off 2
      field_count ← load bytes (off + 2) 2
      (fields, stop) ← template_fields bytes finish (be field_count) (off + 4)
      next stop (insert (be template_id) fields cache))

-- What a flowset adds: the records and the templates.
abbrev pub Parsed : Type 0
Parsed = List NetFlowRecord × TemplateCache

unfoldable pub v9_flowset : ℕ → Text → ℕ → ℕ → ℕ → TemplateCache → Outcome Parsed
v9_flowset fuel bytes off flowset_id flowset_len cache =
    let finish : ℕ = off + flowset_len in
    if flowset_id == 0
    then (do c ← template_set bytes finish fuel (off + 4) cache; ok ([], c))
    else (if leb 256 flowset_id
        then elim (find flowset_id cache) [
          | none ↦ ok ([], cache)
          | some fields ↦ do
            rs ←
                data_records (λ at_off. v9_fields bytes finish fields at_off (blank_record v9))
                  (total_length fields) finish fuel (off + 4)
            ok (rs, cache)
        ]
        else ok ([], cache))

-- The loop over the flowsets. `flow_set_count` counts the records of data flowsets.
unfoldable pub v9_flowsets : ℕ → ℕ → Text → ℕ → ℕ → ℕ → TemplateCache → Outcome Parsed
v9_flowsets inner zero bytes count off flow_set_count cache = out_of_fuel
v9_flowsets inner (suc fuel) bytes count off flow_set_count cache =
    let next = λ (o n : ℕ) (c : TemplateCache). v9_flowsets inner fuel bytes count o n c in
    if leb (off + 4) (length bytes) && ltb flow_set_count count
    then (do
      flowset_id ← load bytes off 2
      flowset_len ← load bytes (off + 2) 2
      if ltb (length bytes) (off + be flowset_len) then ok ([], cache) else (do
        (rs, c) ← v9_flowset inner bytes off (be flowset_id) (be flowset_len) cache
        (more, c') ← next (off + be flowset_len) (flow_set_count + length rs) c
        ok (rs ++ more, c')))
    else ok ([], cache)

unfoldable pub parse_v9 : ℕ → TemplateCache → Text → Outcome Parsed
parse_v9 fuel cache bytes =
    if ltb (length bytes) 20
    then ok ([], cache)
    else (do count ← load bytes 2 2; v9_flowsets fuel fuel bytes (be count) 20 0 cache)

unfoldable pub ipfix_set : ℕ → Text → ℕ → ℕ → ℕ → TemplateCache → Outcome Parsed
ipfix_set fuel bytes off set_id set_len cache =
    let finish : ℕ = off + set_len in
    if set_id == 2
    then (do c ← template_set bytes finish fuel (off + 4) cache; ok ([], c))
    else (if leb 256 set_id
        then elim (find set_id cache) [
          | none ↦ ok ([], cache)
          | some fields ↦ do
            rs ←
                data_records (λ at_off. ipfix_fields bytes fields at_off (blank_record ipfix))
                  (total_length fields) finish fuel (off + 4)
            ok (rs, cache)
        ]
        else ok ([], cache))

-- The loop over the sets, up to the header's length.
unfoldable pub ipfix_sets : ℕ → ℕ → Text → ℕ → ℕ → TemplateCache → Outcome Parsed
ipfix_sets inner zero bytes limit off cache = out_of_fuel
ipfix_sets inner (suc fuel) bytes limit off cache =
    let next = λ (o : ℕ) (c : TemplateCache). ipfix_sets inner fuel bytes limit o c in
    if leb (off + 4) limit
    then (do
      set_id ← load bytes off 2
      set_len ← load bytes (off + 2) 2
      if ltb limit (off + be set_len) then ok ([], cache) else (do
        (rs, c) ← ipfix_set inner bytes off (be set_id) (be set_len) cache
        (more, c') ← next (off + be set_len) c
        ok (rs ++ more, c')))
    else ok ([], cache)

unfoldable pub parse_ipfix : ℕ → TemplateCache → Text → Outcome Parsed
parse_ipfix fuel cache bytes = if ltb (length bytes) 16 then ok ([], cache) else (do
  announced ← load bytes 2 2
  let limit = if ltb (length bytes) (be announced) then low16 (length bytes) else be announced
  ipfix_sets fuel fuel bytes limit 16 cache)

-- `parse`: by the version in the first two bytes. v9 and IPFIX keep a cache each.
unfoldable pub parse :
    ℕ
    → TemplateCache
    → TemplateCache
    → Text
    → Outcome (List NetFlowRecord × TemplateCache × TemplateCache)
parse fuel v9_cache ipfix_cache bytes =
    if ltb (length bytes) 2 then ok ([], v9_cache, ipfix_cache) else (do
      version ← load bytes 0 2
      if be version == 5
          then (do rs ← parse_v5 bytes; ok (rs, v9_cache, ipfix_cache))
          else (if be version == 9
              then (do (rs, c) ← parse_v9 fuel v9_cache bytes; ok (rs, c, ipfix_cache))
              else (if be version == 10
                  then (do (rs, c) ← parse_ipfix fuel ipfix_cache bytes; ok (rs, v9_cache, c))
                  else ok ([], v9_cache, ipfix_cache))))
