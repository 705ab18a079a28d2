-- ===== src/Netflow/Loops.antt =====
-- Packets on which the loops of v9 and IPFIX do not end, whatever the fuel.
use aiguard_siem.Common.{
  ℕ, zero, suc, ◌+◌, ◌≤◌, ◌<◌, ◌≡◌, refl, true, false, some, [], length, ltb, leb, ◌==◌, Text, find,
  nat_key, arith, Bool-cases, inl, inr,
}
use aiguard_siem.Wire.{Outcome, ok, out_of_fuel, load_in_bounds, be, field}
use aiguard_siem.Netflow.V5.{v9, NetFlowRecord}
use aiguard_siem.Netflow.Templates.{
  TemplateCache, blank_record, v9_fields, data_records, template_set, v9_flowset, v9_flowsets,
  parse_v9, ipfix_set, ipfix_sets, parse_ipfix,
}

-- A template set with no room for a template adds none.
template_set_empty :
    (bytes : Text) (fuel off : ℕ) (cache : TemplateCache)
    → template_set bytes (off + 0) (suc fuel) (off + 4) cache ≡ ok cache
unfolding template_set
template_set_empty bytes fuel off cache =
    let done : ltb (off + 0) (off + 4 + 4) ≡ true = ground arith in rw done

v9_flowset_empty :
    (bytes : Text) (fuel off flowset_id : ℕ) (cache : TemplateCache)
    → flowset_id < 256
    → v9_flowset (suc fuel) bytes off flowset_id 0 cache ≡ ok ([], cache)
unfolding v9_flowset
v9_flowset_empty bytes fuel off flowset_id cache h = elim (Bool-cases (flowset_id == 0)) [
  | inl template ↦ rw (template, template_set_empty bytes fuel off cache)
  | inr other ↦ let control : leb 256 flowset_id ≡ false = ground arith in rw (other, control)
]

v9_flowsets_stuck :
    (inner fuel : ℕ) (bytes : Text) (count off n : ℕ) (cache : TemplateCache)
    → off + 4 ≤ length bytes
    → n < count
    → be (field bytes off 2) < 256
    → be (field bytes (off + 2) 2) ≡ 0
    → v9_flowsets (suc inner) fuel bytes count off n cache ≡ out_of_fuel
unfolding v9_flowsets
v9_flowsets_stuck inner zero bytes count off n cache b c i l = refl
v9_flowsets_stuck inner (suc fuel) bytes count off n cache b c i l =
    let room : leb (off + 4) (length bytes) ≡ true = ground arith in
    let counted : ltb n count ≡ true = ground arith in
    let off_eq : off + 0 ≡ off = omega arith in
    let n_eq : n + 0 ≡ n = omega arith in
    let inside : ltb (length bytes) (off + 0) ≡ false = ground arith in
    rw (
      room,
      counted,
      load_in_bounds bytes off 2 (omega arith),
      load_in_bounds bytes (off + 2) 2 (omega arith),
      l,
      inside,
      v9_flowset_empty bytes inner off (be (field bytes off 2)) cache i,
      off_eq,
      n_eq,
      v9_flowsets_stuck inner fuel bytes count off n cache b c i l,
    )

-- A v9 packet whose first flowset is a template or a control flowset of length 0 makes the parser
-- loop for ever: whatever the fuel, it runs out.
pub parse_v9_zero_length :
    (fuel : ℕ) (cache : TemplateCache) (bytes : Text)
    → 24 ≤ length bytes
    → 0 < be (field bytes 2 2)
    → be (field bytes 20 2) < 256
    → be (field bytes 22 2) ≡ 0
    → parse_v9 fuel cache bytes ≡ out_of_fuel
unfolding parse_v9 v9_flowsets
parse_v9_zero_length zero cache bytes b c i l =
    let long : ltb (length bytes) 20 ≡ false = ground arith in
    rw (long, load_in_bounds bytes 2 2 (omega arith))
parse_v9_zero_length (suc fuel) cache bytes b c i l =
    let long : ltb (length bytes) 20 ≡ false = ground arith in
    rw (long, load_in_bounds bytes 2 2 (omega arith))
      (v9_flowsets_stuck fuel (suc fuel) bytes (be (field bytes 2 2)) 20 0 cache b c i l)

ipfix_set_empty :
    (bytes : Text) (fuel off set_id : ℕ) (cache : TemplateCache)
    → set_id < 256
    → ipfix_set (suc fuel) bytes off set_id 0 cache ≡ ok ([], cache)
unfolding ipfix_set
ipfix_set_empty bytes fuel off set_id cache h = elim (Bool-cases (set_id == 2)) [
  | inl template ↦ rw (template, template_set_empty bytes fuel off cache)
  | inr other ↦ let control : leb 256 set_id ≡ false = ground arith in rw (other, control)
]

ipfix_sets_stuck :
    (inner fuel : ℕ) (bytes : Text) (limit off : ℕ) (cache : TemplateCache)
    → limit ≤ length bytes
    → off + 4 ≤ limit
    → be (field bytes off 2) < 256
    → be (field bytes (off + 2) 2) ≡ 0
    → ipfix_sets (suc inner) fuel bytes limit off cache ≡ out_of_fuel
unfolding ipfix_sets
ipfix_sets_stuck inner zero bytes limit off cache m b i l = refl
ipfix_sets_stuck inner (suc fuel) bytes limit off cache m b i l =
    let room : leb (off + 4) limit ≡ true = ground arith in
    let inside : ltb limit (off + 0) ≡ false = ground arith in
    let off_eq : off + 0 ≡ off = omega arith in
    rw (
      room,
      load_in_bounds bytes off 2 (omega arith),
      load_in_bounds bytes (off + 2) 2 (omega arith),
      l,
      inside,
      ipfix_set_empty bytes inner off (be (field bytes off 2)) cache i,
      off_eq,
      ipfix_sets_stuck inner fuel bytes limit off cache m b i l,
    )

-- So does an IPFIX message whose first set has an id below 256 and the length 0.
pub parse_ipfix_zero_length :
    (fuel : ℕ) (cache : TemplateCache) (bytes : Text)
    → 20 ≤ be (field bytes 2 2)
    → be (field bytes 2 2) ≤ length bytes
    → be (field bytes 16 2) < 256
    → be (field bytes 18 2) ≡ 0
    → parse_ipfix fuel cache bytes ≡ out_of_fuel
unfolding parse_ipfix ipfix_sets
parse_ipfix_zero_length zero cache bytes b m i l =
    let long : ltb (length bytes) 16 ≡ false = ground arith in
    rw (long, load_in_bounds bytes 2 2 (omega arith))
parse_ipfix_zero_length (suc fuel) cache bytes b m i l =
    let long : ltb (length bytes) 16 ≡ false = ground arith in
    let whole : ltb (length bytes) (be (field bytes 2 2)) ≡ false = ground arith in
    rw (long, load_in_bounds bytes 2 2 (omega arith), whole)
      (ipfix_sets_stuck fuel (suc fuel) bytes (be (field bytes 2 2)) 16 cache m b i l)

-- Records that take no bytes never fill a data set.
pub data_records_stuck :
    (read : ℕ → Outcome NetFlowRecord) (finish fuel off : ℕ) (r : NetFlowRecord)
    → off ≤ finish
    → read off ≡ ok r
    → data_records read 0 finish fuel off ≡ out_of_fuel
unfolding data_records
data_records_stuck read finish zero off r h e = refl
data_records_stuck read finish (suc fuel) off r h e =
    let room : ltb finish (off + 0) ≡ false = ground arith in
    let off_eq : off + 0 ≡ off = omega arith in
    rw (room, e, off_eq, data_records_stuck read finish fuel off r h e)

-- A template may have no fields: a template set that announces a field count of 0 stores it. From
-- then on every data flowset of that template with room for its header makes v9 loop for ever.
pub v9_flowset_no_fields :
    (fuel : ℕ) (bytes : Text) (off flowset_id flowset_len : ℕ) (cache : TemplateCache)
    → 256 ≤ flowset_id
    → find flowset_id cache ≡ some []
    → 4 ≤ flowset_len
    → v9_flowset fuel bytes off flowset_id flowset_len cache ≡ out_of_fuel
unfolding v9_flowset v9_fields
v9_flowset_no_fields fuel bytes off flowset_id flowset_len cache i f l =
    let not_template : (flowset_id == 0) ≡ false = ground arith in
    let is_set : leb 256 flowset_id ≡ true = ground arith in
    rw (
      not_template,
      is_set,
      f,
      data_records_stuck _ (off + flowset_len) fuel (off + 4) (blank_record v9) (omega arith) refl,
    )
