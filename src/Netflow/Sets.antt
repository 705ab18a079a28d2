-- ===== src/Netflow/Sets.antt =====
-- Data sets of well-sized templates, and the inputs on which the loops of v9 and IPFIX do not end.
use aiguard_siem.Common.{
  ℕ, zero, suc, ◌+◌, ◌*◌, ◌≤◌, ◌<◌, ◌≡◌, refl, Bool, true, false, some, List, [], ◌∷◌,
  if◌then◌else◌, length, ltb, leb, ◌==◌, ==_iff, Every, Text, take, drop, find, nat_key, arith,
  Bool-cases, inl, inr,
}
use aiguard_siem.Wire.{Outcome, ok, ◌>>=◌, load, le}
use aiguard_siem.Netflow.V5.{v9, ipfix, NetFlowRecord}
use aiguard_siem.Netflow.Templates.{
  Fields, TemplateCache, low16, total_length, blank_record, read_uint, read_common, read_v9,
  v9_fields, ipfix_fields, data_records, v9_flowset, ipfix_set,
}

-- A call that succeeds.
abbrev pub Succeeds {ℓ} : {A : Type ℓ} → Outcome A → Type ℓ
Succeeds {A = A} o = (a : A) × (o ≡ ok a)

bind-Succeeds {ℓ κ} :
    {A : Type ℓ} {B : Type κ} (m : Outcome A) (f : A → Outcome B)
    → Succeeds m
    → ((a : A) → Succeeds (f a))
    → Succeeds (m >>= f)
bind-Succeeds m f (a, e) h = rw e (h a)

if-Succeeds {ℓ} :
    {A : Type ℓ} (b : Bool) (x y : Outcome A)
    → (b ≡ true → Succeeds x)
    → (b ≡ false → Succeeds y)
    → Succeeds (if b then x else y)
if-Succeeds true x y h k = h refl
if-Succeeds false x y h k = k refl

load-Succeeds : (bytes : Text) (off n : ℕ) → off + n ≤ length bytes → Succeeds (load bytes off n)
unfolding load
load-Succeeds bytes off n h = (take n (drop off bytes), ground arith)

-- The sizes for which reading a field stays inside the field: at most four bytes, four for an
-- address, and at least one for the fields of one byte.
abbrev pub IsSized : ℕ × ℕ → Type 0
IsSized (kind, n) =
    (n ≤ 4)
    × (kind ≡ 8 → n ≡ 4)
    × (kind ≡ 11 → n ≡ 4)
    × (kind ≡ 4 → 1 ≤ n)
    × (kind ≡ 6 → 1 ≤ n)
    × (kind ≡ 23 → 1 ≤ n)

read_uint-Succeeds :
    (bytes : Text) (off n : ℕ) → n ≤ 4 → off + n ≤ length bytes → Succeeds (read_uint bytes off n)
unfolding read_uint
read_uint-Succeeds bytes off n h k =
    let small : ltb 4 n ≡ false = ground arith in
    let got = load-Succeeds bytes off n k in rw (small, got.1) (_, refl)

read_common-Succeeds :
    (bytes : Text) (off kind n : ℕ) (r : NetFlowRecord)
    → IsSized (kind, n)
    → off + n ≤ length bytes
    → Succeeds (read_common bytes off kind n r)
unfolding read_common
read_common-Succeeds bytes off kind n r h k =
    let number = λ (f : ℕ → NetFlowRecord).
      bind-Succeeds (read_uint bytes off n) (λ x. ok (f x)) (read_uint-Succeeds bytes off n h.0 k)
        (λ x. (f x, refl)) in
    let raw = λ (w : ℕ) (f : Text → NetFlowRecord) (p : w ≤ n).
      bind-Succeeds (load bytes off w) (λ x. ok (f x))
        (load-Succeeds bytes off w (omega (arith, k, p))) (λ x. (f x, refl)) in
    if-Succeeds (kind == 1) _ _ (λ _. number (λ x. record r { d_octets = x }))
      λ _.
        if-Succeeds (kind == 2) _ _ (λ _. number (λ x. record r { d_pkts = x }))
          λ _.
            let is = λ (m : ℕ) (e : (kind == m) ≡ true). (==_iff kind m).0 e in
            if-Succeeds (kind == 4) _ _
              (λ e. raw 1 (λ x. record r { protocol = le x }) (h.3 (is 4 e)))
              λ _.
                if-Succeeds (kind == 6) _ _
                  (λ e. raw 1 (λ x. record r { tcp_flags = le x }) (h.4 (is 6 e)))
                  λ _.
                    if-Succeeds (kind == 7) _ _ (λ _. number (λ x. record r { src_port = low16 x }))
                      λ _.
                        if-Succeeds (kind == 8) _ _
                          (λ e.
                            raw 4 (λ x. record r { src_addr = le x }) (omega (arith, h.1 (is 8 e))))
                          λ _.
                            if-Succeeds (kind == 10) _ _
                              (λ _. number (λ x. record r { dst_port = low16 x }))
                              λ _.
                                if-Succeeds (kind == 11) _ _
                                  (λ e.
                                    raw 4 (λ x. record r { dst_addr = le x })
                                      (omega (arith, h.2 (is 11 e))))
                                  λ _. (r, refl)

read_v9-Succeeds :
    (bytes : Text) (off kind n : ℕ) (r : NetFlowRecord)
    → IsSized (kind, n)
    → off + n ≤ length bytes
    → Succeeds (read_v9 bytes off kind n r)
unfolding read_v9
read_v9-Succeeds bytes off kind n r h k =
    let number = λ (f : ℕ → NetFlowRecord).
      bind-Succeeds (read_uint bytes off n) (λ x. ok (f x)) (read_uint-Succeeds bytes off n h.0 k)
        (λ x. (f x, refl)) in
    if-Succeeds (kind == 12) _ _ (λ _. number (λ x. record r { d_octets = x }))
      λ _.
        if-Succeeds (kind == 22) _ _ (λ _. number (λ x. record r { src_as = low16 x }))
          λ _.
            if-Succeeds (kind == 23) _ _
              (λ e.
                bind-Succeeds (load bytes off 1) _
                  (load-Succeeds bytes off 1 (omega (arith, k, h.5 ((==_iff kind 23).0 e))))
                  (λ x. (record r { tos = le x }, refl)))
              λ _. read_common-Succeeds bytes off kind n r h k

v9_fields-Succeeds :
    (bytes : Text) (finish : ℕ) (fields : Fields) (off : ℕ) (r : NetFlowRecord)
    → Every IsSized fields
    → finish ≤ length bytes
    → Succeeds (v9_fields bytes finish fields off r)
unfolding v9_fields
v9_fields-Succeeds bytes finish [] off r h k = (r, refl)
v9_fields-Succeeds bytes finish ((kind, n) ∷ fields) off r h k =
    if-Succeeds (ltb finish (off + n)) _ _ (λ _. (r, refl))
      λ e.
        bind-Succeeds (read_v9 bytes off kind n r) _
          (read_v9-Succeeds bytes off kind n r h.0 (ground arith))
          (λ r'. v9_fields-Succeeds bytes finish fields (off + n) r' h.1 k)

ipfix_fields-Succeeds :
    (bytes : Text) (fields : Fields) (off : ℕ) (r : NetFlowRecord)
    → Every IsSized fields
    → off + total_length fields ≤ length bytes
    → Succeeds (ipfix_fields bytes fields off r)
unfolding ipfix_fields
ipfix_fields-Succeeds bytes [] off r h k = (r, refl)
ipfix_fields-Succeeds bytes ((kind, n) ∷ fields) off r h k =
    bind-Succeeds (read_common bytes off kind n r) _
      (read_common-Succeeds bytes off kind n r h.0 (omega arith))
      (λ r'. ipfix_fields-Succeeds bytes fields (off + n) r' h.1 (omega arith))

-- The loop over the records ends within `finish - off` rounds, if a record takes some bytes and
-- reading one succeeds; and the records take up all of the room but less than one record.
data_records-total :
    (read : ℕ → Outcome NetFlowRecord) (size finish fuel off : ℕ)
    → 0 < size
    → off ≤ finish
    → finish < off + fuel
    → ((at_off : ℕ) → at_off + size ≤ finish → Succeeds (read at_off))
    → (rs : List NetFlowRecord) × (data_records read size finish fuel off ≡ ok rs)
      × (off + length rs * size ≤ finish)
      × (finish < off + length rs * size + size)
unfolding data_records
data_records-total read size finish zero off p o h k = absurd (omega arith)
data_records-total read size finish (suc fuel) off p o h k =
    elim (Bool-cases (ltb finish (off + size))) [
      | inl full ↦ rw full ([], refl, omega arith, ground arith)
      | inr room ↦
          let fits : off + size ≤ finish = ground arith in
          let one = k off fits in
          let more = data_records-total read size finish fuel (off + size) p fits (omega arith) k in
          rw (room, one.1, more.1)
            (one.0 ∷ more.0, refl, grind (arith, more.2), grind (arith, more.3))
    ]

-- A data flowset of v9 whose template is known, takes some bytes and is well sized, and that lies
-- in the packet: the parser reads no byte out of bounds, ends, keeps the templates, and returns as
-- many records as fit behind the flowset's header.
pub v9_data_flowset :
    (fuel : ℕ) (bytes : Text) (off flowset_id flowset_len : ℕ) (cache : TemplateCache)
    (fields : Fields)
    → 256 ≤ flowset_id
    → find flowset_id cache ≡ some fields
    → Every IsSized fields
    → 0 < total_length fields
    → 4 ≤ flowset_len
    → off + flowset_len ≤ length bytes
    → flowset_len < fuel
    → (rs : List NetFlowRecord) × (v9_flowset fuel bytes off flowset_id flowset_len cache
        ≡ ok (rs, cache))
      × (4 + length rs * total_length fields ≤ flowset_len)
      × (flowset_len < 4 + length rs * total_length fields + total_length fields)
unfolding v9_flowset
v9_data_flowset fuel bytes off flowset_id flowset_len cache fields i f z p l b h =
    let finish : ℕ = off + flowset_len in
    let got =
      data_records-total (λ at_off. v9_fields bytes finish fields at_off (blank_record v9))
        (total_length fields) finish fuel (off + 4) p (omega arith) (omega arith)
        (λ at_off _. v9_fields-Succeeds bytes finish fields at_off (blank_record v9) z b) in
    let not_template : (flowset_id == 0) ≡ false = ground arith in
    let is_set : leb 256 flowset_id ≡ true = ground arith in
    rw (not_template, is_set, f, got.1) (got.0, refl, omega (arith, got.2), omega (arith, got.3))

-- The same of a data set of IPFIX, whose loop over the fields has no check of its own: the loop over
-- the records leaves room for whole records only.
pub ipfix_data_set :
    (fuel : ℕ) (bytes : Text) (off set_id set_len : ℕ) (cache : TemplateCache) (fields : Fields)
    → 256 ≤ set_id
    → find set_id cache ≡ some fields
    → Every IsSized fields
    → 0 < total_length fields
    → 4 ≤ set_len
    → off + set_len ≤ length bytes
    → set_len < fuel
    → (rs : List NetFlowRecord) × (ipfix_set fuel bytes off set_id set_len cache ≡ ok (rs, cache))
      × (4 + length rs * total_length fields ≤ set_len)
      × (set_len < 4 + length rs * total_length fields + total_length fields)
unfolding ipfix_set
ipfix_data_set fuel bytes off set_id set_len cache fields i f z p l b h =
    let finish : ℕ = off + set_len in
    let got =
      data_records-total (λ at_off. ipfix_fields bytes fields at_off (blank_record ipfix))
        (total_length fields) finish fuel (off + 4) p (omega arith) (omega arith)
        (λ at_off fits.
          ipfix_fields-Succeeds bytes fields at_off (blank_record ipfix) z
            (omega (arith, fits, b))) in
    let not_template : (set_id == 2) ≡ false = ground arith in
    let is_set : leb 256 set_id ≡ true = ground arith in
    rw (not_template, is_set, f, got.1) (got.0, refl, omega (arith, got.2), omega (arith, got.3))
