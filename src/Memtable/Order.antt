-- ===== src/Memtable/Order.antt =====
-- The order of the keys: assignments keep it, and where an assigned key is found.
use aiguard_siem.Common.{
  List, ◌≡◌, refl, true, false, some, [], ◌∷◌, Text, find, text_key, text_eq, text_eq_iff, text_lt,
  text_lt_trans, text_lt_trichotomy, if◌then◌else◌, Every, Every-mono, Bool-cases, inl, inr, arith,
  starts_with,
}
use aiguard_siem.Memtable.Table.{assign}

pub text_lt_of_not : (k j : Text) → text_eq k j ≡ false → text_lt k j ≡ false → text_lt j k ≡ true
text_lt_of_not k j e l = ground (arith, text_lt_trichotomy k j, text_eq_iff k j)

module _ {V : Type 0} where
  -- Every key is above `k`.
  abbrev pub Above : Text → List (Text × V) → Type 0
  Above k m = Every (λ r. text_lt k r.0 ≡ true) m

  abbrev pub IsSorted : List (Text × V) → Type 0
  IsSorted [] = Unit
  IsSorted ((k, v) ∷ m) = Above k m × IsSorted m

  pub Above-trans : (j k : Text) (m : List (Text × V)) → text_lt j k ≡ true → Above k m → Above j m
  Above-trans j k m h a =
      Every-mono (λ r. text_lt k r.0 ≡ true) (λ r. text_lt j r.0 ≡ true) m
        (λ r b. text_lt_trans j k r.0 h b) a

  Above-assign :
      (j k : Text) (v : V) (m : List (Text × V))
      → text_lt j k ≡ true
      → Above j m
      → Above j (assign k v m)
  unfolding assign
  Above-assign j k v [] h a = (h, tt)
  Above-assign j k v ((i, w) ∷ m) h a = elim (Bool-cases (text_eq k i)) [
    | inl same ↦ rw same ((a.0, a.1))
    | inr other ↦ elim (Bool-cases (text_lt k i)) [
      | inl before ↦ rw (other, before) ((h, (a.0, a.1)))
      | inr after ↦ rw (other, after) ((a.0, Above-assign j k v m h a.1))
    ]
  ]

  pub assign-IsSorted :
      (k : Text) (v : V) (m : List (Text × V)) → IsSorted m → IsSorted (assign k v m)
  unfolding assign
  assign-IsSorted k v [] s = (tt, tt)
  assign-IsSorted k v ((i, w) ∷ m) s = elim (Bool-cases (text_eq k i)) [
    | inl same ↦ rw same ((s.0, s.1))
    | inr other ↦ elim (Bool-cases (text_lt k i)) [
      | inl before ↦ rw (other, before) (((before, Above-trans k i m before s.0), (s.0, s.1)))
      | inr after ↦
          rw (other, after)
            ((Above-assign i k v m (text_lt_of_not k i other after) s.0, assign-IsSorted k v m s.1))
    ]
  ]

  pub find-assign :
      (k j : Text) (v : V) (m : List (Text × V))
      → find j (assign k v m) ≡ (if text_eq k j then some v else find j m)
  unfolding assign find
  find-assign k j v [] = refl
  find-assign k j v ((i, w) ∷ m) =
      ground (arith, text_eq_iff k j, text_eq_iff i j, text_eq_iff k i, find-assign k j v m)

-- Texts with one prefix are neighbours in the order.
pub starts_with_not_above :
    (p k j : Text)
    → text_lt k p ≡ false
    → starts_with k p ≡ false
    → text_lt k j ≡ true
    → (text_lt j p ≡ false) × (starts_with j p ≡ false)
unfolding text_lt starts_with
starts_with_not_above [] k j a b c = ground arith
starts_with_not_above (x ∷ p) [] j a b c = ground arith
starts_with_not_above (x ∷ p) (y ∷ k) [] a b c = ground arith
starts_with_not_above (x ∷ p) (y ∷ k) (z ∷ j) a b c = ground (arith, starts_with_not_above p k j)

pub starts_with_not_below : (p k : Text) → text_lt k p ≡ true → starts_with k p ≡ false
unfolding text_lt starts_with
starts_with_not_below [] k h = ground arith
starts_with_not_below (x ∷ p) [] h = ground arith
starts_with_not_below (x ∷ p) (y ∷ k) h = ground (arith, starts_with_not_below p k)
