-- ===== src/Common/Maps.antt =====
-- `std::unordered_map` as an association list. The order of the list stands for the order in
-- which the program's loops meet the entries.
use Prim.Native.Nat.{suc, ◌+◌}
use mathlib.Core.Path.{◌≡◌, refl}
use mathlib.Core.Bool.{Bool, true, false}
use mathlib.Core.Option.{Option, none, some}
use mathlib.Core.List.{List, [], ◌∷◌}
use mathlib.Core.Logic.{inl, inr}
use native.Mathlib.Omega.{arith}
use aiguard_siem.Common.Tests.{if◌then◌else◌, Bool-cases}
use aiguard_siem.Common.Lists.{length, Every, get_or_else}
use aiguard_siem.Common.Keys.{Eq}

abbrev pub has {ℓ} : {A : Type ℓ} → Option A → Bool
has none = false
has (some v) = true

module _ {ℓ κ} {K : Type ℓ} {V : Type κ} ⦃e : Eq K⦄ where
  -- `find`, and `end()` as `none`.
  unfoldable pub find : K → List (K × V) → Option V
  find k [] = none
  find k ((j, v) ∷ m) = if e.beq j k then some v else find k m

  -- `m[k] = v`.
  unfoldable pub insert : K → V → List (K × V) → List (K × V)
  insert k v [] = (k, v) ∷ []
  insert k v ((j, w) ∷ m) = if e.beq j k then (j, v) ∷ m else (j, w) ∷ insert k v m

  -- `m.erase(k)`.
  unfoldable pub erase : K → List (K × V) → List (K × V)
  erase k [] = []
  erase k ((j, w) ∷ m) = if e.beq j k then erase k m else (j, w) ∷ erase k m

  -- No key stands twice.
  abbrev pub Distinct : List (K × V) → Type κ
  Distinct [] = Unit {κ}
  Distinct ((j, w) ∷ m) = (find j m ≡ none) × Distinct m

  pub find-insert :
      (k j : K) (v : V) (m : List (K × V))
      → find j (insert k v m) ≡ (if e.beq k j then some v else find j m)
  unfolding find insert
  find-insert k j v [] = refl
  find-insert k j v ((i, w) ∷ m) =
      ground (arith, e.beq_iff k j, e.beq_iff i k, e.beq_iff i j, find-insert k j v m)

  pub find-erase :
      (k j : K) (m : List (K × V)) → find j (erase k m) ≡ (if e.beq k j then none else find j m)
  unfolding find erase
  find-erase k j [] = ground arith
  find-erase k j ((i, w) ∷ m) =
      ground (arith, e.beq_iff k j, e.beq_iff i k, e.beq_iff i j, find-erase k j m)

  pub insert-Distinct : (k : K) (v : V) (m : List (K × V)) → Distinct m → Distinct (insert k v m)
  unfolding insert find
  insert-Distinct k v [] d = (refl, tt)
  insert-Distinct k v ((j, w) ∷ m) d =
      ground (arith, insert-Distinct k v m d.1, find-insert k j v m, e.beq_iff k j, e.beq_iff j k)

  pub erase-Distinct : (k : K) (m : List (K × V)) → Distinct m → Distinct (erase k m)
  unfolding erase
  erase-Distinct k [] d = tt
  erase-Distinct k ((j, w) ∷ m) d = ground (arith, erase-Distinct k m d.1, find-erase k j m)

  pub length-insert :
      (k : K) (v : V) (m : List (K × V))
      → length (insert k v m) ≡ (if has (find k m) then length m else suc (length m))
  unfolding insert find
  length-insert k v [] = refl
  length-insert k v ((j, w) ∷ m) = ground (arith, length-insert k v m)

  pub erase_missing : (k : K) (m : List (K × V)) → find k m ≡ none → erase k m ≡ m
  unfolding erase find
  erase_missing k [] h = refl
  erase_missing k ((j, w) ∷ m) h = ground (arith, erase_missing k m)

  pub length-erase :
      (k : K) (m : List (K × V))
      → Distinct m
      → length (erase k m) + (if has (find k m) then 1 else 0) ≡ length m
  unfolding erase find
  length-erase k [] d = omega arith
  length-erase k ((j, w) ∷ m) d =
      ground (arith, length-erase k m d.1, erase_missing k m, e.beq_iff j k)

  -- What holds of every value is kept by an insertion of one more, and holds of what is found.
  pub Every-insert {μ} :
      (P : V → Type μ) (k : K) (v : V) (m : List (K × V))
      → P v
      → Every (λ r. P r.1) m
      → Every (λ r. P r.1) (insert k v m)
  unfolding insert
  Every-insert P k v [] h a = (h, tt)
  Every-insert P k v ((j, w) ∷ m) h a = elim (Bool-cases (e.beq j k)) [
    | inl same ↦ rw same (h, a.1)
    | inr other ↦ rw other (a.0, Every-insert P k v m h a.1)
  ]

  pub Every-find {μ} :
      (P : V → Type μ) (k : K) (d : V) (m : List (K × V))
      → P d
      → Every (λ r. P r.1) m
      → P (get_or_else (find k m) d)
  unfolding find
  Every-find P k d [] h a = h
  Every-find P k d ((j, w) ∷ m) h a = elim (Bool-cases (e.beq j k)) [
    | inl same ↦ rw same a.0
    | inr other ↦ rw other (Every-find P k d m h a.1)
  ]
