-- ===== src/Ring/Slots.antt =====
-- Positions on a ring of `c` slots, and reads of a list that grew.
use aiguard_siem.Common.{
  ℕ, zero, suc, ◌+◌, ◌-◌, ◌%◌, ◌<◌, ◌≤◌, ◌≡◌, ◌⊎◌, refl, ap, ◌∙◌, ◌++◌, [], ◌∷◌, List, some,
  Bool-cases, inl, inr, ltb, arith, get_elem?, length,
}
use native.Mathlib.Nat.{mod-eq_of_lt, mod-eq-sub-mod, add-mod-mod}

-- A position less than twice around.
pub mod_cases : (x c : ℕ) → x < c + c → ((x < c) × (x % c ≡ x)) ⊎ ((c ≤ x) × (x % c ≡ x - c))
mod_cases x c h = elim (Bool-cases (ltb x c)) [
  | inl low ↦ let l : x < c = ground arith in inl (l, mod-eq_of_lt l)
  | inr high ↦
      let g : c ≤ x = ground arith in inr (g, mod-eq-sub-mod g ∙ mod-eq_of_lt (omega arith))
]

pub mod-add : (a b c : ℕ) → (a % c + b) % c ≡ (a + b) % c
mod-add a b c = ap (λ x. x % c) (omega arith) ∙ (add-mod-mod b a c ∙ ap (λ x. x % c) (omega arith))

module _ {ℓ} {A : Type ℓ} where
  pub get_elem?-append_left :
      (xs ys : List A) (i : ℕ) → i < length xs → get_elem? (xs ++ ys) i ≡ get_elem? xs i
  get_elem?-append_left [] ys i h = absurd (omega arith)
  get_elem?-append_left (x ∷ xs) ys zero h = refl
  get_elem?-append_left (x ∷ xs) ys (suc i) h = get_elem?-append_left xs ys i (omega arith)

  pub get_elem?-snoc : (xs : List A) (y : A) → get_elem? (xs ++ (y ∷ [])) (length xs) ≡ some y
  get_elem?-snoc [] y = refl
  get_elem?-snoc (x ∷ xs) y = get_elem?-snoc xs y
