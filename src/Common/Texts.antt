-- ===== src/Common/Texts.antt =====
-- The operations of `std::string` and `std::string_view` that the program calls, on bytes.
use Prim.Native.Nat.{ℕ, zero, suc, ◌+◌, ◌-◌, ◌*◌, ◌/◌, ◌%◌, ◌<◌, ◌≤◌}
use mathlib.Core.Path.{◌≡◌, ap, ◌∙◌}
use mathlib.Core.Logic.{inl, inr, ◌≢◌}
use mathlib.Core.Bool.{Bool, true, false, ◌&&◌, ◌||◌}
use mathlib.Core.Option.{Option, none, some}
use mathlib.Core.Option
use mathlib.Core.List.{List, [], ◌∷◌, ◌++◌, reverse, append_assoc}
use native.Mathlib.Omega.{arith}
use aiguard_siem.Common.Tests.{◌==◌, ltb, leb, if◌then◌else◌, Bool-cases, ltb→lt, lt→ltb}
use aiguard_siem.Common.Lists.{length, length-append, Every, Every-snoc}
use aiguard_siem.Common.Keys.{Text}

abbrev pub is_empty {ℓ} : {A : Type ℓ} → List A → Bool
is_empty [] = true
is_empty (x ∷ xs) = false

unfoldable pub starts_with : Text → Text → Bool
starts_with s [] = true
starts_with [] (b ∷ p) = false
starts_with (a ∷ s) (b ∷ p) = a == b && starts_with s p

unfoldable pub ends_with : Text → Text → Bool
unfolding starts_with
ends_with s p = starts_with (reverse s) (reverse p)

-- `s.find(p) != npos`.
unfoldable pub contains : Text → Text → Bool
unfolding starts_with
contains [] p = starts_with [] p
contains (a ∷ s) p = starts_with (a ∷ s) p || contains s p

-- `s.find(c)`.
unfoldable pub find_char : ℕ → Text → Option ℕ
find_char c [] = none
find_char c (a ∷ s) = if a == c then some 0 else Option.map suc (find_char c s)

-- The items that repeated `std::getline(ss, item, c)` yields: a text that ends in `c` has no
-- empty last item, and the empty text has none.
unfoldable pub split_from : ℕ → Text → Text → List Text
split_from c cur [] = if is_empty cur then [] else cur ∷ []
split_from c cur (a ∷ s) =
    let cut = cur ∷ split_from c [] s in
    let more = split_from c (cur ++ (a ∷ [])) s in if a == c then cut else more

unfoldable pub split_on : ℕ → Text → List Text
unfolding split_from
split_on c s = split_from c [] s

unfoldable pub mem_text : (Text → Text → Bool) → Text → List Text → Bool
mem_text eq s [] = false
mem_text eq s (t ∷ ts) = eq s t || mem_text eq s ts

-- `std::to_string` of an unsigned number, with a digit to each round of the fuel.
unfoldable pub decimal_fuel : ℕ → ℕ → Text
decimal_fuel zero n = []
decimal_fuel (suc f) n =
    let front = decimal_fuel f (n / 10) in
    if ltb n 10 then (b'0' + n) ∷ [] else front ++ ((b'0' + n % 10) ∷ [])

unfoldable pub decimal : ℕ → Text
unfolding decimal_fuel
decimal n = decimal_fuel (suc n) n

abbrev pub is_digit : ℕ → Bool
is_digit c = leb b'0' c && leb c b'9'

-- The longest run of digits at the front, read from the left as a decimal number.
unfoldable pub scan_digits : ℕ → Text → ℕ × Text
scan_digits n [] = (n, [])
scan_digits n (c ∷ s) =
    let rest = scan_digits (n * 10 + (c - b'0')) s in if is_digit c then rest else (n, c ∷ s)

scan_digits-digit :
    (m d : ℕ) (rest : Text)
    → d < 10
    → scan_digits m ((b'0' + d) ∷ rest) ≡ scan_digits (m * 10 + d) rest
unfolding scan_digits
scan_digits-digit m d rest h =
    let e : b'0' + d - b'0' ≡ d = omega arith in
    let t : is_digit (b'0' + d) ≡ true = ground arith in rw (t, e)

decimal_fuel-scan :
    (f n : ℕ) (rest : Text) → n < f → scan_digits 0 (decimal_fuel f n ++ rest) ≡ scan_digits n rest
unfolding decimal_fuel
decimal_fuel-scan zero n rest h = absurd (omega arith)
decimal_fuel-scan (suc f) n rest h = elim (Bool-cases (ltb n 10)) [
  | inl small ↦
      rw small (
        scan_digits-digit 0 n rest (ltb→lt n 10 small) ∙ ap (λ k. scan_digits k rest) (omega arith))
  | inr large ↦
      rw (large, append_assoc (decimal_fuel f (n / 10)) ((b'0' + n % 10) ∷ []) rest)
        (decimal_fuel-scan f (n / 10) ((b'0' + n % 10) ∷ rest) (ground arith)
          ∙ (scan_digits-digit (n / 10) (n % 10) rest (omega arith)
              ∙ ap (λ k. scan_digits k rest) (omega arith)))
]

-- Reading back a printed number, whatever text follows it.
pub scan_digits-decimal :
    (n : ℕ) (rest : Text) → scan_digits 0 (decimal n ++ rest) ≡ scan_digits n rest
unfolding decimal
scan_digits-decimal n rest = decimal_fuel-scan (suc n) n rest (omega arith)

abbrev pub IsDigit : ℕ → Type 0
IsDigit c = (b'0' ≤ c) × (c ≤ b'9')

decimal_fuel-digits : (f n : ℕ) → Every IsDigit (decimal_fuel f n)
unfolding decimal_fuel
decimal_fuel-digits zero n = tt
decimal_fuel-digits (suc f) n = elim (Bool-cases (ltb n 10)) [
  | inl small ↦ rw small ((omega arith, omega (arith, ltb→lt n 10 small)), tt)
  | inr large ↦ rw large (
      Every-snoc IsDigit (decimal_fuel f (n / 10)) (b'0' + n % 10) (decimal_fuel-digits f (n / 10))
        (omega arith, omega arith))
]

pub decimal-digits : (n : ℕ) → Every IsDigit (decimal n)
unfolding decimal
decimal-digits n = decimal_fuel-digits (suc n) n

-- `k` digits are enough below the power of ten.
decimal_fuel-length :
    (f n k power : ℕ)
    → n < power
    → ((m : ℕ) → 10 * m < power → length (decimal_fuel f m) ≤ k)
    → length (decimal_fuel (suc f) n) ≤ suc k
unfolding decimal_fuel
decimal_fuel-length f n k power h ih = elim (Bool-cases (ltb n 10)) [
  | inl small ↦ rw small (omega arith)
  | inr large ↦ rw large (
      omega (
        arith,
        length-append (decimal_fuel f (n / 10)) ((b'0' + n % 10) ∷ []),
        ih (n / 10) (omega arith),
      ))
]

decimal_fuel-length_one : (f n : ℕ) → n < 10 → length (decimal_fuel f n) ≤ 1
unfolding decimal_fuel
decimal_fuel-length_one zero n h = omega arith
decimal_fuel-length_one (suc f) n h = rw (lt→ltb n 10 h) (omega arith)

decimal_fuel-length_two : (f n : ℕ) → n < 100 → length (decimal_fuel f n) ≤ 2
decimal_fuel-length_two zero n h = unfold decimal_fuel in omega arith
decimal_fuel-length_two (suc f) n h =
    decimal_fuel-length f n 1 100 h (λ m p. decimal_fuel-length_one f m (omega (arith, p)))

pub length-decimal-le : (n : ℕ) → n < 1000 → length (decimal n) ≤ 3
unfolding decimal
length-decimal-le n h =
    decimal_fuel-length n n 2 1000 h (λ m p. decimal_fuel-length_two n m (omega (arith, p)))

pub length-decimal-pos : (n : ℕ) → 0 < length (decimal n)
unfolding decimal decimal_fuel
length-decimal-pos n = elim (Bool-cases (ltb n 10)) [
  | inl small ↦ rw small (omega arith)
  | inr large ↦
      rw large (omega (arith, length-append (decimal_fuel n (n / 10)) ((b'0' + n % 10) ∷ [])))
]

-- The first `c` stands behind a text without one.
pub find_char-append :
    (c : ℕ) (s rest : Text) → Every (λ d. d ≢ c) s → find_char c (s ++ (c ∷ rest)) ≡ some (length s)
unfolding find_char
find_char-append c [] rest h = ground arith
find_char-append c (d ∷ s) rest h = ground (arith, find_char-append c s rest h.1)
