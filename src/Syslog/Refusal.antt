-- ===== src/Syslog/Refusal.antt =====
-- Which messages are refused, told from their text.
use aiguard_siem.Common.{
  ℕ, zero, suc, ◌-◌, ◌≤◌, ◌≡◌, ◌≢◌, refl, sym, ap, ◌∙◌, Bool, true, false, not, ◌&&◌, ◌||◌, Option,
  none, some, [], ◌∷◌, ◌++◌, ltb, ◌==◌, length, take, drop, Text, arith, Every, is_digit,
  scan_digits, find_char, find_char-append, take-length-append, ◌↔◌, inl, inr, Bool-cases,
  Option-cases,
}
use mathlib.Core.Option
use mathlib.Core.Path.{subst}
use aiguard_siem.Common.Int.{ℤ, pos, negsuc}
use aiguard_siem.Syslog.Lexer.{parse_priority, from_chars, from_digits, read_priority}
use aiguard_siem.Syslog.Parser.{parse}
use aiguard_siem.Syslog.Priority.{parse-eq-none_iff}

-- Behind a minus: a zero that no digit but a zero follows.
abbrev pub is_minus_zero : Text → Bool
is_minus_zero [] = false
is_minus_zero (c ∷ []) = c == b'0'
is_minus_zero (c ∷ (d ∷ s)) = c == b'0' && (d == b'0' || not (is_digit d))

-- A digit comes first, or a minus and a zero.
abbrev pub leads : Text → Bool
leads [] = false
leads (c ∷ s) = is_digit c || (c == b'-' && is_minus_zero s)

-- An opening bracket, up to three characters that lead with a number, and the closing bracket.
pub record HasPriority (raw : Text) : Type 0 where
  pub inside : Text
  pub rest : Text
  pub shape : raw ≡ b'<' ∷ (inside ++ (b'>' ∷ rest))
  pub first_close : Every (λ d. d ≢ b'>') inside
  pub short : length inside ≤ 3
  pub number : leads inside ≡ true

abbrev is_pos : Option ℤ → Bool
is_pos none = false
is_pos (some (pos n)) = true
is_pos (some (negsuc n)) = false

-- `from_chars` reads a number of zero or more exactly behind what leads.
is_pos-from_chars : (ds : Text) → length ds ≤ 3 → is_pos (from_chars ds) ≡ leads ds
unfolding from_chars from_digits scan_digits
is_pos-from_chars [] h = refl
is_pos-from_chars (c ∷ []) h = ground arith
is_pos-from_chars (c ∷ (d ∷ [])) h = ground arith
is_pos-from_chars (c ∷ (d ∷ (f ∷ []))) h = ground arith
is_pos-from_chars (c ∷ (d ∷ (f ∷ (g ∷ s)))) h = absurd (omega (arith, h))

map-suc : (o : Option ℕ) (n : ℕ) → Option.map suc o ≡ some (suc n) → o ≡ some n
map-suc none n h = cc
map-suc (some m) n h = ground (arith, h)

map-suc_pos : (o : Option ℕ) → Option.map suc o ≡ some 0 → ⊥
map-suc_pos none h = cc
map-suc_pos (some m) h = ground (arith, h)

-- A text apart at the first place of a character.
find_char-split :
    (c : ℕ) (s : Text) (n : ℕ)
    → find_char c s ≡ some n
    → (s ≡ take n s ++ (c ∷ drop (suc n) s))
      × Every (λ d. d ≢ c) (take n s)
      × (length (take n s) ≡ n)
unfolding find_char
find_char-split c [] n h = cc
find_char-split c (a ∷ s) zero h = elim (Bool-cases (a == c)) [
  | inl same ↦ let e : a ≡ c = ground arith in (ap (λ x. x ∷ s) e, tt, refl)
  | inr other ↦ absurd (map-suc_pos (find_char c s) (rw other at h))
]
find_char-split c (a ∷ s) (suc n) h = elim (Bool-cases (a == c)) [
  | inl same ↦ let wrong : some 0 ≡ some (suc n) = rw same at h in absurd (ground (arith, wrong))
  | inr other ↦
      let rest = find_char-split c s n (map-suc (find_char c s) n (rw other at h)) in
      let apart : a ≢ c = λ e. ground (arith, e, other) in
      (ap (λ x. a ∷ x) rest.0, (apart, rest.1), ap suc rest.2)
]

abbrev is_read : ℤ → Bool
is_read (pos n) = true
is_read (negsuc n) = false

read_priority-is_pos :
    (raw : Text) (close : ℕ) (o : Option ℤ) → is_read (read_priority raw close o).0 ≡ is_pos o
read_priority-is_pos raw close none = refl
read_priority-is_pos raw close (some (pos n)) = refl
read_priority-is_pos raw close (some (negsuc n)) = refl

-- What is read behind the bracket, where the closing one is found.
parse_priority-found :
    (s : Text) (n : ℕ)
    → find_char b'>' s ≡ some n
    → n ≤ 3
    → is_read (parse_priority (b'<' ∷ s)).0 ≡ is_pos (from_chars (take n s))
unfolding parse_priority find_char
parse_priority-found s n found h =
    let short : ltb 4 (suc n) ≡ false = ground (arith, h) in
    let back : suc n - 1 ≡ n = omega arith in
    rw (found, short)
      (read_priority-is_pos (b'<' ∷ s) (suc n) (from_chars (take (suc n - 1) s))
        ∙ ap (λ k. is_pos (from_chars (take k s))) back)

HasPriority-read : (raw : Text) → HasPriority raw → is_read (parse_priority raw).0 ≡ true
HasPriority-read raw p =
    let s = p.inside ++ (b'>' ∷ p.rest) in
    let found = find_char-append b'>' p.inside p.rest p.first_close in
    ap (λ r. is_read (parse_priority r).0) p.shape
    ∙ (parse_priority-found s (length p.inside) found p.short
        ∙ (ap (λ x. is_pos (from_chars x)) (take-length-append p.inside (b'>' ∷ p.rest))
            ∙ (is_pos-from_chars p.inside p.short ∙ p.number)))

bracket-HasPriority :
    (s : Text) → is_read (parse_priority (b'<' ∷ s)).0 ≡ true → HasPriority (b'<' ∷ s)
bracket-HasPriority s h = elim (Option-cases (find_char b'>' s)) [
  | inl absent ↦
      let wrong : false ≡ true = unfold parse_priority find_char in rw absent at h in
      absurd (ground (arith, wrong))
  | inr (n, found) ↦ elim (Bool-cases (ltb 4 (suc n))) [
    | inl long ↦
        let wrong : false ≡ true = unfold parse_priority find_char in rw (found, long) at h in
        absurd (ground (arith, wrong))
    | inr near ↦
        let small : n ≤ 3 = ground (arith, near) in
        let split = find_char-split b'>' s n found in
        let short : length (take n s) ≤ 3 = omega (arith, split.2, small) in
        record {
          inside = take n s;
          rest = drop (suc n) s;
          shape = ap (λ x. b'<' ∷ x) split.0;
          first_close = split.1;
          short = short;
          number =
              sym (is_pos-from_chars (take n s) short)
              ∙ (sym (parse_priority-found s n found small) ∙ h);
        }
  ]
]

read-HasPriority : (raw : Text) → is_read (parse_priority raw).0 ≡ true → HasPriority raw
read-HasPriority [] h = unfold parse_priority in ground (arith, h)
read-HasPriority (c ∷ s) h = elim (Bool-cases (c == b'<')) [
  | inl opens ↦
      let e : c ≡ b'<' = ground (arith, opens) in
      subst HasPriority (ap (λ x. x ∷ s) (sym e))
        (bracket-HasPriority s (subst (λ x. is_read (parse_priority (x ∷ s)).0 ≡ true) e h))
  | inr other ↦
      let wrong : false ≡ true = unfold parse_priority in rw other at h in
      absurd (ground (arith, wrong))
]

negative-is_read : (z : ℤ) (n : ℕ) → z ≡ negsuc n → is_read z ≡ false
negative-is_read z n h = rw h refl

unread : (z : ℤ) → is_read z ≡ false → (n : ℕ) × (z ≡ negsuc n)
unread (pos n) h = ground (arith, h)
unread (negsuc n) h = (n, refl)

-- A message is refused exactly when it does not start with a priority: an opening bracket, at most
-- three characters of which the first is a digit or the first two are a minus and a zero that does
-- not lead a larger number, and the first closing bracket. What follows the number in the bracket, and
-- what follows the bracket, is accepted whatever it is.
pub parse-eq-none-HasPriority : (raw : Text) → (parse raw ≡ none) ↔ (¬ HasPriority raw)
unfolding parse_priority
parse-eq-none-HasPriority raw = (
  λ h p.
      let read = HasPriority-read raw p in
      elim ((parse-eq-none_iff raw).0 h) [
        | inl blank ↦
            let wrong : false ≡ true =
              subst (λ x. is_read (parse_priority x).0 ≡ true) blank read in
            ground (arith, wrong)
        | inr (n, bad) ↦ ground (arith, read, negative-is_read _ n bad)
      ],
  λ h. elim (Bool-cases (is_read (parse_priority raw).0)) [
    | inl read ↦ absurd (h (read-HasPriority raw read))
    | inr bad ↦ (parse-eq-none_iff raw).1 (inr (unread _ bad))
  ],
)
