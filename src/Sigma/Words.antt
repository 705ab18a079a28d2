-- ===== src/Sigma/Words.antt =====
-- Words, and what the line functions of the Sigma compiler make of them.
use aiguard_siem.Common.{
  ℕ, zero, suc, ◌≡◌, refl, ap, sym, ◌∙◌, ◌≢◌, false, some, List, [], ◌∷◌, ◌++◌, Text, ◌==◌, leb,
  length, drop, is_empty, starts_with, Every, Every-mono, Bool-cases, inl, inr, arith, replicate,
  split_on, split_from,
}
use mathlib.Core.Path.{subst}
use mathlib.Core.List.{append_assoc, append-nil}
use aiguard_siem.Sigma.Lines.{is_blank, indent_of, trim, trim_left, trim_right, unquote}

-- A character of a name or a value: no blank, and none of those that the compiler looks for.
abbrev pub IsPlain : ℕ → Type 0
IsPlain c = (c ≢ b' ') × ((c ≢ b'\t') × ((c ≢ b'\n') × ((c ≢ b':') × ((c ≢ b'|') × (c ≢ b'"')))))

abbrev pub IsWord : Text → Type 0
IsWord [] = ⊥
IsWord (c ∷ s) = Every IsPlain (c ∷ s)

abbrev pub IsLine : Text → Type 0
IsLine s = Every (λ d. d ≢ b'\n') s

-- The end of a line, where it has no line feed itself.
pub split_from-line :
    (c : ℕ) (cur s rest : Text)
    → Every (λ d. d ≢ c) s
    → split_from c cur (s ++ (c ∷ rest)) ≡ (cur ++ s) ∷ split_on c rest
unfolding split_from split_on
split_from-line c cur [] rest h = ground (arith, append-nil cur)
split_from-line c cur (d ∷ s) rest h =
    let other : (d == c) ≡ false = let k = h.0 in ground arith in
    rw other (
      split_from-line c (cur ++ (d ∷ [])) s rest h.1
      ∙ ap (λ x. x ∷ split_on c rest) (append_assoc cur (d ∷ []) s))

pub split_from-whole :
    (c : ℕ) (cur s : Text)
    → Every (λ d. d ≢ c) s
    → is_empty (cur ++ s) ≡ false
    → split_from c cur s ≡ (cur ++ s) ∷ []
unfolding split_from
split_from-whole c cur [] h k =
    let filled : is_empty cur ≡ false = subst (λ x. is_empty x ≡ false) (append-nil cur) k in
    rw filled (ap (λ x. x ∷ []) (sym (append-nil cur)))
split_from-whole c cur (d ∷ s) h k =
    let other : (d == c) ≡ false = let k = h.0 in ground arith in
    rw other (
      split_from-whole c (cur ++ (d ∷ [])) s h.1
        (subst (λ x. is_empty x ≡ false) (sym (append_assoc cur (d ∷ []) s)) k)
      ∙ ap (λ x. x ∷ []) (append_assoc cur (d ∷ []) s))

-- The colon that follows a word.
IsPlain-Every :
    (s : Text) (c : ℕ) → ((d : ℕ) → IsPlain d → d ≢ c) → Every IsPlain s → Every (λ d. d ≢ c) s
IsPlain-Every s c f h = Every-mono IsPlain (λ d. d ≢ c) s f h

IsWord-Every : (s : Text) → IsWord s → Every IsPlain s
IsWord-Every [] h = absurd h
IsWord-Every (c ∷ s) h = h

is_blank-IsPlain : (c : ℕ) → IsPlain c → is_blank c ≡ false
is_blank-IsPlain c h = let a = h.0 in let b = h.1.0 in ground arith

-- A word is as it was after trimming, and so is one with blanks before it.
trim_left-word : (s rest : Text) → IsWord s → trim_left (s ++ rest) ≡ s ++ rest
unfolding trim_left
trim_left-word [] rest h = absurd h
trim_left-word (c ∷ s) rest h = rw (is_blank-IsPlain c h.0) refl

pub indent_of-word : (s rest : Text) → IsWord s → indent_of (s ++ rest) ≡ some 0
unfolding indent_of
indent_of-word [] rest h = absurd h
indent_of-word (c ∷ s) rest h = rw (is_blank-IsPlain c h.0) refl

pub unquote-word : (s rest : Text) → IsWord s → unquote (s ++ rest) ≡ s ++ rest
unfolding unquote starts_with
unquote-word [] rest h = absurd h
unquote-word (c ∷ s) rest h =
    let other : (c == b'"') ≡ false = let k = h.0.1.1.1.1.1 in ground arith in
    elim (Bool-cases (leb 2 (length (c ∷ (s ++ rest))))) [
      | inl long ↦ rw (long, other) refl
      | inr short ↦ rw short refl
    ]

pub Every-append :
    {A : Type 0} (P : A → Type 0) (xs ys : List A) → Every P xs → Every P ys → Every P (xs ++ ys)
Every-append P [] ys a b = b
Every-append P (x ∷ xs) ys a b = (a.0, Every-append P xs ys a.1 b)

pub drop-past :
    {A : Type 0} (xs : List A) (c : A) (ys : List A) → drop (suc (length xs)) (xs ++ (c ∷ ys)) ≡ ys
drop-past [] c ys = refl
drop-past (x ∷ xs) c ys = drop-past xs c ys

abbrev pub NotBlank : Text → Type 0
NotBlank s = Every (λ c. is_blank c ≡ false) s

pub IsWord-NotBlank : (s : Text) → IsWord s → NotBlank s
IsWord-NotBlank s h =
    Every-mono IsPlain (λ c. is_blank c ≡ false) s is_blank-IsPlain (IsWord-Every s h)

trim_right-NotBlank : (s : Text) → NotBlank s → trim_right s ≡ s
unfolding trim_right
trim_right-NotBlank [] h = refl
trim_right-NotBlank (c ∷ s) h = rw (h.0, trim_right-NotBlank s h.1) refl

pub trim-word : (s rest : Text) → IsWord s → NotBlank rest → trim (s ++ rest) ≡ s ++ rest
trim-word s rest h b =
    ap trim_right (trim_left-word s rest h)
    ∙ trim_right-NotBlank (s ++ rest)
        (Every-append (λ c. is_blank c ≡ false) s rest (IsWord-NotBlank s h) b)

pub trim-word_alone : (s : Text) → IsWord s → trim s ≡ s
trim-word_alone s h = ap trim (sym (append-nil s)) ∙ (trim-word s [] h tt ∙ append-nil s)

pub no_bar : (s : Text) → IsWord s → Every (λ d. d ≢ b'|') s
no_bar s h = IsPlain-Every s b'|' (λ d p. p.1.1.1.1.0) (IsWord-Every s h)

pub no_colon : (s : Text) → IsWord s → Every (λ d. d ≢ b':') s
no_colon s h = IsPlain-Every s b':' (λ d p. p.1.1.1.0) (IsWord-Every s h)

pub not_empty : (s rest : Text) → IsWord s → is_empty (s ++ rest) ≡ false
not_empty [] rest h = absurd h
not_empty (c ∷ s) rest h = refl

pub blanks : (n : ℕ) → IsLine (replicate n b' ')
blanks zero = tt
blanks (suc n) = (λ e. absurd (omega (arith, e)), blanks n)

pub split_on-line :
    (s rest : Text) → IsLine s → split_on b'\n' (s ++ (b'\n' ∷ rest)) ≡ s ∷ split_on b'\n' rest
unfolding split_on
split_on-line s rest h = split_from-line b'\n' [] s rest h ∙ unfold split_on in refl

pub word-IsLine : (s : Text) → IsWord s → IsLine s
word-IsLine s h = IsPlain-Every s b'\n' (λ d p. p.1.1.0) (IsWord-Every s h)
