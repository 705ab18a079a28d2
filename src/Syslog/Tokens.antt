-- ===== src/Syslog/Tokens.antt =====
-- Tokens: what the lexer finds of a token between spaces.
use aiguard_siem.Common.{
  ℕ, ◌<◌, ◌≡◌, ◌≢◌, refl, Bool, true, false, [], ◌∷◌, ◌++◌, length, Text, arith, Every, Every-mono,
}
use aiguard_siem.Syslog.Lexer.{skip_whitespace, span_until, is_delimiter}

-- A text that is not empty and has no space and no tab.
abbrev pub IsToken : Text → Type 0
IsToken t = (0 < length t) × Every (λ c. (c ≢ b' ') × (c ≢ 9)) t

-- A text that does not begin with a space or a tab.
abbrev pub NoLeadingSpace : Text → Type 0
NoLeadingSpace [] = Unit {0}
NoLeadingSpace (c ∷ s) = (c ≢ b' ') × (c ≢ 9)

pub span_until-append :
    (stop : ℕ → Bool) (t : Text) (c : ℕ) (rest : Text)
    → Every (λ d. stop d ≡ false) t
    → stop c ≡ true
    → span_until stop (t ++ (c ∷ rest)) ≡ (t, c ∷ rest)
unfolding span_until
span_until-append stop [] c rest a h = rw h
span_until-append stop (d ∷ t) c rest a h = rw (a.0, span_until-append stop t c rest a.1 h)

pub skip_whitespace-none : (s : Text) → NoLeadingSpace s → skip_whitespace s ≡ s
unfolding skip_whitespace
skip_whitespace-none [] h = refl
skip_whitespace-none (c ∷ s) h = ground arith

pub skip_whitespace-space : (s : Text) → NoLeadingSpace s → skip_whitespace (b' ' ∷ s) ≡ s
unfolding skip_whitespace
skip_whitespace-space s h = skip_whitespace-none s h

pub leading-append : (t rest : Text) → IsToken t → NoLeadingSpace (t ++ rest)
leading-append [] rest (p, a) = absurd (omega arith)
leading-append (c ∷ t) rest (p, a) = a.0

-- A token, behind a space and in front of one.
pub token_lem :
    (t rest : Text)
    → IsToken t
    → span_until (is_delimiter b' ') (skip_whitespace (b' ' ∷ (t ++ (b' ' ∷ rest))))
      ≡ (t, b' ' ∷ rest)
token_lem t rest h =
    rw (skip_whitespace-space (t ++ (b' ' ∷ rest)) (leading-append t (b' ' ∷ rest) h)) (
      span_until-append (is_delimiter b' ') t b' ' rest (Every-mono _ _ t (λ d k. ground arith) h.1)
        refl)
