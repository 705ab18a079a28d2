-- ===== src/Syslog/Priority.antt =====
-- The priority and the choice of the format.
use aiguard_siem.Common.{
  ℕ, suc, ◌+◌, ◌-◌, ◌*◌, ◌≤◌, ◌<◌, ◌≡◌, ◌≢◌, refl, sym, ap, ◌∙◌, true, false, none, some, [], ◌∷◌,
  ◌++◌, if◌then◌else◌, ltb, ◌==◌, length, drop, Text, arith, Every, Every-mono, IsDigit, is_digit,
  scan_digits, scan_digits-decimal, decimal, decimal-digits, length-decimal-le, length-decimal-pos,
  find_char, find_char-append, take-length-append, drop-length-append, drop-drop, ◌↔◌, ◌⊎◌, inl,
  inr, Bool-cases, Option-cases,
}
use mathlib.Core.List.{append-nil}
use aiguard_siem.Common.Int.{ℤ, pos, negsuc}
use aiguard_siem.Syslog.Parser.{
  SyslogMessage, parse, parse_rfc5424, parse_rfc3164, choose_format, with_priority,
  starts_with_digit, rfc5424_version, rfc5424_fields, rfc3164_fields, blank_message,
  facility_from_priority, severity_from_priority,
}
use aiguard_siem.Syslog.Lexer.{parse_priority, from_chars, from_digits, skip_whitespace}

from_chars-digits :
    (ds : Text) → Every IsDigit ds → 0 < length ds → from_chars ds ≡ some (pos (scan_digits 0 ds).0)
unfolding from_chars from_digits
from_chars-digits [] a h = absurd (omega arith)
from_chars-digits (d ∷ ds) a h =
    let digit : is_digit d ≡ true = ground arith in
    let plus : (d == b'-') ≡ false = ground arith in rw (plus, digit)

-- One to three digits in angle brackets are a priority.
priority_digits :
    (ds rest : Text)
    → Every IsDigit ds
    → 0 < length ds
    → length ds ≤ 3
    → parse_priority (b'<' ∷ (ds ++ (b'>' ∷ rest))) ≡ (pos (scan_digits 0 ds).0, rest)
unfolding parse_priority find_char
priority_digits ds rest a p h =
    let found : find_char b'>' (ds ++ (b'>' ∷ rest)) ≡ some (length ds) =
      find_char-append b'>' ds rest
        (Every-mono IsDigit (λ d. d ≢ b'>') ds (λ d k. omega arith) a) in
    let short : ltb 4 (suc (length ds)) ≡ false = ground arith in
    let one : suc (length ds) - 1 ≡ length ds = omega arith in
    let xs : Text = ds ++ (b'>' ∷ rest) in
    let next : suc (length ds) + 1 ≡ suc (length ds + 1) = omega arith in
    let behind : drop (suc (length ds) + 1) (b'<' ∷ xs) ≡ rest =
      ap (λ k. drop k (b'<' ∷ xs)) next
      ∙ (sym (drop-drop (length ds) 1 xs) ∙ ap (drop 1) (drop-length-append ds (b'>' ∷ rest))) in
    rw (found, short, one, take-length-append ds (b'>' ∷ rest), from_chars-digits ds a p)
      (ap (λ r. (pos (scan_digits 0 ds).0, r)) behind)

-- A printed priority below 1000 reads back, and the parser goes on behind its bracket.
pub parse_priority-decimal :
    (p : ℕ) (rest : Text)
    → p < 1000
    → parse_priority (b'<' ∷ (decimal p ++ (b'>' ∷ rest))) ≡ (pos p, rest)
parse_priority-decimal p rest h =
    let read : (scan_digits 0 (decimal p)).0 ≡ p =
      ap (λ s. (scan_digits 0 s).0) (sym (append-nil (decimal p)))
      ∙ (ap (λ r. r.0) (scan_digits-decimal p []) ∙ unfold scan_digits in refl) in
    priority_digits (decimal p) rest (decimal-digits p) (length-decimal-pos p)
      (length-decimal-le p h)
    ∙ ap (λ n. (pos n, rest)) read

version_raw :
    (raw s : Text) (m : SyslogMessage) → rfc5424_version raw s ≡ some m → m.raw_message ≡ raw
unfolding rfc5424_version
version_raw raw [] m h = cc
version_raw raw (c ∷ s) m h =
    let (version, rest) = scan_digits 0 (c ∷ s) in ground (arith, fields_raw version rest)
  where
    fields_raw : (v : ℕ) (t : Text) → (rfc5424_fields (blank_message raw v) t).raw_message ≡ raw
    fields_raw v t = unfold rfc5424_fields blank_message in refl

rfc5424-behind :
    (raw : Text) (p : ℕ) (s : Text)
    → parse_priority raw ≡ (pos p, s)
    → parse_rfc5424 raw ≡ rfc5424_version raw (skip_whitespace s)
unfolding parse_rfc5424
rfc5424-behind raw p s h = rw h

newer_raw :
    (raw : Text) (p : ℕ) (s : Text) (m : SyslogMessage)
    → parse_priority raw ≡ (pos p, s)
    → (if starts_with_digit s then parse_rfc5424 raw else none) ≡ some m
    → m.raw_message ≡ raw
newer_raw raw p s m h e = elim (Bool-cases (starts_with_digit s)) [
  | inl digit ↦
      version_raw raw (skip_whitespace s) m (sym (rfc5424-behind raw p s h) ∙ (rw digit at e))
  | inr other ↦ cc (other, e)
]

-- Behind a priority some message is found.
choose_some :
    (raw : Text) (p : ℕ) (s : Text)
    → parse_priority raw ≡ (pos p, s)
    → (m : SyslogMessage) × (choose_format raw (pos p, s) ≡ some (with_priority p m))
      × (m.raw_message ≡ raw)
unfolding parse_rfc3164
choose_some raw p s h =
    elim (Option-cases (if starts_with_digit s then parse_rfc5424 raw else none)) [
      | inl old ↦
          rw (old, h)
            (
              rfc3164_fields (blank_message raw 0) s,
              refl,
              unfold rfc3164_fields blank_message in refl,
            )
      | inr (m, new) ↦ rw new (m, refl, newer_raw raw p s m h new)
    ]

some≢none : (m : SyslogMessage) → some m ≡ none → ⊥
some≢none m h = cc

cons≢nil : {c : ℕ} {s : Text} → c ∷ s ≡ [] → ⊥
cons≢nil h = cc

pos≢negsuc : {m n : ℕ} → pos m ≡ negsuc n → ⊥
pos≢negsuc h = cc

-- A message is refused exactly when it is empty or `parse_priority` answers a negative number: behind
-- a priority, RFC 3164 takes any text.
pub parse-eq-none_iff :
    (raw : Text)
    → (parse raw ≡ none) ↔ ((raw ≡ []) ⊎ ((n : ℕ) × ((parse_priority raw).0 ≡ negsuc n)))
unfolding parse
parse-eq-none_iff [] = (λ _. inl refl, λ _. refl)
parse-eq-none_iff (c ∷ s) = cases (parse_priority (c ∷ s)) refl
  where
    cases :
        (r : ℤ × Text)
        → parse_priority (c ∷ s) ≡ r
        → (choose_format (c ∷ s) (parse_priority (c ∷ s)) ≡ none)
          ↔ ((◌≡◌ {A = Text} (c ∷ s) []) ⊎ ((n : ℕ) × ((parse_priority (c ∷ s)).0 ≡ negsuc n)))
    cases (negsuc n, t) e = (λ _. inr (n, ap (λ r. r.0) e), λ _. rw e refl)
    cases (pos p, t) e =
        let found = choose_some (c ∷ s) p t e in
        (
          λ h. absurd (some≢none (with_priority p found.0) (sym found.1 ∙ (rw e at h))),
          elim [
            | inl bad ↦ absurd (cons≢nil bad)
            | inr (n, bad) ↦ absurd (pos≢negsuc (sym (ap (λ r. r.0) e) ∙ bad))
          ],
        )

with_priority_fields :
    {raw : Text} {z : ℤ} (p : ℕ) (m : SyslogMessage)
    → m.raw_message ≡ raw
    → z ≡ pos p
    → let q = with_priority p m in
      (q.raw_message ≡ raw)
      × (q.facility * 8 + q.severity ≡ q.priority)
      × (q.severity < 8)
      × (z ≡ pos q.priority)
unfolding with_priority facility_from_priority severity_from_priority
with_priority_fields p m h e = (h, omega arith, omega arith, e)

-- Whatever is parsed keeps the whole message, and its facility and severity make up its priority,
-- which is the number read between the brackets.
pub parse_fields :
    (raw : Text) (m : SyslogMessage)
    → parse raw ≡ some m
    → (m.raw_message ≡ raw)
      × (m.facility * 8 + m.severity ≡ m.priority)
      × (m.severity < 8)
      × ((parse_priority raw).0 ≡ pos m.priority)
unfolding parse
parse_fields [] m h = cc
parse_fields (c ∷ s) m h = cases (parse_priority (c ∷ s)) refl
  where
    cases :
        (r : ℤ × Text)
        → parse_priority (c ∷ s) ≡ r
        → (m.raw_message ≡ c ∷ s)
          × (m.facility * 8 + m.severity ≡ m.priority)
          × (m.severity < 8)
          × ((parse_priority (c ∷ s)).0 ≡ pos m.priority)
    cases (negsuc n, t) e = let wrong = rw e at h in cc
    cases (pos p, t) e =
        let found = choose_some (c ∷ s) p t e in
        let result : some (with_priority p found.0) ≡ some m = sym found.1 ∙ (rw e at h) in
        let same : with_priority p found.0 ≡ m = cc in
        rw (← same) (with_priority_fields p found.0 found.2 (ap (λ r. r.0) e))
