-- ===== src/Syslog/Lexer.antt =====
-- collectors/syslog/src/syslog_parser.cpp: the private helpers, which advance a `string_view`. Each
-- returns what it read and the rest.
use aiguard_siem.Common.{
  ℕ, suc, ◌+◌, ◌-◌, Bool, true, false, ◌||◌, Option, none, some, [], ◌∷◌, if◌then◌else◌, ltb, ◌==◌,
  length, take, drop, Text, find_char, scan_digits, starts_with, is_digit,
}
use mathlib.Core.Option
use aiguard_siem.Common.Int.{ℤ, pos, negsuc, sub_ℕ}

abbrev pub is_space : ℕ → Bool
is_space c = c == b' ' || c == 9

unfoldable pub skip_whitespace : Text → Text
skip_whitespace [] = []
skip_whitespace (c ∷ s) = let rest = skip_whitespace s in if is_space c then rest else c ∷ s

-- Up to the first character that `stop` accepts; the character stays in the rest.
unfoldable pub span_until : (ℕ → Bool) → Text → Text × Text
span_until stop [] = ([], [])
span_until stop (c ∷ s) =
    let (token, rest) = span_until stop s in if stop c then ([], c ∷ s) else (c ∷ token, rest)

abbrev pub is_delimiter : ℕ → ℕ → Bool
is_delimiter delimiter c = c == delimiter

unfoldable pub parse_token : ℕ → Text → Text × Text
unfolding span_until
parse_token delimiter s = span_until (is_delimiter delimiter) s

-- RFC 3339 up to the next space, or the 15 characters of a BSD time stamp if there are as many.
unfoldable pub parse_timestamp : Bool → Text → Text × Text
unfolding span_until
parse_timestamp true s = span_until (is_delimiter b' ') s
parse_timestamp false s = if ltb (length s) 15 then ([], s) else (take 15 s, drop 15 s)

-- The position of a text in another.
unfoldable pub find_text : Text → Text → Option ℕ
unfolding starts_with
find_text p [] = if starts_with [] p then some 0 else none
find_text p (c ∷ s) = if starts_with (c ∷ s) p then some 0 else Option.map suc (find_text p s)

-- `std::from_chars` of a run of digits behind an optional minus; what follows them is not read.
-- The texts here have at most three characters, so the value fits an `int`.
unfoldable pub from_digits : Text → Option ℕ
unfolding scan_digits
from_digits [] = none
from_digits (c ∷ s) = if is_digit c then some (scan_digits 0 (c ∷ s)).0 else none

unfoldable pub from_chars : Text → Option ℤ
unfolding from_digits
from_chars [] = none
from_chars (c ∷ s) =
    if c == b'-'
    then Option.map (λ n. sub_ℕ 0 n) (from_digits s)
    else Option.map pos (from_digits (c ∷ s))

-- -1 is the answer for a malformed priority, and then the view stays.
abbrev pub malformed : Text → ℤ × Text
malformed s = (negsuc 0, s)

abbrev pub read_priority : Text → ℕ → Option ℤ → ℤ × Text
read_priority s close none = malformed s
read_priority s close (some p) = (p, drop (close + 1) s)

abbrev pub bracketed : Text → Option ℕ → ℤ × Text
bracketed s none = malformed s
bracketed s (some close) =
    if ltb 4 close
    then malformed s
    else read_priority s close (from_chars (take (close - 1) (drop 1 s)))

unfoldable pub parse_priority : Text → ℤ × Text
unfolding from_chars find_char
parse_priority [] = malformed []
parse_priority (c ∷ s) =
    if c == b'<' then bracketed (c ∷ s) (find_char b'>' (c ∷ s)) else malformed (c ∷ s)
