-- ===== src/Platforms.antt =====
-- A concrete platform for the tests: its numbers are whole, and its patterns are plain texts.
use aiguard_siem.Common.{
  ℕ, ◌+◌, ◌-◌, ◌*◌, ◌/◌, ltb, leb, some, none, is_digit, Text, Option, [], ◌∷◌, if◌then◌else◌,
  scan_digits, decimal, contains,
}
use aiguard_siem.Common.Int.{pos_part}
use aiguard_siem.Events.{Platform}

abbrev stod_digits : Text → Option ℕ
stod_digits [] = none
stod_digits (c ∷ s) = if is_digit c then some (scan_digits 0 (c ∷ s)).0 else none

abbrev pub whole_numbers : Platform
whole_numbers = record {
  Double = ℕ;
  of_int = pos_part;
  add = ◌+◌;
  sub = ◌-◌;
  mul = ◌*◌;
  div = ◌/◌;
  sqrt = λ n. n;
  lt = ltb;
  le = leb;
  stod = stod_digits;
  to_text = decimal;
  Regex = Text;
  regex = λ p. some p;
  regex_search = λ p s. some (contains s p);
}
