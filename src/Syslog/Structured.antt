-- ===== src/Syslog/Structured.antt =====
-- collectors/syslog/src/syslog_parser.cpp: `parse_structured_data`. Each round of the two loops takes a
-- character at least, so that the length of the text is fuel enough.
use aiguard_siem.Common.{
  ℕ, zero, suc, ◌+◌, Option, none, some, List, [], ◌∷◌, ◌++◌, Text, if◌then◌else◌, ◌==◌, length,
  take, drop, find_char,
}
use aiguard_siem.Memtable.Table.{assign}

abbrev pub Parameters : Type 0
Parameters = List (Text × Text)

-- A key, its value, and what is left of the parameters.
pub record Param : Type 0 where
  pub key : Text
  pub value : Text
  pub left : Text

-- What follows the quote that opens a value, given where it closes.
abbrev pub closed : Text → Text → Option ℕ → Option Param
closed key s none = none
closed key s (some n) = some (record { key = key; value = take n s; left = drop (n + 2) s })

abbrev pub opened : Text → Text → Option Param
opened key [] = none
opened key (c ∷ s) = if c == b'"' then closed key s (find_char b'"' s) else none

abbrev pub keyed : Text → Option ℕ → Option Param
keyed s none = none
keyed s (some n) = opened (take n s) (drop (suc n) s)

unfoldable pub next_param : Text → Option Param
next_param s = keyed s (find_char b'=' s)

unfoldable pub params_from : ℕ → Text → Text → Parameters → Parameters
params_from zero id s m = m
params_from (suc fuel) id [] m = m
params_from (suc fuel) id (c ∷ s) m = elim (next_param (c ∷ s)) [
  | none ↦ m
  | some p ↦ params_from fuel id p.left (assign (id ++ (b'.' ∷ p.key)) p.value m)
]

-- An element without its brackets, given where its first space is.
unfoldable pub element_into : Text → Option ℕ → Parameters → Parameters
element_into s none m = m
element_into s (some n) m =
    let params = drop (suc n) s in params_from (length params) (take n s) params m

unfoldable pub elements_from : ℕ → Text → Parameters → Parameters
elements_from zero s m = m
elements_from (suc fuel) [] m = m
elements_from (suc fuel) (c ∷ s) m = elim (find_char b']' s) [
  | none ↦ m
  | some n ↦
      let rest =
        elements_from fuel (drop (suc n) s)
          (element_into (take n s) (find_char b' ' (take n s)) m) in
      if c == b'[' then rest else m
]

unfoldable pub parse_structured_data : Text → Parameters
parse_structured_data s = elements_from (length s) s []
