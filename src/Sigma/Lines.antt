-- ===== src/Sigma/Lines.antt =====
-- engine/rules/src/sigma_compiler.cpp: how the compiler takes lines and values apart.
use aiguard_siem.Common.{
  ℕ, suc, ◌-◌, Bool, true, ◌&&◌, ◌||◌, Option, none, some, List, [], ◌∷◌, Text, if◌then◌else◌, ◌==◌,
  leb, length, take, drop, is_empty, starts_with, ends_with, find_char, split_on, insert, text_key,
}
use mathlib.Core.Option

abbrev pub is_blank : ℕ → Bool
is_blank c = c == b' ' || c == b'\t'

-- `find_first_not_of(" \t")`.
unfoldable pub indent_of : Text → Option ℕ
indent_of [] = none
indent_of (c ∷ s) = if is_blank c then Option.map suc (indent_of s) else some 0

-- `s.erase(0, s.find_first_not_of(" \t"))`.
unfoldable pub trim_left : Text → Text
trim_left [] = []
trim_left (c ∷ s) = let rest = trim_left s in if is_blank c then rest else c ∷ s

-- `s.erase(s.find_last_not_of(" \t") + 1)`.
unfoldable pub trim_right : Text → Text
trim_right [] = []
trim_right (c ∷ s) = let rest = trim_right s in if is_blank c && is_empty rest then [] else c ∷ rest

abbrev pub trim : Text → Text
trim s = trim_right (trim_left s)

abbrev pub quote : Text
quote = b'"' ∷ []

unfoldable pub unquote : Text → Text
unquote s =
    if leb 2 (length s) && (starts_with s quote && ends_with s quote)
    then take (length s - 2) (drop 1 s)
    else s

-- `line.substr(0, comment)` where there is one.
unfoldable pub uncomment : Text → Text
uncomment [] = []
uncomment (c ∷ s) = let rest = uncomment s in if c == b'#' then [] else c ∷ rest

-- `find_first_not_of(" \t\r\n") == npos`.
unfoldable pub is_space : Text → Bool
is_space [] = true
is_space (c ∷ s) = (is_blank c || (c == b'\r' || c == b'\n')) && is_space s

abbrev pub KeyValues : Type 0
KeyValues = List (Text × Text)

abbrev pub put_pair : Text → Text → KeyValues → KeyValues
put_pair key value kv = if is_empty value then kv else insert key value kv

-- A line from its first character that is not blank, given where the colon is.
unfoldable pub put_trimmed : Text → KeyValues → Option ℕ → KeyValues
put_trimmed s kv none = kv
put_trimmed s kv (some colon) =
    put_pair (trim (take colon s)) (unquote (trim (drop (suc colon) s))) kv

unfoldable pub put_line : Text → KeyValues → KeyValues
put_line line kv =
    let s = uncomment line in
    if is_space s then kv else put_trimmed (trim_left s) kv (find_char b':' (trim_left s))

unfoldable pub put_lines : List Text → KeyValues → KeyValues
put_lines [] kv = kv
put_lines (line ∷ lines) kv = put_lines lines (put_line line kv)

unfoldable pub parse_yaml_simple : Text → KeyValues
parse_yaml_simple yaml = put_lines (split_on b'\n' yaml) []
