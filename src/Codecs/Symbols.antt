-- ===== src/Codecs/Symbols.antt =====
-- A symbol of base64 is decoded to its value.
use aiguard_siem.Common.{
  ℕ, ◌≡◌, ◌<◌, refl, ap, true, false, Bool, Option, none, some, ◌&&◌, ◌==◌, not, ◌∷◌, Text, find,
  insert, nat_key, tabulated, tabulated-entry, arith,
}
use aiguard_siem.Codecs.Base64.{
  symbol, fill_table, decode_table, Decoder, take_value, take_found, take_char, decode_chars,
}
use aiguard_siem.Codecs.Hex.{hex_digit, hex_val}

abbrev answers : Option ℕ → ℕ → Bool
answers none v = false
answers (some w) v = w == v

answers_lem : (o : Option ℕ) (v : ℕ) → answers o v ≡ true → o ≡ some v
answers_lem none v h = ground arith
answers_lem (some w) v h = ap some (ground arith)

abbrev symbol_law : ℕ → Bool
symbol_law v = answers (find (symbol v) decode_table) v && not (symbol v == b'=')

symbol_laws : tabulated symbol_law 64 ≡ true
unfolding tabulated fill_table find insert
symbol_laws = refl

pub hex_val-hex_digit : (v : ℕ) → v < 16 → hex_val (hex_digit v) ≡ some v
hex_val-hex_digit v h =
    answers_lem (hex_val (hex_digit v)) v
      (tabulated-entry (λ w. answers (hex_val (hex_digit w)) w) 16 v h (unfold tabulated in refl))

-- A symbol takes its value into the accumulator.
pub decode_chars-symbol :
    (v : ℕ) (s : Text) (d : Decoder)
    → v < 64
    → decode_chars (symbol v ∷ s) d ≡ decode_chars s (take_value v d)
unfolding decode_chars
decode_chars-symbol v s d h =
    let law : symbol_law v ≡ true = tabulated-entry symbol_law 64 v h symbol_laws in
    let found : find (symbol v) decode_table ≡ some v =
      answers_lem (find (symbol v) decode_table) v (ground (arith, law)) in
    let other : (symbol v == b'=') ≡ false = ground (arith, law) in
    rw other (ap (decode_chars s) (unfold take_char in ap (λ (o : Option ℕ). take_found o d) found))
