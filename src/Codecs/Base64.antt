-- ===== src/Codecs/Base64.antt =====
-- crypto/src/crypto_utils.cpp: base64. The parts of a group that `|` puts together share no bits, so
-- that their sum is meant; a byte is a number below 256.
use aiguard_siem.Common.{
  ℕ, ◌+◌, ◌-◌, ◌*◌, ◌/◌, ◌%◌, ◌^◌, Option, none, some, List, [], ◌∷◌, ◌++◌, map, Text, codes,
  if◌then◌else◌, leb, ◌==◌, ◌&&◌, length, get_elem?, get_or_else, replicate, is_empty, find, insert,
  nat_key,
}
use aiguard_siem.Events.{wrap32}

abbrev pub b64_table : Text
b64_table = codes "ABCDEFGHIJKLMNOPQRSTUVWXYZabcdefghijklmnopqrstuvwxyz0123456789+/"

-- `b64_table[i]`, for an index below 64.
abbrev pub symbol : ℕ → ℕ
symbol i = get_or_else (get_elem? b64_table i) 0

-- The six bits of `n` from the given one on, as a symbol.
abbrev pub sextet : ℕ → ℕ → ℕ
sextet shift n = symbol (n / 2 ^ shift % 64)

unfoldable pub base64_encode : Text → Text
base64_encode [] = []
base64_encode (a ∷ []) =
    let n : ℕ = a * 2 ^ 16 in sextet 18 n ∷ (sextet 12 n ∷ (b'=' ∷ (b'=' ∷ [])))
base64_encode (a ∷ (b ∷ [])) =
    let n : ℕ = a * 2 ^ 16 + b * 2 ^ 8 in sextet 18 n ∷ (sextet 12 n ∷ (sextet 6 n ∷ (b'=' ∷ [])))
base64_encode (a ∷ (b ∷ (c ∷ rest))) =
    let n : ℕ = a * 2 ^ 16 + b * 2 ^ 8 + c in
    sextet 18 n ∷ (sextet 12 n ∷ (sextet 6 n ∷ (sextet 0 n ∷ base64_encode rest)))

-- The entries that are not -1.
unfoldable pub fill_table : ℕ → Text → List (ℕ × ℕ) → List (ℕ × ℕ)
fill_table i [] table = table
fill_table i (c ∷ s) table = fill_table (i + 1) s (insert c i table)

abbrev pub decode_table : List (ℕ × ℕ)
decode_table = fill_table 0 b64_table []

pub record Decoder : Type 0 where
  pub accum : ℕ
  pub bits : ℕ
  pub result : Text

abbrev pub take_value : ℕ → Decoder → Decoder
take_value v d =
    let accum : ℕ = wrap32 (d.accum * 2 ^ 6) + v in
    let bits : ℕ = d.bits + 6 in
    if leb 8 bits
    then record {
      accum = accum;
      bits = bits - 8;
      result = d.result ++ ((accum / 2 ^ (bits - 8) % 256) ∷ []);
    }
    else record d { accum = accum; bits = bits }

abbrev pub take_found : Option ℕ → Decoder → Decoder
take_found none d = d
take_found (some v) d = take_value v d

unfoldable pub take_char : ℕ → Decoder → Decoder
take_char c d = take_found (find c decode_table) d

unfoldable pub decode_chars : Text → Decoder → Decoder
decode_chars [] d = d
decode_chars (c ∷ s) d = if c == b'=' then d else decode_chars s (take_char c d)

unfoldable pub base64_decode : Text → Text
base64_decode s = (decode_chars s (record { accum = 0; bits = 0; result = [] })).result

abbrev pub to_url : ℕ → ℕ
to_url c = if c == b'+' then b'-' else (if c == b'/' then b'_' else c)

abbrev pub from_url : ℕ → ℕ
from_url c = if c == b'-' then b'+' else (if c == b'_' then b'/' else c)

unfoldable pub remove_padding : Text → Text
remove_padding [] = []
remove_padding (c ∷ s) =
    let rest = remove_padding s in if c == b'=' && is_empty rest then [] else c ∷ rest

unfoldable pub base64url_encode : Text → Text
base64url_encode bytes = remove_padding (map to_url (base64_encode bytes))

unfoldable pub base64url_decode : Text → Text
base64url_decode encoded =
    let s = map from_url encoded in base64_decode (s ++ replicate ((4 - length s % 4) % 4) b'=')
