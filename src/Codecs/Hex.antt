-- ===== src/Codecs/Hex.antt =====
-- crypto/src/crypto_utils.cpp: hexadecimal.
use aiguard_siem.Common.{
  ℕ, ◌+◌, ◌-◌, ◌*◌, ◌/◌, ◌%◌, Option, none, some, [], ◌∷◌, Text, codes, if◌then◌else◌, leb, ◌&&◌,
  get_elem?, get_or_else,
}

-- `hex[i]`, for an index below 16.
abbrev pub hex_digit : ℕ → ℕ
hex_digit i = get_or_else (get_elem? (codes "0123456789abcdef") i) 0

unfoldable pub hex_encode : Text → Text
hex_encode [] = []
hex_encode (b ∷ bytes) = hex_digit (b / 16 % 16) ∷ (hex_digit (b % 16) ∷ hex_encode bytes)

-- -1 is `none`.
abbrev pub hex_val : ℕ → Option ℕ
hex_val c =
    if leb b'0' c && leb c b'9'
    then some (c - b'0')
    else (if leb b'a' c && leb c b'f'
        then some (c - b'a' + 10)
        else (if leb b'A' c && leb c b'F' then some (c - b'A' + 10) else none))

-- A pair of digits, and the bytes that follow it.
abbrev pub join_digits : Option ℕ → Option ℕ → Text → Text
join_digits none lo rest = []
join_digits (some hi) none rest = []
join_digits (some hi) (some lo) rest = (hi * 16 + lo) ∷ rest

unfoldable pub hex_decode : Text → Text
hex_decode [] = []
hex_decode (c ∷ []) = []
hex_decode (c ∷ (d ∷ s)) = join_digits (hex_val c) (hex_val d) (hex_decode s)
