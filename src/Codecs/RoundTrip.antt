-- ===== src/Codecs/RoundTrip.antt =====
-- Bytes are read back from base64 and from hexadecimal.
use aiguard_siem.Common.{
  ℕ, ◌+◌, ◌*◌, ◌/◌, ◌%◌, ◌^◌, ◌<◌, ◌≡◌, refl, sym, ap, ◌∙◌, [], ◌∷◌, ◌++◌, Text, Every, arith,
}
use mathlib.Core.List.{append_assoc, append-nil}
use aiguard_siem.Events.{wrap32}
use aiguard_siem.Codecs.Base64.{sextet, base64_encode, base64_decode, Decoder, decode_chars}
use aiguard_siem.Codecs.Hex.{hex_encode, hex_decode}
use aiguard_siem.Codecs.Symbols.{decode_chars-symbol, hex_val-hex_digit}

abbrev pub IsBytes : Text → Type 0
IsBytes s = Every (λ b. b < 256) s

-- The accumulator after a value.
abbrev shifted : ℕ → ℕ → ℕ
shifted accum v = wrap32 (accum * 2 ^ 6) + v

abbrev at : ℕ → ℕ → Text → Decoder
at accum bits result = record { accum = accum; bits = bits; result = result }

-- The six bits of a group's number from the given one on.
abbrev value : ℕ → ℕ → ℕ
value shift n = n / 2 ^ shift % 64

decode_two :
    (n accum : ℕ) (result s : Text)
    → let x = shifted accum (value 18 n) in
      let y = shifted x (value 12 n) in
      decode_chars (sextet 18 n ∷ (sextet 12 n ∷ s)) (at accum 0 result)
      ≡ decode_chars s (at y 4 (result ++ ((y / 2 ^ 4 % 256) ∷ [])))
decode_two n accum result s =
    decode_chars-symbol (value 18 n) (sextet 12 n ∷ s) (at accum 0 result) (omega arith)
    ∙ decode_chars-symbol (value 12 n) s (at (shifted accum (value 18 n)) 6 result) (omega arith)

decode_third :
    (n accum : ℕ) (result s : Text)
    → let z = shifted accum (value 6 n) in
      decode_chars (sextet 6 n ∷ s) (at accum 4 result)
      ≡ decode_chars s (at z 2 (result ++ ((z / 2 ^ 2 % 256) ∷ [])))
decode_third n accum result s = decode_chars-symbol (value 6 n) s (at accum 4 result) (omega arith)

decode_fourth :
    (n accum : ℕ) (result s : Text)
    → let w = shifted accum (value 0 n) in
      decode_chars (sextet 0 n ∷ s) (at accum 2 result)
      ≡ decode_chars s (at w 0 (result ++ ((w / 2 ^ 0 % 256) ∷ [])))
decode_fourth n accum result s = decode_chars-symbol (value 0 n) s (at accum 2 result) (omega arith)

-- The bytes that come out, whatever the accumulator held before.
first_byte :
    (n accum a rest : ℕ)
    → n ≡ a * 2 ^ 16 + rest
    → a < 256
    → rest < 2 ^ 16
    → shifted (shifted accum (value 18 n)) (value 12 n) / 2 ^ 4 % 256 ≡ a
first_byte n accum a rest e h k = omega (arith, e, h, k)

second_byte :
    (n accum a b c : ℕ)
    → n ≡ a * 2 ^ 16 + b * 2 ^ 8 + c
    → b < 256
    → c < 256
    → shifted (shifted accum (value 12 n)) (value 6 n) / 2 ^ 2 % 256 ≡ b
second_byte n accum a b c e h k = omega (arith, e, h, k)

third_byte :
    (n accum a b c : ℕ)
    → n ≡ a * 2 ^ 16 + b * 2 ^ 8 + c
    → c < 256
    → shifted (shifted accum (value 6 n)) (value 0 n) / 2 ^ 0 % 256 ≡ c
third_byte n accum a b c e k = omega (arith, e, k)

pub hex_decode-hex_encode : (bytes : Text) → IsBytes bytes → hex_decode (hex_encode bytes) ≡ bytes
unfolding hex_decode hex_encode
hex_decode-hex_encode [] h = refl
hex_decode-hex_encode (b ∷ bytes) h =
    let below = h.0 in
    let whole : b / 16 % 16 * 16 + b % 16 ≡ b = omega (arith, below) in
    rw
      (
        hex_val-hex_digit (b / 16 % 16) (omega arith),
        hex_val-hex_digit (b % 16) (omega arith),
        hex_decode-hex_encode bytes h.1,
      )
      (ap (λ x. x ∷ bytes) whole)

-- Two bytes that are added one after the other.
add_two :
    (result : Text) (a b a' b' : ℕ)
    → a' ≡ a
    → b' ≡ b
    → (result ++ (a' ∷ [])) ++ (b' ∷ []) ≡ result ++ (a ∷ (b ∷ []))
add_two result a b a' b' e f =
    append_assoc result (a' ∷ []) (b' ∷ [])
    ∙ (ap (λ x. result ++ (x ∷ (b' ∷ []))) e ∙ ap (λ y. result ++ (a ∷ (y ∷ []))) f)

add_three :
    (result : Text) (a b c a' b' c' : ℕ)
    → a' ≡ a
    → b' ≡ b
    → c' ≡ c
    → ((result ++ (a' ∷ [])) ++ (b' ∷ [])) ++ (c' ∷ []) ≡ result ++ (a ∷ (b ∷ (c ∷ [])))
add_three result a b c a' b' c' e f g =
    ap (λ r. r ++ (c' ∷ [])) (add_two result a b a' b' e f)
    ∙ (append_assoc result (a ∷ (b ∷ [])) (c' ∷ []) ∙ ap (λ z. result ++ (a ∷ (b ∷ (z ∷ [])))) g)

decode_chars-base64_encode :
    (bytes : Text) (accum : ℕ) (result : Text)
    → IsBytes bytes
    → (decode_chars (base64_encode bytes) (at accum 0 result)).result ≡ result ++ bytes
unfolding decode_chars base64_encode
decode_chars-base64_encode [] accum result h = sym (append-nil result)
decode_chars-base64_encode (a ∷ []) accum result h =
    let n : ℕ = a * 2 ^ 16 in
    ap (λ d. d.result) (decode_two n accum result (b'=' ∷ (b'=' ∷ [])))
    ∙ ap (λ x. result ++ (x ∷ [])) (first_byte n accum a 0 (omega arith) h.0 (omega arith))
decode_chars-base64_encode (a ∷ (b ∷ [])) accum result h =
    let n : ℕ = a * 2 ^ 16 + b * 2 ^ 8 in
    let whole : n ≡ a * 2 ^ 16 + b * 2 ^ 8 + 0 = omega arith in
    let below = h.1.0 in
    let x = shifted accum (value 18 n) in
    let y = shifted x (value 12 n) in
    let first = y / 2 ^ 4 % 256 in
    ap (λ d. d.result) (decode_two n accum result (sextet 6 n ∷ (b'=' ∷ [])))
    ∙ (ap (λ d. d.result) (decode_third n y (result ++ (first ∷ [])) (b'=' ∷ []))
        ∙ add_two result a b first _
            (first_byte n accum a (b * 2 ^ 8) refl h.0 (omega (arith, below)))
            (second_byte n x a b 0 whole below (omega arith)))
decode_chars-base64_encode (a ∷ (b ∷ (c ∷ rest))) accum result h =
    let n : ℕ = a * 2 ^ 16 + b * 2 ^ 8 + c in
    let below = h.1.0 in
    let low = h.1.1.0 in
    let whole : n ≡ a * 2 ^ 16 + (b * 2 ^ 8 + c) = omega arith in
    let x = shifted accum (value 18 n) in
    let y = shifted x (value 12 n) in
    let z = shifted y (value 6 n) in
    let w = shifted z (value 0 n) in
    let first = y / 2 ^ 4 % 256 in
    let second = z / 2 ^ 2 % 256 in
    let third = w / 2 ^ 0 % 256 in
    let one = result ++ (first ∷ []) in
    let two = one ++ (second ∷ []) in
    let more = base64_encode rest in
    let three =
      add_three result a b c first second third
        (first_byte n accum a (b * 2 ^ 8 + c) whole h.0 (omega (arith, below, low)))
        (second_byte n x a b c refl below low) (third_byte n y a b c refl low) in
    ap (λ d. d.result) (decode_two n accum result (sextet 6 n ∷ (sextet 0 n ∷ more)))
    ∙ (ap (λ d. d.result) (decode_third n y one (sextet 0 n ∷ more))
        ∙ (ap (λ d. d.result) (decode_fourth n z two more)
            ∙ (decode_chars-base64_encode rest w (two ++ (third ∷ [])) h.1.1.1
                ∙ (ap (λ r. r ++ rest) three ∙ append_assoc result (a ∷ (b ∷ (c ∷ []))) rest))))

-- Any bytes are read back from base64: groups of three, and a rest of one or two with its padding,
-- whatever the accumulator of the decoder keeps from the groups before.
pub base64_decode-base64_encode :
    (bytes : Text) → IsBytes bytes → base64_decode (base64_encode bytes) ≡ bytes
unfolding base64_decode
base64_decode-base64_encode bytes h = decode_chars-base64_encode bytes 0 [] h
