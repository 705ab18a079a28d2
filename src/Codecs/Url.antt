-- ===== src/Codecs/Url.antt =====
-- Bytes are read back from the base64 of URLs.
use aiguard_siem.Common.{
  ℕ, zero, suc, ◌+◌, ◌-◌, ◌*◌, ◌/◌, ◌%◌, ◌^◌, ◌<◌, ◌≡◌, refl, sym, ap, ◌∙◌, Bool, true, false, not,
  [], ◌∷◌, ◌++◌, map, Text, Every, arith, ◌==◌, ◌&&◌, if◌then◌else◌, is_empty, replicate, length,
  tabulated, tabulated-entry, Bool-cases, inl, inr,
}
use aiguard_siem.Codecs.Base64.{
  symbol, sextet, base64_encode, base64_decode, Decoder, take_char, decode_chars, to_url, from_url,
  remove_padding, base64url_encode, base64url_decode,
}
use aiguard_siem.Codecs.RoundTrip.{IsBytes, base64_decode-base64_encode}

-- A character that survives the change of alphabets, and is padding before and after or not at all.
abbrev IsSafe : ℕ → Type 0
IsSafe c = (from_url (to_url c) ≡ c) × ((to_url c == b'=') ≡ (c == b'='))

abbrev safe_law : ℕ → Bool
safe_law v =
    from_url (to_url (symbol v)) == symbol v
    && (not (to_url (symbol v) == b'=') && not (symbol v == b'='))

symbol-IsSafe : (v : ℕ) → v < 64 → IsSafe (symbol v)
symbol-IsSafe v h =
    let law : safe_law v ≡ true = tabulated-entry safe_law 64 v h (unfold tabulated in refl) in
    let other : (symbol v == b'=') ≡ false = ground (arith, law) in
    let changed : (to_url (symbol v) == b'=') ≡ false = ground (arith, law) in
    (ground (arith, law), changed ∙ sym other)

sextet-IsSafe : (shift n : ℕ) → IsSafe (sextet shift n)
sextet-IsSafe shift n = symbol-IsSafe (n / 2 ^ shift % 64) (omega arith)

base64_encode-IsSafe : (bytes : Text) → Every IsSafe (base64_encode bytes)
unfolding base64_encode
base64_encode-IsSafe [] = tt
base64_encode-IsSafe (a ∷ []) =
    let n : ℕ = a * 2 ^ 16 in
    (sextet-IsSafe 18 n, (sextet-IsSafe 12 n, ((refl, refl), ((refl, refl), tt))))
base64_encode-IsSafe (a ∷ (b ∷ [])) =
    let n : ℕ = a * 2 ^ 16 + b * 2 ^ 8 in
    (sextet-IsSafe 18 n, (sextet-IsSafe 12 n, (sextet-IsSafe 6 n, ((refl, refl), tt))))
base64_encode-IsSafe (a ∷ (b ∷ (c ∷ rest))) =
    let n : ℕ = a * 2 ^ 16 + b * 2 ^ 8 + c in
    (
      sextet-IsSafe 18 n,
      (sextet-IsSafe 12 n, (sextet-IsSafe 6 n, (sextet-IsSafe 0 n, base64_encode-IsSafe rest))),
    )

is_empty-map : (s : Text) → is_empty (map from_url s) ≡ is_empty s
is_empty-map [] = refl
is_empty-map (c ∷ s) = refl

map-if :
    (b b' : Bool) (c c' : ℕ) (s s' : Text)
    → b ≡ b'
    → from_url c ≡ c'
    → map from_url s ≡ s'
    → map from_url (if b then [] else c ∷ s) ≡ (if b' then [] else c' ∷ s')
map-if true true c c' s s' e f g = refl
map-if true false c c' s s' e f g = ground (arith, e)
map-if false true c c' s s' e f g = ground (arith, e)
map-if false false c c' s s' e f g = rw (f, g) refl

-- The padding is removed from either alphabet alike.
map-remove_padding :
    (s : Text) → Every IsSafe s → map from_url (remove_padding (map to_url s)) ≡ remove_padding s
unfolding remove_padding
map-remove_padding [] h = refl
map-remove_padding (c ∷ s) h =
    let rest = remove_padding (map to_url s) in
    let more = map-remove_padding s h.1 in
    let alike : is_empty rest ≡ is_empty (remove_padding s) =
      sym (is_empty-map rest) ∙ ap is_empty more in
    let same : (to_url c == b'=' && is_empty rest) ≡ (c == b'=' && is_empty (remove_padding s)) =
      ap (λ b. b && is_empty rest) h.0.1 ∙ ap (λ b. c == b'=' && b) alike in
    map-if _ _ (to_url c) c rest (remove_padding s) same h.0.0 more

decode_chars-padding : (k : ℕ) (d : Decoder) → decode_chars (replicate k b'=') d ≡ d
unfolding decode_chars
decode_chars-padding zero d = refl
decode_chars-padding (suc k) d = refl

-- Padding says nothing to the decoder.
decode_chars-remove_padding :
    (s : Text) (k : ℕ) (d : Decoder)
    → decode_chars (remove_padding s ++ replicate k b'=') d ≡ decode_chars s d
unfolding decode_chars remove_padding
decode_chars-remove_padding [] k d = decode_chars-padding k d
decode_chars-remove_padding (c ∷ s) k d =
    let rest = remove_padding s in
    elim (Bool-cases (c == b'=')) [
      | inl padding ↦ elim (Bool-cases (is_empty rest)) [
        | inl none_left ↦ rw (padding, none_left) (decode_chars-padding k d)
        | inr some_left ↦ rw (padding, some_left, padding) refl
      ]
      | inr other ↦ rw (other, other) (decode_chars-remove_padding s k (take_char c d))
    ]

-- Any bytes are read back from base64 for URLs, whose alphabet and lack of padding the decoder makes
-- good.
pub base64url_decode-base64url_encode :
    (bytes : Text) → IsBytes bytes → base64url_decode (base64url_encode bytes) ≡ bytes
unfolding base64url_decode base64url_encode base64_decode
base64url_decode-base64url_encode bytes h =
    let encoded = base64_encode bytes in
    let back = map-remove_padding encoded (base64_encode-IsSafe bytes) in
    let k = (4 - length (map from_url (remove_padding (map to_url encoded))) % 4) % 4 in
    let start : Decoder = record { accum = 0; bits = 0; result = [] } in
    ap (λ s. (decode_chars (s ++ replicate k b'=') start).result) back
    ∙ (ap (λ d. d.result) (decode_chars-remove_padding encoded k start)
        ∙ (unfold base64_decode in base64_decode-base64_encode bytes h))
