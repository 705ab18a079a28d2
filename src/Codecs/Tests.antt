-- ===== src/Codecs/Tests.antt =====
-- Runs of the codecs, from crypto/tests/test_crypto.cpp and at the ends of their ranges.
use aiguard_siem.Common.{◌≡◌, refl, [], ◌∷◌, ◌++◌, codes, find, insert, arith}
use aiguard_siem.Codecs.Base64.{
  fill_table, take_char, decode_chars, base64_encode, base64_decode, base64url_encode,
  base64url_decode, remove_padding,
}
use aiguard_siem.Codecs.Hex.{hex_encode, hex_decode}
use aiguard_siem.Codecs.RoundTrip.{base64_decode-base64_encode}
use aiguard_siem.Codecs.Url.{base64url_decode-base64url_encode}

encode_hello : base64_encode (codes "Hello, World!") ≡ codes "SGVsbG8sIFdvcmxkIQ=="
unfolding base64_encode
encode_hello = refl

-- Characters outside the alphabet are skipped.
decode_with_line_feed : base64_decode (codes "SGVs" ++ (b'\n' ∷ codes "bG8=")) ≡ codes "Hello"
unfolding base64_decode decode_chars take_char fill_table find insert
decode_with_line_feed = refl

encode_url : base64url_encode (255 ∷ (239 ∷ [])) ≡ codes "_-8"
unfolding base64url_encode base64_encode remove_padding
encode_url = refl

hex_upper : hex_decode (codes "DEADbeef0") ≡ 0xde ∷ (0xad ∷ (0xbe ∷ (0xef ∷ [])))
unfolding hex_decode
hex_upper = refl

hex_lower : hex_encode (0xde ∷ (0xad ∷ [])) ≡ codes "dead"
unfolding hex_encode
hex_lower = refl

base64_decode-base64_encode_example :
    base64_decode (base64_encode (255 ∷ (0 ∷ (16 ∷ (255 ∷ []))))) ≡ 255 ∷ (0 ∷ (16 ∷ (255 ∷ [])))
base64_decode-base64_encode_example =
    base64_decode-base64_encode (255 ∷ (0 ∷ (16 ∷ (255 ∷ []))))
      (omega arith, (omega arith, (omega arith, (omega arith, tt))))

base64url_decode-base64url_encode_example :
    base64url_decode (base64url_encode (255 ∷ (239 ∷ []))) ≡ 255 ∷ (239 ∷ [])
base64url_decode-base64url_encode_example =
    base64url_decode-base64url_encode (255 ∷ (239 ∷ [])) (omega arith, (omega arith, tt))
