-- ===== src/Utf8/Runs.antt =====
-- The round trip of a text: "é€" and a character beyond 0xFFFF.
use army.Common.{◌≡◌, refl, [], ◌∷◌}
use army.Exec.{ok, err, unicode_decode_error}
use army.Utf8.{utf8_encode, is_scalar, encode_char, utf8_decode, utf8_step}
use army.Utf8.RoundTrip.{utf8_decode-utf8_encode}

-- An overlong form is refused.
utf8_overlong : utf8_decode (0xc0 ∷ 0x80 ∷ []) ≡ err unicode_decode_error
unfolding utf8_decode utf8_step
utf8_overlong = refl

utf8_read_back :
    utf8_decode (0xc3 ∷ 0xa9 ∷ 0xe2 ∷ 0x82 ∷ 0xac ∷ 0xf0 ∷ 0x9f ∷ 0x98 ∷ 0x80 ∷ [])
    ≡ ok (0xe9 ∷ 0x20ac ∷ 0x1f600 ∷ [])
unfolding utf8_encode is_scalar encode_char
utf8_read_back =
    utf8_decode-utf8_encode (0xe9 ∷ 0x20ac ∷ 0x1f600 ∷ [])
      (0xc3 ∷ 0xa9 ∷ 0xe2 ∷ 0x82 ∷ 0xac ∷ 0xf0 ∷ 0x9f ∷ 0x98 ∷ 0x80 ∷ []) refl
