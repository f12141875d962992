-- ===== src/Transform/Inverse.antt =====
-- The sending and the receiving cursor of one direction of the wire, transform.py.
use army.Common.{ℕ, ◌<◌, ◌≡◌, bit_xor}
use army.Common.Bits.{bit_xor_cancel, bit_xor-lt}
use army.Exec.{ok}
use army.Transform.{TransformCursor, encode_command, decode_command, encode_data, decode_data}
use army.Transform.Valid.{IsCursor, next, next-IsCursor, hide, encode_command-eq}
use army.Transform.Valid.{decode_command-eq, hide-IsByte, reveal-hide, xor_next-eq}
use army.Transform.Valid.{key_byte, key_byte-IsByte}

-- What is sent with one cursor is read back with a cursor at the same place, for a command and for a
-- data byte; what goes over the wire is a byte, both cursors move to the same next place, and that is
-- again a place in the key.
pub decode-encode_byte :
    (c : TransformCursor) (value : ℕ)
    → IsCursor c
    → value < 256
    → (raw : ℕ) × (coded : ℕ) × (after : TransformCursor) × IsCursor after
      × (raw < 256)
      × (coded < 256)
      × (encode_command value c ≡ (ok raw, after))
      × (decode_command raw c ≡ (ok value, after))
      × (encode_data value c ≡ (ok coded, after))
      × (decode_data coded c ≡ (ok value, after))
unfolding encode_data decode_data
decode-encode_byte c value v h =
    let k : bit_xor value (key_byte c) < 256 = bit_xor-lt 8 _ _ h (key_byte-IsByte c v) in
    (
      hide c value,
      bit_xor value (key_byte c),
      next c,
      next-IsCursor c v,
      hide-IsByte c v value,
      k,
      encode_command-eq c v value h,
      rw (decode_command-eq c v (hide c value) (hide-IsByte c v value), reveal-hide c v value h),
      xor_next-eq value c v h,
      rw (xor_next-eq (bit_xor value (key_byte c)) c v k, bit_xor_cancel),
    )
