-- ===== src/Primitives.antt =====
-- server/army3_protocol/primitives.py: the reader and the writer of message payloads.
-- Numbers are Python's integers. The `isinstance` tests have no counterpart: the arguments have the
-- types that the annotations give. The messages of the errors are not modelled.
pub mod Codec
pub mod Errors
pub mod Reads
pub mod Writes
pub mod Text
mod Runs
use army.Common.{ℕ, zero, suc, ◌+◌, ◌-◌, ◌^◌, Bool, true, false, not, List, [], ◌∷◌, ◌++◌}
use army.Common.{length, take, drop, ltb, leb, ◌==◌, if◌then◌else◌}
use army.Common.Int.{ℤ, pos, negsuc, leb_ℤ, within}
use army.Bytes.{to_bytes, from_bytes}
use army.Utf8.{utf8_encode, utf8_decode}
use army.Exec.{Error, Result, ok, err, encode_error, decode_error, value_error, index_error}
use army.Exec.{unicode_decode_error, Exec, pure, raise, lift, gets, raise_if, ◌>>=◌, ◌>>◌}

pub record ByteReader : Type 0 where
  pub bytes : List ℕ
  pub max_string_bytes : ℤ
  pub offset : ℕ

-- `ByteReader(data, max_string_bytes)`
unfoldable pub byte_reader : List ℕ → ℤ → Result ByteReader
byte_reader bytes max_string_bytes =
    if within (pos 0) (pos 0xffff) max_string_bytes
    then ok (record { bytes = bytes; max_string_bytes = max_string_bytes; offset = 0 })
    else err value_error

unfoldable pub remaining : ByteReader → ℕ
remaining r = length r.bytes - r.offset

unfoldable pub read_exact : ℤ → Exec ByteReader (List ℕ)
read_exact (negsuc n) r = (err value_error, r)
read_exact (pos size) r =
    let end = r.offset + size in
    if ltb (length r.bytes) end
    then (err decode_error, r)
    else (ok (take size (drop r.offset r.bytes)), record r { offset = end })

-- `value[0]`
unfoldable pub first : List ℕ → Result ℤ
first [] = err index_error
first (b ∷ bs) = ok (pos b)

unfoldable pub read_u8 : Exec ByteReader ℤ
unfolding read_exact first
read_u8 = do value ← read_exact (pos 1); lift (first value)

unfoldable pub read_u16 : Exec ByteReader ℤ
unfolding read_exact
read_u16 = do value ← read_exact (pos 2); pure (pos (from_bytes value))

unfoldable pub read_u32 : Exec ByteReader ℤ
unfolding read_exact
read_u32 = do value ← read_exact (pos 4); pure (pos (from_bytes value))

-- `except UnicodeDecodeError as exc: raise DecodeError`
unfoldable pub or_decode_error : Result (List ℕ) → Result (List ℕ)
or_decode_error (ok text) = ok text
or_decode_error (err unicode_decode_error) = err decode_error
or_decode_error (err e) = err e

unfoldable pub read_string16 : Exec ByteReader (List ℕ)
unfolding read_u16 read_exact or_decode_error
read_string16 = do
  size ← read_u16
  limit ← gets (λ r. r.max_string_bytes)
  raise_if (not (leb_ℤ size limit)) decode_error
  raw ← read_exact size
  lift (or_decode_error (utf8_decode raw))

unfoldable pub ensure_finished : Exec ByteReader (Unit {0})
unfolding remaining
ensure_finished = do left ← gets remaining; raise_if (not (left == 0)) decode_error

pub record ByteWriter : Type 0 where
  pub buffer : List ℕ

abbrev pub byte_writer : ByteWriter
byte_writer = record { buffer = [] }

-- `_validate_uint(value, bits, field_name)`
unfoldable pub validate_uint : ℤ → ℕ → Result ℕ
validate_uint (negsuc n) bits = err encode_error
validate_uint (pos n) bits = if leb n (2 ^ bits - 1) then ok n else err encode_error

unfoldable pub write_bytes : List ℕ → Exec ByteWriter (Unit {0})
write_bytes value w = (ok tt, record { buffer = w.buffer ++ value })

unfoldable pub write_u8 : ℤ → Exec ByteWriter (Unit {0})
unfolding validate_uint write_bytes
write_u8 value = do n ← lift (validate_uint value 8); write_bytes (n ∷ [])

unfoldable pub write_u16 : ℤ → Exec ByteWriter (Unit {0})
unfolding validate_uint write_bytes
write_u16 value = do n ← lift (validate_uint value 16); write_bytes (to_bytes 2 n)

unfoldable pub write_u32 : ℤ → Exec ByteWriter (Unit {0})
unfolding validate_uint write_bytes
write_u32 value = do n ← lift (validate_uint value 32); write_bytes (to_bytes 4 n)

unfoldable pub write_string16 : List ℕ → Exec ByteWriter (Unit {0})
unfolding write_u16 write_bytes
write_string16 value = do
  raw ← lift (utf8_encode value)
  raise_if (ltb 0xffff (length raw)) encode_error
  write_u16 (pos (length raw))
  write_bytes raw

-- `writer = ByteWriter(); …; return writer.to_bytes()`
abbrev pub buffer_of : Result (Unit {0}) × ByteWriter → Result (List ℕ)
buffer_of (ok x, w) = ok w.buffer
buffer_of (err e, w) = err e

abbrev pub written : Exec ByteWriter (Unit {0}) → Result (List ℕ)
written w = buffer_of (w byte_writer)

-- `reader = ByteReader(payload); …`, with the default limit on strings.
abbrev pub reader : List ℕ → ByteReader
reader payload = record { bytes = payload; max_string_bytes = pos 0xffff; offset = 0 }

abbrev pub read_payload {ℓ} : {A : Type ℓ} → Exec ByteReader A → List ℕ → Result A
read_payload m payload = (m (reader payload)).0
