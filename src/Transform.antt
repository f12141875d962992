-- ===== src/Transform.antt =====
-- server/army3_protocol/transform.py: the byte transformation that the 0xE5 handshake turns on.
-- `key` and `shift` are fixed once the constructor has checked them; a cursor moves over the key.
-- Bytes and commands are natural numbers, so only the upper bound of a byte test is left.
pub mod Valid
pub mod Key
pub mod Inverse
mod Runs
use army.Common.{ℕ, ◌+◌, ◌-◌, ◌%◌, bit_xor, Bool, true, false, not, ◌&&◌, Option, none, some}
use army.Common.{List, [], ◌∷◌, length, get_elem?, ltb, leb, if◌then◌else◌}
use army.Common.Int.{ℤ, pos, negsuc}
use army.Exec.{Result, ok, err, encode_error, value_error, index_error, Exec, ◌>>=◌, pure}

pub record ByteTransform : Type 0 where
  pub key : List ℕ
  pub shift : ℕ

-- `ByteTransform(key, shift)` with the checks of `__post_init__`.
unfoldable pub byte_transform : List ℕ → ℤ → Result ByteTransform
byte_transform [] shift = err encode_error
byte_transform (k ∷ key) (negsuc n) = err encode_error
byte_transform (k ∷ key) (pos n) =
    if ltb 127 (length (k ∷ key))
    then err encode_error
    else if leb n 255
    then ok (record { key = k ∷ key; shift = n })
    else err encode_error

-- `effective[index] ^= effective[index - 1]` over the rest of the seed, from the byte before it.
unfoldable pub xor_from : ℕ → List ℕ → List ℕ
xor_from previous [] = []
xor_from previous (b ∷ rest) = let e = bit_xor b previous in e ∷ xor_from (bit_xor b previous) rest

unfoldable pub from_seed : List ℕ → ℤ → Result ByteTransform
unfolding xor_from byte_transform
from_seed [] shift = err encode_error
from_seed (b ∷ rest) shift = byte_transform (b ∷ xor_from b rest) shift

pub record TransformCursor : Type 0 where
  pub transform : ByteTransform
  pub index : ℕ

unfoldable pub cursor : ByteTransform → TransformCursor
cursor t = record { transform = t; index = 0 }

unfoldable pub checkpoint : TransformCursor → ℕ
checkpoint c = c.index

unfoldable pub restore : ℕ → Exec TransformCursor (Unit {0})
restore saved c =
    if ltb saved (length c.transform.key)
    then (ok tt, record c { index = saved })
    else (err value_error, c)

-- The index wraps round at the key's length. A key byte is read before the index moves.
unfoldable pub take_key : Option ℕ → ℕ → Exec TransformCursor ℕ
take_key none value c = (err index_error, c)
take_key (some k) value c =
    (ok (bit_xor value k), record c { index = (c.index + 1) % length c.transform.key })

unfoldable pub xor_next : ℕ → Exec TransformCursor ℕ
unfolding take_key
xor_next value c =
    if leb value 255
    then take_key (get_elem? c.transform.key c.index) value c
    else (err value_error, c)

unfoldable pub encode_command : ℕ → Exec TransformCursor ℕ
encode_command logical_command c =
    if leb logical_command 255
    then xor_next ((logical_command + c.transform.shift) % 256) c
    else (err value_error, c)

-- `(x - shift) & 0xFF`, with 256 added before the subtraction: a shift is at most 255.
unfoldable pub decode_command : ℕ → Exec TransformCursor ℕ
decode_command raw_command = do
  x ← xor_next raw_command
  λ c. (ok ((x + 256 - c.transform.shift) % 256), c)

unfoldable pub encode_data : ℕ → Exec TransformCursor ℕ
encode_data = xor_next

unfoldable pub decode_data : ℕ → Exec TransformCursor ℕ
decode_data = xor_next
