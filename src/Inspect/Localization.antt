-- ===== src/Inspect/Localization.antt =====
-- tools/inspect_runtime_state.py: `_localization_text`, which takes the mask off an entry.
pub mod Keystream
pub mod Entry
use army.Common.{
  ℕ, zero, suc, ◌+◌, ◌-◌, ◌*◌, ◌/◌, ◌%◌, ◌^◌, bit_xor, Bool, not, ◌||◌, List, [], ◌∷◌, length,
  if◌then◌else◌, ltb, leb, ◌==◌,
}
use army.Common.Int.{ℤ, pos, negsuc, sub_ℕ}
use army.Exec.{Result, ok, err, read_error, bind_result}
use army.Redirect.Paths.{Text}
use army.Inspect.Sequence.{◌>>=◌, ◌>>◌, check}
use army.Inspect.Decoding.{utf16_replacing}
use army.Inspect.{Windows, pointer, read_i32, read_u32, managed_string}
use army.Inspect.Objects.{array_length}

-- `x & 0xFFFFFFFF`
abbrev pub low_word : ℤ → ℕ
low_word (pos n) = n % 2 ^ 32
low_word (negsuc n) = 2 ^ 32 - 1 - n % 2 ^ 32

-- `((text_id * -0x7A143589 + 0x85EBCA77) & 0xFFFFFFFF) ^ 0x046480DF`
unfoldable pub first_state : ℕ → ℕ
first_state text_id = bit_xor (low_word (sub_ℕ 0x85ebca77 (text_id * 0x7a143589))) 0x046480df

abbrev shifted_left : ℕ → ℕ → ℕ
shifted_left n state = bit_xor state ((state * 2 ^ n) % 2 ^ 32)

abbrev shifted_right : ℕ → ℕ → ℕ
shifted_right n state = bit_xor state (state / 2 ^ n)

-- One round of the generator.
unfoldable pub next_state : ℕ → ℕ
next_state state = shifted_left 5 (shifted_right 17 (shifted_left 13 state)) % 2 ^ 32

-- The bytes with the mask of the states behind one put on, or taken off.
unfoldable pub masked : ℕ → List ℕ → List ℕ
masked state [] = []
masked state (b ∷ bytes) = bit_xor b (next_state state % 256) ∷ masked (next_state state) bytes

-- The loop that reads the bytes, each out of its word.
unfoldable pub read_packed : Windows → ℕ → ℕ → ℕ → ℕ → Result (List ℕ)
read_packed w packed packed_offset index zero = ok []
read_packed w packed packed_offset index (suc left) = do
  word ← read_u32 w (packed + 0x20 + (packed_offset + index / 4) * 4)
  rest ← read_packed w packed packed_offset (suc index) left
  ok (word / 2 ^ (index % 4 * 8) % 256 ∷ rest)

abbrev in_bounds : ℤ → Result ℕ
in_bounds (negsuc n) = err read_error
in_bounds (pos n) = if ltb 0x10000 n then err read_error else ok n

abbrev not_below_zero : ℤ → Result ℕ
not_below_zero (pos n) = ok n
not_below_zero (negsuc n) = err read_error

-- The entry that no one has asked for yet.
unfoldable pub packed_text : Windows → ℕ → ℕ → Result Text
packed_text w fields text_id = do
  packed ← pointer w fields
  offsets ← pointer w (fields + 0x8)
  lengths ← pointer w (fields + 0x10)
  offset_count ← array_length w offsets
  check (leb offset_count text_id) read_error
  length_count ← array_length w lengths
  check (leb length_count text_id) read_error
  stored_length ← read_i32 w (lengths + 0x20 + text_id * 4)
  stored_offset ← read_i32 w (offsets + 0x20 + text_id * 4)
  byte_length ← in_bounds stored_length
  packed_offset ← not_below_zero stored_offset
  word_count ← array_length w packed
  check (ltb word_count (packed_offset + (byte_length + 3) / 4)) read_error
  encrypted ← read_packed w packed packed_offset 0 byte_length
  check (byte_length % 2 == 1) read_error
  ok (utf16_replacing (masked (first_state text_id) encrypted))

abbrev cached_or_packed : Windows → ℕ → ℕ → ℕ → Result Text
cached_or_packed w fields text_id zero = packed_text w fields text_id
cached_or_packed w fields text_id (suc n) = managed_string w (suc n) 4096

abbrev not_negative_id : ℤ → Result ℕ
not_negative_id (pos n) = ok n
not_negative_id (negsuc n) = err read_error

-- `_localization_text`
unfoldable pub localization_text : Windows → ℕ → ℤ → Result Text
localization_text w fields id = do
  text_id ← not_negative_id id
  cache ← pointer w (fields + 0x18)
  cache_count ← array_length w cache
  check (leb cache_count text_id) read_error
  cached ← pointer w (cache + 0x20 + text_id * 8)
  cached_or_packed w fields text_id cached
