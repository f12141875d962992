-- ===== src/Inspect/Runs.antt =====
-- A process with a few words of memory, for tools/inspect_runtime_state.py and
-- tools/inspect_runtime_vtable.py.
use army.Common.{
  ℕ, zero, suc, ◌<◌, ◌≡◌, refl, arith, ◌≤◌, ◌/◌, ◌^◌, none, some, List, [], ◌∷◌, length, All, ◌%◌,
}
use army.Common.Int.{pos}
use army.Common.Equality.{lookup, nat_eq, list_eq}
use army.Exec.{ok}
use army.Utf8.{is_scalar}
use army.Redirect.Paths.{FilePath}
use army.Inspect.{
  Windows, process_reader, read, from_little, signed, read_u32, read_i32, pointer, managed_string,
}
use army.Inspect.Strings.{HoldsString, managed_string-text}
use army.Inspect.Opening.{Opened, process_reader-Opened}
use army.Inspect.Decoding.RoundTrip.{char_units, text_units, unit_bytes, utf16_encode}
use army.Inspect.Objects.{
  Control, controls, read_control, read_controls, screen_controls, MethodEntry, read_methods,
  inspect_vtable, array_length,
}
use army.Inspect.Objects.Bounds.{screen_controls-limit, IsMethodEntry, inspect_vtable-entries}
use army.Inspect.Localization.{first_state, next_state, masked, localization_text}
use army.Inspect.Localization.Keystream.{IsRound, state-IsRound}
use army.Inspect.Localization.Entry.{HoldsEntry, HoldsBytes, localization_text-utf16_encode}

abbrev root : FilePath
root = (99 ∷ []) ∷ []

abbrev address_of : ℕ → List ℕ
address_of n = (n % 256) ∷ (n / 256) ∷ 0 ∷ 0 ∷ 0 ∷ 0 ∷ 0 ∷ 0 ∷ []

abbrev word : ℕ → List ℕ
word n = n ∷ 0 ∷ 0 ∷ 0 ∷ []

abbrev cells : List (ℕ × List ℕ)
cells =
    -- The tables of the texts, at 0x100: packed, offsets, lengths and cache.
    (0x100, address_of 0x700)
    ∷ (0x108, address_of 0x800)
    ∷ (0x110, address_of 0x900)
    ∷ (0x118, address_of 0xa00)
    ∷ (0x718, word 1)
    ∷ (0x720, 138 ∷ 221 ∷ 0 ∷ 0 ∷ [])
    ∷ (0x818, word 2)
    ∷ (0x824, word 0)
    ∷ (0x918, word 2)
    ∷ (0x924, word 2)
    ∷ (0xa18, word 2)
    ∷ (0xa28, address_of 0)
    -- A screen with one control, and an object with a table of two methods.
    ∷ (0x1030, address_of 0x1100)
    ∷ (0x1118, word 1)
    ∷ (0x1120, address_of 0x1200)
    ∷ (0x1218, address_of 0)
    ∷ (0x1240, word 3)
    ∷ (0x1244, word 4)
    ∷ (0x1248, word 5)
    ∷ (0x1250, word 6)
    ∷ (0x2000, address_of 0x2100)
    ∷ (0x2228, address_of 0x30)
    ∷ (0x2238, address_of 0)
    -- A string object of a letter and a pair of units.
    ∷ (0x3010, word 3)
    ∷ (0x3014, 65 ∷ 0 ∷ 61 ∷ 216 ∷ 0 ∷ 222 ∷ [])
    ∷ []

abbrev windows : Windows
windows = record {
  open_process = some 7;
  image_name = some ((99 ∷ []) ∷ (103 ∷ []) ∷ []);
  modules = none;
  memory = λ address size. lookup address cells;
  casefold = λ text. text;
}

process_reader-Opened_example : Opened windows root (3 ∷ []) (process_reader windows root (3 ∷ []))
process_reader-Opened_example = process_reader-Opened windows root (3 ∷ [])

state-IsRound_example : (first_state 5 < 2 ^ 32) × IsRound 0xffffffff
state-IsRound_example = state-IsRound 5 0xffffffff (omega arith)

string_held : HoldsString windows 0x3000 (65 ∷ 0x1f600 ∷ [])
unfolding from_little utf16_encode text_units char_units unit_bytes
string_held = record {
  size_bytes = 3 ∷ 0 ∷ 0 ∷ 0 ∷ [];
  size_at = refl;
  four_bytes = refl;
  size = refl;
  text_at = refl;
}

managed_string-text_example : managed_string windows 0x3000 16 ≡ ok (65 ∷ 0x1f600 ∷ [])
unfolding is_scalar text_units char_units
managed_string-text_example =
    managed_string-text windows 0x3000 16 (65 ∷ 0x1f600 ∷ []) (omega arith) (refl, (refl, tt))
      (omega arith) string_held

entry_held : HoldsEntry windows 0x100 1 (masked (first_state 1) (utf16_encode (65 ∷ [])))
unfolding pointer read read_u32 read_i32 from_little signed array_length masked first_state
    next_state utf16_encode text_units char_units unit_bytes
entry_held = record {
  cache = 0xa00;
  packed = 0x700;
  offsets = 0x800;
  lengths = 0x900;
  cache_count = 2;
  offset_count = 2;
  length_count = 2;
  word_count = 1;
  packed_offset = 0;
  cache_at = refl;
  cache_length = refl;
  in_cache = omega arith;
  not_cached = refl;
  packed_at = refl;
  offsets_at = refl;
  lengths_at = refl;
  offsets_length = refl;
  in_offsets = omega arith;
  lengths_length = refl;
  in_lengths = omega arith;
  byte_length = refl;
  fits = omega arith;
  offset_at = refl;
  packed_length = refl;
  in_packed = omega arith;
  held = one_word;
  valid = (omega arith, (omega arith, tt));
}
  where
    one_word : HoldsBytes windows 0x700 0 (138 ∷ 221 ∷ [])
    one_word zero small = refl
    one_word (suc j) small = absurd (omega arith)

localization_text-utf16_encode_example : localization_text windows 0x100 (pos 1) ≡ ok (65 ∷ [])
unfolding is_scalar
localization_text-utf16_encode_example =
    localization_text-utf16_encode windows 0x100 1 (65 ∷ []) (refl, tt) entry_held

abbrev control : Control
control = record {
  index = 0;
  address = 0x1200;
  label = [];
  x = pos 3;
  y = pos 4;
  width = pos 5;
  height = pos 6;
}

one_control : screen_controls windows 0x1000 8 ≡ ok (controls (control ∷ []))
unfolding screen_controls read_controls read_control pointer read read_u32 read_i32 from_little
    signed managed_string
one_control = refl

screen_controls-limit_example : length (control ∷ []) ≤ 8
screen_controls-limit_example = screen_controls-limit windows 0x1000 8 (control ∷ []) one_control

abbrev method : MethodEntry
method = record { slot_offset = 0x128; method = 0x30; rva = some 0x10 }

one_method : inspect_vtable windows 0x20 0x2000 0x128 0x148 ≡ ok (method ∷ [])
unfolding inspect_vtable read_methods pointer read from_little
one_method = refl

inspect_vtable-entries_example : All (IsMethodEntry 0x20 0x128 0x148) (method ∷ [])
inspect_vtable-entries_example =
    inspect_vtable-entries windows 0x20 0x2000 0x128 0x148 (method ∷ []) one_method
