-- ===== src/Inspect/Decoding/RoundTrip.antt =====
-- UTF-16 in little-endian bytes, as tools/inspect_runtime_state.py reads it.
use army.Common.{
  ℕ, suc, length, ◌==◌, ◌+◌, ◌-◌, ◌*◌, ◌/◌, ◌%◌, ◌<◌, ◌≡◌, refl, ap, ◌∙◌, arith, true, false, none,
  List, [], ◌∷◌, ◌++◌, if◌then◌else◌, ltb, All, Bool-cases, inl, inr,
}
use army.Utf8.{is_scalar}
use army.Inspect.Decoding.{is_high, is_low, from_units, units_of, is_odd, utf16_replacing}

-- `chr(c).encode("utf-16-le")`, as units, and the bytes of units.
unfoldable pub char_units : ℕ → List ℕ
char_units c =
    if ltb c 0x10000
    then c ∷ []
    else (0xd800 + (c - 0x10000) / 0x400) ∷ (0xdc00 + (c - 0x10000) % 0x400) ∷ []

unfoldable pub text_units : List ℕ → List ℕ
text_units [] = []
text_units (c ∷ text) = char_units c ++ text_units text

unfoldable pub unit_bytes : List ℕ → List ℕ
unit_bytes [] = []
unit_bytes (unit ∷ units) = (unit % 256) ∷ (unit / 256) ∷ unit_bytes units

unfoldable pub utf16_encode : List ℕ → List ℕ
utf16_encode text = unit_bytes (text_units text)

abbrev pub AreScalars : List ℕ → Type 0
AreScalars = All (λ c. is_scalar c ≡ true)

plain : (c : ℕ) → is_scalar c ≡ true → c < 0x10000 → (is_high c ≡ false) × (is_low c ≡ false)
unfolding is_scalar is_high is_low
plain c h small = (ground arith, ground arith)

above : (c : ℕ) → is_scalar c ≡ true → ltb c 0x10000 ≡ false → (c - 0x10000) / 0x400 < 0x400
unfolding is_scalar
above c h large = ground arith

high_unit : (n : ℕ) → n < 0x400 → is_high (0xd800 + n) ≡ true
unfolding is_high
high_unit n h = ground arith

low_unit : (n : ℕ) → n < 0x400 → is_low (0xdc00 + n) ≡ true
unfolding is_low
low_unit n h = ground arith

pair_of :
    (c : ℕ)
    → ltb c 0x10000 ≡ false
    → 0x10000
        + (0xd800 + (c - 0x10000) / 0x400 - 0xd800) * 0x400
        + (0xdc00 + (c - 0x10000) % 0x400 - 0xdc00)
      ≡ c
pair_of c large = ground arith

module _ (c : ℕ) (units : List ℕ) where
  front_char :
      is_scalar c ≡ true
      → from_units none (char_units c ++ units) false ≡ c ∷ from_units none units false
  unfolding char_units from_units
  front_char h = elim (Bool-cases (ltb c 0x10000)) [
    | inl small ↦
        let (not_high, not_low) = plain c h (ground arith) in rw (small, not_high, not_low) refl
    | inr large ↦
        let high : is_high (0xd800 + (c - 0x10000) / 0x400) ≡ true =
          high_unit ((c - 0x10000) / 0x400) (above c h large) in
        let low : is_low (0xdc00 + (c - 0x10000) % 0x400) ≡ true =
          low_unit ((c - 0x10000) % 0x400) (omega arith) in
        let whole : 0x10000
              + (0xd800 + (c - 0x10000) / 0x400 - 0xd800) * 0x400
              + (0xdc00 + (c - 0x10000) % 0x400 - 0xdc00)
            ≡ c =
          pair_of c large in
        rw (large, high, low) (ap (λ t. t ∷ from_units none units false) whole)
  ]

from_units-text_units :
    (text : List ℕ) → AreScalars text → from_units none (text_units text) false ≡ text
unfolding text_units from_units
from_units-text_units [] h = refl
from_units-text_units (c ∷ text) h =
    front_char c (text_units text) h.0 ∙ ap (λ t. c ∷ t) (from_units-text_units text h.1)

units_of-unit_bytes : (units : List ℕ) → units_of (unit_bytes units) ≡ units
unfolding unit_bytes
units_of-unit_bytes [] = refl
units_of-unit_bytes (unit ∷ units) = rw (joined unit, units_of-unit_bytes units) refl
  where
    joined : (unit : ℕ) → unit % 256 + 256 * (unit / 256) ≡ unit
    joined unit = omega arith

even : (units : List ℕ) → is_odd (unit_bytes units) ≡ false
unfolding unit_bytes
even [] = refl
even (unit ∷ units) = even units

-- A text without surrogates is read back from its bytes in UTF-16, pairs of units included.
pub utf16_replacing-utf16_encode :
    (text : List ℕ) → AreScalars text → utf16_replacing (utf16_encode text) ≡ text
unfolding utf16_replacing utf16_encode
utf16_replacing-utf16_encode text h =
    rw (units_of-unit_bytes (text_units text), even (text_units text))
      (from_units-text_units text h)

unit_bytes-length : (units : List ℕ) → (length (unit_bytes units) % 2 == 1) ≡ false
unfolding unit_bytes
unit_bytes-length [] = refl
unit_bytes-length (unit ∷ units) =
    let rest = unit_bytes-length units in same_parity (length (unit_bytes units)) rest
  where
    same_parity : (n : ℕ) → (n % 2 == 1) ≡ false → (suc (suc n) % 2 == 1) ≡ false
    same_parity n h = ground arith

pub length-utf16_encode : (text : List ℕ) → (length (utf16_encode text) % 2 == 1) ≡ false
unfolding utf16_encode
length-utf16_encode text = unit_bytes-length (text_units text)
