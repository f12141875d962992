-- ===== src/Inspect/Strings.antt =====
-- tools/inspect_runtime_state.py: the string objects that `ProcessReader.managed_string` reads.
use army.Common.{
  ℕ, zero, suc, ◌+◌, ◌*◌, ◌%◌, ◌^◌, ◌<◌, ◌≡◌, refl, arith, true, some, List, [], ◌∷◌, length, ltb,
  ◌==◌, if◌then◌else◌, Bool-cases, inl, inr,
}
use army.Common.Int.{pos}
use army.Exec.{ok, err, read_error}
use army.Redirect.Paths.{Text}
use army.Inspect.Decoding.RoundTrip.{
  text_units, unit_bytes, utf16_encode, AreScalars, utf16_replacing-utf16_encode,
}
use army.Inspect.{Windows, read, read_u32, read_i32, signed, from_little, managed_string}

-- An object of the class String in memory: the number of its units in four bytes at 0x10, and the units,
-- in UTF-16, from 0x14 on.
pub record HoldsString (w : Windows) (address : ℕ) (text : Text) : Type 0 where
  pub size_bytes : List ℕ
  pub size_at : w.memory ((address + 0x10) % 2 ^ 64) 4 ≡ some size_bytes
  pub four_bytes : length size_bytes ≡ 4
  pub size : from_little size_bytes ≡ length (text_units text)
  pub text_at :
      w.memory ((address + 0x14) % 2 ^ 64) (length (text_units text) * 2) ≡ some (utf16_encode text)

length-unit_bytes : (units : List ℕ) → length (unit_bytes units) ≡ length units * 2
unfolding unit_bytes
length-unit_bytes [] = refl
length-unit_bytes (unit ∷ units) = omega (arith, length-unit_bytes units)

read-some :
    (w : Windows) (address size : ℕ) (bytes : List ℕ)
    → w.memory (address % 2 ^ 64) size ≡ some bytes
    → length bytes ≡ size
    → read w address size ≡ ok bytes
unfolding read
read-some w address size bytes found full =
    let same : (length bytes == size) ≡ true = ground (arith, full) in rw (found, same) refl

signed-pos : (n : ℕ) → n < 2 ^ 31 → signed 32 n ≡ pos n
unfolding signed
signed-pos n small = let low : ltb n (2 ^ 31) ≡ true = ground (arith, small) in rw low refl

read_size :
    (w : Windows) (address : ℕ) (text : Text)
    → HoldsString w address text
    → length (text_units text) < 2 ^ 31
    → read_i32 w (address + 0x10) ≡ ok (pos (length (text_units text)))
unfolding read_i32 read_u32
read_size w address text h small =
    rw
      (
        read-some w (address + 0x10) 4 h.size_bytes h.size_at h.four_bytes,
        h.size,
        signed-pos (length (text_units text)) small,
      )
      refl

-- A string object at an address that is not zero, which holds a text without surrogates, is read as this
-- text, pairs of units included, if its number of units, which fits 31 bits, is not above the limit;
-- above it, the read is refused.
pub managed_string-text :
    (w : Windows) (address limit : ℕ) (text : Text)
    → 0 < address
    → AreScalars text
    → length (text_units text) < 2 ^ 31
    → HoldsString w address text
    → managed_string w address limit
      ≡ (if ltb limit (length (text_units text)) then err read_error else ok text)
unfolding managed_string utf16_encode
managed_string-text w zero limit text positive scalars small h = absurd (omega arith)
managed_string-text w (suc n) limit text positive scalars small h =
    rw (read_size w (suc n) text h small)
      (elim (Bool-cases (ltb limit (length (text_units text)))) [
        | inl above ↦ rw above refl
        | inr within ↦
            rw
              (
                within,
                read-some w (suc n + 0x14) (length (text_units text) * 2) (utf16_encode text)
                    h.text_at (length-unit_bytes (text_units text)),
                utf16_replacing-utf16_encode text scalars,
              )
              refl
      ])
