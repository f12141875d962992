-- ===== src/Inspect/Localization/Entry.antt =====
-- tools/inspect_runtime_state.py: an entry of the texts, as the memory of the client holds it.
use army.Common.{
  ℕ, zero, suc, ◌+◌, ◌*◌, ◌/◌, ◌%◌, ◌^◌, ◌≤◌, ◌<◌, ◌≡◌, refl, sym, ap, ◌∙◌, arith, false, List, [],
  ◌∷◌, length, take, drop, drop-drop, ltb, leb, ◌==◌, All-take, All-drop,
}
use army.Common.Int.{pos}
use army.Bytes.{IsByte, IsBytes}
use army.Exec.{ok}
use army.Redirect.Paths.{Text}
use army.Inspect.Decoding.{utf16_replacing}
use army.Inspect.Decoding.RoundTrip.{
  utf16_encode, AreScalars, utf16_replacing-utf16_encode, length-utf16_encode,
}
use army.Inspect.{Windows, pointer, read_i32, read_u32, from_little}
use army.Inspect.Objects.{array_length}
use army.Inspect.Localization.{first_state, masked, read_packed, packed_text, localization_text}
use army.Inspect.Localization.Keystream.{masked-masked, length-masked}

-- The bytes of a word.
byte_of :
    (k : ℕ) (bytes : List ℕ) (b : ℕ) (rest : List ℕ)
    → k < 4
    → IsBytes bytes
    → drop k bytes ≡ b ∷ rest
    → from_little bytes / 2 ^ (k * 8) % 256 ≡ b
unfolding from_little
byte_of zero [] b rest small v h = absurd (cc h)
byte_of zero (x0 ∷ xs) b rest small v h = let here : x0 ≡ b = cc h in omega (arith, here, v.0)
byte_of (suc zero) (x0 ∷ x1 ∷ xs) b rest small v h =
    let here : x1 ≡ b = cc h in omega (arith, here, v.0, v.1.0)
byte_of (suc (suc zero)) (x0 ∷ x1 ∷ x2 ∷ xs) b rest small v h =
    let here : x2 ≡ b = cc h in omega (arith, here, v.0, v.1.0, v.1.1.0)
byte_of (suc (suc (suc zero))) (x0 ∷ x1 ∷ x2 ∷ x3 ∷ xs) b rest small v h =
    let here : x3 ≡ b = cc h in omega (arith, here, v.0, v.1.0, v.1.1.0, v.1.1.1.0)
byte_of (suc (suc (suc (suc k)))) bytes b rest small v h = absurd (omega arith)
byte_of (suc k) [] b rest small v h = absurd (cc h)
byte_of (suc zero) (x0 ∷ []) b rest small v h = absurd (cc h)
byte_of (suc (suc k)) (x0 ∷ []) b rest small v h = absurd (cc h)
byte_of (suc (suc zero)) (x0 ∷ x1 ∷ []) b rest small v h = absurd (cc h)
byte_of (suc (suc (suc k))) (x0 ∷ x1 ∷ []) b rest small v h = absurd (cc h)
byte_of (suc (suc (suc zero))) (x0 ∷ x1 ∷ x2 ∷ []) b rest small v h = absurd (cc h)

in_word :
    (k n : ℕ) (xs : List ℕ) (b : ℕ) (rest : List ℕ)
    → k < n
    → drop k xs ≡ b ∷ rest
    → (more : List ℕ) × (drop k (take n xs) ≡ b ∷ more)
in_word k zero xs b rest small h = absurd (omega arith)
in_word zero (suc n) [] b rest small h = absurd (cc h)
in_word zero (suc n) (x ∷ xs) b rest small h = let here : x ≡ b = cc h in (take n xs, rw here refl)
in_word (suc k) (suc n) [] b rest small h = absurd (cc h)
in_word (suc k) (suc n) (x ∷ xs) b rest small h = in_word k n xs b rest (omega arith) h

drop_all : (n : ℕ) (xs : List ℕ) → length xs ≤ n → drop n xs ≡ []
drop_all zero [] h = refl
drop_all zero (x ∷ xs) h = absurd (omega arith)
drop_all (suc n) [] h = refl
drop_all (suc n) (x ∷ xs) h = drop_all n xs (omega arith)

next_elem : (n : ℕ) (xs : List ℕ) → n < length xs → (b : ℕ) × (drop n xs ≡ b ∷ drop (suc n) xs)
next_elem n [] h = absurd (omega arith)
next_elem zero (x ∷ xs) h = (x, refl)
next_elem (suc n) (x ∷ xs) h = next_elem n xs (omega arith)

-- The words of an array at an address hold the bytes, from the word `offset` on.
abbrev pub HoldsBytes : Windows → ℕ → ℕ → List ℕ → Type 0
HoldsBytes w packed offset bytes =
    (j : ℕ)
    → j * 4 < length bytes
    → read_u32 w (packed + 0x20 + (offset + j) * 4) ≡ ok (from_little (take 4 (drop (4 * j) bytes)))

module _ (w : Windows) (packed offset : ℕ) (bytes : List ℕ)
    (held : HoldsBytes w packed offset bytes) (v : IsBytes bytes) where
  read_packed-drop :
      (left index : ℕ)
      → index + left ≡ length bytes
      → read_packed w packed offset index left ≡ ok (drop index bytes)
  unfolding read_packed
  read_packed-drop zero index h = ap ok (sym (drop_all index bytes (omega arith)))
  read_packed-drop (suc left) index h =
      let j : ℕ = index / 4 in
      let k : ℕ = index % 4 in
      let (b, here) = next_elem index bytes (omega arith) in
      let index_parts : 4 * j + k ≡ index = omega arith in
      let in_rest : drop k (drop (4 * j) bytes) ≡ b ∷ drop (suc index) bytes =
        sym (drop-drop (4 * j) k bytes) ∙ ap (λ n. drop n bytes) index_parts ∙ here in
      let (more, found) =
        in_word k 4 (drop (4 * j) bytes) b (drop (suc index) bytes) (omega arith) in_rest in
      let byte : from_little (take 4 (drop (4 * j) bytes)) / 2 ^ (k * 8) % 256 ≡ b =
        byte_of k (take 4 (drop (4 * j) bytes)) b more (omega arith)
          (All-take IsByte 4 (drop (4 * j) bytes) (All-drop IsByte (4 * j) bytes v)) found in
      rw (held j (omega arith), read_packed-drop left (suc index) (omega arith), byte, here) refl

-- The tables of the client hold the bytes as the packed entry `text_id`, which is not in the cache.
pub record HoldsEntry (w : Windows) (fields text_id : ℕ) (bytes : List ℕ) : Type 0 where
  pub cache : ℕ
  pub packed : ℕ
  pub offsets : ℕ
  pub lengths : ℕ
  pub cache_count : ℕ
  pub offset_count : ℕ
  pub length_count : ℕ
  pub word_count : ℕ
  pub packed_offset : ℕ
  pub cache_at : pointer w (fields + 0x18) ≡ ok cache
  pub cache_length : array_length w cache ≡ ok cache_count
  pub in_cache : text_id < cache_count
  pub not_cached : pointer w (cache + 0x20 + text_id * 8) ≡ ok 0
  pub packed_at : pointer w fields ≡ ok packed
  pub offsets_at : pointer w (fields + 0x8) ≡ ok offsets
  pub lengths_at : pointer w (fields + 0x10) ≡ ok lengths
  pub offsets_length : array_length w offsets ≡ ok offset_count
  pub in_offsets : text_id < offset_count
  pub lengths_length : array_length w lengths ≡ ok length_count
  pub in_lengths : text_id < length_count
  pub byte_length : read_i32 w (lengths + 0x20 + text_id * 4) ≡ ok (pos (length bytes))
  pub fits : length bytes ≤ 0x10000
  pub offset_at : read_i32 w (offsets + 0x20 + text_id * 4) ≡ ok (pos packed_offset)
  pub packed_length : array_length w packed ≡ ok word_count
  pub in_packed : packed_offset + (length bytes + 3) / 4 ≤ word_count
  pub held : HoldsBytes w packed packed_offset bytes
  pub valid : IsBytes bytes

below : (a b : ℕ) → a < b → leb b a ≡ false
below a b h = ground arith

not_above : (a b : ℕ) → a ≤ b → ltb b a ≡ false
not_above a b h = ground arith

packed_text-entry :
    (w : Windows) (fields text_id : ℕ) (bytes : List ℕ)
    → HoldsEntry w fields text_id bytes
    → (length bytes % 2 == 1) ≡ false
    → packed_text w fields text_id ≡ ok (utf16_replacing (masked (first_state text_id) bytes))
unfolding packed_text
packed_text-entry w fields text_id bytes e even =
    rw
      (
        e.packed_at,
        e.offsets_at,
        e.lengths_at,
        e.offsets_length,
        below text_id e.offset_count e.in_offsets,
        e.lengths_length,
        below text_id e.length_count e.in_lengths,
        e.byte_length,
        e.offset_at,
        not_above (length bytes) 0x10000 e.fits,
        e.packed_length,
        not_above (e.packed_offset + (length bytes + 3) / 4) e.word_count e.in_packed,
        read_packed-drop w e.packed e.packed_offset bytes e.held e.valid (length bytes) 0
            (omega arith),
        even,
      )
      refl

pub localization-entry :
    (w : Windows) (fields text_id : ℕ) (bytes : List ℕ)
    → HoldsEntry w fields text_id bytes
    → (length bytes % 2 == 1) ≡ false
    → localization_text w fields (pos text_id)
      ≡ ok (utf16_replacing (masked (first_state text_id) bytes))
unfolding localization_text
localization-entry w fields text_id bytes e even =
    rw
      (
        e.cache_at,
        e.cache_length,
        below text_id e.cache_count e.in_cache,
        e.not_cached,
        packed_text-entry w fields text_id bytes e even,
      )
      refl

-- A text without surrogates that the client holds as a packed entry, which is its UTF-16 bytes under the
-- mask of the identifier, is read as this text, if the tables give the entry's place and length within
-- their bounds and the entry is not in the cache.
pub localization_text-utf16_encode :
    (w : Windows) (fields text_id : ℕ) (text : Text)
    → AreScalars text
    → HoldsEntry w fields text_id (masked (first_state text_id) (utf16_encode text))
    → localization_text w fields (pos text_id) ≡ ok text
localization_text-utf16_encode w fields text_id text scalars e =
    let even : (length (masked (first_state text_id) (utf16_encode text)) % 2 == 1) ≡ false =
      rw length-masked (length-utf16_encode text) in
    localization-entry w fields text_id (masked (first_state text_id) (utf16_encode text)) e even
    ∙ ap ok (
        ap utf16_replacing (masked-masked (first_state text_id) (utf16_encode text))
        ∙ utf16_replacing-utf16_encode text scalars)
