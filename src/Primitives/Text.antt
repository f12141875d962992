-- ===== src/Primitives/Text.antt =====
-- primitives.py: a text that `write_string16` writes, as `read_string16` reads it.
use army.Common.{
  ℕ, ◌+◌, ◌<◌, ◌≡◌, refl, sym, ap, ◌∙◌, arith, true, List, ◌++◌, length, ltb, drop, length-append,
  append_assoc, drop-append_length, Bool-cases, inl, inr, leb, le→leb,
}
use army.Common.Int.{pos}
use army.Bytes.{to_bytes}
use army.Utf8.{utf8_encode}
use army.Exec.{Error, Result, ok, err, encode_error, Result-cases}
use army.Primitives.{
  ByteReader, ByteWriter, write_string16, write_u16, write_bytes, validate_uint, read_string16,
}
use army.Primitives.Codec.{Codec-string16}

-- A reader of the bytes of a writer and of what follows them, which has come to an offset.
abbrev pub reader_at : ByteWriter → List ℕ → ℕ → ByteReader
reader_at w rest offset = record {
  bytes = w.buffer ++ rest;
  max_string_bytes = pos 0xffff;
  offset = offset;
}

-- How `write_string16` ends.
pub data Stored (text rest : List ℕ) (w : ByteWriter) (run : Result (Unit {0}) × ByteWriter)
    : Type 0 where
  stored :
      (out : ByteWriter) (bs : List ℕ)
      → run ≡ (ok tt, out)
      → out.buffer ≡ w.buffer ++ bs
      → read_string16 (reader_at out rest (length w.buffer))
        ≡ (ok text, reader_at out rest (length out.buffer))
      → Stored text rest w run
  too_long :
      (raw : List ℕ)
      → utf8_encode text ≡ ok raw
      → 0xffff < length raw
      → run ≡ (err encode_error, w)
      → Stored text rest w run
  no_encoding : (e : Error) → utf8_encode text ≡ err e → run ≡ (err e, w) → Stored text rest w run

written_back :
    (text rest : List ℕ) (w out : ByteWriter)
    → write_string16 text w ≡ (ok tt, out)
    → read_string16 (reader_at out rest (length w.buffer))
      ≡ (ok text, reader_at out rest (length out.buffer))
written_back text rest w out e =
    let (bs, front, reads) = (Codec-string16 text).appended w out e in
    let whole : out.buffer ++ rest ≡ w.buffer ++ (bs ++ rest) =
      ap (λ (t : List ℕ). t ++ rest) front ∙ append_assoc w.buffer bs rest in
    let size : length w.buffer + length bs ≡ length out.buffer =
      sym (ap length front ∙ length-append w.buffer bs) in
    let r : ByteReader = reader_at out rest (length w.buffer) in
    reads.run r rest (record {
      inside = omega (arith, ap length whole, length-append w.buffer (bs ++ rest));
      rest = ap (drop (length w.buffer)) whole ∙ drop-append_length w.buffer (bs ++ rest);
      limit = refl;
    })
    ∙ ap (λ (n : ℕ). (ok text, reader_at out rest n)) size

-- A text that UTF-8 can encode in at most 65535 bytes is written, and a reader that comes to the place
-- where the writer stood, whatever is behind, reads the text and stops behind it; what the writer held stays in front. A longer one raises
-- EncodeError, one that has no encoding the error of the codec, and then nothing has been written.
pub write_string16-Stored :
    (text rest : List ℕ) (w : ByteWriter) → Stored text rest w (write_string16 text w)
unfolding write_string16 write_u16 validate_uint write_bytes
write_string16-Stored text rest w = elim (Result-cases (utf8_encode text)) [
  | inr (e, failed) ↦ no_encoding e failed (rw failed refl)
  | inl (raw, encoded) ↦ elim (Bool-cases (ltb 0xffff (length raw))) [
    | inl long ↦ too_long raw encoded (ground arith) (rw (encoded, long) refl)
    | inr small ↦
        let fits : leb (length raw) 0xffff ≡ true =
          le→leb (length raw) 0xffff (ground (arith, small)) in
        let size : List ℕ = to_bytes 2 (length raw) in
        let out : ByteWriter = record { buffer = (w.buffer ++ size) ++ raw } in
        let run : write_string16 text w ≡ (ok tt, out) = rw (encoded, small, fits) refl in
        stored out (size ++ raw) run (append_assoc w.buffer size raw)
          (written_back text rest w out run)
  ]
]
