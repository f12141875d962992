-- ===== src/Messages/ScreenBootstrapResponse.antt =====
-- `ScreenBootstrapResponse` of messages.py: 0xC4, selector 0, a signed byte and a text.
use army.Common.{ltb, if◌then◌else◌}
use army.Common.Int.{negsuc, low_byte, sub_ℕ}
use army.Messages.Rules.{
  ℕ, ℤ, pos, ◌≡◌, refl, arith, false, not, List, eq_ℤ, within, Result, ok, Exec, bind_result, pure,
  raise_if, ◌>>=◌, ◌>>◌, encode_error, decode_error, Packet, packet, ByteReader, ByteWriter,
  written, read_payload, ensure_finished, write_u8, write_string16, read_u8, read_string16,
  read_payload-written, Message-then, Message-last, Message-check, Codec-u8, Codec-string16, Whole,
  Whole-ensure, Whole-pure, Writes-raise_if, number,
}
use army.Messages.Command.{screen_bootstrap}

pub record ScreenBootstrapResponse : Type 0 where
  pub revision : ℤ
  pub text : List ℕ

abbrev fields : ScreenBootstrapResponse → Exec ByteWriter (Unit {0})
fields m = do
  raise_if (not (within (negsuc 127) (pos 127) m.revision)) encode_error
  write_u8 (pos 0)
  write_u8 (pos (low_byte m.revision))
  write_string16 m.text

unfoldable pub encode_payload : ScreenBootstrapResponse → Result (List ℕ)
encode_payload m = written (fields m)

unfoldable pub to_packet : ScreenBootstrapResponse → Result Packet
unfolding encode_payload
to_packet m = bind_result (encode_payload m) (packet (number screen_bootstrap))

-- `raw if raw < 0x80 else raw - 0x100`
unfoldable pub signed_byte : ℤ → ℤ
signed_byte (pos n) = if ltb n 0x80 then pos n else sub_ℕ n 0x100
signed_byte (negsuc n) = negsuc n

abbrev body : Exec ByteReader ScreenBootstrapResponse
body = do
  selector ← read_u8
  raise_if (not (eq_ℤ selector (pos 0))) decode_error
  raw_revision ← read_u8
  text ← read_string16
  ensure_finished
  pure (record { revision = signed_byte raw_revision; text = text })

unfoldable pub decode_payload : List ℕ → Result ScreenBootstrapResponse
unfolding signed_byte
decode_payload = read_payload body

-- Two's complement of a signed byte.
signed_byte-low_byte :
    (v : ℤ) → not (within (negsuc 127) (pos 127) v) ≡ false → signed_byte (pos (low_byte v)) ≡ v
unfolding signed_byte
signed_byte-low_byte (pos n) h = ground arith
signed_byte-low_byte (negsuc n) h = ground arith

-- A response that encodes is what its payload decodes to: negative revisions too.
pub decode-encode_screen :
    (m : ScreenBootstrapResponse) (bs : List ℕ)
    → encode_payload m ≡ ok bs
    → decode_payload bs ≡ ok m
unfolding encode_payload decode_payload
decode-encode_screen m bs e =
    read_payload-written (fields m) body bs
      (Writes-raise_if (Whole body m) (not (within (negsuc 127) (pos 127) m.revision)) encode_error
        _
        (λ signed. Message-then _ _ _ _ (Codec-u8 _) (
          Message-check false decode_error _ _ refl (
            Message-then _ _ _ _ (Codec-u8 _) (
              Message-last _ _ _ (Codec-string16 _)
                (Whole-ensure _ (rw (signed_byte-low_byte m.revision signed) (Whole-pure m))))))))
      e
