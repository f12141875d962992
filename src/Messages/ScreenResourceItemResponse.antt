-- ===== src/Messages/ScreenResourceItemResponse.antt =====
-- `ScreenResourceItemResponse` of messages.py: 0xC4, selector 2, a key and its bytes.
use army.Messages.Rules.{
  ℕ, pos, ◌≡◌, refl, false, not, List, length, eq_ℤ, Result, ok, Exec, bind_result, pure, raise_if,
  ◌>>=◌, ◌>>◌, decode_error, Packet, packet, ByteReader, ByteWriter, written, read_payload,
  ensure_finished, write_bytes, write_u8, write_u32, write_string16, read_exact, read_u8, read_u32,
  read_string16, read_payload-written, Message-then, Message-last, Message-check, Codec-bytes,
  Codec-u8, Codec-u32, Codec-string16, Whole-ensure, Whole-pure, number,
}
use army.Messages.Command.{screen_bootstrap}

-- `bytes` is the field `data`.
pub record ScreenResourceItemResponse : Type 0 where
  pub key : List ℕ
  pub bytes : List ℕ

abbrev fields : ScreenResourceItemResponse → Exec ByteWriter (Unit {0})
fields m = do
  write_u8 (pos 2)
  write_string16 m.key
  write_u32 (pos (length m.bytes))
  write_bytes m.bytes

unfoldable pub encode_payload : ScreenResourceItemResponse → Result (List ℕ)
encode_payload m = written (fields m)

unfoldable pub to_packet : ScreenResourceItemResponse → Result Packet
unfolding encode_payload
to_packet m = bind_result (encode_payload m) (packet (number screen_bootstrap))

abbrev body : Exec ByteReader ScreenResourceItemResponse
body = do
  selector ← read_u8
  raise_if (not (eq_ℤ selector (pos 2))) decode_error
  key ← read_string16
  size ← read_u32
  bytes ← read_exact size
  ensure_finished
  pure (record { key = key; bytes = bytes })

unfoldable pub decode_payload : List ℕ → Result ScreenResourceItemResponse
decode_payload = read_payload body

-- An item that encodes is what its payload decodes to.
pub decode-encode_item :
    (m : ScreenResourceItemResponse) (bs : List ℕ)
    → encode_payload m ≡ ok bs
    → decode_payload bs ≡ ok m
unfolding encode_payload decode_payload
decode-encode_item m bs e =
    read_payload-written (fields m) body bs
      (Message-then _ _ _ _ (Codec-u8 _) (
        Message-check false decode_error _ _ refl (
          Message-then _ _ _ _ (Codec-string16 _) (
            Message-then _ _ _ _ (Codec-u32 _)
              (Message-last _ _ _ (Codec-bytes m.bytes) (Whole-ensure _ (Whole-pure m)))))))
      e
