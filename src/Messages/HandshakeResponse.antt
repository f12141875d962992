-- ===== src/Messages/HandshakeResponse.antt =====
-- `HandshakeResponse` of messages.py: the seed, the shift and a text, command 0xE5.
use army.Messages.Rules.{
  ℕ, ℤ, pos, ◌≡◌, not, List, length, within, Result, ok, Exec, bind_result, pure, raise_if, ◌>>=◌,
  ◌>>◌, encode_error, decode_error, Packet, packet, ByteReader, ByteWriter, written, read_payload,
  ensure_finished, write_bytes, write_u8, write_string16, read_exact, read_u8, read_string16,
  read_payload-written, Message-then, Message-last, Message-check, Codec-bytes, Codec-u8,
  Codec-string16, Whole, Whole-ensure, Whole-pure, Writes-raise_if, number,
}
use army.Messages.Command.{handshake}

pub record HandshakeResponse : Type 0 where
  pub seed : List ℕ
  pub shift : ℤ
  pub text : List ℕ

abbrev fields : HandshakeResponse → Exec ByteWriter (Unit {0})
fields m = do
  raise_if (not (within (pos 1) (pos 0x7f) (pos (length m.seed)))) encode_error
  write_u8 (pos (length m.seed))
  write_bytes m.seed
  write_u8 m.shift
  write_string16 m.text

unfoldable pub encode_payload : HandshakeResponse → Result (List ℕ)
encode_payload m = written (fields m)

unfoldable pub to_packet : HandshakeResponse → Result Packet
unfolding encode_payload
to_packet m = bind_result (encode_payload m) (packet (number handshake))

abbrev body : Exec ByteReader HandshakeResponse
body = do
  seed_length ← read_u8
  raise_if (not (within (pos 1) (pos 0x7f) seed_length)) decode_error
  seed ← read_exact seed_length
  shift ← read_u8
  text ← read_string16
  ensure_finished
  pure (record { seed = seed; shift = shift; text = text })

unfoldable pub decode_payload : List ℕ → Result HandshakeResponse
decode_payload = read_payload body

-- A response that encodes is what its payload decodes to.
pub decode-encode_handshake :
    (m : HandshakeResponse) (bs : List ℕ) → encode_payload m ≡ ok bs → decode_payload bs ≡ ok m
unfolding encode_payload decode_payload
decode-encode_handshake m bs e =
    read_payload-written (fields m) body bs
      (Writes-raise_if (Whole body m) (not (within (pos 1) (pos 0x7f) (pos (length m.seed))))
        encode_error _
        (λ in_range. Message-then _ _ _ _ (Codec-u8 _) (
          Message-check _ decode_error _ _ in_range (
            Message-then _ _ _ _ (Codec-bytes m.seed) (
              Message-then _ _ _ _ (Codec-u8 _)
                (Message-last _ _ _ (Codec-string16 _) (Whole-ensure _ (Whole-pure m))))))))
      e
