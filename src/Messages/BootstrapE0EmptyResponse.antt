-- ===== src/Messages/BootstrapE0EmptyResponse.antt =====
-- `BootstrapE0EmptyResponse` of messages.py: a version and two counts that are 0, command 0xE0.
use army.Messages.Rules.{
  ℕ, ℤ, pos, ◌≡◌, not, ◌||◌, List, eq_ℤ, Result, ok, Exec, bind_result, pure, raise_if, ◌>>=◌, ◌>>◌,
  decode_error, Packet, packet, ByteReader, ByteWriter, written, read_payload, ensure_finished,
  write_u8, write_u16, read_u8, read_u16, read_payload-written, Message-then, Message-last,
  Codec-u8, Codec-u16, Whole-ensure, Whole-pure, number,
}
use army.Messages.Command.{bootstrap_e0}

pub record BootstrapE0EmptyResponse : Type 0 where
  pub version : ℤ

abbrev fields : BootstrapE0EmptyResponse → Exec ByteWriter (Unit {0})
fields m = do write_u8 m.version; write_u8 (pos 0); write_u16 (pos 0)

unfoldable pub encode_payload : BootstrapE0EmptyResponse → Result (List ℕ)
encode_payload m = written (fields m)

unfoldable pub to_packet : BootstrapE0EmptyResponse → Result Packet
unfolding encode_payload
to_packet m = bind_result (encode_payload m) (packet (number bootstrap_e0))

abbrev body : Exec ByteReader BootstrapE0EmptyResponse
body = do
  version ← read_u8
  first_count ← read_u8
  second_count ← read_u16
  ensure_finished
  raise_if (not (eq_ℤ first_count (pos 0)) || not (eq_ℤ second_count (pos 0))) decode_error
  pure (record { version = version })

unfoldable pub decode_payload : List ℕ → Result BootstrapE0EmptyResponse
decode_payload = read_payload body

-- A response that encodes is what its payload decodes to.
pub decode-encode_e0 :
    (m : BootstrapE0EmptyResponse) (bs : List ℕ)
    → encode_payload m ≡ ok bs
    → decode_payload bs ≡ ok m
unfolding encode_payload decode_payload
decode-encode_e0 m bs e =
    read_payload-written (fields m) body bs
      (Message-then _ _ _ _ (Codec-u8 _) (
        Message-then _ _ _ _ (Codec-u8 _)
          (Message-last _ _ _ (Codec-u16 _) (Whole-ensure _ (Whole-pure m)))))
      e
