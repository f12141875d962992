-- ===== src/Messages/BootstrapDaResponse.antt =====
-- `BootstrapDaResponse` of messages.py: a version and a blob, command 0xDA.
use army.Messages.Rules.{
  ℕ, ℤ, pos, ◌≡◌, List, [], ◌∷◌, length, Result, ok, Exec, bind_result, pure, ◌>>=◌, ◌>>◌, Packet,
  packet, ByteReader, ByteWriter, written, read_payload, ensure_finished, write_bytes, write_u8,
  write_u32, read_exact, read_u8, read_u32, read_payload-written, Message-then, Message-last,
  Codec-bytes, Codec-u8, Codec-u32, Whole-ensure, Whole-pure, number,
}
use army.Messages.Command.{bootstrap_da}

pub record BootstrapDaResponse : Type 0 where
  pub version : ℤ
  pub blob : List ℕ

-- `BootstrapDaResponse.empty(version)`
unfoldable pub empty : ℤ → BootstrapDaResponse
empty version = record { version = version; blob = 0x00 ∷ [] }

abbrev fields : BootstrapDaResponse → Exec ByteWriter (Unit {0})
fields m = do write_u8 m.version; write_u32 (pos (length m.blob)); write_bytes m.blob

unfoldable pub encode_payload : BootstrapDaResponse → Result (List ℕ)
encode_payload m = written (fields m)

unfoldable pub to_packet : BootstrapDaResponse → Result Packet
unfolding encode_payload
to_packet m = bind_result (encode_payload m) (packet (number bootstrap_da))

abbrev body : Exec ByteReader BootstrapDaResponse
body = do
  version ← read_u8
  blob_length ← read_u32
  blob ← read_exact blob_length
  ensure_finished
  pure (record { version = version; blob = blob })

unfoldable pub decode_payload : List ℕ → Result BootstrapDaResponse
decode_payload = read_payload body

-- A response that encodes is what its payload decodes to.
pub decode-encode_da :
    (m : BootstrapDaResponse) (bs : List ℕ) → encode_payload m ≡ ok bs → decode_payload bs ≡ ok m
unfolding encode_payload decode_payload
decode-encode_da m bs e =
    read_payload-written (fields m) body bs
      (Message-then _ _ _ _ (Codec-u8 _) (
        Message-then _ _ _ _ (Codec-u32 _)
          (Message-last _ _ _ (Codec-bytes m.blob) (Whole-ensure _ (Whole-pure m)))))
      e
