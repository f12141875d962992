-- ===== src/Messages/BootstrapE1Response.antt =====
-- `BootstrapE1Response` of messages.py: a version and three blobs, command 0xE1.
use army.Messages.Rules.{
  ℕ, ℤ, pos, ◌≡◌, List, [], ◌∷◌, length, Result, ok, Exec, bind_result, pure, ◌>>=◌, ◌>>◌, Packet,
  packet, ByteReader, ByteWriter, written, read_payload, ensure_finished, write_bytes, write_u8,
  write_u32, read_exact, read_u8, read_u32, read_payload-written, Message-then, Message-last,
  Codec-bytes, Codec-u8, Codec-u32, Whole-ensure, Whole-pure, number,
}
use army.Messages.Command.{bootstrap_e1}

pub record BootstrapE1Response : Type 0 where
  pub version : ℤ
  pub blob1 : List ℕ
  pub blob2 : List ℕ
  pub blob3 : List ℕ

-- `BootstrapE1Response.empty(version)`
unfoldable pub empty : ℤ → BootstrapE1Response
empty version = record {
  version = version;
  blob1 = 0x00 ∷ 0x00 ∷ [];
  blob2 = 0x00 ∷ 0x00 ∷ [];
  blob3 = 0x00 ∷ [];
}

-- The rounds of the loop over the blobs.
abbrev fields : BootstrapE1Response → Exec ByteWriter (Unit {0})
fields m = do
  write_u8 m.version
  write_u32 (pos (length m.blob1))
  write_bytes m.blob1
  write_u32 (pos (length m.blob2))
  write_bytes m.blob2
  write_u32 (pos (length m.blob3))
  write_bytes m.blob3

unfoldable pub encode_payload : BootstrapE1Response → Result (List ℕ)
encode_payload m = written (fields m)

unfoldable pub to_packet : BootstrapE1Response → Result Packet
unfolding encode_payload
to_packet m = bind_result (encode_payload m) (packet (number bootstrap_e1))

abbrev body : Exec ByteReader BootstrapE1Response
body = do
  version ← read_u8
  size1 ← read_u32
  blob1 ← read_exact size1
  size2 ← read_u32
  blob2 ← read_exact size2
  size3 ← read_u32
  blob3 ← read_exact size3
  ensure_finished
  pure (record { version = version; blob1 = blob1; blob2 = blob2; blob3 = blob3 })

unfoldable pub decode_payload : List ℕ → Result BootstrapE1Response
decode_payload = read_payload body

-- A response that encodes is what its payload decodes to.
pub decode-encode_e1 :
    (m : BootstrapE1Response) (bs : List ℕ) → encode_payload m ≡ ok bs → decode_payload bs ≡ ok m
unfolding encode_payload decode_payload
decode-encode_e1 m bs e =
    read_payload-written (fields m) body bs
      (Message-then _ _ _ _ (Codec-u8 _) (
        Message-then _ _ _ _ (Codec-u32 _) (
          Message-then _ _ _ _ (Codec-bytes m.blob1) (
            Message-then _ _ _ _ (Codec-u32 _) (
              Message-then _ _ _ _ (Codec-bytes m.blob2) (
                Message-then _ _ _ _ (Codec-u32 _)
                  (Message-last _ _ _ (Codec-bytes m.blob3) (Whole-ensure _ (Whole-pure m)))))))))
      e
