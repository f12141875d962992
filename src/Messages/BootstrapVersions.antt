-- ===== src/Messages/BootstrapVersions.antt =====
-- `BootstrapVersions` of messages.py: three version bytes, command 0xE2.
use army.Messages.Rules.{ByteReader, ByteWriter, Codec-u8, Exec, List, Message-last, Message-then}
use army.Messages.Rules.{Packet, Result, Whole-ensure, Whole-pure, bind_result, ensure_finished}
use army.Messages.Rules.{number, ok, packet, pure, read_payload, read_payload-written, read_u8}
use army.Messages.Rules.{write_u8, written, ℕ, ℤ, ◌>>=◌, ◌>>◌, ◌≡◌}
use army.Messages.Command.{bootstrap_versions}

pub record BootstrapVersions : Type 0 where
  pub e1_version : ℤ
  pub e0_version : ℤ
  pub da_version : ℤ

abbrev fields : BootstrapVersions → Exec ByteWriter (Unit {0})
fields m = do write_u8 m.e1_version; write_u8 m.e0_version; write_u8 m.da_version

unfoldable pub encode_payload : BootstrapVersions → Result (List ℕ)
encode_payload m = written (fields m)

unfoldable pub to_packet : BootstrapVersions → Result Packet
unfolding encode_payload
to_packet m = bind_result (encode_payload m) (packet (number bootstrap_versions))

abbrev body : Exec ByteReader BootstrapVersions
body = do
  e1_version ← read_u8
  e0_version ← read_u8
  da_version ← read_u8
  ensure_finished
  pure (record { e1_version = e1_version; e0_version = e0_version; da_version = da_version })

unfoldable pub decode_payload : List ℕ → Result BootstrapVersions
decode_payload = read_payload body

-- A message of versions that encodes is what its payload decodes to.
pub decode-encode_versions :
    (m : BootstrapVersions) (bs : List ℕ) → encode_payload m ≡ ok bs → decode_payload bs ≡ ok m
unfolding encode_payload decode_payload
decode-encode_versions m bs e =
    read_payload-written (fields m) body bs
      (Message-then _ _ _ _ (Codec-u8 _) (
        Message-then _ _ _ _ (Codec-u8 _)
          (Message-last _ _ _ (Codec-u8 _) (Whole-ensure _ (Whole-pure m)))))
      e
