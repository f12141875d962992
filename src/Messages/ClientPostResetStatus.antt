-- ===== src/Messages/ClientPostResetStatus.antt =====
-- `ClientPostResetStatus` of messages.py: the one-byte client status 0x3A.
use army.Messages.Rules.{ByteReader, ByteWriter, Codec-u8, Exec, List, Message-last, Packet}
use army.Messages.Rules.{Result, Whole-ensure, Whole-pure, bind_result, ensure_finished, number}
use army.Messages.Rules.{ok, packet, pure, read_payload, read_payload-written, read_u8, write_u8}
use army.Messages.Rules.{written, ℕ, ℤ, ◌>>=◌, ◌>>◌, ◌≡◌}
use army.Messages.Command.{post_reset_status}

pub record ClientPostResetStatus : Type 0 where
  pub value : ℤ

abbrev fields : ClientPostResetStatus → Exec ByteWriter (Unit {0})
fields m = write_u8 m.value

unfoldable pub encode_payload : ClientPostResetStatus → Result (List ℕ)
encode_payload m = written (fields m)

unfoldable pub to_packet : ClientPostResetStatus → Result Packet
unfolding encode_payload
to_packet m = bind_result (encode_payload m) (packet (number post_reset_status))

abbrev body : Exec ByteReader ClientPostResetStatus
body = do value ← read_u8; ensure_finished; pure (record { value = value })

unfoldable pub decode_payload : List ℕ → Result ClientPostResetStatus
decode_payload = read_payload body

-- A status that encodes is what its payload decodes to.
pub decode-encode_post_reset_status :
    (m : ClientPostResetStatus) (bs : List ℕ) → encode_payload m ≡ ok bs → decode_payload bs ≡ ok m
unfolding encode_payload decode_payload
decode-encode_post_reset_status m bs e =
    read_payload-written (fields m) body bs
      (Message-last _ _ _ (Codec-u8 _) (Whole-ensure _ (Whole-pure m))) e
