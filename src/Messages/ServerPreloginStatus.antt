-- ===== src/Messages/ServerPreloginStatus.antt =====
-- `ServerPreloginStatus` of messages.py: the one-byte 0xFD response.
use army.Messages.Rules.{ByteReader, ByteWriter, Codec-u8, Exec, List, Message-last, Packet}
use army.Messages.Rules.{Result, Whole-ensure, Whole-pure, bind_result, ensure_finished, number}
use army.Messages.Rules.{ok, packet, pure, read_payload, read_payload-written, read_u8, write_u8}
use army.Messages.Rules.{written, ℕ, ℤ, ◌>>=◌, ◌>>◌, ◌≡◌}
use army.Messages.Command.{prelogin_status}

pub record ServerPreloginStatus : Type 0 where
  pub value : ℤ

abbrev fields : ServerPreloginStatus → Exec ByteWriter (Unit {0})
fields m = write_u8 m.value

unfoldable pub encode_payload : ServerPreloginStatus → Result (List ℕ)
encode_payload m = written (fields m)

unfoldable pub to_packet : ServerPreloginStatus → Result Packet
unfolding encode_payload
to_packet m = bind_result (encode_payload m) (packet (number prelogin_status))

abbrev body : Exec ByteReader ServerPreloginStatus
body = do value ← read_u8; ensure_finished; pure (record { value = value })

unfoldable pub decode_payload : List ℕ → Result ServerPreloginStatus
decode_payload = read_payload body

-- A prelogin status that encodes is what its payload decodes to.
pub decode-encode_prelogin_status :
    (m : ServerPreloginStatus) (bs : List ℕ) → encode_payload m ≡ ok bs → decode_payload bs ≡ ok m
unfolding encode_payload decode_payload
decode-encode_prelogin_status m bs e =
    read_payload-written (fields m) body bs
      (Message-last _ _ _ (Codec-u8 _) (Whole-ensure _ (Whole-pure m))) e
