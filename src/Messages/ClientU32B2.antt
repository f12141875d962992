-- ===== src/Messages/ClientU32B2.antt =====
-- `ClientU32B2` of messages.py: one 32-bit number, command 0xB2.
use army.Messages.Rules.{ByteReader, ByteWriter, Codec-u32, Exec, List, Message-last, Packet}
use army.Messages.Rules.{Result, Whole-ensure, Whole-pure, bind_result, ensure_finished, number}
use army.Messages.Rules.{ok, packet, pure, read_payload, read_payload-written, read_u32}
use army.Messages.Rules.{write_u32, written, ℕ, ℤ, ◌>>=◌, ◌>>◌, ◌≡◌}
use army.Messages.Command.{client_u32_b2}

pub record ClientU32B2 : Type 0 where
  pub value : ℤ

abbrev fields : ClientU32B2 → Exec ByteWriter (Unit {0})
fields m = write_u32 m.value

unfoldable pub encode_payload : ClientU32B2 → Result (List ℕ)
encode_payload m = written (fields m)

unfoldable pub to_packet : ClientU32B2 → Result Packet
unfolding encode_payload
to_packet m = bind_result (encode_payload m) (packet (number client_u32_b2))

abbrev body : Exec ByteReader ClientU32B2
body = do value ← read_u32; ensure_finished; pure (record { value = value })

unfoldable pub decode_payload : List ℕ → Result ClientU32B2
decode_payload = read_payload body

-- A number that encodes is what its payload decodes to.
pub decode-encode_u32_b2 :
    (m : ClientU32B2) (bs : List ℕ) → encode_payload m ≡ ok bs → decode_payload bs ≡ ok m
unfolding encode_payload decode_payload
decode-encode_u32_b2 m bs e =
    read_payload-written (fields m) body bs
      (Message-last _ _ _ (Codec-u32 _) (Whole-ensure _ (Whole-pure m))) e
