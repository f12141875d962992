-- ===== src/Messages/ClientSessionRequest.antt =====
-- `ClientSessionRequest` of messages.py: two texts and the mode byte of command 0xBB.
use army.Messages.Rules.{ByteReader, ByteWriter, Codec-string16, Codec-u8, Exec, List}
use army.Messages.Rules.{Message-last, Message-then, Packet, Result, Whole-ensure, Whole-pure}
use army.Messages.Rules.{bind_result, ensure_finished, number, ok, packet, pure, read_payload}
use army.Messages.Rules.{read_payload-written, read_string16, read_u8, write_string16, write_u8}
use army.Messages.Rules.{written, ℕ, ℤ, ◌>>=◌, ◌>>◌, ◌≡◌}
use army.Messages.Command.{client_session}

pub record ClientSessionRequest : Type 0 where
  pub field_from_control38 : List ℕ
  pub field_from_control30 : List ℕ
  pub mode : ℤ

abbrev fields : ClientSessionRequest → Exec ByteWriter (Unit {0})
fields m = do
  write_string16 m.field_from_control38
  write_string16 m.field_from_control30
  write_u8 m.mode

unfoldable pub encode_payload : ClientSessionRequest → Result (List ℕ)
encode_payload m = written (fields m)

unfoldable pub to_packet : ClientSessionRequest → Result Packet
unfolding encode_payload
to_packet m = bind_result (encode_payload m) (packet (number client_session))

abbrev body : Exec ByteReader ClientSessionRequest
body = do
  field_from_control38 ← read_string16
  field_from_control30 ← read_string16
  mode ← read_u8
  ensure_finished
  pure (record {
    field_from_control38 = field_from_control38;
    field_from_control30 = field_from_control30;
    mode = mode;
  })

unfoldable pub decode_payload : List ℕ → Result ClientSessionRequest
decode_payload = read_payload body

-- A session request that encodes is what its payload decodes to.
pub decode-encode_session_request :
    (m : ClientSessionRequest) (bs : List ℕ) → encode_payload m ≡ ok bs → decode_payload bs ≡ ok m
unfolding encode_payload decode_payload
decode-encode_session_request m bs e =
    read_payload-written (fields m) body bs
      (Message-then _ _ _ _ (Codec-string16 _) (
        Message-then _ _ _ _ (Codec-string16 _)
          (Message-last _ _ _ (Codec-u8 _) (Whole-ensure _ (Whole-pure m)))))
      e
