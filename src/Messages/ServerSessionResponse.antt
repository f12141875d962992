-- ===== src/Messages/ServerSessionResponse.antt =====
-- `ServerSessionResponse` of messages.py: four texts, command 0xBB.
use army.Messages.Rules.{ByteReader, ByteWriter, Codec-string16, Exec, List, Message-last}
use army.Messages.Rules.{Message-then, Packet, Result, Whole-ensure, Whole-pure, bind_result}
use army.Messages.Rules.{ensure_finished, number, ok, packet, pure, read_payload}
use army.Messages.Rules.{read_payload-written, read_string16, write_string16, written, ℕ, ◌>>=◌}
use army.Messages.Rules.{◌>>◌, ◌≡◌}
use army.Messages.Command.{client_session}

pub record ServerSessionResponse : Type 0 where
  pub list_for_mode1 : List ℕ
  pub raw_for_mode1 : List ℕ
  pub list_for_mode0 : List ℕ
  pub raw_for_mode0 : List ℕ

abbrev fields : ServerSessionResponse → Exec ByteWriter (Unit {0})
fields m = do
  write_string16 m.list_for_mode1
  write_string16 m.raw_for_mode1
  write_string16 m.list_for_mode0
  write_string16 m.raw_for_mode0

unfoldable pub encode_payload : ServerSessionResponse → Result (List ℕ)
encode_payload m = written (fields m)

unfoldable pub to_packet : ServerSessionResponse → Result Packet
unfolding encode_payload
to_packet m = bind_result (encode_payload m) (packet (number client_session))

abbrev body : Exec ByteReader ServerSessionResponse
body = do
  list_for_mode1 ← read_string16
  raw_for_mode1 ← read_string16
  list_for_mode0 ← read_string16
  raw_for_mode0 ← read_string16
  ensure_finished
  pure (record {
    list_for_mode1 = list_for_mode1;
    raw_for_mode1 = raw_for_mode1;
    list_for_mode0 = list_for_mode0;
    raw_for_mode0 = raw_for_mode0;
  })

unfoldable pub decode_payload : List ℕ → Result ServerSessionResponse
decode_payload = read_payload body

-- A session response that encodes is what its payload decodes to.
pub decode-encode_session_response :
    (m : ServerSessionResponse) (bs : List ℕ) → encode_payload m ≡ ok bs → decode_payload bs ≡ ok m
unfolding encode_payload decode_payload
decode-encode_session_response m bs e =
    read_payload-written (fields m) body bs
      (Message-then _ _ _ _ (Codec-string16 _) (
        Message-then _ _ _ _ (Codec-string16 _) (
          Message-then _ _ _ _ (Codec-string16 _)
            (Message-last _ _ _ (Codec-string16 _) (Whole-ensure _ (Whole-pure m))))))
      e
