-- ===== src/Messages/ClientPrelogin72.antt =====
-- `ClientPrelogin72` of messages.py: two bytes and a text, command 0x72.
use army.Messages.Rules.{ByteReader, ByteWriter, Codec-string16, Codec-u8, Exec, List}
use army.Messages.Rules.{Message-last, Message-then, Packet, Result, Whole-ensure, Whole-pure}
use army.Messages.Rules.{bind_result, ensure_finished, number, ok, packet, pure, read_payload}
use army.Messages.Rules.{read_payload-written, read_string16, read_u8, write_string16, write_u8}
use army.Messages.Rules.{written, ℕ, ℤ, ◌>>=◌, ◌>>◌, ◌≡◌}
use army.Messages.Command.{client_text_72}

pub record ClientPrelogin72 : Type 0 where
  pub value1 : ℤ
  pub value2 : ℤ
  pub text : List ℕ

abbrev fields : ClientPrelogin72 → Exec ByteWriter (Unit {0})
fields m = do write_u8 m.value1; write_u8 m.value2; write_string16 m.text

unfoldable pub encode_payload : ClientPrelogin72 → Result (List ℕ)
encode_payload m = written (fields m)

unfoldable pub to_packet : ClientPrelogin72 → Result Packet
unfolding encode_payload
to_packet m = bind_result (encode_payload m) (packet (number client_text_72))

abbrev body : Exec ByteReader ClientPrelogin72
body = do
  value1 ← read_u8
  value2 ← read_u8
  text ← read_string16
  ensure_finished
  pure (record { value1 = value1; value2 = value2; text = text })

unfoldable pub decode_payload : List ℕ → Result ClientPrelogin72
decode_payload = read_payload body

-- A prelogin message that encodes is what its payload decodes to.
pub decode-encode_prelogin72 :
    (m : ClientPrelogin72) (bs : List ℕ) → encode_payload m ≡ ok bs → decode_payload bs ≡ ok m
unfolding encode_payload decode_payload
decode-encode_prelogin72 m bs e =
    read_payload-written (fields m) body bs
      (Message-then _ _ _ _ (Codec-u8 _) (
        Message-then _ _ _ _ (Codec-u8 _)
          (Message-last _ _ _ (Codec-string16 _) (Whole-ensure _ (Whole-pure m)))))
      e
