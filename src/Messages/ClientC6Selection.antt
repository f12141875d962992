-- ===== src/Messages/ClientC6Selection.antt =====
-- `ClientC6Selection` of messages.py: a text and the marker 1, command 0xC6.
use army.Messages.Rules.{
  ℕ, pos, ◌≡◌, not, List, eq_ℤ, Result, ok, Exec, bind_result, pure, raise_if, ◌>>=◌, ◌>>◌,
  decode_error, Packet, packet, ByteReader, ByteWriter, written, read_payload, ensure_finished,
  write_u8, write_string16, read_u8, read_string16, read_payload-written, Message-then,
  Message-last, Codec-u8, Codec-string16, Whole-ensure, Whole-pure, number,
}
use army.Messages.Command.{client_selection}

pub record ClientC6Selection : Type 0 where
  pub text : List ℕ

abbrev fields : ClientC6Selection → Exec ByteWriter (Unit {0})
fields m = do write_string16 m.text; write_u8 (pos 1)

unfoldable pub encode_payload : ClientC6Selection → Result (List ℕ)
encode_payload m = written (fields m)

unfoldable pub to_packet : ClientC6Selection → Result Packet
unfolding encode_payload
to_packet m = bind_result (encode_payload m) (packet (number client_selection))

abbrev body : Exec ByteReader ClientC6Selection
body = do
  text ← read_string16
  marker ← read_u8
  ensure_finished
  raise_if (not (eq_ℤ marker (pos 1))) decode_error
  pure (record { text = text })

unfoldable pub decode_payload : List ℕ → Result ClientC6Selection
decode_payload = read_payload body

-- A selection that encodes is what its payload decodes to.
pub decode-encode_selection :
    (m : ClientC6Selection) (bs : List ℕ) → encode_payload m ≡ ok bs → decode_payload bs ≡ ok m
unfolding encode_payload decode_payload
decode-encode_selection m bs e =
    read_payload-written (fields m) body bs
      (Message-then _ _ _ _ (Codec-string16 _)
        (Message-last _ _ _ (Codec-u8 _) (Whole-ensure _ (Whole-pure m))))
      e
