-- ===== src/Messages/ClientTransportSync0.antt =====
-- `ClientTransportSync0` of messages.py: client 0xA9, subcommand 0.
use army.Messages.Rules.{ByteReader, ByteWriter, Codec-string16, Codec-u32, Codec-u8, Exec, List}
use army.Messages.Rules.{Message-check, Message-last, Message-then, Packet, Result, Whole-ensure}
use army.Messages.Rules.{Whole-pure, bind_result, decode_error, ensure_finished, eq_ℤ, false, not}
use army.Messages.Rules.{number, ok, packet, pos, pure, raise_if, read_payload}
use army.Messages.Rules.{read_payload-written, read_string16, read_u32, read_u8, refl}
use army.Messages.Rules.{write_string16, write_u32, write_u8, written, ℕ, ℤ, ◌>>=◌, ◌>>◌, ◌≡◌}
use army.Messages.Command.{transport_sync}

pub record ClientTransportSync0 : Type 0 where
  pub stored_text : List ℕ
  pub counter94 : ℤ
  pub counter90 : ℤ

abbrev fields : ClientTransportSync0 → Exec ByteWriter (Unit {0})
fields m = do
  write_u8 (pos 0)
  write_string16 m.stored_text
  write_u32 m.counter94
  write_u32 m.counter90

unfoldable pub encode_payload : ClientTransportSync0 → Result (List ℕ)
encode_payload m = written (fields m)

unfoldable pub to_packet : ClientTransportSync0 → Result Packet
unfolding encode_payload
to_packet m = bind_result (encode_payload m) (packet (number transport_sync))

abbrev body : Exec ByteReader ClientTransportSync0
body = do
  selector ← read_u8
  raise_if (not (eq_ℤ selector (pos 0))) decode_error
  stored_text ← read_string16
  counter94 ← read_u32
  counter90 ← read_u32
  ensure_finished
  pure (record { stored_text = stored_text; counter94 = counter94; counter90 = counter90 })

unfoldable pub decode_payload : List ℕ → Result ClientTransportSync0
decode_payload = read_payload body

-- A transport synchronisation that encodes is what its payload decodes to.
pub decode-encode_transport_sync :
    (m : ClientTransportSync0) (bs : List ℕ) → encode_payload m ≡ ok bs → decode_payload bs ≡ ok m
unfolding encode_payload decode_payload
decode-encode_transport_sync m bs e =
    read_payload-written (fields m) body bs
      (Message-then _ _ _ _ (Codec-u8 _) (
        Message-check false decode_error _ _ refl (
          Message-then _ _ _ _ (Codec-string16 _) (
            Message-then _ _ _ _ (Codec-u32 _)
              (Message-last _ _ _ (Codec-u32 _) (Whole-ensure _ (Whole-pure m)))))))
      e
