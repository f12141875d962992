-- ===== src/Messages/ClientAreaRequest.antt =====
-- `ClientAreaRequest` of messages.py: the one-byte 0xE4 request, of which only mode 0 is known.
use army.Messages.Rules.{
  ℕ, ℤ, pos, ◌≡◌, not, List, eq_ℤ, Result, ok, Exec, bind_result, pure, raise_if, ◌>>=◌, ◌>>◌,
  encode_error, decode_error, Packet, packet, ByteReader, ByteWriter, written, read_payload,
  ensure_finished, write_u8, read_u8, read_payload-written, Message-last, Codec-u8, Whole,
  Whole-ensure, Whole-pure, Whole-raise_if, Writes-raise_if, number,
}
use army.Messages.Command.{area}

pub record ClientAreaRequest : Type 0 where
  pub mode : ℤ

abbrev fields : ClientAreaRequest → Exec ByteWriter (Unit {0})
fields m = do raise_if (not (eq_ℤ m.mode (pos 0))) encode_error; write_u8 m.mode

unfoldable pub encode_payload : ClientAreaRequest → Result (List ℕ)
encode_payload m = written (fields m)

unfoldable pub to_packet : ClientAreaRequest → Result Packet
unfolding encode_payload
to_packet m = bind_result (encode_payload m) (packet (number area))

abbrev body : Exec ByteReader ClientAreaRequest
body = do
  mode ← read_u8
  ensure_finished
  raise_if (not (eq_ℤ mode (pos 0))) decode_error
  pure (record { mode = mode })

unfoldable pub decode_payload : List ℕ → Result ClientAreaRequest
decode_payload = read_payload body

-- A request that encodes is what its payload decodes to.
pub decode-encode_area_request :
    (m : ClientAreaRequest) (bs : List ℕ) → encode_payload m ≡ ok bs → decode_payload bs ≡ ok m
unfolding encode_payload decode_payload
decode-encode_area_request m bs e =
    read_payload-written (fields m) body bs
      (Writes-raise_if (Whole body m) (not (eq_ℤ m.mode (pos 0))) encode_error _ (λ known.
        Message-last (write_u8 m.mode) _ _ (Codec-u8 _)
          (Whole-ensure _ (Whole-raise_if _ decode_error (pure m) known (Whole-pure m)))))
      e
