-- ===== src/Messages/ServerTransportReset2.antt =====
-- `ServerTransportReset2` of messages.py: server 0xA9, subcommand 2, which has no fields.
use army.Common.{ℕ, ◌≡◌, refl, not, List, [], ◌∷◌}
use army.Common.Int.{pos, eq_ℤ}
use army.Exec.{Result, ok, Exec, pure, raise_if, ◌>>=◌, ◌>>◌, decode_error}
use army.Framing.{Packet, packet}
use army.Primitives.{ByteReader, read_payload, read_u8, ensure_finished}
use army.Messages.Command.{number, transport_sync}

pub data ServerTransportReset2 : Type 0 where
  server_transport_reset2 : ServerTransportReset2

unfoldable pub encode_payload : ServerTransportReset2 → List ℕ
encode_payload m = 0x02 ∷ []

unfoldable pub to_packet : ServerTransportReset2 → Result Packet
unfolding encode_payload
to_packet m = packet (number transport_sync) (encode_payload m)

abbrev body : Exec ByteReader ServerTransportReset2
body = do
  subcommand ← read_u8
  ensure_finished
  raise_if (not (eq_ℤ subcommand (pos 2))) decode_error
  pure server_transport_reset2

unfoldable pub decode_payload : List ℕ → Result ServerTransportReset2
decode_payload = read_payload body

-- The payload is read back.
pub decode-encode_reset2 : (m : ServerTransportReset2) → decode_payload (encode_payload m) ≡ ok m
unfolding decode_payload encode_payload read_u8 ensure_finished
decode-encode_reset2 server_transport_reset2 = refl
