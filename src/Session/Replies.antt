-- ===== src/Session/Replies.antt =====
-- The packets that server/session.py sends, as the messages encode them.
use army.Common.{◌≡◌, refl, arith, true, [], ◌∷◌, leb}
use army.Common.Int.{ℤ, pos, negsuc, within, low_byte}
use army.Exec.{Result, ok, err}
use army.Transform.{ByteTransform, from_seed}
use army.Transform.Valid.{IsTransform}
use army.Framing.Sendable.{IsSendable, is_sendable, is_sendable-IsSendable}
use army.Framing.{Packet, packet}
use army.Bytes.{to_bytes}
use army.Utf8.{utf8_encode, is_scalar, encode_char}
use army.Messages.ServerAreaRecord.{with_defaults, encode_details, encode_into}
use army.Primitives.{write_u8, write_u16, write_u32, write_string16, write_bytes, validate_uint}
use army.Messages.Command.{
  Command, number, transport_sync, screen_bootstrap, prelogin_status, client_session,
  bootstrap_versions, area, bootstrap_da, bootstrap_e1, bootstrap_e0, handshake,
}
use army.Messages.HandshakeResponse
use army.Messages.ServerTransportReset2
use army.Messages.ServerTransportReset2.{server_transport_reset2}
use army.Messages.ServerPreloginStatus
use army.Messages.ServerSessionResponse
use army.Messages.ServerAreaList
use army.Messages.ScreenBootstrapResponse
use army.Messages.BootstrapVersions
use army.Messages.BootstrapDaResponse
use army.Messages.BootstrapE1Response
use army.Messages.BootstrapE0EmptyResponse
use army.Session.{seed, shift, version, session_response}
use army.Session.Handlers.{handshake_response}

-- The packets of the messages with the values of `LoginSession`, by name.
pub data Reply : Type 0 where
  reset2 status response versions areas da e1 e0 : Reply

abbrev packet_of : Result Packet → Packet
packet_of (ok p) = p
packet_of (err e) = record { command = 0; payload = [] }

abbrev pub encoded : Reply → Result Packet
encoded reset2 = ServerTransportReset2.to_packet server_transport_reset2
encoded status = ServerPreloginStatus.to_packet (record { value = pos 1 })
encoded response = ServerSessionResponse.to_packet session_response
encoded versions =
    BootstrapVersions.to_packet
      (record { e1_version = version; e0_version = version; da_version = version })
encoded areas = ServerAreaList.to_packet ServerAreaList.default_list
encoded da = BootstrapDaResponse.to_packet (BootstrapDaResponse.empty version)
encoded e1 = BootstrapE1Response.to_packet (BootstrapE1Response.empty version)
encoded e0 = BootstrapE0EmptyResponse.to_packet (record { version = version })

unfoldable pub reply_packet : Reply → Packet
reply_packet r = packet_of (encoded r)

pub encoded-eq : (r : Reply) → encoded r ≡ ok (reply_packet r)
unfolding reply_packet packet number write_u8 write_u16 write_u32 write_string16 write_bytes
    validate_uint utf8_encode is_scalar encode_char to_bytes session_response
    ServerTransportReset2.to_packet ServerPreloginStatus.to_packet ServerSessionResponse.to_packet
    BootstrapVersions.to_packet BootstrapDaResponse.to_packet BootstrapDaResponse.empty
    BootstrapE1Response.to_packet BootstrapE1Response.empty BootstrapE0EmptyResponse.to_packet
    ServerAreaList.to_packet ServerAreaList.default_list ServerAreaList.is_empty
    ServerAreaList.encode_records with_defaults encode_details encode_into
encoded-eq reset2 = refl
encoded-eq _ = refl

-- The command of a reply.
unfoldable pub reply_command : Reply → Command
reply_command reset2 = transport_sync
reply_command status = prelogin_status
reply_command response = client_session
reply_command versions = bootstrap_versions
reply_command areas = area
reply_command da = bootstrap_da
reply_command e1 = bootstrap_e1
reply_command e0 = bootstrap_e0

pub reply_facts :
    (r : Reply)
    → (is_sendable (reply_packet r) ≡ true) × ((reply_packet r).command ≡ number (reply_command r))
unfolding is_sendable reply_command reply_packet packet number write_u8 write_u16 write_u32
    write_string16 write_bytes validate_uint utf8_encode is_scalar encode_char to_bytes
    session_response ServerTransportReset2.to_packet ServerPreloginStatus.to_packet
    ServerSessionResponse.to_packet BootstrapVersions.to_packet BootstrapDaResponse.to_packet
    BootstrapDaResponse.empty BootstrapE1Response.to_packet BootstrapE1Response.empty
    BootstrapE0EmptyResponse.to_packet ServerAreaList.to_packet ServerAreaList.default_list
    ServerAreaList.is_empty ServerAreaList.encode_records with_defaults encode_details encode_into
reply_facts reset2 = (refl, refl)
reply_facts _ = (refl, refl)

pub reply-IsSendable : (r : Reply) → IsSendable (reply_packet r)
reply-IsSendable r = is_sendable-IsSendable (reply_packet r) (reply_facts r).0

pub reply-command : (r : Reply) → (reply_packet r).command ≡ number (reply_command r)
reply-command r = (reply_facts r).1

pub handshake_packet : Packet
handshake_packet = packet_of (HandshakeResponse.to_packet handshake_response)

pub handshake-eq : HandshakeResponse.to_packet handshake_response ≡ ok handshake_packet
unfolding handshake_packet HandshakeResponse.to_packet write_u8 write_string16 utf8_encode is_scalar
    encode_char packet number
handshake-eq = refl

pub handshake_facts :
    (is_sendable handshake_packet ≡ true) × (handshake_packet.command ≡ number handshake)
unfolding is_sendable handshake_packet HandshakeResponse.to_packet write_u8 write_string16
    utf8_encode is_scalar encode_char packet number to_bytes
handshake_facts = (refl, refl)

pub handshake-IsSendable : IsSendable handshake_packet
handshake-IsSendable = is_sendable-IsSendable handshake_packet handshake_facts.0

pub handshake-command : handshake_packet.command ≡ number handshake
handshake-command = handshake_facts.1

pub local_transform : ByteTransform
local_transform = record { key = 0 ∷ []; shift = 0 }

pub local-eq : from_seed seed shift ≡ ok local_transform
unfolding local_transform from_seed
local-eq = refl

-- The packet of the splash transition.
unfoldable pub splash_packet : ℤ → Packet
splash_packet revision = record {
  command = number screen_bootstrap;
  payload = 0 ∷ low_byte revision ∷ 0 ∷ 0 ∷ [];
}

low : (v : ℤ) → within (negsuc 127) (pos 127) v ≡ true → leb (low_byte v) 255 ≡ true
low (pos n) h = ground arith
low (negsuc n) h = ground arith

pub splash-eq :
    (v : ℤ)
    → within (negsuc 127) (pos 127) v ≡ true
    → ScreenBootstrapResponse.to_packet (record { revision = v; text = [] }) ≡ ok (splash_packet v)
unfolding ScreenBootstrapResponse.to_packet splash_packet write_u8 validate_uint write_string16
    utf8_encode packet number to_bytes
splash-eq v h = rw (h, low v h) refl

pub splash-is_sendable :
    (v : ℤ) → within (negsuc 127) (pos 127) v ≡ true → is_sendable (splash_packet v) ≡ true
unfolding is_sendable splash_packet number
splash-is_sendable v h = rw (low v h) refl

pub splash-IsSendable :
    (v : ℤ) → within (negsuc 127) (pos 127) v ≡ true → IsSendable (splash_packet v)
splash-IsSendable v h = is_sendable-IsSendable (splash_packet v) (splash-is_sendable v h)

pub local-IsTransform : IsTransform local_transform
unfolding local_transform
local-IsTransform = record {
  bytes = (omega arith, tt);
  nonempty = omega arith;
  short = omega arith;
  shift_byte = omega arith;
}
