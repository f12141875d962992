-- ===== src/Messages/Runs.antt =====
-- The round trips of the messages at concrete values.
use army.Common.{ℕ, ◌≡◌, refl, List, [], ◌∷◌}
use army.Common.Int.{pos, negsuc}
use army.Exec.{ok}
use army.Bytes.{to_bytes, from_bytes}
use army.Utf8.{utf8_encode, is_scalar, encode_char, utf8_decode, utf8_step}
use army.Primitives.{read_u8, read_u32, read_string16, remaining}
use army.Primitives.{write_u8, write_u16, write_u32, write_string16, write_bytes, validate_uint}
use army.Common.{true}
use army.Framing.{Packet}
use army.Messages.Command.{number, command_of, bootstrap_da}
use army.Messages.Payloads.{session_request_kind, encode, decode, decode-encode}
use army.Messages.EmptyClientRequest
use army.Messages.ServerAreaRecord
use army.Messages.ServerAreaList
use army.Messages.ClientSessionRequest
use army.Messages.ClientTransportSync0
use army.Messages.ClientPrelogin72
use army.Messages.ClientC6Selection
use army.Messages.ServerSessionResponse
use army.Messages.HandshakeResponse
use army.Messages.BootstrapVersions
use army.Messages.BootstrapDaResponse
use army.Messages.ScreenResourceManifestResponse
use army.Messages.ScreenResourceItemResponse
use army.Messages.BootstrapE1Response
use army.Messages.BootstrapE0EmptyResponse
use army.Messages.ClientAreaRequest
use army.Messages.ScreenBootstrapResponse

session_request_read_back :
    ClientSessionRequest.decode_payload
      (0 ∷ 2 ∷ 104 ∷ 105 ∷ 0 ∷ 5 ∷ 108 ∷ 111 ∷ 99 ∷ 97 ∷ 108 ∷ 1 ∷ [])
    ≡ ok (record {
      field_from_control38 = 104 ∷ 105 ∷ [];
      field_from_control30 = 108 ∷ 111 ∷ 99 ∷ 97 ∷ 108 ∷ [];
      mode = pos 1;
    })
unfolding ClientSessionRequest.encode_payload write_u8 write_u16 write_u32 write_string16
    write_bytes validate_uint utf8_encode is_scalar encode_char to_bytes
session_request_read_back =
    ClientSessionRequest.decode-encode_session_request
      (record {
        field_from_control38 = 104 ∷ 105 ∷ [];
        field_from_control30 = 108 ∷ 111 ∷ 99 ∷ 97 ∷ 108 ∷ [];
        mode = pos 1;
      })
      (0 ∷ 2 ∷ 104 ∷ 105 ∷ 0 ∷ 5 ∷ 108 ∷ 111 ∷ 99 ∷ 97 ∷ 108 ∷ 1 ∷ []) refl

transport_sync_read_back :
    ClientTransportSync0.decode_payload (0 ∷ 0 ∷ 2 ∷ 104 ∷ 105 ∷ 0 ∷ 0 ∷ 1 ∷ 2 ∷ 0 ∷ 0 ∷ 0 ∷ 7 ∷ [])
    ≡ ok (record { stored_text = 104 ∷ 105 ∷ []; counter94 = pos 258; counter90 = pos 7 })
unfolding ClientTransportSync0.encode_payload write_u8 write_u16 write_u32 write_string16
    write_bytes validate_uint utf8_encode is_scalar encode_char to_bytes
transport_sync_read_back =
    ClientTransportSync0.decode-encode_transport_sync
      (record { stored_text = 104 ∷ 105 ∷ []; counter94 = pos 258; counter90 = pos 7 })
      (0 ∷ 0 ∷ 2 ∷ 104 ∷ 105 ∷ 0 ∷ 0 ∷ 1 ∷ 2 ∷ 0 ∷ 0 ∷ 0 ∷ 7 ∷ []) refl

prelogin72_read_back :
    ClientPrelogin72.decode_payload (3 ∷ 255 ∷ 0 ∷ 2 ∷ 104 ∷ 105 ∷ [])
    ≡ ok (record { value1 = pos 3; value2 = pos 255; text = 104 ∷ 105 ∷ [] })
unfolding ClientPrelogin72.encode_payload write_u8 write_u16 write_u32 write_string16 write_bytes
    validate_uint utf8_encode is_scalar encode_char to_bytes
prelogin72_read_back =
    ClientPrelogin72.decode-encode_prelogin72
      (record { value1 = pos 3; value2 = pos 255; text = 104 ∷ 105 ∷ [] })
      (3 ∷ 255 ∷ 0 ∷ 2 ∷ 104 ∷ 105 ∷ []) refl

selection_read_back :
    ClientC6Selection.decode_payload (0 ∷ 2 ∷ 195 ∷ 169 ∷ 1 ∷ []) ≡ ok (record { text = 233 ∷ [] })
unfolding ClientC6Selection.encode_payload write_u8 write_u16 write_u32 write_string16 write_bytes
    validate_uint utf8_encode is_scalar encode_char to_bytes
selection_read_back =
    ClientC6Selection.decode-encode_selection (record { text = 233 ∷ [] })
      (0 ∷ 2 ∷ 195 ∷ 169 ∷ 1 ∷ []) refl

session_response_read_back :
    ServerSessionResponse.decode_payload
      (0 ∷ 2 ∷ 104 ∷ 105 ∷ 0 ∷ 0 ∷ 0 ∷ 5 ∷ 108 ∷ 111 ∷ 99 ∷ 97 ∷ 108 ∷ 0 ∷ 0 ∷ [])
    ≡ ok (record {
      list_for_mode1 = 104 ∷ 105 ∷ [];
      raw_for_mode1 = [];
      list_for_mode0 = 108 ∷ 111 ∷ 99 ∷ 97 ∷ 108 ∷ [];
      raw_for_mode0 = [];
    })
unfolding ServerSessionResponse.encode_payload write_u8 write_u16 write_u32 write_string16
    write_bytes validate_uint utf8_encode is_scalar encode_char to_bytes
session_response_read_back =
    ServerSessionResponse.decode-encode_session_response
      (record {
        list_for_mode1 = 104 ∷ 105 ∷ [];
        raw_for_mode1 = [];
        list_for_mode0 = 108 ∷ 111 ∷ 99 ∷ 97 ∷ 108 ∷ [];
        raw_for_mode0 = [];
      })
      (0 ∷ 2 ∷ 104 ∷ 105 ∷ 0 ∷ 0 ∷ 0 ∷ 5 ∷ 108 ∷ 111 ∷ 99 ∷ 97 ∷ 108 ∷ 0 ∷ 0 ∷ []) refl

handshake_read_back :
    HandshakeResponse.decode_payload (2 ∷ 10 ∷ 20 ∷ 3 ∷ 0 ∷ 2 ∷ 104 ∷ 105 ∷ [])
    ≡ ok (record { seed = 10 ∷ 20 ∷ []; shift = pos 3; text = 104 ∷ 105 ∷ [] })
unfolding HandshakeResponse.encode_payload write_u8 write_u16 write_u32 write_string16 write_bytes
    validate_uint utf8_encode is_scalar encode_char to_bytes
handshake_read_back =
    HandshakeResponse.decode-encode_handshake
      (record { seed = 10 ∷ 20 ∷ []; shift = pos 3; text = 104 ∷ 105 ∷ [] })
      (2 ∷ 10 ∷ 20 ∷ 3 ∷ 0 ∷ 2 ∷ 104 ∷ 105 ∷ []) refl

versions_read_back :
    BootstrapVersions.decode_payload (1 ∷ 2 ∷ 3 ∷ [])
    ≡ ok (record { e1_version = pos 1; e0_version = pos 2; da_version = pos 3 })
unfolding BootstrapVersions.encode_payload write_u8 write_u16 write_u32 write_string16 write_bytes
    validate_uint utf8_encode is_scalar encode_char to_bytes
versions_read_back =
    BootstrapVersions.decode-encode_versions
      (record { e1_version = pos 1; e0_version = pos 2; da_version = pos 3 }) (1 ∷ 2 ∷ 3 ∷ []) refl

da_read_back :
    BootstrapDaResponse.decode_payload (2 ∷ 0 ∷ 0 ∷ 0 ∷ 2 ∷ 9 ∷ 8 ∷ [])
    ≡ ok (record { version = pos 2; blob = 9 ∷ 8 ∷ [] })
unfolding BootstrapDaResponse.encode_payload write_u8 write_u16 write_u32 write_string16 write_bytes
    validate_uint utf8_encode is_scalar encode_char to_bytes
da_read_back =
    BootstrapDaResponse.decode-encode_da (record { version = pos 2; blob = 9 ∷ 8 ∷ [] })
      (2 ∷ 0 ∷ 0 ∷ 0 ∷ 2 ∷ 9 ∷ 8 ∷ []) refl

manifest_read_back :
    ScreenResourceManifestResponse.decode_payload (1 ∷ 4 ∷ 1 ∷ 44 ∷ [])
    ≡ ok (record { resource_version = pos 4; item_count = pos 300 })
unfolding ScreenResourceManifestResponse.encode_payload write_u8 write_u16 write_u32 write_string16
    write_bytes validate_uint utf8_encode is_scalar encode_char to_bytes
manifest_read_back =
    ScreenResourceManifestResponse.decode-encode_manifest
      (record { resource_version = pos 4; item_count = pos 300 }) (1 ∷ 4 ∷ 1 ∷ 44 ∷ []) refl

item_read_back :
    ScreenResourceItemResponse.decode_payload
      (2 ∷ 0 ∷ 2 ∷ 104 ∷ 105 ∷ 0 ∷ 0 ∷ 0 ∷ 3 ∷ 7 ∷ 0 ∷ 9 ∷ [])
    ≡ ok (record { key = 104 ∷ 105 ∷ []; bytes = 7 ∷ 0 ∷ 9 ∷ [] })
unfolding ScreenResourceItemResponse.encode_payload write_u8 write_u16 write_u32 write_string16
    write_bytes validate_uint utf8_encode is_scalar encode_char to_bytes
item_read_back =
    ScreenResourceItemResponse.decode-encode_item
      (record { key = 104 ∷ 105 ∷ []; bytes = 7 ∷ 0 ∷ 9 ∷ [] })
      (2 ∷ 0 ∷ 2 ∷ 104 ∷ 105 ∷ 0 ∷ 0 ∷ 0 ∷ 3 ∷ 7 ∷ 0 ∷ 9 ∷ []) refl

e1_read_back :
    BootstrapE1Response.decode_payload
      (2 ∷ 0 ∷ 0 ∷ 0 ∷ 2 ∷ 0 ∷ 0 ∷ 0 ∷ 0 ∷ 0 ∷ 1 ∷ 5 ∷ 0 ∷ 0 ∷ 0 ∷ 0 ∷ [])
    ≡ ok (record { version = pos 2; blob1 = 0 ∷ 0 ∷ []; blob2 = 5 ∷ []; blob3 = [] })
unfolding BootstrapE1Response.encode_payload write_u8 write_u16 write_u32 write_string16 write_bytes
    validate_uint utf8_encode is_scalar encode_char to_bytes
e1_read_back =
    BootstrapE1Response.decode-encode_e1
      (record { version = pos 2; blob1 = 0 ∷ 0 ∷ []; blob2 = 5 ∷ []; blob3 = [] })
      (2 ∷ 0 ∷ 0 ∷ 0 ∷ 2 ∷ 0 ∷ 0 ∷ 0 ∷ 0 ∷ 0 ∷ 1 ∷ 5 ∷ 0 ∷ 0 ∷ 0 ∷ 0 ∷ []) refl

e0_read_back :
    BootstrapE0EmptyResponse.decode_payload (2 ∷ 0 ∷ 0 ∷ 0 ∷ []) ≡ ok (record { version = pos 2 })
unfolding BootstrapE0EmptyResponse.encode_payload write_u8 write_u16 write_u32 write_string16
    write_bytes validate_uint utf8_encode is_scalar encode_char to_bytes
e0_read_back =
    BootstrapE0EmptyResponse.decode-encode_e0 (record { version = pos 2 }) (2 ∷ 0 ∷ 0 ∷ 0 ∷ []) refl

area_request_read_back : ClientAreaRequest.decode_payload (0 ∷ []) ≡ ok (record { mode = pos 0 })
unfolding ClientAreaRequest.encode_payload write_u8 write_u16 write_u32 write_string16 write_bytes
    validate_uint utf8_encode is_scalar encode_char to_bytes
area_request_read_back =
    ClientAreaRequest.decode-encode_area_request (record { mode = pos 0 }) (0 ∷ []) refl

screen_read_back :
    ScreenBootstrapResponse.decode_payload (0 ∷ 251 ∷ 0 ∷ 0 ∷ [])
    ≡ ok (record { revision = negsuc 4; text = [] })
unfolding ScreenBootstrapResponse.encode_payload write_u8 write_u16 write_u32 write_string16
    write_bytes validate_uint utf8_encode is_scalar encode_char to_bytes
screen_read_back =
    ScreenBootstrapResponse.decode-encode_screen (record { revision = negsuc 4; text = [] })
      (0 ∷ 251 ∷ 0 ∷ 0 ∷ []) refl

abbrev here : ServerAreaRecord.ServerAreaRecord
here = ServerAreaRecord.with_defaults (pos 5) (104 ∷ [])

abbrev unnamed : ServerAreaRecord.ServerAreaRecord
unnamed = ServerAreaRecord.with_defaults (negsuc 0) (105 ∷ [])

decode-encode_areas_example :
    ServerAreaList.decode_payload
      (0 ∷ 5 ∷ 0 ∷ 0 ∷ 0 ∷ 8 ∷ 0 ∷ 0 ∷ 0 ∷ 0 ∷ 0 ∷ 1 ∷ 104 ∷ 255 ∷ 0 ∷ 1 ∷ 105 ∷ [])
    ≡ ok (record { records = here ∷ unnamed ∷ []; selector = pos 0 })
unfolding ServerAreaList.encode_payload ServerAreaList.is_empty ServerAreaList.encode_records
    ServerAreaRecord.with_defaults ServerAreaRecord.encode_details ServerAreaRecord.encode_into
    ServerAreaRecord.kept write_u8 write_u16 write_u32 write_string16 write_bytes validate_uint
    utf8_encode is_scalar encode_char to_bytes
decode-encode_areas_example =
    ServerAreaList.decode-encode_areas (record { records = here ∷ unnamed ∷ []; selector = pos 0 })
      (0 ∷ 5 ∷ 0 ∷ 0 ∷ 0 ∷ 8 ∷ 0 ∷ 0 ∷ 0 ∷ 0 ∷ 0 ∷ 1 ∷ 104 ∷ 255 ∷ 0 ∷ 1 ∷ 105 ∷ []) refl

-- An area id that no record is written with is read.
decode_from_large_id :
    ServerAreaList.decode_payload (0 ∷ 200 ∷ 0 ∷ 0 ∷ 0 ∷ 8 ∷ 0 ∷ 0 ∷ 0 ∷ 0 ∷ 0 ∷ 1 ∷ 104 ∷ [])
    ≡ ok (record {
      records = ServerAreaRecord.with_defaults (pos 200) (104 ∷ []) ∷ [];
      selector = pos 0;
    })
unfolding ServerAreaList.decode_payload ServerAreaList.decode_records ServerAreaList.decode_loop
    ServerAreaList.is_empty ServerAreaRecord.decode_from ServerAreaRecord.decode_details
    ServerAreaRecord.with_defaults read_u8 read_u32 read_string16 remaining from_bytes utf8_decode
    utf8_step
decode_from_large_id = refl

from_packet-to_packet_example :
    (p : Packet) × (EmptyClientRequest.to_packet (record { command = bootstrap_da }) ≡ ok p)
    × (EmptyClientRequest.from_packet p ≡ ok (record { command = bootstrap_da }))
unfolding EmptyClientRequest.empty_client_request
from_packet-to_packet_example =
    EmptyClientRequest.from_packet-to_packet bootstrap_da (record { command = bootstrap_da }) refl

from_packet_lem_example :
    (◌≡◌ {A = List ℕ} [] [])
    × (0xda ≡ number bootstrap_da)
    × (EmptyClientRequest.is_empty_request bootstrap_da ≡ true)
unfolding EmptyClientRequest.from_packet EmptyClientRequest.empty_client_request command_of
from_packet_lem_example =
    EmptyClientRequest.from_packet_lem (record { command = 0xda; payload = [] })
      (record { command = bootstrap_da }) refl

decode-encode_example :
    decode session_request_kind (0 ∷ 2 ∷ 104 ∷ 105 ∷ 0 ∷ 5 ∷ 108 ∷ 111 ∷ 99 ∷ 97 ∷ 108 ∷ 1 ∷ [])
    ≡ ok (record {
      field_from_control38 = 104 ∷ 105 ∷ [];
      field_from_control30 = 108 ∷ 111 ∷ 99 ∷ 97 ∷ 108 ∷ [];
      mode = pos 1;
    })
unfolding encode decode ClientSessionRequest.encode_payload write_u8 write_u16 write_u32
    write_string16 write_bytes validate_uint utf8_encode is_scalar encode_char to_bytes
decode-encode_example =
    decode-encode session_request_kind
      (record {
        field_from_control38 = 104 ∷ 105 ∷ [];
        field_from_control30 = 108 ∷ 111 ∷ 99 ∷ 97 ∷ 108 ∷ [];
        mode = pos 1;
      })
      (0 ∷ 2 ∷ 104 ∷ 105 ∷ 0 ∷ 5 ∷ 108 ∷ 111 ∷ 99 ∷ 97 ∷ 108 ∷ 1 ∷ []) refl
