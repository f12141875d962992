-- ===== src/Messages/Payloads.antt =====
-- messages.py: the messages whose payloads are read back exactly, taken together. A payload carries no
-- tag; which class reads it is known from the command and the direction of its packet.
use army.Common.{ℕ, ◌≡◌, List}
use mathlib.Core.Path.{subst}
use army.Exec.{Result, ok, ok-injective}
use army.Messages.ScreenBootstrapResponse
use army.Messages.ScreenBootstrapResponse.{ScreenBootstrapResponse}
use army.Messages.HandshakeResponse
use army.Messages.HandshakeResponse.{HandshakeResponse}
use army.Messages.ClientSessionRequest
use army.Messages.ClientSessionRequest.{ClientSessionRequest}
use army.Messages.ClientTransportSync0
use army.Messages.ClientTransportSync0.{ClientTransportSync0}
use army.Messages.ScreenResourceItemResponse
use army.Messages.ScreenResourceItemResponse.{ScreenResourceItemResponse}
use army.Messages.BootstrapE1Response
use army.Messages.BootstrapE1Response.{BootstrapE1Response}
use army.Messages.BootstrapDaResponse
use army.Messages.BootstrapDaResponse.{BootstrapDaResponse}
use army.Messages.ClientC6Selection
use army.Messages.ClientC6Selection.{ClientC6Selection}
use army.Messages.ScreenResourceManifestResponse
use army.Messages.ScreenResourceManifestResponse.{ScreenResourceManifestResponse}
use army.Messages.ClientPrelogin72
use army.Messages.ClientPrelogin72.{ClientPrelogin72}
use army.Messages.BootstrapE0EmptyResponse
use army.Messages.BootstrapE0EmptyResponse.{BootstrapE0EmptyResponse}
use army.Messages.ServerSessionResponse
use army.Messages.ServerSessionResponse.{ServerSessionResponse}
use army.Messages.ClientAreaRequest
use army.Messages.ClientAreaRequest.{ClientAreaRequest}
use army.Messages.BootstrapVersions
use army.Messages.BootstrapVersions.{BootstrapVersions}
use army.Messages.ServerTransportReset2
use army.Messages.ServerTransportReset2.{ServerTransportReset2}
use army.Messages.ClientPostResetStatus
use army.Messages.ClientPostResetStatus.{ClientPostResetStatus}
use army.Messages.ServerPreloginStatus
use army.Messages.ServerPreloginStatus.{ServerPreloginStatus}
use army.Messages.ClientU32B2
use army.Messages.ClientU32B2.{ClientU32B2}

-- The classes.
pub data Kind : Type 0 where
  screen_kind : Kind
  handshake_kind : Kind
  session_request_kind : Kind
  transport_sync_kind : Kind
  item_kind : Kind
  e1_kind : Kind
  da_kind : Kind
  selection_kind : Kind
  manifest_kind : Kind
  prelogin72_kind : Kind
  e0_kind : Kind
  session_response_kind : Kind
  area_request_kind : Kind
  versions_kind : Kind
  reset2_kind : Kind
  post_reset_status_kind : Kind
  prelogin_status_kind : Kind
  u32_b2_kind : Kind

-- The values of a class.
abbrev pub MessageOf : Kind → Type 0
MessageOf screen_kind = ScreenBootstrapResponse
MessageOf handshake_kind = HandshakeResponse
MessageOf session_request_kind = ClientSessionRequest
MessageOf transport_sync_kind = ClientTransportSync0
MessageOf item_kind = ScreenResourceItemResponse
MessageOf e1_kind = BootstrapE1Response
MessageOf da_kind = BootstrapDaResponse
MessageOf selection_kind = ClientC6Selection
MessageOf manifest_kind = ScreenResourceManifestResponse
MessageOf prelogin72_kind = ClientPrelogin72
MessageOf e0_kind = BootstrapE0EmptyResponse
MessageOf session_response_kind = ServerSessionResponse
MessageOf area_request_kind = ClientAreaRequest
MessageOf versions_kind = BootstrapVersions
MessageOf reset2_kind = ServerTransportReset2
MessageOf post_reset_status_kind = ClientPostResetStatus
MessageOf prelogin_status_kind = ServerPreloginStatus
MessageOf u32_b2_kind = ClientU32B2

-- `message.encode_payload()`
unfoldable pub encode : (k : Kind) → MessageOf k → Result (List ℕ)
encode screen_kind m = ScreenBootstrapResponse.encode_payload m
encode handshake_kind m = HandshakeResponse.encode_payload m
encode session_request_kind m = ClientSessionRequest.encode_payload m
encode transport_sync_kind m = ClientTransportSync0.encode_payload m
encode item_kind m = ScreenResourceItemResponse.encode_payload m
encode e1_kind m = BootstrapE1Response.encode_payload m
encode da_kind m = BootstrapDaResponse.encode_payload m
encode selection_kind m = ClientC6Selection.encode_payload m
encode manifest_kind m = ScreenResourceManifestResponse.encode_payload m
encode prelogin72_kind m = ClientPrelogin72.encode_payload m
encode e0_kind m = BootstrapE0EmptyResponse.encode_payload m
encode session_response_kind m = ServerSessionResponse.encode_payload m
encode area_request_kind m = ClientAreaRequest.encode_payload m
encode versions_kind m = BootstrapVersions.encode_payload m
encode reset2_kind m = ok (ServerTransportReset2.encode_payload m)
encode post_reset_status_kind m = ClientPostResetStatus.encode_payload m
encode prelogin_status_kind m = ServerPreloginStatus.encode_payload m
encode u32_b2_kind m = ClientU32B2.encode_payload m

-- `Class.decode_payload(payload)`
unfoldable pub decode : (k : Kind) → List ℕ → Result (MessageOf k)
decode screen_kind bs = ScreenBootstrapResponse.decode_payload bs
decode handshake_kind bs = HandshakeResponse.decode_payload bs
decode session_request_kind bs = ClientSessionRequest.decode_payload bs
decode transport_sync_kind bs = ClientTransportSync0.decode_payload bs
decode item_kind bs = ScreenResourceItemResponse.decode_payload bs
decode e1_kind bs = BootstrapE1Response.decode_payload bs
decode da_kind bs = BootstrapDaResponse.decode_payload bs
decode selection_kind bs = ClientC6Selection.decode_payload bs
decode manifest_kind bs = ScreenResourceManifestResponse.decode_payload bs
decode prelogin72_kind bs = ClientPrelogin72.decode_payload bs
decode e0_kind bs = BootstrapE0EmptyResponse.decode_payload bs
decode session_response_kind bs = ServerSessionResponse.decode_payload bs
decode area_request_kind bs = ClientAreaRequest.decode_payload bs
decode versions_kind bs = BootstrapVersions.decode_payload bs
decode reset2_kind bs = ServerTransportReset2.decode_payload bs
decode post_reset_status_kind bs = ClientPostResetStatus.decode_payload bs
decode prelogin_status_kind bs = ServerPreloginStatus.decode_payload bs
decode u32_b2_kind bs = ClientU32B2.decode_payload bs

-- Of each of eighteen classes, a message that encodes, its fields being in their ranges, is what the
-- same class decodes from the payload. They are the classes with `encode_payload` and `decode_payload`,
-- but for ServerAreaList, whose payload leaves something off.
pub decode-encode :
    (k : Kind) (m : MessageOf k) (bs : List ℕ) → encode k m ≡ ok bs → decode k bs ≡ ok m
unfolding encode decode
decode-encode screen_kind m bs h = ScreenBootstrapResponse.decode-encode_screen m bs h
decode-encode handshake_kind m bs h = HandshakeResponse.decode-encode_handshake m bs h
decode-encode session_request_kind m bs h =
    ClientSessionRequest.decode-encode_session_request m bs h
decode-encode transport_sync_kind m bs h = ClientTransportSync0.decode-encode_transport_sync m bs h
decode-encode item_kind m bs h = ScreenResourceItemResponse.decode-encode_item m bs h
decode-encode e1_kind m bs h = BootstrapE1Response.decode-encode_e1 m bs h
decode-encode da_kind m bs h = BootstrapDaResponse.decode-encode_da m bs h
decode-encode selection_kind m bs h = ClientC6Selection.decode-encode_selection m bs h
decode-encode manifest_kind m bs h = ScreenResourceManifestResponse.decode-encode_manifest m bs h
decode-encode prelogin72_kind m bs h = ClientPrelogin72.decode-encode_prelogin72 m bs h
decode-encode e0_kind m bs h = BootstrapE0EmptyResponse.decode-encode_e0 m bs h
decode-encode session_response_kind m bs h =
    ServerSessionResponse.decode-encode_session_response m bs h
decode-encode area_request_kind m bs h = ClientAreaRequest.decode-encode_area_request m bs h
decode-encode versions_kind m bs h = BootstrapVersions.decode-encode_versions m bs h
decode-encode reset2_kind m bs h =
    let same : ServerTransportReset2.encode_payload m ≡ bs = ok-injective _ bs h in
    subst (λ (t : List ℕ). ServerTransportReset2.decode_payload t ≡ ok m) same
      (ServerTransportReset2.decode-encode_reset2 m)
decode-encode post_reset_status_kind m bs h =
    ClientPostResetStatus.decode-encode_post_reset_status m bs h
decode-encode prelogin_status_kind m bs h =
    ServerPreloginStatus.decode-encode_prelogin_status m bs h
decode-encode u32_b2_kind m bs h = ClientU32B2.decode-encode_u32_b2 m bs h
