-- ===== src/Session.antt =====
-- server/session.py: the state machine of one connection. Methods change the session and may raise;
-- the session they leave is kept in both cases. `SessionOutcome()` is `silent`.
pub mod Handlers
pub mod Requests
pub mod Replies
pub mod Steps
pub mod Once
pub mod Areas
pub mod Progress
pub mod Login
mod Runs
use army.Common.{ℕ, Bool, true, false, not, ◌&&◌, ◌||◌, Option, none, some, List, [], ◌∷◌, ◌++◌}
use army.Common.{◌==◌, if◌then◌else◌}
use army.Common.Int.{ℤ, pos, eq_ℤ}
use army.Exec.{
  Error, Result, ok, err, decode_error, session_protocol_error, Exec, pure, raise, lift,
}
use army.Exec.{gets, raise_if, ◌>>=◌, ◌>>◌}
use army.Transform.{ByteTransform, from_seed}
use army.Framing.{Packet}
use army.Messages.Command.{
  Command, number, unknown_07, post_reset_status, client_text_72, transport_sync, client_u32_b2,
  client_session, screen_bootstrap, client_selection, bootstrap_da, bootstrap_ready, bootstrap_e0,
  bootstrap_e1, area, handshake, prelogin_status,
}
use army.Messages.EmptyClientRequest
use army.Messages.HandshakeResponse
use army.Messages.ClientSessionRequest
use army.Messages.ClientSessionRequest.{ClientSessionRequest}
use army.Messages.ClientTransportSync0
use army.Messages.ClientTransportSync0.{ClientTransportSync0}
use army.Messages.ClientPostResetStatus
use army.Messages.ClientPostResetStatus.{ClientPostResetStatus}
use army.Messages.ClientPrelogin72
use army.Messages.ClientPrelogin72.{ClientPrelogin72}
use army.Messages.ClientU32B2
use army.Messages.ClientU32B2.{ClientU32B2}
use army.Messages.ClientC6Selection
use army.Messages.ClientC6Selection.{ClientC6Selection}
use army.Messages.ClientAreaRequest
use army.Messages.ClientAreaRequest.{ClientAreaRequest}
use army.Messages.ServerTransportReset2
use army.Messages.ServerPreloginStatus
use army.Messages.ServerSessionResponse
use army.Messages.ServerSessionResponse.{ServerSessionResponse}
use army.Messages.ServerAreaList
use army.Messages.ScreenBootstrapResponse
use army.Messages.BootstrapVersions
use army.Messages.BootstrapDaResponse
use army.Messages.BootstrapE1Response
use army.Messages.BootstrapE0EmptyResponse

pub data SessionState : Type 0 where
  await_client_e5 await_initial_bb bootstrap account_panel_ready : SessionState

pub record SessionOutcome : Type 0 where
  pub outbound : List Packet
  pub enable_transform : Option ByteTransform

abbrev pub sending : List Packet → SessionOutcome
sending packets = record { outbound = packets; enable_transform = none }

abbrev pub silent : SessionOutcome
silent = sending []

pub record LoginSession : Type 0 where
  pub state : SessionState
  pub experimental_splash_revision : Option ℤ
  pub splash_transition_sent : Bool
  pub experimental_area_push : Bool
  pub area_push_sent : Bool

-- `_SEED`, `_SHIFT`, `_LOCAL_TEXT` ("local") and `_VERSION`
abbrev pub seed : List ℕ
seed = 0x00 ∷ []

abbrev pub shift : ℤ
shift = pos 0

abbrev pub local_text : List ℕ
local_text = 0x6c ∷ 0x6f ∷ 0x63 ∷ 0x61 ∷ 0x6c ∷ []

abbrev pub version : ℤ
version = pos 2

unfoldable pub login_session : Option ℤ → Bool → LoginSession
login_session revision area_push = record {
  state = await_client_e5;
  experimental_splash_revision = revision;
  splash_transition_sent = false;
  experimental_area_push = area_push;
  area_push_sent = false;
}

abbrev pub Session : Type 0 → Type 0
Session A = Exec LoginSession A

unfoldable pub set_state : SessionState → Session (Unit {0})
set_state state s = (ok tt, record s { state = state })

-- `except DecodeError as exc: raise SessionProtocolError`
unfoldable pub or_session_error {ℓ} : {A : Type ℓ} → Result A → Result A
or_session_error (ok a) = ok a
or_session_error (err decode_error) = err session_protocol_error
or_session_error (err e) = err e

-- `packet.command == command`
unfoldable pub has_command : Packet → Command → Bool
has_command p c = p.command == number c

unfoldable pub decode_empty : Packet → Command → Session (Unit {0})
decode_empty p c = do
  raise_if (not (has_command p c)) session_protocol_error
  lift (or_session_error (EmptyClientRequest.from_packet p))
  pure tt

unfoldable pub decode_session_request : Packet → Session ClientSessionRequest
decode_session_request p = do
  raise_if (not (has_command p client_session)) session_protocol_error
  request ← lift (or_session_error (ClientSessionRequest.decode_payload p.payload))
  raise_if (not (eq_ℤ request.mode (pos 0) || eq_ℤ request.mode (pos 1))) session_protocol_error
  pure request

unfoldable pub decode_transport_sync : Packet → Session ClientTransportSync0
decode_transport_sync p = lift (or_session_error (ClientTransportSync0.decode_payload p.payload))

unfoldable pub decode_post_reset_status : Packet → Session ClientPostResetStatus
decode_post_reset_status p =
    lift (or_session_error (ClientPostResetStatus.decode_payload p.payload))

unfoldable pub decode_client_prelogin72 : Packet → Session ClientPrelogin72
decode_client_prelogin72 p = lift (or_session_error (ClientPrelogin72.decode_payload p.payload))

unfoldable pub decode_client_u32_b2 : Packet → Session ClientU32B2
decode_client_u32_b2 p = lift (or_session_error (ClientU32B2.decode_payload p.payload))

unfoldable pub decode_client_c6_selection : Packet → Session ClientC6Selection
decode_client_c6_selection p = lift (or_session_error (ClientC6Selection.decode_payload p.payload))

unfoldable pub decode_client_area : Packet → Session ClientAreaRequest
decode_client_area p = lift (or_session_error (ClientAreaRequest.decode_payload p.payload))

-- One packet, which its message makes.
unfoldable pub reply : Result Packet → Session SessionOutcome
reply r = do p ← lift r; pure (sending (p ∷ []))

unfoldable pub status_reply : Session SessionOutcome
status_reply = reply (ServerPreloginStatus.to_packet (record { value = pos 1 }))

unfoldable pub session_response : ServerSessionResponse
session_response = record {
  list_for_mode1 = local_text;
  raw_for_mode1 = local_text;
  list_for_mode0 = local_text;
  raw_for_mode0 = local_text;
}

unfoldable pub area_push_if_enabled : Session (List Packet)
area_push_if_enabled s =
    if not s.experimental_area_push || s.area_push_sent
    then (ok [], s)
    else (do
      λ s. (ok (tt {0}), record s { area_push_sent = true })
      p ← lift (ServerAreaList.to_packet ServerAreaList.default_list)
      pure (p ∷ []))
        s

-- The transition to the splash screen, once, if a revision is configured.
unfoldable pub splash_transition : Option ℤ → Bool → List Packet → Session (List Packet)
splash_transition (some revision) false responses = do
  p ← lift (ScreenBootstrapResponse.to_packet (record { revision = revision; text = [] }))
  λ s. (ok (tt {0}), record s { splash_transition_sent = true })
  pure (responses ++ p ∷ [])
splash_transition _ _ responses = pure responses

unfoldable pub initial_bootstrap_responses : Session (List Packet)
initial_bootstrap_responses = do
  response ← lift (ServerSessionResponse.to_packet session_response)
  versions ← lift (
      BootstrapVersions.to_packet
        (record { e1_version = version; e0_version = version; da_version = version }))
  s ← gets (λ s. s)
  splash_transition s.experimental_splash_revision s.splash_transition_sent
      (response ∷ versions ∷ [])

unfoldable pub require_revision : Option ℤ → Session (Unit {0})
require_revision none = raise session_protocol_error
require_revision (some revision) = pure tt

unfoldable pub decode_experimental_screen_request : Packet → Session (Unit {0})
decode_experimental_screen_request p = do
  revision ← gets (λ s. s.experimental_splash_revision)
  require_revision revision
  decode_empty p screen_bootstrap
