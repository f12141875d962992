-- ===== src/Session/Runs.antt =====
-- The theorems of `LoginSession` at a short login.
use army.Common.{◌+◌, ◌≤◌, ◌≡◌, refl, true, false, some, [], ◌∷◌}
use army.Common.Int.{pos}
use army.Exec.{ok, err, session_protocol_error}
use army.Framing.{Packet}
use army.Messages.Command.{number, area, screen_bootstrap, command_of}
use army.Messages.EmptyClientRequest
use army.Session.{
  LoginSession, login_session, decode_empty, has_command, or_session_error, set_state,
}
use army.Session.Handlers.{handle, handle_in, handle_e5}
use army.Session.Replies.{handshake_packet, handshake-eq, local_transform, local-eq}
use army.Session.Steps.{Step, revision_fits}
use army.Session.Steps.Handled.States.{handle-Step}
use army.Common.{◌++◌}
use army.Bytes.{to_bytes}
use army.Utf8.{utf8_encode}
use army.Primitives.{write_u8, write_string16, validate_uint}
use army.Messages.ClientSessionRequest
use army.Session.{account_panel_ready}
use army.Session.Replies.{reply_packet, response, versions}
use army.Session.Steps.{splash, splashed, push, pushed}
use army.Session.Steps.Handled.{fields}
use army.Session.Login.{handle_all-login}
use army.Session.Once.{handle_all, count, bit, handle_all-splash}
use army.Session.Areas.{handle_all-areas}
use army.Session.Progress.{rank, handle-rank, handle-refused, handle-transform, is_waiting}

abbrev hello : Packet
hello = record { command = 0xe5; payload = [] }

abbrev request : Packet
request = record { command = 0xbb; payload = 0 ∷ 0 ∷ 0 ∷ 0 ∷ 1 ∷ [] }

abbrev panel : Packet
panel = record { command = 0xdb; payload = [] }

abbrev areas_asked : Packet
areas_asked = record { command = 0xe4; payload = 0 ∷ [] }

abbrev fresh : LoginSession
fresh = login_session (some (pos 3)) true

handle-Step_example : Step hello fresh (handle hello fresh).0 (handle hello fresh).1
unfolding revision_fits login_session
handle-Step_example = handle-Step hello fresh refl

handle_all-splash_example :
    count screen_bootstrap (handle_all (hello ∷ request ∷ request ∷ []) fresh).0
      + bit fresh.splash_transition_sent
    ≡ bit (handle_all (hello ∷ request ∷ request ∷ []) fresh).1.splash_transition_sent
unfolding revision_fits login_session
handle_all-splash_example = handle_all-splash (hello ∷ request ∷ request ∷ []) fresh refl

handle_all-areas_example :
    count area (handle_all (hello ∷ request ∷ panel ∷ areas_asked ∷ []) fresh).0
      + bit fresh.area_push_sent
    ≤ count area (hello ∷ request ∷ panel ∷ areas_asked ∷ [])
      + bit (handle_all (hello ∷ request ∷ panel ∷ areas_asked ∷ []) fresh).1.area_push_sent
unfolding revision_fits login_session
handle_all-areas_example = handle_all-areas (hello ∷ request ∷ panel ∷ areas_asked ∷ []) fresh refl

handle-rank_example : rank fresh.state ≤ rank (handle hello fresh).1.state
unfolding revision_fits login_session
handle-rank_example = handle-rank hello fresh refl

-- The first packet must be the handshake.
early_request : (handle request fresh).0 ≡ err session_protocol_error
unfolding handle handle_in handle_e5 login_session decode_empty has_command number
early_request = refl

handle-refused_example :
    (session_protocol_error ≡ session_protocol_error) × ((handle request fresh).1 ≡ fresh)
unfolding revision_fits login_session
handle-refused_example = handle-refused request fresh session_protocol_error refl early_request

greeted_run :
    (handle hello fresh).0
    ≡ ok (record { outbound = handshake_packet ∷ []; enable_transform = some local_transform })
unfolding handle handle_in handle_e5 login_session decode_empty has_command number or_session_error
    set_state command_of EmptyClientRequest.from_packet EmptyClientRequest.empty_client_request
greeted_run = rw (local-eq, handshake-eq) refl

handle-transform_example :
    (true ≡ is_waiting fresh.state) × (is_waiting (handle hello fresh).1.state ≡ false)
unfolding revision_fits login_session
handle-transform_example =
    handle-transform hello fresh
      (record { outbound = handshake_packet ∷ []; enable_transform = some local_transform }) refl
      greeted_run

handle_all-login_example : handle_all (hello ∷ request ∷ panel ∷ []) fresh ≡ (
  handshake_packet
      ∷ reply_packet response
      ∷ reply_packet versions
      ∷ (splash (some (pos 3)) false ++ push true false),
  fields account_panel_ready
      (some (pos 3))
      (splashed (some (pos 3)) false)
      true
      (pushed true false),
)
unfolding revision_fits ClientSessionRequest.encode_payload write_u8 write_string16 validate_uint
    utf8_encode to_bytes
handle_all-login_example =
    handle_all-login (some (pos 3)) true
      (record { field_from_control38 = []; field_from_control30 = []; mode = pos 1 })
      (0 ∷ 0 ∷ 0 ∷ 0 ∷ 1 ∷ []) refl refl refl
