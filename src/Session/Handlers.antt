-- ===== src/Session/Handlers.antt =====
-- server/session.py: the handlers of `LoginSession`, in the order of the code's tests. The error of
-- `_raise_unexpected` is `session_protocol_error`.
use army.Common.{[], ◌∷◌, ◌||◌, none, some, if◌then◌else◌}
use army.Exec.{Result, ok, err, session_protocol_error, value_error, pure, raise, lift, ◌>>=◌, ◌>>◌}
use army.Transform.{from_seed}
use army.Framing.{Packet}
use army.Messages.Command.{
  Command, command_of, unknown_07, post_reset_status, client_text_72, transport_sync, client_u32_b2,
  client_session, screen_bootstrap, client_selection, bootstrap_da, bootstrap_ready, bootstrap_e0,
  bootstrap_e1, area, handshake, prelogin_status,
}
use army.Messages.HandshakeResponse
use army.Messages.HandshakeResponse.{HandshakeResponse}
use army.Messages.ServerTransportReset2
use army.Messages.ServerTransportReset2.{server_transport_reset2}
use army.Messages.ServerSessionResponse
use army.Messages.ServerAreaList
use army.Messages.BootstrapDaResponse
use army.Messages.BootstrapE1Response
use army.Messages.BootstrapE0EmptyResponse
use army.Session.{
  SessionState, await_client_e5, await_initial_bb, bootstrap, account_panel_ready, SessionOutcome,
  sending, silent, seed, shift, local_text, version, Session, set_state, has_command, decode_empty,
  decode_session_request, decode_transport_sync, decode_post_reset_status, decode_client_prelogin72,
  decode_client_u32_b2, decode_client_c6_selection, decode_client_area, reply, status_reply,
  session_response, area_push_if_enabled, initial_bootstrap_responses,
  decode_experimental_screen_request,
}

abbrev pub handshake_response : HandshakeResponse
handshake_response = record { seed = seed; shift = shift; text = local_text }

unfoldable pub handle_e5 : Packet → Session SessionOutcome
handle_e5 p = do
  decode_empty p handshake
  transform ← lift (from_seed seed shift)
  set_state await_initial_bb
  response ← lift (HandshakeResponse.to_packet handshake_response)
  pure (record { outbound = response ∷ []; enable_transform = some transform })

-- `self._state = ACCOUNT_PANEL_READY; return SessionOutcome(self._area_push_if_enabled())`
unfoldable pub become_ready : Packet → Session SessionOutcome
become_ready p = do
  decode_empty p bootstrap_ready
  set_state account_panel_ready
  packets ← area_push_if_enabled
  pure (sending packets)

unfoldable pub prelogin_reply : Packet → Session SessionOutcome
prelogin_reply p = do decode_empty p prelogin_status; status_reply

unfoldable pub handle_initial_bb : Packet → Session SessionOutcome
handle_initial_bb p =
    if has_command p transport_sync
    then (do
      decode_transport_sync p
      reply (ServerTransportReset2.to_packet server_transport_reset2))
    else if has_command p post_reset_status
    then (do decode_post_reset_status p; pure silent)
    else if has_command p client_text_72
    then (do decode_client_prelogin72 p; pure silent)
    else if has_command p prelogin_status
    then prelogin_reply p
    else if has_command p bootstrap_ready
    then become_ready p
    else (do
      decode_session_request p
      set_state bootstrap
      packets ← initial_bootstrap_responses
      pure (sending packets))

unfoldable pub handle_bootstrap : Packet → Session SessionOutcome
handle_bootstrap p =
    if has_command p post_reset_status
    then (do decode_post_reset_status p; pure silent)
    else if has_command p client_text_72
    then (do decode_client_prelogin72 p; pure silent)
    else if has_command p prelogin_status
    then prelogin_reply p
    else if has_command p client_session
    then (do
      decode_session_request p
      packets ← initial_bootstrap_responses
      pure (sending packets))
    else if has_command p screen_bootstrap
    then (do decode_experimental_screen_request p; pure silent)
    else if has_command p client_u32_b2
    then (do decode_client_u32_b2 p; pure silent)
    else if has_command p client_selection
    then (do decode_client_c6_selection p; pure silent)
    else if has_command p unknown_07
    then (do decode_empty p unknown_07; pure silent)
    else if has_command p bootstrap_da
    then (do
      decode_empty p bootstrap_da
      reply (BootstrapDaResponse.to_packet (BootstrapDaResponse.empty version)))
    else if has_command p bootstrap_e1
    then (do
      decode_empty p bootstrap_e1
      reply (BootstrapE1Response.to_packet (BootstrapE1Response.empty version)))
    else if has_command p bootstrap_e0
    then (do
      decode_empty p bootstrap_e0
      reply (BootstrapE0EmptyResponse.to_packet (record { version = version })))
    else if has_command p bootstrap_ready
    then become_ready p
    else raise session_protocol_error

-- The response to a repeated request of the bootstrap.
unfoldable pub retry_response : Command → Result Packet
retry_response bootstrap_da = BootstrapDaResponse.to_packet (BootstrapDaResponse.empty version)
retry_response bootstrap_e1 = BootstrapE1Response.to_packet (BootstrapE1Response.empty version)
retry_response _ = BootstrapE0EmptyResponse.to_packet (record { version = version })

-- `Command(packet.command)` raises ValueError.
unfoldable pub known_command : Packet → Result Command
known_command p = elim (command_of p.command) [ none ↦ err value_error | some c ↦ ok c ]

unfoldable pub handle_bootstrap_retry : Packet → Session SessionOutcome
handle_bootstrap_retry p = do
  command ← lift (known_command p)
  decode_empty p command
  reply (retry_response command)

unfoldable pub handle_ready : Packet → Session SessionOutcome
handle_ready p =
    if has_command p post_reset_status
    then (do decode_post_reset_status p; pure silent)
    else if has_command p client_text_72
    then (do decode_client_prelogin72 p; pure silent)
    else if has_command p prelogin_status
    then prelogin_reply p
    else if has_command p client_session
    then (do decode_session_request p; reply (ServerSessionResponse.to_packet session_response))
    else if has_command p screen_bootstrap
    then (do decode_experimental_screen_request p; pure silent)
    else if has_command p client_selection
    then (do decode_client_c6_selection p; pure silent)
    else if has_command p area
    then (do decode_client_area p; reply (ServerAreaList.to_packet ServerAreaList.default_list))
    else if has_command p unknown_07 || has_command p bootstrap_ready
    then (do command ← lift (known_command p); decode_empty p command; pure silent)
    else if has_command p bootstrap_da || (has_command p bootstrap_e1 || has_command p bootstrap_e0)
    then handle_bootstrap_retry p
    else raise session_protocol_error

unfoldable pub handle_in : SessionState → Packet → Session SessionOutcome
handle_in await_client_e5 p = handle_e5 p
handle_in await_initial_bb p = handle_initial_bb p
handle_in bootstrap p = handle_bootstrap p
handle_in account_panel_ready p = handle_ready p

unfoldable pub handle : Packet → Session SessionOutcome
handle p s = handle_in s.state p s
