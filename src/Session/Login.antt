-- ===== src/Session/Login.antt =====
-- server/session.py: the login of a client that sends its requests in order.
use army.Common.{
  ℕ, ◌≡◌, refl, Bool, true, false, ◌||◌, Option, some, List, [], ◌∷◌, ◌++◌, append-nil, ap,
}
use army.Common.Int.{ℤ, pos, eq_ℤ}
use army.Exec.{Result, ok}
use army.Framing.{Packet}
use army.Messages.Command.{number, command_of}
use army.Messages.EmptyClientRequest
use army.Messages.ClientSessionRequest
use army.Messages.ClientSessionRequest.{ClientSessionRequest, decode-encode_session_request}
use army.Session.{
  LoginSession, SessionOutcome, await_initial_bb, bootstrap, account_panel_ready, login_session,
  sending, decode_empty, decode_session_request, has_command, or_session_error, set_state,
}
use army.Session.Handlers.{
  handle, handle_in, handle_e5, handle_initial_bb, handle_bootstrap, become_ready,
}
use army.Session.Replies.{
  handshake_packet, handshake-eq, local_transform, local-eq, reply_packet, response, versions,
}
use army.Session.Steps.{revision_fits, splash, splashed, push, pushed}
use army.Session.Steps.Handled.{fields, bootstrap_responses, push-fields}
use army.Session.Once.{handle_all}

abbrev hello : Packet
hello = record { command = 0xe5; payload = [] }

abbrev panel : Packet
panel = record { command = 0xdb; payload = [] }

module _ (revision : Option ℤ) (area_push : Bool) where
  hello-eq : handle hello (login_session revision area_push) ≡ (
    ok (record { outbound = handshake_packet ∷ []; enable_transform = some local_transform }),
    fields await_initial_bb revision false area_push false,
  )
  unfolding handle handle_in handle_e5 login_session decode_empty has_command number
      or_session_error set_state command_of EmptyClientRequest.from_packet
      EmptyClientRequest.empty_client_request
  hello-eq = rw (local-eq, handshake-eq) refl

  panel-eq :
      (sent : Bool)
      → handle panel (fields bootstrap revision sent area_push false) ≡ (
        ok (sending (push area_push false)),
        fields account_panel_ready revision sent area_push (pushed area_push false),
      )
  unfolding handle handle_in handle_bootstrap become_ready decode_empty has_command number
      or_session_error set_state command_of EmptyClientRequest.from_packet
      EmptyClientRequest.empty_client_request
  panel-eq sent = rw (push-fields account_panel_ready revision sent area_push false) refl

  request-eq :
      (m : ClientSessionRequest) (bs : List ℕ)
      → revision_fits revision ≡ true
      → ClientSessionRequest.encode_payload m ≡ ok bs
      → (eq_ℤ m.mode (pos 0) || eq_ℤ m.mode (pos 1)) ≡ true
      → handle
          (record { command = 0xbb; payload = bs })
          (fields await_initial_bb revision false area_push false)
        ≡ (
          ok (sending (reply_packet response ∷ reply_packet versions ∷ splash revision false)),
          fields bootstrap revision (splashed revision false) area_push false,
        )
  unfolding handle handle_in handle_initial_bb decode_session_request has_command number
      or_session_error set_state
  request-eq m bs fits e mode =
      rw
        (
          decode-encode_session_request m bs e,
          mode,
          bootstrap_responses (fields bootstrap revision false area_push false) fits,
        )
        refl

accepted :
    (p : Packet) (ps : List Packet) (s s' : LoginSession) (o : SessionOutcome)
    → handle p s ≡ (ok o, s')
    → handle_all (p ∷ ps) s ≡ (o.outbound ++ (handle_all ps s').0, (handle_all ps s').1)
unfolding handle_all
accepted p ps s s' o e =
    let left : (handle p s).1 ≡ s' = ap (λ (t : Result SessionOutcome × LoginSession). t.1) e in
    rw (handle_all, e, left) refl

-- A login succeeds: with a splash revision that the configuration admits, a fresh session that gets
-- the empty handshake, any session request that encodes and has mode 0 or 1, and then the empty 0xDB
-- ends in the state of the account panel. It sends the handshake's answer, the session response, the
-- versions, then the splash transition if a revision is configured, and the area list if the push is
-- enabled, and the two flags record what was sent.
pub handle_all-login :
    (revision : Option ℤ) (area_push : Bool) (m : ClientSessionRequest) (bs : List ℕ)
    → revision_fits revision ≡ true
    → ClientSessionRequest.encode_payload m ≡ ok bs
    → (eq_ℤ m.mode (pos 0) || eq_ℤ m.mode (pos 1)) ≡ true
    → handle_all
        (hello ∷ record { command = 0xbb; payload = bs } ∷ panel ∷ [])
        (login_session revision area_push)
      ≡ (
        handshake_packet
            ∷ reply_packet response
            ∷ reply_packet versions
            ∷ (splash revision false ++ push area_push false),
        fields account_panel_ready revision
            (splashed revision false)
            area_push
            (pushed area_push false),
      )
unfolding handle_all
handle_all-login revision area_push m bs fits e mode =
    rw
      (
        accepted hello _ _ _ _ (hello-eq revision area_push),
        accepted (record { command = 0xbb; payload = bs }) _ _ _ _
            (request-eq revision area_push m bs fits e mode),
        accepted panel _ _ _ _ (panel-eq revision area_push (splashed revision false)),
        append-nil,
      )
      refl
