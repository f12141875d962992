-- ===== src/Session/Steps.antt =====
-- server/session.py: the steps that `LoginSession.handle` can make, as a relation.
pub mod Handled
use army.Common.{ℕ, ◌≡◌, Bool, true, false, Option, none, some, List, [], ◌∷◌}
use army.Common.Int.{ℤ, pos, negsuc, within}
use army.Exec.{Result, ok, err, session_protocol_error}
use army.Framing.{Packet}
use army.Messages.Command.{
  Command, number, unknown_07, post_reset_status, client_text_72, transport_sync, client_u32_b2,
  client_session, screen_bootstrap, client_selection, bootstrap_da, bootstrap_ready, bootstrap_e0,
  bootstrap_e1, bootstrap_versions, area, handshake, prelogin_status,
}
use army.Session.{
  SessionState, await_client_e5, await_initial_bb, bootstrap, account_panel_ready, SessionOutcome,
  sending, silent, LoginSession,
}
use army.Session.Replies.{
  Reply, reset2, status, response, versions, areas, da, e1, e0, reply_packet, handshake_packet,
  local_transform, splash_packet,
}

-- The revision is what the configuration admits.
unfoldable pub revision_fits : Option ℤ → Bool
revision_fits none = true
revision_fits (some v) = within (negsuc 127) (pos 127) v

-- The commands that a state accepts without an answer.
unfoldable pub hears : SessionState → Command → Bool
hears await_initial_bb post_reset_status = true
hears await_initial_bb client_text_72 = true
hears bootstrap post_reset_status = true
hears bootstrap client_text_72 = true
hears bootstrap screen_bootstrap = true
hears bootstrap client_u32_b2 = true
hears bootstrap client_selection = true
hears bootstrap unknown_07 = true
hears account_panel_ready post_reset_status = true
hears account_panel_ready client_text_72 = true
hears account_panel_ready screen_bootstrap = true
hears account_panel_ready client_selection = true
hears account_panel_ready unknown_07 = true
hears account_panel_ready bootstrap_ready = true
hears _ _ = false

-- The request that a reply answers.
unfoldable pub request_of : Reply → Command
request_of reset2 = transport_sync
request_of status = prelogin_status
request_of response = client_session
request_of versions = bootstrap_versions
request_of areas = area
request_of da = bootstrap_da
request_of e1 = bootstrap_e1
request_of e0 = bootstrap_e0

-- The single replies of a state that stays as it is.
unfoldable pub answers : SessionState → Reply → Bool
answers await_initial_bb reset2 = true
answers await_initial_bb status = true
answers bootstrap status = true
answers bootstrap da = true
answers bootstrap e1 = true
answers bootstrap e0 = true
answers account_panel_ready status = true
answers account_panel_ready response = true
answers account_panel_ready areas = true
answers account_panel_ready da = true
answers account_panel_ready e1 = true
answers account_panel_ready e0 = true
answers _ _ = false

-- The states between the handshake and the account panel.
unfoldable pub is_early : SessionState → Bool
is_early await_initial_bb = true
is_early bootstrap = true
is_early _ = false

-- The splash transition that is still to be sent, and whether it has been sent then.
unfoldable pub splash : Option ℤ → Bool → List Packet
splash (some v) false = splash_packet v ∷ []
splash _ _ = []

unfoldable pub splashed : Option ℤ → Bool → Bool
splashed (some v) sent = true
splashed none sent = sent

-- The area list that is pushed once, if that is enabled, and whether it has been pushed then.
unfoldable pub push : Bool → Bool → List Packet
push true false = reply_packet areas ∷ []
push _ _ = []

unfoldable pub pushed : Bool → Bool → Bool
pushed true sent = true
pushed false sent = sent

-- `p` takes the session `s` to `s'`, with the result `r`.
pub data Step (p : Packet) (s : LoginSession) (r : Result SessionOutcome) (s' : LoginSession)
    : Type 0 where
  refused : r ≡ err session_protocol_error → s' ≡ s → Step p s r s'
  greeted :
      s.state ≡ await_client_e5
      → p.command ≡ number handshake
      → r
        ≡ ok (record { outbound = handshake_packet ∷ []; enable_transform = some local_transform })
      → s' ≡ record s { state = await_initial_bb }
      → Step p s r s'
  heard :
      (c : Command)
      → p.command ≡ number c
      → hears s.state c ≡ true
      → r ≡ ok silent
      → s' ≡ s
      → Step p s r s'
  answered :
      (x : Reply)
      → p.command ≡ number (request_of x)
      → answers s.state x ≡ true
      → r ≡ ok (sending (reply_packet x ∷ []))
      → s' ≡ s
      → Step p s r s'
  entered :
      p.command ≡ number client_session
      → is_early s.state ≡ true
      → r
        ≡ ok (
            sending (
              reply_packet response
              ∷ reply_packet versions
              ∷ splash s.experimental_splash_revision s.splash_transition_sent))
      → s' ≡ record s {
        state = bootstrap;
        splash_transition_sent = splashed s.experimental_splash_revision s.splash_transition_sent;
      }
      → Step p s r s'
  readied :
      p.command ≡ number bootstrap_ready
      → is_early s.state ≡ true
      → r ≡ ok (sending (push s.experimental_area_push s.area_push_sent))
      → s' ≡ record s {
        state = account_panel_ready;
        area_push_sent = pushed s.experimental_area_push s.area_push_sent;
      }
      → Step p s r s'
