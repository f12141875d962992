-- ===== src/App/Valid/Packets.antt =====
-- server/app.py: one packet, from the session to the writer.
use army.Common.{◌≡◌, refl, sym, ap, ◌∙◌, true, false, some, List, [], ◌∷◌, All}
use army.Exec.{Result, ok, is_protocol_error, session_protocol_error, continue, ◌>>◌}
use army.Framing.{Packet}
use army.Framing.Sendable.{IsSendable}
use army.Transform.Valid.{cursor-IsCursor}
use army.Session.{
  SessionState, await_client_e5, await_initial_bb, bootstrap, account_panel_ready, LoginSession,
  SessionOutcome, sending,
}
use army.Session.Handlers.{handle}
use army.Session.Replies.{
  response, versions, reply_packet, reply-IsSendable, handshake_packet, handshake-IsSendable,
  local_transform, local-IsTransform,
}
use army.Session.Steps.{
  is_early, splash, push, Step, refused, greeted, heard, answered, entered, readied,
}
use army.Session.Steps.Handled.States.{handle-Step}
use army.App.{
  Client, App, is_some, handle_session, handle_packet, write_packets, enable_transform,
  set_transform,
}
use army.App.Writes.{write_packets-ok}
use army.App.Valid.{is_open, IsClient, Ends, ok-Ends, err-Ends, splash-All, push-All}

-- What is left of `handle_packet` behind the session's answer.
abbrev pub deliver : Result SessionOutcome → App (Unit {0})
deliver r =
    continue r
      (λ outcome. do write_packets outcome.outbound; enable_transform outcome.enable_transform)

-- Packets without a change of the transformation.
deliver-Ends :
    (ps : List Packet) (c : Client)
    → IsClient c
    → All IsSendable ps
    → Ends (deliver (ok (sending ps)) c)
unfolding enable_transform
deliver-Ends ps c v h =
    let (c', e, w) = write_packets-ok ps c h v.outbound_valid in
    rw e (
      ok-Ends c' (record {
        decoder_valid = rw w.decoder v.decoder_valid;
        outbound_valid = w.cursor_valid;
        outbound_open = rw w.session (w.cursor_kept ∙ v.outbound_open);
        inbound_open = rw (w.decoder, w.session) v.inbound_open;
        fits = rw w.session v.fits;
      }))

pub early_open : (st : SessionState) → is_early st ≡ true → is_open st ≡ true
unfolding is_early is_open
early_open await_client_e5 h = cc
early_open await_initial_bb h = refl
early_open bootstrap h = refl
early_open account_panel_ready h = refl

-- A session that has moved on behind the handshake.
pub moved-IsClient :
    (c : Client) (s : LoginSession)
    → IsClient c
    → is_open s.state ≡ is_open c.session.state
    → s.experimental_splash_revision ≡ c.session.experimental_splash_revision
    → IsClient (record c { session = s })
moved-IsClient c s v same revision = record {
  decoder_valid = v.decoder_valid;
  outbound_valid = v.outbound_valid;
  outbound_open = v.outbound_open ∙ sym same;
  inbound_open = v.inbound_open ∙ sym same;
  fits = rw revision v.fits;
}

-- The answer to the handshake turns the transformation on.
greet-Ends :
    (c : Client)
    → IsClient c
    → c.session.state ≡ await_client_e5
    → Ends (
        deliver
          (ok
            (record { outbound = handshake_packet ∷ []; enable_transform = some local_transform }))
          (record c { session = record c.session { state = await_initial_bb } }))
unfolding enable_transform set_transform is_open
greet-Ends c v e =
    let s : LoginSession = record c.session { state = await_initial_bb } in
    let (c', written, w) =
      write_packets-ok (handshake_packet ∷ []) (record c { session = s }) (handshake-IsSendable, tt)
        v.outbound_valid in
    let outbound_off : is_some c'.outbound_cursor ≡ false =
      w.cursor_kept ∙ v.outbound_open ∙ ap is_open e in
    let inbound_off : is_some c'.decoder.cursor ≡ false =
      rw w.decoder (v.inbound_open ∙ ap is_open e) in
    rw (written, inbound_off, outbound_off)
      (ok-Ends _ (record {
        decoder_valid = record {
          has_cursor = cursor-IsCursor local_transform local-IsTransform;
          bytes = rw w.decoder v.decoder_valid.bytes;
        };
        outbound_valid = cursor-IsCursor local_transform local-IsTransform;
        outbound_open = rw w.session refl;
        inbound_open = rw w.session refl;
        fits = rw w.session v.fits;
      }))

Step-Ends :
    (p : Packet) (c : Client) (r : Result SessionOutcome) (s : LoginSession)
    → IsClient c
    → Step p c.session r s
    → Ends (deliver r (record c { session = s }))
unfolding is_open is_protocol_error
Step-Ends p c r s v (refused er es) = rw (er, es) (err-Ends session_protocol_error c refl)
Step-Ends p c r s v (greeted st n er es) = rw (er, es) (greet-Ends c v st)
Step-Ends p c r s v (heard x n h er es) = rw (er, es) (deliver-Ends [] c v tt)
Step-Ends p c r s v (answered x n h er es) =
    rw (er, es) (deliver-Ends (reply_packet x ∷ []) c v (reply-IsSendable x, tt))
Step-Ends p c r s v (entered n early er es) =
    rw (er, es)
      (deliver-Ends
        (reply_packet response
          ∷ reply_packet versions
          ∷ splash c.session.experimental_splash_revision c.session.splash_transition_sent)
        (record c { session = _ })
        (moved-IsClient c _ v (sym (early_open c.session.state early)) refl)
        (
          reply-IsSendable response,
          (
            reply-IsSendable versions,
            splash-All c.session.experimental_splash_revision c.session.splash_transition_sent
                v.fits,
          ),
        ))
Step-Ends p c r s v (readied n early er es) =
    rw (er, es)
      (deliver-Ends (push c.session.experimental_area_push c.session.area_push_sent)
        (record c { session = _ })
        (moved-IsClient c _ v (sym (early_open c.session.state early)) refl)
        (push-All c.session.experimental_area_push c.session.area_push_sent))

-- A packet is answered, or refused by a protocol error.
pub handle_packet-Ends : (p : Packet) (c : Client) → IsClient c → Ends (handle_packet p c)
unfolding handle_packet handle_session
handle_packet-Ends p c v =
    Step-Ends p c (handle p c.session).0 (handle p c.session).1 v (handle-Step p c.session v.fits)
