-- ===== src/App/Connection/Packets.antt =====
-- server/app.py: what one packet adds to what has been written to the client.
use army.Common.{
  ◌≡◌, refl, sym, ap, ◌∙◌, Bool, true, false, Option, none, some, List, [], ◌∷◌, ◌++◌, append_assoc,
  append-nil, All, All-append, ℕ, length,
}
use army.Exec.{Result, ok}
use army.Framing.{
  Packet, FrameStreamDecoder, encode_frame, server_to_client, uses_length32, length_width,
}
use army.Framing.Parse.{after}
use army.Framing.RoundTrip.{encode_frame-eq, behind_frame}
use army.Framing.Stream.{encode_frames, feed-encode_frames, encode_frames-append}
use army.Transform.{TransformCursor}
use army.Session.{
  SessionState, await_client_e5, await_initial_bb, bootstrap, account_panel_ready, LoginSession,
  SessionOutcome, sending,
}
use army.Session.Handlers.{handle}
use army.Session.Replies.{
  Reply, response, versions, reply_packet, handshake_packet, local_transform,
}
use army.Session.Steps.{
  answers, splash, push, Step, refused, greeted, heard, answered, entered, readied,
}
use army.Session.Steps.Handled.States.{handle-Step}
use army.App.{
  Client, is_some, handle_session, handle_packet, write_packets, enable_transform, set_transform,
}
use army.App.Peer.{wrote, write_packets-encode_frames}
use army.App.Valid.{is_open, IsClient}
use army.App.Valid.Packets.{deliver, early_open, moved-IsClient}
use army.App.Connection.{
  Short, first_cursor, handshake_bytes, HasSent, Sent, reply-Short, handshake-Short, splash-Short,
  push-Short,
}

open_Sent : (c : Client) → is_open c.session.state ≡ true → HasSent c → Sent c
open_Sent c e sent = record { waiting = λ closed. absurd (cc (e, closed)); opened = λ h. sent }

-- Packets behind the handshake.
pub write-Sent :
    (ps : List Packet) (c : Client)
    → IsClient c
    → HasSent c
    → All Short ps
    → is_open c.session.state ≡ true
    → Sent (write_packets ps c).1
write-Sent ps c v sent short e =
    let d : FrameStreamDecoder = record {
      direction = server_to_client;
      cursor = c.outbound_cursor;
      max_payload_bytes = 65535;
      buffer = [];
    } in
    let (bs, after, encoded, f) = feed-encode_frames ps d short v.outbound_valid in
    rw (write_packets-encode_frames ps c bs after encoded) (
      open_Sent (wrote bs after c) e (record {
        packets = sent.packets ++ ps;
        bytes = sent.bytes ++ bs;
        short = All-append Short sent.packets ps sent.short short;
        encoded =
            encode_frames-append server_to_client ps bs c.outbound_cursor after sent.packets
              sent.bytes first_cursor sent.encoded encoded;
        written = ap (λ t. t ++ bs) sent.written ∙ append_assoc handshake_bytes sent.bytes bs;
      }))

deliver-Sent :
    (ps : List Packet) (c : Client)
    → IsClient c
    → HasSent c
    → All Short ps
    → is_open c.session.state ≡ true
    → Sent (deliver (ok (sending ps)) c).1
unfolding enable_transform
deliver-Sent ps c v sent short e =
    let d : FrameStreamDecoder = record {
      direction = server_to_client;
      cursor = c.outbound_cursor;
      max_payload_bytes = 65535;
      buffer = [];
    } in
    let (bs, after, encoded, f) = feed-encode_frames ps d short v.outbound_valid in
    rw (write_packets-encode_frames ps c bs after encoded) (
      open_Sent (wrote bs after c) e (record {
        packets = sent.packets ++ ps;
        bytes = sent.bytes ++ bs;
        short = All-append Short sent.packets ps sent.short short;
        encoded =
            encode_frames-append server_to_client ps bs c.outbound_cursor after sent.packets
              sent.bytes first_cursor sent.encoded encoded;
        written = ap (λ t. t ++ bs) sent.written ∙ append_assoc handshake_bytes sent.bytes bs;
      }))

no_frames : encode_frames [] server_to_client first_cursor ≡ (ok [], first_cursor)
unfolding encode_frames
no_frames = refl

after-none : (length32 : Bool) (n : ℕ) → after length32 n none ≡ none
after-none true n = refl
after-none false n = refl

pub handshake_frame :
    encode_frame handshake_packet server_to_client none ≡ (ok handshake_bytes, none)
unfolding handshake_bytes
handshake_frame =
    let length32 : Bool = uses_length32 handshake_packet.command server_to_client in
    let s : Short handshake_packet = handshake-Short in
    let still : behind_frame length32 handshake_packet none ≡ none =
      ap (after length32 (length handshake_packet.payload))
        (after-none length32 (length_width length32))
      ∙ after-none length32 (length handshake_packet.payload) in
    encode_frame-eq handshake_packet s.byte s.bytes server_to_client none tt s.sendable
    ∙ ap (λ (k : Option TransformCursor). (ok handshake_bytes, k)) still

handshake_frames :
    encode_frames (handshake_packet ∷ []) server_to_client none ≡ (ok handshake_bytes, none)
unfolding encode_frames
handshake_frames = rw (handshake_frame, append-nil) refl

-- The answer to the handshake, in the clear.
greet-Sent :
    (c : Client)
    → IsClient c
    → Sent c
    → c.session.state ≡ await_client_e5
    → Sent
        (deliver
          (ok
            (record { outbound = handshake_packet ∷ []; enable_transform = some local_transform }))
          (record c { session = record c.session { state = await_initial_bb } })).1
unfolding enable_transform set_transform is_open
greet-Sent c v sent e =
    let closed : is_open c.session.state ≡ false = ap is_open e in
    let s : LoginSession = record c.session { state = await_initial_bb } in
    let c1 : Client = record c { session = s } in
    let off : c.outbound_cursor ≡ none = no_cursor c.outbound_cursor (v.outbound_open ∙ closed) in
    let inbound_off : is_some c.decoder.cursor ≡ false = v.inbound_open ∙ closed in
    let encoded : encode_frames (handshake_packet ∷ []) server_to_client c1.outbound_cursor
        ≡ (ok handshake_bytes, none) =
      rw off handshake_frames in
    rw
      (
        write_packets-encode_frames (handshake_packet ∷ []) c1 handshake_bytes none encoded,
        inbound_off,
      )
      (open_Sent _ refl (record {
        packets = [];
        bytes = [];
        short = tt;
        encoded = no_frames;
        written = rw (sent.waiting closed, append-nil) refl;
      }))
  where
    no_cursor : (k : Option TransformCursor) → is_some k ≡ false → k ≡ none
    no_cursor none h = refl
    no_cursor (some k) h = absurd (cc h)

silent_Sent : (c : Client) → Sent c → Sent (deliver (ok (sending [])) c).1
unfolding write_packets enable_transform
silent_Sent c sent = sent

answers_open : (st : SessionState) (x : Reply) → answers st x ≡ true → is_open st ≡ true
unfolding answers is_open
answers_open await_client_e5 x h = absurd (cc h)
answers_open await_initial_bb x h = refl
answers_open bootstrap x h = refl
answers_open account_panel_ready x h = refl

moved-HasSent : (c : Client) (s : LoginSession) → HasSent c → HasSent (record c { session = s })
moved-HasSent c s sent = record {
  packets = sent.packets;
  bytes = sent.bytes;
  short = sent.short;
  encoded = sent.encoded;
  written = sent.written;
}

Step-Sent :
    (p : Packet) (c : Client) (r : Result SessionOutcome) (s : LoginSession)
    → IsClient c
    → Sent c
    → Step p c.session r s
    → Sent (deliver r (record c { session = s })).1
unfolding is_open
Step-Sent p c r s v sent (refused er es) = rw (er, es) sent
Step-Sent p c r s v sent (greeted st n er es) = rw (er, es) (greet-Sent c v sent st)
Step-Sent p c r s v sent (heard x n h er es) = rw (er, es) (silent_Sent c sent)
Step-Sent p c r s v sent (answered x n h er es) =
    let opened : is_open c.session.state ≡ true = answers_open c.session.state x h in
    rw (er, es)
      (deliver-Sent (reply_packet x ∷ []) c v (sent.opened opened) (reply-Short x, tt) opened)
Step-Sent p c r s v sent (entered n early er es) =
    let opened : is_open c.session.state ≡ true = early_open c.session.state early in
    rw (er, es)
      (deliver-Sent
        (reply_packet response
          ∷ reply_packet versions
          ∷ splash c.session.experimental_splash_revision c.session.splash_transition_sent)
        (record c { session = _ }) (moved-IsClient c _ v (sym opened) refl)
        (moved-HasSent c _ (sent.opened opened))
        (
          reply-Short response,
          (
            reply-Short versions,
            splash-Short c.session.experimental_splash_revision c.session.splash_transition_sent
                v.fits,
          ),
        )
        refl)
Step-Sent p c r s v sent (readied n early er es) =
    let opened : is_open c.session.state ≡ true = early_open c.session.state early in
    rw (er, es)
      (deliver-Sent (push c.session.experimental_area_push c.session.area_push_sent)
        (record c { session = _ }) (moved-IsClient c _ v (sym opened) refl)
        (moved-HasSent c _ (sent.opened opened))
        (push-Short c.session.experimental_area_push c.session.area_push_sent) refl)

pub handle_packet-Sent :
    (p : Packet) (c : Client) → IsClient c → Sent c → Sent (handle_packet p c).1
unfolding handle_packet handle_session
handle_packet-Sent p c v sent =
    Step-Sent p c (handle p c.session).0 (handle p c.session).1 v sent
      (handle-Step p c.session v.fits)
