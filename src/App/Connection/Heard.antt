-- ===== src/App/Connection/Heard.antt =====
-- server/app.py: what a client makes of all that has been written to it, over a whole connection.
use army.Common.{
  ℕ, suc, ◌≡◌, refl, sym, ◌∙◌, arith, Bool, true, false, Option, none, some, List, [], ◌∷◌, ◌++◌,
  length, All, append-nil,
}
use mathlib.Core.Path.{subst}
use army.Common.Int.{ℤ, pos, negsuc}
use army.Bytes.{IsBytes}
use army.Exec.{Result, ok, ok-injective}
use army.Transform.{TransformCursor}
use army.Framing.{
  Packet, FrameStreamDecoder, server_to_client, feed, feed_loop, decode_one, frame_stream_decoder,
}
use army.Framing.RoundTrip.{decode_one-encode_frame}
use army.Framing.Stream.{frames, pair_ok}
use army.Session.Replies.{handshake_packet, local_transform, local-IsTransform}
use army.Session.Steps.{revision_fits}
use army.Session.{login_session}
use army.Transform.Valid.{cursor-IsCursor}
use army.App.{Client, serve, Event, new_client}
use army.App.Valid.{is_open}
use army.App.Valid.Runs.{AreBytes, new-IsClient}
use army.App.Connection.{Short, first_cursor, handshake_bytes, HasSent, Sent, handshake-Short}
use army.App.Connection.Packets.{handshake_frame}
use army.App.Connection.Loops.{serve-Sent}

-- The decoder of a client, with a cursor and a buffer.
abbrev pub listener : Option TransformCursor → List ℕ → FrameStreamDecoder
listener cursor buffer = record {
  direction = server_to_client;
  cursor = cursor;
  max_payload_bytes = 65535;
  buffer = buffer;
}

-- A client that reads the first frame in the clear and the others under the mask of the handshake gets
-- the answer to the handshake and the packets.
pub record Heard (written : List ℕ) (after : Option TransformCursor) : Type 0 where
  pub more : List ℕ
  pub packets : List Packet
  pub first :
      feed written (some 1) (listener none []) ≡ (ok (handshake_packet ∷ []), listener none more)
  pub others : feed [] none (listener first_cursor more) ≡ (ok packets, listener after [])

first_frame :
    (more : List ℕ)
    → IsBytes more
    → feed (handshake_bytes ++ more) (some 1) (listener none [])
      ≡ (ok (handshake_packet ∷ []), listener none more)
unfolding feed feed_loop handshake_bytes
first_frame more b =
    let s : Short handshake_packet = handshake-Short in
    let decoded : decode_one (listener none (handshake_bytes ++ more))
        ≡ (ok (some handshake_packet), listener none more) =
      decode_one-encode_frame handshake_packet (listener none []) none handshake_bytes more s.byte
        s.bytes tt b s.within handshake_frame in
    rw decoded refl

hear : (c : Client) → HasSent c → Heard c.written c.outbound_cursor
unfolding feed
hear c sent =
    let (bs, after, f) =
      frames (listener none []) sent.packets first_cursor sent.short
        (cursor-IsCursor local_transform local-IsTransform) in
    let same : ◌≡◌ {A = Result (List ℕ) × Option TransformCursor} (ok bs, after)
        (ok sent.bytes, c.outbound_cursor) =
      sym f.encoded ∙ sent.encoded in
    let same_bytes : bs ≡ sent.bytes = cc (pair_ok same).0 in
    rw (sent.written, sym same_bytes, sym (pair_ok same).1)
      (record {
        more = bs;
        packets = sent.packets;
        first = first_frame bs f.bytes;
        others = rw append-nil (f.loop (suc (length bs)) [] (omega arith));
      })

new-Sent :
    (limit : ℤ) (revision : Option ℤ) (area_push : Bool) (c : Client)
    → new_client limit revision area_push ≡ ok c
    → Sent c
unfolding new_client frame_stream_decoder login_session is_open
new-Sent (negsuc n) revision area_push c e = absurd (cc e)
new-Sent (pos n) revision area_push c e =
    subst Sent (ok-injective _ c e) (record { waiting = λ h. refl; opened = λ h. absurd (cc h) })

-- Whatever the events of a connection are and however it ends, with a splash revision that the
-- configuration admits: while the session waits for the handshake, nothing has been written. From then
-- on, a client that takes the first frame of all that has been written in the clear and the rest with a
-- new cursor of the transformation of the handshake gets the answer to the handshake and then whole
-- packets, with no byte left over and its cursor where the server's is; heartbeats are among them.
pub serve-Heard :
    (limit : ℤ) (revision : Option ℤ) (area_push : Bool) (events : List Event) (c : Client)
    → revision_fits revision ≡ true
    → new_client limit revision area_push ≡ ok c
    → All AreBytes events
    → (is_open (serve events c).1.session.state ≡ false → (serve events c).1.written ≡ [])
      × (is_open (serve events c).1.session.state ≡ true
          → Heard (serve events c).1.written (serve events c).1.outbound_cursor)
serve-Heard limit revision area_push events c fits e b =
    let sent : Sent (serve events c).1 =
      serve-Sent events c (new-IsClient limit revision area_push c fits e)
        (new-Sent limit revision area_push c e) b in
    (sent.waiting, λ opened. hear (serve events c).1 (sent.opened opened))
