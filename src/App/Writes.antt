-- ===== src/App/Writes.antt =====
-- server/app.py: writing the frames of what the session sends.
use army.Common.{
  ℕ, ◌≡◌, refl, ◌∙◌, Bool, true, false, Option, none, some, List, [], ◌∷◌, ◌++◌, length, All,
}
use army.Exec.{ok}
use army.Framing.RoundTrip.{encode_frame-eq, wire, behind_frame}
use army.Framing.Parse.{after, after-HasCursor}
use army.Framing.{length_width, Packet, uses_length32, server_to_client}
use army.Framing.Cursor.{next?-HasCursor, HasCursor, next?}
use army.Transform.{TransformCursor}
use army.Framing.Sendable.{IsSendable}
use army.App.{Client, is_some, write_packet, write_packets}

pub after-is_some :
    (length32 : Bool) (n : ℕ) (c : Option TransformCursor)
    → is_some (after length32 n c) ≡ is_some c
after-is_some true n c = refl
after-is_some false n none = refl
after-is_some false n (some c) = refl

pub next?-is_some : (c : Option TransformCursor) → is_some (next? c) ≡ is_some c
next?-is_some none = refl
next?-is_some (some c) = refl

module _ (length32 : Bool) (p : Packet) (c : Option TransformCursor) where
  behind-HasCursor : HasCursor c → HasCursor (behind_frame length32 p c)
  behind-HasCursor v =
      after-HasCursor length32 (length p.payload) _
        (after-HasCursor length32 (length_width length32) _ (next?-HasCursor c v))

  behind-is_some : is_some (behind_frame length32 p c) ≡ is_some c
  behind-is_some =
      after-is_some length32 (length p.payload) _
      ∙ after-is_some length32 (length_width length32) _
      ∙ next?-is_some c

-- What a client is after some frames have been written.
pub record Wrote (c c' : Client) : Type 0 where
  pub decoder : c'.decoder ≡ c.decoder
  pub session : c'.session ≡ c.session
  pub cursor_valid : HasCursor c'.outbound_cursor
  pub cursor_kept : is_some c'.outbound_cursor ≡ is_some c.outbound_cursor

pub write_packet-ok :
    (p : Packet) (c : Client)
    → IsSendable p
    → HasCursor c.outbound_cursor
    → (c' : Client) × (write_packet p c ≡ (ok tt, c')) × Wrote c c'
unfolding write_packet
write_packet-ok p c s v =
    let length32 = uses_length32 p.command server_to_client in
    (
      record c {
        outbound_cursor = behind_frame length32 p c.outbound_cursor;
        written = c.written ++ wire length32 p c.outbound_cursor;
      },
      rw (encode_frame-eq p s.byte s.bytes server_to_client c.outbound_cursor v s.fits),
      record {
        decoder = refl;
        session = refl;
        cursor_valid = behind-HasCursor length32 p c.outbound_cursor v;
        cursor_kept = behind-is_some length32 p c.outbound_cursor;
      },
    )

pub write_packets-ok :
    (ps : List Packet) (c : Client)
    → All IsSendable ps
    → HasCursor c.outbound_cursor
    → (c' : Client) × (write_packets ps c ≡ (ok tt, c')) × Wrote c c'
unfolding write_packets
write_packets-ok [] c h v =
    (c, refl, record { decoder = refl; session = refl; cursor_valid = v; cursor_kept = refl })
write_packets-ok (p ∷ ps) c h v =
    let (c1, e1, w1) = write_packet-ok p c h.0 v in
    let (c2, e2, w2) = write_packets-ok ps c1 h.1 w1.cursor_valid in
    (
      c2,
      rw (e1, e2),
      record {
        decoder = w2.decoder ∙ w1.decoder;
        session = w2.session ∙ w1.session;
        cursor_valid = w2.cursor_valid;
        cursor_kept = w2.cursor_kept ∙ w1.cursor_kept;
      },
    )
